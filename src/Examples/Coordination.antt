-- ===== src/Examples/Coordination.antt =====
-- The coordinator at one cut result of a task whose source is stored.
use cv_video_analysis.Common.{Option, ◌≡◌, refl, true, false, none, some, [], ◌∷◌, ℕ, arith}
use cv_video_analysis.Common.Texts.{text_eq, Text, codes, pad, text_eq_refl}
use cv_video_analysis.Common.Indices.{mem, add}
use cv_video_analysis.Common.Maps.{get_or}
use cv_video_analysis.Domain.Floats.{whole}
use cv_video_analysis.Store.{Redis, no_task}
use cv_video_analysis.Store.Keys.{task_key, chunk_id}
use cv_video_analysis.Repository.Errors.{ok}
use cv_video_analysis.Repository.Status.{get_source}
use cv_video_analysis.Repository.Cut.Order.{Dispatched}
use cv_video_analysis.Repository.Cut.Script.{next_of}
use cv_video_analysis.Coordinator.{
  CutResultMessage, Codec, tracking_job, accepts_job, handle_cut_result, is_dispatched,
}
use cv_video_analysis.Coordinator.Jobs.{job_arguments, IsJobOf, handle_cut_result-Dispatched}
use cv_video_analysis.Examples.{task, empty}
use cv_video_analysis.Examples.Pipeline.{arguments}

abbrev result : CutResultMessage ℕ
result = record {
  task_id = task;
  chunk_id = chunk_id task 0;
  chunk_index = 0;
  object_ref = codes "ref";
  fps = 30;
  context_start_frame = 0;
  context_end_frame = 127;
  valid_start_frame = 0;
  valid_end_frame = 127;
  transitions = [];
  scenes = [];
  is_last = true;
}

-- Every payload but the empty one is that result.
abbrev parse : Text → Option (CutResultMessage ℕ)
parse [] = none
parse (c ∷ payload) = some result

abbrev codec : Codec ℕ
codec = record {
  parse_cut_result = parse;
  dump_cut_result = λ m. pad 8 m.chunk_index;
  dump_job = λ j. pad 8 j.chunk_index;
  source_classes = λ source. none;
}

abbrev started : Redis ℕ
started = record empty {
  tasks = (task_key task, record no_task { source = some (codes "upload") }) ∷ [];
}

next_started : next_of whole (job_arguments arguments) task started ≡ 0
unfolding get_or
next_started = rw text_eq_refl refl

source_started : get_source task started ≡ ok (codes "upload")
unfolding get_source get_or text_eq task_key
source_started = refl

started-Dispatched :
    Dispatched (job_arguments arguments) task (IsJobOf whole codec arguments task) [] [] 0 started
unfolding get_or mem
started-Dispatched = record {
  log = [];
  logged = refl;
  in_order = tt;
  length_log = refl;
  waiting = λ i p le e. absurd (ground (arith, e));
  unsent = λ i le. refl;
  seen = λ i. refl;
  arrived = λ i lt. absurd (omega arith);
  buffered = λ i le. refl;
}

accepted : accepts_job (tracking_job result none) ≡ true
unfolding accepts_job tracking_job
accepted = refl

handle_cut_result-Dispatched_example :
    let (end, r') = handle_cut_result whole codec arguments (some (codes "x")) started started in
    Dispatched
      (job_arguments arguments)
      task
      (IsJobOf whole codec arguments task)
      []
      (add 0 [])
      (next_of whole (job_arguments arguments) task r')
      r'
    × (mem (next_of whole (job_arguments arguments) task r') (add 0 []) ≡ false)
    × (is_dispatched end ≡ true)
handle_cut_result-Dispatched_example =
    handle_cut_result-Dispatched whole codec arguments [] [] (codes "x") (codes "upload") result
      started started refl refl source_started accepted (rw next_started started-Dispatched)

not_parsed :
    is_dispatched (handle_cut_result whole codec arguments (some []) started started).0 ≡ false
unfolding handle_cut_result is_dispatched
not_parsed = refl
