-- ===== src/Examples/Pipeline.antt =====
-- The dispatch of tracking jobs and the tracking results at concrete inputs.
use cv_video_analysis.Common.{
  ℕ, ◌≡◌, ◌<◌, ◌≤◌, ◌+◌, refl, true, false, none, some, not, [], ◌∷◌, List, leb, if◌then◌else◌,
  length, arith,
}
use cv_video_analysis.Common.Texts.{Text, codes, pad, text_eq}
use cv_video_analysis.Common.Indices.{mem, add}
use cv_video_analysis.Common.Maps.{get_or}
use cv_video_analysis.Domain.Enums.{cut_detection}
use cv_video_analysis.Domain.Floats.{whole}
use cv_video_analysis.Store.{Redis, StreamEntry, TaskHash, chunk_at, no_task, no_chunk}
use cv_video_analysis.Store.Keys.{task_key, chunk_id, lua_chunk_key}
use cv_video_analysis.Repository.Errors.{ok, err, tracking_order}
use cv_video_analysis.Repository.Ingest.{StreamFields, stream_entry}
use cv_video_analysis.Repository.Cut.{CutArguments, pending, dispatch_loop}
use cv_video_analysis.Repository.Cut.Pending.{dispatch_loop_stops}
use cv_video_analysis.Repository.Cut.Order.{Dispatched}
use cv_video_analysis.Repository.Cut.Script.{next_of, record_cut, record_cut-Dispatched}
use cv_video_analysis.Repository.Tracking.{publish_tracking_result_in_order}
use cv_video_analysis.Repository.Tracking.Done.{
  Tracked, total_of, mark, mark-Tracked, completions, completions-le_one,
}
use cv_video_analysis.Repository.Tracking.Results.{
  Sequenced, next_result, publish_tracking_result_in_order_lem,
}
use cv_video_analysis.Examples.{task, now, stream, empty, entry}

abbrev pub arguments : CutArguments
arguments = record {
  ttl = 60;
  now = now;
  stream = stream;
  prefix = [];
  event_type = codes "chunk";
  schema_version = codes "1";
  update_every = 2;
}

-- The job of chunk `i` carries the text of `i`.
abbrev OfChunk : ℕ → StreamEntry → Type 0
OfChunk i e = e.payload ≡ pad 8 i

empty-Dispatched : Dispatched arguments task OfChunk [] [] 0 empty
unfolding get_or mem
empty-Dispatched = record {
  log = [];
  logged = refl;
  in_order = tt;
  length_log = refl;
  waiting = λ i p le e. absurd (ground (arith, e));
  unsent = λ i le. refl;
  seen = λ i. refl;
  arrived = λ i lt. absurd (omega arith);
  buffered = λ i le. refl;
}

-- The job of chunk 0 waits.
abbrev one_waits : Redis ℕ
one_waits = record empty {
  chunks = (lua_chunk_key [] 0, record no_chunk { tracking_job_payload = some (pad 8 0) }) ∷ [];
}

next_empty : next_of whole arguments task empty ≡ 0
unfolding get_or
next_empty = refl

record_cut-Dispatched_example :
    let ((is_new, count, next, total), r') =
      record_cut whole arguments task 1 (codes "cut") (codes "ref") (pad 8 1) empty in
    Dispatched arguments task OfChunk [] (add 1 []) (next_of whole arguments task r') r'
    × (mem (next_of whole arguments task r') (add 1 []) ≡ false)
    × (next ≡ next_of whole arguments task r')
    × (next_of whole arguments task empty ≤ next_of whole arguments task r')
    × (is_new ≡ not (mem 1 []))
record_cut-Dispatched_example =
    record_cut-Dispatched whole arguments task OfChunk [] [] 1 (codes "cut") (codes "ref") (pad 8 1)
      empty (rw next_empty empty-Dispatched) refl

dispatch_loop_stops_example :
    let (next', r') = dispatch_loop arguments 2 0 one_waits in
    (chunk_at r' (lua_chunk_key [] next')).tracking_job_payload ≡ none
unfolding pending
dispatch_loop_stops_example = dispatch_loop_stops arguments 2 0 one_waits (omega arith)

empty-Tracked : Tracked task [] empty
unfolding get_or mem
empty-Tracked = record { recorded = λ i. refl; counted = refl; distinct = tt }

mark-Tracked_example :
    let ((cut_done, is_new, completed, total), r') = mark whole 60 now 2 task 0 (codes "x") empty in
    Tracked task (add 0 []) r'
    × (is_new ≡ not (mem 0 []))
    × (completed ≡ length (add 0 []))
    × (total ≡ total_of task empty)
    × (total_of task r' ≡ total_of task empty)
mark-Tracked_example = mark-Tracked whole 60 now 2 task [] 0 (codes "x") empty empty-Tracked

-- A task of two chunks.
abbrev two_chunks : TaskHash ℕ
two_chunks = record no_task { total_chunks = some 2; stage = some cut_detection }

abbrev known : Redis ℕ
known = record empty { tasks = (task_key task, two_chunks) ∷ [] }

known-Tracked : Tracked task [] known
unfolding get_or mem task_key text_eq
known-Tracked = record { recorded = λ i. refl; counted = refl; distinct = tt }

total_known : total_of task known ≡ 2
unfolding get_or task_key text_eq
total_known = refl

abbrev results : List (ℕ × Text)
results = (1, codes "x") ∷ (0, codes "y") ∷ (1, codes "z") ∷ []

completions-le_one_example :
    completions whole 60 now 2 task results known + (if leb 2 0 then 1 else 0) ≤ 1
completions-le_one_example =
    completions-le_one whole 60 now 2 task [] results 2 known known-Tracked total_known tt
      (omega arith, (omega arith, (omega arith, tt)))

abbrev result_fields : StreamFields
result_fields = record {
  event_type = some (codes "chunk");
  schema_version = some (codes "1");
  payload = some (pad 8 0);
}

empty-Sequenced : Sequenced task stream OfChunk [] empty
unfolding get_or
empty-Sequenced = record { log = []; logged = refl; in_order = tt; length_log = refl }

complete_fields : stream_entry result_fields ≡ some (entry 0)
unfolding stream_entry
complete_fields = refl

publish_tracking_result_in_order_lem_example :
    let (result, r') =
      publish_tracking_result_in_order 60 task (chunk_id task 0) 0 stream result_fields empty in
    Sequenced task stream OfChunk [] r'
    × (0 < next_result task empty → (result ≡ ok false) × (r' ≡ empty))
    × (next_result task empty < 0
        → (result ≡ err (tracking_order (next_result task empty) 0)) × (r' ≡ empty))
    × (0 ≡ next_result task empty → (result ≡ ok true) × (next_result task r' ≡ 1))
publish_tracking_result_in_order_lem_example =
    publish_tracking_result_in_order_lem 60 task stream OfChunk [] 0 result_fields (entry 0)
      complete_fields empty refl empty-Sequenced
