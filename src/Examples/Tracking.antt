-- ===== src/Examples/Tracking.antt =====
-- The tracking worker on the first chunk of a task, delivered twice.
use cv_video_analysis.Common.{ℕ, ◌≡◌, refl, Option, some, none, true, false, []}
use cv_video_analysis.Common.Texts.{Text, codes}
use cv_video_analysis.Common.Maps.{get_or}
use cv_video_analysis.Common.Tables.{lookup}
use cv_video_analysis.Domain.Floats.{whole, float_max}
use cv_video_analysis.Store.{StreamEntry}
use cv_video_analysis.Store.Keys.{chunk_id}
use cv_video_analysis.Coordinator.{TrackingJobMessage}
use cv_video_analysis.Repository.Tracking.Results.{Sequenced, next_result}
use cv_video_analysis.TrackingWorker.{
  TrackingResultMessage, ResultCodec, Inference, TrackingStore, tracking_cache_key, completed,
  handle_job, result_of,
}
use cv_video_analysis.TrackingWorker.Redelivery.{state_of, redelivered_result}
use cv_video_analysis.Examples.{empty, task, stream}

abbrev job : TrackingJobMessage ℕ
job = record {
  task_id = task;
  chunk_id = chunk_id task 0;
  chunk_index = 0;
  object_ref = codes "obj";
  fps = 25;
  context_start_frame = 3;
  context_end_frame = 4;
  valid_start_frame = 3;
  valid_end_frame = 4;
  scenes = [];
  transitions = [];
  tracking_classes = none;
  is_last = false;
  cut_verified = true;
}

abbrev result : TrackingResultMessage ℕ
result = record {
  task_id = task;
  chunk_id = chunk_id task 0;
  chunk_index = 0;
  object_ref = codes "obj";
  tracks = [];
  tracking_processing_ms = 8;
}

abbrev codec : ResultCodec ℕ
codec = record { parse_result = λ json. some result; dump_result = λ m. codes "{}" }

abbrev inference : Inference ℕ
inference = record { tracks = []; processing_ms = 8; checkpoint = some (codes "state") }

abbrev answers : Option Text → Option (Inference ℕ)
answers checkpoint = some inference

abbrev fails : Option Text → Option (Inference ℕ)
fails checkpoint = none

abbrev store : TrackingStore ℕ
store = record { redis = empty; cached = []; states = [] }

abbrev Anything : ℕ → StreamEntry → Type 0
Anything i e = Unit

nothing_yet : Sequenced task stream Anything [] empty
unfolding get_or
nothing_yet = record { log = []; logged = refl; in_order = tt; length_log = refl }

nothing_cached : lookup store.cached (tracking_cache_key job.task_id job.chunk_index) ≡ none
unfolding lookup
nothing_cached = refl

reads_back : codec.parse_result (codes "{}") ≡ some (result_of whole codec 60 stream job inference)
unfolding result_of float_max
reads_back = refl

redelivered_result_example :
    let (first, w1) = handle_job whole codec 60 stream job answers store in
    let (second, w2) = handle_job whole codec 60 stream job fails w1 in
    (first ≡ completed true)
    × (second ≡ completed false)
    × Sequenced task stream Anything [] w1.redis
    × (next_result task w1.redis ≡ 1)
    × (state_of whole codec 60 stream job w1 ≡ some (codes "state"))
    × (w2.redis ≡ w1.redis)
    × (w2.cached ≡ w1.cached)
    × (state_of whole codec 60 stream job w2 ≡ state_of whole codec 60 stream job w1)
unfolding get_or
redelivered_result_example =
    redelivered_result whole codec 60 stream job Anything [] answers fails inference b's' b'{'
      (codes "tate") (codes "}") store refl refl refl nothing_cached refl refl refl reads_back refl
      tt nothing_yet
