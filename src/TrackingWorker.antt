-- ===== src/TrackingWorker.antt =====
-- `RealTrackingHandler` of participant_3_tracking/worker.py: its cache and its checkpoints in Redis, and
-- the handler of a job that was read from its message. The JSON of the results is a parameter,
-- `ResultCodec`; what the actor answers is an argument.
pub mod Redelivery
use cv_video_analysis.Common.{
  ℕ, ◌+◌, Bool, true, false, not, Option, none, some, List, [], ◌∷◌, ◌++◌, if◌then◌else◌,
}
use cv_video_analysis.Common.Texts.{Text, codes, pad}
use cv_video_analysis.Common.Maps.{Map, put}
use cv_video_analysis.Common.Tables.{lookup, remove}
use cv_video_analysis.Domain.Floats.{Floats, float_max}
use cv_video_analysis.Store.{Redis}
use cv_video_analysis.Coordinator.{TrackingJobMessage}
use cv_video_analysis.Repository.Errors.{RepositoryError, Result, ok, err}
use cv_video_analysis.Repository.Ingest.{StreamFields}
use cv_video_analysis.Repository.Tracking.{publish_tracking_result_in_order}
use cv_video_analysis.Tracker.{TrackedObject}

pub record TrackingResultMessage (N : Type 0) : Type 0 where
  pub task_id : Text
  pub chunk_id : Text
  pub chunk_index : ℕ
  pub object_ref : Text
  pub tracks : List (TrackedObject N)
  pub tracking_processing_ms : N

-- What pydantic writes and reads; `none` is a ValidationError.
pub record ResultCodec (N : Type 0) : Type 0 where
  pub parse_result : Text → Option (TrackingResultMessage N)
  pub dump_result : TrackingResultMessage N → Text

-- The answer of the actor; a checkpoint that is not a text is `none`.
pub record Inference (N : Type 0) : Type 0 where
  pub tracks : List (TrackedObject N)
  pub processing_ms : N
  pub checkpoint : Option Text

-- The keys of the worker, and those of the task repository, in one store.
pub record TrackingStore (N : Type 0) : Type 0 where
  pub redis : Redis N
  pub cached : Map Text
  pub states : Map Text

pub data TrackingOutcome : Type 0 where
  completed : Bool → TrackingOutcome
  not_verified : TrackingOutcome
  invalid_cache : TrackingOutcome
  inference_failed : TrackingOutcome
  no_checkpoint : TrackingOutcome
  not_published : RepositoryError → TrackingOutcome

unfoldable pub tracking_state_key : Text → Text
tracking_state_key task = codes "cv:ml:yolo-ensemble-bytetrack-state:v3:" ++ task

unfoldable pub tracking_cache_key : Text → ℕ → Text
tracking_cache_key task chunk_index =
    codes "cv:ml:yolo-ensemble-bytetrack-result:v3:" ++ (task ++ (b':' ∷ pad 8 chunk_index))

-- `model_to_stream_fields` of a result, given its JSON.
abbrev pub result_fields : Text → StreamFields
result_fields json = record {
  event_type = some (codes "TrackingResultMessage");
  schema_version = some (codes "1");
  payload = some json;
}

module _ {N : Type 0} (F : Floats N) (C : ResultCodec N) (ttl : ℕ) (stream : Text)
    (job : TrackingJobMessage N) where
  abbrev pub result_with : List (TrackedObject N) → N → TrackingResultMessage N
  result_with tracks ms = record {
    task_id = job.task_id;
    chunk_id = job.chunk_id;
    chunk_index = job.chunk_index;
    object_ref = job.object_ref;
    tracks = tracks;
    tracking_processing_ms = ms;
  }

  -- `max(0.0, ...)` of what the actor measured.
  unfoldable pub result_of : Inference N → TrackingResultMessage N
  unfolding float_max
  result_of i = result_with i.tracks (float_max F (F.of_nat 0) i.processing_ms)

  -- What follows the publication: the last chunk's state is deleted.
  unfoldable pub after_publish :
      Result Bool × Redis N → TrackingStore N → TrackingOutcome × TrackingStore N
  unfolding tracking_state_key
  after_publish (err e, r) w = (not_published e, record w { redis = r })
  after_publish (ok is_new, r) w = (
    completed is_new,
    record w {
      redis = r;
      states = if job.is_last then remove w.states (tracking_state_key job.task_id) else w.states;
    },
  )

  unfoldable pub publish_result :
      TrackingResultMessage N → TrackingStore N → TrackingOutcome × TrackingStore N
  unfolding after_publish publish_tracking_result_in_order
  publish_result m w =
      after_publish
        (publish_tracking_result_in_order ttl job.task_id job.chunk_id job.chunk_index stream
          (result_fields (C.dump_result m)) w.redis)
        w

  unfoldable pub cache_result : TrackingResultMessage N → TrackingStore N → TrackingStore N
  unfolding tracking_cache_key
  cache_result m w = record w {
    cached = put w.cached (tracking_cache_key m.task_id m.chunk_index) (C.dump_result m);
  }

  -- `_persist_internal_state`: one transaction.
  unfoldable pub persist_internal_state :
      TrackingResultMessage N → Text → TrackingStore N → TrackingStore N
  unfolding cache_result tracking_state_key
  persist_internal_state m checkpoint w = record (cache_result m w) {
    states = put w.states (tracking_state_key m.task_id) checkpoint;
  }

  unfoldable pub with_checkpoint :
      TrackingResultMessage N → Option Text → TrackingStore N → TrackingOutcome × TrackingStore N
  unfolding publish_result persist_internal_state
  with_checkpoint m none w = (no_checkpoint, w)
  with_checkpoint m (some []) w = (no_checkpoint, w)
  with_checkpoint m (some (ch ∷ text)) w = publish_result m (persist_internal_state m (ch ∷ text) w)

  -- `none` is an `_infer` that raises.
  unfoldable pub with_answer :
      Option (Inference N) → TrackingStore N → TrackingOutcome × TrackingStore N
  unfolding with_checkpoint result_of
  with_answer none w = (inference_failed, w)
  with_answer (some i) w = with_checkpoint (result_of i) i.checkpoint w

  -- `infer` takes the checkpoint that is stored.
  module _ (infer : Option Text → Option (Inference N)) where
    unfoldable pub with_classes :
        Option (List Text) → TrackingStore N → TrackingOutcome × TrackingStore N
    unfolding with_answer publish_result cache_result
    with_classes (some []) w =
        let m = result_with [] (F.of_nat 0) in publish_result m (cache_result m w)
    with_classes (some (name ∷ names)) w =
        with_answer (infer (lookup w.states (tracking_state_key job.task_id))) w
    with_classes none w = with_answer (infer (lookup w.states (tracking_state_key job.task_id))) w

    unfoldable pub with_parsed :
        Option (TrackingResultMessage N) → TrackingStore N → TrackingOutcome × TrackingStore N
    unfolding publish_result
    with_parsed none w = (invalid_cache, w)
    with_parsed (some m) w = publish_result m w

    -- `if cached`: an empty text counts as none.
    unfoldable pub with_cached_text :
        Option Text → TrackingStore N → TrackingOutcome × TrackingStore N
    unfolding with_classes with_parsed
    with_cached_text none w = with_classes job.tracking_classes w
    with_cached_text (some []) w = with_classes job.tracking_classes w
    with_cached_text (some (ch ∷ json)) w = with_parsed (C.parse_result (ch ∷ json)) w

    unfoldable pub handle_job : TrackingStore N → TrackingOutcome × TrackingStore N
    unfolding with_cached_text tracking_cache_key
    handle_job w =
        if not job.cut_verified
        then (not_verified, w)
        else with_cached_text (lookup w.cached (tracking_cache_key job.task_id job.chunk_index)) w
