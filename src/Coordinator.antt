-- ===== src/Coordinator.antt =====
-- backend/app/workers/coordinator.py: the handler of cut results, with the tracking job that it makes
-- of one. The JSON of the messages is a parameter, `Codec`.
pub mod Jobs
use cv_video_analysis.Common.{
  false, ℕ, Bool, true, ◌&&◌, Option, none, some, List, if◌then◌else◌, leb,
}
use cv_video_analysis.Common.Texts.{Text, codes}
use cv_video_analysis.Domain.Floats.{Floats}
use cv_video_analysis.Store.{Redis}
use cv_video_analysis.Repository.Errors.{RepositoryError, Result, ok, err}
use cv_video_analysis.Repository.Status.{get_source}
use cv_video_analysis.Repository.Ingest.{StreamFields}
use cv_video_analysis.Repository.Cut.{CutArguments, record_cut_and_dispatch}
use cv_video_analysis.Results.{SceneInterval, Transition}

-- The fields of `CutResultMessage` but for its timings.
pub record CutResultMessage (N : Type 0) : Type 0 where
  pub task_id : Text
  pub chunk_id : Text
  pub chunk_index : ℕ
  pub object_ref : Text
  pub fps : N
  pub context_start_frame : ℕ
  pub context_end_frame : ℕ
  pub valid_start_frame : ℕ
  pub valid_end_frame : ℕ
  pub transitions : List (Transition N)
  pub scenes : List SceneInterval
  pub is_last : Bool

pub record TrackingJobMessage (N : Type 0) : Type 0 where
  pub task_id : Text
  pub chunk_id : Text
  pub chunk_index : ℕ
  pub object_ref : Text
  pub fps : N
  pub context_start_frame : ℕ
  pub context_end_frame : ℕ
  pub valid_start_frame : ℕ
  pub valid_end_frame : ℕ
  pub scenes : List SceneInterval
  pub transitions : List (Transition N)
  pub tracking_classes : Option (List Text)
  pub is_last : Bool
  pub cut_verified : Bool

-- What pydantic reads and writes; `none` is a ValidationError.
pub record Codec (N : Type 0) : Type 0 where
  pub parse_cut_result : Text → Option (CutResultMessage N)
  pub dump_cut_result : CutResultMessage N → Text
  pub dump_job : TrackingJobMessage N → Text
  -- The field `tracking_classes` of a source.
  pub source_classes : Text → Option (List Text)

pub data Coordinated : Type 0 where
  dispatched : Bool × ℕ × ℕ × ℕ → Coordinated
  no_payload invalid_cut_result invalid_job : Coordinated
  raised : RepositoryError → Coordinated

unfoldable pub is_dispatched : Coordinated → Bool
is_dispatched (dispatched answer) = true
is_dispatched no_payload = false
is_dispatched invalid_cut_result = false
is_dispatched invalid_job = false
is_dispatched (raised e) = false

module _ {N : Type 0} where
  unfoldable pub tracking_job : CutResultMessage N → Option (List Text) → TrackingJobMessage N
  tracking_job m classes = record {
    task_id = m.task_id;
    chunk_id = m.chunk_id;
    chunk_index = m.chunk_index;
    object_ref = m.object_ref;
    fps = m.fps;
    context_start_frame = m.context_start_frame;
    context_end_frame = m.context_end_frame;
    valid_start_frame = m.valid_start_frame;
    valid_end_frame = m.valid_end_frame;
    scenes = m.scenes;
    transitions = m.transitions;
    tracking_classes = classes;
    is_last = m.is_last;
    cut_verified = true;
  }

  -- `prevent_pipeline_skip`
  unfoldable pub accepts_job : TrackingJobMessage N → Bool
  accepts_job j =
      j.cut_verified
      && (leb j.context_start_frame j.valid_start_frame
          && (leb j.valid_start_frame j.valid_end_frame
              && leb j.valid_end_frame j.context_end_frame))

-- `model_to_stream_fields` of a tracking job, given its JSON.
abbrev pub job_fields : Text → StreamFields
job_fields json = record {
  event_type = some (codes "TrackingJobMessage");
  schema_version = some (codes "1");
  payload = some json;
}

module _ {N : Type 0} (F : Floats N) (C : Codec N) (a : CutArguments) where
  unfoldable pub reply : Result (Bool × ℕ × ℕ × ℕ) × Redis N → Coordinated × Redis N
  reply (ok answer, r) = (dispatched answer, r)
  reply (err e, r) = (raised e, r)

  -- The last call, once the job is made.
  unfoldable pub send_to_tracking :
      CutResultMessage N → TrackingJobMessage N → Redis N → Coordinated × Redis N
  unfolding reply accepts_job
  send_to_tracking m job r =
      if accepts_job job
      then reply (
          record_cut_and_dispatch F a m.task_id m.chunk_id m.chunk_index (C.dump_cut_result m)
            m.object_ref (job_fields (C.dump_job job)) r)
      else (invalid_job, r)

  unfoldable pub with_source : CutResultMessage N → Result Text → Redis N → Coordinated × Redis N
  unfolding send_to_tracking tracking_job
  with_source m (err e) r = (raised e, r)
  with_source m (ok source) r = send_to_tracking m (tracking_job m (C.source_classes source)) r

  -- `at_source` is the store when the source is read, `r` the one when the script runs.
  unfoldable pub with_cut_result :
      Option (CutResultMessage N) → Redis N → Redis N → Coordinated × Redis N
  unfolding with_source
  with_cut_result none at_source r = (invalid_cut_result, r)
  with_cut_result (some m) at_source r = with_source m (get_source m.task_id at_source) r

  -- The handler, given the field `payload` of the stream message.
  unfoldable pub handle_cut_result : Option Text → Redis N → Redis N → Coordinated × Redis N
  unfolding with_cut_result
  handle_cut_result none at_source r = (no_payload, r)
  handle_cut_result (some payload) at_source r =
      with_cut_result (C.parse_cut_result payload) at_source r
