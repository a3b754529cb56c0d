-- ===== src/Store.antt =====
-- What backend/app/infrastructure/task_repository.py keeps in Redis. A hash is read field by
-- field: `none` is a field that is absent or holds the empty text, which every reader takes alike.
-- Numbers and stages stand for their texts. A stream is the log of what XADD appended to it; the
-- trimming that MAXLEN asks of Redis, and the end of a key at its expiry, are Redis's own.
pub mod Keys
use cv_video_analysis.Common.{
  ℕ, Bool, true, false, ◌||◌, List, [], ◌∷◌, ◌++◌, Option, none, is_some,
}
use cv_video_analysis.Common.Texts.{Text}
use cv_video_analysis.Common.Maps.{Map, get_or, put}
use cv_video_analysis.Domain.Enums.{TaskStage}

-- The hash `cv:task:<task_id>`.
pub record TaskHash (N : Type 0) : Type 0 where
  pub task_id : Option Text
  pub stage : Option TaskStage
  pub progress : Option N
  pub message : Option Text
  pub created_at : Option Text
  pub updated_at : Option Text
  pub processing_started_at : Option Text
  pub total_chunks : Option ℕ
  pub cut_completed_chunks : Option ℕ
  pub tracking_completed_chunks : Option ℕ
  pub error_code : Option Text
  pub error_detail : Option Text
  pub source : Option Text
  pub ingest_published_chunks : Option ℕ
  pub ingest_complete : Bool
  pub next_tracking_chunk : Option ℕ
  pub next_tracking_result_chunk : Option ℕ
  -- The seconds that the last EXPIRE gave.
  pub expires : Option ℕ

-- A key that is not there.
abbrev pub no_task : {N : Type 0} → TaskHash N
no_task = record {
  task_id = none;
  stage = none;
  progress = none;
  message = none;
  created_at = none;
  updated_at = none;
  processing_started_at = none;
  total_chunks = none;
  cut_completed_chunks = none;
  tracking_completed_chunks = none;
  error_code = none;
  error_detail = none;
  source = none;
  ingest_published_chunks = none;
  ingest_complete = false;
  next_tracking_chunk = none;
  next_tracking_result_chunk = none;
  expires = none;
}

-- The hash `cv:chunk:<task_id>:<index>`. A flag is a field that holds '1'.
pub record ChunkHash : Type 0 where
  pub ingest_published : Bool
  pub ingest_payload : Option Text
  pub object_ref : Option Text
  pub chunk_index : Option ℕ
  pub cut_done : Bool
  pub cut_payload : Option Text
  pub tracking_job_payload : Option Text
  pub tracking_job_dispatched : Bool
  pub tracking_done : Bool
  pub tracking_payload : Option Text
  pub tracking_result_published : Bool
  pub chunk_expires : Option ℕ

abbrev pub no_chunk : ChunkHash
no_chunk = record {
  ingest_published = false;
  ingest_payload = none;
  object_ref = none;
  chunk_index = none;
  cut_done = false;
  cut_payload = none;
  tracking_job_payload = none;
  tracking_job_dispatched = false;
  tracking_done = false;
  tracking_payload = none;
  tracking_result_published = false;
  chunk_expires = none;
}

-- The fields of a stream entry that the repository appends.
pub record StreamEntry : Type 0 where
  pub event_type : Text
  pub schema_version : Text
  pub payload : Text

pub record Redis (N : Type 0) : Type 0 where
  pub tasks : Map (TaskHash N)
  pub chunks : Map ChunkHash
  pub streams : Map (List StreamEntry)
  pub results : Map (Option Text)
  pub metadata : Map (Option Text)

module _ {N : Type 0} where
  abbrev pub task_at : Redis N → Text → TaskHash N
  task_at r k = get_or r.tasks k no_task

  abbrev pub chunk_at : Redis N → Text → ChunkHash
  chunk_at r k = get_or r.chunks k no_chunk

  abbrev pub stream_at : Redis N → Text → List StreamEntry
  stream_at r k = get_or r.streams k []

  abbrev pub set_task : Redis N → Text → TaskHash N → Redis N
  set_task r k h = record r { tasks = put r.tasks k h }

  abbrev pub set_chunk : Redis N → Text → ChunkHash → Redis N
  set_chunk r k h = record r { chunks = put r.chunks k h }

  -- XADD
  abbrev pub xadd : Redis N → Text → StreamEntry → Redis N
  xadd r k e = record r { streams = put r.streams k (stream_at r k ++ e ∷ []) }

  -- EXISTS: Redis holds a hash while it holds a field.
  unfoldable pub task_exists : TaskHash N → Bool
  task_exists h =
      is_some h.task_id
      || (is_some h.stage
          || (is_some h.progress
              || (is_some h.message
                  || (is_some h.created_at
                      || (is_some h.updated_at
                          || (is_some h.processing_started_at
                              || (is_some h.total_chunks
                                  || (is_some h.cut_completed_chunks
                                      || (is_some h.tracking_completed_chunks
                                          || (is_some h.error_code
                                              || (is_some h.error_detail
                                                  || (is_some h.source
                                                      || (is_some h.ingest_published_chunks
                                                          || (h.ingest_complete
                                                            || (is_some h.next_tracking_chunk
                                                            || is_some
                                                            h.next_tracking_result_chunk)))))))))))))))
