-- ===== src/Repository/Status.antt =====
-- `TaskStatus`, `_status_mapping`, `_status_from_mapping`, `get_status`, `create`,
-- `create_many_and_enqueue`, `create_and_enqueue`, `get_backpressure_state`, `get_source`.
pub mod Reading
pub mod Fields
pub mod Creation
use cv_video_analysis.Common.{
  ℕ, zero, suc, ◌+◌, Bool, true, false, not, ◌&&◌, Option, none, some, List, [], ◌∷◌, ◌++◌,
  if◌then◌else◌, or_else,
}
use cv_video_analysis.Common.Texts.{Text, codes}
use cv_video_analysis.Domain.Enums.{TaskStage, queued}
use cv_video_analysis.Domain.Floats.{Floats}
use cv_video_analysis.Store.{
  TaskHash, no_task, StreamEntry, Redis, task_at, set_task, xadd, task_exists,
}
use cv_video_analysis.Store.Keys.{task_key}
use cv_video_analysis.Repository.Errors.{
  Result, ok, err, task_not_found, status_unavailable, no_tasks, ◌>>=◌,
}

-- `TaskStatus` of domain/schemas.py
pub record TaskStatus (N : Type 0) : Type 0 where
  pub task_id : Text
  pub stage : TaskStage
  pub progress : N
  pub message : Text
  pub created_at : Text
  pub updated_at : Text
  pub processing_started_at : Option Text
  pub total_chunks : ℕ
  pub cut_completed_chunks : ℕ
  pub tracking_completed_chunks : ℕ
  pub error_code : Option Text
  pub error_detail : Option Text

-- `data.get(key) or None`: the empty text is None.
unfoldable pub or_none : Option Text → Option Text
or_none none = none
or_none (some []) = none
or_none (some t) = some t

-- One HGETALL: it raises, or it answers with a hash.
pub data Read (N : Type 0) : Type 0 where
  broken : Read N
  answer : TaskHash N → Read N

module _ {N : Type 0} where
  -- The fields that HSET writes over those of `h`: `_status_mapping` gives all twelve. The store is
  -- typed; the texts that `_status_mapping` makes of the fields are in Repository.Status.Fields.
  unfoldable pub status_mapping : TaskStatus N → TaskHash N → TaskHash N
  status_mapping s h = record h {
    task_id = some s.task_id;
    stage = some s.stage;
    progress = some s.progress;
    message = some s.message;
    created_at = some s.created_at;
    updated_at = some s.updated_at;
    processing_started_at = s.processing_started_at;
    total_chunks = some s.total_chunks;
    cut_completed_chunks = some s.cut_completed_chunks;
    tracking_completed_chunks = some s.tracking_completed_chunks;
    error_code = s.error_code;
    error_detail = s.error_detail;
  }

module _ {N : Type 0} (F : Floats N) where
  -- `Field(ge=0.0, le=100.0)` of the progress.
  unfoldable pub is_valid_progress : N → Bool
  is_valid_progress p = not (F.lt p (F.of_nat 0)) && not (F.lt (F.of_nat 100) p)

  -- `none` is an exception: a missing key, or a value that the schema refuses.
  unfoldable pub status_from_fields :
      TaskHash N
      → Option Text
      → Option TaskStage
      → Option N
      → Option Text
      → Option Text
      → Option Text
      → Option (TaskStatus N)
  unfolding is_valid_progress or_none
  status_from_fields h (some task) (some stage) (some progress) (some message) (some created)
        (some updated) =
      if is_valid_progress progress
      then some (record {
        task_id = task;
        stage = stage;
        progress = progress;
        message = message;
        created_at = created;
        updated_at = updated;
        processing_started_at = or_none h.processing_started_at;
        total_chunks = or_else h.total_chunks 0;
        cut_completed_chunks = or_else h.cut_completed_chunks 0;
        tracking_completed_chunks = or_else h.tracking_completed_chunks 0;
        error_code = or_none h.error_code;
        error_detail = or_none h.error_detail;
      })
      else none
  status_from_fields h _ _ _ _ _ _ = none

  unfoldable pub status_from_mapping : TaskHash N → Option (TaskStatus N)
  unfolding status_from_fields
  status_from_mapping h =
      status_from_fields h h.task_id h.stage h.progress h.message h.created_at h.updated_at

  -- What one attempt of `get_status` settles; `none` is an attempt to be repeated.
  unfoldable pub attempt_outcome : Text → Read N → Option (Result (TaskStatus N))
  unfolding task_exists status_from_mapping
  attempt_outcome task broken = none
  attempt_outcome task (answer h) =
      if task_exists h
      then elim (status_from_mapping h) [ none ↦ none | some s ↦ some (ok s) ]
      else some (err (task_not_found task))

  -- `for attempt in range(...)`: the attempts that are left, and what each reads.
  unfoldable pub get_status_from : Text → (ℕ → Read N) → ℕ → ℕ → Result (TaskStatus N)
  get_status_from task reads attempt zero = err (status_unavailable task)
  get_status_from task reads attempt (suc left) =
      let again = get_status_from task reads (attempt + 1) left in
      elim (attempt_outcome task (reads attempt)) [ none ↦ again | some r ↦ r ]

  unfoldable pub get_status : Text → ℕ → (ℕ → Read N) → Result (TaskStatus N)
  unfolding get_status_from
  get_status task max_attempts reads = get_status_from task reads 0 max_attempts

  -- The status that `create` and `create_many_and_enqueue` build.
  unfoldable pub queued_status : Text → Text → TaskStatus N
  queued_status task now = record {
    task_id = task;
    stage = queued;
    progress = F.of_nat 0;
    message = codes "Task accepted and queued";
    created_at = now;
    updated_at = now;
    processing_started_at = none;
    total_chunks = 0;
    cut_completed_chunks = 0;
    tracking_completed_chunks = 0;
    error_code = none;
    error_detail = none;
  }

  -- HSET of the mapping with its source, and EXPIRE.
  unfoldable pub write_queued : ℕ → Text → Text → Text → Redis N → Redis N
  unfolding status_mapping queued_status
  write_queued ttl now task source r =
      let h = status_mapping (queued_status task now) (task_at r (task_key task)) in
      set_task r (task_key task) (record h { source = some source; expires = some ttl })

  unfoldable pub create : ℕ → Text → Text → Text → Redis N → TaskStatus N × Redis N
  unfolding write_queued
  create ttl now task source r = (queued_status task now, write_queued ttl now task source r)

  -- The transaction of `create_many_and_enqueue`: for each task HSET, EXPIRE and XADD.
  unfoldable pub enqueue_all :
      ℕ → Text → Text → List (Text × Text × StreamEntry) → Redis N → List (TaskStatus N) × Redis N
  unfolding write_queued
  enqueue_all ttl now stream [] r = ([], r)
  enqueue_all ttl now stream ((task, source, fields) ∷ rest) r =
      let (statuses, r') =
        enqueue_all ttl now stream rest (xadd (write_queued ttl now task source r) stream fields) in
      (queued_status task now ∷ statuses, r')

  unfoldable pub create_many_and_enqueue :
      ℕ
      → Text
      → Text
      → List (Text × Text × StreamEntry)
      → Redis N
      → Result (List (TaskStatus N)) × Redis N
  unfolding enqueue_all
  create_many_and_enqueue ttl now stream [] r = (err no_tasks, r)
  create_many_and_enqueue ttl now stream (task ∷ tasks) r =
      let (statuses, r') = enqueue_all ttl now stream (task ∷ tasks) r in (ok statuses, r')

module _ {N : Type 0} where
  unfoldable pub get_backpressure_state : Text → Redis N → Result (TaskStage × ℕ)
  get_backpressure_state task r =
      let h = task_at r (task_key task) in
      elim h.stage [
        | none ↦ err (task_not_found task)
        | some stage ↦ ok (stage, or_else h.tracking_completed_chunks 0)
      ]

  unfoldable pub get_source : Text → Redis N → Result Text
  get_source task r = elim (task_at r (task_key task)).source [
    | none ↦ err (task_not_found task)
    | some source ↦ ok source
  ]
