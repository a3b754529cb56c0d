-- ===== src/Repository/Errors.antt =====
-- The exceptions of the repository, and results that may raise them.
use cv_video_analysis.Common.{ℕ}
use cv_video_analysis.Common.Texts.{Text}
use cv_video_analysis.Domain.Enums.{TaskStage}

pub data RepositoryError : Type 0 where
  -- `TaskNotFoundError`
  task_not_found : Text → RepositoryError
  -- `TaskStatusUnavailableError`
  status_unavailable : Text → RepositoryError
  -- `InvalidStageTransition(current -> target)`
  invalid_transition : TaskStage → TaskStage → RepositoryError
  -- `ValueError("Invalid concurrent pipeline transition: ...")`
  invalid_concurrent_transition : TaskStage → TaskStage → RepositoryError
  -- `ValueError("At least one task is required")`
  no_tasks : RepositoryError
  -- `ValueError("Stream fields are missing ...")`
  missing_stream_fields : RepositoryError
  -- `RuntimeError("Ingest finished with {published}/{total} chunks published")`
  ingest_incomplete : ℕ → ℕ → RepositoryError
  -- `TrackingOrderError`: expected, received
  tracking_order : ℕ → ℕ → RepositoryError

pub data Result {ℓ} (A : Type ℓ) : Type ℓ where
  ok : A → Result A
  err : RepositoryError → Result A

infixl 5 ◌>>=◌
abbrev pub ◌>>=◌ {ℓ κ} : {A : Type ℓ} {B : Type κ} → Result A → (A → Result B) → Result B
ok a >>= f = f a
err e >>= f = err e
