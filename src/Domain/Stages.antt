-- ===== src/Domain/Stages.antt =====
-- backend/app/domain/state_machine.py, the stage ranks of the repository and of ingest, and the
-- tables that the status script repeats in Lua.
pub mod Order
use cv_video_analysis.Common.{
  ℕ, Bool, true, false, ◌||◌, List, [], ◌∷◌, Option, none, some, if◌then◌else◌,
}
use cv_video_analysis.Domain.Enums.{
  TaskStage, queued, downloading, decoding, cut_detection, tracking, aggregating, completed, failed,
  stage_eq,
}

-- `_ALLOWED_TRANSITIONS`
unfoldable pub allowed_transitions : TaskStage → List TaskStage
allowed_transitions queued = downloading ∷ decoding ∷ failed ∷ []
allowed_transitions downloading = decoding ∷ failed ∷ []
allowed_transitions decoding = cut_detection ∷ failed ∷ []
allowed_transitions cut_detection = tracking ∷ failed ∷ []
allowed_transitions tracking = aggregating ∷ failed ∷ []
allowed_transitions aggregating = completed ∷ failed ∷ []
allowed_transitions completed = []
allowed_transitions failed = []

-- `target in _ALLOWED_TRANSITIONS[current]`
unfoldable pub is_in : TaskStage → List TaskStage → Bool
unfolding stage_eq
is_in s [] = false
is_in s (t ∷ ts) = stage_eq s t || is_in s ts

-- `InvalidStageTransition(current -> target)`
pub data StageError : Type 0 where
  invalid_transition : TaskStage → TaskStage → StageError

-- `none` is a normal return.
unfoldable pub ensure_stage_transition : TaskStage → TaskStage → Option StageError
unfolding stage_eq is_in allowed_transitions
ensure_stage_transition current target =
    if stage_eq current target
    then none
    else if is_in target (allowed_transitions current)
    then none
    else some (invalid_transition current target)

-- `_STAGE_RANK` of the repository, `_STAGE_ORDER` of ingest, and `ranks` of the Lua script.
unfoldable pub stage_rank : TaskStage → ℕ
stage_rank queued = 0
stage_rank downloading = 1
stage_rank decoding = 2
stage_rank cut_detection = 3
stage_rank tracking = 4
stage_rank aggregating = 5
stage_rank completed = 6
stage_rank failed = 6

-- `current.stage in {TaskStage.COMPLETED, TaskStage.FAILED}`
unfoldable pub is_terminal : TaskStage → Bool
is_terminal completed = true
is_terminal failed = true
is_terminal _ = false

-- `allowed[current_stage] and allowed[current_stage][requested_stage]` of the Lua script.
unfoldable pub lua_allowed : TaskStage → TaskStage → Bool
lua_allowed queued downloading = true
lua_allowed queued decoding = true
lua_allowed queued failed = true
lua_allowed downloading decoding = true
lua_allowed downloading failed = true
lua_allowed decoding cut_detection = true
lua_allowed decoding failed = true
lua_allowed cut_detection tracking = true
lua_allowed cut_detection failed = true
lua_allowed tracking aggregating = true
lua_allowed tracking failed = true
lua_allowed aggregating completed = true
lua_allowed aggregating failed = true
lua_allowed _ _ = false
