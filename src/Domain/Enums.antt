-- ===== src/Domain/Enums.antt =====
-- backend/app/domain/enums.py
use cv_video_analysis.Common.{false, ℕ, Bool, true, ◌≡◌, ◌↔◌, arith, ◌==◌}

pub data TaskStage : Type 0 where
  queued downloading decoding cut_detection tracking aggregating completed failed : TaskStage

pub data TransitionType : Type 0 where
  hard_cut gradual_transition : TransitionType

pub data SourceKind : Type 0 where
  upload url : SourceKind

-- The place of a stage in its declaration: two stages are equal when their places are.
place : TaskStage → ℕ
place queued = 0
place downloading = 1
place decoding = 2
place cut_detection = 3
place tracking = 4
place aggregating = 5
place completed = 6
place failed = 7

unfoldable pub stage_eq : TaskStage → TaskStage → Bool
unfolding place
stage_eq a b = place a == place b

pub stage_eq_iff : (a b : TaskStage) → (stage_eq a b ≡ true) ↔ (a ≡ b)
unfolding stage_eq
stage_eq_iff a b = ground arith

-- Whether a transition is a hard cut, which tells the two types apart.
unfoldable pub type_eq : TransitionType → TransitionType → Bool
type_eq hard_cut hard_cut = true
type_eq gradual_transition gradual_transition = true
type_eq hard_cut gradual_transition = false
type_eq gradual_transition hard_cut = false

pub type_eq_iff : (a b : TransitionType) → (type_eq a b ≡ true) ↔ (a ≡ b)
unfolding type_eq
type_eq_iff a b = ground arith
