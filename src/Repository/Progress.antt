-- ===== src/Repository/Progress.antt =====
-- The progress that the scripts compute stays within the share of its stage.
use cv_video_analysis.Common.{refl, ℕ, ◌+◌, ◌≤◌, arith, ltb, Bool-cases, inl, inr}
use cv_video_analysis.Domain.Floats.{
  IsLe-refl, Floats, IsLe, float_min, float_min-le_right, float_max, float_max-le,
  le-float_max_left,
}
use cv_video_analysis.Repository.Cut.{stage_progress}
use cv_video_analysis.Common.{
  Bool, true, some, none, ◌≡◌, or_else, if_elim, ◌⊎◌, ◌&&◌, if◌then◌else◌,
}
use cv_video_analysis.Domain.Enums.{TaskStage, queued, cut_detection, tracking, stage_eq}
use cv_video_analysis.Domain.Stages.{
  ensure_stage_transition, is_terminal, is_in, allowed_transitions,
}
use cv_video_analysis.Store.{TaskHash}
use cv_video_analysis.Repository.Cut.{CutArguments, cut_task_fields}

module _ {N : Type 0} (F : Floats N) where
  -- `base + 30 * min(count / total, 1)` is at most `base + 30`.
  pub stage_progress-le :
      (base count total : ℕ)
      → base ≤ 1000
      → IsLe F (stage_progress F base count total) (F.of_nat (base + 30))
  unfolding stage_progress
  stage_progress-le base count total small = elim (Bool-cases (ltb 0 total)) [
    | inl known ↦
        let share = float_min F (F.div (F.of_nat count) (F.of_nat total)) (F.of_nat 1) in
        let part : IsLe F (F.mul (F.of_nat 30) share) (F.mul (F.of_nat 30) (F.of_nat 1)) =
          F.mul_mono 30 share (F.of_nat 1) (float_min-le_right F _ _) in
        let whole =
          F.add_mono (F.of_nat base) (F.mul (F.of_nat 30) share) (F.mul (F.of_nat 30) (F.of_nat 1))
            part in
        rw known (rw (F.mul_exact 30 1 (omega arith), F.add_exact base 30 (omega arith)) at whole)
    | inr unknown ↦ rw unknown (F.of_nat_mono base (base + 30) (omega arith))
  ]

  -- What a script writes for a stage that starts at `base`: no lower than the progress before, and
  -- at most 100 where that was.
  pub raised_progress :
      (base count total : ℕ) (old : N)
      → base ≤ 70
      → let new = float_max F old (stage_progress F base count total) in
        IsLe F old new × (IsLe F old (F.of_nat 100) → IsLe F new (F.of_nat 100))
  raised_progress base count total old low = (
    le-float_max_left F old (stage_progress F base count total),
    λ h. float_max-le F old (stage_progress F base count total) (F.of_nat 100) h (
        F.le_trans _ (F.of_nat (base + 30)) (F.of_nat 100)
          (stage_progress-le base count total (omega arith))
          (F.of_nat_mono (base + 30) 100 (omega arith))),
  )

  module _ (h : TaskHash N) where
    cut_stage_step :
        (next : ℕ) (s : TaskStage)
        → let s' = if ltb 0 next && stage_eq s cut_detection then tracking else s in
          (ensure_stage_transition s s' ≡ none) × (is_terminal s ≡ true → s' ≡ s)
    unfolding ensure_stage_transition is_in allowed_transitions stage_eq is_terminal
    cut_stage_step next s = ground arith

    cut_stage_cases :
        (a : CutArguments) (is_new : Bool) (next : ℕ)
        → let g = cut_task_fields F a is_new next h in
          let old = or_else h.stage cut_detection in
          (g.stage ≡ h.stage)
          ⊎ (g.stage ≡ some (if ltb 0 next && stage_eq old cut_detection then tracking else old))
    unfolding cut_task_fields
    cut_stage_cases a is_new next =
        if_elim
          (λ (g : TaskHash N).
            (g.stage ≡ h.stage)
            ⊎ (g.stage
                ≡ some (
                    if ltb 0 next && stage_eq (or_else h.stage cut_detection) cut_detection
                    then tracking
                    else (or_else h.stage cut_detection))))
          _ _ _ (λ e. inr refl) (λ e. inl refl)

    -- For a task whose stage is stored, the cut script leaves the stage as it was or takes a
    -- transition that the state machine accepts, and does not change a terminal stage.
    pub stage-cut_task_fields :
        (a : CutArguments) (is_new : Bool) (next : ℕ) (s : TaskStage)
        → h.stage ≡ some s
        → let h' = cut_task_fields F a is_new next h in
          (ensure_stage_transition s (or_else h'.stage queued) ≡ none)
          × (is_terminal s ≡ true → or_else h'.stage queued ≡ s)
    stage-cut_task_fields a is_new next s at_stage = elim (cut_stage_cases a is_new next) [
      | inl same ↦ rw (same, at_stage) (cut_stage_step 0 s)
      | inr moved ↦ rw (moved, at_stage) (cut_stage_step next s)
    ]

    abbrev raised_from : Bool → N
    raised_from is_new = float_max F (or_else h.progress (F.of_nat 0)) (
        stage_progress F 30 (or_else h.cut_completed_chunks 0 + (if is_new then 1 else 0))
          (or_else h.total_chunks 0))

    cut_progress_cases :
        (a : CutArguments) (is_new : Bool) (next : ℕ)
        → let g = cut_task_fields F a is_new next h in
          (g.progress ≡ h.progress) ⊎ (g.progress ≡ some (raised_from is_new))
    unfolding cut_task_fields
    cut_progress_cases a is_new next =
        if_elim
          (λ (g : TaskHash N). (g.progress ≡ h.progress) ⊎ (g.progress ≡ some (raised_from is_new)))
          _ _ _ (λ e. inr refl) (λ e. inl refl)

    -- The cut script does not lower the progress, and leaves it at most 100 if it was at most 100.
    pub progress-cut_task_fields :
        (a : CutArguments) (is_new : Bool) (next : ℕ)
        → let h' = cut_task_fields F a is_new next h in
          IsLe F (or_else h.progress (F.of_nat 0)) (or_else h'.progress (F.of_nat 0))
          × (IsLe F (or_else h.progress (F.of_nat 0)) (F.of_nat 100)
              → IsLe F (or_else h'.progress (F.of_nat 0)) (F.of_nat 100))
    progress-cut_task_fields a is_new next = elim (cut_progress_cases a is_new next) [
      | inl same ↦ rw same (IsLe-refl F _, λ le. le)
      | inr raised ↦ rw raised (raised_progress 30 _ _ _ (omega arith))
    ]
