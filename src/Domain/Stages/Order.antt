-- ===== src/Domain/Stages/Order.antt =====
-- What the stage tables allow.
use cv_video_analysis.Common.{refl, true, ◌<◌, ◌≤◌, ◌∙◌, ◌≡◌, ◌≢◌, false, none, arith}
use cv_video_analysis.Domain.Enums.{
  TaskStage, queued, downloading, decoding, cut_detection, tracking, aggregating, completed, failed,
}
use cv_video_analysis.Domain.Stages.{
  allowed_transitions, is_in, ensure_stage_transition, stage_rank, is_terminal, lua_allowed,
}

-- The table of the status script allows exactly the transitions that the Python table allows.
pub lua_allowed-is_in : (c t : TaskStage) → lua_allowed c t ≡ is_in t (allowed_transitions c)
unfolding lua_allowed is_in allowed_transitions
lua_allowed-is_in c t = ground arith

-- An accepted transition to another stage leaves a stage that is not terminal and raises the rank.
pub ensure_stage_transition_rank :
    (c t : TaskStage)
    → ensure_stage_transition c t ≡ none
    → c ≢ t
    → (is_terminal c ≡ false) × (stage_rank c < stage_rank t)
unfolding ensure_stage_transition stage_rank is_terminal
ensure_stage_transition_rank c t h n = ground arith

-- Accepted transitions, one after another.
pub data Chain : TaskStage → TaskStage → Type 0 where
  stop : {s : TaskStage} → Chain s s
  step : {s t u : TaskStage} → ensure_stage_transition s t ≡ none → Chain t u → Chain s u

step_rank : (s t : TaskStage) → ensure_stage_transition s t ≡ none → stage_rank s ≤ stage_rank t
unfolding ensure_stage_transition stage_rank
step_rank s t h = ground arith

step_terminal :
    (s t : TaskStage) → ensure_stage_transition s t ≡ none → is_terminal s ≡ true → s ≡ t
unfolding ensure_stage_transition is_terminal
step_terminal s t h k = ground arith

-- A chain of accepted transitions never lowers the rank, and a chain out of a terminal stage stays
-- there.
pub Chain-rank :
    {s t : TaskStage} → Chain s t → (stage_rank s ≤ stage_rank t) × (is_terminal s ≡ true → s ≡ t)
Chain-rank stop = (omega arith, λ h. refl)
Chain-rank (step {s} {t} {u} h c) =
    let (low, still) = Chain-rank c in
    (
      omega (arith, step_rank s t h),
      λ k. let e : s ≡ t = step_terminal s t h k in e ∙ still (rw e at k),
    )

-- Every stage but failed has a chain of accepted transitions to completed, and every stage that is
-- not terminal may fail at once.
pub Chain-completed :
    (s : TaskStage)
    → s ≢ failed
    → Chain s completed × (is_terminal s ≡ false → ensure_stage_transition s failed ≡ none)
unfolding ensure_stage_transition is_terminal
Chain-completed queued h = (
  step {t = decoding} refl (
      step {t = cut_detection} refl
        (step {t = tracking} refl (step {t = aggregating} refl (step {t = completed} refl stop)))),
  λ k. refl,
)
Chain-completed downloading h = (
  step {t = decoding} refl (
      step {t = cut_detection} refl
        (step {t = tracking} refl (step {t = aggregating} refl (step {t = completed} refl stop)))),
  λ k. refl,
)
Chain-completed decoding h = (
  step {t = cut_detection} refl
      (step {t = tracking} refl (step {t = aggregating} refl (step {t = completed} refl stop))),
  λ k. refl,
)
Chain-completed cut_detection h = (
  step {t = tracking} refl (step {t = aggregating} refl (step {t = completed} refl stop)),
  λ k. refl,
)
Chain-completed tracking h =
    (step {t = aggregating} refl (step {t = completed} refl stop), λ k. refl)
Chain-completed aggregating h = (step {t = completed} refl stop, λ k. refl)
Chain-completed completed h = (stop, λ k. cc)
Chain-completed failed h = absurd (h refl)
