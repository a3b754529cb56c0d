-- ===== src/Repository/Update/Script.antt =====
-- The Lua script of `update_status`: what it may change, and how.
use cv_video_analysis.Common.{
  Bool-cases, max, ◌⊎◌, ℕ, ◌≤◌, ◌≡◌, ◌≢◌, refl, ap, ◌∙◌, Bool, true, false, Option, none, some,
  arith, or_else, inl, inr,
}
use cv_video_analysis.Common.Texts.{Text}
use cv_video_analysis.Domain.Enums.{TaskStage, queued}
use cv_video_analysis.Domain.Stages.{is_terminal, ensure_stage_transition}
use cv_video_analysis.Domain.Floats.{float_max, Floats, IsLe, IsLe-refl}
use cv_video_analysis.Store.{TaskHash, task_exists}
use cv_video_analysis.Repository.Update.{
  StatusPatch, StageOutcome, keep, move, reject, stage_outcome, hset_max, raise_progress,
  patch_fields, apply_outcome, update_script, ScriptReply, missing, finished, patched,
}

-- The stage that a hash is read with.
abbrev pub stage_of : {N : Type 0} → TaskHash N → TaskStage
stage_of h = or_else h.stage queued

hset_max-le : (e i : Option ℕ) → or_else e 0 ≤ or_else (hset_max e i) 0
unfolding hset_max
hset_max-le e i = ground arith

-- A requested move is one that the state machine accepts, out of a stage that is not terminal.
stage_outcome_move :
    (current : TaskStage) (request : Option TaskStage) (s : TaskStage)
    → is_terminal current ≡ false
    → stage_outcome current request ≡ move s
    → ensure_stage_transition current s ≡ none
unfolding stage_outcome is_terminal ensure_stage_transition
stage_outcome_move current none s t h = cc
stage_outcome_move current (some r) s t h = ground arith

ensure_stage_transition_refl : (s : TaskStage) → ensure_stage_transition s s ≡ none
unfolding ensure_stage_transition
ensure_stage_transition_refl s = ground arith

-- What a run of the script may do to a hash.
pub record Advances {N : Type 0} (F : Floats N) (h h' : TaskHash N) : Type 0 where
  pub stage_step : ensure_stage_transition (stage_of h) (stage_of h') ≡ none
  pub progress_le : IsLe F (or_else h.progress (F.of_nat 0)) (or_else h'.progress (F.of_nat 0))
  pub total_le : or_else h.total_chunks 0 ≤ or_else h'.total_chunks 0
  pub cut_le : or_else h.cut_completed_chunks 0 ≤ or_else h'.cut_completed_chunks 0
  pub tracking_le : or_else h.tracking_completed_chunks 0 ≤ or_else h'.tracking_completed_chunks 0

module _ {N : Type 0} (F : Floats N) where
  raise_progress-le :
      (e i : Option N)
      → IsLe F (or_else e (F.of_nat 0)) (or_else (raise_progress F e i) (F.of_nat 0))
  unfolding raise_progress
  raise_progress-le e none = IsLe-refl F _
  raise_progress-le none (some r) =
      ground (arith, IsLe-refl F (F.of_nat 0), F.lt_asymm (F.of_nat 0) r)
  raise_progress-le (some c) (some r) = ground (arith, IsLe-refl F c, F.lt_asymm c r)

  Advances-refl : (h : TaskHash N) → Advances F h h
  Advances-refl h = record {
    stage_step = ensure_stage_transition_refl (stage_of h);
    progress_le = IsLe-refl F _;
    total_le = omega arith;
    cut_le = omega arith;
    tracking_le = omega arith;
  }

  module _ (ttl : ℕ) (now : Text) (p : StatusPatch N) where
    patch_fields-Advances :
        (stale : Bool) (stage : TaskStage) (h g : TaskHash N)
        → ensure_stage_transition (stage_of h) (stage_of g) ≡ none
        → g ≡ record h { stage = g.stage }
        → Advances F h (patch_fields F ttl now p stale stage g)
    unfolding patch_fields
    patch_fields-Advances stale stage h g step same = record {
      stage_step = step;
      progress_le = rw same (raise_progress-le h.progress p.progress);
      total_le = rw same (hset_max-le h.total_chunks p.total_chunks);
      cut_le = rw same (hset_max-le h.cut_completed_chunks p.cut_completed_chunks);
      tracking_le = rw same (hset_max-le h.tracking_completed_chunks p.tracking_completed_chunks);
    }

    apply_outcome-Advances :
        (h : TaskHash N) (o : StageOutcome)
        → ((s : TaskStage) → o ≡ move s → ensure_stage_transition (stage_of h) s ≡ none)
        → Advances F h (apply_outcome F ttl now p (stage_of h) o h).1
    unfolding apply_outcome
    apply_outcome-Advances h (keep stale) steps =
        patch_fields-Advances stale (stage_of h) h h (ensure_stage_transition_refl (stage_of h))
          refl
    apply_outcome-Advances h (move s) steps =
        patch_fields-Advances false s h (record h { stage = some s }) (steps s refl) refl
    apply_outcome-Advances h reject steps = Advances-refl h

    -- The three ways through the script.
    pub update_script_cases :
        (h : TaskHash N)
        → ((task_exists h ≡ false) × (update_script F ttl now p h ≡ (missing, h)))
          ⊎ ((is_terminal (stage_of h) ≡ true)
              × (update_script F ttl now p h ≡ (finished (stage_of h), h)))
          ⊎ ((task_exists h ≡ true)
              × (is_terminal (stage_of h) ≡ false)
              × (update_script F ttl now p h
                  ≡ apply_outcome F ttl now p (stage_of h) (stage_outcome (stage_of h) p.stage) h))
    unfolding update_script
    update_script_cases h = elim (Bool-cases (task_exists h)) [
      | inl there ↦ elim (Bool-cases (is_terminal (stage_of h))) [
        | inl over ↦ inr (inl (over, rw (there, over)))
        | inr live ↦ inr (inr (there, live, rw (there, live)))
      ]
      | inr gone ↦ inl (gone, rw gone)
    ]

    pub update_script_live :
        (h : TaskHash N)
        → task_exists h ≡ true
        → is_terminal (stage_of h) ≡ false
        → update_script F ttl now p h
          ≡ apply_outcome F ttl now p (stage_of h) (stage_outcome (stage_of h) p.stage) h
    unfolding update_script
    update_script_live h there live = rw (there, live)

    -- A run of the status script leaves the stage as it was or takes a transition that the state
    -- machine accepts, and lowers neither the progress nor any of the three chunk counters.
    pub update_script-Advances : (h : TaskHash N) → Advances F h (update_script F ttl now p h).1
    update_script-Advances h = elim (update_script_cases h) [
      | inl (gone, e) ↦ rw e (Advances-refl h)
      | inr (inl (over, e)) ↦ rw e (Advances-refl h)
      | inr (inr (there, live, e)) ↦ rw e (
          apply_outcome-Advances h (stage_outcome (stage_of h) p.stage)
            (λ s m. stage_outcome_move (stage_of h) p.stage s live m))
    ]

    apply_outcome-unpatched :
        (h : TaskHash N) (o : StageOutcome)
        → ((s : TaskStage) → (apply_outcome F ttl now p (stage_of h) o h).0 ≢ patched s)
        → (apply_outcome F ttl now p (stage_of h) o h).1 ≡ h
    unfolding apply_outcome
    apply_outcome-unpatched h (keep stale) no_patch = absurd (no_patch _ refl)
    apply_outcome-unpatched h (move s) no_patch = absurd (no_patch _ refl)
    apply_outcome-unpatched h reject no_patch = refl

    -- A run of the status script that does not answer 1 leaves the task's hash as it was.
    pub update_script_unchanged :
        (h : TaskHash N)
        → ((s : TaskStage) → (update_script F ttl now p h).0 ≢ patched s)
        → (update_script F ttl now p h).1 ≡ h
    update_script_unchanged h n = elim (update_script_cases h) [
      | inl (gone, e) ↦ rw e
      | inr (inl (over, e)) ↦ rw e
      | inr (inr (there, live, e)) ↦ rw e (
          apply_outcome-unpatched h (stage_outcome (stage_of h) p.stage)
            (λ s m. n s (ap (λ (o : ScriptReply × TaskHash N). o.0) e ∙ m)))
    ]

    apply_outcome_frame :
        (h : TaskHash N) (o : StageOutcome)
        → let h' = (apply_outcome F ttl now p (stage_of h) o h).1 in
          (h'.task_id ≡ h.task_id)
          × (h'.created_at ≡ h.created_at)
          × (h'.source ≡ h.source)
          × (h'.ingest_published_chunks ≡ h.ingest_published_chunks)
          × (h'.ingest_complete ≡ h.ingest_complete)
          × (h'.next_tracking_chunk ≡ h.next_tracking_chunk)
          × (h'.next_tracking_result_chunk ≡ h.next_tracking_result_chunk)
          × (p.total_chunks ≡ none → h'.total_chunks ≡ h.total_chunks)
          × (p.cut_completed_chunks ≡ none → h'.cut_completed_chunks ≡ h.cut_completed_chunks)
          × (p.tracking_completed_chunks ≡ none
              → h'.tracking_completed_chunks ≡ h.tracking_completed_chunks)
    unfolding apply_outcome patch_fields hset_max
    apply_outcome_frame h (keep stale) = ground arith
    apply_outcome_frame h (move s) = ground arith
    apply_outcome_frame h reject = ground arith

    -- A run of the status script changes neither the task's id, its creation time and its source,
    -- nor a field that the other scripts own, nor a chunk counter that the caller did not supply.
    pub update_script_frame :
        (h : TaskHash N)
        → let h' = (update_script F ttl now p h).1 in
          (h'.task_id ≡ h.task_id)
          × (h'.created_at ≡ h.created_at)
          × (h'.source ≡ h.source)
          × (h'.ingest_published_chunks ≡ h.ingest_published_chunks)
          × (h'.ingest_complete ≡ h.ingest_complete)
          × (h'.next_tracking_chunk ≡ h.next_tracking_chunk)
          × (h'.next_tracking_result_chunk ≡ h.next_tracking_result_chunk)
          × (p.total_chunks ≡ none → h'.total_chunks ≡ h.total_chunks)
          × (p.cut_completed_chunks ≡ none → h'.cut_completed_chunks ≡ h.cut_completed_chunks)
          × (p.tracking_completed_chunks ≡ none
              → h'.tracking_completed_chunks ≡ h.tracking_completed_chunks)
    update_script_frame h = elim (update_script_cases h) [
      | inl (gone, e) ↦ rw e (ground arith)
      | inr (inl (over, e)) ↦ rw e (ground arith)
      | inr (inr (there, live, e)) ↦
          rw e (apply_outcome_frame h (stage_outcome (stage_of h) p.stage))
    ]

    apply_outcome_merge :
        (h : TaskHash N) (o : StageOutcome)
        → o ≢ reject
        → let h' = (apply_outcome F ttl now p (stage_of h) o h).1 in
          (or_else h'.total_chunks 0 ≡ max (or_else h.total_chunks 0) (or_else p.total_chunks 0))
          × (or_else h'.cut_completed_chunks 0
              ≡ max (or_else h.cut_completed_chunks 0) (or_else p.cut_completed_chunks 0))
          × (or_else h'.tracking_completed_chunks 0
              ≡ max (or_else h.tracking_completed_chunks 0) (or_else p.tracking_completed_chunks 0))
          × (or_else h'.progress (F.of_nat 0) ≡ elim p.progress [
            | none ↦ or_else h.progress (F.of_nat 0)
            | some q ↦ float_max F (or_else h.progress (F.of_nat 0)) q
          ])
          × (h'.updated_at ≡ some now)
    unfolding apply_outcome patch_fields hset_max raise_progress float_max
    apply_outcome_merge h (keep stale) n = ground arith
    apply_outcome_merge h (move s) n = ground arith
    apply_outcome_merge h reject n = absurd (n refl)

    -- On a task that is there, is not terminal, and whose requested stage the script does not
    -- reject, each counter and the progress become the higher of what was stored and what was
    -- supplied, and the time of the update is stored.
    pub update_script_merge :
        (h : TaskHash N)
        → task_exists h ≡ true
        → is_terminal (stage_of h) ≡ false
        → stage_outcome (stage_of h) p.stage ≢ reject
        → let h' = (update_script F ttl now p h).1 in
          (or_else h'.total_chunks 0 ≡ max (or_else h.total_chunks 0) (or_else p.total_chunks 0))
          × (or_else h'.cut_completed_chunks 0
              ≡ max (or_else h.cut_completed_chunks 0) (or_else p.cut_completed_chunks 0))
          × (or_else h'.tracking_completed_chunks 0
              ≡ max (or_else h.tracking_completed_chunks 0) (or_else p.tracking_completed_chunks 0))
          × (or_else h'.progress (F.of_nat 0) ≡ elim p.progress [
            | none ↦ or_else h.progress (F.of_nat 0)
            | some q ↦ float_max F (or_else h.progress (F.of_nat 0)) q
          ])
          × (h'.updated_at ≡ some now)
    update_script_merge h there live n =
        rw (update_script_live h there live)
          (apply_outcome_merge h (stage_outcome (stage_of h) p.stage) n)
