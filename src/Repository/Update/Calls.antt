-- ===== src/Repository/Update/Calls.antt =====
-- `update_status` and `fail` as their callers see them.
use cv_video_analysis.Common.{
  take, ◌&&◌, is_some, leb, leb, ℕ, ◌≡◌, ◌≢◌, refl, Bool, true, false, none, some, arith, or_else,
  inl, inr, Bool-cases,
}
use cv_video_analysis.Common.Texts.{Text}
use cv_video_analysis.Common.Maps.{get_or-put_same, get_or-put_self}
use cv_video_analysis.Domain.Enums.{TaskStage, failed}
use cv_video_analysis.Domain.Stages.{stage_rank, is_terminal, ensure_stage_transition}
use cv_video_analysis.Domain.Floats.{Floats}
use cv_video_analysis.Store.{TaskHash, Redis, task_at, task_exists, no_task}
use cv_video_analysis.Store.Keys.{task_key}
use cv_video_analysis.Repository.Errors.{Result, ok, err, RepositoryError}
use cv_video_analysis.Repository.Status.{TaskStatus, Read, get_status}
use cv_video_analysis.Repository.Update.{
  clipped, StatusPatch, stage_outcome, move, apply_outcome, patch_fields, hset_given, update_script,
  ScriptReply, missing, finished, rejected, patched, reply_to, eval_update, update_from,
  update_status, failure_patch, fail_from, fail,
}
use cv_video_analysis.Repository.Update.Script.{
  stage_of, update_script_unchanged, update_script_live,
}

module _ {N : Type 0} (F : Floats N) (ttl : ℕ) (now task : Text) where
  -- What a client reads at any task key.
  abbrev pub SameTasks : Redis N → Redis N → Type 0
  SameTasks r r' = (k : Text) → task_at r' k ≡ task_at r k

  reply_to_err :
      (target : TaskStage) (reply : ScriptReply) (s : TaskStatus N) {e : RepositoryError}
      → reply_to F task target reply (ok s) ≡ err e
      → (t : TaskStage) → reply ≢ patched t
  unfolding reply_to
  reply_to_err target missing s h t = λ q. cc
  reply_to_err target (rejected c) s h t = λ q. cc
  reply_to_err target (finished c) s h t = λ q. cc
  reply_to_err target (patched c) s h t = λ q. cc

  eval_update_err :
      (p : StatusPatch N) (target : TaskStage) (s : TaskStatus N) (r : Redis N)
      {e : RepositoryError}
      → (eval_update F ttl now task p target (ok s) r).0 ≡ err e
      → SameTasks r (eval_update F ttl now task p target (ok s) r).1
  unfolding eval_update
  eval_update_err p target s r h k =
      let h0 = task_at r (task_key task) in
      let same : (update_script F ttl now p h0).1 ≡ h0 =
        update_script_unchanged F ttl now p h0
          (reply_to_err target (update_script F ttl now p h0).0 s h) in
      rw same (get_or-put_same r.tasks (task_key task) k no_task)

  update_from_err :
      (p : StatusPatch N) (read : Result (TaskStatus N)) (s : TaskStatus N) (r : Redis N)
      {e : RepositoryError}
      → (update_from F ttl now task p read (ok s) r).0 ≡ err e
      → SameTasks r (update_from F ttl now task p read (ok s) r).1
  unfolding update_from
  update_from_err p (err x) s r h = λ k. refl
  update_from_err p (ok current) s r h = elim (Bool-cases (is_terminal current.stage)) [
    | inl over ↦ rw over (λ k. refl)
    | inr live ↦
        let target = or_else p.stage current.stage in
        elim (Bool-cases (
          leb (stage_rank current.stage) (stage_rank target)
          && is_some (ensure_stage_transition current.stage target))) [
            | inl bad ↦ rw (live, bad) (λ k. refl)
            | inr fine ↦ rw (live, fine) (eval_update_err p target s r (rw (live, fine) at h))
          ]
  ]

  -- A call of update_status that raises, although its last read would answer, has left every
  -- task's hash as it was.
  pub update_status_err :
      (attempts : ℕ) (p : StatusPatch N) (before after : ℕ → Read N) (s : TaskStatus N)
      (r : Redis N) {e : RepositoryError}
      → get_status F task attempts after ≡ ok s
      → (update_status F attempts ttl now task p before after r).0 ≡ err e
      → SameTasks r (update_status F attempts ttl now task p before after r).1
  unfolding update_status
  update_status_err attempts p before after s r last h =
      rw last (update_from_err (clipped F p) (get_status F task attempts before) s r (rw last at h))

  eval_update_keeps :
      (p : StatusPatch N) (target : TaskStage) (reread : Result (TaskStatus N)) (r : Redis N)
      → let r' = (eval_update F ttl now task p target reread r).1 in
        (r'.chunks ≡ r.chunks) × (r'.results ≡ r.results)
  unfolding eval_update
  eval_update_keeps p target reread r = (refl, refl)

  update_from_keeps :
      (p : StatusPatch N) (read reread : Result (TaskStatus N)) (r : Redis N)
      → let r' = (update_from F ttl now task p read reread r).1 in
        (r'.chunks ≡ r.chunks) × (r'.results ≡ r.results)
  unfolding update_from
  update_from_keeps p (err e) reread r = (refl, refl)
  update_from_keeps p (ok current) reread r = elim (Bool-cases (is_terminal current.stage)) [
    | inl over ↦ rw over (refl, refl)
    | inr live ↦
        let target = or_else p.stage current.stage in
        elim (Bool-cases (
          leb (stage_rank current.stage) (stage_rank target)
          && is_some (ensure_stage_transition current.stage target))) [
            | inl bad ↦ rw (live, bad) (refl, refl)
            | inr fine ↦ rw (live, fine) (eval_update_keeps p target reread r)
          ]
  ]

  -- A call touches neither the chunks nor the results.
  pub update_status_keeps :
      (attempts : ℕ) (p : StatusPatch N) (before after : ℕ → Read N) (r : Redis N)
      → let r' = (update_status F attempts ttl now task p before after r).1 in
        (r'.chunks ≡ r.chunks) × (r'.results ≡ r.results)
  unfolding update_status
  update_status_keeps attempts p before after r =
      update_from_keeps (clipped F p) (get_status F task attempts before)
        (get_status F task attempts after) r

  outcome_of_failed :
      (current : TaskStage)
      → is_terminal current ≡ false
      → stage_outcome current (some failed) ≡ move failed
  unfolding stage_outcome is_terminal
  outcome_of_failed current live = ground arith

  failed_script :
      (p : StatusPatch N) (h : TaskHash N)
      → p.stage ≡ some failed
      → task_exists h ≡ true
      → is_terminal (stage_of h) ≡ false
      → let (reply, h') = update_script F ttl now p h in
        (reply ≡ patched failed)
        × (h'.stage ≡ some failed)
        × (h'.error_code ≡ hset_given h.error_code p.error_code)
        × (h'.error_detail ≡ hset_given h.error_detail p.error_detail)
  failed_script p h asked there live =
      rw (update_script_live F ttl now p h there live, asked, outcome_of_failed (stage_of h) live)
        (unfold apply_outcome patch_fields in (refl, refl, refl, refl))

  failed_accepted :
      (current : TaskStage)
      → is_terminal current ≡ false
      → ensure_stage_transition current failed ≡ none
  unfolding ensure_stage_transition is_terminal
  failed_accepted current live = ground arith

  and_false : (b : Bool) → (b && false) ≡ false
  and_false true = refl
  and_false false = refl

  module _ (attempts : ℕ) (code detail : Text) (last : TaskStatus N) (r : Redis N) where
    abbrev failure : StatusPatch N
    failure = clipped F (failure_patch F code detail)

    update_from-failure :
        (current : TaskStatus N)
        → is_terminal current.stage ≡ false
        → update_from F ttl now task failure (ok current) (ok last) r
          ≡ eval_update F ttl now task failure failed (ok last) r
    unfolding update_from failure_patch
    update_from-failure current live = rw (
      live,
      failed_accepted current.stage live,
      and_false (leb (stage_rank current.stage) (stage_rank failed)),
    )

    fail-eval_update :
        (first before after : ℕ → Read N) (seen current : TaskStatus N)
        → get_status F task attempts first ≡ ok seen
        → is_terminal seen.stage ≡ false
        → get_status F task attempts before ≡ ok current
        → is_terminal current.stage ≡ false
        → get_status F task attempts after ≡ ok last
        → fail F attempts ttl now task code detail first before after r
          ≡ eval_update F ttl now task failure failed (ok last) r
    unfolding fail update_status
    fail-eval_update first before after seen current f1 l1 f2 l2 f3 =
        rw (f1, fail_from, l1, f2, f3) (update_from-failure current l2)

    eval_update-failure :
        task_exists (task_at r (task_key task)) ≡ true
        → is_terminal (stage_of (task_at r (task_key task))) ≡ false
        → let (result, r') = eval_update F ttl now task failure failed (ok last) r in
          let h' = task_at r' (task_key task) in
          (result ≡ ok last)
          × (h'.stage ≡ some failed)
          × (h'.error_code ≡ hset_given (task_at r (task_key task)).error_code (some code))
          × (h'.error_detail
              ≡ hset_given
                  (task_at r (task_key task)).error_detail
                  (some (take 2000 (take 2000 detail))))
    unfolding eval_update failure_patch reply_to
    eval_update-failure there live =
        let done = failed_script failure (task_at r (task_key task)) refl there live in
        (
          rw (done.0, reply_to),
          rw get_or-put_self done.1,
          rw get_or-put_self done.2,
          rw get_or-put_self done.3,
        )

    -- If the first two reads find the task live, the task is there and live when the script runs,
    -- and the last read answers, then fail makes the task's stage failed, stores the code and the
    -- first 2000 characters of the detail where these are not empty, and returns what it reads
    -- last.
    pub fail_lem :
        (first before after : ℕ → Read N) (seen current : TaskStatus N)
        → get_status F task attempts first ≡ ok seen
        → is_terminal seen.stage ≡ false
        → get_status F task attempts before ≡ ok current
        → is_terminal current.stage ≡ false
        → get_status F task attempts after ≡ ok last
        → task_exists (task_at r (task_key task)) ≡ true
        → is_terminal (stage_of (task_at r (task_key task))) ≡ false
        → let (result, r') = fail F attempts ttl now task code detail first before after r in
          let h' = task_at r' (task_key task) in
          (result ≡ ok last)
          × (h'.stage ≡ some failed)
          × (h'.error_code ≡ hset_given (task_at r (task_key task)).error_code (some code))
          × (h'.error_detail
              ≡ hset_given
                  (task_at r (task_key task)).error_detail
                  (some (take 2000 (take 2000 detail))))
    fail_lem first before after seen current f1 l1 f2 l2 f3 there live =
        rw (fail-eval_update first before after seen current f1 l1 f2 l2 f3)
          (eval_update-failure there live)
