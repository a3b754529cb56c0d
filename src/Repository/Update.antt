-- ===== src/Repository/Update.antt =====
-- `update_status` with its Lua script, and `fail`.
pub mod Script
pub mod Calls
use cv_video_analysis.Common.{
  [], ℕ, Bool, true, false, not, ◌&&◌, ◌||◌, Option, none, some, if◌then◌else◌, ltb, leb, or_else,
  is_some, take,
}
use cv_video_analysis.Common.Texts.{Text, codes}
use cv_video_analysis.Domain.Enums.{TaskStage, queued, failed, stage_eq}
use cv_video_analysis.Domain.Stages.{
  ensure_stage_transition, stage_rank, is_terminal, lua_allowed,
  invalid_transition as bad_transition,
}
use cv_video_analysis.Domain.Floats.{Floats}
use cv_video_analysis.Store.{TaskHash, Redis, task_at, set_task, task_exists}
use cv_video_analysis.Store.Keys.{task_key}
use cv_video_analysis.Repository.Errors.{
  Result, ok, err, task_not_found, invalid_transition, invalid_concurrent_transition,
}
use cv_video_analysis.Repository.Status.{TaskStatus, Read, get_status}

-- The keyword arguments of `update_status`.
pub record StatusPatch (N : Type 0) : Type 0 where
  pub stage : Option TaskStage
  pub progress : Option N
  pub message : Option Text
  pub total_chunks : Option ℕ
  pub cut_completed_chunks : Option ℕ
  pub tracking_completed_chunks : Option ℕ
  pub error_code : Option Text
  pub error_detail : Option Text

abbrev pub no_patch : {N : Type 0} → StatusPatch N
no_patch = record {
  stage = none;
  progress = none;
  message = none;
  total_chunks = none;
  cut_completed_chunks = none;
  tracking_completed_chunks = none;
  error_code = none;
  error_detail = none;
}

-- A text argument of the script: `""` stands for None, so an empty text is no argument.
unfoldable pub text_argument : Option Text → Option Text
text_argument none = none
text_argument (some []) = none
text_argument (some t) = some t

-- What the script makes of the requested stage.
pub data StageOutcome : Type 0 where
  keep : Bool → StageOutcome  -- with `stale_stage`
  move : TaskStage → StageOutcome
  reject : StageOutcome

unfoldable pub stage_outcome : TaskStage → Option TaskStage → StageOutcome
unfolding stage_eq stage_rank lua_allowed
stage_outcome current none = keep false
stage_outcome current (some requested) =
    if stage_eq requested current
    then keep false
    else if stage_eq requested failed
    then move requested
    else if ltb (stage_rank requested) (stage_rank current)
    then keep true
    else if lua_allowed current requested
    then move requested
    else reject

-- `hset_max(field, raw_value)`
unfoldable pub hset_max : Option ℕ → Option ℕ → Option ℕ
hset_max existing none = existing
hset_max existing (some incoming) =
    if ltb (or_else existing 0) incoming then some incoming else existing

-- HSET of an argument that is not empty.
unfoldable pub hset_given : Option Text → Option Text → Option Text
unfolding text_argument
hset_given existing given = elim (text_argument given) [ none ↦ existing | some t ↦ some t ]

-- What the script returns: -1, 0 with the stage, -2 with the stage, 1 with the stage.
pub data ScriptReply : Type 0 where
  missing : ScriptReply
  finished rejected patched : TaskStage → ScriptReply

module _ {N : Type 0} (F : Floats N) where
  -- HSET of a progress that is higher than the one there.
  unfoldable pub raise_progress : Option N → Option N → Option N
  raise_progress existing none = existing
  raise_progress existing (some requested) =
      if F.lt (or_else existing (F.of_nat 0)) requested then some requested else existing

  -- `requested_progress == nil or requested_progress >= current_progress`, the latter after the
  -- progress was raised.
  unfoldable pub shows_message : Option N → Option N → Bool
  shows_message existing none = true
  shows_message existing (some requested) =
      let current = or_else existing (F.of_nat 0) in
      if F.lt current requested then true else not (F.lt requested current)

  unfoldable pub patched_message : Bool → Option N → StatusPatch N → Option Text → Option Text
  unfolding shows_message hset_given
  patched_message stale existing p message =
      if not stale && shows_message existing p.progress
      then hset_given message p.message
      else message

  -- The script from the progress on, for the stage that it has settled on.
  unfoldable pub patch_fields :
      ℕ → Text → StatusPatch N → Bool → TaskStage → TaskHash N → TaskHash N
  unfolding raise_progress patched_message hset_max hset_given stage_eq
  patch_fields ttl now p stale stage h = record h {
    progress = raise_progress h.progress p.progress;
    message = patched_message stale h.progress p h.message;
    total_chunks = hset_max h.total_chunks p.total_chunks;
    cut_completed_chunks = hset_max h.cut_completed_chunks p.cut_completed_chunks;
    tracking_completed_chunks = hset_max h.tracking_completed_chunks p.tracking_completed_chunks;
    error_code = hset_given h.error_code p.error_code;
    error_detail = hset_given h.error_detail p.error_detail;
    processing_started_at =
        if not (stage_eq stage queued) && not (is_some h.processing_started_at)
        then some now
        else h.processing_started_at;
    updated_at = some now;
    expires = some ttl;
  }

  unfoldable pub apply_outcome :
      ℕ → Text → StatusPatch N → TaskStage → StageOutcome → TaskHash N → ScriptReply × TaskHash N
  unfolding patch_fields
  apply_outcome ttl now p current (keep stale) h =
      (patched current, patch_fields ttl now p stale current h)
  apply_outcome ttl now p current (move stage) h =
      (patched stage, patch_fields ttl now p false stage (record h { stage = some stage }))
  apply_outcome ttl now p current reject h = (rejected current, h)

  -- The Lua script of `update_status`, on the hash of its key.
  unfoldable pub update_script : ℕ → Text → StatusPatch N → TaskHash N → ScriptReply × TaskHash N
  update_script ttl now p h =
      let current = or_else h.stage queued in
      if not (task_exists h)
      then (missing, h)
      else if is_terminal current
      then (finished current, h)
      else apply_outcome ttl now p current (stage_outcome current p.stage) h

  -- The calls of the client are apart in time: it reads, the script runs on the store as it is
  -- then, and it reads again. `before` and `after` are what its two reads of the hash answer.
  unfoldable pub reply_to :
      Text → TaskStage → ScriptReply → Result (TaskStatus N) → Result (TaskStatus N)
  reply_to task target missing reread = err (task_not_found task)
  reply_to task target (rejected current) reread =
      err (invalid_concurrent_transition current target)
  reply_to task target (finished current) reread = reread
  reply_to task target (patched current) reread = reread

  unfoldable pub eval_update :
      ℕ
      → Text
      → Text
      → StatusPatch N
      → TaskStage
      → Result (TaskStatus N)
      → Redis N
      → Result (TaskStatus N) × Redis N
  unfolding reply_to
  eval_update ttl now task p target reread r =
      let (reply, h) = update_script ttl now p (task_at r (task_key task)) in
      (reply_to task target reply reread, set_task r (task_key task) h)

  unfoldable pub update_from :
      ℕ
      → Text
      → Text
      → StatusPatch N
      → Result (TaskStatus N)
      → Result (TaskStatus N)
      → Redis N
      → Result (TaskStatus N) × Redis N
  update_from ttl now task p (err e) reread r = (err e, r)
  update_from ttl now task p (ok current) reread r =
      let target = or_else p.stage current.stage in
      if is_terminal current.stage
      then (ok current, r)
      else if leb (stage_rank current.stage) (stage_rank target)
          && is_some (ensure_stage_transition current.stage target)
      then (err (invalid_transition current.stage target), r)
      else eval_update ttl now task p target reread r

  -- `error_detail[:2_000]`
  abbrev pub clipped : StatusPatch N → StatusPatch N
  clipped p = record p {
    error_detail = elim p.error_detail [ none ↦ none | some d ↦ some (take 2000 d) ];
  }

  unfoldable pub update_status :
      ℕ
      → ℕ
      → Text
      → Text
      → StatusPatch N
      → (ℕ → Read N)
      → (ℕ → Read N)
      → Redis N
      → Result (TaskStatus N) × Redis N
  update_status max_attempts ttl now task p before after r =
      update_from ttl now task (clipped p) (get_status F task max_attempts before)
        (get_status F task max_attempts after) r

  -- The patch of `fail`.
  unfoldable pub failure_patch : Text → Text → StatusPatch N
  failure_patch code detail = record no_patch {
    stage = some failed;
    message = some (codes "Task failed");
    error_code = some code;
    error_detail = some (take 2000 detail);
  }

  unfoldable pub fail_from :
      ℕ
      → ℕ
      → Text
      → Text
      → Text
      → Text
      → Result (TaskStatus N)
      → (ℕ → Read N)
      → (ℕ → Read N)
      → Redis N
      → Result (TaskStatus N) × Redis N
  fail_from max_attempts ttl now task code detail (err e) before after r = (err e, r)
  fail_from max_attempts ttl now task code detail (ok current) before after r =
      if is_terminal current.stage
      then (ok current, r)
      else update_status max_attempts ttl now task (failure_patch code detail) before after r

  -- `first` is what the read of `fail` itself answers.
  unfoldable pub fail :
      ℕ
      → ℕ
      → Text
      → Text
      → Text
      → Text
      → (ℕ → Read N)
      → (ℕ → Read N)
      → (ℕ → Read N)
      → Redis N
      → Result (TaskStatus N) × Redis N
  unfolding fail_from
  fail max_attempts ttl now task code detail first before after r =
      fail_from max_attempts ttl now task code detail (get_status F task max_attempts first) before
        after r
