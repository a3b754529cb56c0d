-- ===== src/Repository/Status/Reading.antt =====
-- What `get_status` answers, and the round trip of a status through its hash.
use native.Mathlib.Decide.{ℕ_discrete}
use cv_video_analysis.Common.{ℕ, zero, suc, ◌+◌, ◌<◌, ◌≤◌, ◌≡◌, refl, true, none, some, arith}
use cv_video_analysis.Common.Texts.{Text}
use cv_video_analysis.Domain.Floats.{Floats}
use cv_video_analysis.Store.{TaskHash, task_exists}
use cv_video_analysis.Repository.Errors.{Result, ok, err, status_unavailable}
use cv_video_analysis.Repository.Status.{
  or_none, status_from_fields, TaskStatus, Read, answer, status_mapping, status_from_mapping,
  is_valid_progress, attempt_outcome, get_status_from, get_status,
}

module _ {N : Type 0} (F : Floats N) (task : Text) (reads : ℕ → Read N) where
  get_status_from_first :
      (start k left : ℕ) {r : Result (TaskStatus N)}
      → start ≤ k
      → k < start + left
      → ((j : ℕ) → start ≤ j → j < k → attempt_outcome F task (reads j) ≡ none)
      → attempt_outcome F task (reads k) ≡ some r
      → get_status_from F task reads start left ≡ r
  unfolding get_status_from
  get_status_from_first start k zero low high before found = absurd (omega arith)
  get_status_from_first start k (suc left) {r} low high before found = elim (ℕ_discrete start k) [
    | yes e ↦
        let now : attempt_outcome F task (reads start) ≡ some r = rw e found in
        rw (now, get_status_from)
    | no n ↦
        rw (before start (omega arith) (omega arith), get_status_from)
          (get_status_from_first (start + 1) k left (omega arith) (omega arith)
            (λ j lo hi. before j (omega arith) hi) found)
  ]

  get_status_from_silent :
      (start left : ℕ)
      → ((j : ℕ) → start ≤ j → j < start + left → attempt_outcome F task (reads j) ≡ none)
      → get_status_from F task reads start left ≡ err (status_unavailable task)
  unfolding get_status_from
  get_status_from_silent start zero silent = refl
  get_status_from_silent start (suc left) silent =
      rw (silent start (omega arith) (omega arith), get_status_from)
        (get_status_from_silent (start + 1) left (λ j lo hi. silent j (omega arith) (omega arith)))

  -- Get_status answers with what the first conclusive one of its attempts settles, and raises
  -- TaskStatusUnavailableError if none of them is conclusive.
  pub get_status_first :
      (max_attempts : ℕ)
      → ((k : ℕ) (r : Result (TaskStatus N))
          → k < max_attempts
          → ((j : ℕ) → j < k → attempt_outcome F task (reads j) ≡ none)
          → attempt_outcome F task (reads k) ≡ some r
          → get_status F task max_attempts reads ≡ r)
        × (((j : ℕ) → j < max_attempts → attempt_outcome F task (reads j) ≡ none)
            → get_status F task max_attempts reads ≡ err (status_unavailable task))
  unfolding get_status
  get_status_first max_attempts = (
    λ k r h before found.
        get_status_from_first 0 k max_attempts (omega arith) (omega arith) (λ j lo hi. before j hi)
          found,
    λ silent. get_status_from_silent 0 max_attempts (λ j lo hi. silent j (omega arith)),
  )

-- What a round trip makes of a status: an optional text that is empty becomes None.
abbrev pub normal : {N : Type 0} → TaskStatus N → TaskStatus N
normal s = record s {
  processing_started_at = or_none s.processing_started_at;
  error_code = or_none s.error_code;
  error_detail = or_none s.error_detail;
}

module _ {N : Type 0} (F : Floats N) where
  -- A status whose progress the schema accepts is read back, up to empty optional texts, from the
  -- hash that its mapping was written to, whatever the hash held before.
  pub get_status-status_mapping :
      (s : TaskStatus N) (h : TaskHash N) (task : Text) (reads : ℕ → Read N) (attempts : ℕ)
      → is_valid_progress F s.progress ≡ true
      → reads 0 ≡ answer (status_mapping s h)
      → get_status F task (suc attempts) reads ≡ ok (normal s)
  unfolding get_status get_status_from attempt_outcome status_from_mapping status_from_fields
      status_mapping task_exists
  get_status-status_mapping s h task reads attempts valid first = ground arith
