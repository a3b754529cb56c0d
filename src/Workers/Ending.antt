-- ===== src/Workers/Ending.antt =====
-- That a delivery of backend/app/workers/common.py ends.
use cv_video_analysis.Common.{
  ℕ, ◌+◌, ◌≤◌, ◌<◌, ◌≡◌, refl, Bool, true, false, not, Option, none, some, List, [], ◌∷◌,
  if◌then◌else◌, leb, All, arith, if_elim,
}
use cv_video_analysis.Workers.{
  WorkerException, is_transient_error, Attempt, Delivery, Progress, returned, raised, retrying,
  acknowledge, publish_dead_letter, mark_task_failed, finish, give_up, give_up_task,
  failure_counted, count_failure, handle_exception, clear_after, ack_after, attempt_after,
  process_attempt, go_on, process_message,
}

-- The calls in an `except` raise nothing.
abbrev pub Quiet : Attempt → Type 0
Quiet a =
    (a.register ≡ none)
    × (a.dead_letter ≡ none)
    × (a.last_ack ≡ none)
    × (a.last_clear ≡ none)
    × (a.expire ≡ none)

-- The attempt succeeds, or it raises something that is not transient.
abbrev pub decides : Option WorkerException → Bool → Bool
decides none otherwise = otherwise
decides (some e) otherwise = if e.is_terminal then true else not (is_transient_error e)

abbrev pub decided : Attempt → Bool
decided a = decides a.handler (decides a.ack (decides a.clear true))

abbrev pub count_decided : List Attempt → ℕ
count_decided [] = 0
count_decided (a ∷ l) = (if decided a then 1 else 0) + count_decided l

module _ (max_attempts : ℕ) (a : Attempt) (quiet : Quiet a) where
  abbrev Counts : Bool → ℕ → Progress × Delivery → Type 0
  Counts b attempts (returned, d) = Unit
  Counts b attempts (raised e, d) = ⊥
  Counts b attempts (retrying, d) =
      (d.attempts ≡ attempts + (if b then 1 else 0)) × (b ≡ true → d.attempts < max_attempts)

  finish-Counts :
      (b : Bool) (attempts : ℕ) (ack clear : Option WorkerException) (d : Delivery)
      → ack ≡ none
      → clear ≡ none
      → Counts b attempts (finish ack clear d)
  unfolding finish
  finish-Counts b attempts (some e) clear d h k = absurd (ground (arith, h))
  finish-Counts b attempts none (some e) d h k = absurd (ground (arith, k))
  finish-Counts b attempts none none d h k = tt

  give_up-Counts :
      (b : Bool) (attempts : ℕ) (e : WorkerException) (dead : Option WorkerException) (d : Delivery)
      → dead ≡ none
      → Counts b attempts (give_up a e dead d)
  unfolding give_up
  give_up-Counts b attempts e (some e') d h = absurd (ground (arith, h))
  give_up-Counts b attempts e none d h =
      finish-Counts b attempts a.last_ack a.last_clear (publish_dead_letter e d) quiet.2 quiet.3

  give_up_task-Counts :
      (b : Bool) (attempts : ℕ) (e : WorkerException) (dead : Option WorkerException) (d : Delivery)
      → dead ≡ none
      → Counts b attempts (give_up_task a e dead d)
  unfolding give_up_task
  give_up_task-Counts b attempts e (some e') d h = absurd (ground (arith, h))
  give_up_task-Counts b attempts e none d h =
      finish-Counts b attempts a.last_ack a.last_clear
        (mark_task_failed a.marks e (publish_dead_letter e d)) quiet.2 quiet.3

  failure_counted-Counts :
      (e : WorkerException) (expire : Option WorkerException) (attempts : ℕ) (d : Delivery)
      → expire ≡ none
      → d.attempts ≡ attempts + 1
      → Counts true attempts (failure_counted max_attempts a e expire d)
  unfolding failure_counted
  failure_counted-Counts e (some e') attempts d h n = absurd (ground (arith, h))
  failure_counted-Counts e none attempts d h n =
      if_elim (Counts true attempts) (leb max_attempts d.attempts) _ _
        (λ last. give_up_task-Counts true attempts e a.dead_letter d quiet.1)
        (λ more. (n, λ _. ground arith))

  count_failure-Counts :
      (e : WorkerException) (register : Option WorkerException) (d : Delivery)
      → register ≡ none
      → Counts true d.attempts (count_failure max_attempts a e register d)
  unfolding count_failure
  count_failure-Counts e (some e') d h = absurd (ground (arith, h))
  count_failure-Counts e none d h =
      failure_counted-Counts e a.expire d.attempts (record d { attempts = d.attempts + 1 }) quiet.4
        refl

  pick-Counts :
      (terminal transient : Bool) (attempts : ℕ) (x y z : Progress × Delivery)
      → Counts true attempts x
      → Counts false attempts y
      → Counts true attempts z
      → Counts
          (if terminal then true else not transient)
          attempts
          (if terminal then x else if transient then y else z)
  pick-Counts true transient attempts x y z hx hy hz = hx
  pick-Counts false true attempts x y z hx hy hz = hy
  pick-Counts false false attempts x y z hx hy hz = hz

  handle_exception-Counts :
      (e : WorkerException) (otherwise : Bool) (d : Delivery)
      → Counts (decides (some e) otherwise) d.attempts (handle_exception max_attempts a e d)
  unfolding handle_exception
  handle_exception-Counts e otherwise d =
      pick-Counts e.is_terminal (is_transient_error e) d.attempts _ _ _
        (give_up-Counts true d.attempts e a.dead_letter d quiet.1) (omega arith, λ h. cc)
        (count_failure-Counts e a.register d quiet.0)

  clear_after-Counts :
      (clear : Option WorkerException) (d : Delivery)
      → Counts (decides clear true) d.attempts (clear_after max_attempts a clear d)
  unfolding clear_after
  clear_after-Counts (some e) d = handle_exception-Counts e true d
  clear_after-Counts none d = tt

  ack_after-Counts :
      (ack : Option WorkerException) (d : Delivery)
      → Counts (decides ack (decides a.clear true)) d.attempts (ack_after max_attempts a ack d)
  unfolding ack_after
  ack_after-Counts (some e) d = handle_exception-Counts e (decides a.clear true) d
  ack_after-Counts none d = clear_after-Counts a.clear (acknowledge d)

  attempt_after-Counts :
      (handler : Option WorkerException) (d : Delivery)
      → Counts
          (decides handler (decides a.ack (decides a.clear true)))
          d.attempts
          (attempt_after max_attempts a handler d)
  unfolding attempt_after
  attempt_after-Counts (some e) d =
      handle_exception-Counts e (decides a.ack (decides a.clear true)) d
  attempt_after-Counts none d = ack_after-Counts a.ack d

abbrev Enough : ℕ → List Attempt → ℕ → Type 0
Enough max_attempts l attempts =
    (attempts < max_attempts) × (max_attempts ≤ attempts + count_decided l)

go_on-returns :
    (max_attempts : ℕ) (a : Attempt) (quiet : Quiet a) (later : List Attempt) (b : Bool)
    (attempts : ℕ) (r rest : Progress × Delivery)
    → attempts < max_attempts
    → Counts max_attempts a quiet b attempts r
    → max_attempts ≤ attempts + ((if b then 1 else 0) + count_decided later)
    → (Enough max_attempts later r.1.attempts → rest.0 ≡ returned)
    → (go_on r rest).0 ≡ returned
unfolding go_on
go_on-returns max_attempts a quiet later b attempts (returned, d) rest lt c le ih = refl
go_on-returns max_attempts a quiet later b attempts (raised e, d) rest lt c le ih = absurd c
go_on-returns max_attempts a quiet later true attempts (retrying, d) rest lt c le ih =
    ih (c.1 refl, omega (arith, c.0))
go_on-returns max_attempts a quiet later false attempts (retrying, d) rest lt c le ih =
    ih (omega (arith, c.0), omega (arith, c.0))

-- If the calls in the except branches raise nothing, the counter is below the limit, and the
-- attempts that succeed or raise something that is not transient bring it to the limit, then the
-- processing of the message returns.
pub process_message_returns :
    (max_attempts : ℕ) (l : List Attempt) (d : Delivery)
    → All Quiet l
    → d.attempts < max_attempts
    → max_attempts ≤ d.attempts + count_decided l
    → (process_message max_attempts l d).0 ≡ returned
unfolding process_message process_attempt
process_message_returns max_attempts [] d quiet lt le = absurd (omega arith)
process_message_returns max_attempts (a ∷ later) d (quiet, all) lt le =
    go_on-returns max_attempts a quiet later (decided a) d.attempts
      (process_attempt max_attempts a d) _ lt
      (attempt_after-Counts max_attempts a quiet a.handler d) le
      (λ e.
        process_message_returns max_attempts later (process_attempt max_attempts a d).1 all e.0 e.1)
