-- ===== src/Workers/Outcomes.antt =====
-- How a delivery of backend/app/workers/common.py ends.
use cv_video_analysis.Common.{
  ℕ, ◌+◌, ◌≡◌, ◌⊎◌, inl, inr, refl, ap, ◌∙◌, true, Option, none, some, List, [], ◌∷◌, ◌++◌, leb,
  take, Any, if_elim,
}
use cv_video_analysis.Common.Texts.{Text}
use cv_video_analysis.Workers.{
  WorkerException, is_transient_error, Attempt, Delivery, Progress, returned, raised, retrying,
  acknowledge, publish_dead_letter, mark_task_failed, finish, give_up, give_up_task,
  failure_counted, count_failure, handle_exception, clear_after, ack_after, attempt_after,
  process_attempt, go_on, process_message,
}

-- The handler has succeeded, or the dead letters are those before the message.
abbrev Pending : Attempt → List Text → Delivery → Type 0
Pending a before d = (a.handler ≡ none) ⊎ (d.dead_letters ≡ before)

-- The handler has succeeded, or there is one dead letter more.
abbrev Settled : Attempt → List Text → Delivery → Type 0
Settled a before d = (a.handler ≡ none) ⊎ ((error : Text) × (d.dead_letters ≡ before ++ error ∷ []))

module _ (a : Attempt) (before : List Text) where
  abbrev Step : Progress × Delivery → Type 0
  Step (returned, d) = (d.acked ≡ true) × (d.attempts ≡ 0) × Settled a before d
  Step (raised e, d) = Unit
  Step (retrying, d) = Pending a before d

  finish-Step :
      (ack clear : Option WorkerException) (d : Delivery)
      → Settled a before d
      → Step (finish ack clear d)
  unfolding finish
  finish-Step (some e) clear d s = tt
  finish-Step none (some e) d s = tt
  finish-Step none none d s = (refl, refl, s)

  dead_letter-Settled :
      (e : WorkerException) (d : Delivery)
      → Pending a before d
      → Settled a before (publish_dead_letter e d)
  dead_letter-Settled e d (inl h) = inl h
  dead_letter-Settled e d (inr h) = inr (take 2000 e.text, ap (λ l. l ++ take 2000 e.text ∷ []) h)

  give_up-Step :
      (e : WorkerException) (dead : Option WorkerException) (d : Delivery)
      → Pending a before d
      → Step (give_up a e dead d)
  unfolding give_up
  give_up-Step e (some e') d p = tt
  give_up-Step e none d p =
      finish-Step a.last_ack a.last_clear (publish_dead_letter e d) (dead_letter-Settled e d p)

  give_up_task-Step :
      (e : WorkerException) (dead : Option WorkerException) (d : Delivery)
      → Pending a before d
      → Step (give_up_task a e dead d)
  unfolding give_up_task
  give_up_task-Step e (some e') d p = tt
  give_up_task-Step e none d p =
      finish-Step a.last_ack a.last_clear (mark_task_failed a.marks e (publish_dead_letter e d))
        (dead_letter-Settled e d p)

  module _ (max_attempts : ℕ) where
    failure_counted-Step :
        (e : WorkerException) (expire : Option WorkerException) (d : Delivery)
        → Pending a before d
        → Step (failure_counted max_attempts a e expire d)
    unfolding failure_counted
    failure_counted-Step e (some e') d p = tt
    failure_counted-Step e none d p =
        if_elim Step (leb max_attempts d.attempts) _ _ (λ h. give_up_task-Step e a.dead_letter d p)
          (λ h. p)

    count_failure-Step :
        (e : WorkerException) (register : Option WorkerException) (d : Delivery)
        → Pending a before d
        → Step (count_failure max_attempts a e register d)
    unfolding count_failure
    count_failure-Step e (some e') d p = tt
    count_failure-Step e none d p =
        failure_counted-Step e a.expire (record d { attempts = d.attempts + 1 }) p

    handle_exception-Step :
        (e : WorkerException) (d : Delivery)
        → Pending a before d
        → Step (handle_exception max_attempts a e d)
    unfolding handle_exception
    handle_exception-Step e d p =
        if_elim Step e.is_terminal _ _ (λ h. give_up-Step e a.dead_letter d p)
          (λ h.
            if_elim Step (is_transient_error e) _ _ (λ h. p)
              (λ h. count_failure-Step e a.register d p))

    clear_after-Step :
        (clear : Option WorkerException) (d : Delivery)
        → a.handler ≡ none
        → d.acked ≡ true
        → Step (clear_after max_attempts a clear d)
    unfolding clear_after
    clear_after-Step (some e) d h acked = handle_exception-Step e d (inl h)
    clear_after-Step none d h acked = (acked, refl, inl h)

    ack_after-Step :
        (ack : Option WorkerException) (d : Delivery)
        → a.handler ≡ none
        → Step (ack_after max_attempts a ack d)
    unfolding ack_after
    ack_after-Step (some e) d h = handle_exception-Step e d (inl h)
    ack_after-Step none d h = clear_after-Step a.clear (acknowledge d) h refl

    attempt_after-Step :
        (handler : Option WorkerException) (d : Delivery)
        → a.handler ≡ handler
        → d.dead_letters ≡ before
        → Step (attempt_after max_attempts a handler d)
    unfolding attempt_after
    attempt_after-Step (some e) d h same = handle_exception-Step e d (inr same)
    attempt_after-Step none d h same = ack_after-Step a.ack d h

-- What holds when the message is done with.
abbrev pub Done : List Attempt → List Text → Delivery → Type 0
Done l before d =
    (d.acked ≡ true)
    × (d.attempts ≡ 0)
    × (Any (λ a. a.handler ≡ none) l ⊎ ((error : Text) × (d.dead_letters ≡ before ++ error ∷ [])))

abbrev Result : List Attempt → List Text → Progress × Delivery → Type 0
Result l before (returned, d) = Done l before d
Result l before (raised e, d) = Unit
Result l before (retrying, d) = Any (λ a. a.handler ≡ none) l ⊎ (d.dead_letters ≡ before)

Result-handled :
    (a : Attempt) (later : List Attempt) (before before' : List Text) (r : Progress × Delivery)
    → a.handler ≡ none
    → Result later before' r
    → Result (a ∷ later) before r
Result-handled a later before before' (returned, d) h (acked, attempts, s) =
    (acked, attempts, inl (inl h))
Result-handled a later before before' (raised e, d) h s = tt
Result-handled a later before before' (retrying, d) h s = inl (inl h)

Result-later :
    (a : Attempt) (later : List Attempt) (before before' : List Text) (r : Progress × Delivery)
    → before' ≡ before
    → Result later before' r
    → Result (a ∷ later) before r
Result-later a later before before' (returned, d) same (acked, attempts, inl h) =
    (acked, attempts, inl (inr h))
Result-later a later before before' (returned, d) same (acked, attempts, inr (error, h)) =
    (acked, attempts, inr (error, h ∙ ap (λ l. l ++ error ∷ []) same))
Result-later a later before before' (raised e, d) same s = tt
Result-later a later before before' (retrying, d) same (inl h) = inl (inr h)
Result-later a later before before' (retrying, d) same (inr h) = inr (h ∙ same)

go_on-Result :
    (a : Attempt) (later : List Attempt) (before : List Text) (r rest : Progress × Delivery)
    → Step a before r
    → Result later r.1.dead_letters rest
    → Result (a ∷ later) before (go_on r rest)
unfolding go_on
go_on-Result a later before (returned, d) rest (acked, attempts, inl h) ih =
    (acked, attempts, inl (inl h))
go_on-Result a later before (returned, d) rest (acked, attempts, inr s) ih =
    (acked, attempts, inr s)
go_on-Result a later before (raised e, d) rest s ih = tt
go_on-Result a later before (retrying, d) rest (inl h) ih =
    Result-handled a later before d.dead_letters rest h ih
go_on-Result a later before (retrying, d) rest (inr same) ih =
    Result-later a later before d.dead_letters rest same ih

process_message-Result :
    (max_attempts : ℕ) (l : List Attempt) (d : Delivery)
    → Result l d.dead_letters (process_message max_attempts l d)
unfolding process_message process_attempt
process_message-Result max_attempts [] d = inr refl
process_message-Result max_attempts (a ∷ later) d =
    go_on-Result a later d.dead_letters (process_attempt max_attempts a d) _
      (attempt_after-Step a d.dead_letters max_attempts a.handler d refl refl)
      (process_message-Result max_attempts later (process_attempt max_attempts a d).1)

-- When the processing of a message returns, the message is acknowledged and its failure counter
-- cleared, and either the handler has succeeded in one of the attempts or exactly one dead letter
-- was published.
pub process_message_returned :
    (max_attempts : ℕ) (l : List Attempt) (d d' : Delivery)
    → process_message max_attempts l d ≡ (returned, d')
    → Done l d.dead_letters d'
process_message_returned max_attempts l d d' e = rw e at (process_message-Result max_attempts l d)
