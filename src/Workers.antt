-- ===== src/Workers.antt =====
-- backend/app/workers/common.py and backend/app/infrastructure/redis_streams.py: how a worker delivers
-- one message to its handler, with retries and dead letters. What the calls answer is given for each
-- attempt. Heartbeats, logs, metrics and the cancelling of tasks are left out.
pub mod Outcomes
pub mod Ending
pub mod Partitions
use cv_video_analysis.Common.{
  ℕ, ◌+◌, Bool, true, false, ◌||◌, Option, none, some, List, [], ◌∷◌, ◌++◌, if◌then◌else◌, leb,
  take,
}
use cv_video_analysis.Common.Texts.{Text}

-- An exception: its text, whether it is a `TerminalWorkerError`, and of it and of its causes, in the
-- order in which they are visited, whether each is one of Redis's transient classes.
pub record WorkerException : Type 0 where
  pub text : Text
  pub is_terminal : Bool
  pub chain : List Bool

-- `RedisStreams.is_transient_error`
unfoldable pub any_transient : List Bool → Bool
any_transient [] = false
any_transient (transient ∷ chain) = transient || any_transient chain

unfoldable pub is_transient_error : WorkerException → Bool
unfolding any_transient
is_transient_error e = any_transient e.chain

-- What each call of one attempt raises, if anything: in the `try`, and in an `except`, where `register`
-- and `expire` are the two calls of `register_failure`; and whether `_mark_task_failed` finds a task in
-- the message and `fail` records it.
pub record Attempt : Type 0 where
  pub handler : Option WorkerException
  pub ack : Option WorkerException
  pub clear : Option WorkerException
  pub register : Option WorkerException
  pub expire : Option WorkerException
  pub dead_letter : Option WorkerException
  pub marks : Bool
  pub last_ack : Option WorkerException
  pub last_clear : Option WorkerException

-- What Redis knows of the message: whether it is acknowledged, the counter of its failures, and the
-- errors of its dead letters; and the errors that the task was marked failed with.
pub record Delivery : Type 0 where
  pub acked : Bool
  pub attempts : ℕ
  pub dead_letters : List Text
  pub failures : List Text

pub data Progress : Type 0 where
  returned : Progress
  raised : WorkerException → Progress
  retrying : Progress

-- `ack` and `clear_failure_counter`.
abbrev pub acknowledge : Delivery → Delivery
acknowledge d = record d { acked = true }

abbrev pub clear_failure_counter : Delivery → Delivery
clear_failure_counter d = record d { attempts = 0 }

-- `publish_dead_letter`, with the error cut to 2000 characters.
abbrev pub publish_dead_letter : WorkerException → Delivery → Delivery
publish_dead_letter e d = record d { dead_letters = d.dead_letters ++ take 2000 e.text ∷ [] }

-- `_mark_task_failed`, which raises nothing.
abbrev pub mark_task_failed : Bool → WorkerException → Delivery → Delivery
mark_task_failed marks e d = record d {
  failures = if marks then d.failures ++ e.text ∷ [] else d.failures;
}

-- The two last calls of an `except`, or of the `try`.
unfoldable pub finish :
    Option WorkerException → Option WorkerException → Delivery → Progress × Delivery
finish (some e) clear d = (raised e, d)
finish none (some e) d = (raised e, acknowledge d)
finish none none d = (returned, clear_failure_counter (acknowledge d))

-- `except TerminalWorkerError`
unfoldable pub give_up :
    Attempt → WorkerException → Option WorkerException → Delivery → Progress × Delivery
unfolding finish
give_up a e (some e') d = (raised e', d)
give_up a e none d = finish a.last_ack a.last_clear (publish_dead_letter e d)

-- The branch of the last attempt.
unfoldable pub give_up_task :
    Attempt → WorkerException → Option WorkerException → Delivery → Progress × Delivery
unfolding finish
give_up_task a e (some e') d = (raised e', d)
give_up_task a e none d =
    finish a.last_ack a.last_clear (mark_task_failed a.marks e (publish_dead_letter e d))

-- What follows the increment of `register_failure`.
unfoldable pub failure_counted :
    ℕ → Attempt → WorkerException → Option WorkerException → Delivery → Progress × Delivery
unfolding give_up_task
failure_counted max_attempts a e (some e') d = (raised e', d)
failure_counted max_attempts a e none d =
    if leb max_attempts d.attempts then give_up_task a e a.dead_letter d else (retrying, d)

-- `register_failure` and what follows it.
unfoldable pub count_failure :
    ℕ → Attempt → WorkerException → Option WorkerException → Delivery → Progress × Delivery
unfolding failure_counted
count_failure max_attempts a e (some e') d = (raised e', d)
count_failure max_attempts a e none d =
    failure_counted max_attempts a e a.expire (record d { attempts = d.attempts + 1 })

unfoldable pub handle_exception : ℕ → Attempt → WorkerException → Delivery → Progress × Delivery
unfolding give_up count_failure is_transient_error
handle_exception max_attempts a e d =
    if e.is_terminal
    then give_up a e a.dead_letter d
    else if is_transient_error e
    then (retrying, d)
    else count_failure max_attempts a e a.register d

-- One round of `while True` in `_process_message`.
unfoldable pub clear_after : ℕ → Attempt → Option WorkerException → Delivery → Progress × Delivery
unfolding handle_exception
clear_after max_attempts a (some e) d = handle_exception max_attempts a e d
clear_after max_attempts a none d = (returned, clear_failure_counter d)

unfoldable pub ack_after : ℕ → Attempt → Option WorkerException → Delivery → Progress × Delivery
unfolding handle_exception clear_after
ack_after max_attempts a (some e) d = handle_exception max_attempts a e d
ack_after max_attempts a none d = clear_after max_attempts a a.clear (acknowledge d)

unfoldable pub attempt_after : ℕ → Attempt → Option WorkerException → Delivery → Progress × Delivery
unfolding handle_exception ack_after
attempt_after max_attempts a (some e) d = handle_exception max_attempts a e d
attempt_after max_attempts a none d = ack_after max_attempts a a.ack d

unfoldable pub process_attempt : ℕ → Attempt → Delivery → Progress × Delivery
unfolding attempt_after
process_attempt max_attempts a d = attempt_after max_attempts a a.handler d

-- The next round runs only if this one asks for a retry.
unfoldable pub go_on : Progress × Delivery → Progress × Delivery → Progress × Delivery
go_on (returned, d) rest = (returned, d)
go_on (raised e, d) rest = (raised e, d)
go_on (retrying, d) rest = rest

-- `_process_message`, for the attempts that the environment gives; with none left it still retries.
unfoldable pub process_message : ℕ → List Attempt → Delivery → Progress × Delivery
unfolding process_attempt go_on
process_message max_attempts [] d = (retrying, d)
process_message max_attempts (a ∷ later) d =
    let (progress, d') = process_attempt max_attempts a d in
    go_on (progress, d') (process_message max_attempts later d')
