-- ===== src/Examples/Deliveries.antt =====
-- A worker's deliveries: a message that fails twice, and a batch of two tasks.
use cv_video_analysis.Common.{◌≡◌, refl, true, false, none, some, Option, List, [], ◌∷◌, arith}
use cv_video_analysis.Common.Texts.{Text, codes, text_eq}
use cv_video_analysis.Common.Maps.{get_or, put}
use cv_video_analysis.Workers.{
  WorkerException, Attempt, Delivery, returned, process_message, is_transient_error,
}
use cv_video_analysis.Workers.Outcomes.{Done, process_message_returned}
use cv_video_analysis.Workers.Ending.{Quiet, process_message_returns}
use cv_video_analysis.Workers.Partitions.{
  StreamMessage, partition_messages, Runs, finished, takes_up,
}
use cv_video_analysis.Workers.Partitions.Order.{of_key, Runs-partition_messages}

abbrev failure : WorkerException
failure = record { text = codes "decode"; is_terminal = false; chain = false ∷ [] }

abbrev timeout : WorkerException
timeout = record { text = codes "timeout"; is_terminal = false; chain = false ∷ true ∷ [] }

abbrev attempt : WorkerException → Attempt
attempt e = record {
  handler = some e;
  ack = none;
  clear = none;
  register = none;
  expire = none;
  dead_letter = none;
  marks = true;
  last_ack = none;
  last_clear = none;
}

abbrev attempts : List Attempt
attempts = attempt failure ∷ attempt timeout ∷ attempt failure ∷ []

abbrev new : Delivery
new = record { acked = false; attempts = 0; dead_letters = []; failures = [] }

abbrev buried : Delivery
buried = record {
  acked = true;
  attempts = 0;
  dead_letters = codes "decode" ∷ [];
  failures = codes "decode" ∷ [];
}

runs : process_message 2 attempts new ≡ (returned, buried)
unfolding process_message
runs = refl

process_message_returned_example : Done attempts [] buried
process_message_returned_example = process_message_returned 2 attempts new buried runs

quiet : (e : WorkerException) → Quiet (attempt e)
quiet e = (refl, refl, refl, refl, refl)

process_message_returns_example : (process_message 2 attempts new).0 ≡ returned
unfolding is_transient_error
process_message_returns_example =
    process_message_returns 2 attempts new (quiet failure, (quiet timeout, (quiet failure, tt)))
      (omega arith) (omega arith)

abbrev message : Text → Text → StreamMessage
message event task = record { event_id = event; task_id = some task; payload = none }

abbrev a1 : StreamMessage
a1 = message (codes "1") (codes "a")

abbrev b1 : StreamMessage
b1 = message (codes "2") (codes "b")

abbrev a2 : StreamMessage
a2 = message (codes "3") (codes "a")

abbrev no_json : Text → Option Text
no_json payload = none

all_empty :
    (key : Text)
    → ◌≡◌ {A = List StreamMessage} (get_or ((codes "a", []) ∷ (codes "b", []) ∷ []) key []) []
unfolding get_or
all_empty key = ground arith

b_first : Runs (partition_messages no_json true (a1 ∷ b1 ∷ a2 ∷ [])) (b1 ∷ a1 ∷ a2 ∷ [])
unfolding partition_messages get_or put text_eq
b_first =
    takes_up (codes "b") b1 [] refl (
      takes_up (codes "a") a1 (a2 ∷ []) refl (takes_up (codes "a") a2 [] refl (finished all_empty)))

Runs-partition_messages_example :
    of_key no_json true (codes "a") (b1 ∷ a1 ∷ a2 ∷ [])
    ≡ of_key no_json true (codes "a") (a1 ∷ b1 ∷ a2 ∷ [])
Runs-partition_messages_example =
    Runs-partition_messages no_json true (a1 ∷ b1 ∷ a2 ∷ []) (b1 ∷ a1 ∷ a2 ∷ []) (codes "a") b_first
