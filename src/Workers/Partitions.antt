-- ===== src/Workers/Partitions.antt =====
-- The partitions of a batch in backend/app/workers/common.py, and the orders in which the messages of a
-- batch may be taken up when the partitions run side by side.
pub mod Order
use cv_video_analysis.Common.{
  Bool, true, false, Option, none, some, List, [], ◌∷◌, ◌++◌, if◌then◌else◌, ◌≡◌,
}
use cv_video_analysis.Common.Texts.{Text, codes, text_eq}
use cv_video_analysis.Common.Maps.{Map, get_or, put}

-- A message, with the two fields that are read here. `none` is a field that is absent or empty.
pub record StreamMessage : Type 0 where
  pub event_id : Text
  pub task_id : Option Text
  pub payload : Option Text

-- `partitions.setdefault(key, []).append(message)`
unfoldable pub append_to :
    Map (List StreamMessage) → Text → StreamMessage → Map (List StreamMessage)
append_to parts key m = put parts key (get_or parts key [] ++ m ∷ [])

module _ (json_task : Text → Option Text) where
  -- `_extract_task_id`. `json_task` is the text of the field `task_id` of a JSON object, `none` where
  -- the text is no JSON, no object, or the field is absent or empty.
  unfoldable pub task_of_payload : Option Text → Option Text
  task_of_payload none = none
  task_of_payload (some payload) = json_task payload

  unfoldable pub task_or : Option Text → Option Text → Option Text
  task_or (some direct) from_payload = some direct
  task_or none from_payload = from_payload

  unfoldable pub extract_task_id : StreamMessage → Option Text
  unfolding task_of_payload task_or
  extract_task_id m = task_or m.task_id (task_of_payload m.payload)

  unfoldable pub key_or_event : Option Text → Text → Text
  key_or_event (some task) event_id = task
  key_or_event none event_id = codes "event:" ++ event_id

  unfoldable pub partition_key : Bool → StreamMessage → Text
  unfolding key_or_event extract_task_id
  partition_key by_task m =
      if by_task then key_or_event (extract_task_id m) m.event_id else codes "event:" ++ m.event_id

  unfoldable pub partition_from :
      Bool → List StreamMessage → Map (List StreamMessage) → Map (List StreamMessage)
  unfolding append_to partition_key
  partition_from by_task [] parts = parts
  partition_from by_task (m ∷ ms) parts =
      partition_from by_task ms (append_to parts (partition_key by_task m) m)

  unfoldable pub partition_messages : Bool → List StreamMessage → Map (List StreamMessage)
  unfolding partition_from
  partition_messages by_task ms = partition_from by_task ms []

-- The orders in which messages are taken up: each partition from its front, the partitions in any
-- order.
pub data Runs : Map (List StreamMessage) → List StreamMessage → Type 0 where
  finished :
      {parts : Map (List StreamMessage)} → ((key : Text) → get_or parts key [] ≡ []) → Runs parts []
  takes_up :
      {parts : Map (List StreamMessage)} {order : List StreamMessage} (key : Text)
      (m : StreamMessage) (rest : List StreamMessage)
      → get_or parts key [] ≡ m ∷ rest
      → Runs (put parts key rest) order
      → Runs parts (m ∷ order)
