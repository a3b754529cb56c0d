-- ===== src/Workers/Partitions/Order.antt =====
-- The messages of one partition in backend/app/workers/common.py keep their order.
use cv_video_analysis.Common.{
  Bool, List, [], ◌∷◌, ◌++◌, if◌then◌else◌, if_elim, ◌≡◌, refl, sym, ap, ◌∙◌, Bool-cases, inl, inr,
  All, append_assoc, append-nil, Option,
}
use cv_video_analysis.Common.Texts.{Text, text_eq, text_eq_iff}
use cv_video_analysis.Common.Maps.{Map, get_or, put, get_or-put}
use cv_video_analysis.Workers.Partitions.{
  StreamMessage, partition_key, append_to, partition_from, partition_messages, Runs, finished,
  takes_up,
}

module _ (json_task : Text → Option Text) (by_task : Bool) where
  abbrev key_of : StreamMessage → Text
  key_of = partition_key json_task by_task

  -- The messages of a key, in their order.
  unfoldable pub of_key : Text → List StreamMessage → List StreamMessage
  of_key key [] = []
  of_key key (m ∷ ms) =
      let rest = of_key key ms in
      if text_eq (partition_key json_task by_task m) key then m ∷ rest else rest

  partition_from-of_key :
      (ms : List StreamMessage) (parts : Map (List StreamMessage)) (key : Text)
      → get_or (partition_from json_task by_task ms parts) key []
        ≡ get_or parts key [] ++ of_key key ms
  unfolding partition_from of_key
  partition_from-of_key [] parts key = sym (append-nil (get_or parts key []))
  partition_from-of_key (m ∷ ms) parts key = elim (Bool-cases (text_eq (key_of m) key)) [
    | inl same ↦
        let stored : get_or (append_to parts (key_of m) m) key [] ≡ get_or parts key [] ++ m ∷ [] =
          unfold append_to in
          rw (get_or-put, same)
            (ap (λ k. get_or parts k [] ++ m ∷ []) ((text_eq_iff (key_of m) key).0 same)) in
        rw same (
          partition_from-of_key ms (append_to parts (key_of m) m) key
          ∙ ap (λ l. l ++ of_key key ms) stored
          ∙ append_assoc (get_or parts key []) (m ∷ []) (of_key key ms))
    | inr apart ↦
        let stored : get_or (append_to parts (key_of m) m) key [] ≡ get_or parts key [] =
          unfold append_to in rw (get_or-put, apart) in
        rw apart (
          partition_from-of_key ms (append_to parts (key_of m) m) key
          ∙ ap (λ l. l ++ of_key key ms) stored)
  ]

  abbrev IsPartition : Map (List StreamMessage) → Type 0
  IsPartition parts = (key : Text) → All (λ m. key_of m ≡ key) (get_or parts key [])

  put-IsPartition :
      (parts : Map (List StreamMessage)) (k : Text) (rest : List StreamMessage)
      → IsPartition parts
      → All (λ m. key_of m ≡ k) rest
      → IsPartition (put parts k rest)
  put-IsPartition parts k rest h r key = rw get_or-put (
      if_elim (All (λ m. key_of m ≡ key)) (text_eq k key) rest (get_or parts key [])
        (λ same. at_key ((text_eq_iff k key).0 same) r) (λ apart. h key))
    where
      at_key : k ≡ key → All (λ m. key_of m ≡ k) rest → All (λ m. key_of m ≡ key) rest
      at_key e a = rw (← e) a

  Runs-of_key :
      {parts : Map (List StreamMessage)} {order : List StreamMessage}
      → Runs parts order
      → IsPartition parts
      → (key : Text) → of_key key order ≡ get_or parts key []
  unfolding of_key
  Runs-of_key (finished done) h key = sym (done key)
  Runs-of_key {parts} (takes_up {order} k m rest front runs) h key =
      let (mk, r) = rw front at (h k) in
      let later : of_key key order ≡ (if text_eq k key then rest else get_or parts key []) =
        Runs-of_key runs (put-IsPartition parts k rest h r) key ∙ get_or-put parts k key rest [] in
      elim (Bool-cases (text_eq k key)) [
        | inl same ↦
            rw (mk, same)
              (ap (λ l. m ∷ l) (later ∙ rw same refl)
                ∙ sym front
                ∙ ap (λ j. get_or parts j []) ((text_eq_iff k key).0 same))
        | inr apart ↦ rw (mk, apart) (later ∙ rw apart refl)
      ]

  of_key-IsPartition :
      (key : Text) (ms : List StreamMessage) → All (λ m. key_of m ≡ key) (of_key key ms)
  unfolding of_key
  of_key-IsPartition key [] = tt
  of_key-IsPartition key (m ∷ ms) =
      if_elim (All (λ n. key_of n ≡ key)) (text_eq (key_of m) key) _ _
        (λ same. ((text_eq_iff (key_of m) key).0 same, of_key-IsPartition key ms))
        (λ apart. of_key-IsPartition key ms)

  -- In whatever order the partitions of a batch run side by side, the messages of one key are
  -- taken up in the order of the batch.
  pub Runs-partition_messages :
      (ms order : List StreamMessage) (key : Text)
      → Runs (partition_messages json_task by_task ms) order
      → of_key key order ≡ of_key key ms
  unfolding partition_messages get_or
  Runs-partition_messages ms order key runs =
      Runs-of_key runs (λ k. rw (partition_from-of_key ms [] k) (of_key-IsPartition k ms)) key
      ∙ partition_from-of_key ms [] key
