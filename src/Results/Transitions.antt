-- ===== src/Results/Transitions.antt =====
-- The merge of the transitions in backend/app/services/result_aggregation.py: the dictionary from a
-- transition's type and frames to the most confident transition.
pub mod Best
use cv_video_analysis.Common.{
  ℕ, Bool, true, false, ◌≡◌, ◌↔◌, refl, Option, none, some, List, [], ◌∷◌, if◌then◌else◌, ◌&&◌,
  ◌==◌, arith,
}
use cv_video_analysis.Domain.Enums.{TransitionType, type_eq, type_eq_iff}
use cv_video_analysis.Domain.Floats.{Floats}
use cv_video_analysis.Results.{Transition, CutResult, sort_cuts}

abbrev pub Key : Type 0
Key = TransitionType × Option ℕ × Option ℕ

unfoldable pub transition_key : {N : Type 0} → Transition N → Key
transition_key t = elim t.frame [
  | none ↦ (t.kind, t.start_frame, t.end_frame)
  | some frame ↦ (t.kind, some frame, some frame)
]

unfoldable pub frame_eq : Option ℕ → Option ℕ → Bool
frame_eq none none = true
frame_eq none (some b) = false
frame_eq (some a) none = false
frame_eq (some a) (some b) = a == b

frame_eq_iff : (a b : Option ℕ) → (frame_eq a b ≡ true) ↔ (a ≡ b)
unfolding frame_eq
frame_eq_iff a b = ground arith

unfoldable pub key_eq : Key → Key → Bool
unfolding frame_eq
key_eq (k, a, b) (l, c, d) = type_eq k l && (frame_eq a c && frame_eq b d)

pub key_eq_iff : (j k : Key) → (key_eq j k ≡ true) ↔ (j ≡ k)
unfolding key_eq
key_eq_iff (k, a, b) (l, c, d) = ground (arith, type_eq_iff k l, frame_eq_iff a c, frame_eq_iff b d)

-- The dictionary, in the order in which its keys came.
abbrev pub TransitionTable : Type 0 → Type 0
TransitionTable N = List (Key × Transition N)

module _ {N : Type 0} where
  unfoldable pub find : TransitionTable N → Key → Option (Transition N)
  find [] k = none
  find ((j, t) ∷ m) k = if key_eq j k then some t else find m k

  unfoldable pub set : TransitionTable N → Key → Transition N → TransitionTable N
  set [] k t = (k, t) ∷ []
  set ((j, u) ∷ m) k t = let rest = set m k t in if key_eq j k then (k, t) ∷ m else (j, u) ∷ rest

module _ {N : Type 0} (F : Floats N) where
  -- `existing is None or transition.confidence > existing.confidence`
  unfoldable pub improves : Option (Transition N) → Transition N → Bool
  improves none t = true
  improves (some existing) t = F.lt existing.confidence t.confidence

  unfoldable pub merge_transition : TransitionTable N → Transition N → TransitionTable N
  unfolding improves find set transition_key
  merge_transition m t =
      if improves (find m (transition_key t)) t then set m (transition_key t) t else m

  unfoldable pub merge_transitions : List (Transition N) → TransitionTable N → TransitionTable N
  unfolding merge_transition
  merge_transitions [] m = m
  merge_transitions (t ∷ ts) m = merge_transitions ts (merge_transition m t)

  unfoldable pub merge_all : List (CutResult N) → TransitionTable N → TransitionTable N
  unfolding merge_transitions
  merge_all [] m = m
  merge_all (item ∷ cuts) m = merge_all cuts (merge_transitions item.transitions m)

  unfoldable pub merged_transitions : List (CutResult N) → TransitionTable N
  unfolding sort_cuts merge_all
  merged_transitions cuts = merge_all (sort_cuts cuts) []
