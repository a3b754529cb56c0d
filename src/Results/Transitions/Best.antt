-- ===== src/Results/Transitions/Best.antt =====
-- The merged transitions of backend/app/services/result_aggregation.py: under each key the most
-- confident one.
use cv_video_analysis.Common.{
  sym, ◌≡◌, refl, true, false, inl, inr, Option, none, some, List, [], ◌∷◌, if◌then◌else◌, All,
  All-mono, Any, occurs_self, Bool-cases, if_elim, arith, ◌∙◌, ap,
}
use cv_video_analysis.Domain.Floats.{Floats, IsLe, IsLe-refl}
use cv_video_analysis.Results.{Transition, CutResult, sort_cuts}
use cv_video_analysis.Results.Order.{All-sort_cuts, All-unsort}
use cv_video_analysis.Results.Transitions.{
  Key, transition_key, key_eq, key_eq_iff, TransitionTable, find, set, improves, merge_transition,
  merge_transitions, merge_all, merged_transitions,
}

find-set :
    {N : Type 0} (m : TransitionTable N) (k j : Key) (t : Transition N)
    → find (set m k t) j ≡ (if key_eq k j then some t else find m j)
unfolding find set
find-set [] k j t = refl
find-set ((i, u) ∷ m) k j t =
    ground (arith, key_eq_iff k j, key_eq_iff i k, key_eq_iff i j, find-set m k j t)

key_eq_refl : (k : Key) → key_eq k k ≡ true
key_eq_refl k = (key_eq_iff k k).1 refl

-- No key occurs twice.
abbrev pub IsUnique : {N : Type 0} → TransitionTable N → Type 0
IsUnique [] = Unit
IsUnique ((k, t) ∷ m) = (find m k ≡ none) × IsUnique m

set-IsUnique :
    {N : Type 0} (m : TransitionTable N) (k : Key) (t : Transition N)
    → IsUnique m
    → IsUnique (set m k t)
unfolding set find
set-IsUnique [] k t h = (refl, tt)
set-IsUnique ((j, u) ∷ m) k t (fresh, unique) =
    if_elim IsUnique (key_eq j k) ((k, t) ∷ m) ((j, u) ∷ set m k t)
      (λ same. (ap (find m) (sym ((key_eq_iff j k).0 same)) ∙ fresh, unique))
      (λ apart. (
        ground (arith, key_eq_iff k j, key_eq_iff j k, find-set m k j t),
        set-IsUnique m k t unique,
      ))

All-set :
    {N : Type 0} (P : Key × Transition N → Type 0) (m : TransitionTable N) (k : Key)
    (t : Transition N)
    → P (k, t)
    → All P m
    → All P (set m k t)
unfolding set
All-set P [] k t pt h = (pt, tt)
All-set P ((j, u) ∷ m) k t pt (pu, h) =
    if_elim (All P) (key_eq j k) ((k, t) ∷ m) ((j, u) ∷ set m k t) (λ same. (pt, h))
      (λ apart. (pu, All-set P m k t pt h))

module _ {N : Type 0} (F : Floats N) where
  -- The dictionary has a transition of the same key that is no less confident.
  abbrev pub Kept : TransitionTable N → Transition N → Type 0
  Kept m t =
      (best : Transition N) × (find m (transition_key t) ≡ some best)
      × IsLe F t.confidence best.confidence

  better-IsLe :
      (o : Option (Transition N)) (e u : Transition N)
      → o ≡ some e
      → improves F o u ≡ true
      → IsLe F e.confidence u.confidence
  unfolding improves
  better-IsLe none e u is_e h = absurd (ground (arith, is_e))
  better-IsLe (some d) e u is_e h =
      let same : d ≡ e = cc in rw same at (F.lt_asymm d.confidence u.confidence h)

  worse-IsLe :
      (o : Option (Transition N)) (u : Transition N)
      → improves F o u ≡ false
      → (e : Transition N) × (o ≡ some e) × IsLe F u.confidence e.confidence
  unfolding improves
  worse-IsLe none u h = absurd (ground (arith, h))
  worse-IsLe (some e) u h = (e, refl, h)

  merge_transition-Kept :
      (m : TransitionTable N) (u t : Transition N) → Kept m t → Kept (merge_transition F m u) t
  unfolding merge_transition
  merge_transition-Kept m u t (best, found, le) =
      if_elim (λ r. Kept r t) (improves F (find m (transition_key u)) u)
        (set m (transition_key u) u) m
        (λ better. elim (Bool-cases (key_eq (transition_key u) (transition_key t))) [
          | inl same ↦ (
            u,
            rw (find-set, same) refl,
            F.le_trans t.confidence best.confidence u.confidence le (
                better-IsLe (find m (transition_key u)) best u
                  (ap (find m) ((key_eq_iff (transition_key u) (transition_key t)).0 same) ∙ found)
                  better),
          )
          | inr apart ↦ (best, rw (find-set, apart) found, le)
        ])
        (λ worse. (best, found, le))

  merge_transition-Kept_new :
      (m : TransitionTable N) (u : Transition N) → Kept (merge_transition F m u) u
  unfolding merge_transition
  merge_transition-Kept_new m u =
      if_elim (λ r. Kept r u) (improves F (find m (transition_key u)) u)
        (set m (transition_key u) u) m
        (λ better. (u, rw (find-set, key_eq_refl) refl, IsLe-refl F u.confidence))
        (λ worse. worse-IsLe (find m (transition_key u)) u worse)

  merge_transitions-Kept :
      (ts : List (Transition N)) (m : TransitionTable N) (t : Transition N)
      → Kept m t
      → Kept (merge_transitions F ts m) t
  unfolding merge_transitions
  merge_transitions-Kept [] m t h = h
  merge_transitions-Kept (u ∷ ts) m t h =
      merge_transitions-Kept ts (merge_transition F m u) t (merge_transition-Kept m u t h)

  merge_transitions-All :
      (ts : List (Transition N)) (m : TransitionTable N) → All (Kept (merge_transitions F ts m)) ts
  unfolding merge_transitions
  merge_transitions-All [] m = tt
  merge_transitions-All (u ∷ ts) m = (
    merge_transitions-Kept ts (merge_transition F m u) u (merge_transition-Kept_new m u),
    merge_transitions-All ts (merge_transition F m u),
  )

  merge_all-Kept :
      (cs : List (CutResult N)) (m : TransitionTable N) (t : Transition N)
      → Kept m t
      → Kept (merge_all F cs m) t
  unfolding merge_all
  merge_all-Kept [] m t h = h
  merge_all-Kept (c ∷ cs) m t h =
      merge_all-Kept cs (merge_transitions F c.transitions m) t
        (merge_transitions-Kept c.transitions m t h)

  merge_all-All :
      (cs : List (CutResult N)) (m : TransitionTable N)
      → All (λ c. All (Kept (merge_all F cs m)) c.transitions) cs
  unfolding merge_all
  merge_all-All [] m = tt
  merge_all-All (c ∷ cs) m = (
    All-mono (merge_all-Kept cs (merge_transitions F c.transitions m)) c.transitions
        (merge_transitions-All c.transitions m),
    merge_all-All cs (merge_transitions F c.transitions m),
  )

  module _ (S : Transition N → Type 0) where
    -- The transition has the property and stands under its own key.
    abbrev pub SoundEntry : Key × Transition N → Type 0
    SoundEntry (k, t) = S t × (transition_key t ≡ k)

    -- Every entry is sound, and no key occurs twice.
    abbrev pub Sound : TransitionTable N → Type 0
    Sound m = All SoundEntry m × IsUnique m

    merge_transition-Sound :
        (m : TransitionTable N) (u : Transition N) → S u → Sound m → Sound (merge_transition F m u)
    unfolding merge_transition
    merge_transition-Sound m u su (entries, unique) =
        if_elim Sound (improves F (find m (transition_key u)) u) (set m (transition_key u) u) m
          (λ better. (
            All-set SoundEntry m (transition_key u) u (su, refl) entries,
            set-IsUnique m (transition_key u) u unique,
          ))
          (λ worse. (entries, unique))

    merge_transitions-Sound :
        (ts : List (Transition N)) (m : TransitionTable N)
        → All S ts
        → Sound m
        → Sound (merge_transitions F ts m)
    unfolding merge_transitions
    merge_transitions-Sound [] m hs h = h
    merge_transitions-Sound (u ∷ ts) m (su, hs) h =
        merge_transitions-Sound ts (merge_transition F m u) hs (merge_transition-Sound m u su h)

    merge_all-Sound :
        (cs : List (CutResult N)) (m : TransitionTable N)
        → All (λ c. All S c.transitions) cs
        → Sound m
        → Sound (merge_all F cs m)
    unfolding merge_all
    merge_all-Sound [] m hs h = h
    merge_all-Sound (c ∷ cs) m (sc, hs) h =
        merge_all-Sound cs (merge_transitions F c.transitions m) hs
          (merge_transitions-Sound c.transitions m sc h)

-- The transition stands in one of the results.
abbrev pub Reported : {N : Type 0} → List (CutResult N) → Transition N → Type 0
Reported cuts t = Any (λ c. Any (λ u. t ≡ u) c.transitions) cuts

All-Reported :
    {N : Type 0} (cuts : List (CutResult N)) → All (λ c. All (Reported cuts) c.transitions) cuts
All-Reported [] = tt
All-Reported (c ∷ cs) = (
  All-mono (λ t h. inl h) c.transitions (occurs_self c.transitions),
  All-mono (λ d h. All-mono (λ t o. inr o) d.transitions h) cs (All-Reported cs),
)

-- Whatever the order of the cut results, each of their transitions has in the merged dictionary
-- one of the same key that is no less confident; every entry is a transition of one of the results
-- under its own key; and no key has two entries.
pub merged_transitions_lem :
    {N : Type 0} (F : Floats N) (cuts : List (CutResult N))
    → All (λ c. All (Kept F (merged_transitions F cuts)) c.transitions) cuts
      × All (SoundEntry F (Reported cuts)) (merged_transitions F cuts)
      × IsUnique (merged_transitions F cuts)
unfolding merged_transitions
merged_transitions_lem F cuts =
    let (sound, unique) =
      merge_all-Sound F (Reported cuts) (sort_cuts cuts) []
        (All-sort_cuts (λ c. All (Reported cuts) c.transitions) cuts (All-Reported cuts))
        (tt, tt) in
    (
      All-unsort (λ c. All (Kept F (merge_all F (sort_cuts cuts) [])) c.transitions) cuts
          (merge_all-All F (sort_cuts cuts) []),
      sound,
      unique,
    )
