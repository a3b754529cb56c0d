-- ===== src/Tracker/Classes/Index.antt =====
-- The index of the class names in participant_3_tracking/yolo_world_tracker.py.
use cv_video_analysis.Common.{
  ℕ, ◌≡◌, refl, false, some, List, [], ◌∷◌, All, Any, ◌⊎◌, inl, inr, arith, Bool-cases,
}
use cv_video_analysis.Common.Texts.{Text, text_eq, text_eq_iff, text_eq_refl}
use cv_video_analysis.Common.Maps.{Map, put}
use cv_video_analysis.Common.Tables.{lookup, lookup-put}
use cv_video_analysis.Tracker.Classes.{
  TextMethods, class_key, other_id, add_classes, build_class_index,
}

-- An id that is there is not replaced by another.
put_same :
    (index : Map ℕ) (key k : Text) (class_id i : ℕ)
    → other_id (lookup index key) class_id ≡ false
    → lookup index k ≡ some i
    → lookup (put index key class_id) k ≡ some i
put_same index key k class_id i free h = elim (Bool-cases (text_eq key k)) [
  | inl same ↦
      let e : key ≡ k = (text_eq_iff key k).0 same in
      let f : other_id (some i) class_id ≡ false = rw (e, h) at free in
      rw (lookup-put index key k class_id, same) (ground arith)
  | inr apart ↦ rw (lookup-put index key k class_id, apart) h
]

put_new :
    (index : Map ℕ) (key : Text) (class_id : ℕ)
    → lookup (put index key class_id) key ≡ some class_id
put_new index key class_id = rw (lookup-put index key key class_id, text_eq_refl key) refl

module _ (T : TextMethods) where
  abbrev pub Has : Map ℕ → ℕ × Text → Type 0
  Has index (class_id, name) = lookup index (class_key T name) ≡ some class_id

  abbrev pub IsOf : Text → ℕ → ℕ × Text → Type 0
  IsOf key i (class_id, name) = (class_key T name ≡ key) × (class_id ≡ i)

  add_classes-keeps :
      (names : List (ℕ × Text)) (index result : Map ℕ) (k : Text) (i : ℕ)
      → add_classes T names index ≡ some result
      → lookup index k ≡ some i
      → lookup result k ≡ some i
  unfolding add_classes
  add_classes-keeps [] index result k i e h = ground arith
  add_classes-keeps ((class_id, name) ∷ names) index result k i e h =
      elim (Bool-cases (other_id (lookup index (class_key T name)) class_id)) [
        | inl other ↦ cc (rw other at e)
        | inr free ↦
            add_classes-keeps names (put index (class_key T name) class_id) result k i
              (rw free at e) (put_same index (class_key T name) k class_id i free h)
      ]

  add_classes-Has :
      (names : List (ℕ × Text)) (index result : Map ℕ)
      → add_classes T names index ≡ some result
      → All (Has result) names
  unfolding add_classes
  add_classes-Has [] index result e = tt
  add_classes-Has ((class_id, name) ∷ names) index result e =
      elim (Bool-cases (other_id (lookup index (class_key T name)) class_id)) [
        | inl other ↦ cc (rw other at e)
        | inr free ↦
            let k : add_classes T names (put index (class_key T name) class_id) ≡ some result =
              rw free at e in
            (
              add_classes-keeps names (put index (class_key T name) class_id) result
                  (class_key T name) class_id k (put_new index (class_key T name) class_id),
              add_classes-Has names (put index (class_key T name) class_id) result k,
            )
      ]

  put_old :
      (index : Map ℕ) (class_id i : ℕ) (name k : Text)
      → lookup (put index (class_key T name) class_id) k ≡ some i
      → (lookup index k ≡ some i) ⊎ IsOf k i (class_id, name)
  put_old index class_id i name k h = elim (Bool-cases (text_eq (class_key T name) k)) [
    | inl same ↦
        let r : some class_id ≡ some i =
          rw (lookup-put index (class_key T name) k class_id, same) at h in
        inr ((text_eq_iff (class_key T name) k).0 same, cc)
    | inr apart ↦ inl (rw (lookup-put index (class_key T name) k class_id, apart) at h)
  ]

  add_classes-known :
      (names : List (ℕ × Text)) (index result : Map ℕ) (k : Text) (i : ℕ)
      → add_classes T names index ≡ some result
      → lookup result k ≡ some i
      → (lookup index k ≡ some i) ⊎ Any (IsOf k i) names
  unfolding add_classes
  add_classes-known [] index result k i e h = inl (ground arith)
  add_classes-known ((class_id, name) ∷ names) index result k i e h =
      elim (Bool-cases (other_id (lookup index (class_key T name)) class_id)) [
        | inl other ↦ cc (rw other at e)
        | inr free ↦
            elim (add_classes-known names (put index (class_key T name) class_id) result k i
              (rw free at e) h) [
                | inl old ↦ elim (put_old index class_id i name k old) [
                  | inl before ↦ inl before
                  | inr here ↦ inr (inl here)
                ]
                | inr later ↦ inr (inr later)
              ]
      ]

  -- The index gives each class its id, and has no key but theirs.
  pub record IsIndexOf (names : List (ℕ × Text)) (index : Map ℕ) : Type 0 where
    pub has : All (Has index) names
    pub only : (k : Text) (i : ℕ) → lookup index k ≡ some i → Any (IsOf k i) names

  none_known : {P : Type 0} (k : Text) (i : ℕ) → (lookup {V = ℕ} [] k ≡ some i) ⊎ P → P
  unfolding lookup
  none_known k i (inl h) = cc
  none_known k i (inr p) = p

  pub build_class_index-IsIndexOf :
      (names : List (ℕ × Text)) (index : Map ℕ)
      → build_class_index T names ≡ some index
      → IsIndexOf names index
  unfolding build_class_index
  build_class_index-IsIndexOf names index e = record {
    has = add_classes-Has names [] index e;
    only = λ k i h. none_known k i (add_classes-known names [] index k i e h);
  }
