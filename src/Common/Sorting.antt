-- ===== src/Common/Sorting.antt =====
-- Python's stable `sorted`, by a test that says whether the first may stand before the second.
use mathlib.Core.Bool.{Bool, true, false}
use mathlib.Core.List.{List, [], ◌∷◌}
use cv_video_analysis.Common.Tests.{if◌then◌else◌, if_elim, Bool-cases}
use mathlib.Core.Logic.{inl, inr}
use mathlib.Core.Path.{◌≡◌}
use cv_video_analysis.Common.Lists.{All, All-mono}

module _ {A : Type 0} (before : A → A → Bool) where
  unfoldable pub insert_by : A → List A → List A
  insert_by x [] = x ∷ []
  insert_by x (y ∷ ys) = let rest = insert_by x ys in if before x y then x ∷ y ∷ ys else y ∷ rest

  unfoldable pub sort_by : List A → List A
  unfolding insert_by
  sort_by [] = []
  sort_by (x ∷ xs) = insert_by x (sort_by xs)

  -- Sorting keeps what holds of every element.
  All-insert_by : (P : A → Type 0) (x : A) (ys : List A) → P x → All P ys → All P (insert_by x ys)
  unfolding insert_by
  All-insert_by P x [] px h = (px, tt)
  All-insert_by P x (y ∷ ys) px (py, h) =
      if_elim (All P) (before x y) (x ∷ y ∷ ys) (y ∷ insert_by x ys) (λ e. (px, (py, h)))
        (λ e. (py, All-insert_by P x ys px h))

  pub All-sort_by : (P : A → Type 0) (xs : List A) → All P xs → All P (sort_by xs)
  unfolding sort_by
  All-sort_by P [] h = tt
  All-sort_by P (x ∷ xs) (px, h) = All-insert_by P x (sort_by xs) px (All-sort_by P xs h)

  All-insert_by_rev :
      (P : A → Type 0) (x : A) (ys : List A) → All P (insert_by x ys) → P x × All P ys
  unfolding insert_by
  All-insert_by_rev P x [] h = h
  All-insert_by_rev P x (y ∷ ys) h = elim (Bool-cases (before x y)) [
    | inl first ↦ rw first at h
    | inr later ↦
        let k : All P (y ∷ insert_by x ys) = rw later at h in
        let r = All-insert_by_rev P x ys k.1 in (r.0, (k.0, r.1))
  ]

  pub All-sort_by_rev : (P : A → Type 0) (xs : List A) → All P (sort_by xs) → All P xs
  unfolding sort_by
  All-sort_by_rev P [] h = tt
  All-sort_by_rev P (x ∷ xs) h =
      let r = All-insert_by_rev P x (sort_by xs) h in (r.0, All-sort_by_rev P xs r.1)

  -- Each element may stand before every later one.
  abbrev pub IsSorted : List A → Type 0
  IsSorted [] = Unit
  IsSorted (x ∷ xs) = All (λ y. before x y ≡ true) xs × IsSorted xs

  module _ (total : (a b : A) → before a b ≡ false → before b a ≡ true)
      (before_trans : (a b c : A) → before a b ≡ true → before b c ≡ true → before a c ≡ true) where
    insert_by-IsSorted : (x : A) (ys : List A) → IsSorted ys → IsSorted (insert_by x ys)
    unfolding insert_by
    insert_by-IsSorted x [] h = (tt, tt)
    insert_by-IsSorted x (y ∷ ys) (hy, h) =
        if_elim IsSorted (before x y) (x ∷ y ∷ ys) (y ∷ insert_by x ys)
          (λ e. ((e, All-mono (λ z k. before_trans x y z e k) ys hy), (hy, h)))
          (λ e. (
            All-insert_by (λ z. before y z ≡ true) x ys (total x y e) hy,
            insert_by-IsSorted x ys h,
          ))

    pub sort_by-IsSorted : (xs : List A) → IsSorted (sort_by xs)
    unfolding sort_by
    sort_by-IsSorted [] = tt
    sort_by-IsSorted (x ∷ xs) = insert_by-IsSorted x (sort_by xs) (sort_by-IsSorted xs)
