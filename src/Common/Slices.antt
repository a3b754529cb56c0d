-- ===== src/Common/Slices.antt =====
-- Parts of a list by their positions.
use Prim.Native.Nat.{ℕ, zero, suc, ◌+◌, ◌-◌, ◌≤◌, min}
use mathlib.Core.Path.{◌≡◌, refl, ap, sym, ◌∙◌}
use mathlib.Core.List.{List, [], ◌∷◌, ◌++◌}
use native.Mathlib.Omega.{arith}
use cv_video_analysis.Common.Lists.{length, take, drop}

module _ {ℓ} {A : Type ℓ} where
  pub length-take : (n : ℕ) (xs : List A) → length (take n xs) ≡ min n (length xs)
  length-take zero xs = omega arith
  length-take (suc n) [] = omega arith
  length-take (suc n) (x ∷ xs) = omega (arith, length-take n xs)

  pub length-drop : (n : ℕ) (xs : List A) → length (drop n xs) ≡ length xs - n
  length-drop zero xs = omega arith
  length-drop (suc n) [] = omega arith
  length-drop (suc n) (x ∷ xs) = omega (arith, length-drop n xs)

  drop_nil : (n : ℕ) → ◌≡◌ {A = List A} (drop n []) []
  drop_nil zero = refl
  drop_nil (suc n) = refl

  take_nil : (n : ℕ) → ◌≡◌ {A = List A} (take n []) []
  take_nil zero = refl
  take_nil (suc n) = refl

  pub drop-drop : (m n : ℕ) (xs : List A) → drop m (drop n xs) ≡ drop (n + m) xs
  drop-drop m zero xs = ap (λ k. drop k xs) (let e : m ≡ 0 + m = omega arith in e)
  drop-drop m (suc n) [] = drop_nil m ∙ sym (drop_nil (suc n + m))
  drop-drop m (suc n) (x ∷ xs) =
      drop-drop m n xs
      ∙ ap (λ k. drop k (x ∷ xs)) (let e : suc (n + m) ≡ suc n + m = omega arith in e)

  pub take_append_take : (m n : ℕ) (xs : List A) → take m xs ++ take n (drop m xs) ≡ take (m + n) xs
  take_append_take zero n xs = ap (λ k. take k xs) (let e : n ≡ 0 + n = omega arith in e)
  take_append_take (suc m) n [] = take_nil n ∙ sym (take_nil (suc m + n))
  take_append_take (suc m) n (x ∷ xs) =
      ap (λ l. x ∷ l) (take_append_take m n xs)
      ∙ ap (λ k. take k (x ∷ xs)) (let e : suc (m + n) ≡ suc m + n = omega arith in e)

  pub drop-take : (m n : ℕ) (xs : List A) → drop m (take (m + n) xs) ≡ take n (drop m xs)
  drop-take zero n xs = ap (λ k. take k xs) (let e : 0 + n ≡ n = omega arith in e)
  drop-take (suc m) n [] = rw take_nil (sym (take_nil n))
  drop-take (suc m) n (x ∷ xs) =
      let e : suc m + n ≡ suc (m + n) = omega arith in
      ap (λ k. drop (suc m) (take k (x ∷ xs))) e ∙ drop-take m n xs

  pub take_all : (n : ℕ) (xs : List A) → length xs ≤ n → take n xs ≡ xs
  take_all zero [] h = refl
  take_all zero (x ∷ xs) h = absurd (omega arith)
  take_all (suc n) [] h = refl
  take_all (suc n) (x ∷ xs) h = ap (λ l. x ∷ l) (take_all n xs (omega arith))

  -- The elements from `s` on, below `e`.
  abbrev pub slice : ℕ → ℕ → List A → List A
  slice s e xs = take (e - s) (drop s xs)

  pub length-slice : (s e : ℕ) (xs : List A) → e ≤ length xs → length (slice s e xs) ≡ e - s
  length-slice s e xs h = omega (arith, length-take (e - s) (drop s xs), length-drop s xs)

  pub slice_append :
      (a b c : ℕ) (xs : List A) → a ≤ b → b ≤ c → slice a b xs ++ slice b c xs ≡ slice a c xs
  slice_append a b c xs h k =
      let there : drop b xs ≡ drop (b - a) (drop a xs) =
        rw drop-drop (ap (λ n. drop n xs) (omega arith)) in
      let sum : (b - a) + (c - b) ≡ c - a = omega arith in rw (there, take_append_take, sum) refl

  pub drop-slice :
      (a b c : ℕ) (xs : List A) → a ≤ b → b ≤ c → drop (b - a) (slice a c xs) ≡ slice b c xs
  drop-slice a b c xs h k =
      let sum : c - a ≡ (b - a) + (c - b) = omega arith in
      let there : a + (b - a) ≡ b = omega arith in rw (sum, drop-take, drop-drop, there) refl

  pub drop_all : (n : ℕ) (xs : List A) → length xs ≤ n → ◌≡◌ {A = List A} (drop n xs) []
  drop_all zero [] h = refl
  drop_all zero (x ∷ xs) h = absurd (omega arith)
  drop_all (suc n) [] h = refl
  drop_all (suc n) (x ∷ xs) h = drop_all n xs (omega arith)

  take_append_drop : (n : ℕ) (xs : List A) → take n xs ++ drop n xs ≡ xs
  take_append_drop zero xs = refl
  take_append_drop (suc n) [] = refl
  take_append_drop (suc n) (x ∷ xs) = ap (λ l. x ∷ l) (take_append_drop n xs)

  pub slice_append_drop : (a b : ℕ) (xs : List A) → a ≤ b → slice a b xs ++ drop b xs ≡ drop a xs
  slice_append_drop a b xs h =
      let there : a + (b - a) ≡ b = omega arith in
      let rest : drop b xs ≡ drop (b - a) (drop a xs) = rw (drop-drop, there) refl in
      rw rest (take_append_drop (b - a) (drop a xs))
