-- ===== src/Common/Lists.antt =====
-- Lists measured by native numbers, under the library's names.
use Prim.Native.Nat.{ℕ, zero, suc, ◌+◌}
use mathlib.Core.Path.{◌≡◌, refl, ap}
use mathlib.Core.List.{map, List, [], ◌∷◌, ◌++◌}
use mathlib.Core.Logic.{◌⊎◌, inl, inr}
use mathlib.Core.Option.{Option, none, some}
use native.Mathlib.Omega.{arith}

module _ {ℓ} {A : Type ℓ} where
  abbrev pub length : List A → ℕ
  length [] = 0
  length (x ∷ xs) = suc (length xs)

  abbrev pub get_elem? : List A → ℕ → Option A
  get_elem? [] i = none
  get_elem? (x ∷ xs) zero = some x
  get_elem? (x ∷ xs) (suc i) = get_elem? xs i

  abbrev pub drop : ℕ → List A → List A
  drop zero xs = xs
  drop (suc n) [] = []
  drop (suc n) (x ∷ xs) = drop n xs

  abbrev pub take : ℕ → List A → List A
  take zero xs = []
  take (suc n) [] = []
  take (suc n) (x ∷ xs) = x ∷ take n xs

  pub length-append : (xs ys : List A) → length (xs ++ ys) ≡ length xs + length ys
  length-append [] ys = omega arith
  length-append (x ∷ xs) ys = omega (arith, length-append xs ys)

  pub drop-length-append : (xs ys : List A) → drop (length xs) (xs ++ ys) ≡ ys
  drop-length-append [] ys = refl
  drop-length-append (x ∷ xs) ys = drop-length-append xs ys

-- `range(start, start + n)`
abbrev pub range_from : ℕ → ℕ → List ℕ
range_from start zero = []
range_from start (suc n) = start ∷ range_from (suc start) n

module _ {ℓ κ} {A : Type ℓ} (P : A → Type κ) where
  abbrev pub All : List A → Type κ
  All [] = Unit
  All (x ∷ xs) = P x × All xs

  pub All-append : (xs ys : List A) → All xs → All ys → All (xs ++ ys)
  All-append [] ys hx hy = hy
  All-append (x ∷ xs) ys (px, hx) hy = (px, All-append xs ys hx hy)

pub length-map {ℓ κ} :
    {A : Type ℓ} {B : Type κ} (f : A → B) (xs : List A) → length (map f xs) ≡ length xs
length-map f [] = refl
length-map f (x ∷ xs) = ap suc (length-map f xs)

pub All-mono :
    {A : Type 0} {P Q : A → Type 0} (f : (a : A) → P a → Q a) (xs : List A) → All P xs → All Q xs
All-mono f [] h = tt
All-mono f (x ∷ xs) (px, h) = (f x px, All-mono f xs h)

-- Some element of the list has the property.
abbrev pub Any : {A : Type 0} → (A → Type 0) → List A → Type 0
Any P [] = ⊥
Any P (x ∷ xs) = P x ⊎ Any P xs

-- Each element of a list is one of them.
pub occurs_self : {A : Type 0} (xs : List A) → All (λ x. Any (λ y. x ≡ y) xs) xs
occurs_self [] = tt
occurs_self (x ∷ xs) = (inl refl, All-mono (λ y h. inr h) xs (occurs_self xs))

module _ {A : Type 0} (P : A → Type 0) where
  pub Any-append : (xs ys : List A) → Any P xs → Any P (xs ++ ys)
  Any-append [] ys h = elim h [ ]
  Any-append (x ∷ xs) ys (inl h) = inl h
  Any-append (x ∷ xs) ys (inr h) = inr (Any-append xs ys h)

  pub Any-last : (xs : List A) (x : A) → P x → Any P (xs ++ x ∷ [])
  Any-last [] x h = inl h
  Any-last (y ∷ xs) x h = inr (Any-last xs x h)

  Any-same : (x : A) (ys : List A) → P x → Any (λ y. x ≡ y) ys → Any P ys
  Any-same x [] px h = elim h [ ]
  Any-same x (y ∷ ys) px (inl e) = inl (rw e at px)
  Any-same x (y ∷ ys) px (inr h) = inr (Any-same x ys px h)

  -- If each element of a list is in another, what some element of it has, some element of the other has.
  pub Any-within : (xs ys : List A) → All (λ x. Any (λ y. x ≡ y) ys) xs → Any P xs → Any P ys
  Any-within [] ys known h = elim h [ ]
  Any-within (x ∷ xs) ys (k, known) (inl px) = Any-same x ys px k
  Any-within (x ∷ xs) ys (k, known) (inr h) = Any-within xs ys known h
