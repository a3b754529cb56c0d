-- ===== src/Common/Indices.antt =====
-- Lists of distinct indices: membership as a test, and the pigeonhole argument.
use cv_video_analysis.Common.{==_iff, true}
use native.Mathlib.Decide.{ℕ_discrete}
use cv_video_analysis.Common.Tests.{◌==◌, if◌then◌else◌, Bool-cases}
use cv_video_analysis.Common.Lists.{length, All, length-append}
use Prim.Native.Nat.{ℕ, zero, suc, ◌+◌, ◌≤◌, ◌<◌}
use mathlib.Core.Path.{◌≡◌, refl}
use mathlib.Core.Logic.{◌≢◌, inl, inr}
use mathlib.Core.Bool.{Bool, false, ◌||◌}
use mathlib.Core.List.{List, [], ◌∷◌, ◌++◌}
use native.Mathlib.Omega.{arith}

unfoldable pub mem : ℕ → List ℕ → Bool
mem i [] = false
mem i (j ∷ l) = (j == i) || mem i l

abbrev pub IsDistinct : List ℕ → Type 0
IsDistinct [] = Unit
IsDistinct (i ∷ l) = (mem i l ≡ false) × IsDistinct l

pub mem-append : (i : ℕ) (l m : List ℕ) → mem i (l ++ m) ≡ (mem i l || mem i m)
unfolding mem
mem-append i [] m = refl
mem-append i (j ∷ l) m = ground (arith, mem-append i l m)

pub IsDistinct-snoc :
    (l : List ℕ) (i : ℕ) → IsDistinct l → mem i l ≡ false → IsDistinct (l ++ i ∷ [])
unfolding mem
IsDistinct-snoc [] i d h = (refl, tt)
IsDistinct-snoc (j ∷ l) i d h =
    (ground (arith, mem-append j l (i ∷ [])), IsDistinct-snoc l i d.1 (ground arith))

remove : ℕ → List ℕ → List ℕ
remove k [] = []
remove k (j ∷ l) = let rest = remove k l in if j == k then rest else j ∷ rest

mem-remove : (i k : ℕ) (l : List ℕ) → mem i l ≡ false → mem i (remove k l) ≡ false
unfolding mem remove
mem-remove i k [] h = refl
mem-remove i k (j ∷ l) h = ground (arith, mem-remove i k l)

remove_absent : (k : ℕ) (l : List ℕ) → mem k l ≡ false → length (remove k l) ≡ length l
unfolding mem remove
remove_absent k [] h = refl
remove_absent k (j ∷ l) h = ground (arith, remove_absent k l)

length-remove : (k : ℕ) (l : List ℕ) → IsDistinct l → length l ≤ length (remove k l) + 1
unfolding remove
length-remove k [] d = omega arith
length-remove k (j ∷ l) d = ground (arith, length-remove k l, remove_absent k l)

IsDistinct-remove : (k : ℕ) (l : List ℕ) → IsDistinct l → IsDistinct (remove k l)
unfolding remove
IsDistinct-remove k [] d = tt
IsDistinct-remove k (j ∷ l) d = elim (Bool-cases (j == k)) [
  | inl e ↦ rw e (IsDistinct-remove k l d.1)
  | inr e ↦ rw e (mem-remove j k l d.0, IsDistinct-remove k l d.1)
]

remove-below : (n : ℕ) (l : List ℕ) → All (λ i. i < suc n) l → All (λ i. i < n) (remove n l)
unfolding remove
remove-below n [] h = tt
remove-below n (j ∷ l) h = elim (Bool-cases (j == n)) [
  | inl e ↦ rw e (remove-below n l h.1)
  | inr e ↦ rw e (
    (let apart : j ≢ n = ground arith in let low : j < suc n = h.0 in omega arith),
    remove-below n l h.1,
  )
]

below_absent : (n : ℕ) (l : List ℕ) → All (λ i. i < suc n) l → mem n l ≡ false → All (λ i. i < n) l
unfolding mem
below_absent n [] h m = tt
below_absent n (j ∷ l) h m = (
  (let apart : j ≢ n = ground arith in let low : j < suc n = h.0 in omega arith),
  below_absent n l h.1 (ground arith),
)

pub length-le_below : (n : ℕ) (l : List ℕ) → IsDistinct l → All (λ i. i < n) l → length l ≤ n
length-le_below zero [] d h = omega arith
length-le_below zero (j ∷ l) d h = absurd (let low : j < 0 = h.0 in omega arith)
length-le_below (suc n) l d h = omega (
  arith,
  length-remove n l d,
  length-le_below n (remove n l) (IsDistinct-remove n l d) (remove-below n l h),
)

-- Distinct indices below `n` that miss one are fewer than `n`.
pub length-lt_missing :
    (n : ℕ) (l : List ℕ) (i : ℕ)
    → IsDistinct l
    → All (λ j. j < n) l
    → i < n
    → mem i l ≡ false
    → length l < n
length-lt_missing zero l i d h lt m = absurd (omega arith)
length-lt_missing (suc n) l i d h lt m = elim (ℕ_discrete i n) [
  | yes e ↦ omega (arith, length-le_below n l d (below_absent n l h (rw e at m)))
  | no e ↦ omega (
    arith,
    length-remove n l d,
    length-lt_missing n (remove n l) i (IsDistinct-remove n l d) (remove-below n l h) (omega arith)
        (mem-remove i n l m),
  )
]

-- `i` is added unless it is there.
abbrev pub add : ℕ → List ℕ → List ℕ
add i l = if mem i l then l else l ++ i ∷ []

mem_found : (i j : ℕ) (l : List ℕ) → mem i l ≡ true → mem j l ≡ ((i == j) || mem j l)
mem_found i j l old = elim (Bool-cases (i == j)) [
  | inl same ↦ let e : i ≡ j = (==_iff i j).0 same in rw same (rw (← e) old)
  | inr apart ↦ rw apart
]

pub mem-add : (i j : ℕ) (l : List ℕ) → mem j (add i l) ≡ ((i == j) || mem j l)
mem-add i j l = elim (Bool-cases (mem i l)) [
  | inl old ↦ rw old (mem_found i j l old)
  | inr new ↦ rw (new, mem-append) (unfold mem in ground arith)
]

pub length-add : (i : ℕ) (l : List ℕ) → length (add i l) ≡ length l + (if mem i l then 0 else 1)
length-add i l = elim (Bool-cases (mem i l)) [
  | inl old ↦ rw old (omega arith)
  | inr new ↦ rw new (omega (arith, length-append l (i ∷ [])))
]

pub IsDistinct-add : (i : ℕ) (l : List ℕ) → IsDistinct l → IsDistinct (add i l)
IsDistinct-add i l d = elim (Bool-cases (mem i l)) [
  | inl old ↦ rw old d
  | inr new ↦ rw new (IsDistinct-snoc l i d new)
]
