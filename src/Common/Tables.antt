-- ===== src/Common/Tables.antt =====
-- Dictionaries and sets of texts that can lose an element: Python's `dict.pop` and `set.discard`.
use Prim.Native.Nat.{◌+◌}
use mathlib.Core.Path.{◌≡◌, refl}
use mathlib.Core.Logic.{inl, inr}
use mathlib.Core.Bool.{Bool, false, ◌||◌, ◌&&◌, not}
use mathlib.Core.Option.{Option, none, some}
use mathlib.Core.List.{List, [], ◌∷◌}
use native.Mathlib.Omega.{arith}
use cv_video_analysis.Common.Tests.{Bool-cases, if◌then◌else◌, is_some}
use cv_video_analysis.Common.Lists.{length}
use cv_video_analysis.Common.Texts.{Text, text_eq, text_eq_iff}
use cv_video_analysis.Common.Maps.{Map, put}

module _ {ℓ} {V : Type ℓ} where
  unfoldable pub lookup : Map V → Text → Option V
  lookup [] k = none
  lookup ((j, v) ∷ m) k = if text_eq j k then some v else lookup m k

  -- `pop(key, None)`
  unfoldable pub remove : Map V → Text → Map V
  remove [] k = []
  remove ((j, v) ∷ m) k = let rest = remove m k in if text_eq j k then rest else (j, v) ∷ rest

  -- No key occurs twice.
  abbrev pub IsTable : Map V → Type ℓ
  IsTable [] = Unit
  IsTable ((k, v) ∷ m) = (lookup m k ≡ none) × IsTable m

  pub lookup-put :
      (m : Map V) (k j : Text) (v : V)
      → lookup (put m k v) j ≡ (if text_eq k j then some v else lookup m j)
  unfolding lookup put
  lookup-put [] k j v = refl
  lookup-put ((i, w) ∷ m) k j v =
      ground (arith, text_eq_iff k j, text_eq_iff i k, text_eq_iff i j, lookup-put m k j v)

  pub lookup-remove :
      (m : Map V) (k j : Text) → lookup (remove m k) j ≡ (if text_eq k j then none else lookup m j)
  unfolding lookup remove
  lookup-remove [] k j = ground arith
  lookup-remove ((i, w) ∷ m) k j =
      ground (arith, text_eq_iff k j, text_eq_iff i k, text_eq_iff i j, lookup-remove m k j)

  pub length-put :
      (m : Map V) (k : Text) (v : V)
      → length (put m k v) ≡ length m + (if is_some (lookup m k) then 0 else 1)
  unfolding lookup put
  length-put [] k v = omega arith
  length-put ((i, w) ∷ m) k v = ground (arith, length-put m k v)

  remove_absent : (m : Map V) (k : Text) → lookup m k ≡ none → length (remove m k) ≡ length m
  unfolding lookup remove
  remove_absent [] k e = refl
  remove_absent ((i, w) ∷ m) k e = ground (arith, remove_absent m k)

  pub length-remove :
      (m : Map V) (k : Text)
      → IsTable m
      → length (remove m k) + (if is_some (lookup m k) then 1 else 0) ≡ length m
  unfolding lookup remove
  length-remove [] k d = omega arith
  length-remove ((i, w) ∷ m) k d =
      ground (arith, text_eq_iff i k, length-remove m k d.1, remove_absent m k, d.0)

  pub put-IsTable : (m : Map V) (k : Text) (v : V) → IsTable m → IsTable (put m k v)
  unfolding put lookup
  put-IsTable [] k v d = (refl, tt)
  put-IsTable ((i, w) ∷ m) k v d = elim (Bool-cases (text_eq i k)) [
    | inl same ↦ let e : i ≡ k = (text_eq_iff i k).0 same in rw same (rw e at d.0, d.1)
    | inr apart ↦ rw apart (
      ground (arith, lookup-put m k i v, text_eq_iff i k, text_eq_iff k i, d.0),
      put-IsTable m k v d.1,
    )
  ]

  pub remove-IsTable : (m : Map V) (k : Text) → IsTable m → IsTable (remove m k)
  unfolding remove
  remove-IsTable [] k d = tt
  remove-IsTable ((i, w) ∷ m) k d = elim (Bool-cases (text_eq i k)) [
    | inl same ↦ rw same (remove-IsTable m k d.1)
    | inr apart ↦ rw apart (ground (arith, lookup-remove m k i, d.0), remove-IsTable m k d.1)
  ]

-- A set of texts.
unfoldable pub member : Text → List Text → Bool
member t [] = false
member t (s ∷ l) = text_eq s t || member t l

unfoldable pub discard : Text → List Text → List Text
discard t [] = []
discard t (s ∷ l) = let rest = discard t l in if text_eq s t then rest else s ∷ rest

abbrev pub IsTextSet : List Text → Type 0
IsTextSet [] = Unit
IsTextSet (s ∷ l) = (member s l ≡ false) × IsTextSet l

pub member-discard :
    (t s : Text) (l : List Text) → member s (discard t l) ≡ (not (text_eq t s) && member s l)
unfolding member discard
member-discard t s [] = ground arith
member-discard t s (r ∷ l) =
    ground (arith, text_eq_iff r t, text_eq_iff r s, text_eq_iff t s, member-discard t s l)

discard_absent : (t : Text) (l : List Text) → member t l ≡ false → length (discard t l) ≡ length l
unfolding member discard
discard_absent t [] h = refl
discard_absent t (s ∷ l) h = ground (arith, discard_absent t l)

pub length-discard :
    (t : Text) (l : List Text)
    → IsTextSet l
    → length (discard t l) + (if member t l then 1 else 0) ≡ length l
unfolding member discard
length-discard t [] d = omega arith
length-discard t (s ∷ l) d =
    ground (arith, text_eq_iff s t, length-discard t l d.1, discard_absent t l, d.0)

pub discard-IsTextSet : (t : Text) (l : List Text) → IsTextSet l → IsTextSet (discard t l)
unfolding discard
discard-IsTextSet t [] d = tt
discard-IsTextSet t (s ∷ l) d = elim (Bool-cases (text_eq s t)) [
  | inl same ↦ rw same (discard-IsTextSet t l d.1)
  | inr apart ↦ rw apart (ground (arith, member-discard t s l, d.0), discard-IsTextSet t l d.1)
]

pub discard_missing : (t : Text) (l : List Text) → member t l ≡ false → discard t l ≡ l
unfolding member discard
discard_missing t [] h = refl
discard_missing t (s ∷ l) h = ground (arith, discard_missing t l)
