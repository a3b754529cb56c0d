-- ===== src/Common/Maps.antt =====
-- A map from texts, as Redis keeps its keys: an association list without repeated writes.
use mathlib.Core.Path.{◌≡◌, refl}
use mathlib.Core.Path.{ap}
use mathlib.Core.Logic.{inl, inr}
use mathlib.Core.List.{List, [], ◌∷◌}
use native.Mathlib.Omega.{arith}
use cv_video_analysis.Common.Tests.{Bool-cases, if◌then◌else◌}
use cv_video_analysis.Common.Texts.{text_eq_refl, Text, text_eq, text_eq_iff}

abbrev pub Map {ℓ} : Type ℓ → Type ℓ
Map V = List (Text × V)

module _ {ℓ} {V : Type ℓ} where
  -- The value at a key; `d` is what Redis answers where the key is absent.
  unfoldable pub get_or : Map V → Text → V → V
  get_or [] k d = d
  get_or ((j, v) ∷ m) k d = if text_eq j k then v else get_or m k d

  unfoldable pub put : Map V → Text → V → Map V
  put [] k v = (k, v) ∷ []
  put ((j, w) ∷ m) k v = if text_eq j k then (k, v) ∷ m else (j, w) ∷ put m k v

  pub get_or-put :
      (m : Map V) (k j : Text) (v d : V)
      → get_or (put m k v) j d ≡ (if text_eq k j then v else get_or m j d)
  unfolding get_or put
  get_or-put [] k j v d = refl
  get_or-put ((i, w) ∷ m) k j v d =
      ground (arith, text_eq_iff k j, text_eq_iff i k, text_eq_iff i j, get_or-put m k j v d)

  -- Writing back what was read changes no answer.
  pub get_or-put_same :
      (m : Map V) (k j : Text) (d : V) → get_or (put m k (get_or m k d)) j d ≡ get_or m j d
  get_or-put_same m k j d = elim (Bool-cases (text_eq k j)) [
    | inl same ↦ rw (get_or-put, same) (ap (λ t. get_or m t d) ((text_eq_iff k j).0 same))
    | inr apart ↦ rw (get_or-put, apart)
  ]

  pub get_or-put_self : (m : Map V) (k : Text) (v d : V) → get_or (put m k v) k d ≡ v
  get_or-put_self m k v d = rw (get_or-put, text_eq_refl)
