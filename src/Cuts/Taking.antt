-- ===== src/Cuts/Taking.antt =====
-- The lists of transitions in participant_4_cut_detection/worker.py: what holds of their elements.
use cv_video_analysis.Cuts.{
  OwnedTransition, same_key, is_gradual, gradual_of, spans_boundary, kept_before, take_spanning,
  add_owned,
}
use cv_video_analysis.Common.{ℕ, ◌≡◌, true, Option, none, some, List, [], ◌∷◌, All, if_elim}
use cv_video_analysis.Domain.Floats.{Floats}

module _ {N : Type 0} (F : Floats N) where
  pub All-add_owned :
      (P : OwnedTransition N → Type 0) (l : List (OwnedTransition N)) (a : OwnedTransition N)
      → All P l
      → P a
      → All P (add_owned F l a)
  unfolding add_owned
  All-add_owned P [] a h pa = (pa, tt)
  All-add_owned P (b ∷ l) a (pb, h) pa =
      if_elim (All P) (same_key b a) _ _
        (λ same. if_elim (All P) (F.lt b.confidence a.confidence) _ _ (λ e. (pa, h)) (λ e. (pb, h)))
        (λ apart. (pb, All-add_owned P l a h pa))

pub All-gradual_of :
    {N : Type 0} (P : OwnedTransition N → Type 0) (l : List (OwnedTransition N))
    → All P l
    → All (λ a. P a × (is_gradual a ≡ true)) (gradual_of l)
unfolding gradual_of
All-gradual_of P [] h = tt
All-gradual_of P (a ∷ l) (pa, h) =
    if_elim (All (λ b. P b × (is_gradual b ≡ true))) (is_gradual a) _ _
      (λ e. ((pa, e), All-gradual_of P l h)) (λ e. All-gradual_of P l h)

-- What is taken out and what is left, if anything is.
abbrev pub Taken :
    {N : Type 0}
    → (OwnedTransition N → Type 0)
    → ℕ
    → Option (OwnedTransition N × List (OwnedTransition N))
    → Type 0
Taken P valid_start none = Unit
Taken P valid_start (some (found, rest)) =
    P found × (spans_boundary valid_start found ≡ true) × All P rest

pub take_spanning-Taken :
    {N : Type 0} (P : OwnedTransition N → Type 0) (valid_start : ℕ) (l : List (OwnedTransition N))
    → All P l
    → Taken P valid_start (take_spanning valid_start l)
unfolding take_spanning
take_spanning-Taken P valid_start [] h = tt
take_spanning-Taken P valid_start (a ∷ l) (pa, h) =
    if_elim (Taken P valid_start) (spans_boundary valid_start a) _ _ (λ e. (pa, e, h))
      (λ e. later (take_spanning valid_start l) (take_spanning-Taken P valid_start l h))
  where
    later :
        (o : Option (OwnedTransition _ × List (OwnedTransition _)))
        → Taken P valid_start o
        → Taken P valid_start (kept_before a o)
    later none t = tt
    later (some (found, rest)) (pf, sp, r) = (pf, sp, (pa, r))
