-- ===== src/Tracker/Fusion/Suppression.antt =====
-- What `_fuse_detections` of participant_3_tracking/yolo_world_tracker.py keeps.
use cv_video_analysis.Common.{
  ◌≡◌, refl, true, false, List, [], ◌∷◌, ◌++◌, All, All-append, All-mono, Any, Any-append, Any-last,
  ◌⊎◌, inl, inr, if_elim, Bool-cases, arith, occurs_self,
}
use cv_video_analysis.Common.Sorting.{
  sort_by, All-sort_by, All-sort_by_rev, IsSorted, sort_by-IsSorted,
}
use cv_video_analysis.Domain.Floats.{Floats}
use cv_video_analysis.Tracker.{DetectedBox}
use cv_video_analysis.Tracker.Fusion.{overlaps, any_overlaps, keep, at_least, fuse_detections}

module _ {N : Type 0} (F : Floats N) (sub : N → N → N) (iou_threshold : N) where
  abbrev IsOverlap : DetectedBox N → DetectedBox N → Type 0
  IsOverlap kept candidate = overlaps F sub iou_threshold kept candidate ≡ true

  -- No detection overlaps a later one.
  abbrev pub Apart : List (DetectedBox N) → Type 0
  Apart [] = Unit
  Apart (x ∷ xs) = All (λ y. overlaps F sub iou_threshold x y ≡ false) xs × Apart xs

  abbrev Precedes : DetectedBox N → DetectedBox N → Type 0
  Precedes a b = at_least F sub iou_threshold a b ≡ true

  -- A detection is kept, or one that overlaps it and is no less confident is.
  abbrev pub IsCovered : List (DetectedBox N) → DetectedBox N → Type 0
  IsCovered kept d =
      Any
        (λ k.
          (k ≡ d)
          ⊎ ((overlaps F sub iou_threshold k d ≡ true) × (F.lt k.confidence d.confidence ≡ false)))
        kept

  Apart-snoc :
      (kept : List (DetectedBox N)) (c : DetectedBox N)
      → Apart kept
      → any_overlaps F sub iou_threshold kept c ≡ false
      → Apart (kept ++ c ∷ [])
  unfolding any_overlaps
  Apart-snoc [] c h e = (tt, tt)
  Apart-snoc (k ∷ kept) c (hk, h) e =
      (All-append _ kept (c ∷ []) hk (ground arith, tt), Apart-snoc kept c h (ground arith))

  keep-Apart :
      (kept candidates : List (DetectedBox N))
      → Apart kept
      → Apart (keep F sub iou_threshold kept candidates)
  unfolding keep
  keep-Apart kept [] h = h
  keep-Apart kept (c ∷ cs) h = elim (Bool-cases (any_overlaps F sub iou_threshold kept c)) [
    | inl e ↦ rw e (keep-Apart kept cs h)
    | inr e ↦ rw e (keep-Apart (kept ++ c ∷ []) cs (Apart-snoc kept c h e))
  ]

  keep-All :
      (P : DetectedBox N → Type 0) (kept candidates : List (DetectedBox N))
      → All P kept
      → All P candidates
      → All P (keep F sub iou_threshold kept candidates)
  unfolding keep
  keep-All P kept [] h hs = h
  keep-All P kept (c ∷ cs) h (hc, hs) =
      elim (Bool-cases (any_overlaps F sub iou_threshold kept c)) [
        | inl e ↦ rw e (keep-All P kept cs h hs)
        | inr e ↦ rw e (keep-All P (kept ++ c ∷ []) cs (All-append P kept (c ∷ []) h (hc, tt)) hs)
      ]

  keep-Any :
      (P : DetectedBox N → Type 0) (kept candidates : List (DetectedBox N))
      → Any P kept
      → Any P (keep F sub iou_threshold kept candidates)
  unfolding keep
  keep-Any P kept [] h = h
  keep-Any P kept (c ∷ cs) h = elim (Bool-cases (any_overlaps F sub iou_threshold kept c)) [
    | inl e ↦ rw e (keep-Any P kept cs h)
    | inr e ↦ rw e (keep-Any P (kept ++ c ∷ []) cs (Any-append P kept (c ∷ []) h))
  ]

  any_overlaps-IsCovered :
      (kept : List (DetectedBox N)) (c : DetectedBox N)
      → any_overlaps F sub iou_threshold kept c ≡ true
      → All (λ k. Precedes k c) kept
      → IsCovered kept c
  unfolding any_overlaps
  any_overlaps-IsCovered [] c e h = cc
  any_overlaps-IsCovered (k ∷ kept) c e (hk, h) =
      elim (Bool-cases (overlaps F sub iou_threshold k c)) [
        | inl o ↦ inl (inr (o, ground arith))
        | inr o ↦ inr (any_overlaps-IsCovered kept c (ground arith) h)
      ]

  keep-IsCovered :
      (kept candidates : List (DetectedBox N))
      → IsSorted (at_least F sub iou_threshold) candidates
      → All (λ k. All (λ d. Precedes k d) candidates) kept
      → All (λ d. IsCovered (keep F sub iou_threshold kept candidates) d) candidates
  unfolding keep
  keep-IsCovered kept [] s h = tt
  keep-IsCovered kept (c ∷ cs) (sc, s) h =
      if_elim (λ next. All (λ d. IsCovered (keep F sub iou_threshold next cs) d) (c ∷ cs))
        (any_overlaps F sub iou_threshold kept c) kept (kept ++ c ∷ [])
        (λ e. (
          keep-Any _ kept cs (any_overlaps-IsCovered kept c e (All-mono (λ k hk. hk.0) kept h)),
          keep-IsCovered kept cs s (All-mono (λ k hk. hk.1) kept h),
        ))
        (λ e. (
          keep-Any _ (kept ++ c ∷ []) cs (Any-last _ kept c (inl refl)),
          keep-IsCovered (kept ++ c ∷ []) cs s
              (All-append _ kept (c ∷ []) (All-mono (λ k hk. hk.1) kept h) (sc, tt)),
        ))

  Precedes-total : (a b : DetectedBox N) → at_least F sub iou_threshold a b ≡ false → Precedes b a
  Precedes-total a b h = ground (arith, F.lt_asymm a.confidence b.confidence)

  Precedes-trans : (a b c : DetectedBox N) → Precedes a b → Precedes b c → Precedes a c
  Precedes-trans a b c h k = ground (arith, F.le_trans c.confidence b.confidence a.confidence)

  pub record IsFusion (detections kept : List (DetectedBox N)) : Type 0 where
    pub known : All (λ k. Any (λ d. k ≡ d) detections) kept
    pub apart : Apart kept
    pub covered : All (λ d. IsCovered kept d) detections

  -- The fusion keeps detections that it was given, none of which overlaps a later one of its class
  -- by the threshold, and each detection is kept or overlaps a kept one of its class that is no
  -- less confident.
  pub fuse_detections-IsFusion :
      (detections : List (DetectedBox N))
      → IsFusion detections (fuse_detections F sub iou_threshold detections)
  unfolding fuse_detections
  fuse_detections-IsFusion detections =
      let before = at_least F sub iou_threshold in
      let sorted = sort_by before detections in
      record {
        known = keep-All _ [] sorted tt (All-sort_by before _ detections (occurs_self detections));
        apart = keep-Apart [] sorted tt;
        covered = All-sort_by_rev before _ detections (
            keep-IsCovered [] sorted
              (sort_by-IsSorted before Precedes-total Precedes-trans detections) tt);
      }
