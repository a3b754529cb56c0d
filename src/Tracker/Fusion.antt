-- ===== src/Tracker/Fusion.antt =====
-- `_iou` and `_fuse_detections` of participant_3_tracking/yolo_world_tracker.py: of two detections of one
-- class that overlap, the less confident one is left out. The result is what numpy then rounds to
-- single precision.
pub mod Suppression
use cv_video_analysis.Common.{
  Bool, not, ◌&&◌, ◌||◌, false, List, [], ◌∷◌, ◌++◌, if◌then◌else◌, ◌==◌,
}
use cv_video_analysis.Common.Sorting.{sort_by}
use cv_video_analysis.Domain.Floats.{Floats, float_min, float_max}
use cv_video_analysis.Tracker.{DetectedBox}

module _ {N : Type 0} (F : Floats N) (sub : N → N → N) where
  unfoldable pub area : DetectedBox N → N
  unfolding float_max
  area b =
      F.mul (float_max F (F.of_nat 0) (sub b.x2 b.x1)) (float_max F (F.of_nat 0) (sub b.y2 b.y1))

  unfoldable pub intersection : DetectedBox N → DetectedBox N → N
  unfolding float_max float_min
  intersection b o =
      let x1 = float_max F b.x1 o.x1 in
      let y1 = float_max F b.y1 o.y1 in
      let x2 = float_min F b.x2 o.x2 in
      let y2 = float_min F b.y2 o.y2 in
      F.mul (float_max F (F.of_nat 0) (sub x2 x1)) (float_max F (F.of_nat 0) (sub y2 y1))

  unfoldable pub iou : DetectedBox N → DetectedBox N → N
  unfolding area intersection
  iou b o =
      let shared = intersection b o in
      let union = sub (F.add (area b) (area o)) shared in
      if not (F.lt (F.of_nat 0) shared)
      then F.of_nat 0
      else if F.lt (F.of_nat 0) union
      then F.div shared union
      else F.of_nat 0

  module _ (iou_threshold : N) where
    unfoldable pub overlaps : DetectedBox N → DetectedBox N → Bool
    unfolding iou
    overlaps existing candidate =
        (existing.class_id == candidate.class_id)
        && not (F.lt (iou existing candidate) iou_threshold)

    unfoldable pub any_overlaps : List (DetectedBox N) → DetectedBox N → Bool
    unfolding overlaps
    any_overlaps [] candidate = false
    any_overlaps (existing ∷ kept) candidate =
        overlaps existing candidate || any_overlaps kept candidate

    unfoldable pub keep : List (DetectedBox N) → List (DetectedBox N) → List (DetectedBox N)
    unfolding any_overlaps
    keep kept [] = kept
    keep kept (candidate ∷ candidates) =
        keep (if any_overlaps kept candidate then kept else kept ++ candidate ∷ []) candidates

    -- `sorted` with `reverse` leaves equals in their order.
    abbrev pub at_least : DetectedBox N → DetectedBox N → Bool
    at_least a b = not (F.lt a.confidence b.confidence)

    unfoldable pub fuse_detections : List (DetectedBox N) → List (DetectedBox N)
    unfolding keep sort_by
    fuse_detections detections = keep [] (sort_by at_least detections)
