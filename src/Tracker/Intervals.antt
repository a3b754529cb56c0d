-- ===== src/Tracker/Intervals.antt =====
-- `_detect_frame`, `process_interval` and `process_job` of
-- participant_3_tracking/yolo_world_tracker.py. A run that raises keeps what it has changed of the
-- tracker. The frames of a job are a tensor; `is_rgb` says whether its shape is [T, H, W, 3]. The
-- context of a job starts at or before its valid range, as its schema requires.
pub mod Keeps
pub mod Frames
pub mod Tracks
pub mod Order
use cv_video_analysis.Common.{
  ℕ, ◌+◌, ◌-◌, Bool, true, false, not, ◌&&◌, ◌||◌, Option, none, some, List, [], ◌∷◌, ◌++◌,
  if◌then◌else◌, ltb, leb, ◌==◌, length, take, drop, or_else,
}
use cv_video_analysis.Common.Texts.{Text, text_eq}
use cv_video_analysis.Common.Maps.{Map}
use cv_video_analysis.Common.Sorting.{sort_by}
use cv_video_analysis.Domain.Floats.{Floats, float_min, float_max}
use cv_video_analysis.Results.{SceneInterval, Transition}
use cv_video_analysis.Coordinator.{TrackingJobMessage}
use cv_video_analysis.Tracker.{
  DetectedBox, TrackedRow, short_row, tracked, TrackedObject, TrackerError, not_rgb, short_result,
  wrong_frame_count, out_of_order, scene_outside, TrackerState, Vision,
}
use cv_video_analysis.Tracker.Classes.{TextMethods, extract_detections, name_of}
use cv_video_analysis.Tracker.Fusion.{fuse_detections}
use cv_video_analysis.Tracker.Ids.{map_track_id, reset_for_scene}

pub data Outcome (A : Type 0) : Type 0 where
  returned : A → Outcome A
  raised : TrackerError → Outcome A

abbrev pub and_then : {A B S : Type 0} → Outcome A × S → (A → S → Outcome B × S) → Outcome B × S
and_then (returned a, s) f = f a s
and_then (raised e, s) f = (raised e, s)

pub record TrackerSettings (N : Type 0) : Type 0 where
  pub confidence : N
  pub ensemble_iou_threshold : N
  pub output_names : List (ℕ × Text)
  pub ensemble_model_names : List (ℕ × Text)
  pub class_id_by_key : Map ℕ

pub record Tensor (Frame : Type 0) : Type 0 where
  pub frames : List Frame
  pub is_rgb : Bool

module _ {N Frame B : Type 0} (F : Floats N) (sub : N → N → N) (T : TextMethods)
    (V : Vision N Frame B) (c : TrackerSettings N) where
  unfoldable pub detect_frame : Frame → List (DetectedBox N)
  unfolding extract_detections fuse_detections
  detect_frame frame = fuse_detections F sub c.ensemble_iou_threshold (
      extract_detections T c.class_id_by_key (V.primary frame) c.output_names
      ++ extract_detections T c.class_id_by_key (V.ensemble frame) c.ensemble_model_names)

  module _ (scene_id : Text) (frame : Frame) (index : ℕ) where
    abbrev pub track_of : DetectedBox N → Text → N → N → N → N → ℕ → TrackedObject N
    track_of box name x1 y1 width height track_id = record {
      frame = index;
      scene_id = scene_id;
      track_id = track_id;
      class_name = name;
      confidence = float_min F (F.of_nat 1) (float_max F (F.of_nat 0) box.confidence);
      bbox = record { x = x1; y = y1; width = width; height = height };
    }

    abbrev pub numbered :
        (ℕ → TrackedObject N)
        → ℕ × TrackerState B
        → Outcome (List (TrackedObject N)) × TrackerState B
    numbered track (track_id, s) = (returned (track track_id ∷ []), s)

    -- From the clipping of the corners on.
    unfoldable pub clip_row :
        DetectedBox N
        → ℕ
        → Text
        → TrackerState B
        → Outcome (List (TrackedObject N)) × TrackerState B
    unfolding float_min float_max map_track_id
    clip_row box raw name s =
        let frame_width = F.of_nat (V.frame_width frame) in
        let frame_height = F.of_nat (V.frame_height frame) in
        let x1 = float_min F (float_max F box.x1 (F.of_nat 0)) frame_width in
        let y1 = float_min F (float_max F box.y1 (F.of_nat 0)) frame_height in
        let x2 = float_min F (float_max F box.x2 x1) frame_width in
        let y2 = float_min F (float_max F box.y2 y1) frame_height in
        let width = sub x2 x1 in
        let height = sub y2 y1 in
        if not (F.lt (F.of_nat 0) width) || not (F.lt (F.of_nat 0) height)
        then (returned [], s)
        else numbered (track_of box name x1 y1 width height) (map_track_id raw s)

    unfoldable pub named_row :
        DetectedBox N
        → ℕ
        → Option Text
        → TrackerState B
        → Outcome (List (TrackedObject N)) × TrackerState B
    unfolding clip_row
    named_row box raw none s = (returned [], s)
    named_row box raw (some name) s = clip_row box raw name s

    unfoldable pub process_row :
        TrackedRow N → TrackerState B → Outcome (List (TrackedObject N)) × TrackerState B
    unfolding named_row name_of
    process_row short_row s = (raised short_result, s)
    process_row (tracked box raw) s =
        if F.lt box.confidence c.confidence
        then (returned [], s)
        else named_row box raw (name_of T c.output_names box.class_id) s

    unfoldable pub process_rows :
        List (TrackedRow N) → TrackerState B → Outcome (List (TrackedObject N)) × TrackerState B
    unfolding process_row
    process_rows [] s = (returned [], s)
    process_rows (row ∷ rows) s =
        and_then (process_row row s) λ track s'.
          and_then (process_rows rows s') λ tracks s''. (returned (track ++ tracks), s'')

    unfoldable pub process_update :
        List (TrackedRow N) × B → TrackerState B → Outcome (List (TrackedObject N)) × TrackerState B
    unfolding process_rows
    process_update (rows, b) s = process_rows rows (record s { byte_tracker = b })

    unfoldable pub process_frame :
        TrackerState B → Outcome (List (TrackedObject N)) × TrackerState B
    unfolding process_update detect_frame
    process_frame s = process_update (V.update s.byte_tracker (detect_frame frame) frame) s

  unfoldable pub process_frames :
      Text → ℕ → List Frame → TrackerState B → Outcome (List (TrackedObject N)) × TrackerState B
  unfolding process_frame
  process_frames scene_id index [] s = (returned [], s)
  process_frames scene_id index (frame ∷ frames) s =
      and_then (process_frame scene_id frame index s) λ first s'.
        and_then (process_frames scene_id (index + 1) frames s')
          λ rest s''. (returned (first ++ rest), s'')

  abbrev pub is_scene : Option Text → Text → Bool
  is_scene none scene_id = false
  is_scene (some active) scene_id = text_eq active scene_id

  unfoldable pub enter_scene : Text → Bool → TrackerState B → TrackerState B
  unfolding reset_for_scene
  enter_scene scene_id reset_tracker s =
      if reset_tracker || not (is_scene s.active_scene_id scene_id)
      then reset_for_scene V scene_id s
      else s

  unfoldable pub process_interval :
      Tensor Frame
      → ℕ
      → Text
      → Bool
      → TrackerState B
      → Outcome (List (TrackedObject N)) × TrackerState B
  unfolding enter_scene process_frames
  process_interval tensor global_start_frame scene_id reset_tracker s =
      let entered = enter_scene scene_id reset_tracker s in
      if not tensor.is_rgb
      then (raised not_rgb, entered)
      else process_frames scene_id global_start_frame tensor.frames entered

  -- The frame after a transition, where it has one.
  unfoldable pub reset_after : Option ℕ → Option ℕ → Option ℕ
  reset_after (some frame) end_frame = some (frame + 1)
  reset_after none (some end_frame) = some (end_frame + 1)
  reset_after none none = none

  abbrev pub is_index : Option ℕ → ℕ → Bool
  is_index none frame = false
  is_index (some i) frame = i == frame

  unfoldable pub resets_at : List (Transition N) → ℕ → Bool
  unfolding reset_after
  resets_at [] frame = false
  resets_at (t ∷ ts) frame = is_index (reset_after t.frame t.end_frame) frame || resets_at ts frame

  -- `array[local_start:local_end]`
  abbrev pub slice : Tensor Frame → ℕ → ℕ → Tensor Frame
  slice tensor local_start local_end = record tensor {
    frames = take (local_end - local_start) (drop local_start tensor.frames);
  }

  module _ (tensor : Tensor Frame) (job : TrackingJobMessage N) where
    unfoldable pub scene_fits : SceneInterval → Bool
    scene_fits scene =
        leb job.valid_start_frame scene.start_frame
        && (leb scene.start_frame scene.end_frame && leb scene.end_frame job.valid_end_frame)

    unfoldable pub process_scene :
        SceneInterval → TrackerState B → Outcome (List (TrackedObject N)) × TrackerState B
    unfolding scene_fits process_interval resets_at
    process_scene scene s =
        let local_start = scene.start_frame - job.context_start_frame in
        let local_end = scene.end_frame + 1 - job.context_start_frame in
        let reset_tracker = resets_at job.transitions scene.start_frame in
        if not (scene_fits scene)
        then (raised scene_outside, s)
        else process_interval (slice tensor local_start local_end) scene.start_frame scene.scene_id
            reset_tracker s

    unfoldable pub process_scenes :
        List SceneInterval → TrackerState B → Outcome (List (TrackedObject N)) × TrackerState B
    unfolding process_scene
    process_scenes [] s = (returned [], s)
    process_scenes (scene ∷ scenes) s =
        and_then (process_scene scene s) λ first s'.
          and_then (process_scenes scenes s') λ rest s''. (returned (first ++ rest), s'')

    abbrev pub by_start : SceneInterval → SceneInterval → Bool
    by_start a b = leb a.start_frame b.start_frame

    abbrev pub next_index : Option ℕ → Option ℕ
    next_index none = none
    next_index (some i) = some (i + 1)

    abbrev pub expecting : TrackerState B → TrackerState B
    expecting s = record s {
      expected_chunk_index = some (or_else s.expected_chunk_index job.chunk_index);
    }

    -- From the test of the index on.
    unfoldable pub process_expected :
        TrackerState B → Outcome (List (TrackedObject N)) × TrackerState B
    unfolding process_scenes sort_by
    process_expected s =
        if not (is_index s.expected_chunk_index job.chunk_index)
        then (raised out_of_order, s)
        else and_then (process_scenes (sort_by by_start job.scenes) s) λ tracks s'.
          (returned tracks, record s' { expected_chunk_index = next_index s'.expected_chunk_index })

    unfoldable pub process_job : TrackerState B → Outcome (List (TrackedObject N)) × TrackerState B
    unfolding process_expected
    process_job s =
        if not (length tensor.frames + job.context_start_frame == job.context_end_frame + 1)
        then (raised wrong_frame_count, s)
        else process_expected (expecting s)
