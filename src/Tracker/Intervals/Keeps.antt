-- ===== src/Tracker/Intervals/Keeps.antt =====
-- What the functions of the tracker keep of its state, whatever they answer.
use cv_video_analysis.Common.{ℕ, ◌+◌, Bool, not, Option, none, some, List, [], ◌∷◌, if_elim}
use cv_video_analysis.Common.Texts.{Text}
use cv_video_analysis.Domain.Floats.{Floats}
use cv_video_analysis.Results.{SceneInterval}
use cv_video_analysis.Coordinator.{TrackingJobMessage}
use cv_video_analysis.Tracker.{
  DetectedBox, TrackedRow, short_row, tracked, TrackedObject, TrackerState, Vision,
}
use cv_video_analysis.Tracker.Classes.{TextMethods, name_of}
use cv_video_analysis.Tracker.Ids.{map_track_id, reset_for_scene}
use cv_video_analysis.Tracker.Intervals.{
  Outcome, returned, raised, and_then, TrackerSettings, Tensor, detect_frame, clip_row, named_row,
  process_row, process_rows, process_update, process_frame, process_frames, enter_scene,
  process_interval, scene_fits, process_scene, process_scenes,
}

and_then-keeps :
    {A B S : Type 0} (P : S → Type 0) (r : Outcome A × S) (f : A → S → Outcome B × S)
    → P r.1
    → ((a : A) (s : S) → P s → P (f a s).1)
    → P (and_then r f).1
and_then-keeps P (returned a, s) f h k = k a s h
and_then-keeps P (raised e, s) f h k = h

module _ {N Frame B : Type 0} (F : Floats N) (sub : N → N → N) (T : TextMethods)
    (V : Vision N Frame B) (c : TrackerSettings N) where
  -- A property of the state that the tracker's own steps keep.
  pub record IsStable (P : TrackerState B → Type 0) : Type 0 where
    pub mapping : (raw : ℕ) (s : TrackerState B) → P s → P (map_track_id raw s).1
    pub updating : (b : B) (s : TrackerState B) → P s → P (record s { byte_tracker = b })
    pub resetting : (scene_id : Text) (s : TrackerState B) → P s → P (reset_for_scene V scene_id s)

  module _ (P : TrackerState B → Type 0) (k : IsStable P) where
    module _ (scene_id : Text) (frame : Frame) (index : ℕ) where
      clip_row-keeps :
          (box : DetectedBox N) (raw : ℕ) (name : Text) (s : TrackerState B)
          → P s
          → P (clip_row F sub T V c scene_id frame index box raw name s).1
      unfolding clip_row
      clip_row-keeps box raw name s h =
          if_elim (λ (r : Outcome (List (TrackedObject N)) × TrackerState B). P r.1) _ _ _ (λ e. h)
            (λ e. k.mapping raw s h)

      named_row-keeps :
          (box : DetectedBox N) (raw : ℕ) (name : Option Text) (s : TrackerState B)
          → P s
          → P (named_row F sub T V c scene_id frame index box raw name s).1
      unfolding named_row
      named_row-keeps box raw none s h = h
      named_row-keeps box raw (some name) s h = clip_row-keeps box raw name s h

      process_row-keeps :
          (row : TrackedRow N) (s : TrackerState B)
          → P s
          → P (process_row F sub T V c scene_id frame index row s).1
      unfolding process_row
      process_row-keeps short_row s h = h
      process_row-keeps (tracked box raw) s h =
          if_elim (λ (r : Outcome (List (TrackedObject N)) × TrackerState B). P r.1)
            (F.lt box.confidence c.confidence) _ _ (λ e. h)
            (λ e. named_row-keeps box raw (name_of T c.output_names box.class_id) s h)

      process_rows-keeps :
          (rows : List (TrackedRow N)) (s : TrackerState B)
          → P s
          → P (process_rows F sub T V c scene_id frame index rows s).1
      unfolding process_rows
      process_rows-keeps [] s h = h
      process_rows-keeps (row ∷ rows) s h =
          and_then-keeps P (process_row F sub T V c scene_id frame index row s) _
            (process_row-keeps row s h)
            λ track s' h'.
              and_then-keeps P (process_rows F sub T V c scene_id frame index rows s') _
                (process_rows-keeps rows s' h') λ tracks s'' h''. h''

      process_frame-keeps :
          (s : TrackerState B) → P s → P (process_frame F sub T V c scene_id frame index s).1
      unfolding process_frame process_update
      process_frame-keeps s h =
          let u = V.update s.byte_tracker (detect_frame F sub T V c frame) frame in
          process_rows-keeps u.0 (record s { byte_tracker = u.1 }) (k.updating u.1 s h)

    process_frames-keeps :
        (scene_id : Text) (index : ℕ) (frames : List Frame) (s : TrackerState B)
        → P s
        → P (process_frames F sub T V c scene_id index frames s).1
    unfolding process_frames
    process_frames-keeps scene_id index [] s h = h
    process_frames-keeps scene_id index (frame ∷ frames) s h =
        and_then-keeps P (process_frame F sub T V c scene_id frame index s) _
          (process_frame-keeps scene_id frame index s h)
          λ first s' h'.
            and_then-keeps P (process_frames F sub T V c scene_id (index + 1) frames s') _
              (process_frames-keeps scene_id (index + 1) frames s' h') λ rest s'' h''. h''

    enter_scene-keeps :
        (scene_id : Text) (reset_tracker : Bool) (s : TrackerState B)
        → P s
        → P (enter_scene F sub T V c scene_id reset_tracker s)
    unfolding enter_scene
    enter_scene-keeps scene_id reset_tracker s h =
        if_elim P _ _ _ (λ e. k.resetting scene_id s h) (λ e. h)

    process_interval-keeps :
        (tensor : Tensor Frame) (start : ℕ) (scene_id : Text) (reset_tracker : Bool)
        (s : TrackerState B)
        → P s
        → P (process_interval F sub T V c tensor start scene_id reset_tracker s).1
    unfolding process_interval
    process_interval-keeps tensor start scene_id reset_tracker s h =
        let h' = enter_scene-keeps scene_id reset_tracker s h in
        if_elim (λ (r : Outcome (List (TrackedObject N)) × TrackerState B). P r.1) _ _ _ (λ e. h')
          (λ e. process_frames-keeps scene_id start tensor.frames _ h')

    module _ (tensor : Tensor Frame) (job : TrackingJobMessage N) where
      process_scene-keeps :
          (scene : SceneInterval) (s : TrackerState B)
          → P s
          → P (process_scene F sub T V c tensor job scene s).1
      unfolding process_scene
      process_scene-keeps scene s h =
          if_elim (λ (r : Outcome (List (TrackedObject N)) × TrackerState B). P r.1)
            (not (scene_fits F sub T V c tensor job scene)) _ _ (λ e. h)
            (λ e. process_interval-keeps _ scene.start_frame scene.scene_id _ s h)

      pub process_scenes-keeps :
          (scenes : List SceneInterval) (s : TrackerState B)
          → P s
          → P (process_scenes F sub T V c tensor job scenes s).1
      unfolding process_scenes
      process_scenes-keeps [] s h = h
      process_scenes-keeps (scene ∷ scenes) s h =
          and_then-keeps P (process_scene F sub T V c tensor job scene s) _
            (process_scene-keeps scene s h)
            λ first s' h'.
              and_then-keeps P (process_scenes F sub T V c tensor job scenes s') _
                (process_scenes-keeps scenes s' h') λ rest s'' h''. h''
