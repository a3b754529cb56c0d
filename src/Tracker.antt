-- ===== src/Tracker.antt =====
-- participant_3_tracking/yolo_world_tracker.py: its detections and what it keeps between frames. The
-- models and ByteTrack are library code and given as functions; class and track ids, which the arrays
-- hold as floats, are numbers.
pub mod Classes
pub mod Fusion
pub mod Ids
pub mod Intervals
use cv_video_analysis.Common.{ℕ, Option, List, Bool}
use cv_video_analysis.Common.Texts.{Text}

-- A row of the detections: the corners, the confidence and the class.
pub record DetectedBox (N : Type 0) : Type 0 where
  pub x1 : N
  pub y1 : N
  pub x2 : N
  pub y2 : N
  pub confidence : N
  pub class_id : ℕ

-- What a model predicts for a frame. `names` is missing where the result has no such attribute.
pub record Prediction (N : Type 0) : Type 0 where
  pub boxes : List (DetectedBox N)
  pub names : Option (List (ℕ × Text))

-- A row that ByteTrack returns; one of fewer than eight values raises.
pub data TrackedRow (N : Type 0) : Type 0 where
  short_row : TrackedRow N
  tracked : DetectedBox N → ℕ → TrackedRow N

pub record BoundingBox (N : Type 0) : Type 0 where
  pub x : N
  pub y : N
  pub width : N
  pub height : N

pub record TrackedObject (N : Type 0) : Type 0 where
  pub frame : ℕ
  pub scene_id : Text
  pub track_id : ℕ
  pub class_name : Text
  pub confidence : N
  pub bbox : BoundingBox N

pub data TrackerError : Type 0 where
  duplicate_class : TrackerError
  not_rgb : TrackerError
  short_result : TrackerError
  wrong_frame_count : TrackerError
  out_of_order : TrackerError
  scene_outside : TrackerError

-- The attributes that a job changes; `B` is the state of ByteTrack.
pub record TrackerState (B : Type 0) : Type 0 where
  pub active_scene_id : Option Text
  pub raw_to_scene_track_id : List (ℕ × ℕ)
  pub next_scene_track_id : ℕ
  pub expected_chunk_index : Option ℕ
  pub byte_tracker : B

-- The library calls: both models, ByteTrack, and the size of a frame.
pub record Vision (N Frame B : Type 0) : Type 0 where
  pub primary : Frame → Option (Prediction N)
  pub ensemble : Frame → Option (Prediction N)
  pub new_byte_tracker : B
  pub update : B → List (DetectedBox N) → Frame → List (TrackedRow N) × B
  pub frame_width : Frame → ℕ
  pub frame_height : Frame → ℕ
