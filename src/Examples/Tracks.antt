-- ===== src/Examples/Tracks.antt =====
-- The tracker on one frame of two detections of one class, which it fuses into one.
use cv_video_analysis.Common.{ℕ, ◌+◌, ◌-◌, ◌≡◌, refl, some, none, true, false, List, [], ◌∷◌, All}
use cv_video_analysis.Common.Texts.{Text, codes, text_eq}
use cv_video_analysis.Common.Maps.{Map}
use cv_video_analysis.Common.Tables.{lookup}
use cv_video_analysis.Domain.Floats.{whole}
use cv_video_analysis.Results.{SceneInterval}
use cv_video_analysis.Coordinator.{TrackingJobMessage}
use cv_video_analysis.Tracker.{
  DetectedBox, TrackedRow, tracked, TrackedObject, TrackerState, Vision,
}
use cv_video_analysis.Tracker.Classes.{TextMethods}
use cv_video_analysis.Tracker.Fusion.{fuse_detections}
use cv_video_analysis.Tracker.Fusion.Suppression.{IsFusion, fuse_detections-IsFusion}
use cv_video_analysis.Tracker.Ids.Distinct.{IsNumbered}
use cv_video_analysis.Tracker.Intervals.{returned, TrackerSettings, Tensor, process_job}
use cv_video_analysis.Tracker.Intervals.Order.{
  Advances, process_job-Advances, process_job-IsNumbered,
}
use cv_video_analysis.Tracker.Intervals.Tracks.{IsTrackIn, process_job-tracks}

abbrev methods : TextMethods
methods = record { strip = λ t. t; lower = λ t. t; split = λ t. t ∷ [] }

abbrev names : List (ℕ × Text)
names = (0, codes "car") ∷ (1, codes "big-car") ∷ []

abbrev index : Map ℕ
index = (codes "car", 0) ∷ (codes "big car", 1) ∷ []

abbrev minus : ℕ → ℕ → ℕ
minus a b = a - b

abbrev box : ℕ → ℕ → DetectedBox ℕ
box left confidence = record {
  x1 = left;
  y1 = 0;
  x2 = left + 4;
  y2 = 4;
  confidence = confidence;
  class_id = 0;
}

abbrev boxes : List (DetectedBox ℕ)
boxes = box 1 2 ∷ box 0 3 ∷ []

fuse_detections-IsFusion_example :
    IsFusion whole minus 1 boxes (fuse_detections whole minus 1 boxes)
fuse_detections-IsFusion_example = fuse_detections-IsFusion whole minus 1 boxes

abbrev follow : ℕ → List (DetectedBox ℕ) → ℕ → List (TrackedRow ℕ) × ℕ
follow b [] frame = ([], b)
follow b (d ∷ ds) frame = (tracked d 7 ∷ [], b + 1)

abbrev vision : Vision ℕ ℕ ℕ
vision = record {
  primary = λ frame. some (record { boxes = box 1 2 ∷ []; names = some names });
  ensemble = λ frame. none;
  new_byte_tracker = 0;
  update = follow;
  frame_width = λ frame. 16;
  frame_height = λ frame. 9;
}

abbrev settings : TrackerSettings ℕ
settings = record {
  confidence = 1;
  ensemble_iou_threshold = 1;
  output_names = names;
  ensemble_model_names = [];
  class_id_by_key = index;
}

abbrev tensor : Tensor ℕ
tensor = record { frames = 5 ∷ 6 ∷ []; is_rgb = true }

abbrev scene : SceneInterval
scene = record { scene_id = codes "scene:0"; start_frame = 3; end_frame = 4 }

abbrev job : TrackingJobMessage ℕ
job = record {
  task_id = codes "t1";
  chunk_id = codes "t1:0";
  chunk_index = 0;
  object_ref = codes "obj";
  fps = 25;
  context_start_frame = 3;
  context_end_frame = 4;
  valid_start_frame = 3;
  valid_end_frame = 4;
  scenes = scene ∷ [];
  transitions = [];
  tracking_classes = none;
  is_last = false;
  cut_verified = true;
}

abbrev fresh : TrackerState ℕ
fresh = record {
  active_scene_id = none;
  raw_to_scene_track_id = [];
  next_scene_track_id = 0;
  expected_chunk_index = none;
  byte_tracker = 0;
}

abbrev after : TrackerState ℕ
after = record {
  active_scene_id = some (codes "scene:0");
  raw_to_scene_track_id = (7, 0) ∷ [];
  next_scene_track_id = 1;
  expected_chunk_index = some 1;
  byte_tracker = 2;
}

abbrev track : ℕ → TrackedObject ℕ
track frame = record {
  frame = frame;
  scene_id = codes "scene:0";
  track_id = 0;
  class_name = codes "car";
  confidence = 1;
  bbox = record { x = 1; y = 0; width = 4; height = 4 };
}

processed :
    process_job whole minus methods vision settings tensor job fresh
    ≡ (returned (track 3 ∷ track 4 ∷ []), after)
unfolding process_job text_eq lookup
processed = refl

process_job-tracks_example :
    All
      (IsTrackIn whole minus methods vision settings tensor job (scene ∷ []))
      (track 3 ∷ track 4 ∷ [])
process_job-tracks_example =
    process_job-tracks whole minus methods vision settings tensor job fresh after
      (track 3 ∷ track 4 ∷ []) processed

process_job-Advances_example :
    Advances whole minus methods vision settings tensor job fresh
      (process_job whole minus methods vision settings tensor job fresh)
process_job-Advances_example =
    process_job-Advances whole minus methods vision settings tensor job fresh

fresh-IsNumbered : IsNumbered fresh
fresh-IsNumbered = record { numbering = tt; next = refl }

process_job-IsNumbered_example :
    IsNumbered (process_job whole minus methods vision settings tensor job fresh).1
process_job-IsNumbered_example =
    process_job-IsNumbered whole minus methods vision settings tensor job fresh fresh-IsNumbered
