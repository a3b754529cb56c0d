-- ===== src/Tracker/Ids.antt =====
-- `_map_track_id` and `_reset_for_scene` of participant_3_tracking/yolo_world_tracker.py: the ids of the
-- tracks of a scene.
pub mod Distinct
use cv_video_analysis.Common.{ℕ, ◌+◌, Option, none, some, List, [], ◌∷◌, if◌then◌else◌, ◌==◌}
use cv_video_analysis.Common.Texts.{Text}
use cv_video_analysis.Tracker.{TrackerState, Vision}

-- `raw_to_scene_track_id.get(raw)`
unfoldable pub mapped_id : List (ℕ × ℕ) → ℕ → Option ℕ
mapped_id [] raw = none
mapped_id ((r, i) ∷ ids) raw = if r == raw then some i else mapped_id ids raw

module _ {B : Type 0} where
  unfoldable pub map_known : Option ℕ → ℕ → TrackerState B → ℕ × TrackerState B
  map_known (some mapped) raw s = (mapped, s)
  map_known none raw s = (
    s.next_scene_track_id,
    record s {
      raw_to_scene_track_id = (raw, s.next_scene_track_id) ∷ s.raw_to_scene_track_id;
      next_scene_track_id = s.next_scene_track_id + 1;
    },
  )

  unfoldable pub map_track_id : ℕ → TrackerState B → ℕ × TrackerState B
  unfolding map_known mapped_id
  map_track_id raw s = map_known (mapped_id s.raw_to_scene_track_id raw) raw s

  unfoldable pub reset_for_scene :
      {N Frame : Type 0} → Vision N Frame B → Text → TrackerState B → TrackerState B
  reset_for_scene V scene_id s = record s {
    active_scene_id = some scene_id;
    raw_to_scene_track_id = [];
    next_scene_track_id = 0;
    byte_tracker = V.new_byte_tracker;
  }
