-- ===== src/Tracker/Ids/Distinct.antt =====
-- The ids of a scene's tracks are 0, 1, 2 and so on, one for each raw id.
use cv_video_analysis.Common.{ℕ, ◌<◌, ◌≡◌, refl, Option, none, some, List, [], ◌∷◌, length, arith}
use cv_video_analysis.Tracker.{TrackerState, Vision}
use cv_video_analysis.Tracker.Ids.{mapped_id, map_known, map_track_id, reset_for_scene}
use cv_video_analysis.Common.Texts.{Text}

-- The entries carry the numbers below their count, the newest the highest, and no raw id twice.
abbrev pub IsNumbering : List (ℕ × ℕ) → Type 0
IsNumbering [] = Unit
IsNumbering ((r, i) ∷ ids) = (i ≡ length ids) × (mapped_id ids r ≡ none) × IsNumbering ids

module _ {B : Type 0} where
  pub record IsNumbered (s : TrackerState B) : Type 0 where
    pub numbering : IsNumbering s.raw_to_scene_track_id
    pub next : s.next_scene_track_id ≡ length s.raw_to_scene_track_id

  -- The mapping keeps the ids that it has given.
  abbrev pub Extends : TrackerState B → TrackerState B → Type 0
  Extends s t =
      (raw i : ℕ)
      → mapped_id s.raw_to_scene_track_id raw ≡ some i
      → mapped_id t.raw_to_scene_track_id raw ≡ some i

  map_known-IsNumbered :
      (raw : ℕ) (s : TrackerState B) (o : Option ℕ)
      → mapped_id s.raw_to_scene_track_id raw ≡ o
      → IsNumbered s
      → IsNumbered (map_known o raw s).1
  unfolding map_known
  map_known-IsNumbered raw s (some i) e h = h
  map_known-IsNumbered raw s none e h = record {
    numbering = (h.next, e, h.numbering);
    next = omega (arith, h.next);
  }

  pub map_track_id-IsNumbered :
      (raw : ℕ) (s : TrackerState B) → IsNumbered s → IsNumbered (map_track_id raw s).1
  unfolding map_track_id
  map_track_id-IsNumbered raw s h =
      map_known-IsNumbered raw s (mapped_id s.raw_to_scene_track_id raw) refl h

  map_known-Extends :
      (raw : ℕ) (s : TrackerState B) (o : Option ℕ)
      → mapped_id s.raw_to_scene_track_id raw ≡ o
      → Extends s (map_known o raw s).1
  unfolding map_known mapped_id
  map_known-Extends raw s (some i) e r j h = h
  map_known-Extends raw s none e r j h = ground arith

  pub map_track_id-Extends : (raw : ℕ) (s : TrackerState B) → Extends s (map_track_id raw s).1
  unfolding map_track_id
  map_track_id-Extends raw s = map_known-Extends raw s (mapped_id s.raw_to_scene_track_id raw) refl

  map_known-mapped :
      (raw : ℕ) (s : TrackerState B) (o : Option ℕ)
      → mapped_id s.raw_to_scene_track_id raw ≡ o
      → mapped_id (map_known o raw s).1.raw_to_scene_track_id raw ≡ some (map_known o raw s).0
  unfolding map_known mapped_id
  map_known-mapped raw s (some i) e = e
  map_known-mapped raw s none e = ground arith

  pub map_track_id-mapped :
      (raw : ℕ) (s : TrackerState B)
      → mapped_id (map_track_id raw s).1.raw_to_scene_track_id raw ≡ some (map_track_id raw s).0
  unfolding map_track_id
  map_track_id-mapped raw s = map_known-mapped raw s (mapped_id s.raw_to_scene_track_id raw) refl

  pub reset_for_scene-IsNumbered :
      {N Frame : Type 0} (V : Vision N Frame B) (scene_id : Text) (s : TrackerState B)
      → IsNumbered (reset_for_scene V scene_id s)
  unfolding reset_for_scene
  reset_for_scene-IsNumbered V scene_id s = record { numbering = tt; next = refl }

mapped_id-below :
    (ids : List (ℕ × ℕ)) (raw i : ℕ) → IsNumbering ids → mapped_id ids raw ≡ some i → i < length ids
unfolding mapped_id
mapped_id-below [] raw i h e = cc
mapped_id-below ((r, j) ∷ ids) raw i h e = ground (arith, mapped_id-below ids raw i, h.0, h.2)

-- Two raw ids have different numbers.
pub mapped_id-injective :
    (ids : List (ℕ × ℕ)) (raw other i : ℕ)
    → IsNumbering ids
    → mapped_id ids raw ≡ some i
    → mapped_id ids other ≡ some i
    → raw ≡ other
unfolding mapped_id
mapped_id-injective [] raw other i h e k = cc
mapped_id-injective ((r, j) ∷ ids) raw other i h e k = ground (
  arith,
  h.0,
  mapped_id-injective ids raw other i h.2,
  mapped_id-below ids raw i h.2,
  mapped_id-below ids other i h.2,
)
