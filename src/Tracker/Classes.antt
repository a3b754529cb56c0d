-- ===== src/Tracker/Classes.antt =====
-- The class names of participant_3_tracking/yolo_world_tracker.py: `_class_key`, `_build_class_index` and
-- `_extract_detections`. The methods of `str` are the library's, `TextMethods`.
pub mod Index
use cv_video_analysis.Common.{
  ℕ, ◌≡◌, refl, Bool, true, false, not, ◌&&◌, Option, none, some, List, [], ◌∷◌, ◌++◌,
  if◌then◌else◌, ◌==◌,
}
use cv_video_analysis.Common.Texts.{Text, text_eq}
use cv_video_analysis.Common.Maps.{Map, put}
use cv_video_analysis.Common.Tables.{lookup}
use cv_video_analysis.Tracker.{DetectedBox, Prediction}

pub record TextMethods : Type 0 where
  pub strip : Text → Text
  pub lower : Text → Text
  pub split : Text → List Text

-- `replace("-", " ")`
unfoldable pub with_spaces : Text → Text
with_spaces [] = []
with_spaces (c ∷ s) = (if c == b'-' then b' ' else c) ∷ with_spaces s

-- `"_".join`
unfoldable pub join_words : List Text → Text
join_words [] = []
join_words (word ∷ []) = word
join_words (word ∷ next ∷ words) = word ++ (b'_' ∷ join_words (next ∷ words))

abbrev pub other_id : Option ℕ → ℕ → Bool
other_id none class_id = false
other_id (some previous) class_id = not (previous == class_id)

module _ (T : TextMethods) where
  unfoldable pub class_key : Text → Text
  unfolding with_spaces join_words
  class_key name = join_words (T.split (with_spaces (T.lower (T.strip name))))

  -- `_build_class_index`, from the index so far; `none` is its ValueError.
  unfoldable pub add_classes : List (ℕ × Text) → Map ℕ → Option (Map ℕ)
  unfolding class_key
  add_classes [] index = some index
  add_classes ((class_id, name) ∷ names) index =
      let rest = add_classes names (put index (class_key name) class_id) in
      if other_id (lookup index (class_key name)) class_id then none else rest

  unfoldable pub build_class_index : List (ℕ × Text) → Option (Map ℕ)
  unfolding add_classes
  build_class_index names = add_classes names []

  -- `names.get(class_id)`
  unfoldable pub name_of : List (ℕ × Text) → ℕ → Option Text
  name_of [] class_id = none
  name_of ((i, name) ∷ names) class_id = if i == class_id then some name else name_of names class_id

  unfoldable pub output_class : Map ℕ → Option Text → Option ℕ
  unfolding class_key
  output_class index none = none
  output_class index (some name) = lookup index (class_key name)

  abbrev pub names_or : Option (List (ℕ × Text)) → List (ℕ × Text) → List (ℕ × Text)
  names_or none fallback = fallback
  names_or (some names) fallback = names

  module _ {N : Type 0} (index : Map ℕ) where
    unfoldable pub with_class :
        DetectedBox N → Option ℕ → List (DetectedBox N) → List (DetectedBox N)
    with_class box none rest = rest
    with_class box (some class_id) rest = record box { class_id = class_id } ∷ rest

    unfoldable pub extract_boxes : List (ℕ × Text) → List (DetectedBox N) → List (DetectedBox N)
    unfolding with_class output_class name_of
    extract_boxes names [] = []
    extract_boxes names (box ∷ boxes) =
        with_class box (output_class index (name_of names box.class_id)) (extract_boxes names boxes)

    -- `_extract_detections`
    unfoldable pub extract_detections :
        Option (Prediction N) → List (ℕ × Text) → List (DetectedBox N)
    unfolding extract_boxes
    extract_detections none fallback = []
    extract_detections (some p) fallback = extract_boxes (names_or p.names fallback) p.boxes
