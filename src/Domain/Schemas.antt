-- ===== src/Domain/Schemas.antt =====
-- The validators of backend/app/domain/schemas.py: `FrameBatchMetadata`. Its floats and its time of
-- emission are left out.
use cv_video_analysis.Common.{
  ℕ, ◌+◌, ◌-◌, Bool, not, ◌&&◌, Option, none, some, if◌then◌else◌, ltb, leb, ◌==◌,
}
use cv_video_analysis.Common.Texts.{Text}

pub record FrameBatchMetadata : Type 0 where
  pub task_id : Text
  pub chunk_id : Text
  pub chunk_index : ℕ
  pub object_ref : Text
  pub context_start_frame : ℕ
  pub context_end_frame : ℕ
  pub valid_start_frame : ℕ
  pub valid_end_frame : ℕ
  pub frame_count : ℕ
  pub width : ℕ
  pub height : ℕ
  pub source_total_frames : ℕ
  pub is_last : Bool

-- The errors of the validation, by their messages.
pub data SchemaError : Type 0 where
  not_positive : SchemaError
  invalid_context_range : SchemaError
  frame_count_mismatch : SchemaError
  valid_range_outside : SchemaError
  exceeds_source : SchemaError

-- `validate_frame_window`
unfoldable pub validate_frame_window : FrameBatchMetadata → Option SchemaError
validate_frame_window m =
    if ltb m.context_end_frame m.context_start_frame
    then some invalid_context_range
    else if not (m.context_end_frame - m.context_start_frame + 1 == m.frame_count)
    then some frame_count_mismatch
    else if not (
        leb m.context_start_frame m.valid_start_frame
        && (leb m.valid_start_frame m.valid_end_frame && leb m.valid_end_frame m.context_end_frame))
    then some valid_range_outside
    else if leb m.source_total_frames m.context_end_frame
    then some exceeds_source
    else none

-- The validation: the fields with `gt=0`, and then the window.
unfoldable pub validate_batch : FrameBatchMetadata → Option SchemaError
unfolding validate_frame_window
validate_batch m =
    if leb m.frame_count 0
    then some not_positive
    else if leb m.width 0
    then some not_positive
    else if leb m.height 0
    then some not_positive
    else if leb m.source_total_frames 0
    then some not_positive
    else validate_frame_window m
