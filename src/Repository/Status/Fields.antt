-- ===== src/Repository/Status/Fields.antt =====
-- `_status_mapping` and `_status_from_mapping` of backend/app/infrastructure/task_repository.py on the
-- texts that Redis holds. How Python prints and reads a float, a UUID and a time is a parameter.
use cv_video_analysis.Common.{
  ℕ, ◌≡◌, refl, ◌∙◌, sym, true, Option, none, some, [], ◌∷◌, if◌then◌else◌,
}
use cv_video_analysis.Common.Texts.{Text, codes, text_eq, pad, parse_int, parse_int-pad}
use cv_video_analysis.Common.Maps.{Map}
use cv_video_analysis.Common.Tables.{lookup}
use cv_video_analysis.Domain.Enums.{
  TaskStage, queued, downloading, decoding, cut_detection, tracking, aggregating, completed, failed,
}
use cv_video_analysis.Domain.Floats.{Floats}
use cv_video_analysis.Store.{TaskHash}
use cv_video_analysis.Repository.Status.{
  TaskStatus, or_none, is_valid_progress, status_mapping, status_from_mapping, status_from_fields,
}
use cv_video_analysis.Repository.Status.Reading.{normal}

-- `str` and `float` of a double, which read each other back, and what pydantic accepts as a UUID and
-- as a time, with the text that it prints of it.
pub record Formats (N : Type 0) : Type 0 where
  pub show_float : N → Text
  pub read_float : Text → Option N
  pub read-show_float : (x : N) → read_float (show_float x) ≡ some x
  pub read_id : Text → Option Text
  pub read_time : Text → Option Text

-- `TaskStage(...).value`
unfoldable pub stage_value : TaskStage → Text
stage_value queued = codes "queued"
stage_value downloading = codes "downloading"
stage_value decoding = codes "decoding"
stage_value cut_detection = codes "cut_detection"
stage_value tracking = codes "tracking"
stage_value aggregating = codes "aggregating"
stage_value completed = codes "completed"
stage_value failed = codes "failed"

-- `TaskStage(text)`; `none` is its ValueError.
unfoldable pub read_stage : Text → Option TaskStage
read_stage text =
    if text_eq text (codes "queued")
    then some queued
    else if text_eq text (codes "downloading")
    then some downloading
    else if text_eq text (codes "decoding")
    then some decoding
    else if text_eq text (codes "cut_detection")
    then some cut_detection
    else if text_eq text (codes "tracking")
    then some tracking
    else if text_eq text (codes "aggregating")
    then some aggregating
    else if text_eq text (codes "completed")
    then some completed
    else if text_eq text (codes "failed")
    then some failed
    else none

-- `"" if value is None else str(value)`
unfoldable pub text_or_empty : Option Text → Text
text_or_empty none = []
text_or_empty (some text) = text

-- `int(data.get(key, 0) or 0)`
unfoldable pub read_count : Option Text → Option ℕ
read_count none = some 0
read_count (some []) = some 0
read_count (some (c ∷ text)) = parse_int (c ∷ text)

infixl 5 ◌>>=◌
abbrev ◌>>=◌ : {A B : Type 0} → Option A → (A → Option B) → Option B
none >>= f = none
some a >>= f = f a

module _ {N : Type 0} (F : Floats N) (R : Formats N) where
  -- An optional time of the schema.
  unfoldable pub read_optional_time : Option Text → Option (Option Text)
  read_optional_time none = some none
  read_optional_time (some text) = R.read_time text >>= λ time. some (some time)

  -- `float(data["progress"])`, within the bounds of the schema.
  unfoldable pub read_progress : Text → Option N
  unfolding is_valid_progress
  read_progress text = R.read_float text >>= λ x. if is_valid_progress F x then some x else none

  -- `_status_mapping`
  unfoldable pub status_texts : TaskStatus N → Map Text
  unfolding stage_value text_or_empty
  status_texts s =
      (codes "task_id", s.task_id)
      ∷ (codes "stage", stage_value s.stage)
      ∷ (codes "progress", R.show_float s.progress)
      ∷ (codes "message", s.message)
      ∷ (codes "created_at", s.created_at)
      ∷ (codes "updated_at", s.updated_at)
      ∷ (codes "processing_started_at", text_or_empty s.processing_started_at)
      ∷ (codes "total_chunks", pad 1 s.total_chunks)
      ∷ (codes "cut_completed_chunks", pad 1 s.cut_completed_chunks)
      ∷ (codes "tracking_completed_chunks", pad 1 s.tracking_completed_chunks)
      ∷ (codes "error_code", text_or_empty s.error_code)
      ∷ (codes "error_detail", text_or_empty s.error_detail)
      ∷ []

  -- `_status_from_mapping`; `none` is an exception: a missing key, a text that does not parse, or a
  -- value that the schema refuses.
  unfoldable pub parse_status : Map Text → Option (TaskStatus N)
  unfolding read_stage read_count read_progress read_optional_time or_none
  parse_status fields = do
    task ← lookup fields (codes "task_id")
    task_id ← R.read_id task
    stage_text ← lookup fields (codes "stage")
    stage ← read_stage stage_text
    progress_text ← lookup fields (codes "progress")
    progress ← read_progress progress_text
    message ← lookup fields (codes "message")
    created_text ← lookup fields (codes "created_at")
    created_at ← R.read_time created_text
    updated_text ← lookup fields (codes "updated_at")
    updated_at ← R.read_time updated_text
    total_chunks ← read_count (lookup fields (codes "total_chunks"))
    cut_completed ← read_count (lookup fields (codes "cut_completed_chunks"))
    tracking_completed ← read_count (lookup fields (codes "tracking_completed_chunks"))
    started ← read_optional_time (or_none (lookup fields (codes "processing_started_at")))
    some (record {
      task_id = task_id;
      stage = stage;
      progress = progress;
      message = message;
      created_at = created_at;
      updated_at = updated_at;
      processing_started_at = started;
      total_chunks = total_chunks;
      cut_completed_chunks = cut_completed;
      tracking_completed_chunks = tracking_completed;
      error_code = or_none (lookup fields (codes "error_code"));
      error_detail = or_none (lookup fields (codes "error_detail"));
    })

  -- The id and the times of a status are as pydantic prints them.
  pub record IsPrinted (s : TaskStatus N) : Type 0 where
    pub task_id : R.read_id s.task_id ≡ some s.task_id
    pub created_at : R.read_time s.created_at ≡ some s.created_at
    pub updated_at : R.read_time s.updated_at ≡ some s.updated_at
    pub started :
        read_optional_time (or_none s.processing_started_at)
        ≡ some (or_none s.processing_started_at)

  read_stage-stage_value : (stage : TaskStage) → read_stage (stage_value stage) ≡ some stage
  unfolding read_stage stage_value text_eq
  read_stage-stage_value queued = refl
  read_stage-stage_value downloading = refl
  read_stage-stage_value decoding = refl
  read_stage-stage_value cut_detection = refl
  read_stage-stage_value tracking = refl
  read_stage-stage_value aggregating = refl
  read_stage-stage_value completed = refl
  read_stage-stage_value failed = refl

  read_progress-show_float :
      (x : N) → is_valid_progress F x ≡ true → read_progress (R.show_float x) ≡ some x
  unfolding read_progress
  read_progress-show_float x valid = rw (R.read-show_float x, valid) refl

  read_count-parse_int :
      (text : Text) (n : ℕ) → parse_int text ≡ some n → read_count (some text) ≡ some n
  unfolding read_count parse_int
  read_count-parse_int [] n h = cc
  read_count-parse_int (c ∷ text) n h = h

  read_count-pad : (n : ℕ) → read_count (some (pad 1 n)) ≡ some n
  read_count-pad n = read_count-parse_int (pad 1 n) n (parse_int-pad n)

  or_none-text_or_empty : (o : Option Text) → or_none (some (text_or_empty o)) ≡ or_none o
  unfolding or_none text_or_empty
  or_none-text_or_empty none = refl
  or_none-text_or_empty (some []) = refl
  or_none-text_or_empty (some (c ∷ text)) = refl

  parse_status-texts :
      (s : TaskStatus N)
      → is_valid_progress F s.progress ≡ true
      → IsPrinted s
      → parse_status (status_texts s) ≡ some (normal s)
  unfolding parse_status status_texts lookup text_eq
  parse_status-texts s valid h =
      rw
        (
          h.task_id,
          read_stage-stage_value s.stage,
          read_progress-show_float s.progress valid,
          h.created_at,
          h.updated_at,
          read_count-pad s.total_chunks,
          read_count-pad s.cut_completed_chunks,
          read_count-pad s.tracking_completed_chunks,
          or_none-text_or_empty s.processing_started_at,
          h.started,
          or_none-text_or_empty s.error_code,
          or_none-text_or_empty s.error_detail,
        )
        refl

  status_from_mapping-status_mapping :
      (s : TaskStatus N) (fields : TaskHash N)
      → is_valid_progress F s.progress ≡ true
      → status_from_mapping F (status_mapping s fields) ≡ some (normal s)
  unfolding status_from_mapping status_from_fields status_mapping
  status_from_mapping-status_mapping s fields valid = rw valid refl

  -- If the schema accepts the progress of a status and its id and times are as they are printed,
  -- the twelve texts that are written of it parse into the same status, up to empty optional
  -- texts, and the typed fields of the store, whatever they held before, are read back as the
  -- texts are.
  pub parse_status-status_texts :
      (s : TaskStatus N) (fields : TaskHash N)
      → is_valid_progress F s.progress ≡ true
      → IsPrinted s
      → (parse_status (status_texts s) ≡ some (normal s))
        × (status_from_mapping F (status_mapping s fields) ≡ parse_status (status_texts s))
  parse_status-status_texts s fields valid h =
      let parsed = parse_status-texts s valid h in
      (parsed, status_from_mapping-status_mapping s fields valid ∙ sym parsed)
