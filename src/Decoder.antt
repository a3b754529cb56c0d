-- ===== src/Decoder.antt =====
-- backend/app/services/video_decoder.py: the geometry of the chunks and the sequential decode. A
-- frame is whatever the decoder copies for it. FFmpeg is a parameter. The sizes are those that
-- `open` has probed.
pub mod Geometry
pub mod Batches
pub mod Video
pub mod Metadata
use cv_video_analysis.Common.{
  not, ℕ, zero, suc, ◌+◌, ◌-◌, ◌*◌, ◌/◌, min, max, Bool, true, false, Option, none, some, List, [],
  ◌∷◌, ◌++◌, if◌then◌else◌, ltb, leb, ◌==◌, length, take, drop, ◌≤◌, ◌<◌,
}

-- `VideoMetadata` of domain/schemas.py, as far as the decoder reads it.
pub record VideoMetadata : Type 0 where
  pub frame_count : ℕ
  pub width : ℕ
  pub height : ℕ

-- The arguments of `__init__` that the decode depends on, and the metadata.
pub record DecoderConfig : Type 0 where
  pub chunk_size : ℕ
  pub overlap_frames : ℕ
  pub max_decoded_chunk_bytes : Option ℕ
  pub metadata : VideoMetadata

-- The exceptions, by their messages.
pub data DecodeError : Type 0 where
  invalid_chunk_size overlap_too_large invalid_byte_limit : DecodeError
  frame_exceeds_limit index_outside could_not_start : DecodeError
  overlap_mismatch buffer_mismatch not_running ended_early bad_exit : DecodeError

pub data Decoded {ℓ} (A : Type ℓ) : Type ℓ where
  decoded : A → Decoded A
  raised : DecodeError → Decoded A

-- The guards of `__init__`; a number here is never negative.
unfoldable pub init_error : DecoderConfig → Option DecodeError
init_error c =
    if c.chunk_size == 0
    then some invalid_chunk_size
    else if leb c.chunk_size c.overlap_frames
    then some overlap_too_large
    else elim c.max_decoded_chunk_bytes [
      | none ↦ none
      | some limit ↦ if limit == 0 then some invalid_byte_limit else none
    ]

abbrev pub bytes_per_rgb_frame : DecoderConfig → ℕ
bytes_per_rgb_frame c = c.metadata.width * c.metadata.height * 3

-- `_effective_chunking` below a limit of so many frames.
unfoldable pub chunking_within : DecoderConfig → ℕ → ℕ × ℕ
chunking_within c max_context_frames =
    let overlap = min c.overlap_frames (max_context_frames / 4) in
    let chunk = max 1 (min c.chunk_size (max_context_frames - overlap)) in
    if max_context_frames == 1 then (1, 0) else (chunk, min overlap (max 0 (chunk - 1)))

-- The chunk size and the overlap.
unfoldable pub effective_chunking : DecoderConfig → Decoded (ℕ × ℕ)
effective_chunking c = elim c.max_decoded_chunk_bytes [
  | none ↦ decoded (c.chunk_size, c.overlap_frames)
  | some limit ↦
      if ltb limit (bytes_per_rgb_frame c)
      then raised frame_exceeds_limit
      else decoded (chunking_within c (max 1 (limit / max (bytes_per_rgb_frame c) 1)))
]

-- `total_chunks`, from the effective chunk size.
abbrev pub total_chunks : DecoderConfig → ℕ → ℕ
total_chunks c chunk_size = (c.metadata.frame_count + chunk_size - 1) / chunk_size

-- `DecodedBatch`
pub record DecodedBatch (Frame : Type 0) : Type 0 where
  pub chunk_index : ℕ
  pub context_start_frame : ℕ
  pub context_end_frame : ℕ
  pub valid_start_frame : ℕ
  pub valid_end_frame : ℕ
  pub frames_rgb : List Frame
  pub is_last : Bool

-- FFmpeg: `launch start count` starts a process that writes `count` frames from the frame `start`
-- on, or fails; `stop_error` is what waiting for its exit raises.
pub record Ffmpeg (Frame : Type 0) : Type 0 where
  pub launch : ℕ → ℕ → Option (List Frame)
  pub stop_error : Option DecodeError

-- What changes from call to call. The process is the frames that it has yet to write.
pub record DecoderState (Frame : Type 0) : Type 0 where
  pub process : Option (List Frame)
  pub next_chunk_index : Option ℕ
  pub previous_tail : Option (List Frame)

module _ {Frame : Type 0} where
  -- `close`
  abbrev pub closed : DecoderState Frame
  closed = record { process = none; next_chunk_index = none; previous_tail = none }

  -- `self._process is None or self._next_chunk_index != chunk_index`
  unfoldable pub must_restart : DecoderState Frame → ℕ → Bool
  must_restart st chunk_index = elim st.process [
    | none ↦ true
    | some out ↦ elim st.next_chunk_index [
      | none ↦ true
      | some next ↦ if next == chunk_index then false else true
    ]
  ]

  -- The last `count` of the frames.
  abbrev pub tail_frames : ℕ → List Frame → List Frame
  tail_frames count frames = drop (length frames - count) frames

module _ {Frame : Type 0} (ffmpeg : Ffmpeg Frame) (c : DecoderConfig)
    (chunk_size overlap_frames : ℕ) where
  -- `_restart_stream`; `none` is a normal return.
  unfoldable pub restart_stream : ℕ → Option DecodeError × DecoderState Frame
  restart_stream chunk_index =
      let context_start = chunk_index * chunk_size - overlap_frames in
      let remaining_frames = c.metadata.frame_count - context_start in
      if remaining_frames == 0
      then (some index_outside, closed)
      else elim (ffmpeg.launch context_start remaining_frames) [
        | none ↦ (some could_not_start, closed)
        | some out ↦ (
          none,
          record { process = some out; next_chunk_index = some chunk_index; previous_tail = none },
        )
      ]

  -- The batch that `decode_batch` returns.
  abbrev pub batch_with : ℕ → List Frame → Bool → DecodedBatch Frame
  batch_with chunk_index frames is_last =
      let valid_start = chunk_index * chunk_size in
      let valid_end_exclusive = min (valid_start + chunk_size) c.metadata.frame_count in
      record {
        chunk_index = chunk_index;
        context_start_frame = valid_start - overlap_frames;
        context_end_frame = valid_end_exclusive - 1;
        valid_start_frame = valid_start;
        valid_end_frame = valid_end_exclusive - 1;
        frames_rgb = frames;
        is_last = is_last;
      }

  -- `self._previous_tail` after the frames of a batch.
  abbrev pub tail_of : List Frame → Option (List Frame)
  tail_of frames =
      if overlap_frames == 0
      then none
      else some (tail_frames (min overlap_frames (length frames)) frames)

  -- The end of `decode_batch`, with the frames that have been read and the rest of the process: the
  -- last batch waits for FFmpeg's exit.
  unfoldable pub finish_with :
      ℕ → List Frame → List Frame → Bool → Decoded (DecodedBatch Frame) × DecoderState Frame
  finish_with chunk_index frames rest true = elim ffmpeg.stop_error [
    | none ↦ (decoded (batch_with chunk_index frames true), closed)
    | some e ↦ (raised e, closed)
  ]
  finish_with chunk_index frames rest false = (
    decoded (batch_with chunk_index frames false),
    record {
      process = some rest;
      next_chunk_index = some (chunk_index + 1);
      previous_tail = tail_of frames;
    },
  )

  unfoldable pub finish_batch :
      ℕ → List Frame → List Frame → Decoded (DecodedBatch Frame) × DecoderState Frame
  unfolding finish_with
  finish_batch chunk_index frames rest =
      let valid_end_exclusive =
        min (chunk_index * chunk_size + chunk_size) c.metadata.frame_count in
      finish_with chunk_index frames rest (valid_end_exclusive == c.metadata.frame_count)

  -- `_read_frames_into` for what follows `prefix`, and the rest of `decode_batch`.
  unfoldable pub read_batch :
      ℕ → List Frame → ℕ → DecoderState Frame → Decoded (DecodedBatch Frame) × DecoderState Frame
  unfolding finish_batch
  read_batch chunk_index prefix frames_to_read st =
      let valid_start = chunk_index * chunk_size in
      let valid_end_exclusive = min (valid_start + chunk_size) c.metadata.frame_count in
      let context_frame_count = valid_end_exclusive - (valid_start - overlap_frames) in
      if not (context_frame_count - length prefix == frames_to_read)
      then (raised buffer_mismatch, st)
      else elim st.process [
        | none ↦ (raised not_running, st)
        | some out ↦
            if ltb (length out) frames_to_read
            then (raised ended_early, record st { process = some [] })
            else finish_batch chunk_index (prefix ++ take frames_to_read out)
                (drop frames_to_read out)
      ]

  -- `decode_batch` after the process has been seen to.
  unfoldable pub decode_chunk :
      ℕ → DecoderState Frame → Decoded (DecodedBatch Frame) × DecoderState Frame
  unfolding read_batch
  decode_chunk chunk_index st =
      let valid_start = chunk_index * chunk_size in
      let valid_end_exclusive = min (valid_start + chunk_size) c.metadata.frame_count in
      let context_start = valid_start - overlap_frames in
      elim st.previous_tail [
        | none ↦ read_batch chunk_index [] (valid_end_exclusive - context_start) st
        | some tail ↦
            if length tail == valid_start - context_start
            then read_batch chunk_index tail (valid_end_exclusive - valid_start) st
            else (raised overlap_mismatch, st)
      ]

  unfoldable pub after_restart :
      ℕ
      → Option DecodeError × DecoderState Frame
      → Decoded (DecodedBatch Frame) × DecoderState Frame
  unfolding decode_chunk
  after_restart chunk_index (none, st) = decode_chunk chunk_index st
  after_restart chunk_index (some e, st) = (raised e, st)

  unfoldable pub restart_and_decode : ℕ → Decoded (DecodedBatch Frame) × DecoderState Frame
  restart_and_decode chunk_index = after_restart chunk_index (restart_stream chunk_index)

  unfoldable pub decode_with :
      ℕ → DecoderState Frame → Decoded (DecodedBatch Frame) × DecoderState Frame
  unfolding must_restart restart_and_decode decode_chunk
  decode_with chunk_index st =
      if leb (total_chunks c chunk_size) chunk_index
      then (raised index_outside, st)
      else if must_restart st chunk_index
      then restart_and_decode chunk_index
      else decode_chunk chunk_index st

  -- What `batches` has yielded after a step and the rest; an exception ends it.
  unfoldable pub yield_then :
      Decoded (DecodedBatch Frame)
      → Decoded (List (DecodedBatch Frame)) × DecoderState Frame
      → Decoded (List (DecodedBatch Frame)) × DecoderState Frame
  yield_then (raised e) rest = (raised e, closed)
  yield_then (decoded batch) (raised e, st) = (raised e, st)
  yield_then (decoded batch) (decoded batches, st) = (decoded (batch ∷ batches), st)

  -- `for chunk_index in range(...)` of `batches`: so many batches from the index on, and `close` in
  -- any case.
  unfoldable pub batches_from :
      ℕ → ℕ → DecoderState Frame → Decoded (List (DecodedBatch Frame)) × DecoderState Frame
  unfolding yield_then
  batches_from zero chunk_index st = (decoded [], closed)
  batches_from (suc left) chunk_index st =
      let (result, st') = decode_with chunk_index st in
      yield_then result (batches_from left (suc chunk_index) st')

module _ {Frame : Type 0} (ffmpeg : Ffmpeg Frame) (c : DecoderConfig) where
  unfoldable pub decode_chosen :
      ℕ → DecoderState Frame → Decoded (ℕ × ℕ) → Decoded (DecodedBatch Frame) × DecoderState Frame
  decode_chosen chunk_index st (raised e) = (raised e, st)
  decode_chosen chunk_index st (decoded (chunk_size, overlap_frames)) =
      decode_with ffmpeg c chunk_size overlap_frames chunk_index st

  unfoldable pub decode_batch :
      ℕ → DecoderState Frame → Decoded (DecodedBatch Frame) × DecoderState Frame
  unfolding decode_chosen
  decode_batch chunk_index st = decode_chosen chunk_index st (effective_chunking c)

  unfoldable pub batches_chosen :
      ℕ
      → DecoderState Frame
      → Decoded (ℕ × ℕ)
      → Decoded (List (DecodedBatch Frame)) × DecoderState Frame
  batches_chosen start_chunk st (raised e) = (raised e, closed)
  batches_chosen start_chunk st (decoded (chunk_size, overlap_frames)) =
      batches_from ffmpeg c chunk_size overlap_frames (total_chunks c chunk_size - start_chunk)
        start_chunk st

  unfoldable pub batches :
      ℕ → DecoderState Frame → Decoded (List (DecodedBatch Frame)) × DecoderState Frame
  unfolding batches_chosen
  batches start_chunk st = batches_chosen start_chunk st (effective_chunking c)
