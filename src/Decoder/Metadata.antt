-- ===== src/Decoder/Metadata.antt =====
-- What the ingest worker (backend/app/workers/ingest.py) makes of a decoded batch.
use cv_video_analysis.Common.{ℕ, ◌+◌, ◌-◌, ◌*◌, ◌≤◌, ◌<◌, ◌≡◌, none, some, List, arith, length}
use cv_video_analysis.Common.Texts.{Text}
use cv_video_analysis.Common.Slices.{length-slice}
use cv_video_analysis.Domain.Schemas.{FrameBatchMetadata, validate_batch, validate_frame_window}
use cv_video_analysis.Store.Keys.{chunk_id}
use cv_video_analysis.Decoder.{
  decoded, effective_chunking, DecoderConfig, DecodedBatch, VideoMetadata, bytes_per_rgb_frame,
  total_chunks,
}
use cv_video_analysis.Decoder.Geometry.{IsAccepted, effective_chunking-Fits, Fits, lt-total_chunks}
use cv_video_analysis.Decoder.Batches.{context_start, valid_end, batch_of}

mul_mono : (m n b : ℕ) → m ≤ n → m * b ≤ n * b
mul_mono m n b h = grind arith

-- `FrameBatchMetadata(...)` of `_process_task`.
unfoldable pub batch_metadata :
    {Frame : Type 0} → Text → Text → ℕ → VideoMetadata → DecodedBatch Frame → FrameBatchMetadata
batch_metadata task_id object_ref chunk_index metadata batch = record {
  task_id = task_id;
  chunk_id = chunk_id task_id chunk_index;
  chunk_index = batch.chunk_index;
  object_ref = object_ref;
  context_start_frame = batch.context_start_frame;
  context_end_frame = batch.context_end_frame;
  valid_start_frame = batch.valid_start_frame;
  valid_end_frame = batch.valid_end_frame;
  frame_count = length batch.frames_rgb;
  width = metadata.width;
  height = metadata.height;
  source_total_frames = metadata.frame_count;
  is_last = batch.is_last;
}

module _ {Frame : Type 0} (c : DecoderConfig) (chunk_size overlap_frames : ℕ) (video : List Frame)
    (accepted : IsAccepted c) (some_bytes : 0 < bytes_per_rgb_frame c)
    (chosen : effective_chunking c ≡ decoded (chunk_size, overlap_frames))
    (length_video : length video ≡ c.metadata.frame_count) (k : ℕ)
    (lt : k < total_chunks c chunk_size) where
  fits : Fits c chunk_size overlap_frames
  fits = effective_chunking-Fits c chunk_size overlap_frames accepted some_bytes chosen

  abbrev batch : DecodedBatch Frame
  batch = batch_of c chunk_size overlap_frames video k

  length-batch :
      length batch.frames_rgb
      ≡ valid_end c chunk_size overlap_frames video k
        - context_start c chunk_size overlap_frames video k
  length-batch =
      length-slice (context_start c chunk_size overlap_frames video k)
        (valid_end c chunk_size overlap_frames video k) video (omega (arith, length_video))

  -- For an accepted decoder with frames of at least one byte and the chunking chosen for it, the
  -- metadata that ingest makes of the batch of any chunk pass the validation of
  -- FrameBatchMetadata.
  pub batch_metadata_valid :
      (task_id object_ref : Text)
      → validate_batch (
          batch_metadata task_id object_ref k c.metadata
            (batch_of c chunk_size overlap_frames video k))
        ≡ none
  unfolding validate_batch validate_frame_window batch_metadata
  batch_metadata_valid task_id object_ref =
      let inside = (lt-total_chunks c chunk_size k fits.some_frames).0 lt in
      ground (arith, length-batch, inside, fits.some_frames)

  -- For an accepted decoder with frames of at least one byte, the chunking chosen for it and a
  -- byte limit, the frames of the batch of any chunk take no more bytes than the limit.
  pub batch_bytes_le :
      (limit : ℕ)
      → c.max_decoded_chunk_bytes ≡ some limit
      → length (batch_of c chunk_size overlap_frames video k).frames_rgb * bytes_per_rgb_frame c
        ≤ limit
  batch_bytes_le limit known =
      let few : length batch.frames_rgb ≤ chunk_size + overlap_frames =
        omega (arith, length-batch) in
      let all = fits.bytes_le limit known in
      omega (arith, mul_mono _ _ (bytes_per_rgb_frame c) few, all)
