-- ===== src/Decoder/Video.antt =====
-- `decode_batch` and `batches` of a decoder that its constructor accepts, as the ingest worker uses
-- them.
use mathlib.Core.List.{map}
use cv_video_analysis.Common.{
  ℕ, zero, suc, ◌+◌, ◌-◌, ◌*◌, ◌≤◌, ◌<◌, ◌≡◌, refl, sym, ap, ◌∙◌, true, List, [], ◌∷◌, ◌++◌, arith,
  length, drop, leb, Bool-cases, inl, inr, range_from, length-map,
}
use cv_video_analysis.Common.Slices.{slice, drop-slice, drop_all, slice_append_drop}
use cv_video_analysis.Decoder.{
  bytes_per_rgb_frame, DecoderConfig, Ffmpeg, DecoderState, DecodedBatch, decoded, raised,
  index_outside, total_chunks, closed, decode_with, batches_from, decode_batch, batches,
  decode_chosen, batches_chosen, yield_then, effective_chunking,
}
use cv_video_analysis.Decoder.Geometry.{IsAccepted, effective_chunking-Fits, lt-total_chunks, Fits}
use cv_video_analysis.Decoder.Batches.{
  context_start, valid_end, batch_of, Aligned, Plays, decode_with_lem,
}

-- The frames of a batch that are no context.
abbrev pub valid_frames : {Frame : Type 0} → DecodedBatch Frame → List Frame
valid_frames b = drop (b.valid_start_frame - b.context_start_frame) b.frames_rgb

abbrev pub all_valid_frames : {Frame : Type 0} → List (DecodedBatch Frame) → List Frame
all_valid_frames [] = []
all_valid_frames (b ∷ bs) = valid_frames b ++ all_valid_frames bs

length-range_from : (k n : ℕ) → length (range_from k n) ≡ n
length-range_from k zero = refl
length-range_from k (suc n) = ap suc (length-range_from (suc k) n)

module _ {Frame : Type 0} (c : DecoderConfig) (chunk_size overlap_frames : ℕ) (video : List Frame)
    (ffmpeg : Ffmpeg Frame) (accepted : IsAccepted c) (some_bytes : 0 < bytes_per_rgb_frame c)
    (plays : Plays c chunk_size overlap_frames video ffmpeg)
    (chosen : effective_chunking c ≡ decoded (chunk_size, overlap_frames)) where
  abbrev wanted : ℕ → DecodedBatch Frame
  wanted = batch_of c chunk_size overlap_frames video

  fits : Fits c chunk_size overlap_frames
  fits = effective_chunking-Fits c chunk_size overlap_frames accepted some_bytes chosen

  decode_batch_chosen :
      (k : ℕ) (st : DecoderState Frame)
      → decode_batch ffmpeg c k st ≡ decode_with ffmpeg c chunk_size overlap_frames k st
  unfolding decode_batch decode_chosen
  decode_batch_chosen k st = ap (decode_chosen ffmpeg c k st) chosen

  decode_with_outside :
      (k : ℕ) (st : DecoderState Frame)
      → total_chunks c chunk_size ≤ k
      → decode_with ffmpeg c chunk_size overlap_frames k st ≡ (raised index_outside, st)
  unfolding decode_with
  decode_with_outside k st le =
      let outside : leb (total_chunks c chunk_size) k ≡ true = ground arith in rw outside refl

  -- Under the same assumptions, decode_batch of any chunk of the video returns that chunk's frames
  -- with its context, marks exactly the last chunk, and leaves a state from which this holds
  -- again, whatever was decoded before; for an index past the chunks it raises IndexError and
  -- changes nothing.
  pub decode_batch_lem :
      (k : ℕ) (st : DecoderState Frame)
      → Aligned c chunk_size overlap_frames video st
      → let (result, st') = decode_batch ffmpeg c k st in
        (k < total_chunks c chunk_size
          → (result ≡ decoded (batch_of c chunk_size overlap_frames video k))
            × Aligned c chunk_size overlap_frames video st')
        × (total_chunks c chunk_size ≤ k → (result ≡ raised index_outside) × (st' ≡ st))
  decode_batch_lem k st aligned = rw (decode_batch_chosen k st) (
    λ lt.
        decode_with_lem c chunk_size overlap_frames video ffmpeg fits.some_frames fits.overlap_lt
          plays k st lt aligned,
    λ le. rw (decode_with_outside k st le) (refl, refl),
  )

  batches_from_lem :
      (n k : ℕ) (st : DecoderState Frame)
      → k + n ≤ total_chunks c chunk_size
      → Aligned c chunk_size overlap_frames video st
      → batches_from ffmpeg c chunk_size overlap_frames n k st
        ≡ (decoded (map wanted (range_from k n)), closed)
  unfolding batches_from yield_then
  batches_from_lem zero k st le aligned = refl
  batches_from_lem (suc n) k st le aligned =
      let step =
        decode_with_lem c chunk_size overlap_frames video ffmpeg fits.some_frames fits.overlap_lt
          plays k st (omega arith) aligned in
      let rest =
        batches_from_lem n (suc k) (decode_with ffmpeg c chunk_size overlap_frames k st).1
          (omega arith) step.1 in
      rw (batches_from, step.0, rest) refl

  valid_frames_lem :
      (k : ℕ)
      → k * chunk_size < c.metadata.frame_count
      → valid_frames (wanted k)
        ≡ slice (k * chunk_size) (valid_end c chunk_size overlap_frames video k) video
  valid_frames_lem k inside =
      drop-slice (context_start c chunk_size overlap_frames video k) (k * chunk_size)
        (valid_end c chunk_size overlap_frames video k) video (omega arith)
        (omega (arith, fits.some_frames))

  -- Past the end of the video there is nothing.
  drop_next :
      (k : ℕ)
      → drop (suc k * chunk_size) video ≡ drop (valid_end c chunk_size overlap_frames video k) video
  drop_next k = elim (Bool-cases (leb (suc k * chunk_size) c.metadata.frame_count)) [
    | inl within ↦
        let le : suc k * chunk_size ≤ c.metadata.frame_count = ground arith in
        ap (λ n. drop n video) (omega arith)
    | inr past ↦
        let gt : c.metadata.frame_count < suc k * chunk_size = ground arith in
        drop_all (suc k * chunk_size) video (omega (arith, plays.length_video))
        ∙ sym (
            drop_all (valid_end c chunk_size overlap_frames video k) video
              (omega (arith, plays.length_video)))
  ]

  all_valid_frames_lem :
      (n k : ℕ)
      → k + n ≡ total_chunks c chunk_size
      → all_valid_frames (map wanted (range_from k n)) ≡ drop (k * chunk_size) video
  all_valid_frames_lem zero k e =
      let past = lt-total_chunks c chunk_size k fits.some_frames in
      let end : c.metadata.frame_count ≤ k * chunk_size = ground (arith, past) in
      sym (drop_all (k * chunk_size) video (omega (arith, plays.length_video)))
  all_valid_frames_lem (suc n) k e =
      let end = valid_end c chunk_size overlap_frames video k in
      let inside = (lt-total_chunks c chunk_size k fits.some_frames).0 (omega arith) in
      let rest = all_valid_frames_lem n (suc k) (omega arith) in
      rw (valid_frames_lem k inside, rest, drop_next k)
        (slice_append_drop (k * chunk_size) end video (omega arith))

  -- For a decoder that its constructor accepts, with frames of at least one byte and a chunk size
  -- and an overlap that were chosen for it, if FFmpeg writes the frames it is asked for and exits
  -- without an error, and the state is one that decoding leaves, then batches from a chunk on
  -- yields one batch for each chunk that is left, whose frames without their context are together
  -- exactly the frames of the video from that chunk on, and closes the process.
  pub batches_lem :
      (start : ℕ) (st : DecoderState Frame)
      → start ≤ total_chunks c chunk_size
      → Aligned c chunk_size overlap_frames video st
      → (bs : List (DecodedBatch Frame)) × (batches ffmpeg c start st ≡ (decoded bs, closed))
        × (length bs ≡ total_chunks c chunk_size - start)
        × (all_valid_frames bs ≡ drop (start * chunk_size) video)
  unfolding batches batches_chosen
  batches_lem start st le aligned =
      let n = total_chunks c chunk_size - start in
      (
        map wanted (range_from start n),
        ap (batches_chosen ffmpeg c start st) chosen
            ∙ batches_from_lem n start st (omega arith) aligned,
        length-map wanted (range_from start n) ∙ length-range_from start n,
        all_valid_frames_lem n start (omega arith),
      )
