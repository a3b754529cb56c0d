-- ===== src/Decoder/Batches.antt =====
-- `decode_batch` cuts every chunk out of the video, whatever was decoded before.
use cv_video_analysis.Common.{
  ℕ, ◌+◌, ◌-◌, ◌*◌, ◌≤◌, ◌<◌, ◌≡◌, ◌≢◌, refl, ap, ◌∙◌, min, Bool, true, false, none, some, List, [],
  arith, length, take, drop, ltb, leb, ◌==◌, ==_iff, Bool-cases, inl, inr,
}
use cv_video_analysis.Common.Slices.{
  slice, length-slice, slice_append, drop-slice, length-drop, drop-drop, take_all,
}
use cv_video_analysis.Decoder.{
  DecoderConfig, Ffmpeg, DecoderState, DecodedBatch, Decoded, decoded, total_chunks, must_restart,
  tail_frames, restart_stream, finish_batch, finish_with, read_batch, decode_chunk,
  restart_and_decode, after_restart, decode_with,
}
use cv_video_analysis.Decoder.Geometry.{lt-total_chunks}

module _ {Frame : Type 0} (c : DecoderConfig) (chunk_size overlap_frames : ℕ)
    (video : List Frame) where
  abbrev pub context_start : ℕ → ℕ
  context_start k = k * chunk_size - overlap_frames

  abbrev pub valid_end : ℕ → ℕ
  valid_end k = min (k * chunk_size + chunk_size) c.metadata.frame_count

  -- The batch that chunk `k` should be.
  abbrev pub batch_of : ℕ → DecodedBatch Frame
  batch_of k = record {
    chunk_index = k;
    context_start_frame = context_start k;
    context_end_frame = valid_end k - 1;
    valid_start_frame = k * chunk_size;
    valid_end_frame = valid_end k - 1;
    frames_rgb = slice (context_start k) (valid_end k) video;
    is_last = k + 1 == total_chunks c chunk_size;
  }

  -- A decoder that has been started for chunk `k`, and one that has decoded up to it with its tail.
  abbrev pub fresh_at : ℕ → DecoderState Frame
  fresh_at k = record {
    process = some (drop (context_start k) video);
    next_chunk_index = some k;
    previous_tail = none;
  }

  abbrev pub running_at : ℕ → DecoderState Frame
  running_at k = record {
    process = some (drop (k * chunk_size) video);
    next_chunk_index = some k;
    previous_tail = some (slice (context_start k) (k * chunk_size) video);
  }

  -- Where the process of a decoder stands in the video.
  pub data Aligned (st : DecoderState Frame) : Type 0 where
    idle : st.process ≡ none → Aligned st
    fresh : (k : ℕ) → st ≡ fresh_at k → Aligned st
    running : (k : ℕ) → st ≡ running_at k → Aligned st

  -- What is assumed of FFmpeg, and of the sizes.
  pub record Plays (ffmpeg : Ffmpeg Frame) : Type 0 where
    pub length_video : length video ≡ c.metadata.frame_count
    pub launches : (s n : ℕ) → ffmpeg.launch s n ≡ some (take n (drop s video))
    pub stops : ffmpeg.stop_error ≡ none

module _ {Frame : Type 0} (c : DecoderConfig) (chunk_size overlap_frames : ℕ) (video : List Frame)
    (ffmpeg : Ffmpeg Frame) (pos : 0 < chunk_size) (over : overlap_frames < chunk_size)
    (plays : Plays c chunk_size overlap_frames video ffmpeg) where
  abbrev start_of : ℕ → ℕ
  start_of = context_start c chunk_size overlap_frames video

  abbrev end_of : ℕ → ℕ
  end_of = valid_end c chunk_size overlap_frames video

  abbrev Good : ℕ → Decoded (DecodedBatch Frame) × DecoderState Frame → Type 0
  Good k (result, st) =
      (result ≡ decoded (batch_of c chunk_size overlap_frames video k))
      × Aligned c chunk_size overlap_frames video st

  last_iff :
      (k : ℕ)
      → k * chunk_size < c.metadata.frame_count
      → (end_of k == c.metadata.frame_count) ≡ (k + 1 == total_chunks c chunk_size)
  last_iff k inside =
      let next : (k + 1) * chunk_size ≡ k * chunk_size + chunk_size = omega arith in
      let more = lt-total_chunks c chunk_size (k + 1) pos in
      ground (arith, lt-total_chunks c chunk_size k pos, rw next at more)

  tail_next :
      (k : ℕ)
      → (k + 1) * chunk_size ≤ c.metadata.frame_count
      → 0 < overlap_frames
      → let frames = slice (start_of k) ((k + 1) * chunk_size) video in
        tail_frames (min overlap_frames (length frames)) frames
        ≡ slice (start_of (k + 1)) ((k + 1) * chunk_size) video
  tail_next k inside some_overlap =
      let next : (k + 1) * chunk_size ≡ k * chunk_size + chunk_size = omega arith in
      let e = (k + 1) * chunk_size in
      let frames = slice (start_of k) e video in
      let size : length frames ≡ e - start_of k =
        length-slice (start_of k) e video (omega (arith, plays.length_video)) in
      let skip : length frames - min overlap_frames (length frames)
          ≡ start_of (k + 1) - start_of k =
        omega arith in
      rw skip (drop-slice (start_of k) (start_of (k + 1)) e video (omega arith) (omega arith))

  finish_with-Good :
      (k : ℕ) (last : Bool)
      → (last ≡ false → end_of k ≡ (k + 1) * chunk_size)
      → let (result, st) =
          finish_with ffmpeg c chunk_size overlap_frames k
            (slice (start_of k) (end_of k) video)
            (drop (end_of k) video)
            last in
        (result
          ≡ decoded (record (batch_of c chunk_size overlap_frames video k) { is_last = last }))
        × Aligned c chunk_size overlap_frames video st
  unfolding finish_with
  finish_with-Good k true full = rw plays.stops (refl, idle refl)
  finish_with-Good k false full = rw (full refl) (elim (Bool-cases (overlap_frames == 0)) [
    | inl none_kept ↦
        let zero_overlap : overlap_frames ≡ 0 = ground arith in
        let same : (k + 1) * chunk_size ≡ start_of (k + 1) = omega arith in
        rw none_kept (
          refl,
          fresh (k + 1) (
              ap
                (λ n. record {
                  process = some (drop n video);
                  next_chunk_index = some (k + 1);
                  previous_tail = none;
                })
                same),
        )
    | inr kept ↦
        let inside : (k + 1) * chunk_size ≤ c.metadata.frame_count = omega (arith, full refl) in
        let tail = tail_next k inside (ground arith) in
        rw kept (
          refl,
          running (k + 1) (
              ap
                (λ l. record {
                  process = some (drop ((k + 1) * chunk_size) video);
                  next_chunk_index = some (k + 1);
                  previous_tail = some l;
                })
                tail),
        )
  ])

  finish_batch-Good :
      (k : ℕ)
      → k * chunk_size < c.metadata.frame_count
      → Good k (
          finish_batch ffmpeg c chunk_size overlap_frames k
            (slice (start_of k) (end_of k) video)
            (drop (end_of k) video))
  unfolding finish_batch
  finish_batch-Good k inside = rw (last_iff k inside) (
      finish_with-Good k (k + 1 == total_chunks c chunk_size) (λ e.
        let open_end : (end_of k == c.metadata.frame_count) ≡ false = last_iff k inside ∙ e in
        let apart : end_of k ≢ c.metadata.frame_count = ground arith in omega (arith, apart)))

  -- The read of what is left of the chunk, after a prefix of its frames.
  read_batch-Good :
      (k at : ℕ) (st : DecoderState Frame)
      → k * chunk_size < c.metadata.frame_count
      → start_of k ≤ at
      → at ≤ end_of k
      → st.process ≡ some (drop at video)
      → Good k (
          read_batch ffmpeg c chunk_size overlap_frames k
            (slice (start_of k) at video)
            (end_of k - at)
            st)
  unfolding read_batch
  read_batch-Good k at st inside low high out =
      let size : length (slice (start_of k) at video) ≡ at - start_of k =
        length-slice (start_of k) at video (omega (arith, plays.length_video)) in
      let fits : (end_of k - start_of k - length (slice (start_of k) at video) == end_of k - at)
          ≡ true =
        ground (arith, size) in
      let enough : ltb (length (drop at video)) (end_of k - at) ≡ false =
        ground (arith, length-drop at video, plays.length_video) in
      let rest : drop (end_of k - at) (drop at video) ≡ drop (end_of k) video =
        let there : at + (end_of k - at) ≡ end_of k = omega arith in
        drop-drop (end_of k - at) at video ∙ ap (λ n. drop n video) there in
      rw (fits, out, enough, slice_append (start_of k) at (end_of k) video low high, rest)
        (finish_batch-Good k inside)

  abbrev fresh_state : ℕ → DecoderState Frame
  fresh_state = fresh_at c chunk_size overlap_frames video

  abbrev running_state : ℕ → DecoderState Frame
  running_state = running_at c chunk_size overlap_frames video

  decode_chunk_fresh :
      (k : ℕ)
      → k * chunk_size < c.metadata.frame_count
      → Good k (decode_chunk ffmpeg c chunk_size overlap_frames k (fresh_state k))
  unfolding decode_chunk
  decode_chunk_fresh k inside =
      let nothing : slice (start_of k) (start_of k) video ≡ [] =
        let zero_length : start_of k - start_of k ≡ 0 = omega arith in
        ap (λ n. take n (drop (start_of k) video)) zero_length in
      rw nothing at
        (read_batch-Good k (start_of k) (fresh_state k) inside (omega arith) (omega arith) refl)

  decode_chunk_running :
      (k : ℕ)
      → k * chunk_size < c.metadata.frame_count
      → Good k (decode_chunk ffmpeg c chunk_size overlap_frames k (running_state k))
  unfolding decode_chunk
  decode_chunk_running k inside =
      let size : length (slice (start_of k) (k * chunk_size) video) ≡ k * chunk_size - start_of k =
        length-slice (start_of k) (k * chunk_size) video (omega (arith, plays.length_video)) in
      let fits : (length (slice (start_of k) (k * chunk_size) video) == k * chunk_size - start_of k)
          ≡ true =
        ground (arith, size) in
      rw fits (
        read_batch-Good k (k * chunk_size) (running_state k) inside (omega arith) (omega arith)
          refl)

  restart_stream_lem :
      (k : ℕ)
      → k * chunk_size < c.metadata.frame_count
      → restart_stream ffmpeg c chunk_size overlap_frames k ≡ (none, fresh_state k)
  unfolding restart_stream
  restart_stream_lem k inside =
      let some_left : (c.metadata.frame_count - start_of k == 0) ≡ false = ground arith in
      let all : take (c.metadata.frame_count - start_of k) (drop (start_of k) video)
          ≡ drop (start_of k) video =
        take_all _ _ (omega (arith, length-drop (start_of k) video, plays.length_video)) in
      rw (some_left, plays.launches, all) refl

  restart_and_decode-Good :
      (k : ℕ)
      → k * chunk_size < c.metadata.frame_count
      → Good k (restart_and_decode ffmpeg c chunk_size overlap_frames k)
  unfolding restart_and_decode after_restart
  restart_and_decode-Good k inside =
      rw (restart_stream_lem k inside, after_restart) (decode_chunk_fresh k inside)

  decode_with_restart :
      (k : ℕ) (st : DecoderState Frame)
      → k < total_chunks c chunk_size
      → must_restart st k ≡ true
      → Good k (decode_with ffmpeg c chunk_size overlap_frames k st)
  unfolding decode_with
  decode_with_restart k st lt must =
      let known : leb (total_chunks c chunk_size) k ≡ false = ground arith in
      rw (known, must) (restart_and_decode-Good k ((lt-total_chunks c chunk_size k pos).0 lt))

  decode_with_go_on :
      (k : ℕ) (st : DecoderState Frame)
      → k < total_chunks c chunk_size
      → must_restart st k ≡ false
      → decode_with ffmpeg c chunk_size overlap_frames k st
        ≡ decode_chunk ffmpeg c chunk_size overlap_frames k st
  unfolding decode_with
  decode_with_go_on k st lt stay =
      let known : leb (total_chunks c chunk_size) k ≡ false = ground arith in rw (known, stay) refl

  -- Whatever chunk was decoded before, a chunk of the video is decoded to its own frames.
  pub decode_with_lem :
      (k : ℕ) (st : DecoderState Frame)
      → k < total_chunks c chunk_size
      → Aligned c chunk_size overlap_frames video st
      → let (result, st') = decode_with ffmpeg c chunk_size overlap_frames k st in
        (result ≡ decoded (batch_of c chunk_size overlap_frames video k))
        × Aligned c chunk_size overlap_frames video st'
  unfolding must_restart
  decode_with_lem k st lt (idle stopped) = decode_with_restart k st lt (rw stopped refl)
  decode_with_lem k st lt (fresh j at_state) = elim (Bool-cases (j == k)) [
    | inl same ↦
        let e : j ≡ k = (==_iff j k).0 same in
        let inside = (lt-total_chunks c chunk_size k pos).0 lt in
        let self : (k == k) ≡ true = ground arith in
        rw (at_state, e)
          (rw (decode_with_go_on k (fresh_state k) lt (rw self refl)) (decode_chunk_fresh k inside))
    | inr apart ↦ decode_with_restart k st lt (rw (at_state, apart) refl)
  ]
  decode_with_lem k st lt (running j at_state) = elim (Bool-cases (j == k)) [
    | inl same ↦
        let e : j ≡ k = (==_iff j k).0 same in
        let inside = (lt-total_chunks c chunk_size k pos).0 lt in
        let self : (k == k) ≡ true = ground arith in
        rw (at_state, e)
          (rw (decode_with_go_on k (running_state k) lt (rw self refl))
            (decode_chunk_running k inside))
    | inr apart ↦ decode_with_restart k st lt (rw (at_state, apart) refl)
  ]
