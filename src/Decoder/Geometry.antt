-- ===== src/Decoder/Geometry.antt =====
-- The chunk size and the overlap: what `_effective_chunking` guarantees, and how the chunks cover
-- the frames.
use native.Mathlib.Nat.{le-div_iff_mul-le}
use cv_video_analysis.Common.{
  sym, ◌∙◌, refl, ltb, Bool-cases, inr, inl, Option-cases, ◌⊎◌, ◌-◌, ◌↔◌, some, ℕ, ◌+◌, ◌*◌, ◌/◌,
  ◌≤◌, ◌<◌, ◌≡◌, max, none, arith,
}
use cv_video_analysis.Decoder.{
  decoded, frame_exceeds_limit, raised, bytes_per_rgb_frame, total_chunks, effective_chunking,
  DecoderConfig, init_error, chunking_within,
}

-- A decoder that its constructor accepts.
abbrev pub IsAccepted : DecoderConfig → Type 0
IsAccepted c = init_error c ≡ none

accepted_sizes :
    (c : DecoderConfig) → IsAccepted c → (0 < c.chunk_size) × (c.overlap_frames < c.chunk_size)
unfolding init_error
accepted_sizes c h = ground arith

within_bounds :
    (c : DecoderConfig) (n : ℕ)
    → 0 < n
    → 0 < c.chunk_size
    → c.overlap_frames < c.chunk_size
    → let (chunk, overlap) = chunking_within c n in
      (0 < chunk)
      × (overlap < chunk)
      × (chunk ≤ c.chunk_size)
      × (overlap ≤ c.overlap_frames)
      × (chunk + overlap ≤ n)
unfolding chunking_within
within_bounds c n pos size over = ground arith

-- Enough frames fit.
fit :
    (bytes limit n : ℕ)
    → 0 < bytes
    → bytes ≤ limit
    → n ≤ max 1 (limit / max bytes 1)
    → n * bytes ≤ limit
fit bytes limit n pos enough few =
    let same : max bytes 1 ≡ bytes = omega arith in
    let one : 1 ≤ limit / bytes =
      (le-div_iff_mul-le {k = bytes} {x = 1} {y = limit} pos).1 (omega arith) in
    let low : n ≤ limit / bytes = omega (arith, rw same at few) in
    (le-div_iff_mul-le {k = bytes} {x = n} {y = limit} pos).0 low

-- What a chunk size and an overlap have to meet.
pub record Fits (c : DecoderConfig) (chunk_size overlap_frames : ℕ) : Type 0 where
  pub some_frames : 0 < chunk_size
  pub overlap_lt : overlap_frames < chunk_size
  pub chunk_le : chunk_size ≤ c.chunk_size
  pub overlap_le : overlap_frames ≤ c.overlap_frames
  pub bytes_le :
      (limit : ℕ)
      → c.max_decoded_chunk_bytes ≡ some limit
      → (chunk_size + overlap_frames) * bytes_per_rgb_frame c ≤ limit

chunking_within-Fits :
    (c : DecoderConfig) (limit : ℕ)
    → IsAccepted c
    → 0 < bytes_per_rgb_frame c
    → c.max_decoded_chunk_bytes ≡ some limit
    → bytes_per_rgb_frame c ≤ limit
    → let (chunk_size, overlap_frames) =
        chunking_within c (max 1 (limit / max (bytes_per_rgb_frame c) 1)) in
      Fits c chunk_size overlap_frames
chunking_within-Fits c limit ok pos known enough =
    let n = max 1 (limit / max (bytes_per_rgb_frame c) 1) in
    let sizes = accepted_sizes c ok in
    let (some_frames, overlap_lt, chunk_le, overlap_le, sum) =
      within_bounds c n (omega arith) sizes.0 sizes.1 in
    record {
      some_frames = some_frames;
      overlap_lt = overlap_lt;
      chunk_le = chunk_le;
      overlap_le = overlap_le;
      bytes_le = λ l e.
          let same : limit ≡ l = cc in
          rw (← same) (fit (bytes_per_rgb_frame c) limit _ pos enough sum);
    }

-- For a decoder that its constructor accepts and frames of at least one byte, the effective
-- chunking is refused, which happens only if one frame exceeds the byte limit, or it has at least
-- one frame, an overlap below the chunk size, neither above the configured one, and chunk and
-- overlap together within the byte limit.
pub effective_chunking_lem :
    (c : DecoderConfig)
    → IsAccepted c
    → 0 < bytes_per_rgb_frame c
    → ((limit : ℕ) × (c.max_decoded_chunk_bytes ≡ some limit)
        × (limit < bytes_per_rgb_frame c)
        × (effective_chunking c ≡ raised frame_exceeds_limit))
      ⊎ ((chunk_size : ℕ) × (overlap_frames : ℕ) × (effective_chunking c
            ≡ decoded (chunk_size, overlap_frames))
          × Fits c chunk_size overlap_frames)
unfolding effective_chunking
effective_chunking_lem c ok pos = elim (Option-cases c.max_decoded_chunk_bytes) [
  | inl free ↦
      let sizes = accepted_sizes c ok in
      inr (
        c.chunk_size,
        c.overlap_frames,
        rw free refl,
        record {
          some_frames = sizes.0;
          overlap_lt = sizes.1;
          chunk_le = omega arith;
          overlap_le = omega arith;
          bytes_le = λ l e. absurd (ground (arith, e, free));
        },
      )
  | inr (limit, known) ↦ elim (Bool-cases (ltb limit (bytes_per_rgb_frame c))) [
    | inl big ↦ inl (limit, known, ground arith, rw (known, big) refl)
    | inr small ↦
        inr (_, _, rw (known, small) refl, chunking_within-Fits c limit ok pos known (ground arith))
  ]
]

pub effective_chunking-Fits :
    (c : DecoderConfig) (chunk_size overlap_frames : ℕ)
    → IsAccepted c
    → 0 < bytes_per_rgb_frame c
    → effective_chunking c ≡ decoded (chunk_size, overlap_frames)
    → Fits c chunk_size overlap_frames
effective_chunking-Fits c chunk_size overlap_frames ok pos chosen =
    elim (effective_chunking_lem c ok pos) [
      | inl (limit, known, big, refused) ↦
          let clash : decoded (chunk_size, overlap_frames) ≡ raised frame_exceeds_limit =
            sym chosen ∙ refused in
          absurd (ground (arith, clash))
      | inr (n, m, e, fits) ↦
          let same : decoded (n, m) ≡ decoded (chunk_size, overlap_frames) = sym e ∙ chosen in
          let first : n ≡ chunk_size = cc same in
          let second : m ≡ overlap_frames = cc same in rw (← first, ← second) fits
    ]

-- The chunks of an index below the total are those that start inside the video.
pub lt-total_chunks :
    (c : DecoderConfig) (chunk_size k : ℕ)
    → 0 < chunk_size
    → (k < total_chunks c chunk_size) ↔ (k * chunk_size < c.metadata.frame_count)
lt-total_chunks c chunk_size k pos =
    let (to, from) =
      le-div_iff_mul-le {k = chunk_size} {x = k + 1} {y = c.metadata.frame_count + chunk_size - 1}
        pos in
    (
      λ h. let big = to (omega arith) in omega (arith, big),
      λ h. let low = from (omega (arith, h)) in omega (arith, low),
    )
