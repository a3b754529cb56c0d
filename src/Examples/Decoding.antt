-- ===== src/Examples/Decoding.antt =====
-- The decoder at a video of seven frames, numbered 0 to 6, in chunks of three with an overlap of one.
use cv_video_analysis.Common.{
  ℕ, ◌-◌, ◌≤◌, ◌<◌, ◌≡◌, ◌⊎◌, refl, none, some, List, [], ◌∷◌, length, take, drop, arith,
}
use cv_video_analysis.Domain.Schemas.{validate_batch}
use cv_video_analysis.Decoder.{
  DecoderConfig, Ffmpeg, DecodedBatch, decoded, raised, index_outside, frame_exceeds_limit,
  total_chunks, closed, decode_batch, batches, effective_chunking, chunking_within,
  bytes_per_rgb_frame, init_error,
}
use cv_video_analysis.Decoder.Geometry.{Fits, IsAccepted, effective_chunking_lem}
use cv_video_analysis.Decoder.Batches.{batch_of, Aligned, idle, Plays}
use cv_video_analysis.Decoder.Video.{decode_batch_lem, batches_lem, all_valid_frames}
use cv_video_analysis.Decoder.Metadata.{batch_metadata, batch_metadata_valid}
use cv_video_analysis.Examples.{task}

abbrev config : DecoderConfig
config = record {
  chunk_size = 3;
  overlap_frames = 1;
  max_decoded_chunk_bytes = some 100;
  metadata = record { frame_count = 7; width = 2; height = 2 };
}

abbrev video : List ℕ
video = 0 ∷ 1 ∷ 2 ∷ 3 ∷ 4 ∷ 5 ∷ 6 ∷ []

abbrev ffmpeg : Ffmpeg ℕ
ffmpeg = record { launch = λ s n. some (take n (drop s video)); stop_error = none }

plays : Plays config 3 1 video ffmpeg
plays = record { length_video = refl; launches = λ s n. refl; stops = refl }

chosen : effective_chunking config ≡ decoded (3, 1)
unfolding effective_chunking chunking_within
chosen = refl

accepted : IsAccepted config
unfolding init_error
accepted = refl

effective_chunking_lem_example :
    ((limit : ℕ) × (config.max_decoded_chunk_bytes ≡ some limit)
      × (limit < bytes_per_rgb_frame config)
      × (effective_chunking config ≡ raised frame_exceeds_limit))
    ⊎ ((chunk_size : ℕ) × (overlap_frames : ℕ) × (effective_chunking config
          ≡ decoded (chunk_size, overlap_frames))
        × Fits config chunk_size overlap_frames)
effective_chunking_lem_example = effective_chunking_lem config accepted (omega arith)

decode_batch_lem_example :
    let (result, st') = decode_batch ffmpeg config 1 closed in
    (1 < total_chunks config 3
      → (result ≡ decoded (batch_of config 3 1 video 1)) × Aligned config 3 1 video st')
    × (total_chunks config 3 ≤ 1 → (result ≡ raised index_outside) × (st' ≡ closed))
decode_batch_lem_example =
    decode_batch_lem config 3 1 video ffmpeg accepted (omega arith) plays chosen 1 closed
      (idle refl)

batches_lem_example :
    (bs : List (DecodedBatch ℕ)) × (batches ffmpeg config 0 closed ≡ (decoded bs, closed))
    × (length bs ≡ total_chunks config 3 - 0)
    × (all_valid_frames bs ≡ video)
batches_lem_example =
    batches_lem config 3 1 video ffmpeg accepted (omega arith) plays chosen 0 closed (omega arith)
      (idle refl)

batch_metadata_valid_example :
    validate_batch (batch_metadata task [] 2 config.metadata (batch_of config 3 1 video 2)) ≡ none
batch_metadata_valid_example =
    batch_metadata_valid config 3 1 video accepted (omega arith) chosen refl 2 (omega arith) task []
