-- ===== src/Archive/Sizes.antt =====
-- What the extraction in backend/app/services/archive_upload_service.py promises of the sizes.
use cv_video_analysis.Archive.{
  video_limit, passed, ArchiveError, passed, archive_limit, Member, ArchiveSettings, TextLibrary,
}
use cv_video_analysis.Archive.Members.{
  Candidate, Collected, validate_archive_structure, collect_candidates,
}
use cv_video_analysis.Archive.Admission.{Ok, Ok-bind, Ok-unless, Ok-mono, Ok-passed}
use cv_video_analysis.Archive.Extraction.{
  copy_chunks, ExtractedVideo, save_archive, extract_video_member, extract_all, total_size,
  validate_available_disk_space, extract_collected, extract_archive, some_videos, extract,
}
use cv_video_analysis.Common.{
  if◌then◌else◌, ℕ, ◌+◌, ◌≤◌, ◌<◌, ◌≡◌, refl, not, List, [], ◌∷◌, ltb, ◌==◌, arith, if_elim, length,
}
use cv_video_analysis.Domain.Floats.{Floats}

-- The bytes of a file: an empty chunk ends it.
abbrev pub bytes_of : List ℕ → ℕ
bytes_of [] = 0
bytes_of (chunk ∷ chunks) = if chunk == 0 then 0 else chunk + bytes_of chunks

abbrev IsCount : ℕ → ℕ → List ℕ → ℕ → Type 0
IsCount limit before chunks written = (written ≤ limit) × (written ≡ before + bytes_of chunks)

-- The limit is tested after each chunk, so it holds of the whole.
copy_chunks-IsCount :
    (limit : ℕ) (e : ArchiveError) (before : ℕ) (chunks : List ℕ)
    → before ≤ limit
    → Ok (IsCount limit before chunks) (copy_chunks limit e before chunks)
unfolding copy_chunks
copy_chunks-IsCount limit e before [] h = (h, omega arith)
copy_chunks-IsCount limit e before (chunk ∷ chunks) h =
    if_elim (Ok (IsCount limit before (chunk ∷ chunks))) (chunk == 0) _ _ (λ end. (h, ground arith))
      (λ more.
        if_elim (Ok (IsCount limit before (chunk ∷ chunks))) (ltb limit (before + chunk)) _ _
          (λ over. tt)
          (λ within.
            Ok-mono (IsCount limit (before + chunk) chunks) (IsCount limit before (chunk ∷ chunks))
              (copy_chunks limit e (before + chunk) chunks) (λ n k. (k.0, ground (arith, k.1)))
              (copy_chunks-IsCount limit e (before + chunk) chunks (ground arith))))

module _ {N : Type 0} (F : Floats N) (L : TextLibrary) (s : ArchiveSettings N) where
  -- A video as its candidate promised it, with all bytes of the member's content.
  abbrev pub IsCopyOf : Candidate → List ℕ → ExtractedVideo → Type 0
  IsCopyOf c chunks v =
      (v.original_filename ≡ c.normalized_name)
      × (v.suffix ≡ c.suffix)
      × (v.size_bytes ≡ c.entry.file_size)
      × (v.size_bytes ≡ bytes_of chunks)
      × (v.size_bytes ≤ s.max_upload_bytes)

  extract_video_member-IsCopyOf :
      (c : Candidate) (chunks : List ℕ)
      → Ok (IsCopyOf c chunks) (extract_video_member F L s c chunks)
  unfolding extract_video_member
  extract_video_member-IsCopyOf c chunks =
      Ok-bind (IsCount s.max_upload_bytes 0 chunks) (IsCopyOf c chunks)
        (copy_chunks s.max_upload_bytes video_limit 0 chunks) _
        (copy_chunks-IsCount s.max_upload_bytes video_limit 0 chunks (omega arith))
        λ written (within, all).
          Ok-unless (IsCopyOf c chunks) (not (written == c.entry.file_size)) _ _
            λ same. (refl, refl, ground arith, omega (arith, all), within)

  module _ (content : Member → List ℕ) where
    abbrev pub AreCopies : List Candidate → List ExtractedVideo → Type 0
    AreCopies [] [] = Unit
    AreCopies [] (v ∷ vs) = ⊥
    AreCopies (c ∷ cs) [] = ⊥
    AreCopies (c ∷ cs) (v ∷ vs) = IsCopyOf c (content c.entry) v × AreCopies cs vs

    extract_all-AreCopies : (cs : List Candidate) → Ok (AreCopies cs) (extract_all F L s content cs)
    unfolding extract_all
    extract_all-AreCopies [] = tt
    extract_all-AreCopies (c ∷ cs) =
        Ok-bind (IsCopyOf c (content c.entry)) (AreCopies (c ∷ cs))
          (extract_video_member F L s c (content c.entry)) _
          (extract_video_member-IsCopyOf c (content c.entry))
          λ v hv.
            Ok-bind (AreCopies cs) (AreCopies (c ∷ cs)) (extract_all F L s content cs) _
              (extract_all-AreCopies cs) λ vs hvs. (hv, hvs)

    -- The videos of an archive, for the free space and the bytes of the archive.
    pub record IsExtraction (available archive_size : ℕ) (ms : List Member)
        (r : List ExtractedVideo × Collected) : Type 0 where
      pub checked : (total : ℕ) × (validate_archive_structure F L s ms ≡ passed total)
      pub collected : collect_candidates F L s ms ≡ passed r.1
      pub copies : AreCopies r.1.candidates r.0
      pub total : total_size F L s content r.0 ≡ r.1.accepted_size_bytes
      pub space : r.1.accepted_size_bytes + archive_size + s.archive_disk_reserve_bytes ≤ available

    extract_collected-IsExtraction :
        (available archive_size total : ℕ) (ms : List Member) (c : Collected)
        → validate_archive_structure F L s ms ≡ passed total
        → collect_candidates F L s ms ≡ passed c
        → Ok
            (IsExtraction available archive_size ms)
            (extract_collected F L s content available archive_size c)
    unfolding extract_collected validate_available_disk_space
    extract_collected-IsExtraction available archive_size total ms c structure collects =
        let P = IsExtraction available archive_size ms in
        Ok-unless P
          (ltb available (c.accepted_size_bytes + archive_size + s.archive_disk_reserve_bytes)) _ _
          λ room.
            Ok-bind (AreCopies c.candidates) P (extract_all F L s content c.candidates) _
              (extract_all-AreCopies c.candidates)
              λ vs copies.
                Ok-unless P (not (total_size F L s content vs == c.accepted_size_bytes)) _ _ λ same.
                  record {
                    checked = (total, structure);
                    collected = collects;
                    copies = copies;
                    total = ground arith;
                    space = ground arith;
                  }

    extract_archive-IsExtraction :
        (available archive_size : ℕ) (ms : List Member)
        → Ok
            (IsExtraction available archive_size ms)
            (extract_archive F L s content available archive_size ms)
    unfolding extract_archive
    extract_archive-IsExtraction available archive_size ms =
        let P = IsExtraction available archive_size ms in
        Ok-bind (λ total. validate_archive_structure F L s ms ≡ passed total) P
          (validate_archive_structure F L s ms) _ (Ok-passed _)
          λ total structure.
            Ok-bind (λ c. collect_candidates F L s ms ≡ passed c) P (collect_candidates F L s ms) _
              (Ok-passed _)
              λ c collects.
                extract_collected-IsExtraction available archive_size total ms c structure collects

    -- What `extract` returns for an upload.
    pub record IsResult (available : ℕ) (upload : List ℕ) (ms : List Member)
        (r : List ExtractedVideo × Collected) : Type 0 where
      pub extraction : IsExtraction available (bytes_of upload) ms r
      pub some_bytes : 0 < bytes_of upload
      pub within : bytes_of upload ≤ s.max_archive_upload_bytes
      pub nonempty : 0 < length r.0

    save_archive-IsCount :
        (upload : List ℕ)
        → Ok
            (λ n. (0 < n) × IsCount s.max_archive_upload_bytes 0 upload n)
            (save_archive F L s upload)
    unfolding save_archive
    save_archive-IsCount upload =
        let Q = IsCount s.max_archive_upload_bytes 0 upload in
        let P = λ (n : ℕ). (0 < n) × Q n in
        Ok-bind Q P (copy_chunks s.max_archive_upload_bytes archive_limit 0 upload) _
          (copy_chunks-IsCount s.max_archive_upload_bytes archive_limit 0 upload (omega arith))
          λ written count. Ok-unless P (written == 0) _ _ λ some_bytes. (ground arith, count)

    some_videos-IsResult :
        (available n : ℕ) (upload : List ℕ) (ms : List Member) (r : List ExtractedVideo × Collected)
        → IsExtraction available n ms r
        → (0 < n) × IsCount s.max_archive_upload_bytes 0 upload n
        → Ok (IsResult available upload ms) (some_videos r)
    unfolding some_videos
    some_videos-IsResult available n upload ms ([], c) h saved = tt
    some_videos-IsResult available n upload ms (v ∷ vs, c) h (some_bytes, (within, all)) =
        let size : n ≡ bytes_of upload = omega (arith, all) in
        record {
          extraction = rw size at h;
          some_bytes = omega (arith, some_bytes, size);
          within = omega (arith, within, size);
          nonempty = omega arith;
        }

    extract-Ok :
        (available : ℕ) (upload : List ℕ) (ms : List Member)
        → Ok (IsResult available upload ms) (extract F L s content available upload ms)
    unfolding extract
    extract-Ok available upload ms =
        let R = IsResult available upload ms in
        Ok-bind _ R (save_archive F L s upload) _ (save_archive-IsCount upload) λ n saved.
          Ok-bind (IsExtraction available n ms) R (extract_archive F L s content available n ms) _
            (extract_archive-IsExtraction available n ms)
            λ r h. some_videos-IsResult available n upload ms r h saved

    -- If the extraction of an upload succeeds, the upload is not empty and within its limit; the
    -- archive's structure was accepted and the collected candidates are those of its members; the
    -- videos are those of the candidates in order, each with the size that its member declares,
    -- which is the number of its bytes and within the limit of a video; the sizes add up to the
    -- accepted size; the free space had room for them, the bytes of the upload and the reserve;
    -- and there is at least one video.
    pub extract-IsResult :
        (available : ℕ) (upload : List ℕ) (ms : List Member) (r : List ExtractedVideo × Collected)
        → extract F L s content available upload ms ≡ passed r
        → IsResult available upload ms r
    extract-IsResult available upload ms r h = rw h at (extract-Ok available upload ms)
