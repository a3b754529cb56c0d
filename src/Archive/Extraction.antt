-- ===== src/Archive/Extraction.antt =====
-- `_save_archive_to_temporary_file`, `_extract_video_member` and `_extract_archive` of
-- backend/app/services/archive_upload_service.py. A file that is read is the list of the lengths of its
-- chunks; what is written is counted.
use cv_video_analysis.Archive.{
  ArchiveError, no_disk_space, archive_limit, empty_archive, size_mismatch, video_limit, no_video,
  Checked, passed, refused, ◌>>=◌, ◌>>◌, unless, Member, ArchiveSettings, TextLibrary,
}
use cv_video_analysis.Archive.Members.{
  Candidate, Collected, validate_archive_structure, collect_candidates,
}
use cv_video_analysis.Common.{ℕ, ◌+◌, not, List, [], ◌∷◌, if◌then◌else◌, ltb, ◌==◌}
use cv_video_analysis.Common.Texts.{Text}
use cv_video_analysis.Domain.Floats.{Floats}

-- `while chunk := read(...)`: the count of the bytes, or the error once they exceed the limit. An empty
-- chunk ends the file.
unfoldable pub copy_chunks : ℕ → ArchiveError → ℕ → List ℕ → Checked ℕ
copy_chunks limit e written [] = passed written
copy_chunks limit e written (chunk ∷ chunks) =
    let rest = copy_chunks limit e (written + chunk) chunks in
    if chunk == 0 then passed written else if ltb limit (written + chunk) then refused e else rest

pub record ExtractedVideo : Type 0 where
  pub original_filename : Text
  pub suffix : Text
  pub size_bytes : ℕ

unfoldable pub some_videos :
    List ExtractedVideo × Collected → Checked (List ExtractedVideo × Collected)
some_videos ([], c) = refused no_video
some_videos (v ∷ vs, c) = passed (v ∷ vs, c)

module _ {N : Type 0} (F : Floats N) (L : TextLibrary) (s : ArchiveSettings N) where
  -- The size of the saved archive.
  unfoldable pub save_archive : List ℕ → Checked ℕ
  unfolding copy_chunks
  save_archive chunks = do
    written ← copy_chunks s.max_archive_upload_bytes archive_limit 0 chunks
    unless (written == 0) empty_archive
    passed written

  unfoldable pub extract_video_member : Candidate → List ℕ → Checked ExtractedVideo
  unfolding copy_chunks
  extract_video_member c chunks = do
    written ← copy_chunks s.max_upload_bytes video_limit 0 chunks
    unless (not (written == c.entry.file_size)) size_mismatch
    passed
        (record { original_filename = c.normalized_name; suffix = c.suffix; size_bytes = written })

  -- `content` gives the chunks of a member as the archive decompresses it.
  module _ (content : Member → List ℕ) where
    unfoldable pub extract_all : List Candidate → Checked (List ExtractedVideo)
    unfolding extract_video_member
    extract_all [] = passed []
    extract_all (c ∷ cs) = do
      video ← extract_video_member c (content c.entry)
      videos ← extract_all cs
      passed (video ∷ videos)

    abbrev pub total_size : List ExtractedVideo → ℕ
    total_size [] = 0
    total_size (v ∷ vs) = v.size_bytes + total_size vs

    unfoldable pub validate_available_disk_space : ℕ → ℕ → ℕ → Checked (Unit {0})
    validate_available_disk_space available accepted archive_size =
        unless (ltb available (accepted + archive_size + s.archive_disk_reserve_bytes))
          no_disk_space

    unfoldable pub extract_collected : ℕ → ℕ → Collected → Checked (List ExtractedVideo × Collected)
    unfolding validate_available_disk_space extract_all
    extract_collected available archive_size c = do
      validate_available_disk_space available c.accepted_size_bytes archive_size
      videos ← extract_all c.candidates
      unless (not (total_size videos == c.accepted_size_bytes)) size_mismatch
      passed (videos, c)

    -- `_extract_archive`: the videos, with what was collected.
    unfoldable pub extract_archive : ℕ → ℕ → List Member → Checked (List ExtractedVideo × Collected)
    unfolding validate_archive_structure collect_candidates extract_collected
    extract_archive available archive_size members = do
      total ← validate_archive_structure F L s members
      c ← collect_candidates F L s members
      extract_collected available archive_size c

    -- `extract`, for an upload whose metadata were accepted.
    unfoldable pub extract : ℕ → List ℕ → List Member → Checked (List ExtractedVideo × Collected)
    unfolding save_archive extract_archive some_videos
    extract available upload members = do
      archive_size ← save_archive upload
      result ← extract_archive available archive_size members
      some_videos result
