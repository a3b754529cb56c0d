-- ===== src/Archive/Members.antt =====
-- `_validate_archive_structure`, `_validate_video_member_limits` and `_collect_candidates` of
-- backend/app/services/archive_upload_service.py.
use cv_video_analysis.Archive.{
  too_many_members, encrypted, symbolic_link, uncompressed_limit, empty_video, video_limit,
  suspicious_ratio, batch_limit, Checked, passed, ◌>>=◌, ◌>>◌, unless, Member, ArchiveSettings,
  TextLibrary, validate_member_path, is_ignored_system_entry, validate_video_filename,
}
use cv_video_analysis.Common.{
  ℕ, ◌+◌, ◌/◌, ◌%◌, ◌^◌, max, Bool, Option, none, some, List, [], ◌∷◌, ◌++◌, if◌then◌else◌, ltb,
  leb, ◌==◌, length,
}
use cv_video_analysis.Common.Texts.{Text}
use cv_video_analysis.Common.Tables.{member}
use cv_video_analysis.Domain.Floats.{Floats}

-- The bit `_ZIP_ENCRYPTED_FLAG`, and `stat.S_ISLNK` of the upper half of the attributes.
abbrev pub is_encrypted : Member → Bool
is_encrypted m = m.flag_bits % 2 == 1

unfoldable pub is_symlink : Member → Bool
is_symlink m = m.external_attr / 2 ^ 16 / 2 ^ 12 % 16 == 10

pub data Reason : Type 0 where
  system_metadata : Reason
  duplicate : Reason
  unsupported : Reason

pub record Candidate : Type 0 where
  pub entry : Member
  pub normalized_name : Text
  pub suffix : Text

-- The variables of `_collect_candidates`.
pub record Collected : Type 0 where
  pub candidates : List Candidate
  pub skipped : List (Text × Reason)
  pub seen_names : List Text
  pub accepted_size_bytes : ℕ

abbrev pub nothing_collected : Collected
nothing_collected = record {
  candidates = [];
  skipped = [];
  seen_names = [];
  accepted_size_bytes = 0;
}

module _ {N : Type 0} (F : Floats N) (L : TextLibrary) (s : ArchiveSettings N) where
  -- One entry of `_validate_archive_structure`: the total so far.
  unfoldable pub check_file : Member → ℕ → Checked ℕ
  unfolding is_symlink
  check_file m total = do
    unless (is_encrypted m) encrypted
    unless (is_symlink m) symbolic_link
    unless (ltb s.max_archive_uncompressed_bytes (total + m.file_size)) uncompressed_limit
    passed (total + m.file_size)

  unfoldable pub check_member : Member → ℕ → Checked ℕ
  unfolding validate_member_path check_file
  check_member m total = do
    name ← validate_member_path m
    if m.is_dir then passed total else check_file m total

  unfoldable pub check_members : List Member → ℕ → Checked ℕ
  unfolding check_member
  check_members [] total = passed total
  check_members (m ∷ ms) total = do total' ← check_member m total; check_members ms total'

  unfoldable pub validate_archive_structure : List Member → Checked ℕ
  unfolding check_members
  validate_archive_structure ms = do
    unless (ltb s.max_archive_members (length ms)) too_many_members
    check_members ms 0

  unfoldable pub validate_video_member_limits : Member → Checked (Unit {0})
  validate_video_member_limits m = do
    unless (leb m.file_size 0) empty_video
    unless (ltb s.max_upload_bytes m.file_size) video_limit
    unless
        (F.lt s.max_archive_compression_ratio
          (F.div (F.of_nat m.file_size) (F.of_nat (max m.compress_size 1))))
        suspicious_ratio

  abbrev pub skip : Text → Reason → Collected → Collected
  skip name reason c = record c { skipped = c.skipped ++ (name, reason) ∷ [] }

  abbrev pub admit : Member → Text → Text → Collected → Collected
  admit m name suffix c = record c {
    candidates = c.candidates ++ record { entry = m; normalized_name = name; suffix = suffix } ∷ [];
    accepted_size_bytes = c.accepted_size_bytes + m.file_size;
  }

  unfoldable pub collect_video : Member → Text → Option Text → Collected → Checked Collected
  unfolding validate_video_member_limits
  collect_video m name none c = passed (skip name unsupported c)
  collect_video m name (some suffix) c = do
    validate_video_member_limits m
    unless (ltb s.max_archive_video_bytes (c.accepted_size_bytes + m.file_size)) batch_limit
    passed (admit m name suffix c)

  -- From the test of system entries on.
  unfoldable pub collect_named : Member → Text → Bool → Collected → Checked Collected
  unfolding collect_video validate_video_filename
  collect_named m name ignored c =
      if ignored
      then passed (skip name system_metadata c)
      else if member name c.seen_names
      then passed (skip name duplicate c)
      else collect_video m name (validate_video_filename L s name [])
          (record c { seen_names = name ∷ c.seen_names })

  unfoldable pub collect_member : Member → Collected → Checked Collected
  unfolding collect_named validate_member_path is_ignored_system_entry
  collect_member m c = if m.is_dir then passed c else do
    name ← validate_member_path m
    ignored ← is_ignored_system_entry L name
    collect_named m name ignored c

  unfoldable pub collect_members : List Member → Collected → Checked Collected
  unfolding collect_member
  collect_members [] c = passed c
  collect_members (m ∷ ms) c = do c' ← collect_member m c; collect_members ms c'

  unfoldable pub collect_candidates : List Member → Checked Collected
  unfolding collect_members
  collect_candidates ms = collect_members ms nothing_collected
