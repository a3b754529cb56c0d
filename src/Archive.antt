-- ===== src/Archive.antt =====
-- backend/app/services/archive_upload_service.py and the test of file names in
-- backend/app/services/video_validation.py: which members of a ZIP archive are admitted. Paths follow
-- `PurePosixPath`; `lower` and the suffix of a file name are the library's and given as functions.
pub mod Members
pub mod Extraction
pub mod Admission
pub mod Sizes
use cv_video_analysis.Common.{
  ℕ, ◌+◌, ◌/◌, ◌%◌, max, Bool, true, false, not, ◌&&◌, ◌||◌, Option, none, some, List, [], ◌∷◌,
  ◌++◌, if◌then◌else◌, ltb, leb, ◌==◌, length,
}
use cv_video_analysis.Common.Texts.{Text, codes, text_eq, starts_with}
use cv_video_analysis.Common.Tables.{member}
use cv_video_analysis.Domain.Floats.{Floats}

pub data ArchiveError : Type 0 where
  unsafe_path : ArchiveError
  too_many_members : ArchiveError
  encrypted : ArchiveError
  symbolic_link : ArchiveError
  uncompressed_limit : ArchiveError
  empty_video : ArchiveError
  video_limit : ArchiveError
  suspicious_ratio : ArchiveError
  batch_limit : ArchiveError
  no_disk_space : ArchiveError
  archive_limit : ArchiveError
  empty_archive : ArchiveError
  size_mismatch : ArchiveError
  no_video : ArchiveError
  -- `path.parts[0]` of a path without parts: an IndexError.
  no_parts : ArchiveError

pub data Checked {ℓ} (A : Type ℓ) : Type ℓ where
  passed : A → Checked A
  refused : ArchiveError → Checked A

infixl 5 ◌>>=◌ ◌>>◌
abbrev pub ◌>>=◌ {ℓ κ} : {A : Type ℓ} {B : Type κ} → Checked A → (A → Checked B) → Checked B
passed a >>= f = f a
refused e >>= f = refused e

abbrev pub ◌>>◌ {ℓ} : {B : Type ℓ} → Checked (Unit {0}) → Checked B → Checked B
m >> k = m >>= λ _. k

abbrev pub unless : Bool → ArchiveError → Checked (Unit {0})
unless true e = refused e
unless false e = passed tt

-- `zipfile.ZipInfo`
pub record Member : Type 0 where
  pub filename : Text
  pub is_dir : Bool
  pub flag_bits : ℕ
  pub external_attr : ℕ
  pub file_size : ℕ
  pub compress_size : ℕ

pub record ArchiveSettings (N : Type 0) : Type 0 where
  pub max_upload_bytes : ℕ
  pub max_archive_upload_bytes : ℕ
  pub max_archive_video_bytes : ℕ
  pub max_archive_uncompressed_bytes : ℕ
  pub max_archive_members : ℕ
  pub max_archive_compression_ratio : N
  pub archive_disk_reserve_bytes : ℕ
  pub allowed_video_extensions : List Text
  pub allowed_video_mime_prefix : Text

-- What the standard library computes of a text: `str.lower`, and `Path(name).suffix`.
pub record TextLibrary : Type 0 where
  pub lower : Text → Text
  pub suffix : Text → Text

-- `filename.replace("\\", "/")`
unfoldable pub with_slashes : Text → Text
with_slashes [] = []
with_slashes (c ∷ s) = (if c == 92 then b'/' else c) ∷ with_slashes s

unfoldable pub starts_part : Bool → ℕ → List Text → List Text
starts_part true c parts = [] ∷ parts
starts_part false c [] = (c ∷ []) ∷ []
starts_part false c (part ∷ parts) = (c ∷ part) ∷ parts

-- The text between the slashes.
unfoldable pub split_slashes : Text → List Text
unfolding starts_part
split_slashes [] = [] ∷ []
split_slashes (c ∷ s) = starts_part (c == b'/') c (split_slashes s)

-- `PurePosixPath` leaves out empty parts and single dots.
unfoldable pub is_kept : Text → Bool
is_kept part = not (text_eq part [] || text_eq part (codes "."))

unfoldable pub kept_parts : List Text → List Text
unfolding is_kept
kept_parts [] = []
kept_parts (part ∷ parts) =
    let rest = kept_parts parts in if is_kept part then part ∷ rest else rest

unfoldable pub path_parts : Text → List Text
unfolding split_slashes kept_parts
path_parts name = kept_parts (split_slashes name)

unfoldable pub is_special : Text → Bool
is_special part = text_eq part [] || (text_eq part (codes ".") || text_eq part (codes ".."))

unfoldable pub any_special : List Text → Bool
unfolding is_special
any_special [] = false
any_special (part ∷ parts) = is_special part || any_special parts

unfoldable pub has_colon : Text → Bool
has_colon [] = false
has_colon (c ∷ s) = c == b':' || has_colon s

unfoldable pub drive_like : List Text → Bool
unfolding has_colon
drive_like [] = false
drive_like (part ∷ parts) = has_colon part

unfoldable pub join_parts : Text → List Text → Text
join_parts first [] = first
join_parts first (part ∷ parts) = first ++ (b'/' ∷ join_parts part parts)

-- `as_posix`
unfoldable pub as_posix : List Text → Text
unfolding join_parts
as_posix [] = codes "."
as_posix (part ∷ parts) = join_parts part parts

-- `_validate_member_path`
unfoldable pub validate_member_path : Member → Checked Text
unfolding with_slashes path_parts any_special drive_like as_posix
validate_member_path m =
    let raw_name = with_slashes m.filename in
    let parts = path_parts raw_name in
    if text_eq raw_name []
      || (ltb 1024 (length raw_name)
          || (starts_with (codes "/") raw_name || (any_special parts || drive_like parts)))
    then refused unsafe_path
    else passed (as_posix parts)

unfoldable pub last_part : Text → List Text → Text
last_part part [] = part
last_part part (next ∷ parts) = last_part next parts

module _ (L : TextLibrary) where
  -- `_is_ignored_system_entry`
  unfoldable pub is_ignored_parts : List Text → Checked Bool
  unfolding last_part
  is_ignored_parts [] = refused no_parts
  is_ignored_parts (part ∷ parts) =
      let basename = L.lower (last_part part parts) in
      passed (
        text_eq (L.lower part) (codes "__macosx")
        || (member basename (codes ".ds_store" ∷ codes "desktop.ini" ∷ codes "thumbs.db" ∷ [])
            || starts_with (codes "._") basename))

  unfoldable pub is_ignored_system_entry : Text → Checked Bool
  unfolding path_parts is_ignored_parts
  is_ignored_system_entry filename = is_ignored_parts (path_parts filename)

  -- `validate_video_filename`: the suffix, or `none` for its VideoValidationError.
  unfoldable pub validate_video_filename :
      {N : Type 0} → ArchiveSettings N → Text → Text → Option Text
  validate_video_filename s filename content_type =
      let suffix = L.lower (L.suffix filename) in
      let normalized = L.lower content_type in
      if starts_with (codes "audio/") normalized
      then none
      else if not (member suffix s.allowed_video_extensions)
      then none
      else if not (text_eq normalized [])
          && not (starts_with s.allowed_video_mime_prefix normalized)
      then if not (text_eq normalized (codes "application/octet-stream")) then none else some suffix
      else some suffix
