-- ===== src/Examples/Archives.antt =====
-- An archive with one video of three bytes, and a readme that is skipped.
use cv_video_analysis.Common.{ℕ, ◌≡◌, refl, false, List, [], ◌∷◌, if◌then◌else◌, ◌==◌}
use cv_video_analysis.Common.Texts.{Text, codes, text_eq, starts_with}
use cv_video_analysis.Common.Tables.{member}
use cv_video_analysis.Domain.Floats.{whole}
use cv_video_analysis.Archive.{passed, Member, ArchiveSettings, TextLibrary}
use cv_video_analysis.Archive.Members.{Collected, unsupported, collect_candidates}
use cv_video_analysis.Archive.Extraction.{ExtractedVideo, extract}
use cv_video_analysis.Archive.Admission.{IsAdmission, collect_candidates-IsAdmission}
use cv_video_analysis.Archive.Sizes.{IsResult, extract-IsResult}

abbrev from_dot : Text → Text
from_dot [] = []
from_dot (c ∷ s) = if c == b'.' then c ∷ s else from_dot s

abbrev library : TextLibrary
library = record { lower = λ t. t; suffix = from_dot }

abbrev settings : ArchiveSettings ℕ
settings = record {
  max_upload_bytes = 10;
  max_archive_upload_bytes = 8;
  max_archive_video_bytes = 20;
  max_archive_uncompressed_bytes = 30;
  max_archive_members = 5;
  max_archive_compression_ratio = 3;
  archive_disk_reserve_bytes = 1;
  allowed_video_extensions = codes ".mp4" ∷ [];
  allowed_video_mime_prefix = codes "video/";
}

abbrev file : Text → Member
file name = record {
  filename = name;
  is_dir = false;
  flag_bits = 0;
  external_attr = 0;
  file_size = 3;
  compress_size = 2;
}

abbrev video : Member
video = file (codes "v/a.mp4")

abbrev members : List Member
members = file (codes "b.md") ∷ video ∷ []

abbrev collected : Collected
collected = record {
  candidates =
      record { entry = video; normalized_name = codes "v/a.mp4"; suffix = codes ".mp4" } ∷ [];
  skipped = (codes "b.md", unsupported) ∷ [];
  seen_names = codes "v/a.mp4" ∷ codes "b.md" ∷ [];
  accepted_size_bytes = 3;
}

collects : collect_candidates whole library settings members ≡ passed collected
unfolding collect_candidates text_eq starts_with member
collects = refl

collect_candidates-IsAdmission_example : IsAdmission whole library settings collected
collect_candidates-IsAdmission_example =
    collect_candidates-IsAdmission whole library settings members collected collects

abbrev content : Member → List ℕ
content m = 2 ∷ 1 ∷ []

abbrev extracted : List ExtractedVideo × Collected
extracted = (
  record { original_filename = codes "v/a.mp4"; suffix = codes ".mp4"; size_bytes = 3 } ∷ [],
  collected,
)

extracts : extract whole library settings content 9 (4 ∷ 1 ∷ []) members ≡ passed extracted
unfolding extract text_eq starts_with member
extracts = refl

extract-IsResult_example : IsResult whole library settings content 9 (4 ∷ 1 ∷ []) members extracted
extract-IsResult_example =
    extract-IsResult whole library settings content 9 (4 ∷ 1 ∷ []) members extracted extracts
