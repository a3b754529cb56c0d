-- ===== src/Archive/Admission.antt =====
-- What `_collect_candidates` of backend/app/services/archive_upload_service.py admits.
use cv_video_analysis.Archive.{
  ArchiveError, Checked, passed, refused, ◌>>=◌, ◌>>◌, unless, Member, ArchiveSettings, TextLibrary,
  validate_member_path, is_ignored_system_entry, validate_video_filename,
}
use cv_video_analysis.Archive.Members.{
  Reason, Candidate, Collected, nothing_collected, validate_video_member_limits, collect_video,
  collect_named, collect_member, collect_members, collect_candidates, admit,
}
use cv_video_analysis.Common.{
  ℕ, ◌+◌, ◌≤◌, ◌<◌, max, ◌≡◌, refl, Bool, true, false, not, ◌&&◌, Option, none, some, List, [], ◌∷◌,
  ◌++◌, ltb, leb, All, All-append, All-mono, arith, if_elim, Bool-cases, inl, inr,
}
use cv_video_analysis.Common.Texts.{Text, codes, text_eq, text_eq_iff, text_eq_refl, starts_with}
use cv_video_analysis.Common.Tables.{member}
use cv_video_analysis.Domain.Floats.{Floats}

-- What holds of a value that passes.
abbrev pub Ok {ℓ κ} : {A : Type ℓ} → (A → Type κ) → Checked A → Type κ
Ok P (passed a) = P a
Ok P (refused e) = Unit

pub Ok-bind {ℓ κ ν μ} :
    {A : Type ℓ} {B : Type κ} (P : A → Type ν) (Q : B → Type μ) (m : Checked A) (f : A → Checked B)
    → Ok P m
    → ((a : A) → P a → Ok Q (f a))
    → Ok Q (m >>= f)
Ok-bind P Q (passed a) f h g = g a h
Ok-bind P Q (refused e) f h g = tt

-- What follows a test runs only if the test is false.
pub Ok-unless {ℓ κ} :
    {B : Type ℓ} (Q : B → Type κ) (b : Bool) (e : ArchiveError) (rest : Checked B)
    → (b ≡ false → Ok Q rest)
    → Ok Q (unless b e >> rest)
Ok-unless Q true e rest h = tt
Ok-unless Q false e rest h = h refl

pub Ok-test {κ} :
    (Q : Unit {0} → Type κ) (b : Bool) (e : ArchiveError) → (b ≡ false → Q tt) → Ok Q (unless b e)
Ok-test Q true e h = tt
Ok-test Q false e h = h refl

pub Ok-mono {ℓ κ ν} :
    {A : Type ℓ} (P : A → Type κ) (Q : A → Type ν) (m : Checked A)
    → ((a : A) → P a → Q a)
    → Ok P m
    → Ok Q m
Ok-mono P Q (passed a) f h = f a h
Ok-mono P Q (refused e) f h = tt

pub Ok-passed {ℓ} : {A : Type ℓ} (m : Checked A) → Ok (λ a. m ≡ passed a) m
Ok-passed (passed a) = refl
Ok-passed (refused e) = tt

pub Ok-any {ℓ} : {A : Type ℓ} (m : Checked A) → Ok (λ _. Unit {0}) m
Ok-any (passed a) = tt
Ok-any (refused e) = tt

abbrev pub sizes_of : List Candidate → ℕ
sizes_of [] = 0
sizes_of (c ∷ cs) = c.entry.file_size + sizes_of cs

sizes_of-snoc :
    (cs : List Candidate) (c : Candidate)
    → sizes_of (cs ++ c ∷ []) ≡ sizes_of cs + c.entry.file_size
sizes_of-snoc [] c = omega arith
sizes_of-snoc (d ∷ cs) c = omega (arith, sizes_of-snoc cs c)

-- No two candidates have one name.
abbrev pub HaveNames : List Candidate → Type 0
HaveNames [] = Unit
HaveNames (c ∷ cs) =
    All (λ (d : Candidate). text_eq c.normalized_name d.normalized_name ≡ false) cs × HaveNames cs

HaveNames-snoc :
    (cs : List Candidate) (c : Candidate)
    → HaveNames cs
    → All (λ (d : Candidate). text_eq d.normalized_name c.normalized_name ≡ false) cs
    → HaveNames (cs ++ c ∷ [])
HaveNames-snoc [] c h new = (tt, tt)
HaveNames-snoc (d ∷ cs) c (hd, h) (nd, new) =
    (All-append _ cs (c ∷ []) hd (nd, tt), HaveNames-snoc cs c h new)

-- A name that is not in a set differs from one that is.
member-ne :
    (name other : Text) (seen : List Text)
    → member name seen ≡ false
    → member other seen ≡ true
    → text_eq other name ≡ false
unfolding member
member-ne name other [] out h = cc
member-ne name other (t ∷ seen) out h = ground (
  arith,
  text_eq_iff t name,
  text_eq_iff t other,
  text_eq_iff other name,
  member-ne name other seen,
)

seen_after :
    (name other : Text) (seen : List Text)
    → member other seen ≡ true
    → member other (name ∷ seen) ≡ true
unfolding member
seen_after name other seen h = ground arith

seen_self : (name : Text) (seen : List Text) → member name (name ∷ seen) ≡ true
unfolding member
seen_self name seen = rw text_eq_refl

module _ {N : Type 0} (F : Floats N) (L : TextLibrary) (s : ArchiveSettings N) where
  abbrev pub is_suspicious : Member → Bool
  is_suspicious m =
      F.lt s.max_archive_compression_ratio
        (F.div (F.of_nat m.file_size) (F.of_nat (max m.compress_size 1)))

  abbrev pub WithinLimits : Member → Unit {0} → Type 0
  WithinLimits m u =
      (0 < m.file_size) × (m.file_size ≤ s.max_upload_bytes) × (is_suspicious m ≡ false)

  -- A video that may be extracted.
  abbrev pub IsVideo : Candidate → Type 0
  IsVideo c = WithinLimits c.entry tt × (member c.suffix s.allowed_video_extensions ≡ true)

  pub record IsAdmission (c : Collected) : Type 0 where
    pub sizes : sizes_of c.candidates ≡ c.accepted_size_bytes
    pub budget : c.accepted_size_bytes ≤ s.max_archive_video_bytes
    pub videos : All IsVideo c.candidates
    pub names : HaveNames c.candidates
    pub known : All (λ (d : Candidate). member d.normalized_name c.seen_names ≡ true) c.candidates

  abbrev IsAllowed : Option Text → Type 0
  IsAllowed none = Unit
  IsAllowed (some suffix) = member suffix s.allowed_video_extensions ≡ true

  validate-IsAllowed :
      (name content_type : Text) → IsAllowed (validate_video_filename L s name content_type)
  unfolding validate_video_filename
  validate-IsAllowed name content_type =
      let suffix = L.lower (L.suffix name) in
      let normalized = L.lower content_type in
      if_elim IsAllowed (starts_with (codes "audio/") normalized) _ _ (λ e. tt)
        (λ e. elim (Bool-cases (member suffix s.allowed_video_extensions)) [
          | inl allowed ↦ rw allowed (
              if_elim IsAllowed
                (not (text_eq normalized [])
                  && not (starts_with s.allowed_video_mime_prefix normalized))
                _ _
                (λ e.
                  if_elim IsAllowed (not (text_eq normalized (codes "application/octet-stream"))) _
                    _ (λ e. tt) (λ e. allowed))
                (λ e. allowed))
          | inr other ↦ rw other tt
        ])

  admit-IsAdmission :
      (m : Member) (name suffix : Text) (c : Collected)
      → WithinLimits m tt
      → member suffix s.allowed_video_extensions ≡ true
      → c.accepted_size_bytes + m.file_size ≤ s.max_archive_video_bytes
      → member name c.seen_names ≡ false
      → IsAdmission c
      → IsAdmission (admit F L s m name suffix (record c { seen_names = name ∷ c.seen_names }))
  unfolding member
  admit-IsAdmission m name suffix c limits allowed fits new h =
      let entry : Candidate = record { entry = m; normalized_name = name; suffix = suffix } in
      record {
        sizes = omega (arith, sizes_of-snoc c.candidates entry, h.sizes);
        budget = fits;
        videos = All-append IsVideo c.candidates (entry ∷ []) h.videos ((limits, allowed), tt);
        names = HaveNames-snoc c.candidates entry h.names (
            All-mono (λ d k. member-ne name d.normalized_name c.seen_names new k) c.candidates
              h.known);
        known =
            All-append _ c.candidates (entry ∷ [])
              (All-mono (λ d k. seen_after name d.normalized_name c.seen_names k) c.candidates
                h.known)
              (seen_self name c.seen_names, tt);
      }

  limits-Ok : (m : Member) → Ok (WithinLimits m) (validate_video_member_limits F L s m)
  unfolding validate_video_member_limits
  limits-Ok m = Ok-unless (WithinLimits m) (leb m.file_size 0) _ _ λ some_bytes.
      Ok-unless (WithinLimits m) (ltb s.max_upload_bytes m.file_size) _ _
        λ within. Ok-test (WithinLimits m) _ _ λ plain. (ground arith, ground arith, plain)

  collect_video-IsAdmission :
      (m : Member) (name : Text) (suffix : Option Text) (c : Collected)
      → IsAllowed suffix
      → member name c.seen_names ≡ false
      → IsAdmission c
      → Ok IsAdmission
          (collect_video F L s m name suffix (record c { seen_names = name ∷ c.seen_names }))
  unfolding collect_video
  collect_video-IsAdmission m name none c allowed new h = record {
    sizes = h.sizes;
    budget = h.budget;
    videos = h.videos;
    names = h.names;
    known = All-mono (λ d k. seen_after name d.normalized_name c.seen_names k) c.candidates h.known;
  }
  collect_video-IsAdmission m name (some suffix) c allowed new h =
      Ok-bind (WithinLimits m) IsAdmission (validate_video_member_limits F L s m) _ (limits-Ok m)
        λ u limits.
          Ok-unless IsAdmission
            (ltb s.max_archive_video_bytes (c.accepted_size_bytes + m.file_size)) _ _
            λ fits. admit-IsAdmission m name suffix c limits allowed (ground arith) new h

  skipped-IsAdmission :
      (c : Collected) (more : List (Text × Reason))
      → IsAdmission c
      → IsAdmission (record c { skipped = more })
  skipped-IsAdmission c more h = record {
    sizes = h.sizes;
    budget = h.budget;
    videos = h.videos;
    names = h.names;
    known = h.known;
  }

  collect_named-IsAdmission :
      (m : Member) (name : Text) (ignored : Bool) (c : Collected)
      → IsAdmission c
      → Ok IsAdmission (collect_named F L s m name ignored c)
  unfolding collect_named
  collect_named-IsAdmission m name ignored c h =
      if_elim (Ok IsAdmission) ignored _ _ (λ e. skipped-IsAdmission c _ h)
        (λ e.
          if_elim (Ok IsAdmission) (member name c.seen_names) _ _ (λ e. skipped-IsAdmission c _ h)
            (λ new.
              collect_video-IsAdmission m name (validate_video_filename L s name []) c
                (validate-IsAllowed name []) new h))

  collect_member-IsAdmission :
      (m : Member) (c : Collected) → IsAdmission c → Ok IsAdmission (collect_member F L s m c)
  unfolding collect_member
  collect_member-IsAdmission m c h =
      if_elim (Ok IsAdmission) m.is_dir _ _ (λ e. h)
        (λ e.
          Ok-bind (λ _. Unit {0}) IsAdmission (validate_member_path m) _ (Ok-any _)
            λ name _.
              Ok-bind (λ _. Unit {0}) IsAdmission (is_ignored_system_entry L name) _ (Ok-any _)
                λ ignored _. collect_named-IsAdmission m name ignored c h)

  collect_members-IsAdmission :
      (ms : List Member) (c : Collected)
      → IsAdmission c
      → Ok IsAdmission (collect_members F L s ms c)
  unfolding collect_members
  collect_members-IsAdmission [] c h = h
  collect_members-IsAdmission (m ∷ ms) c h =
      Ok-bind IsAdmission IsAdmission (collect_member F L s m c) _
        (collect_member-IsAdmission m c h) (λ c' h'. collect_members-IsAdmission ms c' h')

  pub collect_candidates-Ok : (ms : List Member) → Ok IsAdmission (collect_candidates F L s ms)
  unfolding collect_candidates
  collect_candidates-Ok ms =
      collect_members-IsAdmission ms nothing_collected
        (record { sizes = refl; budget = omega arith; videos = tt; names = tt; known = tt })

  -- If the candidates of an archive are collected without an error, then their sizes add up to the
  -- accepted size, which is within the limit of a batch; each is not empty, within the limits of
  -- its size and its compression ratio, and has an allowed extension; and no two have one name.
  pub collect_candidates-IsAdmission :
      (ms : List Member) (c : Collected) → collect_candidates F L s ms ≡ passed c → IsAdmission c
  collect_candidates-IsAdmission ms c h = rw h at (collect_candidates-Ok ms)
