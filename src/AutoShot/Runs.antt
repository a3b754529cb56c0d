-- ===== src/AutoShot/Runs.antt =====
-- What `_positive_runs` of participant_4_cut_detection/autoshot_detector.py answers.
use cv_video_analysis.Common.{
  ℕ, ◌+◌, ◌-◌, ◌≤◌, ◌<◌, ◌≡◌, refl, Bool, true, false, ◌&&◌, ◌||◌, Option, none, some, List, [],
  ◌∷◌, leb, ltb, arith,
}
use cv_video_analysis.AutoShot.{rises, falls, zip_runs, positive_runs}

-- The runs by one scan; `start` is that of an open run.
abbrev scan : Option ℕ → ℕ → List Bool → List (ℕ × ℕ)
scan none i [] = []
scan (some start) i [] = (start, i - 1) ∷ []
scan none i (true ∷ mask) = scan (some i) (i + 1) mask
scan none i (false ∷ mask) = scan none (i + 1) mask
scan (some start) i (true ∷ mask) = scan (some start) (i + 1) mask
scan (some start) i (false ∷ mask) = (start, i - 1) ∷ scan none (i + 1) mask

abbrev ZipsBoth : ℕ → List Bool → Type 0
ZipsBoth i mask =
    (zip_runs (rises false i mask) (falls false i mask) ≡ some (scan none i mask))
    × ((start : ℕ)
        → zip_runs (start ∷ rises true i mask) (falls true i mask)
          ≡ some (scan (some start) i mask))

-- There are as many rises as falls, and they pair up.
zip_runs-scan : (i : ℕ) (mask : List Bool) → ZipsBoth i mask
unfolding zip_runs rises falls
zip_runs-scan i [] = (refl, λ start. refl)
zip_runs-scan i (true ∷ mask) = let h = zip_runs-scan (i + 1) mask in (h.1 i, λ start. h.1 start)
zip_runs-scan i (false ∷ mask) = let h = zip_runs-scan (i + 1) mask in (h.0, λ start. rw (h.0) refl)

-- Whether a frame is in one of the runs.
abbrev pub in_runs : List (ℕ × ℕ) → ℕ → Bool
in_runs [] frame = false
in_runs ((start, end) ∷ runs) frame = (leb start frame && leb frame end) || in_runs runs frame

-- Whether the mask, whose first frame has number `i`, is positive at a frame.
abbrev pub is_positive : ℕ → List Bool → ℕ → Bool
is_positive i [] frame = false
is_positive i (positive ∷ mask) frame =
    (positive && (leb i frame && leb frame i)) || is_positive (i + 1) mask frame

-- The runs are not empty, stand in order from a frame on, and a frame lies between each two.
abbrev pub Separated : ℕ → List (ℕ × ℕ) → Type 0
Separated from [] = Unit
Separated from ((start, end) ∷ runs) = (from ≤ start) × (start ≤ end) × Separated (end + 2) runs

Separated-from : (a b : ℕ) (runs : List (ℕ × ℕ)) → b ≤ a → Separated a runs → Separated b runs
Separated-from a b [] h k = tt
Separated-from a b ((start, end) ∷ runs) h (from, filled, rest) =
    (omega (arith, from, h), filled, rest)

scan-Separated :
    (i : ℕ) (mask : List Bool)
    → Separated i (scan none i mask)
      × ((from start : ℕ) → from ≤ start → start < i → Separated from (scan (some start) i mask))
scan-Separated i [] = (tt, λ from start a b. (a, omega (arith, b), tt))
scan-Separated i (true ∷ mask) =
    let h = scan-Separated (i + 1) mask in
    (h.1 i i (omega arith) (omega arith), λ from start a b. h.1 from start a (omega (arith, b)))
scan-Separated i (false ∷ mask) =
    let h = scan-Separated (i + 1) mask in
    (
      Separated-from (i + 1) i (scan none (i + 1) mask) (omega arith) h.0,
      λ from start a b. (
        a,
        omega (arith, b),
        Separated-from (i + 1) (i - 1 + 2) (scan none (i + 1) mask) (omega (arith, b)) h.0,
      ),
    )

scan-in_runs :
    (i : ℕ) (mask : List Bool) (frame : ℕ)
    → (in_runs (scan none i mask) frame ≡ is_positive i mask frame)
      × ((start : ℕ)
          → start < i
          → in_runs (scan (some start) i mask) frame
            ≡ ((leb start frame && ltb frame i) || is_positive i mask frame))
scan-in_runs i [] frame = (refl, λ start h. ground arith)
scan-in_runs i (true ∷ mask) frame =
    let h = scan-in_runs (i + 1) mask frame in
    (
      rw (h.1 i (omega arith)) (ground arith),
      λ start k. rw (h.1 start (omega (arith, k))) (ground arith),
    )
scan-in_runs i (false ∷ mask) frame =
    let h = scan-in_runs (i + 1) mask frame in (rw (h.0) refl, λ start k. rw (h.0) (ground arith))

pub record AreRuns (mask : List Bool) (runs : List (ℕ × ℕ)) : Type 0 where
  pub same_frames : (frame : ℕ) → in_runs runs frame ≡ is_positive 0 mask frame
  pub separated : Separated 0 runs

-- For every mask the strict zip pairs all rises with falls, and the runs contain exactly the
-- positive frames, are not empty, stand in order, and have a frame between each two.
pub positive_runs-AreRuns :
    (mask : List Bool)
    → (runs : List (ℕ × ℕ)) × (positive_runs mask ≡ some runs) × AreRuns mask runs
unfolding positive_runs
positive_runs-AreRuns mask = (
  scan none 0 mask,
  (zip_runs-scan 0 mask).0,
  record {
    same_frames = λ frame. (scan-in_runs 0 mask frame).0;
    separated = (scan-Separated 0 mask).0;
  },
)
