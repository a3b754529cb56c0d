-- ===== src/Examples/Boundaries.antt =====
-- Runs of positive frames: two that the gap of one frame joins.
use cv_video_analysis.Common.{arith, ℕ, ◌≡◌, Bool, true, false, some, List, [], ◌∷◌}
use cv_video_analysis.AutoShot.{positive_runs, merge_runs, score_windows}
use cv_video_analysis.AutoShot.Windows.{Cover, score_windows-Cover}
use cv_video_analysis.AutoShot.Runs.{AreRuns, Separated, positive_runs-AreRuns}
use cv_video_analysis.AutoShot.Merging.{IsMerged, merge_runs-IsMerged}

abbrev mask : List Bool
mask = false ∷ true ∷ true ∷ false ∷ true ∷ []

positive_runs-AreRuns_example :
    (runs : List (ℕ × ℕ)) × (positive_runs mask ≡ some runs) × AreRuns mask runs
positive_runs-AreRuns_example = positive_runs-AreRuns mask

abbrev runs : List (ℕ × ℕ)
runs = (1, 2) ∷ (4, 4) ∷ []

apart : Separated 0 runs
apart = (omega arith, omega arith, (omega arith, omega arith, tt))

merge_runs-IsMerged_example : IsMerged 1 runs (merge_runs 1 runs)
merge_runs-IsMerged_example = merge_runs-IsMerged 1 runs apart

score_windows-Cover_example : Cover 8 3 20 0 (score_windows 8 3 20 21)
score_windows-Cover_example = score_windows-Cover 8 3 20 (omega arith) (omega arith)
