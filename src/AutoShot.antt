-- ===== src/AutoShot.antt =====
-- participant_4_cut_detection/autoshot_detector.py: the runs of positive frames, `_positive_runs` and
-- `_merge_runs`, and the windows of `predict_transition_probabilities`.
pub mod Runs
pub mod Merging
pub mod Windows
use cv_video_analysis.Common.{
  ℕ, ◌+◌, ◌-◌, Bool, true, false, Option, none, some, List, [], ◌∷◌, if◌then◌else◌, leb, ltb, ◌==◌,
  not, min, zero, suc,
}

-- `flatnonzero(changes == 1)`: where a frame is positive and the one before it, or the padding, is not.
unfoldable pub rises : Bool → ℕ → List Bool → List ℕ
rises before i [] = []
rises false i (true ∷ mask) = i ∷ rises true (i + 1) mask
rises true i (true ∷ mask) = rises true (i + 1) mask
rises before i (false ∷ mask) = rises false (i + 1) mask

-- `flatnonzero(changes == -1)`, the padding at the end included.
unfoldable pub falls : Bool → ℕ → List Bool → List ℕ
falls true i [] = i ∷ []
falls false i [] = []
falls true i (false ∷ mask) = i ∷ falls false (i + 1) mask
falls false i (false ∷ mask) = falls false (i + 1) mask
falls before i (true ∷ mask) = falls true (i + 1) mask

abbrev pub add_run : ℕ × ℕ → Option (List (ℕ × ℕ)) → Option (List (ℕ × ℕ))
add_run run none = none
add_run run (some runs) = some (run ∷ runs)

-- `zip(..., strict=True)`: `none` is its ValueError.
unfoldable pub zip_runs : List ℕ → List ℕ → Option (List (ℕ × ℕ))
zip_runs [] [] = some []
zip_runs [] (end_exclusive ∷ ends) = none
zip_runs (start ∷ starts) [] = none
zip_runs (start ∷ starts) (end_exclusive ∷ ends) =
    add_run (start, end_exclusive - 1) (zip_runs starts ends)

unfoldable pub positive_runs : List Bool → Option (List (ℕ × ℕ))
unfolding rises falls zip_runs
positive_runs mask = zip_runs (rises false 0 mask) (falls false 0 mask)

-- The loop of `_merge_runs` from its last run on.
unfoldable pub merge_into : ℕ → ℕ → ℕ → List (ℕ × ℕ) → List (ℕ × ℕ)
merge_into gap first last [] = (first, last) ∷ []
merge_into gap first last ((start, end) ∷ runs) =
    let joined = merge_into gap first end runs in
    let apart = (first, last) ∷ merge_into gap start end runs in
    if leb start (last + 1 + gap) then joined else apart

unfoldable pub merge_runs : ℕ → List (ℕ × ℕ) → List (ℕ × ℕ)
unfolding merge_into
merge_runs gap [] = []
merge_runs gap ((start, end) ∷ runs) = merge_into gap start end runs

abbrev pub add_window : ℕ × ℕ → Option (List (ℕ × ℕ)) → Option (List (ℕ × ℕ))
add_window window none = none
add_window window (some windows) = some (window ∷ windows)

module _ (inference_window inference_overlap frame_count : ℕ) where
  -- The loop of `predict_transition_probabilities`, as the windows whose scores it adds; `none` is a
  -- loop that has used up its fuel.
  unfoldable pub windows_from : ℕ → ℕ → Option (List (ℕ × ℕ))
  windows_from zero start = none
  windows_from (suc fuel) start =
      let end = min (start + inference_window) frame_count in
      let rest = windows_from fuel (start + (inference_window - inference_overlap)) in
      if not (ltb start frame_count)
      then some []
      else if end == frame_count
      then some ((start, end) ∷ [])
      else add_window (start, end) rest

  unfoldable pub score_windows : ℕ → Option (List (ℕ × ℕ))
  unfolding windows_from
  score_windows fuel =
      if leb frame_count inference_window then some ((0, frame_count) ∷ []) else windows_from fuel 0
