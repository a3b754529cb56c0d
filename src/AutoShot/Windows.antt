-- ===== src/AutoShot/Windows.antt =====
-- The windows of `predict_transition_probabilities` in
-- participant_4_cut_detection/autoshot_detector.py cover the frames, and the loop over them ends.
use cv_video_analysis.Common.{
  ℕ, ◌+◌, ◌-◌, ◌≤◌, ◌<◌, ◌≡◌, Bool, true, false, not, ◌&&◌, ◌||◌, Option, none, some, List, [], ◌∷◌,
  if_elim, All, leb, ltb, ◌==◌, min, zero, suc, arith,
}
use cv_video_analysis.AutoShot.{add_window, windows_from, score_windows}

-- Whether a frame is in one of the windows, whose ends are exclusive.
abbrev pub in_windows : List (ℕ × ℕ) → ℕ → Bool
in_windows [] frame = false
in_windows ((start, end) ∷ windows) frame =
    (leb start frame && ltb frame end) || in_windows windows frame

module _ (inference_window inference_overlap frame_count : ℕ) where
  -- A window fits the model and the video.
  abbrev pub Fits : ℕ × ℕ → Type 0
  Fits (start, end) = (start < end) × (end ≤ frame_count) × (end ≤ start + inference_window)

  -- The windows from a frame on.
  abbrev pub Cover : ℕ → Option (List (ℕ × ℕ)) → Type 0
  Cover start none = ⊥
  Cover start (some windows) =
      All Fits windows
      × ((frame : ℕ) → start ≤ frame → frame < frame_count → in_windows windows frame ≡ true)

  add_window-Cover :
      (start next end : ℕ) (o : Option (List (ℕ × ℕ)))
      → Fits (start, end)
      → next ≤ end
      → Cover next o
      → Cover start (add_window (start, end) o)
  add_window-Cover start next end none f le h = elim h [ ]
  add_window-Cover start next end (some windows) f le (fit, cover) =
      ((f, fit), λ frame a b. ground (arith, cover frame))

  windows_from-Cover :
      (fuel start : ℕ)
      → inference_overlap < inference_window
      → start ≤ frame_count
      → frame_count < start + fuel
      → Cover start (windows_from inference_window inference_overlap frame_count fuel start)
  unfolding windows_from
  windows_from-Cover zero start gap within enough = absurd (omega (arith, within, enough))
  windows_from-Cover (suc fuel) start gap within enough =
      let end = min (start + inference_window) frame_count in
      let next = start + (inference_window - inference_overlap) in
      if_elim (Cover start) (not (ltb start frame_count)) _ _
        (λ done. (tt, λ frame a b. absurd (ground arith)))
        (λ more.
          if_elim (Cover start) (end == frame_count) _ _
            (λ last. (((ground arith, ground arith, ground arith), tt), λ frame a b. ground arith))
            (λ middle.
              add_window-Cover start next end _ (ground arith, ground arith, ground arith)
                (ground arith) (windows_from-Cover fuel next gap (ground arith) (ground arith))))

  -- For at least one frame and an overlap below the window, fuel of one more than the frames
  -- suffices, each window is not empty, ends within the frames and is no longer than the model's,
  -- and every frame is in a window.
  pub score_windows-Cover :
      0 < frame_count
      → inference_overlap < inference_window
      → Cover 0 (score_windows inference_window inference_overlap frame_count (frame_count + 1))
  unfolding score_windows
  score_windows-Cover some_frames gap =
      if_elim (Cover 0) (leb frame_count inference_window) _ _
        (λ e. (((some_frames, omega arith, ground arith), tt), λ frame a b. ground arith))
        (λ e. windows_from-Cover (frame_count + 1) 0 gap (omega arith) (omega arith))
