-- ===== src/AutoShot/Merging.antt =====
-- What `_merge_runs` of participant_4_cut_detection/autoshot_detector.py makes of runs.
use cv_video_analysis.Common.{
  ◌-◌, ℕ, ◌+◌, ◌≤◌, ◌<◌, ◌≡◌, refl, Bool, false, ltb, ◌&&◌, ◌||◌, List, [], ◌∷◌, if_elim, All,
  All-mono, Any, leb, arith, Bool-cases, inl, inr,
}
use cv_video_analysis.AutoShot.{merge_into, merge_runs}
use cv_video_analysis.AutoShot.Runs.{in_runs, Separated}

abbrev pub StartsAfter : ℕ → List (ℕ × ℕ) → Type 0
StartsAfter frame [] = Unit
StartsAfter frame ((start, end) ∷ runs) = frame < start

-- More than `gap` frames lie between a run and the next.
abbrev pub Spread : ℕ → List (ℕ × ℕ) → Type 0
Spread gap [] = Unit
Spread gap ((start, end) ∷ runs) =
    (start ≤ end) × StartsAfter (end + 1 + gap) runs × Spread gap runs

merge_into-StartsAfter :
    (gap first last frame : ℕ) (runs : List (ℕ × ℕ))
    → frame < first
    → StartsAfter frame (merge_into gap first last runs)
unfolding merge_into
merge_into-StartsAfter gap first last frame [] h = h
merge_into-StartsAfter gap first last frame ((start, end) ∷ runs) h =
    if_elim (StartsAfter frame) (leb start (last + 1 + gap)) _ _
      (λ e. merge_into-StartsAfter gap first end frame runs h) (λ e. h)

merge_into-Spread :
    (gap first last : ℕ) (runs : List (ℕ × ℕ))
    → first ≤ last
    → Separated (last + 2) runs
    → Spread gap (merge_into gap first last runs)
unfolding merge_into
merge_into-Spread gap first last [] h k = (h, tt, tt)
merge_into-Spread gap first last ((start, end) ∷ runs) h (after, filled, rest) =
    if_elim (Spread gap) (leb start (last + 1 + gap)) _ _
      (λ e. merge_into-Spread gap first end runs (omega (arith, h, after, filled)) rest)
      (λ e. (
        h,
        merge_into-StartsAfter gap start end (last + 1 + gap) runs (ground arith),
        merge_into-Spread gap start end runs filled rest,
      ))

-- Whether a frame lies between two runs, the first of which ends at `last`, that no more than `gap`
-- frames separate.
abbrev pub in_short_gap : ℕ → ℕ → List (ℕ × ℕ) → ℕ → Bool
in_short_gap gap last [] frame = false
in_short_gap gap last ((start, end) ∷ runs) frame =
    (leb (start - (last + 1)) gap && (ltb last frame && ltb frame start))
    || in_short_gap gap end runs frame

abbrev pub in_gap_of : ℕ → List (ℕ × ℕ) → ℕ → Bool
in_gap_of gap [] frame = false
in_gap_of gap ((start, end) ∷ runs) frame = in_short_gap gap end runs frame

merge_into-frames :
    (gap first last frame : ℕ) (runs : List (ℕ × ℕ))
    → first ≤ last
    → Separated (last + 2) runs
    → in_runs (merge_into gap first last runs) frame ≡ (
        (leb first frame && leb frame last)
        || (in_runs runs frame || in_short_gap gap last runs frame))
unfolding merge_into
merge_into-frames gap first last frame [] le k = ground arith
merge_into-frames gap first last frame ((start, end) ∷ runs) le (after, filled, rest) =
    elim (Bool-cases (leb start (last + 1 + gap))) [
      | inl near ↦ rw near (
          rw (merge_into-frames gap first end frame runs (omega (arith, le, after, filled)) rest)
            (ground arith))
      | inr far ↦
          rw far (rw (merge_into-frames gap start end frame runs filled rest) (ground arith))
    ]

-- A run starts where one of the others starts, and ends where one of them ends.
abbrev pub Spans : List (ℕ × ℕ) → ℕ × ℕ → Type 0
Spans runs (first, last) =
    Any (λ (run : ℕ × ℕ). run.0 ≡ first) runs × Any (λ (run : ℕ × ℕ). run.1 ≡ last) runs

Spans-joined :
    (first last start end : ℕ) (runs : List (ℕ × ℕ)) (merged : ℕ × ℕ)
    → Spans ((first, end) ∷ runs) merged
    → Spans ((first, last) ∷ (start, end) ∷ runs) merged
Spans-joined first last start end runs (a, b) (inl h, inl k) = (inl h, inr (inl k))
Spans-joined first last start end runs (a, b) (inl h, inr k) = (inl h, inr (inr k))
Spans-joined first last start end runs (a, b) (inr h, inl k) = (inr (inr h), inr (inl k))
Spans-joined first last start end runs (a, b) (inr h, inr k) = (inr (inr h), inr (inr k))

Spans-more :
    (run : ℕ × ℕ) (runs : List (ℕ × ℕ)) (merged : ℕ × ℕ)
    → Spans runs merged
    → Spans (run ∷ runs) merged
Spans-more run runs (a, b) (h, k) = (inr h, inr k)

merge_into-Spans :
    (gap first last : ℕ) (runs : List (ℕ × ℕ))
    → All (Spans ((first, last) ∷ runs)) (merge_into gap first last runs)
unfolding merge_into
merge_into-Spans gap first last [] = ((inl refl, inl refl), tt)
merge_into-Spans gap first last ((start, end) ∷ runs) =
    if_elim (All (Spans ((first, last) ∷ (start, end) ∷ runs))) (leb start (last + 1 + gap)) _ _
      (λ e.
        All-mono (λ m h. Spans-joined first last start end runs m h) _
          (merge_into-Spans gap first end runs))
      (λ e. (
        (inl refl, inl refl),
        All-mono (λ m h. Spans-more (first, last) ((start, end) ∷ runs) m h) _
            (merge_into-Spans gap start end runs),
      ))

pub record IsMerged (gap : ℕ) (runs merged : List (ℕ × ℕ)) : Type 0 where
  pub spread : Spread gap merged
  pub spans : All (Spans runs) merged
  pub frames : (frame : ℕ) → in_runs merged frame ≡ (in_runs runs frame || in_gap_of gap runs frame)

-- If runs are not empty and stand in order with a frame between each two, the frames of the merged
-- runs are exactly those of the runs and of the gaps of at most the given length between
-- neighbouring runs; more than that length lies between merged runs, each of which starts and ends
-- where one of the runs does.
pub merge_runs-IsMerged :
    (gap : ℕ) (runs : List (ℕ × ℕ)) → Separated 0 runs → IsMerged gap runs (merge_runs gap runs)
unfolding merge_runs
merge_runs-IsMerged gap [] h = record { spread = tt; spans = tt; frames = λ frame. refl }
merge_runs-IsMerged gap ((start, end) ∷ runs) (from, filled, rest) = record {
  spread = merge_into-Spread gap start end runs filled rest;
  spans = merge_into-Spans gap start end runs;
  frames = λ frame. rw (merge_into-frames gap start end frame runs filled rest) (ground arith);
}
