-- ===== src/Cuts/Deduplication.antt =====
-- `_deduplicate_owned_transitions` of participant_4_cut_detection/worker.py: which transitions a chunk
-- owns, and which one waits for the next chunk.
use cv_video_analysis.Cuts.{
  Detection, OwnedTransition, CutSceneState, negative_frame, Built, built, failed, ◌>>=◌,
  map_detections, add_owned, is_gradual, gradual_of, take_spanning, starts_before, ends_before,
}
use cv_video_analysis.Common.{
  ℕ, ◌-◌, min, Bool, false, not, ◌&&◌, ◌||◌, Option, none, some, List, [], ◌∷◌, if◌then◌else◌, ltb,
  leb, ◌==◌,
}
use cv_video_analysis.Common.Sorting.{sort_by}
use cv_video_analysis.Domain.Enums.{gradual_transition}
use cv_video_analysis.Domain.Floats.{Floats, float_max}
use cv_video_analysis.Domain.Schemas.{FrameBatchMetadata}

-- The loops' state: the dictionary `owned`, in the order of its keys, and `previous_start` with
-- `previous_confidence`.
pub record Collected (N : Type 0) : Type 0 where
  pub owned : List (OwnedTransition N)
  pub previous_start : Option ℕ
  pub previous_confidence : N

module _ {N : Type 0} (F : Floats N) where
  abbrev pub nothing_pending : List (OwnedTransition N) → Collected N
  nothing_pending owned = record {
    owned = owned;
    previous_start = none;
    previous_confidence = F.of_nat 0;
  }

  abbrev pub combine : ℕ → N → OwnedTransition N → OwnedTransition N
  combine start confidence candidate = record candidate {
    kind = gradual_transition;
    start_frame = min start candidate.start_frame;
    confidence = float_max F confidence candidate.confidence;
  }

  -- A transition that reaches the end of the context waits for the next chunk.
  unfoldable pub waits : FrameBatchMetadata → OwnedTransition N → Bool
  waits batch a = a.end_frame == batch.context_end_frame && not batch.is_last

  unfoldable pub own_or_wait : FrameBatchMetadata → OwnedTransition N → Collected N
  unfolding waits
  own_or_wait batch a =
      if waits batch a
      then record {
        owned = [];
        previous_start = some a.start_frame;
        previous_confidence = a.confidence;
      }
      else nothing_pending (a ∷ [])

  -- What becomes of a transition that the chunk before left pending, with the gradual transitions
  -- that are left.
  unfoldable pub settle_spanned :
      FrameBatchMetadata
      → ℕ
      → N
      → List (OwnedTransition N)
      → Option (OwnedTransition N × List (OwnedTransition N))
      → Built (Collected N × List (OwnedTransition N))
  unfolding own_or_wait
  settle_spanned batch start confidence gradual none =
      if batch.valid_start_frame == 0
      then failed negative_frame
      else built (
        nothing_pending (
            record {
              kind = gradual_transition;
              start_frame = start;
              end_frame = batch.valid_start_frame - 1;
              confidence = confidence;
            }
            ∷ []),
        gradual,
      )
  settle_spanned batch start confidence gradual (some (candidate, rest)) =
      built (own_or_wait batch (combine start confidence candidate), rest)

  unfoldable pub settle_pending :
      FrameBatchMetadata
      → Option ℕ
      → N
      → List (OwnedTransition N)
      → Built (Collected N × List (OwnedTransition N))
  unfolding settle_spanned take_spanning
  settle_pending batch none confidence gradual =
      built
        (record { owned = []; previous_start = none; previous_confidence = confidence }, gradual)
  settle_pending batch (some start) confidence gradual =
      settle_spanned batch start confidence gradual (take_spanning batch.valid_start_frame gradual)

  unfoldable pub wait_with : OwnedTransition N → Collected N → Option ℕ → Collected N
  unfolding float_max
  wait_with a c none = record c {
    previous_start = some a.start_frame;
    previous_confidence = a.confidence;
  }
  wait_with a c (some start) = record c {
    previous_start = some (min start a.start_frame);
    previous_confidence = float_max F c.previous_confidence a.confidence;
  }

  -- The loop over the gradual transitions.
  unfoldable pub collect_gradual :
      FrameBatchMetadata → OwnedTransition N → Collected N → Collected N
  unfolding waits wait_with add_owned
  collect_gradual batch a c =
      if ltb a.end_frame batch.valid_start_frame
      then c
      else if waits batch a
      then wait_with a c c.previous_start
      else if leb a.end_frame batch.valid_end_frame
      then record c { owned = add_owned F c.owned a }
      else c

  unfoldable pub collect_all :
      FrameBatchMetadata → List (OwnedTransition N) → Collected N → Collected N
  unfolding collect_gradual
  collect_all batch [] c = c
  collect_all batch (a ∷ l) c = collect_all batch l (collect_gradual batch a c)

  -- `any(start <= item.end_frame <= end for start, end in gradual_ranges)`
  unfoldable pub covered_by : List (OwnedTransition N) → ℕ → Bool
  unfolding is_gradual
  covered_by [] frame = false
  covered_by (a ∷ l) frame =
      (is_gradual a && (leb a.start_frame frame && leb frame a.end_frame)) || covered_by l frame

  -- The loop over the hard cuts; `ranges` is what was owned before it.
  unfoldable pub collect_cut :
      FrameBatchMetadata
      → List (OwnedTransition N)
      → OwnedTransition N
      → List (OwnedTransition N)
      → List (OwnedTransition N)
  unfolding is_gradual covered_by add_owned
  collect_cut batch ranges a owned =
      if is_gradual a
      then owned
      else if not (leb batch.valid_start_frame a.end_frame && leb a.end_frame batch.valid_end_frame)
      then owned
      else if covered_by ranges a.end_frame
      then owned
      else add_owned F owned a

  unfoldable pub collect_cuts :
      FrameBatchMetadata
      → List (OwnedTransition N)
      → List (OwnedTransition N)
      → List (OwnedTransition N)
      → List (OwnedTransition N)
  unfolding collect_cut
  collect_cuts batch ranges [] owned = owned
  collect_cuts batch ranges (a ∷ l) owned =
      collect_cuts batch ranges l (collect_cut batch ranges a owned)

  -- From the settled transition to the end of `_deduplicate_owned_transitions`.
  unfoldable pub collect :
      FrameBatchMetadata
      → List (OwnedTransition N)
      → Collected N × List (OwnedTransition N)
      → Collected N
  unfolding collect_all collect_cuts ends_before
  collect batch mapped (c, gradual) =
      let c' = collect_all batch gradual c in
      record c' { owned = sort_by ends_before (collect_cuts batch c'.owned mapped c'.owned) }

  unfoldable pub deduplicate_owned_transitions :
      FrameBatchMetadata → List (Detection N) → CutSceneState N → Built (Collected N)
  unfolding map_detections settle_pending collect gradual_of starts_before
  deduplicate_owned_transitions batch detections state = do
    mapped ← map_detections F batch detections
    settled ←
        settle_pending batch state.pending_gradual_start_frame state.pending_gradual_confidence
          (sort_by starts_before (gradual_of mapped))
    built (collect batch mapped settled)
