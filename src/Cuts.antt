-- ===== src/Cuts.antt =====
-- participant_4_cut_detection/worker.py: what the cut worker keeps of a task, and how it maps what
-- the model reports of a chunk. Local frames are indices into the tensor.
pub mod Deduplication
pub mod Building
pub mod Taking
pub mod Owning
pub mod Tiling
pub mod Video
pub mod Worker
use cv_video_analysis.Common.{
  ℕ, suc, ◌+◌, ◌-◌, max, min, Bool, true, false, not, ◌&&◌, ◌||◌, Option, none, some, List, [], ◌∷◌,
  ◌++◌, if◌then◌else◌, ltb, leb, ◌==◌,
}
use cv_video_analysis.Common.Texts.{Text, codes, pad}
use cv_video_analysis.Common.Sorting.{sort_by}
use cv_video_analysis.Domain.Enums.{TransitionType, hard_cut, gradual_transition, type_eq}
use cv_video_analysis.Domain.Floats.{Floats, float_min, float_max}
use cv_video_analysis.Domain.Schemas.{FrameBatchMetadata}

-- What the model reports of a chunk.
pub data Detection (N : Type 0) : Type 0 where
  cut_at : ℕ → N → Detection N
  gradual_in : ℕ → ℕ → N → Detection N

pub record OwnedTransition (N : Type 0) : Type 0 where
  pub kind : TransitionType
  pub start_frame : ℕ
  pub end_frame : ℕ
  pub confidence : N

pub record CutSceneState (N : Type 0) : Type 0 where
  pub next_chunk_index : ℕ
  pub active_scene_number : ℕ
  pub pending_gradual_start_frame : Option ℕ
  pub pending_gradual_confidence : N

-- The exceptions; `negative_frame` is the ValidationError for a frame before the first one.
pub data CutError : Type 0 where
  local_range_outside : CutError
  negative_frame : CutError
  invalid_transition : CutError
  out_of_order : CutError
  invalid_result : CutError

pub data Built {ℓ} (A : Type ℓ) : Type ℓ where
  built : A → Built A
  failed : CutError → Built A

infixl 5 ◌>>=◌
abbrev pub ◌>>=◌ {ℓ κ} : {A : Type ℓ} {B : Type κ} → Built A → (A → Built B) → Built B
built a >>= f = f a
failed e >>= f = failed e

-- "gradual_transition" sorts before "hard_cut".
unfoldable pub type_le : TransitionType → TransitionType → Bool
type_le hard_cut gradual_transition = false
type_le hard_cut hard_cut = true
type_le gradual_transition t = true

module _ {N : Type 0} where
  unfoldable pub same_key : OwnedTransition N → OwnedTransition N → Bool
  same_key a b =
      type_eq a.kind b.kind && (a.start_frame == b.start_frame && a.end_frame == b.end_frame)

  -- The keys of the two sorts.
  unfoldable pub starts_before : OwnedTransition N → OwnedTransition N → Bool
  starts_before a b =
      ltb a.start_frame b.start_frame
      || (a.start_frame == b.start_frame && leb a.end_frame b.end_frame)

  unfoldable pub ends_before : OwnedTransition N → OwnedTransition N → Bool
  ends_before a b =
      ltb a.end_frame b.end_frame
      || (a.end_frame == b.end_frame
          && (ltb a.start_frame b.start_frame
              || (a.start_frame == b.start_frame && type_le a.kind b.kind)))

  unfoldable pub is_gradual : OwnedTransition N → Bool
  unfolding type_eq
  is_gradual a = type_eq a.kind gradual_transition

  unfoldable pub gradual_of : List (OwnedTransition N) → List (OwnedTransition N)
  gradual_of [] = []
  gradual_of (a ∷ l) = let rest = gradual_of l in if is_gradual a then a ∷ rest else rest

  -- The first transition that spans the frame before the valid range, and the list without it. The
  -- frame before frame 0 is -1, which none spans.
  unfoldable pub spans_boundary : ℕ → OwnedTransition N → Bool
  spans_boundary valid_start a = ltb a.start_frame valid_start && leb valid_start (a.end_frame + 1)

  unfoldable pub kept_before :
      OwnedTransition N
      → Option (OwnedTransition N × List (OwnedTransition N))
      → Option (OwnedTransition N × List (OwnedTransition N))
  kept_before a none = none
  kept_before a (some (found, rest)) = some (found, a ∷ rest)

  unfoldable pub take_spanning :
      ℕ → List (OwnedTransition N) → Option (OwnedTransition N × List (OwnedTransition N))
  unfolding spans_boundary kept_before
  take_spanning valid_start [] = none
  take_spanning valid_start (a ∷ l) =
      let later = kept_before a (take_spanning valid_start l) in
      if spans_boundary valid_start a then some (a, l) else later

module _ {N : Type 0} (F : Floats N) where
  -- `min(1.0, max(0.0, confidence))`
  unfoldable pub clamped : N → N
  unfolding float_min float_max
  clamped x = float_min F (F.of_nat 1) (float_max F (F.of_nat 0) x)

  unfoldable pub add_owned : List (OwnedTransition N) → OwnedTransition N → List (OwnedTransition N)
  unfolding same_key
  add_owned [] candidate = candidate ∷ []
  add_owned (existing ∷ l) candidate =
      let rest = existing ∷ add_owned l candidate in
      if same_key existing candidate
      then if F.lt existing.confidence candidate.confidence then candidate ∷ l else existing ∷ l
      else rest

  -- The mapping of one detection, and the checks of its local range.
  unfoldable pub map_range :
      FrameBatchMetadata → TransitionType → ℕ → ℕ → N → Built (OwnedTransition N)
  unfolding clamped
  map_range batch kind local_start local_end confidence =
      if leb local_start local_end && ltb local_end batch.frame_count
      then built (record {
        kind = kind;
        start_frame = batch.context_start_frame + local_start;
        end_frame = batch.context_start_frame + local_end;
        confidence = clamped confidence;
      })
      else failed local_range_outside

  unfoldable pub map_detection : FrameBatchMetadata → Detection N → Built (OwnedTransition N)
  unfolding map_range
  map_detection batch (cut_at frame confidence) = map_range batch hard_cut frame frame confidence
  map_detection batch (gradual_in start end confidence) =
      map_range batch gradual_transition start end confidence

  unfoldable pub map_detections :
      FrameBatchMetadata → List (Detection N) → Built (List (OwnedTransition N))
  unfolding map_detection
  map_detections batch [] = built []
  map_detections batch (d ∷ ds) = do
    a ← map_detection batch d
    l ← map_detections batch ds
    built (a ∷ l)
