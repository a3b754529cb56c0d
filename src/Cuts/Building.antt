-- ===== src/Cuts/Building.antt =====
-- `build_cut_result` of participant_4_cut_detection/worker.py, and the validation of the message that
-- it makes in backend/app/domain/schemas.py. The timestamps are left out.
use cv_video_analysis.Cuts.{
  Detection, OwnedTransition, CutSceneState, out_of_order, invalid_transition, invalid_result,
  Built, built, failed, ◌>>=◌,
}
use cv_video_analysis.Cuts.Deduplication.{Collected, deduplicate_owned_transitions}
use cv_video_analysis.Coordinator.{CutResultMessage}
use cv_video_analysis.Results.{SceneInterval, Transition}
use cv_video_analysis.Common.{
  false, is_some, ℕ, ◌+◌, max, Bool, true, not, ◌&&◌, ◌||◌, Option, none, some, List, [], ◌∷◌, ◌++◌,
  if◌then◌else◌, leb, ◌==◌,
}
use cv_video_analysis.Common.Texts.{Text, codes, pad}
use cv_video_analysis.Domain.Enums.{TransitionType, hard_cut, gradual_transition, type_eq}
use cv_video_analysis.Domain.Floats.{Floats}
use cv_video_analysis.Domain.Schemas.{FrameBatchMetadata}

-- `f"{batch.task_id}:scene:{scene_number}"`
unfoldable pub scene_id : Text → ℕ → Text
scene_id task number = task ++ (codes ":scene:" ++ pad 1 number)

unfoldable pub scene_of : Text → ℕ → ℕ → ℕ → SceneInterval
unfolding scene_id
scene_of task number start end = record {
  scene_id = scene_id task number;
  start_frame = start;
  end_frame = end;
}

-- The scene, unless it would be empty.
unfoldable pub scene_until : Text → ℕ → ℕ → ℕ → List SceneInterval
unfolding scene_of
scene_until task number start end =
    if leb start end then scene_of task number start end ∷ [] else []

-- `validate_transition_shape`, but for the timestamps, which are given with their frames.
unfoldable pub has_shape : TransitionType → Option ℕ → Option ℕ → Option ℕ → Bool
has_shape hard_cut frame start end = is_some frame
has_shape gradual_transition frame (some start) (some end) = leb start end
has_shape gradual_transition frame (some start) none = false
has_shape gradual_transition frame none end = false

module _ {N : Type 0} where
  unfoldable pub transition_as : TransitionType → OwnedTransition N → Transition N
  transition_as hard_cut a = record {
    kind = hard_cut;
    confidence = a.confidence;
    frame = some a.end_frame;
    start_frame = none;
    end_frame = none;
  }
  transition_as gradual_transition a = record {
    kind = gradual_transition;
    confidence = a.confidence;
    frame = none;
    start_frame = some a.start_frame;
    end_frame = some a.end_frame;
  }

  unfoldable pub transitions_of : List (OwnedTransition N) → List (Transition N)
  unfolding transition_as
  transitions_of [] = []
  transitions_of (a ∷ l) = transition_as a.kind a ∷ transitions_of l

  -- The loop over the owned transitions: the scenes, and the number and the start of the next one.
  unfoldable pub scan_owned : Text → List (OwnedTransition N) → ℕ → ℕ → List SceneInterval × ℕ × ℕ
  unfolding scene_until
  scan_owned task [] number start = ([], number, start)
  scan_owned task (a ∷ l) number start =
      let (scenes, number', start') =
        scan_owned task l (number + 1) (max start (a.end_frame + 1)) in
      (scene_until task number start a.end_frame ++ scenes, number', start')

  -- The frame at which a transition ends.
  unfoldable pub anchor : Transition N → Option ℕ
  anchor t = elim t.kind [ hard_cut ↦ t.frame | gradual_transition ↦ t.end_frame ]

  unfoldable pub owns_anchor : CutResultMessage N → Bool → Option ℕ → Bool
  owns_anchor m gradual none = false
  owns_anchor m gradual (some frame) =
      (gradual && frame + 1 == m.valid_start_frame)
      || (leb m.valid_start_frame frame && leb frame m.valid_end_frame)

  unfoldable pub owns_all : CutResultMessage N → List (Transition N) → Bool
  unfolding anchor owns_anchor
  owns_all m [] = true
  owns_all m (t ∷ ts) =
      owns_anchor m (type_eq t.kind gradual_transition) (anchor t) && owns_all m ts

  unfoldable pub clips_all : CutResultMessage N → List SceneInterval → Bool
  clips_all m [] = true
  clips_all m (s ∷ l) =
      (leb m.valid_start_frame s.start_frame
        && (leb s.start_frame s.end_frame && leb s.end_frame m.valid_end_frame))
      && clips_all m l

  -- `validate_owned_output_range`
  unfoldable pub accepts_cut_result : CutResultMessage N → Bool
  unfolding owns_all clips_all
  accepts_cut_result m =
      (leb m.context_start_frame m.valid_start_frame
        && (leb m.valid_start_frame m.valid_end_frame && leb m.valid_end_frame m.context_end_frame))
      && (owns_all m m.transitions && clips_all m m.scenes)

  abbrev pub result_message :
      FrameBatchMetadata → N → List (Transition N) → List SceneInterval → CutResultMessage N
  result_message batch fps transitions scenes = record {
    task_id = batch.task_id;
    chunk_id = batch.chunk_id;
    chunk_index = batch.chunk_index;
    object_ref = batch.object_ref;
    fps = fps;
    context_start_frame = batch.context_start_frame;
    context_end_frame = batch.context_end_frame;
    valid_start_frame = batch.valid_start_frame;
    valid_end_frame = batch.valid_end_frame;
    transitions = transitions;
    scenes = scenes;
    is_last = batch.is_last;
  }

  abbrev pub next_state : FrameBatchMetadata → ℕ → Collected N → CutSceneState N
  next_state batch number c = record {
    next_chunk_index = batch.chunk_index + 1;
    active_scene_number = number;
    pending_gradual_start_frame = c.previous_start;
    pending_gradual_confidence = c.previous_confidence;
  }

  unfoldable pub accepted :
      CutResultMessage N → CutSceneState N → Built (CutResultMessage N × CutSceneState N)
  unfolding accepts_cut_result
  accepted m state = if accepts_cut_result m then built (m, state) else failed invalid_result

  -- `Transition`: `Field(ge=0.0, le=1.0)` of the confidence, and the shape.
  unfoldable pub accepts_transition : Floats N → Transition N → Bool
  unfolding has_shape
  accepts_transition F t =
      (not (F.lt t.confidence (F.of_nat 0)) && not (F.lt (F.of_nat 1) t.confidence))
      && has_shape t.kind t.frame t.start_frame t.end_frame

  unfoldable pub accepts_transitions : Floats N → List (Transition N) → Bool
  unfolding accepts_transition
  accepts_transitions F [] = true
  accepts_transitions F (t ∷ ts) = accepts_transition F t && accepts_transitions F ts

  -- From the owned transitions on.
  unfoldable pub result_of :
      Floats N
      → FrameBatchMetadata
      → N
      → ℕ
      → Collected N
      → Built (CutResultMessage N × CutSceneState N)
  unfolding accepts_transitions accepted scan_owned transitions_of scene_until
  result_of F batch fps active c =
      let (scenes, number, start) =
        scan_owned batch.task_id c.owned active batch.valid_start_frame in
      let message =
        result_message batch fps (transitions_of c.owned)
          (scenes ++ scene_until batch.task_id number start batch.valid_end_frame) in
      let result = accepted message (next_state batch number c) in
      if not (accepts_transitions F (transitions_of c.owned))
      then failed invalid_transition
      else result

unfoldable pub build_cut_result :
    {N : Type 0}
    → Floats N
    → FrameBatchMetadata
    → N
    → List (Detection N)
    → CutSceneState N
    → Built (CutResultMessage N × CutSceneState N)
unfolding result_of
build_cut_result F batch fps detections state =
    if not (batch.chunk_index == state.next_chunk_index)
    then failed out_of_order
    else deduplicate_owned_transitions F batch detections state
      >>= result_of F batch fps state.active_scene_number
