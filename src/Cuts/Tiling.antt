-- ===== src/Cuts/Tiling.antt =====
-- The scenes of a cut result in participant_4_cut_detection/worker.py: they tile the valid range.
use cv_video_analysis.Cuts.{Detection, OwnedTransition, CutSceneState, built, ◌>>=◌, is_gradual}
use cv_video_analysis.Cuts.Owning.{IsLocal, IsWindow, PendingBelow, Owns, deduplicate-Ready}
use cv_video_analysis.Cuts.Building.{
  has_shape, accepts_transition, accepts_transitions, scene_id, scene_until, transition_as,
  transitions_of, scan_owned, anchor, owns_anchor, owns_all, clips_all, accepts_cut_result,
  accepted, next_state, result_message, result_of, build_cut_result,
}
use cv_video_analysis.Coordinator.{CutResultMessage}
use cv_video_analysis.Results.{SceneInterval}
use cv_video_analysis.Common.{
  ℕ, ◌+◌, ◌≤◌, suc, ◌≡◌, refl, true, false, List, [], ◌∷◌, ◌++◌, All, arith, if_elim, leb, ◌==◌, ap,
  ◌∙◌, max, length, All-mono,
}
use cv_video_analysis.Common.Texts.{Text}
use cv_video_analysis.Domain.Enums.{TransitionType, hard_cut, gradual_transition, type_eq}
use cv_video_analysis.Domain.Floats.{Floats, IsUnit}
use cv_video_analysis.Domain.Schemas.{FrameBatchMetadata}

-- The scenes follow one another from `start` to `end`, with rising numbers from `number` to `last`.
abbrev pub Tiles : Text → ℕ → ℕ → ℕ → ℕ → List SceneInterval → Type 0
Tiles task start end number last [] = (start ≡ end + 1) × (number ≤ last + 1)
Tiles task start end number last (scene ∷ scenes) =
    (k : ℕ) × (scene.scene_id ≡ scene_id task k)
    × (number ≤ k)
    × (k ≤ last)
    × (scene.start_frame ≡ start)
    × (start ≤ scene.end_frame)
    × (scene.end_frame ≤ end)
    × Tiles task (scene.end_frame + 1) end (k + 1) last scenes

pub Tiles-lower :
    (task : Text) (start end number last : ℕ) (scenes : List SceneInterval)
    → Tiles task start end (number + 1) last scenes
    → Tiles task start end number last scenes
Tiles-lower task start end number last [] h = (h.0, omega arith)
Tiles-lower task start end number last (scene ∷ scenes) (k, id, le, below, s, f, e, rest) =
    (k, id, omega arith, below, s, f, e, rest)

Tiles-from :
    (task : Text) (s start end number last : ℕ) (scenes : List SceneInterval)
    → s ≡ start
    → Tiles task s end number last scenes
    → Tiles task start end number last scenes
Tiles-from task s start end number last scenes e h = rw (← e) h

last_scene-Tiles :
    (task : Text) (number start end : ℕ)
    → start ≤ end + 1
    → Tiles task start end number number (scene_until task number start end)
unfolding scene_until scene_id
last_scene-Tiles task number start end le =
    if_elim (Tiles task start end number number) (leb start end) _ _
      (λ e. (
        number,
        refl,
        omega arith,
        omega arith,
        refl,
        ground arith,
        omega arith,
        (refl, omega arith),
      ))
      (λ e. (ground arith, omega arith))

module _ {N : Type 0} where
  scan_owned-number :
      (task : Text) (l : List (OwnedTransition N)) (number start : ℕ)
      → (scan_owned task l number start).1 ≡ number + length l
  unfolding scan_owned
  scan_owned-number task [] number start = omega arith
  scan_owned-number task (a ∷ l) number start =
      omega (arith, scan_owned-number task l (number + 1) (max start (a.end_frame + 1)))

  abbrev all_scenes : Text → List (OwnedTransition N) → ℕ → ℕ → ℕ → List SceneInterval
  all_scenes task l number start end =
      let (scenes, number', start') = scan_owned task l number start in
      scenes ++ scene_until task number' start' end

  scan_owned-Tiles :
      (task : Text) (l : List (OwnedTransition N)) (number start end : ℕ)
      → start ≤ end + 1
      → All (λ (a : OwnedTransition N). a.end_frame ≤ end) l
      → Tiles task start end number
          (scan_owned task l number start).1
          (all_scenes task l number start end)
  unfolding scan_owned
  scan_owned-Tiles task [] number start end le h = last_scene-Tiles task number start end le
  scan_owned-Tiles task (a ∷ l) number start end le (ha, h) =
      let next = max start (a.end_frame + 1) in
      let rest = scan_owned-Tiles task l (number + 1) next end (omega arith) h in
      let last = scan_owned-number task l (number + 1) next in
      if_elim
        (λ scenes. Tiles task start end number (scan_owned task l (number + 1) next).1 (
          (scenes ++ (scan_owned task l (number + 1) next).0)
          ++ scene_until task (scan_owned task l (number + 1) next).1
              (scan_owned task l (number + 1) next).2 end))
        (leb start a.end_frame) _ _
        (λ e.
          let at : next ≡ a.end_frame + 1 = ground arith in
          (
            number,
            refl,
            omega arith,
            omega arith,
            refl,
            ground arith,
            ha,
            Tiles-from task next (a.end_frame + 1) end (number + 1) _ _ at rest,
          ))
        (λ e.
          let at : next ≡ start = ground arith in
          Tiles-lower task start end number _ _
            (Tiles-from task next start end (number + 1) _ _ at rest))

  -- Tiles lie in the range.
  clips_all-Tiles :
      (m : CutResultMessage N) (task : Text) (start number last : ℕ) (scenes : List SceneInterval)
      → m.valid_start_frame ≤ start
      → Tiles task start m.valid_end_frame number last scenes
      → clips_all m scenes ≡ true
  unfolding clips_all
  clips_all-Tiles m task start number last [] le h = refl
  clips_all-Tiles m task start number last (scene ∷ scenes) le (k, id, n, below, s, f, e, rest) =
      ground
        (arith, clips_all-Tiles m task (scene.end_frame + 1) (k + 1) last scenes (omega arith) rest)

  owns_transition :
      (m : CutResultMessage N) (kind : TransitionType) (a : OwnedTransition N)
      → a.end_frame ≤ m.valid_end_frame
      → m.valid_start_frame ≤ a.end_frame + 1
      → (type_eq kind gradual_transition ≡ false → m.valid_start_frame ≤ a.end_frame)
      → owns_anchor m
          (type_eq (transition_as kind a).kind gradual_transition)
          (anchor (transition_as kind a))
        ≡ true
  unfolding owns_anchor anchor transition_as type_eq
  owns_transition m hard_cut a e s cut = let inside = cut refl in ground arith
  owns_transition m gradual_transition a e s cut = ground arith

  owns_all-Owns :
      (F : Floats N) (batch : FrameBatchMetadata) (m : CutResultMessage N)
      (l : List (OwnedTransition N))
      → m.valid_start_frame ≡ batch.valid_start_frame
      → m.valid_end_frame ≡ batch.valid_end_frame
      → All (Owns F batch) l
      → owns_all m (transitions_of l) ≡ true
  unfolding owns_all transitions_of
  owns_all-Owns F batch m [] s e h = refl
  owns_all-Owns F batch m (a ∷ l) s e (own, h) = ground (
    arith,
    owns_transition m a.kind a (omega arith) (omega arith)
        (λ cut. rw s (own.3 (unfold is_gradual in cut))),
    owns_all-Owns F batch m l s e h,
  )

module _ {N : Type 0} (F : Floats N) where
  accepts_transition_as :
      (kind : TransitionType) (a : OwnedTransition N)
      → a.start_frame ≤ a.end_frame
      → IsUnit F a.confidence
      → accepts_transition F (transition_as kind a) ≡ true
  unfolding accepts_transition has_shape transition_as
  accepts_transition_as hard_cut a le unit = rw (unit.0, unit.1) refl
  accepts_transition_as gradual_transition a le unit = rw (unit.0, unit.1) (ground arith)

  accepts_transitions-Owns :
      (batch : FrameBatchMetadata) (l : List (OwnedTransition N))
      → All (Owns F batch) l
      → accepts_transitions F (transitions_of l) ≡ true
  unfolding accepts_transitions transitions_of
  accepts_transitions-Owns batch [] h = refl
  accepts_transitions-Owns batch (a ∷ l) (own, h) =
      rw (accepts_transition_as a.kind a own.0 own.4) (accepts_transitions-Owns batch l h)

-- The result is accepted and its scenes tile the valid range; the next state goes on from them.
abbrev pub Continues :
    {N : Type 0}
    → FrameBatchMetadata
    → CutSceneState N
    → CutResultMessage N
    → CutSceneState N
    → Type 0
Continues batch state m state' =
    Tiles batch.task_id batch.valid_start_frame batch.valid_end_frame state.active_scene_number
      state'.active_scene_number m.scenes
    × (accepts_cut_result m ≡ true)
    × (state'.next_chunk_index ≡ batch.chunk_index + 1)
    × (state'.active_scene_number ≡ state.active_scene_number + length m.transitions)
    × PendingBelow (batch.valid_end_frame + 1) state'.pending_gradual_start_frame

-- The whole of `build_cut_result`.
module _ {N : Type 0} (F : Floats N) (batch : FrameBatchMetadata) (fps : N)
    (window : IsWindow batch) where
  length-transitions_of : (l : List (OwnedTransition N)) → length (transitions_of l) ≡ length l
  unfolding transitions_of
  length-transitions_of [] = refl
  length-transitions_of (a ∷ l) = ap suc (length-transitions_of l)

  accepted_lem :
      (m : CutResultMessage N) (state : CutSceneState N)
      → accepts_cut_result m ≡ true
      → accepted m state ≡ built (m, state)
  unfolding accepted
  accepted_lem m state ok = rw ok

  pub build_cut_result-Continues :
      (detections : List (Detection N)) (state : CutSceneState N)
      → All (IsLocal batch) detections
      → PendingBelow batch.valid_start_frame state.pending_gradual_start_frame
      → IsUnit F state.pending_gradual_confidence
      → state.next_chunk_index ≡ batch.chunk_index
      → (m : CutResultMessage N) × (state' : CutSceneState N) × (build_cut_result F batch fps
            detections state
          ≡ built (m, state'))
        × Continues batch state m state'
        × (accepts_transitions F m.transitions ≡ true)
        × IsUnit F state'.pending_gradual_confidence
  unfolding build_cut_result result_of
  build_cut_result-Continues detections state local below unit next =
      let (c, dedup, owned, pending, kept) =
        deduplicate-Ready F batch window detections state local below unit in
      let active = state.active_scene_number in
      let scanned = scan_owned batch.task_id c.owned active batch.valid_start_frame in
      let scenes =
        all_scenes batch.task_id c.owned active batch.valid_start_frame batch.valid_end_frame in
      let m = result_message batch fps (transitions_of c.owned) scenes in
      let tiles =
        scan_owned-Tiles batch.task_id c.owned active batch.valid_start_frame batch.valid_end_frame
          (omega arith)
          (All-mono (λ (a : OwnedTransition N) (h : Owns F batch a). h.1) c.owned owned) in
      let state' = next_state batch scanned.1 c in
      let same : (batch.chunk_index == state.next_chunk_index) ≡ true = ground arith in
      let ok : accepts_cut_result m ≡ true =
        unfold accepts_cut_result in
        ground (
          arith,
          owns_all-Owns F batch m c.owned refl refl owned,
          clips_all-Tiles m batch.task_id batch.valid_start_frame active scanned.1 scenes
              (omega arith) tiles,
        ) in
      let fine = accepts_transitions-Owns F batch c.owned owned in
      (
        m,
        state',
        rw same (
            ap (λ d. d >>= result_of F batch fps active) dedup
            ∙ rw fine (accepted_lem m state' ok)),
        (
          tiles,
          ok,
          refl,
          omega (
            arith,
            scan_owned-number batch.task_id c.owned active batch.valid_start_frame,
            length-transitions_of c.owned,
          ),
          pending,
        ),
        fine,
        kept,
      )
