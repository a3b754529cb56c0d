-- ===== src/Cuts/Worker/Redelivery.antt =====
-- Repeated deliveries to the cut worker of participant_4_cut_detection/worker.py, and a state that it
-- has to rebuild.
use cv_video_analysis.Common.{
  ℕ, ◌+◌, ◌≡◌, ◌↔◌, ◌≤◌, refl, ap, sym, ◌∙◌, Option, none, some, List, [], ◌∷◌, ◌++◌, arith,
  if_elim, not, ◌==◌, length, append_assoc, suc,
}
use cv_video_analysis.Common.Texts.{Text, text_eq_refl, last_number-pad, parse_int-pad, pad, codes}
use cv_video_analysis.Common.Maps.{get_or-put_self}
use cv_video_analysis.Common.Tables.{lookup, lookup-put}
use cv_video_analysis.Domain.Floats.{Floats}
use cv_video_analysis.Domain.Schemas.{FrameBatchMetadata}
use cv_video_analysis.Store.{stream_at, chunk_at}
use cv_video_analysis.Results.{SceneInterval}
use cv_video_analysis.Coordinator.{Codec, CutResultMessage}
use cv_video_analysis.Cuts.{Detection, CutSceneState, Built, built, failed, ◌>>=◌}
use cv_video_analysis.Cuts.Deduplication.{Collected}
use cv_video_analysis.Cuts.Building.{
  result_message, transitions_of, accepts_cut_result, accepts_transitions, accepted, result_of,
  build_cut_result, scene_id,
}
use cv_video_analysis.Cuts.Tiling.{Tiles, Continues}
use cv_video_analysis.Cuts.Worker.{
  CutStore, published, loaded, state_key, cache_key, scene_number, fresh_state, load_state,
  persist_result, result_entry, publish, handle_chunk, previous_key,
}

scene_number-scene_id : (task : Text) (n : ℕ) → scene_number (scene_id task n) ≡ some n
unfolding scene_number scene_id
scene_number-scene_id task n =
    rw (← append_assoc task (codes ":scene") (b':' ∷ pad 1 n))
      (rw (last_number-pad (task ++ codes ":scene") n) (parse_int-pad n))

Tiles-head :
    (task : Text) (start end number last : ℕ) (scene : SceneInterval) (scenes : List SceneInterval)
    → Tiles task start end number last (scene ∷ scenes)
    → (k : ℕ) × (scene.scene_id ≡ scene_id task k) × (number ≤ k)
Tiles-head task start end number last scene scenes (k, id, le, a, b, c, d, e) = (k, id, le)

module _ {N : Type 0} (F : Floats N) (batch : FrameBatchMetadata) (fps : N) where
  abbrev IsOf : Built (CutResultMessage N × CutSceneState N) → Type 0
  IsOf (failed e) = Unit
  IsOf (built (m, state)) = (m.task_id ≡ batch.task_id) × (m.chunk_index ≡ batch.chunk_index)

  accepted-IsOf :
      (m : CutResultMessage N) (state : CutSceneState N)
      → m.task_id ≡ batch.task_id
      → m.chunk_index ≡ batch.chunk_index
      → IsOf (accepted m state)
  unfolding accepted
  accepted-IsOf m state task index =
      if_elim IsOf (accepts_cut_result m) _ _ (λ e. (task, index)) (λ e. tt)

  result_of-IsOf :
      (active : ℕ) (d : Built (Collected N)) → IsOf (d >>= result_of F batch fps active)
  unfolding result_of
  result_of-IsOf active (failed e) = tt
  result_of-IsOf active (built c) =
      if_elim IsOf (not (accepts_transitions F (transitions_of c.owned))) _ _ (λ e. tt)
        (λ e. accepted-IsOf (result_message batch fps (transitions_of c.owned) _) _ refl refl)

  build_cut_result-IsOf :
      (detections : List (Detection N)) (state : CutSceneState N)
      → IsOf (build_cut_result F batch fps detections state)
  unfolding build_cut_result
  build_cut_result-IsOf detections state =
      if_elim IsOf (not (batch.chunk_index == state.next_chunk_index)) _ _ (λ e. tt)
        (λ e. result_of-IsOf state.active_scene_number _)

module _ {N : Type 0} (F : Floats N) (C : Codec N) (stream : Text) (batch : FrameBatchMetadata)
    (fps : N) where
  first_delivery :
      (detections : List (Detection N)) (state state' : CutSceneState N) (m : CutResultMessage N)
      (w : CutStore N)
      → lookup w.cached (cache_key batch.task_id batch.chunk_index) ≡ none
      → load_state F C batch w ≡ loaded state
      → build_cut_result F batch fps detections state ≡ built (m, state')
      → handle_chunk F C stream batch fps (some detections) w
        ≡ publish F C stream m (persist_result F C m state' w)
  unfolding handle_chunk
  first_delivery detections state state' m w miss load build = rw (miss, load, build)

  cached_delivery :
      (again : Option (List (Detection N))) (json : Text) (m : CutResultMessage N) (w : CutStore N)
      → lookup w.cached (cache_key batch.task_id batch.chunk_index) ≡ some json
      → C.parse_cut_result json ≡ some m
      → handle_chunk F C stream batch fps again w ≡ publish F C stream m w
  unfolding handle_chunk
  cached_delivery again json m w hit parse = rw (hit, parse)

  -- If the worker has no cached result of a chunk, loads its state and builds a result whose JSON
  -- reads back, then the first delivery publishes it and stores the next state, and a second
  -- delivery, whatever the model answers then, publishes the same result and leaves the cache and
  -- the state as they were.
  pub redelivery :
      (detections : List (Detection N)) (again : Option (List (Detection N)))
      (state state' : CutSceneState N) (m : CutResultMessage N) (w : CutStore N)
      → lookup w.cached (cache_key batch.task_id batch.chunk_index) ≡ none
      → load_state F C batch w ≡ loaded state
      → build_cut_result F batch fps detections state ≡ built (m, state')
      → C.parse_cut_result (C.dump_cut_result m) ≡ some m
      → let (first, w1) = handle_chunk F C stream batch fps (some detections) w in
        let (second, w2) = handle_chunk F C stream batch fps again w1 in
        (first ≡ published)
        × (second ≡ published)
        × (lookup w2.states (state_key batch.task_id) ≡ some state')
        × (w2.cached ≡ w1.cached)
        × (w2.states ≡ w1.states)
        × (stream_at w2.redis stream
            ≡ stream_at w.redis stream ++ (result_entry F C m ∷ result_entry F C m ∷ []))
  unfolding persist_result
  redelivery detections again state state' m w miss load build parse =
      let (task, index) = rw build at (build_cut_result-IsOf F batch fps detections state) in
      let w1 = (publish F C stream m (persist_result F C m state' w)).1 in
      let hit : lookup w1.cached (cache_key batch.task_id batch.chunk_index)
          ≡ some (C.dump_cut_result m) =
        rw (lookup-put, task, index, text_eq_refl) refl in
      rw
        (
          first_delivery detections state state' m w miss load build,
          cached_delivery again (C.dump_cut_result m) m w1 hit parse,
        )
        (
          refl,
          refl,
          rw (lookup-put, task, text_eq_refl) refl,
          refl,
          refl,
          rw (get_or-put_self, get_or-put_self)
              (append_assoc (stream_at w.redis stream) (result_entry F C m ∷ [])
                (result_entry F C m ∷ [])),
        )

module _ {N : Type 0} (F : Floats N) (C : Codec N) (batch : FrameBatchMetadata) where
  rebuilt_state :
      (next : FrameBatchMetadata) (before k : ℕ) (json : Text) (m : CutResultMessage N)
      (scene : SceneInterval) (scenes : List SceneInterval) (w : CutStore N)
      → next.chunk_index ≡ suc before
      → lookup w.states (state_key next.task_id) ≡ none
      → (chunk_at w.redis (previous_key next.task_id before)).cut_payload ≡ some json
      → C.parse_cut_result json ≡ some m
      → m.scenes ≡ scene ∷ scenes
      → scene_number scene.scene_id ≡ some k
      → load_state F C next w ≡ loaded (fresh_state F C (suc before) (k + length m.transitions))
  unfolding load_state
  rebuilt_state next before k json m scene scenes w index gone payload parse first number =
      rw (gone, index, payload, parse, first, number)

  -- If the state of a task is gone and the previous result is stored, the rebuilt scene number is
  -- at least the one that was stored with that result, and equal to it exactly if that result's
  -- first scene had the active number.
  pub load_state_rebuilt :
      (next : FrameBatchMetadata) (before : ℕ) (json : Text) (state state' : CutSceneState N)
      (m : CutResultMessage N) (scene : SceneInterval) (scenes : List SceneInterval)
      (w : CutStore N)
      → Continues batch state m state'
      → m.scenes ≡ scene ∷ scenes
      → next.chunk_index ≡ suc before
      → lookup w.states (state_key next.task_id) ≡ none
      → (chunk_at w.redis (previous_key next.task_id before)).cut_payload ≡ some json
      → C.parse_cut_result json ≡ some m
      → (number : ℕ) × (load_state F C next w ≡ loaded (fresh_state F C (suc before) number))
        × (state'.active_scene_number ≤ number)
        × ((number ≡ state'.active_scene_number)
            ↔ (scene.scene_id ≡ scene_id batch.task_id state.active_scene_number))
  load_state_rebuilt next before json state state' m scene scenes w made first index gone payload
        parse =
      let (k, id, le) =
        Tiles-head batch.task_id _ _ state.active_scene_number _ scene scenes
          (rw first at (made.0)) in
      let read : scene_number scene.scene_id ≡ some k =
        rw id (scene_number-scene_id batch.task_id k) in
      (
        k + length m.transitions,
        rebuilt_state next before k json m scene scenes w index gone payload parse first read,
        omega (arith, made.3),
        (
          λ same.
              let at : k ≡ state.active_scene_number = omega (arith, made.3, same) in
              id ∙ ap (scene_id batch.task_id) at,
          λ same.
              let one : some k ≡ some state.active_scene_number =
                sym read ∙ ap scene_number same ∙ scene_number-scene_id batch.task_id _ in
              let at : k ≡ state.active_scene_number = cc in omega (arith, made.3, at),
        ),
      )
