-- ===== src/Cuts/Video.antt =====
-- The cut results of a task, chunk after chunk, in participant_4_cut_detection/worker.py.
use cv_video_analysis.Cuts.{Detection, CutSceneState, Built, built, ◌>>=◌}
use cv_video_analysis.Cuts.Owning.{IsLocal, IsWindow, PendingBelow}
use cv_video_analysis.Cuts.Building.{
  scene_id, build_cut_result, accepts_cut_result, accepts_transitions,
}
use cv_video_analysis.Cuts.Tiling.{Tiles, Tiles-lower, build_cut_result-Continues}
use cv_video_analysis.Coordinator.{CutResultMessage}
use cv_video_analysis.Results.{SceneInterval}
use cv_video_analysis.Common.{
  ℕ, ◌+◌, ◌≤◌, ◌≡◌, refl, sym, ◌∙◌, true, List, [], ◌∷◌, ◌++◌, All, arith,
}
use cv_video_analysis.Common.Texts.{Text}
use cv_video_analysis.Domain.Floats.{Floats, IsUnit}
use cv_video_analysis.Domain.Schemas.{FrameBatchMetadata}

-- What the worker builds for one chunk after another, each from the state that the last one left.
unfoldable pub build_all :
    {N : Type 0}
    → Floats N
    → N
    → List (FrameBatchMetadata × List (Detection N))
    → CutSceneState N
    → Built (List (CutResultMessage N) × CutSceneState N)
build_all F fps [] state = built ([], state)
build_all F fps ((batch, detections) ∷ rest) state = do
  (m, state') ← build_cut_result F batch fps detections state
  (ms, last) ← build_all F fps rest state'
  built (m ∷ ms, last)

-- The chunks of a task from an index and a frame on.
abbrev pub AreChunks :
    {N : Type 0} → Text → ℕ → ℕ → List (FrameBatchMetadata × List (Detection N)) → Type 0
AreChunks task index start [] = Unit
AreChunks task index start ((batch, detections) ∷ rest) =
    IsWindow batch
    × All (IsLocal batch) detections
    × (batch.task_id ≡ task)
    × (batch.chunk_index ≡ index)
    × (batch.valid_start_frame ≡ start)
    × AreChunks task (index + 1) (batch.valid_end_frame + 1) rest

abbrev pub stop_of : {N : Type 0} → ℕ → List (FrameBatchMetadata × List (Detection N)) → ℕ
stop_of start [] = start
stop_of start ((batch, detections) ∷ rest) = stop_of (batch.valid_end_frame + 1) rest

abbrev pub scenes_of : {N : Type 0} → List (CutResultMessage N) → List SceneInterval
scenes_of [] = []
scenes_of (m ∷ ms) = m.scenes ++ scenes_of ms

-- The scenes follow one another up to `stop`, with numbers from `number` to `last` that never fall.
abbrev pub Rising : Text → ℕ → ℕ → ℕ → ℕ → List SceneInterval → Type 0
Rising task start stop number last [] = (start ≡ stop) × (number ≤ last)
Rising task start stop number last (scene ∷ scenes) =
    (k : ℕ) × (scene.scene_id ≡ scene_id task k)
    × (number ≤ k)
    × (scene.start_frame ≡ start)
    × (start ≤ scene.end_frame)
    × Rising task (scene.end_frame + 1) stop k last scenes

Rising-lower :
    (task : Text) (start stop low number last : ℕ) (scenes : List SceneInterval)
    → low ≤ number
    → Rising task start stop number last scenes
    → Rising task start stop low last scenes
Rising-lower task start stop low number last [] le h = (h.0, omega arith)
Rising-lower task start stop low number last (scene ∷ scenes) le (k, id, n, s, e, rest) =
    (k, id, omega arith, s, e, rest)

Tiles-at :
    (t task : Text) (s start end number last : ℕ) (scenes : List SceneInterval)
    → t ≡ task
    → s ≡ start
    → Tiles t s end number last scenes
    → Tiles task start end number last scenes
Tiles-at t task s start end number last scenes e f h = rw (← e, ← f) h

-- A scene that the next chunk goes on with keeps its number.
Rising-append :
    (task : Text) (start end stop number middle last : ℕ) (scenes more : List SceneInterval)
    → number ≤ middle
    → Tiles task start end number middle scenes
    → Rising task (end + 1) stop middle last more
    → Rising task start stop number last (scenes ++ more)
Rising-append task start end stop number middle last [] more below h g =
    rw h.0 (Rising-lower task (end + 1) stop number middle last more below g)
Rising-append task start end stop number middle last (scene ∷ scenes) more below
      (k, id, n, le, s, e, f, rest) g =
    (
      k,
      id,
      n,
      s,
      e,
      Rising-append task (scene.end_frame + 1) end stop k middle last scenes more le
          (Tiles-lower task (scene.end_frame + 1) end k middle scenes rest) g,
    )

module _ {N : Type 0} (F : Floats N) (fps : N) where
  -- The message passes its validator, and each of its transitions its own.
  abbrev pub Validates : CutResultMessage N → Type 0
  Validates m = (accepts_cut_result m ≡ true) × (accepts_transitions F m.transitions ≡ true)

  -- If the chunks of a task follow one another, their contexts stand before the valid ranges only,
  -- every detection lies in its tensor, the state expects the first of them, what it left pending
  -- starts before it and its pending confidence lies between zero and one, then the cut results of
  -- all chunks are built, each passes its validation and so does each of its transitions, and
  -- their scenes follow one another without a gap from the first chunk's first valid frame to the
  -- last chunk's last one, under numbers that never fall.
  pub build_all-Rising :
      (task : Text) (index start : ℕ) (chunks : List (FrameBatchMetadata × List (Detection N)))
      (state : CutSceneState N)
      → AreChunks task index start chunks
      → state.next_chunk_index ≡ index
      → PendingBelow start state.pending_gradual_start_frame
      → IsUnit F state.pending_gradual_confidence
      → (ms : List (CutResultMessage N)) × (last : CutSceneState N) × (build_all F fps chunks state
          ≡ built (ms, last))
        × All Validates ms
        × Rising task start
            (stop_of start chunks)
            state.active_scene_number
            last.active_scene_number
            (scenes_of ms)
  unfolding build_all
  build_all-Rising task index start [] state chunks next below unit =
      ([], state, refl, tt, (refl, omega arith))
  build_all-Rising task index start ((batch, detections) ∷ rest) state
        (window, local, is_task, is_index, is_start, chunks) next below unit =
      let (m, state', made, (tiles, ok, after, active, pending), fine, kept) =
        (build_cut_result-Continues F batch fps window detections state local
          (rw (← is_start) at below) unit (next ∙ sym is_index)) in
      let (ms, last, built_rest, all_ok, rising) =
        build_all-Rising task (index + 1) (batch.valid_end_frame + 1) rest state' chunks
          (omega (arith, after, is_index)) pending kept in
      (
        m ∷ ms,
        last,
        rw (made, built_rest) refl,
        ((ok, fine), all_ok),
        Rising-append task start batch.valid_end_frame (stop_of (batch.valid_end_frame + 1) rest)
            state.active_scene_number state'.active_scene_number last.active_scene_number m.scenes
            (scenes_of ms) (omega (arith, active))
            (Tiles-at batch.task_id task batch.valid_start_frame start _ _ _ m.scenes is_task
              is_start tiles)
            rising,
      )
