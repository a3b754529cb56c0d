-- ===== src/Cuts/Worker.antt =====
-- `RealCutHandler` of participant_4_cut_detection/worker.py: the state that it keeps in Redis, how it
-- rebuilds a state that is gone, and the handler. The JSON of the messages is a parameter, `Codec`.
pub mod Redelivery
use cv_video_analysis.Common.{
  ℕ, zero, suc, ◌+◌, Option, none, some, List, [], ◌∷◌, ◌++◌, Bool, if◌then◌else◌, length,
}
use cv_video_analysis.Common.Texts.{Text, codes, pad, after_last_colon, parse_int}
use cv_video_analysis.Common.Maps.{Map, put}
use cv_video_analysis.Common.Tables.{lookup}
use cv_video_analysis.Domain.Floats.{Floats}
use cv_video_analysis.Domain.Schemas.{FrameBatchMetadata}
use cv_video_analysis.Store.{Redis, StreamEntry, xadd, chunk_at}
use cv_video_analysis.Results.{SceneInterval}
use cv_video_analysis.Coordinator.{Codec, CutResultMessage}
use cv_video_analysis.Cuts.{Detection, CutSceneState, CutError, Built, built, failed}
use cv_video_analysis.Cuts.Building.{build_cut_result}

-- The keys of the worker, and those of the task repository, in one store.
pub record CutStore (N : Type 0) : Type 0 where
  pub redis : Redis N
  pub cached : Map Text
  pub states : Map (CutSceneState N)

pub data CutOutcome : Type 0 where
  published : CutOutcome
  invalid_cache : CutOutcome
  no_previous_result : CutOutcome
  invalid_previous_result : CutOutcome
  no_previous_scene : CutOutcome
  invalid_scene_id : CutOutcome
  inference_failed : CutOutcome
  not_built : CutError → CutOutcome

pub data Loaded (N : Type 0) : Type 0 where
  loaded : CutSceneState N → Loaded N
  unavailable : CutOutcome → Loaded N

unfoldable pub state_key : Text → Text
state_key task = codes "cv:ml:cut-state:" ++ task

unfoldable pub cache_key : Text → ℕ → Text
cache_key task chunk_index = codes "cv:ml:cut-result:" ++ (task ++ (b':' ∷ pad 8 chunk_index))

-- `_scene_number`; `none` is its ValueError.
unfoldable pub number_text : Option Text → Option ℕ
unfolding parse_int
number_text none = none
number_text (some text) = parse_int text

unfoldable pub scene_number : Text → Option ℕ
unfolding number_text after_last_colon
scene_number scene_id = number_text (after_last_colon scene_id)

abbrev pub previous_key : Text → ℕ → Text
previous_key task index = codes "cv:chunk:" ++ (task ++ (b':' ∷ pad 8 index))

module _ {N : Type 0} (F : Floats N) (C : Codec N) where
  abbrev pub fresh_state : ℕ → ℕ → CutSceneState N
  fresh_state index number = record {
    next_chunk_index = index;
    active_scene_number = number;
    pending_gradual_start_frame = none;
    pending_gradual_confidence = F.of_nat 0;
  }

  -- The state after a previous result, from the number of its first scene.
  unfoldable pub state_after_number : ℕ → ℕ → Option ℕ → Loaded N
  state_after_number index count none = unavailable invalid_scene_id
  state_after_number index count (some number) = loaded (fresh_state index (number + count))

  unfoldable pub state_after_scenes : ℕ → ℕ → List SceneInterval → Loaded N
  unfolding state_after_number scene_number
  state_after_scenes index count [] = unavailable no_previous_scene
  state_after_scenes index count (scene ∷ scenes) =
      state_after_number index count (scene_number scene.scene_id)

  unfoldable pub state_after_message : ℕ → Option (CutResultMessage N) → Loaded N
  unfolding state_after_scenes
  state_after_message index none = unavailable invalid_previous_result
  state_after_message index (some m) = state_after_scenes index (length m.transitions) m.scenes

  unfoldable pub state_after_payload : ℕ → Option Text → Loaded N
  unfolding state_after_message
  state_after_payload index none = unavailable no_previous_result
  state_after_payload index (some payload) = state_after_message index (C.parse_cut_result payload)

  unfoldable pub rebuild_state : Text → ℕ → CutStore N → Loaded N
  unfolding state_after_payload
  rebuild_state task zero w = loaded (fresh_state 0 0)
  rebuild_state task (suc before) w =
      state_after_payload (suc before) (chunk_at w.redis (previous_key task before)).cut_payload

  -- `_load_state`
  unfoldable pub loaded_or : Option (CutSceneState N) → Loaded N → Loaded N
  loaded_or (some state) rebuilt = loaded state
  loaded_or none rebuilt = rebuilt

  unfoldable pub load_state : FrameBatchMetadata → CutStore N → Loaded N
  unfolding loaded_or rebuild_state state_key
  load_state batch w =
      loaded_or (lookup w.states (state_key batch.task_id))
        (rebuild_state batch.task_id batch.chunk_index w)

  -- `_persist_result`: one transaction.
  unfoldable pub persist_result : CutResultMessage N → CutSceneState N → CutStore N → CutStore N
  unfolding cache_key state_key
  persist_result m state w = record w {
    cached = put w.cached (cache_key m.task_id m.chunk_index) (C.dump_cut_result m);
    states = put w.states (state_key m.task_id) state;
  }

  abbrev pub result_entry : CutResultMessage N → StreamEntry
  result_entry m = record {
    event_type = codes "CutResultMessage";
    schema_version = codes "1";
    payload = C.dump_cut_result m;
  }

  abbrev pub publish : Text → CutResultMessage N → CutStore N → CutOutcome × CutStore N
  publish stream m w = (published, record w { redis = xadd w.redis stream (result_entry m) })

  module _ (stream : Text) (batch : FrameBatchMetadata) (fps : N) where
    unfoldable pub with_built :
        Built (CutResultMessage N × CutSceneState N) → CutStore N → CutOutcome × CutStore N
    unfolding persist_result
    with_built (failed e) w = (not_built e, w)
    with_built (built (m, state)) w = publish stream m (persist_result m state w)

    -- `infer` is what the actor answers, `none` where the call raises.
    unfoldable pub with_inference :
        Option (List (Detection N)) → CutSceneState N → CutStore N → CutOutcome × CutStore N
    unfolding with_built
    with_inference none state w = (inference_failed, w)
    with_inference (some detections) state w =
        with_built (build_cut_result F batch fps detections state) w

    unfoldable pub with_state :
        Option (List (Detection N)) → Loaded N → CutStore N → CutOutcome × CutStore N
    unfolding with_inference
    with_state infer (unavailable e) w = (e, w)
    with_state infer (loaded state) w = with_inference infer state w

    unfoldable pub with_cached : Option (CutResultMessage N) → CutStore N → CutOutcome × CutStore N
    with_cached none w = (invalid_cache, w)
    with_cached (some m) w = publish stream m w

    unfoldable pub with_cache :
        Option (List (Detection N)) → Option Text → CutStore N → CutOutcome × CutStore N
    unfolding with_state with_cached load_state
    with_cache infer none w = with_state infer (load_state batch w) w
    with_cache infer (some json) w = with_cached (C.parse_cut_result json) w

    -- The handler, for a batch that was read from its message.
    unfoldable pub handle_chunk : Option (List (Detection N)) → CutStore N → CutOutcome × CutStore N
    unfolding with_cache cache_key
    handle_chunk infer w =
        with_cache infer (lookup w.cached (cache_key batch.task_id batch.chunk_index)) w
