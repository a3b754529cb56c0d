-- ===== src/Examples/Cutting.antt =====
-- The cut worker at a task of two chunks with a gradual transition across their boundary.
use cv_video_analysis.Common.{
  ◌-◌, ℕ, ◌+◌, ◌≤◌, ◌≡◌, ◌↔◌, refl, false, none, some, List, [], ◌∷◌, ◌++◌, All, arith,
}
use cv_video_analysis.Common.Texts.{text_eq_refl, codes, pad}
use cv_video_analysis.Common.Maps.{get_or}
use cv_video_analysis.Domain.Enums.{type_eq, hard_cut}
use cv_video_analysis.Common.Tables.{lookup}
use cv_video_analysis.Domain.Floats.{whole, zero-IsUnit}
use cv_video_analysis.Domain.Schemas.{FrameBatchMetadata}
use cv_video_analysis.Store.{no_chunk, stream_at, chunk_at}
use cv_video_analysis.Coordinator.{CutResultMessage, Codec}
use cv_video_analysis.Cuts.{Detection, cut_at, gradual_in, CutSceneState, built}
use cv_video_analysis.Common.Sorting.{sort_by}
use cv_video_analysis.Cuts.Deduplication.{deduplicate_owned_transitions}
use cv_video_analysis.Cuts.Building.{build_cut_result, accepts_cut_result, scene_id}
use cv_video_analysis.Cuts.Tiling.{Continues}
use cv_video_analysis.Cuts.Video.{build_all, Rising, scenes_of, Validates, build_all-Rising}
use cv_video_analysis.Cuts.Worker.{
  CutStore, published, loaded, state_key, cache_key, fresh_state, load_state, result_entry,
  handle_chunk, previous_key,
}
use cv_video_analysis.Cuts.Worker.Redelivery.{redelivery, load_state_rebuilt}
use cv_video_analysis.Examples.{task, stream, empty}

abbrev batch : ℕ → ℕ → ℕ → ℕ → FrameBatchMetadata
batch index context_start valid_start valid_end = record {
  task_id = task;
  chunk_id = pad 8 index;
  chunk_index = index;
  object_ref = codes "ref";
  context_start_frame = context_start;
  context_end_frame = valid_end;
  valid_start_frame = valid_start;
  valid_end_frame = valid_end;
  frame_count = valid_end + 1 - context_start;
  width = 2;
  height = 2;
  source_total_frames = 8;
  is_last = false;
}

abbrev chunks : List (FrameBatchMetadata × List (Detection ℕ))
chunks =
    (batch 0 0 0 3, cut_at 1 9 ∷ gradual_in 2 3 5 ∷ [])
    ∷ (batch 1 3 4 7, gradual_in 0 1 7 ∷ cut_at 3 8 ∷ [])
    ∷ []

abbrev first_state : CutSceneState ℕ
first_state = record {
  next_chunk_index = 0;
  active_scene_number = 0;
  pending_gradual_start_frame = none;
  pending_gradual_confidence = 0;
}

build_all-Rising_example :
    (ms : List (CutResultMessage ℕ)) × (last : CutSceneState ℕ) × (build_all whole 30 chunks
        first_state
      ≡ built (ms, last))
    × All (Validates whole 30) ms
    × Rising task 0 8 0 last.active_scene_number (scenes_of ms)
build_all-Rising_example =
    build_all-Rising whole 30 task 0 0 chunks first_state
      (omega arith, omega arith, refl, refl, refl, (omega arith, omega arith, refl, refl, refl, tt))
      refl tt (zero-IsUnit whole)

abbrev first_cut : List (Detection ℕ)
first_cut = cut_at 1 9 ∷ []

abbrev first_result : CutResultMessage ℕ
first_result = record {
  task_id = task;
  chunk_id = pad 8 0;
  chunk_index = 0;
  object_ref = codes "ref";
  fps = 30;
  context_start_frame = 0;
  context_end_frame = 3;
  valid_start_frame = 0;
  valid_end_frame = 3;
  transitions =
      record {
        kind = hard_cut;
        confidence = 1;
        frame = some 1;
        start_frame = none;
        end_frame = none;
      }
      ∷ [];
  scenes =
      record { scene_id = scene_id task 0; start_frame = 0; end_frame = 1 }
      ∷ record { scene_id = scene_id task 1; start_frame = 2; end_frame = 3 }
      ∷ [];
  is_last = false;
}

abbrev second_state : CutSceneState ℕ
second_state = record first_state { next_chunk_index = 1; active_scene_number = 1 }

first_built :
    build_cut_result whole (batch 0 0 0 3) 30 first_cut first_state
    ≡ built (first_result, second_state)
unfolding build_cut_result deduplicate_owned_transitions sort_by
first_built = refl

abbrev codec : Codec ℕ
codec = record {
  parse_cut_result = λ json. some first_result;
  dump_cut_result = λ m. pad 8 m.chunk_index;
  dump_job = λ j. pad 8 j.chunk_index;
  source_classes = λ source. none;
}

abbrev no_store : CutStore ℕ
no_store = record { redis = empty; cached = []; states = [] }

starts_fresh : load_state whole codec (batch 0 0 0 3) no_store ≡ loaded first_state
unfolding load_state lookup
starts_fresh = refl

nothing_cached : lookup no_store.cached (cache_key task 0) ≡ none
unfolding lookup
nothing_cached = refl

redelivery_example :
    let (first, w1) =
      handle_chunk whole codec stream (batch 0 0 0 3) 30 (some first_cut) no_store in
    let (second, w2) = handle_chunk whole codec stream (batch 0 0 0 3) 30 none w1 in
    (first ≡ published)
    × (second ≡ published)
    × (lookup w2.states (state_key task) ≡ some second_state)
    × (w2.cached ≡ w1.cached)
    × (w2.states ≡ w1.states)
    × (stream_at w2.redis stream
        ≡ stream_at no_store.redis stream
          ++ (result_entry whole codec first_result ∷ result_entry whole codec first_result ∷ []))
redelivery_example =
    redelivery whole codec stream (batch 0 0 0 3) 30 first_cut none first_state second_state
      first_result no_store nothing_cached starts_fresh first_built refl

-- The state is gone, and the first chunk's result is stored.
abbrev state_gone : CutStore ℕ
state_gone = record no_store {
  redis = record empty {
    chunks = (previous_key task 0, record no_chunk { cut_payload = some (codes "{}") }) ∷ [];
  };
}

first_Continues : Continues (batch 0 0 0 3) first_state first_result second_state
unfolding accepts_cut_result type_eq
first_Continues = (
  (
    0,
    refl,
    omega arith,
    omega arith,
    refl,
    omega arith,
    omega arith,
    (1, refl, omega arith, omega arith, refl, omega arith, omega arith, (refl, omega arith)),
  ),
  refl,
  refl,
  refl,
  tt,
)

stored : (chunk_at state_gone.redis (previous_key task 0)).cut_payload ≡ some (codes "{}")
unfolding get_or
stored = rw text_eq_refl refl

no_state : lookup state_gone.states (state_key task) ≡ none
unfolding lookup
no_state = refl

load_state_rebuilt_example :
    (number : ℕ) × (load_state whole codec (batch 1 3 4 7) state_gone
      ≡ loaded (fresh_state whole codec 1 number))
    × (1 ≤ number)
    × ((number ≡ 1) ↔ (scene_id task 0 ≡ scene_id task 0))
load_state_rebuilt_example =
    load_state_rebuilt whole codec (batch 0 0 0 3) (batch 1 3 4 7) 0 (codes "{}") first_state
      second_state first_result _ _ state_gone first_Continues refl refl no_state stored refl
