-- ===== src/Results.antt =====
-- backend/app/services/result_aggregation.py: the order of the cut results and the merge of their
-- scenes. `model_copy` does not validate the intervals again.
pub mod Order
pub mod Hulls
pub mod Transitions
use cv_video_analysis.Common.{ℕ, Option, none, some, List, [], ◌∷◌, if◌then◌else◌, leb, min, max}
use cv_video_analysis.Common.Texts.{Text}
use cv_video_analysis.Domain.Enums.{TransitionType}
use cv_video_analysis.Common.Maps.{Map, put}
use cv_video_analysis.Common.Tables.{lookup}

pub record SceneInterval : Type 0 where
  pub scene_id : Text
  pub start_frame : ℕ
  pub end_frame : ℕ

-- Both kinds of transition, as far as the merge reads them.
pub record Transition (N : Type 0) : Type 0 where
  pub kind : TransitionType
  pub confidence : N
  pub frame : Option ℕ
  pub start_frame : Option ℕ
  pub end_frame : Option ℕ

-- The fields of a `CutResultMessage` that the merge reads.
pub record CutResult (N : Type 0) : Type 0 where
  pub chunk_index : ℕ
  pub scenes : List SceneInterval
  pub transitions : List (Transition N)

-- `cuts.sort(key=lambda item: item.chunk_index)`: the sort is stable.
unfoldable pub insert_cut : {N : Type 0} → CutResult N → List (CutResult N) → List (CutResult N)
insert_cut c [] = c ∷ []
insert_cut c (d ∷ ds) =
    let rest = insert_cut c ds in if leb c.chunk_index d.chunk_index then c ∷ d ∷ ds else d ∷ rest

unfoldable pub sort_cuts : {N : Type 0} → List (CutResult N) → List (CutResult N)
unfolding insert_cut
sort_cuts [] = []
sort_cuts (c ∷ cs) = insert_cut c (sort_cuts cs)

-- What the dictionary gets for a scene, from what it has under its id.
unfoldable pub joined : Option SceneInterval → SceneInterval → SceneInterval
joined none scene = scene
joined (some existing) scene = record existing {
  start_frame = min existing.start_frame scene.start_frame;
  end_frame = max existing.end_frame scene.end_frame;
}

unfoldable pub merge_scene : Map SceneInterval → SceneInterval → Map SceneInterval
unfolding joined
merge_scene scenes_by_id scene =
    put scenes_by_id scene.scene_id (joined (lookup scenes_by_id scene.scene_id) scene)

unfoldable pub merge_scenes : List SceneInterval → Map SceneInterval → Map SceneInterval
unfolding merge_scene
merge_scenes [] scenes_by_id = scenes_by_id
merge_scenes (scene ∷ scenes) scenes_by_id = merge_scenes scenes (merge_scene scenes_by_id scene)

unfoldable pub merge_cuts :
    {N : Type 0} → List (CutResult N) → Map SceneInterval → Map SceneInterval
unfolding merge_scenes
merge_cuts [] scenes_by_id = scenes_by_id
merge_cuts (item ∷ cuts) scenes_by_id = merge_cuts cuts (merge_scenes item.scenes scenes_by_id)

unfoldable pub merged_scenes : {N : Type 0} → List (CutResult N) → Map SceneInterval
unfolding sort_cuts merge_cuts
merged_scenes cuts = merge_cuts (sort_cuts cuts) []
