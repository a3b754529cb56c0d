-- ===== src/Examples/Scenes.antt =====
-- The aggregation of two chunks that share a scene and a transition.
use cv_video_analysis.Common.{◌≡◌, refl, List, [], ◌∷◌, ℕ, none, some, All}
use cv_video_analysis.Common.Texts.{codes, text_eq}
use cv_video_analysis.Common.Maps.{put}
use cv_video_analysis.Common.Tables.{lookup}
use cv_video_analysis.Domain.Enums.{hard_cut}
use cv_video_analysis.Domain.Floats.{whole}
use cv_video_analysis.Results.{
  SceneInterval, Transition, CutResult, insert_cut, sort_cuts, joined, merge_scene, merge_scenes,
  merge_cuts, merged_scenes,
}
use cv_video_analysis.Results.Hulls.{Covered, merged_scenes-Covered}
use cv_video_analysis.Results.Transitions.{merged_transitions}
use cv_video_analysis.Results.Transitions.Best.{
  Kept, SoundEntry, Reported, IsUnique, merged_transitions_lem,
}

abbrev scene : ℕ → ℕ → SceneInterval
scene low high = record { scene_id = codes "scene-0"; start_frame = low; end_frame = high }

abbrev cut_at_100 : ℕ → Transition ℕ
cut_at_100 confidence = record {
  kind = hard_cut;
  confidence = confidence;
  frame = some 100;
  start_frame = none;
  end_frame = none;
}

abbrev chunk : ℕ → ℕ → ℕ → ℕ → CutResult ℕ
chunk index low high confidence = record {
  chunk_index = index;
  scenes = scene low high ∷ [];
  transitions = cut_at_100 confidence ∷ [];
}

-- The second chunk's result arrived first.
abbrev cuts : List (CutResult ℕ)
cuts = chunk 1 128 255 95 ∷ chunk 0 0 127 80 ∷ []

merged : lookup (merged_scenes cuts) (codes "scene-0") ≡ some (scene 0 255)
unfolding merged_scenes insert_cut sort_cuts joined merge_scene merge_scenes merge_cuts lookup put
    text_eq
merged = refl

merged_scenes-Covered_example : All (λ c. All (Covered (merged_scenes cuts)) c.scenes) cuts
merged_scenes-Covered_example = merged_scenes-Covered cuts

merged_transitions_lem_example :
    All (λ c. All (Kept whole (merged_transitions whole cuts)) c.transitions) cuts
    × All (SoundEntry whole (Reported cuts)) (merged_transitions whole cuts)
    × IsUnique (merged_transitions whole cuts)
merged_transitions_lem_example = merged_transitions_lem whole cuts
