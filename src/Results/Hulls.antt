-- ===== src/Results/Hulls.antt =====
-- The merged scenes of backend/app/services/result_aggregation.py: each is the hull of the scenes
-- that have its id.
use cv_video_analysis.Common.{
  Any, All-mono, occurs_self, ◌∙◌, ℕ, ◌≡◌, refl, ap, sym, ◌⊎◌, inl, inr, ◌≤◌, min, max, Option,
  none, some, List, [], ◌∷◌, All, Bool-cases, arith,
}
use cv_video_analysis.Common.Texts.{Text, text_eq, text_eq_iff, text_eq_refl}
use cv_video_analysis.Common.Maps.{Map}
use cv_video_analysis.Common.Tables.{lookup, lookup-put}
use cv_video_analysis.Results.{
  SceneInterval, CutResult, joined, merge_scene, merge_scenes, merge_cuts, merged_scenes, sort_cuts,
}
use cv_video_analysis.Results.Order.{All-sort_cuts, All-unsort}

-- The scene's frames lie within the interval.
abbrev pub Within : SceneInterval → SceneInterval → Type 0
Within scene e = (e.start_frame ≤ scene.start_frame) × (scene.end_frame ≤ e.end_frame)

-- The dictionary has an interval that contains the scene.
abbrev pub Covered : Map SceneInterval → SceneInterval → Type 0
Covered m scene = (e : SceneInterval) × (lookup m scene.scene_id ≡ some e) × Within scene e

Within-joined : (scene e t : SceneInterval) → Within scene e → Within scene (joined (some e) t)
unfolding joined
Within-joined scene e t (lo, hi) = (omega arith, omega arith)

Within-joined_new : (o : Option SceneInterval) (t : SceneInterval) → Within t (joined o t)
unfolding joined
Within-joined_new none t = (omega arith, omega arith)
Within-joined_new (some e) t = (omega arith, omega arith)

-- A scene that is covered stays so.
merge_scene-Covered :
    (m : Map SceneInterval) (t scene : SceneInterval)
    → Covered m scene
    → Covered (merge_scene m t) scene
unfolding merge_scene
merge_scene-Covered m t scene (e, found, within) =
    elim (Bool-cases (text_eq t.scene_id scene.scene_id)) [
      | inl same ↦ (
        joined (some e) t,
        rw (lookup-put, same, (text_eq_iff t.scene_id scene.scene_id).0 same, found) refl,
        Within-joined scene e t within,
      )
      | inr apart ↦ (e, rw (lookup-put, apart) found, within)
    ]

merge_scene-Covered_new : (m : Map SceneInterval) (t : SceneInterval) → Covered (merge_scene m t) t
unfolding merge_scene
merge_scene-Covered_new m t = (
  joined (lookup m t.scene_id) t,
  rw (lookup-put, text_eq_refl) refl,
  Within-joined_new (lookup m t.scene_id) t,
)

merge_scenes-Covered :
    (ts : List SceneInterval) (m : Map SceneInterval) (scene : SceneInterval)
    → Covered m scene
    → Covered (merge_scenes ts m) scene
unfolding merge_scenes
merge_scenes-Covered [] m scene h = h
merge_scenes-Covered (t ∷ ts) m scene h =
    merge_scenes-Covered ts (merge_scene m t) scene (merge_scene-Covered m t scene h)

merge_scenes-All :
    (ts : List SceneInterval) (m : Map SceneInterval) → All (Covered (merge_scenes ts m)) ts
unfolding merge_scenes
merge_scenes-All [] m = tt
merge_scenes-All (t ∷ ts) m = (
  merge_scenes-Covered ts (merge_scene m t) t (merge_scene-Covered_new m t),
  merge_scenes-All ts (merge_scene m t),
)

merge_cuts-Covered :
    {N : Type 0} (cs : List (CutResult N)) (m : Map SceneInterval) (scene : SceneInterval)
    → Covered m scene
    → Covered (merge_cuts cs m) scene
unfolding merge_cuts
merge_cuts-Covered [] m scene h = h
merge_cuts-Covered (c ∷ cs) m scene h =
    merge_cuts-Covered cs (merge_scenes c.scenes m) scene (merge_scenes-Covered c.scenes m scene h)

merge_cuts-All :
    {N : Type 0} (cs : List (CutResult N)) (m : Map SceneInterval)
    → All (λ c. All (Covered (merge_cuts cs m)) c.scenes) cs
unfolding merge_cuts
merge_cuts-All [] m = tt
merge_cuts-All (c ∷ cs) m = (
  All-mono (merge_cuts-Covered cs (merge_scenes c.scenes m)) c.scenes (merge_scenes-All c.scenes m),
  merge_cuts-All cs (merge_scenes c.scenes m),
)

-- Whatever the order of the cut results, the merged dictionary has, under the id of each of their
-- scenes, an interval that contains the scene.
pub merged_scenes-Covered :
    {N : Type 0} (cuts : List (CutResult N))
    → All (λ c. All (Covered (merged_scenes cuts)) c.scenes) cuts
unfolding merged_scenes
merged_scenes-Covered cuts =
    All-unsort (λ c. All (Covered (merge_cuts (sort_cuts cuts) [])) c.scenes) cuts
      (merge_cuts-All (sort_cuts cuts) [])

-- The scene stands in one of the results.
abbrev pub Occurs : {N : Type 0} → List (CutResult N) → SceneInterval → Type 0
Occurs cuts scene = Any (λ c. Any (λ t. scene ≡ t) c.scenes) cuts

All-Occurs : {N : Type 0} (cuts : List (CutResult N)) → All (λ c. All (Occurs cuts) c.scenes) cuts
All-Occurs [] = tt
All-Occurs (c ∷ cs) = (
  All-mono (λ s h. inl h) c.scenes (occurs_self c.scenes),
  All-mono (λ d h. All-mono (λ s o. inr o) d.scenes h) cs (All-Occurs cs),
)

min_cases : (a b : ℕ) → (min a b ≡ a) ⊎ (min a b ≡ b)
min_cases a b = ground arith

max_cases : (a b : ℕ) → (max a b ≡ a) ⊎ (max a b ≡ b)
max_cases a b = ground arith

module _ (S : SceneInterval → Type 0) where
  -- Both ends are taken from scenes of the key, among those with the property.
  abbrev pub Attained : Text → SceneInterval → Type 0
  Attained k e =
      ((s : SceneInterval) × S s × (s.scene_id ≡ k) × (s.start_frame ≡ e.start_frame))
      × ((s : SceneInterval) × S s × (s.scene_id ≡ k) × (s.end_frame ≡ e.end_frame))

  abbrev pub Tight : Map SceneInterval → Type 0
  Tight m = (k : Text) (e : SceneInterval) → lookup m k ≡ some e → Attained k e

  Attained-joined :
      (k : Text) (o : Option SceneInterval) (t : SceneInterval)
      → S t
      → t.scene_id ≡ k
      → ((e : SceneInterval) → o ≡ some e → Attained k e)
      → Attained k (joined o t)
  unfolding joined
  Attained-joined k none t st id h = ((t, st, id, refl), (t, st, id, refl))
  Attained-joined k (some e) t st id h =
      let ((s, ss, sid, low), (u, su, uid, high)) = h e refl in
      (
        elim (min_cases e.start_frame t.start_frame) [
          | inl eq ↦ (s, ss, sid, low ∙ sym eq)
          | inr eq ↦ (t, st, id, sym eq)
        ],
        elim (max_cases e.end_frame t.end_frame) [
          | inl eq ↦ (u, su, uid, high ∙ sym eq)
          | inr eq ↦ (t, st, id, sym eq)
        ],
      )

  merge_scene-Tight :
      (m : Map SceneInterval) (t : SceneInterval) → S t → Tight m → Tight (merge_scene m t)
  unfolding merge_scene
  merge_scene-Tight m t st h k e found = elim (Bool-cases (text_eq t.scene_id k)) [
    | inl same ↦
        let id = (text_eq_iff t.scene_id k).0 same in
        let new =
          Attained-joined k (lookup m t.scene_id) t st id
            (λ d was. h k d (ap (lookup m) (sym id) ∙ was)) in
        let there : lookup (merge_scene m t) k ≡ some (joined (lookup m t.scene_id) t) =
          rw (lookup-put, same) refl in
        let is_new : e ≡ joined (lookup m t.scene_id) t = cc in rw is_new new
    | inr apart ↦ h k e (rw (lookup-put, apart) at found)
  ]

  merge_scenes-Tight :
      (ts : List SceneInterval) (m : Map SceneInterval)
      → All S ts
      → Tight m
      → Tight (merge_scenes ts m)
  unfolding merge_scenes
  merge_scenes-Tight [] m hs h = h
  merge_scenes-Tight (t ∷ ts) m (st, hs) h =
      merge_scenes-Tight ts (merge_scene m t) hs (merge_scene-Tight m t st h)

  merge_cuts-Tight :
      {N : Type 0} (cs : List (CutResult N)) (m : Map SceneInterval)
      → All (λ c. All S c.scenes) cs
      → Tight m
      → Tight (merge_cuts cs m)
  unfolding merge_cuts
  merge_cuts-Tight [] m hs h = h
  merge_cuts-Tight (c ∷ cs) m (sc, hs) h =
      merge_cuts-Tight cs (merge_scenes c.scenes m) hs (merge_scenes-Tight c.scenes m sc h)

-- If the merged dictionary has an interval under an id, its first and its last frame are those of
-- scenes of that id in the cut results.
pub merged_scenes-Tight :
    {N : Type 0} (cuts : List (CutResult N)) (k : Text) (e : SceneInterval)
    → lookup (merged_scenes cuts) k ≡ some e
    → Attained (Occurs cuts) k e
unfolding merged_scenes lookup
merged_scenes-Tight cuts =
    merge_cuts-Tight (Occurs cuts) (sort_cuts cuts) []
      (All-sort_cuts (λ c. All (Occurs cuts) c.scenes) cuts (All-Occurs cuts))
      (λ k e none_found. absurd (ground (arith, none_found)))
