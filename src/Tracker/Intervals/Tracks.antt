-- ===== src/Tracker/Intervals/Tracks.antt =====
-- The tracks that participant_3_tracking/yolo_world_tracker.py answers for a job.
use cv_video_analysis.Common.{
  ◌+◌, ◌-◌, ◌≤◌, ◌≡◌, not, List, [], ◌∷◌, if_elim, ◌==◌, All, All-append, All-mono, Any, Any-append,
  Any-within, inl, inr, length, drop, arith, or_else, occurs_self,
}
use cv_video_analysis.Common.Sorting.{sort_by, All-sort_by}
use cv_video_analysis.Domain.Floats.{Floats}
use cv_video_analysis.Results.{SceneInterval}
use cv_video_analysis.Coordinator.{TrackingJobMessage}
use cv_video_analysis.Tracker.{TrackedObject, TrackerState, Vision}
use cv_video_analysis.Tracker.Classes.{TextMethods}
use cv_video_analysis.Tracker.Intervals.{
  returned, TrackerSettings, Tensor, process_interval, slice, scene_fits, process_scene,
  process_scenes, by_start, expecting, process_expected, process_job,
}
use cv_video_analysis.Common.Slices.{length-take}
use cv_video_analysis.Tracker.Intervals.Frames.{
  Gives, and_then-Gives, Gives-mono, IsTrack, process_interval-IsTrack,
}

module _ {N Frame B : Type 0} (F : Floats N) (sub : N → N → N) (T : TextMethods)
    (V : Vision N Frame B) (c : TrackerSettings N) where
  module _ (tensor : Tensor Frame) (job : TrackingJobMessage N) where
    -- A track of a scene that lies in the valid range.
    abbrev pub IsTrackIn : List SceneInterval → TrackedObject N → Type 0
    IsTrackIn scenes t =
        Any
          (λ (scene : SceneInterval).
            (job.valid_start_frame ≤ scene.start_frame)
            × (scene.end_frame ≤ job.valid_end_frame)
            × IsTrack F sub T V c scene.scene_id scene.start_frame scene.end_frame t)
          scenes

    process_scene-IsTrack :
        (scene : SceneInterval) (s : TrackerState B)
        → Gives (All (IsTrackIn (scene ∷ []))) (process_scene F sub T V c tensor job scene s)
    unfolding process_scene scene_fits
    process_scene-IsTrack scene s =
        let local_start = scene.start_frame - job.context_start_frame in
        let local_end = scene.end_frame + 1 - job.context_start_frame in
        let part = slice F sub T V c tensor local_start local_end in
        if_elim (Gives {S = TrackerState B} (All (IsTrackIn (scene ∷ []))))
          (not (scene_fits F sub T V c tensor job scene)) _ _ (λ e. tt)
          (λ e.
            Gives-mono _ _ (process_interval F sub T V c part scene.start_frame scene.scene_id _ s)
              (λ ts h. All-mono (λ t k. inl (ground arith, ground arith, k)) ts h)
              (process_interval-IsTrack F sub T V c part scene.start_frame scene.end_frame
                scene.scene_id _ s
                (ground
                  (arith, length-take (local_end - local_start) (drop local_start tensor.frames)))))

    process_scenes-IsTrack :
        (scenes : List SceneInterval) (s : TrackerState B)
        → Gives (All (IsTrackIn scenes)) (process_scenes F sub T V c tensor job scenes s)
    unfolding process_scenes
    process_scenes-IsTrack [] s = tt
    process_scenes-IsTrack (scene ∷ scenes) s =
        let P = All (IsTrackIn (scene ∷ scenes)) in
        and_then-Gives (All (IsTrackIn (scene ∷ []))) P
          (process_scene F sub T V c tensor job scene s) _ (process_scene-IsTrack scene s)
          λ first s' hf.
            and_then-Gives (All (IsTrackIn scenes)) P
              (process_scenes F sub T V c tensor job scenes s') _ (process_scenes-IsTrack scenes s')
              λ rest s'' hr.
                All-append _ first rest
                  (All-mono (λ t k. Any-append _ (scene ∷ []) scenes k) first hf)
                  (All-mono (λ t k. inr k) rest hr)

    pub process_job-IsTrack :
        (s : TrackerState B)
        → Gives (All (IsTrackIn job.scenes)) (process_job F sub T V c tensor job s)
    unfolding process_job process_expected
    process_job-IsTrack s =
        let P = All (IsTrackIn job.scenes) in
        let by = by_start F sub T V c tensor job in
        let scenes = sort_by by job.scenes in
        let known : All (λ (x : SceneInterval). Any (λ y. x ≡ y) job.scenes) scenes =
          All-sort_by by _ job.scenes (occurs_self job.scenes) in
        let start = expecting F sub T V c tensor job s in
        if_elim (Gives {S = TrackerState B} P)
          (not (length tensor.frames + job.context_start_frame == job.context_end_frame + 1)) _ _
          (λ e. tt)
          (λ e.
            if_elim (Gives {S = TrackerState B} P)
              (not (or_else s.expected_chunk_index job.chunk_index == job.chunk_index)) _ _
              (λ apart. tt)
              (λ same.
                and_then-Gives (All (IsTrackIn scenes)) P
                  (process_scenes F sub T V c tensor job scenes start) _
                  (process_scenes-IsTrack scenes start)
                  λ tracks s' h. All-mono (λ t k. Any-within _ scenes job.scenes known k) tracks h))

    -- When a job of the tracker returns, each track is one of a scene of the job that lies in the
    -- valid range, at one of the scene's frames, with a name of the model, and its confidence and
    -- its box are what the schema of TrackedObject accepts.
    pub process_job-tracks :
        (s t : TrackerState B) (tracks : List (TrackedObject N))
        → process_job F sub T V c tensor job s ≡ (returned tracks, t)
        → All (IsTrackIn job.scenes) tracks
    process_job-tracks s t tracks h = rw h at (process_job-IsTrack s)
