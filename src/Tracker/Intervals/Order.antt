-- ===== src/Tracker/Intervals/Order.antt =====
-- Which chunk the tracker expects, and how its ids stay a numbering, over whole jobs.
use cv_video_analysis.Common.{
  ℕ, ◌+◌, ◌≡◌, refl, not, Option, none, some, List, if_elim, ◌==◌, or_else, length, arith, ap, ◌⊎◌,
  inl, inr,
}
use cv_video_analysis.Common.Sorting.{sort_by}
use cv_video_analysis.Domain.Floats.{Floats}
use cv_video_analysis.Coordinator.{TrackingJobMessage}
use cv_video_analysis.Tracker.{TrackedObject, TrackerState, Vision}
use cv_video_analysis.Tracker.Classes.{TextMethods}
use cv_video_analysis.Tracker.Ids.{map_track_id, reset_for_scene}
use cv_video_analysis.Tracker.Intervals.{
  Outcome, returned, raised, and_then, TrackerSettings, Tensor, process_scenes, by_start,
  next_index, expecting, process_expected, process_job,
}
use cv_video_analysis.Tracker.Intervals.Keeps.{IsStable, process_scenes-keeps}
use cv_video_analysis.Tracker.Ids.Distinct.{
  IsNumbered, map_track_id-IsNumbered, reset_for_scene-IsNumbered,
}
use cv_video_analysis.Tracker.Ids.{map_known}

map_known-expected :
    {B : Type 0} (o : Option ℕ) (raw : ℕ) (s : TrackerState B)
    → (map_known o raw s).1.expected_chunk_index ≡ s.expected_chunk_index
unfolding map_known
map_known-expected none raw s = refl
map_known-expected (some i) raw s = refl

module _ {N Frame B : Type 0} (F : Floats N) (sub : N → N → N) (T : TextMethods)
    (V : Vision N Frame B) (c : TrackerSettings N) where
  IsNumbered-stable : IsStable F sub T V c IsNumbered
  IsNumbered-stable = record {
    mapping = λ raw s h. map_track_id-IsNumbered raw s h;
    updating = λ b s h. record { numbering = h.numbering; next = h.next };
    resetting = λ scene_id s h. reset_for_scene-IsNumbered V scene_id s;
  }

  abbrev Expects : Option ℕ → TrackerState B → Type 0
  Expects i s = s.expected_chunk_index ≡ i

  Expects-stable : (i : Option ℕ) → IsStable F sub T V c (Expects i)
  unfolding map_track_id reset_for_scene
  Expects-stable i = record {
    mapping = λ raw s h. rw map_known-expected h;
    updating = λ b s h. h;
    resetting = λ scene_id s h. h;
  }

  module _ (tensor : Tensor Frame) (job : TrackingJobMessage N) where
    -- After a job, by its outcome: a chunk that is done raises the index by one, an error leaves what
    -- was expected, or the chunk of the job if nothing was.
    abbrev pub Advances :
        TrackerState B → Outcome (List (TrackedObject N)) × TrackerState B → Type 0
    Advances s (returned tracks, t) =
        (or_else s.expected_chunk_index job.chunk_index ≡ job.chunk_index)
        × (t.expected_chunk_index ≡ some (job.chunk_index + 1))
    Advances s (raised e, t) =
        (t.expected_chunk_index ≡ s.expected_chunk_index)
        ⊎ (t.expected_chunk_index ≡ some (or_else s.expected_chunk_index job.chunk_index))

    Advances-finish :
        (s : TrackerState B) (r : Outcome (List (TrackedObject N)) × TrackerState B)
        → or_else s.expected_chunk_index job.chunk_index ≡ job.chunk_index
        → r.1.expected_chunk_index ≡ some job.chunk_index
        → Advances s (
            and_then r λ tracks s'. (
              returned tracks,
              record s' {
                expected_chunk_index = next_index F sub T V c tensor job s'.expected_chunk_index;
              },
            ))
    Advances-finish s (returned tracks, t) same h = (same, rw h)
    Advances-finish s (raised e, t) same h = inr (rw (h, same))

    -- A job that returns was of the chunk that the tracker expected, if it expected one, and makes
    -- it expect the next; a job that raises leaves the expected chunk as it was, or sets it to the
    -- job's chunk if there was none.
    pub process_job-Advances :
        (s : TrackerState B) → Advances s (process_job F sub T V c tensor job s)
    unfolding process_job process_expected
    process_job-Advances s =
        let expected = or_else s.expected_chunk_index job.chunk_index in
        let start = expecting F sub T V c tensor job s in
        let scenes = sort_by (by_start F sub T V c tensor job) job.scenes in
        if_elim (Advances s)
          (not (length tensor.frames + job.context_start_frame == job.context_end_frame + 1)) _ _
          (λ e. inl refl)
          (λ e.
            if_elim (Advances s) (not (expected == job.chunk_index)) _ _ (λ apart. inr refl)
              (λ same.
                let here : expected ≡ job.chunk_index = ground arith in
                Advances-finish s (process_scenes F sub T V c tensor job scenes start) here (
                  process_scenes-keeps F sub T V c (Expects (some job.chunk_index))
                    (Expects-stable (some job.chunk_index)) tensor job scenes start
                    (ap some here))))

    IsNumbered-finish :
        (r : Outcome (List (TrackedObject N)) × TrackerState B)
        → IsNumbered r.1
        → IsNumbered
            (and_then r λ tracks s'. (
              returned tracks,
              record s' {
                expected_chunk_index = next_index F sub T V c tensor job s'.expected_chunk_index;
              },
            )).1
    IsNumbered-finish (returned tracks, t) h = record { numbering = h.numbering; next = h.next }
    IsNumbered-finish (raised e, t) h = h

    -- If the track ids of a scene are 0, 1, 2 and so on, one for each raw id, with the next id
    -- their count, then this holds after any job, also after one that raises.
    pub process_job-IsNumbered :
        (s : TrackerState B) → IsNumbered s → IsNumbered (process_job F sub T V c tensor job s).1
    unfolding process_job process_expected
    process_job-IsNumbered s h =
        let start = expecting F sub T V c tensor job s in
        let scenes = sort_by (by_start F sub T V c tensor job) job.scenes in
        let started : IsNumbered start = record { numbering = h.numbering; next = h.next } in
        let P = λ (r : Outcome (List (TrackedObject N)) × TrackerState B). IsNumbered r.1 in
        if_elim P
          (not (length tensor.frames + job.context_start_frame == job.context_end_frame + 1)) _ _
          (λ e. h)
          (λ e.
            if_elim P (not (or_else s.expected_chunk_index job.chunk_index == job.chunk_index)) _ _
              (λ apart. started)
              (λ same. IsNumbered-finish (process_scenes F sub T V c tensor job scenes start) (
                process_scenes-keeps F sub T V c IsNumbered IsNumbered-stable tensor job scenes
                  start started)))
