-- ===== src/Examples/Waits.antt =====
-- The waiting loops of the ingest worker at concrete inputs.
use mathlib.Core.List.{map}
use cv_video_analysis.Common.{ℕ, ◌≤◌, ◌≡◌, refl, some, List, [], ◌∷◌, range_from, arith}
use cv_video_analysis.Common.Texts.{Text, pad}
use cv_video_analysis.Domain.Enums.{tracking}
use cv_video_analysis.Domain.Stages.{is_terminal}
use cv_video_analysis.Ingest.{
  IngestSettings, Poll, WaitEnd, stalled, capacity, drain, has_capacity, poll_loop,
  wait_for_downstream_capacity, wait_for_downstream_drain,
}
use cv_video_analysis.Ingest.Releases.{ReleasedInOrder, EndMeans, waits_lem}
use cv_video_analysis.Ingest.Stalls.{Quiet, waiting, poll_loop_stalls}

abbrev settings : IngestSettings
settings = record {
  max_inflight_chunks_per_task = 2;
  max_inflight_chunks_global = 4;
  downstream_stall_timeout = 10;
}

abbrev token : ℕ → Text
token i = pad 8 i

-- A poll at a time that finds so many chunks tracked.
abbrev poll : ℕ → ℕ → Poll
poll now tracked = record {
  stage = tracking;
  tracking_completed = tracked;
  object_ref = λ i. some (token i);
  active_tasks = 1;
  global_in_flight = 2;
  released_at = now;
  progressed_at = now;
  checked_at = now;
}

abbrev polls : List Poll
polls = poll 1 0 ∷ poll 2 1 ∷ []

waits_lem_example :
    let log = map token (range_from 0 0) in
    let (end, st') = wait_for_downstream_capacity settings 2 0 0 log polls in
    let (end_drain, st_drain) = wait_for_downstream_drain settings 3 0 0 log polls in
    (ReleasedInOrder token st'
      × (0 ≤ st'.released_count)
      × ((e : WaitEnd) → end ≡ some e → EndMeans settings (capacity 2) e st'.released_count))
    × (ReleasedInOrder token st_drain
        × (0 ≤ st_drain.released_count)
        × ((e : WaitEnd)
            → end_drain ≡ some e
            → EndMeans settings (drain 3) e st_drain.released_count))
waits_lem_example = waits_lem settings token 2 3 0 0 polls ((λ i lt. refl), ((λ i lt. refl), tt))

quiet : (now : ℕ) → Quiet settings 3 1 2 (poll now 1)
unfolding has_capacity is_terminal
quiet now = record { same_tracked = refl; same_in_flight = refl; live = refl; full = refl }

poll_loop_stalls_example :
    (poll_loop settings
      (capacity 3)
      (poll 5 1 ∷ poll 12 1 ∷ [])
      (waiting settings 3 1 2 0 1 [] (omega arith))).0
    ≡ some stalled
poll_loop_stalls_example =
    poll_loop_stalls settings 3 1 2 0 1 [] (omega arith) (poll 5 1 ∷ []) (poll 12 1) (quiet 5, tt)
      (quiet 12) (omega arith)
