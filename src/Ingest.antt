-- ===== src/Ingest.antt =====
-- backend/app/workers/ingest.py: the backpressure of the ingest worker. A poll is what one round of
-- a waiting loop reads: Redis, the registry, and the monotonic clock in its ticks. The objects that
-- the worker releases are a log of their tokens.
pub mod Releases
pub mod Stalls
use cv_video_analysis.Common.{
  ℕ, zero, suc, ◌+◌, ◌-◌, ◌%◌, min, Bool, true, false, not, ◌&&◌, ◌||◌, Option, none, some, List,
  [], ◌∷◌, ◌++◌, if◌then◌else◌, ltb, leb, ◌==◌,
}
use cv_video_analysis.Common.Texts.{Text}
use cv_video_analysis.Domain.Enums.{TaskStage, completed, failed, stage_eq}
use cv_video_analysis.Domain.Stages.{stage_rank, is_terminal}

-- `_should_publish_progress`
unfoldable pub should_publish_progress : ℕ → ℕ → ℕ → Bool
should_publish_progress update_every completed_chunks total =
    (completed_chunks == 1)
    || (leb total completed_chunks || (completed_chunks % update_every == 0))

-- The stage that `_advance_stage_if_needed` asks for; `none` where it returns at once.
unfoldable pub advanced_stage : TaskStage → TaskStage → Option TaskStage
advanced_stage current target =
    if is_terminal current
    then none
    else some (if ltb (stage_rank current) (stage_rank target) then target else current)

pub record IngestSettings : Type 0 where
  pub max_inflight_chunks_per_task : ℕ
  pub max_inflight_chunks_global : ℕ
  pub downstream_stall_timeout : ℕ

pub record Poll : Type 0 where
  pub stage : TaskStage
  pub tracking_completed : ℕ
  -- What `get_chunk_object_ref` answers; `none` is its exception.
  pub object_ref : ℕ → Option Text
  pub active_tasks : ℕ
  pub global_in_flight : ℕ
  -- The clock after a release, after a sign of progress, and at the test of the timeout.
  pub released_at : ℕ
  pub progressed_at : ℕ
  pub checked_at : ℕ

-- The variables of the loops; `none` is -1.
pub record WaitState : Type 0 where
  pub released_count : ℕ
  pub stalled_since : ℕ
  pub last_tracking_completed : Option ℕ
  pub last_global_in_flight : Option ℕ
  pub released : List Text

-- How a loop ends: with capacity, or all released; because of the stage; by `DownstreamStallError`;
-- by the exception of a missing reference.
pub data WaitEnd : Type 0 where
  ready halted stalled no_reference : WaitEnd

-- `_release_completed_chunks` for so many chunks from an index on: whether it returns, the count it
-- came to, and the log.
unfoldable pub release_chunks : (ℕ → Option Text) → ℕ → ℕ → List Text → Bool × ℕ × List Text
release_chunks object_ref index zero log = (true, index, log)
release_chunks object_ref index (suc left) log = elim (object_ref index) [
  | none ↦ (false, index, log)
  | some token ↦ release_chunks object_ref (suc index) left (log ++ token ∷ [])
]

abbrev pub released_state : Poll → WaitState → Bool × ℕ × List Text → Bool × WaitState
released_state p st (returned, count, log) =
    (returned, record st { released_count = count; stalled_since = p.released_at; released = log })

-- `if tracking_completed > released_count`
unfoldable pub catch_up : Poll → WaitState → Bool × WaitState
unfolding release_chunks
catch_up p st =
    if ltb st.released_count p.tracking_completed
    then released_state p st (
        release_chunks p.object_ref st.released_count (p.tracking_completed - st.released_count)
          st.released)
    else (true, st)

-- `a > last`, where `none` is -1.
unfoldable pub exceeds : ℕ → Option ℕ → Bool
exceeds a none = true
exceeds a (some last) = ltb last a

-- `last >= 0 and a < last`
unfoldable pub below : ℕ → Option ℕ → Bool
below a none = false
below a (some last) = ltb a last

abbrev pub per_task_limit : IngestSettings → Poll → ℕ
per_task_limit s p =
    if ltb 1 p.active_tasks
    then min s.max_inflight_chunks_per_task 1
    else s.max_inflight_chunks_per_task

unfoldable pub has_capacity : IngestSettings → ℕ → Poll → Bool
has_capacity s published_count p =
    ltb (published_count - p.tracking_completed) (per_task_limit s p)
    && ltb p.global_in_flight s.max_inflight_chunks_global

-- The last part of a round of the capacity loop.
unfoldable pub note_capacity : Poll → WaitState → WaitState
unfolding exceeds below
note_capacity p st = record st {
  stalled_since =
      if exceeds p.tracking_completed st.last_tracking_completed
        || below p.global_in_flight st.last_global_in_flight
      then p.progressed_at
      else st.stalled_since;
  last_tracking_completed = some p.tracking_completed;
  last_global_in_flight = some p.global_in_flight;
}

-- The test of the timeout; `none` goes on.
unfoldable pub check_stall : IngestSettings → Poll → WaitState → Option WaitEnd × WaitState
check_stall s p st =
    if leb s.downstream_stall_timeout (p.checked_at - st.stalled_since)
    then (some stalled, st)
    else (none, st)

-- A round of `_wait_for_downstream_capacity` after the releases.
unfoldable pub capacity_round :
    IngestSettings → ℕ → Poll → Bool × WaitState → Option WaitEnd × WaitState
unfolding has_capacity note_capacity check_stall
capacity_round s published_count p (false, st) = (some no_reference, st)
capacity_round s published_count p (true, st) =
    if is_terminal p.stage
    then (some halted, st)
    else if has_capacity s published_count p
    then (some ready, st)
    else check_stall s p (note_capacity p st)

-- A round of `_wait_for_downstream_drain` after the releases.
unfoldable pub note_drain : Poll → WaitState → WaitState
unfolding exceeds
note_drain p st = record st {
  stalled_since =
      if exceeds p.tracking_completed st.last_tracking_completed
      then p.progressed_at
      else st.stalled_since;
  last_tracking_completed = some p.tracking_completed;
}

unfoldable pub drain_round :
    IngestSettings → ℕ → Poll → Bool × WaitState → Option WaitEnd × WaitState
unfolding note_drain check_stall
drain_round s total_chunks p (false, st) = (some no_reference, st)
drain_round s total_chunks p (true, st) =
    if leb total_chunks st.released_count
    then (some ready, st)
    else if stage_eq p.stage failed
    then (some halted, st)
    else check_stall s p (note_drain p st)

-- `while`: the rounds, for as long as there are polls; `none` is a loop that still waits.
pub data Rounds : Type 0 where
  capacity drain : ℕ → Rounds

unfoldable pub round :
    IngestSettings → Rounds → Poll → Bool × WaitState → Option WaitEnd × WaitState
unfolding capacity_round drain_round
round s (capacity published_count) p caught = capacity_round s published_count p caught
round s (drain total_chunks) p caught = drain_round s total_chunks p caught

unfoldable pub go_on :
    Option WaitEnd × WaitState → Option WaitEnd × WaitState → Option WaitEnd × WaitState
go_on (some end, st) rest = (some end, st)
go_on (none, st) rest = rest

unfoldable pub poll_loop :
    IngestSettings → Rounds → List Poll → WaitState → Option WaitEnd × WaitState
unfolding go_on
poll_loop s kind [] st = (none, st)
poll_loop s kind (p ∷ ps) st =
    let outcome = round s kind p (catch_up p st) in go_on outcome (poll_loop s kind ps outcome.1)

-- What the loops start with.
abbrev pub start_wait : ℕ → ℕ → List Text → WaitState
start_wait now released_count released = record {
  released_count = released_count;
  stalled_since = now;
  last_tracking_completed = none;
  last_global_in_flight = none;
  released = released;
}

unfoldable pub wait_for_downstream_capacity :
    IngestSettings → ℕ → ℕ → ℕ → List Text → List Poll → Option WaitEnd × WaitState
unfolding poll_loop
wait_for_downstream_capacity s published_count released_count now released polls =
    poll_loop s (capacity published_count) polls (start_wait now released_count released)

-- `while released_count < total_chunks`
unfoldable pub wait_for_downstream_drain :
    IngestSettings → ℕ → ℕ → ℕ → List Text → List Poll → Option WaitEnd × WaitState
unfolding poll_loop
wait_for_downstream_drain s total_chunks released_count now released polls =
    let st = start_wait now released_count released in
    if ltb released_count total_chunks
    then poll_loop s (drain total_chunks) polls st
    else (some ready, st)
