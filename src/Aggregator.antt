-- ===== src/Aggregator.antt =====
-- backend/app/workers/aggregator.py: the handler of tracking results. What `aggregate_result` makes of
-- the chunks is an argument, since the handler only passes it on; `none` is its exception.
pub mod Deliveries
pub mod Completion
use cv_video_analysis.Common.{
  ℕ, Bool, true, false, not, Option, none, some, List, if◌then◌else◌, ltb, leb, ◌||◌,
}
use cv_video_analysis.Common.Texts.{Text, codes}
use cv_video_analysis.Domain.Enums.{completed}
use cv_video_analysis.Domain.Floats.{Floats}
use cv_video_analysis.Store.{ChunkHash, Redis}
use cv_video_analysis.Repository.Errors.{RepositoryError, Result, ok, err}
use cv_video_analysis.Repository.Status.{TaskStatus, Read, get_status}
use cv_video_analysis.Repository.Update.{StatusPatch, no_patch, update_status}
use cv_video_analysis.Repository.Ingest.{get_video_metadata, save_result}
use cv_video_analysis.Repository.Tracking.{mark_chunk_tracking_done, get_all_chunk_payloads}

-- How a delivery ends: the task is completed; the handler returns early; it refuses a result without
-- a cut; or a call raises.
pub data Handled : Type 0 where
  finished early refused aggregation_failed : Handled
  raised : RepositoryError → Handled

pub record AggregatorSettings : Type 0 where
  pub max_attempts : ℕ
  pub ttl : ℕ
  pub update_every : ℕ

-- What the other parties answer while the handler runs: the reads of the status, those that
-- `update_status` makes before and after its script, and the aggregation.
pub record World (N : Type 0) : Type 0 where
  pub now : Text
  pub status_reads : ℕ → Read N
  pub before : ℕ → Read N
  pub after : ℕ → Read N
  pub aggregate : TaskStatus N → Text → List ChunkHash → Option Text

module _ {N : Type 0} (F : Floats N) (s : AggregatorSettings) (task : Text) (w : World N) where
  abbrev pub completed_patch : StatusPatch N
  completed_patch = record no_patch {
    stage = some completed;
    progress = some (F.of_nat 100);
    message = some (codes "Video analysis completed");
  }

  -- The last call of the handler.
  unfoldable pub handled_update : Result (TaskStatus N) × Redis N → Handled × Redis N
  handled_update (ok status, r) = (finished, r)
  handled_update (err e, r) = (raised e, r)

  unfoldable pub store_final : Option Text → Redis N → Handled × Redis N
  unfolding handled_update
  store_final none r = (aggregation_failed, r)
  store_final (some json) r = handled_update (
      update_status F s.max_attempts s.ttl w.now task completed_patch w.before w.after
        (save_result task json r))

  -- From `get_status` on.
  unfoldable pub aggregate_task :
      ℕ → Result (TaskStatus N) → Result Text → Redis N → Handled × Redis N
  unfolding store_final
  aggregate_task total (err e) video r = (raised e, r)
  aggregate_task total (ok status) (err e) r = (raised e, r)
  aggregate_task total (ok status) (ok video) r =
      store_final (w.aggregate status video (get_all_chunk_payloads task (some total) r)) r

  -- The tests on the answer of `mark_chunk_tracking_done`.
  unfoldable pub after_mark : (Bool × Bool × ℕ × ℕ) × Redis N → Handled × Redis N
  unfolding aggregate_task
  after_mark ((cut_done, is_new, completed_count, total), r) =
      if not cut_done
      then (refused, r)
      else if not is_new
      then (early, r)
      else if leb total 0 || ltb completed_count total
      then (early, r)
      else aggregate_task total (get_status F task s.max_attempts w.status_reads)
          (get_video_metadata task r) r

  -- `__call__`
  unfoldable pub handle_result : Text → Text → Redis N → Handled × Redis N
  unfolding after_mark
  handle_result chunk_id tracking_payload r =
      after_mark
        (mark_chunk_tracking_done F s.ttl w.now s.update_every task chunk_id tracking_payload r)
