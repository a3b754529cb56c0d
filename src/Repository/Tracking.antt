-- ===== src/Repository/Tracking.antt =====
-- The tracking side of the repository: `mark_chunk_tracking_done`,
-- `publish_tracking_result_in_order` and `get_all_chunk_payloads`.
pub mod Done
pub mod Results
use cv_video_analysis.Common.{
  ℕ, ◌+◌, ◌%◌, Bool, true, false, not, ◌&&◌, ◌||◌, Option, none, some, List, [], ◌∷◌, ◌++◌,
  if◌then◌else◌, ltb, leb, ◌==◌, or_else, is_some, range_from,
}
use cv_video_analysis.Common.Texts.{Text, codes}
use cv_video_analysis.Domain.Enums.{TaskStage, tracking, aggregating}
use cv_video_analysis.Domain.Stages.{is_terminal}
use cv_video_analysis.Domain.Floats.{Floats, float_max}
use cv_video_analysis.Store.{
  TaskHash, ChunkHash, StreamEntry, Redis, task_at, chunk_at, set_task, set_chunk, xadd,
}
use cv_video_analysis.Store.Keys.{task_key, chunk_key, chunk_id}
use cv_video_analysis.Repository.Errors.{Result, ok, err, missing_stream_fields, tracking_order}
use cv_video_analysis.Repository.Ingest.{StreamFields, stream_entry}
use cv_video_analysis.Repository.Cut.{decimal, stage_progress}

-- The HSET of a tracking result.
abbrev pub store_tracking : ℕ → Text → ChunkHash → ChunkHash
store_tracking ttl tracking_payload c = record c {
  tracking_done = true;
  tracking_payload = some tracking_payload;
  chunk_expires = some ttl;
}

module _ {N : Type 0} (F : Floats N) (ttl : ℕ) (now : Text) (update_every : ℕ) where
  -- What the script of `mark_chunk_tracking_done` writes to the task's hash.
  unfoldable pub tracking_task_fields : Bool → TaskHash N → TaskHash N
  unfolding stage_progress float_max
  tracking_task_fields is_new h =
      let completed = or_else h.tracking_completed_chunks 0 + (if is_new then 1 else 0) in
      let total = or_else h.total_chunks 0 in
      let all_done = ltb 0 total && leb total completed in
      let should_update = is_new && (all_done || (completed % update_every == 0)) in
      let h1 = record h {
        tracking_completed_chunks = if is_new then some completed else h.tracking_completed_chunks;
      } in
      if should_update && not (is_terminal (or_else h.stage tracking))
      then record h1 {
        stage = some (if all_done then aggregating else tracking);
        progress =
            some
              (float_max F (or_else h.progress (F.of_nat 0)) (stage_progress F 60 completed total));
        message = some (
            codes "Tracking completed for "
            ++ decimal completed
            ++ codes "/"
            ++ decimal total
            ++ codes " chunks");
        updated_at = some now;
        expires = some ttl;
      }
      else h1

  -- The script, with the answer `(cut_done, is_new, completed, total)`.
  unfoldable pub mark_script : Text → Text → Text → Redis N → (Bool × Bool × ℕ × ℕ) × Redis N
  mark_script task chunk tracking_payload r =
      let c = chunk_at r chunk in
      let is_new = not c.tracking_done in
      let h = tracking_task_fields is_new (task_at r task) in
      (
        (c.cut_done, is_new, or_else h.tracking_completed_chunks 0, or_else h.total_chunks 0),
        set_task (set_chunk r chunk (store_tracking ttl tracking_payload c)) task h,
      )

  unfoldable pub mark_chunk_tracking_done :
      Text → Text → Text → Redis N → (Bool × Bool × ℕ × ℕ) × Redis N
  mark_chunk_tracking_done task chunk_id tracking_payload r =
      mark_script (task_key task) (chunk_key task chunk_id) tracking_payload r

-- What the script of `publish_tracking_result_in_order` returns: 1, 0 or -1, with an index.
pub data PublishReply : Type 0 where
  published stale early : ℕ → PublishReply

unfoldable pub reply_result : ℕ → PublishReply → Result Bool
reply_result chunk_index (published n) = ok true
reply_result chunk_index (stale n) = ok false
reply_result chunk_index (early expected) = err (tracking_order expected chunk_index)

module _ {N : Type 0} (ttl : ℕ) where
  unfoldable pub publish_result_script :
      Text → Text → Text → ℕ → StreamEntry → Redis N → PublishReply × Redis N
  publish_result_script task chunk stream requested entry r =
      let h = task_at r task in
      let current = or_else h.next_tracking_result_chunk 0 in
      let c = record (chunk_at r chunk) {
        tracking_result_published = true;
        chunk_expires = some ttl;
      } in
      let h' = record h { next_tracking_result_chunk = some (current + 1); expires = some ttl } in
      if ltb requested current
      then (stale current, r)
      else if ltb current requested
      then (early current, r)
      else (published (current + 1), xadd (set_task (set_chunk r chunk c) task h') stream entry)

  unfoldable pub publish_tracking_result_in_order :
      Text → Text → ℕ → Text → StreamFields → Redis N → Result Bool × Redis N
  unfolding stream_entry reply_result
  publish_tracking_result_in_order task chunk_id chunk_index stream fields r =
      elim (stream_entry fields) [
        | none ↦ (err missing_stream_fields, r)
        | some entry ↦
            let (reply, r') =
              publish_result_script (task_key task) (chunk_key task chunk_id) stream chunk_index
                entry r in
            (reply_result chunk_index reply, r')
      ]

-- `if row`: Redis answers an absent hash with an empty dictionary.
unfoldable pub chunk_exists : ChunkHash → Bool
chunk_exists c =
    c.ingest_published
    || (is_some c.ingest_payload
        || (is_some c.object_ref
            || (is_some c.chunk_index
                || (c.cut_done
                    || (is_some c.cut_payload
                        || (is_some c.tracking_job_payload
                            || (c.tracking_job_dispatched
                                || (c.tracking_done
                                    || (is_some c.tracking_payload
                                        || c.tracking_result_published)))))))))

module _ {N : Type 0} where
  unfoldable pub fetch_rows : Text → List ℕ → Redis N → List ChunkHash
  unfolding chunk_exists
  fetch_rows task [] r = []
  fetch_rows task (i ∷ is) r =
      let row = chunk_at r (chunk_key task (chunk_id task i)) in
      let rest = fetch_rows task is r in if chunk_exists row then row ∷ rest else rest

  unfoldable pub get_all_chunk_payloads : Text → Option ℕ → Redis N → List ChunkHash
  unfolding fetch_rows
  get_all_chunk_payloads task total_chunks r =
      let total : ℕ = elim total_chunks [
        | none ↦ or_else (task_at r (task_key task)).total_chunks 0
        | some n ↦ n
      ] in
      fetch_rows task (range_from 0 total) r
