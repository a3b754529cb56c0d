-- ===== src/Aggregator/Completion.antt =====
-- The delivery that completes a task, in backend/app/workers/aggregator.py.
use cv_video_analysis.Common.{
  ℕ, ◌+◌, ◌<◌, ◌≡◌, refl, ap, ◌∙◌, Bool, true, false, ◌&&◌, ◌||◌, Option, none, some, arith,
  or_else, ltb, leb,
}
use cv_video_analysis.Common.Texts.{Text}
use cv_video_analysis.Common.Maps.{get_or-put_self}
use cv_video_analysis.Domain.Enums.{tracking, aggregating, completed}
use cv_video_analysis.Domain.Stages.{is_terminal, stage_rank, ensure_stage_transition}
use cv_video_analysis.Domain.Floats.{Floats, IsLe, IsLe-refl}
use cv_video_analysis.Store.{TaskHash, Redis, task_at, chunk_at, task_exists}
use cv_video_analysis.Store.Keys.{task_key, chunk_key}
use cv_video_analysis.Repository.Errors.{ok}
use cv_video_analysis.Repository.Status.{TaskStatus, get_status}
use cv_video_analysis.Repository.Update.{
  StatusPatch, stage_outcome, raise_progress, hset_max, apply_outcome, patch_fields, update_script,
  patched, reply_to, eval_update, update_from, update_status, clipped,
}
use cv_video_analysis.Repository.Update.Script.{update_script_live}
use cv_video_analysis.Repository.Ingest.{get_video_metadata, save_result, get_result}
use cv_video_analysis.Repository.Tracking.{
  tracking_task_fields, mark_script, mark_chunk_tracking_done, get_all_chunk_payloads,
}
use cv_video_analysis.Aggregator.{
  finished, AggregatorSettings, World, completed_patch, handle_result,
}
use cv_video_analysis.Aggregator.Deliveries.{marked, after_mark_completes}

module _ {N : Type 0} (F : Floats N) where
  raise_progress-to :
      (existing : Option N) (requested : N)
      → IsLe F requested (or_else (raise_progress F existing (some requested)) (F.of_nat 0))
  unfolding raise_progress
  raise_progress-to none x = ground (arith, IsLe-refl F x)
  raise_progress-to (some e) x = ground (arith, IsLe-refl F x)

  -- The last result of a task makes it aggregating.
  tracking_last :
      (ttl : ℕ) (now : Text) (update_every total : ℕ) (h : TaskHash N)
      → h.total_chunks ≡ some total
      → or_else h.tracking_completed_chunks 0 + 1 ≡ total
      → is_terminal (or_else h.stage tracking) ≡ false
      → let h' = tracking_task_fields F ttl now update_every true h in
        (h'.stage ≡ some aggregating)
        × (h'.tracking_completed_chunks ≡ some total)
        × (h'.total_chunks ≡ some total)
        × (task_exists h' ≡ true)
  unfolding tracking_task_fields task_exists
  tracking_last ttl now update_every total h is_total last live =
      let all_done : (ltb 0 total && leb total total) ≡ true = ground arith in
      rw (is_total, last, all_done, live) (refl, refl, refl, ground arith)

  -- The status script on a task that aggregates.
  completed_script :
      (ttl : ℕ) (now : Text) (p : StatusPatch N) (h : TaskHash N)
      → p.stage ≡ some completed
      → task_exists h ≡ true
      → h.stage ≡ some aggregating
      → let (reply, h') = update_script F ttl now p h in
        (reply ≡ patched completed)
        × (h'.stage ≡ some completed)
        × (h'.progress ≡ raise_progress F h.progress p.progress)
        × (h'.tracking_completed_chunks
            ≡ hset_max h.tracking_completed_chunks p.tracking_completed_chunks)
  unfolding is_terminal
  completed_script ttl now p h asked there stage =
      let live : is_terminal (or_else h.stage _) ≡ false = rw stage refl in
      rw (update_script_live F ttl now p h there live, asked, stage)
        (unfold stage_outcome apply_outcome patch_fields in (refl, refl, refl, refl))

all_counted :
    (a : Bool × Bool × ℕ × ℕ) (total : ℕ)
    → a ≡ (true, true, total, total)
    → 0 < total
    → (leb a.3 0 || ltb a.2 a.3) ≡ false
all_counted a total e some_chunks = rw e (ground arith)

module _ {N : Type 0} (F : Floats N) (s : AggregatorSettings) (task : Text) (w : World N) where
  -- The record of the task.
  abbrev pub task_of : Redis N → TaskHash N
  task_of r = task_at r (task_key task)

  mark_last :
      (chunk_id payload : Text) (total : ℕ) (r : Redis N)
      → (chunk_at r (chunk_key task chunk_id)).cut_done ≡ true
      → (chunk_at r (chunk_key task chunk_id)).tracking_done ≡ false
      → (task_of r).total_chunks ≡ some total
      → or_else (task_of r).tracking_completed_chunks 0 + 1 ≡ total
      → is_terminal (or_else (task_of r).stage tracking) ≡ false
      → let (reply, r') = marked F s task w chunk_id payload r in
        (reply ≡ (true, true, total, total))
        × ((task_of r').stage ≡ some aggregating)
        × ((task_of r').tracking_completed_chunks ≡ some total)
        × (task_exists (task_of r') ≡ true)
        × (get_video_metadata task r' ≡ get_video_metadata task r)
  unfolding mark_chunk_tracking_done mark_script get_video_metadata
  mark_last chunk_id payload total r cut new is_total last live =
      let done = tracking_last F s.ttl w.now s.update_every total (task_of r) is_total last live in
      rw (cut, new, get_or-put_self) (rw (done.1, done.2) refl, done.0, done.1, done.3, refl)

  update_last :
      (r : Redis N) (current last : TaskStatus N) (total : ℕ)
      → get_status F task s.max_attempts w.before ≡ ok current
      → current.stage ≡ aggregating
      → get_status F task s.max_attempts w.after ≡ ok last
      → (task_of r).stage ≡ some aggregating
      → (task_of r).tracking_completed_chunks ≡ some total
      → task_exists (task_of r) ≡ true
      → let (result, r') =
          update_status F s.max_attempts s.ttl w.now task
            (completed_patch F s task w)
            w.before
            w.after
            r in
        (result ≡ ok last)
        × ((task_of r').stage ≡ some completed)
        × IsLe F (F.of_nat 100) (or_else (task_of r').progress (F.of_nat 0))
        × ((task_of r').tracking_completed_chunks ≡ some total)
  unfolding update_status update_from is_terminal ensure_stage_transition stage_rank eval_update
      reply_to hset_max
  update_last r current last total f1 stage f2 at counted there =
      let p = clipped F (completed_patch F s task w) in
      let done = completed_script F s.ttl w.now p (task_of r) refl there at in
      rw (f1, stage, f2)
        (
          rw done.0 refl,
          rw get_or-put_self done.1,
          rw (get_or-put_self, done.2) (raise_progress-to F (task_of r).progress (F.of_nat 100)),
          rw get_or-put_self (done.3 ∙ counted),
        )

  -- If a chunk's cut is done and its tracking result is not recorded, this is the last of the
  -- task's chunks to be counted and the task has not ended, then a delivery of the chunk's result,
  -- where the metadata are stored, the status reads answer, the first read of the update shows an
  -- aggregating task and the results aggregate, finishes; it leaves the aggregated result stored,
  -- the task completed with a progress of at least 100, and as many completed chunks as the task
  -- has.
  pub handle_result_completes :
      (chunk_id payload video json : Text) (total : ℕ) (r : Redis N)
      (status current last : TaskStatus N)
      → (chunk_at r (chunk_key task chunk_id)).cut_done ≡ true
      → (chunk_at r (chunk_key task chunk_id)).tracking_done ≡ false
      → (task_of r).total_chunks ≡ some total
      → or_else (task_of r).tracking_completed_chunks 0 + 1 ≡ total
      → is_terminal (or_else (task_of r).stage tracking) ≡ false
      → get_video_metadata task r ≡ ok video
      → get_status F task s.max_attempts w.status_reads ≡ ok status
      → w.aggregate status video
          (get_all_chunk_payloads task (some total) (marked F s task w chunk_id payload r).1)
        ≡ some json
      → get_status F task s.max_attempts w.before ≡ ok current
      → current.stage ≡ aggregating
      → get_status F task s.max_attempts w.after ≡ ok last
      → let (end, r') = handle_result F s task w chunk_id payload r in
        (end ≡ finished)
        × (get_result task r' ≡ some json)
        × ((task_of r').stage ≡ some completed)
        × IsLe F (F.of_nat 100) (or_else (task_of r').progress (F.of_nat 0))
        × ((task_of r').tracking_completed_chunks ≡ some total)
  unfolding handle_result save_result
  handle_result_completes chunk_id payload video json total r status current last cut new is_total
        all live meta read made f1 stage f2 =
      let x = marked F s task w chunk_id payload r in
      let (reply, at, counted, there, same) =
        mark_last chunk_id payload total r cut new is_total all live in
      let now = all_counted x.0 total reply (omega (arith, all)) in
      let (fine, stage', progress, count) =
        update_last (save_result task json x.1) current last total f1 stage f2 at counted there in
      let (end, stored, is_update) =
        after_mark_completes F s task w x video json status last
          (ap (λ (a : Bool × Bool × ℕ × ℕ). a.0) reply)
          (ap (λ (a : Bool × Bool × ℕ × ℕ). a.1) reply) now read (same ∙ meta)
          (ap
              (λ (a : Bool × Bool × ℕ × ℕ).
                w.aggregate status video (get_all_chunk_payloads task (some a.3) x.1))
              reply
            ∙ made)
          fine in
      (end, stored, rw is_update stage', rw is_update progress, rw is_update count)
