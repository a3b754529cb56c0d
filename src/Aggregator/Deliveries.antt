-- ===== src/Aggregator/Deliveries.antt =====
-- What a delivery of a tracking result leads to, and a second delivery of the same.
use cv_video_analysis.Common.{
  ℕ, ◌≡◌, ◌≢◌, ◌⊎◌, refl, ap, ◌∙◌, Bool, true, false, not, Option, none, some, arith, ltb, leb,
  ◌||◌, Bool-cases, inl, inr,
}
use cv_video_analysis.Common.Texts.{Text}
use cv_video_analysis.Common.Maps.{get_or-put_self}
use cv_video_analysis.Domain.Floats.{Floats}
use cv_video_analysis.Store.{ChunkHash, Redis, chunk_at}
use cv_video_analysis.Store.Keys.{chunk_key}
use cv_video_analysis.Repository.Errors.{Result, ok, err}
use cv_video_analysis.Repository.Status.{TaskStatus, get_status}
use cv_video_analysis.Repository.Update.{update_status}
use cv_video_analysis.Repository.Ingest.{get_video_metadata, save_result, get_result}
use cv_video_analysis.Repository.Tracking.{
  store_tracking, mark_script, mark_chunk_tracking_done, get_all_chunk_payloads,
}
use cv_video_analysis.Repository.Update.Calls.{update_status_keeps}
use cv_video_analysis.Common.Maps.{get_or}
use cv_video_analysis.Store.{no_chunk}
use cv_video_analysis.Store.Keys.{result_key}
use cv_video_analysis.Aggregator.{
  finished, early, refused, aggregation_failed, AggregatorSettings, World, completed_patch,
  handled_update, store_final, aggregate_task, after_mark, handle_result,
}

module _ {N : Type 0} (F : Floats N) (s : AggregatorSettings) (task : Text) where
  -- The flag of a chunk whose tracking result was recorded.
  abbrev pub is_recorded : Text → Redis N → Bool
  is_recorded chunk_id r = (chunk_at r (chunk_key task chunk_id)).tracking_done

  module _ (w : World N) where
    -- The answer of `mark_chunk_tracking_done`, and the store after it.
    abbrev pub marked : Text → Text → Redis N → (Bool × Bool × ℕ × ℕ) × Redis N
    marked chunk_id payload r =
        mark_chunk_tracking_done F s.ttl w.now s.update_every task chunk_id payload r

    after_mark_old :
        (x : (Bool × Bool × ℕ × ℕ) × Redis N)
        → x.0.1 ≡ false
        → let (end, r') = after_mark F s task w x in ((end ≡ early) ⊎ (end ≡ refused)) × (r' ≡ x.1)
    unfolding after_mark
    after_mark_old ((true, is_new, n, total), r) old = rw old (inl refl, refl)
    after_mark_old ((false, is_new, n, total), r) old = (inr refl, refl)

    -- A recorded result is not aggregated again.
    pub handle_result_again :
        (chunk_id payload : Text) (r : Redis N)
        → is_recorded chunk_id r ≡ true
        → let (end, r') = handle_result F s task w chunk_id payload r in
          ((end ≡ early) ⊎ (end ≡ refused)) × (r'.results ≡ r.results)
    unfolding handle_result mark_chunk_tracking_done mark_script
    handle_result_again chunk_id payload r old =
        let marked =
          mark_chunk_tracking_done F s.ttl w.now s.update_every task chunk_id payload r in
        let (end, same) = after_mark_old marked (ap not old) in
        (end, ap (λ (q : Redis N). q.results) same)

    abbrev pub updated : Text → Redis N → Result (TaskStatus N) × Redis N
    updated json r =
        update_status F s.max_attempts s.ttl w.now task (completed_patch F s task w) w.before
          w.after (save_result task json r)

    handled_update_state :
        (x : Result (TaskStatus N) × Redis N)
        → ((handled_update F s task w x).1 ≡ x.1)
          × ((handled_update F s task w x).0 ≢ aggregation_failed)
    unfolding handled_update
    handled_update_state (ok status, r) = (refl, λ e. absurd (ground (arith, e)))
    handled_update_state (err x, r) = (refl, λ e. absurd (ground (arith, e)))

    store_final_lem :
        (json : Option Text) (r : Redis N)
        → let (end, r') = store_final F s task w json r in
          (r'.chunks ≡ r.chunks) × (end ≡ aggregation_failed → r'.results ≡ r.results)
    unfolding store_final save_result
    store_final_lem none r = (refl, λ e. refl)
    store_final_lem (some json) r =
        let keeps =
          update_status_keeps F s.ttl w.now task s.max_attempts (completed_patch F s task w)
            w.before w.after (save_result task json r) in
        let state = handled_update_state (updated json r) in
        (ap (λ (q : Redis N). q.chunks) state.0 ∙ keeps.0, λ e. absurd (state.1 e))

    aggregate_task_lem :
        (total : ℕ) (status : Result (TaskStatus N)) (video : Result Text) (r : Redis N)
        → let (end, r') = aggregate_task F s task w total status video r in
          (r'.chunks ≡ r.chunks) × (end ≡ aggregation_failed → r'.results ≡ r.results)
    unfolding aggregate_task
    aggregate_task_lem total (err x) video r = (refl, λ e. refl)
    aggregate_task_lem total (ok status) (err x) r = (refl, λ e. refl)
    aggregate_task_lem total (ok status) (ok video) r = store_final_lem _ r

    after_mark_lem :
        (x : (Bool × Bool × ℕ × ℕ) × Redis N)
        → let (end, r') = after_mark F s task w x in
          (r'.chunks ≡ x.1.chunks) × (end ≡ aggregation_failed → r'.results ≡ x.1.results)
    unfolding after_mark
    after_mark_lem ((false, is_new, n, total), r) = (refl, λ e. refl)
    after_mark_lem ((true, false, n, total), r) = (refl, λ e. refl)
    after_mark_lem ((true, true, n, total), r) = elim (Bool-cases (leb total 0 || ltb n total)) [
      | inl some_left ↦ rw some_left (refl, λ e. refl)
      | inr all ↦ rw all (aggregate_task_lem total _ _ r)
    ]

    mark_records :
        (chunk_id payload : Text) (r : Redis N)
        → let r' =
            (mark_chunk_tracking_done F s.ttl w.now s.update_every task chunk_id payload r).1 in
          (is_recorded chunk_id r' ≡ true) × (r'.results ≡ r.results)
    unfolding mark_chunk_tracking_done mark_script
    mark_records chunk_id payload r = (
      ap (λ (c : ChunkHash). c.tracking_done)
          (get_or-put_self r.chunks (chunk_key task chunk_id)
            (store_tracking s.ttl payload (chunk_at r (chunk_key task chunk_id))) no_chunk),
      refl,
    )

    -- Whatever becomes of a delivery, its result is recorded; if the aggregation raises, no result is
    -- stored.
    handle_result_records :
        (chunk_id payload : Text) (r : Redis N)
        → let (end, r') = handle_result F s task w chunk_id payload r in
          (is_recorded chunk_id r' ≡ true) × (end ≡ aggregation_failed → r'.results ≡ r.results)
    unfolding handle_result
    handle_result_records chunk_id payload r =
        let x = mark_chunk_tracking_done F s.ttl w.now s.update_every task chunk_id payload r in
        let after = after_mark_lem x in
        let recorded = mark_records chunk_id payload r in
        (
          ap (λ c. (get_or c (chunk_key task chunk_id) no_chunk).tracking_done) after.0
              ∙ recorded.0,
          λ e. after.1 e ∙ recorded.1,
        )

    handled_update_ok :
        (x : Result (TaskStatus N) × Redis N) (status : TaskStatus N)
        → x.0 ≡ ok status
        → ((handled_update F s task w x).0 ≡ finished) × ((handled_update F s task w x).1 ≡ x.1)
    unfolding handled_update
    handled_update_ok (ok t, r) status e = (refl, refl)
    handled_update_ok (err x, r) status e = absurd (ground (arith, e))

    store_final_stores :
        (json : Text) (r : Redis N) (status : TaskStatus N)
        → (updated json r).0 ≡ ok status
        → let (end, r') = store_final F s task w (some json) r in
          (end ≡ finished) × (get_result task r' ≡ some json) × (r' ≡ (updated json r).1)
    unfolding store_final handled_update get_result save_result
    store_final_stores json r status fine =
        let keeps =
          update_status_keeps F s.ttl w.now task s.max_attempts (completed_patch F s task w)
            w.before w.after (save_result task json r) in
        let done = handled_update_ok (updated json r) status fine in
        (
          done.0,
          ap (λ (q : Redis N). get_or q.results (result_key task) none) done.1
              ∙ ap (λ m. get_or m (result_key task) none) keeps.1
              ∙ get_or-put_self r.results (result_key task) (some json) none,
          done.1,
        )

    pub after_mark_completes :
        (x : (Bool × Bool × ℕ × ℕ) × Redis N) (video json : Text)
        (status after_update : TaskStatus N)
        → x.0.0 ≡ true
        → x.0.1 ≡ true
        → (leb x.0.3 0 || ltb x.0.2 x.0.3) ≡ false
        → get_status F task s.max_attempts w.status_reads ≡ ok status
        → get_video_metadata task x.1 ≡ ok video
        → w.aggregate status video (get_all_chunk_payloads task (some x.0.3) x.1) ≡ some json
        → (updated json x.1).0 ≡ ok after_update
        → let (end, r') = after_mark F s task w x in
          (end ≡ finished) × (get_result task r' ≡ some json) × (r' ≡ (updated json x.1).1)
    unfolding after_mark aggregate_task
    after_mark_completes ((cut_done, is_new, n, total), r) video json status after_update cut new
          now read meta made fine =
        rw (cut, new, now, read, meta, made) (store_final_stores json r after_update fine)

  -- If the aggregation of a delivery raises, a second delivery of the same message returns early
  -- or is refused, whatever the other parties answer then, and the stored result of the task is
  -- still what it was before the first.
  pub handle_result_retry :
      (w w' : World N) (chunk_id payload : Text) (r : Redis N)
      → (handle_result F s task w chunk_id payload r).0 ≡ aggregation_failed
      → let r1 = (handle_result F s task w chunk_id payload r).1 in
        let (end, r2) = handle_result F s task w' chunk_id payload r1 in
        ((end ≡ early) ⊎ (end ≡ refused)) × (get_result task r2 ≡ get_result task r)
  unfolding get_result
  handle_result_retry w w' chunk_id payload r broke =
      let first = handle_result_records w chunk_id payload r in
      let r1 = (handle_result F s task w chunk_id payload r).1 in
      let again = handle_result_again w' chunk_id payload r1 first.0 in
      (again.0, ap (λ m. get_or m (result_key task) none) (again.1 ∙ first.1 broke))
