-- ===== src/Repository/Ingest/Complete.antt =====
-- `mark_ingest_complete` waits for every chunk.
use cv_video_analysis.Common.{
  length-map, ℕ, ◌<◌, ◌≤◌, ◌≡◌, refl, ◌∙◌, true, false, List, arith, Bool-cases, ltb, length, All,
  inl, inr,
}
use cv_video_analysis.Common.Indices.{mem, length-lt_missing}
use cv_video_analysis.Common.Texts.{Text}
use cv_video_analysis.Common.Maps.{get_or-put_self, get_or-put_same}
use cv_video_analysis.Store.{StreamEntry, Redis, task_at, no_task}
use cv_video_analysis.Store.Keys.{task_key, chunk_id}
use cv_video_analysis.Repository.Errors.{ok, err, ingest_incomplete}
use cv_video_analysis.Repository.Ingest.{
  complete_script, mark_ingest_complete, get_ingest_published_chunks, is_ingest_complete,
  is_ingest_chunk_published,
}
use cv_video_analysis.Repository.Ingest.Once.{index_of, Delivery, indices, Holds}

module _ {N : Type 0} (ttl : ℕ) (task : Text) (total : ℕ) (later r : Redis N) where
  -- With fewer chunks published than the total, mark_ingest_complete raises and changes no task;
  -- with as many or more it returns, the task is marked complete, and the count of published
  -- chunks stays.
  pub mark_ingest_complete_lem :
      let (result, r') = mark_ingest_complete ttl task total later r in
      (get_ingest_published_chunks task r < total
        → (result ≡ err (ingest_incomplete (get_ingest_published_chunks task later) total))
          × ((k : Text) → task_at r' k ≡ task_at r k))
      × (total ≤ get_ingest_published_chunks task r
          → (result ≡ ok tt)
            × (is_ingest_complete task r' ≡ true)
            × (get_ingest_published_chunks task r' ≡ get_ingest_published_chunks task r))
  unfolding mark_ingest_complete complete_script get_ingest_published_chunks is_ingest_complete
  mark_ingest_complete_lem = (
    λ few.
        let test : ltb (get_ingest_published_chunks task r) total ≡ true = ground arith in
        rw (test) (refl, λ k. get_or-put_same r.tasks (task_key task) k no_task),
    λ many.
        let test : ltb (get_ingest_published_chunks task r) total ≡ false = ground arith in
        rw test (
          refl,
          rw (get_or-put_self, is_ingest_complete),
          rw (get_or-put_self, get_ingest_published_chunks),
        ),
  )

  -- If the store holds exactly the accepted deliveries, all of chunks below the total, and
  -- mark_ingest_complete returns, then every chunk below the total is published.
  pub mark_ingest_complete_covers :
      (stream : Text) (before : List StreamEntry) (taken : List Delivery)
      → Holds task stream before taken r
      → All (λ i. i < total) (indices taken)
      → (mark_ingest_complete ttl task total later r).0 ≡ ok tt
      → (i : ℕ) → i < total
      → is_ingest_chunk_published task (chunk_id task i) r ≡ true
  unfolding is_ingest_chunk_published
  mark_ingest_complete_covers stream before taken h low done i lt =
      elim (Bool-cases (mem i (indices taken))) [
        | inl found ↦ h.published i ∙ found
        | inr missed ↦
            let short : length (indices taken) < total =
              length-lt_missing total (indices taken) i h.distinct low lt missed in
            let few : get_ingest_published_chunks task r < total =
              omega (arith, h.counted, length-map index_of taken) in
            cc (((mark_ingest_complete_lem).0 few).0)
      ]
