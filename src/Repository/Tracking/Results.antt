-- ===== src/Repository/Tracking/Results.antt =====
-- Tracking results are published in the order of their chunks, each once.
use cv_video_analysis.Common.{
  ℕ, ◌+◌, ◌<◌, ◌≡◌, refl, Bool, true, false, some, List, [], ◌∷◌, ◌++◌, append_assoc, arith,
  or_else, Bool-cases, inl, inr, length, length-append, ltb,
}
use cv_video_analysis.Common.Texts.{Text}
use cv_video_analysis.Common.Maps.{get_or-put_self}
use cv_video_analysis.Store.{StreamEntry, Redis, task_at, stream_at}
use cv_video_analysis.Store.Keys.{task_key, chunk_key, chunk_id}
use cv_video_analysis.Repository.Errors.{Result, ok, err, tracking_order}
use cv_video_analysis.Repository.Ingest.{StreamFields, stream_entry}
use cv_video_analysis.Repository.Cut.Order.{InOrder, InOrder-snoc}
use cv_video_analysis.Repository.Tracking.{
  reply_result, early, stale, PublishReply, published, publish_result_script,
  publish_tracking_result_in_order,
}

abbrev pub next_result : {N : Type 0} → Text → Redis N → ℕ
next_result task r = or_else (task_at r (task_key task)).next_tracking_result_chunk 0

module _ {N : Type 0} (task stream : Text) (P : ℕ → StreamEntry → Type 0)
    (before : List StreamEntry) where
  -- Above the log `before`, the stream holds a result of each chunk below the next, in order. `P i e`
  -- is any property that a caller's entry for chunk `i` has.
  pub record Sequenced (r : Redis N) : Type 0 where
    pub log : List StreamEntry
    pub logged : stream_at r stream ≡ before ++ log
    pub in_order : InOrder P 0 log
    pub length_log : length log ≡ next_result task r

module _ {N : Type 0} (ttl : ℕ) (task stream : Text) (chunk : Text) (i : ℕ) (e : StreamEntry) where
  abbrev script : Redis N → PublishReply × Redis N
  script r = publish_result_script ttl (task_key task) chunk stream i e r

  publish_result_script_stale :
      (r : Redis N) → ltb i (next_result task r) ≡ true → script r ≡ (stale (next_result task r), r)
  unfolding publish_result_script
  publish_result_script_stale r is_stale = rw is_stale

  publish_result_script_early :
      (r : Redis N)
      → ltb i (next_result task r) ≡ false
      → ltb (next_result task r) i ≡ true
      → script r ≡ (early (next_result task r), r)
  unfolding publish_result_script
  publish_result_script_early r fresh is_early = rw (fresh, is_early)

  publish_result_script_now :
      (P : ℕ → StreamEntry → Type 0) (before : List StreamEntry) (r : Redis N)
      → i ≡ next_result task r
      → P i e
      → Sequenced task stream P before r
      → let r' = (script r).1 in
        Sequenced task stream P before r'
        × ((script r).0 ≡ published (i + 1))
        × (next_result task r' ≡ i + 1)
  unfolding publish_result_script
  publish_result_script_now P before r now own h =
      let fresh : ltb i (next_result task r) ≡ false = ground arith in
      let due : ltb (next_result task r) i ≡ false = ground arith in
      let moved : next_result task (script r).1 ≡ i + 1 =
        rw (fresh, due, get_or-put_self, now) refl in
      (
        record {
          log = h.log ++ e ∷ [];
          logged = rw (fresh, due, get_or-put_self, h.logged) (append_assoc before h.log (e ∷ []));
          in_order = InOrder-snoc P 0 h.log e i (omega (arith, h.length_log)) h.in_order own;
          length_log = omega (arith, moved, length-append h.log (e ∷ []), h.length_log);
        },
        rw (fresh, due, now) refl,
        moved,
      )

module _ {N : Type 0} (ttl : ℕ) (task stream : Text) (P : ℕ → StreamEntry → Type 0)
    (before : List StreamEntry) (chunk_index : ℕ) (fields : StreamFields) (entry : StreamEntry)
    (complete : stream_entry fields ≡ some entry) (r : Redis N) where
  abbrev call : Result Bool × Redis N
  call =
      publish_tracking_result_in_order ttl task (chunk_id task chunk_index) chunk_index stream
        fields r

  abbrev run : PublishReply × Redis N
  run = script ttl task stream (chunk_key task (chunk_id task chunk_index)) chunk_index entry r

  call_eq : call ≡ (reply_result chunk_index run.0, run.1)
  unfolding publish_tracking_result_in_order reply_result publish_result_script
  call_eq = rw (complete, publish_tracking_result_in_order) refl

  -- If the stream holds one result of each chunk below the next index, in order, and the stream
  -- fields are complete, a call keeps this; the result of the next chunk is published and the next
  -- index moves on by one, an earlier chunk answers False and a later one raises
  -- TrackingOrderError, both without a change.
  pub publish_tracking_result_in_order_lem :
      P chunk_index entry
      → Sequenced task stream P before r
      → Sequenced task stream P before call.1
        × (chunk_index < next_result task r → (call.0 ≡ ok false) × (call.1 ≡ r))
        × (next_result task r < chunk_index
            → (call.0 ≡ err (tracking_order (next_result task r) chunk_index)) × (call.1 ≡ r))
        × (chunk_index ≡ next_result task r
            → (call.0 ≡ ok true) × (next_result task call.1 ≡ chunk_index + 1))
  unfolding reply_result
  publish_tracking_result_in_order_lem own h =
      let chunk = chunk_key task (chunk_id task chunk_index) in
      let current = next_result task r in
      elim (Bool-cases (ltb chunk_index current)) [
        | inl late ↦
            rw (call_eq, publish_result_script_stale ttl task stream chunk chunk_index entry r late)
              (h, λ lt. (refl, refl), λ gt. absurd (ground arith), λ e. absurd (ground arith))
        | inr fresh ↦ elim (Bool-cases (ltb current chunk_index)) [
          | inl ahead ↦
              rw
                (
                  call_eq,
                  publish_result_script_early ttl task stream chunk chunk_index entry r fresh ahead,
                )
                (h, λ lt. absurd (ground arith), λ gt. (refl, refl), λ e. absurd (ground arith))
          | inr due ↦
              let done =
                publish_result_script_now ttl task stream chunk chunk_index entry P before r
                  (ground arith) own h in
              rw call_eq (
                done.0,
                λ lt. absurd (ground arith),
                λ gt. absurd (ground arith),
                λ e. (rw (done.1) refl, done.2),
              )
        ]
      ]
