-- ===== src/TrackingWorker/Redelivery.antt =====
-- Two deliveries of one job to the handler of participant_3_tracking/worker.py.
use cv_video_analysis.Common.{
  ℕ, ◌+◌, ◌≡◌, refl, ap, Bool, true, false, Option, none, some, List, [], ◌∷◌, if◌then◌else◌, arith,
}
use cv_video_analysis.Common.Texts.{Text, codes, text_eq_refl}
use cv_video_analysis.Common.Maps.{Map}
use cv_video_analysis.Common.Tables.{lookup, remove, lookup-put, lookup-remove}
use cv_video_analysis.Domain.Floats.{Floats}
use cv_video_analysis.Store.{Redis, StreamEntry}
use cv_video_analysis.Store.Keys.{chunk_id}
use cv_video_analysis.Coordinator.{TrackingJobMessage}
use cv_video_analysis.Repository.Errors.{Result, ok, err}
use cv_video_analysis.Repository.Tracking.{publish_tracking_result_in_order}
use cv_video_analysis.Repository.Tracking.Results.{
  Sequenced, next_result, publish_tracking_result_in_order_lem,
}
use cv_video_analysis.Repository.Ingest.{stream_entry}
use cv_video_analysis.TrackingWorker.{
  TrackingResultMessage, ResultCodec, Inference, TrackingStore, completed, tracking_state_key,
  tracking_cache_key, result_fields, result_of, after_publish, publish_result,
  persist_internal_state, cache_result, with_classes, with_answer, handle_job,
}

-- Whether a job asks for no class at all.
abbrev pub asks_nothing : Option (List Text) → Bool
asks_nothing none = false
asks_nothing (some []) = true
asks_nothing (some (name ∷ names)) = false

abbrev pub result_entry : Text → StreamEntry
result_entry json = record {
  event_type = codes "TrackingResultMessage";
  schema_version = codes "1";
  payload = json;
}

result_fields_complete :
    (json : Text) → stream_entry (result_fields json) ≡ some (result_entry json)
unfolding stream_entry
result_fields_complete json = refl

module _ {N : Type 0} (F : Floats N) (C : ResultCodec N) (ttl : ℕ) (stream : Text)
    (job : TrackingJobMessage N) where
  abbrev states_after : Map Text → Map Text
  states_after states =
      if job.is_last then remove states (tracking_state_key job.task_id) else states

  after_publish-ok :
      (p : Result Bool × Redis N) (is_new : Bool) (w : TrackingStore N)
      → p.0 ≡ ok is_new
      → after_publish F C ttl stream job p w
        ≡ (completed is_new, record w { redis = p.1; states = states_after w.states })
  unfolding after_publish
  after_publish-ok (ok b, r) is_new w h =
      ap (λ c. (completed c, record w { redis = r; states = states_after w.states })) (ground arith)
  after_publish-ok (err e, r) is_new w h = cc

  with_classes-asks :
      (infer : Option Text → Option (Inference N)) (classes : Option (List Text))
      (w : TrackingStore N)
      → asks_nothing classes ≡ false
      → with_classes F C ttl stream job infer classes w
        ≡ with_answer F C ttl stream job
            (infer (lookup w.states (tracking_state_key job.task_id)))
            w
  unfolding with_classes
  with_classes-asks infer none w h = refl
  with_classes-asks infer (some []) w h = cc
  with_classes-asks infer (some (name ∷ names)) w h = refl

  abbrev cache_of : TrackingStore N → Option Text
  cache_of w = lookup w.cached (tracking_cache_key job.task_id job.chunk_index)

  abbrev pub state_of : TrackingStore N → Option Text
  state_of w = lookup w.states (tracking_state_key job.task_id)

  first_delivery :
      (infer : Option Text → Option (Inference N)) (i : Inference N) (ch : ℕ) (text : Text)
      (w : TrackingStore N)
      → job.cut_verified ≡ true
      → asks_nothing job.tracking_classes ≡ false
      → cache_of w ≡ none
      → infer (state_of w) ≡ some i
      → i.checkpoint ≡ some (ch ∷ text)
      → handle_job F C ttl stream job infer w
        ≡ publish_result F C ttl stream job (result_of F C ttl stream job i) (
            persist_internal_state F C ttl stream job
              (result_of F C ttl stream job i)
              (ch ∷ text)
              w)
  unfolding handle_job with_answer
  first_delivery infer i ch text w verified asks miss answer point =
      rw (verified, miss, with_classes-asks infer job.tracking_classes w asks, answer, point)

  cached_delivery :
      (infer : Option Text → Option (Inference N)) (m : TrackingResultMessage N) (ch : ℕ)
      (json : Text) (w : TrackingStore N)
      → job.cut_verified ≡ true
      → cache_of w ≡ some (ch ∷ json)
      → C.parse_result (ch ∷ json) ≡ some m
      → handle_job F C ttl stream job infer w ≡ publish_result F C ttl stream job m w
  unfolding handle_job
  cached_delivery infer m ch json w verified hit parse = rw (verified, hit, parse)

  lookup-states_after :
      (last : Bool) (states : Map Text) (key : Text)
      → lookup (if last then remove states key else states) key
        ≡ (if last then none else lookup states key)
  lookup-states_after true states key = rw (lookup-remove, text_eq_refl) refl
  lookup-states_after false states key = refl

  kept_states :
      (last : Bool) (o : Option Text)
      → (if last then none else (if last then none else o)) ≡ (if last then none else o)
  kept_states true o = refl
  kept_states false o = refl

  -- The call of the repository that both deliveries make.
  abbrev publication : Text → Redis N → Result Bool × Redis N
  publication json r =
      publish_tracking_result_in_order ttl job.task_id (chunk_id job.task_id job.chunk_index)
        job.chunk_index stream (result_fields json) r

  publish_result_eq :
      (m : TrackingResultMessage N) (json : Text) (is_new : Bool) (w : TrackingStore N)
      → job.chunk_id ≡ chunk_id job.task_id job.chunk_index
      → C.dump_result m ≡ json
      → (publication json w.redis).0 ≡ ok is_new
      → publish_result F C ttl stream job m w ≡ (
        completed is_new,
        record w { redis = (publication json w.redis).1; states = states_after w.states },
      )
  unfolding publish_result
  publish_result_eq m json is_new w named dump h =
      rw (named, dump) (after_publish-ok (publication json w.redis) is_new w h)

  module _ (P : ℕ → StreamEntry → Type 0) (before : List StreamEntry) where
    -- If a job is verified and asks for classes, its chunk id is the one of its index, its result
    -- is not cached, the actor answers with a checkpoint, the JSON of the result reads back, and
    -- the published results of the task are those of the chunks before it, in order, then the
    -- first delivery publishes the result, and a second one, whatever the actor answers then,
    -- publishes nothing, answers from the cache and leaves the repository and the cache as they
    -- were; the checkpoint is stored after both, or gone after the last chunk.
    pub redelivered_result :
        (infer again : Option Text → Option (Inference N)) (i : Inference N) (ch jc : ℕ)
        (text json : Text) (w : TrackingStore N)
        → job.cut_verified ≡ true
        → asks_nothing job.tracking_classes ≡ false
        → job.chunk_id ≡ chunk_id job.task_id job.chunk_index
        → lookup w.cached (tracking_cache_key job.task_id job.chunk_index) ≡ none
        → infer (state_of w) ≡ some i
        → i.checkpoint ≡ some (ch ∷ text)
        → C.dump_result (result_of F C ttl stream job i) ≡ jc ∷ json
        → C.parse_result (jc ∷ json) ≡ some (result_of F C ttl stream job i)
        → job.chunk_index ≡ next_result job.task_id w.redis
        → P job.chunk_index (result_entry (jc ∷ json))
        → Sequenced job.task_id stream P before w.redis
        → let (first, w1) = handle_job F C ttl stream job infer w in
          let (second, w2) = handle_job F C ttl stream job again w1 in
          (first ≡ completed true)
          × (second ≡ completed false)
          × Sequenced job.task_id stream P before w1.redis
          × (next_result job.task_id w1.redis ≡ job.chunk_index + 1)
          × (state_of w1 ≡ (if job.is_last then none else some (ch ∷ text)))
          × (w2.redis ≡ w1.redis)
          × (w2.cached ≡ w1.cached)
          × (state_of w2 ≡ state_of w1)
    unfolding persist_internal_state cache_result result_of
    redelivered_result infer again i ch jc text json w verified asks named miss answer point dump
          parse next own h =
        let m = result_of F C ttl stream job i in
        let p = publication (jc ∷ json) w.redis in
        let w0 = persist_internal_state F C ttl stream job m (ch ∷ text) w in
        let w1 : TrackingStore N = record w0 { redis = p.1; states = states_after w0.states } in
        let lem =
          publish_tracking_result_in_order_lem ttl job.task_id stream P before job.chunk_index
            (result_fields (jc ∷ json)) (result_entry (jc ∷ json))
            (result_fields_complete (jc ∷ json)) in
        let now = lem w.redis own h in
        let due = now.3 next in
        let later = lem p.1 own now.0 in
        let stale = later.1 (omega (arith, due.1)) in
        let hit : lookup w1.cached (tracking_cache_key job.task_id job.chunk_index)
            ≡ some (jc ∷ json) =
          rw (lookup-put, text_eq_refl, dump) refl in
        let one = first_delivery infer i ch text w verified asks miss answer point in
        let one' = publish_result_eq m (jc ∷ json) true w0 named dump due.0 in
        let two = cached_delivery again m jc json w1 verified hit parse in
        let two' = publish_result_eq m (jc ∷ json) false w1 named dump stale.0 in
        rw (one, one', two, two', stale.1)
          (
            refl,
            refl,
            now.0,
            due.1,
            rw (lookup-states_after, lookup-put, text_eq_refl) refl,
            refl,
            refl,
            rw (lookup-states_after, lookup-states_after) (kept_states job.is_last _),
          )
