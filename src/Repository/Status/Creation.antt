-- ===== src/Repository/Status/Creation.antt =====
-- What the creation of tasks leaves in the store.
use cv_video_analysis.Common.{
  ◌≢◌, ℕ, ◌≡◌, refl, ap, sym, ◌∙◌, some, List, [], ◌∷◌, ◌++◌, append_assoc, append-nil, arith, All,
  Bool-cases,
}
use mathlib.Core.List.{map}
use mathlib.Core.Logic.{inl, inr}
use cv_video_analysis.Common.Texts.{Text, text_eq, text_eq_iff, text_eq_refl}
use cv_video_analysis.Common.Maps.{get_or-put}
use cv_video_analysis.Domain.Floats.{Floats}
use cv_video_analysis.Store.{TaskHash, StreamEntry, Redis, task_at, stream_at, xadd}
use cv_video_analysis.Store.Keys.{task_key}
use cv_video_analysis.Repository.Errors.{ok, err, no_tasks}
use cv_video_analysis.Repository.Status.{
  answer, status_mapping, attempt_outcome, queued_status, write_queued, enqueue_all,
  create_many_and_enqueue,
}

task_key_injective : (s t : Text) → task_key s ≡ task_key t → s ≡ t
unfolding task_key
task_key_injective s t e = cc

module _ {N : Type 0} (F : Floats N) (ttl : ℕ) (now : Text) where
  -- A read of the task answers with the queued status.
  abbrev pub ReadsQueued : Redis N → Text → Type 0
  ReadsQueued r task =
      attempt_outcome F task (answer (task_at r (task_key task)))
      ≡ some (ok (queued_status F task now))

  queued_outcome :
      (task source : Text) (h : TaskHash N)
      → attempt_outcome F task (
          answer (record (status_mapping (queued_status F task now) h) {
            source = some source;
            expires = some ttl;
          }))
        ≡ some (ok (queued_status F task now))
  unfolding attempt_outcome status_mapping queued_status
  queued_outcome task source h =
      ground (arith, F.of_nat_mono 0 0 (omega arith), F.of_nat_mono 0 100 (omega arith))

  -- The written task reads as queued, and any other task that did still does.
  write_queued_self :
      (task source : Text) (r : Redis N) → ReadsQueued (write_queued F ttl now task source r) task
  unfolding write_queued
  write_queued_self task source r =
      rw (get_or-put, text_eq_refl) (queued_outcome task source (task_at r (task_key task)))

  write_queued_keeps :
      (task source other : Text) (r : Redis N)
      → ReadsQueued r other
      → ReadsQueued (write_queued F ttl now task source r) other
  unfolding write_queued
  write_queued_keeps task source other r h =
      elim (Bool-cases (text_eq (task_key task) (task_key other))) [
        | inl same ↦
            let e : task ≡ other = task_key_injective task other ((text_eq_iff _ _).0 same) in
            rw (← e) (write_queued_self task source r)
        | inr apart ↦ rw (get_or-put, apart) h
      ]

  enqueue_all_keeps :
      (stream : Text) (tasks : List (Text × Text × StreamEntry)) (other : Text) (r : Redis N)
      → ReadsQueued r other
      → ReadsQueued (enqueue_all F ttl now stream tasks r).1 other
  unfolding enqueue_all
  enqueue_all_keeps stream [] other r h = h
  enqueue_all_keeps stream ((task, source, fields) ∷ rest) other r h =
      enqueue_all_keeps stream rest other
        (xadd (write_queued F ttl now task source r) stream fields)
        (write_queued_keeps task source other r h)

  enqueue_all_reads :
      (stream : Text) (tasks : List (Text × Text × StreamEntry)) (r : Redis N)
      → All
          (λ (t : Text × Text × StreamEntry).
            ReadsQueued (enqueue_all F ttl now stream tasks r).1 t.0)
          tasks
  unfolding enqueue_all
  enqueue_all_reads stream [] r = tt
  enqueue_all_reads stream ((task, source, fields) ∷ rest) r =
      let r' = xadd (write_queued F ttl now task source r) stream fields in
      (
        enqueue_all_keeps stream rest task r' (write_queued_self task source r),
        enqueue_all_reads stream rest r',
      )

  enqueue_all_statuses :
      (stream : Text) (tasks : List (Text × Text × StreamEntry)) (r : Redis N)
      → (enqueue_all F ttl now stream tasks r).0
        ≡ map (λ (t : Text × Text × StreamEntry). queued_status F t.0 now) tasks
  unfolding enqueue_all
  enqueue_all_statuses stream [] r = refl
  enqueue_all_statuses stream ((task, source, fields) ∷ rest) r =
      ap (λ l. queued_status F task now ∷ l)
        (enqueue_all_statuses stream rest
          (xadd (write_queued F ttl now task source r) stream fields))

  logged :
      (stream task source : Text) (fields : StreamEntry) (r : Redis N)
      → stream_at (xadd (write_queued F ttl now task source r) stream fields) stream
        ≡ stream_at r stream ++ fields ∷ []
  unfolding write_queued
  logged stream task source fields r = rw (get_or-put, text_eq_refl)

  enqueue_all_log :
      (stream : Text) (tasks : List (Text × Text × StreamEntry)) (r : Redis N)
      → stream_at (enqueue_all F ttl now stream tasks r).1 stream
        ≡ stream_at r stream ++ map (λ (t : Text × Text × StreamEntry). t.2) tasks
  unfolding enqueue_all
  enqueue_all_log stream [] r = sym (append-nil _)
  enqueue_all_log stream ((task, source, fields) ∷ rest) r =
      let r' = xadd (write_queued F ttl now task source r) stream fields in
      enqueue_all_log stream rest r'
      ∙ rw (logged stream task source fields r) (
          append_assoc (stream_at r stream) (fields ∷ [])
            (map (λ (t : Text × Text × StreamEntry). t.2) rest))

  -- For at least one task, every task of the batch reads as queued afterwards, the stream has got
  -- the fields of each in the order of the batch, and the queued statuses are returned; for no
  -- task the call raises and changes nothing.
  pub create_many_and_enqueue_lem :
      (stream : Text) (tasks : List (Text × Text × StreamEntry)) (r : Redis N)
      → let (result, r') = create_many_and_enqueue F ttl now stream tasks r in
        ((tasks ≢ [])
          → All (λ (t : Text × Text × StreamEntry). ReadsQueued r' t.0) tasks
            × (stream_at r' stream
                ≡ stream_at r stream ++ map (λ (t : Text × Text × StreamEntry). t.2) tasks)
            × (result
                ≡ ok (map (λ (t : Text × Text × StreamEntry). queued_status F t.0 now) tasks)))
        × (tasks ≡ [] → (result ≡ err no_tasks) × (r' ≡ r))
  unfolding create_many_and_enqueue
  create_many_and_enqueue_lem stream [] r = (λ h. absurd (h refl), λ e. (refl, refl))
  create_many_and_enqueue_lem stream (task ∷ tasks) r = (
    λ h. (
      enqueue_all_reads stream (task ∷ tasks) r,
      enqueue_all_log stream (task ∷ tasks) r,
      ap ok (enqueue_all_statuses stream (task ∷ tasks) r),
    ),
    λ e. cc,
  )
