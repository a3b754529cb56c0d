-- ===== src/Coordinator/Jobs.antt =====
-- The jobs that the coordinator of backend/app/workers/coordinator.py dispatches.
use cv_video_analysis.Common.{none, arith, Option, ◌≡◌, refl, true, false, some, List, ℕ}
use cv_video_analysis.Common.Texts.{Text, codes}
use cv_video_analysis.Common.Indices.{mem, add}
use cv_video_analysis.Domain.Floats.{Floats}
use cv_video_analysis.Store.{Redis, StreamEntry}
use cv_video_analysis.Store.Keys.{task_key, chunk_key, chunk_id}
use cv_video_analysis.Repository.Errors.{Result, err, ok}
use cv_video_analysis.Repository.Status.{get_source}
use cv_video_analysis.Repository.Ingest.{stream_entry}
use cv_video_analysis.Repository.Cut.{
  record_cut_script, CutArguments, record_cut_and_dispatch, job_entry,
}
use cv_video_analysis.Repository.Cut.Order.{for_task, Dispatched}
use cv_video_analysis.Repository.Cut.Script.{next_of, record_cut-Dispatched}
use cv_video_analysis.Coordinator.{
  is_dispatched, TrackingJobMessage, CutResultMessage, Codec, tracking_job, accepts_job,
  send_to_tracking, with_source, with_cut_result, handle_cut_result, reply,
}

-- The script's arguments for a tracking job.
abbrev pub job_arguments : CutArguments → CutArguments
job_arguments a = record a { event_type = codes "TrackingJobMessage"; schema_version = codes "1" }

module _ {N : Type 0} (F : Floats N) (C : Codec N) (a : CutArguments) where
  -- The entry is the tracking job of a cut result of the chunk, with the classes of some source.
  abbrev pub IsJobOf : Text → ℕ → StreamEntry → Type 0
  IsJobOf task i entry =
      (m : CutResultMessage N) × (source : Text) × (m.task_id ≡ task)
      × (m.chunk_index ≡ i)
      × (entry
          ≡ job_entry (job_arguments a) (C.dump_job (tracking_job m (C.source_classes source))))

  -- The script, at the key of a chunk id in the form that ingest gives it.
  script-Dispatched :
      (before : List StreamEntry) (got : List ℕ) (chunk task : Text) (i : ℕ)
      (cut_payload object_ref job : Text) (r : Redis N)
      → chunk ≡ chunk_id task i
      → IsJobOf task i (job_entry (job_arguments a) job)
      → Dispatched
          (job_arguments a)
          task
          (IsJobOf task)
          before
          got
          (next_of F (job_arguments a) task r)
          r
      → let r' =
          (record_cut_script F
            (for_task (job_arguments a) task)
            (task_key task)
            (chunk_key task chunk)
            cut_payload
            object_ref
            i
            job
            r).1 in
        Dispatched
          (job_arguments a)
          task
          (IsJobOf task)
          before
          (add i got)
          (next_of F (job_arguments a) task r')
          r'
        × (mem (next_of F (job_arguments a) task r') (add i got) ≡ false)
  script-Dispatched before got chunk task i cut_payload object_ref job r own is_job h =
      let done =
        record_cut-Dispatched F (job_arguments a) task (IsJobOf task) before got i cut_payload
          object_ref job r h is_job in
      rw own (done.0, done.1)

  -- If the payload is a cut result whose chunk id is the one of its index, its task's source is
  -- stored, the tracking job is accepted, and the jobs dispatched so far are in the order of their
  -- chunks, each the tracking job of a cut result of its chunk, then the handler ends without an
  -- error, this holds afterwards with the chunk counted as arrived, and the next index is that of
  -- a chunk whose result has not arrived.
  pub handle_cut_result-Dispatched :
      (before : List StreamEntry) (got : List ℕ) (payload source : Text) (m : CutResultMessage N)
      (at_source r : Redis N)
      → C.parse_cut_result payload ≡ some m
      → m.chunk_id ≡ chunk_id m.task_id m.chunk_index
      → get_source m.task_id at_source ≡ ok source
      → accepts_job (tracking_job m (C.source_classes source)) ≡ true
      → Dispatched
          (job_arguments a)
          m.task_id
          (IsJobOf m.task_id)
          before
          got
          (next_of F (job_arguments a) m.task_id r)
          r
      → let (end, r') = handle_cut_result F C a (some payload) at_source r in
        Dispatched
          (job_arguments a)
          m.task_id
          (IsJobOf m.task_id)
          before
          (add m.chunk_index got)
          (next_of F (job_arguments a) m.task_id r')
          r'
        × (mem (next_of F (job_arguments a) m.task_id r') (add m.chunk_index got) ≡ false)
        × (is_dispatched end ≡ true)
  unfolding handle_cut_result with_cut_result with_source send_to_tracking reply is_dispatched
      record_cut_and_dispatch stream_entry
  handle_cut_result-Dispatched before got payload source m at_source r parsed own found valid h =
      let (ordered, gap) =
        script-Dispatched before got m.chunk_id m.task_id m.chunk_index (C.dump_cut_result m)
          m.object_ref (C.dump_job (tracking_job m (C.source_classes source))) r own
          (m, source, refl, refl, refl) h in
      rw (parsed, found, valid) (ordered, gap, refl)

  send_to_tracking_unchanged :
      (m : CutResultMessage N) (job : TrackingJobMessage N) (r : Redis N)
      → is_dispatched (send_to_tracking F C a m job r).0 ≡ false
      → (send_to_tracking F C a m job r).1 ≡ r
  unfolding send_to_tracking reply record_cut_and_dispatch stream_entry is_dispatched
  send_to_tracking_unchanged m job r h = ground (arith, h)

  with_source_unchanged :
      (m : CutResultMessage N) (source : Result Text) (r : Redis N)
      → is_dispatched (with_source F C a m source r).0 ≡ false
      → (with_source F C a m source r).1 ≡ r
  unfolding with_source
  with_source_unchanged m (err e) r h = refl
  with_source_unchanged m (ok source) r h =
      send_to_tracking_unchanged m (tracking_job m (C.source_classes source)) r h

  with_cut_result_unchanged :
      (parsed : Option (CutResultMessage N)) (at_source r : Redis N)
      → is_dispatched (with_cut_result F C a parsed at_source r).0 ≡ false
      → (with_cut_result F C a parsed at_source r).1 ≡ r
  unfolding with_cut_result
  with_cut_result_unchanged none at_source r h = refl
  with_cut_result_unchanged (some m) at_source r h =
      with_source_unchanged m (get_source m.task_id at_source) r h

  -- A delivery to the coordinator that ends with an error leaves the store as it was.
  pub handle_cut_result_unchanged :
      (payload : Option Text) (at_source r : Redis N)
      → is_dispatched (handle_cut_result F C a payload at_source r).0 ≡ false
      → (handle_cut_result F C a payload at_source r).1 ≡ r
  unfolding handle_cut_result
  handle_cut_result_unchanged none at_source r h = refl
  handle_cut_result_unchanged (some payload) at_source r h =
      with_cut_result_unchanged (C.parse_cut_result payload) at_source r h
