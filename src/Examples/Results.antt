-- ===== src/Examples/Results.antt =====
-- The aggregator at a task of one chunk.
use cv_video_analysis.Common.{or_else, ℕ, ◌≡◌, ◌⊎◌, refl, true, Option, none, some, [], ◌∷◌}
use cv_video_analysis.Common.Texts.{Text, codes, text_eq, starts_with, pad}
use cv_video_analysis.Domain.Enums.{aggregating, tracking, completed}
use cv_video_analysis.Domain.Floats.{whole, IsLe}
use cv_video_analysis.Store.{task_at, Redis, no_task, no_chunk}
use cv_video_analysis.Store.Keys.{task_key, chunk_key, chunk_id, metadata_key}
use cv_video_analysis.Repository.Errors.{ok}
use cv_video_analysis.Repository.Status.{
  attempt_outcome, TaskStatus, Read, answer, status_mapping, get_status,
}
use cv_video_analysis.Repository.Ingest.{get_video_metadata, get_result}
use cv_video_analysis.Common.Maps.{get_or, put}
use cv_video_analysis.Domain.Stages.{is_terminal}
use cv_video_analysis.Repository.Tracking.{
  mark_chunk_tracking_done, mark_script, tracking_task_fields,
}
use cv_video_analysis.Aggregator.{
  finished, early, refused, aggregation_failed, AggregatorSettings, World, handle_result,
}
use cv_video_analysis.Aggregator.Deliveries.{handle_result_retry}
use cv_video_analysis.Aggregator.Completion.{handle_result_completes}
use cv_video_analysis.Examples.{task, now, empty}

abbrev settings : AggregatorSettings
settings = record { max_attempts = 2; ttl = 60; update_every = 5 }

abbrev last_status : TaskStatus ℕ
last_status = record {
  task_id = task;
  stage = aggregating;
  progress = 90;
  message = codes "m";
  created_at = now;
  updated_at = now;
  processing_started_at = some now;
  total_chunks = 1;
  cut_completed_chunks = 1;
  tracking_completed_chunks = 1;
  error_code = none;
  error_detail = none;
}

abbrev last_reads : ℕ → Read ℕ
last_reads k = answer (status_mapping last_status no_task)

abbrev world : Option Text → World ℕ
world made = record {
  now = now;
  status_reads = last_reads;
  before = last_reads;
  after = last_reads;
  aggregate = λ status video chunks. made;
}

abbrev chunk : Text
chunk = chunk_id task 0

abbrev one_chunk : Redis ℕ
one_chunk = record empty {
  tasks =
      (
        task_key task,
        record no_task { task_id = some task; stage = some tracking; total_chunks = some 1 },
      )
      ∷ [];
  chunks = (chunk_key task chunk, record no_chunk { cut_done = true }) ∷ [];
  metadata = (metadata_key task, some (codes "video")) ∷ [];
}

breaks :
    (handle_result whole settings task (world none) chunk (codes "p") one_chunk).0
    ≡ aggregation_failed
unfolding handle_result mark_chunk_tracking_done mark_script get_or put text_eq chunk_key
    starts_with chunk_id pad tracking_task_fields task_key is_terminal get_status attempt_outcome
    status_mapping get_video_metadata metadata_key
breaks = refl

handle_result_retry_example :
    let r1 = (handle_result whole settings task (world none) chunk (codes "p") one_chunk).1 in
    let (end, r2) =
      handle_result whole settings task (world (some (codes "json"))) chunk (codes "p") r1 in
    ((end ≡ early) ⊎ (end ≡ refused)) × (get_result task r2 ≡ get_result task one_chunk)
handle_result_retry_example =
    handle_result_retry whole settings task (world none) (world (some (codes "json"))) chunk
      (codes "p") one_chunk breaks

abbrev good : World ℕ
good = world (some (codes "json"))

read_good : get_status whole task 2 last_reads ≡ ok last_status
unfolding get_status attempt_outcome status_mapping
read_good = refl

handle_result_completes_example :
    let (end, r') = handle_result whole settings task good chunk (codes "p") one_chunk in
    (end ≡ finished)
    × (get_result task r' ≡ some (codes "json"))
    × ((task_at r' (task_key task)).stage ≡ some completed)
    × IsLe whole 100 (or_else (task_at r' (task_key task)).progress 0)
    × ((task_at r' (task_key task)).tracking_completed_chunks ≡ some 1)
unfolding get_or put text_eq chunk_key starts_with chunk_id pad task_key is_terminal
    get_video_metadata metadata_key
handle_result_completes_example =
    handle_result_completes whole settings task good chunk (codes "p") (codes "video")
      (codes "json") 1 one_chunk last_status last_status last_status refl refl refl refl refl refl
      read_good refl read_good refl read_good
