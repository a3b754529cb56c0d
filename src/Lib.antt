-- ===== src/Lib.antt =====
-- The verification library of cv-video-analysis, a pipeline that decodes videos, detects cuts and
-- tracks objects chunk by chunk.
--
-- The parts and how they interact. The API creates tasks in Redis. The ingest worker decodes a video
-- into chunks, puts their frames into the Ray object store and enqueues each chunk once. The cut
-- workers' results reach the coordinator, which records them and dispatches tracking jobs in the
-- order of the chunks. The tracking workers publish their results in that order, and the aggregator
-- counts them and stores the final result. All of them keep a task's state through
-- `RedisTaskRepository`.
--
-- Which file models which part:
-- - Domain.Enums and Domain.Stages: backend/app/domain/enums.py and state_machine.py, with the stage
--   ranks and the table that the status script repeats.
-- - Store and Store.Keys: the hashes, streams and keys of
--   backend/app/infrastructure/task_repository.py.
-- - Repository.Status: `create`, `create_many_and_enqueue`, `get_status`, `get_backpressure_state`,
--   `get_source` of that file; Repository.Status.Fields: `_status_mapping` and
--   `_status_from_mapping` on the texts of a hash, which the other modules leave out.
-- - Repository.Update: `update_status` with its script, and `fail`.
-- - Repository.Ingest: `publish_ingest_chunk_once`, `mark_ingest_complete` and the reads of them, the
--   metadata and the results.
-- - Repository.Cut: `record_cut_and_dispatch` with its script.
-- - Repository.Tracking: `mark_chunk_tracking_done`, `publish_tracking_result_in_order` and
--   `get_all_chunk_payloads`.
-- - Domain.Schemas: the validator of `FrameBatchMetadata` in backend/app/domain/schemas.py; that of
--   `Transition` is in Cuts.Building.
-- - Decoder: `FFmpegVideoDecoder` of backend/app/services/video_decoder.py: its guards, the geometry
--   of the chunks, `decode_batch` and `batches`; Decoder.Metadata: the metadata that
--   backend/app/workers/ingest.py makes of a batch.
-- - Registry: the actor of backend/app/ray_runtime/object_registry.py, and `put` of
--   backend/app/infrastructure/ray_store.py.
-- - Ingest: the waiting loops of backend/app/workers/ingest.py with the releases of objects, the rule
--   for progress, and the stage that it asks for.
-- - Aggregator: the handler of backend/app/workers/aggregator.py; Aggregator.Completion: the delivery that
--   completes a task.
-- - Coordinator: the handler of backend/app/workers/coordinator.py.
-- - Cuts: participant_4_cut_detection/worker.py: Cuts.Deduplication is
--   `_deduplicate_owned_transitions`, Cuts.Building `build_cut_result`, Cuts.Worker the handler with
--   its state and its cache.
-- - Workers: `_process_message` of backend/app/workers/common.py with the calls of
--   backend/app/infrastructure/redis_streams.py; Workers.Partitions: the partitions of a batch.
-- - Archive: backend/app/services/archive_upload_service.py and the test of file names in
--   backend/app/services/video_validation.py: Archive.Members is what `_collect_candidates` admits,
--   Archive.Extraction the copies and `extract`, for archives that zipfile reads.
-- - Tracker: participant_3_tracking/yolo_world_tracker.py: Tracker.Classes is the index of the class
--   names and `_extract_detections`, Tracker.Fusion `_fuse_detections`, Tracker.Ids `_map_track_id`,
--   Tracker.Intervals `process_interval` and `process_job`.
-- - TrackingWorker: the handler of participant_3_tracking/worker.py.
-- - AutoShot: `_positive_runs`, `_merge_runs` and the windows of `predict_transition_probabilities` in
--   participant_4_cut_detection/autoshot_detector.py.
-- - Results: the merge of the cut results in backend/app/services/result_aggregation.py, with
--   Results.Transitions for the transitions.
-- - Common: helpers; Examples: the theorems at concrete inputs.
--
-- How it is modelled. A Lua script is a function on the store, since Redis runs it as one step; a
-- method with several calls takes what each read answers, or the store at each call, so that other
-- clients may act in between. An exception is an `err`. Texts are lists of character codes. The
-- doubles of the progress are a parameter, `Floats`, with the laws of IEEE 754 that are used, and
-- whole numbers as an instance. The store is typed; how Python prints and reads a float, a UUID and a
-- time is a parameter, `Formats`. The loop of the dispatch script runs on fuel, one more than the jobs
-- that wait, of which each round takes one away. FFmpeg is a parameter, `Ffmpeg`: what a process writes
-- and how it exits; so are the models and ByteTrack, `Vision`. The loop over the windows runs on fuel,
-- one more than the frames, since each round moves on. A waiting loop takes the list of what its
-- polls read; a loop that has used up the list still waits.
--
-- What is not modelled: the expiry of keys and the trimming of streams by MAXLEN, which are Redis's
-- own; JSON, whose texts stand for their values; times, which are texts given to a call; waiting
-- between attempts; a release of a Ray object or of an actor that itself raises; the batches that
-- `batches` has yielded before one that raises; and the parts of the program that no file above names.
pub mod Common
pub mod Coordinator
pub mod Cuts
pub mod Domain
pub mod Store
pub mod Workers
pub mod Repository
pub mod Decoder
pub mod Registry
pub mod Results
pub mod Ingest
pub mod Aggregator
pub mod Archive
pub mod Tracker
pub mod AutoShot
pub mod TrackingWorker
pub mod Examples
