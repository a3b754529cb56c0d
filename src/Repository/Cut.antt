-- ===== src/Repository/Cut.antt =====
-- `record_cut_and_dispatch`: the Lua script that stores a cut result and dispatches the tracking
-- jobs that have become contiguous.
pub mod Pending
pub mod Order
pub mod Script
use cv_video_analysis.Common.{
  ℕ, zero, suc, ◌+◌, ◌-◌, ◌%◌, Bool, true, false, not, ◌&&◌, ◌||◌, Option, none, some, [], ◌∷◌,
  ◌++◌, if◌then◌else◌, ltb, leb, ◌==◌, or_else, is_some,
}
use cv_video_analysis.Common.Texts.{Text, codes, pad}
use cv_video_analysis.Common.Maps.{Map}
use cv_video_analysis.Domain.Enums.{TaskStage, cut_detection, tracking, stage_eq}
use cv_video_analysis.Domain.Stages.{is_terminal}
use cv_video_analysis.Domain.Floats.{Floats, float_min, float_max}
use cv_video_analysis.Store.{
  TaskHash, ChunkHash, StreamEntry, Redis, task_at, chunk_at, set_task, set_chunk, xadd,
}
use cv_video_analysis.Store.Keys.{task_key, chunk_key, chunk_key_prefix, lua_chunk_key}
use cv_video_analysis.Repository.Errors.{Result, ok, err, missing_stream_fields}
use cv_video_analysis.Repository.Ingest.{StreamFields, stream_entry}

-- A number that Lua joins to a text.
abbrev pub decimal : ℕ → Text
decimal n = pad 1 n

-- `next_index - 1`, as a text
unfoldable pub decimal_before : ℕ → Text
decimal_before n = if n == 0 then codes "-1" else decimal (n - 1)

-- How many chunk hashes hold a job that waits.
unfoldable pub pending : Map ChunkHash → ℕ
pending [] = 0
pending ((k, c) ∷ m) = (if is_some c.tracking_job_payload then 1 else 0) + pending m

-- The arguments of the script that come from settings and from the caller's stream fields.
pub record CutArguments : Type 0 where
  pub ttl : ℕ
  pub now : Text
  pub stream : Text
  pub prefix : Text
  pub event_type : Text
  pub schema_version : Text
  pub update_every : ℕ

-- `30 + 30 * math.min(cut_count / total, 1)`, or 30 while the total is unknown.
unfoldable pub stage_progress : {N : Type 0} → Floats N → ℕ → ℕ → ℕ → N
unfolding float_min
stage_progress F base count total =
    if ltb 0 total
    then F.add (F.of_nat base)
        (F.mul (F.of_nat 30) (float_min F (F.div (F.of_nat count) (F.of_nat total)) (F.of_nat 1)))
    else F.of_nat base

abbrev pub job_entry : CutArguments → Text → StreamEntry
job_entry a payload = record {
  event_type = a.event_type;
  schema_version = a.schema_version;
  payload = payload;
}

-- HSET `tracking_job_dispatched`, and HDEL `tracking_job_payload`.
abbrev pub mark_dispatched : ChunkHash → ChunkHash
mark_dispatched c = record c { tracking_job_dispatched = true }

abbrev pub drop_job : ChunkHash → ChunkHash
drop_job c = record c { tracking_job_payload = none }

module _ {N : Type 0} (a : CutArguments) where
  -- One round of `while true`, for a payload that was found: XADD and the flag unless the job was
  -- dispatched before, then HDEL.
  unfoldable pub send_job : Text → Text → Redis N → Redis N
  send_job key payload r =
      let c = chunk_at r key in
      let r1 =
        if c.tracking_job_dispatched
        then r
        else set_chunk (xadd r a.stream (job_entry a payload)) key (mark_dispatched c) in
      set_chunk r1 key (drop_job (chunk_at r1 key))

  -- `while true do ... end`, with the next index and the store that it leaves.
  unfoldable pub dispatch_loop : ℕ → ℕ → Redis N → ℕ × Redis N
  dispatch_loop zero next r = (next, r)
  dispatch_loop (suc fuel) next r =
      elim (chunk_at r (lua_chunk_key a.prefix next)).tracking_job_payload [
        | none ↦ (next, r)
        | some payload ↦
            dispatch_loop fuel (next + 1) (send_job (lua_chunk_key a.prefix next) payload r)
      ]

  -- The HSET of the cut result.
  unfoldable pub store_cut : Text → Text → Text → ℕ → Text → Redis N → Redis N
  store_cut chunk cut_payload object_ref chunk_index job_payload r =
      set_chunk r chunk (record (chunk_at r chunk) {
        cut_done = true;
        cut_payload = some cut_payload;
        object_ref = some object_ref;
        chunk_index = some chunk_index;
        tracking_job_payload = some job_payload;
        chunk_expires = some a.ttl;
      })

module _ {N : Type 0} (F : Floats N) (a : CutArguments) where
  -- What the script writes to the task's hash, given whether the result is new and how far the
  -- loop came.
  unfoldable pub cut_task_fields : Bool → ℕ → TaskHash N → TaskHash N
  unfolding stage_progress float_max decimal_before
  cut_task_fields is_new next h =
      let cut_count = or_else h.cut_completed_chunks 0 + (if is_new then 1 else 0) in
      let total = or_else h.total_chunks 0 in
      let old_stage = or_else h.stage cut_detection in
      let stage_changed = ltb 0 next && stage_eq old_stage cut_detection in
      let stage = if stage_changed then tracking else old_stage in
      let should_update =
        stage_changed
        || ((is_new && (ltb 0 total && leb total cut_count))
            || (is_new && (cut_count % a.update_every == 0))) in
      let h1 = record h {
        cut_completed_chunks = if is_new then some cut_count else h.cut_completed_chunks;
        next_tracking_chunk = some next;
        expires = some a.ttl;
      } in
      if should_update && not (is_terminal stage)
      then record h1 {
        stage = some stage;
        progress =
            some
              (float_max F (or_else h.progress (F.of_nat 0)) (stage_progress F 30 cut_count total));
        message = some (
            codes "Cut detection verified "
            ++ decimal cut_count
            ++ codes "/"
            ++ decimal total
            ++ codes " chunks; tracking dispatched through chunk "
            ++ decimal_before next);
        updated_at = some a.now;
      }
      else h1

  -- The script: whether the result is new, the cut count, the next index and the total. The loop
  -- runs at most once for each job that waits, which is its fuel.
  unfoldable pub record_cut_script :
      Text → Text → Text → Text → ℕ → Text → Redis N → (Bool × ℕ × ℕ × ℕ) × Redis N
  unfolding cut_task_fields
  record_cut_script task chunk cut_payload object_ref chunk_index job_payload r =
      let is_new = not (chunk_at r chunk).cut_done in
      let stored = store_cut a chunk cut_payload object_ref chunk_index job_payload r in
      let h = task_at r task in
      let (next, sent) =
        dispatch_loop a (suc (pending stored.chunks)) (or_else h.next_tracking_chunk 0) stored in
      let h' = cut_task_fields is_new next h in
      (
        (is_new, or_else h'.cut_completed_chunks 0, next, or_else h'.total_chunks 0),
        set_task sent task h',
      )

module _ {N : Type 0} (F : Floats N) where
  -- The stream's fields and the key prefix of `a` are taken from the caller's.
  unfoldable pub record_cut_and_dispatch :
      CutArguments
      → Text
      → Text
      → ℕ
      → Text
      → Text
      → StreamFields
      → Redis N
      → Result (Bool × ℕ × ℕ × ℕ) × Redis N
  unfolding stream_entry
  record_cut_and_dispatch a task chunk_id chunk_index cut_payload object_ref fields r =
      elim (stream_entry fields) [
        | none ↦ (err missing_stream_fields, r)
        | some entry ↦
            let a' = record a {
              prefix = chunk_key_prefix task;
              event_type = entry.event_type;
              schema_version = entry.schema_version;
            } in
            let (answer, r') =
              record_cut_script F a' (task_key task) (chunk_key task chunk_id) cut_payload
                object_ref chunk_index entry.payload r in
            (ok answer, r')
      ]
