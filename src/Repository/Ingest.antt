-- ===== src/Repository/Ingest.antt =====
-- The ingest side of the repository: `publish_ingest_chunk_once`, `mark_ingest_complete`, and the
-- reads that go with them.
pub mod Once
pub mod Complete
use cv_video_analysis.Common.{
  ◌++◌, ◌++◌, ℕ, ◌+◌, Bool, true, false, Option, none, some, [], if◌then◌else◌, ltb, or_else,
}
use cv_video_analysis.Common.Texts.{Text, codes}
use cv_video_analysis.Common.Maps.{put, get_or}
use cv_video_analysis.Store.{
  TaskHash, ChunkHash, StreamEntry, Redis, task_at, chunk_at, set_task, set_chunk, xadd,
}
use cv_video_analysis.Store.Keys.{task_key, chunk_key, chunk_id, metadata_key, result_key}
use cv_video_analysis.Repository.Errors.{
  Result, ok, err, task_not_found, missing_stream_fields, ingest_incomplete,
}

-- The dictionary `stream_fields` of a caller, as far as the repository reads it.
pub record StreamFields : Type 0 where
  pub event_type : Option Text
  pub schema_version : Option Text
  pub payload : Option Text

-- `required_fields.issubset(stream_fields)`: `none` is the ValueError.
unfoldable pub required_entry : Option Text → Option Text → Option Text → Option StreamEntry
required_entry (some event_type) (some schema_version) (some payload) =
    some (record { event_type = event_type; schema_version = schema_version; payload = payload })
required_entry _ _ _ = none

unfoldable pub stream_entry : StreamFields → Option StreamEntry
unfolding required_entry
stream_entry f = required_entry f.event_type f.schema_version f.payload

module _ {N : Type 0} where
  -- The Lua script of `publish_ingest_chunk_once`.
  unfoldable pub publish_script :
      ℕ → Text → Text → Text → StreamEntry → Text → ℕ → Redis N → Bool × Redis N
  publish_script ttl task chunk stream entry object_ref chunk_index r =
      let c = chunk_at r chunk in
      let t = task_at r task in
      let r1 = set_chunk r chunk (record c {
        ingest_published = true;
        ingest_payload = some entry.payload;
        object_ref = some object_ref;
        chunk_index = some chunk_index;
        chunk_expires = some ttl;
      }) in
      let r2 = set_task r1 task (record t {
        ingest_published_chunks = some (or_else t.ingest_published_chunks 0 + 1);
        expires = some ttl;
      }) in
      if c.ingest_published then (false, r) else (true, xadd r2 stream entry)

  unfoldable pub publish_ingest_chunk_once :
      ℕ → Text → Text → Text → StreamFields → Text → ℕ → Redis N → Result Bool × Redis N
  unfolding stream_entry
  publish_ingest_chunk_once ttl task chunk_id stream fields object_ref chunk_index r =
      elim (stream_entry fields) [
        | none ↦ (err missing_stream_fields, r)
        | some entry ↦
            let (is_new, r') =
              publish_script ttl (task_key task) (chunk_key task chunk_id) stream entry object_ref
                chunk_index r in
            (ok is_new, r')
      ]

  unfoldable pub is_ingest_chunk_published : Text → Text → Redis N → Bool
  is_ingest_chunk_published task chunk_id r =
      (chunk_at r (chunk_key task chunk_id)).ingest_published

  unfoldable pub is_ingest_complete : Text → Redis N → Bool
  is_ingest_complete task r = (task_at r (task_key task)).ingest_complete

  unfoldable pub get_ingest_published_chunks : Text → Redis N → ℕ
  get_ingest_published_chunks task r = or_else (task_at r (task_key task)).ingest_published_chunks 0

  unfoldable pub get_chunk_object_ref : Text → ℕ → Redis N → Result Text
  get_chunk_object_ref task chunk_index r =
      elim (chunk_at r (chunk_key task (chunk_id task chunk_index))).object_ref [
        | none ↦ err (task_not_found (codes "object_ref:" ++ chunk_id task chunk_index))
        | some token ↦ ok token
      ]

  -- The Lua script of `mark_ingest_complete`.
  unfoldable pub complete_script : ℕ → ℕ → TaskHash N → Bool × TaskHash N
  complete_script ttl total h =
      if ltb (or_else h.ingest_published_chunks 0) total
      then (false, h)
      else (true, record h { ingest_complete = true; expires = some ttl })

  -- `later` is the store at the read that the error message makes.
  unfoldable pub mark_ingest_complete :
      ℕ → Text → ℕ → Redis N → Redis N → Result (Unit {0}) × Redis N
  unfolding complete_script get_ingest_published_chunks
  mark_ingest_complete ttl task total later r =
      let (done, h) = complete_script ttl total (task_at r (task_key task)) in
      (
        if done
            then ok tt
            else err (ingest_incomplete (get_ingest_published_chunks task later) total),
        set_task r (task_key task) h,
      )

  unfoldable pub save_video_metadata : Text → Text → Redis N → Redis N
  save_video_metadata task json r = record r {
    metadata = put r.metadata (metadata_key task) (some json);
  }

  unfoldable pub get_video_metadata : Text → Redis N → Result Text
  get_video_metadata task r = elim (get_or r.metadata (metadata_key task) none) [
    | none ↦ err (task_not_found (codes "metadata:" ++ task))
    | some json ↦ ok json
  ]

  unfoldable pub save_result : Text → Text → Redis N → Redis N
  save_result task json r = record r { results = put r.results (result_key task) (some json) }

  unfoldable pub get_result : Text → Redis N → Option Text
  get_result task r = get_or r.results (result_key task) none
