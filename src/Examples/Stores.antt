-- ===== src/Examples/Stores.antt =====
-- Reads of a status, the creation of tasks and the ingest scripts at concrete inputs.
use Prim.Native.Nat.{zero, suc}
use cv_video_analysis.Common.{some, suc, List, arith, ℕ, ◌≡◌, ◌≢◌, refl, true, [], ◌∷◌, ◌++◌, All}
use mathlib.Core.List.{map}
use cv_video_analysis.Common.Texts.{Text, codes, text_eq, starts_with, pad}
use cv_video_analysis.Common.Indices.{mem}
use cv_video_analysis.Common.Maps.{get_or, put}
use cv_video_analysis.Domain.Floats.{whole}
use cv_video_analysis.Store.{Redis, StreamEntry, no_task, stream_at}
use cv_video_analysis.Store.Keys.{task_key, chunk_id, chunk_key}
use cv_video_analysis.Repository.Errors.{ok, err, no_tasks}
use cv_video_analysis.Repository.Status.{
  is_valid_progress, Read, broken, answer, queued_status, create_many_and_enqueue,
}
use cv_video_analysis.Repository.Status.{status_mapping, status_from_mapping, or_none}
use cv_video_analysis.Repository.Status.Reading.{normal}
use cv_video_analysis.Repository.Status.Fields.{
  Formats, IsPrinted, read_optional_time, parse_status, status_texts, parse_status-status_texts,
}
use cv_video_analysis.Common.Texts.{pad, parse_int, parse_int-pad}
use cv_video_analysis.Repository.Status.Creation.{ReadsQueued, create_many_and_enqueue_lem}
use cv_video_analysis.Repository.Ingest.{
  publish_script, get_ingest_published_chunks, is_ingest_chunk_published, mark_ingest_complete,
}
use cv_video_analysis.Repository.Ingest.Once.{
  Delivery, accept, Holds, HoldsAll, publish_all, publish_all-HoldsAll,
}
use cv_video_analysis.Repository.Ingest.Complete.{mark_ingest_complete_covers}
use cv_video_analysis.Examples.{task, now, stream, empty, entry, new_status, new_task}

abbrev reads : ℕ → Read ℕ
reads zero = broken
reads (suc k) = answer new_task

-- A float of the tests is printed as its digits, every text is an id and a time.
abbrev plain : Formats ℕ
plain = record {
  show_float = pad 1;
  read_float = parse_int;
  read-show_float = parse_int-pad;
  read_id = some;
  read_time = some;
}

new-IsPrinted : IsPrinted whole plain new_status
unfolding read_optional_time queued_status or_none
new-IsPrinted = record { task_id = refl; created_at = refl; updated_at = refl; started = refl }

parse_status-status_texts_example :
    (parse_status whole plain (status_texts whole plain new_status) ≡ some (normal new_status))
    × (status_from_mapping whole (status_mapping new_status no_task)
        ≡ parse_status whole plain (status_texts whole plain new_status))
unfolding is_valid_progress queued_status
parse_status-status_texts_example =
    parse_status-status_texts whole plain new_status no_task refl new-IsPrinted

abbrev batch : List (Text × Text × StreamEntry)
batch = (codes "a", codes "u", entry 0) ∷ (codes "b", codes "v", entry 1) ∷ []

create_many_and_enqueue_lem_example :
    let (result, r') = create_many_and_enqueue whole 60 now stream batch empty in
    ((batch ≢ [])
      → All (λ (t : Text × Text × StreamEntry). ReadsQueued whole 60 now r' t.0) batch
        × (stream_at r' stream
            ≡ stream_at empty stream ++ map (λ (t : Text × Text × StreamEntry). t.2) batch)
        × (result
            ≡ ok (map (λ (t : Text × Text × StreamEntry). queued_status whole t.0 now) batch)))
    × (batch ≡ [] → (result ≡ err no_tasks) × (r' ≡ empty))
create_many_and_enqueue_lem_example = create_many_and_enqueue_lem whole 60 now stream batch empty

abbrev deliveries : List Delivery
deliveries = (0, entry 0, codes "x") ∷ (1, entry 1, codes "y") ∷ (0, entry 0, codes "z") ∷ []

empty-Holds : Holds task stream [] [] empty
unfolding get_ingest_published_chunks get_or mem
empty-Holds = record { published = λ i. refl; counted = refl; logged = refl; distinct = tt }

publish_all-HoldsAll_example :
    HoldsAll task stream [] (accept [] deliveries) (publish_all 60 task stream deliveries empty)
publish_all-HoldsAll_example =
    publish_all-HoldsAll 60 task stream [] [] deliveries empty (empty-Holds, tt)

abbrev published_two : Redis ℕ
published_two = publish_all 60 task stream deliveries empty

mark_ingest_complete_covers_example :
    is_ingest_chunk_published task (chunk_id task 1) published_two ≡ true
unfolding accept publish_all get_ingest_published_chunks mem mark_ingest_complete get_or
    publish_script put text_eq chunk_key starts_with chunk_id pad task_key
mark_ingest_complete_covers_example =
    mark_ingest_complete_covers 60 task 2 published_two published_two stream []
      (accept [] deliveries)
      (publish_all-HoldsAll 60 task stream [] [] deliveries empty (empty-Holds, tt)).0
      (omega arith, (omega arith, tt)) refl 1 (omega arith)
