-- ===== src/Store/Keys.antt =====
-- The Redis keys of the repository: `_task_key`, `_result_key`, `_metadata_key`, `_chunk_key`,
-- `_chunk_key_prefix`, and the chunk ids that the pipeline's messages carry.
pub mod Canonical
use cv_video_analysis.Common.{ℕ, ◌++◌, [], ◌∷◌, if◌then◌else◌, length, drop}
use cv_video_analysis.Common.Texts.{Text, codes, starts_with, pad}

unfoldable pub task_key : Text → Text
task_key task_id = codes "cv:task:" ++ task_id

unfoldable pub result_key : Text → Text
result_key task_id = codes "cv:result:" ++ task_id

unfoldable pub metadata_key : Text → Text
metadata_key task_id = codes "cv:video_metadata:" ++ task_id

unfoldable pub chunk_key : Text → Text → Text
chunk_key task_id chunk_id =
    let message_prefix = task_id ++ b':' ∷ [] in
    let chunk_text =
      if starts_with message_prefix chunk_id
      then drop (length message_prefix) chunk_id
      else chunk_id in
    codes "cv:chunk:" ++ task_id ++ (b':' ∷ chunk_text)

unfoldable pub chunk_key_prefix : Text → Text
unfolding chunk_key
chunk_key_prefix task_id = chunk_key task_id []

-- `f"{task_id}:{chunk_index:08d}"`
unfoldable pub chunk_id : Text → ℕ → Text
chunk_id task_id chunk_index = task_id ++ (b':' ∷ pad 8 chunk_index)

-- `ARGV[10] .. string.format('%08d', next_index)` of the dispatch script.
unfoldable pub lua_chunk_key : Text → ℕ → Text
lua_chunk_key prefix next_index = prefix ++ pad 8 next_index
