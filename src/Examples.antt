-- ===== src/Examples.antt =====
-- The theorems at concrete inputs, one file for each component.
pub mod Stores
pub mod Updates
pub mod Pipeline
pub mod Decoding
pub mod Objects
pub mod Waits
pub mod Results
pub mod Scenes
pub mod Cutting
pub mod Deliveries
pub mod Archives
pub mod Tracks
pub mod Boundaries
pub mod Tracking
pub mod Coordination
use cv_video_analysis.Common.{ℕ, [], true, false, ◌≡◌, refl}
use cv_video_analysis.Domain.Stages.{is_terminal}
use cv_video_analysis.Repository.Errors.{ok}
use cv_video_analysis.Repository.Status.{is_valid_progress, get_status, Read, answer}
use cv_video_analysis.Repository.Status.Reading.{normal, get_status-status_mapping}
use cv_video_analysis.Common.Texts.{Text, codes, pad}
use cv_video_analysis.Domain.Floats.{whole}
use cv_video_analysis.Store.{Redis, StreamEntry, no_task, TaskHash}
use cv_video_analysis.Repository.Status.{TaskStatus, queued_status, status_mapping}

abbrev pub task : Text
task = codes "t1"

abbrev pub now : Text
now = codes "2026-01-01"

abbrev pub stream : Text
stream = codes "jobs"

abbrev pub empty : Redis ℕ
empty = record { tasks = []; chunks = []; streams = []; results = []; metadata = [] }

abbrev pub entry : ℕ → StreamEntry
entry i = record { event_type = codes "chunk"; schema_version = codes "1"; payload = pad 8 i }

abbrev pub new_status : TaskStatus ℕ
new_status = queued_status whole task now

abbrev pub new_task : TaskHash ℕ
new_task = status_mapping new_status no_task

valid_new : is_valid_progress whole new_status.progress ≡ true
unfolding is_valid_progress queued_status
valid_new = refl

abbrev pub calm : ℕ → Read ℕ
calm k = answer new_task

pub read_new : get_status whole task 3 calm ≡ ok (normal new_status)
read_new = get_status-status_mapping whole new_status no_task task calm 2 valid_new refl

pub live_new : is_terminal new_status.stage ≡ false
unfolding is_terminal queued_status
live_new = refl
