-- ===== src/Examples/Updates.antt =====
-- `update_status` and `fail` at concrete inputs.
use cv_video_analysis.Common.{ℕ, ◌≡◌, refl, some, take}
use cv_video_analysis.Common.Texts.{codes, text_eq}
use cv_video_analysis.Domain.Enums.{decoding, queued, completed, failed}
use cv_video_analysis.Domain.Floats.{whole}
use cv_video_analysis.Store.{Redis, TaskHash, task_at, task_exists}
use cv_video_analysis.Store.Keys.{task_key}
use cv_video_analysis.Repository.Errors.{ok, err, invalid_transition}
use cv_video_analysis.Repository.Status.{
  create, write_queued, status_mapping, queued_status, is_valid_progress, get_status,
  get_status_from, attempt_outcome,
}
use cv_video_analysis.Repository.Status.Reading.{normal}
use cv_video_analysis.Repository.Update.{
  update_from, StatusPatch, no_patch, update_script, update_status, fail, hset_given,
}
use cv_video_analysis.Repository.Update.Script.{Advances, update_script-Advances}
use cv_video_analysis.Repository.Update.Calls.{fail_lem}
use cv_video_analysis.Domain.Stages.{is_terminal, stage_rank, ensure_stage_transition}
use cv_video_analysis.Common.Maps.{get_or, put}
use cv_video_analysis.Examples.{calm, read_new, live_new, task, now, empty, new_status, new_task}

abbrev decode_patch : StatusPatch ℕ
decode_patch = record no_patch { stage = some decoding; progress = some 10; total_chunks = some 4 }

abbrev skip_patch : StatusPatch ℕ
skip_patch = record no_patch { stage = some completed }

abbrev decoded : TaskHash ℕ
decoded = (update_script whole 60 now decode_patch new_task).1

update_script-Advances_example : Advances whole new_task decoded
update_script-Advances_example = update_script-Advances whole 60 now decode_patch new_task

skip_err :
    (update_status whole 3 60 now task skip_patch calm calm empty).0
    ≡ err (invalid_transition queued completed)
unfolding update_status update_from get_status get_status_from attempt_outcome status_mapping
    is_terminal stage_rank ensure_stage_transition is_valid_progress queued_status
skip_err = refl

abbrev created : Redis ℕ
created = (create whole 60 now task (codes "source") empty).1

fail_lem_example :
    let (result, r') =
      fail whole 3 60 now task (codes "code") (codes "detail") calm calm calm created in
    let h' = task_at r' (task_key task) in
    (result ≡ ok (normal new_status))
    × (h'.stage ≡ some failed)
    × (h'.error_code
        ≡ hset_given (task_at created (task_key task)).error_code (some (codes "code")))
    × (h'.error_detail
        ≡ hset_given
            (task_at created (task_key task)).error_detail
            (some (take 2000 (take 2000 (codes "detail")))))
unfolding create write_queued status_mapping queued_status task_exists is_terminal get_or put
    task_key text_eq
fail_lem_example =
    fail_lem whole 60 now task 3 (codes "code") (codes "detail") (normal new_status) created calm
      calm calm (normal new_status) (normal new_status) read_new live_new read_new live_new read_new
      refl refl
