-- ===== src/Tasks/Retry.antt =====
-- Retry of internal/tasks/postgres_store.go: the last step of a task that failed or was cancelled runs
-- again.
pub mod Requeue
use visoraft.Prelude.{
  ℕ, ◌+◌, String, Bool, Option, none, some, List, [], ◌∷◌, ◌&&◌, ◌||◌, not, str_eq, ltb, is_some,
  exists, update, false,
}
use visoraft.Database.{
  Db, Task, Step, Command, Result, ok, require, or_fail, ◌>>◌, ◌>>=◌, not_found, conflict, invalid,
  TaskStatus, StepKind, StepStatus, is_cancelled, is_failed, step_is_stopped, has_task_id, kind_eq,
  task_of,
}
use visoraft.Tasks.Envelope.{enqueue_command, move_task}
use visoraft.Tasks.Metadata.{download_requested_v1}
use visoraft.Tasks.Subtitle.{subtitle_requested_v1}
use visoraft.Tasks.Transcode.{transcode_requested_v1}
use visoraft.Tasks.TranscodeStop.{source_asset, insert_run}
use visoraft.Tasks.Control.{insert_user_audit, first_step}

abbrev pub metadata_requested_v1 : String
metadata_requested_v1 = "io.visoraft.media.metadata.requested.v1"

pub record RetryPlan : Type 0 where
  pub event_type : String
  pub next_status : TaskStatus
  pub step_kinds_to_reset : List StepKind

-- The switch over the kind of the failed step.
unfoldable pub retry_plan : StepKind → Option RetryPlan
retry_plan StepKind.metadata = some (record {
  event_type = metadata_requested_v1;
  next_status = TaskStatus.queued;
  step_kinds_to_reset = StepKind.metadata ∷ [];
})
retry_plan StepKind.download = some (record {
  event_type = download_requested_v1;
  next_status = TaskStatus.metadata_ready;
  step_kinds_to_reset = StepKind.download ∷ StepKind.media_inspect ∷ [];
})
retry_plan StepKind.media_inspect = some (record {
  event_type = download_requested_v1;
  next_status = TaskStatus.metadata_ready;
  step_kinds_to_reset = StepKind.download ∷ StepKind.media_inspect ∷ [];
})
retry_plan StepKind.subtitles = some (record {
  event_type = subtitle_requested_v1;
  next_status = TaskStatus.processing;
  step_kinds_to_reset = StepKind.subtitles ∷ [];
})
retry_plan StepKind.transcode = some (record {
  event_type = transcode_requested_v1;
  next_status = TaskStatus.processing;
  step_kinds_to_reset = StepKind.transcode ∷ [];
})
retry_plan _ = none

-- ORDER BY updated_at DESC
abbrev pub is_newer : Step → Step → Bool
is_newer s t = not (ltb s.updated_at t.updated_at)

abbrev pub retry_command : Task → ℕ → Option String → Command
retry_command t attempt run_id = record {
  task_id = t.id;
  attempt = attempt;
  source_url = some t.source_url;
  cookie_profile_id = t.cookie_profile_id;
  run_id = run_id;
}

-- The run of a retried transcode, which needs the source asset.
unfoldable pub prepare_run : (ℕ → String) → StepKind → Task → ℕ → ℕ → Db → Result Db
prepare_run ids StepKind.transcode t attempt now db = do
  source ← or_fail (source_asset t.id db.media_assets) (invalid "load transcode retry input")
  ok (insert_run (ids 0) t attempt source.id now db)
prepare_run ids _ t attempt now db = ok db

abbrev pub run_id_of : (ℕ → String) → StepKind → Option String
run_id_of ids StepKind.transcode = some (ids 0)
run_id_of ids _ = none

abbrev pub is_reset : String → List StepKind → Step → Bool
is_reset id kinds s = str_eq s.task_id id && exists (kind_eq s.kind) kinds

abbrev pub reset_step : ℕ → ℕ → Step → Step
reset_step attempt now s = record s {
  status = StepStatus.queued;
  attempt = attempt;
  progress = 0;
  error_code = "";
  error_message = "";
  started_at = none;
  finished_at = none;
  updated_at = now;
}

unfoldable pub requeue_step : (ℕ → String) → RetryPlan → StepKind → Task → ℕ → String → ℕ → Db → Db
requeue_step ids plan kind t attempt id now db = insert_user_audit id "task.retry.requested" now (
    enqueue_command (ids 1) id plan.event_type (retry_command t attempt (run_id_of ids kind)) now
      (record db {
        task_steps =
            update (is_reset id plan.step_kinds_to_reset) (reset_step attempt now) db.task_steps;
        tasks = update (has_task_id id) (move_task plan.next_status now) db.tasks;
      }))

unfoldable pub failed_step : String → List Step → Option Step
failed_step id steps =
    first_step (λ s. str_eq s.task_id id && step_is_stopped s.status) is_newer steps

unfoldable pub retry : (ℕ → String) → String → ℕ → Db → Result Db
unfolding failed_step retry_plan prepare_run requeue_step
retry ids id now db = do
  t ← or_fail (task_of db id) not_found
  require (not (is_some t.archived_at)) (conflict "task_archived")
  require (is_failed t.status || is_cancelled t.status) (conflict "task_not_retryable")
  s ← or_fail (failed_step id db.task_steps) (conflict "failed_step_missing")
  plan ← or_fail (retry_plan s.kind) (conflict "step_not_retryable")
  prepared ← prepare_run ids s.kind t (s.attempt + 1) now db
  ok (requeue_step ids plan s.kind t (s.attempt + 1) id now prepared)
