-- ===== src/Tasks/Metadata.antt =====
-- The metadata events of internal/tasks/postgres_store.go.
use visoraft.Prelude.{
  ℕ, ℤ, ◌+◌, String, Bool, true, false, Option, none, some, List, ◌∷◌, ◌&&◌, str_eq, exists, update,
  if◌then◌else◌,
}
use visoraft.Database.{
  Db, Task, Step, Command, Result, ok, TaskStatus, StepKind, StepStatus, step_is_active, is_step,
  task_of, task_is_live, or_fail, ◌>>=◌, not_found,
}
use visoraft.Tasks.Envelope.{
  Envelope, WorkflowFailure, insert_workflow_audit, enqueue_command, is_live_task, fail_task,
  move_task, coalesce,
}

pub record Metadata : Type 0 where
  pub title : String
  pub description : String
  pub thumbnail_url : String
  pub duration_seconds : Option ℤ
  pub extractor : String

abbrev pub download_requested_v1 : String
download_requested_v1 = "io.visoraft.media.download.requested.v1"

-- WHERE id=$1 AND status IN ('queued','fetching_metadata')
abbrev pub is_before_metadata : TaskStatus → Bool
is_before_metadata TaskStatus.queued = true
is_before_metadata TaskStatus.fetching_metadata = true
is_before_metadata _ = false

unfoldable pub metadata_started : Envelope → String → ℕ → Db → Result Db
metadata_started env id now db = ok (
    insert_workflow_audit env id "metadata.started" now (record db {
      task_steps =
          update (λ s. is_step id StepKind.metadata s && step_is_active s.status)
            (λ s. record s {
              status = StepStatus.running;
              progress = 5;
              started_at = some (coalesce s.started_at now);
              updated_at = now;
              error_code = "";
              error_message = "";
            })
            db.task_steps;
      tasks =
          update (λ t. str_eq t.id id && is_before_metadata t.status)
            (move_task TaskStatus.fetching_metadata now) db.tasks;
    }))

-- The row of a step as `INSERT INTO task_steps` makes it: attempt 1, progress 0.
abbrev pub new_step : String → StepKind → ℕ → Step
new_step id kind now = record {
  task_id = id;
  kind = kind;
  status = StepStatus.queued;
  attempt = 1;
  progress = 0;
  detail = record { phase = ""; decision = none };
  error_code = "";
  error_message = "";
  started_at = none;
  finished_at = none;
  updated_at = now;
}

-- INSERT … ON CONFLICT (task_id, kind) DO NOTHING
unfoldable pub insert_step : Step → List Step → List Step
insert_step s steps = if exists (is_step s.task_id s.kind) steps then steps else s ∷ steps

abbrev pub download_command : Task → ℕ → Command
download_command t attempt = record {
  task_id = t.id;
  attempt = attempt;
  source_url = some t.source_url;
  cookie_profile_id = t.cookie_profile_id;
  run_id = none;
}

abbrev describe_task : Metadata → ℕ → Task → Task
describe_task metadata now t = record t {
  status = TaskStatus.metadata_ready;
  original_title = metadata.title;
  title = if str_eq t.title "" then metadata.title else t.title;
  description = if str_eq t.description "" then metadata.description else t.description;
  thumbnail_url = metadata.thumbnail_url;
  duration_seconds = metadata.duration_seconds;
  extractor = metadata.extractor;
  error_code = "";
  error_message = "";
  error_retryable = false;
  updated_at = now;
  version = t.version + 1;
}

-- The steps and the command that follow when the task took the metadata.
unfoldable pub queue_download : (ℕ → String) → Envelope → String → ℕ → Db → Result Db
unfolding insert_step
queue_download ids env id now db = do
  t ← or_fail (task_of db id) not_found
  let steps = insert_step (new_step id StepKind.download now) db.task_steps
  let both = insert_step (new_step id StepKind.media_inspect now) steps
  ok (
      insert_workflow_audit env id "metadata.completed" now (
        enqueue_command (ids 2) id download_requested_v1 (download_command t 1) now
          (record db { task_steps = both })))

unfoldable pub metadata_completed : (ℕ → String) → Metadata → Envelope → String → ℕ → Db → Result Db
unfolding queue_download
metadata_completed ids metadata env id now db =
    let after = record db {
      task_steps =
          update (λ s. is_step id StepKind.metadata s && task_is_live db id)
            (λ s. record s {
              status = StepStatus.succeeded;
              progress = 100;
              finished_at = some now;
              updated_at = now;
              error_code = "";
              error_message = "";
            })
            db.task_steps;
      tasks = update (is_live_task id) (describe_task metadata now) db.tasks;
    } in
    if task_is_live db id
    then queue_download ids env id now after
    else ok (insert_workflow_audit env id "metadata.completed.ignored" now after)

unfoldable pub metadata_failed : WorkflowFailure → Envelope → String → ℕ → Db → Result Db
metadata_failed failure env id now db = ok (
    insert_workflow_audit env id "metadata.failed" now (record db {
      task_steps =
          update (is_step id StepKind.metadata)
            (λ s. record s {
              status = StepStatus.failed;
              finished_at = some now;
              updated_at = now;
              error_code = failure.code;
              error_message = failure.message;
            })
            db.task_steps;
      tasks =
          update (is_live_task id) (fail_task failure.code failure.message failure.retryable now)
            db.tasks;
    }))
