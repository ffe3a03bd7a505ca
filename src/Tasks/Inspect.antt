-- ===== src/Tasks/Inspect.antt =====
-- The media inspection events of internal/tasks/postgres_store.go.
use visoraft.Prelude.{
  ℕ, ◌+◌, String, none, some, List, ◌∷◌, ◌&&◌, not, str_eq, max, exists, update, if◌then◌else◌,
}
use visoraft.Database.{
  Db, Step, Result, ok, TaskStatus, StepKind, StepStatus, step_is_active, is_step, task_is_live,
}
use visoraft.Tasks.Download.{is_transfer}
use visoraft.Tasks.Envelope.{
  Envelope, WorkflowFailure, insert_workflow_audit, is_live_task, fail_task, move_task, coalesce,
}

-- INSERT … SELECT … FROM tasks WHERE live ON CONFLICT (task_id, kind) DO UPDATE
unfoldable pub start_inspection : String → ℕ → ℕ → Db → List Step
start_inspection id attempt now db =
    if not (task_is_live db id)
    then db.task_steps
    else if exists (is_step id StepKind.media_inspect) db.task_steps
    then update (is_step id StepKind.media_inspect)
        (λ s. record s {
          status = StepStatus.running;
          attempt = max s.attempt attempt;
          progress = 10;
          started_at = some (coalesce s.started_at now);
          finished_at = none;
          updated_at = now;
          error_code = "";
          error_message = "";
        })
        db.task_steps
    else record {
      task_id = id;
      kind = StepKind.media_inspect;
      status = StepStatus.running;
      attempt = attempt;
      progress = 10;
      detail = record { phase = ""; decision = none };
      error_code = "";
      error_message = "";
      started_at = some now;
      finished_at = none;
      updated_at = now;
    }
      ∷ db.task_steps

-- An attempt below 1 counts as 1.
unfoldable pub media_inspect_started : ℕ → Envelope → String → ℕ → Db → Result Db
unfolding start_inspection
media_inspect_started attempt env id now db = ok (
    insert_workflow_audit env id "media.inspect.started" now (record db {
      task_steps = start_inspection id (max attempt 1) now db;
      tasks = update (is_live_task id) (move_task TaskStatus.processing now) db.tasks;
    }))

-- The body of ApplyMediaInspectCompleted; its check of the media info stands before the transaction.
unfoldable pub media_inspect_completed : Envelope → String → ℕ → Db → Result Db
media_inspect_completed env id now db = ok (
    insert_workflow_audit env id "media.inspect.completed" now (record db {
      task_steps =
          update (λ s. is_step id StepKind.media_inspect s && task_is_live db id)
            (λ s. record s {
              status = StepStatus.succeeded;
              progress = 100;
              finished_at = some now;
              updated_at = now;
              error_code = "";
              error_message = "";
            })
            db.task_steps;
      tasks =
          update (is_live_task id)
            (λ t. record t {
              status = TaskStatus.processing;
              updated_at = now;
              version = t.version + 1;
            })
            db.tasks;
    }))

unfoldable pub media_inspect_failed : WorkflowFailure → Envelope → String → ℕ → Db → Result Db
media_inspect_failed failure env id now db = ok (
    insert_workflow_audit env id "media.inspect.failed" now (record db {
      task_steps =
          update (λ s. str_eq s.task_id id && (is_transfer s && step_is_active s.status))
            (λ s. record s {
              status = StepStatus.cancelled;
              finished_at = some (coalesce s.finished_at now);
              updated_at = now;
            })
            (update (is_step id StepKind.media_inspect)
              (λ s. record s {
                status = StepStatus.failed;
                finished_at = some now;
                updated_at = now;
                error_code = failure.code;
                error_message = failure.message;
              })
              db.task_steps);
      tasks =
          update (is_live_task id) (fail_task failure.code failure.message failure.retryable now)
            db.tasks;
    }))
