-- ===== src/Tasks/Cancellation.antt =====
-- A download that stopped: ApplyDownloadCancelled, downloadCancellationDecision and
-- requeuePausedDownloadTx of internal/tasks/postgres_store.go. The byte counts of the checkpoint are
-- telemetry that no query reads, and are left out.
use visoraft.Prelude.{
  ℕ, ℤ, ◌+◌, String, Bool, true, false, none, some, ◌&&◌, ◌||◌, not, str_eq, gtb_ℤ, ltb_ℤ, eqb_ℤ,
  pos_part, max, update, if◌then◌else◌,
}
use visoraft.Database.{
  Db, Result, ok, invalid, require, or_fail, ◌>>◌, ◌>>=◌, TaskStatus, StepKind, StepStatus,
  terminal_workflow_status, step_is_active, step_is_succeeded, kind_eq, is_step, has_task_id,
  task_of, step_of, not_found,
}
use visoraft.Tasks.Envelope.{
  attempt_or_zero, Envelope, insert_workflow_audit, enqueue_command, is_live_task, move_task,
  coalesce,
}
use visoraft.Tasks.Metadata.{download_requested_v1, download_command}
use visoraft.Tasks.Download.{is_transfer, set_phase, is_foreign}

pub record WorkflowCancellation : Type 0 where
  pub task_id : String
  pub attempt : ℤ
  pub control_state : String

-- The event as it is acted on, and whether it is ignored.
unfoldable pub download_cancellation_decision :
    TaskStatus → ℕ → String → WorkflowCancellation → WorkflowCancellation × Bool
download_cancellation_decision status current phase event =
    if terminal_workflow_status status || (gtb_ℤ event.attempt 0 && ltb_ℤ event.attempt current)
    then (event, true)
    else if str_eq phase "resume_requested"
        && (eqb_ℤ event.attempt 0 || eqb_ℤ event.attempt current)
    then (record event { control_state = "paused" }, false)
    else (event, false)

unfoldable pub requeue_paused_download :
    (ℕ → String) → WorkflowCancellation → Envelope → String → ℕ → Db → Result Db
requeue_paused_download ids event env id now db = do
  t ← or_fail (task_of db id) not_found
  let next = max (attempt_or_zero (step_of db id StepKind.download)) (pos_part event.attempt) + 1
  if terminal_workflow_status t.status
      then ok db
      else ok (
          insert_workflow_audit env id "download.paused" now (
            enqueue_command (ids 0) id download_requested_v1 (download_command t next) now
              (record db {
                task_steps =
                    update
                      (λ s. is_step id StepKind.media_inspect s && not (step_is_succeeded s.status))
                      (λ s. record s {
                        status = StepStatus.queued;
                        attempt = next;
                        progress = 0;
                        error_code = "";
                        error_message = "";
                        started_at = none;
                        finished_at = none;
                        updated_at = now;
                      })
                      (update (is_step id StepKind.download)
                        (λ s. record s {
                          status = StepStatus.queued;
                          attempt = next;
                          detail = set_phase "paused" s.detail;
                          error_code = "";
                          error_message = "";
                          finished_at = none;
                          updated_at = now;
                        })
                        db.task_steps);
                tasks =
                    update (has_task_id id)
                      (λ t. record t {
                        status = TaskStatus.metadata_ready;
                        updated_at = now;
                        version = t.version + 1;
                      })
                      db.tasks;
              })))

unfoldable pub stop_download : Envelope → String → ℕ → Db → Db
stop_download env id now db = insert_workflow_audit env id "download.cancelled" now (record db {
  task_steps =
      update (λ s. str_eq s.task_id id && (is_transfer s && step_is_active s.status))
        (λ s. record s {
          status = StepStatus.cancelled;
          finished_at = some (coalesce s.finished_at now);
          updated_at = now;
          detail =
              if kind_eq s.kind StepKind.download then set_phase "cancelled" s.detail else s.detail;
        })
        db.task_steps;
  tasks = update (is_live_task id) (move_task TaskStatus.cancelled now) db.tasks;
})

unfoldable pub act_on_cancellation :
    (ℕ → String) → WorkflowCancellation × Bool → Envelope → String → ℕ → Db → Result Db
unfolding stop_download
act_on_cancellation ids (event, true) env id now db =
    ok (insert_workflow_audit env id "download.cancellation.ignored" now db)
act_on_cancellation ids (event, false) env id now db =
    if str_eq event.control_state "paused"
    then requeue_paused_download ids event env id now db
    else ok (stop_download env id now db)

-- A task without a download step ends in the error of the query that joins the two.
unfoldable pub download_cancelled :
    (ℕ → String) → WorkflowCancellation → Envelope → String → ℕ → Db → Result Db
unfolding act_on_cancellation
download_cancelled ids event env id now db = do
  require (not (is_foreign event.task_id id))
      (invalid "download cancellation task id does not match subject")
  t ← or_fail (task_of db id) (invalid "lock download cancellation state")
  s ← or_fail (step_of db id StepKind.download) (invalid "lock download cancellation state")
  let decided = download_cancellation_decision t.status s.attempt s.detail.phase event
  act_on_cancellation ids decided env id now db
