-- ===== src/Tasks/Control.antt =====
-- What an operator does to a task: Cancel, Pause and Resume of internal/tasks/postgres_store.go.
pub mod Cancelled
pub mod Repeated
pub mod Paused
use visoraft.Prelude.{
  ℕ, ◌+◌, String, Bool, false, Option, none, some, List, [], ◌∷◌, ◌&&◌, ◌||◌, not, str_eq, ltb,
  is_some, exists, update, if◌then◌else◌,
}
use visoraft.Database.{
  Db, Task, Step, Publication, Result, ok, require, or_fail, ◌>>◌, ◌>>=◌, not_found, conflict,
  TaskStatus, StepKind, StepStatus, PublicationStatus, JobStatus, AttemptStatus, is_cancelled,
  is_failed, is_publishing, is_not_cancellable, publication_needs_resolution,
  publication_is_cancellable, publication_is_unsafe, job_is_cancellable, attempt_is_running,
  step_is_active, step_is_running, has_task_id, kind_eq, is_step, task_of, terminal_workflow_status,
}
use visoraft.Tasks.Envelope.{coalesce}
use visoraft.Tasks.Download.{set_phase}

-- insertUserAudit
unfoldable pub insert_user_audit : String → String → ℕ → Db → Db
insert_user_audit id event_type now db = record db {
  audit_events =
      record {
        aggregate_id = id;
        event_type = event_type;
        actor_type = "user";
        actor_id = "local-user";
        occurred_at = now;
      }
      ∷ db.audit_events;
}

abbrev pub has_publication : String → (PublicationStatus → Bool) → Db → Bool
has_publication id test db =
    exists (λ p. str_eq p.task_id id && test p.status) db.platform_publications

abbrev pub cancel_publication : ℕ → Publication → Publication
cancel_publication now p = record p {
  status = PublicationStatus.cancelled;
  error_code = "cancelled_by_operator";
  error_message = "任务已由操作员取消";
  error_retryable = false;
  locked_at = none;
  locked_by = "";
  completed_at = some (coalesce p.completed_at now);
  updated_at = now;
  version = p.version + 1;
}

abbrev pub cancel_task : ℕ → Task → Task
cancel_task now t = record t {
  status = TaskStatus.cancelled;
  paused_at = none;
  paused_from_status = none;
  paused_step_kind = none;
  error_code = "";
  error_message = "";
  error_retryable = false;
  updated_at = now;
  version = t.version + 1;
}

-- The attempts, publications and jobs of a task that is cancelled.
unfoldable pub cancel_publishing : String → ℕ → Db → Db
cancel_publishing id now db = record db {
  publication_attempts =
      update
        (λ a.
          exists (λ p. str_eq p.id a.publication_id && str_eq p.task_id id) db.platform_publications
          && attempt_is_running a.status)
        (λ a. record a {
          status = AttemptStatus.cancelled;
          error_code = "cancelled_by_operator";
          error_message = "任务已由操作员取消";
          completed_at = some (coalesce a.completed_at now);
        })
        db.publication_attempts;
  platform_publications =
      update (λ p. str_eq p.task_id id && publication_is_cancellable p.status)
        (cancel_publication now) db.platform_publications;
  publish_jobs =
      update (λ j. str_eq j.task_id id && job_is_cancellable j.status)
        (λ j. record j {
          status = JobStatus.cancelled;
          completed_at = some (coalesce j.completed_at now);
          updated_at = now;
          version = j.version + 1;
        })
        db.publish_jobs;
}

unfoldable pub cancel_rows : String → ℕ → Db → Db
unfolding insert_user_audit
cancel_rows id now db = insert_user_audit id "task.cancelled" now (record db {
  task_steps =
      update (λ s. str_eq s.task_id id && step_is_active s.status)
        (λ s. record s {
          status = StepStatus.cancelled;
          finished_at = some (coalesce s.finished_at now);
          updated_at = now;
        })
        db.task_steps;
  tasks = update (has_task_id id) (cancel_task now) db.tasks;
})

unfoldable pub cancel : String → ℕ → Db → Result Db
unfolding cancel_publishing cancel_rows
cancel id now db = do
  t ← or_fail (task_of db id) not_found
  require (not (is_some t.archived_at)) (conflict "task_archived")
  require (not (is_not_cancellable t.status)) (conflict "task_not_cancellable")
  require (not (has_publication id publication_needs_resolution db))
      (conflict "task_publication_resolution_required")
  let after = cancel_publishing id now db
  if is_cancelled t.status then ok after else ok (cancel_rows id now after)

-- ORDER BY CASE status WHEN 'running' THEN 0 ELSE 1 END, updated_at DESC: does s come before t?
abbrev pub is_before : Step → Step → Bool
is_before s t =
    (step_is_running s.status && not (step_is_running t.status))
    || ((not (step_is_running t.status) || step_is_running s.status)
        && not (ltb s.updated_at t.updated_at))

abbrev pub first_of : (Step → Step → Bool) → Step → Option Step → Step
first_of before s none = s
first_of before s (some t) = if before s t then s else t

-- SELECT … WHERE … ORDER BY … LIMIT 1, of rows that tie the first of the table.
unfoldable pub first_step : (Step → Bool) → (Step → Step → Bool) → List Step → Option Step
first_step p before [] = none
first_step p before (s ∷ ss) =
    let rest = first_step p before ss in if p s then some (first_of before s rest) else rest

-- The step that a paused task resumes from.
unfoldable pub pause_checkpoint : Task → List Step → Option StepKind
pause_checkpoint t steps =
    elim (first_step (λ s. str_eq s.task_id t.id && step_is_active s.status) is_before steps) [
      | some s ↦ some s.kind
      | none ↦ elim t.status [
        | TaskStatus.awaiting_manual_review ↦ some StepKind.review
        | TaskStatus.ready_to_publish ↦ some StepKind.publish
        | _ ↦ none
      ]
    ]

abbrev pub pause_task : ℕ → Option StepKind → Task → Task
pause_task now step t = record t {
  paused_at = some now;
  paused_from_status = some t.status;
  paused_step_kind = step;
  updated_at = now;
  version = t.version + 1;
}

unfoldable pub pause : String → ℕ → Db → Result Db
unfolding insert_user_audit
pause id now db = do
  t ← or_fail (task_of db id) not_found
  require (not (is_some t.archived_at)) (conflict "task_archived")
  if is_some t.paused_at then ok db else (do
    require (not (is_failed t.status || terminal_workflow_status t.status))
        (conflict "task_not_pausable")
    require (not (is_publishing t.status || has_publication id publication_is_unsafe db))
        (conflict "task_publication_in_progress")
    ok (
        insert_user_audit id "task.paused" now (record db {
          tasks =
              update (has_task_id id) (pause_task now (pause_checkpoint t db.task_steps)) db.tasks;
        })))

abbrev pub stands_on_download : Option StepKind → Bool
stands_on_download none = false
stands_on_download (some k) = kind_eq k StepKind.download

abbrev pub resume_task : ℕ → Task → Task
resume_task now t = record t {
  paused_at = none;
  paused_from_status = none;
  paused_step_kind = none;
  updated_at = now;
  version = t.version + 1;
}

unfoldable pub resume_rows : Task → String → ℕ → Db → Db
unfolding insert_user_audit
resume_rows t id now db = insert_user_audit id "task.resumed" now (record db {
  task_steps =
      if stands_on_download t.paused_step_kind
      then update (λ s. is_step id StepKind.download s && step_is_running s.status)
          (λ s. record s { detail = set_phase "resume_requested" s.detail; updated_at = now })
          db.task_steps
      else db.task_steps;
  tasks = update (has_task_id id) (resume_task now) db.tasks;
})

unfoldable pub resume : String → ℕ → Db → Result Db
unfolding resume_rows
resume id now db = do
  t ← or_fail (task_of db id) not_found
  require (not (is_some t.archived_at)) (conflict "task_archived")
  if not (is_some t.paused_at) then ok db else ok (resume_rows t id now db)
