-- ===== src/Tasks/Envelope.antt =====
-- internal/events/envelope.go and the frame of internal/tasks/postgres_store.go in which every
-- workflow event is applied: `applyWorkflowEvent`, `taskIDFromSubject`, `insertWorkflowAudit`,
-- `enqueuePausedCommandTx`.
use visoraft.Prelude.{
  ℕ, ◌+◌, String, Bool, false, Option, none, some, ◌∷◌, ◌&&◌, not, str_eq, strip_prefix, exists,
  if◌then◌else◌,
}
use visoraft.Database.{
  Db, Task, Step, Command, Result, not_found, invalid, Outcome, commit, has_task_id, OutboxStatus,
  terminal_workflow_status, TaskStatus,
}

-- `type` and `data` of an envelope are the constructor and the fields of an event; a zero `Time`
-- is `none`.
pub record Envelope : Type 0 where
  pub id : String
  pub source : String
  pub subject : String
  pub time : Option ℕ

unfoldable pub task_id_from_subject : String → String
task_id_from_subject subject = elim (strip_prefix "task/" subject) [ none ↦ "" | some rest ↦ rest ]

-- now := envelope.Time.UTC(); if now.IsZero() { now = time.Now().UTC() }
abbrev pub event_time : ℕ → Option ℕ → ℕ
event_time clock none = clock
event_time clock (some t) = t

unfoldable pub insert_workflow_audit : Envelope → String → String → ℕ → Db → Db
insert_workflow_audit env id event_type now db = record db {
  audit_events =
      record {
        aggregate_id = id;
        event_type = event_type;
        actor_type = "worker";
        actor_id = env.source;
        occurred_at = now;
      }
      ∷ db.audit_events;
}

-- INSERT INTO outbox_messages … 'pending', 0, now
unfoldable pub enqueue_command : String → String → String → Command → ℕ → Db → Db
enqueue_command outbox_id id event_type command now db = record db {
  outbox_messages =
      record {
        id = outbox_id;
        aggregate_id = id;
        event_type = event_type;
        payload = command;
        status = OutboxStatus.pending;
        attempts = 0;
        available_at = now;
        locked_at = none;
        published_at = none;
        last_error = "";
        created_at = now;
      }
      ∷ db.outbox_messages;
}

abbrev pub is_consumed : String → Db → Bool
is_consumed message_id db = exists (str_eq message_id) db.consumed_messages

abbrev pub task_exists : String → Db → Bool
task_exists id db = exists (has_task_id id) db.tasks

-- INSERT INTO consumed_messages
abbrev pub consume : String → Db → Db
consume message_id db = record db { consumed_messages = message_id ∷ db.consumed_messages }

-- The event of a deleted task is recorded as consumed, and that is committed before the error.
unfoldable pub apply_workflow_event : ℕ → Envelope → (String → ℕ → Db → Result Db) → Db → Outcome
apply_workflow_event clock env body db =
    let id = task_id_from_subject env.subject in
    if str_eq id ""
    then (db, some (invalid "event subject does not contain a task id"))
    else if is_consumed env.id db
    then (db, none)
    else if task_exists id db
    then commit db (body id (event_time clock env.time) (consume env.id db))
    else (consume env.id db, some not_found)

-- WHERE id=$1 AND status NOT IN ('cancelled','abandoned','published','reconciled')
abbrev pub is_live_task : String → Task → Bool
is_live_task id t = str_eq t.id id && not (terminal_workflow_status t.status)

pub record WorkflowFailure : Type 0 where
  pub attempt : ℕ
  pub code : String
  pub message : String
  pub retryable : Bool
  pub control_state : String

-- SET status='failed', error_code, error_message, error_retryable, updated_at, version=version+1
abbrev pub fail_task : String → String → Bool → ℕ → Task → Task
fail_task code message retryable now t = record t {
  status = TaskStatus.failed;
  error_code = code;
  error_message = message;
  error_retryable = retryable;
  updated_at = now;
  version = t.version + 1;
}

-- SET status=$2, error_code='', error_message='', error_retryable=false, updated_at, version + 1
abbrev pub move_task : TaskStatus → ℕ → Task → Task
move_task status now t = record t {
  status = status;
  error_code = "";
  error_message = "";
  error_retryable = false;
  updated_at = now;
  version = t.version + 1;
}

-- COALESCE(started_at, now)
abbrev pub coalesce {ℓ} : {A : Type ℓ} → Option A → A → A
coalesce none b = b
coalesce (some a) b = a

-- The attempt of a step, 0 where it is missing.
abbrev pub attempt_or_zero : Option Step → ℕ
attempt_or_zero none = 0
attempt_or_zero (some s) = s.attempt
