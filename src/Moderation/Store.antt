-- ===== src/Moderation/Store.antt =====
-- internal/moderation/store.go: ApplyStarted, ApplyCompleted and ApplyFailed, each in the transaction
-- of `applyEvent`, which records the message as consumed.
use visoraft.Prelude.{
  ℕ, String, Bool, true, false, some, ◌&&◌, ◌||◌, not, str_eq, leb, ◌==◌, exists, update,
  if◌then◌else◌,
}
use visoraft.Database.{
  Db, Task, Step, ModerationRun, invalid, Result, ok, err, require, ◌>>◌, StepKind, StepStatus,
  ModerationStatus, is_step, is_processing, step_is_active, moderation_is_open,
}
use visoraft.Identity.{is_uuid}
use visoraft.Tasks.Envelope.{
  Envelope, task_id_from_subject, event_time, is_consumed, task_exists, consume, fail_task,
  insert_workflow_audit, coalesce,
}
use visoraft.Moderation.Model.{
  Started, ModerationResult, Failure, pass, manual_review, block, normalize_risk,
}

unfoldable pub validate_event_identity : Envelope → String → String → ℕ → Result (Unit {0})
validate_event_identity env id run_id attempt = do
  require (is_uuid id && is_uuid run_id)
      (invalid "moderation event contains an invalid task or run ID")
  require (str_eq (task_id_from_subject env.subject) id)
      (invalid "moderation event task does not match its subject")
  require (leb 1 attempt && leb attempt 100)
      (invalid "moderation event contains an invalid attempt")

-- WHERE id=$1 AND task_id=$2 AND attempt=… AND status IN ('queued','running')
abbrev pub is_open_run : String → String → ℕ → ModerationRun → Bool
is_open_run run_id id attempt r =
    str_eq r.id run_id
    && (str_eq r.task_id id && (r.attempt == attempt && moderation_is_open r.status))

-- The error of ensureRunExists where the run is missing, and `false` where it is there.
unfoldable pub ensure_run_exists : String → String → Db → Result (Db × Bool)
ensure_run_exists run_id id db = do
  require (exists (λ r. str_eq r.id run_id && str_eq r.task_id id) db.moderation_runs)
      (invalid "moderation run does not exist")
  ok (db, false)

-- The rows of a run that was open, or ensureRunExists where the UPDATE affected no row.
abbrev pub when_open : String → String → ℕ → Db → Db → Result (Db × Bool)
when_open run_id id attempt db after =
    if exists (is_open_run run_id id attempt) db.moderation_runs
    then ok (after, true)
    else ensure_run_exists run_id id db

unfoldable pub moderation_started : Started → Envelope → String → ℕ → Db → Result (Db × Bool)
unfolding ensure_run_exists
moderation_started e env id now db = when_open e.run_id id e.attempt db (
    insert_workflow_audit env id "moderation.started" now (record db {
      moderation_runs =
          update (is_open_run e.run_id id e.attempt)
            (λ r. record r {
              status = ModerationStatus.running;
              started_at = some (coalesce r.started_at now);
              updated_at = now;
            })
            db.moderation_runs;
      task_steps =
          update (λ s. is_step id StepKind.moderation s && step_is_active s.status)
            (λ s. record s {
              status = StepStatus.running;
              progress = 10;
              started_at = some (coalesce s.started_at now);
              updated_at = now;
              error_code = "";
              error_message = "";
            })
            db.task_steps;
    }))

-- SET status, decision, error_code, error_message, started_at=COALESCE(…), completed_at, updated_at
abbrev pub decide_run :
    ModerationStatus → String → String → String → ℕ → ModerationRun → ModerationRun
decide_run status decision code message now r = record r {
  status = status;
  decision = decision;
  error_code = code;
  error_message = message;
  started_at = some (coalesce r.started_at now);
  completed_at = some now;
  updated_at = now;
}

abbrev pub finish_step : StepStatus → String → String → ℕ → Step → Step
finish_step status code message now s = record s {
  status = status;
  progress = 100;
  started_at = some (coalesce s.started_at now);
  finished_at = some now;
  updated_at = now;
  error_code = code;
  error_message = message;
}

-- WHERE id=$1 AND status='processing'
abbrev pub is_processing_task : String → Task → Bool
is_processing_task id t = str_eq t.id id && is_processing t.status

unfoldable pub moderation_completed :
    ModerationResult → Envelope → String → ℕ → Db → Result (Db × Bool)
unfolding ensure_run_exists
moderation_completed r env id now db =
    let blocked = str_eq r.decision block in
    when_open r.run_id id r.attempt db (
      insert_workflow_audit env id "moderation.completed" now (record db {
        moderation_runs =
            update (is_open_run r.run_id id r.attempt)
              (decide_run (if blocked then ModerationStatus.rejected else ModerationStatus.passed)
                r.decision "" "" now)
              db.moderation_runs;
        task_steps =
            update (is_step id StepKind.moderation)
              (finish_step (if blocked then StepStatus.failed else StepStatus.succeeded)
                (if blocked then "content_moderation_blocked" else "")
                (if blocked then "内容审核判定为高风险，任务已停止" else "") now)
              db.task_steps;
        tasks =
            if blocked
            then update (is_processing_task id)
                (fail_task "content_moderation_blocked" "内容审核未通过，任务不会进入投稿流程" false now) db.tasks
            else db.tasks;
      }))

unfoldable pub moderation_failed : Failure → Envelope → String → ℕ → Db → Result (Db × Bool)
unfolding ensure_run_exists
moderation_failed f env id now db = when_open f.run_id id f.attempt db (
    insert_workflow_audit env id "moderation.failed" now (record db {
      moderation_runs =
          update (is_open_run f.run_id id f.attempt)
            (decide_run ModerationStatus.failed f.decision f.code f.message now) db.moderation_runs;
      task_steps =
          update (is_step id StepKind.moderation)
            (finish_step StepStatus.failed f.code f.message now) db.task_steps;
      tasks =
          if str_eq f.decision block
          then update (is_processing_task id) (fail_task f.code f.message f.retryable now) db.tasks
          else db.tasks;
    }))

pub data ModerationEvent : Type 0 where
  started_v1 : Started → ModerationEvent
  completed_v1 : ModerationResult → ModerationEvent
  failed_v1 : Failure → ModerationEvent

unfoldable pub valid_result : ModerationResult → Result (Unit {0})
valid_result r = do
  require (str_eq r.decision pass || (str_eq r.decision manual_review || str_eq r.decision block))
      (invalid "moderation result has invalid decision")
  require (str_eq (normalize_risk r.risk_level) r.risk_level)
      (invalid "moderation result has invalid risk level")

unfoldable pub valid_failure : Failure → Result (Unit {0})
valid_failure f = do
  require (str_eq f.decision manual_review || str_eq f.decision block)
      (invalid "moderation failure has invalid decision")
  require (not (str_eq f.code "" || str_eq f.message ""))
      (invalid "moderation failure code and message are required")

-- func(tx, taskID, now) (bool, error)
abbrev pub ModerationBody : Type 0
ModerationBody = String → ℕ → Db → Result (Db × Bool)

-- What `Apply…` hands to applyEvent, after its checks.
unfoldable pub moderation_body : Envelope → ModerationEvent → Result ModerationBody
moderation_body env (started_v1 e) = do
  validate_event_identity env e.task_id e.run_id e.attempt
  ok (moderation_started e env)
moderation_body env (completed_v1 r) = do
  validate_event_identity env r.task_id r.run_id r.attempt
  valid_result r
  ok (moderation_completed r env)
moderation_body env (failed_v1 f) = do
  validate_event_identity env f.task_id f.run_id f.attempt
  valid_failure f
  ok (moderation_failed f env)

-- What the caller sees: the tables, and whether the event was applied, or an error.
abbrev pub Applied : Type 0
Applied = Db × Result Bool

-- COMMIT, or ROLLBACK of a body that returned an error.
abbrev pub settle : Db → Result (Db × Bool) → Applied
settle before (ok (after, applied)) = (after, ok applied)
settle before (err e) = (before, err e)

-- `now` is the envelope's time, or the clock's where it has none.
unfoldable pub run_moderation_body : ℕ → Envelope → ModerationBody → Db → Applied
run_moderation_body clock env body db =
    let id = task_id_from_subject env.subject in
    if str_eq id ""
    then (db, err (invalid "event subject does not contain a task ID"))
    else if is_consumed env.id db
    then (db, ok false)
    else settle db (do
      require (task_exists id db) (invalid "moderation task does not exist")
      body id (event_time clock env.time) (consume env.id db))

abbrev pub run_checked_moderation : ℕ → Envelope → Result ModerationBody → Db → Applied
run_checked_moderation clock env (ok body) db = run_moderation_body clock env body db
run_checked_moderation clock env (err e) db = (db, err e)

unfoldable pub apply_moderation : ℕ → Envelope → ModerationEvent → Db → Applied
apply_moderation clock env event db =
    run_checked_moderation clock env (moderation_body env event) db
