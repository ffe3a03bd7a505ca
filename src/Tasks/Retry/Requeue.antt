-- ===== src/Tasks/Retry/Requeue.antt =====
-- What a retry makes of a task that failed or was cancelled.
use visoraft.Prelude.{
  ℕ, ◌+◌, String, ◌≡◌, refl, ap, arith, Bool, true, false, none, some, List, ◌∷◌, ◌||◌, inl, inr,
  find-update_self, exists-update_all, exists, not, set_where, Bool-cases, ◌==◌, ◌&&◌,
}
use visoraft.Database.{
  Db, Task, Step, StepKind, OutboxMessage, OutboxStatus, ok, Ensures, committed, Ensures-require,
  Ensures-or_fail, Ensures-bind, Ensures-ok, has_task_id, task_of, step_is_queued, is_failed,
  is_cancelled,
}
use visoraft.Tasks.Envelope.{enqueue_command, move_task}
use visoraft.Tasks.TranscodeStop.{insert_run}
use visoraft.Tasks.Events.Final.{status_of, status_of_row}
use visoraft.Tasks.Control.{insert_user_audit}
use visoraft.Tasks.Retry.{
  RetryPlan, retry, retry_plan, retry_command, failed_step, prepare_run, run_id_of, requeue_step,
  is_reset, reset_step,
}

-- What `prepare_run` leaves as it is.
record Prepared (db after : Db) : Type 0 where
  pub tasks : after.tasks ≡ db.tasks
  pub outbox : after.outbox_messages ≡ db.outbox_messages

prepare_run-Prepared :
    (ids : ℕ → String) (kind : StepKind) (t : Task) (attempt now : ℕ) (db : Db)
    → Ensures (Prepared db) (prepare_run ids kind t attempt now db)
unfolding prepare_run insert_run
prepare_run-Prepared ids StepKind.transcode t attempt now db =
    Ensures-or_fail _ _ _ (λ _ _. committed (record { tasks = refl; outbox = refl }))
prepare_run-Prepared ids _ t attempt now db = committed (record { tasks = refl; outbox = refl })

-- The command that a retry sends.
abbrev pub retry_message : (ℕ → String) → RetryPlan → Task → Step → String → ℕ → OutboxMessage
retry_message ids plan t s id now = record {
  id = ids 1;
  aggregate_id = id;
  event_type = plan.event_type;
  payload = retry_command t (s.attempt + 1) (run_id_of ids s.kind);
  status = OutboxStatus.pending;
  attempts = 0;
  available_at = now;
  locked_at = none;
  published_at = none;
  last_error = "";
  created_at = now;
}

-- A step that waits for a worker at the attempt.
abbrev pub waits : ℕ → Step → Bool
waits attempt s = step_is_queued s.status && s.attempt == attempt

pub record Requeued (ids : ℕ → String) (id : String) (now : ℕ) (db after : Db) : Type 0 where
  pub task : Task
  pub step : Step
  pub plan : RetryPlan
  pub read : task_of db id ≡ some task
  pub stopped : is_failed task.status || is_cancelled task.status ≡ true
  pub chosen : failed_step id db.task_steps ≡ some step
  pub planned : retry_plan step.kind ≡ some plan
  pub sent : after.outbox_messages ≡ retry_message ids plan task step id now ∷ db.outbox_messages
  pub status : status_of after id ≡ some plan.next_status
  pub reset :
      exists
        (λ x. is_reset id plan.step_kinds_to_reset x && not (waits (step.attempt + 1) x))
        after.task_steps
      ≡ false

reset_waits :
    (id : String) (now attempt : ℕ) (kinds : List StepKind) (x : Step)
    → is_reset id kinds (set_where (is_reset id kinds) (reset_step attempt now) x)
        && not (waits attempt (set_where (is_reset id kinds) (reset_step attempt now) x))
      ≡ false
reset_waits id now attempt kinds x = elim (Bool-cases (is_reset id kinds x)) [
  | inl reset ↦ rw reset (ground arith)
  | inr other ↦ rw other (rw other refl)
]

retry-Requeued :
    (ids : ℕ → String) (id : String) (now : ℕ) (db : Db)
    → Ensures (Requeued ids id now db) (retry ids id now db)
unfolding retry requeue_step enqueue_command insert_user_audit
retry-Requeued ids id now db = Ensures-or_fail _ _ _ (λ t read. Ensures-require _ _ _ (λ _.
    Ensures-require _ _ _ (λ stopped. Ensures-or_fail _ _ _ (λ s chosen.
      Ensures-or_fail _ _ _ (λ plan planned.
        Ensures-bind _ (prepare_run-Prepared ids s.kind t (s.attempt + 1) now db) (λ prepared kept.
          committed (record {
            task = t;
            step = s;
            plan = plan;
            read = read;
            stopped = stopped;
            chosen = chosen;
            planned = planned;
            sent =
                ap (λ (m : List OutboxMessage). retry_message ids plan t s id now ∷ m) kept.outbox;
            status = rw kept.tasks (
                ap status_of_row (
                  find-update_self (has_task_id id) (move_task plan.next_status now) db.tasks t
                    (λ t. refl) read));
            reset =
                exists-update_all _ _ _ prepared.task_steps
                  (λ x. reset_waits id now (s.attempt + 1) plan.step_kinds_to_reset x);
          })))))))

-- A retry that succeeds was asked of a failed or cancelled task. It takes the task's stopped step that
-- changed last, sends one command more, for the stage of that step at the next attempt, puts the task
-- into the status that the command's worker expects, and leaves the steps of that stage queued at
-- the next attempt.
pub retry-requeues :
    (ids : ℕ → String) (id : String) (now : ℕ) (db after : Db)
    → retry ids id now db ≡ ok after
    → (t : Task) × (s : Step) × (plan : RetryPlan) × (task_of db id ≡ some t)
      × (is_failed t.status || is_cancelled t.status ≡ true)
      × (failed_step id db.task_steps ≡ some s)
      × (retry_plan s.kind ≡ some plan)
      × (after.outbox_messages ≡ retry_message ids plan t s id now ∷ db.outbox_messages)
      × (status_of after id ≡ some plan.next_status)
      × (exists
            (λ x. is_reset id plan.step_kinds_to_reset x && not (waits (s.attempt + 1) x))
            after.task_steps
          ≡ false)
retry-requeues ids id now db after h =
    (r.task, r.step, r.plan, r.read, r.stopped, r.chosen, r.planned, r.sent, r.status, r.reset)
  where
    r : Requeued ids id now db after
    r = Ensures-ok (retry-Requeued ids id now db) h
