-- ===== src/Moderation/Runs.antt =====
-- What an event that decides a moderation run leaves behind: no open run of that attempt, and a task that
-- has failed where the content is blocked.
use visoraft.Prelude.{
  ℕ, String, ◌≡◌, refl, ap, ◌∙◌, Bool, true, false, List, some, ◌&&◌, str_eq, arith, find, exists,
  update, find-update, find_test, exists-update_all, Bool-cases, inl, inr, if◌then◌else◌,
}
use visoraft.Database.{
  Db, Task, ModerationRun, Result, ok, err, Ensures, committed, rolled_back, Ensures-require,
  Ensures-then, has_task_id, is_processing, moderation_is_open, ModerationStatus, task_of, Error,
}
use visoraft.Tasks.Envelope.{
  Envelope, task_id_from_subject, event_time, is_consumed, consume, fail_task,
  insert_workflow_audit,
}
use visoraft.Moderation.Model.{ModerationResult, Failure, block}
use visoraft.Moderation.Store.{
  is_open_run, is_processing_task, ensure_run_exists, when_open, moderation_completed, decide_run,
  moderation_failed, ModerationEvent, ModerationBody, moderation_body, Applied, settle,
  run_moderation_body, run_checked_moderation, apply_moderation,
}

-- What holds of the tables where an event was applied.
record Settles (Q : Db → Type 0) (a : Applied) : Type 0 where
  at : a.1 ≡ ok true → Q a.0

-- The same of the result of a body.
AppliedBody : (Db → Type 0) → Db × Bool → Type 0
AppliedBody Q p = p.1 ≡ true → Q p.0

unfailed : {e : Error} → ¬ (err e ≡ ok true)
unfailed h = cc

unapplied : ¬ (ok false ≡ ok true)
unapplied h = absurd (false_true (ap flag h))
  where
    flag : Result Bool → Bool
    flag (ok b) = b
    flag (err e) = true

    false_true : ¬ (false ≡ true)
    false_true e = cc

applied_flag : Result Bool → Bool
applied_flag (ok b) = b
applied_flag (err e) = true

module _ (Q : Db → Type 0) where
  settle-Settles :
      (db : Db) {r : Result (Db × Bool)} → Ensures (AppliedBody Q) r → Settles Q (settle db r)
  unfolding AppliedBody applied_flag
  settle-Settles db (committed {a} q) = record { at = λ h. q (ap applied_flag h) }
  settle-Settles db rolled_back = record { at = λ h. absurd (unfailed h) }

  run_moderation_body-Settles :
      (clock : ℕ) (env : Envelope) (body : ModerationBody) (db : Db)
      → Ensures
          (AppliedBody Q)
          (body (task_id_from_subject env.subject) (event_time clock env.time) (consume env.id db))
      → Settles Q (run_moderation_body clock env body db)
  unfolding run_moderation_body
  run_moderation_body-Settles clock env body db q =
      elim (Bool-cases (str_eq (task_id_from_subject env.subject) "")) [
        | inl anonymous ↦ rw anonymous (record { at = λ h. absurd (unfailed h) })
        | inr named ↦ rw named (elim (Bool-cases (is_consumed env.id db)) [
          | inl again ↦ rw again (record { at = λ h. absurd (unapplied h) })
          | inr fresh ↦ rw fresh (settle-Settles db (Ensures-require _ _ _ (λ known. q)))
        ])
      ]

  run_checked-Settles :
      (clock : ℕ) (env : Envelope) {r : Result ModerationBody} (db : Db)
      → Ensures
          (λ (body : ModerationBody). Ensures (AppliedBody Q) (
            body
              (task_id_from_subject env.subject)
              (event_time clock env.time)
              (consume env.id db)))
          r
      → Settles Q (run_checked_moderation clock env r db)
  run_checked-Settles clock env db (committed {a} q) = run_moderation_body-Settles clock env a db q
  run_checked-Settles clock env db rolled_back = record { at = λ h. absurd (unfailed h) }

  when_open-AppliedBody :
      (run_id id : String) (attempt : ℕ) (db after : Db)
      → Q after
      → Ensures (AppliedBody Q) (when_open run_id id attempt db after)
  unfolding AppliedBody ensure_run_exists
  when_open-AppliedBody run_id id attempt db after q =
      elim (Bool-cases (exists (is_open_run run_id id attempt) db.moderation_runs)) [
        | inl there ↦ rw there (committed (λ h. q))
        | inr closed ↦ rw closed (Ensures-require _ _ _ (λ found. committed (λ h. cc)))
      ]

-- The row of the task, as an event with this decision leaves it.
abbrev pub stopped_by : Bool → String → String → Bool → ℕ → Task → Task
stopped_by blocked code message retryable now t =
    if blocked && is_processing t.status then fail_task code message retryable now t else t

stopped_row :
    (blocked : Bool) (id code message : String) (retryable : Bool) (now : ℕ) (xs : List Task)
    (t : Task)
    → find (has_task_id id) xs ≡ some t
    → find (has_task_id id) (
        if blocked
        then update (is_processing_task id) (fail_task code message retryable now) xs
        else xs)
      ≡ some (stopped_by blocked code message retryable now t)
stopped_row false id code message retryable now xs t read = read
stopped_row true id code message retryable now xs t read =
    find-update (has_task_id id) (is_processing_task id) (fail_task code message retryable now) xs
      (λ t. refl)
    ∙ rw read (rw (find_test (has_task_id id) xs {x = t} read) set_some)
  where
    set_some :
        some (if true && is_processing t.status then fail_task code message retryable now t else t)
        ≡ some (stopped_by true code message retryable now t)
    set_some = refl

decided_closed :
    (run_id id : String) (attempt : ℕ) (status : ModerationStatus) (decision code message : String)
    (now : ℕ) (xs : List ModerationRun)
    → moderation_is_open status ≡ false
    → exists
        (is_open_run run_id id attempt)
        (update (is_open_run run_id id attempt) (decide_run status decision code message now) xs)
      ≡ false
decided_closed run_id id attempt status decision code message now xs closed =
    exists-update_all (is_open_run run_id id attempt) (is_open_run run_id id attempt)
      (decide_run status decision code message now) xs (λ r. ground (arith, closed))

-- The run of that attempt is no longer open, and the task's row is `row`.
pub record Decided (run_id id : String) (attempt : ℕ) (row : Task) (after : Db) : Type 0 where
  pub closed : exists (is_open_run run_id id attempt) after.moderation_runs ≡ false
  pub task : task_of after id ≡ some row

closed_status :
    (blocked : Bool)
    → moderation_is_open (if blocked then ModerationStatus.rejected else ModerationStatus.passed)
      ≡ false
closed_status true = refl
closed_status false = refl

abbrev pub AfterResult : ℕ → Envelope → ModerationResult → Task → Db → Type 0
AfterResult clock env r t = Decided r.run_id (task_id_from_subject env.subject) r.attempt (
    stopped_by (str_eq r.decision block) "content_moderation_blocked" "内容审核未通过，任务不会进入投稿流程" false
      (event_time clock env.time) t)

abbrev pub AfterFailure : ℕ → Envelope → Failure → Task → Db → Type 0
AfterFailure clock env f t = Decided f.run_id (task_id_from_subject env.subject) f.attempt (
    stopped_by (str_eq f.decision block) f.code f.message f.retryable (event_time clock env.time) t)

-- A result that is applied closes its run for good. The task fails with `content_moderation_blocked`
-- where the decision is to block and it is in processing, and its row stays as it was elsewhere.
pub apply_moderation-completed :
    (clock : ℕ) (env : Envelope) (r : ModerationResult) (db : Db) (t : Task)
    → task_of db (task_id_from_subject env.subject) ≡ some t
    → (apply_moderation clock env (ModerationEvent.completed_v1 r) db).1 ≡ ok true
    → AfterResult clock env r t (apply_moderation clock env (ModerationEvent.completed_v1 r) db).0
unfolding apply_moderation moderation_body moderation_completed insert_workflow_audit
apply_moderation-completed clock env r db t read =
    (run_checked-Settles (AfterResult clock env r t) clock env db (
      Ensures-then _ _ (
        Ensures-then _ _ (
          committed (
            when_open-AppliedBody (AfterResult clock env r t) r.run_id _ r.attempt _ _ (record {
              closed =
                  decided_closed r.run_id _ r.attempt _ _ _ _ _ db.moderation_runs
                    (closed_status (str_eq r.decision block));
              task = stopped_row (str_eq r.decision block) _ _ _ _ _ db.tasks t read;
            })))))).at

-- A failure that is applied closes its run too. The task fails with the failure's own code, message and
-- retryability where the settings say to block and it is in processing; elsewhere its row stays.
pub apply_moderation-failed :
    (clock : ℕ) (env : Envelope) (f : Failure) (db : Db) (t : Task)
    → task_of db (task_id_from_subject env.subject) ≡ some t
    → (apply_moderation clock env (ModerationEvent.failed_v1 f) db).1 ≡ ok true
    → AfterFailure clock env f t (apply_moderation clock env (ModerationEvent.failed_v1 f) db).0
unfolding apply_moderation moderation_body moderation_failed insert_workflow_audit
apply_moderation-failed clock env f db t read =
    (run_checked-Settles (AfterFailure clock env f t) clock env db (
      Ensures-then _ _ (
        Ensures-then _ _ (
          committed (
            when_open-AppliedBody (AfterFailure clock env f t) f.run_id _ f.attempt _ _ (record {
              closed = decided_closed f.run_id _ f.attempt _ _ _ _ _ db.moderation_runs refl;
              task = stopped_row (str_eq f.decision block) _ _ _ _ _ db.tasks t read;
            })))))).at
