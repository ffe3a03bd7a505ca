-- ===== src/Moderation/Bodies.antt =====
-- What the body of a moderation event may do to the tables: the rows of tasks in processing, the steps of
-- the event's task, and the runs that are open.
use visoraft.Prelude.{
  ℕ, String, ◌≡◌, refl, ap, ◌∙◌, Bool, true, false, Option, some, List, str_eq, if◌then◌else◌,
  arith, find, exists, update, find-update, map_row, set_where, Bool-cases, inl, inr,
}
use visoraft.Database.{
  Db, Task, ModerationRun, Ensures, committed, Ensures-require, Ensures-then, has_task_id,
  is_processing, moderation_is_open,
}
use visoraft.Tasks.Envelope.{Envelope, insert_workflow_audit}
use visoraft.Tasks.Events.Effect.{
  Effect, TasksEffect, TasksEffect-refl, StepsEffect-refl, guarded_update-TasksEffect,
  update-StepsEffect,
}
use visoraft.Moderation.Model.{Started, ModerationResult, Failure, block}
use visoraft.Moderation.Store.{
  is_open_run, ensure_run_exists, when_open, moderation_started, moderation_completed,
  moderation_failed, ModerationEvent, ModerationBody, moderation_body, is_processing_task,
}

abbrev pub has_run_id : String → ModerationRun → Bool
has_run_id run_id r = str_eq r.id run_id

-- A run that was decided before has kept its row.
pub record RunsKept (xs ys : List ModerationRun) : Type 0 where
  pub decided :
      (run_id : String) (r : ModerationRun)
      → find (has_run_id run_id) xs ≡ some r
      → moderation_is_open r.status ≡ false
      → find (has_run_id run_id) ys ≡ some r

-- A task that was not in processing has kept its row.
pub record IdleKept (xs ys : List Task) : Type 0 where
  pub idle :
      (id : String) (t : Task)
      → find (has_task_id id) xs ≡ some t
      → is_processing t.status ≡ false
      → find (has_task_id id) ys ≡ some t

pub record ModerationEffect (id : String) (before after : Db) : Type 0 where
  pub effect : Effect id before after
  pub runs : RunsKept before.moderation_runs after.moderation_runs
  pub tasks : IdleKept before.tasks after.tasks

-- An UPDATE passes over a row that its WHERE clause does not meet.
row_kept {ℓ} :
    {A : Type ℓ} (p : A → Bool) (f : A → A) (o : Option A) (x : A)
    → o ≡ some x
    → p x ≡ false
    → map_row (set_where p f) o ≡ some x
row_kept p f o x h closed = rw h (rw closed refl)

update-RunsKept :
    (run_id id : String) (attempt : ℕ) (f : ModerationRun → ModerationRun) (xs : List ModerationRun)
    → ((r : ModerationRun) → (f r).id ≡ r.id)
    → RunsKept xs (update (is_open_run run_id id attempt) f xs)
update-RunsKept run_id id attempt f xs keeps = record {
  decided = λ other r h closed.
      find-update (has_run_id other) (is_open_run run_id id attempt) f xs
        (λ r. ap (λ (i : String). str_eq i other) (keeps r))
      ∙ row_kept (is_open_run run_id id attempt) f (find (has_run_id other) xs) r h (ground arith);
}

pub RunsKept-refl : (xs : List ModerationRun) → RunsKept xs xs
RunsKept-refl xs = record { decided = λ run_id r h closed. h }

pub IdleKept-refl : (xs : List Task) → IdleKept xs xs
IdleKept-refl xs = record { idle = λ id t h closed. h }

update-IdleKept :
    (id : String) (f : Task → Task) (xs : List Task)
    → ((t : Task) → (f t).id ≡ t.id)
    → IdleKept xs (update (is_processing_task id) f xs)
update-IdleKept id f xs keeps = record {
  idle = λ other t h closed.
      find-update (has_task_id other) (is_processing_task id) f xs
        (λ t. ap (λ (i : String). str_eq i other) (keeps t))
      ∙ row_kept (is_processing_task id) f (find (has_task_id other) xs) t h (ground arith);
}

-- The result of a body: an event that is not applied leaves the tables as they were.
pub record BodyEffect (id : String) (before : Db) (after : Db × Bool) : Type 0 where
  pub changes : ModerationEffect id before after.0
  pub passed_over : after.1 ≡ false → after.0 ≡ before

unapplied : ¬ (true ≡ false)
unapplied h = cc

module _ (run_id id : String) (attempt : ℕ) (db after : Db) where
  when_open-BodyEffect :
      ModerationEffect id db after
      → Ensures (BodyEffect id db) (when_open run_id id attempt db after)
  unfolding ensure_run_exists
  when_open-BodyEffect changed =
      elim (Bool-cases (exists (is_open_run run_id id attempt) db.moderation_runs)) [
        | inl there ↦
            rw there
              (committed (record { changes = changed; passed_over = λ e. absurd (unapplied e) }))
        | inr closed ↦ rw closed (
            Ensures-require _ _ _ (λ found. committed (record {
              changes = record {
                effect = record {
                  tasks = TasksEffect-refl id db.tasks;
                  steps = StepsEffect-refl id db.task_steps;
                  consumed = refl;
                };
                runs = RunsKept-refl db.moderation_runs;
                tasks = IdleKept-refl db.tasks;
              };
              passed_over = λ e. refl;
            })))
      ]

module _ (id : String) (f : Task → Task) (xs : List Task)
    (keeps : (t : Task) → (f t).id ≡ t.id) where
  blocked-TasksEffect :
      (blocked : Bool)
      → TasksEffect id xs (if blocked then update (is_processing_task id) f xs else xs)
  blocked-TasksEffect true =
      guarded_update-TasksEffect id is_processing f xs (λ s e. ground arith) keeps
  blocked-TasksEffect false = TasksEffect-refl id xs

  blocked-IdleKept :
      (blocked : Bool) → IdleKept xs (if blocked then update (is_processing_task id) f xs else xs)
  blocked-IdleKept true = update-IdleKept id f xs keeps
  blocked-IdleKept false = IdleKept-refl xs

module _ (env : Envelope) (id : String) (now : ℕ) (db : Db) where
  moderation_started-BodyEffect :
      (e : Started) → Ensures (BodyEffect id db) (moderation_started e env id now db)
  unfolding moderation_started insert_workflow_audit
  moderation_started-BodyEffect e = when_open-BodyEffect e.run_id id e.attempt db _ (record {
    effect = record {
      tasks = TasksEffect-refl id db.tasks;
      steps = update-StepsEffect id _ _ db.task_steps (λ s e. rw e) (λ o k s. refl);
      consumed = refl;
    };
    runs = update-RunsKept e.run_id id e.attempt _ db.moderation_runs (λ r. refl);
    tasks = IdleKept-refl db.tasks;
  })

  moderation_completed-BodyEffect :
      (r : ModerationResult) → Ensures (BodyEffect id db) (moderation_completed r env id now db)
  unfolding moderation_completed insert_workflow_audit
  moderation_completed-BodyEffect r = when_open-BodyEffect r.run_id id r.attempt db _ (record {
    effect = record {
      tasks = blocked-TasksEffect id _ db.tasks (λ t. refl) (str_eq r.decision block);
      steps = update-StepsEffect id _ _ db.task_steps (λ s e. rw e) (λ o k s. refl);
      consumed = refl;
    };
    runs = update-RunsKept r.run_id id r.attempt _ db.moderation_runs (λ r. refl);
    tasks = blocked-IdleKept id _ db.tasks (λ t. refl) (str_eq r.decision block);
  })

  moderation_failed-BodyEffect :
      (f : Failure) → Ensures (BodyEffect id db) (moderation_failed f env id now db)
  unfolding moderation_failed insert_workflow_audit
  moderation_failed-BodyEffect f = when_open-BodyEffect f.run_id id f.attempt db _ (record {
    effect = record {
      tasks = blocked-TasksEffect id _ db.tasks (λ t. refl) (str_eq f.decision block);
      steps = update-StepsEffect id _ _ db.task_steps (λ s e. rw e) (λ o k s. refl);
      consumed = refl;
    };
    runs = update-RunsKept f.run_id id f.attempt _ db.moderation_runs (λ r. refl);
    tasks = blocked-IdleKept id _ db.tasks (λ t. refl) (str_eq f.decision block);
  })

pub record ModerationBodyKeeps (body : ModerationBody) : Type 0 where
  pub keeps : (id : String) (now : ℕ) (db : Db) → Ensures (BodyEffect id db) (body id now db)

pub moderation_body-BodyEffect :
    (env : Envelope) (event : ModerationEvent)
    → Ensures ModerationBodyKeeps (moderation_body env event)
unfolding moderation_body
moderation_body-BodyEffect env (ModerationEvent.started_v1 e) =
    Ensures-then _ _
      (committed (record { keeps = λ id now db. moderation_started-BodyEffect env id now db e }))
moderation_body-BodyEffect env (ModerationEvent.completed_v1 r) = Ensures-then _ _ (
    Ensures-then _ _
      (committed (record { keeps = λ id now db. moderation_completed-BodyEffect env id now db r })))
moderation_body-BodyEffect env (ModerationEvent.failed_v1 f) = Ensures-then _ _ (
    Ensures-then _ _
      (committed (record { keeps = λ id now db. moderation_failed-BodyEffect env id now db f })))
