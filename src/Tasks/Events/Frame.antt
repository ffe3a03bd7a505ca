-- ===== src/Tasks/Events/Frame.antt =====
-- What one workflow event may do to the database: from the bodies to `apply_event`.
use visoraft.Prelude.{
  ℕ, String, ◌≡◌, refl, ◌⊎◌, Option, none, some, Bool-cases, inl, inr, str_eq, str_eq_refl, true,
  false, exists,
}
use visoraft.Database.{Db, Result, Ensures, committed, rolled_back, commit, Outcome, Error}
use visoraft.Tasks.Envelope.{
  Envelope, apply_workflow_event, task_id_from_subject, event_time, is_consumed, task_exists,
  consume,
}
use visoraft.Tasks.Events.{WorkflowEvent, Body, run_checked, apply_event}
use visoraft.Tasks.Events.Effect.{
  Effect, TasksEffect, StepsEffect, TasksEffect-refl, StepsEffect-refl,
}
use visoraft.Tasks.Events.Bodies.{BodyKeeps, event_body-Effect}

-- An event ends without an error only where its subject names a task and its message is among the
-- consumed ones.
pub record EventEffect (env : Envelope) (before : Db) (after : Outcome) : Type 0 where
  pub tasks : TasksEffect (task_id_from_subject env.subject) before.tasks after.0.tasks
  pub steps : StepsEffect (task_id_from_subject env.subject) before.task_steps after.0.task_steps
  pub recorded :
      after.1 ≡ none
      → (str_eq (task_id_from_subject env.subject) "" ≡ false) × (is_consumed env.id after.0 ≡ true)
  -- A message that is refused changes nothing, but for that of a task that does not exist, which is
  -- recorded as consumed.
  pub refused :
      {e : Error}
      → after.1 ≡ some e
      → (after.0 ≡ before)
        ⊎ ((task_exists (task_id_from_subject env.subject) before ≡ false)
            × (after.0 ≡ consume env.id before))

pub unfailed : {e : Error} → ¬ (some e ≡ none)
unfailed h = cc

unrefused : {e : Error} → ¬ (none ≡ some e)
unrefused h = cc

unchanged :
    (env : Envelope) (db : Db) (e : Option Error)
    → (e ≡ none
        → (str_eq (task_id_from_subject env.subject) "" ≡ false) × (is_consumed env.id db ≡ true))
    → EventEffect env db (db, e)
unchanged env db e h = record {
  tasks = TasksEffect-refl _ db.tasks;
  steps = StepsEffect-refl _ db.task_steps;
  recorded = h;
  refused = λ _. inl refl;
}

commit-EventEffect :
    (env : Envelope) (db : Db) {r : Result Db}
    → str_eq (task_id_from_subject env.subject) "" ≡ false
    → Ensures (Effect (task_id_from_subject env.subject) (consume env.id db)) r
    → EventEffect env db (commit db r)
unfolding exists
commit-EventEffect env db named (committed e) = record {
  tasks = e.tasks;
  steps = e.steps;
  recorded = λ _. (named, rw e.consumed (rw (str_eq_refl env.id) refl));
  refused = λ h. absurd (unrefused h);
}
commit-EventEffect env db named rolled_back = unchanged env db _ (λ e. absurd (unfailed e))

apply_workflow_event-EventEffect :
    (clock : ℕ) (env : Envelope) (body : Body) (db : Db)
    → BodyKeeps body
    → EventEffect env db (apply_workflow_event clock env body db)
unfolding apply_workflow_event
apply_workflow_event-EventEffect clock env body db own = elim (Bool-cases (str_eq id "")) [
  | inl anonymous ↦ rw anonymous (unchanged env db _ (λ e. absurd (unfailed e)))
  | inr named ↦ rw named (elim (Bool-cases (is_consumed env.id db)) [
    | inl again ↦ rw again (unchanged env db _ (λ _. (named, again)))
    | inr fresh ↦ rw fresh (elim (Bool-cases (task_exists id db)) [
      | inl known ↦ rw known (
          commit-EventEffect env db named
            (own.keeps id (event_time clock env.time) (consume env.id db)))
      | inr stale ↦ rw stale (record {
        tasks = TasksEffect-refl _ db.tasks;
        steps = StepsEffect-refl _ db.task_steps;
        recorded = λ e. absurd (unfailed e);
        refused = λ _. inr (stale, refl);
      })
    ])
  ])
]
  where
    id : String
    id = task_id_from_subject env.subject

run_checked-EventEffect :
    (clock : ℕ) (env : Envelope) {r : Result Body} (db : Db)
    → Ensures BodyKeeps r
    → EventEffect env db (run_checked clock env r db)
run_checked-EventEffect clock env db (committed {a} own) =
    apply_workflow_event-EventEffect clock env a db own
run_checked-EventEffect clock env db rolled_back = unchanged env db _ (λ e. absurd (unfailed e))

pub apply_event-EventEffect :
    (clock : ℕ) (ids : ℕ → String) (env : Envelope) (event : WorkflowEvent) (db : Db)
    → EventEffect env db (apply_event clock ids env event db)
unfolding apply_event
apply_event-EventEffect clock ids env event db =
    run_checked-EventEffect clock env db (event_body-Effect ids env event)
