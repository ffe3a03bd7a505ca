-- ===== src/Moderation/Frame.antt =====
-- One moderation event, and any number of them: from the bodies to `apply_moderation`.
use visoraft.Prelude.{
  ℕ, String, ◌≡◌, refl, ap, subst, Bool, true, false, some, List, [], ◌∷◌, str_eq, str_eq_refl,
  find, exists, Bool-cases, inl, inr, ◌⊎◌,
}
use visoraft.Database.{
  Db, Task, ModerationRun, Result, ok, err, Ensures, committed, rolled_back, Ensures-require,
  is_processing, moderation_is_open, task_of, Error,
}
use visoraft.Tasks.Envelope.{Envelope, task_id_from_subject, is_consumed, consume}
use visoraft.Tasks.Events.Effect.{TasksEffect, StepsEffect, TasksEffect-refl, StepsEffect-refl}
use visoraft.Moderation.Store.{
  ModerationEvent, ModerationBody, moderation_body, Applied, settle, run_moderation_body,
  run_checked_moderation, apply_moderation,
}
use visoraft.Moderation.Bodies.{
  BodyEffect, RunsKept, RunsKept-refl, IdleKept, IdleKept-refl, ModerationBodyKeeps,
  moderation_body-BodyEffect, has_run_id,
}

-- An event that ends without an error leaves its message among the consumed ones; one that is refused
-- leaves all tables as they were.
pub record AppliedEffect (env : Envelope) (before : Db) (after : Applied) : Type 0 where
  pub tasks : TasksEffect (task_id_from_subject env.subject) before.tasks after.0.tasks
  pub steps : StepsEffect (task_id_from_subject env.subject) before.task_steps after.0.task_steps
  pub runs : RunsKept before.moderation_runs after.0.moderation_runs
  pub idle : IdleKept before.tasks after.0.tasks
  pub recorded :
      (applied : Bool)
      → after.1 ≡ ok applied
      → (str_eq (task_id_from_subject env.subject) "" ≡ false) × (is_consumed env.id after.0 ≡ true)
  pub refused : {e : Error} → after.1 ≡ err e → after.0 ≡ before
  pub passed_over : after.1 ≡ ok false → (after.0 ≡ before) ⊎ (after.0 ≡ consume env.id before)

unfailed : {e : Error} {b : Bool} → ¬ (err e ≡ ok b)
unfailed h = cc

unrefused : {e : Error} {b : Bool} → ¬ (ok b ≡ err e)
unrefused h = cc

applied_flag : Bool → Result Bool → Bool
applied_flag d (ok b) = b
applied_flag d (err e) = d

unchanged :
    (env : Envelope) (db : Db) (r : Result Bool)
    → ((applied : Bool)
        → r ≡ ok applied
        → (str_eq (task_id_from_subject env.subject) "" ≡ false) × (is_consumed env.id db ≡ true))
    → AppliedEffect env db (db, r)
unchanged env db r h = record {
  tasks = TasksEffect-refl _ db.tasks;
  steps = StepsEffect-refl _ db.task_steps;
  runs = RunsKept-refl db.moderation_runs;
  idle = IdleKept-refl db.tasks;
  recorded = h;
  refused = λ e. refl;
  passed_over = λ e. inl refl;
}

settle-AppliedEffect :
    (env : Envelope) (db : Db) {r : Result (Db × Bool)}
    → str_eq (task_id_from_subject env.subject) "" ≡ false
    → Ensures (BodyEffect (task_id_from_subject env.subject) (consume env.id db)) r
    → AppliedEffect env db (settle db r)
unfolding exists applied_flag
settle-AppliedEffect env db named (committed {a} e) = record {
  tasks = e.changes.effect.tasks;
  steps = e.changes.effect.steps;
  runs = e.changes.runs;
  idle = e.changes.tasks;
  recorded = λ b h. (named, rw e.changes.effect.consumed (rw (str_eq_refl env.id) refl));
  refused = λ h. absurd (unrefused h);
  passed_over = λ h. inr (e.passed_over (ap (applied_flag true) h));
}
settle-AppliedEffect env db named rolled_back = unchanged env db _ (λ b e. absurd (unfailed e))

run_moderation_body-AppliedEffect :
    (clock : ℕ) (env : Envelope) (body : ModerationBody) (db : Db)
    → ModerationBodyKeeps body
    → AppliedEffect env db (run_moderation_body clock env body db)
unfolding run_moderation_body
run_moderation_body-AppliedEffect clock env body db own =
    elim (Bool-cases (str_eq (task_id_from_subject env.subject) "")) [
      | inl anonymous ↦ rw anonymous (unchanged env db _ (λ b e. absurd (unfailed e)))
      | inr named ↦ rw named (elim (Bool-cases (is_consumed env.id db)) [
        | inl again ↦ rw again (unchanged env db _ (λ b e. (named, again)))
        | inr fresh ↦ rw fresh (
            settle-AppliedEffect env db named
              (Ensures-require _ _ _ (λ known. own.keeps _ _ (consume env.id db))))
      ])
    ]

run_checked_moderation-AppliedEffect :
    (clock : ℕ) (env : Envelope) {r : Result ModerationBody} (db : Db)
    → Ensures ModerationBodyKeeps r
    → AppliedEffect env db (run_checked_moderation clock env r db)
run_checked_moderation-AppliedEffect clock env db (committed {a} own) =
    run_moderation_body-AppliedEffect clock env a db own
run_checked_moderation-AppliedEffect clock env db rolled_back =
    unchanged env db _ (λ b e. absurd (unfailed e))

pub apply_moderation-AppliedEffect :
    (clock : ℕ) (env : Envelope) (event : ModerationEvent) (db : Db)
    → AppliedEffect env db (apply_moderation clock env event db)
unfolding apply_moderation
apply_moderation-AppliedEffect clock env event db =
    run_checked_moderation-AppliedEffect clock env db (moderation_body-BodyEffect env event)

-- A message of a moderation, as the consumer takes it from its queue.
pub record Notice : Type 0 where
  pub clock : ℕ
  pub envelope : Envelope
  pub event : ModerationEvent

pub apply_all : List Notice → Db → Db
apply_all [] db = db
apply_all (n ∷ ns) db = apply_all ns (apply_moderation n.clock n.envelope n.event db).0

-- Whatever moderation events arrive, however often and in whatever order: a run that has passed, was
-- rejected, has failed or was skipped keeps its whole row, the decision and its time included.
pub apply_all-decided_kept :
    (ns : List Notice) (db : Db) (run_id : String) (r : ModerationRun)
    → find (has_run_id run_id) db.moderation_runs ≡ some r
    → moderation_is_open r.status ≡ false
    → find (has_run_id run_id) (apply_all ns db).moderation_runs ≡ some r
unfolding apply_all
apply_all-decided_kept [] db run_id r h closed = h
apply_all-decided_kept (n ∷ ns) db run_id r h closed =
    apply_all-decided_kept ns (apply_moderation n.clock n.envelope n.event db).0 run_id r
      ((apply_moderation-AppliedEffect n.clock n.envelope n.event db).runs.decided run_id r h
        closed)
      closed

-- Whatever moderation events arrive: the row of a task that is not in processing stays as it is.
pub apply_all-idle_kept :
    (ns : List Notice) (db : Db) (id : String) (t : Task)
    → task_of db id ≡ some t
    → is_processing t.status ≡ false
    → task_of (apply_all ns db) id ≡ some t
unfolding apply_all
apply_all-idle_kept [] db id t h idle = h
apply_all-idle_kept (n ∷ ns) db id t h idle =
    apply_all-idle_kept ns (apply_moderation n.clock n.envelope n.event db).0 id t
      ((apply_moderation-AppliedEffect n.clock n.envelope n.event db).idle.idle id t h idle) idle

consumed_again :
    (clock : ℕ) (env : Envelope) (body : ModerationBody) (db : Db)
    → str_eq (task_id_from_subject env.subject) "" ≡ false
    → is_consumed env.id db ≡ true
    → run_moderation_body clock env body db ≡ (db, ok false)
unfolding run_moderation_body
consumed_again clock env body db named again = rw named (rw again refl)

again_checked :
    (clock later : ℕ) (env : Envelope) (r : Result ModerationBody) (db mid after : Db) (b : Bool)
    → run_checked_moderation clock env r db ≡ (mid, ok b)
    → str_eq (task_id_from_subject env.subject) "" ≡ false
    → is_consumed env.id after ≡ true
    → run_checked_moderation later env r after ≡ (after, ok false)
again_checked clock later env (ok body) db mid after b h named again =
    consumed_again later env body after named again
again_checked clock later env (err e) db mid after b h named again =
    absurd (unfailed (ap (λ (o : Applied). o.1) h))

-- A moderation event that ended without an error, delivered again at whatever time: it changes nothing
-- and is reported as not applied.
pub apply_moderation-redelivered :
    (clock later : ℕ) (env : Envelope) (event : ModerationEvent) (db after : Db) (b : Bool)
    → apply_moderation clock env event db ≡ (after, ok b)
    → apply_moderation later env event after ≡ (after, ok false)
unfolding apply_moderation
apply_moderation-redelivered clock later env event db after b h =
    again_checked clock later env (moderation_body env event) db after after b h recorded.0
      recorded.1
  where
    recorded :
        (str_eq (task_id_from_subject env.subject) "" ≡ false) × (is_consumed env.id after ≡ true)
    recorded =
        subst
          (λ (o : Applied).
            o.1 ≡ ok b
            → (str_eq (task_id_from_subject env.subject) "" ≡ false)
              × (is_consumed env.id o.0 ≡ true))
          h ((apply_moderation-AppliedEffect clock env event db).recorded b) refl
