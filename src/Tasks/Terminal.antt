-- ===== src/Tasks/Terminal.antt =====
-- Terminal tasks, other tasks and redelivered messages, under the workflow events of internal/tasks.
use visoraft.Prelude.{
  ℕ, String, ◌≡◌, refl, ap, ◌∙◌, exists, subst, true, false, none, some, List, [], ◌∷◌, str_eq, ◌⊎◌,
}
use visoraft.Database.{
  Db, StepKind, TaskStatus, terminal_workflow_status, Result, ok, err, Outcome, Error, task_of,
  step_of,
}
use visoraft.Tasks.Envelope.{
  Envelope, task_id_from_subject, apply_workflow_event, is_consumed, task_exists, consume,
}
use visoraft.Tasks.Events.{WorkflowEvent, Body, apply_event, event_body, run_checked}
use visoraft.Tasks.Events.Final.{StaysFinal, StaysFinal-refl, StaysFinal-trans, status_of}
use visoraft.Tasks.Events.Frame.{unfailed, EventEffect, apply_event-EventEffect}

pub record Delivery : Type 0 where
  pub clock : ℕ
  pub ids : ℕ → String
  pub envelope : Envelope
  pub event : WorkflowEvent

-- One message that the consumer takes from its queue.
abbrev pub deliver : Delivery → Db → Outcome
deliver d db = apply_event d.clock d.ids d.envelope d.event db

-- The messages that the consumer takes from its queue, one after the other.
pub deliver_all : List Delivery → Db → Db
deliver_all [] db = db
deliver_all (d ∷ ds) db = deliver_all ds (deliver d db).0

deliver-EventEffect : (d : Delivery) (db : Db) → EventEffect d.envelope db (deliver d db)
deliver-EventEffect d db = apply_event-EventEffect d.clock d.ids d.envelope d.event db

deliver_all-StaysFinal :
    (ds : List Delivery) (db : Db) → StaysFinal db.tasks (deliver_all ds db).tasks
unfolding deliver_all
deliver_all-StaysFinal [] db = StaysFinal-refl db.tasks
deliver_all-StaysFinal (d ∷ ds) db =
    StaysFinal-trans (deliver-EventEffect d db).tasks.final
      (deliver_all-StaysFinal ds (deliver d db).0)

-- However many workflow events of the twenty-two types of `WorkflowEvent` arrive, in whatever order and
-- for whatever tasks: a task that is cancelled, published, reconciled or abandoned keeps that status.
pub deliver_all-terminal_kept :
    (ds : List Delivery) (db : Db) (id : String) (s : TaskStatus)
    → status_of db id ≡ some s
    → terminal_workflow_status s ≡ true
    → status_of (deliver_all ds db) id ≡ some s
deliver_all-terminal_kept ds db id s h final = (deliver_all-StaysFinal ds db).at id s h final

-- A message whose subject names one task leaves the row and every step of every other task as they
-- were, whichever of the twenty-two types it has.
pub deliver-elsewhere :
    (d : Delivery) (db : Db) (other : String) (k : StepKind)
    → str_eq (task_id_from_subject d.envelope.subject) other ≡ false
    → (task_of (deliver d db).0 other ≡ task_of db other)
      × (step_of (deliver d db).0 other k ≡ step_of db other k)
deliver-elsewhere d db other k apart =
    (effect.tasks.elsewhere other apart, effect.steps.elsewhere other k apart)
  where
    effect : EventEffect d.envelope db (deliver d db)
    effect = deliver-EventEffect d db

-- A second frame around a message that is recorded as consumed.
consumed_again :
    (clock : ℕ) (env : Envelope) (body : Body) (db : Db)
    → str_eq (task_id_from_subject env.subject) "" ≡ false
    → is_consumed env.id db ≡ true
    → apply_workflow_event clock env body db ≡ (db, none)
unfolding apply_workflow_event
consumed_again clock env body db named again = rw named (rw again refl)

again_checked :
    (clock later : ℕ) (env : Envelope) (r : Result Body) (db mid after : Db)
    → run_checked clock env r db ≡ (mid, none)
    → str_eq (task_id_from_subject env.subject) "" ≡ false
    → is_consumed env.id after ≡ true
    → run_checked later env r after ≡ (after, none)
again_checked clock later env (ok body) db mid after h named again =
    consumed_again later env body after named again
again_checked clock later env (err e) db mid after h named again =
    absurd (unfailed (ap (λ (o : Outcome). o.1) h))

-- A message that was applied, delivered again to any later database that has not lost what was consumed.
pub deliver-consumed :
    (d : Delivery) (db mid after : Db) (later : ℕ)
    → deliver d db ≡ (mid, none)
    → after.consumed_messages ≡ mid.consumed_messages
    → deliver (record d { clock = later }) after ≡ (after, none)
unfolding apply_event
deliver-consumed d db mid after later h kept =
    again_checked d.clock later d.envelope (event_body d.ids d.envelope d.event) db mid after h
      recorded.0 (ap (exists (str_eq d.envelope.id)) kept ∙ recorded.1)
  where
    recorded :
        (str_eq (task_id_from_subject d.envelope.subject) "" ≡ false)
        × (is_consumed d.envelope.id mid ≡ true)
    recorded =
        subst
          (λ (o : Outcome).
            o.1 ≡ none
            → (str_eq (task_id_from_subject d.envelope.subject) "" ≡ false)
              × (is_consumed d.envelope.id o.0 ≡ true))
          h (deliver-EventEffect d db).recorded refl

-- A message that was applied without an error changes nothing when the broker delivers it again,
-- at whatever time: the second delivery ends without an error too.
pub deliver-redelivered :
    (d : Delivery) (db after : Db) (later : ℕ)
    → deliver d db ≡ (after, none)
    → deliver (record d { clock = later }) after ≡ (after, none)
deliver-redelivered d db after later h = deliver-consumed d db after after later h refl

-- A message that is refused leaves the database as it was, unless its subject names a task that does
-- not exist: then the message is recorded as consumed, and nothing else changes.
pub deliver-refused :
    (d : Delivery) (db after : Db) (e : Error)
    → deliver d db ≡ (after, some e)
    → (after ≡ db)
      ⊎ ((task_exists (task_id_from_subject d.envelope.subject) db ≡ false)
          × (after ≡ consume d.envelope.id db))
deliver-refused d db after e h =
    subst
      (λ (o : Outcome).
        o.1 ≡ some e
        → (o.0 ≡ db)
          ⊎ ((task_exists (task_id_from_subject d.envelope.subject) db ≡ false)
              × (o.0 ≡ consume d.envelope.id db)))
      h (deliver-EventEffect d db).refused refl
