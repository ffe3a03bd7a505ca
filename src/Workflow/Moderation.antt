-- ===== src/Workflow/Moderation.antt =====
-- The moderation events in internal/workflow/consumer.go: an event is applied, and the pipeline has its turn
-- where the event was applied and its decision lets the task go on.
use visoraft.Prelude.{
  ℕ, String, ◌≡◌, refl, sym, ap, ◌∙◌, subst, Bool, true, false, Option, none, some, not, str_eq,
  if◌then◌else◌,
}
use visoraft.Database.{Db, Task, Outcome, ok, err, task_of}
use visoraft.Tasks.Envelope.{Envelope, task_id_from_subject}
use visoraft.Moderation.Model.{ModerationResult, block, manual_review}
use visoraft.Moderation.Store.{ModerationEvent, Applied, apply_moderation}
use visoraft.Moderation.Frame.{apply_moderation-redelivered}
use visoraft.Moderation.Runs.{apply_moderation-completed, AfterResult}
use visoraft.Pipeline.{Checkpoint, advance}

-- The task whose pipeline has its turn after an event that was applied.
unfoldable pub moderation_turn : ModerationEvent → Option String
moderation_turn (ModerationEvent.started_v1 e) = none
moderation_turn (ModerationEvent.completed_v1 r) =
    if not (str_eq r.decision block) then some r.task_id else none
moderation_turn (ModerationEvent.failed_v1 f) =
    if str_eq f.decision manual_review then some f.task_id else none

abbrev pub after_moderation :
    (String → Db → Outcome) → (ℕ → String) → ℕ → Option String → Applied → Outcome
after_moderation reviews ids now (some id) (db, ok true) =
    advance reviews ids id Checkpoint.moderation_ready now db
after_moderation reviews ids now turn (db, ok applied) = (db, none)
after_moderation reviews ids now turn (db, err e) = (db, some e)

unfoldable pub handle_moderation :
    (String → Db → Outcome)
    → (clock : ℕ) (ids : ℕ → String) (env : Envelope) → ModerationEvent
    → Db
    → Outcome
unfolding moderation_turn
handle_moderation reviews clock ids env event db =
    after_moderation reviews ids clock (moderation_turn event) (apply_moderation clock env event db)

-- A moderation message that ended without an error in the store is delivered again: nothing changes, no
-- error is reported, and the pipeline does not get its turn, whatever became of its first one.
pub handle_moderation-redelivered :
    (reviews : String → Db → Outcome) (clock later : ℕ) (ids : ℕ → String) (env : Envelope)
    (event : ModerationEvent) (db after : Db) (applied : Bool)
    → apply_moderation clock env event db ≡ (after, ok applied)
    → handle_moderation reviews later ids env event after ≡ (after, none)
unfolding handle_moderation
handle_moderation-redelivered reviews clock later ids env event db after applied h =
    rw (apply_moderation-redelivered clock later env event db after applied h)
      (no_turn (moderation_turn event))
  where
    no_turn :
        (turn : Option String)
        → after_moderation reviews ids later turn (after, ok false) ≡ (after, none)
    no_turn none = refl
    no_turn (some id) = refl

-- A result with the decision to block that is applied has the effect of the store alone, whatever the review
-- would make of the task: no error, and no change of the tables after the store's. Its run is closed, and
-- the task has failed where it was in processing. What follows the store's commit changes nothing also where
-- others have put the tables into any state in between, such as a retry that has the task in processing.
pub handle_moderation-blocked :
    (reviews : String → Db → Outcome) (clock : ℕ) (ids : ℕ → String) (env : Envelope)
    (r : ModerationResult) (db between : Db) (t : Task)
    → task_of db (task_id_from_subject env.subject) ≡ some t
    → r.decision ≡ block
    → (apply_moderation clock env (ModerationEvent.completed_v1 r) db).1 ≡ ok true
    → (handle_moderation reviews clock ids env (ModerationEvent.completed_v1 r) db
        ≡ ((apply_moderation clock env (ModerationEvent.completed_v1 r) db).0, none))
      × AfterResult clock env r t
          (handle_moderation reviews clock ids env (ModerationEvent.completed_v1 r) db).0
      × (after_moderation reviews ids clock
            (moderation_turn (ModerationEvent.completed_v1 r))
            (between, (apply_moderation clock env (ModerationEvent.completed_v1 r) db).1)
          ≡ (between, none))
unfolding handle_moderation moderation_turn
handle_moderation-blocked reviews clock ids env r db between t read blocks applied = (
  no_turn,
  subst (AfterResult clock env r t) (sym (ap (λ (o : Outcome). o.0) no_turn))
      (apply_moderation-completed clock env r db t read applied),
  passed_over (between, (apply_moderation clock env (ModerationEvent.completed_v1 r) db).1) applied,
)
  where
    kept : (a : Applied) → a.1 ≡ ok true → after_moderation reviews ids clock none a ≡ (a.0, none)
    kept (after, ok b) h = refl
    kept (after, err e) h = cc

    blocked_turn : moderation_turn (ModerationEvent.completed_v1 r) ≡ none
    blocked_turn = rw blocks refl

    passed_over :
        (a : Applied)
        → a.1 ≡ ok true
        → after_moderation reviews ids clock (moderation_turn (ModerationEvent.completed_v1 r)) a
          ≡ (a.0, none)
    passed_over a done =
        ap (λ (turn : Option String). after_moderation reviews ids clock turn a) blocked_turn
        ∙ kept a done

    no_turn :
        handle_moderation reviews clock ids env (ModerationEvent.completed_v1 r) db
        ≡ ((apply_moderation clock env (ModerationEvent.completed_v1 r) db).0, none)
    no_turn = passed_over (apply_moderation clock env (ModerationEvent.completed_v1 r) db) applied
