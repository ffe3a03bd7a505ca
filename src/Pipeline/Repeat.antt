-- ===== src/Pipeline/Repeat.antt =====
-- A checkpoint that is reported again, as a redelivered event does.
use visoraft.Prelude.{
  ℕ, String, ◌≡◌, refl, ap, ◌∙◌, arith, Bool, true, false, some, exists, find, Bool-cases,
  Option-cases, inl, inr, str_eq_refl,
}
use visoraft.Database.{
  Db, Task, Settings, StepKind, ok, or_fail, ◌>>=◌, Ensures, committed, rolled_back,
  Ensures-require, Ensures-or_fail, Ensures-bind, Ensures-ok, is_processing, is_step, has_task_id,
  task_of, step_of, kind_eq,
}
use visoraft.Tasks.Envelope.{enqueue_command}
use visoraft.Tasks.TranscodeStop.{insert_run}
use visoraft.Pipeline.{
  Checkpoint, Stage, Advance, chosen_stage, next_stage, terminal_stage, existing_chinese,
  prepare_stage, insert_moderation_run, insert_stage, enqueue_stage, advance_body,
}

-- What queueing a stage leaves as it is, and the step that it leaves behind.
record Enqueued (t : Task) (kind : StepKind) (db after : Db) : Type 0 where
  pub tasks : after.tasks ≡ db.tasks
  pub consumed : after.consumed_messages ≡ db.consumed_messages
  pub there : exists (is_step t.id kind) after.task_steps ≡ true
  pub subtitles :
      kind_eq kind StepKind.subtitles ≡ false
      → (id : String) → step_of after id StepKind.subtitles ≡ step_of db id StepKind.subtitles

record Prepared (db : Db) (stage : Stage) : Type 0 where
  pub tasks : stage.prepared.tasks ≡ db.tasks
  pub consumed : stage.prepared.consumed_messages ≡ db.consumed_messages
  pub steps : stage.prepared.task_steps ≡ db.task_steps

prepare_stage-Prepared :
    (ids : ℕ → String) (t : Task) (kind : StepKind) (s : Settings) (now : ℕ) (db : Db)
    → Ensures (Prepared db) (prepare_stage ids t kind s now db)
unfolding prepare_stage insert_moderation_run insert_run
prepare_stage-Prepared ids t StepKind.subtitles s now db =
    committed (record { tasks = refl; consumed = refl; steps = refl })
prepare_stage-Prepared ids t StepKind.moderation s now db =
    Ensures-require _ _ _ (λ _. committed (record { tasks = refl; consumed = refl; steps = refl }))
prepare_stage-Prepared ids t StepKind.transcode s now db =
    Ensures-or_fail _ _ _
      (λ _ _. committed (record { tasks = refl; consumed = refl; steps = refl }))
prepare_stage-Prepared ids t _ s now db = rolled_back

kind_eq_refl : (k : StepKind) → kind_eq k k ≡ true
kind_eq_refl k = ground arith

enqueue_stage-Enqueued :
    (ids : ℕ → String) (t : Task) (kind : StepKind) (s : Settings) (now : ℕ) (db : Db)
    → Ensures (Enqueued t kind db) (enqueue_stage ids t kind s now db)
unfolding enqueue_stage insert_stage enqueue_command exists find
enqueue_stage-Enqueued ids t kind s now db =
    elim (Bool-cases (exists (is_step t.id kind) db.task_steps)) [
      | inl there ↦ rw there (
          committed
            (record { tasks = refl; consumed = refl; there = there; subtitles = λ _ id. refl }))
      | inr new ↦ rw new (
          Ensures-bind _ (prepare_stage-Prepared ids t kind s now db) (λ stage kept.
            committed (record {
              tasks = kept.tasks;
              consumed = kept.consumed;
              there = rw (str_eq_refl t.id) (rw (kind_eq_refl kind) refl);
              subtitles = λ other id. ground (arith, other, kept.steps);
            })))
    ]

-- What follows the subtitles is not the subtitles.
after_subtitles :
    (s : Settings) (chinese : Bool) (k : StepKind)
    → chosen_stage s Checkpoint.subtitles_ready chinese ≡ some k
    → kind_eq k StepKind.subtitles ≡ false
unfolding chosen_stage next_stage terminal_stage
after_subtitles s chinese k h = ground arith

same_decision :
    (db after : Db) (id : String) (reached : Checkpoint) (s : Settings) (chinese : Bool) (t : Task)
    (kind : StepKind)
    → chosen_stage s reached chinese ≡ some kind
    → Enqueued t kind db after
    → existing_chinese after id reached ≡ existing_chinese db id reached
same_decision db after id Checkpoint.subtitles_ready s chinese t kind chosen e =
    rw (e.subtitles (after_subtitles s chinese kind chosen) id, existing_chinese) refl
same_decision db after id Checkpoint.media_ready s chinese t kind chosen e = refl
same_decision db after id Checkpoint.transcode_ready s chinese t kind chosen e = refl
same_decision db after id Checkpoint.moderation_ready s chinese t kind chosen e = refl

-- A stage that was queued is not queued again.
pub data Repeatable (db : Db) (ids : ℕ → String) (id : String) (reached : Checkpoint) (now : ℕ)
    : Advance → Type 0 where
  nothing : Repeatable db ids id reached now Advance.waits
  reviewed : Repeatable db ids id reached now Advance.evaluates
  settled :
      {after : Db}
      → advance_body ids id reached now after ≡ ok (Advance.queued after)
      → after.consumed_messages ≡ db.consumed_messages
      → Repeatable db ids id reached now (Advance.queued after)

module _ (ids later_ids : ℕ → String) (id : String) (reached : Checkpoint) (now later : ℕ)
    (db : Db) where
  again :
      (t : Task) (kind : StepKind) (after : Db)
      → task_of db id ≡ some t
      → is_processing t.status ≡ true
      → chosen_stage t.settings_snapshot reached (existing_chinese db id reached) ≡ some kind
      → Enqueued t kind db after
      → advance_body later_ids id reached later after ≡ ok (Advance.queued after)
  unfolding advance_body enqueue_stage or_fail ◌>>=◌
  again t kind after read live chosen e = rw (ap (find (has_task_id id)) e.tasks ∙ read) (
      rw live (
        rw
          (same_decision db after id reached t.settings_snapshot (existing_chinese db id reached) t
            kind chosen e)
          (rw chosen (rw e.there refl))))

  advance_body-Repeatable :
      Ensures (Repeatable db later_ids id reached later) (advance_body ids id reached now db)
  unfolding advance_body
  advance_body-Repeatable = Ensures-or_fail _ _ _ (λ t read.
      elim (Bool-cases (is_processing t.status)) [
        | inr stopped ↦ rw stopped (committed nothing)
        | inl live ↦
            rw live
              (elim (Option-cases
                (chosen_stage t.settings_snapshot reached (existing_chinese db id reached))) [
                  | inl last ↦ rw last (committed reviewed)
                  | inr (kind, chosen) ↦ rw chosen (
                      Ensures-bind _ (enqueue_stage-Enqueued ids t kind _ now db) (λ after e.
                        committed (settled (again t kind after read live chosen e) e.consumed)))
                ])
      ])

repeated :
    {db : Db} {ids : ℕ → String} {id : String} {reached : Checkpoint} {now : ℕ} {after : Db}
    → Repeatable db ids id reached now (Advance.queued after)
    → advance_body ids id reached now after ≡ ok (Advance.queued after)
repeated (settled again kept) = again

kept_consumed :
    {db : Db} {ids : ℕ → String} {id : String} {reached : Checkpoint} {now : ℕ} {after : Db}
    → Repeatable db ids id reached now (Advance.queued after)
    → after.consumed_messages ≡ db.consumed_messages
kept_consumed (settled again kept) = kept

-- Queueing a stage takes no message back from the consumed ones.
pub advance-keeps :
    (ids : ℕ → String) (id : String) (reached : Checkpoint) (now : ℕ) (db after : Db)
    → advance_body ids id reached now db ≡ ok (Advance.queued after)
    → after.consumed_messages ≡ db.consumed_messages
advance-keeps ids id reached now db after h =
    kept_consumed (Ensures-ok (advance_body-Repeatable ids ids id reached now now db) h)

-- A checkpoint whose stage was queued can be reported again, at whatever time and with whatever new ids:
-- the second report finds the step and leaves the database, its commands included, as it is.
pub advance-again :
    (ids later_ids : ℕ → String) (id : String) (reached : Checkpoint) (now later : ℕ)
    (db after : Db)
    → advance_body ids id reached now db ≡ ok (Advance.queued after)
    → advance_body later_ids id reached later after ≡ ok (Advance.queued after)
advance-again ids later_ids id reached now later db after h =
    repeated (Ensures-ok (advance_body-Repeatable ids later_ids id reached now later db) h)
