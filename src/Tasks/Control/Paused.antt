-- ===== src/Tasks/Control/Paused.antt =====
-- A task that is paused and then resumed.
use visoraft.Prelude.{
  ℕ, ◌+◌, String, ◌≡◌, refl, arith, true, false, none, some, Bool-cases, inl, inr, ◌⊎◌, is_some,
  find-update_self,
}
use visoraft.Database.{
  Db, Task, ok, or_fail, require, ◌>>=◌, ◌>>◌, Ensures, committed, Ensures-require, Ensures-or_fail,
  Ensures-ok, has_task_id, task_of,
}
use visoraft.Tasks.Control.{
  pause, pause_task, pause_checkpoint, resume, resume_task, resume_rows, insert_user_audit,
}

-- The row of a task that a pause has met: paused before, or paused now.
record Paused (id : String) (now : ℕ) (db paused : Db) : Type 0 where
  pub task : Task
  pub read : task_of db id ≡ some task
  pub present : is_some task.archived_at ≡ false
  pub stands :
      ((is_some task.paused_at ≡ true) × (paused ≡ db))
      ⊎ (task_of paused id ≡ some (pause_task now (pause_checkpoint task db.task_steps) task))

pause-Paused : (id : String) (now : ℕ) (db : Db) → Ensures (Paused id now db) (pause id now db)
unfolding pause insert_user_audit
pause-Paused id now db = Ensures-or_fail _ _ _ (λ t read. Ensures-require _ _ _ (λ present.
    elim (Bool-cases (is_some t.paused_at)) [
      | inl already ↦ rw already (
          committed (record {
            task = t;
            read = read;
            present = ground arith;
            stands = inl (already, refl);
          }))
      | inr running ↦ rw running (
          Ensures-require _ _ _ (λ _. Ensures-require _ _ _ (λ _. committed (record {
            task = t;
            read = read;
            present = ground arith;
            stands = inr (
                find-update_self (has_task_id id)
                  (pause_task now (pause_checkpoint t db.task_steps)) db.tasks t (λ t. refl) read);
          }))))
    ]))

resume-paused :
    (id : String) (later : ℕ) (db : Db) (t : Task)
    → task_of db id ≡ some t
    → is_some t.archived_at ≡ false
    → is_some t.paused_at ≡ true
    → (resume id later db ≡ ok (resume_rows t id later db))
      × (task_of (resume_rows t id later db) id ≡ some (resume_task later t))
unfolding resume resume_rows insert_user_audit or_fail require ◌>>=◌ ◌>>◌
resume-paused id later db t read present paused = (
  rw read (rw present (rw paused refl)),
  find-update_self (has_task_id id) (resume_task later) db.tasks t (λ t. refl) read,
)

-- A pause that succeeds has found the task paused already and changed nothing, or the task can be
-- resumed at once, and then has the row it had, but for the two versions counted, the time of the
-- last change and the (empty) fields of the pause.
pub resume-pause :
    (id : String) (now later : ℕ) (db paused : Db)
    → pause id now db ≡ ok paused
    → ((t : Task) × (task_of db id ≡ some t) × (is_some t.paused_at ≡ true) × (paused ≡ db))
      ⊎ ((t : Task) × (after : Db) × (task_of db id ≡ some t)
          × (resume id later paused ≡ ok after)
          × (task_of after id
              ≡ some (record t {
                paused_at = none;
                paused_from_status = none;
                paused_step_kind = none;
                updated_at = later;
                version = t.version + 1 + 1;
              })))
resume-pause id now later db paused h = elim p.stands [
  | inl same ↦ inl (p.task, p.read, same.0, same.1)
  | inr row ↦ inr (p.task, _, p.read, (resumed row).0, (resumed row).1)
]
  where
    p : Paused id now db paused
    p = Ensures-ok (pause-Paused id now db) h

    q : Task
    q = pause_task now (pause_checkpoint p.task db.task_steps) p.task

    resumed :
        task_of paused id ≡ some q
        → (resume id later paused ≡ ok (resume_rows q id later paused))
          × (task_of (resume_rows q id later paused) id ≡ some (resume_task later q))
    resumed row = resume-paused id later paused q row p.present refl
