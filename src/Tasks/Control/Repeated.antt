-- ===== src/Tasks/Control/Repeated.antt =====
-- A cancellation that is ordered again.
use visoraft.Prelude.{
  ℕ, String, ◌≡◌, refl, arith, Bool, true, false, some, ◌&&◌, not, str_eq, exists, Bool-cases, inl,
  inr, is_some, exists-update_all, exists-update_none, exists-update, update-none, update,
  find-update_self,
}
use visoraft.Database.{
  Db, Task, PublicationAttempt, ok, or_fail, require, ◌>>=◌, ◌>>◌, Ensures, committed,
  Ensures-require, Ensures-or_fail, Ensures-ok, has_task_id, task_of, is_cancelled,
  is_not_cancellable, publication_needs_resolution, publication_is_cancellable, job_is_cancellable,
  attempt_is_running,
}
use visoraft.Tasks.Control.{
  cancel, cancel_task, cancel_publication, cancel_publishing, cancel_rows, insert_user_audit,
  has_publication,
}

abbrev attempt_of : String → Db → PublicationAttempt → Bool
attempt_of id db a =
    exists (λ p. str_eq p.id a.publication_id && str_eq p.task_id id) db.platform_publications
    && attempt_is_running a.status

-- Nothing of a task's publishing is left to cancel.
pub record Quiet (id : String) (db : Db) : Type 0 where
  pub attempts : exists (attempt_of id db) db.publication_attempts ≡ false
  pub publications : has_publication id publication_is_cancellable db ≡ false
  pub jobs :
      exists (λ j. str_eq j.task_id id && job_is_cancellable j.status) db.publish_jobs ≡ false

cancel_publishing-kept :
    (id : String) (now : ℕ) (db : Db) → Quiet id db → cancel_publishing id now db ≡ db
unfolding cancel_publishing
cancel_publishing-kept id now db q = rw (update-none _ _ db.publication_attempts q.attempts) (
    rw (update-none _ _ db.platform_publications q.publications)
      (rw (update-none _ _ db.publish_jobs q.jobs) refl))

record Cancelled (id : String) (after : Db) : Type 0 where
  pub task : Task
  pub read : task_of after id ≡ some task
  pub present : is_some task.archived_at ≡ false
  pub cancelled : is_cancelled task.status ≡ true
  pub clear : has_publication id publication_needs_resolution after ≡ false
  pub quiet : Quiet id after

again : (id : String) (now : ℕ) (after : Db) → Cancelled id after → cancel id now after ≡ ok after
unfolding cancel or_fail require ◌>>=◌ ◌>>◌
again id now after c = rw c.read (
    rw c.present (
      rw (not_refused c.task c.cancelled)
        (rw c.clear (rw c.cancelled (rw (cancel_publishing-kept id now after c.quiet) refl)))))
  where
    not_refused : (t : Task) → is_cancelled t.status ≡ true → is_not_cancellable t.status ≡ false
    not_refused t h = ground arith

module _ (id : String) (now : ℕ) (db : Db) where
  owned_kept :
      (a : PublicationAttempt)
      → exists
          (λ p. str_eq p.id a.publication_id && str_eq p.task_id id)
          (update
            (λ p. str_eq p.task_id id && publication_is_cancellable p.status)
            (cancel_publication now)
            db.platform_publications)
        ≡ exists (λ p. str_eq p.id a.publication_id && str_eq p.task_id id) db.platform_publications
  owned_kept a =
      exists-update (λ p. str_eq p.id a.publication_id && str_eq p.task_id id)
        (λ p. str_eq p.task_id id && publication_is_cancellable p.status) (cancel_publication now)
        db.platform_publications (λ p. ground arith)

  cancel_publishing-Quiet : Quiet id (cancel_publishing id now db)
  unfolding cancel_publishing
  cancel_publishing-Quiet = record {
    attempts = exists-update_all _ _ _ db.publication_attempts (λ a.
        elim (Bool-cases (attempt_of id db a)) [
          | inl running ↦ rw running (ground arith)
          | inr other ↦ rw other (rw (owned_kept a) other)
        ]);
    publications = exists-update_all _ _ _ db.platform_publications (λ p. ground arith);
    jobs = exists-update_all _ _ _ db.publish_jobs (λ j. ground arith);
  }

  still_clear :
      not (has_publication id publication_needs_resolution db) ≡ true
      → has_publication id publication_needs_resolution (cancel_publishing id now db) ≡ false
  unfolding cancel_publishing
  still_clear clear =
      exists-update_none _ (λ p. str_eq p.task_id id && publication_needs_resolution p.status)
        (λ p. str_eq p.task_id id && publication_is_cancellable p.status) (cancel_publication now)
        db.platform_publications (ground arith) (λ p e. ground arith)

  cancel-Cancelled : Ensures (Cancelled id) (cancel id now db)
  unfolding cancel cancel_rows insert_user_audit
  cancel-Cancelled = Ensures-or_fail _ _ _ (λ t read. Ensures-require _ _ _ (λ present.
      Ensures-require _ _ _ (λ _. Ensures-require _ _ _ (λ clear.
        elim (Bool-cases (is_cancelled t.status)) [
          | inl already ↦ rw already (
              committed (record {
                task = t;
                read = read;
                present = ground arith;
                cancelled = already;
                clear = still_clear clear;
                quiet = cancel_publishing-Quiet;
              }))
          | inr not_yet ↦ rw not_yet (
              committed (record {
                task = cancel_task now t;
                read =
                    find-update_self (has_task_id id) (cancel_task now) db.tasks t (λ t. refl) read;
                present = ground arith;
                cancelled = refl;
                clear = still_clear clear;
                quiet = record {
                  attempts = cancel_publishing-Quiet.attempts;
                  publications = cancel_publishing-Quiet.publications;
                  jobs = cancel_publishing-Quiet.jobs;
                };
              }))
        ]))))

-- A cancellation that is ordered again, at whatever time, succeeds and changes nothing.
cancel-cancel :
    (id : String) (now later : ℕ) (db after : Db)
    → cancel id now db ≡ ok after
    → cancel id later after ≡ ok after
cancel-cancel id now later db after h =
    again id later after (Ensures-ok (cancel-Cancelled id now db) h)
