-- ===== src/Tasks/Control/Cancelled.antt =====
-- What a cancelled task leaves behind.
use visoraft.Prelude.{
  ℕ, String, ◌≡◌, refl, arith, Bool, true, false, some, ◌&&◌, not, str_eq, exists, Bool-cases, inl,
  inr, ◌⊎◌, ap, exists-update_all, exists-update_none, find-update_self,
}
use visoraft.Database.{
  Db, TaskStatus, PublicationStatus, ok, Ensures, committed, Ensures-require, Ensures-or_fail,
  Ensures-ok, has_task_id, is_cancelled, publication_needs_resolution, job_is_cancellable,
  step_is_active,
}
use visoraft.Tasks.Events.Final.{status_of, status_of_row}
use visoraft.Tasks.Control.{
  cancel, cancel_task, cancel_publishing, cancel_rows, insert_user_audit, has_publication,
}

-- A publication that may still be, or may already have been, sent to its platform.
abbrev pub publication_is_open : PublicationStatus → Bool
publication_is_open PublicationStatus.failed = false
publication_is_open PublicationStatus.cancelled = false
publication_is_open _ = true

pub record Stopped (id : String) (db after : Db) : Type 0 where
  pub status : status_of after id ≡ some TaskStatus.cancelled
  pub publications : has_publication id publication_is_open after ≡ false
  pub jobs :
      exists (λ j. str_eq j.task_id id && job_is_cancellable j.status) after.publish_jobs ≡ false
  pub steps :
      (status_of db id ≡ some TaskStatus.cancelled)
      ⊎ (exists (λ s. str_eq s.task_id id && step_is_active s.status) after.task_steps ≡ false)

is_cancelled-eq : (s : TaskStatus) → is_cancelled s ≡ true → s ≡ TaskStatus.cancelled
is_cancelled-eq s h = ground arith

module _ (id : String) (now : ℕ) (db : Db) where
  publications_closed :
      has_publication id publication_needs_resolution db ≡ false
      → has_publication id publication_is_open (cancel_publishing id now db) ≡ false
  unfolding cancel_publishing
  publications_closed clear =
      exists-update_none _ _ _ _ db.platform_publications clear (λ p e. ground arith)

  jobs_closed :
      exists
        (λ j. str_eq j.task_id id && job_is_cancellable j.status)
        (cancel_publishing id now db).publish_jobs
      ≡ false
  unfolding cancel_publishing
  jobs_closed = exists-update_all _ _ _ db.publish_jobs (λ j. ground arith)

  no_resolution :
      not (has_publication id publication_needs_resolution db) ≡ true
      → has_publication id publication_is_open (cancel_publishing id now db) ≡ false
  no_resolution clear = publications_closed (ground arith)

  cancel-Stopped : Ensures (Stopped id db) (cancel id now db)
  unfolding cancel cancel_publishing cancel_rows insert_user_audit
  cancel-Stopped = Ensures-or_fail _ _ _ (λ t read. Ensures-require _ _ _ (λ _.
      Ensures-require _ _ _ (λ _. Ensures-require _ _ _ (λ clear.
        elim (Bool-cases (is_cancelled t.status)) [
          | inl already ↦ rw already (
              committed (record {
                status = rw read (ap some (is_cancelled-eq t.status already));
                publications = no_resolution clear;
                jobs = jobs_closed;
                steps = inl (rw read (ap some (is_cancelled-eq t.status already)));
              }))
          | inr not_yet ↦ rw not_yet (
              committed (record {
                status = ap status_of_row (
                    find-update_self (has_task_id id) (cancel_task now) db.tasks t (λ t. refl)
                      read);
                publications = no_resolution clear;
                jobs = jobs_closed;
                steps = inr (exists-update_all _ _ _ db.task_steps (λ s. ground arith));
              }))
        ]))))

-- A cancellation that succeeds leaves the task cancelled, none of its publications open (each has
-- failed or is cancelled), none of its publishing jobs open and, unless the task was cancelled already,
-- none of its steps queued or running.
pub cancel-stops :
    (id : String) (now : ℕ) (db after : Db)
    → cancel id now db ≡ ok after
    → (status_of after id ≡ some TaskStatus.cancelled)
      × (has_publication id publication_is_open after ≡ false)
      × (exists (λ j. str_eq j.task_id id && job_is_cancellable j.status) after.publish_jobs
          ≡ false)
      × ((status_of db id ≡ some TaskStatus.cancelled)
          ⊎ (exists (λ s. str_eq s.task_id id && step_is_active s.status) after.task_steps ≡ false))
cancel-stops id now db after h = (stopped.status, stopped.publications, stopped.jobs, stopped.steps)
  where
    stopped : Stopped id db after
    stopped = Ensures-ok (cancel-Stopped id now db) h
