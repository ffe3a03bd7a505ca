-- ===== src/Publishing/Revival.antt =====
-- What a retried publication and an enqueued job make of their task.
use visoraft.Prelude.{
  ℕ, String, ◌≡◌, refl, true, false, Option, none, some, ◌&&◌, str_eq, arith, exists, find-update,
  set_where, find-update_self, exists-update_all, inl, inr, Bool-cases,
}
use visoraft.Database.{
  Db, Task, PublishJob, Publication, Ensures, committed, Ensures-require, Ensures-or_fail,
  Ensures-ok, ok, has_task_id, task_of, is_publishable,
}
use visoraft.Publishing.Policy.{SourceUrl}
use visoraft.Publishing.Jobs.{
  latest_job, queue_job, enqueue_body, retry_platform_publication, reopen, is_retryable,
  publish_task, queue_publication,
}

pub record Revived (platform id : String) (now : ℕ) (db after : Db) : Type 0 where
  pub job : PublishJob
  pub task : Task
  pub newest : latest_job id db.publish_jobs ≡ some job
  pub read : task_of db id ≡ some task
  pub row : task_of after id ≡ some (publish_task now task)
  pub had_failed : exists (is_retryable job.id platform) db.platform_publications ≡ true
  pub cleared : exists (is_retryable job.id platform) after.platform_publications ≡ false

queued_again :
    (job_id platform : String) (now : ℕ) (p : Publication)
    → is_retryable job_id platform (
        set_where
          (is_retryable job_id platform)
          (λ q. record (queue_publication now q) { uncertain_since = none })
          p)
      ≡ false
queued_again job_id platform now p = elim (Bool-cases (is_retryable job_id platform p)) [
  | inl failed ↦ rw failed (ground arith)
  | inr other ↦ rw other other
]

retry-Revived :
    (parse_url : String → Option SourceUrl) (id platform : String) (now : ℕ) (db : Db)
    → Ensures (Revived platform id now db) (retry_platform_publication parse_url id platform now db)
unfolding retry_platform_publication reopen
retry-Revived parse_url id platform now db = Ensures-or_fail _ _ _ (λ j newest.
    Ensures-or_fail _ _ _ (λ t read. Ensures-or_fail _ _ _ (λ p _. Ensures-or_fail _ _ _ (λ mode _.
      Ensures-require _ _ _ (λ _. Ensures-require _ _ _ (λ had_failed. committed (record {
        job = j;
        task = t;
        newest = newest;
        read = read;
        row = find-update_self (has_task_id id) (publish_task now) db.tasks t (λ t. refl) read;
        had_failed = had_failed;
        cleared =
            exists-update_all (is_retryable j.id platform) (is_retryable j.id platform) _
              db.platform_publications (queued_again j.id platform now);
      })))))))

-- An enqueued job, by contrast, keeps the row of a task that is neither ready to publish nor publishing.
enqueue-keeps :
    (parse_url : String → Option SourceUrl) (id : String) (now : ℕ) (db : Db) (t : Task)
    → task_of db id ≡ some t
    → is_publishable t.status ≡ false
    → Ensures (λ after. task_of after id ≡ some t) (enqueue_body parse_url id now db)
unfolding enqueue_body queue_job
enqueue-keeps parse_url id now db t read terminal = Ensures-or_fail _ _ _ (λ j _.
    Ensures-or_fail _ _ _ (λ _ _. Ensures-require _ _ _ (λ _. Ensures-require _ _ _ (λ _.
      Ensures-require _ _ _ (λ _. Ensures-require _ _ _ (λ _. committed (
        rw
          (find-update (has_task_id id) (λ x. str_eq x.id id && is_publishable x.status)
            (publish_task now) db.tasks (λ x. refl))
          (rw read (rw terminal (ground arith))))))))))

-- A retry of a failed publication that succeeds puts the task into publishing, whatever status it had, and
-- leaves no publication of that platform in the task's newest job failed.
pub retry_platform_publication-revives :
    (parse_url : String → Option SourceUrl) (id platform : String) (now : ℕ) (db after : Db)
    → retry_platform_publication parse_url id platform now db ≡ ok after
    → Revived platform id now db after
retry_platform_publication-revives parse_url id platform now db after h =
    Ensures-ok (retry-Revived parse_url id platform now db) h
