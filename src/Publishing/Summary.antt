-- ===== src/Publishing/Summary.antt =====
-- `recomputePublishJob` of internal/publishing/worker_store.go: what the publications of a job say of
-- the job, of its task and of the task's step.
use visoraft.Prelude.{
  ℕ, ◌+◌, String, Bool, true, false, none, some, List, ◌∷◌, ◌&&◌, str_eq, ltb, ◌==◌, max, count,
  exists, update, if◌then◌else◌,
}
use visoraft.Database.{
  Db, Step, Publication, TaskStatus, StepKind, StepStatus, JobStatus, has_task_id, is_step,
  publication_is_published, publication_is_failed, publication_is_active,
  publication_is_reconciling,
}
use visoraft.Tasks.Envelope.{coalesce}

pub record Counts : Type 0 where
  pub total : ℕ
  pub published : ℕ
  pub failed : ℕ
  pub active : ℕ
  pub reconcile : ℕ

pub record Summary : Type 0 where
  pub job_status : JobStatus
  pub task_failed : Bool
  pub task_status : TaskStatus
  pub step_status : StepStatus
  pub step_progress : ℕ
  pub completed : Bool

unfoldable pub counts_of : String → List Publication → Counts
counts_of job_id ps = record {
  total = count (λ p. str_eq p.publish_job_id job_id) ps;
  published = count (λ p. str_eq p.publish_job_id job_id && publication_is_published p.status) ps;
  failed = count (λ p. str_eq p.publish_job_id job_id && publication_is_failed p.status) ps;
  active = count (λ p. str_eq p.publish_job_id job_id && publication_is_active p.status) ps;
  reconcile = count (λ p. str_eq p.publish_job_id job_id && publication_is_reconciling p.status) ps;
}

abbrev pub goes_on : JobStatus → ℕ → Summary
goes_on job_status progress = record {
  job_status = job_status;
  task_failed = false;
  task_status = TaskStatus.publishing;
  step_status = StepStatus.running;
  step_progress = progress;
  completed = false;
}

abbrev pub ends_failed : JobStatus → Summary
ends_failed job_status = record {
  job_status = job_status;
  task_failed = true;
  task_status = TaskStatus.failed;
  step_status = StepStatus.failed;
  step_progress = 100;
  completed = true;
}

-- The switch over the counts.
unfoldable pub summarize : Counts → Summary
summarize c =
    if ltb 0 c.total && c.published == c.total
    then record {
      job_status = JobStatus.published;
      task_failed = false;
      task_status = TaskStatus.published;
      step_status = StepStatus.succeeded;
      step_progress = 100;
      completed = true;
    }
    else if ltb 0 c.reconcile
    then goes_on JobStatus.reconciliation_required 80
    else if ltb 0 c.active
    then goes_on JobStatus.publishing (if ltb 0 c.published then 75 else 50)
    else if ltb 0 c.published && ltb 0 c.failed
    then ends_failed JobStatus.partial_success
    else if c.failed == c.total && ltb 0 c.total
    then ends_failed JobStatus.failed
    else goes_on JobStatus.publishing 50

-- INSERT INTO task_steps … ON CONFLICT (task_id, kind) DO UPDATE
unfoldable pub upsert_publish_step : String → Summary → ℕ → List Step → List Step
upsert_publish_step id s now steps =
    if exists (is_step id StepKind.publish) steps
    then update (is_step id StepKind.publish)
        (λ x. record x {
          status = s.step_status;
          attempt = max x.attempt 1;
          progress = s.step_progress;
          started_at = some (coalesce x.started_at now);
          finished_at = if s.completed then some now else none;
          updated_at = now;
          error_code = if s.task_failed then "platform_publish_failed" else "";
          error_message = if s.task_failed then "平台投稿失败，请查看独立平台结果" else "";
        })
        steps
    else record {
      task_id = id;
      kind = StepKind.publish;
      status = s.step_status;
      attempt = 1;
      progress = s.step_progress;
      detail = record { phase = ""; decision = none };
      error_code = "";
      error_message = "";
      started_at = some now;
      finished_at = if s.completed then some now else none;
      updated_at = now;
    }
      ∷ steps

unfoldable pub write_summary : String → String → Summary → ℕ → Db → Db
unfolding upsert_publish_step
write_summary job_id id s now db = record db {
  publish_jobs =
      update (λ j. str_eq j.id job_id)
        (λ j. record j {
          status = s.job_status;
          completed_at = if s.completed then some now else none;
          updated_at = now;
          version = j.version + 1;
        })
        db.publish_jobs;
  tasks =
      update (has_task_id id)
        (λ t. record t {
          status = s.task_status;
          error_code = if s.task_failed then "platform_publish_failed" else "";
          error_message = if s.task_failed then "至少一个平台投稿失败，请在投稿详情中处理" else "";
          error_retryable = s.task_failed;
          updated_at = now;
          version = t.version + 1;
        })
        db.tasks;
  task_steps = upsert_publish_step id s now db.task_steps;
}

unfoldable pub recompute_publish_job : String → String → ℕ → Db → Db
unfolding counts_of summarize write_summary
recompute_publish_job job_id id now db =
    write_summary job_id id (summarize (counts_of job_id db.platform_publications)) now db
