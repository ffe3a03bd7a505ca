-- ===== src/Publishing/Jobs.antt =====
-- EnqueuePublishJob and RetryPlatformPublication of internal/publishing/job_store.go. `parse_url` is that of
-- the fixture's policy.
use visoraft.Prelude.{
  ℕ, ◌+◌, String, Bool, true, false, Option, none, some, List, [], ◌∷◌, ◌&&◌, ◌||◌, not, str_eq,
  ltb, exists, find, update, count, if◌then◌else◌,
}
use visoraft.Database.{
  Db, Task, Publication, PublishJob, Account, Blocker, Result, ok, not_found, conflict, require,
  or_fail, ◌>>◌, ◌>>=◌, Outcome, commit, TaskStatus, StepKind, StepStatus, PublicationStatus,
  JobStatus, has_task_id, task_of, is_step, publication_is_published, publication_is_failed,
  publication_is_queueable, job_is_blocked, job_is_queueable, is_publishable,
}
use visoraft.Publishing.Policy.{SourceUrl, is_fixture_source_url, fixture_account_blocked}

-- ORDER BY created_at DESC LIMIT 1
abbrev pub newest_job : PublishJob → Option PublishJob → PublishJob
newest_job j none = j
newest_job j (some other) = if ltb j.created_at other.created_at then other else j

unfoldable pub latest_job : String → List PublishJob → Option PublishJob
latest_job id [] = none
latest_job id (j ∷ js) =
    let rest = latest_job id js in if str_eq j.task_id id then some (newest_job j rest) else rest

-- JOIN platform_accounts account ON account.id=publication.account_id … account.auth_mode
abbrev pub auth_mode_of : List Account → Publication → Option String
auth_mode_of accounts p = elim (find (λ (a : Account). str_eq a.id p.account_id) accounts) [
  | none ↦ none
  | some a ↦ some a.auth_mode
]

abbrev is_fixture : Option String → Bool
is_fixture none = false
is_fixture (some auth_mode) = str_eq auth_mode "fixture"

abbrev pub is_of_job : String → Publication → Bool
is_of_job job_id p = str_eq p.publish_job_id job_id

-- SET status='queued', error_code='', error_message='', error_retryable=false, updated_at, version + 1
abbrev pub queue_publication : ℕ → Publication → Publication
queue_publication now p = record p {
  status = PublicationStatus.queued;
  error_code = "";
  error_message = "";
  error_retryable = false;
  updated_at = now;
  version = p.version + 1;
}

abbrev pub publish_task : ℕ → Task → Task
publish_task now t = record t {
  status = TaskStatus.publishing;
  updated_at = now;
  version = t.version + 1;
}

-- The four UPDATEs.
unfoldable pub queue_job : String → String → ℕ → Db → Db
queue_job job_id id now db = record db {
  platform_publications =
      update (λ p. is_of_job job_id p && publication_is_queueable p.status) (queue_publication now)
        db.platform_publications;
  publish_jobs =
      update (λ j. str_eq j.id job_id)
        (λ j. record j {
          status = JobStatus.queued;
          queued_at = some now;
          updated_at = now;
          version = j.version + 1;
        })
        db.publish_jobs;
  tasks = update (λ t. str_eq t.id id && is_publishable t.status) (publish_task now) db.tasks;
  task_steps =
      update (is_step id StepKind.publish)
        (λ s. record s {
          status = StepStatus.queued;
          progress = 0;
          error_code = "";
          error_message = "";
          finished_at = none;
          updated_at = now;
        })
        db.task_steps;
}

-- A publication that is not published and whose account is for local use.
abbrev pub is_bound_to_fixture : List Account → String → Publication → Bool
is_bound_to_fixture accounts job_id p =
    is_of_job job_id p
    && (not (publication_is_published p.status) && is_fixture (auth_mode_of accounts p))

abbrev has_blockers : List Blocker → Bool
has_blockers [] = false
has_blockers (blocker ∷ blockers) = true

unfoldable pub enqueue_body : (String → Option SourceUrl) → String → ℕ → Db → Result Db
unfolding latest_job queue_job
enqueue_body parse_url id now db = do
  j ← or_fail (latest_job id db.publish_jobs) not_found
  t ← or_fail (task_of db id) not_found
  require (not (has_blockers j.blockers || job_is_blocked j.status))
      (conflict "publish_job_blocked")
  require (job_is_queueable j.status) (conflict "publish_job_not_queueable")
  require
      (not (
        exists (is_bound_to_fixture db.platform_accounts j.id) db.platform_publications
        && not (is_fixture_source_url parse_url t.source_url)))
      (conflict "fixture_account_real_source_forbidden")
  require
      (ltb 0 (
        count (λ p. is_of_job j.id p && not (publication_is_published p.status))
          db.platform_publications))
      (conflict "platform_publication_missing")
  ok (queue_job j.id id now db)

unfoldable pub enqueue_publish_job : (String → Option SourceUrl) → String → ℕ → Db → Outcome
unfolding enqueue_body
enqueue_publish_job parse_url id now db = commit db (enqueue_body parse_url id now db)

abbrev pub is_on_platform : String → String → Publication → Bool
is_on_platform job_id platform p = is_of_job job_id p && str_eq p.platform platform

-- WHERE publish_job_id=$1 AND platform=$2 AND status='failed'
abbrev pub is_retryable : String → String → Publication → Bool
is_retryable job_id platform p = is_on_platform job_id platform p && publication_is_failed p.status

unfoldable pub reopen : String → String → String → ℕ → Db → Db
reopen job_id platform id now db = record db {
  platform_publications =
      update (is_retryable job_id platform)
        (λ p. record (queue_publication now p) { uncertain_since = none }) db.platform_publications;
  publish_jobs =
      update (λ j. str_eq j.id job_id)
        (λ j. record j {
          status = JobStatus.queued;
          completed_at = none;
          updated_at = now;
          version = j.version + 1;
        })
        db.publish_jobs;
  tasks = update (has_task_id id) (publish_task now) db.tasks;
}

unfoldable pub retry_platform_publication :
    (String → Option SourceUrl) → String → String → ℕ → Db → Result Db
unfolding latest_job reopen
retry_platform_publication parse_url id platform now db = do
  j ← or_fail (latest_job id db.publish_jobs) not_found
  t ← or_fail (task_of db id) not_found
  p ← or_fail (find (is_on_platform j.id platform) db.platform_publications) not_found
  auth_mode ← or_fail (auth_mode_of db.platform_accounts p) not_found
  require (not (fixture_account_blocked parse_url auth_mode t.source_url))
      (conflict "fixture_account_real_source_forbidden")
  require (exists (is_retryable j.id platform) db.platform_publications)
      (conflict "platform_publication_not_retryable")
  ok (reopen j.id platform id now db)
