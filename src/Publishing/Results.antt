-- ===== src/Publishing/Results.antt =====
-- How a claim ends: CompletePublication, MarkPublicationCompletionUncertain and FailPublication of
-- internal/publishing/worker_store.go.
use visoraft.Prelude.{
  ℕ, ◌+◌, String, true, false, Option, none, some, List, ◌&&◌, str_eq, trim_space, take_runes, ltb,
  exists, update, if◌then◌else◌,
}
use visoraft.Database.{
  Db, Publication, PublicationAttempt, Result, PublicationStatus, AttemptStatus,
}
use visoraft.Publishing.Summary.{recompute_publish_job}
use visoraft.Publishing.Worker.{
  ClaimedPublication, PublishResult, AdapterError, is_held, claim_lost,
}

-- UPDATE publication_attempts … WHERE id=$1
abbrev pub end_attempt :
    String → AttemptStatus → String → String → ℕ → List PublicationAttempt → List PublicationAttempt
end_attempt attempt_id status code message now attempts =
    update (λ a. str_eq a.id attempt_id)
      (λ a. record a {
        status = status;
        error_code = code;
        error_message = message;
        completed_at = some now;
      })
      attempts

abbrev pub complete_row : PublishResult → String → ℕ → Publication → Publication
complete_row r version now p = record p {
  status = PublicationStatus.published;
  remote_submission_id = r.remote_submission_id;
  remote_url = r.remote_url;
  remote_status = r.remote_status;
  adapter_version = version;
  error_code = "";
  error_message = "";
  error_retryable = false;
  uncertain_since = none;
  locked_at = none;
  locked_by = "";
  completed_at = some now;
  updated_at = now;
  version = p.version + 1;
}

unfoldable pub complete_publication :
    ClaimedPublication → String → String → PublishResult → String → ℕ → Db → Result Db
complete_publication c owner attempt_id r version now db =
    claim_lost (exists (is_held c.publication.id owner) db.platform_publications) (
      recompute_publish_job c.publication.publish_job_id c.publication.task_id now (record db {
        platform_publications =
            update (is_held c.publication.id owner) (complete_row r version now)
              db.platform_publications;
        publication_attempts =
            end_attempt attempt_id AttemptStatus.succeeded "" "" now db.publication_attempts;
      }))

abbrev pub recover_row : PublishResult → String → ℕ → Publication → Publication
recover_row r version now p = record p {
  status = PublicationStatus.reconciliation_required;
  remote_submission_id = r.remote_submission_id;
  remote_url = r.remote_url;
  remote_status = r.remote_status;
  adapter_version = version;
  error_code = "local_persistence_after_publish";
  error_message = "平台已返回投稿结果，但本地完成事务失败，正在自动对账";
  error_retryable = true;
  uncertain_since = some now;
  scheduled_at = some now;
  locked_at = none;
  locked_by = "";
  completed_at = none;
  updated_at = now;
  version = p.version + 1;
}

unfoldable pub mark_publication_completion_uncertain :
    ClaimedPublication → String → String → PublishResult → String → ℕ → Db → Result Db
mark_publication_completion_uncertain c owner attempt_id r version now db =
    claim_lost (exists (is_held c.publication.id owner) db.platform_publications) (
      recompute_publish_job c.publication.publish_job_id c.publication.task_id now (record db {
        platform_publications =
            update (is_held c.publication.id owner) (recover_row r version now)
              db.platform_publications;
        publication_attempts =
            end_attempt attempt_id AttemptStatus.uncertain "local_persistence_after_publish"
              "平台已返回投稿结果，但本地完成事务失败，正在自动对账" now db.publication_attempts;
      }))

unfoldable pub truncate_message : String → String
truncate_message value =
    if str_eq (trim_space value) "" then "平台投稿失败" else take_runes 1000 (trim_space value)

abbrev pub failure_code : AdapterError → String
failure_code e =
    if str_eq (trim_space e.code) "" then "platform_publish_failed" else trim_space e.code

-- What a failure makes of the publication.
pub record Verdict : Type 0 where
  pub next_status : PublicationStatus
  pub attempt_status : AttemptStatus
  pub next_scheduled_at : Option ℕ
  pub uncertain_since : Option ℕ

unfoldable pub judge_failure : ClaimedPublication → AdapterError → ℕ → Verdict
judge_failure c e now =
    if e.uncertain && c.reconcile
    then record {
      next_status = PublicationStatus.reconciliation_required;
      attempt_status = AttemptStatus.uncertain;
      next_scheduled_at = some (now + c.retry_delay);
      uncertain_since = some now;
    }
    else if e.retryable && ltb c.publication.attempt c.max_attempts
    then record {
      next_status = PublicationStatus.queued;
      attempt_status = AttemptStatus.failed;
      next_scheduled_at = some (now + c.retry_delay);
      uncertain_since = none;
    }
    else record {
      next_status = PublicationStatus.failed;
      attempt_status = AttemptStatus.failed;
      next_scheduled_at = none;
      uncertain_since = none;
    }

abbrev pub or_else {ℓ} : {A : Type ℓ} → Option A → Option A → Option A
or_else none b = b
or_else (some a) b = some a

abbrev pub fail_row : Verdict → AdapterError → ℕ → Publication → Publication
fail_row v e now p = record p {
  status = v.next_status;
  scheduled_at = or_else v.next_scheduled_at p.scheduled_at;
  error_code = failure_code e;
  error_message = truncate_message e.message;
  error_retryable = e.retryable;
  uncertain_since = v.uncertain_since;
  locked_at = none;
  locked_by = "";
  updated_at = now;
  version = p.version + 1;
}

unfoldable pub fail_rows : ClaimedPublication → String → String → AdapterError → ℕ → Db → Db
unfolding judge_failure truncate_message
fail_rows c owner attempt_id e now db =
    let v = judge_failure c e now in
    recompute_publish_job c.publication.publish_job_id c.publication.task_id now (record db {
      platform_publications =
          update (is_held c.publication.id owner) (fail_row v e now) db.platform_publications;
      publication_attempts =
          end_attempt attempt_id v.attempt_status (failure_code e) (truncate_message e.message) now
            db.publication_attempts;
    })

unfoldable pub fail_publication :
    ClaimedPublication → String → String → AdapterError → ℕ → Db → Result Db
unfolding fail_rows
fail_publication c owner attempt_id e now db =
    claim_lost (exists (is_held c.publication.id owner) db.platform_publications)
      (fail_rows c owner attempt_id e now db)
