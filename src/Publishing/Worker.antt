-- ===== src/Publishing/Worker.antt =====
-- The claims that a publisher holds, and how far it has come: SetPublicationStage and
-- BeginPublicationAttempt of internal/publishing/worker_store.go. The summaries of requests and responses
-- are JSON that no query reads, and are left out.
use visoraft.Prelude.{
  ℕ, ◌+◌, String, Bool, false, Option, none, some, ◌∷◌, ◌&&◌, not, str_eq, ◌==◌, exists, update,
  find, if◌then◌else◌,
}
use visoraft.Database.{
  Db, Publication, PublicationAttempt, Result, ok, conflict, require, ◌>>◌, StepKind, StepStatus,
  PublicationStatus, AttemptStatus, attempt_is_running, kind_eq, publication_is_cancelled,
}

-- A claim: the publication as it was read, its policy, and the mode. RetryDelay is in milliseconds.
pub record ClaimedPublication : Type 0 where
  pub publication : Publication
  pub max_attempts : ℕ
  pub retry_delay : ℕ
  pub reconcile : Bool
  pub claim_mode : String

pub record PublishResult : Type 0 where
  pub remote_submission_id : String
  pub remote_url : String
  pub remote_status : String

pub record AdapterError : Type 0 where
  pub code : String
  pub message : String
  pub retryable : Bool
  pub uncertain : Bool

-- WHERE id=$1 AND locked_by=$2
abbrev pub is_held : String → String → Publication → Bool
is_held id owner p = str_eq p.id id && str_eq p.locked_by owner

abbrev pub claim_lost : Bool → Db → Result Db
claim_lost held after = do require held (conflict "publication_claim_lost"); ok after

abbrev pub stage_progress : PublicationStatus → ℕ → ℕ
stage_progress PublicationStatus.uploading _ = 45
stage_progress PublicationStatus.submitting _ = 75
stage_progress _ progress = progress

-- attempt=(SELECT attempt FROM platform_publications WHERE id=$1)
abbrev attempt_is : Option Publication → ℕ → Bool
attempt_is none _ = false
attempt_is (some p) attempt = attempt == p.attempt

-- task_id=(SELECT task_id FROM platform_publications WHERE id=$1)
abbrev task_is : Option Publication → String → Bool
task_is none _ = false
task_is (some p) id = str_eq id p.task_id

unfoldable pub set_publication_stage :
    String → String → PublicationStatus → String → ℕ → Db → Result Db
set_publication_stage id owner status stage now db = do
  require
      (exists (λ p. is_held id owner p && not (publication_is_cancelled p.status))
        db.platform_publications)
      (conflict "publication_claim_lost")
  let read = find (λ p. str_eq p.id id) db.platform_publications
  ok (record db {
    platform_publications =
        update (λ p. is_held id owner p && not (publication_is_cancelled p.status))
          (λ p. record p { status = status; updated_at = now; version = p.version + 1 })
          db.platform_publications;
    publication_attempts =
        update
          (λ a.
            str_eq a.publication_id id
            && (attempt_is read a.attempt
                && (attempt_is_running a.status && not (str_eq a.stage "reconcile"))))
          (λ a. record a { stage = stage }) db.publication_attempts;
    task_steps =
        update (λ s. task_is read s.task_id && kind_eq s.kind StepKind.publish)
          (λ s. record s {
            status = StepStatus.running;
            progress = stage_progress status s.progress;
            updated_at = now;
          })
          db.task_steps;
  })

abbrev pub is_attempt : String → ℕ → String → PublicationAttempt → Bool
is_attempt id attempt stage a =
    str_eq a.publication_id id && (a.attempt == attempt && str_eq a.stage stage)

-- INSERT … ON CONFLICT (publication_id, attempt, stage) DO UPDATE
unfoldable pub begin_publication_attempt : String → ClaimedPublication → String → ℕ → Db → Db
begin_publication_attempt new_id c stage now db = record db {
  publication_attempts =
      if exists (is_attempt c.publication.id c.publication.attempt stage) db.publication_attempts
      then update (is_attempt c.publication.id c.publication.attempt stage)
          (λ a. record a {
            status = AttemptStatus.running;
            error_code = "";
            error_message = "";
            started_at = now;
            completed_at = none;
          })
          db.publication_attempts
      else record {
        id = new_id;
        publication_id = c.publication.id;
        attempt = c.publication.attempt;
        stage = stage;
        status = AttemptStatus.running;
        error_code = "";
        error_message = "";
        started_at = now;
        completed_at = none;
      }
        ∷ db.publication_attempts;
}
