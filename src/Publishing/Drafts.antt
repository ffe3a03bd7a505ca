-- ===== src/Publishing/Drafts.antt =====
-- An operator edits the draft of a publication: UpdateDraft of internal/publishing/service.go and
-- UpdatePublicationDraft of internal/publishing/job_store.go. The function normalizeTags of
-- internal/publishing/service.go is, word for word, that of internal/reviews/service.go.
use visoraft.Prelude.{
  ℕ, ◌+◌, String, Bool, false, Option, none, some, List, [], ◌∷◌, ◌++◌, ◌&&◌, ◌||◌, not, str_eq,
  ltb, ◌==◌, is_some, exists, find, update, trim_space, rune_count, length, if◌then◌else◌,
}
use visoraft.Database.{
  Db, Publication, Account, Blocker, Category, PublishJob, Result, ok, not_found, conflict, invalid,
  require, or_fail, ◌>>◌, ◌>>=◌, Outcome, commit, PublicationStatus, JobStatus,
  publication_is_queueable, account_is_ready, job_is_editable, task_of,
}
use visoraft.Identity.{is_uuid}
use visoraft.Outbox.{filter}
use visoraft.Publishing.Policy.{SourceUrl, fixture_account_blocked}
use visoraft.Publishing.Jobs.{latest_job, is_on_platform}
use visoraft.Publishing.Recovery.{parse_platform, field_when, no_fields}
use visoraft.Reviews.Metadata.{normalize_tags}

pub record DraftInput : Type 0 where
  pub expected_version : ℕ
  pub account_id : String
  pub category_id : String
  pub title : String
  pub description : String
  pub tags : List String

unfoldable pub normalize_draft : DraftInput → DraftInput
unfolding normalize_tags
normalize_draft given = record {
  expected_version = given.expected_version;
  account_id = trim_space given.account_id;
  category_id = trim_space given.category_id;
  title = trim_space given.title;
  description = trim_space given.description;
  tags = normalize_tags given.tags;
}

-- The keys of the map `fields`, of an input that is normalized.
unfoldable pub draft_fields : String → DraftInput → List String
draft_fields platform input =
    field_when (not (is_some (parse_platform platform))) "platform"
    ++ (field_when (ltb input.expected_version 1) "expected_version"
        ++ (field_when (not (is_uuid input.account_id)) "account_id"
            ++ (field_when (str_eq input.category_id "") "category_id"
                ++ (field_when (str_eq input.title "" || ltb 80 (rune_count input.title)) "title"
                    ++ (field_when (ltb 2000 (rune_count input.description)) "description"
                        ++ field_when (ltb (length input.tags) 1 || ltb 10 (length input.tags))
                            "tags")))))

-- WHERE id=$1 AND platform=$2 AND archived_at IS NULL
abbrev pub is_account_of : String → String → Account → Bool
is_account_of id platform a =
    str_eq a.id id && (str_eq a.platform platform && not (is_some a.archived_at))

abbrev ready_mode : Option Account → Option String
ready_mode none = none
ready_mode (some a) = if account_is_ready a.status then some a.auth_mode else none

abbrev is_category : String → String → Category → Bool
is_category platform id c = str_eq c.platform platform && (str_eq c.category_id id && c.active)

-- The WHERE clause of the UPDATE.
abbrev pub is_draft_of : String → String → ℕ → Publication → Bool
is_draft_of job_id platform expected_version p =
    is_on_platform job_id platform p
    && (p.version == expected_version && publication_is_queueable p.status)

abbrev pub edit_row : DraftInput → ℕ → Publication → Publication
edit_row input now p = record p {
  account_id = input.account_id;
  category_id = input.category_id;
  title = input.title;
  description = input.description;
  tags = input.tags;
  status = PublicationStatus.draft;
  error_code = "";
  error_message = "";
  error_retryable = false;
  version = p.version + 1;
  updated_at = now;
}

-- A blocker that an edit of the platform's draft removes.
abbrev pub is_resolved : String → Blocker → Bool
is_resolved platform b =
    str_eq b.platform platform
    && (str_eq b.code "platform_account_missing"
        || (str_eq b.code "platform_account_not_ready"
            || (str_eq b.code "fixture_account_real_source_forbidden"
                || str_eq b.code "platform_category_missing")))

abbrev pub draft_status : List Blocker → JobStatus
draft_status [] = JobStatus.draft
draft_status (b ∷ bs) = JobStatus.blocked

abbrev pub edit_job : List Blocker → ℕ → PublishJob → PublishJob
edit_job remaining now j = record j {
  status = draft_status remaining;
  blockers = remaining;
  version = j.version + 1;
  updated_at = now;
}

unfoldable pub edit_draft : String → String → DraftInput → List Blocker → ℕ → Db → Db
unfolding filter
edit_draft job_id platform input blockers now db =
    let remaining = filter (λ b. not (is_resolved platform b)) blockers in
    record db {
      platform_publications =
          update (is_draft_of job_id platform input.expected_version) (edit_row input now)
            db.platform_publications;
      publish_jobs = update (λ j. str_eq j.id job_id) (edit_job remaining now) db.publish_jobs;
    }

unfoldable pub update_publication_draft :
    (String → Option SourceUrl) → String → String → DraftInput → ℕ → Db → Result Db
unfolding latest_job edit_draft
update_publication_draft parse_url id platform input now db = do
  j ← or_fail (latest_job id db.publish_jobs) not_found
  t ← or_fail (task_of db id) not_found
  require (job_is_editable j.status) (conflict "publication_draft_locked")
  auth_mode ←
      or_fail (ready_mode (find (is_account_of input.account_id platform) db.platform_accounts))
        (invalid "account_id")
  require (not (fixture_account_blocked parse_url auth_mode t.source_url)) (invalid "account_id")
  require (exists (is_category platform input.category_id) db.platform_categories)
      (invalid "category_id")
  require (exists (is_draft_of j.id platform input.expected_version) db.platform_publications)
      (conflict "version_conflict")
  ok (edit_draft j.id platform input j.blockers now db)

unfoldable pub update_draft :
    (String → Option SourceUrl) → String → String → DraftInput → ℕ → Db → Outcome
unfolding draft_fields normalize_draft update_publication_draft
update_draft parse_url id platform given now db = commit db (do
  require (is_uuid id) not_found
  require (no_fields (draft_fields platform (normalize_draft given)))
      (invalid "publishing input is invalid")
  name ← or_fail (parse_platform platform) (invalid "platform")
  update_publication_draft parse_url id name (normalize_draft given) now db)
