-- ===== src/Publishing/Recovery.antt =====
-- An operator settles a publication whose outcome is open: ResolvePlatform and validateResolvePublicationInput of
-- internal/publishing/service.go, ResolvePlatformPublication of internal/publishing/job_store.go.
-- `parse_uri` is url.ParseRequestURI of the standard library, and `none` where it fails.
use visoraft.Prelude.{
  ℕ, ◌+◌, String, Bool, true, false, Option, none, some, List, [], ◌∷◌, ◌++◌, ◌&&◌, ◌||◌, not,
  str_eq, ltb, max, ◌==◌, is_some, find, update, trim_space, rune_count, lower_is, if◌then◌else◌,
}
use visoraft.Database.{
  Db, Publication, Result, ok, not_found, conflict, invalid, require, or_fail, ◌>>◌, ◌>>=◌, Outcome,
  commit, PublicationStatus, AttemptStatus, attempt_is_running, publication_is_reconciling,
}
use visoraft.Identity.{is_uuid}
use visoraft.Publishing.Summary.{recompute_publish_job}
use visoraft.Publishing.Jobs.{latest_job, is_on_platform}
use visoraft.Reviews.Evaluate.{insert_review_audit}

pub data Resolution : Type 0 where
  remote_published remote_not_created : Resolution

pub record ResolveInput : Type 0 where
  pub expected_version : ℕ
  pub resolution : String
  pub remote_submission_id : String
  pub remote_url : String
  pub note : String

-- The switch over a resolution that strings.ToLower and strings.TrimSpace have normalized.
unfoldable pub parse_resolution : String → Option Resolution
parse_resolution text =
    if lower_is "remote_published" (trim_space text)
    then some Resolution.remote_published
    else if lower_is "remote_not_created" (trim_space text)
    then some Resolution.remote_not_created
    else none

-- validPlatform, of the platform in lower case.
unfoldable pub parse_platform : String → Option String
parse_platform text =
    if lower_is "acfun" (trim_space text)
    then some "acfun"
    else if lower_is "bilibili" (trim_space text)
    then some "bilibili"
    else none

pub record RequestUri : Type 0 where
  pub scheme : String
  pub host : String

abbrev is_web_uri : Option RequestUri → Bool
is_web_uri none = false
is_web_uri (some uri) =
    (str_eq uri.scheme "http" || str_eq uri.scheme "https") && not (str_eq uri.host "")

abbrev pub field_when : Bool → String → List String
field_when wrong field = if wrong then field ∷ [] else []

abbrev pub bad_remote :
    (String → Option RequestUri) → ResolveInput → Option Resolution → List String
bad_remote parse_uri input none = []
bad_remote parse_uri input (some Resolution.remote_published) =
    field_when
      (str_eq input.remote_submission_id "" || ltb 200 (rune_count input.remote_submission_id))
      "remote_submission_id"
    ++ field_when
        (not (str_eq input.remote_url "") && not (is_web_uri (parse_uri input.remote_url)))
        "remote_url"
bad_remote parse_uri input (some Resolution.remote_not_created) =
    field_when (not (str_eq input.remote_submission_id "") || not (str_eq input.remote_url ""))
      "remote_submission_id"

-- The keys of the map `fields`.
unfoldable pub resolve_fields : (String → Option RequestUri) → ResolveInput → List String
unfolding parse_resolution
resolve_fields parse_uri input =
    field_when (ltb input.expected_version 1) "expected_version"
    ++ (field_when (not (is_some (parse_resolution input.resolution))) "resolution"
        ++ (field_when (ltb (rune_count input.note) 4 || ltb 500 (rune_count input.note)) "note"
            ++ bad_remote parse_uri input (parse_resolution input.resolution)))

abbrev pub no_fields : List String → Bool
no_fields [] = true
no_fields (field ∷ fields) = false

abbrev or_operator : String → String
or_operator version = if str_eq version "" then "operator-recovery-v1" else version

abbrev pub confirm_row : ResolveInput → ℕ → Publication → Publication
confirm_row input now p = record p {
  status = PublicationStatus.published;
  remote_submission_id = input.remote_submission_id;
  remote_url = input.remote_url;
  remote_status = "published_operator_confirmed";
  adapter_version = or_operator p.adapter_version;
  error_code = "";
  error_message = "";
  error_retryable = false;
  uncertain_since = none;
  locked_at = none;
  locked_by = "";
  scheduled_at = none;
  completed_at = some now;
  updated_at = now;
  version = p.version + 1;
}

abbrev pub requeue_row : ℕ → Publication → Publication
requeue_row now p = record p {
  status = PublicationStatus.queued;
  remote_submission_id = "";
  remote_url = "";
  remote_status = "";
  error_code = "";
  error_message = "";
  error_retryable = false;
  uncertain_since = none;
  locked_at = none;
  locked_by = "";
  scheduled_at = some now;
  completed_at = none;
  updated_at = now;
  version = p.version + 1;
}

abbrev pub resolve_row : Resolution → ResolveInput → ℕ → Publication → Publication
resolve_row Resolution.remote_published input now = confirm_row input now
resolve_row Resolution.remote_not_created input now = requeue_row now

abbrev resolution_event : Resolution → String
resolution_event Resolution.remote_published = "platform_publication.remote_published_confirmed.v1"
resolution_event Resolution.remote_not_created =
    "platform_publication.remote_not_created_confirmed.v1"

-- The rows that a resolution writes, before the job is summed up.
unfoldable pub resolve_rows :
    String → Resolution → ResolveInput → Publication → String → ℕ → Db → Db
unfolding insert_review_audit
resolve_rows attempt_id resolution input p id now db =
    insert_review_audit id (resolution_event resolution) now (record db {
      platform_publications =
          update (λ q. str_eq q.id p.id) (resolve_row resolution input now)
            db.platform_publications;
      publication_attempts =
          record {
            id = attempt_id;
            publication_id = p.id;
            attempt = max p.attempt 1;
            stage = "operator_resolution";
            status = AttemptStatus.succeeded;
            error_code = "";
            error_message = "";
            started_at = now;
            completed_at = some now;
          }
          ∷ update (λ a. str_eq a.publication_id p.id && attempt_is_running a.status)
              (λ a. record a {
                status = AttemptStatus.uncertain;
                error_code = "resolved_by_operator";
                error_message = "远端结果已由本地操作员核验";
                completed_at = some now;
              })
              db.publication_attempts;
    })

unfoldable pub resolve_platform_publication :
    String → String → String → Resolution → ResolveInput → ℕ → Db → Result Db
unfolding resolve_rows
resolve_platform_publication attempt_id id platform resolution input now db = do
  j ← or_fail (latest_job id db.publish_jobs) not_found
  p ← or_fail (find (is_on_platform j.id platform) db.platform_publications) not_found
  require (p.version == input.expected_version) (conflict "version_conflict")
  require (publication_is_reconciling p.status) (conflict "publication_recovery_not_required")
  require (not (is_some p.locked_at)) (conflict "publication_reconciliation_in_progress")
  ok (recompute_publish_job j.id id now (resolve_rows attempt_id resolution input p id now db))

abbrev pub trimmed : ResolveInput → ResolveInput
trimmed given = record given {
  remote_submission_id = trim_space given.remote_submission_id;
  remote_url = trim_space given.remote_url;
  note = trim_space given.note;
}

unfoldable pub resolve_body :
    (String → Option RequestUri) → String → String → String → ResolveInput → ℕ → Db → Result Db
unfolding parse_platform resolve_fields resolve_platform_publication
resolve_body parse_uri attempt_id id platform given now db = do
  require (is_uuid id) not_found
  name ← or_fail (parse_platform platform) (invalid "platform")
  require (no_fields (resolve_fields parse_uri (trimmed given)))
      (invalid "publishing input is invalid")
  resolution ← or_fail (parse_resolution given.resolution) (invalid "resolution")
  resolve_platform_publication attempt_id id name resolution (trimmed given) now db

unfoldable pub resolve_platform :
    (String → Option RequestUri) → String → String → String → ResolveInput → ℕ → Db → Outcome
unfolding resolve_body
resolve_platform parse_uri attempt_id id platform given now db =
    commit db (resolve_body parse_uri attempt_id id platform given now db)
