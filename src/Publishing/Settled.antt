-- ===== src/Publishing/Settled.antt =====
-- What an operator's resolution leaves behind.
use visoraft.Prelude.{
  ℕ, String, subst, ◌≡◌, refl, Bool, true, false, Option, some, ◌&&◌, not, str_eq, arith, exists,
  find, set_where, find-update_ne, exists-update_all, inl, inr, Bool-cases, is_some, ◌==◌,
}
use visoraft.Database.{
  Db, Publication, PublicationAttempt, AttemptStatus, PublishJob, ok, Ensures, committed,
  Ensures-require, Ensures-or_fail, Ensures-ok, Ensures-self, publication_is_published,
  publication_is_queued, publication_is_reconciling, attempt_is_running,
}
use visoraft.Publishing.Summary.{recompute_publish_job, write_summary}
use visoraft.Publishing.Jobs.{latest_job, is_on_platform}
use visoraft.Publishing.Recovery.{
  Resolution, ResolveInput, RequestUri, parse_resolution, parse_platform, resolve_fields, no_fields,
  bad_remote, trimmed, resolve_row, resolve_rows, resolve_platform_publication, resolve_body,
}
use visoraft.Reviews.Evaluate.{insert_review_audit}

-- What a publication is after a resolution: published under the submission that was found, or queued without one.
abbrev pub has_outcome : Resolution → Publication → Bool
has_outcome Resolution.remote_published p =
    publication_is_published p.status && not (str_eq p.remote_submission_id "")
has_outcome Resolution.remote_not_created p =
    publication_is_queued p.status && str_eq p.remote_submission_id ""

Fits : Resolution → ResolveInput → Type 0
Fits Resolution.remote_published input = str_eq input.remote_submission_id "" ≡ false
Fits Resolution.remote_not_created input = Unit

remote-Fits :
    (parse_uri : String → Option RequestUri) (input : ResolveInput) (resolution : Resolution)
    → no_fields (bad_remote parse_uri input (some resolution)) ≡ true
    → Fits resolution input
unfolding Fits
remote-Fits parse_uri input Resolution.remote_published valid = ground (arith, valid)
remote-Fits parse_uri input Resolution.remote_not_created valid = tt

fields-Fits :
    (parse_uri : String → Option RequestUri) (input : ResolveInput) (resolution : Resolution)
    → parse_resolution input.resolution ≡ some resolution
    → no_fields (resolve_fields parse_uri input) ≡ true
    → Fits resolution input
unfolding resolve_fields
fields-Fits parse_uri input resolution parsed valid =
    remote-Fits parse_uri input resolution
      (subst (λ r. no_fields (bad_remote parse_uri input r) ≡ true) parsed (ground (arith, valid)))

row-outcome :
    (resolution : Resolution) (input : ResolveInput) (now : ℕ) (p : Publication)
    → Fits resolution input
    → has_outcome resolution (resolve_row resolution input now p) ≡ true
unfolding Fits
row-outcome Resolution.remote_published input now p h = rw h refl
row-outcome Resolution.remote_not_created input now p h = refl

abbrev pub is_open_attempt : String → PublicationAttempt → Bool
is_open_attempt id a = str_eq a.publication_id id && attempt_is_running a.status

abbrev pub is_other : String → String → Publication → Bool
is_other id other q = str_eq q.id other && not (str_eq q.id id)

-- The publication of that id is as the resolution says, and has no attempt under way; the others are as before.
pub record Settled (id : String) (resolution : Resolution) (db after : Db) : Type 0 where
  pub outcome :
      exists (λ q. str_eq q.id id && not (has_outcome resolution q)) after.platform_publications
      ≡ false
  pub ended : exists (is_open_attempt id) after.publication_attempts ≡ false
  pub others :
      (other : String)
      → find (is_other id other) after.platform_publications
        ≡ find (is_other id other) db.platform_publications

pub record Resolved (id platform : String) (input : ResolveInput) (db after : Db) : Type 0 where
  pub resolution : Resolution
  pub parsed : parse_resolution input.resolution ≡ some resolution
  pub job : PublishJob
  pub newest : latest_job id db.publish_jobs ≡ some job
  pub row : Publication
  pub read : find (is_on_platform job.id platform) db.platform_publications ≡ some row
  pub version : (row.version == input.expected_version) ≡ true
  pub waited : publication_is_reconciling row.status ≡ true
  pub free : not (is_some row.locked_at) ≡ true
  pub settled : Settled row.id resolution db after

settled_row :
    (id : String) (resolution : Resolution) (input : ResolveInput) (now : ℕ)
    → Fits resolution input
    → (p : Publication)
    → (str_eq (set_where (λ q. str_eq q.id id) (resolve_row resolution input now) p).id id
        && not (
            has_outcome resolution
              (set_where (λ q. str_eq q.id id) (resolve_row resolution input now) p)))
      ≡ false
settled_row id resolution input now fit p = elim (Bool-cases (str_eq p.id id)) [
  | inl same ↦ rw same (rw (row-outcome resolution input now p fit) (ground arith))
  | inr other ↦ rw other (rw other refl)
]

same_key :
    (resolution : Resolution) (input : ResolveInput) (now : ℕ) (p : Publication)
    → (resolve_row resolution input now p).id ≡ p.id
same_key Resolution.remote_published input now p = refl
same_key Resolution.remote_not_created input now p = refl

closed_attempt :
    (id : String) (now : ℕ) (a : PublicationAttempt)
    → is_open_attempt id (
        set_where
          (is_open_attempt id)
          (λ a. record a {
            status = AttemptStatus.uncertain;
            error_code = "resolved_by_operator";
            error_message = "远端结果已由本地操作员核验";
            completed_at = some now;
          })
          a)
      ≡ false
closed_attempt id now a = elim (Bool-cases (is_open_attempt id a)) [
  | inl running ↦ rw running (ground arith)
  | inr closed ↦ rw closed closed
]

module _ (attempt_id id : String) (resolution : Resolution) (input : ResolveInput) (now : ℕ) where
  rows-Settled :
      (row : Publication) (db : Db) (job_id : String)
      → Fits resolution input
      → Settled row.id resolution db (
          recompute_publish_job job_id id now
            (resolve_rows attempt_id resolution input row id now db))
  unfolding resolve_rows insert_review_audit recompute_publish_job write_summary exists
  rows-Settled row db job_id fit = record {
    outcome =
        exists-update_all (λ q. str_eq q.id row.id && not (has_outcome resolution q))
          (λ q. str_eq q.id row.id) (resolve_row resolution input now) db.platform_publications
          (settled_row row.id resolution input now fit);
    ended = ground (
      arith,
      exists-update_all (is_open_attempt row.id) (is_open_attempt row.id)
          (λ a. record a {
            status = AttemptStatus.uncertain;
            error_code = "resolved_by_operator";
            error_message = "远端结果已由本地操作员核验";
            completed_at = some now;
          })
          db.publication_attempts (closed_attempt row.id now),
    );
    others = λ other.
        find-update_ne (is_other row.id other) (λ q. str_eq q.id row.id)
          (resolve_row resolution input now) db.platform_publications
          (λ q. rw (same_key resolution input now q) refl) (λ q apart. ground (arith, apart));
  }

  resolve-Resolved :
      (platform : String) (db : Db)
      → parse_resolution input.resolution ≡ some resolution
      → Fits resolution input
      → Ensures
          (Resolved id platform input db)
          (resolve_platform_publication attempt_id id platform resolution input now db)
  unfolding resolve_platform_publication
  resolve-Resolved platform db parsed fit = Ensures-or_fail _ _ _ (λ j newest.
      Ensures-or_fail _ _ _ (λ row read. Ensures-require _ _ _ (λ version.
        Ensures-require _ _ _ (λ waited. Ensures-require _ _ _ (λ free. committed (record {
          resolution = resolution;
          parsed = parsed;
          job = j;
          newest = newest;
          row = row;
          read = read;
          version = version;
          waited = waited;
          free = free;
          settled = rows-Settled row db j.id fit;
        }))))))

-- A resolution that succeeds is one of the two that there are, and was made on a publication of the task's
-- newest job whose outcome was open, whose version the operator knew, and which no worker held. Afterwards
-- it is published under a submission that is named, or queued without one, it has no attempt under way, and
-- the other publications are as before.
pub resolve_body-resolves :
    (parse_uri : String → Option RequestUri) (attempt_id id platform : String)
    (given : ResolveInput) (now : ℕ) (db after : Db)
    → resolve_body parse_uri attempt_id id platform given now db ≡ ok after
    → (name : String) × ((parse_platform platform ≡ some name)
        × Resolved id name (trimmed given) db after)
unfolding resolve_body
resolve_body-resolves parse_uri attempt_id id platform given now db after h =
    Ensures-ok
      {P = λ after.
        (name : String) × ((parse_platform platform ≡ some name)
          × Resolved id name (trimmed given) db after)}
      (Ensures-require _ _ _ (λ _. Ensures-or_fail _ _ _ (λ name named.
        Ensures-require _ _ _ (λ valid. Ensures-or_fail _ _ _ (λ resolution parsed.
          Ensures-self _ (λ after done. (
            name,
            (
              named,
              Ensures-ok
                  (resolve-Resolved attempt_id id resolution (trimmed given) now name db parsed
                    (fields-Fits parse_uri (trimmed given) resolution parsed valid))
                  done,
            ),
          )))))))
      h
