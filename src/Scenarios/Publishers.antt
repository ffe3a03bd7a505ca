-- ===== src/Scenarios/Publishers.antt =====
-- A worker, its claims and an operator's retry on concrete databases.
use visoraft.Prelude.{
  String, ℕ, ◌≡◌, refl, true, false, none, some, [], ◌∷◌, exists, ◌⊎◌, inl, Option, str_eq, find,
  arith, ◌+◌,
}
use visoraft.Database.{
  ok, Db, Publication, PublishJob, AccountStatus, Account, TaskStatus, PublicationStatus, JobStatus,
  Error,
}
use visoraft.Publishing.Worker.{PublishResult}
use visoraft.Publishing.Picks.{LoadedPublication, claim_publications, is_claimable, claim_mode_of}
use visoraft.Publishing.Failures.{fail-reconcile_requeued}
use visoraft.Publishing.Jobs.{retry_platform_publication}
use visoraft.Publishing.Process.{
  Publisher, Platform, Upload, Reconciliation, Answer, process_one, attempt_one, platform_key,
}
use visoraft.Publishing.Unpublished.{is_published_row, Unpublished}
use visoraft.Publishing.Verified.{Verified, process_one-Verified}
use visoraft.Publishing.Revival.{Revived, retry_platform_publication-revives}
use visoraft.Publishing.Blockage.{claim_publications-blocked}
use visoraft.Publishing.Recovery.{ResolveInput, resolve_body, parse_platform, trimmed}
use visoraft.Publishing.Settled.{Resolved, resolve_body-resolves}
use visoraft.Publishing.Drafts.{DraftInput, update_publication_draft}
use visoraft.Publishing.Edited.{update_publication_draft-once}
use visoraft.Scenarios.Rows.{empty_db, task_in, publication_in, done, source_of}

abbrev cookie_account : Option ℕ → Account
cookie_account archived_at = record {
  id = "account";
  platform = "bilibili";
  auth_mode = "cookie";
  cookie_profile_id = some "profile";
  status = AccountStatus.ready;
  archived_at = archived_at;
}

abbrev answered : PublishResult
answered = record {
  remote_submission_id = "BV1";
  remote_url = "https://example.org/BV1";
  remote_status = "submitted";
}

-- It reports one stage and then answers.
abbrev bilibili : Platform
bilibili = record {
  version = "1";
  publish = λ item.
      Upload.reports "submitting" (λ went_well. Upload.returns (Answer.answered answered false));
  reconcile = λ item. Reconciliation.unconfirmed;
}

abbrev publisher : Publisher
publisher = record {
  owner = "worker-1";
  parse_url = λ raw. none;
  platforms = λ key. some bilibili;
  has_cookies = λ id. true;
  makes_directory = true;
  restricts_directory = true;
  materializes = λ asset. true;
}

abbrev loaded : LoadedPublication
loaded = record {
  claim = record {
    publication = publication_in "p" PublicationStatus.preparing "worker-1";
    max_attempts = 3;
    retry_delay = 30000;
    reconcile = true;
    claim_mode = "publish";
  };
  account = cookie_account none;
  media = source_of "a";
  cover = none;
  source_url = "https://example.org/v";
}

abbrev preparing : Db
preparing = record empty_db {
  tasks = task_in "a" TaskStatus.publishing ∷ [];
  platform_publications = publication_in "p" PublicationStatus.preparing "worker-1" ∷ [];
}

process_one-Verified_example :
    Unpublished "p" (process_one publisher loaded "t" 50 preparing).0
    ⊎ ((platform : Platform) × (publisher.platforms (platform_key loaded) ≡ some platform
          × Verified publisher loaded 50 platform))
unfolding exists
process_one-Verified_example = process_one-Verified "p" publisher loaded "t" 50 preparing refl

-- Here the publication gets published.
published_run :
    exists
      (is_published_row "p")
      (process_one publisher loaded "t" 50 preparing).0.platform_publications
    ≡ true
unfolding exists process_one visoraft.Publishing.Policy.fixture_account_blocked
    visoraft.Prelude.fold_is visoraft.Prelude.trim_space
    visoraft.Publishing.Worker.set_publication_stage visoraft.Database.◌>>◌
    visoraft.Database.require visoraft.Publishing.Worker.begin_publication_attempt
    visoraft.Publishing.Policy.validate_publish_result visoraft.Prelude.lower_contains
    visoraft.Publishing.Results.complete_publication visoraft.Prelude.update
    visoraft.Publishing.Summary.recompute_publish_job
published_run = refl

abbrev queued_row : Publication
queued_row = record (publication_in "p" PublicationStatus.queued "") { locked_at = none }

-- Its account is archived.
abbrev stuck_db : Db
stuck_db = record empty_db {
  tasks = task_in "a" TaskStatus.publishing ∷ [];
  platform_publications = queued_row ∷ [];
  platform_accounts = cookie_account (some 3) ∷ [];
  media_assets = source_of "a" ∷ [];
}

claim_publications-blocked_example :
    (e : Error) × (claim_publications "worker-1" 4 (λ id. false) 50 stuck_db
      ≡ (([], some e), stuck_db))
unfolding exists visoraft.Publishing.Picks.picked_publications visoraft.Prelude.find
claim_publications-blocked_example =
    claim_publications-blocked "worker-1" "p" 4 (λ id. false) 50 stuck_db refl
      (record { row = queued_row; read = refl; lacks = inl refl })

abbrev cancelled_job : PublishJob
cancelled_job = record {
  id = "job";
  task_id = "a";
  status = JobStatus.cancelled;
  strategy_id = none;
  auto_started = false;
  metadata_version = 1;
  fingerprint = "f";
  blockers = [];
  cover_asset_id = none;
  media_asset_id = some "asset";
  scheduled_at = none;
  created_at = 1;
  queued_at = none;
  completed_at = some 20;
  updated_at = 20;
  version = 2;
}

-- The task is cancelled; one of its publications had failed before.
abbrev cancelled_db : Db
cancelled_db = record empty_db {
  tasks = task_in "a" TaskStatus.cancelled ∷ [];
  publish_jobs = cancelled_job ∷ [];
  platform_publications = publication_in "p" PublicationStatus.failed "" ∷ [];
  platform_accounts = cookie_account none ∷ [];
}

retry_platform_publication-revives_example :
    Revived "bilibili" "a" 50 cancelled_db
      (done (retry_platform_publication (λ raw. none) "a" "bilibili" 50 cancelled_db))
unfolding retry_platform_publication visoraft.Database.◌>>=◌ visoraft.Database.or_fail
    visoraft.Prelude.find visoraft.Database.◌>>◌ visoraft.Database.require
    visoraft.Publishing.Policy.fixture_account_blocked visoraft.Prelude.fold_is
    visoraft.Prelude.trim_space exists
retry_platform_publication-revives_example =
    retry_platform_publication-revives (λ raw. none) "a" "bilibili" 50 cancelled_db
      (done (retry_platform_publication (λ raw. none) "a" "bilibili" 50 cancelled_db)) refl

abbrev task_uuid : String
task_uuid = "0190f3a2-7c4e-7a10-8b3d-2f5e6c7d8e9f"

-- The outcome of the publication is open, and no worker holds it.
abbrev open_db : Db
open_db = record empty_db {
  tasks = task_in task_uuid TaskStatus.publishing ∷ [];
  publish_jobs =
      record cancelled_job { task_id = task_uuid; status = JobStatus.reconciliation_required } ∷ [];
  platform_publications =
      record (publication_in "p" PublicationStatus.reconciliation_required "") { locked_at = none }
      ∷ publication_in "q" PublicationStatus.uploading "worker-1"
      ∷ [];
}

abbrev found : ResolveInput
found = record {
  expected_version = 1;
  resolution = " Remote_Published";
  remote_submission_id = " BV1 ";
  remote_url = "";
  note = "seen on the platform";
}

resolve_body-resolves_example :
    (name : String) × ((parse_platform "Bilibili" ≡ some name)
      × Resolved task_uuid name
          (trimmed found)
          open_db
          (done (resolve_body (λ raw. none) "t" task_uuid "Bilibili" found 50 open_db)))
unfolding resolve_body visoraft.Database.◌>>◌ visoraft.Database.require visoraft.Identity.is_uuid
    visoraft.Prelude.len visoraft.Database.◌>>=◌ visoraft.Database.or_fail visoraft.Prelude.lower_is
    visoraft.Prelude.trim_space visoraft.Prelude.rune_count visoraft.Publishing.Jobs.latest_job
    visoraft.Prelude.find
resolve_body-resolves_example =
    resolve_body-resolves (λ raw. none) "t" task_uuid "Bilibili" found 50 open_db
      (done (resolve_body (λ raw. none) "t" task_uuid "Bilibili" found 50 open_db)) refl

-- A blocked job: its draft has no category.
abbrev draft_db : Db
draft_db = record empty_db {
  tasks = task_in task_uuid TaskStatus.ready_to_publish ∷ [];
  publish_jobs =
      record cancelled_job {
        task_id = task_uuid;
        status = JobStatus.blocked;
        blockers =
            record { code = "platform_category_missing"; platform = "bilibili"; message = "" } ∷ [];
      }
      ∷ [];
  platform_accounts = cookie_account none ∷ [];
  platform_categories = record { platform = "bilibili"; category_id = "17"; active = true } ∷ [];
  platform_publications = publication_in "p" PublicationStatus.blocked "" ∷ [];
}

abbrev draft_titled : String → DraftInput
draft_titled title = record {
  expected_version = 1;
  account_id = "account";
  category_id = "17";
  title = title;
  description = "";
  tags = "games" ∷ [];
}

update_publication_draft-once_example : ¬ (
    update_publication_draft
      (λ raw. none)
      task_uuid
      "bilibili"
      (draft_titled "two")
      60
      (done (
        update_publication_draft
          (λ raw. none)
          task_uuid
          "bilibili"
          (draft_titled "one")
          50
          draft_db))
    ≡ ok empty_db)
unfolding update_publication_draft visoraft.Database.◌>>=◌ visoraft.Database.or_fail
    visoraft.Prelude.find visoraft.Database.◌>>◌ visoraft.Database.require
    visoraft.Publishing.Policy.fixture_account_blocked visoraft.Prelude.fold_is
    visoraft.Prelude.trim_space exists
update_publication_draft-once_example =
    update_publication_draft-once (λ raw. none) task_uuid "bilibili" (draft_titled "one")
      (draft_titled "two") 50 60 draft_db
      (done (
        update_publication_draft (λ raw. none) task_uuid "bilibili" (draft_titled "one") 50
          draft_db))
      empty_db refl refl

-- The platform's connection is lost while the publication is reconciled.
abbrev reconciled : LoadedPublication
reconciled = record loaded {
  claim = record {
    publication = publication_in "p" PublicationStatus.reconciliation_required "worker-1";
    max_attempts = 3;
    retry_delay = 30000;
    reconcile = true;
    claim_mode = "reconcile";
  };
}

abbrev disconnected : Platform
disconnected = record bilibili {
  reconcile = λ item. Reconciliation.settled (Answer.failed_otherwise "connection reset");
}

abbrev reconciling : Db
reconciling = record preparing {
  platform_publications =
      publication_in "p" PublicationStatus.reconciliation_required "worker-1" ∷ [];
}

fail-reconcile_requeued_example :
    (requeued : Publication) × ((attempt_one publisher reconciled disconnected "t" 50 reconciling).1
      ≡ none)
    × (find
          (λ x. str_eq x.id "p")
          (attempt_one publisher reconciled disconnected "t" 50 reconciling).0.platform_publications
        ≡ some requeued)
    × (is_claimable 30050
          (attempt_one publisher reconciled disconnected "t" 50 reconciling).0
          requeued
        ≡ true)
    × (claim_mode_of requeued ≡ "publish")
unfolding find exists visoraft.Publishing.Policy.fixture_account_blocked visoraft.Prelude.fold_is
    visoraft.Prelude.trim_space
fail-reconcile_requeued_example =
    fail-reconcile_requeued publisher reconciled disconnected "t" "connection reset" 50 30050
      reconciling (publication_in "p" PublicationStatus.reconciliation_required "worker-1") refl
      refl refl refl refl refl refl (omega arith)
