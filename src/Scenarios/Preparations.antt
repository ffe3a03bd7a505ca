-- ===== src/Scenarios/Preparations.antt =====
-- Approved tasks that are prepared for publishing, on concrete databases.
use visoraft.Prelude.{
  String, ℕ, ◌≡◌, refl, true, false, none, some, [], ◌∷◌, exists, ◌⊎◌, Option, Bool, if◌then◌else◌,
  ◌==◌,
}
use visoraft.Database.{
  ok, Db, Task, Strategy, TaskStatus, ReviewStatus, ReviewMode, StepKind, StepStatus,
  PublicationStatus, JobStatus, PublishJob, Account, AccountStatus,
}
use visoraft.Publishing.Prepare.{Fingerprint, prepare_approved_task_tx}
use visoraft.Publishing.Prepared.{is_open_on, prepare-forgets}
use visoraft.Publishing.Gated.{is_queued_row, Quiet, StartsByItself, prepare-gated}
use visoraft.Publishing.Schedule.{Scheduled, next_schedule-daily}
use visoraft.Publishing.Templates.{next_schedule}
use visoraft.Reviews.Evaluate.{evaluate_body}
use visoraft.Reviews.Published.{prepared_publications, Automatic, evaluate_body-queues}
use visoraft.Scenarios.Rows.{
  step_in, empty_db, task_in, publication_in, done, source_of, plain_settings,
}

abbrev daily_strategy : Strategy
daily_strategy = record {
  id = "strategy";
  enabled = true;
  automation_mode = "automatic_after_review";
  target_platforms = "bilibili" ∷ [];
  account_bindings = ("bilibili", "account") ∷ [];
  category_bindings = ("bilibili", "17") ∷ [];
  title_templates = [];
  description_templates = [];
  default_tags = "games" ∷ [];
  repost_statement_version = "brief_v1";
  transcode_preset_id = none;
  require_content_moderation = false;
  schedule_mode = "immediate";
  schedule_time = none;
}

abbrev approved_task : Task
approved_task = record (task_in "a" TaskStatus.publishing) {
  review_status = ReviewStatus.approved;
  posting_strategy_id = some "strategy";
  settings_snapshot = record plain_settings { posting_strategy = some daily_strategy };
}

abbrev print_of : Fingerprint
print_of id version strategy media = "print"

abbrev id_of : ℕ → String
id_of k = if k == 0 then "job-2" else "publication-2"

abbrev earlier_job : PublishJob
earlier_job = record {
  id = "job";
  task_id = "a";
  status = JobStatus.publishing;
  strategy_id = some "strategy";
  auto_started = false;
  metadata_version = 1;
  fingerprint = "print";
  blockers = [];
  cover_asset_id = none;
  media_asset_id = some "asset";
  scheduled_at = none;
  created_at = 1;
  queued_at = some 2;
  completed_at = none;
  updated_at = 20;
  version = 2;
}

-- The outcome of its publication on Bilibili is open.
abbrev open_task_db : Db
open_task_db = record empty_db {
  tasks = approved_task ∷ [];
  media_assets = source_of "a" ∷ [];
  publish_jobs = earlier_job ∷ [];
  platform_publications = publication_in "p" PublicationStatus.reconciliation_required "" ∷ [];
}

abbrev prepared_db : Db
prepared_db = done (prepare_approved_task_tx (λ raw. none) print_of id_of false "a" 50 open_task_db)

was_open : exists (is_open_on "job" "bilibili") open_task_db.platform_publications ≡ true
unfolding exists
was_open = refl

prepare-forgets_example :
    exists (is_open_on "job" "bilibili") prepared_db.platform_publications ≡ false
unfolding visoraft.Prelude.find visoraft.Publishing.Blockers.load_strategy visoraft.Database.◌>>◌
    visoraft.Database.require visoraft.Publishing.Blockers.publish_media exists
    prepare_approved_task_tx visoraft.Database.◌>>=◌ visoraft.Database.or_fail
prepare-forgets_example =
    prepare-forgets (λ raw. none) print_of id_of false "a" "bilibili" "asset" 50 approved_task
      daily_strategy open_task_db prepared_db refl refl refl refl refl refl

prepare-gated_example :
    Quiet "p" open_task_db prepared_db ⊎ StartsByItself (λ raw. none) false "a" open_task_db
unfolding exists prepare_approved_task_tx visoraft.Database.◌>>=◌ visoraft.Database.or_fail
    visoraft.Prelude.find visoraft.Database.◌>>◌ visoraft.Database.require
prepare-gated_example =
    prepare-gated (λ raw. none) print_of id_of false "a" "p" 50 open_task_db prepared_db refl refl

-- A task that is published by itself: everything is there.
abbrev automatic_task : Task
automatic_task = record (task_in "a" TaskStatus.ready_to_publish) {
  review_status = ReviewStatus.approved;
  auto_publish = true;
  target_platforms = "acfun" ∷ [];
  posting_strategy_id = some "strategy";
  settings_snapshot = record plain_settings {
    auto_publish_after_review = true;
    posting_strategy = some (record daily_strategy {
      target_platforms = "acfun" ∷ [];
      account_bindings = ("acfun", "account") ∷ [];
      category_bindings = ("acfun", "17") ∷ [];
    });
  };
}

abbrev automatic_db : Db
automatic_db = record empty_db {
  tasks = automatic_task ∷ [];
  media_assets = source_of "a" ∷ [];
  platform_accounts =
      record {
        id = "account";
        platform = "acfun";
        auth_mode = "cookie";
        cookie_profile_id = some "profile";
        status = AccountStatus.ready;
        archived_at = none;
      }
      ∷ [];
}

automatic_start :
    exists
      (is_queued_row "publication-2")
      (done (
        prepare_approved_task_tx
          (λ raw. none)
          print_of
          id_of
          true
          "a"
          50
          automatic_db)).platform_publications
    ≡ true
unfolding exists prepare_approved_task_tx visoraft.Database.◌>>=◌ visoraft.Database.or_fail
    visoraft.Prelude.find visoraft.Database.◌>>◌ visoraft.Database.require
    visoraft.Publishing.Policy.fixture_account_blocked visoraft.Prelude.fold_is
    visoraft.Prelude.trim_space
automatic_start = refl

-- Its automatic review approves that task, and its publication is queued in the same transaction.
abbrev review_id : String
review_id = "0f8fad5b-d9cb-469f-a165-70867728950e"

abbrev reviewable_db : Db
reviewable_db = record automatic_db {
  tasks =
      record automatic_task {
        id = review_id;
        title = "a title";
        status = TaskStatus.processing;
        review_mode = ReviewMode.automatic;
        review_status = ReviewStatus.not_started;
      }
      ∷ [];
  task_steps =
      step_in review_id StepKind.transcode StepStatus.succeeded
      ∷ step_in review_id StepKind.subtitles StepStatus.succeeded
      ∷ [];
  media_assets = source_of review_id ∷ [];
}

abbrev evaluated_db : Db
evaluated_db = done (
    evaluate_body (prepared_publications (λ raw. none) print_of id_of) id_of review_id 5
      reviewable_db)

evaluate_body-queues_example :
    (exists (is_queued_row "publication-2") evaluated_db.platform_publications ≡ false)
    ⊎ Automatic (λ raw. none) id_of review_id 5 reviewable_db
unfolding exists evaluate_body visoraft.Database.◌>>◌ visoraft.Database.require
    visoraft.Identity.is_uuid visoraft.Prelude.len visoraft.Database.◌>>=◌ visoraft.Database.or_fail
    visoraft.Prelude.find visoraft.Prelude.count visoraft.Prelude.trim_space
    prepare_approved_task_tx visoraft.Prelude.update
evaluate_body-queues_example =
    evaluate_body-queues (λ raw. none) print_of id_of id_of review_id "publication-2" 5
      reviewable_db evaluated_db refl refl

evaluated_queued : exists (is_queued_row "publication-2") evaluated_db.platform_publications ≡ true
unfolding exists evaluate_body visoraft.Database.◌>>◌ visoraft.Database.require
    visoraft.Identity.is_uuid visoraft.Prelude.len visoraft.Database.◌>>=◌ visoraft.Database.or_fail
    visoraft.Prelude.find visoraft.Prelude.count visoraft.Prelude.trim_space
    prepare_approved_task_tx visoraft.Prelude.update
    visoraft.Publishing.Policy.fixture_account_blocked visoraft.Prelude.fold_is
evaluated_queued = refl

next_schedule-daily_example :
    (t : ℕ) × ((next_schedule "daily_time" (some "08:30") 50 ≡ some t) × Scheduled 8 30 50 t)
unfolding visoraft.Publishing.Templates.parse_clock
next_schedule-daily_example = next_schedule-daily "08:30" 8 30 50 refl
