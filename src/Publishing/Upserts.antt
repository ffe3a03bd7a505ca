-- ===== src/Publishing/Upserts.antt =====
-- What PrepareApprovedTaskTx of internal/publishing/job_store.go writes. New ids are those of the
-- argument `ids`: that of the job first, then those of the publications.
use visoraft.Prelude.{
  ℕ, ◌+◌, String, Bool, true, false, Option, none, some, List, [], ◌∷◌, ◌&&◌, ◌||◌, not, str_eq,
  exists, find, update, if◌then◌else◌,
}
use visoraft.Database.{
  Db, Task, Strategy, Blocker, PublishJob, Publication, Step, PublicationStatus, JobStatus,
  StepKind, StepStatus, is_step, is_ready_to_publish, job_is_settled, publication_is_published,
  step_is_succeeded,
}
use visoraft.Publishing.Jobs.{is_on_platform, publish_task}
use visoraft.Publishing.Templates.{Source, render_or, append_statement, merge_tags, next_schedule}
use visoraft.Publishing.Blockers.{binding, contains_text}

abbrev pub job_status_of : Bool → Bool → JobStatus
job_status_of ready starts =
    if ready then if starts then JobStatus.queued else JobStatus.draft else JobStatus.blocked

abbrev pub publication_status_of : Bool → Bool → PublicationStatus
publication_status_of ready starts =
    if ready
    then if starts then PublicationStatus.queued else PublicationStatus.draft
    else PublicationStatus.blocked

abbrev pub no_blockers : List Blocker → Bool
no_blockers [] = true
no_blockers (b ∷ bs) = false

-- What the transaction has read and computed before it writes.
pub record Preparation : Type 0 where
  pub task : Task
  pub metadata_version : ℕ
  pub strategy : Option Strategy
  pub cover : Option String
  pub media : Option String
  pub blockers : List Blocker
  pub starts : Bool
  pub fingerprint : String
  pub scheduled_at : Option ℕ

abbrev pub is_ready : Preparation → Bool
is_ready p = no_blockers p.blockers

abbrev pub schedule_for : Option Strategy → ℕ → Option ℕ
schedule_for none now = none
schedule_for (some strategy) now = next_schedule strategy.schedule_mode strategy.schedule_time now

abbrev or_later : Option ℕ → Option ℕ → Option ℕ
or_later none later = later
or_later (some t) later = some t

-- The row of the INSERT.
abbrev pub new_job : String → Preparation → ℕ → PublishJob
new_job id p now = record {
  id = id;
  task_id = p.task.id;
  strategy_id = p.task.posting_strategy_id;
  status = job_status_of (is_ready p) p.starts;
  auto_started = p.starts;
  metadata_version = p.metadata_version;
  fingerprint = p.fingerprint;
  blockers = p.blockers;
  cover_asset_id = p.cover;
  media_asset_id = p.media;
  scheduled_at = p.scheduled_at;
  created_at = now;
  queued_at = if is_ready p && p.starts then some now else none;
  completed_at = none;
  updated_at = now;
  version = 1;
}

-- ON CONFLICT (fingerprint) DO UPDATE
abbrev pub refresh_job : PublishJob → PublishJob → PublishJob
refresh_job excluded j = record j {
  strategy_id = excluded.strategy_id;
  status = if job_is_settled j.status then j.status else excluded.status;
  auto_started = j.auto_started || excluded.auto_started;
  blockers = excluded.blockers;
  cover_asset_id = excluded.cover_asset_id;
  media_asset_id = excluded.media_asset_id;
  scheduled_at = excluded.scheduled_at;
  queued_at = or_later j.queued_at excluded.queued_at;
  updated_at = excluded.updated_at;
  version = j.version + 1;
}

abbrev pub has_fingerprint : String → PublishJob → Bool
has_fingerprint print j = str_eq j.fingerprint print

abbrev pub upsert_job : PublishJob → List PublishJob → List PublishJob
upsert_job j jobs =
    if exists (has_fingerprint j.fingerprint) jobs
    then update (has_fingerprint j.fingerprint) (refresh_job j) jobs
    else j ∷ jobs

-- RETURNING id
abbrev pub actual_job_id : PublishJob → List PublishJob → String
actual_job_id j jobs = elim (find (has_fingerprint j.fingerprint) jobs) [
  | none ↦ j.id
  | some old ↦ old.id
]

abbrev statement_of : Strategy → Task → String
statement_of strategy t =
    if str_eq strategy.repost_statement_version "brief_v1"
    then t.repost_statement_brief
    else t.repost_statement_full

abbrev source_for : Strategy → Task → Source
source_for strategy t = record {
  title = t.title;
  description = t.description;
  source_url = t.source_url;
  statement = statement_of strategy t;
}

abbrev pub new_publication :
    String → String → String → Strategy → String → Preparation → ℕ → Publication
new_publication id job_id media strategy platform p now = record {
  id = id;
  publish_job_id = job_id;
  task_id = p.task.id;
  platform = platform;
  account_id = binding platform strategy.account_bindings;
  media_asset_id = media;
  cover_asset_id = p.cover;
  category_id = binding platform strategy.category_bindings;
  title =
      render_or p.task.title (binding platform strategy.title_templates)
        (source_for strategy p.task);
  description =
      append_statement
        (render_or p.task.description (binding platform strategy.description_templates)
          (source_for strategy p.task))
        (statement_of strategy p.task);
  tags = merge_tags p.task.tags strategy.default_tags;
  status = publication_status_of (is_ready p) p.starts;
  attempt = 0;
  scheduled_at = p.scheduled_at;
  remote_submission_id = "";
  remote_url = "";
  remote_status = "";
  adapter_version = "";
  error_code = "";
  error_message = "";
  error_retryable = false;
  uncertain_since = none;
  locked_at = none;
  locked_by = "";
  started_at = none;
  completed_at = none;
  created_at = now;
  updated_at = now;
  version = 1;
}

-- ON CONFLICT (publish_job_id, platform) DO UPDATE
abbrev pub refresh_publication : Publication → Publication → Publication
refresh_publication excluded q = record q {
  account_id = excluded.account_id;
  status = if publication_is_published q.status then q.status else excluded.status;
  category_id = excluded.category_id;
  title = excluded.title;
  description = excluded.description;
  tags = excluded.tags;
  cover_asset_id = excluded.cover_asset_id;
  media_asset_id = excluded.media_asset_id;
  scheduled_at = excluded.scheduled_at;
  updated_at = excluded.updated_at;
}

abbrev pub upsert_publication : Publication → List Publication → List Publication
upsert_publication q rows =
    if exists (is_on_platform q.publish_job_id q.platform) rows
    then update (is_on_platform q.publish_job_id q.platform) (refresh_publication q) rows
    else q ∷ rows

abbrev pub is_bound : Strategy → String → Bool
is_bound strategy platform =
    contains_text platform strategy.target_platforms
    && (not (str_eq (binding platform strategy.account_bindings) "")
        && not (str_eq (binding platform strategy.category_bindings) ""))

-- The loop over the task's platforms; the k-th publication gets the id `ids k`.
unfoldable pub prepare_publications :
    (ℕ → String)
    → ℕ
    → String
    → String
    → Strategy
    → Preparation
    → ℕ
    → List String
    → List Publication
    → List Publication
unfolding append_statement merge_tags
prepare_publications ids k job_id media strategy p now [] rows = rows
prepare_publications ids k job_id media strategy p now (platform ∷ platforms) rows =
    prepare_publications ids (k + 1) job_id media strategy p now platforms (
      if is_bound strategy platform
      then upsert_publication (new_publication (ids k) job_id media strategy platform p now) rows
      else rows)

abbrev pub publications_for :
    (ℕ → String)
    → String
    → Option Strategy
    → Option String
    → Preparation
    → ℕ
    → List Publication
    → List Publication
publications_for ids job_id (some strategy) (some media) p now rows =
    prepare_publications ids 1 job_id media strategy p now p.task.target_platforms rows
publications_for ids job_id _ _ p now rows = rows

abbrev first_code : List Blocker → String
first_code [] = ""
first_code (b ∷ bs) = b.code

abbrev first_message : List Blocker → String
first_message [] = ""
first_message (b ∷ bs) = b.message

abbrev new_publish_step : Preparation → ℕ → Step
new_publish_step p now = record {
  task_id = p.task.id;
  kind = StepKind.publish;
  status = StepStatus.queued;
  attempt = 1;
  progress = 0;
  detail = record { phase = ""; decision = none };
  error_code = first_code p.blockers;
  error_message = first_message p.blockers;
  started_at = none;
  finished_at = none;
  updated_at = now;
}

-- ON CONFLICT (task_id, kind) DO UPDATE
abbrev refresh_step : Preparation → ℕ → Step → Step
refresh_step p now s = record s {
  status = if step_is_succeeded s.status then s.status else StepStatus.queued;
  progress = if step_is_succeeded s.status then s.progress else 0;
  error_code = first_code p.blockers;
  error_message = first_message p.blockers;
  finished_at = if step_is_succeeded s.status then s.finished_at else none;
  updated_at = now;
}

abbrev pub prepare_publish_step : Preparation → ℕ → List Step → List Step
prepare_publish_step p now steps =
    if exists (is_step p.task.id StepKind.publish) steps
    then update (is_step p.task.id StepKind.publish) (refresh_step p now) steps
    else new_publish_step p now ∷ steps

unfoldable pub write_preparation : (ℕ → String) → Preparation → ℕ → Db → Db
unfolding prepare_publications
write_preparation ids p now db =
    let job = new_job (ids 0) p now in
    record db {
      publish_jobs = upsert_job job db.publish_jobs;
      platform_publications =
          publications_for ids (actual_job_id job db.publish_jobs) p.strategy p.media p now
            db.platform_publications;
      task_steps = prepare_publish_step p now db.task_steps;
      tasks =
          update
            (λ t.
              (p.starts && is_ready p) && (str_eq t.id p.task.id && is_ready_to_publish t.status))
            (publish_task now) db.tasks;
    }
