-- ===== src/Scenarios/Rows.antt =====
-- The rows that the scenarios start from.
use visoraft.Prelude.{String, true, false, none, some, [], ◌∷◌}
use visoraft.Database.{
  Db, Task, Step, Settings, TaskStatus, StepKind, StepStatus, Publication, PublicationStatus,
  MediaAsset, AssetStatus, ReviewMode, ReviewStatus, Result, ok, err,
}
use visoraft.Prelude.{pos}

abbrev pub plain_settings : Settings
plain_settings = record {
  subtitle_enabled = true;
  transcode_enabled = true;
  burn_subtitles = false;
  moderation_enabled = false;
  posting_strategy = none;
  maximum_attempts = none;
  retry_delay_seconds = none;
  reconcile_uncertain_results = none;
  auto_publish_after_review = false;
  automatic_fallback = "manual";
  review_rules = record {
    require_media = true;
    require_title = true;
    minimum_description_length = pos 0;
    maximum_duration_seconds = pos 0;
    require_subtitle_qc = false;
    minimum_subtitle_qc_score = pos 0;
  };
}

abbrev pub task_in : String → TaskStatus → Task
task_in id status = record {
  id = id;
  status = status;
  source_url = "https://example.org/v";
  cookie_profile_id = none;
  settings_snapshot = plain_settings;
  target_platforms = "bilibili" ∷ [];
  posting_strategy_id = none;
  auto_publish = false;
  strategy_preset_id = none;
  original_title = "";
  title = "";
  description = "";
  tags = [];
  category = "";
  repost_statement_version = "brief_v1";
  repost_statement_brief = "reposted";
  repost_statement_full = "reposted with permission";
  review_mode = ReviewMode.manual;
  review_status = ReviewStatus.not_started;
  settings_version = 1;
  thumbnail_url = "";
  duration_seconds = none;
  extractor = "";
  error_code = "";
  error_message = "";
  error_retryable = false;
  archived_at = none;
  paused_at = none;
  paused_from_status = none;
  paused_step_kind = none;
  updated_at = 1;
  version = 1;
}

abbrev pub step_in : String → StepKind → StepStatus → Step
step_in id kind status = record {
  task_id = id;
  kind = kind;
  status = status;
  attempt = 1;
  progress = 0;
  detail = record { phase = ""; decision = none };
  error_code = "";
  error_message = "";
  started_at = none;
  finished_at = none;
  updated_at = 1;
}

abbrev pub publication_in : String → PublicationStatus → String → Publication
publication_in id status owner = record {
  id = id;
  publish_job_id = "job";
  task_id = "a";
  platform = "bilibili";
  account_id = "account";
  media_asset_id = "asset";
  cover_asset_id = none;
  category_id = "1";
  title = "";
  description = "";
  tags = [];
  status = status;
  attempt = 1;
  scheduled_at = none;
  remote_submission_id = "";
  remote_url = "";
  remote_status = "";
  adapter_version = "";
  error_code = "";
  error_message = "";
  error_retryable = false;
  uncertain_since = none;
  locked_at = some 1;
  locked_by = owner;
  started_at = none;
  completed_at = none;
  created_at = 1;
  updated_at = 1;
  version = 1;
}

abbrev pub source_of : String → MediaAsset
source_of id = record {
  id = "asset";
  task_id = id;
  kind = "source";
  bucket = "media";
  object_key = "tasks/a/source/v.mp4";
  original_name = "v.mp4";
  content_type = "video/mp4";
  size_bytes = pos 10;
  checksum_sha256 = "";
  status = AssetStatus.available;
  error_code = "";
  error_message = "";
  created_at = 1;
  deleted_at = none;
}

abbrev pub empty_db : Db
empty_db = record {
  tasks = [];
  task_steps = [];
  outbox_messages = [];
  consumed_messages = [];
  transcode_runs = [];
  media_assets = [];
  subtitle_documents = [];
  platform_accounts = [];
  posting_strategies = [];
  platform_categories = [];
  platform_publications = [];
  publish_jobs = [];
  publication_attempts = [];
  moderation_runs = [];
  review_runs = [];
  review_actions = [];
  task_metadata_versions = [];
  audit_events = [];
}

-- A download of task a runs; task b is cancelled.
abbrev pub downloading : Db
downloading = record empty_db {
  tasks = task_in "a" TaskStatus.downloading ∷ task_in "b" TaskStatus.cancelled ∷ [];
  task_steps =
      step_in "a" StepKind.download StepStatus.running
      ∷ step_in "b" StepKind.metadata StepStatus.cancelled
      ∷ [];
  media_assets = source_of "a" ∷ [];
}

abbrev pub done : Result Db → Db
done (ok db) = db
done (err e) = empty_db
