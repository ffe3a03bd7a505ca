-- ===== src/Database/Rows.antt =====
-- The rows of the tables that the modelled code reads and writes (internal/database/migrations and
-- the structs of internal/tasks/model.go). UUIDs are texts, times are milliseconds, a nullable column
-- is an `Option`. Of a `detail` JSON the keys that the code reads again are kept.
use visoraft.Prelude.{ℕ, ℤ, String, Bool, Option, List}
use visoraft.Database.Status.{
  TaskStatus, StepKind, StepStatus, RunStatus, OutboxStatus, PublicationStatus, JobStatus,
  AttemptStatus, AccountStatus, AssetStatus, ModerationStatus, ReviewMode, ReviewStatus,
  ReviewRunStatus,
}

-- The parts of the frozen `settings_snapshot` that steer a task.
pub record Strategy : Type 0 where
  pub id : String
  pub enabled : Bool
  pub automation_mode : String
  pub target_platforms : List String
  pub account_bindings : List (String × String)
  pub category_bindings : List (String × String)
  pub title_templates : List (String × String)
  pub description_templates : List (String × String)
  pub default_tags : List String
  pub repost_statement_version : String
  pub transcode_preset_id : Option String
  pub require_content_moderation : Bool
  pub schedule_mode : String
  pub schedule_time : Option String

pub record PostingStrategy : Type 0 where
  pub strategy : Strategy
  pub archived_at : Option ℕ

pub record AutomaticReviewRules : Type 0 where
  pub require_media : Bool
  pub require_title : Bool
  pub minimum_description_length : ℤ
  pub maximum_duration_seconds : ℤ
  pub require_subtitle_qc : Bool
  pub minimum_subtitle_qc_score : ℤ

pub record Settings : Type 0 where
  pub subtitle_enabled : Bool
  pub transcode_enabled : Bool
  pub burn_subtitles : Bool
  pub moderation_enabled : Bool
  pub posting_strategy : Option Strategy
  pub maximum_attempts : Option ℕ
  pub retry_delay_seconds : Option ℕ
  pub reconcile_uncertain_results : Option Bool
  pub auto_publish_after_review : Bool
  pub automatic_fallback : String
  pub review_rules : AutomaticReviewRules

pub record Task : Type 0 where
  pub id : String
  pub status : TaskStatus
  pub source_url : String
  pub cookie_profile_id : Option String
  pub settings_snapshot : Settings
  pub target_platforms : List String
  pub posting_strategy_id : Option String
  pub auto_publish : Bool
  -- `transcode_preset_id` of the posting strategy that the task's row refers to.
  pub strategy_preset_id : Option String
  pub original_title : String
  pub title : String
  pub description : String
  pub tags : List String
  pub category : String
  pub repost_statement_version : String
  pub repost_statement_brief : String
  pub repost_statement_full : String
  pub review_mode : ReviewMode
  pub review_status : ReviewStatus
  pub settings_version : ℕ
  pub thumbnail_url : String
  pub duration_seconds : Option ℤ
  pub extractor : String
  pub error_code : String
  pub error_message : String
  pub error_retryable : Bool
  pub archived_at : Option ℕ
  pub paused_at : Option ℕ
  pub paused_from_status : Option TaskStatus
  pub paused_step_kind : Option StepKind
  pub updated_at : ℕ
  pub version : ℕ

pub record SubtitleDecision : Type 0 where
  pub schema_version : ℤ
  pub disposition : String
  pub burn_subtitles : Bool

pub record Detail : Type 0 where
  pub phase : String
  pub decision : Option SubtitleDecision

pub record Step : Type 0 where
  pub task_id : String
  pub kind : StepKind
  pub status : StepStatus
  pub attempt : ℕ
  pub progress : ℕ
  pub detail : Detail
  pub error_code : String
  pub error_message : String
  pub started_at : Option ℕ
  pub finished_at : Option ℕ
  pub updated_at : ℕ

-- The `data` of a command envelope.
pub record Command : Type 0 where
  pub task_id : String
  pub attempt : ℕ
  pub source_url : Option String
  pub cookie_profile_id : Option String
  pub run_id : Option String

pub record OutboxMessage : Type 0 where
  pub id : String
  pub aggregate_id : String
  pub event_type : String
  pub payload : Command
  pub status : OutboxStatus
  pub attempts : ℕ
  pub available_at : ℕ
  pub locked_at : Option ℕ
  pub published_at : Option ℕ
  pub last_error : String
  pub created_at : ℕ

pub record TranscodeRun : Type 0 where
  pub id : String
  pub task_id : String
  pub preset_id : Option String
  pub status : RunStatus
  pub attempt : ℕ
  pub input_asset_id : String
  pub output_asset_id : Option String
  pub resolved_encoder : String
  pub progress : ℕ
  pub error_code : String
  pub error_message : String
  pub started_at : Option ℕ
  pub completed_at : Option ℕ
  pub updated_at : ℕ

pub record MediaAsset : Type 0 where
  pub id : String
  pub task_id : String
  pub kind : String
  pub bucket : String
  pub object_key : String
  pub original_name : String
  pub content_type : String
  pub size_bytes : ℤ
  pub checksum_sha256 : String
  pub status : AssetStatus
  pub error_code : String
  pub error_message : String
  pub created_at : ℕ
  pub deleted_at : Option ℕ

-- `qc_score` is the `score` of the report in hundredths, rounded.
pub record SubtitleDocument : Type 0 where
  pub id : String
  pub task_id : String
  pub kind : String
  pub language : String
  pub version : ℕ
  pub source : String
  pub qc_score : Option ℤ
  pub created_at : ℕ

pub record Publication : Type 0 where
  pub id : String
  pub publish_job_id : String
  pub task_id : String
  pub platform : String
  pub account_id : String
  pub media_asset_id : String
  pub cover_asset_id : Option String
  pub category_id : String
  pub title : String
  pub description : String
  pub tags : List String
  pub status : PublicationStatus
  pub attempt : ℕ
  pub scheduled_at : Option ℕ
  pub remote_submission_id : String
  pub remote_url : String
  pub remote_status : String
  pub adapter_version : String
  pub error_code : String
  pub error_message : String
  pub error_retryable : Bool
  pub uncertain_since : Option ℕ
  pub locked_at : Option ℕ
  pub locked_by : String
  pub started_at : Option ℕ
  pub completed_at : Option ℕ
  pub created_at : ℕ
  pub updated_at : ℕ
  pub version : ℕ

pub record Blocker : Type 0 where
  pub code : String
  pub platform : String
  pub message : String

pub record PublishJob : Type 0 where
  pub id : String
  pub task_id : String
  pub strategy_id : Option String
  pub status : JobStatus
  pub auto_started : Bool
  pub metadata_version : ℕ
  pub fingerprint : String
  pub blockers : List Blocker
  pub cover_asset_id : Option String
  pub media_asset_id : Option String
  pub scheduled_at : Option ℕ
  pub created_at : ℕ
  pub queued_at : Option ℕ
  pub completed_at : Option ℕ
  pub updated_at : ℕ
  pub version : ℕ

pub record Account : Type 0 where
  pub id : String
  pub platform : String
  pub auth_mode : String
  pub cookie_profile_id : Option String
  pub status : AccountStatus
  pub archived_at : Option ℕ

pub record Category : Type 0 where
  pub platform : String
  pub category_id : String
  pub active : Bool

pub record PublicationAttempt : Type 0 where
  pub id : String
  pub publication_id : String
  pub attempt : ℕ
  pub stage : String
  pub status : AttemptStatus
  pub error_code : String
  pub error_message : String
  pub started_at : ℕ
  pub completed_at : Option ℕ

pub record ModerationRun : Type 0 where
  pub id : String
  pub task_id : String
  pub status : ModerationStatus
  pub attempt : ℕ
  pub decision : String
  pub error_code : String
  pub error_message : String
  pub started_at : Option ℕ
  pub completed_at : Option ℕ
  pub created_at : ℕ
  pub updated_at : ℕ

pub record ReviewRun : Type 0 where
  pub id : String
  pub task_id : String
  pub mode : ReviewMode
  pub policy_version : ℕ
  pub status : ReviewRunStatus
  pub decision : String
  pub summary : String
  pub started_at : ℕ
  pub completed_at : Option ℕ

pub record ReviewAction : Type 0 where
  pub task_id : String
  pub review_run_id : Option String
  pub action : String
  pub actor_type : String
  pub actor_id : String
  pub reason : String
  pub metadata_version : Option ℕ
  pub created_at : ℕ

pub record MetadataVersion : Type 0 where
  pub id : String
  pub task_id : String
  pub version : ℕ
  pub title : String
  pub description : String
  pub tags : List String
  pub category : String
  pub change_reason : String
  pub created_at : ℕ

pub record AuditEvent : Type 0 where
  pub aggregate_id : String
  pub event_type : String
  pub actor_type : String
  pub actor_id : String
  pub occurred_at : ℕ

-- A table is the list of its rows; an INSERT puts the new row first.
pub record Db : Type 0 where
  pub tasks : List Task
  pub task_steps : List Step
  pub outbox_messages : List OutboxMessage
  pub consumed_messages : List String
  pub transcode_runs : List TranscodeRun
  pub media_assets : List MediaAsset
  pub subtitle_documents : List SubtitleDocument
  pub platform_accounts : List Account
  pub posting_strategies : List PostingStrategy
  pub platform_categories : List Category
  pub platform_publications : List Publication
  pub publish_jobs : List PublishJob
  pub publication_attempts : List PublicationAttempt
  pub moderation_runs : List ModerationRun
  pub review_runs : List ReviewRun
  pub review_actions : List ReviewAction
  pub task_metadata_versions : List MetadataVersion
  pub audit_events : List AuditEvent
