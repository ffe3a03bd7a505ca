-- ===== src/Monitors/Rows.antt =====
-- The tables of the monitors (internal/monitors/model.go), as far as the modelled code reads them. What discovery alone reads
-- of a monitor (its query, its channels, its series) is left out.
use visoraft.Prelude.{ℕ, ℤ, String, Bool, true, false, Option, List}
use visoraft.Database.{Db}

pub data MonitorState : Type 0 where
  idle running paused error : MonitorState

pub data MonitorRunStatus : Type 0 where
  queued running completed failed : MonitorRunStatus

pub data Decision : Type 0 where
  accepted filtered duplicate task_created task_failed : Decision

pub data IngestionState : Type 0 where
  reserved created : IngestionState

pub record TaskTemplate : Type 0 where
  pub target_platforms : List String
  pub cookie_profile_id : Option String
  pub repost_statement_version : String
  pub posting_strategy_id : Option String
  pub auto_publish : Bool

pub record Monitor : Type 0 where
  pub id : String
  pub name : String
  pub series_title : String
  pub enabled : Bool
  pub include_keywords : List String
  pub exclude_keywords : List String
  pub exclude_channel_ids : List String
  pub video_types : List String
  pub min_view_count : ℤ
  pub min_like_count : ℤ
  pub min_comment_count : ℤ
  pub min_duration_seconds : ℤ
  pub max_duration_seconds : ℤ
  pub schedule_type : String
  pub schedule_interval_minutes : ℕ
  pub auto_add_to_tasks : Bool
  pub task_template : TaskTemplate
  pub state : MonitorState
  pub last_run_at : Option ℕ
  pub next_run_at : Option ℕ
  pub last_error : String
  pub version : ℕ
  pub updated_at : ℕ
  pub archived_at : Option ℕ

pub record Run : Type 0 where
  pub id : String
  pub monitor_id : String
  pub trigger : String
  pub status : MonitorRunStatus
  pub discovered_count : ℕ
  pub accepted_count : ℕ
  pub duplicate_count : ℕ
  pub task_count : ℕ
  pub quota_units : ℕ
  pub error_code : String
  pub error_message : String
  pub started_at : ℕ
  pub completed_at : Option ℕ
  pub lease_owner : String
  pub lease_expires_at : Option ℕ

-- What discovery has found.
pub record Candidate : Type 0 where
  pub external_video_id : String
  pub episode_number : ℤ
  pub series_scope_key : String
  pub series_scope_name : String
  pub source_url : String
  pub title : String
  pub description : String
  pub channel_id : String
  pub duration_seconds : ℤ
  pub view_count : ℤ
  pub like_count : ℤ
  pub comment_count : ℤ
  pub video_type : String

pub record Item : Type 0 where
  pub id : String
  pub run_id : String
  pub monitor_id : String
  pub external_video_id : String
  pub episode_number : ℤ
  pub series_scope_key : String
  pub series_scope_name : String
  pub source_url : String
  pub title : String
  pub decision : Decision
  pub decision_reason : String
  pub task_id : Option String
  pub created_at : ℕ

pub record Seen : Type 0 where
  pub monitor_id : String
  pub external_video_id : String
  pub first_run_id : String
  pub first_seen_at : ℕ

pub record Ingestion : Type 0 where
  pub external_video_id : String
  pub task_id : Option String
  pub monitor_id : String
  pub state : IngestionState
  pub first_seen_at : ℕ

-- The tables of the monitors beside those of the tasks.
pub record Watch : Type 0 where
  pub db : Db
  pub monitors : List Monitor
  pub runs : List Run
  pub items : List Item
  pub seen : List Seen
  pub ingestions : List Ingestion

-- The part of tasks.CreateInput that a monitor fills.
pub record TaskInput : Type 0 where
  pub source_url : String
  pub template : TaskTemplate
  pub monitor_id : String
  pub monitor_name : String
  pub series_title : String
  pub series_scope_key : String
  pub series_scope_name : String
  pub episode_number : ℤ

abbrev pub monitor_is_idle : MonitorState → Bool
monitor_is_idle MonitorState.idle = true
monitor_is_idle _ = false

abbrev pub monitor_is_paused : MonitorState → Bool
monitor_is_paused MonitorState.paused = true
monitor_is_paused _ = false

abbrev pub monitor_is_running : MonitorState → Bool
monitor_is_running MonitorState.running = true
monitor_is_running _ = false

abbrev pub run_is_queued : MonitorRunStatus → Bool
run_is_queued MonitorRunStatus.queued = true
run_is_queued _ = false

abbrev pub run_is_leased : MonitorRunStatus → Bool
run_is_leased MonitorRunStatus.running = true
run_is_leased _ = false

abbrev pub is_reserved : IngestionState → Bool
is_reserved IngestionState.reserved = true
is_reserved _ = false

-- decision IN ('accepted','task_created')
abbrev pub counts_as_accepted : Decision → Bool
counts_as_accepted Decision.accepted = true
counts_as_accepted Decision.task_created = true
counts_as_accepted _ = false

abbrev pub is_duplicate : Decision → Bool
is_duplicate Decision.duplicate = true
is_duplicate _ = false

abbrev pub is_task_created : Decision → Bool
is_task_created Decision.task_created = true
is_task_created _ = false
