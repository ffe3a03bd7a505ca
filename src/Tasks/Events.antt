-- ===== src/Tasks/Events.antt =====
-- The workflow events of tasks and how each is applied: the checks that stand before a transaction,
-- then the body in the frame of `apply_workflow_event`.
pub mod Final
pub mod Effect
pub mod Media
pub mod Stages
pub mod Bodies
pub mod Frame
use visoraft.Prelude.{ℕ, String, Bool, some, List, ◌&&◌, ltb, str_eq, not}
use visoraft.Database.{Db, Result, ok, err, invalid, Outcome, require, ◌>>◌, ◌>>=◌}
use visoraft.Identity.{is_uuid}
use visoraft.Tasks.Envelope.{Envelope, WorkflowFailure, apply_workflow_event}
use visoraft.Tasks.Metadata.{Metadata, metadata_started, metadata_completed, metadata_failed}
use visoraft.Tasks.Assets.{
  MediaInfo, validate_media_info, validate_asset_ids, assets_deleted, assets_delete_failed,
}
use visoraft.Tasks.Download.{
  DownloadProgress, DownloadResult, download_started, normalize_download_progress,
  download_progress, download_completed, download_failed,
}
use visoraft.Tasks.Cancellation.{WorkflowCancellation, download_cancelled}
use visoraft.Tasks.Inspect.{media_inspect_started, media_inspect_completed, media_inspect_failed}
use visoraft.Tasks.Transcode.{
  TranscodeEvent, TranscodeResult, TranscodeFailure, transcode_started, transcode_progress,
  valid_transcode_result, transcode_completed, transcode_failed,
}
use visoraft.Tasks.TranscodeStop.{TranscodeCancellation, transcode_cancelled}
use visoraft.Tasks.SubtitleResult.{SubtitleResult, validate_subtitle_result}
use visoraft.Tasks.Subtitle.{
  SubtitleProgress, subtitle_started, valid_subtitle_progress, subtitle_progress,
  subtitle_completed, subtitle_failed,
}

pub data WorkflowEvent : Type 0 where
  metadata_started_v1 : WorkflowEvent
  metadata_completed_v1 : Metadata → WorkflowEvent
  metadata_failed_v1 : WorkflowFailure → WorkflowEvent
  download_started_v1 : WorkflowEvent
  download_progress_v1 : DownloadProgress → WorkflowEvent
  download_completed_v1 : String → DownloadResult → WorkflowEvent
  download_failed_v1 : WorkflowFailure → WorkflowEvent
  download_cancelled_v1 : WorkflowCancellation → WorkflowEvent
  media_inspect_started_v1 : ℕ → WorkflowEvent
  media_inspect_completed_v1 : MediaInfo → WorkflowEvent
  media_inspect_failed_v1 : WorkflowFailure → WorkflowEvent
  assets_deleted_v1 : List String → WorkflowEvent
  assets_delete_failed_v1 : List String → String → String → WorkflowEvent
  subtitle_started_v1 : WorkflowEvent
  subtitle_progress_v1 : SubtitleProgress → WorkflowEvent
  subtitle_completed_v1 : SubtitleResult → WorkflowEvent
  subtitle_failed_v1 : WorkflowFailure → WorkflowEvent
  transcode_started_v1 : TranscodeEvent → WorkflowEvent
  transcode_progress_v1 : TranscodeEvent → WorkflowEvent
  transcode_completed_v1 : TranscodeResult → WorkflowEvent
  transcode_failed_v1 : TranscodeFailure → WorkflowEvent
  transcode_cancelled_v1 : TranscodeCancellation → WorkflowEvent

-- The check of a run id and an attempt.
abbrev names_run : String → ℕ → Bool
names_run run_id attempt = is_uuid run_id && ltb 0 attempt

-- func(tx, taskID, now) error, the last argument of applyWorkflowEvent.
abbrev pub Body : Type 0
Body = String → ℕ → Db → Result Db

-- What `Apply…` hands to applyWorkflowEvent, after the checks that stand before the transaction.
unfoldable pub event_body : (ids : ℕ → String) (env : Envelope) → WorkflowEvent → Result Body
event_body ids env metadata_started_v1 = ok (metadata_started env)
event_body ids env (metadata_completed_v1 metadata) = ok (metadata_completed ids metadata env)
event_body ids env (metadata_failed_v1 failure) = ok (metadata_failed failure env)
event_body ids env download_started_v1 = ok (download_started env)
event_body ids env (download_progress_v1 given) = do
  p ← normalize_download_progress given
  ok (download_progress p)
event_body ids env (download_completed_v1 named r) = do
  validate_media_info r.media_info
  ok (download_completed r env)
event_body ids env (download_failed_v1 failure) = ok (download_failed failure env)
event_body ids env (download_cancelled_v1 event) = ok (download_cancelled ids event env)
event_body ids env (media_inspect_started_v1 attempt) = ok (media_inspect_started attempt env)
event_body ids env (media_inspect_completed_v1 info) = do
  validate_media_info info
  ok (media_inspect_completed env)
event_body ids env (media_inspect_failed_v1 failure) = ok (media_inspect_failed failure env)
event_body ids env (assets_deleted_v1 assets) = do
  validate_asset_ids assets
  ok (assets_deleted assets env)
event_body ids env (assets_delete_failed_v1 assets code message) = do
  validate_asset_ids assets
  ok (assets_delete_failed assets code message env)
event_body ids env subtitle_started_v1 = ok (subtitle_started env)
event_body ids env (subtitle_progress_v1 p) = do
  require (valid_subtitle_progress p) (invalid "subtitle progress event is invalid")
  ok (subtitle_progress p)
event_body ids env (subtitle_completed_v1 given) = do
  r ← validate_subtitle_result given
  ok (subtitle_completed r env)
event_body ids env (subtitle_failed_v1 failure) = ok (subtitle_failed ids failure env)
event_body ids env (transcode_started_v1 e) = do
  require (names_run e.run_id e.attempt) (invalid "transcode started event has an invalid run")
  ok (transcode_started e env)
event_body ids env (transcode_progress_v1 e) = do
  require (names_run e.run_id e.attempt && (ltb 0 e.progress && ltb e.progress 100))
      (invalid "transcode progress event is invalid")
  ok (transcode_progress e)
event_body ids env (transcode_completed_v1 r) = do
  require (valid_transcode_result r) (invalid "transcode result is missing required fields")
  validate_media_info r.media_info
  ok (transcode_completed r env)
event_body ids env (transcode_failed_v1 e) = do
  require (names_run e.run_id e.attempt && (not (str_eq e.code "") && not (str_eq e.message "")))
      (invalid "transcode failure event is invalid")
  ok (transcode_failed e env)
event_body ids env (transcode_cancelled_v1 e) = do
  require (names_run e.run_id e.attempt) (invalid "transcode cancellation event is invalid")
  ok (transcode_cancelled ids e env)

-- What follows the checks that stand before the transaction.
abbrev pub run_checked : ℕ → Envelope → Result Body → Db → Outcome
run_checked clock env (ok body) db = apply_workflow_event clock env body db
run_checked clock env (err e) db = (db, some e)

-- Exactly one `Apply…` of the store, by the event's type.
unfoldable pub apply_event :
    (clock : ℕ) (ids : ℕ → String) (env : Envelope) → WorkflowEvent → Db → Outcome
apply_event clock ids env event db = run_checked clock env (event_body ids env event) db
