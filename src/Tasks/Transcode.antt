-- ===== src/Tasks/Transcode.antt =====
-- The transcode events of internal/tasks/postgres_store.go. The command summary and the media info
-- are JSON that no query reads, and are left out.
use Prim.Native.String.{◌++◌ as str_append}
use visoraft.Prelude.{
  ℕ, String, Bool, true, Option, none, some, ◌&&◌, not, is_some, str_eq, len, max, ltb, ◌==◌, ltb_ℤ,
  strip_prefix, find, exists, update,
}
use visoraft.Database.{
  Db, Step, TranscodeRun, MediaAsset, Result, ok, invalid, require, ◌>>◌, TaskStatus, StepKind,
  StepStatus, RunStatus, run_is_active, run_is_running, step_is_active, step_is_running,
  is_available, is_step,
}
use visoraft.Identity.{is_uuid}
use visoraft.Tasks.Envelope.{
  Envelope, insert_workflow_audit, is_live_task, fail_task, move_task, coalesce,
}
use visoraft.Tasks.Assets.{MediaInfo, AssetResult, is_asset, upsert_asset}
use visoraft.Tasks.Download.{is_foreign}

abbrev pub transcode_requested_v1 : String
transcode_requested_v1 = "io.visoraft.media.transcode.requested.v1"

pub record TranscodeEvent : Type 0 where
  pub task_id : String
  pub run_id : String
  pub attempt : ℕ
  pub progress : ℕ

-- WHERE id=$1 AND task_id=$2 AND attempt=$3
abbrev pub is_run : String → String → ℕ → TranscodeRun → Bool
is_run run_id id attempt r = str_eq r.id run_id && (str_eq r.task_id id && r.attempt == attempt)

-- kind='transcode' AND attempt=$2
abbrev pub is_attempt : String → ℕ → Step → Bool
is_attempt id attempt s = is_step id StepKind.transcode s && s.attempt == attempt

unfoldable pub transcode_started : TranscodeEvent → Envelope → String → ℕ → Db → Result Db
transcode_started e env id now db = do
  require (not (is_foreign e.task_id id))
      (invalid "transcode started task id does not match subject")
  require (exists (λ r. is_run e.run_id id e.attempt r && run_is_active r.status) db.transcode_runs)
      (invalid "transcode run is missing or not startable")
  ok (
      insert_workflow_audit env id "transcode.started" now (record db {
        transcode_runs =
            update (λ r. is_run e.run_id id e.attempt r && run_is_active r.status)
              (λ r. record r {
                status = RunStatus.running;
                progress = max r.progress 1;
                started_at = some (coalesce r.started_at now);
                updated_at = now;
                error_code = "";
                error_message = "";
              })
              db.transcode_runs;
        task_steps =
            update (λ s. is_attempt id e.attempt s && step_is_active s.status)
              (λ s. record s {
                status = StepStatus.running;
                progress = max s.progress 1;
                started_at = some (coalesce s.started_at now);
                updated_at = now;
                error_code = "";
                error_message = "";
              })
              db.task_steps;
        tasks = update (is_live_task id) (move_task TaskStatus.processing now) db.tasks;
      }))

unfoldable pub transcode_progress : TranscodeEvent → String → ℕ → Db → Result Db
transcode_progress e id now db = do
  require (not (is_foreign e.task_id id))
      (invalid "transcode progress task id does not match subject")
  require
      (exists (λ r. is_run e.run_id id e.attempt r && run_is_running r.status) db.transcode_runs)
      (invalid "transcode run is missing or not running")
  ok (record db {
    transcode_runs =
        update (λ r. is_run e.run_id id e.attempt r && run_is_running r.status)
          (λ r. record r { progress = max r.progress e.progress; updated_at = now })
          db.transcode_runs;
    task_steps =
        update (λ s. is_attempt id e.attempt s && step_is_running s.status)
          (λ s. record s { progress = max s.progress e.progress; updated_at = now }) db.task_steps;
  })

pub record TranscodeResult : Type 0 where
  pub task_id : String
  pub run_id : String
  pub attempt : ℕ
  pub input_asset_id : String
  pub asset : AssetResult
  pub media_info : MediaInfo
  pub resolved_encoder : String

-- The first check of ApplyTranscodeCompleted, before the transaction.
unfoldable pub valid_transcode_result : TranscodeResult → Bool
valid_transcode_result r =
    is_uuid r.run_id
    && is_uuid r.input_asset_id
    && is_uuid r.asset.asset_id
    && ltb 0 r.attempt
    && str_eq r.asset.kind "transcoded"
    && not (str_eq r.asset.bucket "")
    && not (str_eq r.asset.object_key "")
    && not (str_eq r.asset.original_name "")
    && not (str_eq r.asset.content_type "")
    && not (ltb_ℤ r.asset.size_bytes 1)
    && (len r.asset.checksum_sha256 == 64)
    && not (str_eq r.resolved_encoder "")

-- strings.HasPrefix(key, "tasks/"+taskID+"/transcoded/")
abbrev pub in_task_prefix : String → String → Bool
in_task_prefix id key =
    is_some (strip_prefix (str_append "tasks/" (str_append id "/transcoded/")) key)

-- RETURNING id::text of the upsert.
abbrev pub stored_id : Option MediaAsset → String → String
stored_id none given = given
stored_id (some m) given = m.id

unfoldable pub finish_transcode : TranscodeResult → String → Envelope → String → ℕ → Db → Db
finish_transcode r output env id now db =
    insert_workflow_audit env id "transcode.completed" now (record db {
      transcode_runs =
          update (λ x. is_run r.run_id id r.attempt x && run_is_active x.status)
            (λ x. record x {
              status = RunStatus.succeeded;
              input_asset_id = r.input_asset_id;
              output_asset_id = some output;
              resolved_encoder = r.resolved_encoder;
              progress = 100;
              error_code = "";
              error_message = "";
              completed_at = some now;
              updated_at = now;
            })
            db.transcode_runs;
      task_steps =
          update (is_attempt id r.attempt)
            (λ s. record s {
              status = StepStatus.succeeded;
              progress = 100;
              finished_at = some now;
              updated_at = now;
              error_code = "";
              error_message = "";
            })
            db.task_steps;
      tasks = update (is_live_task id) (move_task TaskStatus.processing now) db.tasks;
    })

unfoldable pub transcode_completed : TranscodeResult → Envelope → String → ℕ → Db → Result Db
unfolding finish_transcode
transcode_completed r env id now db = do
  require (not (is_foreign r.task_id id))
      (invalid "transcode result task id does not match subject")
  require (in_task_prefix id r.asset.object_key)
      (invalid "transcode output object key is outside the task prefix")
  require
      (exists (λ m. str_eq m.id r.input_asset_id && (str_eq m.task_id id && is_available m.status))
        db.media_assets)
      (invalid "transcode input asset is missing")
  let stored = upsert_asset true id r.asset now db
  require (exists (λ x. is_run r.run_id id r.attempt x && run_is_active x.status) db.transcode_runs)
      (invalid "transcode run is missing or not completable")
  ok (
      finish_transcode r (stored_id (find (is_asset id r.asset) db.media_assets) r.asset.asset_id)
        env id now stored)

pub record TranscodeFailure : Type 0 where
  pub task_id : String
  pub run_id : String
  pub attempt : ℕ
  pub code : String
  pub message : String
  pub retryable : Bool

unfoldable pub transcode_failed : TranscodeFailure → Envelope → String → ℕ → Db → Result Db
transcode_failed e env id now db = do
  require (not (is_foreign e.task_id id))
      (invalid "transcode failure task id does not match subject")
  require (exists (λ r. is_run e.run_id id e.attempt r && run_is_active r.status) db.transcode_runs)
      (invalid "transcode run is missing or not failable")
  ok (
      insert_workflow_audit env id "transcode.failed" now (record db {
        transcode_runs =
            update (λ r. is_run e.run_id id e.attempt r && run_is_active r.status)
              (λ r. record r {
                status = RunStatus.failed;
                error_code = e.code;
                error_message = e.message;
                completed_at = some now;
                updated_at = now;
              })
              db.transcode_runs;
        task_steps =
            update (is_attempt id e.attempt)
              (λ s. record s {
                status = StepStatus.failed;
                finished_at = some now;
                updated_at = now;
                error_code = e.code;
                error_message = e.message;
              })
              db.task_steps;
        tasks = update (is_live_task id) (fail_task e.code e.message e.retryable now) db.tasks;
      }))
