-- ===== src/Tasks/Download.antt =====
-- The download events of internal/tasks/postgres_store.go.
use visoraft.Prelude.{
  ℕ, ℤ, pos, ◌+◌, ◌/◌, String, Bool, false, Option, none, some, List, [], ◌∷◌, ◌&&◌, ◌||◌, not,
  str_eq, len, is_negative, gtb_ℤ, ltb_ℤ, pos_part, trim_space, min, max, ltb, ◌==◌, update,
  if◌then◌else◌,
}
use visoraft.Database.{
  Db, Task, Step, Detail, Result, ok, invalid, require, ◌>>◌, ◌>>=◌, TaskStatus, StepKind,
  StepStatus, step_is_active, step_is_running, is_downloading, kind_eq, is_step, task_of,
  task_is_live,
}
use visoraft.Tasks.Envelope.{
  Envelope, WorkflowFailure, insert_workflow_audit, is_live_task, fail_task, move_task, coalesce,
}
use visoraft.Tasks.Assets.{MediaInfo, AssetResult, upsert_asset}

-- step.detail || '{"phase":…}'
abbrev pub set_phase : String → Detail → Detail
set_phase phase d = record d { phase = phase }

unfoldable pub download_started : Envelope → String → ℕ → Db → Result Db
download_started env id now db = ok (
    insert_workflow_audit env id "download.started" now (record db {
      task_steps =
          update
            (λ s. is_step id StepKind.download s && (task_is_live db id && step_is_active s.status))
            (λ s. record s {
              status = StepStatus.running;
              progress = max s.progress 1;
              started_at = some (coalesce s.started_at now);
              updated_at = now;
              detail = set_phase "starting" s.detail;
              error_code = "";
              error_message = "";
            })
            db.task_steps;
      tasks = update (is_live_task id) (move_task TaskStatus.downloading now) db.tasks;
    }))

pub record DownloadProgress : Type 0 where
  pub task_id : String
  pub attempt : ℕ
  pub progress : ℕ
  pub phase : String
  pub downloaded_bytes : ℤ
  pub total_bytes : ℤ
  pub speed_bytes_per_second : ℤ
  pub fragment_index : ℤ
  pub fragment_count : ℤ
  pub eta_seconds : Option ℤ

bad_metrics : DownloadProgress → Bool
bad_metrics p =
    is_negative p.downloaded_bytes
    || is_negative p.total_bytes
    || is_negative p.speed_bytes_per_second
    || is_negative p.fragment_index
    || is_negative p.fragment_count

bad_eta : Option ℤ → Bool
bad_eta none = false
bad_eta (some eta) = is_negative eta

-- A `progress` and an `attempt` below 1 become 1, so negative ones are as 0.
unfoldable pub normalize_download_progress : DownloadProgress → Result DownloadProgress
unfolding bad_metrics bad_eta
normalize_download_progress p =
    let phase = (if str_eq (trim_space p.phase) "" then "downloading" else trim_space p.phase) in
    do
      require (not (ltb 64 (len phase))) (invalid "download progress phase is too long")
      require (not (bad_metrics p)) (invalid "download progress metrics are invalid")
      require (not (bad_eta p.eta_seconds)) (invalid "download progress ETA is invalid")
      ok (record p {
        progress = min (max p.progress 1) 99;
        phase = phase;
        attempt = max p.attempt 1;
      })

-- event.TaskID != "" && event.TaskID != taskID
abbrev pub is_foreign : String → String → Bool
is_foreign named id = not (str_eq named "") && not (str_eq named id)

-- The join `task.status='downloading'`.
abbrev pub task_is_downloading : Option Task → Bool
task_is_downloading none = false
task_is_downloading (some t) = is_downloading t.status

unfoldable pub download_progress : DownloadProgress → String → ℕ → Db → Result Db
download_progress p id now db = do
  require (not (is_foreign p.task_id id))
      (invalid "download progress task id does not match subject")
  ok (record db {
    task_steps =
        update
          (λ s.
            is_step id StepKind.download s
            && (task_is_downloading (task_of db id) && step_is_running s.status))
          (λ s. record s {
            progress = max s.progress p.progress;
            detail = record { phase = p.phase; decision = none };
            updated_at = now;
          })
          db.task_steps;
  })

pub record CoverResult : Type 0 where
  pub asset : AssetResult
  pub media_info : MediaInfo

pub record DownloadResult : Type 0 where
  pub asset : AssetResult
  pub media_info : MediaInfo
  pub additional_assets : List CoverResult

-- The fields that every reported asset needs.
abbrev pub is_complete : AssetResult → Bool
is_complete a =
    not (str_eq a.asset_id "")
    && not (str_eq a.kind "")
    && not (str_eq a.bucket "")
    && not (str_eq a.object_key "")
    && not (str_eq a.original_name "")
    && not (str_eq a.content_type "")
    && not (is_negative a.size_bytes)
    && (len a.checksum_sha256 == 64)

abbrev pub at_least : ℕ → Option ℤ → Bool
at_least limit none = false
at_least limit (some v) = not (ltb_ℤ v limit)

abbrev pub is_cover : CoverResult → Bool
is_cover c =
    not (str_eq c.asset.asset_id "")
    && (str_eq c.asset.kind "thumbnail" || str_eq c.asset.kind "cover_processed")
    && not (str_eq c.asset.bucket "")
    && not (str_eq c.asset.object_key "")
    && not (str_eq c.asset.original_name "")
    && (str_eq c.asset.content_type "image/jpeg" || str_eq c.asset.content_type "image/png")
    && not (ltb_ℤ c.asset.size_bytes 1)
    && not (gtb_ℤ c.asset.size_bytes 10485760)
    && (len c.asset.checksum_sha256 == 64)
    && at_least 480 c.media_info.width
    && at_least 270 c.media_info.height

-- The loop over `AdditionalAssets`.
unfoldable pub upsert_covers : String → ℕ → List CoverResult → Db → Result Db
upsert_covers id now [] db = ok db
upsert_covers id now (c ∷ cs) db = do
  require (is_cover c) (invalid "download result has an invalid additional cover asset")
  upsert_covers id now cs (upsert_asset false id c.asset now db)

-- int(math.Round(seconds)), of a duration that is not negative.
abbrev rounded_seconds : Option ℤ → Option ℤ
rounded_seconds none = none
rounded_seconds (some d) = some (pos ((pos_part d + 500) / 1000))

abbrev coalesce_option : Option ℤ → Option ℤ → Option ℤ
coalesce_option none b = b
coalesce_option (some a) b = some a

abbrev pub is_transfer : Step → Bool
is_transfer s = kind_eq s.kind StepKind.download || kind_eq s.kind StepKind.media_inspect

unfoldable pub finish_download : DownloadResult → Envelope → String → ℕ → Db → Db
finish_download r env id now db = insert_workflow_audit env id "download.completed" now (record db {
  task_steps =
      update (λ s. str_eq s.task_id id && (is_transfer s && task_is_live db id))
        (λ s. record s {
          status = StepStatus.succeeded;
          progress = 100;
          finished_at = some now;
          updated_at = now;
          detail =
              if kind_eq s.kind StepKind.download then set_phase "completed" s.detail else s.detail;
          error_code = "";
          error_message = "";
        })
        db.task_steps;
  tasks =
      update (is_live_task id)
        (λ t. record t {
          status = TaskStatus.processing;
          duration_seconds =
              coalesce_option t.duration_seconds (rounded_seconds r.media_info.duration_ms);
          error_code = "";
          error_message = "";
          error_retryable = false;
          updated_at = now;
          version = t.version + 1;
        })
        db.tasks;
})

-- The body of ApplyDownloadCompleted; its check of the media info stands before the transaction.
unfoldable pub download_completed : DownloadResult → Envelope → String → ℕ → Db → Result Db
unfolding upsert_covers finish_download
download_completed r env id now db = do
  require (is_complete r.asset) (invalid "download result is missing required asset fields")
  covered ← upsert_covers id now r.additional_assets (upsert_asset false id r.asset now db)
  ok (finish_download r env id now covered)

unfoldable pub download_failed : WorkflowFailure → Envelope → String → ℕ → Db → Result Db
download_failed failure env id now db = ok (
    insert_workflow_audit env id "download.failed" now (record db {
      task_steps =
          update (λ s. is_step id StepKind.download s && task_is_live db id)
            (λ s. record s {
              status = StepStatus.failed;
              finished_at = some now;
              updated_at = now;
              detail = set_phase "failed" s.detail;
              error_code = failure.code;
              error_message = failure.message;
            })
            db.task_steps;
      tasks =
          update (is_live_task id) (fail_task failure.code failure.message failure.retryable now)
            db.tasks;
    }))
