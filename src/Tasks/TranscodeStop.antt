-- ===== src/Tasks/TranscodeStop.antt =====
-- A transcode that stopped: ApplyTranscodeCancelled and requeuePausedTranscodeTx of
-- internal/tasks/postgres_store.go.
use visoraft.Prelude.{
  ℕ, ◌+◌, String, Option, none, some, List, [], ◌∷◌, ◌&&◌, not, str_eq, max, ltb, ◌==◌, update,
  if◌then◌else◌,
}
use visoraft.Database.{
  Db, Task, MediaAsset, Command, Result, ok, invalid, require, or_fail, ◌>>◌, ◌>>=◌, TaskStatus,
  StepKind, StepStatus, RunStatus, run_is_active, step_is_active, is_available, is_step,
  has_task_id, task_of, step_of, terminal_workflow_status, not_found,
}
use visoraft.Tasks.Envelope.{
  attempt_or_zero, Envelope, insert_workflow_audit, enqueue_command, is_live_task, move_task,
}
use visoraft.Tasks.Download.{set_phase, is_foreign}
use visoraft.Tasks.Transcode.{transcode_requested_v1, is_run}

pub record TranscodeCancellation : Type 0 where
  pub task_id : String
  pub run_id : String
  pub attempt : ℕ
  pub message : String
  pub control_state : String

-- SELECT id … WHERE kind='source' AND status='available' ORDER BY created_at DESC LIMIT 1
abbrev pub newest : MediaAsset → Option MediaAsset → MediaAsset
newest m none = m
newest m (some n) = if ltb m.created_at n.created_at then n else m

unfoldable pub source_asset : String → List MediaAsset → Option MediaAsset
source_asset id [] = none
source_asset id (m ∷ ms) =
    let rest = source_asset id ms in
    if str_eq m.task_id id && (str_eq m.kind "source" && is_available m.status)
    then some (newest m rest)
    else rest

-- The preset of the frozen strategy, or that of the strategy that the task refers to.
abbrev pub preset_of : Task → Option String
preset_of t = elim t.settings_snapshot.posting_strategy [
  | none ↦ t.strategy_preset_id
  | some s ↦ s.transcode_preset_id
]

-- INSERT INTO transcode_runs … 'queued' … progress 0
unfoldable pub insert_run : String → Task → ℕ → String → ℕ → Db → Db
insert_run run_id t attempt input_asset_id now db = record db {
  transcode_runs =
      record {
        id = run_id;
        task_id = t.id;
        preset_id = preset_of t;
        status = RunStatus.queued;
        attempt = attempt;
        input_asset_id = input_asset_id;
        output_asset_id = none;
        resolved_encoder = "";
        progress = 0;
        error_code = "";
        error_message = "";
        started_at = none;
        completed_at = none;
        updated_at = now;
      }
      ∷ db.transcode_runs;
}

abbrev pub run_command : Task → ℕ → String → Command
run_command t attempt run_id = record {
  task_id = t.id;
  attempt = attempt;
  source_url = none;
  cookie_profile_id = none;
  run_id = some run_id;
}

unfoldable pub requeue_run :
    (ℕ → String) → TranscodeCancellation → Task → ℕ → MediaAsset → Envelope → String → ℕ → Db → Db
requeue_run ids e t next source env id now db =
    let stopped = record db {
      transcode_runs =
          update (λ r. is_run e.run_id id e.attempt r && run_is_active r.status)
            (λ r. record r {
              status = RunStatus.cancelled;
              error_message = "任务已暂停";
              completed_at = some now;
              updated_at = now;
            })
            db.transcode_runs;
      task_steps =
          update (is_step id StepKind.transcode)
            (λ s. record s {
              status = StepStatus.queued;
              attempt = next;
              detail = set_phase "paused" s.detail;
              error_code = "";
              error_message = "";
              finished_at = none;
              updated_at = now;
            })
            db.task_steps;
      tasks =
          update (has_task_id id)
            (λ t. record t {
              status = TaskStatus.processing;
              updated_at = now;
              version = t.version + 1;
            })
            db.tasks;
    } in
    insert_workflow_audit env id "transcode.paused" now (
      enqueue_command (ids 1) id transcode_requested_v1 (run_command t next (ids 0)) now
        (insert_run (ids 0) t next source.id now stopped))

unfoldable pub requeue_paused_transcode :
    (ℕ → String) → TranscodeCancellation → Envelope → String → ℕ → Db → Result Db
unfolding requeue_run
requeue_paused_transcode ids e env id now db = do
  t ← or_fail (task_of db id) not_found
  let next = max (attempt_or_zero (step_of db id StepKind.transcode)) e.attempt + 1
  if terminal_workflow_status t.status then ok db else (do
    source ←
        or_fail (source_asset id db.media_assets)
          (invalid "paused transcode source asset is missing")
    ok (requeue_run ids e t next source env id now db))

unfoldable pub stop_transcode : TranscodeCancellation → Envelope → String → ℕ → Db → Db
stop_transcode e env id now db = insert_workflow_audit env id "transcode.cancelled" now (record db {
  transcode_runs =
      update (λ r. is_run e.run_id id e.attempt r && run_is_active r.status)
        (λ r. record r {
          status = RunStatus.cancelled;
          error_code = "";
          error_message = e.message;
          completed_at = some now;
          updated_at = now;
        })
        db.transcode_runs;
  task_steps =
      update
        (λ s.
          is_step id StepKind.transcode s && (s.attempt == e.attempt && step_is_active s.status))
        (λ s. record s { status = StepStatus.cancelled; finished_at = some now; updated_at = now })
        db.task_steps;
  tasks = update (is_live_task id) (move_task TaskStatus.cancelled now) db.tasks;
})

unfoldable pub transcode_cancelled :
    (ℕ → String) → TranscodeCancellation → Envelope → String → ℕ → Db → Result Db
unfolding stop_transcode
transcode_cancelled ids e env id now db = do
  require (not (is_foreign e.task_id id))
      (invalid "transcode cancellation task id does not match subject")
  if str_eq e.control_state "paused"
      then requeue_paused_transcode ids e env id now db
      else ok (stop_transcode e env id now db)
