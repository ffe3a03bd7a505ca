-- ===== src/Tasks/Subtitle.antt =====
-- The subtitle events of internal/tasks/postgres_store.go.
use visoraft.Prelude.{
  ℕ, ◌+◌, String, Bool, true, none, some, List, [], ◌∷◌, ◌&&◌, not, str_eq, len, trim_space, max,
  ltb, ◌==◌, update, if◌then◌else◌,
}
use visoraft.Database.{
  Db, SubtitleDocument, Detail, Command, Result, ok, invalid, require, or_fail, ◌>>◌, ◌>>=◌,
  TaskStatus, StepKind, StepStatus, step_is_active, step_is_running, is_step, has_task_id, task_of,
  step_of, terminal_workflow_status, not_found,
}
use visoraft.Tasks.Envelope.{
  attempt_or_zero, Envelope, WorkflowFailure, insert_workflow_audit, enqueue_command, is_live_task,
  fail_task, move_task, coalesce,
}
use visoraft.Tasks.Assets.{AssetResult, upsert_asset}
use visoraft.Tasks.Download.{set_phase, is_complete}
use visoraft.Tasks.SubtitleResult.{SubtitleResult, DocumentResult, is_document}

abbrev pub subtitle_requested_v1 : String
subtitle_requested_v1 = "io.visoraft.subtitle.process.requested.v1"

unfoldable pub subtitle_started : Envelope → String → ℕ → Db → Result Db
subtitle_started env id now db = ok (
    insert_workflow_audit env id "subtitle.processing.started" now (record db {
      task_steps =
          update (λ s. is_step id StepKind.subtitles s && step_is_active s.status)
            (λ s. record s {
              status = StepStatus.running;
              progress = 5;
              started_at = some (coalesce s.started_at now);
              updated_at = now;
              error_code = "";
              error_message = "";
            })
            db.task_steps;
      tasks = update (is_live_task id) (move_task TaskStatus.processing now) db.tasks;
    }))

pub record SubtitleProgress : Type 0 where
  pub task_id : String
  pub attempt : ℕ
  pub progress : ℕ
  pub phase : String
  pub remote_task_id : String
  pub remote_status : String

-- The check before the transaction, of the progress with its phase trimmed.
unfoldable pub valid_subtitle_progress : SubtitleProgress → Bool
valid_subtitle_progress p =
    not (str_eq p.task_id "")
    && ltb 0 p.attempt
    && ltb 5 p.progress
    && ltb p.progress 100
    && not (str_eq (trim_space p.phase) "")
    && not (ltb 64 (len (trim_space p.phase)))
    && not (ltb 256 (len p.remote_task_id))
    && not (ltb 64 (len p.remote_status))

unfoldable pub subtitle_progress : SubtitleProgress → String → ℕ → Db → Result Db
subtitle_progress p id now db = do
  require (str_eq p.task_id id) (invalid "subtitle progress task id does not match subject")
  ok (record db {
    task_steps =
        update
          (λ s.
            is_step id StepKind.subtitles s && (s.attempt == p.attempt && step_is_running s.status))
          (λ s. record s {
            progress = max s.progress p.progress;
            detail = record { phase = trim_space p.phase; decision = none };
            updated_at = now;
          })
          db.task_steps;
  })

-- The loop over the assets.
unfoldable pub upsert_assets : String → ℕ → List AssetResult → Db → Result Db
upsert_assets id now [] db = ok db
upsert_assets id now (a ∷ rest) db = do
  require (is_complete a) (invalid "subtitle result contains an invalid asset")
  upsert_assets id now rest (upsert_asset true id a now db)

-- COALESCE(max(version),0)
latest_version : String → String → List SubtitleDocument → ℕ
latest_version id kind [] = 0
latest_version id kind (d ∷ ds) =
    max (if str_eq d.task_id id && str_eq d.kind kind then d.version else 0)
      (latest_version id kind ds)

unfoldable pub insert_document : String → ℕ → DocumentResult → Db → Db
unfolding latest_version
insert_document id now d db = record db {
  subtitle_documents =
      record {
        id = d.document_id;
        task_id = id;
        kind = d.kind;
        language = d.language;
        version = latest_version id d.kind db.subtitle_documents + 1;
        source = d.source;
        qc_score = d.qc_score;
        created_at = now;
      }
      ∷ db.subtitle_documents;
}

-- The loop over the documents.
unfoldable pub insert_documents : String → ℕ → List DocumentResult → Db → Result Db
insert_documents id now [] db = ok db
insert_documents id now (d ∷ rest) db = do
  require (is_document d) (invalid "subtitle result contains an invalid document")
  insert_documents id now rest (insert_document id now d db)

-- {"phase": "completed", "decision": …}
abbrev pub completion_detail : SubtitleResult → Detail
completion_detail r = record {
  phase = "completed";
  decision = some (record {
    schema_version = r.decision.schema_version;
    disposition = r.decision.disposition;
    burn_subtitles = r.decision.burn_subtitles;
  });
}

unfoldable pub finish_subtitles : SubtitleResult → Envelope → String → ℕ → Db → Db
finish_subtitles r env id now db =
    insert_workflow_audit env id "subtitle.processing.completed" now (record db {
      task_steps =
          update (is_step id StepKind.subtitles)
            (λ s. record s {
              status = StepStatus.succeeded;
              progress = 100;
              finished_at = some now;
              updated_at = now;
              detail = completion_detail r;
              error_code = "";
              error_message = "";
            })
            db.task_steps;
      tasks = update (is_live_task id) (move_task TaskStatus.processing now) db.tasks;
    })

-- The body of ApplySubtitleCompleted, of a result that `validate_subtitle_result` has accepted.
unfoldable pub subtitle_completed : SubtitleResult → Envelope → String → ℕ → Db → Result Db
unfolding upsert_assets insert_documents insert_document finish_subtitles
subtitle_completed r env id now db = do
  stored ← upsert_assets id now r.assets db
  written ← insert_documents id now r.documents stored
  ok (finish_subtitles r env id now written)

abbrev plain_command : String → ℕ → Command
plain_command id attempt = record {
  task_id = id;
  attempt = attempt;
  source_url = none;
  cookie_profile_id = none;
  run_id = none;
}

unfoldable pub requeue_paused_subtitle :
    (ℕ → String) → WorkflowFailure → Envelope → String → ℕ → Db → Result Db
requeue_paused_subtitle ids failure env id now db = do
  t ← or_fail (task_of db id) not_found
  let next = max (attempt_or_zero (step_of db id StepKind.subtitles)) failure.attempt + 1
  if terminal_workflow_status t.status
      then ok db
      else ok (
          insert_workflow_audit env id "subtitle.processing.paused" now (
            enqueue_command (ids 0) id subtitle_requested_v1 (plain_command id next) now
              (record db {
                task_steps =
                    update (is_step id StepKind.subtitles)
                      (λ s. record s {
                        status = StepStatus.queued;
                        attempt = next;
                        detail = set_phase "paused" s.detail;
                        error_code = "";
                        error_message = "";
                        finished_at = none;
                        updated_at = now;
                      })
                      db.task_steps;
                tasks =
                    update (has_task_id id)
                      (λ t. record t {
                        status = TaskStatus.processing;
                        updated_at = now;
                        version = t.version + 1;
                      })
                      db.tasks;
              })))

unfoldable pub subtitle_failed :
    (ℕ → String) → WorkflowFailure → Envelope → String → ℕ → Db → Result Db
subtitle_failed ids failure env id now db =
    if str_eq failure.control_state "paused"
    then requeue_paused_subtitle ids failure env id now db
    else ok (
        insert_workflow_audit env id "subtitle.processing.failed" now (record db {
          task_steps =
              update (is_step id StepKind.subtitles)
                (λ s. record s {
                  status = StepStatus.failed;
                  finished_at = some now;
                  updated_at = now;
                  detail = set_phase "failed" s.detail;
                  error_code = failure.code;
                  error_message = failure.message;
                })
                db.task_steps;
          tasks =
              update (is_live_task id)
                (fail_task failure.code failure.message failure.retryable now) db.tasks;
        }))
