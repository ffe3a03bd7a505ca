-- ===== src/Tasks/Events/Stages.antt =====
-- What the bodies of the transcode and subtitle events do.
use visoraft.Prelude.{ℕ, String, refl, true, List, [], ◌∷◌, Bool-cases, inl, inr, str_eq}
use visoraft.Database.{
  Db, terminal_workflow_status, Ensures, committed, Ensures-require, Ensures-or_fail, Ensures-bind,
}
use visoraft.Tasks.Envelope.{Envelope, WorkflowFailure, insert_workflow_audit, enqueue_command}
use visoraft.Tasks.Assets.{AssetResult, upsert_asset}
use visoraft.Tasks.Transcode.{
  TranscodeEvent, TranscodeResult, TranscodeFailure, transcode_started, transcode_progress,
  transcode_completed, finish_transcode, transcode_failed,
}
use visoraft.Tasks.TranscodeStop.{
  TranscodeCancellation, transcode_cancelled, stop_transcode, requeue_paused_transcode, requeue_run,
  insert_run,
}
use visoraft.Tasks.SubtitleResult.{SubtitleResult, DocumentResult}
use visoraft.Tasks.Subtitle.{
  SubtitleProgress, subtitle_started, subtitle_progress, upsert_assets, insert_document,
  insert_documents, finish_subtitles, subtitle_completed, requeue_paused_subtitle, subtitle_failed,
}
use visoraft.Tasks.Events.Effect.{
  Effect, Effect-refl, Effect-trans, TasksEffect-refl, live_update-TasksEffect,
  read_update-TasksEffect, update-StepsEffect,
}
use visoraft.Tasks.Events.Media.{Keeps}

module _ (ids : ℕ → String) (env : Envelope) (id : String) (now : ℕ) (db : Db) where
  pub transcode_started-Effect :
      (e : TranscodeEvent) → Keeps id db (transcode_started e env id now db)
  unfolding transcode_started insert_workflow_audit
  transcode_started-Effect e = Ensures-require _ _ _ (λ _. Ensures-require _ _ _ (λ _.
      committed (record {
        tasks = live_update-TasksEffect id _ db.tasks (λ t. refl);
        steps = update-StepsEffect id _ _ db.task_steps (λ s e. rw e) (λ o k s. refl);
        consumed = refl;
      })))

  pub transcode_progress-Effect :
      (e : TranscodeEvent) → Keeps id db (transcode_progress e id now db)
  unfolding transcode_progress
  transcode_progress-Effect e = Ensures-require _ _ _ (λ _. Ensures-require _ _ _ (λ _.
      committed (record {
        tasks = TasksEffect-refl id db.tasks;
        steps = update-StepsEffect id _ _ db.task_steps (λ s e. rw e) (λ o k s. refl);
        consumed = refl;
      })))

  pub transcode_completed-Effect :
      (r : TranscodeResult) → Keeps id db (transcode_completed r env id now db)
  unfolding transcode_completed finish_transcode upsert_asset insert_workflow_audit
  transcode_completed-Effect r = Ensures-require _ _ _ (λ _. Ensures-require _ _ _ (λ _.
      Ensures-require _ _ _ (λ _. Ensures-require _ _ _ (λ _. committed (record {
        tasks = live_update-TasksEffect id _ db.tasks (λ t. refl);
        steps = update-StepsEffect id _ _ db.task_steps (λ s e. rw e) (λ o k s. refl);
        consumed = refl;
      })))))

  pub transcode_failed-Effect :
      (e : TranscodeFailure) → Keeps id db (transcode_failed e env id now db)
  unfolding transcode_failed insert_workflow_audit
  transcode_failed-Effect e = Ensures-require _ _ _ (λ _. Ensures-require _ _ _ (λ _.
      committed (record {
        tasks = live_update-TasksEffect id _ db.tasks (λ t. refl);
        steps = update-StepsEffect id _ _ db.task_steps (λ s e. rw e) (λ o k s. refl);
        consumed = refl;
      })))

  requeue_paused_transcode-Effect :
      (e : TranscodeCancellation) → Keeps id db (requeue_paused_transcode ids e env id now db)
  unfolding requeue_paused_transcode requeue_run insert_run insert_workflow_audit enqueue_command
  requeue_paused_transcode-Effect e = Ensures-or_fail _ _ _ (λ t read.
      elim (Bool-cases (terminal_workflow_status t.status)) [
        | inl final ↦ rw final (committed (Effect-refl id db))
        | inr live ↦ rw live (
            Ensures-or_fail _ _ _ (λ source _. committed (record {
              tasks = read_update-TasksEffect id _ db.tasks t read live (λ t. refl);
              steps = update-StepsEffect id _ _ db.task_steps (λ s e. rw e) (λ o k s. refl);
              consumed = refl;
            })))
      ])

  pub transcode_cancelled-Effect :
      (e : TranscodeCancellation) → Keeps id db (transcode_cancelled ids e env id now db)
  unfolding transcode_cancelled stop_transcode insert_workflow_audit
  transcode_cancelled-Effect e = Ensures-require _ _ _ (λ _.
      elim (Bool-cases (str_eq e.control_state "paused")) [
        | inl paused ↦ rw paused (requeue_paused_transcode-Effect e)
        | inr stopped ↦ rw stopped (
            committed (record {
              tasks = live_update-TasksEffect id _ db.tasks (λ t. refl);
              steps = update-StepsEffect id _ _ db.task_steps (λ s e. rw e) (λ o k s. refl);
              consumed = refl;
            }))
      ])

  pub subtitle_started-Effect : Keeps id db (subtitle_started env id now db)
  unfolding subtitle_started insert_workflow_audit
  subtitle_started-Effect = committed (record {
    tasks = live_update-TasksEffect id _ db.tasks (λ t. refl);
    steps = update-StepsEffect id _ _ db.task_steps (λ s e. rw e) (λ o k s. refl);
    consumed = refl;
  })

  pub subtitle_progress-Effect :
      (p : SubtitleProgress) → Keeps id db (subtitle_progress p id now db)
  unfolding subtitle_progress
  subtitle_progress-Effect p = Ensures-require _ _ _ (λ _. committed (record {
    tasks = TasksEffect-refl id db.tasks;
    steps = update-StepsEffect id _ _ db.task_steps (λ s e. rw e) (λ o k s. refl);
    consumed = refl;
  }))

  upsert_assets-Effect :
      (rest : List AssetResult) (before : Db)
      → Effect id db before
      → Ensures (Effect id db) (upsert_assets id now rest before)
  unfolding upsert_assets upsert_asset
  upsert_assets-Effect [] before e = committed e
  upsert_assets-Effect (a ∷ rest) before e = Ensures-require _ _ _ (λ _.
      upsert_assets-Effect rest (upsert_asset true id a now before)
        (record { tasks = e.tasks; steps = e.steps; consumed = e.consumed }))

  insert_documents-Effect :
      (rest : List DocumentResult) (before : Db)
      → Effect id db before
      → Ensures (Effect id db) (insert_documents id now rest before)
  unfolding insert_documents insert_document
  insert_documents-Effect [] before e = committed e
  insert_documents-Effect (d ∷ rest) before e = Ensures-require _ _ _ (λ _.
      insert_documents-Effect rest (insert_document id now d before)
        (record { tasks = e.tasks; steps = e.steps; consumed = e.consumed }))

  pub subtitle_completed-Effect :
      (r : SubtitleResult) → Keeps id db (subtitle_completed r env id now db)
  unfolding subtitle_completed finish_subtitles insert_workflow_audit
  subtitle_completed-Effect r =
      Ensures-bind _ (upsert_assets-Effect r.assets db (Effect-refl id db)) (λ stored kept.
        Ensures-bind _ (insert_documents-Effect r.documents stored kept) (λ written still.
          committed (
            Effect-trans still (record {
              tasks = live_update-TasksEffect id _ written.tasks (λ t. refl);
              steps = update-StepsEffect id _ _ written.task_steps (λ s e. rw e) (λ o k s. refl);
              consumed = refl;
            }))))

  requeue_paused_subtitle-Effect :
      (failure : WorkflowFailure) → Keeps id db (requeue_paused_subtitle ids failure env id now db)
  unfolding requeue_paused_subtitle insert_workflow_audit enqueue_command
  requeue_paused_subtitle-Effect failure = Ensures-or_fail _ _ _ (λ t read.
      elim (Bool-cases (terminal_workflow_status t.status)) [
        | inl final ↦ rw final (committed (Effect-refl id db))
        | inr live ↦ rw live (
            committed (record {
              tasks = read_update-TasksEffect id _ db.tasks t read live (λ t. refl);
              steps = update-StepsEffect id _ _ db.task_steps (λ s e. rw e) (λ o k s. refl);
              consumed = refl;
            }))
      ])

  pub subtitle_failed-Effect :
      (failure : WorkflowFailure) → Keeps id db (subtitle_failed ids failure env id now db)
  unfolding subtitle_failed insert_workflow_audit
  subtitle_failed-Effect failure = elim (Bool-cases (str_eq failure.control_state "paused")) [
    | inl paused ↦ rw paused (requeue_paused_subtitle-Effect failure)
    | inr stopped ↦ rw stopped (
        committed (record {
          tasks = live_update-TasksEffect id _ db.tasks (λ t. refl);
          steps = update-StepsEffect id _ _ db.task_steps (λ s e. rw e) (λ o k s. refl);
          consumed = refl;
        }))
  ]
