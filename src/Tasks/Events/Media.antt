-- ===== src/Tasks/Events/Media.antt =====
-- What the bodies of the metadata, download, inspection and asset events do.
use visoraft.Prelude.{
  ℕ, String, refl, Bool, true, false, List, [], ◌∷◌, arith, max, exists, Bool-cases, inl, inr,
  str_eq,
}
use visoraft.Database.{
  Db, StepKind, is_step, terminal_workflow_status, Result, Ensures, committed, Ensures-require,
  Ensures-or_fail, Ensures-bind, task_is_live,
}
use visoraft.Tasks.Envelope.{Envelope, WorkflowFailure, insert_workflow_audit, enqueue_command}
use visoraft.Tasks.Metadata.{
  Metadata, is_before_metadata, metadata_started, metadata_completed, metadata_failed,
}
use visoraft.Tasks.Assets.{upsert_asset, assets_deleted, assets_delete_failed}
use visoraft.Tasks.Download.{
  DownloadProgress, DownloadResult, CoverResult, upsert_covers, finish_download, download_started,
  download_progress, download_completed, download_failed,
}
use visoraft.Tasks.Cancellation.{
  WorkflowCancellation, download_cancelled, act_on_cancellation, download_cancellation_decision,
  stop_download, requeue_paused_download,
}
use visoraft.Tasks.Inspect.{
  start_inspection, media_inspect_started, media_inspect_completed, media_inspect_failed,
}
use visoraft.Tasks.Events.Effect.{
  Effect, Effect-refl, Effect-trans, TasksEffect-refl, live_update-TasksEffect,
  guarded_update-TasksEffect, read_update-TasksEffect, keeping_update-TasksEffect, StepsEffect,
  StepsEffect-refl, StepsEffect-trans, update-StepsEffect, cons-StepsEffect,
  insert_step-StepsEffect,
}

-- The body commits no more than what an event for the task may do.
abbrev pub Keeps : String → Db → Result Db → Type 0
Keeps id db = Ensures (Effect id db)

module _ (ids : ℕ → String) (env : Envelope) (id : String) (now : ℕ) (db : Db) where
  pub metadata_started-Effect : Keeps id db (metadata_started env id now db)
  unfolding metadata_started insert_workflow_audit
  metadata_started-Effect = committed (record {
    tasks =
        guarded_update-TasksEffect id is_before_metadata _ db.tasks (λ s e. ground arith)
          (λ t. refl);
    steps = update-StepsEffect id _ _ db.task_steps (λ s e. rw e) (λ o k s. refl);
    consumed = refl;
  })

  pub metadata_completed-Effect :
      (metadata : Metadata) → Keeps id db (metadata_completed ids metadata env id now db)
  unfolding metadata_completed insert_workflow_audit enqueue_command
  metadata_completed-Effect metadata = elim (Bool-cases (task_is_live db id)) [
    | inl live ↦ rw live (
        Ensures-or_fail _ _ _ (λ t e. committed (record {
          tasks = live_update-TasksEffect id _ db.tasks (λ t. refl);
          steps =
              StepsEffect-trans id
                (StepsEffect-trans id
                  (update-StepsEffect id _ _ db.task_steps (λ s e. rw e) (λ o k s. refl))
                  (insert_step-StepsEffect id _ _ refl))
                (insert_step-StepsEffect id _ _ refl);
          consumed = refl;
        })))
    | inr dead ↦ rw dead (
        committed (record {
          tasks = live_update-TasksEffect id _ db.tasks (λ t. refl);
          steps = update-StepsEffect id _ _ db.task_steps (λ s e. rw e) (λ o k s. refl);
          consumed = refl;
        }))
  ]

  pub metadata_failed-Effect :
      (failure : WorkflowFailure) → Keeps id db (metadata_failed failure env id now db)
  unfolding metadata_failed insert_workflow_audit
  metadata_failed-Effect failure = committed (record {
    tasks = live_update-TasksEffect id _ db.tasks (λ t. refl);
    steps = update-StepsEffect id _ _ db.task_steps (λ s e. rw e) (λ o k s. refl);
    consumed = refl;
  })

  pub download_started-Effect : Keeps id db (download_started env id now db)
  unfolding download_started insert_workflow_audit
  download_started-Effect = committed (record {
    tasks = live_update-TasksEffect id _ db.tasks (λ t. refl);
    steps = update-StepsEffect id _ _ db.task_steps (λ s e. rw e) (λ o k s. refl);
    consumed = refl;
  })

  pub download_progress-Effect :
      (p : DownloadProgress) → Keeps id db (download_progress p id now db)
  unfolding download_progress
  download_progress-Effect p = Ensures-require _ _ _ (λ _. committed (record {
    tasks = TasksEffect-refl id db.tasks;
    steps = update-StepsEffect id _ _ db.task_steps (λ s e. rw e) (λ o k s. refl);
    consumed = refl;
  }))

  upsert_covers-Effect :
      (cs : List CoverResult) (before : Db)
      → Effect id db before
      → Ensures (Effect id db) (upsert_covers id now cs before)
  unfolding upsert_covers upsert_asset
  upsert_covers-Effect [] before e = committed e
  upsert_covers-Effect (c ∷ cs) before e = Ensures-require _ _ _ (λ _.
      upsert_covers-Effect cs (upsert_asset false id c.asset now before)
        (record { tasks = e.tasks; steps = e.steps; consumed = e.consumed }))

  pub download_completed-Effect :
      (r : DownloadResult) → Keeps id db (download_completed r env id now db)
  unfolding download_completed finish_download upsert_asset insert_workflow_audit
  download_completed-Effect r = Ensures-require _ _ _ (λ _.
      Ensures-bind _
        (upsert_covers-Effect r.additional_assets (upsert_asset false id r.asset now db) (record {
          tasks = TasksEffect-refl id db.tasks;
          steps = StepsEffect-refl id db.task_steps;
          consumed = refl;
        }))
        (λ covered kept. committed (
          Effect-trans kept (record {
            tasks = live_update-TasksEffect id _ covered.tasks (λ t. refl);
            steps = update-StepsEffect id _ _ covered.task_steps (λ s e. rw e) (λ o k s. refl);
            consumed = refl;
          }))))

  pub download_failed-Effect :
      (failure : WorkflowFailure) → Keeps id db (download_failed failure env id now db)
  unfolding download_failed insert_workflow_audit
  download_failed-Effect failure = committed (record {
    tasks = live_update-TasksEffect id _ db.tasks (λ t. refl);
    steps = update-StepsEffect id _ _ db.task_steps (λ s e. rw e) (λ o k s. refl);
    consumed = refl;
  })

  requeue_paused_download-Effect :
      (event : WorkflowCancellation) → Keeps id db (requeue_paused_download ids event env id now db)
  unfolding requeue_paused_download insert_workflow_audit enqueue_command
  requeue_paused_download-Effect event = Ensures-or_fail _ _ _ (λ t read.
      elim (Bool-cases (terminal_workflow_status t.status)) [
        | inl final ↦ rw final (committed (Effect-refl id db))
        | inr live ↦ rw live (
            committed (record {
              tasks = read_update-TasksEffect id _ db.tasks t read live (λ t. refl);
              steps =
                  StepsEffect-trans id
                    (update-StepsEffect id _ _ db.task_steps (λ s e. rw e) (λ o k s. refl))
                    (update-StepsEffect id _ _ _ (λ s e. rw e) (λ o k s. refl));
              consumed = refl;
            }))
      ])

  act_on_cancellation-Effect :
      (decided : WorkflowCancellation × Bool)
      → Keeps id db (act_on_cancellation ids decided env id now db)
  unfolding act_on_cancellation stop_download insert_workflow_audit
  act_on_cancellation-Effect (event, true) = committed (record {
    tasks = TasksEffect-refl id db.tasks;
    steps = StepsEffect-refl id db.task_steps;
    consumed = refl;
  })
  act_on_cancellation-Effect (event, false) =
      elim (Bool-cases (str_eq event.control_state "paused")) [
        | inl paused ↦ rw paused (requeue_paused_download-Effect event)
        | inr stopped ↦ rw stopped (
            committed (record {
              tasks = live_update-TasksEffect id _ db.tasks (λ t. refl);
              steps = update-StepsEffect id _ _ db.task_steps (λ s e. rw e) (λ o k s. refl);
              consumed = refl;
            }))
      ]

  pub download_cancelled-Effect :
      (event : WorkflowCancellation) → Keeps id db (download_cancelled ids event env id now db)
  unfolding download_cancelled
  download_cancelled-Effect event = Ensures-require _ _ _ (λ _. Ensures-or_fail _ _ _ (λ t _.
      Ensures-or_fail _ _ _ (λ s _.
        act_on_cancellation-Effect
          (download_cancellation_decision t.status s.attempt s.detail.phase event))))

  start_inspection-Effect :
      (attempt : ℕ) → StepsEffect id db.task_steps (start_inspection id attempt now db)
  unfolding start_inspection
  start_inspection-Effect attempt = elim (Bool-cases (task_is_live db id)) [
    | inr dead ↦ rw dead (StepsEffect-refl id db.task_steps)
    | inl live ↦
        rw live (elim (Bool-cases (exists (is_step id StepKind.media_inspect) db.task_steps)) [
          | inl there ↦
              rw there (update-StepsEffect id _ _ db.task_steps (λ s e. rw e) (λ o k s. refl))
          | inr new ↦ rw new (cons-StepsEffect id _ db.task_steps refl)
        ])
  ]

  pub media_inspect_started-Effect :
      (attempt : ℕ) → Keeps id db (media_inspect_started attempt env id now db)
  unfolding media_inspect_started insert_workflow_audit
  media_inspect_started-Effect attempt = committed (record {
    tasks = live_update-TasksEffect id _ db.tasks (λ t. refl);
    steps = start_inspection-Effect (max attempt 1);
    consumed = refl;
  })

  pub media_inspect_completed-Effect : Keeps id db (media_inspect_completed env id now db)
  unfolding media_inspect_completed insert_workflow_audit
  media_inspect_completed-Effect = committed (record {
    tasks = live_update-TasksEffect id _ db.tasks (λ t. refl);
    steps = update-StepsEffect id _ _ db.task_steps (λ s e. rw e) (λ o k s. refl);
    consumed = refl;
  })

  pub media_inspect_failed-Effect :
      (failure : WorkflowFailure) → Keeps id db (media_inspect_failed failure env id now db)
  unfolding media_inspect_failed insert_workflow_audit
  media_inspect_failed-Effect failure = committed (record {
    tasks = live_update-TasksEffect id _ db.tasks (λ t. refl);
    steps =
        StepsEffect-trans id (update-StepsEffect id _ _ db.task_steps (λ s e. rw e) (λ o k s. refl))
          (update-StepsEffect id _ _ _ (λ s e. rw e) (λ o k s. refl));
    consumed = refl;
  })

  pub assets_deleted-Effect :
      (assets : List String) → Keeps id db (assets_deleted assets env id now db)
  unfolding assets_deleted insert_workflow_audit
  assets_deleted-Effect assets = committed (record {
    tasks = keeping_update-TasksEffect id _ db.tasks (λ t. refl) (λ t. refl);
    steps = StepsEffect-refl id db.task_steps;
    consumed = refl;
  })

  pub assets_delete_failed-Effect :
      (assets : List String) (code message : String)
      → Keeps id db (assets_delete_failed assets code message env id now db)
  unfolding assets_delete_failed insert_workflow_audit
  assets_delete_failed-Effect assets code message = committed (record {
    tasks = keeping_update-TasksEffect id _ db.tasks (λ t. refl) (λ t. refl);
    steps = StepsEffect-refl id db.task_steps;
    consumed = refl;
  })
