-- ===== src/Reviews/Restarts.antt =====
-- What runs again after an operator's action: one command more, and no later stage of the task.
use visoraft.Prelude.{
  ℕ, ◌+◌, String, ◌≡◌, refl, ◌∙◌, Bool, true, false, some, none, List, ◌∷◌, ◌&&◌, str_eq, arith,
  find, exists, update, delete, find-delete_ne, exists-delete, find-update_self, exists-update_all,
}
use visoraft.Database.{
  Db, Task, Step, StepKind, MediaAsset, OutboxMessage, OutboxStatus, Command, ok, Ensures,
  committed, Ensures-or_fail, Ensures-ok, is_step, step_of, is_available, kind_eq, TranscodeRun,
  RunStatus,
}
use visoraft.Tasks.Envelope.{enqueue_command}
use visoraft.Tasks.Subtitle.{subtitle_requested_v1}
use visoraft.Tasks.Transcode.{transcode_requested_v1}
use visoraft.Tasks.TranscodeStop.{source_asset, insert_run, run_command}
use visoraft.Reviews.Reprocess.{
  queue_again, is_one_of, hide_asset, stages_after_subtitles, stages_after_transcode,
  subtitle_command, requeue_subtitles, enqueue_review_transcode,
}

-- A command that waits to be sent.
abbrev pub pending_message : String → String → String → Command → ℕ → OutboxMessage
pending_message outbox_id id event_type command now = record {
  id = outbox_id;
  aggregate_id = id;
  event_type = event_type;
  payload = command;
  status = OutboxStatus.pending;
  attempts = 0;
  available_at = now;
  locked_at = none;
  published_at = none;
  last_error = "";
  created_at = now;
}

-- An available transcoded asset of the task.
abbrev pub is_transcoded : String → MediaAsset → Bool
is_transcoded id m = str_eq m.task_id id && (str_eq m.kind "transcoded" && is_available m.status)

-- The stage of that kind waits at the next attempt for the command that was enqueued, no step of a later
-- stage is left, and neither is a transcoded asset that is available.
pub record Restarted (id : String) (kind : StepKind) (later : List StepKind)
    (message : ℕ → OutboxMessage) (now : ℕ) (db after : Db) : Type 0 where
  pub step : Step
  pub read : step_of db id kind ≡ some step
  pub waits : step_of after id kind ≡ some (queue_again (step.attempt + 1) now step)
  pub cleared : exists (is_one_of id later) after.task_steps ≡ false
  pub sent : after.outbox_messages ≡ message (step.attempt + 1) ∷ db.outbox_messages
  pub hidden : exists (is_transcoded id) after.media_assets ≡ false

subtitles_apart :
    (k : StepKind)
    → kind_eq k StepKind.subtitles ≡ true
    → exists (kind_eq k) stages_after_subtitles ≡ false
unfolding exists
subtitles_apart StepKind.subtitles h = refl
subtitles_apart _ h = cc

transcode_apart :
    (k : StepKind)
    → kind_eq k StepKind.transcode ≡ true
    → exists (kind_eq k) stages_after_transcode ≡ false
unfolding exists
transcode_apart StepKind.transcode h = refl
transcode_apart _ h = cc

-- The row of a stage that is queued again, where no later stage is of its kind.
restarted_step :
    (id : String) (kind : StepKind) (later : List StepKind) (attempt now : ℕ) (xs : List Step)
    (s : Step)
    → ((k : StepKind) → kind_eq k kind ≡ true → exists (kind_eq k) later ≡ false)
    → find (is_step id kind) xs ≡ some s
    → find
        (is_step id kind)
        (delete (is_one_of id later) (update (is_step id kind) (queue_again attempt now) xs))
      ≡ some (queue_again attempt now s)
restarted_step id kind later attempt now xs s apart read =
    find-delete_ne (is_step id kind) (is_one_of id later)
      (update (is_step id kind) (queue_again attempt now) xs) (λ x h. ground (arith, apart x.kind))
    ∙ find-update_self (is_step id kind) (queue_again attempt now) xs s (λ x. refl) read

abbrev pub subtitle_message : (ℕ → String) → String → Task → ℕ → ℕ → OutboxMessage
subtitle_message ids id t now attempt =
    pending_message (ids 3) id subtitle_requested_v1 (subtitle_command id t attempt) now

abbrev pub transcode_message : (ℕ → String) → String → Task → ℕ → ℕ → OutboxMessage
transcode_message ids id t now attempt =
    pending_message (ids 3) id transcode_requested_v1 (run_command t attempt (ids 2)) now

requeue_subtitles-Restarted :
    (ids : ℕ → String) (id : String) (t : Task) (now : ℕ) (db : Db)
    → Ensures
        (Restarted id StepKind.subtitles stages_after_subtitles
          (subtitle_message ids id t now)
          now
          db)
        (requeue_subtitles ids id t now db)
unfolding requeue_subtitles enqueue_command
requeue_subtitles-Restarted ids id t now db = Ensures-or_fail _ _ _ (λ s read. committed (record {
  step = s;
  read = read;
  waits =
      restarted_step id StepKind.subtitles stages_after_subtitles (s.attempt + 1) now db.task_steps
        s subtitles_apart read;
  cleared = exists-delete (is_one_of id stages_after_subtitles) _;
  sent = refl;
  hidden =
      exists-update_all (is_transcoded id) _ (hide_asset now) db.media_assets (λ m. ground arith);
}))

-- Reprocessing the subtitles restarts their stage: it waits at the next attempt, one command asks a worker
-- for that attempt, the steps of transcode, moderation, review and publish are gone, and no transcoded
-- asset is left that a later stage could take for the new one.
pub requeue_subtitles-restarts :
    (ids : ℕ → String) (id : String) (t : Task) (now : ℕ) (db after : Db)
    → requeue_subtitles ids id t now db ≡ ok after
    → Restarted id StepKind.subtitles stages_after_subtitles
        (subtitle_message ids id t now)
        now
        db
        after
requeue_subtitles-restarts ids id t now db after h =
    Ensures-ok (requeue_subtitles-Restarted ids id t now db) h

-- A transcode run of the task that waits for a worker at that attempt, and reads that asset.
abbrev pub AwaitsTranscode : String → Task → ℕ → String → TranscodeRun → Type 0
AwaitsTranscode run_id t attempt input r =
    (r.id ≡ run_id)
    × (r.task_id ≡ t.id)
    × (r.attempt ≡ attempt)
    × (r.input_asset_id ≡ input)
    × (r.status ≡ RunStatus.queued)

-- The newest run is the one that the command names, at the step's attempt, over the newest source.
pub record Rerun (ids : ℕ → String) (id : String) (t : Task) (now : ℕ) (db after : Db)
    : Type 0 where
  pub restarted :
      Restarted id StepKind.transcode stages_after_transcode
        (transcode_message ids id t now)
        now
        db
        after
  pub source : MediaAsset
  pub input : source_asset id db.media_assets ≡ some source
  pub run : TranscodeRun
  pub newest : after.transcode_runs ≡ run ∷ db.transcode_runs
  pub awaits : AwaitsTranscode (ids 2) t (restarted.step.attempt + 1) source.id run

enqueue_review_transcode-Rerun :
    (ids : ℕ → String) (id : String) (t : Task) (now : ℕ) (db : Db)
    → Ensures (Rerun ids id t now db) (enqueue_review_transcode ids id t now db)
unfolding enqueue_review_transcode enqueue_command insert_run
enqueue_review_transcode-Rerun ids id t now db = Ensures-or_fail _ _ _ (λ s read.
    Ensures-or_fail _ _ _ (λ source found. committed (record {
      restarted = record {
        step = s;
        read = read;
        waits =
            restarted_step id StepKind.transcode stages_after_transcode (s.attempt + 1) now
              db.task_steps s transcode_apart read;
        cleared = exists-delete (is_one_of id stages_after_transcode) _;
        sent = refl;
        hidden =
            exists-update_all (is_transcoded id) _ (hide_asset now) db.media_assets
              (λ m. ground arith);
      };
      source = source;
      input = found;
      run = _;
      newest = refl;
      awaits = (refl, refl, refl, refl, refl);
    })))

-- After a subtitle was edited, the transcode restarts: its step waits at the next attempt, a new run at
-- that attempt reads the newest source that is available, the one command that is sent names that run
-- and that attempt, the steps of moderation, review and publish are gone, and the transcoded asset
-- with the old subtitle is hidden.
pub enqueue_review_transcode-restarts :
    (ids : ℕ → String) (id : String) (t : Task) (now : ℕ) (db after : Db)
    → enqueue_review_transcode ids id t now db ≡ ok after
    → Rerun ids id t now db after
enqueue_review_transcode-restarts ids id t now db after h =
    Ensures-ok (enqueue_review_transcode-Rerun ids id t now db) h
