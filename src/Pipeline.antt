-- ===== src/Pipeline.antt =====
-- internal/pipeline/service.go: which stage follows when a stage of a task's processing has ended.
-- `reviews` stands for the Evaluate of internal/reviews, which runs after the commit.
pub mod Repeat
pub mod Chinese
use visoraft.Prelude.{
  ℕ, String, Bool, true, false, Option, none, some, List, [], ◌∷◌, ◌&&◌, ◌||◌, not, str_eq, exists,
  eqb_ℤ, if◌then◌else◌,
}
use visoraft.Database.{
  Db, Task, Step, Settings, SubtitleDecision, Command, StepKind, ModerationStatus, Result, ok, err,
  invalid, require, or_fail, ◌>>◌, ◌>>=◌, not_found, Error, Outcome, is_processing, is_step,
  task_of, step_of,
}
use visoraft.Tasks.Envelope.{enqueue_command}
use visoraft.Tasks.Metadata.{new_step}
use visoraft.Tasks.Subtitle.{subtitle_requested_v1}
use visoraft.Tasks.Transcode.{transcode_requested_v1}
use visoraft.Tasks.TranscodeStop.{source_asset, insert_run}

pub data Checkpoint : Type 0 where
  media_ready subtitles_ready transcode_ready moderation_ready : Checkpoint

abbrev pub moderation_requested_v1 : String
moderation_requested_v1 = "io.visoraft.moderation.requested.v1"

-- policy.PostingStrategy != nil && policy.PostingStrategy.RequireContentModeration
abbrev pub required_by_strategy : Settings → Bool
required_by_strategy s = elim s.posting_strategy [
  | none ↦ false
  | some strategy ↦ strategy.require_content_moderation
]

unfoldable pub terminal_stage : Settings → Option StepKind
terminal_stage s =
    if s.moderation_enabled || required_by_strategy s then some StepKind.moderation else none

unfoldable pub next_stage : Settings → Checkpoint → Option StepKind
next_stage s media_ready =
    if s.subtitle_enabled && (s.transcode_enabled && s.burn_subtitles)
    then some StepKind.subtitles
    else if s.transcode_enabled
    then some StepKind.transcode
    else if s.subtitle_enabled
    then some StepKind.subtitles
    else terminal_stage s
next_stage s subtitles_ready =
    if s.transcode_enabled && s.burn_subtitles then some StepKind.transcode else terminal_stage s
next_stage s transcode_ready =
    if s.subtitle_enabled && not s.burn_subtitles then some StepKind.subtitles else terminal_stage s
next_stage s moderation_ready = none

abbrev pub is_existing_chinese : Option SubtitleDecision → Bool
is_existing_chinese none = false
is_existing_chinese (some d) =
    eqb_ℤ d.schema_version 1
    && (str_eq d.disposition "existing_soft_chinese"
        || str_eq d.disposition "existing_hardcoded_chinese")

-- The decision is read at one checkpoint only. A task has one subtitles step at most.
abbrev pub existing_chinese : Db → String → Checkpoint → Bool
existing_chinese db id subtitles_ready = elim (step_of db id StepKind.subtitles) [
  | none ↦ false
  | some s ↦ is_existing_chinese s.detail.decision
]
existing_chinese db id _ = false

-- The stage that `advance` settles on.
unfoldable pub chosen_stage : Settings → Checkpoint → Bool → Option StepKind
chosen_stage s reached chinese =
    if chinese && s.transcode_enabled
    then some StepKind.transcode
    else next_stage (if chinese then record s { burn_subtitles = false } else s) reached

abbrev pub stage_command : String → Option String → Command
stage_command id run_id = record {
  task_id = id;
  attempt = 1;
  source_url = none;
  cookie_profile_id = none;
  run_id = run_id;
}

unfoldable pub insert_moderation_run : String → String → ℕ → Db → Db
insert_moderation_run run_id id now db = record db {
  moderation_runs =
      record {
        id = run_id;
        task_id = id;
        status = ModerationStatus.queued;
        attempt = 1;
        decision = "";
        error_code = "";
        error_message = "";
        started_at = none;
        completed_at = none;
        created_at = now;
        updated_at = now;
      }
      ∷ db.moderation_runs;
}

-- The switch over the stage: the event's type, its command, and the run that it is to work on.
pub record Stage : Type 0 where
  pub event_type : String
  pub command : Command
  pub queued : String
  pub prepared : Db

unfoldable pub prepare_stage : (ℕ → String) → Task → StepKind → Settings → ℕ → Db → Result Stage
unfolding insert_moderation_run
prepare_stage ids t StepKind.subtitles s now db = ok (record {
  event_type = subtitle_requested_v1;
  command = stage_command t.id none;
  queued = "subtitles.processing.queued";
  prepared = db;
})
prepare_stage ids t StepKind.moderation s now db = do
  require s.moderation_enabled
      (invalid "posting strategy requires content moderation but the task snapshot has it disabled")
  ok (record {
    event_type = moderation_requested_v1;
    command = stage_command t.id (some (ids 2));
    queued = "moderation.processing.queued";
    prepared = insert_moderation_run (ids 2) t.id now db;
  })
prepare_stage ids t StepKind.transcode s now db = do
  source ← or_fail (source_asset t.id db.media_assets) (invalid "load transcode input asset")
  ok (record {
    event_type = transcode_requested_v1;
    command = stage_command t.id (some (ids 2));
    queued = "transcode.processing.queued";
    prepared = insert_run (ids 2) t 1 source.id now db;
  })
prepare_stage ids t _ s now db = err (invalid "unsupported pipeline step")

-- The rows of a stage that is queued.
unfoldable pub insert_stage : (ℕ → String) → String → StepKind → Stage → ℕ → Db
insert_stage ids id kind stage now =
    let queued = enqueue_command (ids 1) id stage.event_type stage.command now stage.prepared in
    record queued {
      task_steps = new_step id kind now ∷ queued.task_steps;
      audit_events =
          record {
            aggregate_id = id;
            event_type = stage.queued;
            actor_type = "system";
            actor_id = "pipeline";
            occurred_at = now;
          }
          ∷ queued.audit_events;
    }

unfoldable pub enqueue_stage : (ℕ → String) → Task → StepKind → Settings → ℕ → Db → Result Db
unfolding prepare_stage insert_stage
enqueue_stage ids t kind s now db =
    if exists (is_step t.id kind) db.task_steps
    then ok db
    else (do stage ← prepare_stage ids t kind s now db; ok (insert_stage ids t.id kind stage now))

-- The outcome of `advance` before the review: nothing to do, a stage queued, or the review's turn.
pub data Advance : Type 0 where
  waits : Advance
  queued : Db → Advance
  evaluates : Advance

unfoldable pub advance_body : (ℕ → String) → String → Checkpoint → ℕ → Db → Result Advance
unfolding chosen_stage enqueue_stage
advance_body ids id reached now db = do
  t ← or_fail (task_of db id) not_found
  let chinese = existing_chinese db id reached
  let s = t.settings_snapshot
  let burned = if chinese then record s { burn_subtitles = false } else s
  if not (is_processing t.status) then ok waits else (elim (chosen_stage s reached chinese) [
    | none ↦ ok evaluates
    | some kind ↦ enqueue_stage ids t kind burned now db >>= (λ after. ok (queued after))
  ])

abbrev pub finish : (String → Db → Outcome) → String → Db → Result Advance → Outcome
finish reviews id db (ok waits) = (db, none)
finish reviews id db (ok (queued after)) = (after, none)
finish reviews id db (ok evaluates) = reviews id db
finish reviews id db (err e) = (db, some e)

unfoldable pub advance :
    (String → Db → Outcome) → (ℕ → String) → String → Checkpoint → ℕ → Db → Outcome
unfolding advance_body
advance reviews ids id reached now db = finish reviews id db (advance_body ids id reached now db)
