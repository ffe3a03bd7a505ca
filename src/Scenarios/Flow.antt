-- ===== src/Scenarios/Flow.antt =====
-- The stages of concrete tasks.
use visoraft.Prelude.{ℕ, String, ◌≡◌, refl, true, false, none, some, [], ◌∷◌, pos}
use visoraft.Database.{Db, TaskStatus, StepKind, StepStatus, Result, ok, Outcome}
use visoraft.Pipeline.{Checkpoint, Advance, advance_body, advance}
use visoraft.Pipeline.Chinese.{advance-stalls}
use visoraft.Scenarios.Rows.{empty_db, task_in, step_in, source_of}

abbrev new_ids : ℕ → String
new_ids n = "00000000-0000-4000-8000-000000000000"

abbrev ready : Db
ready = record empty_db {
  tasks = task_in "a" TaskStatus.processing ∷ [];
  media_assets = source_of "a" ∷ [];
}

abbrev queued_db : Result Advance → Db
queued_db (ok (Advance.queued db)) = db
queued_db _ = empty_db

abbrev transcoding : Db
transcoding = queued_db (advance_body new_ids "a" Checkpoint.media_ready 50 ready)

-- The transcode has succeeded, and the source turned out to have Chinese subtitles.
abbrev chinese : Db
chinese = record ready {
  task_steps =
      step_in "a" StepKind.transcode StepStatus.succeeded
      ∷ record (step_in "a" StepKind.subtitles StepStatus.succeeded) {
        detail = record {
          phase = "completed";
          decision = some (record {
            schema_version = pos 1;
            disposition = "existing_soft_chinese";
            burn_subtitles = false;
          });
        };
      }
      ∷ [];
}

abbrev no_review : String → Db → Outcome
no_review id db = (empty_db, none)

advance-stalls_example :
    advance no_review new_ids "a" Checkpoint.subtitles_ready 50 chinese ≡ (chinese, none)
unfolding visoraft.Prelude.find visoraft.Prelude.exists
advance-stalls_example =
    advance-stalls no_review new_ids "a" 50 chinese (task_in "a" TaskStatus.processing) refl refl
      refl refl refl
