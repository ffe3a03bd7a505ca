-- ===== src/Workflow.antt =====
-- internal/workflow/consumer.go: an event is applied, and then the pipeline has its turn. `reviews` is the
-- Evaluate of internal/reviews, as in Pipeline.
pub mod Redelivery
pub mod Moderation
use Prim.Native.String.{◌++◌ as str_append}
use visoraft.Prelude.{ℕ, ◌+◌, String, Option, none, some, false, true}
use visoraft.Database.{Db, Error, not_found, conflict, invalid, Result, ok, err, Outcome}
use visoraft.Tasks.Envelope.{Envelope, WorkflowFailure}
use visoraft.Tasks.SubtitleResult.{SubtitleResult, validate_subtitle_result}
use visoraft.Tasks.Events.{WorkflowEvent, apply_event}
use visoraft.Pipeline.{Checkpoint, advance}

-- err.Error(), of an error that a check returns.
abbrev error_text : Error → String
error_text not_found = "task not found"
error_text (conflict code) = code
error_text (invalid text) = text

-- The failure that stands for a result that breaks the contract.
abbrev rejected_result : Error → WorkflowFailure
rejected_result e = record {
  attempt = 0;
  code = "subtitle_result_invalid";
  message = str_append "字幕处理结果校验失败：" (error_text e);
  retryable = true;
  control_state = "";
}

abbrev by_contract : SubtitleResult → Result SubtitleResult → WorkflowEvent
by_contract given (ok r) = WorkflowEvent.subtitle_completed_v1 r
by_contract given (err e) = WorkflowEvent.subtitle_failed_v1 (rejected_result e)

-- A subtitle result that breaks the contract is applied as a failure.
unfoldable pub settled_event : WorkflowEvent → WorkflowEvent
settled_event (WorkflowEvent.subtitle_completed_v1 given) =
    by_contract given (validate_subtitle_result given)
settled_event event = event

-- The pipeline's turn after an event: the task that the result names, and the checkpoint.
unfoldable pub pipeline_turn : WorkflowEvent → Option (String × Checkpoint)
pipeline_turn (WorkflowEvent.download_completed_v1 named r) = some (named, Checkpoint.media_ready)
pipeline_turn (WorkflowEvent.subtitle_completed_v1 r) = some (r.task_id, Checkpoint.subtitles_ready)
pipeline_turn (WorkflowEvent.transcode_completed_v1 r) =
    some (r.task_id, Checkpoint.transcode_ready)
pipeline_turn _ = none

abbrev pub take_turn :
    (String → Db → Outcome) → (ℕ → String) → ℕ → Option (String × Checkpoint) → Outcome → Outcome
take_turn reviews ids now (some (id, reached)) (db, none) = advance reviews ids id reached now db
take_turn reviews ids now _ applied = applied

-- The new ids from the third on are the pipeline's.
abbrev pub pipeline_ids : (ℕ → String) → ℕ → String
pipeline_ids ids n = ids (n + 3)

unfoldable pub handle :
    (String → Db → Outcome)
    → (clock : ℕ) (ids : ℕ → String) (env : Envelope) → WorkflowEvent
    → Db
    → Outcome
unfolding settled_event pipeline_turn
handle reviews clock ids env event db =
    take_turn reviews (pipeline_ids ids) clock (pipeline_turn (settled_event event))
      (apply_event clock ids env (settled_event event) db)
