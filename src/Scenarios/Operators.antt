-- ===== src/Scenarios/Operators.antt =====
-- Reviews of concrete tasks.
use visoraft.Prelude.{
  ℕ, String, ◌≡◌, refl, Bool, true, false, Option, none, some, List, [], ◌∷◌, find,
}
use visoraft.Database.{
  Db, Task, Step, ReviewMode, ReviewStatus, ReviewRunStatus, TaskStatus, StepKind, StepStatus,
  Outcome, Result, ok, err, task_of, step_of, not_found,
}
use visoraft.Reviews.Evaluate.{Publications, evaluate_body}
use visoraft.Reviews.Act.{ActionInput, act_body}
use visoraft.Reviews.Reprocess.{requeue_subtitles, enqueue_review_transcode, stages_after_subtitles}
use visoraft.Reviews.Metadata.{MetadataInput, normalize_tags, edit_metadata}
use visoraft.Reviews.Verdicts.{Evaluation, evaluate_body-settles}
use visoraft.Reviews.Steps.{Acted, act_body-refines}
use visoraft.Reviews.Restarts.{
  Restarted, Rerun, subtitle_message, requeue_subtitles-restarts, enqueue_review_transcode-restarts,
}
use visoraft.Reviews.Edits.{Edited, are_tags, normalize_tags-are_tags, edit_metadata-edits}
use visoraft.Scenarios.Rows.{task_in, step_in, source_of, empty_db, done}

abbrev task_id : String
task_id = "0f8fad5b-d9cb-469f-a165-70867728950e"

-- An automatic review, in which all rules pass.
abbrev ready : Task
ready = record (task_in task_id TaskStatus.processing) {
  title = "a title";
  review_mode = ReviewMode.automatic;
}

abbrev processed : Db
processed = record empty_db {
  tasks = ready ∷ [];
  task_steps =
      step_in task_id StepKind.transcode StepStatus.succeeded
      ∷ step_in task_id StepKind.subtitles StepStatus.succeeded
      ∷ [];
  media_assets = source_of task_id ∷ [];
}

abbrev publishes : Publications
publishes id now db = ok db

abbrev new_ids : ℕ → String
new_ids n = "new"

evaluate_body-settles_example :
    Evaluation publishes new_ids task_id 5 processed
      (done (evaluate_body publishes new_ids task_id 5 processed))
unfolding evaluate_body visoraft.Database.◌>>◌ visoraft.Database.require visoraft.Identity.is_uuid
    visoraft.Prelude.len visoraft.Database.◌>>=◌ visoraft.Database.or_fail find
    visoraft.Prelude.count visoraft.Prelude.trim_space
evaluate_body-settles_example =
    evaluate_body-settles publishes new_ids task_id 5 processed
      (done (evaluate_body publishes new_ids task_id 5 processed)) refl

-- The same task without a title: the automatic review leaves it to the operator.
abbrev untitled : Task
untitled = record ready { title = " " }

abbrev waiting : Db
waiting = record processed {
  tasks =
      record ready {
        status = TaskStatus.awaiting_manual_review;
        review_status = ReviewStatus.pending;
      }
      ∷ [];
}

abbrev input : ActionInput
input = record { reason = "wrong words"; delete_assets = false }

abbrev acted_on : Result (Db × Bool) → Db × Bool
acted_on (ok after) = after
acted_on (err e) = (empty_db, false)

abbrev reprocessed : Db × Bool
reprocessed = acted_on (act_body publishes new_ids task_id "reprocess_subtitles" input 5 waiting)

act_body-refines_example : Acted publishes task_id "reprocess_subtitles" 5 waiting reprocessed.0
unfolding act_body visoraft.Database.◌>>◌ visoraft.Database.require visoraft.Identity.is_uuid
    visoraft.Prelude.len visoraft.Database.◌>>=◌ visoraft.Database.or_fail find requeue_subtitles
act_body-refines_example =
    act_body-refines publishes new_ids task_id "reprocess_subtitles" input 5 waiting reprocessed.0
      reprocessed.1 refl

requeue_subtitles-restarts_example :
    Restarted task_id StepKind.subtitles stages_after_subtitles
      (subtitle_message new_ids task_id ready 5)
      5
      waiting
      (done (requeue_subtitles new_ids task_id ready 5 waiting))
unfolding requeue_subtitles visoraft.Database.◌>>=◌ visoraft.Database.or_fail find
requeue_subtitles-restarts_example =
    requeue_subtitles-restarts new_ids task_id ready 5 waiting
      (done (requeue_subtitles new_ids task_id ready 5 waiting)) refl

enqueue_review_transcode-restarts_example :
    Rerun new_ids task_id ready 5 waiting
      (done (enqueue_review_transcode new_ids task_id ready 5 waiting))
unfolding enqueue_review_transcode visoraft.Database.◌>>=◌ visoraft.Database.or_fail find
    visoraft.Tasks.TranscodeStop.source_asset
enqueue_review_transcode-restarts_example =
    enqueue_review_transcode-restarts new_ids task_id ready 5 waiting
      (done (enqueue_review_transcode new_ids task_id ready 5 waiting)) refl

normalize_tags-are_tags_example : are_tags (normalize_tags ("a, b，a" ∷ " b" ∷ [])) ≡ true
normalize_tags-are_tags_example = normalize_tags-are_tags ("a, b，a" ∷ " b" ∷ [])

abbrev edit : MetadataInput
edit = record {
  title = "a better title";
  description = "";
  tags = "a" ∷ [];
  category = "";
  repost_statement_version = "";
  reason = "typo";
}

edit_metadata-edits_example :
    Edited task_id edit 5 waiting (done (edit_metadata new_ids task_id edit 5 waiting))
unfolding edit_metadata visoraft.Database.◌>>◌ visoraft.Database.require visoraft.Prelude.rune_count
    visoraft.Database.◌>>=◌ visoraft.Database.or_fail find
edit_metadata-edits_example =
    edit_metadata-edits new_ids task_id edit 5 waiting
      (done (edit_metadata new_ids task_id edit 5 waiting)) refl
