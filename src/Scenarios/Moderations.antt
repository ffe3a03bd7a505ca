-- ===== src/Scenarios/Moderations.antt =====
-- Moderation runs of concrete tasks.
use visoraft.Prelude.{
  ℕ, String, ◌≡◌, refl, Bool, true, false, Option, none, some, List, [], ◌∷◌, find, str_eq, leb,
  pos,
}
use visoraft.Database.{
  Db, Task, ModerationRun, ModerationStatus, TaskStatus, StepKind, StepStatus, Outcome, Result, ok,
  task_of,
}
use visoraft.Tasks.Envelope.{Envelope, task_id_from_subject}
use visoraft.Moderation.Model.{ModerationConfig, ModerationResult, Failure, normalize_risk, skipped}
use visoraft.Moderation.Store.{
  ModerationEvent, apply_moderation, moderation_body, moderation_completed, moderation_failed,
}
use visoraft.Moderation.Fixture.{Request, fixture_moderate}
use visoraft.Moderation.Worker.{RunCommand, completed_result}
use visoraft.Moderation.Bodies.{has_run_id}
use visoraft.Moderation.Frame.{Notice, apply_all, apply_all-decided_kept}
use visoraft.Moderation.Runs.{AfterResult}
use visoraft.Moderation.Messages.{fixture_moderate-accepted}
use visoraft.Workflow.Moderation.{
  handle_moderation, handle_moderation-redelivered, handle_moderation-blocked, after_moderation,
  moderation_turn,
}
use visoraft.Scenarios.Rows.{task_in, step_in, empty_db}

abbrev task_id : String
task_id = "0f8fad5b-d9cb-469f-a165-70867728950e"

abbrev run_id : String
run_id = "7c9e6679-7425-40de-944b-e07fc1f90ae7"

abbrev run_in : ModerationStatus → ModerationRun
run_in status = record {
  id = run_id;
  task_id = task_id;
  status = status;
  attempt = 1;
  decision = "";
  error_code = "";
  error_message = "";
  started_at = none;
  completed_at = none;
  created_at = 1;
  updated_at = 1;
}

-- A task whose moderation runs, and one that has been published.
abbrev moderating : Db
moderating = record empty_db {
  tasks = task_in task_id TaskStatus.processing ∷ task_in "b" TaskStatus.published ∷ [];
  task_steps = step_in task_id StepKind.moderation StepStatus.running ∷ [];
  moderation_runs = run_in ModerationStatus.running ∷ [];
}

abbrev env : Envelope
env = record {
  id = "m1";
  source = "visoraft/moderation-worker";
  subject = "task/0f8fad5b-d9cb-469f-a165-70867728950e";
  time = some 7;
}

abbrev blocked : ModerationResult
blocked = record {
  task_id = task_id;
  run_id = run_id;
  attempt = 1;
  provider = "fixture";
  decision = "block";
  risk_level = "high";
  text = skipped "";
  image = skipped "";
  video = skipped "";
}

abbrev passed : ModerationResult
passed = record blocked { decision = "pass"; risk_level = "none" }

abbrev failed : Failure
failed = record {
  task_id = task_id;
  run_id = run_id;
  attempt = 1;
  provider = "aliyun";
  code = "quota";
  message = "quota exceeded";
  retryable = true;
  decision = "block";
  text = skipped "";
  image = skipped "";
  video = skipped "";
}

abbrev notices : List Notice
notices =
    record { clock = 9; envelope = env; event = ModerationEvent.completed_v1 blocked }
    ∷ record { clock = 9; envelope = env; event = ModerationEvent.failed_v1 failed }
    ∷ []

abbrev decided : Db
decided = record moderating { moderation_runs = run_in ModerationStatus.passed ∷ [] }

apply_all-decided_kept_example :
    find (has_run_id run_id) (apply_all notices decided).moderation_runs
    ≡ some (run_in ModerationStatus.passed)
unfolding find
apply_all-decided_kept_example =
    apply_all-decided_kept notices decided run_id (run_in ModerationStatus.passed) refl refl

abbrev config : ModerationConfig
config = record {
  enabled = true;
  provider = "fixture";
  check_text = true;
  check_image = false;
  check_video = false;
  text_service = "text";
  image_service = "image";
  video_service = "video";
  high_risk_action = "block";
  medium_risk_action = "manual_review";
  failure_action = "pass";
  request_timeout_seconds = 10;
  video_maximum_wait_seconds = 60;
}

abbrev command : RunCommand
command = record { task_id = task_id; run_id = run_id; attempt = 1 }

abbrev request : Request
request = record {
  task_id = task_id;
  config = config;
  texts = record { id = "title"; content = "a [FIXTURE:block] title" } ∷ [];
  image_url = "";
  video_url = "";
}

fixture_moderate-accepted_example :
    moderation_body env
      (ModerationEvent.completed_v1 (completed_result command config (fixture_moderate request)))
    ≡ ok (moderation_completed (completed_result command config (fixture_moderate request)) env)
unfolding visoraft.Moderation.Store.validate_event_identity visoraft.Database.◌>>◌
    visoraft.Database.require visoraft.Identity.is_uuid visoraft.Prelude.len task_id_from_subject
    visoraft.Prelude.strip_prefix
fixture_moderate-accepted_example = fixture_moderate-accepted env command config request refl

abbrev no_review : String → Db → Outcome
no_review id db = (db, none)

abbrev no_ids : ℕ → String
no_ids n = "new"

handle_moderation-redelivered_example :
    handle_moderation no_review 20 no_ids env
      (ModerationEvent.completed_v1 passed)
      (apply_moderation 9 env (ModerationEvent.completed_v1 passed) moderating).0
    ≡ ((apply_moderation 9 env (ModerationEvent.completed_v1 passed) moderating).0, none)
unfolding apply_moderation moderation_body visoraft.Database.◌>>◌
    visoraft.Moderation.Store.validate_event_identity visoraft.Database.require
    visoraft.Identity.is_uuid visoraft.Prelude.len task_id_from_subject
    visoraft.Prelude.strip_prefix visoraft.Moderation.Store.valid_result normalize_risk
    visoraft.Prelude.lower_is visoraft.Prelude.trim_space
    visoraft.Moderation.Store.run_moderation_body visoraft.Prelude.exists moderation_completed
handle_moderation-redelivered_example =
    handle_moderation-redelivered no_review 9 20 no_ids env (ModerationEvent.completed_v1 passed)
      moderating (apply_moderation 9 env (ModerationEvent.completed_v1 passed) moderating).0 true
      refl

handle_moderation-blocked_example :
    (handle_moderation no_review 9 no_ids env (ModerationEvent.completed_v1 blocked) moderating
      ≡ ((apply_moderation 9 env (ModerationEvent.completed_v1 blocked) moderating).0, none))
    × AfterResult 9 env blocked
        (task_in task_id TaskStatus.processing)
        (handle_moderation no_review 9 no_ids env
          (ModerationEvent.completed_v1 blocked)
          moderating).0
    × (after_moderation no_review no_ids 9
          (moderation_turn (ModerationEvent.completed_v1 blocked))
          (moderating, (apply_moderation 9 env (ModerationEvent.completed_v1 blocked) moderating).1)
        ≡ (moderating, none))
unfolding find task_id_from_subject visoraft.Prelude.strip_prefix apply_moderation moderation_body
    visoraft.Database.◌>>◌ visoraft.Moderation.Store.validate_event_identity
    visoraft.Database.require visoraft.Identity.is_uuid visoraft.Prelude.len
    visoraft.Moderation.Store.valid_result normalize_risk visoraft.Prelude.lower_is
    visoraft.Prelude.trim_space visoraft.Moderation.Store.run_moderation_body
    visoraft.Prelude.exists moderation_completed
handle_moderation-blocked_example =
    handle_moderation-blocked no_review 9 no_ids env blocked moderating moderating
      (task_in task_id TaskStatus.processing) refl refl refl
