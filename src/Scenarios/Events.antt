-- ===== src/Scenarios/Events.antt =====
-- Workflow events on concrete databases.
use visoraft.Prelude.{ℕ, String, ◌≡◌, refl, true, false, none, some, [], ◌∷◌, ◌⊎◌, str_eq}
use visoraft.Database.{TaskStatus, StepKind, invalid, task_of, step_of}
use visoraft.Tasks.Envelope.{Envelope, WorkflowFailure, task_exists, consume}
use visoraft.Tasks.Events.{WorkflowEvent}
use visoraft.Tasks.Events.Final.{status_of}
use visoraft.Tasks.Terminal.{
  Delivery, deliver, deliver_all, deliver_all-terminal_kept, deliver-redelivered, deliver-elsewhere,
  deliver-refused,
}
use visoraft.Scenarios.Rows.{downloading}

abbrev message : String → WorkflowEvent → Delivery
message subject event = record {
  clock = 100;
  ids = λ n. "00000000-0000-4000-8000-000000000000";
  envelope = record {
    id = "m1";
    source = "visoraft/media-worker";
    subject = subject;
    time = some 90;
  };
  event = event;
}

abbrev failure : WorkflowFailure
failure = record {
  attempt = 1;
  code = "network";
  message = "timeout";
  retryable = true;
  control_state = "";
}

abbrev late_failure : Delivery
late_failure = message "task/b" (WorkflowEvent.download_failed_v1 failure)

abbrev failed_a : Delivery
failed_a = message "task/a" (WorkflowEvent.download_failed_v1 failure)

abbrev nameless : Delivery
nameless = message "job/a" WorkflowEvent.metadata_started_v1

deliver_all-terminal_kept_example :
    status_of (deliver_all (late_failure ∷ failed_a ∷ []) downloading) "b"
    ≡ some TaskStatus.cancelled
unfolding visoraft.Prelude.find
deliver_all-terminal_kept_example =
    deliver_all-terminal_kept (late_failure ∷ failed_a ∷ []) downloading "b" TaskStatus.cancelled
      refl refl

deliver-elsewhere_example :
    (task_of (deliver failed_a downloading).0 "b" ≡ task_of downloading "b")
    × (step_of (deliver failed_a downloading).0 "b" StepKind.metadata
        ≡ step_of downloading "b" StepKind.metadata)
unfolding visoraft.Tasks.Envelope.task_id_from_subject visoraft.Prelude.strip_prefix
deliver-elsewhere_example = deliver-elsewhere failed_a downloading "b" StepKind.metadata refl

deliver-redelivered_example :
    deliver (record failed_a { clock = 200 }) (deliver failed_a downloading).0
    ≡ ((deliver failed_a downloading).0, none)
unfolding visoraft.Tasks.Events.apply_event visoraft.Tasks.Events.event_body
    visoraft.Tasks.Envelope.apply_workflow_event visoraft.Tasks.Envelope.task_id_from_subject
    visoraft.Prelude.strip_prefix visoraft.Prelude.exists visoraft.Tasks.Download.download_failed
deliver-redelivered_example =
    deliver-redelivered failed_a downloading (deliver failed_a downloading).0 200 refl

deliver-refused_example :
    ((deliver nameless downloading).0 ≡ downloading)
    ⊎ ((task_exists "" downloading ≡ false)
        × ((deliver nameless downloading).0 ≡ consume "m1" downloading))
unfolding visoraft.Tasks.Events.apply_event visoraft.Tasks.Events.event_body
    visoraft.Tasks.Envelope.apply_workflow_event visoraft.Tasks.Envelope.task_id_from_subject
    visoraft.Prelude.strip_prefix
deliver-refused_example =
    deliver-refused nameless downloading (deliver nameless downloading).0
      (invalid "event subject does not contain a task id") refl
