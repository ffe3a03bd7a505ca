-- ===== src/Database/Status.antt =====
-- The status columns: the words that the CHECK constraints of internal/database/migrations allow
-- and the constants of internal/tasks/model.go, and the tests that WHERE clauses make on them.
use visoraft.Prelude.{Bool, true, false}

pub data TaskStatus : Type 0 where
  queued fetching_metadata metadata_ready downloading processing : TaskStatus
  awaiting_manual_review ready_to_publish publishing published : TaskStatus
  reconciled failed cancelled abandoned : TaskStatus

pub data StepKind : Type 0 where
  metadata download media_inspect subtitles moderation transcode review publish : StepKind

pub data StepStatus : Type 0 where
  queued running succeeded failed cancelled skipped : StepStatus

pub data RunStatus : Type 0 where
  queued running succeeded failed cancelled : RunStatus

pub data OutboxStatus : Type 0 where
  pending publishing published : OutboxStatus

pub data PublicationStatus : Type 0 where
  draft blocked queued preparing uploading submitting : PublicationStatus
  published failed reconciliation_required cancelled : PublicationStatus

pub data JobStatus : Type 0 where
  draft blocked queued publishing published partial_success : JobStatus
  failed reconciliation_required cancelled : JobStatus

pub data AccountStatus : Type 0 where
  unchecked checking ready expired error archived : AccountStatus

pub data AttemptStatus : Type 0 where
  running succeeded failed uncertain cancelled : AttemptStatus

pub data ModerationStatus : Type 0 where
  queued running passed rejected failed skipped : ModerationStatus

pub data ReviewMode : Type 0 where
  manual automatic : ReviewMode

pub data ReviewStatus : Type 0 where
  not_started running pending approved rejected changes_requested abandoned : ReviewStatus

pub data ReviewRunStatus : Type 0 where
  running pending completed : ReviewRunStatus

pub data AssetStatus : Type 0 where
  available deleting deleted failed : AssetStatus

-- terminalWorkflowStatus, and the guard `status NOT IN ('cancelled','abandoned','published',
-- 'reconciled')` of the UPDATEs.
abbrev pub terminal_workflow_status : TaskStatus → Bool
terminal_workflow_status TaskStatus.cancelled = true
terminal_workflow_status TaskStatus.published = true
terminal_workflow_status TaskStatus.reconciled = true
terminal_workflow_status TaskStatus.abandoned = true
terminal_workflow_status _ = false

abbrev pub is_cancelled : TaskStatus → Bool
is_cancelled TaskStatus.cancelled = true
is_cancelled _ = false

abbrev pub is_processing : TaskStatus → Bool
is_processing TaskStatus.processing = true
is_processing _ = false

abbrev pub is_downloading : TaskStatus → Bool
is_downloading TaskStatus.downloading = true
is_downloading _ = false

abbrev pub kind_eq : StepKind → StepKind → Bool
kind_eq StepKind.metadata StepKind.metadata = true
kind_eq StepKind.download StepKind.download = true
kind_eq StepKind.media_inspect StepKind.media_inspect = true
kind_eq StepKind.subtitles StepKind.subtitles = true
kind_eq StepKind.moderation StepKind.moderation = true
kind_eq StepKind.transcode StepKind.transcode = true
kind_eq StepKind.review StepKind.review = true
kind_eq StepKind.publish StepKind.publish = true
kind_eq _ _ = false

abbrev pub step_is_running : StepStatus → Bool
step_is_running StepStatus.running = true
step_is_running _ = false

abbrev pub step_is_queued : StepStatus → Bool
step_is_queued StepStatus.queued = true
step_is_queued _ = false

abbrev pub step_is_succeeded : StepStatus → Bool
step_is_succeeded StepStatus.succeeded = true
step_is_succeeded _ = false

-- status IN ('queued','running')
abbrev pub step_is_active : StepStatus → Bool
step_is_active StepStatus.queued = true
step_is_active StepStatus.running = true
step_is_active _ = false

-- status IN ('failed','cancelled')
abbrev pub step_is_stopped : StepStatus → Bool
step_is_stopped StepStatus.failed = true
step_is_stopped StepStatus.cancelled = true
step_is_stopped _ = false

-- status IN ('queued','running')
abbrev pub run_is_active : RunStatus → Bool
run_is_active RunStatus.queued = true
run_is_active RunStatus.running = true
run_is_active _ = false

abbrev pub run_is_running : RunStatus → Bool
run_is_running RunStatus.running = true
run_is_running _ = false

abbrev pub is_available : AssetStatus → Bool
is_available AssetStatus.available = true
is_available _ = false

abbrev pub attempt_is_running : AttemptStatus → Bool
attempt_is_running AttemptStatus.running = true
attempt_is_running _ = false

-- status == "published" || status == "reconciled" || status == "abandoned"
abbrev pub is_not_cancellable : TaskStatus → Bool
is_not_cancellable TaskStatus.published = true
is_not_cancellable TaskStatus.reconciled = true
is_not_cancellable TaskStatus.abandoned = true
is_not_cancellable _ = false

abbrev pub is_failed : TaskStatus → Bool
is_failed TaskStatus.failed = true
is_failed _ = false

abbrev pub is_publishing : TaskStatus → Bool
is_publishing TaskStatus.publishing = true
is_publishing _ = false

-- status IN ('submitting','reconciliation_required','published')
abbrev pub publication_needs_resolution : PublicationStatus → Bool
publication_needs_resolution PublicationStatus.submitting = true
publication_needs_resolution PublicationStatus.reconciliation_required = true
publication_needs_resolution PublicationStatus.published = true
publication_needs_resolution _ = false

-- status IN ('draft','blocked','queued','preparing','uploading')
abbrev pub publication_is_cancellable : PublicationStatus → Bool
publication_is_cancellable PublicationStatus.draft = true
publication_is_cancellable PublicationStatus.blocked = true
publication_is_cancellable PublicationStatus.queued = true
publication_is_cancellable PublicationStatus.preparing = true
publication_is_cancellable PublicationStatus.uploading = true
publication_is_cancellable _ = false

-- status IN ('preparing','uploading','submitting','reconciliation_required')
abbrev pub publication_is_unsafe : PublicationStatus → Bool
publication_is_unsafe PublicationStatus.preparing = true
publication_is_unsafe PublicationStatus.uploading = true
publication_is_unsafe PublicationStatus.submitting = true
publication_is_unsafe PublicationStatus.reconciliation_required = true
publication_is_unsafe _ = false

-- status IN ('draft','blocked','queued','publishing','partial_success','failed')
abbrev pub job_is_cancellable : JobStatus → Bool
job_is_cancellable JobStatus.draft = true
job_is_cancellable JobStatus.blocked = true
job_is_cancellable JobStatus.queued = true
job_is_cancellable JobStatus.publishing = true
job_is_cancellable JobStatus.partial_success = true
job_is_cancellable JobStatus.failed = true
job_is_cancellable _ = false

-- The words that FILTER clauses and guards on publications and jobs look for.
abbrev pub publication_is_published : PublicationStatus → Bool
publication_is_published PublicationStatus.published = true
publication_is_published _ = false

abbrev pub publication_is_failed : PublicationStatus → Bool
publication_is_failed PublicationStatus.failed = true
publication_is_failed _ = false

abbrev pub publication_is_cancelled : PublicationStatus → Bool
publication_is_cancelled PublicationStatus.cancelled = true
publication_is_cancelled _ = false

abbrev pub publication_is_reconciling : PublicationStatus → Bool
publication_is_reconciling PublicationStatus.reconciliation_required = true
publication_is_reconciling _ = false

-- status IN ('queued','preparing','uploading','submitting')
abbrev pub publication_is_active : PublicationStatus → Bool
publication_is_active PublicationStatus.queued = true
publication_is_active PublicationStatus.preparing = true
publication_is_active PublicationStatus.uploading = true
publication_is_active PublicationStatus.submitting = true
publication_is_active _ = false

abbrev pub publication_is_queued : PublicationStatus → Bool
publication_is_queued PublicationStatus.queued = true
publication_is_queued _ = false

-- status IN ('queued','running')
abbrev pub moderation_is_open : ModerationStatus → Bool
moderation_is_open ModerationStatus.queued = true
moderation_is_open ModerationStatus.running = true
moderation_is_open _ = false

abbrev pub is_awaiting_review : TaskStatus → Bool
is_awaiting_review TaskStatus.awaiting_manual_review = true
is_awaiting_review _ = false

-- status IN ('pending','running')
abbrev pub review_run_is_open : ReviewRunStatus → Bool
review_run_is_open ReviewRunStatus.completed = false
review_run_is_open _ = true

-- status IN ('draft','blocked','failed')
abbrev pub publication_is_queueable : PublicationStatus → Bool
publication_is_queueable PublicationStatus.draft = true
publication_is_queueable PublicationStatus.blocked = true
publication_is_queueable PublicationStatus.failed = true
publication_is_queueable _ = false

abbrev pub job_is_blocked : JobStatus → Bool
job_is_blocked JobStatus.blocked = true
job_is_blocked _ = false

-- status IN ('draft','failed','partial_success')
abbrev pub job_is_queueable : JobStatus → Bool
job_is_queueable JobStatus.draft = true
job_is_queueable JobStatus.failed = true
job_is_queueable JobStatus.partial_success = true
job_is_queueable _ = false

-- status NOT IN ('published','cancelled')
abbrev pub job_is_open : JobStatus → Bool
job_is_open JobStatus.published = false
job_is_open JobStatus.cancelled = false
job_is_open _ = true

-- status IN ('ready_to_publish','publishing')
abbrev pub is_publishable : TaskStatus → Bool
is_publishable TaskStatus.ready_to_publish = true
is_publishable TaskStatus.publishing = true
is_publishable _ = false

abbrev pub account_is_ready : AccountStatus → Bool
account_is_ready AccountStatus.ready = true
account_is_ready _ = false

-- status IN ('blocked','draft','failed','partial_success')
abbrev pub job_is_editable : JobStatus → Bool
job_is_editable JobStatus.blocked = true
job_is_editable JobStatus.draft = true
job_is_editable JobStatus.failed = true
job_is_editable JobStatus.partial_success = true
job_is_editable _ = false

-- status IN ('ready_to_publish','publishing','published')
abbrev pub is_preparable : TaskStatus → Bool
is_preparable TaskStatus.ready_to_publish = true
is_preparable TaskStatus.publishing = true
is_preparable TaskStatus.published = true
is_preparable _ = false

abbrev pub is_ready_to_publish : TaskStatus → Bool
is_ready_to_publish TaskStatus.ready_to_publish = true
is_ready_to_publish _ = false

abbrev pub run_has_succeeded : RunStatus → Bool
run_has_succeeded RunStatus.succeeded = true
run_has_succeeded _ = false

-- status IN ('publishing','published','partial_success')
abbrev pub job_is_settled : JobStatus → Bool
job_is_settled JobStatus.publishing = true
job_is_settled JobStatus.published = true
job_is_settled JobStatus.partial_success = true
job_is_settled _ = false
