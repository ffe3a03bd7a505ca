-- ===== src/Reviews/Evaluate.antt =====
-- `Evaluate` of internal/reviews/service.go, with `mapReviewStepStatus`, `reviewProgress`, `insertAction` and
-- `insertAudit`. A task's review_summary is not read again, and left out.
use visoraft.Prelude.{
  ℕ, ◌+◌, String, Bool, true, false, Option, none, some, List, ◌∷◌, ◌&&◌, not, str_eq, exists,
  update, if◌then◌else◌,
}
use visoraft.Database.{
  Db, Task, Step, Result, ok, not_found, conflict, invalid, require, or_fail, ◌>>◌, ◌>>=◌, Outcome,
  commit, TaskStatus, StepKind, StepStatus, ReviewMode, ReviewStatus, ReviewRunStatus, ReviewRun,
  has_task_id, task_of, is_step,
}
use visoraft.Identity.{is_uuid}
use visoraft.Tasks.Envelope.{coalesce}
use visoraft.Reviews.Rules.{review_rules, all_passed}

-- status IN ('processing','awaiting_manual_review')
abbrev pub is_evaluable : TaskStatus → Bool
is_evaluable TaskStatus.processing = true
is_evaluable TaskStatus.awaiting_manual_review = true
is_evaluable _ = false

-- review_status IN ('not_started','running','changes_requested')
abbrev pub is_unreviewed : ReviewStatus → Bool
is_unreviewed ReviewStatus.not_started = true
is_unreviewed ReviewStatus.running = true
is_unreviewed ReviewStatus.changes_requested = true
is_unreviewed _ = false

unfoldable pub map_review_step_status : ReviewStatus → StepStatus
map_review_step_status ReviewStatus.approved = StepStatus.succeeded
map_review_step_status ReviewStatus.rejected = StepStatus.failed
map_review_step_status ReviewStatus.abandoned = StepStatus.failed
map_review_step_status _ = StepStatus.running

unfoldable pub review_progress : ReviewStatus → ℕ
review_progress ReviewStatus.approved = 100
review_progress ReviewStatus.rejected = 100
review_progress ReviewStatus.abandoned = 100
review_progress _ = 50

-- The local variables that the branches over the mode and the rules set; an action "" is none.
pub record Verdict : Type 0 where
  pub task_status : TaskStatus
  pub review_status : ReviewStatus
  pub run_status : ReviewRunStatus
  pub decision : String
  pub summary : String
  pub action : String

abbrev leave_to_operator : ReviewRunStatus → String → String → String → Verdict
leave_to_operator run_status decision summary action = record {
  task_status = TaskStatus.awaiting_manual_review;
  review_status = ReviewStatus.pending;
  run_status = run_status;
  decision = decision;
  summary = summary;
  action = action;
}

unfoldable pub verdict_of : ReviewMode → (forced passed : Bool) → String → Verdict
verdict_of ReviewMode.manual forced passed fallback =
    leave_to_operator ReviewRunStatus.pending "" "等待人工审核" ""
verdict_of ReviewMode.automatic forced passed fallback =
    if forced
    then leave_to_operator ReviewRunStatus.completed "manual_required" "内容安全审核要求人工复核，任务已进入人工审核队列"
        "automatic_moderation_fallback"
    else if passed
    then record {
      task_status = TaskStatus.ready_to_publish;
      review_status = ReviewStatus.approved;
      run_status = ReviewRunStatus.completed;
      decision = "approved";
      summary = "自动审核规则全部通过";
      action = "automatic_approve";
    }
    else if str_eq fallback "reject"
    then record {
      task_status = TaskStatus.failed;
      review_status = ReviewStatus.rejected;
      run_status = ReviewRunStatus.completed;
      decision = "rejected";
      summary = "自动审核未通过，策略要求拒绝";
      action = "automatic_reject";
    }
    else leave_to_operator ReviewRunStatus.completed "manual_required" "自动审核未通过，已转入人工审核"
        "automatic_fallback"

abbrev pub is_automatic : ReviewMode → Bool
is_automatic ReviewMode.automatic = true
is_automatic ReviewMode.manual = false

abbrev pub is_pending : ReviewStatus → Bool
is_pending ReviewStatus.pending = true
is_pending _ = false

abbrev pub is_rejected : ReviewStatus → Bool
is_rejected ReviewStatus.rejected = true
is_rejected _ = false

abbrev pub is_approved : ReviewStatus → Bool
is_approved ReviewStatus.approved = true
is_approved _ = false

abbrev completed_at : ReviewMode → ℕ → Option ℕ
completed_at ReviewMode.automatic now = some now
completed_at ReviewMode.manual now = none

-- INSERT INTO review_actions
unfoldable pub insert_action :
    String → Option String → String → String → String → String → Option ℕ → ℕ → Db → Db
insert_action id run_id action actor_type actor_id reason metadata_version now db = record db {
  review_actions =
      record {
        task_id = id;
        review_run_id = run_id;
        action = action;
        actor_type = actor_type;
        actor_id = actor_id;
        reason = reason;
        metadata_version = metadata_version;
        created_at = now;
      }
      ∷ db.review_actions;
}

-- INSERT INTO audit_events … 'user','local-operator'
unfoldable pub insert_review_audit : String → String → ℕ → Db → Db
insert_review_audit id event_type now db = record db {
  audit_events =
      record {
        aggregate_id = id;
        event_type = event_type;
        actor_type = "user";
        actor_id = "local-operator";
        occurred_at = now;
      }
      ∷ db.audit_events;
}

abbrev pub evaluation_run : String → String → Task → Verdict → ℕ → ReviewRun
evaluation_run run_id id t v now = record {
  id = run_id;
  task_id = id;
  mode = t.review_mode;
  policy_version = t.settings_version;
  status = v.run_status;
  decision = v.decision;
  summary = v.summary;
  started_at = now;
  completed_at = completed_at t.review_mode now;
}

abbrev pub manual_run : String → String → Task → ℕ → ReviewRun
manual_run run_id id t now = record {
  id = run_id;
  task_id = id;
  mode = ReviewMode.manual;
  policy_version = t.settings_version;
  status = ReviewRunStatus.pending;
  decision = "";
  summary = "等待人工审核";
  started_at = now;
  completed_at = none;
}

-- The run of the evaluation, and one more for the operator where the automatic one leaves it to him.
unfoldable pub insert_runs : (ℕ → String) → String → Task → Verdict → ℕ → Db → List ReviewRun
insert_runs ids id t v now db =
    if is_automatic t.review_mode && is_pending v.review_status
    then manual_run (ids 1) id t now ∷ evaluation_run (ids 0) id t v now ∷ db.review_runs
    else evaluation_run (ids 0) id t v now ∷ db.review_runs

-- INSERT INTO task_steps … ON CONFLICT (task_id, kind) DO UPDATE
unfoldable pub upsert_review_step : String → Task → ReviewStatus → ℕ → Db → List Step
upsert_review_step id t review_status now db =
    if exists (is_step id StepKind.review) db.task_steps
    then update (is_step id StepKind.review)
        (λ s. record s {
          status = map_review_step_status review_status;
          progress = review_progress review_status;
          started_at = some (coalesce s.started_at now);
          finished_at = completed_at t.review_mode now;
          updated_at = now;
          error_code = "";
          error_message = "";
        })
        db.task_steps
    else record {
      task_id = id;
      kind = StepKind.review;
      status = map_review_step_status review_status;
      attempt = 1;
      progress = review_progress review_status;
      detail = record { phase = ""; decision = none };
      error_code = "";
      error_message = "";
      started_at = some now;
      finished_at = completed_at t.review_mode now;
      updated_at = now;
    }
      ∷ db.task_steps

-- UPDATE tasks SET status, review_status, …, error_retryable=false, updated_at, version=version+1
abbrev pub reviewed_task : Verdict → ℕ → Task → Task
reviewed_task v now t = record t {
  status = v.task_status;
  review_status = v.review_status;
  error_code = if is_rejected v.review_status then "automatic_review_rejected" else "";
  error_message = if is_rejected v.review_status then v.summary else "";
  error_retryable = false;
  updated_at = now;
  version = t.version + 1;
}

abbrev insert_automatic_action : String → String → Verdict → ℕ → Db → Db
insert_automatic_action run_id id v now db =
    if not (str_eq v.action "")
    then insert_action id (some run_id) v.action "system" "automatic-review" v.summary none now db
    else db

unfoldable pub record_verdict : (ℕ → String) → String → Task → Verdict → ℕ → Db → Db
unfolding insert_action insert_review_audit insert_runs upsert_review_step map_review_step_status
    review_progress
record_verdict ids id t v now db = insert_review_audit id "review.evaluated" now (
    insert_automatic_action (ids 0) id v now (record db {
      review_runs = insert_runs ids id t v now db;
      task_steps = upsert_review_step id t v.review_status now db;
      tasks = update (has_task_id id) (reviewed_task v now) db.tasks;
    }))

-- The verdict on the task as it stands.
unfoldable pub review_verdict : String → Task → Db → Verdict
unfolding verdict_of review_rules all_passed
review_verdict id t db =
    let rules = review_rules id t db in
    verdict_of t.review_mode rules.1 (all_passed rules.0) t.settings_snapshot.automatic_fallback

-- PrepareApprovedTaskTx(ctx, tx, taskID, true, now), where the service has a publishing store.
abbrev pub Publications : Type 0
Publications = String → ℕ → Db → Result Db

unfoldable pub evaluate_body : Publications → (ℕ → String) → String → ℕ → Db → Result Db
unfolding review_verdict record_verdict
evaluate_body publications ids id now db = do
  require (is_uuid id) (invalid "task id is invalid")
  t ← or_fail (task_of db id) not_found
  require (is_evaluable t.status && is_unreviewed t.review_status) (conflict "review_not_evaluable")
  let v = review_verdict id t db
  let reviewed = record_verdict ids id t v now db
  if is_approved v.review_status then publications id now reviewed else ok reviewed

unfoldable pub evaluate : Publications → (ℕ → String) → ℕ → String → Db → Outcome
unfolding evaluate_body
evaluate publications ids now id db = commit db (evaluate_body publications ids id now db)
