-- ===== src/Reviews/Act.antt =====
-- `Act` of internal/reviews/service.go: what an operator does with a task that waits for its review. `cleanup`
-- stands for DeleteAssets of internal/tasks, which runs after the commit.
use Prim.Native.String.{◌++◌ as str_append}
use visoraft.Prelude.{
  ℕ, ◌+◌, String, Bool, true, false, Option, none, some, List, [], ◌∷◌, ◌&&◌, ◌||◌, not, str_eq,
  ltb, max, trim_space, update, if◌then◌else◌,
}
use visoraft.Database.{
  Db, Task, ReviewRun, MetadataVersion, Result, ok, err, not_found, conflict, invalid, require,
  or_fail, ◌>>◌, ◌>>=◌, Outcome, TaskStatus, StepKind, StepStatus, ReviewStatus, ReviewRunStatus,
  has_task_id, task_of, is_step, is_awaiting_review, review_run_is_open,
}
use visoraft.Identity.{is_uuid}
use visoraft.Reviews.Evaluate.{
  Publications, evaluate, map_review_step_status, review_progress, insert_action,
  insert_review_audit,
}
use visoraft.Reviews.Reprocess.{requeue_subtitles, enqueue_review_transcode}

pub data Action : Type 0 where
  approve request_changes resubmit reprocess_subtitles abandon : Action

-- slices.Contains of the known actions
unfoldable pub parse_action : String → Option Action
parse_action text =
    if str_eq text "approve"
    then some Action.approve
    else if str_eq text "request_changes"
    then some Action.request_changes
    else if str_eq text "resubmit"
    then some Action.resubmit
    else if str_eq text "reprocess_subtitles"
    then some Action.reprocess_subtitles
    else if str_eq text "abandon"
    then some Action.abandon
    else none

abbrev pub is_approve : Action → Bool
is_approve Action.approve = true
is_approve _ = false

abbrev pub is_resubmit : Action → Bool
is_resubmit Action.resubmit = true
is_resubmit _ = false

abbrev pub is_abandon : Action → Bool
is_abandon Action.abandon = true
is_abandon _ = false

-- review_status IN ('pending','changes_requested')
abbrev pub is_actionable : ReviewStatus → Bool
is_actionable ReviewStatus.pending = true
is_actionable ReviewStatus.changes_requested = true
is_actionable _ = false

abbrev pub changes_are_requested : ReviewStatus → Bool
changes_are_requested ReviewStatus.changes_requested = true
changes_are_requested _ = false

-- The switch over the action.
abbrev pub next_status : Action → TaskStatus → TaskStatus
next_status Action.approve s = TaskStatus.ready_to_publish
next_status Action.request_changes s = s
next_status Action.resubmit s = TaskStatus.processing
next_status Action.reprocess_subtitles s = TaskStatus.processing
next_status Action.abandon s = TaskStatus.abandoned

abbrev pub next_review_status : Action → ReviewStatus
next_review_status Action.approve = ReviewStatus.approved
next_review_status Action.request_changes = ReviewStatus.changes_requested
next_review_status Action.resubmit = ReviewStatus.not_started
next_review_status Action.reprocess_subtitles = ReviewStatus.not_started
next_review_status Action.abandon = ReviewStatus.abandoned

-- ORDER BY started_at DESC LIMIT 1
abbrev later_run : ReviewRun → Option ReviewRun → ReviewRun
later_run r none = r
later_run r (some other) = if ltb r.started_at other.started_at then other else r

unfoldable pub active_run : String → List ReviewRun → Option ReviewRun
active_run id [] = none
active_run id (r ∷ rs) =
    let rest = active_run id rs in
    if str_eq r.task_id id && review_run_is_open r.status then some (later_run r rest) else rest

abbrev pub larger : ℕ → Option ℕ → ℕ
larger n none = n
larger n (some m) = max n m

-- SELECT max(version)
unfoldable pub max_version : String → List MetadataVersion → Option ℕ
max_version id [] = none
max_version id (v ∷ vs) =
    let rest = max_version id vs in
    if str_eq v.task_id id then some (larger v.version rest) else rest

-- What the blocks "resubmit" and "reprocess_subtitles" enqueue, and whether a transcode runs again.
unfoldable pub rerun : (ℕ → String) → Action → String → Task → ℕ → Db → Result (Db × Bool)
rerun ids Action.reprocess_subtitles id t now db = do
  after ← requeue_subtitles ids id t now db
  ok (after, false)
rerun ids Action.resubmit id t now db =
    if t.settings_snapshot.transcode_enabled && t.settings_snapshot.burn_subtitles
    then (do after ← enqueue_review_transcode ids id t now db; ok (after, true))
    else ok (db, false)
rerun ids _ id t now db = ok (db, false)

unfoldable pub finish_review_step : Action → String → ℕ → Db → Db
finish_review_step Action.request_changes id now db = record db {
  task_steps =
      update (is_step id StepKind.review)
        (λ s. record s {
          status = StepStatus.running;
          progress = 50;
          finished_at = none;
          updated_at = now;
        })
        db.task_steps;
}
finish_review_step Action.resubmit id now db = db
finish_review_step Action.reprocess_subtitles id now db = db
finish_review_step action id now db = record db {
  task_steps =
      update (is_step id StepKind.review)
        (λ s. record s {
          status = map_review_step_status (next_review_status action);
          progress = review_progress (next_review_status action);
          finished_at = some now;
          updated_at = now;
        })
        db.task_steps;
}

abbrev pub run_decision : Action → Option String
run_decision Action.approve = some "approved"
run_decision Action.request_changes = some "changes_requested"
run_decision Action.resubmit = none
run_decision Action.reprocess_subtitles = some "changes_requested"
run_decision Action.abandon = some "rejected"

-- UPDATE review_runs SET status='completed', decision, summary, completed_at WHERE id=$1
unfoldable pub finish_run : Action → Option ReviewRun → String → ℕ → Db → List ReviewRun
finish_run action none reason now db = db.review_runs
finish_run action (some run) reason now db = elim (run_decision action) [
  | none ↦ db.review_runs
  | some decision ↦
      update (λ r. str_eq r.id run.id)
        (λ r. record r {
          status = ReviewRunStatus.completed;
          decision = decision;
          summary = reason;
          completed_at = some now;
        })
        db.review_runs
]

abbrev run_id : Option ReviewRun → Option String
run_id none = none
run_id (some run) = some run.id

-- SET status, review_status, updated_at, version=version+1
abbrev pub acted_task : Action → ℕ → Task → Task
acted_task action now t = record t {
  status = next_status action t.status;
  review_status = next_review_status action;
  updated_at = now;
  version = t.version + 1;
}

abbrev pub set_action : Action → String → ℕ → Db → Db
set_action action id now db = record db {
  tasks = update (has_task_id id) (acted_task action now) db.tasks;
}

-- The review step, the run, the action and the audit, after what is to run again was enqueued.
unfoldable pub record_action :
    Action → String → String → Option ReviewRun → Option ℕ → String → ℕ → Db → Db
unfolding finish_review_step finish_run insert_action insert_review_audit
record_action action name id run version reason now db =
    let stepped = finish_review_step action id now db in
    insert_review_audit id (str_append "review." name) now (
      insert_action id (run_id run) name "user" "local-operator" reason version now
        (record stepped { review_runs = finish_run action run reason now db }))

-- The input of an action, after its texts were trimmed.
pub record ActionInput : Type 0 where
  pub reason : String
  pub delete_assets : Bool

-- The tables after the transaction, and whether a transcode runs again.
unfoldable pub act_body :
    Publications → (ℕ → String) → String → String → ActionInput → ℕ → Db → Result (Db × Bool)
unfolding parse_action active_run max_version rerun record_action
act_body publications ids id name input now db = do
  require (is_uuid id) (invalid "task id is invalid")
  action ← or_fail (parse_action name) (invalid "action")
  require (is_approve action || not (str_eq input.reason "")) (invalid "reason")
  t ← or_fail (task_of db id) not_found
  require (is_awaiting_review t.status) (conflict "review_action_not_allowed")
  require (not (is_resubmit action) || changes_are_requested t.review_status)
      (conflict "review_resubmit_not_allowed")
  require (is_resubmit action || is_actionable t.review_status)
      (conflict "review_action_not_allowed")
  enqueued ← rerun ids action id t now (set_action action id now db)
  let after =
      record_action action name id (active_run id db.review_runs)
        (max_version id db.task_metadata_versions) input.reason now enqueued.0
  prepared ← if is_approve action then publications id now after else ok after
  ok (prepared, enqueued.1)

-- DeleteAssets' conflict `assets_not_available` is no failure.
abbrev tolerated : Db → Outcome → Outcome
tolerated db (after, none) = (after, none)
tolerated db (after, some (conflict code)) =
    if str_eq code "assets_not_available" then (after, none) else (after, some (conflict code))
tolerated db (after, some e) = (after, some e)

-- After the commit: the evaluation of a task that is resubmitted, and the cleanup of one that is
-- abandoned.
abbrev pub follow_up :
    (String → Db → Outcome)
    → (String → Db → Outcome)
    → Option Action
    → Bool
    → Bool
    → String
    → Db
    → Outcome
follow_up evaluated cleanup (some Action.resubmit) rerun delete_assets id db =
    if not rerun then evaluated id db else (db, none)
follow_up evaluated cleanup (some Action.abandon) rerun delete_assets id db =
    if delete_assets then tolerated db (cleanup id db) else (db, none)
follow_up evaluated cleanup _ rerun delete_assets id db = (db, none)

abbrev pub finish_act : (Bool → Db → Outcome) → Db → Result (Db × Bool) → Outcome
finish_act next before (ok (after, rerun)) = next rerun after
finish_act next before (err e) = (before, some e)

unfoldable pub act :
    Publications
    → (String → Db → Outcome)
    → (ids : ℕ → String) → (now later : ℕ) → String
    → String
    → ActionInput
    → Db
    → Outcome
unfolding act_body parse_action
act publications cleanup ids now later id name given db =
    let name = trim_space name in
    let input : ActionInput = record {
      reason = trim_space given.reason;
      delete_assets = given.delete_assets;
    } in
    finish_act
      (λ rerun after.
        follow_up (λ id db. evaluate publications ids later id db) cleanup (parse_action name) rerun
          input.delete_assets id after)
      db (act_body publications ids id name input now db)
