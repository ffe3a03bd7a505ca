-- ===== src/Reviews/Steps.antt =====
-- The life of a review as a step relation, and the actions of an operator as its steps.
use visoraft.Prelude.{
  ℕ, String, ◌≡◌, refl, ap, ◌∙◌, Bool, true, false, Option, some, ◌&&◌, ◌||◌, not, find,
  find-update_self, Bool-cases, inl, inr, ◌⊎◌, if◌then◌else◌,
}
use visoraft.Database.{
  Db, Task, ReviewRun, ok, Ensures, committed, Ensures-require, Ensures-or_fail, Ensures-bind,
  Ensures-ok, Ensures-self, has_task_id, task_of, TaskStatus, ReviewStatus, is_awaiting_review,
}
use visoraft.Tasks.TranscodeStop.{insert_run}
use visoraft.Tasks.Envelope.{enqueue_command}
use visoraft.Reviews.Evaluate.{Publications, insert_action, insert_review_audit}
use visoraft.Reviews.Reprocess.{requeue_subtitles, enqueue_review_transcode}
use visoraft.Reviews.Act.{
  Action, ActionInput, parse_action, is_approve, is_resubmit, is_actionable, changes_are_requested,
  next_status, next_review_status, acted_task, set_action, rerun, record_action, act_body,
  active_run, max_version, finish_review_step,
}

-- From a task's status and that of its review, by an action, to the next two.
pub data ReviewStep : TaskStatus → ReviewStatus → Action → TaskStatus → ReviewStatus → Type 0 where
  approves :
      {r : ReviewStatus}
      → is_actionable r ≡ true
      → ReviewStep TaskStatus.awaiting_manual_review r Action.approve TaskStatus.ready_to_publish
          ReviewStatus.approved
  requests_changes :
      {r : ReviewStatus}
      → is_actionable r ≡ true
      → ReviewStep TaskStatus.awaiting_manual_review r Action.request_changes
          TaskStatus.awaiting_manual_review ReviewStatus.changes_requested
  resubmits :
      ReviewStep TaskStatus.awaiting_manual_review ReviewStatus.changes_requested Action.resubmit
        TaskStatus.processing ReviewStatus.not_started
  reprocesses :
      {r : ReviewStatus}
      → is_actionable r ≡ true
      → ReviewStep TaskStatus.awaiting_manual_review r Action.reprocess_subtitles
          TaskStatus.processing ReviewStatus.not_started
  abandons :
      {r : ReviewStatus}
      → is_actionable r ≡ true
      → ReviewStep TaskStatus.awaiting_manual_review r Action.abandon TaskStatus.abandoned
          ReviewStatus.abandoned

awaiting : (s : TaskStatus) → is_awaiting_review s ≡ true → s ≡ TaskStatus.awaiting_manual_review
awaiting TaskStatus.awaiting_manual_review h = refl
awaiting _ h = cc

requested : (r : ReviewStatus) → changes_are_requested r ≡ true → r ≡ ReviewStatus.changes_requested
requested ReviewStatus.changes_requested h = refl
requested _ h = cc

step_from_waiting :
    (r : ReviewStatus) (action : Action)
    → not (is_resubmit action) || changes_are_requested r ≡ true
    → is_resubmit action || is_actionable r ≡ true
    → ReviewStep TaskStatus.awaiting_manual_review r action
        (next_status action TaskStatus.awaiting_manual_review)
        (next_review_status action)
step_from_waiting r Action.approve h k = approves k
step_from_waiting r Action.request_changes h k = requests_changes k
step_from_waiting r Action.resubmit h k = rw (requested r h) resubmits
step_from_waiting r Action.reprocess_subtitles h k = reprocesses k
step_from_waiting r Action.abandon h k = abandons k

review_step :
    (s : TaskStatus) (r : ReviewStatus) (action : Action)
    → is_awaiting_review s ≡ true
    → not (is_resubmit action) || changes_are_requested r ≡ true
    → is_resubmit action || is_actionable r ≡ true
    → ReviewStep s r action (next_status action s) (next_review_status action)
review_step s r action waits h k = rw (awaiting s waits) (step_from_waiting r action h k)

-- What `rerun` leaves as it is.
record SameTasks (db : Db) (after : Db × Bool) : Type 0 where
  tasks : after.0.tasks ≡ db.tasks

requeue_subtitles-tasks :
    (ids : ℕ → String) (id : String) (t : Task) (now : ℕ) (db : Db)
    → Ensures (λ (after : Db). after.tasks ≡ db.tasks) (requeue_subtitles ids id t now db)
unfolding requeue_subtitles enqueue_command
requeue_subtitles-tasks ids id t now db = Ensures-or_fail _ _ _ (λ s read. committed refl)

enqueue_review_transcode-tasks :
    (ids : ℕ → String) (id : String) (t : Task) (now : ℕ) (db : Db)
    → Ensures (λ (after : Db). after.tasks ≡ db.tasks) (enqueue_review_transcode ids id t now db)
unfolding enqueue_review_transcode enqueue_command insert_run
enqueue_review_transcode-tasks ids id t now db =
    Ensures-or_fail _ _ _ (λ s read. Ensures-or_fail _ _ _ (λ source found. committed refl))

rerun-SameTasks :
    (ids : ℕ → String) (action : Action) (id : String) (t : Task) (now : ℕ) (db : Db)
    → Ensures (SameTasks db) (rerun ids action id t now db)
unfolding rerun
rerun-SameTasks ids Action.approve id t now db = committed (record { tasks = refl })
rerun-SameTasks ids Action.request_changes id t now db = committed (record { tasks = refl })
rerun-SameTasks ids Action.abandon id t now db = committed (record { tasks = refl })
rerun-SameTasks ids Action.reprocess_subtitles id t now db =
    Ensures-bind _ (requeue_subtitles-tasks ids id t now db)
      (λ after kept. committed (record { tasks = kept }))
rerun-SameTasks ids Action.resubmit id t now db =
    elim (Bool-cases
      (t.settings_snapshot.transcode_enabled && t.settings_snapshot.burn_subtitles)) [
        | inl burns ↦ rw burns (
            Ensures-bind _ (enqueue_review_transcode-tasks ids id t now db)
              (λ after kept. committed (record { tasks = kept })))
        | inr plain ↦ rw plain (committed (record { tasks = refl }))
      ]

record_action-tasks :
    (action : Action) (name id : String) (run : Option ReviewRun) (version : Option ℕ)
    (reason : String) (now : ℕ) (db : Db)
    → (record_action action name id run version reason now db).tasks ≡ db.tasks
unfolding record_action finish_review_step insert_action insert_review_audit
record_action-tasks Action.approve name id run version reason now db = refl
record_action-tasks Action.request_changes name id run version reason now db = refl
record_action-tasks Action.resubmit name id run version reason now db = refl
record_action-tasks Action.reprocess_subtitles name id run version reason now db = refl
record_action-tasks Action.abandon name id run version reason now db = refl

-- What an action that succeeds has done: `acted` are the tables at the end of the action's own writes, before
-- the publications of an approved task are prepared.
pub record Acted (publications : Publications) (id name : String) (now : ℕ) (db after : Db)
    : Type 0 where
  pub task : Task
  pub action : Action
  pub acted : Db
  pub read : task_of db id ≡ some task
  pub parsed : parse_action name ≡ some action
  pub step :
      ReviewStep task.status task.review_status action
        (next_status action task.status)
        (next_review_status action)
  pub row : task_of acted id ≡ some (acted_task action now task)
  pub last :
      ((is_approve action ≡ true) × (publications id now acted ≡ ok after))
      ⊎ ((is_approve action ≡ false) × (after ≡ acted))

prepared_last :
    (publications : Publications) (id : String) (now : ℕ) (action : Action) (acted : Db)
    → Ensures
        (λ after.
          ((is_approve action ≡ true) × (publications id now acted ≡ ok after))
          ⊎ ((is_approve action ≡ false) × (after ≡ acted)))
        (if is_approve action then publications id now acted else ok acted)
prepared_last publications id now action acted = elim (Bool-cases (is_approve action)) [
  | inl approving ↦ rw approving (Ensures-self _ (λ after h. inl (refl, h)))
  | inr other ↦ rw other (committed (inr (refl, refl)))
]

-- The action's result without the flag of a transcode that runs again.
record ActedBody (publications : Publications) (id name : String) (now : ℕ) (db : Db)
    (after : Db × Bool) : Type 0 where
  acted : Acted publications id name now db after.0

act_body-ActedBody :
    (publications : Publications) (ids : ℕ → String) (id name : String) (input : ActionInput)
    (now : ℕ) (db : Db)
    → Ensures
        (ActedBody publications id name now db)
        (act_body publications ids id name input now db)
unfolding act_body
act_body-ActedBody publications ids id name input now db = Ensures-require _ _ _ (λ _.
    Ensures-or_fail _ _ _ (λ action parsed. Ensures-require _ _ _ (λ _.
      Ensures-or_fail _ _ _ (λ t read. Ensures-require _ _ _ (λ waits. Ensures-require _ _ _ (λ h.
        Ensures-require _ _ _ (λ k.
          Ensures-bind _ (rerun-SameTasks ids action id t now (set_action action id now db))
            (λ enqueued same.
              Ensures-bind _ (prepared_last publications id now action _) (λ after last.
                committed (record {
                  acted = record {
                    task = t;
                    action = action;
                    acted = _;
                    read = read;
                    parsed = parsed;
                    step = review_step t.status t.review_status action waits h k;
                    row =
                        ap (find (has_task_id id)) (
                          record_action-tasks action name id (active_run id db.review_runs)
                            (max_version id db.task_metadata_versions) input.reason now enqueued.0
                          ∙ same.tasks)
                        ∙ find-update_self (has_task_id id) (acted_task action now) db.tasks t
                            (λ t. refl) read;
                    last = last;
                  };
                }))))))))))

-- An action that succeeds is a step of the review's life: it was asked of a task that waits for its
-- review, and it leaves the task in the two statuses that the step relation names for it. Approving
-- ends with the publications prepared in the same transaction; every other action ends with its own
-- writes.
pub act_body-refines :
    (publications : Publications) (ids : ℕ → String) (id name : String) (input : ActionInput)
    (now : ℕ) (db after : Db) (again : Bool)
    → act_body publications ids id name input now db ≡ ok (after, again)
    → Acted publications id name now db after
act_body-refines publications ids id name input now db after again h =
    (Ensures-ok (act_body-ActedBody publications ids id name input now db) h).acted
