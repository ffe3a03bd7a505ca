-- ===== src/Scenarios/Control.antt =====
-- What an operator orders, on concrete databases.
use visoraft.Prelude.{
  ℕ, String, ◌≡◌, ◌+◌, refl, Bool, true, false, none, some, [], ◌∷◌, ◌⊎◌, ◌&&◌, ◌||◌, not, str_eq,
  exists, is_some,
}
use visoraft.Database.{
  Db, Task, Step, TaskStatus, StepKind, StepStatus, PublicationStatus, ok, task_of, is_failed,
  is_cancelled, job_is_cancellable, step_is_active,
}
use visoraft.Tasks.Events.Final.{status_of}
use visoraft.Tasks.Control.{cancel, pause, resume, has_publication}
use visoraft.Tasks.Control.Cancelled.{publication_is_open, cancel-stops}
use visoraft.Tasks.Control.Paused.{resume-pause}
use visoraft.Tasks.Retry.{RetryPlan, retry, retry_plan, failed_step, is_reset}
use visoraft.Tasks.Retry.Requeue.{waits, retry_message, retry-requeues}
use visoraft.Scenarios.Rows.{
  downloading, publication_in, step_in, task_in, done, empty_db, source_of,
}

-- The download of task a runs, and a publication of it waits.
abbrev waiting : Db
waiting = record downloading {
  platform_publications = publication_in "p" PublicationStatus.queued "" ∷ [];
}

abbrev cancelled : Db
cancelled = done (cancel "a" 50 waiting)

cancel-stops_example :
    (status_of cancelled "a" ≡ some TaskStatus.cancelled)
    × (has_publication "a" publication_is_open cancelled ≡ false)
    × (exists (λ j. str_eq j.task_id "a" && job_is_cancellable j.status) cancelled.publish_jobs
        ≡ false)
    × ((status_of waiting "a" ≡ some TaskStatus.cancelled)
        ⊎ (exists (λ s. str_eq s.task_id "a" && step_is_active s.status) cancelled.task_steps
            ≡ false))
unfolding cancel visoraft.Database.◌>>=◌ visoraft.Database.or_fail visoraft.Prelude.find
    visoraft.Database.◌>>◌ visoraft.Database.require exists
cancel-stops_example = cancel-stops "a" 50 waiting cancelled refl

abbrev paused : Db
paused = done (pause "a" 50 waiting)

resume-pause_example :
    ((t : Task) × (task_of waiting "a" ≡ some t)
      × (is_some t.paused_at ≡ true)
      × (paused ≡ waiting))
    ⊎ ((t : Task) × (after : Db) × (task_of waiting "a" ≡ some t)
        × (resume "a" 60 paused ≡ ok after)
        × (task_of after "a"
            ≡ some (record t {
              paused_at = none;
              paused_from_status = none;
              paused_step_kind = none;
              updated_at = 60;
              version = t.version + 1 + 1;
            })))
unfolding pause visoraft.Database.◌>>=◌ visoraft.Database.or_fail visoraft.Prelude.find
    visoraft.Database.◌>>◌ visoraft.Database.require exists
resume-pause_example = resume-pause "a" 50 60 waiting paused refl

-- The transcode of task a has failed.
abbrev broken : Db
broken = record empty_db {
  tasks = task_in "a" TaskStatus.failed ∷ [];
  task_steps = step_in "a" StepKind.transcode StepStatus.failed ∷ [];
  media_assets = source_of "a" ∷ [];
}

abbrev new_ids : ℕ → String
new_ids n = "00000000-0000-4000-8000-000000000000"

abbrev retried : Db
retried = done (retry new_ids "a" 50 broken)

retry-requeues_example :
    (t : Task) × (s : Step) × (plan : RetryPlan) × (task_of broken "a" ≡ some t)
    × (is_failed t.status || is_cancelled t.status ≡ true)
    × (failed_step "a" broken.task_steps ≡ some s)
    × (retry_plan s.kind ≡ some plan)
    × (retried.outbox_messages ≡ retry_message new_ids plan t s "a" 50 ∷ broken.outbox_messages)
    × (status_of retried "a" ≡ some plan.next_status)
    × (exists
          (λ x. is_reset "a" plan.step_kinds_to_reset x && not (waits (s.attempt + 1) x))
          retried.task_steps
        ≡ false)
unfolding retry visoraft.Database.◌>>=◌ visoraft.Database.or_fail visoraft.Prelude.find
    visoraft.Database.◌>>◌ visoraft.Database.require visoraft.Tasks.Control.first_step
    visoraft.Tasks.TranscodeStop.source_asset
retry-requeues_example = retry-requeues new_ids "a" 50 broken retried refl
