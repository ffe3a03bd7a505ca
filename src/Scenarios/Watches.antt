-- ===== src/Scenarios/Watches.antt =====
-- The monitors' scheduler on concrete tables.
use visoraft.Prelude.{
  String, ℕ, ◌≡◌, refl, true, false, none, some, [], ◌∷◌, exists, count, ◌⊎◌, ◌+◌, ℤ, pos, Option,
  Bool, if◌then◌else◌, length, ◌≤◌, arith,
}
use visoraft.Database.{ok, Db, Result, TaskStatus}
use visoraft.Monitors.Rows.{Monitor, MonitorState, Candidate, Watch, TaskInput, TaskTemplate}
use visoraft.Monitors.Runs.{ClaimedRun, queued_run, complete_run, enqueue_due}
use visoraft.Monitors.Scheduler.{
  Surroundings, process_candidate, process_and_settle, run_rounds, run_cycle,
}
use visoraft.Monitors.Once.{Turn, Turns, process_candidate-once}
use visoraft.Monitors.Stalled.{is_run_of, complete_run-stalls}
use visoraft.Monitors.Drained.{is_queued_run, run_rounds-drains}
use visoraft.Scenarios.Rows.{empty_db, task_in}

abbrev template : TaskTemplate
template = record {
  target_platforms = "bilibili" ∷ [];
  cookie_profile_id = none;
  repost_statement_version = "brief_v1";
  posting_strategy_id = none;
  auto_publish = false;
}

abbrev monitor_in : String → MonitorState → Monitor
monitor_in id state = record {
  id = id;
  name = "games";
  series_title = "";
  enabled = true;
  include_keywords = [];
  exclude_keywords = [];
  exclude_channel_ids = [];
  video_types = "video" ∷ [];
  min_view_count = pos 0;
  min_like_count = pos 0;
  min_comment_count = pos 0;
  min_duration_seconds = pos 0;
  max_duration_seconds = pos 0;
  schedule_type = "automatic";
  schedule_interval_minutes = 60;
  auto_add_to_tasks = true;
  task_template = template;
  state = state;
  last_run_at = none;
  next_run_at = some 40;
  last_error = "";
  version = 1;
  updated_at = 1;
  archived_at = none;
}

abbrev video : Candidate
video = record {
  external_video_id = "v1";
  episode_number = pos 0;
  series_scope_key = "";
  series_scope_name = "";
  source_url = "https://example.org/v1";
  title = "one";
  description = "";
  channel_id = "c";
  duration_seconds = pos 60;
  view_count = pos 5;
  like_count = pos 5;
  comment_count = pos 5;
  video_type = "video";
}

abbrev create_task : TaskInput → Db → Result (String × Db)
create_task input db = ok ("a", record db { tasks = task_in "a" TaskStatus.queued ∷ db.tasks })

abbrev one_video : Surroundings
one_video = record {
  to_lower = λ text. text;
  discover = λ m. ((video ∷ [], 1), none);
  create = create_task;
}

abbrev two_monitors : Watch
two_monitors = record {
  db = empty_db;
  monitors = monitor_in "m" MonitorState.running ∷ monitor_in "n" MonitorState.running ∷ [];
  runs = queued_run "r" "m" "manual" 10 ∷ queued_run "s" "n" "manual" 11 ∷ [];
  items = [];
  seen = [];
  ingestions = [];
}

abbrev run_in : String → String → ClaimedRun
run_in id monitor_id = record {
  run = queued_run id monitor_id "manual" 10;
  monitor = monitor_in monitor_id MonitorState.running;
}

-- Between the two the first monitor finds another video.
abbrev other_video : Candidate
other_video = record video { external_video_id = "v2"; source_url = "https://example.org/v2" }

abbrev after_first : Watch
after_first = process_and_settle one_video "i" (run_in "r" "m") video 50 two_monitors

abbrev after_other : Watch
after_other = process_and_settle one_video "k" (run_in "r" "m") other_video 51 after_first

process_candidate-once_example :
    (after_first.db ≡ empty_db)
    ⊎ ((process_candidate one_video "j" (run_in "s" "n") video 60 after_other).1.db
        ≡ after_other.db)
process_candidate-once_example =
    process_candidate-once one_video one_video "i" "j" (run_in "r" "m") (run_in "s" "n") video video
      50 60 two_monitors after_other refl
      (Turns.then_turn Turns.start
        (Turn.settles one_video "k" (run_in "r" "m") other_video 51 after_first))

run_rounds-drains_example :
    ((run_rounds one_video (λ n k. "i") "worker" 2 50 two_monitors).0 ≡ none)
    × (count is_queued_run (run_rounds one_video (λ n k. "i") "worker" 2 50 two_monitors).1.runs
        ≡ 0)
unfolding count exists
run_rounds-drains_example =
    run_rounds-drains one_video (λ n k. "i") "worker" 2 50 two_monitors (omega arith) refl

-- Both monitors find the video, and one task is made.
one_task :
    length (run_cycle one_video (λ k. "q") (λ n k. "i") "worker" 50 two_monitors).1.db.tasks ≡ 1
unfolding run_cycle visoraft.Prelude.update visoraft.Prelude.find exists visoraft.Database.◌>>◌
    visoraft.Database.require
one_task = refl

abbrev failed_watch : Watch
failed_watch = complete_run (run_in "r" "m") 1 (some "quota exceeded") 50 two_monitors

complete_run-stalls_example :
    count (is_run_of "m") (enqueue_due (λ k. "q") (λ id. false) 500 failed_watch).runs
    ≡ count (is_run_of "m") failed_watch.runs
complete_run-stalls_example =
    complete_run-stalls (λ k. "q") (λ id. false) (run_in "r" "m") 1 "quota exceeded" 50 500
      two_monitors

-- After a run that has succeeded the same monitor is enqueued.
next_run :
    count
      (is_run_of "m")
      (enqueue_due
        (λ k. "q")
        (λ id. false)
        500
        (complete_run (run_in "r" "m") 1 none 50 two_monitors)).runs
    ≡ 2
unfolding count enqueue_due complete_run visoraft.Prelude.update
next_run = refl
