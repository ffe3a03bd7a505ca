-- ===== src/Monitors/Scheduler.antt =====
-- internal/monitors/scheduler.go. Discovery is the argument `discover`, tasks.Service.Create the argument `create`, and
-- strings.ToLower, with its tables of Unicode, the argument `to_lower`.
use Prim.Native.String.{◌++◌ as str_append}
use visoraft.Prelude.{
  ℕ, zero, suc, ◌+◌, ℤ, String, Bool, true, false, Option, none, some, List, [], ◌∷◌, ◌&&◌, ◌||◌,
  not, str_eq, leb_ℤ, pos, exists, find, if◌then◌else◌,
}
use visoraft.Database.{Db, Result, ok, err, Error}
use visoraft.Publishing.Templates.{contains}
use visoraft.Monitors.Rows.{Monitor, Candidate, Watch, Decision, TaskInput}
use visoraft.Monitors.Runs.{ClaimedRun, claim_run, complete_run, requeue_expired_runs, enqueue_due}
use visoraft.Monitors.Ingestions.{
  record_item, has_seen, mark_seen, reserve_ingestion, finalize_ingestion, release_ingestion,
}

abbrev searchable : (String → String) → Candidate → String
searchable to_lower c = to_lower (str_append c.title (str_append "\n" c.description))

abbrev is_hit : (String → String) → Candidate → String → Bool
is_hit to_lower c keyword = contains (to_lower keyword) (searchable to_lower c)

-- strings.Contains of the first keyword that the candidate has.
abbrev first_found : (String → Bool) → List String → Option String
first_found p keywords = find p keywords

abbrev no_keywords : List String → Bool
no_keywords [] = true
no_keywords (x ∷ xs) = false

abbrev below : ℤ → ℤ → Bool
below a b = not (leb_ℤ b a)

abbrev refused_numbers : Monitor → Candidate → Option String
refused_numbers m c =
    if below c.view_count m.min_view_count
    then some "观看数低于阈值"
    else if below c.like_count m.min_like_count
    then some "点赞数低于阈值"
    else if below c.comment_count m.min_comment_count
    then some "评论数低于阈值"
    else if below c.duration_seconds m.min_duration_seconds
    then some "时长低于阈值"
    else if below (pos 0) m.max_duration_seconds && below m.max_duration_seconds c.duration_seconds
    then some "时长高于阈值"
    else none

abbrev unless_excluded : Option String → Option String → Option String
unless_excluded (some keyword) next = some (str_append "命中排除关键词：" keyword)
unless_excluded none next = next

-- candidatePasses: the reason why the candidate is refused, or `none`.
unfoldable pub refusal_of : (String → String) → Monitor → Candidate → Option String
unfolding contains
refusal_of to_lower m c =
    if not (exists (str_eq c.video_type) m.video_types)
    then some "视频类型不在允许范围"
    else if exists (str_eq c.channel_id) m.exclude_channel_ids
    then some "频道位于排除列表"
    else if not (no_keywords m.include_keywords)
        && not (exists (is_hit to_lower c) m.include_keywords)
    then some "未命中包含关键词"
    else unless_excluded (first_found (is_hit to_lower c) m.exclude_keywords) (refused_numbers m c)

abbrev pub task_input : Monitor → Candidate → TaskInput
task_input m c = record {
  source_url = c.source_url;
  template = m.task_template;
  monitor_id = m.id;
  monitor_name = m.name;
  series_title = m.series_title;
  series_scope_key = c.series_scope_key;
  series_scope_name = c.series_scope_name;
  episode_number = c.episode_number;
}

-- What the scheduler calls. A created task is told by its id.
pub record Surroundings : Type 0 where
  pub to_lower : String → String
  pub discover : Monitor → (List Candidate × ℕ) × Option String
  pub create : TaskInput → Db → Result (String × Db)

abbrev task_failure : String
task_failure = "create task from monitor"

abbrev pub after_finalize :
    String → ClaimedRun → Candidate → String → ℕ → Watch → Result Watch → Option String × Watch
after_finalize item_id run c task_id now before (err e) = (some "finalize task ingestion", before)
after_finalize item_id run c task_id now before (ok after) = (
  none,
  record_item item_id run.run.id run.monitor.id c Decision.task_created "符合筛选条件，已进入统一任务流水线"
      (some task_id) now after,
)

abbrev pub after_create :
    String → ClaimedRun → Candidate → ℕ → Watch → Result (String × Db) → Option String × Watch
after_create item_id run c now w (err e) =
    (some task_failure, release_ingestion c.external_video_id w)
after_create item_id run c now w (ok (task_id, db)) =
    after_finalize item_id run c task_id now (record w { db = db })
      (finalize_ingestion c.external_video_id task_id run.monitor.id run.run.id now
        (record w { db = db }))

-- Creating the task of a candidate that is reserved; the error, and the tables.
unfoldable pub create_reserved :
    Surroundings → String → ClaimedRun → Candidate → ℕ → Watch → Option String × Watch
unfolding finalize_ingestion
create_reserved s item_id run c now w =
    after_create item_id run c now w (s.create (task_input run.monitor c) w.db)

abbrev pub reserve_and_create :
    Surroundings → String → ClaimedRun → Candidate → ℕ → Bool × Watch → Option String × Watch
reserve_and_create s item_id run c now (true, w) = create_reserved s item_id run c now w
reserve_and_create s item_id run c now (false, w) = (
  none,
  record_item item_id run.run.id run.monitor.id c Decision.duplicate "该视频已由其他监控创建任务" none now
      (mark_seen run.monitor.id c.external_video_id run.run.id now w),
)

abbrev pub if_passing :
    Option String → (String → Option String × Watch) → Option String × Watch → Option String × Watch
if_passing (some reason) refuse next = refuse reason
if_passing none refuse next = next

-- processCandidate: the error, and the tables.
unfoldable pub process_candidate :
    Surroundings → String → ClaimedRun → Candidate → ℕ → Watch → Option String × Watch
unfolding refusal_of reserve_ingestion create_reserved
process_candidate s item_id run c now w =
    let decide = λ (decision : Decision) (reason : String) (w : Watch).
      record_item item_id run.run.id run.monitor.id c decision reason none now w in
    if str_eq c.external_video_id "" || str_eq c.source_url ""
    then (some "discovery returned an incomplete candidate", w)
    else if_passing (refusal_of s.to_lower run.monitor c)
        (λ reason. (none, decide Decision.filtered reason w))
        (if has_seen run.monitor.id c.external_video_id w
          then (none, decide Decision.duplicate "该监控此前已发现此视频，可核对后加入任务" w)
          else if not run.monitor.auto_add_to_tasks
          then (
            none,
            decide Decision.accepted "符合筛选条件，配置为仅记录不建单"
                (mark_seen run.monitor.id c.external_video_id run.run.id now w),
          )
          else reserve_and_create s item_id run c now
              (reserve_ingestion c.external_video_id run.monitor.id now w))

-- A candidate that ends in an error leaves an item that says so.
abbrev pub settle_candidate : String → ClaimedRun → Candidate → ℕ → Option String × Watch → Watch
settle_candidate item_id run c now (none, w) = w
settle_candidate item_id run c now (some message, w) =
    record_item item_id run.run.id run.monitor.id c Decision.task_failed message none now w

-- The body of the loop of execute.
unfoldable pub process_and_settle :
    Surroundings → String → ClaimedRun → Candidate → ℕ → Watch → Watch
unfolding process_candidate
process_and_settle s item_id run c now w =
    settle_candidate item_id run c now (process_candidate s item_id run c now w)

unfoldable pub process_each :
    Surroundings → (ℕ → String) → ℕ → ClaimedRun → List Candidate → ℕ → Watch → Watch
unfolding process_and_settle
process_each s ids k run [] now w = w
process_each s ids k run (c ∷ cs) now w =
    process_each s ids (k + 1) run cs now (process_and_settle s (ids k) run c now w)

abbrev pub run_found :
    Surroundings
    → (ℕ → String)
    → ClaimedRun
    → ℕ
    → (List Candidate × ℕ) × Option String
    → Watch
    → Watch
run_found s ids run now ((candidates, quota), some failure) w =
    complete_run run quota (some failure) now w
run_found s ids run now ((candidates, quota), none) w =
    complete_run run quota none now (process_each s ids 0 run candidates now w)

unfoldable pub execute : Surroundings → (ℕ → String) → ClaimedRun → ℕ → Watch → Watch
unfolding complete_run process_each
execute s ids run now w = run_found s ids run now (s.discover run.monitor) w

abbrev pub after_claim :
    (ClaimedRun → Watch → Option Error × Watch)
    → Option (Result ClaimedRun) × Watch
    → Option Error × Watch
after_claim next (none, w) = (none, w)
after_claim next (some (err e), w) = (some e, w)
after_claim next (some (ok run), w) = next run w

-- The loop of runCycle, over the rounds that are left; the round with n more to come takes its ids from
-- `ids n`.
unfoldable pub run_rounds :
    Surroundings → (ℕ → ℕ → String) → String → ℕ → ℕ → Watch → Option Error × Watch
unfolding claim_run execute
run_rounds s ids owner zero now w = (none, w)
run_rounds s ids owner (suc n) now w =
    after_claim (λ run w. run_rounds s ids owner n now (execute s (ids n) run now w))
      (claim_run owner (λ id. false) now w)

unfoldable pub run_cycle :
    Surroundings → (ℕ → String) → (ℕ → ℕ → String) → String → ℕ → Watch → Option Error × Watch
unfolding requeue_expired_runs enqueue_due run_rounds
run_cycle s run_ids ids owner now w =
    run_rounds s ids owner 10 now
      (enqueue_due run_ids (λ id. false) now (requeue_expired_runs now w))
