-- ===== src/Monitors/Runs.antt =====
-- The runs of monitors: CreateRun, EnqueueDue, ClaimRun, RequeueExpiredRuns and CompleteRun of
-- internal/monitors/postgres_store.go.
use visoraft.Prelude.{
  ℕ, ◌+◌, String, Bool, true, false, Option, none, some, List, [], ◌∷◌, ◌&&◌, not, str_eq, ltb, leb,
  is_some, update, count, if◌then◌else◌,
}
use visoraft.Database.{Result, ok, err, not_found, conflict, require, or_fail, ◌>>◌, ◌>>=◌}
use visoraft.Outbox.{take}
use visoraft.Monitors.Rows.{
  Monitor, MonitorState, MonitorRunStatus, Run, Item, Watch, Decision, monitor_is_idle,
  monitor_is_paused, monitor_is_running, run_is_queued, run_is_leased, counts_as_accepted,
  is_duplicate, is_task_created,
}
use visoraft.Monitors.Store.{after_interval, has_monitor_id, is_scheduled, monitor_of}

abbrev pub queued_run : String → String → String → ℕ → Run
queued_run run_id id trigger now = record {
  id = run_id;
  monitor_id = id;
  trigger = trigger;
  status = MonitorRunStatus.queued;
  discovered_count = 0;
  accepted_count = 0;
  duplicate_count = 0;
  task_count = 0;
  quota_units = 0;
  error_code = "";
  error_message = "";
  started_at = now;
  completed_at = none;
  lease_owner = "";
  lease_expires_at = none;
}

unfoldable pub create_run : String → String → String → ℕ → Watch → Result Watch
create_run run_id id trigger now w = do
  m ← or_fail (monitor_of id w) not_found
  require (m.enabled && not (monitor_is_paused m.state)) (conflict "monitor_paused")
  require (not (monitor_is_running m.state)) (conflict "monitor_already_running")
  ok (record w {
    runs = queued_run run_id id trigger now ∷ w.runs;
    monitors =
        update (has_monitor_id id)
          (λ x. record x {
            state = MonitorState.running;
            last_error = "";
            updated_at = now;
            version = x.version + 1;
          })
          w.monitors;
  })

-- next_run_at <= $1
abbrev due_by : ℕ → Option ℕ → Bool
due_by now none = false
due_by now (some t) = leb t now

abbrev pub is_due_monitor : ℕ → Monitor → Bool
is_due_monitor now m =
    m.enabled
    && (not (is_some m.archived_at)
        && (is_scheduled m && (monitor_is_idle m.state && due_by now m.next_run_at)))

abbrev or_zero : Option ℕ → ℕ
or_zero none = 0
or_zero (some t) = t

-- ORDER BY next_run_at
unfoldable pub insert_due : Monitor → List Monitor → List Monitor
insert_due m [] = m ∷ []
insert_due m (x ∷ xs) =
    let rest = insert_due m xs in
    if leb (or_zero m.next_run_at) (or_zero x.next_run_at) then m ∷ x ∷ xs else x ∷ rest

-- `skipped` are the rows that another transaction has locked.
unfoldable pub due_monitors : (String → Bool) → ℕ → List Monitor → List Monitor
unfolding insert_due
due_monitors skipped now [] = []
due_monitors skipped now (m ∷ ms) =
    let rest = due_monitors skipped now ms in
    if is_due_monitor now m && not (skipped m.id) then insert_due m rest else rest

abbrev pub advance_due : ℕ → Monitor → Monitor
advance_due now m = record m {
  state = MonitorState.running;
  next_run_at = some (after_interval m now);
  updated_at = now;
  version = m.version + 1;
}

unfoldable pub enqueue_each : (ℕ → String) → ℕ → List Monitor → ℕ → Watch → Watch
enqueue_each ids k [] now w = w
enqueue_each ids k (m ∷ ms) now w = enqueue_each ids (k + 1) ms now (record w {
  runs = queued_run (ids k) m.id "scheduled" now ∷ w.runs;
  monitors = update (has_monitor_id m.id) (advance_due now) w.monitors;
})

unfoldable pub enqueue_due : (ℕ → String) → (String → Bool) → ℕ → Watch → Watch
unfolding due_monitors enqueue_each take
enqueue_due ids skipped now w =
    enqueue_each ids 0 (take 20 (due_monitors skipped now w.monitors)) now w

-- ORDER BY started_at LIMIT 1
abbrev earlier_run : Run → Option Run → Run
earlier_run r none = r
earlier_run r (some other) = if ltb other.started_at r.started_at then other else r

unfoldable pub oldest_queued : (String → Bool) → List Run → Option Run
oldest_queued skipped [] = none
oldest_queued skipped (r ∷ rs) =
    let rest = oldest_queued skipped rs in
    if run_is_queued r.status && not (skipped r.id) then some (earlier_run r rest) else rest

-- interval '5 minutes'
abbrev pub run_lease : ℕ
run_lease = 300000

abbrev pub lease_run : String → ℕ → Run → Run
lease_run owner now r = record r {
  status = MonitorRunStatus.running;
  lease_owner = owner;
  lease_expires_at = some (now + run_lease);
}

abbrev pub is_run_row : String → Run → Bool
is_run_row id r = str_eq r.id id

pub record ClaimedRun : Type 0 where
  pub run : Run
  pub monitor : Monitor

abbrev claimed_with : Run → Option Monitor → Result ClaimedRun
claimed_with run none = err not_found
claimed_with run (some monitor) = ok (record { run = run; monitor = monitor })

-- The claim is committed before the monitor is read; `none` is ErrRunNotFound.
unfoldable pub claim_run : String → (String → Bool) → ℕ → Watch → Option (Result ClaimedRun) × Watch
unfolding oldest_queued
claim_run owner skipped now w = elim (oldest_queued skipped w.runs) [
  | none ↦ (none, w)
  | some r ↦ (
    some (claimed_with (lease_run owner now r) (monitor_of r.monitor_id w)),
    record w { runs = update (is_run_row r.id) (lease_run owner now) w.runs },
  )
]

-- lease_expires_at < $1
abbrev lapsed : ℕ → Option ℕ → Bool
lapsed now none = false
lapsed now (some t) = ltb t now

abbrev pub is_expired : ℕ → Run → Bool
is_expired now r = run_is_leased r.status && lapsed now r.lease_expires_at

unfoldable pub requeue_expired_runs : ℕ → Watch → Watch
requeue_expired_runs now w = record w {
  runs =
      update (is_expired now)
        (λ r. record r {
          status = MonitorRunStatus.queued;
          lease_owner = "";
          lease_expires_at = none;
        })
        w.runs;
}

abbrev is_of_run : String → Item → Bool
is_of_run id i = str_eq i.run_id id

abbrev pub count_items : String → (Decision → Bool) → List Item → ℕ
count_items id p items = count (λ (i : Item). is_of_run id i && p i.decision) items

abbrev later_or : Option ℕ → ℕ → ℕ
later_or none t = t
later_or (some s) t = s

abbrev message_of : Option String → String
message_of none = ""
message_of (some message) = message

abbrev pub rest_monitor : Option String → ℕ → Monitor → Monitor
rest_monitor failure now m = record m {
  state =
      if m.enabled
      then if is_some failure then MonitorState.error else MonitorState.idle
      else MonitorState.paused;
  last_run_at = some now;
  last_error = message_of failure;
  next_run_at =
      if m.enabled && is_scheduled m
      then some (later_or m.next_run_at (after_interval m now))
      else none;
  updated_at = now;
  version = m.version + 1;
}

abbrev pub finish_monitor_run : Option String → ℕ → ℕ → List Item → Run → Run
finish_monitor_run failure quota now items r = record r {
  status = if is_some failure then MonitorRunStatus.failed else MonitorRunStatus.completed;
  discovered_count = count_items r.id (λ d. true) items;
  accepted_count = count_items r.id counts_as_accepted items;
  duplicate_count = count_items r.id is_duplicate items;
  task_count = count_items r.id is_task_created items;
  quota_units = quota;
  error_code = if is_some failure then "monitor_execution_failed" else "";
  error_message = message_of failure;
  completed_at = some now;
  lease_expires_at = none;
}

unfoldable pub complete_run : ClaimedRun → ℕ → Option String → ℕ → Watch → Watch
complete_run run quota failure now w = record w {
  runs = update (is_run_row run.run.id) (finish_monitor_run failure quota now w.items) w.runs;
  monitors = update (has_monitor_id run.monitor.id) (rest_monitor failure now) w.monitors;
}
