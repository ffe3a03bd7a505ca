-- ===== src/Monitors/Stalled.antt =====
-- A monitor whose run has failed.
use visoraft.Prelude.{
  ℕ, zero, suc, ◌+◌, String, ◌≡◌, refl, Bool, false, some, List, [], ◌∷◌, ◌&&◌, str_eq, arith,
  exists, update, count, set_where-none, exists-update_all,
}
use visoraft.Outbox.{take}
use visoraft.Monitors.Rows.{Monitor, Run, Watch}
use visoraft.Monitors.Store.{has_monitor_id}
use visoraft.Monitors.Runs.{
  ClaimedRun, is_due_monitor, due_monitors, insert_due, enqueue_each, enqueue_due, complete_run,
  rest_monitor, queued_run, advance_due,
}

abbrev pub is_run_of : String → Run → Bool
is_run_of id r = str_eq r.monitor_id id

abbrev due_of : String → ℕ → Monitor → Bool
due_of id now m = has_monitor_id id m && is_due_monitor now m

insert_due-none :
    (id : String) (m : Monitor) (ms : List Monitor)
    → has_monitor_id id m ≡ false
    → exists (has_monitor_id id) ms ≡ false
    → exists (has_monitor_id id) (insert_due m ms) ≡ false
unfolding exists insert_due
insert_due-none id m [] other clear = rw other refl
insert_due-none id m (x ∷ ms) other clear = ground (arith, insert_due-none id m ms, other, clear)

due_monitors-none :
    (id : String) (skipped : String → Bool) (now : ℕ) (ms : List Monitor)
    → exists (due_of id now) ms ≡ false
    → exists (has_monitor_id id) (due_monitors skipped now ms) ≡ false
unfolding exists due_monitors
due_monitors-none id skipped now [] clear = refl
due_monitors-none id skipped now (m ∷ ms) clear = ground (
  arith,
  due_monitors-none id skipped now ms,
  insert_due-none id m (due_monitors skipped now ms),
  clear,
)

take-none :
    (id : String) (n : ℕ) (ms : List Monitor)
    → exists (has_monitor_id id) ms ≡ false
    → exists (has_monitor_id id) (take n ms) ≡ false
unfolding exists take
take-none id zero ms clear = refl
take-none id (suc n) [] clear = refl
take-none id (suc n) (m ∷ ms) clear = ground (arith, take-none id n ms, clear)

enqueue_each-count :
    (id : String) (ids : ℕ → String) (k : ℕ) (ms : List Monitor) (now : ℕ) (w : Watch)
    → exists (has_monitor_id id) ms ≡ false
    → count (is_run_of id) (enqueue_each ids k ms now w).runs ≡ count (is_run_of id) w.runs
unfolding exists enqueue_each count
enqueue_each-count id ids k [] now w clear = refl
enqueue_each-count id ids k (m ∷ ms) now w clear = ground (
  arith,
  enqueue_each-count id ids (k + 1) ms now (record w {
    runs = queued_run (ids k) m.id "scheduled" now ∷ w.runs;
    monitors = update (has_monitor_id m.id) (advance_due now) w.monitors;
  }),
  clear,
)

-- When a run of a monitor has failed, the schedule queues no further run of the monitor, at whatever later
-- time it looks.
pub complete_run-stalls :
    (ids : ℕ → String) (skipped : String → Bool) (run : ClaimedRun) (quota : ℕ) (failure : String)
    (now later : ℕ) (w : Watch)
    → count
        (is_run_of run.monitor.id)
        (enqueue_due ids skipped later (complete_run run quota (some failure) now w)).runs
      ≡ count (is_run_of run.monitor.id) (complete_run run quota (some failure) now w).runs
unfolding enqueue_due complete_run
complete_run-stalls ids skipped run quota failure now later w =
    enqueue_each-count run.monitor.id ids 0 _ later (complete_run run quota (some failure) now w) (
      take-none run.monitor.id 20 _ (
        due_monitors-none run.monitor.id skipped later _ (
          exists-update_all (due_of run.monitor.id later) (has_monitor_id run.monitor.id)
            (rest_monitor (some failure) now) w.monitors
            (λ x.
              set_where-none (due_of run.monitor.id later) (has_monitor_id run.monitor.id)
                (rest_monitor (some failure) now) x (λ hit. ground arith) (λ miss. ground arith)))))
