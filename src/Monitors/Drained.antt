-- ===== src/Monitors/Drained.antt =====
-- The rounds of a cycle of the scheduler, and the runs that are queued (scheduler.go of internal/monitors).
mod Beside
use visoraft.Prelude.{
  ℕ, zero, suc, ◌+◌, ◌≤◌, ◌<◌, String, ◌≡◌, refl, sym, ap, ◌∙◌, Bool, true, false, Option, none,
  some, List, [], ◌∷◌, ◌&&◌, ◌||◌, not, str_eq, str_eq_iff, str_eq_refl, arith, is_some, find,
  exists, exists-find, update, count, set_where, set_where-none, set_where-keeps, exists-update,
  exists-update_none, inl, inr, Bool-cases, Option-cases, if◌then◌else◌,
}
use visoraft.Database.{Error, Result, ok, err}
use visoraft.Monitors.Rows.{Monitor, Run, Watch, run_is_queued, Candidate, MonitorRunStatus}
use visoraft.Monitors.Store.{is_monitor, has_monitor_id, monitor_of}
use visoraft.Monitors.Runs.{
  ClaimedRun, is_run_row, oldest_queued, claim_run, lease_run, complete_run, finish_monitor_run,
  rest_monitor,
}
use visoraft.Monitors.Scheduler.{Surroundings, process_each, execute, run_found, run_rounds}
use visoraft.Monitors.Drained.Beside.{IsBeside, process_each-IsBeside}

abbrev pub is_queued_run : Run → Bool
is_queued_run r = run_is_queued r.status

-- A queued run whose monitor is gone or archived.
abbrev pub is_lone_run : List Monitor → Run → Bool
is_lone_run monitors r = run_is_queued r.status && not (exists (is_monitor r.monitor_id) monitors)

oldest_queued-skips :
    (p : Run → Bool) (runs : List Run) {r : Run}
    → oldest_queued (λ id. false) runs ≡ some r
    → exists p runs ≡ false
    → p r ≡ false
unfolding oldest_queued exists
oldest_queued-skips p [] found clear = cc
oldest_queued-skips p (x ∷ xs) {r} found clear =
    elim (Option-cases (oldest_queued (λ id. false) xs)) [
      | inl nothing ↦ ground (arith, nothing, found, clear)
      | inr (other, e) ↦ ground (
        arith,
        oldest_queued-skips p xs {r = other} e,
        oldest_queued-skips p xs {r = r},
        found,
        clear,
      )
    ]

oldest_queued-queued :
    (runs : List Run) {r : Run} → oldest_queued (λ id. false) runs ≡ some r → is_queued_run r ≡ true
unfolding oldest_queued
oldest_queued-queued [] found = cc
oldest_queued-queued (x ∷ xs) {r} found = elim (Option-cases (oldest_queued (λ id. false) xs)) [
  | inl nothing ↦ ground (arith, nothing, found)
  | inr (other, e) ↦
      ground (arith, oldest_queued-queued xs {r = other} e, oldest_queued-queued xs {r = r}, found)
]

oldest_queued-exists :
    (runs : List Run) {r : Run}
    → oldest_queued (λ id. false) runs ≡ some r
    → exists (λ x. is_run_row r.id x && is_queued_run x) runs ≡ true
oldest_queued-exists runs {r} found =
    elim (Bool-cases (exists (λ x. is_run_row r.id x && is_queued_run x) runs)) [
      | inl met ↦ met
      | inr missed ↦ ground (
        arith,
        oldest_queued-skips (λ x. is_run_row r.id x && is_queued_run x) runs {r = r} found missed,
        oldest_queued-queued runs {r = r} found,
        str_eq_refl r.id,
      )
    ]

oldest_queued-none :
    (runs : List Run) → oldest_queued (λ id. false) runs ≡ none → count is_queued_run runs ≡ 0
unfolding oldest_queued count
oldest_queued-none [] found = refl
oldest_queued-none (x ∷ xs) found = ground (arith, oldest_queued-none xs, found)

-- An UPDATE that queues no run lowers their number if it meets one.
count-update-le :
    (p : Run → Bool) (f : Run → Run) (runs : List Run)
    → ((x : Run) → is_queued_run (f x) ≡ false)
    → count is_queued_run (update p f runs) ≤ count is_queued_run runs
unfolding update count
count-update-le p f [] settles = omega arith
count-update-le p f (x ∷ xs) settles = ground (arith, settles x, count-update-le p f xs settles)

count-update-lt :
    (p : Run → Bool) (f : Run → Run) (runs : List Run)
    → ((x : Run) → is_queued_run (f x) ≡ false)
    → exists (λ x. p x && is_queued_run x) runs ≡ true
    → count is_queued_run (update p f runs) < count is_queued_run runs
unfolding update count exists
count-update-lt p f [] settles met = cc
count-update-lt p f (x ∷ xs) settles met =
    ground (arith, settles x, count-update-le p f xs settles, count-update-lt p f xs settles, met)

-- What a round keeps: its queue is shorter, and each queued run has its monitor.
record IsShorter (w v : Watch) : Type 0 where
  pub fewer : count is_queued_run v.runs < count is_queued_run w.runs
  pub manned : exists (is_lone_run v.monitors) v.runs ≡ false

-- The claim of a run, for a run that the queue has.
claim_lem :
    (owner : String) (now : ℕ) (w : Watch) (r : Run)
    → oldest_queued (λ id. false) w.runs ≡ some r
    → exists (is_lone_run w.monitors) w.runs ≡ false
    → IsShorter w (record w { runs = update (is_run_row r.id) (lease_run owner now) w.runs })
claim_lem owner now w r found manned = record {
  fewer =
      count-update-lt (is_run_row r.id) (lease_run owner now) w.runs (λ x. refl)
        (oldest_queued-exists w.runs found);
  manned =
      exists-update_none (is_lone_run w.monitors) (is_lone_run w.monitors) (is_run_row r.id)
        (lease_run owner now) w.runs manned
        (λ x kept.
          set_where-none (is_lone_run w.monitors) (is_run_row r.id) (lease_run owner now) x
            (λ hit. refl) (λ miss. kept));
}

complete_run-manned :
    (run : ClaimedRun) (quota : ℕ) (failure : Option String) (now : ℕ) (w : Watch)
    → exists (is_lone_run w.monitors) w.runs ≡ false
    → exists
        (is_lone_run (complete_run run quota failure now w).monitors)
        (complete_run run quota failure now w).runs
      ≡ false
unfolding complete_run
complete_run-manned run quota failure now w manned =
    exists-update_none (is_lone_run (complete_run run quota failure now w).monitors)
      (is_lone_run w.monitors) (is_run_row run.run.id)
      (finish_monitor_run failure quota now w.items) w.runs manned
      (λ x kept.
        set_where-none (is_lone_run (complete_run run quota failure now w).monitors)
          (is_run_row run.run.id) (finish_monitor_run failure quota now w.items) x
          (λ hit. ground arith)
          (λ miss.
            rw
              (exists-update (is_monitor x.monitor_id) (has_monitor_id run.monitor.id)
                (rest_monitor failure now) w.monitors
                (λ m.
                  set_where-keeps (is_monitor x.monitor_id) (has_monitor_id run.monitor.id)
                    (rest_monitor failure now) m refl))
              kept))

complete_run-count :
    (run : ClaimedRun) (quota : ℕ) (failure : Option String) (now : ℕ) (w : Watch)
    → count is_queued_run (complete_run run quota failure now w).runs ≤ count is_queued_run w.runs
unfolding complete_run
complete_run-count run quota failure now w =
    count-update-le (is_run_row run.run.id) (finish_monitor_run failure quota now w.items) w.runs
      (λ x. ground arith)

run_found-kept :
    (s : Surroundings) (ids : ℕ → String) (run : ClaimedRun) (now : ℕ)
    (answer : (List Candidate × ℕ) × Option String) (w v : Watch)
    → IsShorter w v
    → IsShorter w (run_found s ids run now answer v)
run_found-kept s ids run now ((candidates, quota), some failure) w v kept = record {
  fewer = omega (arith, kept.fewer, complete_run-count run quota (some failure) now v);
  manned = complete_run-manned run quota (some failure) now v kept.manned;
}
run_found-kept s ids run now ((candidates, quota), none) w v kept =
    let beside = process_each-IsBeside s ids 0 run candidates now v in
    let after = process_each s ids 0 run candidates now v in
    record {
      fewer = omega (
        arith,
        kept.fewer,
        ap (count is_queued_run) beside.runs,
        complete_run-count run quota none now after,
      );
      manned =
          complete_run-manned run quota none now after
            (rw beside.runs (rw beside.monitors kept.manned));
    }

claimed-monitor :
    (w : Watch) (r : Run)
    → oldest_queued (λ id. false) w.runs ≡ some r
    → exists (is_lone_run w.monitors) w.runs ≡ false
    → (m : Monitor) × (monitor_of r.monitor_id w ≡ some m)
claimed-monitor w r found manned = elim (Option-cases (monitor_of r.monitor_id w)) [
  | inr there ↦ there
  | inl gone ↦ ground (
    arith,
    oldest_queued-skips (is_lone_run w.monitors) w.runs {r = r} found manned,
    oldest_queued-queued w.runs {r = r} found,
    exists-find (is_monitor r.monitor_id) w.monitors,
    gone,
  )
]

claim_run-none :
    (owner : String) (now : ℕ) (w : Watch)
    → oldest_queued (λ id. false) w.runs ≡ none
    → claim_run owner (λ id. false) now w ≡ (none, w)
unfolding claim_run
claim_run-none owner now w nothing = rw (nothing, claim_run) refl

claim_run-some :
    (owner : String) (now : ℕ) (w : Watch) (r : Run) (m : Monitor)
    → oldest_queued (λ id. false) w.runs ≡ some r
    → monitor_of r.monitor_id w ≡ some m
    → claim_run owner (λ id. false) now w ≡ (
      some (ok (record { run = lease_run owner now r; monitor = m })),
      record w { runs = update (is_run_row r.id) (lease_run owner now) w.runs },
    )
unfolding claim_run
claim_run-some owner now w r m found there = rw (found, claim_run) (rw there refl)

-- When no more than n runs wait, each for a monitor that is there, n rounds of the loop of runCycle leave
-- no run waiting and end without an error.
pub run_rounds-drains :
    (s : Surroundings) (ids : ℕ → ℕ → String) (owner : String) (n now : ℕ) (w : Watch)
    → count is_queued_run w.runs ≤ n
    → exists (is_lone_run w.monitors) w.runs ≡ false
    → ((run_rounds s ids owner n now w).0 ≡ none)
      × (count is_queued_run (run_rounds s ids owner n now w).1.runs ≡ 0)
unfolding run_rounds execute
run_rounds-drains s ids owner zero now w waiting manned = (refl, omega (arith, waiting))
run_rounds-drains s ids owner (suc n) now w waiting manned =
    elim (Option-cases (oldest_queued (λ id. false) w.runs)) [
      | inl nothing ↦
          rw (claim_run-none owner now w nothing) (refl, oldest_queued-none w.runs nothing)
      | inr (r, found) ↦
          let (m, there) = claimed-monitor w r found manned in
          let v : Watch = record w {
            runs = update (is_run_row r.id) (lease_run owner now) w.runs;
          } in
          let run : ClaimedRun = record { run = lease_run owner now r; monitor = m } in
          let kept =
            run_found-kept s (ids n) run now (s.discover m) w v
              (claim_lem owner now w r found manned) in
          rw (claim_run-some owner now w r m found there) (
            run_rounds-drains s ids owner n now (run_found s (ids n) run now (s.discover m) v)
              (omega (arith, kept.fewer, waiting)) kept.manned)
    ]
