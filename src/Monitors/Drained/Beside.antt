-- ===== src/Monitors/Drained/Beside.antt =====
-- What the candidates of a run leave alone: the runs and the monitors.
use visoraft.Prelude.{
  ℕ, ◌+◌, String, ◌≡◌, refl, ◌∙◌, Bool, true, false, Option, none, some, List, [], ◌∷◌, arith,
}
use visoraft.Database.{Db, Result, ok, err, Ensures, committed, Ensures-require}
use visoraft.Monitors.Rows.{Watch, Candidate}
use visoraft.Monitors.Runs.{ClaimedRun}
use visoraft.Monitors.Ingestions.{reserve_ingestion, finalize_ingestion}
use visoraft.Monitors.Scheduler.{
  Surroundings, process_candidate, process_and_settle, process_each, settle_candidate,
  after_finalize, after_create, create_reserved, reserve_and_create, task_input,
}

pub record IsBeside (w v : Watch) : Type 0 where
  pub runs : v.runs ≡ w.runs
  pub monitors : v.monitors ≡ w.monitors

untouched : (w : Watch) → IsBeside w w
untouched w = record { runs = refl; monitors = refl }

reserve-IsBeside :
    (video monitor_id : String) (now : ℕ) (w : Watch)
    → IsBeside w (reserve_ingestion video monitor_id now w).1
unfolding reserve_ingestion
reserve-IsBeside video monitor_id now w = ground arith

finalize-IsBeside :
    (video task_id monitor_id run_id : String) (now : ℕ) (w : Watch)
    → Ensures (IsBeside w) (finalize_ingestion video task_id monitor_id run_id now w)
unfolding finalize_ingestion
finalize-IsBeside video task_id monitor_id run_id now w =
    Ensures-require _ _ _ (λ _. committed (record { runs = refl; monitors = refl }))

module _ (item_id : String) (run : ClaimedRun) (c : Candidate) (now : ℕ) where
  finalized-IsBeside :
      (task_id : String) (w before : Watch) (r : Result Watch)
      → IsBeside w before
      → Ensures (IsBeside before) r
      → IsBeside w (after_finalize item_id run c task_id now before r).1
  finalized-IsBeside task_id w before (err e) kept done = kept
  finalized-IsBeside task_id w before (ok after) kept (committed later) = record {
    runs = later.runs ∙ kept.runs;
    monitors = later.monitors ∙ kept.monitors;
  }

  created-IsBeside :
      (w : Watch) (r : Result (String × Db)) → IsBeside w (after_create item_id run c now w r).1
  created-IsBeside w (err e) = record { runs = refl; monitors = refl }
  created-IsBeside w (ok (task_id, db)) =
      finalized-IsBeside task_id w (record w { db = db }) _
        (record { runs = refl; monitors = refl })
        (finalize-IsBeside c.external_video_id task_id run.monitor.id run.run.id now
          (record w { db = db }))

  reserved-IsBeside :
      (s : Surroundings) (w : Watch) (r : Bool × Watch)
      → IsBeside w r.1
      → IsBeside w (reserve_and_create s item_id run c now r).1
  unfolding create_reserved
  reserved-IsBeside s w (false, v) kept = record { runs = kept.runs; monitors = kept.monitors }
  reserved-IsBeside s w (true, v) kept =
      let created = created-IsBeside v (s.create (task_input run.monitor c) v.db) in
      record { runs = created.runs ∙ kept.runs; monitors = created.monitors ∙ kept.monitors }

  process-IsBeside :
      (s : Surroundings) (w : Watch) → IsBeside w (process_candidate s item_id run c now w).1
  unfolding process_candidate
  process-IsBeside s w = ground (
    arith,
    reserved-IsBeside s w (reserve_ingestion c.external_video_id run.monitor.id now w),
    reserve-IsBeside c.external_video_id run.monitor.id now w,
  )

  settled-IsBeside :
      (w : Watch) (result : Option String × Watch)
      → IsBeside w result.1
      → IsBeside w (settle_candidate item_id run c now result)
  settled-IsBeside w (none, v) kept = kept
  settled-IsBeside w (some message, v) kept = record { runs = kept.runs; monitors = kept.monitors }

  loop-IsBeside :
      (s : Surroundings) (w : Watch) → IsBeside w (process_and_settle s item_id run c now w)
  unfolding process_and_settle
  loop-IsBeside s w = settled-IsBeside w _ (process-IsBeside s w)

pub process_each-IsBeside :
    (s : Surroundings) (ids : ℕ → String) (k : ℕ) (run : ClaimedRun) (cs : List Candidate) (now : ℕ)
    (w : Watch)
    → IsBeside w (process_each s ids k run cs now w)
unfolding process_each
process_each-IsBeside s ids k run [] now w = untouched w
process_each-IsBeside s ids k run (c ∷ cs) now w =
    let first = loop-IsBeside (ids k) run c now s w in
    let rest =
      process_each-IsBeside s ids (k + 1) run cs now (process_and_settle s (ids k) run c now w) in
    record { runs = rest.runs ∙ first.runs; monitors = rest.monitors ∙ first.monitors }
