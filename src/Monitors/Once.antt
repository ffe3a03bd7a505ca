-- ===== src/Monitors/Once.antt =====
-- Two candidates of one video, and what may happen between them (scheduler.go and postgres_store.go of
-- internal/monitors).
use visoraft.Prelude.{
  delete, str_eq_iff, ℕ, String, ◌≡◌, refl, sym, subst, ◌∙◌, Bool, true, false, Option, none, some,
  List, [], ◌∷◌, str_eq, arith, exists, set_where-none, set_where-keeps, exists-update_none,
  exists-update, inl, inr, ◌⊎◌, Bool-cases,
}
use visoraft.Database.{Db, Result, ok, err, Ensures, committed, Ensures-require}
use visoraft.Monitors.Rows.{Ingestion, Watch, Candidate}
use visoraft.Monitors.Runs.{ClaimedRun}
use visoraft.Monitors.Ingestions.{
  release_ingestion, is_ingestion, is_reservation, reserve_ingestion, finalize_ingestion,
  reserve_row, created_row,
}
use visoraft.Monitors.Scheduler.{
  Surroundings, process_candidate, process_and_settle, create_reserved, reserve_and_create,
  settle_candidate, after_finalize, after_create, task_input,
}
use visoraft.Monitors.Taken.{IsTaken, free_row, reserve-taken, process-taken, loop-Settles}

IsTaken-as :
    (video : String) (w v : Watch) → v.ingestions ≡ w.ingestions → IsTaken video w → IsTaken video v
IsTaken-as video w v same taken = record { known = rw same taken.known; held = rw same taken.held }

-- Whatever video is reserved or finalized, one that is taken stays so.
reserve-keeps :
    (video other monitor_id : String) (now : ℕ) (w : Watch)
    → IsTaken video w
    → IsTaken video (reserve_ingestion other monitor_id now w).1
unfolding reserve_ingestion exists
reserve-keeps video other monitor_id now w taken =
    elim (Bool-cases (exists (is_ingestion other) w.ingestions)) [
      | inr new ↦
          rw new
            (record { known = rw taken.known (ground arith); held = rw taken.held (ground arith) })
      | inl old ↦ elim (Bool-cases (exists (free_row other) w.ingestions)) [
        | inr held ↦ rw old (rw held taken)
        | inl free ↦ rw old (
            rw free (record {
              known =
                  exists-update (is_ingestion video) (free_row other) (reserve_row monitor_id now)
                    w.ingestions
                    (λ x.
                      set_where-keeps (is_ingestion video) (free_row other)
                        (reserve_row monitor_id now) x refl)
                  ∙ taken.known;
              held =
                  exists-update_none (free_row video) (free_row video) (free_row other)
                    (reserve_row monitor_id now) w.ingestions taken.held
                    (λ x refused.
                      set_where-none (free_row video) (free_row other) (reserve_row monitor_id now)
                        x (λ hit. ground arith) (λ miss. refused));
            }))
      ]
    ]

finalize-keeps :
    (video other task_id monitor_id run_id : String) (now : ℕ) (w : Watch)
    → IsTaken video w
    → Ensures (IsTaken video) (finalize_ingestion other task_id monitor_id run_id now w)
unfolding finalize_ingestion
finalize-keeps video other task_id monitor_id run_id now w taken = Ensures-require _ _ _ (λ _.
    committed (record {
      known =
          exists-update (is_ingestion video) (is_reservation other) (created_row task_id)
            w.ingestions
            (λ x.
              set_where-keeps (is_ingestion video) (is_reservation other) (created_row task_id) x
                refl)
          ∙ taken.known;
      held =
          exists-update_none (free_row video) (free_row video) (is_reservation other)
            (created_row task_id) w.ingestions taken.held
            (λ x refused.
              set_where-none (free_row video) (is_reservation other) (created_row task_id) x
                (λ hit. ground arith) (λ miss. refused));
    }))

-- A DELETE of rows that a test refuses.
exists-delete_apart :
    (test p : Ingestion → Bool) (rows : List Ingestion)
    → ((x : Ingestion) → p x ≡ true → test x ≡ false)
    → exists test (delete p rows) ≡ exists test rows
unfolding exists delete
exists-delete_apart test p [] apart = refl
exists-delete_apart test p (x ∷ rows) apart =
    ground (arith, apart x, exists-delete_apart test p rows apart)

apart_row :
    (video other : String) (x : Ingestion)
    → str_eq other video ≡ false
    → is_reservation other x ≡ true
    → is_ingestion video x ≡ false
apart_row video other x differ reserved = ground (
  arith,
  str_eq_iff x.external_video_id other,
  str_eq_iff x.external_video_id video,
  str_eq_iff other video,
  differ,
  reserved,
)

release-keeps :
    (video other : String) (w : Watch)
    → str_eq other video ≡ false
    → IsTaken video w
    → IsTaken video (release_ingestion other w)
release-keeps video other w differ taken = record {
  known =
      exists-delete_apart (is_ingestion video) (is_reservation other) w.ingestions
        (λ x hit. apart_row video other x differ hit)
      ∙ taken.known;
  held =
      exists-delete_apart (free_row video) (is_reservation other) w.ingestions
        (λ x hit. rw (apart_row video other x differ hit) refl)
      ∙ taken.held;
}

module _ (item_id : String) (run : ClaimedRun) (c : Candidate) (now : ℕ) (video : String) where
  finalized-keeps :
      (task_id : String) (before : Watch) (r : Result Watch)
      → IsTaken video before
      → Ensures (IsTaken video) r
      → IsTaken video (after_finalize item_id run c task_id now before r).1
  finalized-keeps task_id before (err e) taken done = taken
  finalized-keeps task_id before (ok after) taken (committed later) =
      IsTaken-as video after _ refl later

  created-keeps :
      (w : Watch) (r : Result (String × Db))
      → str_eq c.external_video_id video ≡ false
      → IsTaken video w
      → IsTaken video (after_create item_id run c now w r).1
  created-keeps w (err e) differ taken = release-keeps video c.external_video_id w differ taken
  created-keeps w (ok (task_id, db)) differ taken =
      finalized-keeps task_id _ _ (IsTaken-as video w (record w { db = db }) refl taken) (
        finalize-keeps video c.external_video_id task_id run.monitor.id run.run.id now
          (record w { db = db }) (IsTaken-as video w (record w { db = db }) refl taken))

  granted-keeps :
      (s : Surroundings) (r : Bool × Watch)
      → str_eq c.external_video_id video ≡ false
      → IsTaken video r.1
      → IsTaken video (reserve_and_create s item_id run c now r).1
  unfolding create_reserved
  granted-keeps s (false, v) differ taken = IsTaken-as video v _ refl taken
  granted-keeps s (true, v) differ taken =
      created-keeps v (s.create (task_input run.monitor c) v.db) differ taken

  process-keeps_other :
      (s : Surroundings) (w : Watch)
      → str_eq c.external_video_id video ≡ false
      → IsTaken video w
      → IsTaken video (process_candidate s item_id run c now w).1
  unfolding process_candidate
  process-keeps_other s w differ taken = ground (
    arith,
    granted-keeps s (reserve_ingestion c.external_video_id run.monitor.id now w) differ,
    reserve-keeps video c.external_video_id run.monitor.id now w taken,
    taken.known,
    taken.held,
  )

  process-keeps_same :
      (s : Surroundings) (w : Watch)
      → IsTaken c.external_video_id w
      → (process_candidate s item_id run c now w).1.ingestions ≡ w.ingestions
  unfolding process_candidate
  process-keeps_same s w taken =
      rw (reserve-taken c.external_video_id run.monitor.id now w taken) (ground arith)

settled_ingestions :
    (item_id : String) (run : ClaimedRun) (c : Candidate) (now : ℕ) (result : Option String × Watch)
    → (settle_candidate item_id run c now result).ingestions ≡ result.1.ingestions
settled_ingestions item_id run c now (none, w) = refl
settled_ingestions item_id run c now (some message, w) = refl

-- A video that is taken stays so while candidates are settled, of that video too.
settle-keeps :
    (s : Surroundings) (item_id : String) (run : ClaimedRun) (c : Candidate) (now : ℕ)
    (video : String) (w : Watch)
    → IsTaken video w
    → IsTaken video (process_and_settle s item_id run c now w)
unfolding process_and_settle
settle-keeps s item_id run c now video w taken =
    let result = process_candidate s item_id run c now w in
    IsTaken-as video result.1 _ (settled_ingestions item_id run c now result)
      (elim (Bool-cases (str_eq c.external_video_id video)) [
        | inr differ ↦ process-keeps_other item_id run c now video s w differ taken
        | inl same ↦
            IsTaken-as video w result.1
              (process-keeps_same item_id run c now video s w
                (subst (λ v. IsTaken v w) (sym ((str_eq_iff _ _).0 same)) taken))
              taken
      ])

-- What may lie between two candidates: another one, of whatever video, monitor and run, that is settled, and
-- whatever leaves what is remembered of videos as it is.
pub data Turn : Watch → Watch → Type 0 where
  settles :
      (s : Surroundings) (item_id : String) (run : ClaimedRun) (c : Candidate) (now : ℕ) (w : Watch)
      → Turn w (process_and_settle s item_id run c now w)
  elsewhere : (w v : Watch) → v.ingestions ≡ w.ingestions → Turn w v

pub data Turns (w : Watch) : Watch → Type 0 where
  start : Turns w w
  then_turn : {u v : Watch} → Turns w u → Turn u v → Turns w v

Turn-keeps : {w v : Watch} (video : String) → Turn w v → IsTaken video w → IsTaken video v
Turn-keeps video (settles s item_id run c now w) taken =
    settle-keeps s item_id run c now video w taken
Turn-keeps video (elsewhere w v same) taken = IsTaken-as video w v same taken

Turns-keeps : {w v : Watch} (video : String) → Turns w v → IsTaken video w → IsTaken video v
Turns-keeps video start taken = taken
Turns-keeps video (then_turn before turn) taken =
    Turn-keeps video turn (Turns-keeps video before taken)

-- Two candidates are of the same video, of whatever monitors and runs. Between them other candidates may be
-- settled, and everything may change but what is remembered of videos (which a purge of the monitor or the
-- deletion of the task does change). Then the first or the second leaves the tables of the tasks as they
-- were: at most one of them makes a task.
pub process_candidate-once :
    (s t : Surroundings) (first_id second_id : String) (first_run second_run : ClaimedRun)
    (c d : Candidate) (first_time second_time : ℕ) (w v : Watch)
    → d.external_video_id ≡ c.external_video_id
    → Turns (process_and_settle s first_id first_run c first_time w) v
    → ((process_and_settle s first_id first_run c first_time w).db ≡ w.db)
      ⊎ ((process_candidate t second_id second_run d second_time v).1.db ≡ v.db)
process_candidate-once s t first_id second_id first_run second_run c d first_time second_time w v
      same turns =
    elim (loop-Settles s first_id first_run c first_time w) [
      | inl kept ↦ inl kept
      | inr taken ↦ inr (
          process-taken t second_id second_run d second_time v
            (subst (λ x. IsTaken x v) (sym same) (Turns-keeps c.external_video_id turns taken)))
    ]
