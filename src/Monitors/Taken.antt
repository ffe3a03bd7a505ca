-- ===== src/Monitors/Taken.antt =====
-- Videos that are taken: what the reservation and the settling of a candidate leave (scheduler.go and
-- postgres_store.go of internal/monitors).
use visoraft.Prelude.{
  ℕ, String, ◌≡◌, refl, ap, ◌∙◌, Bool, true, false, Option, none, some, List, [], ◌∷◌, ◌&&◌, ◌||◌,
  str_eq, str_eq_refl, arith, exists, set_where-none, set_where-keeps, exists-update_none,
  exists-update_all, exists-update, inl, inr, ◌⊎◌, Bool-cases,
}
use visoraft.Database.{Db, Result, ok, err, Ensures, committed, Ensures-require}
use visoraft.Monitors.Rows.{Ingestion, Watch, Candidate}
use visoraft.Monitors.Runs.{ClaimedRun}
use visoraft.Monitors.Ingestions.{
  is_ingestion, is_free, is_reservation, reserve_ingestion, finalize_ingestion, has_seen,
  reserve_row, created_row,
}
use visoraft.Monitors.Scheduler.{
  Surroundings, process_candidate, process_and_settle, create_reserved, reserve_and_create,
  refusal_of, if_passing, settle_candidate, after_finalize, after_create, task_input,
}

-- The video is known, and no row of it is free.
pub record IsTaken (video : String) (w : Watch) : Type 0 where
  pub known : exists (is_ingestion video) w.ingestions ≡ true
  pub held : exists (λ i. is_ingestion video i && is_free i) w.ingestions ≡ false

abbrev pub free_row : String → Ingestion → Bool
free_row video i = is_ingestion video i && is_free i

exists-none_more :
    (p q : Ingestion → Bool) (xs : List Ingestion)
    → exists p xs ≡ false
    → exists (λ x. p x && q x) xs ≡ false
unfolding exists
exists-none_more p q [] clear = refl
exists-none_more p q (x ∷ xs) clear = ground (arith, exists-none_more p q xs, clear)

-- A reservation that is granted leaves the video taken.
reserve-IsTaken :
    (video monitor_id : String) (now : ℕ) (w : Watch)
    → ((reserve_ingestion video monitor_id now w) ≡ (false, w))
      ⊎ (((reserve_ingestion video monitor_id now w).0 ≡ true)
          × (((reserve_ingestion video monitor_id now w).1.db ≡ w.db)
              × IsTaken video (reserve_ingestion video monitor_id now w).1))
unfolding reserve_ingestion exists
reserve-IsTaken video monitor_id now w =
    elim (Bool-cases (exists (is_ingestion video) w.ingestions)) [
      | inr new ↦ rw new (
          inr (
            refl,
            (
              refl,
              record {
                known = rw (str_eq_refl video) refl;
                held =
                    rw (str_eq_refl video)
                      (exists-none_more (is_ingestion video) is_free w.ingestions new);
              },
            ),
          ))
      | inl old ↦ elim (Bool-cases (exists (free_row video) w.ingestions)) [
        | inr held ↦ rw old (rw held (inl refl))
        | inl free ↦ rw old (
            rw free (
              inr (
                refl,
                (
                  refl,
                  record {
                    known =
                        rw
                          (exists-update (is_ingestion video) (free_row video)
                            (reserve_row monitor_id now) w.ingestions
                            (λ x.
                              set_where-keeps (is_ingestion video) (free_row video)
                                (reserve_row monitor_id now) x refl))
                          old;
                    held =
                        exists-update_all (free_row video) (free_row video)
                          (reserve_row monitor_id now) w.ingestions
                          (λ x.
                            set_where-none (free_row video) (free_row video)
                              (reserve_row monitor_id now) x (λ hit. ground arith) (λ miss. miss));
                  },
                ),
              )))
      ]
    ]

finalize-IsTaken :
    (video task_id monitor_id run_id : String) (now : ℕ) (w : Watch)
    → IsTaken video w
    → Ensures (IsTaken video) (finalize_ingestion video task_id monitor_id run_id now w)
unfolding finalize_ingestion
finalize-IsTaken video task_id monitor_id run_id now w taken = Ensures-require _ _ _ (λ _.
    committed (record {
      known =
          rw
            (exists-update (is_ingestion video) (is_reservation video) (created_row task_id)
              w.ingestions
              (λ x.
                set_where-keeps (is_ingestion video) (is_reservation video) (created_row task_id) x
                  refl))
            taken.known;
      held =
          exists-update_none (free_row video) (free_row video) (is_reservation video)
            (created_row task_id) w.ingestions taken.held
            (λ x refused.
              set_where-none (free_row video) (is_reservation video) (created_row task_id) x
                (λ hit. ground arith) (λ miss. refused));
    }))

pub reserve-taken :
    (video monitor_id : String) (now : ℕ) (w : Watch)
    → IsTaken video w
    → reserve_ingestion video monitor_id now w ≡ (false, w)
unfolding reserve_ingestion
reserve-taken video monitor_id now w taken = rw taken.known (rw taken.held refl)

-- A candidate of a video that is taken creates nothing.
pub process-taken :
    (s : Surroundings) (item_id : String) (run : ClaimedRun) (c : Candidate) (now : ℕ) (w : Watch)
    → IsTaken c.external_video_id w
    → (process_candidate s item_id run c now w).1.db ≡ w.db
unfolding process_candidate
process-taken s item_id run c now w taken =
    rw (reserve-taken c.external_video_id run.monitor.id now w taken) (ground arith)

module _ (item_id : String) (run : ClaimedRun) (c : Candidate) (now : ℕ) where
  -- The tables are those of the tasks before, or the video is taken.
  abbrev Settles : Watch → Option String × Watch → Type 0
  Settles w result = (result.1.db ≡ w.db) ⊎ IsTaken c.external_video_id result.1

  finalized-Settles :
      (task_id : String) (w before : Watch) (r : Result Watch)
      → IsTaken c.external_video_id before
      → Ensures (IsTaken c.external_video_id) r
      → Settles w (after_finalize item_id run c task_id now before r)
  finalized-Settles task_id w before (err e) taken done = inr taken
  finalized-Settles task_id w before (ok after) taken (committed later) =
      inr (record { known = later.known; held = later.held })

  created-Settles :
      (w : Watch) (r : Result (String × Db))
      → IsTaken c.external_video_id w
      → Settles w (after_create item_id run c now w r)
  created-Settles w (err e) taken = inl refl
  created-Settles w (ok (task_id, db)) taken =
      finalized-Settles task_id w _ _ (record { known = taken.known; held = taken.held })
        (finalize-IsTaken c.external_video_id task_id run.monitor.id run.run.id now
          (record w { db = db }) (record { known = taken.known; held = taken.held }))

  shifted-Settles :
      (w v : Watch) (result : Option String × Watch)
      → v.db ≡ w.db
      → Settles v result
      → Settles w result
  shifted-Settles w v result same (inl kept) = inl (kept ∙ same)
  shifted-Settles w v result same (inr taken) = inr taken

  reserved-Settles :
      (s : Surroundings) (w : Watch) (r : Bool × Watch)
      → (r ≡ (false, w)) ⊎ ((r.0 ≡ true) × ((r.1.db ≡ w.db) × IsTaken c.external_video_id r.1))
      → Settles w (reserve_and_create s item_id run c now r)
  unfolding create_reserved
  reserved-Settles s w (false, v) (inl refused) = inl (ap (λ (r : Bool × Watch). r.1.db) refused)
  reserved-Settles s w (false, v) (inr (granted, rest)) = cc
  reserved-Settles s w (true, v) (inl refused) = cc
  reserved-Settles s w (true, v) (inr (granted, (same, taken))) =
      shifted-Settles w v (create_reserved s item_id run c now v) same
        (created-Settles v (s.create (task_input run.monitor c) v.db) taken)

  passing-Settles :
      (w : Watch) (o : Option String) (refuse : String → Option String × Watch)
      (next : Option String × Watch)
      → ((reason : String) → Settles w (refuse reason))
      → Settles w next
      → Settles w (if_passing o refuse next)
  passing-Settles w none refuse next p q = q
  passing-Settles w (some reason) refuse next p q = p reason

  process-Settles :
      (s : Surroundings) (w : Watch) → Settles w (process_candidate s item_id run c now w)
  unfolding process_candidate
  process-Settles s w =
      elim (Bool-cases (str_eq c.external_video_id "" || str_eq c.source_url "")) [
        | inl e ↦ rw e (inl refl)
        | inr e ↦ rw e (
            passing-Settles w (refusal_of s.to_lower run.monitor c) _ _ (λ reason. inl refl)
              (elim (Bool-cases (has_seen run.monitor.id c.external_video_id w)) [
                | inl e ↦ rw e (inl refl)
                | inr e ↦ rw e (elim (Bool-cases run.monitor.auto_add_to_tasks) [
                  | inr e ↦ rw e (inl refl)
                  | inl e ↦ simp e (
                      reserved-Settles s w _
                        (reserve-IsTaken c.external_video_id run.monitor.id now w))
                ])
              ]))
      ]

  settled-Settles :
      (w : Watch) (result : Option String × Watch)
      → Settles w result
      → ((settle_candidate item_id run c now result).db ≡ w.db)
        ⊎ IsTaken c.external_video_id (settle_candidate item_id run c now result)
  settled-Settles w (none, v) kept = kept
  settled-Settles w (some message, v) (inl same) = inl same
  settled-Settles w (some message, v) (inr taken) =
      inr (record { known = taken.known; held = taken.held })

pub loop-Settles :
    (s : Surroundings) (item_id : String) (run : ClaimedRun) (c : Candidate) (now : ℕ) (w : Watch)
    → ((process_and_settle s item_id run c now w).db ≡ w.db)
      ⊎ IsTaken c.external_video_id (process_and_settle s item_id run c now w)
unfolding process_and_settle
loop-Settles s item_id run c now w =
    settled-Settles item_id run c now w _ (process-Settles item_id run c now s w)
