-- ===== src/Publishing/Gated.antt =====
-- When a preparation queues a publication.
use visoraft.Prelude.{
  ℕ, String, ◌≡◌, refl, Bool, true, false, Option, none, some, List, [], ◌∷◌, ◌&&◌, str_eq, arith,
  exists, update, inl, inr, ◌⊎◌, Bool-cases, if◌then◌else◌,
}
use visoraft.Database.{
  Db, Task, Strategy, Publication, PublicationStatus, Ensures, committed, Ensures-require,
  Ensures-or_fail, Ensures-bind, Ensures-ok, Ensures-self, ok, task_of, publication_is_queued,
  publication_is_published,
}
use visoraft.Publishing.Policy.{SourceUrl}
use visoraft.Publishing.Jobs.{publish_task}
use visoraft.Publishing.Blockers.{
  load_strategy, blockers_of, starts_by_itself, starts_after_review, publish_media, publish_cover,
  strategy_preset,
}
use visoraft.Publishing.Prepare.{Fingerprint, preparation_of, prepare_approved_task_tx}
use visoraft.Publishing.Upserts.{
  Preparation, is_ready, no_blockers, publication_status_of, publications_for, write_preparation,
}
use visoraft.Publishing.Prepared.{IsAvoided, loop-none}

-- The publication of that id is queued.
abbrev pub is_queued_row : String → Publication → Bool
is_queued_row key q = str_eq q.id key && publication_is_queued q.status

unqueued :
    (ready starts : Bool)
    → (starts && ready) ≡ false
    → publication_is_queued (publication_status_of ready starts) ≡ false
unqueued ready starts shut = ground (arith, shut)

merged_unqueued :
    (old : PublicationStatus) (ready starts : Bool)
    → (starts && ready) ≡ false
    → publication_is_queued
        (if publication_is_published old then old else publication_status_of ready starts)
      ≡ false
merged_unqueued old ready starts shut = ground (arith, unqueued ready starts shut)

queued-IsAvoided :
    (ids : ℕ → String) (job_id media : String) (strategy : Strategy) (p : Preparation) (now : ℕ)
    (key : String)
    → (p.starts && is_ready p) ≡ false
    → IsAvoided ids job_id media strategy p now (is_queued_row key)
queued-IsAvoided ids job_id media strategy p now key shut = record {
  new = λ k platform. rw (unqueued (is_ready p) p.starts shut) (ground arith);
  merged = λ k platform q refused.
      rw (merged_unqueued q.status (is_ready p) p.starts shut) (ground arith);
}

publications-unqueued :
    (ids : ℕ → String) (job_id : String) (o : Option Strategy) (m : Option String) (p : Preparation)
    (now : ℕ) (key : String) (rows : List Publication)
    → (p.starts && is_ready p) ≡ false
    → exists (is_queued_row key) rows ≡ false
    → exists (is_queued_row key) (publications_for ids job_id o m p now rows) ≡ false
publications-unqueued ids job_id none m p now key rows shut clear = clear
publications-unqueued ids job_id (some strategy) none p now key rows shut clear = clear
publications-unqueued ids job_id (some strategy) (some media) p now key rows shut clear =
    loop-none ids job_id media strategy p now (is_queued_row key)
      (queued-IsAvoided ids job_id media strategy p now key shut) 1 p.task.target_platforms rows
      clear

update_never {ℓ} :
    {A : Type ℓ} (b : Bool) (q : A → Bool) (f : A → A) (xs : List A)
    → b ≡ false
    → update (λ x. b && q x) f xs ≡ xs
unfolding update
update_never false q f [] shut = refl
update_never false q f (x ∷ xs) shut = rw (update_never false q f xs shut) refl
update_never true q f xs shut = cc

-- Nothing gets queued, and no task changes.
pub record Quiet (key : String) (db after : Db) : Type 0 where
  pub publications : exists (is_queued_row key) after.platform_publications ≡ false
  pub tasks : after.tasks ≡ db.tasks

-- All that a start without the operator takes.
pub record StartsByItself (parse_url : String → Option SourceUrl) (triggered : Bool) (id : String)
    (db : Db) : Type 0 where
  pub task : Task
  pub read : task_of db id ≡ some task
  pub strategy : Option Strategy
  pub loaded : load_strategy task db ≡ ok strategy
  pub called : triggered ≡ true
  pub asked : task.auto_publish ≡ true
  pub allowed : task.settings_snapshot.auto_publish_after_review ≡ true
  pub automatic : starts_after_review strategy ≡ true
  pub clear :
      no_blockers (
        blockers_of parse_url strategy
          (publish_cover task.id db)
          (publish_media (strategy_preset strategy) task.id db)
          task
          db)
      ≡ true

write-Quiet :
    (ids : ℕ → String) (p : Preparation) (now : ℕ) (key : String) (db : Db)
    → (p.starts && is_ready p) ≡ false
    → exists (is_queued_row key) db.platform_publications ≡ false
    → Quiet key db (write_preparation ids p now db)
unfolding write_preparation
write-Quiet ids p now key db shut clear = record {
  publications =
      publications-unqueued ids _ p.strategy p.media p now key db.platform_publications shut clear;
  tasks = update_never (p.starts && is_ready p) _ (publish_task now) db.tasks shut;
}

module _ (parse_url : String → Option SourceUrl) (fingerprint : Fingerprint) (triggered : Bool)
    (now : ℕ) (db : Db) (id : String) (t : Task) (strategy : Option Strategy) where
  started :
      task_of db id ≡ some t
      → load_strategy t db ≡ ok strategy
      → (starts_by_itself triggered t strategy
          && no_blockers (
              blockers_of parse_url strategy
                (publish_cover t.id db)
                (publish_media (strategy_preset strategy) t.id db)
                t
                db))
        ≡ true
      → StartsByItself parse_url triggered id db
  unfolding starts_by_itself
  started read loaded opened = record {
    task = t;
    read = read;
    strategy = strategy;
    loaded = loaded;
    called = ground (arith, opened);
    asked = ground (arith, opened);
    allowed = ground (arith, opened);
    automatic = ground (arith, opened);
    clear = ground (arith, opened);
  }

  gate :
      (ids : ℕ → String) (key : String)
      → task_of db id ≡ some t
      → load_strategy t db ≡ ok strategy
      → exists (is_queued_row key) db.platform_publications ≡ false
      → Quiet key db (
          write_preparation ids
            (preparation_of parse_url fingerprint triggered t strategy now db)
            now
            db)
        ⊎ StartsByItself parse_url triggered id db
  unfolding preparation_of
  gate ids key read loaded clear =
      let p = preparation_of parse_url fingerprint triggered t strategy now db in
      elim (Bool-cases (p.starts && is_ready p)) [
        | inl opened ↦ inr (started read loaded opened)
        | inr shut ↦ inl (write-Quiet ids p now key db shut clear)
      ]

prepare-Gate :
    (parse_url : String → Option SourceUrl) (fingerprint : Fingerprint) (ids : ℕ → String)
    (triggered : Bool) (id key : String) (now : ℕ) (db : Db)
    → exists (is_queued_row key) db.platform_publications ≡ false
    → Ensures
        (λ after. Quiet key db after ⊎ StartsByItself parse_url triggered id db)
        (prepare_approved_task_tx parse_url fingerprint ids triggered id now db)
unfolding prepare_approved_task_tx
prepare-Gate parse_url fingerprint ids triggered id key now db clear =
    Ensures-or_fail _ _ _ (λ t read. Ensures-require _ _ _ (λ _.
      Ensures-bind _ (Ensures-self (load_strategy t db) (λ strategy loaded. loaded))
        (λ strategy loaded.
          committed
            (gate parse_url fingerprint triggered now db id t strategy ids key read loaded clear))))

-- A preparation that succeeds queues no publication and changes no task, unless it is triggered by a review,
-- the task asks to be published, the settings allow that after a review, its strategy is automatic, and
-- nothing blocks it.
pub prepare-gated :
    (parse_url : String → Option SourceUrl) (fingerprint : Fingerprint) (ids : ℕ → String)
    (triggered : Bool) (id key : String) (now : ℕ) (db after : Db)
    → exists (is_queued_row key) db.platform_publications ≡ false
    → prepare_approved_task_tx parse_url fingerprint ids triggered id now db ≡ ok after
    → Quiet key db after ⊎ StartsByItself parse_url triggered id db
prepare-gated parse_url fingerprint ids triggered id key now db after clear done =
    Ensures-ok (prepare-Gate parse_url fingerprint ids triggered id key now db clear) done
