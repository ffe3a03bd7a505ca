-- ===== src/Publishing/Prepared.antt =====
-- What a preparation may queue, and what it makes of a publication whose outcome is open.
use visoraft.Prelude.{
  ℕ, ◌+◌, String, ◌≡◌, refl, Bool, true, false, Option, some, List, [], ◌∷◌, ◌&&◌, str_eq,
  str_eq_iff, subst, arith, exists, set_where, exists-update_none, exists-update_all, inl, inr,
  Bool-cases, if◌then◌else◌,
}
use visoraft.Database.{
  Db, Task, Strategy, Publication, PublicationStatus, Ensures, committed, Ensures-require,
  Ensures-or_fail, Ensures-bind, Ensures-ok, Ensures-self, ok, task_of, is_preparable,
  publication_is_queued, publication_is_published, publication_is_reconciling,
}
use visoraft.Publishing.Policy.{SourceUrl}
use visoraft.Publishing.Jobs.{is_on_platform}
use visoraft.Publishing.Blockers.{publish_media, load_strategy}
use visoraft.Publishing.Prepare.{Fingerprint, preparation_of, prepare_approved_task_tx}
use visoraft.Publishing.Upserts.{
  Preparation, is_ready, publication_status_of, new_job, actual_job_id, new_publication,
  refresh_publication, upsert_publication, is_bound, prepare_publications, publications_for,
  write_preparation,
}

merge_kept :
    (test at : Publication → Bool) (f : Publication → Publication)
    → ((q : Publication) → test q ≡ false → test (f q) ≡ false)
    → (q : Publication) → test q ≡ false
    → test (set_where at f q) ≡ false
merge_kept test at f merged q refused = elim (Bool-cases (at q)) [
  | inl hit ↦ rw hit (merged q refused)
  | inr other ↦ rw other refused
]

-- An upsert of a row that a test refuses, and that refuses it in the rows it is merged into.
upsert-none :
    (test : Publication → Bool) (e : Publication) (rows : List Publication)
    → test e ≡ false
    → ((q : Publication) → test q ≡ false → test (refresh_publication e q) ≡ false)
    → exists test rows ≡ false
    → exists test (upsert_publication e rows) ≡ false
unfolding exists
upsert-none test e rows new merged clear =
    elim (Bool-cases (exists (is_on_platform e.publish_job_id e.platform) rows)) [
      | inl there ↦ rw there (
          exists-update_none test test (is_on_platform e.publish_job_id e.platform)
            (refresh_publication e) rows clear
            (merge_kept test (is_on_platform e.publish_job_id e.platform) (refresh_publication e)
              merged))
      | inr missing ↦ rw missing (rw new clear)
    ]

module _ (ids : ℕ → String) (job_id media : String) (strategy : Strategy) (p : Preparation)
    (now : ℕ) where
  abbrev pub row_for : ℕ → String → Publication
  row_for k platform = new_publication (ids k) job_id media strategy platform p now

  -- A test that the loop never makes a row pass.
  pub record IsAvoided (test : Publication → Bool) : Type 0 where
    pub new : (k : ℕ) (platform : String) → test (row_for k platform) ≡ false
    pub merged :
        (k : ℕ) (platform : String) (q : Publication)
        → test q ≡ false
        → test (refresh_publication (row_for k platform) q) ≡ false

  pub loop-none :
      (test : Publication → Bool) (avoided : IsAvoided test) (k : ℕ) (platforms : List String)
      (rows : List Publication)
      → exists test rows ≡ false
      → exists test (prepare_publications ids k job_id media strategy p now platforms rows) ≡ false
  unfolding prepare_publications
  loop-none test avoided k [] rows clear = clear
  loop-none test avoided k (platform ∷ platforms) rows clear =
      loop-none test avoided (k + 1) platforms _ (elim (Bool-cases (is_bound strategy platform)) [
        | inl bound ↦ rw bound (
            upsert-none test (row_for k platform) rows (avoided.new k platform)
              (avoided.merged k platform) clear)
        | inr unbound ↦ rw unbound clear
      ])

exists-narrow :
    (p q : Publication → Bool) (rows : List Publication)
    → exists p rows ≡ false
    → exists (λ x. p x && q x) rows ≡ false
unfolding exists
exists-narrow p q [] clear = refl
exists-narrow p q (x ∷ rows) clear = ground (arith, exists-narrow p q rows, clear)

-- The publication of a job on a platform, whose outcome is open.
abbrev pub is_open_on : String → String → Publication → Bool
is_open_on job_id platform q =
    is_on_platform job_id platform q && publication_is_reconciling q.status

not_reconciling :
    (ready starts : Bool) → publication_is_reconciling (publication_status_of ready starts) ≡ false
not_reconciling ready starts = ground arith

abbrev merged_status : PublicationStatus → PublicationStatus → PublicationStatus
merged_status old new = if publication_is_published old then old else new

merged_closed :
    (old : PublicationStatus) (ready starts : Bool)
    → publication_is_reconciling (merged_status old (publication_status_of ready starts)) ≡ false
merged_closed old ready starts = ground (arith, not_reconciling ready starts)

module _ (ids : ℕ → String) (job_id media : String) (strategy : Strategy) (p : Preparation)
    (now : ℕ) (target : String) where
  open-IsAvoided : IsAvoided ids job_id media strategy p now (is_open_on job_id target)
  open-IsAvoided = record {
    new = λ k platform. rw (not_reconciling (is_ready p) p.starts) (ground arith);
    merged =
        λ k platform q refused. rw (merged_closed q.status (is_ready p) p.starts) (ground arith);
  }

  upsert-clears :
      (k : ℕ) (rows : List Publication)
      → exists
          (is_open_on job_id target)
          (upsert_publication (row_for ids job_id media strategy p now k target) rows)
        ≡ false
  unfolding exists
  upsert-clears k rows = elim (Bool-cases (exists (is_on_platform job_id target) rows)) [
    | inl there ↦ rw there (
        exists-update_all (is_open_on job_id target) (is_on_platform job_id target)
          (refresh_publication (row_for ids job_id media strategy p now k target)) rows closed)
    | inr missing ↦ rw missing (
        rw (open-IsAvoided.new k target) (
          exists-narrow (is_on_platform job_id target) (λ q. publication_is_reconciling q.status)
            rows missing))
  ]
    where
      closed :
          (q : Publication)
          → is_open_on job_id target (
              set_where
                (is_on_platform job_id target)
                (refresh_publication (row_for ids job_id media strategy p now k target))
                q)
            ≡ false
      closed q = elim (Bool-cases (is_on_platform job_id target q)) [
        | inl hit ↦ rw hit (rw (merged_closed q.status (is_ready p) p.starts) (ground arith))
        | inr other ↦ rw other (rw other refl)
      ]

  loop-clears :
      (k : ℕ) (platforms : List String) (rows : List Publication)
      → is_bound strategy target ≡ true
      → exists (str_eq target) platforms ≡ true
      → exists
          (is_open_on job_id target)
          (prepare_publications ids k job_id media strategy p now platforms rows)
        ≡ false
  unfolding prepare_publications exists
  loop-clears k [] rows bound listed = cc
  loop-clears k (platform ∷ platforms) rows bound listed =
      elim (Bool-cases (str_eq target platform)) [
        | inl same ↦
            subst
              (λ x.
                exists (is_open_on job_id target)
                  (prepare_publications ids k job_id media strategy p now (x ∷ platforms) rows)
                ≡ false)
              ((str_eq_iff target platform).0 same)
              (rw bound (
                loop-none ids job_id media strategy p now (is_open_on job_id target) open-IsAvoided
                  (k + 1) platforms _ (upsert-clears k rows)))
        | inr other ↦ loop-clears (k + 1) platforms _ bound (ground (arith, listed, other))
      ]

module _ (parse_url : String → Option SourceUrl) (fingerprint : Fingerprint) (ids : ℕ → String)
    (triggered : Bool) (id : String) (now : ℕ) (db : Db) where
  abbrev pub plan : Task → Option Strategy → Preparation
  plan t strategy = preparation_of parse_url fingerprint triggered t strategy now db

  tx-written {ℓ} :
      {P : Db → Type ℓ} (t : Task) (strategy : Option Strategy)
      → task_of db id ≡ some t
      → load_strategy t db ≡ ok strategy
      → P (write_preparation ids (plan t strategy) now db)
      → Ensures P (prepare_approved_task_tx parse_url fingerprint ids triggered id now db)
  unfolding prepare_approved_task_tx visoraft.Database.◌>>=◌ visoraft.Database.or_fail
  tx-written t strategy read loaded h =
      rw read (Ensures-require _ _ _ (λ _. rw loaded (committed h)))

publications-clear :
    (ids : ℕ → String) (p : Preparation) (now : ℕ) (job platform media : String)
    (strategy : Strategy) (rows : List Publication) (o : Option Strategy) (m : Option String)
    → o ≡ some strategy
    → m ≡ some media
    → is_bound strategy platform ≡ true
    → exists (str_eq platform) p.task.target_platforms ≡ true
    → exists (is_open_on job platform) (publications_for ids job o m p now rows) ≡ false
publications-clear ids p now job platform media strategy rows o m chosen there bound listed =
    rw chosen (
      rw there (
        loop-clears ids job media strategy p now platform 1 p.task.target_platforms rows bound
          listed))

abbrev job_of : (ℕ → String) → Preparation → ℕ → Db → String
job_of ids p now db = actual_job_id (new_job (ids 0) p now) db.publish_jobs

written-clears :
    (ids : ℕ → String) (p : Preparation) (now : ℕ) (platform media : String) (strategy : Strategy)
    (db : Db)
    → p.strategy ≡ some strategy
    → p.media ≡ some media
    → is_bound strategy platform ≡ true
    → exists (str_eq platform) p.task.target_platforms ≡ true
    → exists
        (is_open_on (job_of ids p now db) platform)
        (write_preparation ids p now db).platform_publications
      ≡ false
unfolding write_preparation
written-clears ids p now platform media strategy db chosen there bound listed =
    publications-clear ids p now (job_of ids p now db) platform media strategy
      db.platform_publications p.strategy p.media chosen there bound listed

-- A preparation that succeeds, of a task whose strategy and medium are there, leaves on a platform that the
-- task lists and the strategy binds no publication of its job whose outcome is open. Where there was one, the
-- platform may have the submission, and yet its publication is a draft, blocked or queued again.
pub prepare-forgets :
    (parse_url : String → Option SourceUrl) (fingerprint : Fingerprint) (ids : ℕ → String)
    (triggered : Bool) (id platform media : String) (now : ℕ) (t : Task) (strategy : Strategy)
    (db after : Db)
    → task_of db id ≡ some t
    → load_strategy t db ≡ ok (some strategy)
    → publish_media strategy.transcode_preset_id t.id db ≡ some media
    → is_bound strategy platform ≡ true
    → exists (str_eq platform) t.target_platforms ≡ true
    → prepare_approved_task_tx parse_url fingerprint ids triggered id now db ≡ ok after
    → exists
        (is_open_on
          (actual_job_id
            (new_job
              (ids 0)
              (preparation_of parse_url fingerprint triggered t (some strategy) now db)
              now)
            db.publish_jobs)
          platform)
        after.platform_publications
      ≡ false
unfolding preparation_of
prepare-forgets parse_url fingerprint ids triggered id platform media now t strategy db after read
      loaded there bound listed =
    Ensures-ok
      {P = λ (after : Db).
        exists (is_open_on (job_of ids p now db) platform) after.platform_publications ≡ false}
      (tx-written parse_url fingerprint ids triggered id now db t (some strategy) read loaded
        (written-clears ids p now platform media strategy db refl there bound listed))
  where
    p : Preparation
    p = preparation_of parse_url fingerprint triggered t (some strategy) now db
