-- ===== src/Publishing/Unpublished.antt =====
-- What a worker does to a publication that is not published, short of completing it.
use visoraft.Prelude.{
  ℕ, String, ◌≡◌, refl, Bool, true, false, List, ◌&&◌, str_eq, arith, exists, update,
  exists-update_none, if◌then◌else◌,
}
use visoraft.Database.{
  Db, Publication, PublicationStatus, commit, Ensures, committed, Ensures-require, Ensures-commit,
  publication_is_published,
}
use visoraft.Publishing.Summary.{recompute_publish_job, write_summary}
use visoraft.Publishing.Worker.{
  PublishResult, AdapterError, set_publication_stage, ClaimedPublication,
}
use visoraft.Publishing.Results.{
  mark_publication_completion_uncertain, fail_publication, fail_rows, fail_row, judge_failure,
  recover_row,
}
use visoraft.Publishing.Picks.{LoadedPublication}
use visoraft.Publishing.Process.{Upload, Publisher, record_failure, report_stage, run_upload}

abbrev pub is_published_row : String → Publication → Bool
is_published_row id p = str_eq p.id id && publication_is_published p.status

-- The publication is not published.
abbrev pub Unpublished : String → Db → Type 0
Unpublished id db = exists (is_published_row id) db.platform_publications ≡ false

module _ (id : String) where
  -- An UPDATE that publishes nothing.
  kept_unpublished :
      (p : Publication → Bool) (f : Publication → Publication) (xs : List Publication)
      → ((x : Publication) → publication_is_published (f x).status ≡ false)
      → exists (is_published_row id) xs ≡ false
      → exists (is_published_row id) (update p f xs) ≡ false
  kept_unpublished p f xs h clear =
      exists-update_none (is_published_row id) (is_published_row id) p f xs clear
        (λ x e. ground (arith, h x, e))

  judged :
      (c : ClaimedPublication) (e : AdapterError) (now : ℕ)
      → publication_is_published (judge_failure c e now).next_status ≡ false
  unfolding judge_failure
  judged c e now = ground arith

  fail_publication-Unpublished :
      (c : ClaimedPublication) (owner attempt_id : String) (e : AdapterError) (now : ℕ) (db : Db)
      → Unpublished id db
      → Ensures (Unpublished id) (fail_publication c owner attempt_id e now db)
  unfolding fail_publication fail_rows recompute_publish_job write_summary
  fail_publication-Unpublished c owner attempt_id e now db clear = Ensures-require _ _ _ (λ _.
      committed (
        kept_unpublished _ (fail_row (judge_failure c e now) e now) db.platform_publications
          (λ x. judged c e now) clear))

  mark_uncertain-Unpublished :
      (c : ClaimedPublication) (owner attempt_id : String) (r : PublishResult) (version : String)
      (now : ℕ) (db : Db)
      → Unpublished id db
      → Ensures
          (Unpublished id)
          (mark_publication_completion_uncertain c owner attempt_id r version now db)
  unfolding mark_publication_completion_uncertain recompute_publish_job write_summary
  mark_uncertain-Unpublished c owner attempt_id r version now db clear = Ensures-require _ _ _ (λ _.
      committed
        (kept_unpublished _ (recover_row r version now) db.platform_publications (λ x. refl) clear))

  pub set_publication_stage-Unpublished :
      (pid owner stage : String) (status : PublicationStatus) (now : ℕ) (db : Db)
      → publication_is_published status ≡ false
      → Unpublished id db
      → Ensures (Unpublished id) (set_publication_stage pid owner status stage now db)
  unfolding set_publication_stage
  set_publication_stage-Unpublished pid owner stage status now db h clear =
      Ensures-require _ _ _
        (λ _. committed (kept_unpublished _ _ db.platform_publications (λ x. h) clear))

  pub record_failure-Unpublished :
      (w : Publisher) (item : LoadedPublication) (attempt_id : String) (now : ℕ) (e : AdapterError)
      (db : Db)
      → Unpublished id db
      → Unpublished id (record_failure w item attempt_id now e db).0
  record_failure-Unpublished w item attempt_id now e db clear =
      Ensures-commit {P = Unpublished id} db clear
        (fail_publication-Unpublished item.claim w.owner attempt_id e now db clear)

  stage_unpublished :
      (b : Bool)
      → publication_is_published
          (if b then PublicationStatus.submitting else PublicationStatus.uploading)
        ≡ false
  stage_unpublished true = refl
  stage_unpublished false = refl

  pub run_upload-Unpublished :
      (w : Publisher) (item : LoadedPublication) (now : ℕ) (u : Upload) (db : Db)
      → Unpublished id db
      → Unpublished id (run_upload w item now u db).0
  unfolding run_upload
  run_upload-Unpublished w item now (Upload.returns answer) db clear = clear
  run_upload-Unpublished w item now (Upload.reports stage next) db clear =
      run_upload-Unpublished w item now (next _) (commit db (report_stage w item stage now db)).0 (
        Ensures-commit {P = Unpublished id} db clear (
          set_publication_stage-Unpublished item.claim.publication.id w.owner stage _ now db
            (stage_unpublished (str_eq stage "submitting")) clear))
