-- ===== src/Publishing/Edited.antt =====
-- What an edit of a draft leaves behind.
use visoraft.Prelude.{
  ℕ, String, ◌≡◌, refl, ap, subst, sym, ◌∙◌, Bool, true, false, Option, none, some, List, [], ◌∷◌,
  not, str_eq, str_eq_refl, arith, exists, update, set_where, map_row, exists-update_all,
  Bool-cases, inl, inr, ltb,
}
use visoraft.Database.{
  Db, Publication, PublishJob, Blocker, ok, Ensures, committed, Ensures-require, Ensures-or_fail,
  Ensures-ok, job_is_editable,
}
use visoraft.Outbox.{filter}
use visoraft.Publishing.Policy.{SourceUrl}
use visoraft.Publishing.Jobs.{latest_job, newest_job}
use visoraft.Publishing.Drafts.{
  DraftInput, is_draft_of, edit_row, edit_job, is_resolved, edit_draft, update_publication_draft,
}

-- An UPDATE that keeps the task and the time of every job keeps which job is the newest.
module _ (id : String) (g : PublishJob → PublishJob)
    (task : (j : PublishJob) → (g j).task_id ≡ j.task_id)
    (created : (j : PublishJob) → (g j).created_at ≡ j.created_at) where
  earlier-map :
      (j other : PublishJob)
      → ltb (g j).created_at (g other).created_at ≡ ltb j.created_at other.created_at
  earlier-map j other = rw (created j) (rw (created other) refl)

  newest_job-map :
      (j : PublishJob) (o : Option PublishJob)
      → some (newest_job (g j) (map_row g o)) ≡ map_row g (some (newest_job j o))
  newest_job-map j none = refl
  newest_job-map j (some other) =
      rw (earlier-map j other) (elim (Bool-cases (ltb j.created_at other.created_at)) [
        | inl later ↦ rw later refl
        | inr newest ↦ rw newest refl
      ])

  latest_job-map :
      (p : PublishJob → Bool) (f : PublishJob → PublishJob) (js : List PublishJob)
      → ((j : PublishJob) → set_where p f j ≡ g j)
      → latest_job id (update p f js) ≡ map_row g (latest_job id js)
  unfolding latest_job update
  latest_job-map p f [] same = refl
  latest_job-map p f (j ∷ js) same = rw (same j) (
      rw (latest_job-map p f js same) (
        rw (ap (λ x. str_eq x id) (task j)) (elim (Bool-cases (str_eq j.task_id id)) [
          | inl own ↦ rw own (newest_job-map j (latest_job id js))
          | inr foreign ↦ rw foreign refl
        ])))

bumped :
    (job_id platform : String) (input : DraftInput) (now : ℕ) (p : Publication)
    → is_draft_of job_id platform input.expected_version
        (set_where (is_draft_of job_id platform input.expected_version) (edit_row input now) p)
      ≡ false
bumped job_id platform input now p =
    elim (Bool-cases (is_draft_of job_id platform input.expected_version p)) [
      | inl draft ↦ rw draft (ground arith)
      | inr other ↦ rw other other
    ]

module _ (job_id : String) (remaining : List Blocker) (now : ℕ) (j : PublishJob) where
  edit_job-task :
      (set_where (λ (x : PublishJob). str_eq x.id job_id) (edit_job remaining now) j).task_id
      ≡ j.task_id
  edit_job-task = elim (Bool-cases (str_eq j.id job_id)) [
    | inl own ↦ rw own refl
    | inr foreign ↦ rw foreign refl
  ]

  edit_job-created :
      (set_where (λ (x : PublishJob). str_eq x.id job_id) (edit_job remaining now) j).created_at
      ≡ j.created_at
  edit_job-created = elim (Bool-cases (str_eq j.id job_id)) [
    | inl own ↦ rw own refl
    | inr foreign ↦ rw foreign refl
  ]

-- The edit of the newest job: what blocked the platform is gone from its list, it is blocked as long as
-- something is left of that, and no draft has the version of the edit any more.
pub record Edited (id platform : String) (input : DraftInput) (now : ℕ) (db after : Db)
    : Type 0 where
  pub job : PublishJob
  pub read : latest_job id db.publish_jobs ≡ some job
  pub editable : job_is_editable job.status ≡ true
  pub row :
      latest_job id after.publish_jobs
      ≡ some (edit_job (filter (λ b. not (is_resolved platform b)) job.blockers) now job)
  pub had :
      exists (is_draft_of job.id platform input.expected_version) db.platform_publications ≡ true
  pub stale :
      exists (is_draft_of job.id platform input.expected_version) after.platform_publications
      ≡ false

pub update_publication_draft-Edited :
    (parse_url : String → Option SourceUrl) (id platform : String) (input : DraftInput) (now : ℕ)
    (db : Db)
    → Ensures
        (Edited id platform input now db)
        (update_publication_draft parse_url id platform input now db)
unfolding update_publication_draft edit_draft
update_publication_draft-Edited parse_url id platform input now db =
    Ensures-or_fail _ _ _ (λ j read. Ensures-or_fail _ _ _ (λ t _.
      Ensures-require _ _ _ (λ editable. Ensures-or_fail _ _ _ (λ mode _.
        Ensures-require _ _ _ (λ _. Ensures-require _ _ _ (λ _. Ensures-require _ _ _ (λ had.
          committed (record {
            job = j;
            read = read;
            editable = editable;
            row = newest_after j (filter (λ b. not (is_resolved platform b)) j.blockers) read;
            had = had;
            stale =
                exists-update_all (is_draft_of j.id platform input.expected_version)
                  (is_draft_of j.id platform input.expected_version) (edit_row input now)
                  db.platform_publications (bumped j.id platform input now);
          }))))))))
  where
    newest_after :
        (j : PublishJob) (remaining : List Blocker)
        → latest_job id db.publish_jobs ≡ some j
        → latest_job id (update (λ x. str_eq x.id j.id) (edit_job remaining now) db.publish_jobs)
          ≡ some (edit_job remaining now j)
    newest_after j remaining read =
        rw
          (latest_job-map id (set_where (λ x. str_eq x.id j.id) (edit_job remaining now))
            (edit_job-task j.id remaining now) (edit_job-created j.id remaining now)
            (λ x. str_eq x.id j.id) (edit_job remaining now) db.publish_jobs (λ x. refl))
          (rw read (rw (str_eq_refl j.id) refl))

contradiction : {b : Bool} → b ≡ true → b ≡ false → ⊥
contradiction h k = cc

key_of : Option PublishJob → String
key_of none = ""
key_of (some j) = j.id

-- Two edits of a draft that start from the same version: once the first has succeeded, the second does not.
pub update_publication_draft-once :
    (parse_url : String → Option SourceUrl) (id platform : String) (input again : DraftInput)
    (now later : ℕ) (db after final : Db)
    → update_publication_draft parse_url id platform input now db ≡ ok after
    → again.expected_version ≡ input.expected_version
    → ¬ (update_publication_draft parse_url id platform again later after ≡ ok final)
unfolding key_of
update_publication_draft-once parse_url id platform input again now later db after final first same
      second =
    let edit =
      Ensures-ok (update_publication_draft-Edited parse_url id platform input now db) first in
    let next =
      Ensures-ok (update_publication_draft-Edited parse_url id platform again later after) second in
    let job = ap key_of (sym next.read ∙ edit.row) in
    let draft =
      subst (λ v. exists (is_draft_of edit.job.id platform v) after.platform_publications ≡ true)
        same
        (subst
          (λ k.
            exists (is_draft_of k platform again.expected_version) after.platform_publications
            ≡ true)
          job next.had) in
    contradiction draft edit.stale
