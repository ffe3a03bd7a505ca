-- ===== src/Publishing/Totals.antt =====
-- What the summary of a job's publications means.
use visoraft.Prelude.{
  ◌≤◌, ◌<◌, String, ◌≡◌, refl, arith, Bool, true, false, List, [], ◌∷◌, ◌&&◌, not, str_eq, exists,
  count,
}
use visoraft.Database.{
  Publication, TaskStatus, publication_is_published, publication_is_failed, publication_is_active,
  publication_is_reconciling,
}
use visoraft.Publishing.Summary.{counts_of, summarize, Counts}

module _ (p q : Publication → Bool) where
  count-both : (xs : List Publication) → count (λ x. p x && q x) xs ≤ count p xs
  unfolding count
  count-both [] = omega arith
  count-both (x ∷ xs) = ground (arith, count-both xs)

  -- All rows of p pass q where as many pass both as pass p.
  count-all :
      (xs : List Publication)
      → count (λ x. p x && q x) xs ≡ count p xs
      → exists (λ x. p x && not (q x)) xs ≡ false
  unfolding count exists
  count-all [] h = refl
  count-all (x ∷ xs) h = ground (arith, count-all xs, count-both xs, h)

  all-count :
      (xs : List Publication)
      → exists (λ x. p x && not (q x)) xs ≡ false
      → count (λ x. p x && q x) xs ≡ count p xs
  unfolding count exists
  all-count [] h = refl
  all-count (x ∷ xs) h = ground (arith, all-count xs, h)

count-none : (p : Publication → Bool) (xs : List Publication) → count p xs ≡ 0 → exists p xs ≡ false
unfolding count exists
count-none p [] h = refl
count-none p (x ∷ xs) h = ground (arith, count-none p xs, h)

count-some : (p : Publication → Bool) (xs : List Publication) → 0 < count p xs → exists p xs ≡ true
unfolding count exists
count-some p [] h = absurd (omega arith)
count-some p (x ∷ xs) h = ground (arith, count-some p xs, h)

none-count : (p : Publication → Bool) (xs : List Publication) → exists p xs ≡ true → 0 < count p xs
unfolding count exists
none-count p [] h = cc
none-count p (x ∷ xs) h = ground (arith, none-count p xs, h)

published_total :
    (c : Counts)
    → (summarize c).task_status ≡ TaskStatus.published
    → (0 < c.total) × (c.published ≡ c.total)
unfolding summarize
published_total c h = ground arith

total_published :
    (c : Counts)
    → 0 < c.total
    → c.published ≡ c.total
    → (summarize c).task_status ≡ TaskStatus.published
unfolding summarize
total_published c some_there h = ground arith

failed_total :
    (c : Counts)
    → (summarize c).task_status ≡ TaskStatus.failed
    → (c.active ≡ 0) × (c.reconcile ≡ 0) × (0 < c.failed)
unfolding summarize
failed_total c h = ground arith

-- The task counts as published exactly where its job has a publication and every publication of the job
-- is published.
pub summary-published :
    (job_id : String) (ps : List Publication)
    → ((summarize (counts_of job_id ps)).task_status ≡ TaskStatus.published
        → (exists (λ p. str_eq p.publish_job_id job_id) ps ≡ true)
          × (exists
                (λ p. str_eq p.publish_job_id job_id && not (publication_is_published p.status))
                ps
              ≡ false))
      × (exists (λ p. str_eq p.publish_job_id job_id) ps ≡ true
          → exists
              (λ p. str_eq p.publish_job_id job_id && not (publication_is_published p.status))
              ps
            ≡ false
          → (summarize (counts_of job_id ps)).task_status ≡ TaskStatus.published)
unfolding counts_of
summary-published job_id ps = (
  (λ h.
      let full = published_total (counts_of job_id ps) h in
      (
        count-some (λ p. str_eq p.publish_job_id job_id) ps full.0,
        count-all (λ p. str_eq p.publish_job_id job_id) (λ p. publication_is_published p.status) ps
            full.1,
      )),
  (λ there none_open.
      total_published (counts_of job_id ps)
        (none-count (λ p. str_eq p.publish_job_id job_id) ps there)
        (all-count (λ p. str_eq p.publish_job_id job_id) (λ p. publication_is_published p.status) ps
          none_open)),
)

-- Where the task counts as failed, a publication of its job has failed, none of them is still on its
-- way, and of none the outcome is open.
summary-failed :
    (job_id : String) (ps : List Publication)
    → (summarize (counts_of job_id ps)).task_status ≡ TaskStatus.failed
    → (exists (λ p. str_eq p.publish_job_id job_id && publication_is_active p.status) ps ≡ false)
      × (exists (λ p. str_eq p.publish_job_id job_id && publication_is_reconciling p.status) ps
          ≡ false)
      × (exists (λ p. str_eq p.publish_job_id job_id && publication_is_failed p.status) ps ≡ true)
unfolding counts_of
summary-failed job_id ps h =
    (count-none _ ps ended.0, count-none _ ps ended.1, count-some _ ps ended.2)
  where
    ended :
        ((counts_of job_id ps).active ≡ 0)
        × ((counts_of job_id ps).reconcile ≡ 0)
        × (0 < (counts_of job_id ps).failed)
    ended = failed_total (counts_of job_id ps) h
