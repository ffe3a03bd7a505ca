-- ===== src/Publishing/Failures.antt =====
-- What becomes of a publication whose platform failed.
use visoraft.Prelude.{
  List, [], ◌∷◌, update, ap, ℕ, ◌+◌, String, ◌≡◌, refl, arith, Bool, true, false, some, ◌&&◌, not,
  ltb, str_eq, exists, find, find_test, find-update, is_some, exists-update, set_where-keeps, ◌∙◌,
  none, ◌≤◌,
}
use visoraft.Database.{
  Db, Task, Publication, has_task_id, ok, require, ◌>>◌, publication_needs_resolution,
  publication_is_queued,
}
use visoraft.Publishing.Summary.{recompute_publish_job, write_summary}
use visoraft.Publishing.Worker.{
  ClaimedPublication, AdapterError, is_held, begin_publication_attempt,
}
use visoraft.Publishing.Process.{
  Publisher, Platform, Reconciliation, Answer, attempt_one, attempt_id_of, reconcile_one, conclude,
  classify_adapter_error,
}
use visoraft.Publishing.Policy.{fixture_account_blocked, adapter_error}
use visoraft.Publishing.Picks.{is_claimable, claim_mode_of, task_is_running, LoadedPublication}
use visoraft.Publishing.Results.{
  truncate_message, fail_row, judge_failure, fail_rows, fail_publication,
}

-- A failure queues the publication for another attempt exactly where it may be retried, attempts are
-- left, and its outcome is not one that the platform is asked about instead; and only an uncertain
-- outcome is asked about.
judge_failure-queued :
    (c : ClaimedPublication) (e : AdapterError) (now : ℕ)
    → (publication_is_queued (judge_failure c e now).next_status ≡ (
        not (e.uncertain && c.reconcile)
        && (e.retryable && ltb c.publication.attempt c.max_attempts)))
      × (publication_needs_resolution (judge_failure c e now).next_status
          ≡ (e.uncertain && c.reconcile))
unfolding judge_failure
judge_failure-queued c e now = ground arith

exists_found :
    {A : Type 0} (p q : A → Bool) (xs : List A) (x : A)
    → find p xs ≡ some x
    → q x ≡ true
    → exists (λ y. p y && q y) xs ≡ true
unfolding exists find
exists_found p q [] x h t = cc
exists_found p q (y ∷ xs) x h t = ground (arith, exists_found p q xs x, h)

held_after :
    (id owner : String) (f : Publication → Publication) (ps : List Publication) (p : Publication)
    → find (λ x. str_eq x.id id) ps ≡ some p
    → str_eq p.locked_by owner ≡ true
    → ((x : Publication) → (f x).id ≡ x.id)
    → find (λ x. str_eq x.id id) (update (is_held id owner) f ps) ≡ some (f p)
held_after id owner f ps p read held keeps =
    rw
      (find-update (λ x. str_eq x.id id) (is_held id owner) f ps
        (λ x. ap (λ (i : String). str_eq i id) (keeps x)))
      (rw read (rw (find_test (λ x. str_eq x.id id) ps {x = p} read) (rw held refl)))

held_fails :
    (c : ClaimedPublication) (owner attempt_id : String) (e : AdapterError) (now : ℕ) (db : Db)
    (p : Publication)
    → find (λ x. str_eq x.id c.publication.id) db.platform_publications ≡ some p
    → str_eq p.locked_by owner ≡ true
    → fail_publication c owner attempt_id e now db ≡ ok (fail_rows c owner attempt_id e now db)
unfolding fail_publication require ◌>>◌
held_fails c owner attempt_id e now db p read held =
    rw
      (exists_found (λ x. str_eq x.id c.publication.id) (λ x. str_eq x.locked_by owner)
        db.platform_publications p read held)
      refl

failed_row :
    (c : ClaimedPublication) (owner attempt_id : String) (e : AdapterError) (now : ℕ) (db : Db)
    (p : Publication)
    → find (λ x. str_eq x.id c.publication.id) db.platform_publications ≡ some p
    → str_eq p.locked_by owner ≡ true
    → find
        (λ x. str_eq x.id c.publication.id)
        (fail_rows c owner attempt_id e now db).platform_publications
      ≡ some (fail_row (judge_failure c e now) e now p)
unfolding fail_rows recompute_publish_job write_summary
failed_row c owner attempt_id e now db p read held =
    held_after c.publication.id owner (fail_row (judge_failure c e now) e now)
      db.platform_publications p read held (λ x. refl)

update-running :
    (id : String) (p : Task → Bool) (f : Task → Task) (ts : List Task)
    → ((t : Task)
        → (str_eq (f t).id id && not (is_some (f t).paused_at))
          ≡ (str_eq t.id id && not (is_some t.paused_at)))
    → exists (λ t. str_eq t.id id && not (is_some t.paused_at)) (update p f ts)
      ≡ exists (λ t. str_eq t.id id && not (is_some t.paused_at)) ts
update-running id p f ts keeps =
    exists-update (λ t. str_eq t.id id && not (is_some t.paused_at)) p f ts
      (λ t.
        set_where-keeps (λ (t : Task). str_eq t.id id && not (is_some t.paused_at)) p f t (keeps t))

still_running :
    (c : ClaimedPublication) (owner attempt_id id : String) (e : AdapterError) (now : ℕ) (db : Db)
    → task_is_running db id ≡ true
    → task_is_running (fail_rows c owner attempt_id e now db) id ≡ true
unfolding fail_rows recompute_publish_job write_summary
still_running c owner attempt_id id e now db running =
    update-running id (has_task_id c.publication.task_id) _ db.tasks (λ t. refl) ∙ running

-- A row that waits for another attempt is claimed when its time has come, and for an upload.
requeued_row :
    (c : ClaimedPublication) (e : AdapterError) (now later : ℕ) (db : Db) (p : Publication)
    → e.uncertain ≡ false
    → e.retryable ≡ true
    → ltb c.publication.attempt c.max_attempts ≡ true
    → now + c.retry_delay ≤ later
    → task_is_running db p.task_id ≡ true
    → (is_claimable later db (fail_row (judge_failure c e now) e now p) ≡ true)
      × (claim_mode_of (fail_row (judge_failure c e now) e now p) ≡ "publish")
unfolding judge_failure is_claimable
requeued_row c e now later db p certain retryable left due running =
    rw certain (rw retryable (rw left (rw running (ground arith, refl))))

abbrev other_error : String → AdapterError
other_error message = adapter_error "platform_publish_failed" (truncate_message message) true false

attempt-fails :
    (w : Publisher) (item : LoadedPublication) (platform : Platform) (new_id message : String)
    (now : ℕ) (db : Db) (p : Publication)
    → find (λ x. str_eq x.id item.claim.publication.id) db.platform_publications ≡ some p
    → str_eq p.locked_by w.owner ≡ true
    → fixture_account_blocked w.parse_url item.account.auth_mode item.source_url ≡ false
    → item.claim.claim_mode ≡ "reconcile"
    → platform.reconcile item ≡ Reconciliation.settled (Answer.failed_otherwise message)
    → attempt_one w item platform new_id now db ≡ (
      fail_rows item.claim w.owner
          (attempt_id_of new_id item.claim "reconcile" db)
          (other_error message)
          now
          (begin_publication_attempt new_id item.claim "reconcile" now db),
      none,
    )
unfolding attempt_one reconcile_one conclude classify_adapter_error begin_publication_attempt
attempt-fails w item platform new_id message now db p read held allowed mode answer =
    let reconciles : str_eq item.claim.claim_mode "reconcile" ≡ true =
      ap (λ (m : String). str_eq m "reconcile") mode in
    rw reconciles (
      rw allowed (
        rw answer (
          rw
            (held_fails item.claim w.owner (attempt_id_of new_id item.claim "reconcile" db)
              (other_error message) now
              (begin_publication_attempt new_id item.claim "reconcile" now db) p read held)
            refl)))

-- A reconciliation under way that ends in an error which is neither the adapter's own nor a timeout, such
-- as a lost connection, puts the publication back among those to be published while attempts are left: once
-- the delay is over its row can be claimed, and the claim is for an upload, not for a reconciliation.
pub fail-reconcile_requeued :
    (w : Publisher) (item : LoadedPublication) (platform : Platform) (new_id message : String)
    (now later : ℕ) (db : Db) (p : Publication)
    → find (λ x. str_eq x.id item.claim.publication.id) db.platform_publications ≡ some p
    → str_eq p.locked_by w.owner ≡ true
    → task_is_running db p.task_id ≡ true
    → fixture_account_blocked w.parse_url item.account.auth_mode item.source_url ≡ false
    → item.claim.claim_mode ≡ "reconcile"
    → platform.reconcile item ≡ Reconciliation.settled (Answer.failed_otherwise message)
    → ltb item.claim.publication.attempt item.claim.max_attempts ≡ true
    → now + item.claim.retry_delay ≤ later
    → (requeued : Publication) × ((attempt_one w item platform new_id now db).1 ≡ none)
      × (find
            (λ x. str_eq x.id item.claim.publication.id)
            (attempt_one w item platform new_id now db).0.platform_publications
          ≡ some requeued)
      × (is_claimable later (attempt_one w item platform new_id now db).0 requeued ≡ true)
      × (claim_mode_of requeued ≡ "publish")
unfolding begin_publication_attempt
fail-reconcile_requeued w item platform new_id message now later db p read held running allowed mode
      answer left due =
    let e = other_error message in
    let attempt_id = attempt_id_of new_id item.claim "reconcile" db in
    let begun = begin_publication_attempt new_id item.claim "reconcile" now db in
    let requeued =
      requeued_row item.claim e now later (fail_rows item.claim w.owner attempt_id e now begun) p
        refl refl left due
        (still_running item.claim w.owner attempt_id p.task_id e now begun running) in
    rw (attempt-fails w item platform new_id message now db p read held allowed mode answer) (
      fail_row (judge_failure item.claim e now) e now p,
      refl,
      failed_row item.claim w.owner attempt_id e now begun p read held,
      requeued.0,
      requeued.1,
    )
