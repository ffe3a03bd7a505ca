-- ===== src/Publishing/Claims.antt =====
-- Who may record what of a publication, and how often.
use visoraft.Prelude.{
  ℕ, String, ◌≡◌, refl, arith, Bool, false, List, [], ◌∷◌, ◌&&◌, not, str_eq, exists, update,
  exists-update_all, set_where-none, Bool-cases, str_eq_iff, subst, ap, true, Option, none, ◌⊎◌,
  inl, inr,
}
use visoraft.Database.{
  Db, Publication, PublicationStatus, ok, err, conflict, require, ◌>>◌, Ensures, committed,
  Ensures-require, Ensures-ok, Ensures-bind, Ensures-self, Result, Error, publication_is_cancelled,
}
use visoraft.Publishing.Summary.{recompute_publish_job, write_summary}
use visoraft.Publishing.Worker.{
  ClaimedPublication, PublishResult, AdapterError, is_held, set_publication_stage,
}
use visoraft.Publishing.Picks.{
  LoadedPublication, load_claimed_publication, load_each, claim_publications, claim_body,
  lock_picked, lock_publication, is_picked, picked_publications, mark_active, claim_mode_of,
  finish_claim,
}
use visoraft.Publishing.Results.{
  complete_row, recover_row, fail_row, judge_failure, complete_publication,
  mark_publication_completion_uncertain, fail_publication, fail_rows,
}

exists_weaker :
    {A : Type 0} (p q : A → Bool) (xs : List A)
    → exists p xs ≡ false
    → exists (λ x. p x && q x) xs ≡ false
unfolding exists
exists_weaker p q [] h = refl
exists_weaker p q (x ∷ xs) h = ground (arith, exists_weaker p q xs, h)

-- Where a publisher holds no row of a publication, its stage, its result, an uncertain result and a failure
-- are refused.
lost-claim :
    (c : ClaimedPublication) (owner attempt_id : String) (status : PublicationStatus)
    (stage : String) (r : PublishResult) (version : String) (e : AdapterError) (now : ℕ) (db : Db)
    → exists (is_held c.publication.id owner) db.platform_publications ≡ false
    → (set_publication_stage c.publication.id owner status stage now db
        ≡ err (conflict "publication_claim_lost"))
      × (complete_publication c owner attempt_id r version now db
          ≡ err (conflict "publication_claim_lost"))
      × (mark_publication_completion_uncertain c owner attempt_id r version now db
          ≡ err (conflict "publication_claim_lost"))
      × (fail_publication c owner attempt_id e now db ≡ err (conflict "publication_claim_lost"))
unfolding set_publication_stage complete_publication mark_publication_completion_uncertain
    fail_publication require ◌>>◌
lost-claim c owner attempt_id status stage r version e now db lost = (
  rw
      (exists_weaker (is_held c.publication.id owner) (λ p. not (publication_is_cancelled p.status))
        db.platform_publications lost)
      refl,
  rw lost refl,
  rw lost refl,
  rw lost refl,
)

-- The loading of what was claimed leaves the publications as they are.
load_each-publications :
    (now : ℕ) (ps : List Publication) (db : Db)
    → Ensures
        (λ (r : List LoadedPublication × Db). r.1.platform_publications ≡ db.platform_publications)
        (load_each now ps db)
unfolding load_each mark_active
load_each-publications now [] db = committed refl
load_each-publications now (p ∷ ps) db =
    Ensures-bind _ (Ensures-self (load_claimed_publication p.id (claim_mode_of p) db) (λ item e. e))
      (λ item e.
        Ensures-bind _ (load_each-publications now ps (mark_active item now db))
          (λ rest same. committed same))

-- A row of the publication that a claim has picked is in the hands of its publisher, and of no other.
picked_away :
    (id owner former : String) (now : ℕ) (chosen rows : List Publication)
    → str_eq owner former ≡ false
    → exists (λ p. str_eq p.id id) chosen ≡ true
    → exists (is_held id former) (update (is_picked chosen) (lock_publication owner now) rows)
      ≡ false
picked_away id owner former now chosen rows other there =
    exists-update_all (is_held id former) (is_picked chosen) (lock_publication owner now) rows (λ p.
      set_where-none (is_held id former) (is_picked chosen) (lock_publication owner now) p
        (λ hit. rw other (ground arith))
        (λ miss. elim (Bool-cases (str_eq p.id id)) [
          | inr elsewhere ↦ rw elsewhere refl
          | inl same ↦
              let missing : exists (λ (x : Publication). str_eq x.id id) chosen ≡ false =
                subst (λ i. exists (λ (x : Publication). str_eq x.id i) chosen ≡ false)
                  ((str_eq_iff _ _).0 same) miss in
              cc
        ]))

claimed_away :
    (owner former : String) (limit : ℕ) (skipped : String → Bool) (now : ℕ)
    (items : List LoadedPublication) (db after : Db) (id : String)
    → str_eq owner former ≡ false
    → exists (λ p. str_eq p.id id) (picked_publications limit skipped now db) ≡ true
    → claim_publications owner limit skipped now db ≡ ((items, none), after)
    → exists (is_held id former) after.platform_publications ≡ false
unfolding claim_publications claim_body
claimed_away owner former limit skipped now items db after id other there done =
    finished _
      (load_each-publications now (picked_publications limit skipped now db)
        (lock_picked owner (picked_publications limit skipped now db) now db))
      done
  where
    away :
        exists
          (is_held id former)
          (lock_picked owner
            (picked_publications limit skipped now db)
            now
            db).platform_publications
        ≡ false
    away =
        picked_away id owner former now (picked_publications limit skipped now db)
          db.platform_publications other there

    finished :
        (result : Result (List LoadedPublication × Db))
        → Ensures
            (λ (x : List LoadedPublication × Db).
              x.1.platform_publications
              ≡ (lock_picked owner
                  (picked_publications limit skipped now db)
                  now
                  db).platform_publications)
            result
        → finish_claim db result ≡ ((items, none), after)
        → exists (is_held id former) after.platform_publications ≡ false
    finished (ok (xs, v)) (committed same) h =
        rw
          (← ap (λ (x : (List LoadedPublication × Option Error) × Db). x.1.platform_publications) h)
          (rw same away)
    finished (err e) failed h = cc

-- When a claim that succeeds has picked a publication, every other publisher has lost it, whoever held it
-- before: it can neither set its stage nor record a result, an uncertain result or a failure of it.
pub claim_publications-takes_over :
    (owner former : String) (limit : ℕ) (skipped : String → Bool) (now : ℕ)
    (items : List LoadedPublication) (db after : Db) (c : ClaimedPublication) (attempt_id : String)
    (status : PublicationStatus) (stage : String) (r : PublishResult) (version : String)
    (e : AdapterError) (later : ℕ)
    → str_eq owner former ≡ false
    → exists (λ p. str_eq p.id c.publication.id) (picked_publications limit skipped now db) ≡ true
    → claim_publications owner limit skipped now db ≡ ((items, none), after)
    → (set_publication_stage c.publication.id former status stage later after
        ≡ err (conflict "publication_claim_lost"))
      × (complete_publication c former attempt_id r version later after
          ≡ err (conflict "publication_claim_lost"))
      × (mark_publication_completion_uncertain c former attempt_id r version later after
          ≡ err (conflict "publication_claim_lost"))
      × (fail_publication c former attempt_id e later after
          ≡ err (conflict "publication_claim_lost"))
claim_publications-takes_over owner former limit skipped now items db after c attempt_id status
      stage r version e later other there done =
    lost-claim c former attempt_id status stage r version e later after
      (claimed_away owner former limit skipped now items db after c.publication.id other there done)

-- The publisher holds no claim of the publication.
record Released (id owner : String) (after : Db) : Type 0 where
  pub released : exists (is_held id owner) after.platform_publications ≡ false

release :
    (id owner : String) (f : Publication → Publication) (ps : List Publication)
    → str_eq "" owner ≡ false
    → ((p : Publication) → (f p).locked_by ≡ "")
    → exists (is_held id owner) (update (is_held id owner) f ps) ≡ false
release id owner f ps named cleared = exists-update_all _ _ f ps (λ p. ground (arith, cleared p))

module _ (c : ClaimedPublication) (owner attempt_id : String) (now : ℕ) (db : Db)
    (named : str_eq "" owner ≡ false) where
  complete-Released :
      (r : PublishResult) (version : String)
      → Ensures
          (Released c.publication.id owner)
          (complete_publication c owner attempt_id r version now db)
  unfolding complete_publication recompute_publish_job write_summary
  complete-Released r version = Ensures-require _ _ _ (λ _. committed (record {
    released =
        release c.publication.id owner (complete_row r version now) db.platform_publications named
          (λ p. refl);
  }))

  uncertain-Released :
      (r : PublishResult) (version : String)
      → Ensures
          (Released c.publication.id owner)
          (mark_publication_completion_uncertain c owner attempt_id r version now db)
  unfolding mark_publication_completion_uncertain recompute_publish_job write_summary
  uncertain-Released r version = Ensures-require _ _ _ (λ _. committed (record {
    released =
        release c.publication.id owner (recover_row r version now) db.platform_publications named
          (λ p. refl);
  }))

  fail-Released :
      (e : AdapterError)
      → Ensures (Released c.publication.id owner) (fail_publication c owner attempt_id e now db)
  unfolding fail_publication fail_rows recompute_publish_job write_summary
  fail-Released e = Ensures-require _ _ _ (λ _. committed (record {
    released =
        release c.publication.id owner (fail_row (judge_failure c e now) e now)
          db.platform_publications named (λ p. refl);
  }))

-- The first of a publisher's three ways to end a claim gives the claim up, so that every later attempt
-- to end it, whatever it would record, is refused.
pub ended-once :
    (c : ClaimedPublication) (owner attempt_id : String) (r later_r : PublishResult)
    (version : String) (e later_e : AdapterError) (now later : ℕ) (db after : Db)
    → str_eq "" owner ≡ false
    → (complete_publication c owner attempt_id r version now db ≡ ok after)
      ⊎ ((mark_publication_completion_uncertain c owner attempt_id r version now db ≡ ok after)
          ⊎ (fail_publication c owner attempt_id e now db ≡ ok after))
    → (complete_publication c owner attempt_id later_r version later after
        ≡ err (conflict "publication_claim_lost"))
      × (mark_publication_completion_uncertain c owner attempt_id later_r version later after
          ≡ err (conflict "publication_claim_lost"))
      × (fail_publication c owner attempt_id later_e later after
          ≡ err (conflict "publication_claim_lost"))
ended-once c owner attempt_id r later_r version e later_e now later db after named ended =
    (refused.1, refused.2, refused.3)
  where
    gave_up : Released c.publication.id owner after
    gave_up = elim ended [
      | inl done ↦ Ensures-ok (complete-Released c owner attempt_id now db named r version) done
      | inr (inl done) ↦
          Ensures-ok (uncertain-Released c owner attempt_id now db named r version) done
      | inr (inr done) ↦ Ensures-ok (fail-Released c owner attempt_id now db named e) done
    ]

    refused :
        (set_publication_stage c.publication.id owner PublicationStatus.queued "" later after
          ≡ err (conflict "publication_claim_lost"))
        × (complete_publication c owner attempt_id later_r version later after
            ≡ err (conflict "publication_claim_lost"))
        × (mark_publication_completion_uncertain c owner attempt_id later_r version later after
            ≡ err (conflict "publication_claim_lost"))
        × (fail_publication c owner attempt_id later_e later after
            ≡ err (conflict "publication_claim_lost"))
    refused =
        lost-claim c owner attempt_id PublicationStatus.queued "" later_r version later_e later
          after gave_up.released
