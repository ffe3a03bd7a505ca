-- ===== src/Publishing/Verified.antt =====
-- What it takes for a worker to record a publication as published.
use visoraft.Prelude.{
  ℕ, String, ◌≡◌, refl, ap, ◌∙◌, Bool, true, false, none, some, not, str_eq, arith, trim_space,
  Option-cases, inl, inr, ◌⊎◌, if◌then◌else◌,
}
use visoraft.Database.{Db, PublicationStatus, Result, Outcome, Ensures, committed, rolled_back}
use visoraft.Publishing.Policy.{validate_publish_result, fixture_account_blocked, is_fixture_result}
use visoraft.Publishing.Worker.{PublishResult, AdapterError, begin_publication_attempt}
use visoraft.Publishing.Picks.{LoadedPublication}
use visoraft.Publishing.Process.{
  Answer, Reconciliation, Platform, Publisher, record_failure, run_upload, complete_or_reconcile,
  classify_adapter_error, conclude, reconcile_one, upload_from, publish_one, attempt_one,
  process_one, has_cookie_jar, materializes_cover, platform_key,
}
use visoraft.Publishing.Unpublished.{
  Unpublished, record_failure-Unpublished, run_upload-Unpublished,
  set_publication_stage-Unpublished,
}

-- The platform has returned this result, for an upload or for a reconciliation.
pub data AnsweredBy (w : Publisher) (item : LoadedPublication) (now : ℕ) (platform : Platform)
    (r : PublishResult) (marked : Bool) : Type 0 where
  uploaded :
      (db : Db)
      → (run_upload w item now (platform.publish item) db).1 ≡ Answer.answered r marked
      → AnsweredBy w item now platform r marked
  reconciled :
      platform.reconcile item ≡ Reconciliation.settled (Answer.answered r marked)
      → AnsweredBy w item now platform r marked

-- A result that may be recorded: it names the submission and its address, and it comes from the fixture
-- exactly where the account is one for local use.
pub record Accepted (w : Publisher) (item : LoadedPublication) (r : PublishResult) (marked : Bool)
    : Type 0 where
  pub submission : str_eq (trim_space r.remote_submission_id) "" ≡ false
  pub address : str_eq (trim_space r.remote_url) "" ≡ false
  pub allowed : fixture_account_blocked w.parse_url item.account.auth_mode item.source_url ≡ false
  pub kind : is_fixture_result marked r ≡ str_eq item.account.auth_mode "fixture"

validate-Accepted :
    (w : Publisher) (item : LoadedPublication) (r : PublishResult) (marked : Bool)
    → validate_publish_result w.parse_url item.account.auth_mode item.source_url marked r ≡ none
    → Accepted w item r marked
unfolding validate_publish_result
validate-Accepted w item r marked h = record {
  submission = ground arith;
  address = ground arith;
  allowed = ground arith;
  kind = ground arith;
}

pub record Verified (w : Publisher) (item : LoadedPublication) (now : ℕ) (platform : Platform)
    : Type 0 where
  pub result : PublishResult
  pub marked : Bool
  pub origin : AnsweredBy w item now platform result marked
  pub accepted : Accepted w item result marked

-- Either the publication is not published, or the platform's result was verified.
Sound : String → Publisher → LoadedPublication → ℕ → Platform → Db → Type 0
Sound id w item now platform after = Unpublished id after ⊎ Verified w item now platform

module _ (id : String) (w : Publisher) (item : LoadedPublication) (platform : Platform)
    (attempt_id : String) (now : ℕ) where
  complete_or_reconcile-Sound :
      (r : PublishResult) (marked : Bool) (db : Db)
      → AnsweredBy w item now platform r marked
      → Unpublished id db
      → Sound id w item now platform
          (complete_or_reconcile w item platform.version attempt_id now r marked db).0
  unfolding Sound complete_or_reconcile
  complete_or_reconcile-Sound r marked db origin clear =
      elim (Option-cases
        (validate_publish_result w.parse_url item.account.auth_mode item.source_url marked r)) [
          | inl valid ↦ inr (record {
            result = r;
            marked = marked;
            origin = origin;
            accepted = validate-Accepted w item r marked valid;
          })
          | inr (failure, refused) ↦
              rw refused
                (inl (record_failure-Unpublished id w item attempt_id now failure db clear))
        ]

  conclude-Sound :
      (answer : Answer) (db : Db)
      → ((r : PublishResult) (marked : Bool)
          → answer ≡ Answer.answered r marked
          → AnsweredBy w item now platform r marked)
      → Unpublished id db
      → Sound id w item now platform (conclude w item platform attempt_id now answer db).0
  unfolding Sound conclude classify_adapter_error
  conclude-Sound (Answer.answered r marked) db origin clear =
      complete_or_reconcile-Sound r marked db (origin r marked refl) clear
  conclude-Sound (Answer.adapter_failed e) db origin clear =
      inl (record_failure-Unpublished id w item attempt_id now e db clear)
  conclude-Sound Answer.timed_out db origin clear =
      inl (record_failure-Unpublished id w item attempt_id now _ db clear)
  conclude-Sound (Answer.failed_otherwise message) db origin clear =
      inl (record_failure-Unpublished id w item attempt_id now _ db clear)

  by_reconciliation :
      (x : Reconciliation) (db : Db)
      → platform.reconcile item ≡ x
      → Unpublished id db
      → Sound id w item now platform (reconcile_one w item platform attempt_id now x db).0
  unfolding Sound reconcile_one
  by_reconciliation (Reconciliation.settled answer) db e clear =
      conclude-Sound answer db
        (λ r marked same. AnsweredBy.reconciled (e ∙ ap Reconciliation.settled same)) clear
  by_reconciliation Reconciliation.unconfirmed db e clear =
      inl (record_failure-Unpublished id w item attempt_id now _ db clear)

  upload_from-Sound :
      (before : Db) (r : Result Db)
      → Unpublished id before
      → Ensures (Unpublished id) r
      → Sound id w item now platform (upload_from w item platform attempt_id now before r).0
  unfolding Sound
  upload_from-Sound before r clear (committed {a} h) =
      conclude-Sound (run_upload w item now (platform.publish item) a).1 _
        (λ r marked same. AnsweredBy.uploaded a same)
        (run_upload-Unpublished id w item now (platform.publish item) a h)
  upload_from-Sound before r clear rolled_back = inl clear

  refused_or :
      (b : Bool) (x y : Outcome)
      → Unpublished id x.0
      → Sound id w item now platform y.0
      → Sound id w item now platform (if b then x else y).0
  unfolding Sound
  refused_or true x y p q = inl p
  refused_or false x y p q = q

  publish_one-Sound :
      (db : Db)
      → Unpublished id db
      → Sound id w item now platform (publish_one w item platform attempt_id now db).0
  unfolding publish_one
  publish_one-Sound db clear = refused_or (not w.makes_directory) _ _ (failed _) (
      refused_or (not w.restricts_directory) _ _ (failed _) (
        refused_or (not (w.materializes item.media)) _ _ (failed _) (
          refused_or (not (materializes_cover w item.cover)) _ _ (failed _) (
            upload_from-Sound db _ clear (
              set_publication_stage-Unpublished id item.claim.publication.id w.owner "upload"
                PublicationStatus.uploading now db refl clear)))))
    where
      failed : (e : AdapterError) → Unpublished id (record_failure w item attempt_id now e db).0
      failed e = record_failure-Unpublished id w item attempt_id now e db clear

Unpublished-Sound :
    (id : String) (w : Publisher) (item : LoadedPublication) (platform : Platform) (now : ℕ)
    (db : Db)
    → Unpublished id db
    → Sound id w item now platform db
unfolding Sound
Unpublished-Sound id w item platform now db h = inl h

either :
    (id : String) (w : Publisher) (item : LoadedPublication) (platform : Platform) (now : ℕ)
    (b : Bool) (x y : Outcome)
    → Sound id w item now platform x.0
    → Sound id w item now platform y.0
    → Sound id w item now platform (if b then x else y).0
either id w item platform now true x y p q = p
either id w item platform now false x y p q = q

attempt_one-Sound :
    (id : String) (w : Publisher) (item : LoadedPublication) (platform : Platform) (new_id : String)
    (now : ℕ) (db : Db)
    → Unpublished id db
    → Sound id w item now platform (attempt_one w item platform new_id now db).0
unfolding attempt_one begin_publication_attempt
attempt_one-Sound id w item platform new_id now db clear =
    either id w item platform now
      (fixture_account_blocked w.parse_url item.account.auth_mode item.source_url) _ _
      (Unpublished-Sound id w item platform now _
        (record_failure-Unpublished id w item _ now _ _ clear))
      (either id w item platform now (str_eq item.claim.claim_mode "reconcile") _ _
        (by_reconciliation id w item platform _ now (platform.reconcile item) _ refl clear)
        (publish_one-Sound id w item platform _ now _ clear))

-- A worker that takes up a claim leaves a publication unpublished, unless the platform that serves the
-- account has itself answered with a result, to an upload or to a reconciliation, and that result was
-- verified: it names the submission and its address, it is a fixture's exactly where the account is one for
-- local use, and such an account did not stand in for a real source.
pub process_one-Verified :
    (id : String) (w : Publisher) (item : LoadedPublication) (new_id : String) (now : ℕ) (db : Db)
    → Unpublished id db
    → Unpublished id (process_one w item new_id now db).0
      ⊎ ((platform : Platform) × (w.platforms (platform_key item) ≡ some platform
            × Verified w item now platform))
unfolding process_one Sound
process_one-Verified id w item new_id now db clear =
    elim (Option-cases (w.platforms (platform_key item))) [
      | inl missing ↦ rw missing (inl (record_failure-Unpublished id w item "" now _ db clear))
      | inr (platform, serves) ↦
          rw serves
            (elim (either id w item platform now (not (has_cookie_jar w item)) _ _
              (inl (record_failure-Unpublished id w item "" now _ db clear))
              (attempt_one-Sound id w item platform new_id now db clear)) [
                | inl kept ↦ inl kept
                | inr verified ↦ inr (platform, (refl, verified))
              ])
    ]
