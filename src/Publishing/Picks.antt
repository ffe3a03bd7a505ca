-- ===== src/Publishing/Picks.antt =====
-- ClaimPublications and loadClaimedPublication of internal/publishing/worker_store.go. `skipped` are the rows
-- that another transaction has locked.
use visoraft.Prelude.{
  ℕ, ◌+◌, ◌*◌, min, max, String, Bool, true, false, Option, none, some, List, [], ◌∷◌, ◌&&◌, ◌||◌,
  not, str_eq, ltb, leb, ◌==◌, exists, find, update, is_some, if◌then◌else◌,
}
use visoraft.Database.{
  Db, Publication, MediaAsset, Account, Result, ok, err, not_found, conflict, invalid, or_fail,
  ◌>>=◌, Error, PublicationStatus, JobStatus, StepKind, StepStatus, is_step, is_available, task_of,
  job_is_open, publication_is_queued, publication_is_reconciling,
}
use visoraft.Tasks.Envelope.{coalesce}
use visoraft.Outbox.{filter, take}
use visoraft.Publishing.Worker.{ClaimedPublication}

-- interval '15 minutes'
abbrev pub claim_lease : ℕ
claim_lease = 900000

abbrev pub lock_is_stale : ℕ → Option ℕ → Bool
lock_is_stale now none = false
lock_is_stale now (some t) = ltb (t + claim_lease) now

-- status IN ('preparing','uploading','submitting')
abbrev is_under_way : PublicationStatus → Bool
is_under_way PublicationStatus.preparing = true
is_under_way PublicationStatus.uploading = true
is_under_way PublicationStatus.submitting = true
is_under_way _ = false

abbrev is_due : ℕ → Option ℕ → Bool
is_due now none = true
is_due now (some t) = leb t now

abbrev pub task_is_running : Db → String → Bool
task_is_running db id = exists (λ t. str_eq t.id id && not (is_some t.paused_at)) db.tasks

unfoldable pub is_claimable : ℕ → Db → Publication → Bool
is_claimable now db p =
    ((publication_is_queued p.status && is_due now p.scheduled_at)
      || ((is_under_way p.status && lock_is_stale now p.locked_at)
          || publication_is_reconciling p.status))
    && ((not (publication_is_reconciling p.status)
          || leb (coalesce p.scheduled_at p.updated_at) now)
        && ((not (is_some p.locked_at) || lock_is_stale now p.locked_at)
            && task_is_running db p.task_id))

-- CASE publication.status WHEN 'reconciliation_required' THEN 0 WHEN 'submitting' THEN 1 ELSE 2 END
abbrev status_rank : PublicationStatus → ℕ
status_rank PublicationStatus.reconciliation_required = 0
status_rank PublicationStatus.submitting = 1
status_rank _ = 2

abbrev planned_at : Publication → ℕ
planned_at p = coalesce p.scheduled_at p.created_at

abbrev goes_first : Publication → Publication → Bool
goes_first p q =
    ltb (status_rank p.status) (status_rank q.status)
    || (status_rank p.status == status_rank q.status
        && (ltb (planned_at p) (planned_at q)
            || (planned_at p == planned_at q && leb p.created_at q.created_at)))

unfoldable pub insert_in_order : Publication → List Publication → List Publication
insert_in_order p [] = p ∷ []
insert_in_order p (q ∷ qs) = if goes_first p q then p ∷ q ∷ qs else q ∷ insert_in_order p qs

unfoldable pub in_order : List Publication → List Publication
in_order [] = []
in_order (p ∷ ps) = insert_in_order p (in_order ps)

-- A limit below 1 counts as 1, and one above 32 as 32.
unfoldable pub picked_publications : ℕ → (String → Bool) → ℕ → Db → List Publication
unfolding filter take in_order insert_in_order is_claimable
picked_publications limit skipped now db =
    take (min (max limit 1) 32) (
      in_order (filter (λ p. is_claimable now db p && not (skipped p.id)) db.platform_publications))

-- status IN ('submitting','reconciliation_required')
abbrev pub is_reconciled_next : PublicationStatus → Bool
is_reconciled_next PublicationStatus.submitting = true
is_reconciled_next PublicationStatus.reconciliation_required = true
is_reconciled_next _ = false

abbrev pub claim_mode_of : Publication → String
claim_mode_of p = if is_reconciled_next p.status then "reconcile" else "publish"

-- The SET clause of the claim.
abbrev pub lock_publication : String → ℕ → Publication → Publication
lock_publication owner now p = record p {
  status =
      if is_reconciled_next p.status
      then PublicationStatus.reconciliation_required
      else PublicationStatus.preparing;
  attempt = if is_reconciled_next p.status then p.attempt else p.attempt + 1;
  started_at =
      if is_reconciled_next p.status then p.started_at else some (coalesce p.started_at now);
  locked_at = some now;
  locked_by = owner;
  updated_at = now;
  version = p.version + 1;
}

abbrev pub is_picked : List Publication → Publication → Bool
is_picked chosen p = exists (λ x. str_eq x.id p.id) chosen

-- A claim with what the worker needs for it.
pub record LoadedPublication : Type 0 where
  pub claim : ClaimedPublication
  pub account : Account
  pub media : MediaAsset
  pub cover : Option MediaAsset
  pub source_url : String

abbrev available_asset : String → List MediaAsset → Option MediaAsset
available_asset id assets = find (λ m. str_eq m.id id && is_available m.status) assets

abbrev cover_of : Option String → List MediaAsset → Option MediaAsset
cover_of none assets = none
cover_of (some id) assets = available_asset id assets

-- The policy's defaults are 3 attempts, 30 seconds, and true.
unfoldable pub load_claimed_publication : String → String → Db → Result LoadedPublication
load_claimed_publication id mode db = do
  p ← or_fail (find (λ p. str_eq p.id id) db.platform_publications) not_found
  account ←
      or_fail
        (find (λ (a : Account). str_eq a.id p.account_id && not (is_some a.archived_at))
          db.platform_accounts)
        not_found
  media ←
      or_fail (available_asset p.media_asset_id db.media_assets)
        (conflict "publish_media_unavailable")
  t ← or_fail (task_of db p.task_id) (invalid "load claimed publication policy")
  ok (record {
    claim = record {
      publication = p;
      max_attempts = coalesce t.settings_snapshot.maximum_attempts 3;
      retry_delay = coalesce t.settings_snapshot.retry_delay_seconds 30 * 1000;
      reconcile = coalesce t.settings_snapshot.reconcile_uncertain_results true;
      claim_mode = mode;
    };
    account = account;
    media = media;
    cover = cover_of p.cover_asset_id db.media_assets;
    source_url = t.source_url;
  })

-- The job and the step of a claimed publication.
unfoldable pub mark_active : LoadedPublication → ℕ → Db → Db
mark_active item now db =
    let reconciles = str_eq item.claim.claim_mode "reconcile" in
    record db {
      publish_jobs =
          update (λ j. str_eq j.id item.claim.publication.publish_job_id && job_is_open j.status)
            (λ j. record j {
              status =
                  if reconciles then JobStatus.reconciliation_required else JobStatus.publishing;
              updated_at = now;
              version = j.version + 1;
            })
            db.publish_jobs;
      task_steps =
          update (is_step item.claim.publication.task_id StepKind.publish)
            (λ s. record s {
              status = StepStatus.running;
              progress = if reconciles then 80 else 10;
              started_at = some (coalesce s.started_at now);
              finished_at = none;
              error_code = "";
              error_message = "";
              updated_at = now;
            })
            db.task_steps;
    }

-- The loop over what the claim returned.
unfoldable pub load_each : ℕ → List Publication → Db → Result (List LoadedPublication × Db)
unfolding load_claimed_publication mark_active
load_each now [] db = ok ([], db)
load_each now (p ∷ ps) db = do
  item ← load_claimed_publication p.id (claim_mode_of p) db
  rest ← load_each now ps (mark_active item now db)
  ok (item ∷ rest.0, rest.1)

abbrev pub lock_picked : String → List Publication → ℕ → Db → Db
lock_picked owner chosen now db = record db {
  platform_publications =
      update (is_picked chosen) (lock_publication owner now) db.platform_publications;
}

unfoldable pub claim_body :
    String → ℕ → (String → Bool) → ℕ → Db → Result (List LoadedPublication × Db)
unfolding picked_publications load_each
claim_body owner limit skipped now db =
    let chosen = picked_publications limit skipped now db in
    load_each now chosen (lock_picked owner chosen now db)

-- What the worker gets, and the tables; a claim with an error is rolled back.
abbrev pub finish_claim :
    Db → Result (List LoadedPublication × Db) → (List LoadedPublication × Option Error) × Db
finish_claim before (ok (items, after)) = ((items, none), after)
finish_claim before (err e) = (([], some e), before)

unfoldable pub claim_publications :
    String → ℕ → (String → Bool) → ℕ → Db → (List LoadedPublication × Option Error) × Db
unfolding claim_body
claim_publications owner limit skipped now db =
    finish_claim db (claim_body owner limit skipped now db)
