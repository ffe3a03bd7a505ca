-- ===== src/Scenarios/Platforms.antt =====
-- Publications on concrete databases.
use visoraft.Prelude.{
  ℕ, String, ◌≡◌, ◌+◌, refl, true, false, Option, none, some, List, [], ◌∷◌, ◌&&◌, not, str_eq,
  exists, find, ltb, inl,
}
use visoraft.Database.{
  Db, Publication, AccountStatus, Error, TaskStatus, StepKind, StepStatus, PublicationStatus,
  Result, ok, err, conflict, publication_is_published, publication_is_failed, publication_is_active,
  publication_is_reconciling, publication_is_queued, publication_needs_resolution,
}
use visoraft.Publishing.Summary.{counts_of, summarize}
use visoraft.Publishing.Worker.{
  ClaimedPublication, PublishResult, AdapterError, set_publication_stage,
}
use visoraft.Publishing.Results.{
  complete_publication, mark_publication_completion_uncertain, fail_publication,
}
use visoraft.Publishing.Claims.{claim_publications-takes_over, ended-once}
use visoraft.Publishing.Picks.{LoadedPublication, claim_publications}
use visoraft.Publishing.Totals.{summary-published}
use visoraft.Scenarios.Rows.{source_of, empty_db, task_in, publication_in, done}

abbrev claimed : String → ClaimedPublication
claimed mode = record {
  publication = publication_in "p" PublicationStatus.reconciliation_required "worker-1";
  max_attempts = 3;
  retry_delay = 30000;
  reconcile = true;
  claim_mode = mode;
}

abbrev result : PublishResult
result = record {
  remote_submission_id = "BV1";
  remote_url = "https://example.org/BV1";
  remote_status = "pubed";
}

abbrev rejected : AdapterError
rejected = record {
  code = "bilibili_reconcile_rejected";
  message = "busy";
  retryable = true;
  uncertain = false;
}

abbrev held : Db
held = record empty_db {
  tasks = task_in "a" TaskStatus.publishing ∷ [];
  platform_publications =
      publication_in "p" PublicationStatus.reconciliation_required "worker-1" ∷ [];
}

-- The first publisher's lock is stale, and another one claims the publication.
abbrev stale_db : Db
stale_db = record held {
  platform_publications = publication_in "p" PublicationStatus.uploading "worker-1" ∷ [];
  platform_accounts =
      record {
        id = "account";
        platform = "bilibili";
        auth_mode = "cookie";
        cookie_profile_id = some "profile";
        status = AccountStatus.ready;
        archived_at = none;
      }
      ∷ [];
  media_assets = source_of "a" ∷ [];
}

abbrev second_claim : (List LoadedPublication × Option Error) × Db
second_claim = claim_publications "worker-2" 4 (λ id. false) 1000000 stale_db

claim_publications-takes_over_example :
    (set_publication_stage "p" "worker-1" PublicationStatus.submitting "submit" 1000050
        second_claim.1
      ≡ err (conflict "publication_claim_lost"))
    × (complete_publication (claimed "publish") "worker-1" "t" result "1" 1000050 second_claim.1
        ≡ err (conflict "publication_claim_lost"))
    × (mark_publication_completion_uncertain
          (claimed "publish")
          "worker-1"
          "t"
          result
          "1"
          1000050
          second_claim.1
        ≡ err (conflict "publication_claim_lost"))
    × (fail_publication (claimed "publish") "worker-1" "t" rejected 1000050 second_claim.1
        ≡ err (conflict "publication_claim_lost"))
unfolding exists visoraft.Publishing.Picks.picked_publications claim_publications
    visoraft.Database.◌>>=◌ visoraft.Database.or_fail find visoraft.Prelude.update
claim_publications-takes_over_example =
    claim_publications-takes_over "worker-2" "worker-1" 4 (λ id. false) 1000000 second_claim.0.0
      stale_db second_claim.1 (claimed "publish") "t" PublicationStatus.submitting "submit" result
      "1" rejected 1000050 refl refl refl

abbrev completed : Db
completed = done (complete_publication (claimed "publish") "worker-1" "t" result "1" 50 held)

ended-once_example :
    (complete_publication (claimed "publish") "worker-1" "t" result "1" 60 completed
      ≡ err (conflict "publication_claim_lost"))
    × (mark_publication_completion_uncertain
          (claimed "publish")
          "worker-1"
          "t"
          result
          "1"
          60
          completed
        ≡ err (conflict "publication_claim_lost"))
    × (fail_publication (claimed "publish") "worker-1" "t" rejected 60 completed
        ≡ err (conflict "publication_claim_lost"))
unfolding complete_publication visoraft.Database.◌>>◌ visoraft.Database.require exists
ended-once_example =
    ended-once (claimed "publish") "worker-1" "t" result result "1" rejected rejected 50 60 held
      completed refl (inl refl)

-- One publication is published, the other has failed.
abbrev mixed : List Publication
mixed =
    publication_in "p" PublicationStatus.published ""
    ∷ publication_in "q" PublicationStatus.failed ""
    ∷ []

summary-published_example :
    ((summarize (counts_of "job" mixed)).task_status ≡ TaskStatus.published
      → (exists (λ p. str_eq p.publish_job_id "job") mixed ≡ true)
        × (exists
              (λ p. str_eq p.publish_job_id "job" && not (publication_is_published p.status))
              mixed
            ≡ false))
    × (exists (λ p. str_eq p.publish_job_id "job") mixed ≡ true
        → exists
            (λ p. str_eq p.publish_job_id "job" && not (publication_is_published p.status))
            mixed
          ≡ false
        → (summarize (counts_of "job" mixed)).task_status ≡ TaskStatus.published)
summary-published_example = summary-published "job" mixed
