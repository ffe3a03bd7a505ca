-- ===== src/Reviews/Published.antt =====
-- The evaluation of a review with the preparation of publications that Evaluate of
-- internal/reviews/service.go calls in its transaction.
use visoraft.Prelude.{
  ℕ, String, ◌≡◌, some, true, false, Option, exists, str_eq, Bool-cases, inl, inr, ◌⊎◌,
}
use visoraft.Database.{
  Db, Task, ok, Ensures, committed, Ensures-require, Ensures-or_fail, Ensures-ok, Ensures-self,
  task_of,
}
use visoraft.Reviews.Evaluate.{
  review_verdict, record_verdict, is_approved, Publications, evaluate_body, Verdict,
}
use visoraft.Reviews.Verdicts.{Approval, approval}
use visoraft.Publishing.Policy.{SourceUrl}
use visoraft.Publishing.Prepare.{Fingerprint, prepare_approved_task_tx}
use visoraft.Publishing.Gated.{is_queued_row, StartsByItself, prepare-gated}

abbrev pub prepared_publications :
    (String → Option SourceUrl) → Fingerprint → (ℕ → String) → Publications
prepared_publications parse_url fingerprint ids id now db =
    prepare_approved_task_tx parse_url fingerprint ids true id now db

-- An approval without an operator whose task then starts by itself.
pub record Automatic (parse_url : String → Option SourceUrl) (ids : ℕ → String) (id : String)
    (now : ℕ) (db : Db) : Type 0 where
  pub task : Task
  pub read : task_of db id ≡ some task
  pub approved : Approval id task db
  pub starts :
      StartsByItself parse_url true id
        (record_verdict ids id task (review_verdict id task db) now db)

verdict-unqueued :
    (ids : ℕ → String) (id key : String) (t : Task) (v : Verdict) (now : ℕ) (db : Db)
    → exists (is_queued_row key) db.platform_publications ≡ false
    → exists (is_queued_row key) (record_verdict ids id t v now db).platform_publications ≡ false
unfolding record_verdict visoraft.Reviews.Evaluate.insert_review_audit
    visoraft.Reviews.Evaluate.insert_action
verdict-unqueued ids id key t v now db clear = elim (Bool-cases (str_eq v.action "")) [
  | inl silent ↦ rw silent clear
  | inr loud ↦ rw loud clear
]

evaluate_body-Automatic :
    (parse_url : String → Option SourceUrl) (fingerprint : Fingerprint) (new_ids ids : ℕ → String)
    (id key : String) (now : ℕ) (db : Db)
    → exists (is_queued_row key) db.platform_publications ≡ false
    → Ensures
        (λ (after : Db).
          (exists (is_queued_row key) after.platform_publications ≡ false)
          ⊎ Automatic parse_url ids id now db)
        (evaluate_body (prepared_publications parse_url fingerprint new_ids) ids id now db)
unfolding evaluate_body
evaluate_body-Automatic parse_url fingerprint new_ids ids id key now db clear =
    Ensures-require _ _ _ (λ known. Ensures-or_fail _ _ _ (λ t read.
      Ensures-require _ _ _ (λ evaluable.
        let reviewed = record_verdict ids id t (review_verdict id t db) now db in
        let still = verdict-unqueued ids id key t (review_verdict id t db) now db clear in
        elim (Bool-cases (is_approved (review_verdict id t db).review_status)) [
          | inr held ↦ rw held (committed (inl still))
          | inl approved ↦ rw approved (
              Ensures-self
                (prepare_approved_task_tx parse_url fingerprint new_ids true id now reviewed)
                (λ after done.
                  elim (prepare-gated parse_url fingerprint new_ids true id key now reviewed after
                    still done) [
                      | inl quiet ↦ inl quiet.publications
                      | inr starts ↦ inr (record {
                        task = t;
                        read = read;
                        approved = approval id t db approved;
                        starts = starts;
                      })
                    ]))
        ])))

-- An evaluation that succeeds, with the preparation of publications in its transaction, queues a publication
-- only where it approves the task without an operator (in the automatic mode, with all rules and the
-- moderation passed), the task, the settings and the strategy ask for that, and nothing blocks it.
pub evaluate_body-queues :
    (parse_url : String → Option SourceUrl) (fingerprint : Fingerprint) (new_ids ids : ℕ → String)
    (id key : String) (now : ℕ) (db after : Db)
    → exists (is_queued_row key) db.platform_publications ≡ false
    → evaluate_body (prepared_publications parse_url fingerprint new_ids) ids id now db ≡ ok after
    → (exists (is_queued_row key) after.platform_publications ≡ false)
      ⊎ Automatic parse_url ids id now db
evaluate_body-queues parse_url fingerprint new_ids ids id key now db after clear done =
    Ensures-ok (evaluate_body-Automatic parse_url fingerprint new_ids ids id key now db clear) done
