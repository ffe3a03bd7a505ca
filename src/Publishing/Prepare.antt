-- ===== src/Publishing/Prepare.antt =====
-- PrepareApprovedTaskTx and PrepareApprovedTask of internal/publishing/job_store.go.
use visoraft.Prelude.{ℕ, String, Bool, Option, ◌&&◌}
use visoraft.Database.{
  Db, Task, Strategy, Result, ok, not_found, conflict, or_fail, require, ◌>>◌, ◌>>=◌, Outcome,
  commit, task_of, is_preparable,
}
use visoraft.Reviews.Act.{max_version}
use visoraft.Reviews.Evaluate.{is_approved}
use visoraft.Tasks.Envelope.{coalesce}
use visoraft.Publishing.Policy.{SourceUrl}
use visoraft.Publishing.Blockers.{
  strategy_preset, publish_cover, publish_media, load_strategy, blockers_of, starts_by_itself,
}
use visoraft.Publishing.Upserts.{Preparation, schedule_for, write_preparation}

-- The hash of the constant "publish-job" and the task's id, the version of its metadata, the strategy and
-- the medium.
abbrev pub Fingerprint : Type 0
Fingerprint = String → ℕ → String → String → String

-- The reads of the transaction, for a task whose strategy is loaded.
unfoldable pub preparation_of :
    (String → Option SourceUrl) → Fingerprint → Bool → Task → Option Strategy → ℕ → Db → Preparation
unfolding publish_cover publish_media blockers_of starts_by_itself
preparation_of parse_url fingerprint triggered t strategy now db =
    let cover = publish_cover t.id db in
    let media = publish_media (strategy_preset strategy) t.id db in
    let version = coalesce (max_version t.id db.task_metadata_versions) t.version in
    record {
      task = t;
      metadata_version = version;
      strategy = strategy;
      cover = cover;
      media = media;
      blockers = blockers_of parse_url strategy cover media t db;
      starts = starts_by_itself triggered t strategy;
      fingerprint =
          fingerprint t.id version (coalesce t.posting_strategy_id "") (coalesce media "");
      scheduled_at = schedule_for strategy now;
    }

unfoldable pub prepare_approved_task_tx :
    (String → Option SourceUrl) → Fingerprint → (ℕ → String) → Bool → String → ℕ → Db → Result Db
unfolding load_strategy max_version preparation_of write_preparation
prepare_approved_task_tx parse_url fingerprint ids triggered id now db = do
  t ← or_fail (task_of db id) not_found
  require (is_approved t.review_status && is_preparable t.status) (conflict "task_not_approved")
  strategy ← load_strategy t db
  ok (
      write_preparation ids (preparation_of parse_url fingerprint triggered t strategy now db) now
        db)

-- PrepareApprovedTask
unfoldable pub prepare_approved_task :
    (String → Option SourceUrl) → Fingerprint → (ℕ → String) → Bool → String → ℕ → Db → Outcome
unfolding prepare_approved_task_tx
prepare_approved_task parse_url fingerprint ids triggered id now db =
    commit db (prepare_approved_task_tx parse_url fingerprint ids triggered id now db)
