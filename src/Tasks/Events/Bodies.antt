-- ===== src/Tasks/Events/Bodies.antt =====
-- From the effects of the single bodies to that of the body of any event.
use visoraft.Prelude.{ℕ, String}
use visoraft.Database.{Db, Ensures, committed, Ensures-after, Ensures-then}
use visoraft.Tasks.Envelope.{Envelope}
use visoraft.Tasks.Events.{WorkflowEvent, Body, event_body}
use visoraft.Tasks.Events.Media.{
  Keeps, assets_delete_failed-Effect, assets_deleted-Effect, download_cancelled-Effect,
  download_completed-Effect, download_failed-Effect, download_progress-Effect,
  download_started-Effect, media_inspect_completed-Effect, media_inspect_failed-Effect,
  media_inspect_started-Effect, metadata_completed-Effect, metadata_failed-Effect,
  metadata_started-Effect,
}
use visoraft.Tasks.Events.Stages.{
  subtitle_completed-Effect, subtitle_failed-Effect, subtitle_progress-Effect,
  subtitle_started-Effect, transcode_cancelled-Effect, transcode_completed-Effect,
  transcode_failed-Effect, transcode_progress-Effect, transcode_started-Effect,
}

-- A body that keeps to its task at any time and on any database.
pub record BodyKeeps (body : Body) : Type 0 where
  pub keeps : (id : String) (now : ℕ) (db : Db) → Keeps id db (body id now db)

pub event_body-Effect :
    (ids : ℕ → String) (env : Envelope) (event : WorkflowEvent)
    → Ensures BodyKeeps (event_body ids env event)
unfolding event_body
event_body-Effect ids env WorkflowEvent.metadata_started_v1 =
    committed (record { keeps = λ id now d. metadata_started-Effect ids env id now d })
event_body-Effect ids env (WorkflowEvent.metadata_completed_v1 metadata) =
    committed (record { keeps = λ id now d. metadata_completed-Effect ids env id now d metadata })
event_body-Effect ids env (WorkflowEvent.metadata_failed_v1 failure) =
    committed (record { keeps = λ id now d. metadata_failed-Effect ids env id now d failure })
event_body-Effect ids env WorkflowEvent.download_started_v1 =
    committed (record { keeps = λ id now d. download_started-Effect ids env id now d })
event_body-Effect ids env (WorkflowEvent.download_progress_v1 given) =
    Ensures-after _ _
      (λ p. committed (record { keeps = λ id now d. download_progress-Effect ids env id now d p }))
event_body-Effect ids env (WorkflowEvent.download_completed_v1 named r) =
    Ensures-then _ _
      (committed (record { keeps = λ id now d. download_completed-Effect ids env id now d r }))
event_body-Effect ids env (WorkflowEvent.download_failed_v1 failure) =
    committed (record { keeps = λ id now d. download_failed-Effect ids env id now d failure })
event_body-Effect ids env (WorkflowEvent.download_cancelled_v1 event) =
    committed (record { keeps = λ id now d. download_cancelled-Effect ids env id now d event })
event_body-Effect ids env (WorkflowEvent.media_inspect_started_v1 attempt) =
    committed (record { keeps = λ id now d. media_inspect_started-Effect ids env id now d attempt })
event_body-Effect ids env (WorkflowEvent.media_inspect_completed_v1 info) =
    Ensures-then _ _
      (committed (record { keeps = λ id now d. media_inspect_completed-Effect ids env id now d }))
event_body-Effect ids env (WorkflowEvent.media_inspect_failed_v1 failure) =
    committed (record { keeps = λ id now d. media_inspect_failed-Effect ids env id now d failure })
event_body-Effect ids env (WorkflowEvent.assets_deleted_v1 assets) =
    Ensures-then _ _
      (committed (record { keeps = λ id now d. assets_deleted-Effect ids env id now d assets }))
event_body-Effect ids env (WorkflowEvent.assets_delete_failed_v1 assets code message) =
    Ensures-then _ _ (
      committed (record {
        keeps = λ id now d. assets_delete_failed-Effect ids env id now d assets code message;
      }))
event_body-Effect ids env WorkflowEvent.subtitle_started_v1 =
    committed (record { keeps = λ id now d. subtitle_started-Effect ids env id now d })
event_body-Effect ids env (WorkflowEvent.subtitle_progress_v1 p) =
    Ensures-then _ _
      (committed (record { keeps = λ id now d. subtitle_progress-Effect ids env id now d p }))
event_body-Effect ids env (WorkflowEvent.subtitle_completed_v1 given) =
    Ensures-after _ _
      (λ r. committed (record { keeps = λ id now d. subtitle_completed-Effect ids env id now d r }))
event_body-Effect ids env (WorkflowEvent.subtitle_failed_v1 failure) =
    committed (record { keeps = λ id now d. subtitle_failed-Effect ids env id now d failure })
event_body-Effect ids env (WorkflowEvent.transcode_started_v1 e) =
    Ensures-then _ _
      (committed (record { keeps = λ id now d. transcode_started-Effect ids env id now d e }))
event_body-Effect ids env (WorkflowEvent.transcode_progress_v1 e) =
    Ensures-then _ _
      (committed (record { keeps = λ id now d. transcode_progress-Effect ids env id now d e }))
event_body-Effect ids env (WorkflowEvent.transcode_completed_v1 r) = Ensures-then _ _ (
    Ensures-then _ _
      (committed (record { keeps = λ id now d. transcode_completed-Effect ids env id now d r })))
event_body-Effect ids env (WorkflowEvent.transcode_failed_v1 e) =
    Ensures-then _ _
      (committed (record { keeps = λ id now d. transcode_failed-Effect ids env id now d e }))
event_body-Effect ids env (WorkflowEvent.transcode_cancelled_v1 e) =
    Ensures-then _ _
      (committed (record { keeps = λ id now d. transcode_cancelled-Effect ids env id now d e }))
