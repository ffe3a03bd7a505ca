-- ===== src/Reviews/Reprocess.antt =====
-- The stages that an action of internal/reviews/service.go runs again: subtitles (in `Act`), and the transcode
-- after a subtitle was edited (`enqueueReviewTranscodeTx`).
use visoraft.Prelude.{
  ℕ, ◌+◌, String, Bool, false, none, some, List, [], ◌∷◌, ◌&&◌, ◌||◌, not, str_eq, strip_prefix,
  exists, update, delete,
}
use visoraft.Database.{
  Db, Task, Step, MediaAsset, Command, Result, ok, invalid, or_fail, ◌>>=◌, StepKind, StepStatus,
  AssetStatus, is_step, is_available, kind_eq, step_of,
}
use visoraft.Tasks.Envelope.{enqueue_command}
use visoraft.Tasks.Subtitle.{subtitle_requested_v1}
use visoraft.Tasks.Transcode.{transcode_requested_v1}
use visoraft.Tasks.TranscodeStop.{source_asset, insert_run, run_command}

-- SET status='queued', attempt, progress=0, detail='{}', error_code='', error_message='',
-- started_at=NULL, finished_at=NULL, updated_at
abbrev pub queue_again : ℕ → ℕ → Step → Step
queue_again attempt now s = record s {
  status = StepStatus.queued;
  attempt = attempt;
  progress = 0;
  detail = record { phase = ""; decision = none };
  error_code = "";
  error_message = "";
  started_at = none;
  finished_at = none;
  updated_at = now;
}

-- WHERE task_id=$1 AND kind=ANY($2)
abbrev pub is_one_of : String → List StepKind → Step → Bool
is_one_of id kinds s = str_eq s.task_id id && exists (kind_eq s.kind) kinds

-- SET status='deleted', deleted_at
abbrev pub hide_asset : ℕ → MediaAsset → MediaAsset
hide_asset now m = record m { status = AssetStatus.deleted; deleted_at = some now }

-- kind LIKE 'subtitle_%', where the underscore stands for any one character.
abbrev like_subtitle : String → Bool
like_subtitle kind = elim (strip_prefix "subtitle" kind) [
  | none ↦ false
  | some rest ↦ not (str_eq rest "")
]

abbrev pub stages_after_subtitles : List StepKind
stages_after_subtitles =
    StepKind.transcode ∷ StepKind.moderation ∷ StepKind.review ∷ StepKind.publish ∷ []

abbrev pub stages_after_transcode : List StepKind
stages_after_transcode = StepKind.moderation ∷ StepKind.review ∷ StepKind.publish ∷ []

abbrev pub subtitle_command : String → Task → ℕ → Command
subtitle_command id t attempt = record {
  task_id = id;
  attempt = attempt;
  source_url = some t.source_url;
  cookie_profile_id = t.cookie_profile_id;
  run_id = none;
}

-- The block `if action == "reprocess_subtitles"`.
unfoldable pub requeue_subtitles : (ℕ → String) → String → Task → ℕ → Db → Result Db
requeue_subtitles ids id t now db = do
  s ← or_fail (step_of db id StepKind.subtitles) (invalid "load subtitle attempt for reprocessing")
  ok (
      enqueue_command (ids 3) id subtitle_requested_v1 (subtitle_command id t (s.attempt + 1)) now
        (record db {
          task_steps = delete (is_one_of id stages_after_subtitles) (
              update (is_step id StepKind.subtitles) (queue_again (s.attempt + 1) now)
                db.task_steps);
          media_assets =
              update
                (λ m.
                  str_eq m.task_id id
                  && (is_available m.status
                      && (str_eq m.kind "transcoded" || like_subtitle m.kind)))
                (hide_asset now) db.media_assets;
        }))

unfoldable pub enqueue_review_transcode : (ℕ → String) → String → Task → ℕ → Db → Result Db
enqueue_review_transcode ids id t now db = do
  s ← or_fail (step_of db id StepKind.transcode) (invalid "load transcode step for review resubmit")
  source ← or_fail (source_asset id db.media_assets) (invalid "load review transcode source asset")
  let next = s.attempt + 1
  let inserted = insert_run (ids 2) t next source.id now db
  ok (
      enqueue_command (ids 3) id transcode_requested_v1 (run_command t next (ids 2)) now
        (record inserted {
          task_steps =
              delete (is_one_of id stages_after_transcode)
                (update (is_step id StepKind.transcode) (queue_again next now) db.task_steps);
          media_assets =
              update
                (λ m. str_eq m.task_id id && (str_eq m.kind "transcoded" && is_available m.status))
                (hide_asset now) db.media_assets;
        }))
