-- ===== src/Pipeline/Chinese.antt =====
-- A source that has Chinese subtitles of its own.
use visoraft.Prelude.{ℕ, String, ◌≡◌, refl, true, none, some, exists}
use visoraft.Database.{Db, Task, StepKind, Outcome, is_processing, is_step, task_of, or_fail, ◌>>=◌}
use visoraft.Pipeline.{
  Checkpoint, chosen_stage, existing_chinese, enqueue_stage, advance_body, advance,
}

-- A processing task whose subtitles were found to be Chinese already, whose settings ask for a
-- transcode and whose transcode step exists (its transcode came first, as it does when no subtitles
-- are burned in): the subtitles' checkpoint changes nothing and the review is not reached, whatever
-- the review does.
pub advance-stalls :
    (reviews : String → Db → Outcome) (ids : ℕ → String) (id : String) (now : ℕ) (db : Db)
    (t : Task)
    → task_of db id ≡ some t
    → is_processing t.status ≡ true
    → existing_chinese db id Checkpoint.subtitles_ready ≡ true
    → t.settings_snapshot.transcode_enabled ≡ true
    → exists (is_step t.id StepKind.transcode) db.task_steps ≡ true
    → advance reviews ids id Checkpoint.subtitles_ready now db ≡ (db, none)
unfolding advance advance_body chosen_stage enqueue_stage or_fail ◌>>=◌
advance-stalls reviews ids id now db t read live chinese transcode there =
    rw read (rw live (rw chinese (rw transcode (rw there refl))))
