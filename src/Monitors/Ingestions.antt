-- ===== src/Monitors/Ingestions.antt =====
-- What the monitors remember of videos, and the items of a run: RecordItem, ReserveIngestion, Seen, MarkSeen,
-- FinalizeIngestion, ReleaseIngestion, Ingestion and LinkItemTask of internal/monitors/postgres_store.go.
use visoraft.Prelude.{
  ℕ, String, Bool, true, false, Option, none, some, List, ◌∷◌, ◌&&◌, not, str_eq, is_some, exists,
  find, update, delete, if◌then◌else◌,
}
use visoraft.Database.{Result, ok, invalid, require, or_fail, ◌>>◌, ◌>>=◌}
use visoraft.Monitors.Rows.{
  Run, Item, Seen, Ingestion, IngestionState, Watch, Candidate, Decision, is_reserved,
  counts_as_accepted, is_duplicate, is_task_created,
}
use visoraft.Monitors.Runs.{is_run_row, count_items}

abbrev pub item_of :
    String → String → String → Candidate → Decision → String → Option String → ℕ → Item
item_of item_id run_id monitor_id c decision reason task_id now = record {
  id = item_id;
  run_id = run_id;
  monitor_id = monitor_id;
  external_video_id = c.external_video_id;
  episode_number = c.episode_number;
  series_scope_key = c.series_scope_key;
  series_scope_name = c.series_scope_name;
  source_url = c.source_url;
  title = c.title;
  decision = decision;
  decision_reason = reason;
  task_id = task_id;
  created_at = now;
}

abbrev pub record_item :
    String → String → String → Candidate → Decision → String → Option String → ℕ → Watch → Watch
record_item item_id run_id monitor_id c decision reason task_id now w = record w {
  items = item_of item_id run_id monitor_id c decision reason task_id now ∷ w.items;
}

abbrev pub is_ingestion : String → Ingestion → Bool
is_ingestion video i = str_eq i.external_video_id video

-- WHERE state='created' AND task_id IS NULL: the task has been deleted.
abbrev pub is_free : Ingestion → Bool
is_free i = not (is_reserved i.state) && not (is_some i.task_id)

abbrev pub reserved_by : String → String → ℕ → Ingestion
reserved_by video monitor_id now = record {
  external_video_id = video;
  task_id = none;
  monitor_id = monitor_id;
  state = IngestionState.reserved;
  first_seen_at = now;
}

abbrev pub reserve_row : String → ℕ → Ingestion → Ingestion
reserve_row monitor_id now i = record i {
  monitor_id = monitor_id;
  state = IngestionState.reserved;
  first_seen_at = now;
}

-- ON CONFLICT (external_video_id) DO UPDATE … WHERE; whether a row was written.
unfoldable pub reserve_ingestion : String → String → ℕ → Watch → Bool × Watch
reserve_ingestion video monitor_id now w =
    if exists (is_ingestion video) w.ingestions
    then if exists (λ i. is_ingestion video i && is_free i) w.ingestions
      then (
        true,
        record w {
          ingestions =
              update (λ i. is_ingestion video i && is_free i) (reserve_row monitor_id now)
                w.ingestions;
        },
      )
      else (false, w)
    else (true, record w { ingestions = reserved_by video monitor_id now ∷ w.ingestions })

abbrev pub is_seen_by : String → String → Seen → Bool
is_seen_by monitor_id video s = str_eq s.monitor_id monitor_id && str_eq s.external_video_id video

abbrev pub has_seen : String → String → Watch → Bool
has_seen monitor_id video w = exists (is_seen_by monitor_id video) w.seen

-- ON CONFLICT (monitor_id, external_video_id) DO NOTHING
abbrev pub mark_seen : String → String → String → ℕ → Watch → Watch
mark_seen monitor_id video run_id now w = record w {
  seen =
      if has_seen monitor_id video w
      then w.seen
      else record {
        monitor_id = monitor_id;
        external_video_id = video;
        first_run_id = run_id;
        first_seen_at = now;
      }
        ∷ w.seen;
}

abbrev pub is_reservation : String → Ingestion → Bool
is_reservation video i = is_ingestion video i && is_reserved i.state

abbrev pub created_row : String → Ingestion → Ingestion
created_row task_id i = record i { task_id = some task_id; state = IngestionState.created }

unfoldable pub finalize_ingestion : String → String → String → String → ℕ → Watch → Result Watch
finalize_ingestion video task_id monitor_id run_id now w = do
  require (exists (is_reservation video) w.ingestions)
      (invalid "monitor ingestion reservation was lost")
  ok (
      mark_seen monitor_id video run_id now (record w {
        ingestions = update (is_reservation video) (created_row task_id) w.ingestions;
      }))

abbrev pub release_ingestion : String → Watch → Watch
release_ingestion video w = record w { ingestions = delete (is_reservation video) w.ingestions }

abbrev link_row : Decision → String → Option String → Item → Item
link_row decision reason task_id i = record i {
  decision = decision;
  decision_reason = reason;
  task_id = task_id;
}

abbrev has_item_id : String → Item → Bool
has_item_id id i = str_eq i.id id

abbrev recount : List Item → Run → Run
recount items r = record r {
  accepted_count = count_items r.id counts_as_accepted items;
  duplicate_count = count_items r.id is_duplicate items;
  task_count = count_items r.id is_task_created items;
}

unfoldable pub link_item_task : String → Decision → String → Option String → Watch → Result Watch
link_item_task item_id decision reason task_id w = do
  item ← or_fail (find (has_item_id item_id) w.items) (invalid "monitor item was not found")
  let items = update (has_item_id item_id) (link_row decision reason task_id) w.items
  ok (record w { items = items; runs = update (is_run_row item.run_id) (recount items) w.runs })
