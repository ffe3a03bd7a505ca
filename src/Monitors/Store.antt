-- ===== src/Monitors/Store.antt =====
-- Monitors: SetEnabled and Delete of internal/monitors/postgres_store.go, and Pause, Resume and Delete of
-- internal/monitors/service.go.
use visoraft.Prelude.{
  ℕ, ◌+◌, ◌*◌, String, Bool, true, false, Option, none, some, ◌&&◌, ◌||◌, not, str_eq, is_some,
  exists, find, update, delete, lower_is, trim_space, if◌then◌else◌,
}
use visoraft.Database.{Result, ok, not_found, invalid, require, ◌>>◌}
use visoraft.Identity.{is_uuid}
use visoraft.Monitors.Rows.{Monitor, MonitorState, Run, Item, Seen, Ingestion, Watch}

-- make_interval(mins => schedule_interval_minutes)
abbrev pub after_interval : Monitor → ℕ → ℕ
after_interval m now = now + m.schedule_interval_minutes * 60000

abbrev pub is_scheduled : Monitor → Bool
is_scheduled m = str_eq m.schedule_type "automatic"

-- WHERE id=$1 AND archived_at IS NULL
abbrev pub is_monitor : String → Monitor → Bool
is_monitor id m = str_eq m.id id && not (is_some m.archived_at)

abbrev pub has_monitor_id : String → Monitor → Bool
has_monitor_id id m = str_eq m.id id

abbrev pub monitor_of : String → Watch → Option Monitor
monitor_of id w = find (is_monitor id) w.monitors

abbrev enable_monitor : Bool → ℕ → Monitor → Monitor
enable_monitor enabled now m = record m {
  enabled = enabled;
  state = if enabled then MonitorState.idle else MonitorState.paused;
  next_run_at = if enabled && is_scheduled m then some (after_interval m now) else none;
  last_error = "";
  version = m.version + 1;
  updated_at = now;
}

unfoldable pub set_enabled : String → Bool → ℕ → Watch → Result Watch
set_enabled id enabled now w = do
  require (exists (is_monitor id) w.monitors) not_found
  ok (record w { monitors = update (is_monitor id) (enable_monitor enabled now) w.monitors })

-- tasks.ErrInvalidID
unfoldable pub pause_monitor : String → ℕ → Watch → Result Watch
unfolding set_enabled
pause_monitor id now w = do
  require (is_uuid id) (invalid "task id is invalid")
  set_enabled id false now w

unfoldable pub resume_monitor : String → ℕ → Watch → Result Watch
unfolding set_enabled
resume_monitor id now w = do
  require (is_uuid id) (invalid "task id is invalid")
  set_enabled id true now w

abbrev archive_monitor : ℕ → Monitor → Monitor
archive_monitor now m = record m {
  enabled = false;
  state = MonitorState.paused;
  next_run_at = none;
  archived_at = some now;
  updated_at = now;
  version = m.version + 1;
}

-- DELETE, with ON DELETE CASCADE of the tables that refer to the monitor.
abbrev purge_monitor : String → Watch → Watch
purge_monitor id w = record w {
  monitors = delete (has_monitor_id id) w.monitors;
  runs = delete (λ (r : Run). str_eq r.monitor_id id) w.runs;
  items = delete (λ (i : Item). str_eq i.monitor_id id) w.items;
  seen = delete (λ (s : Seen). str_eq s.monitor_id id) w.seen;
  ingestions = delete (λ (i : Ingestion). str_eq i.monitor_id id) w.ingestions;
}

unfoldable pub remove_monitor : String → String → ℕ → Watch → Result Watch
remove_monitor id history_mode now w = do
  require (is_uuid id) (invalid "task id is invalid")
  let purges = lower_is "purge" (trim_space history_mode)
  require (purges || lower_is "archive" (trim_space history_mode))
      (invalid "monitor input is invalid")
  require
      (if purges then exists (has_monitor_id id) w.monitors else exists (is_monitor id) w.monitors)
      not_found
  ok (
      if purges
      then purge_monitor id w
      else record w { monitors = update (is_monitor id) (archive_monitor now) w.monitors })
