-- ===== src/Monitors/Requests.antt =====
-- What an operator asks of a monitor: RunNow and EnqueueItems of internal/monitors/service.go.
use visoraft.Prelude.{
  ℕ, String, Bool, true, false, Option, none, some, List, [], ◌∷◌, ◌&&◌, not, str_eq, is_some, find,
  if◌then◌else◌,
}
use visoraft.Database.{
  Db, Result, ok, err, Error, not_found, conflict, invalid, require, or_fail, ◌>>◌, ◌>>=◌,
}
use visoraft.Identity.{is_uuid}
use visoraft.Monitors.Rows.{Monitor, Item, Ingestion, Watch, Decision, TaskInput}
use visoraft.Monitors.Store.{monitor_of}
use visoraft.Monitors.Runs.{create_run}
use visoraft.Monitors.Ingestions.{
  is_ingestion, reserve_ingestion, finalize_ingestion, release_ingestion, link_item_task,
}

-- The settings that a run needs: the provider of the data, and whether its key is there.
pub record VideoProvider : Type 0 where
  pub name : String
  pub has_key : Bool

unfoldable pub ensure_runnable : VideoProvider → Result (Unit {0})
ensure_runnable p =
    if str_eq p.name "fixture"
    then ok tt
    else if not (str_eq p.name "google")
    then err (conflict "youtube_provider_invalid")
    else require p.has_key (conflict "youtube_api_key_missing")

unfoldable pub run_now : VideoProvider → String → String → ℕ → Watch → Result Watch
unfolding ensure_runnable create_run
run_now provider run_id id now w = do
  require (is_uuid id) (invalid "task id is invalid")
  m ← or_fail (monitor_of id w) not_found
  ensure_runnable provider
  create_run run_id m.id "manual" now w

-- The status of an entry of the answer.
pub data ItemStatus : Type 0 where
  item_created item_duplicate item_failed : ItemStatus

pub record ItemResult : Type 0 where
  pub item_id : String
  pub status : ItemStatus
  pub task_id : Option String

abbrev pub item_result : Item → ItemStatus → Option String → ItemResult
item_result i status task_id = record { item_id = i.id; status = status; task_id = task_id }

abbrev pub decision_can_enqueue : Decision → Bool
decision_can_enqueue Decision.filtered = false
decision_can_enqueue _ = true

unfoldable pub item_can_enqueue : Item → Bool
item_can_enqueue i = not (is_some i.task_id) && decision_can_enqueue i.decision

abbrev pub item_input : Monitor → Item → TaskInput
item_input m i = record {
  source_url = i.source_url;
  template = m.task_template;
  monitor_id = m.id;
  monitor_name = m.name;
  series_title = m.series_title;
  series_scope_key = i.series_scope_key;
  series_scope_name = i.series_scope_name;
  episode_number = i.episode_number;
}

abbrev pub Create : Type 0
Create = TaskInput → Db → Result (String × Db)

-- An UPDATE whose error is dropped.
abbrev pub attempted : Watch → Result Watch → Watch
attempted before (ok after) = after
attempted before (err e) = before

abbrev linked : Item → String → Watch → Result Watch → ItemResult × Watch
linked i task_id before (ok after) = (item_result i ItemStatus.item_created (some task_id), after)
linked i task_id before (err e) = (item_result i ItemStatus.item_failed (some task_id), before)

abbrev finalized : Item → String → Watch → Result Watch → ItemResult × Watch
finalized i task_id before (ok after) =
    linked i task_id after
      (link_item_task i.id Decision.task_created "手动加入统一任务流水线" (some task_id) after)
finalized i task_id before (err e) = (item_result i ItemStatus.item_failed (some task_id), before)

abbrev pub create_error_text : Error → String
create_error_text not_found = "not found"
create_error_text (conflict code) = code
create_error_text (invalid text) = text

unfoldable pub create_for_item : Create → Monitor → Item → ℕ → Watch → ItemResult × Watch
unfolding finalize_ingestion link_item_task
create_for_item create m i now w = elim (create (item_input m i) w.db) [
  | err e ↦ (
    item_result i ItemStatus.item_failed none,
    attempted (release_ingestion i.external_video_id w) (
        link_item_task i.id Decision.task_failed (create_error_text e) none
          (release_ingestion i.external_video_id w)),
  )
  | ok (task_id, db) ↦
      finalized i task_id (record w { db = db })
        (finalize_ingestion i.external_video_id task_id m.id i.run_id now (record w { db = db }))
]

abbrev known_task : Option Ingestion → Option String
known_task none = none
known_task (some i) = i.task_id

-- The video is reserved or has a task already.
abbrev pub already_taken : Item → Option String → Watch → ItemResult × Watch
already_taken i none w = (item_result i ItemStatus.item_failed none, w)
already_taken i (some task_id) w = (
  item_result i ItemStatus.item_duplicate (some task_id),
  attempted w (link_item_task i.id Decision.duplicate "该视频已由其他监控创建任务" (some task_id) w),
)

abbrev pub after_reservation : Create → Monitor → Item → ℕ → Bool × Watch → ItemResult × Watch
after_reservation create m i now (true, w) = create_for_item create m i now w
after_reservation create m i now (false, w) =
    already_taken i (known_task (find (is_ingestion i.external_video_id) w.ingestions)) w

-- enqueueItem
unfoldable pub enqueue_item : Create → Monitor → Item → ℕ → Watch → ItemResult × Watch
unfolding item_can_enqueue reserve_ingestion create_for_item
enqueue_item create m i now w =
    if is_some i.task_id
    then (item_result i ItemStatus.item_duplicate i.task_id, w)
    else if not (item_can_enqueue i)
    then (item_result i ItemStatus.item_failed none, w)
    else after_reservation create m i now (reserve_ingestion i.external_video_id m.id now w)

abbrev is_item_of : String → String → Item → Bool
is_item_of monitor_id id i = str_eq i.id id && str_eq i.monitor_id monitor_id

abbrev enqueue_found : Create → Monitor → String → Option Item → ℕ → Watch → ItemResult × Watch
enqueue_found create m id none now w =
    (record { item_id = id; status = ItemStatus.item_failed; task_id = none }, w)
enqueue_found create m id (some i) now w = enqueue_item create m i now w

-- The loop of EnqueueItems; `items` are those that were loaded before it.
unfoldable pub enqueue_all :
    Create → Monitor → List Item → List String → ℕ → Watch → List ItemResult × Watch
unfolding enqueue_item
enqueue_all create m items [] now w = ([], w)
enqueue_all create m items (id ∷ ids) now w =
    let first = enqueue_found create m id (find (is_item_of m.id id) items) now w in
    let rest = enqueue_all create m items ids now first.1 in (first.0 ∷ rest.0, rest.1)
