-- ===== src/Publishing/Process.antt =====
-- processOne, completeOrReconcile, cookieJar and classifyAdapterError of internal/publishing/worker.go. The
-- platforms, the cookies, the file system and the object storage are what a `Publisher` brings along.
use Prim.Native.String.{◌++◌ as str_append}
use visoraft.Prelude.{
  ℕ, String, Bool, true, false, Option, none, some, not, str_eq, find, if◌then◌else◌,
}
use visoraft.Database.{
  Db, MediaAsset, Error, invalid, Result, ok, err, Outcome, commit, PublicationStatus,
}
use visoraft.Publishing.Policy.{
  SourceUrl, adapter_error, fixture_account_blocked, validate_publish_result,
}
use visoraft.Publishing.Worker.{
  ClaimedPublication, PublishResult, AdapterError, set_publication_stage, begin_publication_attempt,
  is_attempt,
}
use visoraft.Publishing.Results.{
  complete_publication, mark_publication_completion_uncertain, fail_publication, truncate_message,
}
use visoraft.Publishing.Picks.{LoadedPublication}

-- What an adapter returns: a result, with the entry "fixture" of its summary, or an error, which is its own, a
-- timeout or a cancellation of the context, or any other.
pub data Answer : Type 0 where
  answered : PublishResult → Bool → Answer
  adapter_failed : AdapterError → Answer
  timed_out : Answer
  failed_otherwise : String → Answer

-- An upload calls OnStage with a stage, and goes on as it is told whether that succeeded, until it
-- returns.
pub data Upload : Type 0 where
  reports : String → (Bool → Upload) → Upload
  returns : Answer → Upload

pub data Reconciliation : Type 0 where
  settled : Answer → Reconciliation
  unconfirmed : Reconciliation

pub record Platform : Type 0 where
  pub version : String
  pub publish : LoadedPublication → Upload
  pub reconcile : LoadedPublication → Reconciliation

-- A worker: `has_cookies` is whether CookieJar succeeds for a profile, `materializes` whether an asset can be
-- read from the object storage and verified.
pub record Publisher : Type 0 where
  pub owner : String
  pub parse_url : String → Option SourceUrl
  pub platforms : String → Option Platform
  pub has_cookies : String → Bool
  pub makes_directory : Bool
  pub restricts_directory : Bool
  pub materializes : MediaAsset → Bool

abbrev has_profile : Publisher → Option String → Bool
has_profile w none = false
has_profile w (some id) = w.has_cookies id

unfoldable pub has_cookie_jar : Publisher → LoadedPublication → Bool
has_cookie_jar w item =
    if str_eq item.account.auth_mode "fixture"
    then true
    else has_profile w item.account.cookie_profile_id

abbrev pub record_failure : Publisher → LoadedPublication → String → ℕ → AdapterError → Db → Outcome
record_failure w item attempt_id now e db =
    commit db (fail_publication item.claim w.owner attempt_id e now db)

-- OnStage
abbrev pub report_stage : Publisher → LoadedPublication → String → ℕ → Db → Result Db
report_stage w item stage now db =
    set_publication_stage item.claim.publication.id w.owner
      (if str_eq stage "submitting"
        then PublicationStatus.submitting
        else PublicationStatus.uploading)
      stage now db

abbrev pub is_ok : Result Db → Bool
is_ok (ok db) = true
is_ok (err e) = false

unfoldable pub run_upload : Publisher → LoadedPublication → ℕ → Upload → Db → Db × Answer
run_upload w item now (returns answer) db = (db, answer)
run_upload w item now (reports stage next) db =
    run_upload w item now (next (is_ok (report_stage w item stage now db)))
      (commit db (report_stage w item stage now db)).0

abbrev pub or_mark_uncertain : Result Db → Outcome → Outcome
or_mark_uncertain (ok after) recovery = (after, none)
or_mark_uncertain (err e) recovery = recovery

abbrev unless_refused : Option AdapterError → (AdapterError → Outcome) → Outcome → Outcome
unless_refused none refuse next = next
unless_refused (some failure) refuse next = refuse failure

-- The remote result is kept for a reconciliation where it could not be recorded; the error is returned.
abbrev pub recovered : Error → Db → Result Db → Outcome
recovered e before (ok after) = (after, some e)
recovered e before (err f) = (before, some e)

unfoldable pub complete_or_reconcile :
    Publisher → LoadedPublication → String → String → ℕ → PublishResult → Bool → Db → Outcome
complete_or_reconcile w item version attempt_id now r marked db =
    unless_refused
      (validate_publish_result w.parse_url item.account.auth_mode item.source_url marked r)
      (λ failure. record_failure w item attempt_id now failure db)
      (or_mark_uncertain (complete_publication item.claim w.owner attempt_id r version now db) (
        recovered (invalid "persist platform completion") db
          (mark_publication_completion_uncertain item.claim w.owner attempt_id r version now db)))

-- classifyAdapterError
unfoldable pub classify_adapter_error : Answer → Option AdapterError
classify_adapter_error (answered r marked) = none
classify_adapter_error (adapter_failed e) = some e
classify_adapter_error timed_out =
    some (adapter_error "platform_request_timeout" "平台请求超时或服务正在关闭" true true)
classify_adapter_error (failed_otherwise message) =
    some (adapter_error "platform_publish_failed" (truncate_message message) true false)

-- What follows an answer of the platform.
unfoldable pub conclude :
    Publisher → LoadedPublication → Platform → String → ℕ → Answer → Db → Outcome
unfolding complete_or_reconcile classify_adapter_error
conclude w item platform attempt_id now (answered r marked) db =
    complete_or_reconcile w item platform.version attempt_id now r marked db
conclude w item platform attempt_id now answer db = elim (classify_adapter_error answer) [
  | none ↦ (db, none)
  | some e ↦ record_failure w item attempt_id now e db
]

unfoldable pub reconcile_one :
    Publisher → LoadedPublication → Platform → String → ℕ → Reconciliation → Db → Outcome
unfolding conclude
reconcile_one w item platform attempt_id now (settled answer) db =
    conclude w item platform attempt_id now answer db
reconcile_one w item platform attempt_id now unconfirmed db =
    record_failure w item attempt_id now
      (adapter_error "remote_submission_not_confirmed" "平台暂未返回可确认的投稿结果，将继续对账" true true) db

abbrev pub materializes_cover : Publisher → Option MediaAsset → Bool
materializes_cover w none = true
materializes_cover w (some cover) = w.materializes cover

abbrev pub upload_from :
    Publisher → LoadedPublication → Platform → String → ℕ → Db → Result Db → Outcome
upload_from w item platform attempt_id now before (err e) = (before, some e)
upload_from w item platform attempt_id now before (ok uploading) =
    let uploaded = run_upload w item now (platform.publish item) uploading in
    conclude w item platform attempt_id now uploaded.1 uploaded.0

unfoldable pub publish_one : Publisher → LoadedPublication → Platform → String → ℕ → Db → Outcome
unfolding run_upload conclude
publish_one w item platform attempt_id now db =
    if not w.makes_directory
    then record_failure w item attempt_id now
        (adapter_error "publish_temp_directory_failed" "无法创建投稿临时目录" true false) db
    else if not w.restricts_directory
    then record_failure w item attempt_id now
        (adapter_error "publish_temp_permissions_failed" "无法限制投稿临时目录权限" true false) db
    else if not (w.materializes item.media)
    then record_failure w item attempt_id now
        (adapter_error "publish_media_materialization_failed" "无法从对象存储读取并校验投稿媒体" true false) db
    else if not (materializes_cover w item.cover)
    then record_failure w item attempt_id now
        (adapter_error "publish_cover_materialization_failed" "无法从对象存储读取并校验投稿封面" true false) db
    else upload_from w item platform attempt_id now db (
        set_publication_stage item.claim.publication.id w.owner PublicationStatus.uploading "upload"
          now db)

-- RETURNING id: that of the row that was there, or the new one.
unfoldable pub attempt_id_of : String → ClaimedPublication → String → Db → String
attempt_id_of new_id c stage db =
    elim (find (is_attempt c.publication.id c.publication.attempt stage) db.publication_attempts) [
      | none ↦ new_id
      | some a ↦ a.id
    ]

unfoldable pub attempt_one : Publisher → LoadedPublication → Platform → String → ℕ → Db → Outcome
unfolding attempt_id_of reconcile_one publish_one
attempt_one w item platform new_id now db =
    let reconciles = str_eq item.claim.claim_mode "reconcile" in
    let stage = if reconciles then "reconcile" else "publish" in
    let attempt_id = attempt_id_of new_id item.claim stage db in
    let begun = begin_publication_attempt new_id item.claim stage now db in
    if fixture_account_blocked w.parse_url item.account.auth_mode item.source_url
    then record_failure w item attempt_id now
        (adapter_error "fixture_account_real_source_forbidden"
          "本地验收账号不会连接真实平台；请在投稿草稿中切换到已校验的 Cookie 认证账号" false false)
        begun
    else if reconciles
    then reconcile_one w item platform attempt_id now (platform.reconcile item) begun
    else publish_one w item platform attempt_id now begun

abbrev pub platform_key : LoadedPublication → String
platform_key item =
    str_append item.claim.publication.platform (str_append ":" item.account.auth_mode)

abbrev with_platform : Option Platform → Outcome → (Platform → Outcome) → Outcome
with_platform none missing next = missing
with_platform (some platform) missing next = next platform

unfoldable pub process_one : Publisher → LoadedPublication → String → ℕ → Db → Outcome
unfolding has_cookie_jar attempt_one
process_one w item new_id now db =
    with_platform (w.platforms (platform_key item))
      (record_failure w item "" now
        (adapter_error "platform_adapter_unavailable" "投稿服务没有装载匹配该账号认证方式的平台适配器" false false) db)
      (λ platform.
        if not (has_cookie_jar w item)
        then record_failure w item "" now
            (adapter_error "platform_cookie_unavailable" "投稿账号 Cookie 不可用，请同步或重新登录" false false) db
        else attempt_one w item platform new_id now db)
