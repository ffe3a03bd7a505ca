-- ===== src/Publishing/Blockers.antt =====
-- What PrepareApprovedTaskTx of internal/publishing/job_store.go reads: the strategy, the cover and the medium of a
-- publication, and what keeps it from being published.
use visoraft.Prelude.{
  ℕ, String, Bool, true, false, Option, none, some, List, [], ◌∷◌, ◌++◌, ◌&&◌, ◌||◌, not, str_eq,
  ltb, ◌==◌, is_some, exists, find, if◌then◌else◌,
}
use visoraft.Database.{
  Db, Task, Strategy, PostingStrategy, MediaAsset, TranscodeRun, ModerationRun, Account, Blocker,
  Result, ok, invalid, require, ◌>>◌, is_available, run_has_succeeded, account_is_ready,
}
use visoraft.Reviews.Rules.{is_passed}
use visoraft.Tasks.Envelope.{coalesce}
use visoraft.Publishing.Policy.{SourceUrl, fixture_account_blocked}
use visoraft.Publishing.Drafts.{is_account_of}

abbrev pub binding : String → List (String × String) → String
binding key [] = ""
binding key ((k, value) ∷ rest) = if str_eq k key then value else binding key rest

abbrev sooner {ℓ} : {A : Type ℓ} → (A → A → Bool) → A → Option A → A
sooner before x none = x
sooner before x (some y) = if before y x then y else x

-- The row that goes first, of those that a query selects.
unfoldable pub first_by {ℓ} : {A : Type ℓ} → (A → Bool) → (A → A → Bool) → List A → Option A
first_by p before [] = none
first_by p before (x ∷ xs) =
    let rest = first_by p before xs in if p x then some (sooner before x rest) else rest

abbrev kind_order : String → MediaAsset → ℕ
kind_order kind a = if str_eq a.kind kind then 0 else 1

-- ORDER BY CASE kind WHEN … THEN 0 ELSE 1 END, created_at DESC
abbrev goes_before : String → MediaAsset → MediaAsset → Bool
goes_before kind a b =
    ltb (kind_order kind a) (kind_order kind b)
    || (kind_order kind a == kind_order kind b && ltb b.created_at a.created_at)

abbrev first_asset_id : Option MediaAsset → Option String
first_asset_id none = none
first_asset_id (some a) = some a.id

-- An available asset of one of two kinds, the first kind first.
abbrev asset_of_kinds : String → String → String → Db → Option String
asset_of_kinds preferred other id db = first_asset_id (
    first_by
      (λ (a : MediaAsset).
        str_eq a.task_id id
        && ((str_eq a.kind preferred || str_eq a.kind other) && is_available a.status))
      (goes_before preferred) db.media_assets)

-- ORDER BY completed_at DESC NULLS LAST
abbrev ends_later : TranscodeRun → TranscodeRun → Bool
ends_later a b =
    if is_some b.completed_at
    then ltb (coalesce b.completed_at 0) (coalesce a.completed_at 0)
    else is_some a.completed_at

abbrev is_output_of : String → String → TranscodeRun → Bool
is_output_of id preset_id r =
    str_eq r.task_id id
    && (str_eq (coalesce r.preset_id "") preset_id
        && (is_some r.preset_id && (run_has_succeeded r.status && is_some r.output_asset_id)))

abbrev output_of : Option TranscodeRun → Option String
output_of none = none
output_of (some r) = r.output_asset_id

abbrev pub strategy_preset : Option Strategy → Option String
strategy_preset none = none
strategy_preset (some strategy) = strategy.transcode_preset_id

unfoldable pub publish_cover : String → Db → Option String
unfolding first_by
publish_cover id db = asset_of_kinds "cover_processed" "thumbnail" id db

unfoldable pub publish_media : Option String → String → Db → Option String
unfolding first_by
publish_media none id db = asset_of_kinds "transcoded" "source" id db
publish_media (some preset_id) id db =
    output_of (first_by (is_output_of id preset_id) ends_later db.transcode_runs)

abbrev active_strategy : Option String → List PostingStrategy → Option Strategy
active_strategy none strategies = none
active_strategy (some id) strategies =
    elim (find (λ (s : PostingStrategy). str_eq s.strategy.id id && not (is_some s.archived_at))
      strategies) [ none ↦ none | some s ↦ some s.strategy ]

abbrev refers_to : Option String → String → Bool
refers_to none id = false
refers_to (some own) id = str_eq own id

-- The strategy of the snapshot, or else the row that the task refers to.
unfoldable pub load_strategy : Task → Db → Result (Option Strategy)
load_strategy t db = elim t.settings_snapshot.posting_strategy [
  | some strategy ↦
      require (refers_to t.posting_strategy_id strategy.id)
        (invalid "task posting strategy snapshot does not match task")
      >> ok (some strategy)
  | none ↦ ok (active_strategy t.posting_strategy_id db.posting_strategies)
]

abbrev pub passes_moderation : Option Strategy → String → Db → Bool
passes_moderation none id db = true
passes_moderation (some strategy) id db =
    not strategy.require_content_moderation
    || exists
        (λ (r : ModerationRun).
          str_eq r.task_id id && (is_passed r.status && str_eq r.decision "pass"))
        db.moderation_runs

abbrev pub blocks : Bool → String → String → String → List Blocker
blocks test code platform message =
    if test then record { code = code; platform = platform; message = message } ∷ [] else []

abbrev pub contains_text : String → List String → Bool
contains_text text texts = exists (str_eq text) texts

abbrev ready_account : Option Account → Option Account
ready_account none = none
ready_account (some a) = if account_is_ready a.status then some a else none

abbrev account_blockers :
    (String → Option SourceUrl) → Task → String → Option Account → List Blocker
account_blockers parse_url t platform none =
    blocks true "platform_account_not_ready" platform "投稿账号未通过校验或 Cookie 已失效"
account_blockers parse_url t platform (some a) =
    blocks (fixture_account_blocked parse_url a.auth_mode t.source_url)
      "fixture_account_real_source_forbidden" platform "当前绑定的是本地测试账号，不会向平台投稿；真实来源必须使用 Cookie 认证账号"

-- The body of the loop over the task's platforms.
unfoldable pub platform_blockers :
    (String → Option SourceUrl) → Strategy → Task → Db → String → List Blocker
platform_blockers parse_url strategy t db platform =
    let account_id = binding platform strategy.account_bindings in
    if not (contains_text platform strategy.target_platforms)
    then blocks true "platform_not_in_strategy" platform "任务平台未包含在投稿策略中"
    else (if str_eq account_id ""
        then blocks true "platform_account_missing" platform "尚未选择该平台的投稿账号"
        else account_blockers parse_url t platform
            (ready_account (find (is_account_of account_id platform) db.platform_accounts)))
      ++ blocks (str_eq (binding platform strategy.category_bindings) "")
          "platform_category_missing" platform "尚未选择该平台的视频分区"

unfoldable pub each_platform : (String → List Blocker) → List String → List Blocker
each_platform f [] = []
each_platform f (platform ∷ platforms) = f platform ++ each_platform f platforms

abbrev pub strategy_blockers : Option Strategy → List Blocker
strategy_blockers none = blocks true "posting_strategy_missing" "" "尚未选择有效的投稿策略"
strategy_blockers (some strategy) =
    blocks (not strategy.enabled) "posting_strategy_disabled" "" "当前投稿策略已停用"

abbrev pub all_platform_blockers :
    (String → Option SourceUrl) → Option Strategy → Task → Db → List Blocker
all_platform_blockers parse_url none t db = []
all_platform_blockers parse_url (some strategy) t db =
    each_platform (platform_blockers parse_url strategy t db) t.target_platforms

abbrev pub media_blockers : Option String → Option String → List Blocker
media_blockers (some preset_id) media =
    blocks (not (is_some media)) "transcode_not_ready" "" "投稿策略要求转码，但尚无成功的转码产物"
media_blockers none media = blocks (not (is_some media)) "media_asset_missing" "" "尚无可投稿的媒体文件"

unfoldable pub blockers_of :
    (String → Option SourceUrl)
    → Option Strategy
    → Option String
    → Option String
    → Task
    → Db
    → List Blocker
unfolding each_platform platform_blockers
blockers_of parse_url strategy cover media t db =
    strategy_blockers strategy
    ++ (media_blockers (strategy_preset strategy) media
        ++ (blocks (not (is_some cover) && contains_text "bilibili" t.target_platforms)
              "bilibili_cover_missing" "bilibili" "Bilibili 投稿需要封面，请先获取或上传封面"
            ++ (blocks (not (passes_moderation strategy t.id db)) "content_moderation_not_passed" ""
                  "投稿策略要求内容审核，但尚无通过结果"
                ++ all_platform_blockers parse_url strategy t db)))

abbrev pub starts_after_review : Option Strategy → Bool
starts_after_review none = false
starts_after_review (some strategy) = str_eq strategy.automation_mode "automatic_after_review"

unfoldable pub starts_by_itself : Bool → Task → Option Strategy → Bool
starts_by_itself triggered t strategy =
    triggered
    && (t.auto_publish
        && (t.settings_snapshot.auto_publish_after_review && starts_after_review strategy))
