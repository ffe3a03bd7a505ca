-- ===== src/Publishing/Policy.antt =====
-- internal/publishing/fixture_policy.go: an account for local use never stands in for a real platform.
-- `parse_url` is url.Parse of the standard library, and `none` where it fails.
use visoraft.Prelude.{
  String, Bool, true, false, Option, none, some, ◌&&◌, ◌||◌, not, str_eq, trim_space, fold_is,
  lower_contains, if◌then◌else◌,
}
use visoraft.Publishing.Worker.{PublishResult, AdapterError}

pub record SourceUrl : Type 0 where
  pub scheme : String
  pub hostname : String

abbrev is_fixture_url : Option SourceUrl → Bool
is_fixture_url none = false
is_fixture_url (some url) =
    (str_eq url.scheme "http" || str_eq url.scheme "https")
    && fold_is "fixture-provider" url.hostname

unfoldable pub is_fixture_source_url : (String → Option SourceUrl) → String → Bool
is_fixture_source_url parse_url raw = is_fixture_url (parse_url (trim_space raw))

unfoldable pub fixture_account_blocked : (String → Option SourceUrl) → String → String → Bool
unfolding is_fixture_source_url
fixture_account_blocked parse_url auth_mode source_url =
    fold_is "fixture" (trim_space auth_mode) && not (is_fixture_source_url parse_url source_url)

-- `marked` is the entry "fixture" of the response's summary, where it is true.
unfoldable pub is_fixture_result : Bool → PublishResult → Bool
is_fixture_result marked r =
    fold_is "published_fixture" r.remote_status
    || (lower_contains "fixture.invalid" r.remote_url || marked)

abbrev pub adapter_error : String → String → Bool → Bool → AdapterError
adapter_error code message retryable uncertain = record {
  code = code;
  message = message;
  retryable = retryable;
  uncertain = uncertain;
}

unfoldable pub validate_publish_result :
    (String → Option SourceUrl) → String → String → Bool → PublishResult → Option AdapterError
unfolding fixture_account_blocked is_fixture_result
validate_publish_result parse_url auth_mode source_url marked r =
    if fixture_account_blocked parse_url auth_mode source_url
    then some (
        adapter_error "fixture_account_real_source_forbidden" "本地验收账号不会连接真实平台；请改用已校验的 Cookie 认证账号"
          false false)
    else if not (str_eq auth_mode "fixture") && is_fixture_result marked r
    then some (
        adapter_error "fixture_result_from_real_account" "真实投稿账号返回了本地模拟结果，系统已拒绝将其标记为平台投稿成功" false
          false)
    else if str_eq auth_mode "fixture" && not (is_fixture_result marked r)
    then some
        (adapter_error "fixture_result_marker_missing" "本地验收结果缺少模拟标识，系统已拒绝将其记录为成功" false false)
    else if str_eq (trim_space r.remote_submission_id) ""
    then some (adapter_error "platform_submission_id_missing" "平台没有返回可核验的稿件编号，不能标记为投稿完成" true true)
    else if str_eq (trim_space r.remote_url) ""
    then some (adapter_error "platform_submission_url_missing" "平台没有返回可核验的稿件地址，不能标记为投稿完成" true true)
    else none
