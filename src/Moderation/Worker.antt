-- ===== src/Moderation/Worker.antt =====
-- internal/moderation/worker.go: what the worker sends for one command. The task's settings, the object
-- storage's `presign`, the standard library's `parse_url` and the cloud provider are arguments.
use Prim.Native.String.{◌++◌ as str_append}
use visoraft.Prelude.{
  ℕ, ◌+◌, ltb, String, Bool, true, false, Option, none, some, List, [], ◌∷◌, ◌||◌, not, str_eq,
  trim_space, take_runes, if◌then◌else◌,
}
use visoraft.Database.{Error, invalid, Result, ok, err, require, or_fail, ◌>>◌, ◌>>=◌}
use visoraft.Moderation.Model.{
  ModerationConfig, ModerationResult, ChannelResult, Failure, skipped, failure_decision,
}
use visoraft.Moderation.Fixture.{Request, fixture_moderate}
use visoraft.Moderation.Store.{ModerationEvent}
use visoraft.Pipeline.{moderation_requested_v1}

pub record RunCommand : Type 0 where
  pub task_id : String
  pub run_id : String
  pub attempt : ℕ

pub record StoredAsset : Type 0 where
  pub bucket : String
  pub object_key : String

-- The part of settings.ProcessingConfig that the worker reads.
pub record ProcessingConfig : Type 0 where
  pub moderation : ModerationConfig
  pub title : String
  pub description : String
  pub tags : List String
  pub repost_statement : String
  pub cover_asset : Option StoredAsset
  pub thumbnail_url : String
  pub final_media_asset : Option StoredAsset

-- ProviderError, with its partial result where it has one.
pub record ProviderError : Type 0 where
  pub code : String
  pub message : String
  pub retryable : Bool
  pub partial_provider : String
  pub partial_text : ChannelResult
  pub partial_image : ChannelResult
  pub partial_video : ChannelResult

pub data Moderated : Type 0 where
  moderated : ModerationResult → Moderated
  provider_failed : ProviderError → Moderated
  failed_otherwise : Moderated

abbrev pub Provider : Type 0
Provider = Request → Moderated

-- A URL that url.Parse has read; `text` is String() without the fragment.
pub record ParsedUrl : Type 0 where
  pub scheme : String
  pub host : String
  pub text : String

abbrev no_channel : ChannelResult
no_channel = record { status = ""; service = ""; risk_level = ""; request_ids = []; findings = [] }

-- &ProviderError{Code, Message, Retryable}
abbrev pub provider_error : String → String → Bool → ProviderError
provider_error code message retryable = record {
  code = code;
  message = message;
  retryable = retryable;
  partial_provider = "";
  partial_text = no_channel;
  partial_image = no_channel;
  partial_video = no_channel;
}

-- strings.Join(words, " ")
unfoldable pub join_words : List String → String
join_words [] = ""
join_words (word ∷ []) = word
join_words (word ∷ next ∷ words) = str_append word (str_append " " (join_words (next ∷ words)))

-- Seconds: at least an hour and at most a day.
unfoldable pub valid_for : ModerationConfig → ℕ
valid_for config =
    let wanted = config.video_maximum_wait_seconds + config.request_timeout_seconds + 1800 in
    if ltb wanted 3600 then 3600 else if ltb 86400 wanted then 86400 else wanted

unfoldable pub public_http_url : (String → Option ParsedUrl) → String → Result String
public_http_url parse_url value = do
  require (not (str_eq (trim_space value) ""))
      (invalid "image moderation is enabled but no cover or thumbnail is available")
  parsed ←
      or_fail (parse_url (trim_space value))
        (invalid "image moderation requires an HTTP or HTTPS cover URL")
  require
      (not (
        str_eq parsed.host "" || not (str_eq parsed.scheme "https" || str_eq parsed.scheme "http")))
      (invalid "image moderation requires an HTTP or HTTPS cover URL")
  ok parsed.text

-- What a worker is configured with.
pub record Services : Type 0 where
  pub processing_config : String → Result ProcessingConfig
  pub presign : String → String → ℕ → Result String
  pub parse_url : String → Option ParsedUrl
  pub aliyun : ModerationConfig → Option Provider
  -- Whether the broker takes an event.
  pub sends : ModerationEvent → Bool

abbrev presign_asset : Services → ModerationConfig → StoredAsset → Result String
presign_asset services config asset =
    services.presign asset.bucket asset.object_key (valid_for config)

unfoldable pub image_url : Services → ProcessingConfig → Result String
unfolding valid_for public_http_url
image_url services processing =
    if processing.moderation.check_image
    then elim processing.cover_asset [
      | none ↦ public_http_url services.parse_url processing.thumbnail_url
      | some asset ↦ presign_asset services processing.moderation asset
    ]
    else ok ""

unfoldable pub video_url : Services → ProcessingConfig → Result String
unfolding valid_for
video_url services processing =
    if processing.moderation.check_video
    then elim processing.final_media_asset [
      | none ↦ err (invalid "video moderation is enabled but the final media asset is unavailable")
      | some asset ↦ presign_asset services processing.moderation asset
    ]
    else ok ""

unfoldable pub build_request : Services → String → ProcessingConfig → Result Request
unfolding image_url video_url join_words
build_request services task_id processing =
    let request : Request = record {
      task_id = task_id;
      config = processing.moderation;
      texts =
          record { id = "title"; content = processing.title }
          ∷ record { id = "description"; content = processing.description }
          ∷ record { id = "tags"; content = join_words processing.tags }
          ∷ record { id = "repost_statement"; content = processing.repost_statement }
          ∷ [];
      image_url = "";
      video_url = "";
    } in
    if str_eq processing.moderation.provider "fixture" then ok request else (do
      image ← image_url services processing
      video ← video_url services processing
      ok (record request { image_url = image; video_url = video }))

-- firstNonEmpty(a, b)
unfoldable pub first_non_empty : String → String → String
first_non_empty a b =
    if not (str_eq (trim_space a) "") then a else if not (str_eq (trim_space b) "") then b else ""

unfoldable pub truncate_message : String → String
truncate_message value =
    if str_eq (trim_space value) ""
    then "content moderation failed"
    else take_runes 1000 (trim_space value)

abbrev or_skipped : ChannelResult → String → ChannelResult
or_skipped channel service = if str_eq channel.status "" then skipped service else channel

unfoldable pub failure_of : RunCommand → ModerationConfig → ProviderError → Failure
unfolding truncate_message first_non_empty
failure_of command config e = record {
  task_id = command.task_id;
  run_id = command.run_id;
  attempt = command.attempt;
  provider = first_non_empty e.partial_provider config.provider;
  code = e.code;
  message = truncate_message e.message;
  retryable = e.retryable;
  decision = failure_decision config;
  text = or_skipped e.partial_text config.text_service;
  image = or_skipped e.partial_image config.image_service;
  video = or_skipped e.partial_video config.video_service;
}

-- The events that the broker has taken, and the error that the command ended with.
abbrev pub Sent : Type 0
Sent = List ModerationEvent × Option Error

abbrev send : Services → ModerationEvent → Sent
send services event =
    if services.sends event
    then (event ∷ [], none)
    else ([], some (invalid "publish moderation event"))

abbrev then_send : Sent → Sent → Sent
then_send (events, some e) next = (events, some e)
then_send ([], none) next = next
then_send (event ∷ events, none) next = (event ∷ next.0, next.1)

unfoldable pub publish_failure : Services → RunCommand → ModerationConfig → ProviderError → Sent
unfolding failure_of
publish_failure services command config e =
    send services (ModerationEvent.failed_v1 (failure_of command config e))

unfoldable pub default_provider_factory : Services → ModerationConfig → Option Provider
default_provider_factory services config =
    if str_eq config.provider "fixture"
    then some (λ request. moderated (fixture_moderate request))
    else if str_eq config.provider "aliyun"
    then services.aliyun config
    else none

-- The result with the command's run, and the configured provider where the result names none.
unfoldable pub completed_result :
    RunCommand → ModerationConfig → ModerationResult → ModerationResult
completed_result command config r = record r {
  task_id = command.task_id;
  run_id = command.run_id;
  attempt = command.attempt;
  provider = if str_eq r.provider "" then config.provider else r.provider;
}

unfoldable pub report : Services → RunCommand → ModerationConfig → Moderated → Sent
unfolding completed_result publish_failure
report services command config (moderated r) =
    send services (ModerationEvent.completed_v1 (completed_result command config r))
report services command config (provider_failed e) = publish_failure services command config e
report services command config failed_otherwise =
    publish_failure services command config
      (provider_error "moderation_provider_failed" "content moderation provider failed" true)

abbrev started_event : RunCommand → ModerationConfig → ModerationEvent
started_event command config = ModerationEvent.started_v1 (record {
  task_id = command.task_id;
  run_id = command.run_id;
  attempt = command.attempt;
  provider = config.provider;
})

abbrev error_message : Error → String
error_message (invalid text) = text
error_message _ = ""

abbrev moderate_request :
    Services → RunCommand → ModerationConfig → Provider → Result Request → Sent
moderate_request services command config provider (err e) =
    publish_failure services command config
      (provider_error "moderation_input_unavailable" (error_message e) false)
moderate_request services command config provider (ok request) =
    then_send (send services (started_event command config))
      (report services command config (provider request))

abbrev moderate_with : Services → RunCommand → ProcessingConfig → Option Provider → Sent
moderate_with services command processing none =
    publish_failure services command processing.moderation (
      provider_error "moderation_provider_unavailable"
        "content moderation provider could not be initialized" false)
moderate_with services command processing (some provider) =
    moderate_request services command processing.moderation provider
      (build_request services command.task_id processing)

unfoldable pub moderate : Services → RunCommand → ProcessingConfig → Sent
unfolding report build_request default_provider_factory
moderate services command processing =
    if not processing.moderation.enabled
    then publish_failure services command processing.moderation (
        provider_error "moderation_disabled"
          "content moderation was queued but is disabled in the task snapshot" false)
    else moderate_with services command processing
        (default_provider_factory services processing.moderation)

abbrev moderate_loaded : Services → RunCommand → Result ProcessingConfig → Sent
moderate_loaded services command (err e) = ([], some e)
moderate_loaded services command (ok processing) = moderate services command processing

-- The payload after its decoding, which is `none` where it fails.
abbrev decoded_command : Services → Option RunCommand → Sent
decoded_command services none = ([], some (invalid "decode moderation command"))
decoded_command services (some command) =
    if str_eq command.task_id "" || (str_eq command.run_id "" || ltb command.attempt 1)
    then ([], some (invalid "moderation command is missing task, run, or attempt"))
    else moderate_loaded services command (services.processing_config command.task_id)

unfoldable pub handle_command : Services → String → Option RunCommand → Sent
unfolding moderate
handle_command services event_type payload =
    if not (str_eq event_type moderation_requested_v1)
    then ([], some (invalid "unsupported moderation command"))
    else decoded_command services payload
