-- ===== src/Moderation/Fixture.antt =====
-- internal/moderation/fixture.go: the provider for local use, which looks for markers in the texts.
use visoraft.Prelude.{String, Bool, List, [], ◌∷◌, ◌||◌, not, str_eq, lower_contains, if◌then◌else◌}
use visoraft.Moderation.Model.{
  ModerationConfig, ModerationResult, ChannelResult, Finding, skipped, highest_risk,
  decision_for_risk,
}

pub record TextInput : Type 0 where
  pub id : String
  pub content : String

pub record Request : Type 0 where
  pub task_id : String
  pub config : ModerationConfig
  pub texts : List TextInput
  pub image_url : String
  pub video_url : String

-- The switch over one text.
abbrev pub marked_risk : String → String → String
marked_risk risk content =
    if lower_contains "[fixture:block]" content || lower_contains "【本地审核：高风险】" content
    then highest_risk (risk ∷ "high" ∷ [])
    else if lower_contains "[fixture:review]" content || lower_contains "【本地审核：中风险】" content
    then highest_risk (risk ∷ "medium" ∷ [])
    else risk

unfoldable pub fixture_risk : String → List TextInput → String
fixture_risk risk [] = risk
fixture_risk risk (item ∷ items) = fixture_risk (marked_risk risk item.content) items

abbrev marker_findings : String → List Finding
marker_findings risk =
    if not (str_eq risk "none")
    then record { label = "fixture_marker"; description = "命中显式本地审核测试标记"; risk_level = risk } ∷ []
    else []

-- A channel that is skipped, or completed under the id of a request.
unfoldable pub checked_channel : Bool → String → String → ChannelResult
checked_channel checks service request_id =
    if checks
    then record (skipped service) { status = "completed"; request_ids = request_id ∷ [] }
    else skipped service

unfoldable pub text_channel : Bool → String → String → ChannelResult
text_channel checks service risk =
    if checks
    then record {
      status = "completed";
      service = service;
      risk_level = risk;
      request_ids = "fixture-text" ∷ [];
      findings = marker_findings risk;
    }
    else skipped service

-- Of the result, the run and its attempt are the worker's to fill in.
unfoldable pub fixture_moderate : Request → ModerationResult
unfolding fixture_risk text_channel checked_channel
fixture_moderate request =
    let risk = fixture_risk "none" request.texts in
    record {
      task_id = request.task_id;
      run_id = "";
      attempt = 0;
      provider = "fixture";
      decision = decision_for_risk risk request.config;
      risk_level = risk;
      text = text_channel request.config.check_text request.config.text_service risk;
      image =
          checked_channel request.config.check_image request.config.image_service "fixture-image";
      video =
          checked_channel request.config.check_video request.config.video_service "fixture-video";
    }
