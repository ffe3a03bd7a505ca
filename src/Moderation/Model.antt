-- ===== src/Moderation/Model.antt =====
-- internal/moderation/model.go: the events of a moderation run, the levels of risk and the decisions.
-- Risks, actions and decisions are the texts that the messages and the settings carry.
use visoraft.Prelude.{
  ℕ, String, Bool, List, [], ◌∷◌, trim_space, lower_is, fold_is, str_eq, ltb, if◌then◌else◌, refl,
  ◌≡◌,
}

-- The decisions of a moderation.
abbrev pub pass : String
pass = "pass"

abbrev pub manual_review : String
manual_review = "manual_review"

abbrev pub block : String
block = "block"

pub record Started : Type 0 where
  pub task_id : String
  pub run_id : String
  pub attempt : ℕ
  pub provider : String

-- Of a channel's raw answer and its findings' details nothing is read again.
pub record Finding : Type 0 where
  pub label : String
  pub description : String
  pub risk_level : String

pub record ChannelResult : Type 0 where
  pub status : String
  pub service : String
  pub risk_level : String
  pub request_ids : List String
  pub findings : List Finding

-- `Result` of the source.
pub record ModerationResult : Type 0 where
  pub task_id : String
  pub run_id : String
  pub attempt : ℕ
  pub provider : String
  pub decision : String
  pub risk_level : String
  pub text : ChannelResult
  pub image : ChannelResult
  pub video : ChannelResult

pub record Failure : Type 0 where
  pub task_id : String
  pub run_id : String
  pub attempt : ℕ
  pub provider : String
  pub code : String
  pub message : String
  pub retryable : Bool
  pub decision : String
  pub text : ChannelResult
  pub image : ChannelResult
  pub video : ChannelResult

-- The part of settings.ModerationConfig that the worker and the fixture read.
pub record ModerationConfig : Type 0 where
  pub enabled : Bool
  pub provider : String
  pub check_text : Bool
  pub check_image : Bool
  pub check_video : Bool
  pub text_service : String
  pub image_service : String
  pub video_service : String
  pub high_risk_action : String
  pub medium_risk_action : String
  pub failure_action : String
  pub request_timeout_seconds : ℕ
  pub video_maximum_wait_seconds : ℕ

-- The switch over strings.ToLower(strings.TrimSpace(value)).
unfoldable pub normalize_risk : String → String
normalize_risk value =
    if lower_is "high" (trim_space value)
    then "high"
    else if lower_is "medium" (trim_space value)
    then "medium"
    else if lower_is "low" (trim_space value)
    then "low"
    else "none"

unfoldable pub normalize_action : String → String
normalize_action value = if fold_is block (trim_space value) then block else manual_review

unfoldable pub risk_rank : String → ℕ
risk_rank value =
    if str_eq value "high"
    then 3
    else if str_eq value "medium"
    then 2
    else if str_eq value "low"
    then 1
    else 0

-- The loop of HighestRisk, with the highest so far.
unfoldable pub highest_from : String → List String → String
unfolding normalize_risk risk_rank
highest_from highest [] = highest
highest_from highest (value ∷ values) =
    highest_from
      (if ltb (risk_rank highest) (risk_rank (normalize_risk value))
        then normalize_risk value
        else highest)
      values

unfoldable pub highest_risk : List String → String
unfolding highest_from
highest_risk values = highest_from "none" values

unfoldable pub decision_for_risk : String → ModerationConfig → String
unfolding normalize_risk normalize_action
decision_for_risk risk_level config =
    if str_eq (normalize_risk risk_level) "high"
    then normalize_action config.high_risk_action
    else if str_eq (normalize_risk risk_level) "medium"
    then normalize_action config.medium_risk_action
    else pass

unfoldable pub failure_decision : ModerationConfig → String
unfolding normalize_action
failure_decision config = normalize_action config.failure_action

unfoldable pub skipped : String → ChannelResult
skipped service = record {
  status = "skipped";
  service = service;
  risk_level = "none";
  request_ids = [];
  findings = [];
}

test_highest : highest_risk ("low" ∷ " HIGH " ∷ "medium" ∷ []) ≡ "high"
unfolding highest_risk lower_is trim_space
test_highest = refl
