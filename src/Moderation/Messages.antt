-- ===== src/Moderation/Messages.antt =====
-- What the worker sends is what the store's checks accept.
use Prim.Native.Char.{Char}
use visoraft.Prelude.{
  str_eq_iff, ℕ, zero, suc, String, lower_contains, if◌then◌else◌, ◌≡◌, refl, Bool, true, false,
  List, [], ◌∷◌, ◌||◌, str_eq, arith, lower_is, fold_is, trim_space, take_runes, Bool-cases, inl,
  inr, str_eq_refl,
}
use visoraft.Database.{ok, require, ◌>>◌}
use visoraft.Tasks.Envelope.{Envelope}
use visoraft.Moderation.Model.{
  ModerationResult, ModerationConfig, pass, manual_review, block, normalize_risk, normalize_action,
  highest_risk, decision_for_risk, failure_decision,
}
use visoraft.Moderation.Risk.{risk_of_rank, highest_risk-maximum}
use visoraft.Moderation.Fixture.{TextInput, Request, marked_risk, fixture_risk, fixture_moderate}
use visoraft.Moderation.Store.{
  valid_result, valid_failure, validate_event_identity, moderation_body, moderation_completed,
  moderation_failed, ModerationEvent,
}
use visoraft.Moderation.Worker.{
  RunCommand, ProviderError, truncate_message, failure_of, completed_result,
}

-- The three decisions.
abbrev is_decision : String → Bool
is_decision d = str_eq d pass || (str_eq d manual_review || str_eq d block)

normalize_action-is_decision :
    (action : String)
    → (str_eq (normalize_action action) manual_review || str_eq (normalize_action action) block)
      ≡ true
unfolding normalize_action
normalize_action-is_decision action = elim (Bool-cases (fold_is block (trim_space action))) [
  | inl blocks ↦ rw blocks refl
  | inr reviews ↦ rw reviews refl
]

or_true : (b c : Bool) → c ≡ true → (b || c) ≡ true
or_true b c h = ground arith

decision_for_risk-is_decision :
    (risk : String) (config : ModerationConfig) → is_decision (decision_for_risk risk config) ≡ true
unfolding decision_for_risk
decision_for_risk-is_decision risk config =
    elim (Bool-cases (str_eq (normalize_risk risk) "high")) [
      | inl high ↦ rw high (or_true _ _ (normalize_action-is_decision config.high_risk_action))
      | inr below_high ↦ rw below_high (elim (Bool-cases (str_eq (normalize_risk risk) "medium")) [
        | inl medium ↦
            rw medium (or_true _ _ (normalize_action-is_decision config.medium_risk_action))
        | inr below ↦ rw below refl
      ])
    ]

-- A text is a risk level where normalizing keeps it.
abbrev IsRisk : String → Type 0
IsRisk value = normalize_risk value ≡ value

risk_of_rank-IsRisk : (rank : ℕ) → IsRisk (risk_of_rank rank)
unfolding normalize_risk trim_space lower_is
risk_of_rank-IsRisk zero = refl
risk_of_rank-IsRisk (suc zero) = refl
risk_of_rank-IsRisk (suc (suc zero)) = refl
risk_of_rank-IsRisk (suc (suc (suc n))) = refl

highest_risk-IsRisk : (values : List String) → IsRisk (highest_risk values)
highest_risk-IsRisk values = rw (highest_risk-maximum values) (risk_of_rank-IsRisk _)

marked_risk-IsRisk : (risk content : String) → IsRisk risk → IsRisk (marked_risk risk content)
marked_risk-IsRisk risk content h =
    choice-IsRisk (lower_contains "[fixture:block]" content || lower_contains "【本地审核：高风险】" content)
      _ _ (highest_risk-IsRisk (risk ∷ "high" ∷ []))
      (choice-IsRisk
        (lower_contains "[fixture:review]" content || lower_contains "【本地审核：中风险】" content) _ _
        (highest_risk-IsRisk (risk ∷ "medium" ∷ [])) h)
  where
    choice-IsRisk : (b : Bool) (x y : String) → IsRisk x → IsRisk y → IsRisk (if b then x else y)
    choice-IsRisk true x y p q = p
    choice-IsRisk false x y p q = q

fixture_risk-IsRisk :
    (risk : String) (items : List TextInput) → IsRisk risk → IsRisk (fixture_risk risk items)
unfolding fixture_risk
fixture_risk-IsRisk risk [] h = h
fixture_risk-IsRisk risk (item ∷ items) h =
    fixture_risk-IsRisk (marked_risk risk item.content) items
      (marked_risk-IsRisk risk item.content h)

accepted :
    (decision risk : String)
    → is_decision decision ≡ true
    → IsRisk risk
    → (r : ModerationResult) → r.decision ≡ decision
    → r.risk_level ≡ risk
    → valid_result r ≡ ok tt
unfolding valid_result require ◌>>◌
accepted decision risk d h r e f = rw e (rw f (rw d (rw h (rw (str_eq_refl risk) refl))))

-- The result of the local provider, sent by the worker under a run and a subject that fit, passes the
-- checks of the store: its decision is one of the three, and its risk level is normal.
pub fixture_moderate-accepted :
    (env : Envelope) (command : RunCommand) (config : ModerationConfig) (request : Request)
    → validate_event_identity env command.task_id command.run_id command.attempt ≡ ok tt
    → moderation_body env
        (ModerationEvent.completed_v1 (completed_result command config (fixture_moderate request)))
      ≡ ok (moderation_completed (completed_result command config (fixture_moderate request)) env)
unfolding moderation_body completed_result fixture_moderate ◌>>◌
fixture_moderate-accepted env command config request named = rw named (
    rw
      (accepted (decision_for_risk (fixture_risk "none" request.texts) request.config)
        (fixture_risk "none" request.texts) (decision_for_risk-is_decision _ request.config)
        (fixture_risk-IsRisk "none" request.texts (risk_of_rank-IsRisk 0))
        (completed_result command config (fixture_moderate request)) refl refl)
      refl)

cons_not_nil : {c : Char} {s : String} → ¬ (String.◌∷◌ c s ≡ String.[])
cons_not_nil e = cc

truncate_message_nonempty : (message : String) → str_eq (truncate_message message) "" ≡ false
unfolding truncate_message take_runes
truncate_message_nonempty message = elim (Bool-cases (str_eq (trim_space message) "")) [
  | inl blank ↦ rw blank refl
  | inr said ↦ rw said (take_runes_nonempty 999 (trim_space message) said)
]
  where
    take_runes_nonempty :
        (n : ℕ) (s : String) → str_eq s "" ≡ false → str_eq (take_runes (suc n) s) "" ≡ false
    take_runes_nonempty n String.[] h = h
    take_runes_nonempty n (String.◌∷◌ c s) h =
        elim (Bool-cases (str_eq (String.◌∷◌ c (take_runes n s)) "")) [
          | inl same ↦ absurd (cons_not_nil ((str_eq_iff _ _).0 same))
          | inr apart ↦ apart
        ]

-- The failure that the worker sends for an error with a code passes the checks of the store, whatever
-- the error's message and the configured action are.
pub failure_of-accepted :
    (env : Envelope) (command : RunCommand) (config : ModerationConfig) (e : ProviderError)
    → validate_event_identity env command.task_id command.run_id command.attempt ≡ ok tt
    → str_eq e.code "" ≡ false
    → moderation_body env (ModerationEvent.failed_v1 (failure_of command config e))
      ≡ ok (moderation_failed (failure_of command config e) env)
unfolding moderation_body failure_of valid_failure require ◌>>◌ failure_decision
failure_of-accepted env command config e named coded = rw named (
    rw (normalize_action-is_decision config.failure_action)
      (rw coded (rw (truncate_message_nonempty e.message) refl)))
