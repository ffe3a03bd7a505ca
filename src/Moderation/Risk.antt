-- ===== src/Moderation/Risk.antt =====
-- The order of the risks: what HighestRisk and DecisionForRisk make of the texts that they are given.
use visoraft.Prelude.{
  ℕ, zero, suc, String, ◌≡◌, refl, ap, ◌∙◌, sym, false, List, [], ◌∷◌, ◌++◌, max, ltb, leb, arith,
  Bool-cases, inl, inr, str_eq, lower_is, fold_is, trim_space,
}
use visoraft.Moderation.Model.{
  normalize_risk, normalize_action, risk_rank, highest_from, highest_risk, decision_for_risk,
  ModerationConfig, pass, block,
}

-- The highest of the ranks, 0 where there is none.
abbrev pub maximum_rank : List String → ℕ
maximum_rank [] = 0
maximum_rank (value ∷ values) = max (risk_rank (normalize_risk value)) (maximum_rank values)

highest_from-rank :
    (highest : String) (values : List String)
    → risk_rank (highest_from highest values) ≡ max (risk_rank highest) (maximum_rank values)
unfolding highest_from
highest_from-rank highest [] = omega arith
highest_from-rank highest (value ∷ values) =
    elim (Bool-cases (ltb (risk_rank highest) (risk_rank (normalize_risk value)))) [
      | inl higher ↦ rw higher (ground (arith, highest_from-rank (normalize_risk value) values))
      | inr no_higher ↦ rw no_higher (ground (arith, highest_from-rank highest values))
    ]

maximum_rank-append :
    (xs ys : List String) → maximum_rank (xs ++ ys) ≡ max (maximum_rank xs) (maximum_rank ys)
maximum_rank-append [] ys = omega arith
maximum_rank-append (x ∷ xs) ys = rw (maximum_rank-append xs ys) (omega arith)

maximum_rank_comm : (xs ys : List String) → maximum_rank (xs ++ ys) ≡ maximum_rank (ys ++ xs)
maximum_rank_comm xs ys =
    rw (maximum_rank-append xs ys) (rw (maximum_rank-append ys xs) (omega arith))

-- The word for a rank.
abbrev pub risk_of_rank : ℕ → String
risk_of_rank zero = "none"
risk_of_rank (suc zero) = "low"
risk_of_rank (suc (suc zero)) = "medium"
risk_of_rank (suc (suc (suc n))) = "high"

-- A risk is normal where it is the word for its rank.
normalize_risk-of_rank :
    (value : String) → normalize_risk value ≡ risk_of_rank (risk_rank (normalize_risk value))
unfolding normalize_risk risk_rank
normalize_risk-of_rank value = elim (Bool-cases (lower_is "high" (trim_space value))) [
  | inl high ↦ rw high refl
  | inr below_high ↦ rw below_high (elim (Bool-cases (lower_is "medium" (trim_space value))) [
    | inl medium ↦ rw medium refl
    | inr below ↦ rw below (elim (Bool-cases (lower_is "low" (trim_space value))) [
      | inl low ↦ rw low refl
      | inr absent ↦ rw absent refl
    ])
  ])
]

highest_from-of_rank :
    (highest : String) (values : List String)
    → highest ≡ risk_of_rank (risk_rank highest)
    → highest_from highest values ≡ risk_of_rank (risk_rank (highest_from highest values))
unfolding highest_from
highest_from-of_rank highest [] normal = normal
highest_from-of_rank highest (value ∷ values) normal =
    elim (Bool-cases (ltb (risk_rank highest) (risk_rank (normalize_risk value)))) [
      | inl higher ↦
          rw higher
            (highest_from-of_rank (normalize_risk value) values (normalize_risk-of_rank value))
      | inr no_higher ↦ rw no_higher (highest_from-of_rank highest values normal)
    ]

-- HighestRisk is the word for the maximum of the ranks of all values, each normalized, and "none" where
-- there is no value.
pub highest_risk-maximum :
    (values : List String) → highest_risk values ≡ risk_of_rank (maximum_rank values)
unfolding highest_risk risk_rank
highest_risk-maximum values =
    highest_from-of_rank "none" values refl
    ∙ ap risk_of_rank (highest_from-rank "none" values ∙ omega arith)

-- HighestRisk does not depend on the order in which two lists of values are joined.
pub highest_risk-order : (xs ys : List String) → highest_risk (xs ++ ys) ≡ highest_risk (ys ++ xs)
highest_risk-order xs ys =
    highest_risk-maximum (xs ++ ys)
    ∙ (ap risk_of_rank (maximum_rank_comm xs ys) ∙ sym (highest_risk-maximum (ys ++ xs)))

normalize_action_not_pass : (action : String) → str_eq (normalize_action action) pass ≡ false
unfolding normalize_action
normalize_action_not_pass action = elim (Bool-cases (fold_is block (trim_space action))) [
  | inl blocks ↦ rw blocks refl
  | inr reviews ↦ rw reviews refl
]

-- A moderation passes exactly where the risk is low or none: whatever the actions that the settings
-- name, a high or a medium risk is reviewed or blocked.
pub decision_for_risk-pass :
    (risk : String) (config : ModerationConfig)
    → str_eq (decision_for_risk risk config) pass ≡ leb (risk_rank (normalize_risk risk)) 1
unfolding decision_for_risk risk_rank
decision_for_risk-pass risk config = elim (Bool-cases (str_eq (normalize_risk risk) "high")) [
  | inl high ↦ rw high (normalize_action_not_pass config.high_risk_action)
  | inr below_high ↦ rw below_high (elim (Bool-cases (str_eq (normalize_risk risk) "medium")) [
    | inl medium ↦ rw medium (normalize_action_not_pass config.medium_risk_action)
    | inr below ↦ rw below (elim (Bool-cases (str_eq (normalize_risk risk) "low")) [
      | inl low ↦ rw low refl
      | inr absent ↦ rw absent refl
    ])
  ])
]
