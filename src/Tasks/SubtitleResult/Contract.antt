-- ===== src/Tasks/SubtitleResult/Contract.antt =====
-- The contract of subtitle results, which the consumer checks before the store checks it again.
use visoraft.Prelude.{
  String, ◌≡◌, refl, Bool, true, false, str_eq, str_eq_iff, Bool-cases, inl, inr,
}
use visoraft.Database.{
  Error, ok, require, ◌>>◌, Ensures, committed, rolled_back, Ensures-require, Ensures-guard,
  Ensures-ok,
}
use visoraft.Tasks.SubtitleResult.{
  SubtitleResult, with_default_decision, validate_decision, validate_subtitle_result,
  known_disposition, all_complete, all_documents,
}

-- A decision that passes has a disposition, so that no default is put in its place.
named_decision :
    (r : SubtitleResult)
    → known_disposition r.decision.disposition ≡ true
    → with_default_decision r ≡ r
unfolding with_default_decision
named_decision r known = elim (Bool-cases (str_eq r.decision.disposition "")) [
  | inl blank ↦
      absurd (unknown r.decision.disposition ((str_eq_iff r.decision.disposition "").0 blank) known)
  | inr named ↦ rw named refl
]
  where
    unknown : (d : String) → d ≡ "" → ¬ (known_disposition d ≡ true)
    unknown d blank = rw blank (λ h. cc)

last_require : {P : Type 0} (test : Bool) (e : Error) → P → Ensures (λ _. P) (require test e)
unfolding require
last_require true e p = committed p
last_require false e p = rolled_back

known_when_decided :
    (r : SubtitleResult)
    → Ensures (λ _. known_disposition r.decision.disposition ≡ true) (validate_decision r)
unfolding validate_decision
known_when_decided r = Ensures-require _ _ _ (λ _.
    Ensures-require _ _ _
      (λ _. Ensures-require _ _ _ (λ _. Ensures-require _ _ _ (λ known. last_require _ _ known))))

-- The second check of what the first let through.
second_check :
    (r : SubtitleResult)
    → validate_decision r ≡ ok tt
    → all_complete r.assets ≡ true
    → all_documents r.documents ≡ true
    → validate_subtitle_result r ≡ ok r
unfolding validate_subtitle_result require ◌>>◌
second_check r decided assets documents =
    rw (named_decision r (Ensures-ok (known_when_decided r) decided))
      (rw decided (rw assets (rw documents refl)))

accepted_again :
    (given : SubtitleResult)
    → Ensures (λ r. validate_subtitle_result r ≡ ok r) (validate_subtitle_result given)
unfolding validate_subtitle_result
accepted_again given = Ensures-guard _ _ (λ decided. Ensures-require _ _ _ (λ assets.
    Ensures-require _ _ _ (λ documents.
      committed (second_check (with_default_decision given) decided assets documents))))

-- A result that passes the contract passes it again, as it is: the store, which checks what the consumer
-- has checked, refuses nothing that the consumer let through.
validate-again :
    (given r : SubtitleResult)
    → validate_subtitle_result given ≡ ok r
    → validate_subtitle_result r ≡ ok r
validate-again given r h = Ensures-ok (accepted_again given) h
