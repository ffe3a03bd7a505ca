-- ===== src/Database/Postcondition.antt =====
-- A postcondition of a transaction's body, with one rule for each way in which bodies are built: it
-- speaks of the result that is committed, and says nothing of a body that is rolled back.
use visoraft.Prelude.{◌≡◌, refl, ap, subst, Bool, true, false, Option, none, some}
use visoraft.Database.Rows.{Db}
use visoraft.Database.Transactions.{Error, Result, ok, err, ◌>>=◌, ◌>>◌, require, or_fail, commit}

pub data Ensures {ℓ κ} {A : Type ℓ} (P : A → Type κ) : Result A → Type (ℓ ⊔ κ) where
  committed : {a : A} → P a → Ensures P (ok a)
  rolled_back : {e : Error} → Ensures P (err e)

module _ {ℓ κ} {A : Type ℓ} {P : A → Type κ} where
  pub Ensures-require :
      (test : Bool) (e : Error) (next : Result A)
      → (test ≡ true → Ensures P next)
      → Ensures P (require test e >> next)
  unfolding require ◌>>◌
  Ensures-require true e next h = h refl
  Ensures-require false e next h = rolled_back

  pub Ensures-or_fail {μ} :
      {B : Type μ} (o : Option B) (e : Error) (next : B → Result A)
      → ((b : B) → o ≡ some b → Ensures P (next b))
      → Ensures P (or_fail o e >>= next)
  unfolding or_fail ◌>>=◌
  Ensures-or_fail none e next h = rolled_back
  Ensures-or_fail (some b) e next h = h b refl

  pub Ensures-bind {μ ν} :
      {B : Type μ} {Q : B → Type ν} {r : Result B} (next : B → Result A)
      → Ensures Q r
      → ((b : B) → Q b → Ensures P (next b))
      → Ensures P (r >>= next)
  unfolding ◌>>=◌
  Ensures-bind next (committed {a} q) h = h a q
  Ensures-bind next rolled_back h = rolled_back

  -- After a step of which nothing is to be known.
  pub Ensures-after {μ} :
      {B : Type μ} (r : Result B) (next : B → Result A)
      → ((b : B) → Ensures P (next b))
      → Ensures P (r >>= next)
  unfolding ◌>>=◌
  Ensures-after (ok b) next h = h b
  Ensures-after (err e) next h = rolled_back

  pub Ensures-guard :
      (r : Result (Unit {0})) (next : Result A)
      → (r ≡ ok tt → Ensures P next)
      → Ensures P (r >> next)
  unfolding ◌>>◌
  Ensures-guard (ok tt) next h = h refl
  Ensures-guard (err e) next h = rolled_back

  pub Ensures-then :
      (r : Result (Unit {0})) (next : Result A) → Ensures P next → Ensures P (r >> next)
  unfolding ◌>>◌
  Ensures-then (ok b) next h = h
  Ensures-then (err e) next h = rolled_back

pub Ensures-commit {ℓ} :
    {P : Db → Type ℓ} (before : Db) {r : Result Db} → P before → Ensures P r → P (commit before r).0
Ensures-commit before p (committed h) = h
Ensures-commit before p rolled_back = p

result_or {ℓ} : {A : Type ℓ} → A → Result A → A
result_or d (ok a) = a
result_or d (err e) = d

-- The result of a body that ended well.
pub Ensures-ok {ℓ κ} :
    {A : Type ℓ} {P : A → Type κ} {r : Result A} {a : A} → Ensures P r → r ≡ ok a → P a
unfolding result_or
Ensures-ok {P} (committed {a = b} p) h = subst P (ap (result_or b) h) p
Ensures-ok rolled_back h = cc

-- Of a result that is handed on as it is.
pub Ensures-self {ℓ κ} :
    {A : Type ℓ} {P : A → Type κ} (r : Result A) → ((a : A) → r ≡ ok a → P a) → Ensures P r
Ensures-self (ok a) h = committed (h a refl)
Ensures-self (err e) h = rolled_back
