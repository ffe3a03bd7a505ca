-- ===== src/Prelude/Tables.antt =====
-- SQL over a table that is a list of rows: `find` is `SELECT … WHERE … LIMIT 1`, `exists` is
-- `SELECT EXISTS(…)`, `update` is `UPDATE … SET … WHERE …`. A WHERE clause is a Boolean test.
use Prim.Native.Nat.{ℕ, suc, ◌+◌, ◌≤◌}
use mathlib.Core.Path.{◌≡◌, refl, ap}
use mathlib.Core.Bool.{Bool, true, false, ◌||◌}
use mathlib.Core.Option.{Option, none, some}
use mathlib.Core.List.{List, [], ◌∷◌}
use native.Mathlib.Omega.{arith}
use mathlib.Core.Logic.{inl, inr}
use visoraft.Prelude.Tests.{if◌then◌else◌, is_some, Bool-cases}

module _ {ℓ} {A : Type ℓ} where
  unfoldable pub find : (A → Bool) → List A → Option A
  find p [] = none
  find p (x ∷ xs) = if p x then some x else find p xs

  unfoldable pub exists : (A → Bool) → List A → Bool
  exists p [] = false
  exists p (x ∷ xs) = p x || exists p xs

  unfoldable pub update : (A → Bool) → (A → A) → List A → List A
  update p f [] = []
  update p f (x ∷ xs) = (if p x then f x else x) ∷ update p f xs

  unfoldable pub count : (A → Bool) → List A → ℕ
  count p [] = 0
  count p (x ∷ xs) = (if p x then 1 else 0) + count p xs

  -- DELETE FROM … WHERE …
  unfoldable pub delete : (A → Bool) → List A → List A
  delete p [] = []
  delete p (x ∷ xs) = let rest = delete p xs in if p x then rest else x ∷ rest

  abbrev pub length : List A → ℕ
  length [] = 0
  length (x ∷ xs) = suc (length xs)

  -- What an UPDATE makes of one row.
  abbrev pub set_where : (A → Bool) → (A → A) → A → A
  set_where p f x = if p x then f x else x

  abbrev pub map_row : (A → A) → Option A → Option A
  map_row f none = none
  map_row f (some x) = some (f x)

  -- What an UPDATE makes of one row passes no test that neither the new row passes nor the old one outside
  -- the WHERE clause.
  pub set_where-none :
      (test p : A → Bool) (f : A → A) (x : A)
      → (p x ≡ true → test (f x) ≡ false)
      → (p x ≡ false → test x ≡ false)
      → test (set_where p f x) ≡ false
  set_where-none test p f x hit miss = elim (Bool-cases (p x)) [
    | inl e ↦ rw e (hit e)
    | inr e ↦ rw e (miss e)
  ]

  pub set_where-keeps {κ} :
      {B : Type κ} (field : A → B) (p : A → Bool) (f : A → A) (x : A)
      → field (f x) ≡ field x
      → field (set_where p f x) ≡ field x
  set_where-keeps field p f x same = elim (Bool-cases (p x)) [
    | inl e ↦ rw e same
    | inr e ↦ rw e refl
  ]

  -- An update that keeps a row's key is seen through `find` at that key as a change of the row.
  pub find-update :
      (key p : A → Bool) (f : A → A) (xs : List A)
      → ((x : A) → key (f x) ≡ key x)
      → find key (update p f xs) ≡ map_row (set_where p f) (find key xs)
  unfolding find update
  find-update key p f [] keeps = refl
  find-update key p f (x ∷ xs) keeps = ground (arith, keeps x, find-update key p f xs keeps)

  -- An update that touches only rows outside a key leaves what `find` sees at that key.
  pub find-update_ne :
      (key p : A → Bool) (f : A → A) (xs : List A)
      → ((x : A) → key (f x) ≡ key x)
      → ((x : A) → key x ≡ true → p x ≡ false)
      → find key (update p f xs) ≡ find key xs
  unfolding find update
  find-update_ne key p f [] keeps apart = refl
  find-update_ne key p f (x ∷ xs) keeps apart =
      ground (arith, keeps x, apart x, find-update_ne key p f xs keeps apart)

  pub exists-find : (p : A → Bool) (xs : List A) → exists p xs ≡ is_some (find p xs)
  unfolding exists find
  exists-find p [] = refl
  exists-find p (x ∷ xs) = ground (arith, exists-find p xs)

  -- What `find` returns passes its test.
  pub find_test : (p : A → Bool) (xs : List A) {x : A} → find p xs ≡ some x → p x ≡ true
  unfolding find
  find_test p [] h = cc
  find_test p (y ∷ xs) {x} h = ground (arith, find_test p xs {x = x})

  pub length-update : (p : A → Bool) (f : A → A) (xs : List A) → length (update p f xs) ≡ length xs
  unfolding update
  length-update p f [] = refl
  length-update p f (x ∷ xs) = ap suc (length-update p f xs)

  pub count-le-length : (p : A → Bool) (xs : List A) → count p xs ≤ length xs
  unfolding count
  count-le-length p [] = omega arith
  count-le-length p (x ∷ xs) = ground (arith, count-le-length p xs)

  -- After an UPDATE no row passes a test that no row it leaves or makes can pass.
  pub exists-update_none :
      (q r p : A → Bool) (f : A → A) (xs : List A)
      → exists r xs ≡ false
      → ((x : A) → r x ≡ false → q (set_where p f x) ≡ false)
      → exists q (update p f xs) ≡ false
  unfolding exists update
  exists-update_none q r p f [] clear h = refl
  exists-update_none q r p f (x ∷ xs) clear h =
      ground (arith, h x, exists-update_none q r p f xs, clear)

  pub exists-update :
      (q p : A → Bool) (f : A → A) (xs : List A)
      → ((x : A) → q (set_where p f x) ≡ q x)
      → exists q (update p f xs) ≡ exists q xs
  unfolding exists update
  exists-update q p f [] h = refl
  exists-update q p f (x ∷ xs) h = rw (h x) (rw (exists-update q p f xs h) refl)

  -- An UPDATE whose WHERE clause no row passes.
  pub update-none :
      (p : A → Bool) (f : A → A) (xs : List A) → exists p xs ≡ false → update p f xs ≡ xs
  unfolding exists update
  update-none p f [] clear = refl
  update-none p f (x ∷ xs) clear = ground (arith, update-none p f xs, clear)

  -- An UPDATE of the row that a SELECT by the same WHERE clause has read.
  pub find-update_self :
      (p : A → Bool) (f : A → A) (xs : List A) (x : A)
      → ((y : A) → p (f y) ≡ p y)
      → find p xs ≡ some x
      → find p (update p f xs) ≡ some (f x)
  find-update_self p f xs x keeps read =
      rw (find-update p p f xs keeps) (rw read (rw (find_test p xs {x = x} read) refl))

  pub exists-update_all :
      (q p : A → Bool) (f : A → A) (xs : List A)
      → ((x : A) → q (set_where p f x) ≡ false)
      → exists q (update p f xs) ≡ false
  unfolding exists update
  exists-update_all q p f [] h = refl
  exists-update_all q p f (x ∷ xs) h = rw (h x) (exists-update_all q p f xs h)

  -- A DELETE of rows outside a key leaves what `find` sees at that key.
  pub find-delete_ne :
      (key p : A → Bool) (xs : List A)
      → ((x : A) → key x ≡ true → p x ≡ false)
      → find key (delete p xs) ≡ find key xs
  unfolding find delete
  find-delete_ne key p [] apart = refl
  find-delete_ne key p (x ∷ xs) apart = ground (arith, apart x, find-delete_ne key p xs apart)

  pub exists-delete : (p : A → Bool) (xs : List A) → exists p (delete p xs) ≡ false
  unfolding exists delete
  exists-delete p [] = refl
  exists-delete p (x ∷ xs) = elim (Bool-cases (p x)) [
    | inl gone ↦ rw gone (exists-delete p xs)
    | inr kept ↦ rw kept (rw kept (exists-delete p xs))
  ]
