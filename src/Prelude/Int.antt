-- ===== src/Prelude/Int.antt =====
-- Go's `int` where its sign matters: `negsuc n` is -(n + 1).
use Prim.Native.Nat.{ℕ, ◌+◌, ◌*◌}
use mathlib.Core.Bool.{Bool, true, false}
use visoraft.Prelude.Tests.{ltb, leb, ◌==◌}

pub data ℤ : Type 0 where
  pos : ℕ → ℤ
  negsuc : ℕ → ℤ

abbrev pub is_negative : ℤ → Bool
is_negative (pos n) = false
is_negative (negsuc n) = true

-- The larger of the integer and 0.
abbrev pub pos_part : ℤ → ℕ
pos_part (pos n) = n
pos_part (negsuc n) = 0

-- `a < n` for a number n that is not negative.
abbrev pub ltb_ℤ : ℤ → ℕ → Bool
ltb_ℤ (pos a) n = ltb a n
ltb_ℤ (negsuc a) n = true

-- `a > n`.
abbrev pub gtb_ℤ : ℤ → ℕ → Bool
gtb_ℤ (pos a) n = ltb n a
gtb_ℤ (negsuc a) n = false

abbrev pub eqb_ℤ : ℤ → ℕ → Bool
eqb_ℤ (pos a) n = a == n
eqb_ℤ (negsuc a) n = false

-- `a <= b`.
abbrev pub leb_ℤ : ℤ → ℤ → Bool
leb_ℤ (pos a) (pos b) = leb a b
leb_ℤ (pos a) (negsuc b) = false
leb_ℤ (negsuc a) (pos b) = true
leb_ℤ (negsuc a) (negsuc b) = leb b a

-- `100 * a`: 100 (n + 1) is (100 n + 99) + 1.
abbrev pub hundredfold : ℤ → ℤ
hundredfold (pos n) = pos (100 * n)
hundredfold (negsuc n) = negsuc (100 * n + 99)
