-- ===== src/Outbox/Delay.antt =====
-- The delay before a message is sent again.
use native.Mathlib.Nat.{pow-le-pow_right}
use visoraft.Prelude.{ℕ, ◌^◌, ◌≤◌, arith}
use visoraft.Outbox.{retry_delay}

-- After its first attempt or a later one a message waits for at least two seconds and at most a minute,
-- and never shorter after more attempts.
retry_delay-bounded :
    (attempt later : ℕ)
    → 1 ≤ attempt
    → attempt ≤ later
    → (2000 ≤ retry_delay attempt)
      × (retry_delay attempt ≤ retry_delay later)
      × (retry_delay later ≤ 60000)
unfolding retry_delay
retry_delay-bounded attempt later first more =
    (ground (arith, two), ground (arith, powers), ground arith)
  where
    two : 2 ^ 1 ≤ 2 ^ attempt
    two = pow-le-pow_right (omega arith) first

    powers : 2 ^ attempt ≤ 2 ^ later
    powers = pow-le-pow_right (omega arith) more
