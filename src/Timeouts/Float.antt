-- ===== src/Timeouts/Float.antt =====
-- `f64` as far as the randomised wait uses it, and the wait (`random_wait_ms`).
use lunet_locks.Prelude.{ℕ, ◌+◌, ◌-◌, ◌^◌, ◌≤◌, ◌<◌, ◌%◌, arith, leb, if◌then◌else◌}

-- The operations, and what IEEE 754 and the `as` cast document of them. `NotAbove a b` says that
-- `a > b` does not hold, so a NaN is not above anything.
pub record Float : Type 1 where
  pub F : Type 0
  pub zero_value : F
  pub one_value : F
  -- `n as f64`
  pub of_u64 : ℕ → F
  -- `x as u64`: truncates, saturates, and sends NaN to 0
  pub to_u64 : F → ℕ
  -- `x.clamp(lo, hi)`
  pub clamp : F → F → F → F
  pub mul : F → F → F
  pub NotAbove : F → F → Type 0
  -- a clamped number is not above the upper limit
  pub clamp_NotAbove : (x lo hi : F) → NotAbove (clamp x lo hi) hi
  -- multiplying a number that is not negative by one not above 1 does not raise it
  pub mul_NotAbove : (x : F) (n : ℕ) → NotAbove x one_value → NotAbove (mul x (of_u64 n)) (of_u64 n)
  -- up to 2^53 every integer is its own float
  pub to_u64_exact : (x : F) (n : ℕ) → n ≤ 2 ^ 53 → NotAbove x (of_u64 n) → to_u64 x ≤ n

module _ (float : Float) where
  open float use {
    F, zero_value, one_value, of_u64, to_u64, clamp, mul, clamp_NotAbove, mul_NotAbove,
    to_u64_exact,
  }

  unfoldable pub random_wait_ms : ℕ → ℕ → F → ℕ
  random_wait_ms min_ms max_ms unit =
      if leb max_ms min_ms
      then min_ms
      else (min_ms + to_u64 (mul (clamp unit zero_value one_value) (of_u64 (max_ms - min_ms))))
        % 2 ^ 64

  -- Whatever the random sample, the wait lies between the bounds, where these are u64 in order and
  -- not more than 2^53 apart.
  pub random_wait_bounds :
      (min_ms max_ms : ℕ) (unit : F)
      → min_ms ≤ max_ms
      → max_ms < 2 ^ 64
      → max_ms - min_ms ≤ 2 ^ 53
      → (min_ms ≤ random_wait_ms min_ms max_ms unit) × (random_wait_ms min_ms max_ms unit ≤ max_ms)
  unfolding random_wait_ms
  random_wait_bounds min_ms max_ms unit h u k = ground (
    arith,
    to_u64_exact (mul (clamp unit zero_value one_value) (of_u64 (max_ms - min_ms)))
        (max_ms - min_ms) k
        (mul_NotAbove _ (max_ms - min_ms) (clamp_NotAbove unit zero_value one_value)),
  )
