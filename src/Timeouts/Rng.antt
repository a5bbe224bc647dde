-- ===== src/Timeouts/Rng.antt =====
-- The host's xorshift random source, a 64-bit word.
use Prim.Native.Nat.{bit_or, bit_xor}
use lunet_locks.Prelude.{ℕ, ◌*◌, ◌/◌, ◌%◌, ◌^◌, ◌<◌, max, arith}
use lunet_locks.Prelude.Bits.{bit_xor-lt, bit_or-lt}

-- A shift left of a u64 drops the bits that leave the word.
abbrev shl : ℕ → ℕ → ℕ
shl x k = (x * 2 ^ k) % 2 ^ 64

abbrev shr : ℕ → ℕ → ℕ
shr x k = x / 2 ^ k

unfoldable pub new : ℕ → ℕ
new seed = bit_or seed 1

-- The next state, which is also the value drawn.
unfoldable pub next : ℕ → ℕ
next s = let a = bit_xor s (shl s 13) in let b = bit_xor a (shr a 7) in bit_xor b (shl b 17)

-- The value and the new state.
unfoldable pub below : ℕ → ℕ → ℕ × ℕ
unfolding next
below s bound = (next s % max bound 1, next s)

-- The 53 bits of `unit`, whose float is this number over 2^53.
unfoldable pub unit_bits : ℕ → ℕ × ℕ
unfolding next
unit_bits s = (shr (next s) 11, next s)

next-lt : (s : ℕ) → s < 2 ^ 64 → next s < 2 ^ 64
unfolding next
next-lt s h =
    let a : ℕ = bit_xor s (shl s 13) in
    let b : ℕ = bit_xor a (shr a 7) in
    let ha : a < 2 ^ 64 = bit_xor-lt 64 s (shl s 13) h (omega arith) in
    let hb : b < 2 ^ 64 = bit_xor-lt 64 a (shr a 7) ha (omega arith) in
    bit_xor-lt 64 b (shl b 17) hb (omega arith)

-- In a state that is a u64, a draw below a bound is below it (below 1 for the bound 0), a sample of
-- `unit` is below 2^53, so its float is in [0, 1), and the state stays a u64. A new source starts in
-- such a state.
pub draws_bounded :
    (s bound : ℕ)
    → s < 2 ^ 64
    → ((below s bound).0 < max bound 1)
      × ((below s bound).1 < 2 ^ 64)
      × ((unit_bits s).0 < 2 ^ 53)
      × ((unit_bits s).1 < 2 ^ 64)
      × (new s < 2 ^ 64)
unfolding below unit_bits new
draws_bounded s bound h = (
  omega arith,
  next-lt s h,
  omega (arith, next-lt s h),
  next-lt s h,
  bit_or-lt 64 s 1 h (omega arith),
)
