-- ===== src/Prelude/Bits.antt =====
-- Exclusive or of two words stays inside the width of both.
use Prim.Native.Nat.{
  ℕ, zero, suc, ◌/◌, ◌%◌, ◌^◌, ◌≤◌, ◌<◌, bit_xor, bit_or, digits, differ, bit_xor-bitwise,
  bit_or-bitwise, max,
}
use mathlib.Core.Path.{◌≡◌, refl, sym, ◌∙◌}
use native.Mathlib.Nat.{pow-suc}
use native.Mathlib.Omega.{arith}

differ-le : (x y : ℕ) → x < 2 → y < 2 → differ x y ≤ 1
differ-le zero y h k = omega arith
differ-le (suc x) zero h k = omega arith
differ-le (suc x) (suc y) h k = differ-le x y (omega arith) (omega arith)

module _ (f : ℕ → ℕ → ℕ) (f_le : (x y : ℕ) → x < 2 → y < 2 → f x y ≤ 1) where
  digits-lt : (k n a b : ℕ) → a < 2 ^ k → b < 2 ^ k → digits (λ b. b) f n a b < 2 ^ k
  digits-lt k zero a b h g = g
  digits-lt k (suc n) zero b h g = g
  digits-lt zero (suc n) (suc a) b h g = absurd (omega arith)
  digits-lt (suc k) (suc n) (suc a) b h g = omega (
    arith,
    pow-suc 2 k,
    f_le (suc a % 2) (b % 2) (omega arith) (omega arith),
    digits-lt k n (suc a / 2) (b / 2) (omega (arith, pow-suc 2 k)) (omega (arith, pow-suc 2 k)),
  )

-- Two words of `k` bits have an exclusive or of `k` bits.
pub bit_xor-lt : (k a b : ℕ) → a < 2 ^ k → b < 2 ^ k → bit_xor a b < 2 ^ k
bit_xor-lt k a b h g = omega (arith, bit_xor-bitwise a b, digits-lt differ differ-le k a a b h g)

pub bit_or-lt : (k a b : ℕ) → a < 2 ^ k → b < 2 ^ k → bit_or a b < 2 ^ k
bit_or-lt k a b h g =
    omega (arith, bit_or-bitwise a b, digits-lt max (λ x y p q. omega arith) k a a b h g)

differ_comm : (x y : ℕ) → differ x y ≡ differ y x
differ_comm zero zero = refl
differ_comm zero (suc y) = refl
differ_comm (suc x) zero = refl
differ_comm (suc x) (suc y) = differ_comm x y

digits_zero : (n a : ℕ) → a ≤ n → digits (λ b. b) differ n a 0 ≡ a
digits_zero zero a h = omega arith
digits_zero (suc n) zero h = refl
digits_zero (suc n) (suc a) h =
    omega (arith, digits_zero n (suc a / 2) (omega arith), differ_comm (suc a % 2) 0)

digits_comm :
    (n m a b : ℕ) → a ≤ n → b ≤ m → digits (λ c. c) differ n a b ≡ digits (λ c. c) differ m b a
digits_comm zero m zero b h k = sym (digits_zero m b k)
digits_comm zero m (suc a) b h k = absurd (omega arith)
digits_comm (suc n) m zero b h k = sym (digits_zero m b k)
digits_comm (suc n) zero (suc a) zero h k = digits_zero (suc n) (suc a) h
digits_comm (suc n) zero (suc a) (suc b) h k = absurd (omega arith)
digits_comm (suc n) (suc m) (suc a) zero h k = digits_zero (suc n) (suc a) h
digits_comm (suc n) (suc m) (suc a) (suc b) h k = omega (
  arith,
  digits_comm n m (suc a / 2) (suc b / 2) (omega arith) (omega arith),
  differ_comm (suc a % 2) (suc b % 2),
)

-- Exclusive or does not depend on the order of its words.
pub bit_xor_comm : (a b : ℕ) → bit_xor a b ≡ bit_xor b a
bit_xor_comm a b =
    bit_xor-bitwise a b
    ∙ digits_comm a b a b (omega arith) (omega arith)
    ∙ sym (bit_xor-bitwise b a)
