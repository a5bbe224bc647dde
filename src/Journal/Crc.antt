-- ===== src/Journal/Crc.antt =====
-- CRC-32 (IEEE), by a table of 256 words. `x & 0xff` is `x % 256` and `x & 1` is `x % 2`.
use Prim.Native.Nat.{bit_xor}
use lunet_locks.Prelude.{
  ℕ, zero, suc, ◌/◌, ◌%◌, ◌^◌, ◌<◌, ◌≡◌, refl, inl, inr, List, [], ◌∷◌, arith, ◌==◌, if◌then◌else◌,
  Bool-cases,
}
use lunet_locks.Prelude.Bits.{bit_xor-lt}

unfoldable pub table_bit : ℕ → ℕ
table_bit crc = if crc % 2 == 1 then bit_xor (crc / 2) 0xEDB8_8320 else crc / 2

unfoldable pub table_bits : ℕ → ℕ → ℕ
table_bits zero crc = crc
table_bits (suc j) crc = table_bits j (table_bit crc)

-- CRC32_TABLE: the entry at an index.
unfoldable pub crc32_table : ℕ → ℕ
unfolding table_bits table_bit
crc32_table i = table_bits 8 i

unfoldable pub crc32_loop : ℕ → List ℕ → ℕ
crc32_loop crc [] = crc
crc32_loop crc (b ∷ bs) = crc32_loop (bit_xor (crc / 2 ^ 8) (crc32_table (bit_xor crc b % 256))) bs

unfoldable pub crc32_ieee : List ℕ → ℕ
unfolding crc32_loop crc32_table
crc32_ieee bytes = bit_xor (crc32_loop 0xFFFF_FFFF bytes) 0xFFFF_FFFF

table_bits-lt : (j crc : ℕ) → crc < 2 ^ 32 → table_bits j crc < 2 ^ 32
unfolding table_bits
table_bits-lt zero crc h = h
table_bits-lt (suc j) crc h = table_bits-lt j (table_bit crc) (table_bit-lt crc h)
  where
    table_bit-lt : (c : ℕ) → c < 2 ^ 32 → table_bit c < 2 ^ 32
    table_bit-lt c k =
        unfold table_bit in
        elim (Bool-cases (c % 2 == 1)) [
          | inl e ↦ rw e (bit_xor-lt 32 (c / 2) 0xEDB8_8320 (omega arith) (omega arith))
          | inr e ↦ rw e (omega arith)
        ]

crc32_loop-lt : (bs : List ℕ) (crc : ℕ) → crc < 2 ^ 32 → crc32_loop crc bs < 2 ^ 32
unfolding crc32_loop crc32_table
crc32_loop-lt [] crc h = h
crc32_loop-lt (b ∷ bs) crc h = crc32_loop-lt bs _ (
    bit_xor-lt 32 (crc / 2 ^ 8) _ (omega arith)
      (table_bits-lt 8 (bit_xor crc b % 256) (omega arith)))

-- The checksum is a 32-bit word.
pub crc32_ieee-lt : (bs : List ℕ) → crc32_ieee bs < 2 ^ 32
unfolding crc32_ieee
crc32_ieee-lt bs =
    bit_xor-lt 32 (crc32_loop 0xFFFF_FFFF bs) 0xFFFF_FFFF
      (crc32_loop-lt bs 0xFFFF_FFFF (omega arith)) (omega arith)

-- The check value of the algorithm: the bytes of "123456789".
known_vector :
    crc32_ieee (b'1' ∷ b'2' ∷ b'3' ∷ b'4' ∷ b'5' ∷ b'6' ∷ b'7' ∷ b'8' ∷ b'9' ∷ []) ≡ 0xCBF4_3926
unfolding crc32_ieee
known_vector = refl
