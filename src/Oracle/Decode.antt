-- ===== src/Oracle/Decode.antt =====
-- The oracle's own reader of journal files, with its own checksum. A file is its bytes.
use Prim.Native.Nat.{bit_xor}
use lunet_locks.Prelude.{
  ℕ, zero, suc, ◌+◌, ◌/◌, ◌%◌, ◌^◌, not, List, [], ◌∷◌, ◌==◌, if◌then◌else◌, length, take, drop,
}
use lunet_locks.Prelude.Bytes.{from_be, slice}
use lunet_locks.Prelude.Results.{Result, ok, err, ◌>>=◌}
use lunet_locks.Journal.Record.{record_magic, record_size, record_payload_len, bytes_eq, byte_at}

pub record Transition : Type 0 where
  pub kind : ℕ
  pub lock_id : ℕ
  pub lease_id : ℕ
  pub holder : List ℕ
  pub expiry : ℕ

unfoldable pub table_step : ℕ → ℕ
table_step crc = if not (crc % 2 == 0) then bit_xor 0xEDB8_8320 (crc / 2) else crc / 2

unfoldable pub table_steps : ℕ → ℕ → ℕ
unfolding table_step
table_steps zero crc = crc
table_steps (suc j) crc = table_steps j (table_step crc)

unfoldable pub oracle_loop : ℕ → List ℕ → ℕ
unfolding table_steps
oracle_loop crc [] = crc
oracle_loop crc (b ∷ bs) =
    oracle_loop (bit_xor (crc / 2 ^ 8) (table_steps 8 (bit_xor crc b % 256))) bs

-- `crc32_ieee` of the oracle.
unfoldable pub oracle_crc32 : List ℕ → ℕ
unfolding oracle_loop
oracle_crc32 bytes = bit_xor (oracle_loop 0xFFFF_FFFF bytes) 0xFFFF_FFFF

-- The refusals, with the file's length or the record's index.
pub data DecodeError : Type 0 where
  trailing_partial bad_magic bad_payload_length bad_crc : ℕ → DecodeError

unfoldable pub decode_record : ℕ → List ℕ → Result DecodeError Transition
decode_record index bytes =
    if not (bytes_eq (slice 0 4 bytes) record_magic)
    then err (bad_magic index)
    else if not (from_be (slice 4 4 bytes) == record_payload_len)
    then err (bad_payload_length index)
    else if not (oracle_crc32 (slice 8 49 bytes) == from_be (slice 57 4 bytes))
    then err (bad_crc index)
    else ok (record {
      kind = byte_at 8 bytes;
      lock_id = from_be (slice 17 8 bytes);
      lease_id = from_be (slice 25 8 bytes);
      holder = slice 33 16 bytes;
      expiry = from_be (slice 49 8 bytes);
    })

-- The loop over `chunks_exact`, with the number of chunks left.
unfoldable pub decode_chunks : ℕ → ℕ → List ℕ → Result DecodeError (List Transition)
decode_chunks zero index bytes = ok []
decode_chunks (suc n) index bytes = do
  t ← decode_record index (take 61 bytes)
  ts ← decode_chunks n (index + 1) (drop 61 bytes)
  ok (t ∷ ts)

unfoldable pub decode_file : List ℕ → Result DecodeError (List Transition)
decode_file bytes =
    if not (length bytes % record_size == 0)
    then err (trailing_partial (length bytes))
    else decode_chunks (length bytes / record_size) 0 bytes
