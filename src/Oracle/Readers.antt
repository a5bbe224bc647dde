-- ===== src/Oracle/Readers.antt =====
-- The oracle's reader against the journal's: one checksum, one record, whole files.
use Prim.Native.Nat.{bit_xor}
use lunet_locks.Prelude.{
  ℕ, zero, suc, ◌+◌, ◌/◌, ◌%◌, ◌^◌, ◌≡◌, refl, sym, ap, ◌∙◌, Bool, true, false, not, Option, none,
  some, List, [], ◌∷◌, map, arith, ◌==◌, ==_iff, if◌then◌else◌, length, take, drop, take-append,
  drop-append, append-nil, All,
}
use lunet_locks.Prelude.Bits.{bit_xor_comm}
use lunet_locks.Prelude.Bytes.{to_be, from_be, slice}
use lunet_locks.Prelude.Results.{ok}
use lunet_locks.Journal.Crc.{table_bit, table_bits, crc32_table, crc32_loop, crc32_ieee}
use lunet_locks.Journal.Record.{
  record_magic, record_size, record_payload_len, JournalEvent, encode, bytes_eq, event_at,
  parse_record,
}
use lunet_locks.Journal.RoundTrip.{IsEvent, length-encode, parse_record-encode}
use lunet_locks.Journal.FileParse.{encode_all, length-encode_all}
use lunet_locks.Oracle.Decode.{
  Transition, table_step, table_steps, oracle_loop, oracle_crc32, decode_record, decode_chunks,
  decode_file,
}

table_step-table_bit : (c : ℕ) → table_step c ≡ table_bit c
unfolding table_step table_bit
table_step-table_bit c = ground (arith, bit_xor_comm 0xEDB8_8320 (c / 2))

table_steps-table_bits : (j c : ℕ) → table_steps j c ≡ table_bits j c
unfolding table_steps table_bits
table_steps-table_bits zero c = refl
table_steps-table_bits (suc j) c =
    ap (table_steps j) (table_step-table_bit c) ∙ table_steps-table_bits j (table_bit c)

oracle_loop-crc32_loop : (bs : List ℕ) (c : ℕ) → oracle_loop c bs ≡ crc32_loop c bs
unfolding oracle_loop crc32_loop crc32_table
oracle_loop-crc32_loop [] c = refl
oracle_loop-crc32_loop (b ∷ bs) c =
    ap (λ t. oracle_loop (bit_xor (c / 2 ^ 8) t) bs) (table_steps-table_bits 8 (bit_xor c b % 256))
    ∙ oracle_loop-crc32_loop bs (bit_xor (c / 2 ^ 8) (table_bits 8 (bit_xor c b % 256)))

-- The oracle's checksum is the journal's.
pub oracle_crc32-crc32_ieee : (bs : List ℕ) → oracle_crc32 bs ≡ crc32_ieee bs
unfolding oracle_crc32 crc32_ieee
oracle_crc32-crc32_ieee bs = ap (λ c. bit_xor c 0xFFFF_FFFF) (oracle_loop-crc32_loop bs 0xFFFF_FFFF)

-- What the oracle keeps of an event: all but its time.
abbrev pub transition_of : JournalEvent → Transition
transition_of e = record {
  kind = e.kind;
  lock_id = e.lock_id;
  lease_id = e.lease_id;
  holder = e.holder;
  expiry = e.expiry;
}

abbrev guarded : Bool → Bool → Bool → Bool → JournalEvent × ℕ → Option (JournalEvent × ℕ)
guarded a b c d r =
    if a then none else if b then none else if c then none else if d then none else some r

passed :
    (a b c d : Bool) (x e : JournalEvent) (m n : ℕ)
    → guarded a b c d (x, m) ≡ some (e, n)
    → (b ≡ false) × (c ≡ false) × (x ≡ e)
passed true b c d x e m n h = cc
passed false true c d x e m n h = cc
passed false false true d x e m n h = cc
passed false false false true x e m n h = cc
passed false false false false x e m n h = (refl, refl, cc)

parse_record-inverse :
    (bytes : List ℕ) (e : JournalEvent) (n : ℕ)
    → parse_record bytes ≡ some (e, n)
    → (bytes_eq (slice 0 4 bytes) record_magic ≡ true)
      × (from_be (slice 57 4 bytes) ≡ crc32_ieee (slice 8 49 bytes))
      × (event_at bytes ≡ e)
unfolding parse_record
parse_record-inverse bytes e n h =
    let (magic, crc, at) = passed _ _ _ _ (event_at bytes) e record_size n h in
    (was_true _ magic, (==_iff _ _).0 (was_true _ crc), at)
  where
    was_true : (b : Bool) → not b ≡ false → b ≡ true
    was_true b h = ground arith

-- A record that the journal's reader accepts, with the payload length that the writer gives it, is
-- accepted by the oracle's reader, which reads the same event.
pub decode_record-parse_record :
    (index : ℕ) (bytes : List ℕ) (e : JournalEvent) (n : ℕ)
    → parse_record bytes ≡ some (e, n)
    → from_be (slice 4 4 bytes) ≡ record_payload_len
    → decode_record index bytes ≡ ok (transition_of e)
unfolding decode_record event_at
decode_record-parse_record index bytes e n h k =
    let (magic, crc, at) = parse_record-inverse bytes e n h in
    let same : oracle_crc32 (slice 8 49 bytes) ≡ from_be (slice 57 4 bytes) =
      oracle_crc32-crc32_ieee (slice 8 49 bytes) ∙ sym crc in
    rw (magic, k, (==_iff _ _).1 same) (ap (λ x. ok (transition_of x)) at)

payload_length-encode : (e : JournalEvent) → from_be (slice 4 4 (encode e)) ≡ record_payload_len
unfolding encode from_be to_be
payload_length-encode e = refl

decode_record-encode :
    (index : ℕ) (e : JournalEvent)
    → IsEvent e
    → decode_record index (encode e) ≡ ok (transition_of e)
decode_record-encode index e v =
    decode_record-parse_record index (encode e) e record_size
      (rw append-nil at (parse_record-encode e [] v)) (payload_length-encode e)

decode_chunks-cons :
    (n index : ℕ) (bytes : List ℕ) (t : Transition) (ts : List Transition)
    → decode_record index (take 61 bytes) ≡ ok t
    → decode_chunks n (index + 1) (drop 61 bytes) ≡ ok ts
    → decode_chunks (suc n) index bytes ≡ ok (t ∷ ts)
unfolding decode_chunks
decode_chunks-cons n index bytes t ts h k = rw (h, k)

decode_chunks-encode_all :
    (es : List JournalEvent) (index : ℕ)
    → All IsEvent es
    → decode_chunks (length es) index (encode_all es) ≡ ok (map transition_of es)
decode_chunks-encode_all [] index v = unfold decode_chunks in refl
decode_chunks-encode_all (e ∷ es) index v =
    let n = length-encode e v.0.holder_width in
    decode_chunks-cons (length es) index (encode_all (e ∷ es)) (transition_of e)
      (map transition_of es)
      (ap (decode_record index) (take-append 61 (encode e) (encode_all es) n)
        ∙ decode_record-encode index e v.0)
      (ap (decode_chunks (length es) (index + 1)) (drop-append 61 (encode e) (encode_all es) n)
        ∙ decode_chunks-encode_all es (index + 1) v.1)

-- A file of encoded events, of fields that have their widths, is decoded by the oracle to their
-- transitions, in order and all of them.
pub decode_file-encode_all :
    (es : List JournalEvent)
    → All IsEvent es
    → decode_file (encode_all es) ≡ ok (map transition_of es)
unfolding decode_file
decode_file-encode_all es v =
    let n = length-encode_all es v in
    let whole : not (length (encode_all es) % record_size == 0) ≡ false = ground (arith, n) in
    let count : length (encode_all es) / record_size ≡ length es = omega (arith, n) in
    rw (whole, count) (decode_chunks-encode_all es 0 v)
