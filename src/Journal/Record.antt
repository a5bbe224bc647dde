-- ===== src/Journal/Record.antt =====
-- The 61-byte event records and the 40-byte metafiles: encoding and parsing.
use lunet_locks.Prelude.{
  ℕ, zero, suc, Bool, true, false, not, ◌&&◌, ◌||◌, Option, none, some, List, [], ◌∷◌, ◌++◌, ltb,
  ◌==◌, if◌then◌else◌, length, drop,
}
use lunet_locks.Prelude.Bytes.{to_be, from_be, slice}
use lunet_locks.Journal.Crc.{crc32_ieee}

-- "LKE1", "LKM1"
abbrev pub record_magic : List ℕ
record_magic = b'L' ∷ b'K' ∷ b'E' ∷ b'1' ∷ []

abbrev pub meta_magic : List ℕ
meta_magic = b'L' ∷ b'K' ∷ b'M' ∷ b'1' ∷ []

abbrev pub record_size : ℕ
record_size = 61

abbrev pub meta_size : ℕ
meta_size = 40

abbrev pub record_payload_len : ℕ
record_payload_len = 53

abbrev pub kind_hold : ℕ
kind_hold = 1

abbrev pub kind_renew : ℕ
kind_renew = 2

abbrev pub kind_release : ℕ
kind_release = 3

abbrev pub kind_break : ℕ
kind_break = 4

pub record JournalEvent : Type 0 where
  pub kind : ℕ
  pub ts : ℕ
  pub lock_id : ℕ
  pub lease_id : ℕ
  pub holder : List ℕ
  pub expiry : ℕ

-- `buf[8..57]`, what the checksum covers.
unfoldable pub event_fields : JournalEvent → List ℕ
event_fields e =
    e.kind
    ∷ (to_be 8 e.ts
        ++ (to_be 8 e.lock_id ++ (to_be 8 e.lease_id ++ (e.holder ++ to_be 8 e.expiry))))

unfoldable pub encode : JournalEvent → List ℕ
encode e =
    record_magic
    ++ (to_be 4 record_payload_len ++ (event_fields e ++ to_be 4 (crc32_ieee (event_fields e))))

-- `==` of byte slices.
unfoldable pub bytes_eq : List ℕ → List ℕ → Bool
bytes_eq [] [] = true
bytes_eq (x ∷ xs) (y ∷ ys) = x == y && bytes_eq xs ys
bytes_eq _ _ = false

-- `data[i]`, where the length was tested before.
abbrev pub byte_at : ℕ → List ℕ → ℕ
byte_at i [] = 0
byte_at zero (x ∷ xs) = x
byte_at (suc i) (x ∷ xs) = byte_at i xs

unfoldable pub is_kind : ℕ → Bool
is_kind k = k == kind_hold || (k == kind_renew || (k == kind_release || k == kind_break))

unfoldable pub event_at : List ℕ → JournalEvent
event_at bytes = record {
  kind = byte_at 8 bytes;
  ts = from_be (slice 9 8 bytes);
  lock_id = from_be (slice 17 8 bytes);
  lease_id = from_be (slice 25 8 bytes);
  holder = slice 33 16 bytes;
  expiry = from_be (slice 49 8 bytes);
}

unfoldable pub parse_record : List ℕ → Option (JournalEvent × ℕ)
parse_record bytes =
    if ltb (length bytes) record_size
    then none
    else if not (bytes_eq (slice 0 4 bytes) record_magic)
    then none
    else if not (from_be (slice 57 4 bytes) == crc32_ieee (slice 8 49 bytes))
    then none
    else if not (is_kind (byte_at 8 bytes))
    then none
    else some (event_at bytes, record_size)

-- The loop of `parse_file`, on the bytes from the current offset on. The fuel is the number of bytes;
-- every record consumes 61 of them.
unfoldable pub parse_from : ℕ → List ℕ → List JournalEvent
parse_from zero bytes = []
parse_from (suc fuel) bytes =
    if ltb (length bytes) record_size
    then []
    else elim (parse_record bytes) [ some (e, n) ↦ e ∷ parse_from fuel (drop n bytes) | none ↦ [] ]

unfoldable pub parse_file : List ℕ → List JournalEvent
parse_file bytes = parse_from (length bytes) bytes

pub record Meta : Type 0 where
  pub op_min : ℕ
  pub op_max : ℕ
  pub expiry_min : ℕ
  pub expiry_max : ℕ
  pub count : ℕ

unfoldable pub encode_meta : Meta → List ℕ
encode_meta m =
    meta_magic
    ++ (to_be 8 m.op_min
        ++ (to_be 8 m.op_max
            ++ (to_be 8 m.expiry_min ++ (to_be 8 m.expiry_max ++ to_be 4 m.count))))

unfoldable pub decode_meta : List ℕ → Option Meta
decode_meta bytes =
    if ltb (length bytes) meta_size
    then none
    else if not (bytes_eq (slice 0 4 bytes) meta_magic)
    then none
    else some (record {
      op_min = from_be (slice 4 8 bytes);
      op_max = from_be (slice 12 8 bytes);
      expiry_min = from_be (slice 20 8 bytes);
      expiry_max = from_be (slice 28 8 bytes);
      count = from_be (slice 36 4 bytes);
    })
