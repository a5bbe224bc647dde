-- ===== src/Journal/RoundTrip.antt =====
-- What is encoded is parsed back.
use lunet_locks.Prelude.{
  ℕ, zero, suc, ◌≤◌, ◌<◌, ◌^◌, ◌≡◌, refl, ap, ◌∙◌, true, false, some, List, [], ◌∷◌, ◌++◌,
  append_assoc, arith, ltb, length, take, drop, take-append, length-append,
}
use lunet_locks.Prelude.Bytes.{to_be, from_be, slice, length-to_be, from_be-to_be, drop_step}
use lunet_locks.Journal.Crc.{crc32_ieee, crc32_ieee-lt}
use lunet_locks.Journal.Record.{
  record_magic, record_size, record_payload_len, JournalEvent, event_fields, encode, bytes_eq,
  byte_at, is_kind, event_at, parse_record,
}

pub bytes_eq_refl : (xs : List ℕ) → bytes_eq xs xs ≡ true
unfolding bytes_eq
bytes_eq_refl [] = refl
bytes_eq_refl (x ∷ xs) = ground (arith, bytes_eq_refl xs)

-- The fields have the widths of their Rust types, and the kind is one of the four.
pub record IsEvent (e : JournalEvent) : Type 0 where
  pub kind_known : is_kind e.kind ≡ true
  pub ts_fits : e.ts < 256 ^ 8
  pub lock_id_fits : e.lock_id < 256 ^ 8
  pub lease_id_fits : e.lease_id < 256 ^ 8
  pub holder_width : length e.holder ≡ 16
  pub expiry_fits : e.expiry < 256 ^ 8

pub length-event_fields : (e : JournalEvent) → length e.holder ≡ 16 → length (event_fields e) ≡ 49
unfolding event_fields
length-event_fields e h = omega (
  arith,
  length-append (to_be 8 e.ts)
      (to_be 8 e.lock_id ++ (to_be 8 e.lease_id ++ (e.holder ++ to_be 8 e.expiry))),
  length-append (to_be 8 e.lock_id) (to_be 8 e.lease_id ++ (e.holder ++ to_be 8 e.expiry)),
  length-append (to_be 8 e.lease_id) (e.holder ++ to_be 8 e.expiry),
  length-append e.holder (to_be 8 e.expiry),
  length-to_be 8 e.ts,
  length-to_be 8 e.lock_id,
  length-to_be 8 e.lease_id,
  length-to_be 8 e.expiry,
)

pub length-encode : (e : JournalEvent) → length e.holder ≡ 16 → length (encode e) ≡ 61
unfolding encode
length-encode e h = omega (
  arith,
  length-append (to_be 4 record_payload_len)
      (event_fields e ++ to_be 4 (crc32_ieee (event_fields e))),
  length-append (event_fields e) (to_be 4 (crc32_ieee (event_fields e))),
  length-event_fields e h,
  length-to_be 4 record_payload_len,
  length-to_be 4 (crc32_ieee (event_fields e)),
)

-- The pieces of an encoded record with any bytes behind it, from the last one back.
abbrev behind_expiry : JournalEvent → List ℕ → List ℕ
behind_expiry e rest = to_be 4 (crc32_ieee (event_fields e)) ++ rest

abbrev behind_holder : JournalEvent → List ℕ → List ℕ
behind_holder e rest = to_be 8 e.expiry ++ behind_expiry e rest

abbrev behind_lease : JournalEvent → List ℕ → List ℕ
behind_lease e rest = e.holder ++ behind_holder e rest

abbrev behind_lock : JournalEvent → List ℕ → List ℕ
behind_lock e rest = to_be 8 e.lease_id ++ behind_lease e rest

abbrev behind_ts : JournalEvent → List ℕ → List ℕ
behind_ts e rest = to_be 8 e.lock_id ++ behind_lock e rest

abbrev behind_kind : JournalEvent → List ℕ → List ℕ
behind_kind e rest = to_be 8 e.ts ++ behind_ts e rest

encode-pieces :
    (e : JournalEvent) (rest : List ℕ)
    → encode e ++ rest
      ≡ record_magic ++ (to_be 4 record_payload_len ++ (e.kind ∷ behind_kind e rest))
unfolding encode event_fields
encode-pieces e rest = simp append_assoc

encode-body :
    (e : JournalEvent) (rest : List ℕ)
    → encode e ++ rest
      ≡ record_magic ++ (to_be 4 record_payload_len ++ (event_fields e ++ behind_expiry e rest))
unfolding encode
encode-body e rest = simp append_assoc

byte_at-drop :
    (i : ℕ) (xs : List ℕ) (b : ℕ) (post : List ℕ) → drop i xs ≡ (b ∷ []) ++ post → byte_at i xs ≡ b
byte_at-drop zero [] b post h = cc
byte_at-drop zero (x ∷ xs) b post h = ground arith
byte_at-drop (suc i) [] b post h = cc
byte_at-drop (suc i) (x ∷ xs) b post h = byte_at-drop i xs b post h

drop_8-encode :
    (e : JournalEvent) (rest : List ℕ)
    → drop 8 (encode e ++ rest) ≡ (e.kind ∷ []) ++ behind_kind e rest
drop_8-encode e rest =
    let p : drop 4 (encode e ++ rest)
        ≡ to_be 4 record_payload_len ++ (e.kind ∷ behind_kind e rest) =
      ap (drop 4) (encode-pieces e rest) in
    drop_step 4 4 (encode e ++ rest) _ _ p (length-to_be 4 record_payload_len)

kind_at-encode : (e : JournalEvent) (rest : List ℕ) → byte_at 8 (encode e ++ rest) ≡ e.kind
kind_at-encode e rest = byte_at-drop 8 (encode e ++ rest) e.kind _ (drop_8-encode e rest)

-- The event read at the encoded record's places is the event.
event_at-encode : (e : JournalEvent) (rest : List ℕ) → IsEvent e → event_at (encode e ++ rest) ≡ e
unfolding event_at
event_at-encode e rest v =
    let bs : List ℕ = encode e ++ rest in
    let t : drop 9 bs ≡ behind_kind e rest =
      drop_step 8 1 bs (e.kind ∷ []) _ (drop_8-encode e rest) refl in
    let l : drop 17 bs ≡ behind_ts e rest = drop_step 9 8 bs _ _ t (length-to_be 8 e.ts) in
    let i' : drop 25 bs ≡ behind_lock e rest = drop_step 17 8 bs _ _ l (length-to_be 8 e.lock_id) in
    let h : drop 33 bs ≡ behind_lease e rest =
      drop_step 25 8 bs _ _ i' (length-to_be 8 e.lease_id) in
    let x : drop 49 bs ≡ behind_holder e rest = drop_step 33 16 bs _ _ h v.holder_width in
    λ i. record {
      kind = kind_at-encode e rest i;
      ts = (ap (λ ys. from_be (take 8 ys)) t ∙ read 8 e.ts (behind_ts e rest) v.ts_fits) i;
      lock_id =
          (ap (λ ys. from_be (take 8 ys)) l ∙ read 8 e.lock_id (behind_lock e rest) v.lock_id_fits)
            i;
      lease_id =
          (ap (λ ys. from_be (take 8 ys)) i'
              ∙ read 8 e.lease_id (behind_lease e rest) v.lease_id_fits)
            i;
      holder = (ap (take 16) h ∙ take-append 16 e.holder _ v.holder_width) i;
      expiry =
          (ap (λ ys. from_be (take 8 ys)) x ∙ read 8 e.expiry (behind_expiry e rest) v.expiry_fits)
            i;
    }
  where
    read : (w n : ℕ) (ys : List ℕ) → n < 256 ^ w → from_be (take w (to_be w n ++ ys)) ≡ n
    read w n ys lt = rw (take-append w (to_be w n) ys (length-to_be w n)) (from_be-to_be w n lt)

crc_at-encode :
    (e : JournalEvent) (rest : List ℕ)
    → length e.holder ≡ 16
    → (from_be (slice 57 4 (encode e ++ rest)) ≡ crc32_ieee (event_fields e))
      × (slice 8 49 (encode e ++ rest) ≡ event_fields e)
crc_at-encode e rest h =
    let bs : List ℕ = encode e ++ rest in
    let p : drop 4 bs ≡ to_be 4 record_payload_len ++ (event_fields e ++ behind_expiry e rest) =
      ap (drop 4) (encode-body e rest) in
    let k : drop 8 bs ≡ event_fields e ++ behind_expiry e rest =
      drop_step 4 4 bs _ _ p (length-to_be 4 record_payload_len) in
    let c : drop 57 bs ≡ behind_expiry e rest = drop_step 8 49 bs _ _ k (length-event_fields e h) in
    (
      ap (λ ys. from_be (take 4 ys)) c
          ∙ rw (take-append 4 (to_be 4 (crc32_ieee (event_fields e))) rest (length-to_be 4 _))
              (from_be-to_be 4 _ (crc32_ieee-lt (event_fields e))),
      ap (take 49) k ∙ take-append 49 (event_fields e) _ (length-event_fields e h),
    )

-- An encoded event, whatever bytes follow it, is parsed back, and consumes its 61 bytes.
pub parse_record-encode :
    (e : JournalEvent) (rest : List ℕ)
    → IsEvent e
    → parse_record (encode e ++ rest) ≡ some (e, record_size)
unfolding parse_record
parse_record-encode e rest v =
    let magic : bytes_eq (slice 0 4 (encode e ++ rest)) record_magic ≡ true =
      rw (encode-pieces e rest) (bytes_eq_refl record_magic) in
    let (crc, body) = crc_at-encode e rest v.holder_width in
    let at : event_at (encode e ++ rest) ≡ e = event_at-encode e rest v in
    let long : ltb (length (encode e ++ rest)) record_size ≡ false =
      not_short _ (omega (arith, length-append (encode e) rest, length-encode e v.holder_width)) in
    rw (long, magic, crc, body, kind_at-encode e rest, v.kind_known, at) (ground arith)
  where
    not_short : (n : ℕ) → 61 ≤ n → ltb n record_size ≡ false
    not_short n h = ground arith
