-- ===== src/Journal/MetaFile.antt =====
-- The metafile's round trip.
use lunet_locks.Prelude.{
  ℕ, ◌≤◌, ◌<◌, ◌^◌, ◌≡◌, ap, ◌∙◌, true, false, some, List, ◌++◌, append_assoc, arith, ltb, length,
  take, drop, take-append, length-append,
}
use lunet_locks.Prelude.Bytes.{to_be, from_be, slice, length-to_be, from_be-to_be, drop_step}
use lunet_locks.Journal.Record.{meta_magic, meta_size, bytes_eq, Meta, encode_meta, decode_meta}
use lunet_locks.Journal.RoundTrip.{bytes_eq_refl}

-- The fields have the widths of their Rust types.
pub record IsMeta (m : Meta) : Type 0 where
  pub op_min_fits : m.op_min < 256 ^ 8
  pub op_max_fits : m.op_max < 256 ^ 8
  pub expiry_min_fits : m.expiry_min < 256 ^ 8
  pub expiry_max_fits : m.expiry_max < 256 ^ 8
  pub count_fits : m.count < 256 ^ 4

read : (w n : ℕ) (ys : List ℕ) → n < 256 ^ w → from_be (take w (to_be w n ++ ys)) ≡ n
read w n ys lt = rw (take-append w (to_be w n) ys (length-to_be w n)) (from_be-to_be w n lt)

abbrev tail_4 : Meta → List ℕ → List ℕ
tail_4 m rest = to_be 4 m.count ++ rest

abbrev tail_3 : Meta → List ℕ → List ℕ
tail_3 m rest = to_be 8 m.expiry_max ++ tail_4 m rest

abbrev tail_2 : Meta → List ℕ → List ℕ
tail_2 m rest = to_be 8 m.expiry_min ++ tail_3 m rest

abbrev tail_1 : Meta → List ℕ → List ℕ
tail_1 m rest = to_be 8 m.op_max ++ tail_2 m rest

encode_meta-pieces :
    (m : Meta) (rest : List ℕ)
    → encode_meta m ++ rest ≡ meta_magic ++ (to_be 8 m.op_min ++ tail_1 m rest)
unfolding encode_meta
encode_meta-pieces m rest = simp append_assoc

length-encode_meta : (m : Meta) → length (encode_meta m) ≡ 40
unfolding encode_meta
length-encode_meta m = omega (
  arith,
  length-append (to_be 8 m.op_min)
      (to_be 8 m.op_max ++ (to_be 8 m.expiry_min ++ (to_be 8 m.expiry_max ++ to_be 4 m.count))),
  length-append (to_be 8 m.op_max)
      (to_be 8 m.expiry_min ++ (to_be 8 m.expiry_max ++ to_be 4 m.count)),
  length-append (to_be 8 m.expiry_min) (to_be 8 m.expiry_max ++ to_be 4 m.count),
  length-append (to_be 8 m.expiry_max) (to_be 4 m.count),
  length-to_be 8 m.op_min,
  length-to_be 8 m.op_max,
  length-to_be 8 m.expiry_min,
  length-to_be 8 m.expiry_max,
  length-to_be 4 m.count,
)

-- An encoded metafile, whatever bytes follow it, decodes to what was encoded.
pub decode_meta-encode :
    (m : Meta) (rest : List ℕ) → IsMeta m → decode_meta (encode_meta m ++ rest) ≡ some m
unfolding decode_meta
decode_meta-encode m rest v =
    let bs : List ℕ = encode_meta m ++ rest in
    let a : drop 4 bs ≡ to_be 8 m.op_min ++ tail_1 m rest =
      ap (drop 4) (encode_meta-pieces m rest) in
    let b : drop 12 bs ≡ tail_1 m rest = drop_step 4 8 bs _ _ a (length-to_be 8 m.op_min) in
    let c : drop 20 bs ≡ tail_2 m rest = drop_step 12 8 bs _ _ b (length-to_be 8 m.op_max) in
    let d : drop 28 bs ≡ tail_3 m rest = drop_step 20 8 bs _ _ c (length-to_be 8 m.expiry_min) in
    let f : drop 36 bs ≡ tail_4 m rest = drop_step 28 8 bs _ _ d (length-to_be 8 m.expiry_max) in
    let long : ltb (length bs) meta_size ≡ false =
      not_short _ (omega (arith, length-append (encode_meta m) rest, length-encode_meta m)) in
    let magic : bytes_eq (slice 0 4 bs) meta_magic ≡ true =
      rw (encode_meta-pieces m rest) (bytes_eq_refl meta_magic) in
    rw (long, magic)
      (ap some (λ i. record {
        op_min =
            (ap (λ ys. from_be (take 8 ys)) a ∙ read 8 m.op_min (tail_1 m rest) v.op_min_fits) i;
        op_max =
            (ap (λ ys. from_be (take 8 ys)) b ∙ read 8 m.op_max (tail_2 m rest) v.op_max_fits) i;
        expiry_min =
            (ap (λ ys. from_be (take 8 ys)) c
                ∙ read 8 m.expiry_min (tail_3 m rest) v.expiry_min_fits)
              i;
        expiry_max =
            (ap (λ ys. from_be (take 8 ys)) d
                ∙ read 8 m.expiry_max (tail_4 m rest) v.expiry_max_fits)
              i;
        count = (ap (λ ys. from_be (take 4 ys)) f ∙ read 4 m.count rest v.count_fits) i;
      }))
  where
    not_short : (n : ℕ) → 40 ≤ n → ltb n meta_size ≡ false
    not_short n h = ground arith
