-- ===== src/Membership/RoundTrip.antt =====
-- A snapshot that is encoded is decoded to itself.
use lunet_locks.Prelude.{
  ℕ, suc, ◌+◌, ◌≤◌, ◌<◌, ◌^◌, ◌≡◌, refl, sym, ap, ◌∙◌, Bool, true, false, not, ◌&&◌, some, List, [],
  ◌∷◌, ◌++◌, append_assoc, append-nil, arith, ltb, leb, length, take, drop, all, All, take-append,
  drop-append, length-append, &&-elim,
}
use lunet_locks.Prelude.Bytes.{to_be, from_be, slice, length-to_be, from_be-to_be, drop_step}
use lunet_locks.Membership.Text.{is_utf8}
use lunet_locks.Membership.Snapshot.{SnapshotMember, Snapshot, valid_endpoint, ascending}
use lunet_locks.Membership.Wire.{
  snapshot_response, max_members, encode_member, encode_members, encode_response, decode_member,
  decode_members, decode_response,
}

-- The member's fields fit their types, and its endpoint is a string whose length fits 16 bits.
pub record IsMember (m : SnapshotMember) : Type 0 where
  pub id_fits : m.id < 256 ^ 4
  pub weight_fits : m.weight < 256 ^ 4
  pub endpoint_fits : length m.endpoint < 256 ^ 2
  pub utf8 : is_utf8 m.endpoint ≡ true
  pub valid : valid_endpoint m.endpoint ≡ true

pub record IsSnapshot (s : Snapshot) : Type 0 where
  pub era_fits : s.era < 256 ^ 4
  pub slot_fits : s.slot < 256 ^ 8
  pub some_members : 1 ≤ length s.members
  pub few_members : length s.members ≤ 16
  pub in_order : ascending s.members ≡ true
  pub each : All IsMember s.members

read : (w n : ℕ) (ys : List ℕ) → n < 256 ^ w → from_be (take w (to_be w n ++ ys)) ≡ n
read w n ys lt = rw (take-append w (to_be w n) ys (length-to_be w n)) (from_be-to_be w n lt)

member_pieces :
    (m : SnapshotMember) (rest : List ℕ)
    → encode_member m ++ rest
      ≡ to_be 4 m.id ++ (to_be 4 m.weight ++ (to_be 2 (length m.endpoint) ++ (m.endpoint ++ rest)))
member_pieces m rest = simp append_assoc

length-encode_member :
    (m : SnapshotMember) (rest : List ℕ)
    → length (encode_member m ++ rest) ≡ 10 + length m.endpoint + length rest
length-encode_member m rest = omega (
  arith,
  length-append (encode_member m) rest,
  length-append (to_be 4 m.id) (to_be 4 m.weight ++ (to_be 2 (length m.endpoint) ++ m.endpoint)),
  length-append (to_be 4 m.weight) (to_be 2 (length m.endpoint) ++ m.endpoint),
  length-append (to_be 2 (length m.endpoint)) m.endpoint,
  length-to_be 4 m.id,
  length-to_be 4 m.weight,
  length-to_be 2 (length m.endpoint),
)

pub decode_member-encode :
    (m : SnapshotMember) (rest : List ℕ)
    → IsMember m
    → decode_member (encode_member m ++ rest) ≡ some (m, rest)
unfolding decode_member
decode_member-encode m rest v =
    let bs : List ℕ = encode_member m ++ rest in
    let n : ℕ = length m.endpoint in
    let p : bs ≡ to_be 4 m.id ++ (to_be 4 m.weight ++ (to_be 2 n ++ (m.endpoint ++ rest))) =
      member_pieces m rest in
    let w : drop 4 bs ≡ to_be 4 m.weight ++ (to_be 2 n ++ (m.endpoint ++ rest)) =
      ap (drop 4) p ∙ drop-append 4 (to_be 4 m.id) _ (length-to_be 4 m.id) in
    let l : drop 8 bs ≡ to_be 2 n ++ (m.endpoint ++ rest) =
      drop_step 4 4 bs _ _ w (length-to_be 4 m.weight) in
    let e : drop 10 bs ≡ m.endpoint ++ rest = drop_step 8 2 bs _ _ l (length-to_be 2 n) in
    let r : drop (10 + n) bs ≡ rest = drop_step 10 n bs _ _ e refl in
    let len : from_be (slice 8 2 bs) ≡ n =
      ap (λ ys. from_be (take 2 ys)) l ∙ read 2 n (m.endpoint ++ rest) v.endpoint_fits in
    let str : slice 10 n bs ≡ m.endpoint = ap (take n) e ∙ take-append n m.endpoint rest refl in
    let (head, whole) = long (length bs) n (length rest) (length-encode_member m rest) in
    rw (len, head, whole, str, v.utf8, r)
      (ap some (λ i. (
        record {
          id = (ap (λ ys. from_be (take 4 ys)) p ∙ read 4 m.id _ v.id_fits) i;
          weight = (ap (λ ys. from_be (take 4 ys)) w ∙ read 4 m.weight _ v.weight_fits) i;
          endpoint = m.endpoint;
        },
        rest,
      )))
  where
    long : (a n r : ℕ) → a ≡ 10 + n + r → (ltb a 10 ≡ false) × (ltb a (10 + n) ≡ false)
    long a n r h = (ground arith, ground arith)

-- Every member stands behind the one before it.
after : ℕ → ℕ → List SnapshotMember → Bool
after index previous [] = true
after index previous (m ∷ ms) = not (ltb 0 index && leb m.id previous) && after (suc index) m.id ms

after-ascending :
    (index : ℕ) (m : SnapshotMember) (ms : List SnapshotMember)
    → ascending (m ∷ ms) ≡ true
    → after (suc index) m.id ms ≡ true
unfolding after
after-ascending index m [] h = refl
after-ascending index m (n ∷ ms) h =
    let (lt, rest) = &&-elim (ltb m.id n.id) (ascending (n ∷ ms)) h in
    rw (after-ascending (suc index) n ms rest) (ground arith)

decode_members-step :
    (left index previous : ℕ) (m : SnapshotMember) (ms : List SnapshotMember)
    (bytes rest end : List ℕ)
    → decode_member bytes ≡ some (m, rest)
    → not (ltb 0 index && leb m.id previous) ≡ true
    → valid_endpoint m.endpoint ≡ true
    → decode_members left (suc index) m.id rest ≡ some (ms, end)
    → decode_members (suc left) index previous bytes ≡ some (m ∷ ms, end)
unfolding decode_members
decode_members-step left index previous m ms bytes rest end d o v r =
    let behind : (ltb 0 index && leb m.id previous) ≡ false = ground arith in
    rw (d, decode_members, behind, v, r)

decode_members-encode :
    (ms : List SnapshotMember) (index previous : ℕ) (rest : List ℕ)
    → All IsMember ms
    → after index previous ms ≡ true
    → decode_members (length ms) index previous (encode_members ms ++ rest) ≡ some (ms, rest)
unfolding after
decode_members-encode [] index previous rest v o = unfold decode_members in refl
decode_members-encode (m ∷ ms) index previous rest v o =
    let (here, later) = &&-elim _ _ o in
    let d : decode_member ((encode_member m ++ encode_members ms) ++ rest)
        ≡ some (m, encode_members ms ++ rest) =
      ap decode_member (append_assoc (encode_member m) (encode_members ms) rest)
      ∙ decode_member-encode m (encode_members ms ++ rest) v.0 in
    decode_members-step (length ms) index previous m ms _ (encode_members ms ++ rest) rest d here
      v.0.valid (decode_members-encode ms (suc index) m.id rest v.1 later)

all_valid :
    (ms : List SnapshotMember) → All IsMember ms → all (λ m. valid_endpoint m.endpoint) ms ≡ true
all_valid [] v = refl
all_valid (m ∷ ms) v = rw (v.0.valid, all_valid ms v.1)

abbrev response_bytes : Snapshot → List ℕ
response_bytes s =
    snapshot_response
    ∷ (to_be 4 s.era
        ++ (to_be 8 s.slot ++ (to_be 2 (length s.members) ++ encode_members s.members)))

decode-response_bytes : (s : Snapshot) → IsSnapshot s → decode_response (response_bytes s) ≡ some s
unfolding decode_response after
decode-response_bytes s v =
    let bs : List ℕ = response_bytes s in
    let n : ℕ = length s.members in
    let sl : drop 5 bs ≡ to_be 8 s.slot ++ (to_be 2 n ++ encode_members s.members) =
      drop-append 4 (to_be 4 s.era) _ (length-to_be 4 s.era) in
    let c : drop 13 bs ≡ to_be 2 n ++ encode_members s.members =
      drop_step 5 8 bs _ _ sl (length-to_be 8 s.slot) in
    let ms : drop 15 bs ≡ encode_members s.members = drop_step 13 2 bs _ _ c (length-to_be 2 n) in
    let era_read : from_be (slice 1 4 bs) ≡ s.era = read 4 s.era _ v.era_fits in
    let slot_read : from_be (slice 5 8 bs) ≡ s.slot =
      ap (λ ys. from_be (take 8 ys)) sl ∙ read 8 s.slot _ v.slot_fits in
    let count_read : from_be (slice 13 2 bs) ≡ n =
      ap (λ ys. from_be (take 2 ys)) c ∙ read 2 n _ (omega (arith, v.few_members)) in
    let members_read : decode_members n 0 0 (encode_members s.members) ≡ some (s.members, []) =
      ap (decode_members n 0 0) (sym (append-nil (encode_members s.members)))
      ∙ decode_members-encode s.members 0 0 [] v.each (first s.members v.in_order) in
    rw (
      count_read,
      long (length bs) (length (encode_members s.members)) (
          omega (
            arith,
            length-append (to_be 4 s.era)
                (to_be 8 s.slot ++ (to_be 2 n ++ encode_members s.members)),
            length-append (to_be 8 s.slot) (to_be 2 n ++ encode_members s.members),
            length-append (to_be 2 n) (encode_members s.members),
            length-to_be 4 s.era,
            length-to_be 8 s.slot,
            length-to_be 2 n,
          )),
      in_range n v.some_members v.few_members,
      era_read,
      slot_read,
      ms,
      members_read,
    )
  where
    long : (a n : ℕ) → a ≡ 15 + n → ltb a 15 ≡ false
    long a n h = ground arith

    in_range : (n : ℕ) → 1 ≤ n → n ≤ 16 → (leb 1 n && leb n max_members) ≡ true
    in_range n h k = ground arith

    first : (ms : List SnapshotMember) → ascending ms ≡ true → after 0 0 ms ≡ true
    first [] h = unfold after in refl
    first (m ∷ ms) h = unfold after in after-ascending 0 m ms h

-- A snapshot of 1 to 16 valid members in ascending order is encoded, and the bytes are decoded to
-- the same snapshot.
pub decode_response-encode :
    (s : Snapshot)
    → IsSnapshot s
    → (bytes : List ℕ) × (encode_response s ≡ some bytes) × (decode_response bytes ≡ some s)
unfolding encode_response
decode_response-encode s v = (
  response_bytes s,
  rw (count_ok _ v.some_members v.few_members, v.in_order, all_valid s.members v.each),
  decode-response_bytes s v,
)
  where
    count_ok : (n : ℕ) → 1 ≤ n → n ≤ 16 → (ltb 0 n && leb n max_members) ≡ true
    count_ok n h k = ground arith
