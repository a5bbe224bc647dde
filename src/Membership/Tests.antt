-- ===== src/Membership/Tests.antt =====
-- Endpoints and snapshots at concrete inputs.
use lunet_locks.Prelude.{
  ℕ, ◌≡◌, refl, inl, true, false, ◌&&◌, some, List, [], ◌∷◌, ◌++◌, arith, if◌then◌else◌, ◌==◌, any,
}
use lunet_locks.Membership.Text.{
  rsplit_once, split_on, strip_prefix, strip_suffix, parse_unsigned, is_utf8, decimal,
}
use lunet_locks.Membership.Snapshot.{SnapshotMember, Snapshot, valid_endpoint}
use lunet_locks.Membership.Wire.{encode_response, decode_response}
use lunet_locks.Membership.RoundTrip.{IsMember, IsSnapshot, decode_response-encode}
use lunet_locks.Membership.Quorum.{
  member_weight, contains, weight_sum, quorum_reached, quorums_intersect,
}
use lunet_locks.Membership.Model.{
  Model, newer, adopt_all, adopt_all-newest, apply_change, agreement_key,
}
use lunet_locks.Membership.Changes.{new_weight, apply_change-weight}
use lunet_locks.Membership.Tally.{
  new, record_response, tally, tally-weight, record_response-ignored,
}

-- 1.2.3.4:80
abbrev host_port : List ℕ
host_port = b'1' ∷ b'.' ∷ b'2' ∷ b'.' ∷ b'3' ∷ b'.' ∷ b'4' ∷ b':' ∷ b'8' ∷ b'0' ∷ []

host_port-valid : valid_endpoint host_port ≡ true
unfolding valid_endpoint rsplit_once split_on strip_prefix strip_suffix parse_unsigned
host_port-valid = refl

-- [::1]:80
v6-valid : valid_endpoint (b'[' ∷ b':' ∷ b':' ∷ b'1' ∷ b']' ∷ b':' ∷ b'8' ∷ b'0' ∷ []) ≡ true
unfolding valid_endpoint rsplit_once split_on strip_prefix strip_suffix parse_unsigned
v6-valid = refl

-- +1.2.3.4:+8
plus-valid :
    valid_endpoint (b'+' ∷ b'1' ∷ b'.' ∷ b'2' ∷ b'.' ∷ b'3' ∷ b'.' ∷ b'4' ∷ b':' ∷ b'+' ∷ b'8' ∷ [])
    ≡ true
unfolding valid_endpoint rsplit_once split_on strip_prefix strip_suffix parse_unsigned
plus-valid = refl

abbrev member : ℕ → ℕ → SnapshotMember
member id weight = record { id = id; weight = weight; endpoint = host_port }

abbrev three : List SnapshotMember
three = member 1 1 ∷ member 2 1 ∷ member 3 1 ∷ []

host_port-utf8 : is_utf8 host_port ≡ true
unfolding is_utf8
host_port-utf8 = refl

first-IsMember : IsMember (member 1 1)
first-IsMember = record {
  id_fits = omega arith;
  weight_fits = omega arith;
  endpoint_fits = omega arith;
  utf8 = host_port-utf8;
  valid = host_port-valid;
}

second-IsMember : IsMember (member 2 1)
second-IsMember = record {
  id_fits = omega arith;
  weight_fits = omega arith;
  endpoint_fits = omega arith;
  utf8 = host_port-utf8;
  valid = host_port-valid;
}

abbrev small : Snapshot
small = record { era = 4; slot = 42; members = member 1 1 ∷ member 2 1 ∷ [] }

small-IsSnapshot : IsSnapshot small
small-IsSnapshot = record {
  era_fits = omega arith;
  slot_fits = omega arith;
  some_members = omega arith;
  few_members = omega arith;
  in_order = refl;
  each = (first-IsMember, (second-IsMember, tt));
}

decode_response-encode_example :
    (bytes : List ℕ) × (encode_response small ≡ some bytes) × (decode_response bytes ≡ some small)
decode_response-encode_example = decode_response-encode small small-IsSnapshot

one_two : quorum_reached three (1 ∷ 2 ∷ []) ≡ true
unfolding quorum_reached
one_two = refl

two_three : quorum_reached three (2 ∷ 3 ∷ []) ≡ true
unfolding quorum_reached
two_three = refl

quorums_intersect_example :
    any (λ m. contains (1 ∷ 2 ∷ []) m.id && contains (2 ∷ 3 ∷ []) m.id) three ≡ true
quorums_intersect_example =
    quorums_intersect three (1 ∷ 2 ∷ []) (2 ∷ 3 ∷ [])
      (omega arith, (omega arith, (omega arith, tt))) (omega arith) one_two two_three

abbrev model : Model
model = record { era = 1; slot = 10; members = three }

adopt_all-newest_example :
    newer 4 42
      (adopt_all model (small ∷ record small { era = 3 } ∷ [])).era
      (adopt_all model (small ∷ record small { era = 3 } ∷ [])).slot
    ≡ false
adopt_all-newest_example =
    adopt_all-newest model (small ∷ record small { era = 3 } ∷ []) small (inl refl)

apply_change-weight_example : member_weight (apply_change model "leave" 2 []).0.members 3 ≡ (
    if (apply_change model "leave" 2 []).1 && 3 == 2
    then new_weight "leave"
    else member_weight three 3)
apply_change-weight_example = apply_change-weight model "leave" 2 [] 3 refl

tally-weight_example :
    (tally three new (2 ∷ 9 ∷ 2 ∷ 3 ∷ [])).weight
    ≡ weight_sum (λ m. contains (tally three new (2 ∷ 9 ∷ 2 ∷ 3 ∷ [])).ids m.id) three
tally-weight_example =
    tally-weight three (2 ∷ 9 ∷ 2 ∷ 3 ∷ []) (refl, (refl, (refl, tt)))
      (omega arith, (omega arith, (omega arith, tt))) (omega arith)

record_response-ignored_example :
    let u = record_response new 2 (member_weight three 2) in
    (record_response u 2 (member_weight three 2) ≡ u)
    × (record_response u 9 (member_weight three 9) ≡ u)
record_response-ignored_example = record_response-ignored three new 2 9 refl

-- [::]:1
abbrev plain : List ℕ
plain = b'[' ∷ b':' ∷ b':' ∷ b']' ∷ b':' ∷ b'1' ∷ []

-- [::]:1|2:1:[::]:1
abbrev nested : List ℕ
nested = plain ++ b'|' ∷ b'2' ∷ b':' ∷ b'1' ∷ b':' ∷ plain

nested-valid : valid_endpoint nested ≡ true
unfolding valid_endpoint rsplit_once split_on strip_prefix strip_suffix parse_unsigned
nested-valid = refl

abbrev of_one : Snapshot
of_one = record {
  era = 4;
  slot = 42;
  members = record { id = 1; weight = 1; endpoint = nested } ∷ [];
}

abbrev of_two : Snapshot
of_two = record {
  era = 4;
  slot = 42;
  members =
      record { id = 1; weight = 1; endpoint = plain }
      ∷ record { id = 2; weight = 1; endpoint = plain }
      ∷ [];
}

keys_collide : agreement_key of_one ≡ agreement_key of_two
unfolding agreement_key decimal
keys_collide = refl
