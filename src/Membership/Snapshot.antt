-- ===== src/Membership/Snapshot.antt =====
-- The snapshot and its members, and the endpoint test.
use lunet_locks.Prelude.{
  ℕ, Bool, true, false, not, ◌&&◌, Option, none, some, List, [], ◌∷◌, ltb, leb, ◌==◌, length, all,
}
use lunet_locks.Membership.Text.{rsplit_once, split_on, strip_prefix, strip_suffix, parse_unsigned}

-- The endpoint is the string's bytes.
pub record SnapshotMember : Type 0 where
  pub id : ℕ
  pub weight : ℕ
  pub endpoint : List ℕ

pub record Snapshot : Type 0 where
  pub era : ℕ
  pub slot : ℕ
  pub members : List SnapshotMember

value_or : ℕ → Option ℕ → ℕ
value_or d none = d
value_or d (some n) = n

is_empty : List ℕ → Bool
is_empty [] = true
is_empty (b ∷ bs) = false

valid_octet : List ℕ → Bool
unfolding value_or is_empty
valid_octet octet =
    not (is_empty octet)
    && (leb (length octet) 3 && leb (value_or 65535 (parse_unsigned 65535 octet)) 255)

valid_v4 : List ℕ → Bool
unfolding valid_octet
valid_v4 host = let octets = split_on b'.' host in length octets == 4 && all valid_octet octets

bracketed : List ℕ → Option (List ℕ)
bracketed host = elim (strip_prefix b'[' host) [ some h ↦ strip_suffix b']' h | none ↦ none ]

valid_host : List ℕ → Bool
unfolding bracketed valid_v4 is_empty
valid_host host = elim (bracketed host) [
  | some v6 ↦ not (is_empty v6) && leb 3 (length (split_on b':' v6))
  | none ↦ valid_v4 host
]

valid_port : Option ℕ → Bool
valid_port none = false
valid_port (some port) = not (port == 0)

unfoldable pub valid_endpoint : List ℕ → Bool
unfolding valid_port valid_host
valid_endpoint endpoint = elim (rsplit_once b':' endpoint) [
  | none ↦ false
  | some (host, port) ↦ valid_port (parse_unsigned 65535 port) && valid_host host
]

-- `windows(2).all(|pair| pair[0].id < pair[1].id)`.
abbrev pub ascending : List SnapshotMember → Bool
ascending [] = true
ascending (m ∷ []) = true
ascending (m ∷ n ∷ ms) = ltb m.id n.id && ascending (n ∷ ms)
