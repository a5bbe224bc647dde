-- ===== src/Membership/Wire.antt =====
-- The snapshot request and response on the wire.
use lunet_locks.Prelude.{
  ℕ, zero, suc, ◌+◌, Bool, false, not, ◌&&◌, ◌||◌, Option, none, some, List, [], ◌∷◌, ◌++◌, ltb,
  leb, ◌==◌, if◌then◌else◌, length, take, drop, all,
}
use lunet_locks.Prelude.Bytes.{to_be, from_be, slice}
use lunet_locks.Membership.Text.{is_utf8}
use lunet_locks.Membership.Snapshot.{SnapshotMember, Snapshot, valid_endpoint, ascending}

abbrev pub snapshot_request : ℕ
snapshot_request = 1

abbrev pub snapshot_response : ℕ
snapshot_response = 2

abbrev pub max_members : ℕ
max_members = 16

abbrev pub encode_request : List ℕ
encode_request = snapshot_request ∷ []

unfoldable pub decode_request : List ℕ → Bool
decode_request (b ∷ []) = b == snapshot_request
decode_request _ = false

abbrev pub encode_member : SnapshotMember → List ℕ
encode_member m = to_be 4 m.id ++ (to_be 4 m.weight ++ (to_be 2 (length m.endpoint) ++ m.endpoint))

abbrev pub encode_members : List SnapshotMember → List ℕ
encode_members [] = []
encode_members (m ∷ ms) = encode_member m ++ encode_members ms

-- A failed assertion is `none`.
unfoldable pub encode_response : Snapshot → Option (List ℕ)
encode_response s =
    if not (ltb 0 (length s.members) && leb (length s.members) max_members)
    then none
    else if not (ascending s.members)
    then none
    else if not (all (λ m. valid_endpoint m.endpoint) s.members)
    then none
    else some (
        snapshot_response
        ∷ (to_be 4 s.era
            ++ (to_be 8 s.slot ++ (to_be 2 (length s.members) ++ encode_members s.members))))

-- The member at the cursor, without the tests on its order and its endpoint, and the bytes behind it.
unfoldable pub decode_member : List ℕ → Option (SnapshotMember × List ℕ)
decode_member bytes =
    let n = from_be (slice 8 2 bytes) in
    if ltb (length bytes) 10
    then none
    else if ltb (length bytes) (10 + n)
    then none
    else if not (is_utf8 (slice 10 n bytes))
    then none
    else some (
      record {
        id = from_be (take 4 bytes);
        weight = from_be (slice 4 4 bytes);
        endpoint = slice 10 n bytes;
      },
      drop (10 + n) bytes,
    )

-- The loop over the members, with `count - index` turns left. The cursor is the bytes from it on.
unfoldable pub decode_members :
    (left index previous : ℕ) (bytes : List ℕ) → Option (List SnapshotMember × List ℕ)
decode_members zero index previous bytes = some ([], bytes)
decode_members (suc left) index previous bytes = elim (decode_member bytes) [
  | none ↦ none
  | some (m, rest) ↦
      if ltb 0 index && leb m.id previous
      then none
      else if not (valid_endpoint m.endpoint)
      then none
      else elim (decode_members left (suc index) m.id rest) [
        | none ↦ none
        | some (ms, end) ↦ some (m ∷ ms, end)
      ]
]

-- The snapshot, if the cursor has reached the end.
abbrev pub at_end : ℕ → ℕ → Option (List SnapshotMember × List ℕ) → Option Snapshot
at_end era slot none = none
at_end era slot (some (ms, [])) = some (record { era = era; slot = slot; members = ms })
at_end era slot (some (ms, b ∷ bs)) = none

abbrev pub has_kind : List ℕ → Bool
has_kind [] = false
has_kind (b ∷ bs) = b == snapshot_response

unfoldable pub decode_response : List ℕ → Option Snapshot
decode_response payload =
    let count = from_be (slice 13 2 payload) in
    if ltb (length payload) 15 || not (has_kind payload)
    then none
    else if not (leb 1 count && leb count max_members)
    then none
    else at_end (from_be (slice 1 4 payload)) (from_be (slice 5 8 payload))
        (decode_members count 0 0 (drop 15 payload))
