-- ===== src/Membership/Quorum.antt =====
-- Weights, the quorum test, and that two quorums share a member.
use lunet_locks.Prelude.{
  ℕ, ◌+◌, ◌*◌, ◌/◌, ◌%◌, ◌^◌, ◌≤◌, ◌<◌, ◌≡◌, refl, Bool, true, false, ◌&&◌, Option, none, some,
  List, [], ◌∷◌, arith, leb, ◌==◌, if◌then◌else◌, length, any, find, All, Bool-cases, leb→le, inl,
  inr, ◌-◌,
}
use lunet_locks.Membership.Snapshot.{SnapshotMember}

abbrev pub weight_of : Option SnapshotMember → Option ℕ
weight_of none = none
weight_of (some m) = some m.weight

unfoldable pub member_weight : List SnapshotMember → ℕ → Option ℕ
member_weight members id = weight_of (find (λ m. m.id == id) members)

-- `ids.contains(&id)` of the set of ids.
abbrev pub contains : List ℕ → ℕ → Bool
contains ids id = any (λ i. i == id) ids

-- The weights of the members that pass the test, summed in a u64.
abbrev pub weight_sum : (SnapshotMember → Bool) → List SnapshotMember → ℕ
weight_sum p [] = 0
weight_sum p (m ∷ ms) =
    let rest = weight_sum p ms in if p m then (m.weight + rest) % 2 ^ 64 else rest

unfoldable pub quorum_reached : List SnapshotMember → List ℕ → Bool
quorum_reached members responded =
    let total = weight_sum (λ m. true) members in
    let threshold = total / 2 + 1 in
    leb threshold (weight_sum (λ m. contains responded m.id) members)

-- Weights of 32 bits, in a list as long as a u32 can count, add up without a wrap.
pub weight_sum-bound :
    (p : SnapshotMember → Bool) (ms : List SnapshotMember)
    → All (λ m. m.weight < 2 ^ 32) ms
    → length ms ≤ 2 ^ 32
    → weight_sum p ms ≤ (2 ^ 32 - 1) * length ms
weight_sum-bound p [] v n = omega arith
weight_sum-bound p (m ∷ ms) v n = ground (arith, weight_sum-bound p ms v.1 (omega arith), v.0)

-- What two tests count beyond the whole, they count in common.
weight_sum-common :
    (p q : SnapshotMember → Bool) (ms : List SnapshotMember)
    → All (λ m. m.weight < 2 ^ 32) ms
    → length ms ≤ 2 ^ 32
    → weight_sum p ms + weight_sum q ms
      ≤ weight_sum (λ m. true) ms + weight_sum (λ m. p m && q m) ms
weight_sum-common p q [] v n = omega arith
weight_sum-common p q (m ∷ ms) v n = ground (
  arith,
  weight_sum-common p q ms v.1 (omega arith),
  weight_sum-bound p ms v.1 (omega arith),
  weight_sum-bound q ms v.1 (omega arith),
  weight_sum-bound (λ x. true) ms v.1 (omega arith),
  weight_sum-bound (λ x. p x && q x) ms v.1 (omega arith),
  v.0,
)

weight_sum-none :
    (p : SnapshotMember → Bool) (ms : List SnapshotMember) → any p ms ≡ false → weight_sum p ms ≡ 0
weight_sum-none p [] h = refl
weight_sum-none p (m ∷ ms) h = ground (arith, weight_sum-none p ms)

-- Two sets of responders that both reach the quorum of a membership have a member in common. The
-- weights are 32 bits wide, and so is the count of the members.
pub quorums_intersect :
    (ms : List SnapshotMember) (a b : List ℕ)
    → All (λ m. m.weight < 2 ^ 32) ms
    → length ms ≤ 2 ^ 32
    → quorum_reached ms a ≡ true
    → quorum_reached ms b ≡ true
    → any (λ m. contains a m.id && contains b m.id) ms ≡ true
unfolding quorum_reached
quorums_intersect ms a b v n qa qb =
    elim (Bool-cases (any (λ m. contains a m.id && contains b m.id) ms)) [
      | inl e ↦ e
      | inr e ↦ absurd (
          omega (
            arith,
            leb→le _ _ qa,
            leb→le _ _ qb,
            weight_sum-common (λ m. contains a m.id) (λ m. contains b m.id) ms v n,
            weight_sum-none (λ m. contains a m.id && contains b m.id) ms e,
          ))
    ]
