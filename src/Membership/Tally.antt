-- ===== src/Membership/Tally.antt =====
-- The tally of the responders that agree on a snapshot: the weight that it counts up one response at
-- a time is the one that the quorum test sums over the members.
use lunet_locks.Prelude.{
  ℕ, ◌+◌, ◌%◌, ◌^◌, ◌≤◌, ◌<◌, ◌≡◌, refl, ap, inl, inr, Bool, false, Option, none, some,
  Option-cases, List, [], ◌∷◌, arith, ◌==◌, if◌then◌else◌, length, find, All, Bool-cases, ==_iff,
}
use lunet_locks.Membership.Snapshot.{SnapshotMember}
use lunet_locks.Membership.Quorum.{
  weight_of, member_weight, contains, weight_sum, quorum_reached, weight_sum-bound,
}
use lunet_locks.Membership.Model.{exists}
use lunet_locks.Membership.Order.{Distinct}

pub record Tally : Type 0 where
  pub ids : List ℕ
  pub weight : ℕ

abbrev pub new : Tally
new = record { ids = []; weight = 0 }

-- `Tally::record`.
unfoldable pub record_response : Tally → ℕ → Option ℕ → Tally
record_response t id none = t
record_response t id (some w) =
    if contains t.ids id then t else record { ids = id ∷ t.ids; weight = (t.weight + w) % 2 ^ 64 }

abbrev pub agrees_with : Tally → List SnapshotMember → Bool
agrees_with t members = quorum_reached members t.ids

-- The responses of these ids, each with the weight that the members give it.
abbrev pub tally : List SnapshotMember → Tally → List ℕ → Tally
tally ms t [] = t
tally ms t (id ∷ ids) = tally ms (record_response t id (member_weight ms id)) ids

abbrev value_or_zero : Option ℕ → ℕ
value_or_zero none = 0
value_or_zero (some n) = n

find-none :
    (ms : List SnapshotMember) (id : ℕ) → exists ms id ≡ false → find (λ m. m.id == id) ms ≡ none
find-none [] id h = refl
find-none (m ∷ ms) id h = ground (arith, find-none ms id)

member_weight-here :
    (m : SnapshotMember) (ms : List SnapshotMember) (id : ℕ)
    → member_weight (m ∷ ms) id ≡ (if m.id == id then some m.weight else member_weight ms id)
unfolding member_weight
member_weight-here m ms id = ground arith

member_weight-absent :
    (ms : List SnapshotMember) (id : ℕ) → exists ms id ≡ false → member_weight ms id ≡ none
unfolding member_weight
member_weight-absent ms id h = ap weight_of (find-none ms id h)

-- One more responder adds its own weight to the sum.
sum-one_more :
    (ms : List SnapshotMember) (id : ℕ) (ids : List ℕ)
    → Distinct ms
    → All (λ m. m.weight < 2 ^ 32) ms
    → length ms ≤ 2 ^ 32
    → contains ids id ≡ false
    → weight_sum (λ m. contains (id ∷ ids) m.id) ms
      ≡ weight_sum (λ m. contains ids m.id) ms + value_or_zero (member_weight ms id)
sum-one_more [] id ids d v n h = unfold member_weight in refl
sum-one_more (m ∷ ms) id ids d v n h = elim (Bool-cases (id == m.id)) [
  | inl e ↦
      let q : id ≡ m.id = (==_iff id m.id).0 e in
      let absent : member_weight ms id ≡ none = member_weight-absent ms id (rw q d.0) in
      let fresh : contains ids m.id ≡ false = rw (← q) h in
      ground (
        arith,
        fresh,
        member_weight-here m ms id,
        rw absent at (sum-one_more ms id ids d.1 v.1 (omega arith) h),
        weight_sum-bound (λ x. contains ids x.id) ms v.1 (omega arith),
        v.0,
      )
  | inr e ↦ ground (
    arith,
    member_weight-here m ms id,
    sum-one_more ms id ids d.1 v.1 (omega arith) h,
    weight_sum-bound (λ x. contains ids x.id) ms v.1 (omega arith),
    weight_sum-bound (λ x. contains (id ∷ ids) x.id) ms v.1 (omega arith),
    v.0,
  )
]

module _ (ms : List SnapshotMember) (d : Distinct ms) (v : All (λ m. m.weight < 2 ^ 32) ms)
    (n : length ms ≤ 2 ^ 32) where
  record_response-weight :
      (t : Tally) (id : ℕ)
      → t.weight ≡ weight_sum (λ m. contains t.ids m.id) ms
      → let u = record_response t id (member_weight ms id) in
        u.weight ≡ weight_sum (λ m. contains u.ids m.id) ms
  unfolding record_response
  record_response-weight t id h = elim (Option-cases (member_weight ms id)) [
    | inl e ↦ rw e h
    | inr (w, e) ↦ rw e (elim (Bool-cases (contains t.ids id)) [
      | inl c ↦ rw c h
      | inr c ↦ rw c (
          omega (
            arith,
            h,
            rw e at (sum-one_more ms id t.ids d v n c),
            weight_sum-bound (λ m. contains (id ∷ t.ids) m.id) ms v n,
          ))
    ])
  ]

  tally-weight_from :
      (t : Tally) (ids : List ℕ)
      → t.weight ≡ weight_sum (λ m. contains t.ids m.id) ms
      → (tally ms t ids).weight ≡ weight_sum (λ m. contains (tally ms t ids).ids m.id) ms
  tally-weight_from t [] h = h
  tally-weight_from t (id ∷ ids) h =
      tally-weight_from (record_response t id (member_weight ms id)) ids
        (record_response-weight t id h)

weight_sum-nobody : (ms : List SnapshotMember) → 0 ≡ weight_sum (λ m. contains [] m.id) ms
weight_sum-nobody [] = refl
weight_sum-nobody (m ∷ ms) = weight_sum-nobody ms

-- The weight that a tally has counted up, over any sequence of responses with repeats and strangers
-- among them, is the sum of the weights of the members it names. The members have different ids and
-- weights of 32 bits, and a u32 can count them.
pub tally-weight :
    (ms : List SnapshotMember) (ids : List ℕ)
    → Distinct ms
    → All (λ m. m.weight < 2 ^ 32) ms
    → length ms ≤ 2 ^ 32
    → (tally ms new ids).weight ≡ weight_sum (λ m. contains (tally ms new ids).ids m.id) ms
tally-weight ms ids d v n = tally-weight_from ms d v n new ids (weight_sum-nobody ms)

-- A repeated response changes nothing, and neither does one of an id that is not a member.
pub record_response-ignored :
    (ms : List SnapshotMember) (t : Tally) (id other_id : ℕ)
    → exists ms other_id ≡ false
    → let u = record_response t id (member_weight ms id) in
      (record_response u id (member_weight ms id) ≡ u)
      × (record_response u other_id (member_weight ms other_id) ≡ u)
record_response-ignored ms t id other_id h = (
  again t (member_weight ms id),
  rw (member_weight-absent ms other_id h) (unfold record_response in refl),
)
  where
    again :
        (t : Tally) (w : Option ℕ)
        → record_response (record_response t id w) id w ≡ record_response t id w
    again t w = unfold record_response in ground arith
