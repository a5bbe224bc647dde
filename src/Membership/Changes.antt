-- ===== src/Membership/Changes.antt =====
-- What a change does to the members: their order, and every weight.
use Prim.Native.String.{String}
use text.Mathlib.Text.{◌==◌ as str_eq}
use lunet_locks.Prelude.{
  ℕ, ◌≡◌, refl, ap, ◌∙◌, inl, inr, Bool, true, false, not, ◌&&◌, ◌||◌, Option, none, some,
  Option-cases, List, [], ◌∷◌, ◌++◌, arith, ◌==◌, if◌then◌else◌, find, Bool-cases,
}
use lunet_locks.Prelude.Distinct.{keep-DistinctBy, concat-DistinctBy}
use lunet_locks.Membership.Snapshot.{SnapshotMember, valid_endpoint, ascending}
use lunet_locks.Membership.Quorum.{weight_of, member_weight}
use lunet_locks.Membership.Model.{
  sort_by_id, Model, others, exists, weighted, updated, apply_change,
}
use lunet_locks.Membership.Order.{
  same_id, same_id-IsEquivalence, Distinct, ascending-Distinct, sort_by_id-ascending, find_id,
  find-sort_by_id, exists-others, find-others, find-others_concat,
}

-- The weight that a change gives its member; none where it takes the member out.
abbrev pub new_weight : String → Option ℕ
new_weight action =
    if str_eq action "join"
    then some 0
    else if str_eq action "increment"
    then some 1
    else if str_eq action "decrement"
    then some 0
    else none

-- What a change comes to: nothing, the others alone, or the others and one member with its id.
data Outcome (ms : List SnapshotMember) (action : String) (id : ℕ)
    : Option (List SnapshotMember) → Type 0 where
  refused : Outcome ms action id none
  left : new_weight action ≡ none → Outcome ms action id (some (others ms id))
  put :
      (m : SnapshotMember)
      → m.id ≡ id
      → new_weight action ≡ some m.weight
      → Outcome ms action id (some (others ms id ++ m ∷ []))

weighted-Outcome :
    (ms : List SnapshotMember) (action : String) (id w : ℕ)
    → new_weight action ≡ some w
    → Outcome ms action id (weighted ms id w)
unfolding weighted
weighted-Outcome ms action id w h = elim (Option-cases (find (λ m. m.id == id) ms)) [
  | inl e ↦ rw (e, weighted) refused
  | inr (x, e) ↦
      rw (e, weighted) (put (record { id = id; weight = w; endpoint = x.endpoint }) refl h)
]

updated-Outcome :
    (ms : List SnapshotMember) (action : String) (id : ℕ) (endpoint : List ℕ)
    → Outcome ms action id (updated ms action id endpoint)
unfolding updated
updated-Outcome ms action id endpoint = elim (Bool-cases (str_eq action "join")) [
  | inl j ↦ rw j (elim (Bool-cases (exists ms id || not (valid_endpoint endpoint))) [
    | inl b ↦ rw b refused
    | inr b ↦ rw b (put (record { id = id; weight = 0; endpoint = endpoint }) refl (ground arith))
  ])
  | inr j ↦ rw j (elim (Bool-cases (str_eq action "increment")) [
    | inl i ↦ rw i (weighted-Outcome ms action id 1 (ground arith))
    | inr i ↦ rw i (elim (Bool-cases (str_eq action "decrement")) [
      | inl d ↦ rw d (weighted-Outcome ms action id 0 (ground arith))
      | inr d ↦ rw d (elim (Bool-cases (str_eq action "leave")) [
        | inr l ↦ rw l refused
        | inl l ↦ rw l (elim (Bool-cases (exists ms id)) [
          | inl e ↦ rw e (left (ground arith))
          | inr e ↦ rw e refused
        ])
      ])
    ])
  ])
]

-- The change made of an outcome.
abbrev changed : Model → Option (List SnapshotMember) → Model × Bool
changed m none = (m, false)
changed m (some us) = (record m { members = sort_by_id us }, true)

changed-is :
    (m : Model) (action : String) (id : ℕ) (endpoint : List ℕ)
    → apply_change m action id endpoint ≡ changed m (updated m.members action id endpoint)
unfolding apply_change
changed-is m action id endpoint = elim (Option-cases (updated m.members action id endpoint)) [
  | inl e ↦ rw (e, apply_change) refl
  | inr (us, e) ↦ rw (e, apply_change) refl
]

put-Distinct :
    (ms : List SnapshotMember) (m : SnapshotMember)
    → Distinct ms
    → Distinct (others ms m.id ++ m ∷ [])
put-Distinct ms m d =
    concat-DistinctBy same_id same_id-IsEquivalence m (others ms m.id) (exists-others ms m.id)
      (keep-DistinctBy same_id _ ms d)

Outcome-ascending :
    (m : Model) (action : String) (id : ℕ) (o : Option (List SnapshotMember))
    → Distinct m.members
    → ascending m.members ≡ true
    → Outcome m.members action id o
    → ascending (changed m o).0.members ≡ true
Outcome-ascending m action id o d h refused = h
Outcome-ascending m action id o d h (left w) =
    sort_by_id-ascending (others m.members id) (keep-DistinctBy same_id _ m.members d)
Outcome-ascending m action id o d h (put x e w) =
    rw (← e) (sort_by_id-ascending (others m.members x.id ++ x ∷ []) (put-Distinct m.members x d))

-- A change keeps the members in strictly ascending order of their ids, accepted or not.
pub apply_change-ascending :
    (m : Model) (action : String) (id : ℕ) (endpoint : List ℕ)
    → ascending m.members ≡ true
    → ascending (apply_change m action id endpoint).0.members ≡ true
apply_change-ascending m action id endpoint h = rw (changed-is m action id endpoint) (
    Outcome-ascending m action id _ (ascending-Distinct m.members h) h
      (updated-Outcome m.members action id endpoint))

Outcome-weight :
    (m : Model) (action : String) (id k : ℕ) (o : Option (List SnapshotMember))
    → Distinct m.members
    → Outcome m.members action id o
    → member_weight (changed m o).0.members k
      ≡ (if (changed m o).1 && k == id then new_weight action else member_weight m.members k)
unfolding member_weight
Outcome-weight m action id k o d refused = refl
Outcome-weight m action id k o d (left w) =
    ap weight_of (
      find-sort_by_id k (others m.members id) (keep-DistinctBy same_id _ m.members d)
      ∙ find-others k id m.members)
    ∙ ground (arith, w)
Outcome-weight m action id k o d (put x e w) =
    let found : find_id k (sort_by_id (others m.members id ++ x ∷ []))
        ≡ (if k == id then some x else find_id k m.members) =
      rw (← e) (
        find-sort_by_id k (others m.members x.id ++ x ∷ []) (put-Distinct m.members x d)
        ∙ find-others_concat k x m.members) in
    ap weight_of found ∙ ground (arith, w)

-- The weight of every id after a change: of the changed member the one that the action gives, none
-- after a leave; of every other id, and of all of them if the change is refused, the one it had. The
-- members stand in ascending order.
pub apply_change-weight :
    (m : Model) (action : String) (id : ℕ) (endpoint : List ℕ) (k : ℕ)
    → ascending m.members ≡ true
    → member_weight (apply_change m action id endpoint).0.members k ≡ (
        if (apply_change m action id endpoint).1 && k == id
        then new_weight action
        else member_weight m.members k)
apply_change-weight m action id endpoint k h = rw (changed-is m action id endpoint) (
    Outcome-weight m action id k _ (ascending-Distinct m.members h)
      (updated-Outcome m.members action id endpoint))
