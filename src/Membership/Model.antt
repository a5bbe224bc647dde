-- ===== src/Membership/Model.antt =====
-- The model of the cluster that a gateway keeps: adopting snapshots and applying changes.
use Prim.Native.String.{String}
use text.Mathlib.Text.{◌==◌ as str_eq}
use lunet_locks.Prelude.{
  ℕ, ◌+◌, ◌%◌, ◌^◌, ◌≡◌, Bool, true, false, not, ◌&&◌, ◌||◌, Option, none, some, List, [], ◌∷◌,
  ◌++◌, arith, ltb, leb, ◌==◌, if◌then◌else◌, any, find, keep, inl, inr, map, ◌⊎◌, In, ap,
}
use lunet_locks.Membership.Text.{decimal}
use lunet_locks.Membership.Snapshot.{SnapshotMember, Snapshot, valid_endpoint}

abbrev pub newer : (era slot own_era own_slot : ℕ) → Bool
newer era slot own_era own_slot = ltb own_era era || (era == own_era && ltb own_slot slot)

-- `sort_by_key(|member| member.id)`, which keeps the order of equal keys.
abbrev pub insert_by_id : SnapshotMember → List SnapshotMember → List SnapshotMember
insert_by_id m [] = m ∷ []
insert_by_id m (n ∷ ns) =
    let rest = insert_by_id m ns in if leb m.id n.id then m ∷ n ∷ ns else n ∷ rest

abbrev pub sort_by_id : List SnapshotMember → List SnapshotMember
sort_by_id [] = []
sort_by_id (m ∷ ms) = insert_by_id m (sort_by_id ms)

-- A node of the descriptor, a tuple in the source.
pub record Node : Type 0 where
  pub node_id : ℕ
  pub host : List ℕ
  pub port : ℕ
  pub genesis : Bool

unfoldable pub descriptor_model : List Node → List SnapshotMember
descriptor_model nodes = sort_by_id (
    map (λ n. record { id = n.node_id; weight = 1; endpoint = n.host ++ b':' ∷ decimal n.port })
      (keep (λ n. n.genesis) nodes))

pub record Model : Type 0 where
  pub era : ℕ
  pub slot : ℕ
  pub members : List SnapshotMember

unfoldable pub adopt : Model → Snapshot → Model × Bool
adopt m s =
    if not (newer s.era s.slot m.era m.slot)
    then (m, false)
    else (record { era = s.era; slot = s.slot; members = s.members }, true)

-- The members that a change leaves beside its own, with the changed member behind them.
abbrev pub others : List SnapshotMember → ℕ → List SnapshotMember
others ms id = keep (λ m. not (m.id == id)) ms

abbrev pub exists : List SnapshotMember → ℕ → Bool
exists ms id = any (λ m. m.id == id) ms

unfoldable pub weighted : List SnapshotMember → ℕ → ℕ → Option (List SnapshotMember)
weighted ms id w = elim (find (λ m. m.id == id) ms) [
  | none ↦ none
  | some existing ↦
      some (others ms id ++ record { id = id; weight = w; endpoint = existing.endpoint } ∷ [])
]

-- `updated` before it is sorted, or `none` for a return of false.
unfoldable pub updated : List SnapshotMember → String → ℕ → List ℕ → Option (List SnapshotMember)
updated ms action id endpoint =
    if str_eq action "join"
    then if exists ms id || not (valid_endpoint endpoint)
      then none
      else some (others ms id ++ record { id = id; weight = 0; endpoint = endpoint } ∷ [])
    else if str_eq action "increment"
    then weighted ms id 1
    else if str_eq action "decrement"
    then weighted ms id 0
    else if str_eq action "leave"
    then if not (exists ms id) then none else some (others ms id)
    else none

unfoldable pub apply_change : Model → String → ℕ → List ℕ → Model × Bool
apply_change m action id endpoint = elim (updated m.members action id endpoint) [
  | none ↦ (m, false)
  | some us ↦ (record m { members = sort_by_id us }, true)
]

unfoldable pub advance : Model → ℕ → Model
advance m slot = record m { era = (m.era + 1) % 2 ^ 32; slot = slot }

abbrev pub snapshot : Model → Snapshot
snapshot m = record { era = m.era; slot = m.slot; members = m.members }

member_text : SnapshotMember → List ℕ
member_text m = b'|' ∷ (decimal m.id ++ b':' ∷ (decimal m.weight ++ b':' ∷ m.endpoint))

members_text : List SnapshotMember → List ℕ
unfolding member_text
members_text [] = []
members_text (m ∷ ms) = member_text m ++ members_text ms

unfoldable pub agreement_key : Snapshot → List ℕ
unfolding members_text
agreement_key s = decimal s.era ++ b':' ∷ (decimal s.slot ++ members_text s.members)

unfoldable pub adopt_all : Model → List Snapshot → Model
adopt_all m [] = m
adopt_all m (s ∷ ss) = adopt_all (adopt m s).0 ss

adopt-newest :
    (m : Model) (s : Snapshot) (era slot : ℕ)
    → newer era slot m.era m.slot ≡ false ⊎ ((era ≡ s.era) × (slot ≡ s.slot))
    → newer era slot (adopt m s).0.era (adopt m s).0.slot ≡ false
unfolding adopt
adopt-newest m s era slot h = ground arith

adopt_all-newest_own :
    (m : Model) (ss : List Snapshot) (era slot : ℕ)
    → newer era slot m.era m.slot ≡ false
    → newer era slot (adopt_all m ss).era (adopt_all m ss).slot ≡ false
unfolding adopt_all
adopt_all-newest_own m [] era slot h = h
adopt_all-newest_own m (s ∷ ss) era slot h =
    adopt_all-newest_own (adopt m s).0 ss era slot (adopt-newest m s era slot (inl h))

-- In whatever order snapshots are adopted, none of them is newer than the model that comes out.
pub adopt_all-newest :
    (m : Model) (ss : List Snapshot) (s : Snapshot)
    → In s ss
    → newer s.era s.slot (adopt_all m ss).era (adopt_all m ss).slot ≡ false
unfolding adopt_all
adopt_all-newest m [] s i = elim i [ ]
adopt_all-newest m (t ∷ ss) s (inl e) = adopt_all-newest_own (adopt m t).0 ss s.era s.slot (
    adopt-newest m t s.era s.slot
      (inr (ap (λ (x : Snapshot). x.era) e, ap (λ (x : Snapshot). x.slot) e)))
adopt_all-newest m (t ∷ ss) s (inr i) = adopt_all-newest (adopt m t).0 ss s i
