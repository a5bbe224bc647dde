-- ===== src/Membership/Order.antt =====
-- The members' order and their lookup through insertion, sorting and filtering.
use lunet_locks.Prelude.{
  ℕ, ◌≡◌, refl, ◌∙◌, Bool, true, false, ◌||◌, Option, none, some, List, [], ◌∷◌, ◌++◌, arith, leb,
  ◌==◌, if◌then◌else◌, find,
}
use lunet_locks.Prelude.Distinct.{IsEquivalence, DistinctBy}
use lunet_locks.Membership.Snapshot.{SnapshotMember, ascending}
use lunet_locks.Membership.Model.{insert_by_id, sort_by_id, others, exists}

abbrev pub same_id : SnapshotMember → SnapshotMember → Bool
same_id m n = n.id == m.id

pub same_id-IsEquivalence : IsEquivalence same_id
same_id-IsEquivalence = record {
  eqb_refl = λ m. ground arith;
  eqb_sym = λ m n. ground arith;
  eqb_same = λ x m n h. ground arith;
}

abbrev pub Distinct : List SnapshotMember → Type 0
Distinct ms = DistinctBy same_id ms

below-exists :
    (m : SnapshotMember) (ms : List SnapshotMember) (id : ℕ)
    → ascending (m ∷ ms) ≡ true
    → leb id m.id ≡ true
    → exists ms id ≡ false
below-exists m [] id h l = refl
below-exists m (n ∷ ms) id h l = ground (arith, below-exists n ms id)

pub ascending-Distinct : (ms : List SnapshotMember) → ascending ms ≡ true → Distinct ms
ascending-Distinct [] h = tt
ascending-Distinct (m ∷ []) h = (refl, tt)
ascending-Distinct (m ∷ n ∷ ms) h =
    (below-exists m (n ∷ ms) m.id h (ground arith), ascending-Distinct (n ∷ ms) (ground arith))

exists-insert_by_id :
    (m : SnapshotMember) (ns : List SnapshotMember) (id : ℕ)
    → exists (insert_by_id m ns) id ≡ (m.id == id || exists ns id)
exists-insert_by_id m [] id = ground arith
exists-insert_by_id m (n ∷ ns) id = ground (arith, exists-insert_by_id m ns id)

exists-sort_by_id : (ms : List SnapshotMember) (id : ℕ) → exists (sort_by_id ms) id ≡ exists ms id
exists-sort_by_id [] id = refl
exists-sort_by_id (m ∷ ms) id =
    ground (arith, exists-insert_by_id m (sort_by_id ms) id, exists-sort_by_id ms id)

insert_by_id-ascending :
    (m : SnapshotMember) (ns : List SnapshotMember)
    → ascending ns ≡ true
    → exists ns m.id ≡ false
    → ascending (insert_by_id m ns) ≡ true
insert_by_id-ascending m [] h k = refl
insert_by_id-ascending m (n ∷ []) h k = ground arith
insert_by_id-ascending m (n ∷ o ∷ ns) h k = ground (arith, insert_by_id-ascending m (o ∷ ns))

pub sort_by_id-ascending :
    (ms : List SnapshotMember) → Distinct ms → ascending (sort_by_id ms) ≡ true
sort_by_id-ascending [] d = refl
sort_by_id-ascending (m ∷ ms) d =
    insert_by_id-ascending m (sort_by_id ms) (sort_by_id-ascending ms d.1)
      (exists-sort_by_id ms m.id ∙ d.0)

abbrev pub find_id : ℕ → List SnapshotMember → Option SnapshotMember
find_id k ms = find (λ m. m.id == k) ms

find-insert_by_id :
    (k : ℕ) (m : SnapshotMember) (ns : List SnapshotMember)
    → exists ns m.id ≡ false
    → find_id k (insert_by_id m ns) ≡ (if m.id == k then some m else find_id k ns)
find-insert_by_id k m [] h = refl
find-insert_by_id k m (n ∷ ns) h = ground (arith, find-insert_by_id k m ns)

pub find-sort_by_id :
    (k : ℕ) (ms : List SnapshotMember) → Distinct ms → find_id k (sort_by_id ms) ≡ find_id k ms
find-sort_by_id k [] d = refl
find-sort_by_id k (m ∷ ms) d =
    find-insert_by_id k m (sort_by_id ms) (exists-sort_by_id ms m.id ∙ d.0)
    ∙ rw (find-sort_by_id k ms d.1)

pub exists-others : (ms : List SnapshotMember) (id : ℕ) → exists (others ms id) id ≡ false
exists-others [] id = refl
exists-others (m ∷ ms) id = ground (arith, exists-others ms id)

pub find-others :
    (k id : ℕ) (ms : List SnapshotMember)
    → find_id k (others ms id) ≡ (if k == id then none else find_id k ms)
find-others k id [] = ground arith
find-others k id (m ∷ ms) = ground (arith, find-others k id ms)

pub find-others_concat :
    (k : ℕ) (m : SnapshotMember) (ms : List SnapshotMember)
    → find_id k (others ms m.id ++ m ∷ []) ≡ (if k == m.id then some m else find_id k ms)
find-others_concat k m [] = ground arith
find-others_concat k m (n ∷ ms) = ground (arith, find-others_concat k m ms)
