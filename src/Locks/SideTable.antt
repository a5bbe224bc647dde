-- ===== src/Locks/SideTable.antt =====
-- What a response may do to the side table, and when it reports which transition.
use lunet_locks.Prelude.{
  ℕ, ◌≡◌, ◌≢◌, refl, sym, ◌∙◌, inl, inr, Bool, true, false, not, ◌||◌, Bool-cases, Option, none,
  some, Option-cases, List, arith, ◌==◌, ==_iff, if◌then◌else◌,
}
use lunet_locks.Locks.Types.{
  Transition, hold, renew, release, break, Operation, Answer, get_answer, set_answer,
  release_answer, break_answer, DurableEntry, CoreLease, CoreResponse,
}
use lunet_locks.Locks.Respond.{
  map_option, live, fields, granted_entry, granted_transition, insert, clear, cleared,
  respond_granted, respond, Responded,
}

abbrev pub SideTable : Type 0
SideTable = ℕ → Option DurableEntry

-- The transition is true of the stored record: a hold where no lease was live, a renewal where one
-- was, a release of the live lease, a break of the stored one, each with the lock's id.
abbrev pub IsTrue : Option CoreLease → ℕ → ℕ → Transition → Type 0
IsTrue stored id time (hold f) = (f.lock_id ≡ id) × (live time stored ≡ none)
IsTrue stored id time (renew f) = (f.lock_id ≡ id) × (live time stored ≢ none)
IsTrue stored id time (release f) =
    (l : CoreLease) × (live time stored ≡ some l) × (f ≡ fields id l)
IsTrue stored id time (break f) = (l : CoreLease) × (stored ≡ some l) × (f ≡ fields id l)

abbrev pub AreTrue : Option CoreLease → ℕ → ℕ → Option Transition → Type 0
AreTrue stored id time none = Unit
AreTrue stored id time (some t) = IsTrue stored id time t

abbrev pub has_name : Option DurableEntry → Bool
has_name none = false
has_name (some e) = is_there e.name
  where
    is_there : Option (List ℕ) → Bool
    is_there none = false
    is_there (some n) = true

-- The side table differs at one lock at most, and wherever a name was one is.
pub record Keeps (id : ℕ) (d e : SideTable) : Type 0 where
  pub elsewhere : (k : ℕ) → e k ≡ (if k == id then e k else d k)
  pub named : (k : ℕ) → (not (has_name (d k)) || has_name (e k)) ≡ true

pub Keeps-same : (id : ℕ) (d : SideTable) → Keeps id d d
Keeps-same id d = record { elsewhere = λ k. ground arith; named = λ k. ground arith }

Keeps-clear : (id : ℕ) (d : SideTable) → Keeps id d (clear d id)
Keeps-clear id d = record {
  elsewhere = λ k. ground arith;
  named =
      λ k. elim (Bool-cases (k == id)) [ inr e ↦ rw e (ground arith) | inl e ↦ rw e (still (d k)) ];
}
  where
    still : (o : Option DurableEntry) → (not (has_name o) || has_name (map_option cleared o)) ≡ true
    still none = refl
    still (some e) = ground arith

Keeps-insert :
    (id : ℕ) (d : SideTable) (e : DurableEntry)
    → (not (has_name (d id)) || has_name (some e)) ≡ true
    → Keeps id d (insert d id e)
Keeps-insert id d e n = record {
  elsewhere = λ k. ground arith;
  named = λ k. elim (Bool-cases (k == id)) [
    | inr q ↦ rw q (ground arith)
    | inl q ↦ rw q (rw ((==_iff k id).0 q) n)
  ];
}

granted_entry-named :
    (incumbent : Option CoreLease) (prior standing : Option DurableEntry) (name : Option (List ℕ))
    (labels : Option (List (List ℕ))) (time : ℕ)
    → (not (has_name prior)
        || has_name (some (granted_entry incumbent prior standing name labels time)))
      ≡ true
unfolding granted_entry
granted_entry-named i none standing name labels time = refl
granted_entry-named none (some e) standing none labels time = ground arith
granted_entry-named none (some e) standing (some n) labels time = ground arith
granted_entry-named (some l) (some e) standing none labels time = ground arith
granted_entry-named (some l) (some e) standing (some n) labels time = ground arith

-- What holds of a response: its side table keeps the rest, and its transition is true.
unfoldable pub Fine : Option CoreLease → ℕ → ℕ → SideTable → Responded → Type 0
Fine stored id time d none = Unit
Fine stored id time d (some (e, response, t)) = Keeps id d e × AreTrue stored id time t

granted-IsTrue :
    (stored : Option CoreLease) (id time : ℕ) (lease : CoreLease)
    → IsTrue stored id time (granted_transition id (live time stored) lease)
granted-IsTrue stored id time lease = elim (Option-cases (live time stored)) [
  | inl e ↦ rw e (refl, e)
  | inr (l, e) ↦ rw e (refl, λ n. there l (sym e ∙ n))
]
  where
    there : (l : CoreLease) → some l ≡ none → ⊥
    there l h = cc

released-AreTrue :
    (stored : Option CoreLease) (id time : ℕ)
    → AreTrue stored id time (map_option (λ l. release (fields id l)) (live time stored))
released-AreTrue stored id time = elim (Option-cases (live time stored)) [
  | inl e ↦ rw e tt
  | inr (l, e) ↦ rw e (l, e, refl)
]

broken-AreTrue :
    (stored : Option CoreLease) (id time : ℕ)
    → AreTrue stored id time (map_option (λ l. break (fields id l)) stored)
broken-AreTrue none id time = tt
broken-AreTrue (some l) id time = (l, refl, refl)

respond_granted-Fine :
    (o : Option CoreLease) (d : SideTable) (stored : Option CoreLease) (time : ℕ) (op : Operation)
    (r : CoreResponse)
    → Fine stored r.lock_id time d (respond_granted o d stored r.lock_id time op r)
unfolding respond_granted Fine
respond_granted-Fine none d stored time op r = tt
respond_granted-Fine (some lease) d stored time op r = (
  Keeps-insert r.lock_id d _
      (granted_entry-named (live time stored) (d r.lock_id) (d r.lock_id) _ _ time),
  granted-IsTrue stored r.lock_id time lease,
)

pub respond-Fine :
    (a : Answer) (d : SideTable) (stored : Option CoreLease) (time : ℕ) (op : Operation)
    (r : CoreResponse)
    → Fine stored r.lock_id time d (respond a d stored r.lock_id time op r)
unfolding respond Fine
respond-Fine get_answer d stored time op r = (Keeps-same r.lock_id d, tt)
respond-Fine (set_answer false) d stored time op r = (Keeps-same r.lock_id d, tt)
respond-Fine (set_answer true) d stored time op r = respond_granted-Fine r.lease d stored time op r
respond-Fine (release_answer false) d stored time op r = (Keeps-same r.lock_id d, tt)
respond-Fine (release_answer true) d stored time op r =
    (Keeps-clear r.lock_id d, released-AreTrue stored r.lock_id time)
respond-Fine (break_answer false) d stored time op r = (Keeps-same r.lock_id d, tt)
respond-Fine (break_answer true) d stored time op r =
    (Keeps-clear r.lock_id d, broken-AreTrue stored r.lock_id time)
