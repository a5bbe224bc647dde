-- ===== src/Oracle/History.antt =====
-- Whether a client's observations appear in a chain in their order.
use lunet_locks.Prelude.{
  ℕ, ◌+◌, ◌≡◌, ◌↔◌, refl, sym, ◌∙◌, subst, ◌⊎◌, inl, inr, Bool, true, false, ◌&&◌, ◌||◌, Bool-cases,
  Option, none, some, Option-cases, List, [], ◌∷◌, ◌==◌, if◌then◌else◌,
}
use lunet_locks.Prelude.Results.{Result, ok, err}
use lunet_locks.Journal.Record.{kind_hold, kind_renew, bytes_eq}
use lunet_locks.Oracle.Decode.{Transition}

-- A holder that saw itself with a lease id.
pub record Observation : Type 0 where
  pub holder : List ℕ
  pub lease_id : ℕ

unfoldable pub shows : Observation → Transition → Bool
shows o t =
    (t.kind == kind_hold || t.kind == kind_renew)
    && (bytes_eq t.holder o.holder && t.lease_id == o.lease_id)

-- `chain[cursor..].iter().position(…)`, as the part of the chain from the new cursor on.
unfoldable pub seek : Observation → List Transition → Option (List Transition)
seek o [] = none
seek o (t ∷ ts) = let rest = seek o ts in if shows o t then some (t ∷ ts) else rest

-- The observation that is not found, and its lease id.
pub record Missing : Type 0 where
  pub observation : ℕ
  pub lease_id : ℕ

unfoldable pub check_from : ℕ → List Transition → List Observation → Result Missing (Unit {0})
check_from i chain [] = ok tt
check_from i chain (o ∷ os) = elim (seek o chain) [
  | some chain' ↦ check_from (i + 1) chain' os
  | none ↦ err (record { observation = i; lease_id = o.lease_id })
]

unfoldable pub client_history_consistent :
    List Transition → List Observation → Result Missing (Unit {0})
unfolding check_from
client_history_consistent chain history = check_from 0 chain history

-- The observations can be laid on the chain in their order, several on one transition if need be.
pub data Follows : List Transition → List Observation → Type 0 where
  done : (chain : List Transition) → Follows chain []
  skip :
      (t : Transition) (chain : List Transition) (os : List Observation)
      → Follows chain os
      → Follows (t ∷ chain) os
  seen :
      (t : Transition) (chain : List Transition) (o : Observation) (os : List Observation)
      → shows o t ≡ true
      → Follows (t ∷ chain) os
      → Follows (t ∷ chain) (o ∷ os)

Follows-tail :
    (chain : List Transition) (o : Observation) (os : List Observation)
    → Follows chain (o ∷ os)
    → Follows chain os
Follows-tail chain o os (skip t rest os' f) = skip t rest os (Follows-tail rest o os f)
Follows-tail chain o os (seen t rest o' os' h f) = f

some-inj : (a b : List Transition) → some a ≡ some b → a ≡ b
some-inj a b e = cc

seek-cons :
    (t : Transition) (ts : List Transition) (o : Observation)
    → ((shows o t ≡ true) × (seek o (t ∷ ts) ≡ some (t ∷ ts)))
      ⊎ ((shows o t ≡ false) × (seek o (t ∷ ts) ≡ seek o ts))
unfolding seek
seek-cons t ts o = elim (Bool-cases (shows o t)) [ inl e ↦ inl (e, rw e) | inr e ↦ inr (e, rw e) ]

-- What can follow the whole chain can follow it from the first place that shows the observation.
Follows-seek :
    (chain later : List Transition) (o : Observation) (os : List Observation)
    → seek o chain ≡ some later
    → Follows chain (o ∷ os)
    → Follows later os
Follows-seek chain later o os e (skip t rest os' f) = elim (seek-cons t rest o) [
  | inl (_, h) ↦
      subst (λ x. Follows x os) (some-inj (t ∷ rest) later (sym h ∙ e))
        (Follows-tail (t ∷ rest) o os (skip t rest (o ∷ os) f))
  | inr (_, h) ↦ Follows-seek rest later o os (sym h ∙ e) f
]
Follows-seek chain later o os e (seen t rest o' os' s f) = elim (seek-cons t rest o) [
  | inl (_, h) ↦ subst (λ x. Follows x os) (some-inj (t ∷ rest) later (sym h ∙ e)) f
  | inr (n, _) ↦ absurd cc
]

seek-none :
    (chain : List Transition) (o : Observation) (os : List Observation)
    → seek o chain ≡ none
    → Follows chain (o ∷ os)
    → ⊥
seek-none chain o os e (skip t rest os' f) = elim (seek-cons t rest o) [
  | inl (_, h) ↦ cc
  | inr (_, h) ↦ seek-none rest o os (sym h ∙ e) f
]
seek-none chain o os e (seen t rest o' os' s f) = elim (seek-cons t rest o) [
  | inl (_, h) ↦ cc
  | inr (n, _) ↦ cc
]

seek-Follows :
    (chain later : List Transition) (o : Observation) (os : List Observation)
    → seek o chain ≡ some later
    → Follows later os
    → Follows chain (o ∷ os)
seek-Follows [] later o os e f = unfold seek in absurd cc
seek-Follows (t ∷ ts) later o os e f = elim (seek-cons t ts o) [
  | inl (s, h) ↦
      seen t ts o os s (subst (λ x. Follows x os) (some-inj later (t ∷ ts) (sym e ∙ h)) f)
  | inr (_, h) ↦ skip t ts (o ∷ os) (seek-Follows ts later o os (sym h ∙ e) f)
]

check_from-step :
    (i : ℕ) (chain : List Transition) (o : Observation) (os : List Observation)
    → ((later : List Transition) × (seek o chain ≡ some later)
        × (check_from i chain (o ∷ os) ≡ check_from (i + 1) later os))
      ⊎ ((seek o chain ≡ none)
          × (check_from i chain (o ∷ os) ≡ err (record { observation = i; lease_id = o.lease_id })))
unfolding check_from
check_from-step i chain o os = elim (Option-cases (seek o chain)) [
  | inl e ↦ inr (e, rw (e, check_from))
  | inr (later, e) ↦ inl (later, e, rw (e, check_from))
]

check_from-Follows :
    (os : List Observation) (i : ℕ) (chain : List Transition)
    → check_from i chain os ≡ ok tt
    → Follows chain os
check_from-Follows [] i chain e = done chain
check_from-Follows (o ∷ os) i chain e = elim (check_from-step i chain o os) [
  | inl (later, s, h) ↦
      seek-Follows chain later o os s (check_from-Follows os (i + 1) later (sym h ∙ e))
  | inr (_, h) ↦ absurd cc
]

Follows-check_from :
    (os : List Observation) (i : ℕ) (chain : List Transition)
    → Follows chain os
    → check_from i chain os ≡ ok tt
Follows-check_from [] i chain f = unfold check_from in refl
Follows-check_from (o ∷ os) i chain f = elim (check_from-step i chain o os) [
  | inl (later, s, h) ↦ h ∙ Follows-check_from os (i + 1) later (Follows-seek chain later o os s f)
  | inr (s, _) ↦ absurd (seek-none chain o os s f)
]

-- A client's observations are accepted exactly when they can be laid on the chain in their order: the
-- search for the first place of each observation misses no way to lay them.
pub client_history_consistent-Follows :
    (chain : List Transition) (history : List Observation)
    → (client_history_consistent chain history ≡ ok tt) ↔ Follows chain history
unfolding client_history_consistent
client_history_consistent-Follows chain history =
    (check_from-Follows history 0 chain, Follows-check_from history 0 chain)
