-- ===== src/Witness/Invariant.antt =====
-- What every witness that the driver can reach satisfies, and how its marks move.
use lunet_locks.Prelude.{
  Bool, true, false, not, ◌≡◌, refl, inl, inr, Option, none, some, List, [], ◌∷◌, arith, Bool-cases,
  any, All, All-append, All-mono, keep-All,
}
use lunet_locks.Prelude.Distinct.{IsEquivalence, DistinctBy, keep-DistinctBy, concat-DistinctBy}
use lunet_locks.Witness.{
  Frontier, frontier_eq, frontier_le, WitnessWatermarks, new, covers, is_below, observe, resolve_at,
  raise_at, flushed_through_buffer, sync_point, Event, landed, flushed_all, asked, step, run,
}
use lunet_locks.Witness.Order.{IsUpTo, IsUpTo-refl, IsUpTo-trans, is_below-IsUpTo}

-- The flushed mark is not ahead of the buffered one, every held point lies beyond the flushed mark,
-- and no point is held twice.
pub record IsConsistent (w : WitnessWatermarks) : Type 0 where
  pub marks : IsUpTo w.flushed w.buffered
  pub beyond : All (λ p. covers w.flushed p ≡ false) w.held_points
  pub distinct : DistinctBy frontier_eq w.held_points

frontier_eq-IsEquivalence : IsEquivalence frontier_eq
unfolding frontier_eq
frontier_eq-IsEquivalence = record {
  eqb_refl = λ a. ground arith;
  eqb_sym = λ a b. ground arith;
  eqb_same = λ x a b h. ground arith;
}

observe-IsConsistent :
    (w : WitnessWatermarks) (f : Frontier) → IsConsistent w → IsConsistent (observe w f)
unfolding observe
observe-IsConsistent w f c = elim (Bool-cases (is_below w.buffered f)) [
  | inl e ↦ rw e (record {
    marks = IsUpTo-trans w.flushed w.buffered (some f) c.marks (is_below-IsUpTo w.buffered f e);
    beyond = c.beyond;
    distinct = c.distinct;
  })
  | inr e ↦ rw e c
]

sync_point-IsConsistent :
    (w : WitnessWatermarks) (f : Frontier) → IsConsistent w → IsConsistent (sync_point w f).0
unfolding sync_point
sync_point-IsConsistent w f c = elim (Bool-cases (covers w.flushed f)) [
  | inl e ↦ rw e c
  | inr e ↦ rw e (elim (Bool-cases (covers w.buffered f)) [
    | inl b ↦ rw b c
    | inr b ↦ rw b (elim (Bool-cases (any (frontier_eq f) w.held_points)) [
      | inl a ↦ rw a c
      | inr a ↦ rw a (record {
        marks = c.marks;
        beyond = All-append _ w.held_points (f ∷ []) c.beyond (e, tt);
        distinct =
            concat-DistinctBy frontier_eq frontier_eq-IsEquivalence f w.held_points a c.distinct;
      })
    ])
  ])
]

raise_at-marks :
    (m : Option Frontier) (w : WitnessWatermarks)
    → IsUpTo w.flushed m
    → IsUpTo (raise_at m w).flushed m
unfolding raise_at
raise_at-marks none w h = h
raise_at-marks (some b) w h = elim (Bool-cases (is_below w.flushed b)) [
  | inl e ↦ rw e (IsUpTo-refl (some b))
  | inr e ↦ rw e h
]

raise_at-buffered :
    (m : Option Frontier) (w : WitnessWatermarks) → (raise_at m w).buffered ≡ w.buffered
unfolding raise_at
raise_at-buffered none w = refl
raise_at-buffered (some b) w = ground arith

pub raise_at-held :
    (m : Option Frontier) (w : WitnessWatermarks) → (raise_at m w).held_points ≡ w.held_points
unfolding raise_at
raise_at-held none w = refl
raise_at-held (some b) w = ground arith

All-of : (P : Frontier → Type 0) (xs : List Frontier) → ((x : Frontier) → P x) → All P xs
All-of P [] f = tt
All-of P (x ∷ xs) f = (f x, All-of P xs f)

resolve_at-IsConsistent :
    (m : Option Frontier) (w : WitnessWatermarks)
    → w.flushed ≡ m
    → IsUpTo w.flushed w.buffered
    → DistinctBy frontier_eq w.held_points
    → IsConsistent (resolve_at m w).0
unfolding resolve_at
resolve_at-IsConsistent none w e u d = record {
  marks = u;
  beyond = rw e (All-of _ w.held_points (λ p. refl));
  distinct = d;
}
resolve_at-IsConsistent (some m) w e u d = record {
  marks = u;
  beyond = rw e (
      All-mono _ _ _ (λ p h. not-true (frontier_le p m) h)
        (keep-All (λ p. not (frontier_le p m)) w.held_points));
  distinct = keep-DistinctBy frontier_eq _ w.held_points d;
}
  where
    not-true : (b : Bool) → not b ≡ true → b ≡ false
    not-true b h = ground arith

flush-IsConsistent :
    (w : WitnessWatermarks) → IsConsistent w → IsConsistent (flushed_through_buffer w).0
unfolding flushed_through_buffer
flush-IsConsistent w c =
    resolve_at-IsConsistent (raise_at w.buffered w).flushed (raise_at w.buffered w) refl
      (rw raise_at-buffered (raise_at-marks w.buffered w c.marks)) (rw raise_at-held c.distinct)

step-IsConsistent : (w : WitnessWatermarks) (e : Event) → IsConsistent w → IsConsistent (step w e).0
unfolding step
step-IsConsistent w (landed f) c = observe-IsConsistent w f c
step-IsConsistent w flushed_all c = flush-IsConsistent w c
step-IsConsistent w (asked f) c = sync_point-IsConsistent w f c

-- Whatever the driver does to a consistent witness, it stays consistent: the flushed mark is not
-- ahead of the buffered one, every held point lies beyond the flushed mark, and none is held twice.
pub run-IsConsistent :
    (w : WitnessWatermarks) (es : List Event) → IsConsistent w → IsConsistent (run w es).0
unfolding run
run-IsConsistent w [] c = c
run-IsConsistent w (e ∷ es) c = run-IsConsistent (step w e).0 es (step-IsConsistent w e c)

pub new-IsConsistent : IsConsistent new
new-IsConsistent = record { marks = tt; beyond = tt; distinct = tt }

-- Both marks of the second witness are at or above those of the first.
pub record Advances (w v : WitnessWatermarks) : Type 0 where
  pub buffered : IsUpTo w.buffered v.buffered
  pub flushed : IsUpTo w.flushed v.flushed

raise_at-flushed :
    (m : Option Frontier) (w : WitnessWatermarks) → IsUpTo w.flushed (raise_at m w).flushed
unfolding raise_at
raise_at-flushed none w = IsUpTo-refl w.flushed
raise_at-flushed (some b) w = elim (Bool-cases (is_below w.flushed b)) [
  | inl e ↦ rw e (is_below-IsUpTo w.flushed b e)
  | inr e ↦ rw e (IsUpTo-refl w.flushed)
]

pub resolve_at_marks :
    (m : Option Frontier) (w : WitnessWatermarks)
    → ((resolve_at m w).0.flushed ≡ w.flushed) × ((resolve_at m w).0.buffered ≡ w.buffered)
unfolding resolve_at
resolve_at_marks none w = (refl, refl)
resolve_at_marks (some m) w = (refl, refl)

step-Advances : (w : WitnessWatermarks) (e : Event) → Advances w (step w e).0
unfolding step observe sync_point flushed_through_buffer
step-Advances w (landed f) = elim (Bool-cases (is_below w.buffered f)) [
  | inl e ↦
      rw e (record { buffered = is_below-IsUpTo w.buffered f e; flushed = IsUpTo-refl w.flushed })
  | inr e ↦ rw e (record { buffered = IsUpTo-refl w.buffered; flushed = IsUpTo-refl w.flushed })
]
step-Advances w flushed_all =
    let up = raise_at w.buffered w in
    let (f, b) = resolve_at_marks up.flushed up in
    record {
      buffered = rw (b, raise_at-buffered w.buffered w) (IsUpTo-refl w.buffered);
      flushed = rw f (raise_at-flushed w.buffered w);
    }
step-Advances w (asked f) =
    let same = sync_point_marks w f in
    record {
      buffered = rw same.1 (IsUpTo-refl w.buffered);
      flushed = rw same.0 (IsUpTo-refl w.flushed);
    }
  where
    sync_point_marks :
        (w : WitnessWatermarks) (f : Frontier)
        → ((sync_point w f).0.flushed ≡ w.flushed) × ((sync_point w f).0.buffered ≡ w.buffered)
    sync_point_marks w f = (ground arith, ground arith)

-- Neither watermark ever moves backwards, whatever the driver does.
pub run-Advances : (w : WitnessWatermarks) (es : List Event) → Advances w (run w es).0
unfolding run
run-Advances w [] = record { buffered = IsUpTo-refl w.buffered; flushed = IsUpTo-refl w.flushed }
run-Advances w (e ∷ es) =
    let one = step-Advances w e in
    let rest = run-Advances (step w e).0 es in
    record {
      buffered = IsUpTo-trans w.buffered _ _ one.buffered rest.buffered;
      flushed = IsUpTo-trans w.flushed _ _ one.flushed rest.flushed;
    }
