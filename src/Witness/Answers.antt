-- ===== src/Witness/Answers.antt =====
-- Which acknowledgements a flush releases, and that no held point is lost.
use lunet_locks.Prelude.{
  true, false, ◌≡◌, refl, ◌⊎◌, inl, inr, Option, none, some, List, [], ◌∷◌, ◌++◌, arith, Bool-cases,
  any, All, All-mono, All-append, In, keep-All,
}
use lunet_locks.Prelude.Members.{In-keep, In-append_left, In-append_right}
use lunet_locks.Witness.{
  Frontier, frontier_eq, frontier_le, WitnessWatermarks, held, covers, is_below, observe,
  resolve_at, raise_at, raise_flushed, flushed_through_buffer, sync_point, Event, landed,
  flushed_all, asked, step, run,
}
use lunet_locks.Witness.Order.{frontier_eq_sound, covers_mono, not-is_below-IsUpTo}
use lunet_locks.Witness.Invariant.{resolve_at_marks, raise_at-held, run-Advances}

resolve_at-covered :
    (m : Option Frontier) (w : WitnessWatermarks) → All (λ p. covers m p ≡ true) (resolve_at m w).1
unfolding resolve_at
resolve_at-covered none w = tt
resolve_at-covered (some m) w = keep-All _ w.held_points

-- A flush acknowledges only points that the new flushed mark covers.
pub flush-durable :
    (w : WitnessWatermarks)
    → All (λ p. covers (flushed_through_buffer w).0.flushed p ≡ true) (flushed_through_buffer w).1
unfolding flushed_through_buffer
flush-durable w =
    let up = raise_at w.buffered w in
    rw ((resolve_at_marks up.flushed up).0) (resolve_at-covered up.flushed up)

raise_at-covers :
    (w : WitnessWatermarks) (f : Frontier) (m : Option Frontier)
    → covers m f ≡ true
    → covers (raise_at m w).flushed f ≡ true
unfolding raise_at
raise_at-covers w f none h = ground arith
raise_at-covers w f (some b) h = elim (Bool-cases (is_below w.flushed b)) [
  | inl e ↦ rw e h
  | inr e ↦ rw e (covers_mono (some b) w.flushed f (not-is_below-IsUpTo w.flushed b e) h)
]

resolve_at-releases :
    (m : Option Frontier) (w : WitnessWatermarks) (f : Frontier)
    → In f w.held_points
    → covers m f ≡ true
    → In f (resolve_at m w).1
unfolding resolve_at
resolve_at-releases none w f i h = cc
resolve_at-releases (some m) w f i h = In-keep f _ w.held_points i h

resolve_at-keeps :
    (m : Option Frontier) (w : WitnessWatermarks) (f : Frontier)
    → In f w.held_points
    → In f (resolve_at m w).1 ⊎ In f (resolve_at m w).0.held_points
unfolding resolve_at
resolve_at-keeps none w f i = inr i
resolve_at-keeps (some m) w f i = elim (Bool-cases (frontier_le f m)) [
  | inl e ↦ inl (In-keep f _ w.held_points i e)
  | inr e ↦ inr (In-keep f _ w.held_points i (rw e))
]

-- A flush answers every held point that the buffer covered.
pub flush-releases :
    (w : WitnessWatermarks) (f : Frontier)
    → In f w.held_points
    → covers w.buffered f ≡ true
    → In f (flushed_through_buffer w).1
unfolding flushed_through_buffer
flush-releases w f i h =
    resolve_at-releases _ _ f (rw raise_at-held i) (raise_at-covers w f w.buffered h)

-- A held point stays held until a call answers it.
step-keeps :
    (w : WitnessWatermarks) (e : Event) (f : Frontier)
    → In f w.held_points
    → In f (step w e).1 ⊎ In f (step w e).0.held_points
unfolding step observe sync_point flushed_through_buffer
step-keeps w (landed g) f i = elim (Bool-cases (is_below w.buffered g)) [
  | inl e ↦ rw e (inr i)
  | inr e ↦ rw e (inr i)
]
step-keeps w flushed_all f i =
    resolve_at-keeps (raise_flushed w).flushed (raise_flushed w) f (rw raise_at-held i)
step-keeps w (asked g) f i = elim (Bool-cases (covers w.flushed g)) [
  | inl e ↦ rw e (inr i)
  | inr e ↦ rw e (elim (Bool-cases (covers w.buffered g)) [
    | inl b ↦ rw b (inr i)
    | inr b ↦ rw b (elim (Bool-cases (any (frontier_eq g) w.held_points)) [
      | inl a ↦ rw a (inr i)
      | inr a ↦ rw a (inr (In-append_left f w.held_points (g ∷ []) i))
    ])
  ])
]

run-answers :
    (w : WitnessWatermarks) (es : List Event) (f : Frontier)
    → In f w.held_points
    → covers (run w es).0.buffered f ≡ true
    → In f (run w (es ++ flushed_all ∷ [])).1
unfolding run step
run-answers w [] f i h = In-append_left f _ [] (flush-releases w f i h)
run-answers w (e ∷ es) f i h = elim (step-keeps w e f i) [
  | inl now ↦ In-append_left f (step w e).1 _ now
  | inr kept ↦ In-append_right f (step w e).1 _ (run-answers (step w e).0 es f kept h)
]

any-In : (f : Frontier) (xs : List Frontier) → any (frontier_eq f) xs ≡ true → In f xs
any-In f [] h = cc
any-In f (x ∷ xs) h = elim (Bool-cases (frontier_eq f x)) [
  | inl e ↦ inl (frontier_eq_sound f x e)
  | inr e ↦ inr (any-In f xs (rw e at h))
]

-- A point that the witness answers with `Held` is in the hold set, beyond both marks.
pub sync_point-In :
    (w : WitnessWatermarks) (f : Frontier)
    → (sync_point w f).1 ≡ held
    → In f (sync_point w f).0.held_points
      × (covers w.flushed f ≡ false)
      × (covers w.buffered f ≡ false)
unfolding sync_point
sync_point-In w f h = elim (Bool-cases (covers w.flushed f)) [
  | inl e ↦ cc (rw e at h)
  | inr e ↦ elim (Bool-cases (covers w.buffered f)) [
    | inl b ↦ cc (rw (e, b) at h)
    | inr b ↦
        rw (e, b)
          (elim (Bool-cases (any (frontier_eq f) w.held_points)) [
            | inl a ↦ rw a (any-In f w.held_points a, refl, refl)
            | inr a ↦ rw a (In-append_right f w.held_points (f ∷ []) (inl refl), refl, refl)
          ])
  ]
]

-- A sync point that is answered with `Held` gets its acknowledgement: whatever calls follow, once the
-- buffer covers the point, the next flush has released it, or an earlier flush already had.
pub held-answered :
    (w : WitnessWatermarks) (f : Frontier) (es : List Event)
    → (sync_point w f).1 ≡ held
    → covers (run (sync_point w f).0 es).0.buffered f ≡ true
    → In f (run (sync_point w f).0 (es ++ flushed_all ∷ [])).1
held-answered w f es h k = run-answers (sync_point w f).0 es f (sync_point-In w f h).0 k

-- Every point that the calls of a run release is covered by the flushed mark that the run ends with.
pub run-durable :
    (w : WitnessWatermarks) (es : List Event)
    → All (λ p. covers (run w es).0.flushed p ≡ true) (run w es).1
unfolding run
run-durable w [] = tt
run-durable w (e ∷ es) =
    All-append _ (step w e).1 _
      (All-mono _ _ (step w e).1 (λ p h. covers_mono _ _ p (run-Advances (step w e).0 es).flushed h)
        (step-durable w e))
      (run-durable (step w e).0 es)
  where
    step-durable :
        (w : WitnessWatermarks) (e : Event)
        → All (λ p. covers (step w e).0.flushed p ≡ true) (step w e).1
    step-durable w (landed f) = unfold step in tt
    step-durable w flushed_all = unfold step in flush-durable w
    step-durable w (asked f) = unfold step in tt
