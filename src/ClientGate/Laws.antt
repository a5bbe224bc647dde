-- ===== src/ClientGate/Laws.antt =====
-- What a silence leaves behind.
use lunet_locks.Prelude.{ℕ, ◌≡◌, ◌≢◌, ◌↔◌, refl, none, some, List, [], ◌∷◌, arith}
use lunet_locks.ClientGate.{off, on, extend, Gate, stop, start, next_op}

-- The two signals of a worker, with the wall clock.
pub data Signal : Type 0 where
  silence : ℕ → Signal
  begin : ℕ → Signal

unfoldable pub handle : Gate → Signal → Gate
unfolding stop start
handle g (silence w) = stop g w
handle g (begin w) = start g w

unfoldable pub handle_all : Gate → List Signal → Gate
handle_all g [] = g
handle_all g (s ∷ rest) = handle_all (handle g s) rest

-- A gate that holds nothing of an earlier life.
pub record IsClear (g : Gate) : Type 0 where
  pub no_schedule : g.schedule ≡ none
  pub no_holder : g.holder ≡ none
  pub no_lease : g.lease_id ≡ 0
  pub no_request : g.request_num ≡ 0

handle-IsClear : (g : Gate) (s : Signal) → IsClear g → IsClear (handle g s)
unfolding handle
handle-IsClear g (silence w) c = record {
  no_schedule = refl;
  no_holder = refl;
  no_lease = refl;
  no_request = refl;
}
handle-IsClear g (begin w) c = record {
  no_schedule = c.no_schedule;
  no_holder = c.no_holder;
  no_lease = c.no_lease;
  no_request = c.no_request;
}

handle_all-IsClear : (g : Gate) (ss : List Signal) → IsClear g → IsClear (handle_all g ss)
unfolding handle_all
handle_all-IsClear g [] c = c
handle_all-IsClear g (s ∷ ss) c = handle_all-IsClear (handle g s) ss (handle-IsClear g s c)

clear_probes : (g : Gate) (now : ℕ) → IsClear g → next_op g now ≢ some extend
unfolding next_op
clear_probes g now c h = ground arith

-- After a silence, whatever signals follow, the gate has no schedule, no holder and no bookkeeping,
-- and the next operation is never the extension of a lease.
pub silence_forgets :
    (g : Gate) (wall now : ℕ) (ss : List Signal)
    → IsClear (handle_all (stop g wall) ss)
      × (next_op (handle_all (stop g wall) ss) now ≢ some extend)
unfolding stop
silence_forgets g wall now ss =
    let c =
      handle_all-IsClear (stop g wall) ss
        (record { no_schedule = refl; no_holder = refl; no_lease = refl; no_request = refl }) in
    (c, clear_probes _ now c)

-- The worker acts exactly while the gate is on, and extends a lease exactly where it is on with
-- both a schedule and a holder.
pub next_op_exact :
    (g : Gate) (now : ℕ)
    → ((next_op g now ≡ none) ↔ (g.mode ≡ off))
      × ((next_op g now ≡ some extend) ↔ ((g.mode ≡ on) × (g.schedule ≢ none) × (g.holder ≢ none)))
unfolding next_op
next_op_exact g now = ground arith
