-- ===== src/Witness/Tests.antt =====
-- Runs of the witness on concrete frontiers, and the theorems at such inputs.
use lunet_locks.Prelude.{ℕ, ◌≡◌, refl, List, [], ◌∷◌, true, All, In}
use lunet_locks.Witness.{
  Frontier, frontier_lt, frontier_eq, force_flush, held, acked, new, covers, observe,
  flushed_through_buffer, sync_point, Event, landed, flushed_all, asked, step, run,
}
use lunet_locks.Witness.Answers.{held-answered, run-durable}

abbrev at : ℕ → Frontier
at n = record { era = 1; view = 2; slot = n }

abbrev script : List Event
script = landed (at 5) ∷ asked (at 7) ∷ landed (at 8) ∷ flushed_all ∷ []

run-script : (run new script).1 ≡ at 7 ∷ []
unfolding run step observe sync_point flushed_through_buffer frontier_lt frontier_eq
run-script = refl

sync_point-force : (sync_point (observe new (at 5)) (at 4)).1 ≡ force_flush
unfolding sync_point observe frontier_lt frontier_eq
sync_point-force = refl

sync_point-acked : (sync_point (run new script).0 (at 8)).1 ≡ acked
unfolding run step observe sync_point flushed_through_buffer frontier_lt frontier_eq
sync_point-acked = refl

asked_held : (sync_point new (at 7)).1 ≡ held
unfolding sync_point frontier_lt frontier_eq
asked_held = refl

asked_covered : covers (run (sync_point new (at 7)).0 (landed (at 8) ∷ [])).0.buffered (at 7) ≡ true
unfolding run step observe sync_point frontier_lt frontier_eq
asked_covered = refl

held-answered_example :
    In (at 7) (run (sync_point new (at 7)).0 (landed (at 8) ∷ flushed_all ∷ [])).1
held-answered_example = held-answered new (at 7) (landed (at 8) ∷ []) asked_held asked_covered

run-durable_example : All (λ p. covers (run new script).0.flushed p ≡ true) (run new script).1
run-durable_example = run-durable new script
