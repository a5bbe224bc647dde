-- ===== src/ClientGate/Tests.antt =====
-- A worker that held a lease is silenced and started again.
use lunet_locks.Prelude.{◌≡◌, ◌≢◌, refl, some, [], ◌∷◌}
use lunet_locks.ClientGate.{on, get, extend, Gate, stop, next_op}
use lunet_locks.ClientGate.Laws.{begin, handle, handle_all, IsClear, silence_forgets}

abbrev holding : Gate
holding = record {
  mode = on;
  schedule = some 900;
  holder = some "a";
  lease_id = 4;
  request_num = 9;
}

restarted_probes : next_op (handle_all (stop holding 100) (begin 200 ∷ [])) 300 ≡ some get
unfolding next_op handle_all handle stop
restarted_probes = refl

silence_forgets_example :
    IsClear (handle_all (stop holding 100) (begin 200 ∷ []))
    × (next_op (handle_all (stop holding 100) (begin 200 ∷ [])) 300 ≢ some extend)
silence_forgets_example = silence_forgets holding 100 300 (begin 200 ∷ [])
