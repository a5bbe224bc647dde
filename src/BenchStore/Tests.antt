-- ===== src/BenchStore/Tests.antt =====
-- A first life, a clean cycle and a surprise, and the theorems at such inputs.
use lunet_locks.Prelude.{◌≡◌, refl, true, some, none, List, [], ◌∷◌}
use lunet_locks.BenchStore.{
  stopping, stopped, joining, running, unexpected_drain, verdict_stopped, NodeDiscipline, new,
  is_sentinel, signal_clean_stop, on_read, on_commit, on_drain, read, drain, commit, handle_line,
}
use lunet_locks.BenchStore.History.{
  Event, clean_stop, call, step, run, start, StoppedFirst, stopped_earned,
}

abbrev first_life : List Event
first_life = call read ∷ call (commit (some 7) joining) ∷ []

abbrev one_stop : List Event
one_stop =
    call read
    ∷ call (commit (some 7) joining)
    ∷ clean_stop
    ∷ call (commit (some 7) stopping)
    ∷ call drain
    ∷ call (commit (some 7) stopped)
    ∷ []

one_stop_read : (on_read (run start one_stop).discipline).1 ≡ verdict_stopped 7
unfolding on_read run step handle_line on_commit on_drain signal_clean_stop is_sentinel
one_stop_read = refl

stopped_earned_example :
    StoppedFirst (run start one_stop).history × (7 ≡ (run start one_stop).discipline.incarnation)
stopped_earned_example = stopped_earned one_stop 7 one_stop_read

surprised : (run start (call drain ∷ [])).discipline.violation ≡ some (unexpected_drain new.phase)
unfolding run step handle_line on_drain
surprised = refl

abbrev serving : NodeDiscipline
serving = record {
  incarnation = 7;
  marker = some joining;
  phase = running;
  bump_rounds = 0;
  violation = none;
}

joining_sentinel : is_sentinel joining ≡ true
unfolding is_sentinel
joining_sentinel = refl
