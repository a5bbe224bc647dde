-- ===== src/Timeouts/Tests.antt =====
-- Floats by thousandths, runs of the toggle, and the theorems at concrete inputs.
use lunet_locks.Prelude.{
  ℕ, ◌*◌, ◌/◌, ◌≤◌, ◌≡◌, refl, min, max, true, false, none, some, List, [], ◌∷◌, arith,
}
use lunet_locks.Timeouts.Float.{Float, random_wait_ms}
use lunet_locks.Timeouts.Toggle.{new, Signal, suspicion, commit, step, log, IsChain, log-IsChain}
use lunet_locks.Timeouts.Timers.{
  Key, LeaderTimeout, ViewChangeTimer, new_leader_timeout, is_watching, leader_due, watch,
  watch_window, watch_again,
}

-- A number is held in thousandths.
mul_lem : (x n : ℕ) → x ≤ 1000 → x * (1000 * n) / 1000 ≤ 1000 * n
mul_lem x n h = grind arith

abbrev thousandths : Float
thousandths = record {
  F = ℕ;
  zero_value = 0;
  one_value = 1000;
  of_u64 = λ n. 1000 * n;
  to_u64 = λ x. x / 1000;
  clamp = λ x lo hi. min hi (max lo x);
  mul = λ x y. x * y / 1000;
  NotAbove = λ x y. x ≤ y;
  clamp_NotAbove = λ x lo hi. omega arith;
  mul_NotAbove = mul_lem;
  to_u64_exact = λ x n h k. omega arith;
}

wait_half : random_wait_ms thousandths 100 300 500 ≡ 200
unfolding random_wait_ms
wait_half = refl

abbrev signals : List Signal
signals = suspicion 10 ∷ suspicion 12 ∷ commit 20 ∷ commit 21 ∷ suspicion 30 ∷ []

log-signals :
    log new signals
    ≡ record { timedout = true; at_ms = 10; previous_ms = none }
      ∷ record { timedout = false; at_ms = 20; previous_ms = some 10 }
      ∷ record { timedout = true; at_ms = 30; previous_ms = some 20 }
      ∷ []
unfolding log step
log-signals = refl

log-IsChain_example : IsChain false none (log new signals)
log-IsChain_example = log-IsChain new signals

abbrev leader : LeaderTimeout
leader = new_leader_timeout 100 300

abbrev key : Key
key = record { era = 1; leader = 2 }

watch_window_example :
    (leader_due (watch thousandths leader key 1000 500) 1050 ≡ false)
    × (leader_due (watch thousandths leader key 1000 500) 1300 ≡ true)
    × (is_watching (watch thousandths leader key 1000 500).watched key ≡ true)
watch_window_example =
    watch_window thousandths leader key 1000 1050 1300 500 refl (omega arith) (omega arith)
      (omega arith) (omega arith) (omega arith)

watch_again_example :
    watch thousandths (watch thousandths leader key 1000 500) key 1200 900
    ≡ watch thousandths leader key 1000 500
watch_again_example = watch_again thousandths leader key 1000 1200 500 900

abbrev poll : ViewChangeTimer
poll = record { min_ms = 100; max_ms = 300; deadline_ms = 0; armed = false }
