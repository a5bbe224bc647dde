-- ===== src/Timeouts/Toggle.antt =====
-- The `timedout` toggle and the records that it logs.
use lunet_locks.Prelude.{
  ℕ, Bool, true, false, not, ◌≡◌, ◌≢◌, refl, Option, none, some, List, [], ◌∷◌, ◌++◌, arith,
  if◌then◌else◌,
}

pub record ToggleRecord : Type 0 where
  pub timedout : Bool
  pub at_ms : ℕ
  pub previous_ms : Option ℕ

pub record TimeoutToggle : Type 0 where
  pub timedout : Bool
  pub last_toggle_ms : Option ℕ

abbrev pub new : TimeoutToggle
new = record { timedout = false; last_toggle_ms = none }

-- `==` on bool.
abbrev same : Bool → Bool → Bool
same true b = b
same false b = not b

pub set : TimeoutToggle → Bool → ℕ → TimeoutToggle × Option ToggleRecord
set t value now = if same t.timedout value then (t, none) else (
  record { timedout = value; last_toggle_ms = some now },
  some (record { timedout = value; at_ms = now; previous_ms = t.last_toggle_ms }),
)

unfoldable pub on_suspicion : TimeoutToggle → ℕ → TimeoutToggle × Option ToggleRecord
unfolding set
on_suspicion t now = set t true now

unfoldable pub on_commit : TimeoutToggle → ℕ → TimeoutToggle × Option ToggleRecord
unfolding set
on_commit t now = set t false now

pub data Signal : Type 0 where
  suspicion : ℕ → Signal
  commit : ℕ → Signal

unfoldable pub step : TimeoutToggle → Signal → TimeoutToggle × Option ToggleRecord
unfolding on_suspicion on_commit
step t (suspicion now) = on_suspicion t now
step t (commit now) = on_commit t now

abbrev pub to_list {ℓ} : {A : Type ℓ} → Option A → List A
to_list none = []
to_list (some a) = a ∷ []

-- The records that a sequence of signals logs, in order.
unfoldable pub log : TimeoutToggle → List Signal → List ToggleRecord
log t [] = []
log t (s ∷ rest) = let (t', r) = step t s in to_list r ++ log t' rest

-- The state that a sequence of signals leaves.
unfoldable pub after : TimeoutToggle → List Signal → TimeoutToggle
after t [] = t
after t (s ∷ rest) = after (step t s).0 rest

-- Each record reports a change of state, and names the time of the record before it.
abbrev pub IsChain : Bool → Option ℕ → List ToggleRecord → Type 0
IsChain state previous [] = Unit
IsChain state previous (r ∷ rest) =
    (r.timedout ≢ state) × (r.previous_ms ≡ previous) × IsChain r.timedout (some r.at_ms) rest

-- Whatever the signals, the records that the toggle logs change the state each time, beginning with
-- a change of the state it stands in, and each carries the time of the record before it.
pub log-IsChain :
    (t : TimeoutToggle) (signals : List Signal)
    → IsChain t.timedout t.last_toggle_ms (log t signals)
unfolding log step
log-IsChain t [] = tt
log-IsChain t (suspicion now ∷ rest) = ground (
  arith,
  log-IsChain t rest,
  log-IsChain (record { timedout = true; last_toggle_ms = some now }) rest,
)
log-IsChain t (commit now ∷ rest) = ground (
  arith,
  log-IsChain t rest,
  log-IsChain (record { timedout = false; last_toggle_ms = some now }) rest,
)

abbrev pub last_state : Bool → List ToggleRecord → Bool
last_state b [] = b
last_state b (r ∷ rest) = last_state r.timedout rest

-- The log is complete: the state after any signals is the one that the last record reports, or the
-- first state where nothing was logged.
pub after-last_state :
    (t : TimeoutToggle) (signals : List Signal)
    → (after t signals).timedout ≡ last_state t.timedout (log t signals)
unfolding after log step
after-last_state t [] = refl
after-last_state t (suspicion now ∷ rest) = ground (
  arith,
  after-last_state t rest,
  after-last_state (record { timedout = true; last_toggle_ms = some now }) rest,
)
after-last_state t (commit now ∷ rest) = ground (
  arith,
  after-last_state t rest,
  after-last_state (record { timedout = false; last_toggle_ms = some now }) rest,
)
