-- ===== src/Aof/Pump.antt =====
-- The writer thread: the turns of its loop, and its end.
use lunet_locks.Prelude.{ℕ, Bool, Option, none, some, List, [], ◌∷◌, ◌++◌, if◌then◌else◌, take}
use lunet_locks.Prelude.Results.{Result, ok, ◌>>=◌}
use lunet_locks.Journal.Record.{JournalEvent}
use lunet_locks.Aof.Core.{AofCore, Stopped, append, flush_buf, checkpoint}
use lunet_locks.Aof.Log.{Log, log_append, StopsFine}

pub data Msg : Type 0 where
  event : JournalEvent → Msg
  checkpoint_request drain_request : Msg

-- One turn: the message received, `none` where the wait timed out, and whether the flush and the sync
-- are due by the clock.
pub record Turn : Type 0 where
  pub received : Option Msg
  pub flush_due : Bool
  pub sync_due : Bool

-- The arm of the message. A drain request's sender is answered with what its checkpoint returned,
-- before the rest of the turn.
abbrev pub handle : (ℕ → Option ℕ) → Option Msg → AofCore → Result Stopped AofCore
handle disk (some (event e)) core = append disk e core
handle disk (some checkpoint_request) core = checkpoint disk core
handle disk (some drain_request) core = checkpoint disk core
handle disk none core = ok core

unfoldable pub pump_turn : (ℕ → Option ℕ) → Turn → AofCore → Result Stopped AofCore
pump_turn disk t core = do
  c ← handle disk t.received core
  c ← if t.flush_due then flush_buf disk c else ok c
  if t.sync_due then checkpoint disk c else ok c

unfoldable pub pump_turns : (ℕ → Option ℕ) → List Turn → AofCore → Result Stopped AofCore
pump_turns disk [] core = ok core
pump_turns disk (t ∷ ts) core = do c ← pump_turn disk t core; pump_turns disk ts c

-- The loop until the senders are gone, then `shutdown`.
unfoldable pub pump : (ℕ → Option ℕ) → List Turn → AofCore → Result Stopped AofCore
unfolding pump_turns
pump disk ts core = do c ← pump_turns disk ts core; checkpoint disk c

abbrev pub event_of : Option Msg → List JournalEvent
event_of (some (event e)) = e ∷ []
event_of _ = []

abbrev pub events_of : List Turn → List JournalEvent
events_of [] = []
events_of (t ∷ ts) = event_of t.received ++ events_of ts

abbrev pub log_run : Log → List JournalEvent → Log
log_run log [] = log
log_run log (e ∷ es) = log_run (log_append log e) es

-- A failed call stopped the core when a first part of the events was in the log.
pub record StopsWithin (disk : ℕ → Option ℕ) (log : Log) (es : List JournalEvent) (s : Stopped)
    : Type 0 where
  pub taken : ℕ
  pub stops : StopsFine disk (log_run log (take taken es)) s
