-- ===== src/ClientGate.antt =====
-- examples/lease-sequencer/src/client_gate.rs: the silence and start switch of a lease-load worker.
mod Laws
mod Tests
use Prim.Native.String.{String}
use lunet_locks.Prelude.{ℕ, Option, none, some}

pub data Mode : Type 0 where
  off on : Mode

pub data Op : Type 0 where
  get set extend : Op

pub record Gate : Type 0 where
  pub mode : Mode
  pub schedule : Option ℕ
  pub holder : Option String
  pub lease_id : ℕ
  pub request_num : ℕ

abbrev pub boot : Gate
boot = record { mode = off; schedule = none; holder = none; lease_id = 0; request_num = 0 }

unfoldable pub reset_bookkeeping : Gate → Gate
reset_bookkeeping g = record g { lease_id = 0; request_num = 0 }

unfoldable pub stop : Gate → ℕ → Gate
unfolding reset_bookkeeping
stop g wall_ms = reset_bookkeeping (record g { mode = off; schedule = none; holder = none })

unfoldable pub start : Gate → ℕ → Gate
start g wall_ms = record g { mode = on }

abbrev op_on : Option ℕ → Option String → Option Op
op_on none holder = some get
op_on (some at) (some h) = some extend
op_on (some at) none = some get

abbrev op_in : Mode → Gate → Option Op
op_in off g = none
op_in on g = op_on g.schedule g.holder

unfoldable pub next_op : Gate → ℕ → Option Op
next_op g now = op_in g.mode g
