-- ===== src/Aof/Core.antt =====
-- The writer's core: append, flush, checkpoint, roll. Every call of the disk is answered by a stream:
-- `none` where it succeeds, `some n` where it fails (a failed write leaves `n` bytes). The first failure
-- stops the core, since the process aborts on it.
use lunet_locks.Prelude.{
  ℕ, zero, suc, ◌+◌, ◌-◌, Bool, true, false, Option, none, some, List, [], ◌∷◌, ◌++◌, ltb, leb,
  ◌==◌, if◌then◌else◌, length, take, drop, replicate,
}
use lunet_locks.Prelude.Results.{Result, ok, err, ◌>>=◌}
use lunet_locks.Journal.Record.{record_size, JournalEvent, Meta, encode, parse_record}
use lunet_locks.Journal.Window.{Window, note, meta_of}
use lunet_locks.Journal.Files.{RolledFile, rename_onto}
use lunet_locks.Aof.Sink.{FileSink, write_all_blocking}

-- One erasure block.
abbrev pub roll_bytes : ℕ
roll_bytes = 2097152

pub record AofCore : Type 0 where
  pub flush_bytes : ℕ
  pub sink : FileSink
  pub written : ℕ
  pub window : Option Window
  pub syncs : ℕ
  pub buf : List ℕ
  pub is_open : Bool
  pub rolled : List RolledFile
  pub calls : ℕ

-- What can stop the core, the assertion of `roll` among them.
pub data Call : Type 0 where
  write_call sync_call rename_call metafile_call create_call roll_assert : Call

-- The call that failed, and what was there when it had.
pub record Stopped : Type 0 where
  pub call : Call
  pub left : AofCore

abbrev pub stopped : Call → AofCore → Result Stopped AofCore
stopped c core = err (record { call = c; left = core })

-- `sink.write_all(&pending)`, with the answer to it.
unfoldable pub wrote_as : FileSink × Bool → AofCore → Result Stopped AofCore
wrote_as (s, true) core = ok (record core { sink = s })
wrote_as (s, false) core = stopped write_call (record core { sink = s })

unfoldable pub write_answered : Option ℕ → List ℕ → AofCore → Result Stopped AofCore
unfolding wrote_as write_all_blocking
write_answered answer bytes core = wrote_as (write_all_blocking answer bytes core.sink) core

unfoldable pub sync_answered : Option ℕ → AofCore → Result Stopped AofCore
sync_answered none core = ok (record core {
  sink = record core.sink { synced = length core.sink.content };
  syncs = core.syncs + 1;
})
sync_answered (some n) core = stopped sync_call core

-- The open file moves under its final name.
unfoldable pub rename_answered : Option ℕ → Meta → AofCore → Result Stopped AofCore
rename_answered none m core = ok (record core {
  is_open = false;
  rolled =
      rename_onto core.rolled (record { name = m; bytes = core.sink.content; metafile = none });
})
rename_answered (some n) m core = stopped rename_call core

-- The metafile beside the file of that name.
unfoldable pub put_metafile : Meta → List RolledFile → List RolledFile
put_metafile m [] = []
put_metafile m (f ∷ []) = record f { metafile = some m } ∷ []
put_metafile m (f ∷ (g ∷ fs)) = f ∷ put_metafile m (g ∷ fs)

unfoldable pub metafile_answered : Option ℕ → Meta → AofCore → Result Stopped AofCore
unfolding put_metafile
metafile_answered none m core = ok (record core { rolled = put_metafile m core.rolled })
metafile_answered (some n) m core = stopped metafile_call core

unfoldable pub create_answered : Option ℕ → AofCore → Result Stopped AofCore
create_answered none core = ok (record core {
  sink = record { content = []; offset = 0; synced = 0 };
  is_open = true;
  written = 0;
  window = none;
})
create_answered (some n) core = stopped create_call core

-- The answer to the next call of the disk.
abbrev pub ask :
    (ℕ → Option ℕ)
    → AofCore
    → (Option ℕ → AofCore → Result Stopped AofCore)
    → Result Stopped AofCore
ask disk core f = f (disk core.calls) (record core { calls = core.calls + 1 })

unfoldable pub flush_buf : (ℕ → Option ℕ) → AofCore → Result Stopped AofCore
flush_buf disk core =
    if length core.buf == 0
    then ok core
    else ask disk (record core { buf = [] }) (λ a c. write_answered a core.buf c)

unfoldable pub checkpoint : (ℕ → Option ℕ) → AofCore → Result Stopped AofCore
checkpoint disk core = do c ← flush_buf disk core; ask disk c sync_answered

abbrev pub asserted : AofCore → Result Stopped AofCore
asserted core = if core.sink.offset == roll_bytes then ok core else stopped roll_assert core

unfoldable pub roll_window : (ℕ → Option ℕ) → Window → AofCore → Result Stopped AofCore
roll_window disk w core = do
  c ← flush_buf disk (record core { buf = core.buf ++ replicate (roll_bytes - core.written) 0 })
  c ← ask disk c sync_answered
  c ← asserted c
  c ← ask disk c (λ a. rename_answered a (meta_of w))
  c ← ask disk c (λ a. metafile_answered a (meta_of w))
  ask disk c create_answered

abbrev pub rolled_by : (ℕ → Option ℕ) → Option Window → AofCore → Result Stopped AofCore
rolled_by disk none core = ok core
rolled_by disk (some w) core = roll_window disk w core

unfoldable pub roll : (ℕ → Option ℕ) → AofCore → Result Stopped AofCore
roll disk core = rolled_by disk core.window core

-- `append` behind the roll that makes room.
unfoldable pub append_here : (ℕ → Option ℕ) → JournalEvent → AofCore → Result Stopped AofCore
unfolding note
append_here disk e core =
    let c : AofCore = record core {
      buf = core.buf ++ encode e;
      window = note core.window e;
      written = core.written + record_size;
    } in
    do
      c ← if leb c.flush_bytes (length c.buf) then flush_buf disk c else ok c
      if c.written == roll_bytes then roll disk c else ok c

unfoldable pub append : (ℕ → Option ℕ) → JournalEvent → AofCore → Result Stopped AofCore
append disk e core = do
  c ← if ltb roll_bytes (core.written + record_size) then roll disk core else ok core
  append_here disk e c

-- The loop of `open_on` over the open file: its whole records, and their window. The fuel is the
-- number of bytes.
unfoldable pub scan : ℕ → ℕ → List ℕ → Option Window → ℕ × Option Window
unfolding note
scan zero scanned bytes w = (scanned, w)
scan (suc fuel) scanned bytes w =
    if ltb (length bytes) record_size then (scanned, w) else elim (parse_record (take 61 bytes)) [
      | some (e, n) ↦ scan fuel (scanned + record_size) (drop 61 bytes) (note w e)
      | none ↦ (scanned, w)
    ]

abbrev pub adopted : ℕ → List ℕ → List RolledFile → ℕ × Option Window → AofCore
adopted flush_bytes bytes rolled (scanned, w) = record {
  flush_bytes = flush_bytes;
  sink = record {
    content = if ltb scanned (length bytes) then take scanned bytes else bytes;
    offset = scanned;
    synced = 0;
  };
  written = scanned;
  window = w;
  syncs = 0;
  buf = [];
  is_open = true;
  rolled = rolled;
  calls = 0;
}

-- `open_on`, where the directory has an open file or has none, and no call fails.
unfoldable pub open_on : ℕ → Option (List ℕ) → List RolledFile → AofCore
unfolding scan
open_on flush_bytes (some bytes) rolled =
    adopted flush_bytes bytes rolled (scan (length bytes) 0 bytes none)
open_on flush_bytes none rolled = adopted flush_bytes [] rolled (0, none)
