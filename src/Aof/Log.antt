-- ===== src/Aof/Log.antt =====
-- The abstract log: the finished files' events, and the open file's.
use lunet_locks.Prelude.{
  ℕ, ◌*◌, ◌-◌, ◌≤◌, ◌≡◌, refl, ◌⊎◌, Bool, true, false, Option, none, some, List, [], ◌∷◌, ◌++◌,
  ◌==◌, if◌then◌else◌, length, take, replicate, All,
}
use lunet_locks.Prelude.Results.{Result, ok, err, ◌>>=◌}
use lunet_locks.Journal.Record.{JournalEvent, Meta}
use lunet_locks.Journal.RoundTrip.{IsEvent}
use lunet_locks.Journal.FileParse.{encode_all}
use lunet_locks.Journal.Window.{Window, meta_of, note_all}
use lunet_locks.Journal.Files.{RolledFile, rename_onto}
use lunet_locks.Aof.Core.{roll_bytes, AofCore, Call, roll_assert, Stopped}

pub record Log : Type 0 where
  pub finished : List (List JournalEvent)
  pub current : List JournalEvent

-- The records that fit into one erasure block; 33 bytes are left over.
abbrev pub file_events : ℕ
file_events = 34379

unfoldable pub log_append : Log → JournalEvent → Log
log_append log e =
    if length log.current == file_events
    then record { finished = log.finished ++ log.current ∷ []; current = e ∷ [] }
    else record log { current = log.current ++ e ∷ [] }

-- A finished file: its events' records, zeros up to the block's size, and the window in its name.
abbrev pub padded : List JournalEvent → List ℕ
padded es = encode_all es ++ replicate (roll_bytes - 61 * length es) 0

abbrev pub file_as : Window → List JournalEvent → Option Meta → RolledFile
file_as w es m = record { name = meta_of w; bytes = padded es; metafile = m }

unfoldable pub add_named : Option Window → List JournalEvent → List RolledFile → List RolledFile
add_named none es files = files
add_named (some w) es files = rename_onto files (file_as w es (some (meta_of w)))

-- The files of finished blocks, one renamed behind the other.
unfoldable pub files_from : List RolledFile → List (List JournalEvent) → List RolledFile
unfolding add_named
files_from files [] = files
files_from files (es ∷ blocks) = files_from (add_named (note_all none es) es files) blocks

pub files_from-append :
    (files : List RolledFile) (blocks : List (List JournalEvent)) (es : List JournalEvent)
    → files_from files (blocks ++ es ∷ [])
      ≡ add_named (note_all none es) es (files_from files blocks)
unfolding files_from
files_from-append files [] es = refl
files_from-append files (b ∷ blocks) es =
    files_from-append (add_named (note_all none b) b files) blocks es

-- The core holds the log: in files, in the active file, and in its buffer.
pub record Represents (log : Log) (core : AofCore) : Type 0 where
  pub bytes_same : core.sink.content ++ core.buf ≡ encode_all log.current
  pub at_end : core.sink.offset ≡ length core.sink.content
  pub counted : core.written ≡ 61 * length log.current
  pub fits : length log.current ≤ file_events
  pub window_same : core.window ≡ note_all none log.current
  pub files_same : core.rolled ≡ files_from [] log.finished
  pub opened : core.is_open ≡ true
  pub valid : All IsEvent log.current

-- The directory has the finished files, and an open file that is cut off somewhere in the current
-- records or in zeros behind them.
pub record Torn (log : Log) (left : AofCore) : Type 0 where
  pub kept : ℕ
  pub zeros : ℕ
  pub content_same : left.sink.content ≡ take kept (encode_all log.current ++ replicate zeros 0)
  pub files_same : left.rolled ≡ files_from [] log.finished
  pub opened : left.is_open ≡ true

-- The current file has its final name, with its own metafile or yet without, and there is no open file.
pub record Moved (log : Log) (left : AofCore) : Type 0 where
  pub window : Window
  pub metafile : Option Meta
  pub window_same : note_all none log.current ≡ some window
  pub files_same :
      left.rolled ≡ rename_onto (files_from [] log.finished) (file_as window log.current metafile)
  pub closed : left.is_open ≡ false

abbrev pub Recoverable : Log → AofCore → Type 0
Recoverable log left = Torn log left ⊎ Moved log left

abbrev pub is_assert : Call → Bool
is_assert roll_assert = true
is_assert _ = false

-- The disk fails some call.
abbrev pub Fails : (ℕ → Option ℕ) → Type 0
Fails disk = (i : ℕ) × (n : ℕ) × (disk i ≡ some n)

-- A failed call of the disk stopped the core, not the assertion, and the directory still has the log.
abbrev pub StopsFine : (ℕ → Option ℕ) → Log → Stopped → Type 0
StopsFine disk log s = Fails disk × (is_assert s.call ≡ false) × Recoverable log s.left

-- What holds of a result: one thing of a core that goes on, another of one that stopped.
unfoldable pub Post : (AofCore → Type 0) → (Stopped → Type 0) → Result Stopped AofCore → Type 0
Post Q E (ok core) = Q core
Post Q E (err s) = E s

pub Post-bind :
    (Q R : AofCore → Type 0) (E : Stopped → Type 0) (m : Result Stopped AofCore)
    (f : AofCore → Result Stopped AofCore)
    → Post Q E m
    → ((c : AofCore) → Q c → Post R E (f c))
    → Post R E (m >>= f)
unfolding Post
Post-bind Q R E (ok core) f q k = k core q
Post-bind Q R E (err s) f e k = e

pub Post-mono :
    (Q R : AofCore → Type 0) (E F : Stopped → Type 0) (m : Result Stopped AofCore)
    → Post Q E m
    → ((c : AofCore) → Q c → R c)
    → ((s : Stopped) → E s → F s)
    → Post R F m
unfolding Post
Post-mono Q R E F (ok core) q f g = f core q
Post-mono Q R E F (err s) e f g = g s e
