-- ===== src/Aof/Tests.antt =====
-- The writer over concrete events and disks, and the theorems at such inputs.
use lunet_locks.Prelude.{
  ℕ, zero, suc, ◌*◌, ◌<◌, ◌≡◌, ◌⊎◌, refl, sym, true, false, Option, none, some, List, [], ◌∷◌, ◌++◌,
  arith, length, take, append-nil, All,
}
use lunet_locks.Prelude.Results.{ok, ◌>>=◌}
use lunet_locks.Journal.Record.{JournalEvent, parse_file}
use lunet_locks.Journal.RoundTrip.{IsEvent}
use lunet_locks.Journal.FileParse.{encode_all, length-encode_all}
use lunet_locks.Journal.Samples.{sample_event, hold-IsEvent, break-IsEvent}
use lunet_locks.Journal.Window.{note_all}
use lunet_locks.Aof.Sink.{FileSink, write_all_blocking, Completion, wrote, write_all_ring}
use lunet_locks.Aof.Ring.{extended, write_all_ring-write_all_blocking}
use lunet_locks.Aof.Core.{AofCore, append, open_on}
use lunet_locks.Aof.Log.{Log, log_append, files_from, Represents, Torn, Post}
use lunet_locks.Aof.Flush.{Durable}
use lunet_locks.Aof.Appends.{StopsAppending, append-Represents}
use lunet_locks.Aof.Pump.{
  event, drain_request, Turn, handle, pump_turns, pump, event_of, events_of, log_run, StopsWithin,
}
use lunet_locks.Aof.Drain.{pump-Durable, pump_finishes}
use lunet_locks.Aof.Torn.{shortened, reopen-Torn}
use lunet_locks.Aof.Reading.{fresh_names, read_files, Durable-read_files}

abbrev two_events : List JournalEvent
two_events = sample_event 1 1001 ∷ (sample_event 4 2000 ∷ [])

two_events-IsEvent : All IsEvent two_events
two_events-IsEvent = (hold-IsEvent, (break-IsEvent, tt))

abbrev empty_log : Log
empty_log = record { finished = []; current = [] }

abbrev two_log : Log
two_log = record { finished = []; current = two_events }

-- A core over an empty directory that flushes every 100 bytes.
abbrev new_core : AofCore
new_core = open_on 100 none []

new_core-Represents : Represents empty_log new_core
unfolding open_on note_all files_from
new_core-Represents = record {
  bytes_same = refl;
  at_end = refl;
  counted = refl;
  fits = omega arith;
  window_same = refl;
  files_same = refl;
  opened = refl;
  valid = tt;
}

abbrev sound_disk : ℕ → Option ℕ
sound_disk i = none

-- The first call, a write, fails behind 70 bytes.
abbrev failing_disk : ℕ → Option ℕ
failing_disk zero = some 70
failing_disk (suc i) = none

-- Two events, a flush that is due by the clock, and a drain request.
abbrev turns : List Turn
turns =
    record { received = some (event (sample_event 1 1001)); flush_due = false; sync_due = false }
    ∷ (record { received = some (event (sample_event 4 2000)); flush_due = true; sync_due = false }
        ∷ (record { received = some drain_request; flush_due = false; sync_due = false } ∷ []))

turns-IsEvent : All (λ t. All IsEvent (event_of t.received)) turns
turns-IsEvent = ((hold-IsEvent, tt), ((break-IsEvent, tt), (tt, tt)))

pump-Durable_example :
    Post
      (Durable (log_run empty_log (events_of turns)))
      (StopsWithin failing_disk empty_log (events_of turns))
      (pump failing_disk turns new_core)
    × Post
        (Durable (log_run empty_log (events_of turns)))
        (StopsWithin failing_disk empty_log (events_of turns))
        (do c ← pump_turns failing_disk turns new_core; handle failing_disk (some drain_request) c)
pump-Durable_example =
    pump-Durable failing_disk turns empty_log new_core turns-IsEvent new_core-Represents

pump_finishes_example :
    (core : AofCore) × (pump sound_disk turns new_core ≡ ok core)
    × Durable (log_run empty_log (events_of turns)) core
pump_finishes_example =
    pump_finishes sound_disk (λ i. refl) turns empty_log new_core turns-IsEvent new_core-Represents

append-Represents_example :
    Post
      (Represents (log_append empty_log (sample_event 1 1001)))
      (StopsAppending failing_disk empty_log (sample_event 1 1001))
      (append failing_disk (sample_event 1 1001) new_core)
append-Represents_example =
    append-Represents failing_disk empty_log new_core (sample_event 1 1001) hold-IsEvent
      new_core-Represents

-- The second record is cut off.
abbrev torn_core : AofCore
torn_core = record new_core {
  sink = record { content = take 100 (encode_all two_events ++ []); offset = 100; synced = 0 };
}

torn_core-Torn : Torn two_log torn_core
unfolding open_on files_from
torn_core-Torn = record {
  kept = 100;
  zeros = 0;
  content_same = refl;
  files_same = refl;
  opened = refl;
}

reopen-Torn_example :
    (k : ℕ) × Represents
      (shortened two_log k)
      (open_on 100 (some torn_core.sink.content) torn_core.rolled)
    × ((torn_core-Torn.kept < 61 * suc k) ⊎ (take k two_events ≡ two_events))
reopen-Torn_example =
    reopen-Torn 100 two_log torn_core torn_core-Torn two_events-IsEvent (omega arith)

abbrev durable_core : AofCore
durable_core = record new_core {
  sink = record { content = encode_all two_events; offset = 122; synced = 122 };
  written = 122;
  window = note_all none two_events;
}

two_log-run : log_run empty_log two_events ≡ two_log
unfolding log_append
two_log-run = refl

durable_core-Durable : Durable (log_run empty_log two_events) durable_core
unfolding open_on files_from log_append
durable_core-Durable =
    let len : 122 ≡ length (encode_all two_events) =
      sym (length-encode_all two_events two_events-IsEvent) in
    record {
      content_same = refl;
      covered = len;
      represents = record {
        bytes_same = append-nil (encode_all two_events);
        at_end = len;
        counted = refl;
        fits = omega arith;
        window_same = refl;
        files_same = refl;
        opened = refl;
        valid = two_events-IsEvent;
      };
    }

no_blocks : All (All IsEvent) (log_run empty_log two_events).finished
unfolding log_append
no_blocks = tt

no_names : fresh_names [] (log_run empty_log two_events).finished ≡ true
unfolding log_append fresh_names
no_names = refl

Durable-read_files_example :
    read_files durable_core.rolled ++ parse_file durable_core.sink.content ≡ [] ++ two_events
Durable-read_files_example =
    Durable-read_files empty_log two_events durable_core no_blocks no_names durable_core-Durable

-- A ring that writes one byte a time.
abbrev slow_ring : ℕ → ℕ → Completion
slow_ring k len = wrote 1

abbrev empty_sink : FileSink
empty_sink = record { content = []; offset = 0; synced = 0 }

write_all_ring-write_all_blocking_example :
    (write_all_ring slow_ring 3 0 (7 ∷ (8 ∷ (9 ∷ []))) empty_sink
      ≡ (extended empty_sink (7 ∷ (8 ∷ (9 ∷ []))), ok tt))
    × (write_all_blocking none (7 ∷ (8 ∷ (9 ∷ []))) empty_sink
        ≡ (extended empty_sink (7 ∷ (8 ∷ (9 ∷ []))), true))
write_all_ring-write_all_blocking_example =
    write_all_ring-write_all_blocking slow_ring
      (λ k len some_bytes. (1, refl, omega arith, some_bytes)) (7 ∷ (8 ∷ (9 ∷ []))) empty_sink refl
