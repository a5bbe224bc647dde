-- ===== src/Aof/Crash.antt =====
-- A writer that stopped at a failed call, and the one that is started after it.
use lunet_locks.Prelude.{
  ℕ, ◌≤◌, ◌<◌, ◌≡◌, sym, ◌∙◌, subst, inl, inr, true, false, Bool-cases, Option, some, List, [], ◌∷◌,
  arith, ◌==◌, length, take, length-append, All, All-append,
}
use lunet_locks.Prelude.Results.{Result, ok, err}
use lunet_locks.Journal.Record.{JournalEvent}
use lunet_locks.Journal.RoundTrip.{IsEvent}
use lunet_locks.Aof.Core.{AofCore, Stopped, open_on}
use lunet_locks.Aof.Log.{Log, file_events, log_append, Represents, Recoverable, Post}
use lunet_locks.Aof.Pump.{Turn, pump, event_of, events_of, log_run, StopsWithin}
use lunet_locks.Aof.Drain.{pump-Durable}
use lunet_locks.Aof.Torn.{shortened, All-take, reopen-Torn}

-- The current events of a log fit into a file, and their fields have their widths.
record IsLog (log : Log) : Type 0 where
  fits : length log.current ≤ file_events
  valid : All IsEvent log.current

log_append-IsLog : (log : Log) (e : JournalEvent) → IsEvent e → IsLog log → IsLog (log_append log e)
unfolding log_append
log_append-IsLog log e v h = elim (Bool-cases (length log.current == file_events)) [
  | inl full ↦ rw full (record { fits = omega arith; valid = (v, tt) })
  | inr room ↦ rw room (record {
    fits = omega (arith, length-append log.current (e ∷ []), h.fits, differs room);
    valid = All-append IsEvent log.current (e ∷ []) h.valid (v, tt);
  })
]
  where
    differs : (length log.current == file_events) ≡ false → length log.current < file_events
    differs room = let fits = h.fits in ground arith

log_run-IsLog :
    (es : List JournalEvent) (log : Log) → All IsEvent es → IsLog log → IsLog (log_run log es)
log_run-IsLog [] log v h = h
log_run-IsLog (e ∷ es) log v h =
    log_run-IsLog es (log_append log e) v.1 (log_append-IsLog log e v.0 h)

events_of-IsEvent :
    (ts : List Turn) → All (λ t. All IsEvent (event_of t.received)) ts → All IsEvent (events_of ts)
events_of-IsEvent [] v = tt
events_of-IsEvent (t ∷ ts) v =
    All-append IsEvent (event_of t.received) (events_of ts) v.0 (events_of-IsEvent ts v.1)

err-inj : (t s : Stopped) → ◌≡◌ {A = Result Stopped AofCore} (err t) (err s) → t ≡ s
err-inj t s h = cc

stops_at :
    (E : Stopped → Type 0) (Q : AofCore → Type 0) (m : Result Stopped AofCore) (s : Stopped)
    → Post Q E m
    → m ≡ err s
    → E s
unfolding Post
stops_at E Q (ok c) s p h = cc
stops_at E Q (err t) s p h = subst E (err-inj t s h) p

reopened :
    (flush_bytes : ℕ) (log : Log) (left : AofCore)
    → IsLog log
    → left.is_open ≡ true
    → Recoverable log left
    → (j : ℕ) × Represents
        (shortened log j)
        (open_on flush_bytes (some left.sink.content) left.rolled)
reopened flush_bytes log left h is_open (inl torn) =
    let (j, r, _) = reopen-Torn flush_bytes log left torn h.valid h.fits in (j, r)
reopened flush_bytes log left h is_open (inr moved) = absurd (clash (sym is_open ∙ moved.closed))
  where
    clash : true ≡ false → ⊥
    clash e = cc

-- A writer of a log stopped at a failed call of the disk, while it received events whose fields have
-- their widths, and left an open file. The writer that opens what it left represents the log with a first
-- part of the events, less at most some of the last file's.
pump-reopened :
    (disk : ℕ → Option ℕ) (ts : List Turn) (log : Log) (core : AofCore) (s : Stopped)
    (flush_bytes : ℕ)
    → All (λ t. All IsEvent (event_of t.received)) ts
    → Represents log core
    → pump disk ts core ≡ err s
    → s.left.is_open ≡ true
    → (k : ℕ) × (j : ℕ) × Represents
        (shortened (log_run log (take k (events_of ts))) j)
        (open_on flush_bytes (some s.left.sink.content) s.left.rolled)
pump-reopened disk ts log core s flush_bytes v r stopped left_open =
    let w =
      stops_at (StopsWithin disk log (events_of ts)) _ (pump disk ts core) s
        (pump-Durable disk ts log core v r).0 stopped in
    let fine =
      log_run-IsLog (take w.taken (events_of ts)) log
        (All-take (events_of ts) w.taken (events_of-IsEvent ts v))
        (record { fits = r.fits; valid = r.valid }) in
    let (j, r') =
      reopened flush_bytes (log_run log (take w.taken (events_of ts))) s.left fine left_open
        w.stops.2 in
    (w.taken, j, r')
