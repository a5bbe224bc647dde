-- ===== src/Aof/Drain.antt =====
-- What the writer thread's loop and its end do, whatever the disk answers.
use lunet_locks.Prelude.{
  ℕ, zero, suc, ◌≡◌, refl, sym, subst, inl, inr, Bool, true, false, Option, none, some, List, [],
  ◌∷◌, ◌++◌, if◌then◌else◌, take, length, All,
}
use lunet_locks.Prelude.Results.{Result, ok, err, ◌>>=◌}
use lunet_locks.Journal.Record.{JournalEvent}
use lunet_locks.Journal.RoundTrip.{IsEvent}
use lunet_locks.Aof.Ring.{take-length}
use lunet_locks.Aof.Core.{AofCore, Stopped, append, flush_buf, checkpoint}
use lunet_locks.Aof.Log.{Log, log_append, Represents, StopsFine, Post, Post-bind, Post-mono}
use lunet_locks.Aof.Flush.{Durable, flush_buf-Represents, checkpoint-Durable}
use lunet_locks.Aof.Appends.{StopsAppending, append-Represents}
use lunet_locks.Aof.Pump.{
  Msg, event, checkpoint_request, drain_request, Turn, handle, pump_turn, pump_turns, pump,
  event_of, events_of, log_run, StopsWithin,
}

StopsWithin-now :
    (disk : ℕ → Option ℕ) (log : Log) (es : List JournalEvent) (s : Stopped)
    → StopsFine disk log s
    → StopsWithin disk log es s
StopsWithin-now disk log es s h = record { taken = 0; stops = h }

StopsWithin-later :
    (disk : ℕ → Option ℕ) (log : Log) (e : JournalEvent) (es : List JournalEvent) (s : Stopped)
    → StopsWithin disk (log_append log e) es s
    → StopsWithin disk log (e ∷ es) s
StopsWithin-later disk log e es s h = record { taken = suc h.taken; stops = h.stops }

-- The core represents the log behind a turn's events.
abbrev Goes : (ℕ → Option ℕ) → Log → List JournalEvent → Result Stopped AofCore → Type 0
Goes disk log es r = Post (Represents (log_run log es)) (StopsWithin disk log es) r

going_on :
    (disk : ℕ → Option ℕ) (log : Log) (es : List JournalEvent) (m : Result Stopped AofCore)
    → Post (Represents log) (StopsFine disk log) m
    → Post (Represents log) (StopsWithin disk log es) m
going_on disk log es m p = Post-mono _ _ _ _ m p (λ c q. q) (λ s t. StopsWithin-now disk log es s t)

checkpoint-Represents :
    (disk : ℕ → Option ℕ) (log : Log) (c : AofCore)
    → Represents log c
    → Post (Represents log) (StopsFine disk log) (checkpoint disk c)
checkpoint-Represents disk log c r =
    Post-mono _ _ _ _ (checkpoint disk c) (checkpoint-Durable disk log c r) (λ c' d. d.represents)
      (λ s t. t)

handle-Goes :
    (disk : ℕ → Option ℕ) (log : Log) (m : Option Msg) (c : AofCore)
    → All IsEvent (event_of m)
    → Represents log c
    → Goes disk log (event_of m) (handle disk m c)
handle-Goes disk log (some (event e)) c v r =
    Post-mono _ _ (StopsAppending disk log e) _ (append disk e c)
      (append-Represents disk log c e v.0 r) (λ c' p. p)
      (λ s t. elim t [
        | inl h ↦ StopsWithin-now disk log (e ∷ []) s h
        | inr h ↦ record { taken = 1; stops = h }
      ])
handle-Goes disk log (some checkpoint_request) c v r =
    going_on disk log [] (checkpoint disk c) (checkpoint-Represents disk log c r)
handle-Goes disk log (some drain_request) c v r =
    going_on disk log [] (checkpoint disk c) (checkpoint-Represents disk log c r)
handle-Goes disk log none c v r = unfold Post in r

due_flush :
    (b : Bool) (disk : ℕ → Option ℕ) (log : Log) (c : AofCore)
    → Represents log c
    → Post (Represents log) (StopsFine disk log) (if b then flush_buf disk c else ok c)
due_flush true disk log c r =
    Post-mono _ _ _ _ (flush_buf disk c) (flush_buf-Represents disk log c r) (λ c' p. p.0)
      (λ s t. t)
due_flush false disk log c r = unfold Post in r

due_sync :
    (b : Bool) (disk : ℕ → Option ℕ) (log : Log) (c : AofCore)
    → Represents log c
    → Post (Represents log) (StopsFine disk log) (if b then checkpoint disk c else ok c)
due_sync true disk log c r = checkpoint-Represents disk log c r
due_sync false disk log c r = unfold Post in r

pump_turn-Goes :
    (disk : ℕ → Option ℕ) (log : Log) (t : Turn) (c : AofCore)
    → All IsEvent (event_of t.received)
    → Represents log c
    → Goes disk log (event_of t.received) (pump_turn disk t c)
unfolding pump_turn
pump_turn-Goes disk log t c v r =
    Post-bind (Represents (after t.received)) _ _ (handle disk t.received c) _
      (handle-Goes disk log t.received c v r)
      λ c1 r1.
        Post-bind (Represents (after t.received)) _ _
          (if t.flush_due then flush_buf disk c1 else ok c1) _
          (whole t.received _ (due_flush t.flush_due disk (after t.received) c1 r1))
          λ c2 r2. whole t.received _ (due_sync t.sync_due disk (after t.received) c2 r2)
  where
    after : Option Msg → Log
    after m = log_run log (event_of m)

    whole :
        (m : Option Msg) (x : Result Stopped AofCore)
        → Post (Represents (after m)) (StopsFine disk (after m)) x
        → Goes disk log (event_of m) x
    whole (some (event e)) x p =
        Post-mono _ _ _ _ x p (λ c q. q) (λ s t. record { taken = 1; stops = t })
    whole (some checkpoint_request) x p = going_on disk log [] x p
    whole (some drain_request) x p = going_on disk log [] x p
    whole none x p = going_on disk log [] x p

-- A turn's part of the events, and those of the turns behind it.
later_turns :
    (disk : ℕ → Option ℕ) (log : Log) (m : Option Msg) (es : List JournalEvent) (s : Stopped)
    → StopsWithin disk (log_run log (event_of m)) es s
    → StopsWithin disk log (event_of m ++ es) s
later_turns disk log (some (event e)) es s h = StopsWithin-later disk log e es s h
later_turns disk log (some checkpoint_request) es s h = h
later_turns disk log (some drain_request) es s h = h
later_turns disk log none es s h = h

no_turn :
    (disk : ℕ → Option ℕ) (log : Log) (es : List JournalEvent) (s : Stopped) (k : ℕ)
    → StopsFine disk (log_run log (take k [])) s
    → StopsWithin disk log es s
no_turn disk log es s zero t = StopsWithin-now disk log es s t
no_turn disk log es s (suc k) t = StopsWithin-now disk log es s t

this_turn :
    (disk : ℕ → Option ℕ) (log : Log) (m : Option Msg) (es : List JournalEvent) (s : Stopped)
    → StopsWithin disk log (event_of m) s
    → StopsWithin disk log (event_of m ++ es) s
this_turn disk log (some (event e)) es s h = within h.taken h.stops
  where
    within :
        (k : ℕ) → StopsFine disk (log_run log (take k (e ∷ []))) s → StopsWithin disk log (e ∷ es) s
    within zero t = record { taken = 0; stops = t }
    within (suc zero) t = record { taken = 1; stops = t }
    within (suc (suc k)) t = record { taken = 1; stops = t }
this_turn disk log (some checkpoint_request) es s h = no_turn disk log es s h.taken h.stops
this_turn disk log (some drain_request) es s h = no_turn disk log es s h.taken h.stops
this_turn disk log none es s h = no_turn disk log es s h.taken h.stops

run-events :
    (log : Log) (m : Option Msg) (es : List JournalEvent)
    → log_run (log_run log (event_of m)) es ≡ log_run log (event_of m ++ es)
run-events log (some (event e)) es = refl
run-events log (some checkpoint_request) es = refl
run-events log (some drain_request) es = refl
run-events log none es = refl

pump_turns-Goes :
    (disk : ℕ → Option ℕ) (ts : List Turn) (log : Log) (c : AofCore)
    → All (λ t. All IsEvent (event_of t.received)) ts
    → Represents log c
    → Goes disk log (events_of ts) (pump_turns disk ts c)
unfolding pump_turns
pump_turns-Goes disk [] log c v r = unfold Post in r
pump_turns-Goes disk (t ∷ ts) log c v r =
    Post-bind (Represents (log_run log (event_of t.received))) _ _ (pump_turn disk t c) _
      (Post-mono _ _ _ _ (pump_turn disk t c) (pump_turn-Goes disk log t c v.0 r) (λ c' q. q)
        (λ s h. this_turn disk log t.received (events_of ts) s h))
      λ c1 r1.
        Post-mono _ _ _ _ (pump_turns disk ts c1)
          (pump_turns-Goes disk ts (log_run log (event_of t.received)) c1 v.1 r1)
          (λ c' q. subst (λ l. Represents l c') (run-events log t.received (events_of ts)) q)
          (λ s h. later_turns disk log t.received (events_of ts) s h)

pumped-Durable :
    (disk : ℕ → Option ℕ) (ts : List Turn) (log : Log) (core : AofCore)
    → All (λ t. All IsEvent (event_of t.received)) ts
    → Represents log core
    → Post
        (Durable (log_run log (events_of ts)))
        (StopsWithin disk log (events_of ts))
        (do c ← pump_turns disk ts core; checkpoint disk c)
pumped-Durable disk ts log core v r =
    Post-bind (Represents (log_run log (events_of ts))) _ _ (pump_turns disk ts core) _
      (pump_turns-Goes disk ts log core v r)
      λ c1 r1.
        Post-mono _ _ _ _ (checkpoint disk c1)
          (checkpoint-Durable disk (log_run log (events_of ts)) c1 r1) (λ c p. p)
          (λ s h. record {
            taken = length (events_of ts);
            stops =
                subst (λ es. StopsFine disk (log_run log es) s) (sym (take-length (events_of ts)))
                  h;
          })

-- From a core that represents a log, and for events whose fields have their widths, the writer
-- thread ends in one of two ways, whatever the disk answers: the core represents the log with all
-- the events received, nothing is left in the buffer, and an fsync has covered the open file; or
-- it stopped at a failed call of the disk, and the directory has the log of a first part of the
-- events, with the open file torn at most, or renamed and not yet replaced. A finished file takes
-- the place of one of the same name. The handling of a drain request, behind any turns, ends in
-- one of the same two ways, by the events received before it: in the first the sender is answered
-- with success.
pub pump-Durable :
    (disk : ℕ → Option ℕ) (ts : List Turn) (log : Log) (core : AofCore)
    → All (λ t. All IsEvent (event_of t.received)) ts
    → Represents log core
    → Post
        (Durable (log_run log (events_of ts)))
        (StopsWithin disk log (events_of ts))
        (pump disk ts core)
      × Post
          (Durable (log_run log (events_of ts)))
          (StopsWithin disk log (events_of ts))
          (do c ← pump_turns disk ts core; handle disk (some drain_request) c)
unfolding pump
pump-Durable disk ts log core v r = let p = pumped-Durable disk ts log core v r in (p, p)

Post-ok :
    (Q : AofCore → Type 0) (E : Stopped → Type 0) (m : Result Stopped AofCore)
    → Post Q E m
    → ((s : Stopped) → E s → ⊥)
    → (c : AofCore) × (m ≡ ok c) × Q c
unfolding Post
Post-ok Q E (ok c) p none_stops = (c, refl, p)
Post-ok Q E (err s) p none_stops = absurd (none_stops s p)

-- On a disk none of whose calls fails, the writer thread of a core that represents a log ends
-- with every event it received, of fields that have their widths, in the log and durable.
pub pump_finishes :
    (disk : ℕ → Option ℕ)
    → (sound : (i : ℕ) → disk i ≡ none) → (ts : List Turn) (log : Log) (core : AofCore)
    → All (λ t. All IsEvent (event_of t.received)) ts
    → Represents log core
    → (core' : AofCore) × (pump disk ts core ≡ ok core')
      × Durable (log_run log (events_of ts)) core'
pump_finishes disk sound ts log core v r =
    Post-ok _ _ (pump disk ts core) (pump-Durable disk ts log core v r).0
      (λ s h. let (i, n, e) = h.stops.0 in let no = sound i in cc)
