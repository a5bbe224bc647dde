-- ===== src/Aof/Appends.antt =====
-- Appending, whatever the disk answers: the core goes on with the event in its log, or stops with a
-- directory that still has the log.
use lunet_locks.Prelude.{
  ℕ, ◌+◌, ◌*◌, ◌≤◌, ◌≡◌, ◌<◌, ◌⊎◌, refl, sym, ap, ◌∙◌, subst, inl, inr, Bool, true, false,
  Bool-cases, Option, none, some, List, [], ◌∷◌, ◌++◌, append_assoc, append-nil, arith, ◌==◌,
  ==_iff, ltb, leb, if◌then◌else◌, length, length-append, All-append,
}
use lunet_locks.Prelude.Results.{ok}
use lunet_locks.Journal.Record.{record_size, JournalEvent, encode}
use lunet_locks.Journal.RoundTrip.{IsEvent}
use lunet_locks.Journal.FileParse.{encode_all}
use lunet_locks.Journal.Window.{Window, new_window, update, note, note_all, note_all-append}
use lunet_locks.Aof.Core.{roll_bytes, AofCore, Stopped, flush_buf, roll, append_here, append}
use lunet_locks.Aof.Log.{
  Log, file_events, log_append, Represents, StopsFine, Post, Post-bind, Post-mono,
}
use lunet_locks.Aof.Flush.{flush_buf-Represents}
use lunet_locks.Aof.Roll.{rolled_log, roll-Represents}

abbrev added : Log → JournalEvent → Log
added log e = record log { current = log.current ++ e ∷ [] }

pub encode_all-append :
    (es fs : List JournalEvent) → encode_all (es ++ fs) ≡ encode_all es ++ encode_all fs
encode_all-append [] fs = refl
encode_all-append (e ∷ es) fs =
    ap (◌++◌ (encode e)) (encode_all-append es fs)
    ∙ sym (append_assoc (encode e) (encode_all es) (encode_all fs))

abbrev buffered : AofCore → JournalEvent → AofCore
buffered c e = record c {
  buf = c.buf ++ encode e;
  window = note c.window e;
  written = c.written + record_size;
}

buffered-Represents :
    (log : Log) (c : AofCore) (e : JournalEvent)
    → IsEvent e
    → length log.current < file_events
    → Represents log c
    → Represents (added log e) (buffered c e)
buffered-Represents log c e v room r = record {
  bytes_same =
      sym (append_assoc c.sink.content c.buf (encode e))
      ∙ (ap (λ xs. xs ++ encode e) r.bytes_same
          ∙ (ap (◌++◌ (encode_all log.current)) (sym (append-nil (encode e)))
              ∙ sym (encode_all-append log.current (e ∷ []))));
  at_end = r.at_end;
  counted = omega (arith, r.counted, length-append log.current (e ∷ []));
  fits = omega (arith, room, length-append log.current (e ∷ []));
  window_same =
      ap (λ w. note w e) r.window_same
      ∙ (unfold note_all in sym (note_all-append none log.current (e ∷ [])));
  files_same = r.files_same;
  opened = r.opened;
  valid = All-append IsEvent log.current (e ∷ []) r.valid (v, tt);
}

-- A whole number of records never lands on the roll mark.
not_on_mark : (n : ℕ) → (61 * n == roll_bytes) ≡ false
not_on_mark n = elim (Bool-cases (61 * n == roll_bytes)) [
  | inl h ↦ absurd (omega (arith, (==_iff (61 * n) roll_bytes).0 h))
  | inr h ↦ h
]

unrolled :
    (disk : ℕ → Option ℕ) (log : Log) (c : AofCore)
    → Represents log c
    → Post
        (Represents log)
        (StopsFine disk log)
        (if c.written == roll_bytes then roll disk c else ok c)
unrolled disk log c r =
    let off : (c.written == roll_bytes) ≡ false =
      ap (λ n. n == roll_bytes) r.counted ∙ not_on_mark (length log.current) in
    rw off (unfold Post in r)

flushed_if :
    (b : Bool) (disk : ℕ → Option ℕ) (log : Log) (c : AofCore)
    → Represents log c
    → Post (Represents log) (StopsFine disk log) (if b then flush_buf disk c else ok c)
flushed_if true disk log c r =
    Post-mono _ _ _ _ (flush_buf disk c) (flush_buf-Represents disk log c r) (λ c' p. p.0)
      (λ s t. t)
flushed_if false disk log c r = unfold Post in r

append_here-Represents :
    (disk : ℕ → Option ℕ) (log : Log) (c : AofCore) (e : JournalEvent)
    → IsEvent e
    → length log.current < file_events
    → Represents log c
    → Post (Represents (added log e)) (StopsFine disk (added log e)) (append_here disk e c)
unfolding append_here
append_here-Represents disk log c e v room r =
    let b : AofCore = buffered c e in
    Post-bind (Represents (added log e)) _ _
      (if leb b.flush_bytes (length b.buf) then flush_buf disk b else ok b) _
      (flushed_if (leb b.flush_bytes (length b.buf)) disk (added log e) b
        (buffered-Represents log c e v room r))
      (λ c' r'. unrolled disk (added log e) c' r')

log_append-room :
    (log : Log) (e : JournalEvent)
    → length log.current < file_events
    → log_append log e ≡ added log e
unfolding log_append
log_append-room log e h =
    let off : (length log.current == file_events) ≡ false = ground arith in rw off

log_append-full :
    (log : Log) (e : JournalEvent)
    → length log.current ≡ file_events
    → log_append log e ≡ added (rolled_log log) e
unfolding log_append
log_append-full log e h = rw h

window_from :
    (w : Window) (es : List JournalEvent) → (w' : Window) × (note_all (some w) es ≡ some w')
unfolding note_all note
window_from w [] = (w, refl)
window_from w (e ∷ es) = window_from (update w e) es

window_of_some :
    (es : List JournalEvent) → length es ≡ file_events → (w : Window) × (note_all none es ≡ some w)
unfolding note_all note
window_of_some [] h = absurd (omega (arith, h))
window_of_some (e ∷ es) h = window_from (new_window e) es

-- The event went into the log or it did not; the directory has the log of the one case or the other.
abbrev pub StopsAppending : (ℕ → Option ℕ) → Log → JournalEvent → Stopped → Type 0
StopsAppending disk log e s = StopsFine disk log s ⊎ StopsFine disk (log_append log e) s

append_in_room :
    (disk : ℕ → Option ℕ) (log : Log) (c : AofCore) (e : JournalEvent)
    → IsEvent e
    → length log.current < file_events
    → Represents log c
    → Post
        (Represents (log_append log e))
        (StopsFine disk (log_append log e))
        (append_here disk e c)
append_in_room disk log c e v room r =
    subst (λ l. Post (Represents l) (StopsFine disk l) (append_here disk e c))
      (sym (log_append-room log e room)) (append_here-Represents disk log c e v room r)

append_after_roll :
    (disk : ℕ → Option ℕ) (log : Log) (c : AofCore) (e : JournalEvent)
    → IsEvent e
    → length log.current ≡ file_events
    → Represents (rolled_log log) c
    → Post (Represents (log_append log e)) (StopsAppending disk log e) (append_here disk e c)
append_after_roll disk log c e v full r =
    subst
      (λ l.
        Post (Represents l) (λ s. StopsFine disk log s ⊎ StopsFine disk l s) (append_here disk e c))
      (sym (log_append-full log e full))
      (Post-mono _ _ _ _ (append_here disk e c)
        (append_here-Represents disk (rolled_log log) c e v (omega arith) r) (λ c' p. p)
        (λ s t. inr t))

-- Whatever the disk answers, an append of an event whose fields have their widths goes on with
-- the event in the log that the core represents, in a new file if the record no longer fits into
-- the current one; or it stops at a failed call of the disk, never at the roll's assertion, and
-- the directory then has the log without or with the event, with the open file torn at most, or
-- renamed and not yet replaced.
pub append-Represents :
    (disk : ℕ → Option ℕ) (log : Log) (core : AofCore) (e : JournalEvent)
    → IsEvent e
    → Represents log core
    → Post (Represents (log_append log e)) (StopsAppending disk log e) (append disk e core)
unfolding append
append-Represents disk log core e v r =
    elim (Bool-cases (ltb roll_bytes (core.written + record_size))) [
      | inl h ↦
          let full : length log.current ≡ file_events = full_at _ h r.counted r.fits in
          let (w, some_window) = window_of_some log.current full in
          rw h (
            Post-bind (Represents (rolled_log log)) _ _ (roll disk core) _
              (Post-mono _ _ _ _ (roll disk core) (roll-Represents disk log w core r some_window)
                (λ c p. p) (λ s t. inl t))
              (λ c p. append_after_roll disk log c e v full p))
      | inr h ↦ rw h (
          Post-mono _ _ _ _ (append_here disk e core)
            (append_in_room disk log core e v (room_at _ h r.counted r.fits) r) (λ c p. p)
            (λ s t. inr t))
    ]
  where
    full_at :
        (n : ℕ)
        → ltb roll_bytes (core.written + record_size) ≡ true
        → core.written ≡ 61 * n
        → n ≤ file_events
        → n ≡ file_events
    full_at n h k l = ground arith

    room_at :
        (n : ℕ)
        → ltb roll_bytes (core.written + record_size) ≡ false
        → core.written ≡ 61 * n
        → n ≤ file_events
        → n < file_events
    room_at n h k l = ground arith
