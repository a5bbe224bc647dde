-- ===== src/Aof/Reading.antt =====
-- What the journal's readers and the bench oracle make of the writer's files.
use lunet_locks.Prelude.{
  ℕ, zero, suc, ◌-◌, ◌*◌, ◌%◌, ◌≤◌, ◌≡◌, refl, sym, ap, ◌∙◌, inl, inr, Bool, true, not, ◌&&◌,
  &&-elim, Bool-cases, Option, none, some, List, [], ◌∷◌, ◌++◌, append_assoc, append-nil, ◌==◌,
  length, replicate, keep, all, All,
}
use lunet_locks.Prelude.Results.{err}
use lunet_locks.Journal.Record.{record_size, JournalEvent, parse_record, parse_file}
use lunet_locks.Journal.RoundTrip.{IsEvent}
use lunet_locks.Journal.FileParse.{encode_all, parse_file_tail}
use lunet_locks.Journal.Window.{Window, new_window, update, note, meta_of, note_all}
use lunet_locks.Journal.Files.{RolledFile, same_name, rename_onto}
use lunet_locks.Oracle.Decode.{trailing_partial, decode_file}
use lunet_locks.Aof.Core.{roll_bytes, AofCore}
use lunet_locks.Aof.Log.{Log, file_events, padded, file_as, add_named, files_from, log_append}
use lunet_locks.Aof.Flush.{Durable}
use lunet_locks.Aof.Sealing.{length-padded}
use lunet_locks.Aof.Torn.{zero_head-Stops}
use lunet_locks.Aof.Pump.{log_run}

zeros_unread : (n : ℕ) → parse_record (replicate n 0) ≡ none
zeros_unread zero = unfold parse_record in refl
zeros_unread (suc n) = zero_head-Stops (replicate n 0)

-- The zeros behind the records of a finished file are not read as events.
pub parse_file-padded : (es : List JournalEvent) → All IsEvent es → parse_file (padded es) ≡ es
parse_file-padded es v =
    parse_file_tail es (replicate (roll_bytes - 61 * length es) 0) v
      (zeros_unread (roll_bytes - 61 * length es))

-- The bench oracle refuses every finished file: the erasure block is no whole number of records.
pub decode_file-padded :
    (es : List JournalEvent)
    → All IsEvent es
    → length es ≤ file_events
    → decode_file (padded es) ≡ err (trailing_partial roll_bytes)
unfolding decode_file
decode_file-padded es v fits =
    let len = length-padded es v fits in
    let partial : not (length (padded es) % record_size == 0) ≡ true =
      ap (λ n. not (n % record_size == 0)) len in
    rw partial (ap (λ n. err (trailing_partial n)) len)

abbrev pub flat : List (List JournalEvent) → List JournalEvent
flat [] = []
flat (es ∷ blocks) = es ++ flat blocks

-- All the events of a log, in order.
abbrev pub all_events : Log → List JournalEvent
all_events log = flat log.finished ++ log.current

flat-append : (bs cs : List (List JournalEvent)) → flat (bs ++ cs) ≡ flat bs ++ flat cs
flat-append [] cs = refl
flat-append (b ∷ bs) cs =
    ap (λ xs. b ++ xs) (flat-append bs cs) ∙ sym (append_assoc b (flat bs) (flat cs))

log_append-all_events :
    (log : Log) (e : JournalEvent) → all_events (log_append log e) ≡ all_events log ++ e ∷ []
unfolding log_append
log_append-all_events log e = elim (Bool-cases (length log.current == file_events)) [
  | inl h ↦ rw h (
      ap (λ xs. xs ++ e ∷ [])
        (flat-append log.finished (log.current ∷ [])
          ∙ ap (λ xs. flat log.finished ++ xs) (append-nil log.current)))
  | inr h ↦ rw h (sym (append_assoc (flat log.finished) log.current (e ∷ [])))
]

log_run-all_events :
    (es : List JournalEvent) (log : Log) → all_events (log_run log es) ≡ all_events log ++ es
log_run-all_events [] log = sym (append-nil (all_events log))
log_run-all_events (e ∷ es) log =
    log_run-all_events es (log_append log e)
    ∙ (ap (λ xs. xs ++ es) (log_append-all_events log e)
        ∙ append_assoc (all_events log) (e ∷ []) es)

-- What a reader of the finished files, in the order of their names' appearance, gets.
abbrev pub read_files : List RolledFile → List JournalEvent
read_files [] = []
read_files (f ∷ fs) = parse_file f.bytes ++ read_files fs

read_files-append :
    (fs gs : List RolledFile) → read_files (fs ++ gs) ≡ read_files fs ++ read_files gs
read_files-append [] gs = refl
read_files-append (f ∷ fs) gs =
    ap (λ xs. parse_file f.bytes ++ xs) (read_files-append fs gs)
    ∙ sym (append_assoc (parse_file f.bytes) (read_files fs) (read_files gs))

-- No file has the window's name yet.
abbrev pub unused : Window → List RolledFile → Bool
unused w fs = all (λ g. not (same_name (meta_of w) g.name)) fs

keep-all : (p : RolledFile → Bool) (fs : List RolledFile) → all p fs ≡ true → keep p fs ≡ fs
keep-all p [] h = refl
keep-all p (f ∷ fs) h =
    let (a, b) = &&-elim (p f) (all p fs) h in rw a (ap (λ xs. f ∷ xs) (keep-all p fs b))

-- The blocks get names that no earlier file has.
abbrev pub fresh_named : Option Window → List RolledFile → Bool
fresh_named none fs = true
fresh_named (some w) fs = unused w fs

unfoldable pub fresh_names : List RolledFile → List (List JournalEvent) → Bool
unfolding add_named
fresh_names fs [] = true
fresh_names fs (es ∷ blocks) =
    fresh_named (note_all none es) fs && fresh_names (add_named (note_all none es) es fs) blocks

no_window : (w : Window) (es : List JournalEvent) → note_all (some w) es ≡ none → ⊥
unfolding note_all note
no_window w [] h = cc
no_window w (e ∷ es) h = no_window (update w e) es h

window_none : (es : List JournalEvent) → note_all none es ≡ none → es ≡ []
unfolding note_all note
window_none [] h = refl
window_none (e ∷ es) h = absurd (no_window (new_window e) es h)

read_files-add_named :
    (w : Option Window) (es : List JournalEvent) (fs : List RolledFile)
    → note_all none es ≡ w
    → All IsEvent es
    → fresh_named w fs ≡ true
    → read_files (add_named w es fs) ≡ read_files fs ++ es
unfolding add_named rename_onto
read_files-add_named none es fs e v h =
    sym (append-nil (read_files fs)) ∙ ap (λ xs. read_files fs ++ xs) (sym (window_none es e))
read_files-add_named (some w) es fs e v h = rw (keep-all _ fs h) (
    read_files-append fs (file_as w es (some (meta_of w)) ∷ [])
    ∙ ap (λ xs. read_files fs ++ xs) (append-nil (parse_file (padded es)) ∙ parse_file-padded es v))

read_files-files_from :
    (blocks : List (List JournalEvent)) (fs : List RolledFile)
    → All (All IsEvent) blocks
    → fresh_names fs blocks ≡ true
    → read_files (files_from fs blocks) ≡ read_files fs ++ flat blocks
unfolding files_from fresh_names
read_files-files_from [] fs v h = sym (append-nil (read_files fs))
read_files-files_from (es ∷ blocks) fs v h =
    let (a, b) = &&-elim (fresh_named (note_all none es) fs) _ h in
    read_files-files_from blocks (add_named (note_all none es) es fs) v.1 b
    ∙ (ap (λ xs. xs ++ flat blocks) (read_files-add_named (note_all none es) es fs refl v.0 a)
        ∙ append_assoc (read_files fs) es (flat blocks))

-- Once the log of some more events is durable, and each finished file got a name that was not in
-- use, the finished files and the open file read in order give the events that were in the log
-- before and then those events, each once. The events of the finished files have fields of their
-- widths.
pub Durable-read_files :
    (log : Log) (es : List JournalEvent) (core : AofCore)
    → All (All IsEvent) (log_run log es).finished
    → fresh_names [] (log_run log es).finished ≡ true
    → Durable (log_run log es) core
    → read_files core.rolled ++ parse_file core.sink.content ≡ all_events log ++ es
Durable-read_files log es core v fresh d =
    let end : Log = log_run log es in
    let files : read_files core.rolled ≡ flat end.finished =
      ap (λ fs. read_files fs) d.represents.files_same
      ∙ read_files-files_from end.finished [] v fresh in
    let active : parse_file core.sink.content ≡ end.current =
      ap (λ bs. parse_file bs) (d.content_same ∙ sym (append-nil (encode_all end.current)))
      ∙ parse_file_tail end.current [] d.represents.valid (zeros_unread 0) in
    (λ i. files i ++ active i) ∙ log_run-all_events es log
