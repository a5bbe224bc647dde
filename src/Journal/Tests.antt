-- ===== src/Journal/Tests.antt =====
-- Records, files and a journal on concrete events, and the theorems at such inputs.
use lunet_locks.Prelude.{◌≡◌, refl, inl, true, none, some, List, [], ◌∷◌, ◌++◌, replicate, arith}
use lunet_locks.Prelude.Bytes.{to_be, from_be}
use lunet_locks.Journal.Samples.{sample_event, hold-IsEvent, break-IsEvent}
use lunet_locks.Journal.Crc.{crc32_ieee}
use lunet_locks.Journal.Record.{
  JournalEvent, Meta, record_size, event_fields, encode, bytes_eq, is_kind, parse_record,
  parse_file,
}
use lunet_locks.Journal.RoundTrip.{parse_record-encode}
use lunet_locks.Journal.FileParse.{encode_all}
use lunet_locks.Journal.MetaFile.{IsMeta}
use lunet_locks.Journal.Window.{Window, note_all}
use lunet_locks.Journal.Files.{no_faults, rename_onto, Journal, create, append, resume}
use lunet_locks.Journal.Appends.{Holds, append-rolled, rolled_file}
use lunet_locks.Journal.Resume.{resume-Holds, torn_tail_loses}

-- An unknown kind is refused, with the right checksum.
unknown_kind : parse_record (encode (sample_event 9 1000)) ≡ none
unfolding parse_record encode event_fields to_be from_be crc32_ieee bytes_eq is_kind
unknown_kind = refl

parse_record-encode_example :
    parse_record (encode (sample_event 1 1001) ++ 0 ∷ []) ≡ some (sample_event 1 1001, record_size)
parse_record-encode_example = parse_record-encode (sample_event 1 1001) (0 ∷ []) hold-IsEvent

abbrev events : List JournalEvent
events = sample_event 1 1001 ∷ sample_event 4 2000 ∷ []

zeros_bad : parse_record (replicate 10 0) ≡ none
unfolding parse_record
zeros_bad = refl

abbrev meta : Meta
meta = record { op_min = 1000; op_max = 2000; expiry_min = 5000; expiry_max = 9000; count = 7 }

meta-IsMeta : IsMeta meta
meta-IsMeta = record {
  op_min_fits = omega arith;
  op_max_fits = omega arith;
  expiry_min_fits = omega arith;
  expiry_max_fits = omega arith;
  count_fits = omega arith;
}

abbrev journal : Journal
journal = create 122 []

journal-Holds : Holds journal []
unfolding note_all
journal-Holds = record { live = refl; bytes = refl; counted = refl; windowed = refl }

abbrev small : Journal
small = create 61 []

small-Holds : Holds small []
unfolding note_all
small-Holds = record { live = refl; bytes = refl; counted = refl; windowed = refl }

append-rolled_example :
    let r = append small (sample_event 1 1001) no_faults in
    (r.1 ≡ true)
    × Holds r.0 []
    × ((w : Window) × (note_all none (sample_event 1 1001 ∷ []) ≡ some w)
        × (r.0.rolled ≡ rename_onto [] (rolled_file w (sample_event 1 1001 ∷ []))))
append-rolled_example =
    append-rolled small [] (sample_event 1 1001) small-Holds (omega arith) (omega arith)

resume-Holds_example : Holds (resume 1000 (encode_all events) []) events
resume-Holds_example = resume-Holds events 1000 [] (hold-IsEvent, (break-IsEvent, tt)) (omega arith)

torn : parse_record (0 ∷ [] ++ encode (sample_event 4 2000)) ≡ none
unfolding parse_record encode event_fields to_be bytes_eq
torn = refl

torn_tail_loses_example :
    let r =
      append
        (resume 1000 (encode_all (sample_event 1 1001 ∷ []) ++ 0 ∷ []) [])
        (sample_event 4 2000)
        no_faults in
    (r.1 ≡ true) × (parse_file r.0.open_bytes ≡ sample_event 1 1001 ∷ [])
torn_tail_loses_example =
    torn_tail_loses (sample_event 1 1001 ∷ []) (0 ∷ []) (sample_event 4 2000) 1000 []
      (hold-IsEvent, tt) (inl (omega arith)) torn (omega arith) (omega arith)
