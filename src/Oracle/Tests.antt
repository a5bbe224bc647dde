-- ===== src/Oracle/Tests.antt =====
-- The oracle over concrete journals, and the theorems at such inputs.
use lunet_locks.Prelude.{◌≡◌, ◌↔◌, List, [], ◌∷◌, map, replicate}
use lunet_locks.Prelude.Results.{ok}
use lunet_locks.Journal.Record.{JournalEvent}
use lunet_locks.Journal.FileParse.{encode_all}
use lunet_locks.Journal.Samples.{sample_event, hold-IsEvent, break-IsEvent}
use lunet_locks.Oracle.Decode.{Transition, decode_file}
use lunet_locks.Oracle.Readers.{transition_of, decode_file-encode_all}
use lunet_locks.Oracle.Chains.{chains_agree, AllSame, chains_agree-AllSame}
use lunet_locks.Oracle.History.{
  Observation, client_history_consistent, Follows, client_history_consistent-Follows,
}

abbrev two_events : List JournalEvent
two_events = sample_event 1 1001 ∷ (sample_event 4 2000 ∷ [])

decode_file-encode_all_example :
    decode_file (encode_all two_events) ≡ ok (map transition_of two_events)
decode_file-encode_all_example =
    decode_file-encode_all two_events (hold-IsEvent, (break-IsEvent, tt))

abbrev chain : List Transition
chain = map transition_of two_events

chains_agree-AllSame_example :
    (chains_agree (("n1", chain) ∷ (("n2", chain) ∷ [])) ≡ ok tt)
    ↔ AllSame chain (("n2", chain) ∷ [])
chains_agree-AllSame_example = chains_agree-AllSame "n1" chain (("n2", chain) ∷ [])

-- The holder that saw itself take the lock.
abbrev history : List Observation
history = record { holder = replicate 16 1; lease_id = 70 } ∷ []

client_history_consistent-Follows_example :
    (client_history_consistent chain history ≡ ok tt) ↔ Follows chain history
client_history_consistent-Follows_example = client_history_consistent-Follows chain history
