-- ===== src/Wal/Flush.antt =====
-- The generation written at a stop, and the reading of the ephemeral stream at a boot.
use lunet_locks.Prelude.{
  ℕ, zero, suc, ◌/◌, Bool, true, false, not, ◌&&◌, Option, none, some, List, [], ◌∷◌, ◌++◌,
  if◌then◌else◌, length, take, drop,
}
use lunet_locks.Prelude.Results.{Result, ok, err}
use lunet_locks.Locks.Types.{Lease}
use lunet_locks.Wal.Records.{
  RecordKind, live, tombstone, Record, Codec, record_encode, record_decode, frame_encode,
}
use lunet_locks.Wal.Submit.{
  DurableEntry, get, insert, WalSnapshotStore, Code, code_ok, code_eagain, code_eio, code_einval,
  code_enospc, code_other, entry_of, kept_change, named_change, live_record, Built, add_record,
  add_frame,
}

-- One lock of the snapshot: a named one's identity is kept only where its frame was encoded.
abbrev pub flush_named : ℕ → List ℕ → Lease → Option (List ℕ) → Built → Built
flush_named lock_id name lease none b = record b { refused = true }
flush_named lock_id name lease (some bytes) b = record b {
  frames = b.frames ++ bytes;
  durable = insert lock_id (entry_of name lease) b.durable;
}

abbrev pub flush_lease : Codec → ℕ → ℕ → Lease → Option (List ℕ) → Built → Built
flush_lease codec stamp lock_id lease (some name) b =
    flush_named lock_id name lease (frame_encode codec stamp (named_change lock_id name lease)) b
flush_lease codec stamp lock_id lease none b =
    add_record (record_encode codec (live_record stamp lock_id lease)) b

unfoldable pub flush_locks : Codec → ℕ → List (ℕ × Lease) → Built → Built
unfolding insert
flush_locks codec stamp [] b = b
flush_locks codec stamp ((id, lease) ∷ rest) b =
    if b.refused
    then b
    else flush_locks codec stamp rest (flush_lease codec stamp id lease lease.name b)

abbrev pub is_named : Option Lease → Bool
is_named none = false
is_named (some lease) = elim lease.name [ none ↦ false | some name ↦ true ]

-- The identities that the snapshot no longer names are kept.
unfoldable pub mark_kept : List (ℕ × Lease) → List (ℕ × DurableEntry) → List (ℕ × DurableEntry)
unfolding get
mark_kept locks [] = []
mark_kept locks ((id, entry) ∷ rest) =
    (id, if is_named (get id locks) then entry else record entry { kept = true })
    ∷ mark_kept locks rest

unfoldable pub flush_kept : Codec → ℕ → List (ℕ × Lease) → List (ℕ × DurableEntry) → Built → Built
unfolding get
flush_kept codec stamp locks [] b = b
flush_kept codec stamp locks ((id, entry) ∷ rest) b =
    if b.refused
    then b
    else flush_kept codec stamp locks rest (
        if entry.kept && not (is_named (get id locks))
        then add_frame (frame_encode codec stamp (kept_change id entry)) b
        else b)

abbrev pub flush_rest : Codec → ℕ → List (ℕ × Lease) → Built → Built
flush_rest codec stamp locks b =
    if b.refused
    then b
    else let durable = mark_kept locks b.durable in
      flush_kept codec stamp locks durable (record b { durable = durable })

-- `flush` with what the engine answers to the two live sets.
unfoldable pub flush :
    Codec
    → ℕ
    → List (ℕ × Lease)
    → (List ℕ → List ℕ → Code)
    → WalSnapshotStore
    → WalSnapshotStore × Result Code (Unit {0})
unfolding flush_locks mark_kept flush_kept
flush codec stamp locks engine s =
    if s.is_dead
    then (s, err code_eio)
    else let b = flush_rest codec stamp locks (
        flush_locks codec stamp locks
          (record { durable = s.durable; records = []; frames = []; refused = false })) in
      let s' : WalSnapshotStore = record s { durable = b.durable } in
      if b.refused then (s', err code_einval) else elim (engine b.records b.frames) [
        | code_ok ↦ (s', ok tt)
        | code_eagain ↦ (s', err code_eagain)
        | code_eio ↦ (s', err code_eio)
        | code_einval ↦ (s', err code_einval)
        | code_enospc ↦ (s', err code_enospc)
        | code_other ↦ (s', err code_other)
      ]

abbrev pub lease_of : Record → Lease
lease_of r = record {
  lease_id = r.lease_id;
  holder = r.holder;
  expiry = r.expiry / 1000000;
  lease_ms = r.lease_ms;
  name = none;
  labels = none;
  taken_at_ms = 0;
  renew_count = 0;
}

abbrev pub decode_one : RecordKind → Record → List (ℕ × Lease) → Option (List (ℕ × Lease))
decode_one tombstone r locks = none
decode_one live r locks = some (insert r.lock_id (lease_of r) locks)

-- The loop over `chunks_exact`, with the number of chunks left.
unfoldable pub decode_chunks : Codec → ℕ → List ℕ → List (ℕ × Lease) → Option (List (ℕ × Lease))
unfolding insert
decode_chunks codec zero bytes locks = some locks
decode_chunks codec (suc n) bytes locks = elim (record_decode codec (take 64 bytes)) [
  | none ↦ none
  | some r ↦ elim (decode_one r.kind r locks) [
    | none ↦ none
    | some locks' ↦ decode_chunks codec n (drop 64 bytes) locks'
  ]
]

unfoldable pub decode_records : Codec → List ℕ → Option (List (ℕ × Lease))
unfolding decode_chunks
decode_records codec bytes = decode_chunks codec (length bytes / 64) bytes []
