-- ===== src/Wal/Submit.antt =====
-- The steady tick: every noted lock, as one generation for each stream. A BTreeMap is the list of its
-- entries, ascending by lock id.
use lunet_locks.Prelude.{
  ℕ, ◌+◌, ◌/◌, Bool, true, false, Option, none, some, List, [], ◌∷◌, ◌++◌, ltb, ◌==◌, if◌then◌else◌,
  length,
}
use lunet_locks.Prelude.Results.{Result, ok, err}
use lunet_locks.Locks.Types.{Lease}
use lunet_locks.Wal.Records.{
  live, Record, durable_live, durable_kept, DurableChange, Codec, no_holder, tombstone_of,
  record_encode, frame_encode, expiry_to_ns,
}
use lunet_locks.Wal.Labels.{labels_to_tag_bytes}

pub record DurableEntry : Type 0 where
  pub name : List ℕ
  pub labels : List (List ℕ)
  pub taken_at_ms : ℕ
  pub renew_count : ℕ
  pub lease_id : ℕ
  pub kept : Bool

unfoldable pub get {ℓ} : {A : Type ℓ} → ℕ → List (ℕ × A) → Option A
get id [] = none
get id ((k, a) ∷ rest) = if k == id then some a else get id rest

unfoldable pub insert {ℓ} : {A : Type ℓ} → ℕ → A → List (ℕ × A) → List (ℕ × A)
insert id a [] = (id, a) ∷ []
insert id a ((k, b) ∷ rest) =
    let later = insert id a rest in
    if ltb id k
    then (id, a) ∷ ((k, b) ∷ rest)
    else if k == id
    then (id, a) ∷ rest
    else (k, b) ∷ later

unfoldable pub insert_id : ℕ → List ℕ → List ℕ
insert_id id [] = id ∷ []
insert_id id (k ∷ rest) =
    let later = insert_id id rest in
    if ltb id k then id ∷ (k ∷ rest) else if k == id then k ∷ rest else k ∷ later

pub record WalSnapshotStore : Type 0 where
  pub changed : List ℕ
  pub durable : List (ℕ × DurableEntry)
  pub is_dead : Bool

-- The ABI's result codes.
pub data Code : Type 0 where
  code_ok code_eagain code_eio code_einval code_enospc code_other : Code

unfoldable pub note : ℕ → WalSnapshotStore → WalSnapshotStore
unfolding insert_id
note lock_id s = record s { changed = insert_id lock_id s.changed }

abbrev pub labels_of : Option (List (List ℕ)) → List (List ℕ)
labels_of none = []
labels_of (some ls) = ls

abbrev pub entry_of : List ℕ → Lease → DurableEntry
entry_of name lease = record {
  name = name;
  labels = labels_of lease.labels;
  taken_at_ms = lease.taken_at_ms;
  renew_count = lease.renew_count;
  lease_id = lease.lease_id;
  kept = lease.expiry == 0;
}

-- `durable_frame_live`.
abbrev pub live_change : ℕ → List ℕ → Lease → DurableChange
live_change lock_id name lease = record {
  lock_id = lock_id;
  lease_id = lease.lease_id;
  holder = lease.holder;
  expiry_ns = expiry_to_ns lease.expiry;
  lease_ms = lease.lease_ms;
  kind = durable_live;
  name_bytes = name;
  taken_at_ms = lease.taken_at_ms;
  renew_count = lease.renew_count;
  tag_bytes = labels_to_tag_bytes (labels_of lease.labels);
}

-- `durable_frame_kept`.
abbrev pub kept_change : ℕ → DurableEntry → DurableChange
kept_change lock_id entry = record {
  lock_id = lock_id;
  lease_id = entry.lease_id;
  holder = no_holder;
  expiry_ns = 0;
  lease_ms = 0;
  kind = durable_kept;
  name_bytes = entry.name;
  taken_at_ms = entry.taken_at_ms;
  renew_count = entry.renew_count;
  tag_bytes = labels_to_tag_bytes entry.labels;
}

abbrev pub live_record : ℕ → ℕ → Lease → Record
live_record stamp lock_id lease = record {
  stamp = stamp;
  expiry = expiry_to_ns lease.expiry;
  lock_id = lock_id;
  lease_id = lease.lease_id;
  kind = live;
  holder = lease.holder;
  lease_ms = lease.lease_ms;
}

-- What the loop has built: the identities, which keep what it did to them when it stops, the bytes of
-- the two generations, and whether the engine refused a lock's fields.
pub record Built : Type 0 where
  pub durable : List (ℕ × DurableEntry)
  pub records : List ℕ
  pub frames : List ℕ
  pub refused : Bool

abbrev pub add_record : Option (List ℕ) → Built → Built
add_record none b = record b { refused = true }
add_record (some bytes) b = record b { records = b.records ++ bytes }

abbrev pub add_frame : Option (List ℕ) → Built → Built
add_frame none b = record b { refused = true }
add_frame (some bytes) b = record b { frames = b.frames ++ bytes }

-- The frame of a named lease: `durable_frame_kept_from_lease` where it has no expiry.
abbrev pub named_change : ℕ → List ℕ → Lease → DurableChange
named_change lock_id name lease =
    if lease.expiry == 0
    then kept_change lock_id (entry_of name lease)
    else live_change lock_id name lease

-- One noted lock that the snapshot has.
abbrev pub build_lease : Codec → ℕ → ℕ → Lease → Option (List ℕ) → Built → Built
build_lease codec stamp lock_id lease (some name) b =
    add_frame (frame_encode codec stamp (named_change lock_id name lease))
      (record b { durable = insert lock_id (entry_of name lease) b.durable })
build_lease codec stamp lock_id lease none b =
    add_record (record_encode codec (live_record stamp lock_id lease)) b

-- One that the snapshot no longer has.
abbrev pub build_gone : Codec → ℕ → ℕ → Option DurableEntry → Built → Built
build_gone codec stamp lock_id (some entry) b =
    if entry.kept
    then b
    else add_frame (frame_encode codec stamp (kept_change lock_id entry))
        (record b { durable = insert lock_id (record entry { kept = true }) b.durable })
build_gone codec stamp lock_id none b =
    add_record (record_encode codec (tombstone_of stamp lock_id 0)) b

abbrev pub build_one : Codec → ℕ → ℕ → Option Lease → Built → Built
build_one codec stamp lock_id (some lease) b = build_lease codec stamp lock_id lease lease.name b
build_one codec stamp lock_id none b = build_gone codec stamp lock_id (get lock_id b.durable) b

-- The loop over the noted locks, which stops at the first refusal.
unfoldable pub build : Codec → ℕ → List (ℕ × Lease) → List ℕ → Built → Built
unfolding get insert
build codec stamp locks [] b = b
build codec stamp locks (id ∷ ids) b =
    if b.refused then b else build codec stamp locks ids (build_one codec stamp id (get id locks) b)

-- What became of a submit: the store, the generations that the engine took, and the count or the code.
pub record Submitted : Type 0 where
  pub store : WalSnapshotStore
  pub took_records : List ℕ
  pub took_frames : List ℕ
  pub result : Result Code ℕ

-- `wal_durable_submit`, and the end, with the engine's answer.
abbrev pub submit_frames : Code → WalSnapshotStore → List ℕ → List ℕ → Submitted
submit_frames code_ok s records frames = record {
  store = record s { changed = [] };
  took_records = records;
  took_frames = frames;
  result = ok (length records / 64 + length frames / 768);
}
submit_frames rc s records frames = record {
  store = s;
  took_records = records;
  took_frames = [];
  result = err rc;
}

abbrev pub submit_records : Code → Code → WalSnapshotStore → List ℕ → List ℕ → Submitted
submit_records code_ok rc s records frames =
    submit_frames (if length frames == 0 then code_ok else rc) s records frames
submit_records rc rc' s records frames = record {
  store = s;
  took_records = [];
  took_frames = [];
  result = err rc;
}

abbrev pub submit_built : Code → Code → WalSnapshotStore → Built → Submitted
submit_built rc rc' s b =
    if b.refused
    then record {
      store = record s { durable = b.durable };
      took_records = [];
      took_frames = [];
      result = err code_einval;
    }
    else submit_records (if length b.records == 0 then code_ok else rc) rc'
        (record s { durable = b.durable }) b.records b.frames

-- `submit` with the engine's two answers.
unfoldable pub submit : Codec → ℕ → List (ℕ × Lease) → Code → Code → WalSnapshotStore → Submitted
unfolding build
submit codec stamp locks rc rc' s =
    if length s.changed == 0
    then record { store = s; took_records = []; took_frames = []; result = ok 0 }
    else if s.is_dead
    then record { store = s; took_records = []; took_frames = []; result = err code_eio }
    else submit_built rc rc' s (
        build codec stamp locks s.changed
          (record { durable = s.durable; records = []; frames = []; refused = false }))
