-- ===== src/Wal/Records.antt =====
-- The records and frames of the log, and the engine's codec, which is a parameter.
use lunet_locks.Prelude.{
  ℕ, ◌*◌, ◌-◌, ◌^◌, min, Option, none, some, List, replicate, ◌==◌, if◌then◌else◌,
}

pub data RecordKind : Type 0 where
  live tombstone : RecordKind

-- The ABI's struct; the engine stamps the checksum.
pub record WalRecord : Type 0 where
  pub stamp : ℕ
  pub expiry : ℕ
  pub lock_id : ℕ
  pub lease_id : ℕ
  pub holder : List ℕ
  pub lease_ms : ℕ
  pub tag : ℕ

pub record Record : Type 0 where
  pub stamp : ℕ
  pub expiry : ℕ
  pub lock_id : ℕ
  pub lease_id : ℕ
  pub kind : RecordKind
  pub holder : List ℕ
  pub lease_ms : ℕ

abbrev pub no_holder : List ℕ
no_holder = replicate 16 0

abbrev pub tombstone_of : ℕ → ℕ → ℕ → Record
tombstone_of stamp lock_id lease_id = record {
  stamp = stamp;
  expiry = 0;
  lock_id = lock_id;
  lease_id = lease_id;
  kind = tombstone;
  holder = no_holder;
  lease_ms = 0;
}

abbrev pub kind_code : RecordKind → ℕ
kind_code live = 1
kind_code tombstone = 2

unfoldable pub kind_from_code : ℕ → Option RecordKind
kind_from_code tag = if tag == 1 then some live else if tag == 2 then some tombstone else none

pub data DurableKind : Type 0 where
  durable_live durable_kept durable_delete : DurableKind

abbrev pub durable_kind_code : DurableKind → ℕ
durable_kind_code durable_live = 1
durable_kind_code durable_kept = 2
durable_kind_code durable_delete = 3

pub record DurableChange : Type 0 where
  pub lock_id : ℕ
  pub lease_id : ℕ
  pub holder : List ℕ
  pub expiry_ns : ℕ
  pub lease_ms : ℕ
  pub kind : DurableKind
  pub name_bytes : List ℕ
  pub taken_at_ms : ℕ
  pub renew_count : ℕ
  pub tag_bytes : List ℕ

-- The engine's codec: `wal_record_encode`, `wal_record_decode`, and `wal_frame_encode` with the name,
-- the two counters and the tag bytes.
pub record Codec : Type 0 where
  pub encode_fields : WalRecord → Option (List ℕ)
  pub decode_fields : List ℕ → Option WalRecord
  pub encode_frame : WalRecord → List ℕ → ℕ → ℕ → List ℕ → Option (List ℕ)

abbrev pub fields_of : Record → WalRecord
fields_of r = record {
  stamp = r.stamp;
  expiry = r.expiry;
  lock_id = r.lock_id;
  lease_id = r.lease_id;
  holder = r.holder;
  lease_ms = r.lease_ms;
  tag = kind_code r.kind;
}

unfoldable pub record_encode : Codec → Record → Option (List ℕ)
record_encode codec r = codec.encode_fields (fields_of r)

abbrev pub of_fields : WalRecord → Option RecordKind → Option Record
of_fields f none = none
of_fields f (some kind) = some (record {
  stamp = f.stamp;
  expiry = f.expiry;
  lock_id = f.lock_id;
  lease_id = f.lease_id;
  kind = kind;
  holder = f.holder;
  lease_ms = f.lease_ms;
})

unfoldable pub record_decode : Codec → List ℕ → Option Record
unfolding kind_from_code
record_decode codec bytes = elim (codec.decode_fields bytes) [
  | none ↦ none
  | some f ↦ of_fields f (kind_from_code f.tag)
]

abbrev pub change_fields : ℕ → DurableChange → WalRecord
change_fields stamp c = record {
  stamp = stamp;
  expiry = c.expiry_ns;
  lock_id = c.lock_id;
  lease_id = c.lease_id;
  holder = c.holder;
  lease_ms = c.lease_ms;
  tag = durable_kind_code c.kind;
}

unfoldable pub frame_encode : Codec → ℕ → DurableChange → Option (List ℕ)
frame_encode codec stamp c =
    codec.encode_frame (change_fields stamp c) c.name_bytes c.taken_at_ms c.renew_count c.tag_bytes

-- `saturating_mul` on u64.
unfoldable pub expiry_to_ns : ℕ → ℕ
expiry_to_ns ms = min (ms * 1000000) (2 ^ 64 - 1)
