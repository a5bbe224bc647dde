-- ===== src/Wal/RoundTrip.antt =====
-- The unnamed locks that a stop writes are what a boot reads.
use lunet_locks.Prelude.{ℕ, suc, ◌*◌, ◌<◌, ◌^◌, ◌≡◌, none, some, List, [], ◌∷◌, ◌++◌, length, All}
use lunet_locks.Locks.Types.{Lease}
use lunet_locks.Wal.Records.{WalRecord, Codec}
use lunet_locks.Wal.Flush.{decode_chunks}

-- An unnamed lock's lease has nothing that its record leaves out, and its expiry fits as nanoseconds.
pub record IsPlain (lease : Lease) : Type 0 where
  pub unnamed : lease.name ≡ none
  pub unlabelled : lease.labels ≡ none
  pub no_taken_at : lease.taken_at_ms ≡ 0
  pub no_renewals : lease.renew_count ≡ 0
  pub expiry_fits : lease.expiry * 1000000 < 2 ^ 64

-- Lock ids ascend, and lie above a bound.
abbrev pub Ascends : ℕ → List (ℕ × Lease) → Type 0
Ascends low [] = Unit {0}
Ascends low ((id, lease) ∷ rest) = (low < id) × Ascends id rest

-- The engine decodes what it encoded, in 64 bytes.
module _ (codec : Codec)
    (reads_back : (f : WalRecord) (bytes : List ℕ)
      → codec.encode_fields f ≡ some bytes
      → (codec.decode_fields bytes ≡ some f) × (length bytes ≡ 64)) where
  -- What some locks add to the records, and how it is read behind locks with smaller ids.
  record Written (low : ℕ) (locks : List (ℕ × Lease)) (before after : List ℕ) : Type 0 where
    bytes : List ℕ
    added : after ≡ before ++ bytes
    counted : length bytes ≡ 64 * length locks
    read :
        (done : List (ℕ × Lease))
        → All (λ e. e.0 < suc low) done
        → decode_chunks codec (length locks) bytes done ≡ some (done ++ locks)
