-- ===== src/Aof/Sink.antt =====
-- The active file and its two ways to write: one call, or a loop of ring submissions.
use lunet_locks.Prelude.{
  ℕ, zero, suc, ◌+◌, Bool, true, false, List, [], ◌∷◌, ◌++◌, ◌-◌, Option, none, some, ◌==◌, leb,
  if◌then◌else◌, length, take, drop, replicate,
}
use lunet_locks.Prelude.Results.{Result, ok, err}

-- The file's bytes, the position, and how many of the bytes an fsync has covered.
pub record FileSink : Type 0 where
  pub content : List ℕ
  pub offset : ℕ
  pub synced : ℕ

-- Bytes written at a position: a gap before it reads as zeros, and what stood there is replaced.
unfoldable pub write_at : ℕ → List ℕ → List ℕ → List ℕ
write_at offset bytes content =
    take offset content
    ++ (replicate (offset - length content) 0 ++ (bytes ++ drop (offset + length bytes) content))

-- `write_all_blocking` with the disk's answer: `none` where the write succeeds, and else the number of
-- bytes that landed.
unfoldable pub write_all_blocking : Option ℕ → List ℕ → FileSink → FileSink × Bool
write_all_blocking none bytes s = (
  record s { content = write_at s.offset bytes s.content; offset = s.offset + length bytes },
  true,
)
write_all_blocking (some n) bytes s =
    (record s { content = write_at s.offset (take n bytes) s.content }, false)

-- What one submission came to.
pub data Completion : Type 0 where
  queue_full submit_failed cqe_missing : Completion
  failed : ℕ → Completion
  wrote : ℕ → Completion

pub data RingError : Type 0 where
  not_submitted : Completion → RingError
  os_error : ℕ → RingError
  wrote_zero past_end out_of_fuel : RingError

-- The loop of `write_all_ring`. The ring answers by the submission's number and length; the length's
-- cast to u32 is left out, since what is written is far shorter than 2 ^ 32 bytes. A completion
-- for more bytes than were submitted panics in the slice, after the offset has moved.
unfoldable pub write_all_ring :
    (ℕ → ℕ → Completion) → ℕ → ℕ → List ℕ → FileSink → FileSink × Result RingError (Unit {0})
write_all_ring ring fuel k [] s = (s, ok tt)
write_all_ring ring zero k (b ∷ bs) s = (s, err out_of_fuel)
write_all_ring ring (suc fuel) k (b ∷ bs) s = elim (ring k (length (b ∷ bs))) [
  | queue_full ↦ (s, err (not_submitted queue_full))
  | submit_failed ↦ (s, err (not_submitted submit_failed))
  | cqe_missing ↦ (s, err (not_submitted cqe_missing))
  | failed errno ↦ (s, err (os_error errno))
  | wrote n ↦
      let s' : FileSink = record s {
        content = write_at s.offset (take n (b ∷ bs)) s.content;
        offset = s.offset + n;
      } in
      let rest = write_all_ring ring fuel (suc k) (drop n (b ∷ bs)) s' in
      if n == 0
      then (s, err wrote_zero)
      else if leb n (length (b ∷ bs))
      then rest
      else (s', err past_end)
]
