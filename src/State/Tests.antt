-- ===== src/State/Tests.antt =====
-- The store of a concrete snapshot, and the theorems at such inputs.
use lunet_locks.Prelude.{
  ℕ, ◌≡◌, ◌⊎◌, refl, sym, ap, true, false, Option, none, some, List, [], ◌∷◌, arith, take,
}
use lunet_locks.Prelude.Bytes.{to_be}
use lunet_locks.Prelude.Results.{ok, err}
use lunet_locks.State.Frame.{framed, frame_payload, frame, unframe}
use lunet_locks.State.RoundTrip.{unframe-torn}
use lunet_locks.State.Store.{Directory, Answers, StoreError, flush, lazy_load, lazy_load-flush}

-- A snapshot that is one byte, and its text.
abbrev to_byte : ℕ → Option (List ℕ)
to_byte n = some (n ∷ [])

abbrev from_byte : List ℕ → Option ℕ
from_byte (n ∷ []) = some n
from_byte _ = none

byte_read_back : (s : ℕ) (payload : List ℕ) → to_byte s ≡ some payload → from_byte payload ≡ some s
byte_read_back s payload h = ap from_byte (sym (unwrapped (s ∷ []) payload h))
  where
    unwrapped : (xs ys : List ℕ) → some xs ≡ some ys → xs ≡ ys
    unwrapped xs ys e = cc

seven_framed : frame to_byte 7 ≡ ok (framed (7 ∷ []))
unfolding frame frame_payload
seven_framed = refl

-- The last byte is missing.
unframe-torn_example : unframe from_byte (take 9 (framed (7 ∷ []))) ≡ none
unfolding to_be
unframe-torn_example =
    unframe-torn to_byte from_byte 7 (framed (7 ∷ [])) 9 seven_framed (omega arith)

abbrev old_file : Directory
old_file = record { file = some (1 ∷ []); temporary = none }

-- The rename fails.
abbrev no_rename : Answers
no_rename = record {
  created = true;
  write_left = none;
  synced = true;
  renamed = false;
  parent_synced = true;
  removed = true;
}

lazy_load-flush_example :
    ((lazy_load from_byte true true true (flush to_byte no_rename 7 old_file).0
        ≡ lazy_load from_byte true true true old_file)
      × ((e : StoreError) × ((flush to_byte no_rename 7 old_file).1 ≡ err e)))
    ⊎ (lazy_load from_byte true true true (flush to_byte no_rename 7 old_file).0 ≡ ok (some 7))
lazy_load-flush_example = lazy_load-flush to_byte from_byte byte_read_back no_rename 7 old_file
