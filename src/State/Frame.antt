-- ===== src/State/Frame.antt =====
-- The framed bytes of a snapshot: version, length, payload, checksum. What serde_json makes of a
-- snapshot, and what it reads back, are parameters.
use lunet_locks.Prelude.{
  ℕ, ◌+◌, ◌^◌, not, ◌||◌, Option, none, some, List, ◌∷◌, ◌++◌, ltb, ◌==◌, if◌then◌else◌, length,
  take, drop,
}
use lunet_locks.Prelude.Bytes.{to_be, from_be, slice}
use lunet_locks.Prelude.Results.{Result, ok, err}
use lunet_locks.Journal.Crc.{crc32_ieee}
use lunet_locks.Journal.Record.{byte_at}

abbrev pub format_version : ℕ
format_version = 2

pub data FrameError : Type 0 where
  not_serialised too_large : FrameError

abbrev pub frame_header : List ℕ → List ℕ
frame_header payload = format_version ∷ to_be 4 (length payload)

abbrev pub framed_body : List ℕ → List ℕ
framed_body payload = frame_header payload ++ payload

abbrev pub framed : List ℕ → List ℕ
framed payload = framed_body payload ++ to_be 4 (crc32_ieee (framed_body payload))

-- `frame`, on what serde_json made of the snapshot.
unfoldable pub frame_payload : Option (List ℕ) → Result FrameError (List ℕ)
frame_payload none = err not_serialised
frame_payload (some payload) =
    if ltb (length payload) (2 ^ 32) then ok (framed payload) else err too_large

unfoldable pub frame {ℓ} : {S : Type ℓ} → (S → Option (List ℕ)) → S → Result FrameError (List ℕ)
unfolding frame_payload
frame to_json snap = frame_payload (to_json snap)

unfoldable pub unframe {ℓ} : {S : Type ℓ} → (List ℕ → Option S) → List ℕ → Option S
unframe from_json bytes =
    if ltb (length bytes) 9 || not (byte_at 0 bytes == format_version)
    then none
    else let body_end = 5 + from_be (slice 1 4 bytes) in
      if not (length bytes == body_end + 4)
      then none
      else if not (crc32_ieee (take body_end bytes) == from_be (drop body_end bytes))
      then none
      else from_json (drop 5 (take body_end bytes))
