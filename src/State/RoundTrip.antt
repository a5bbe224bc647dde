-- ===== src/State/RoundTrip.antt =====
-- What is framed is read back, and nothing shorter is.
use lunet_locks.Prelude.{
  ℕ, suc, ◌+◌, ◌-◌, ◌^◌, ◌≡◌, ◌<◌, ◌≤◌, inl, inr, refl, sym, ap, ◌∙◌, Bool, true, false, not, ◌||◌,
  Bool-cases, Option, none, some, List, [], ◌∷◌, ◌++◌, append_assoc, arith, ltb, ◌==◌, ==_iff,
  if◌then◌else◌, length, take, drop, length-append, take-append, drop-append,
}
use lunet_locks.Prelude.Bytes.{to_be, from_be, slice, length-to_be, from_be-to_be}
use lunet_locks.Prelude.Results.{ok, err}
use lunet_locks.Journal.Crc.{crc32_ieee, crc32_ieee-lt}
use lunet_locks.Journal.Record.{byte_at}
use lunet_locks.Aof.Ring.{length-take_le}
use lunet_locks.State.Frame.{
  format_version, too_large, frame_header, framed_body, framed, frame_payload, frame, unframe,
}

length-framed : (payload : List ℕ) → length (framed payload) ≡ 5 + length payload + 4
length-framed payload = omega (
  arith,
  length-append (framed_body payload) (to_be 4 (crc32_ieee (framed_body payload))),
  length-append (frame_header payload) payload,
  length-to_be 4 (length payload),
  length-to_be 4 (crc32_ieee (framed_body payload)),
)

length-framed_body : (payload : List ℕ) → length (framed_body payload) ≡ 5 + length payload
length-framed_body payload =
    omega (arith, length-append (frame_header payload) payload, length-to_be 4 (length payload))

-- The length field of anything that begins with a frame's header.
length_field :
    (payload rest : List ℕ)
    → length payload < 2 ^ 32
    → from_be (slice 1 4 (frame_header payload ++ rest)) ≡ length payload
length_field payload rest small =
    ap from_be (take-append 4 (to_be 4 (length payload)) rest (length-to_be 4 (length payload)))
    ∙ from_be-to_be 4 (length payload) (omega (arith, small))

-- The frame is read back as its payload.
unframe-framed {ℓ} :
    {S : Type ℓ} (from_json : List ℕ → Option S) (payload : List ℕ)
    → length payload < 2 ^ 32
    → unframe from_json (framed payload) ≡ from_json payload
unfolding unframe
unframe-framed from_json payload small =
    let bytes : List ℕ = framed payload in
    let len = length-framed payload in
    let crc : List ℕ = to_be 4 (crc32_ieee (framed_body payload)) in
    let field : from_be (slice 1 4 bytes) ≡ length payload =
      ap (λ bs. from_be (slice 1 4 bs)) (append_assoc (frame_header payload) payload crc)
      ∙ length_field payload (payload ++ crc) small in
    let long : (ltb (length bytes) 9 || not (byte_at 0 bytes == format_version)) ≡ false =
      long_enough (length bytes) (omega (arith, len)) in
    let whole : (length bytes == 5 + length payload + 4) ≡ true = (==_iff _ _).1 len in
    let body : take (5 + length payload) bytes ≡ framed_body payload =
      take-append (5 + length payload) (framed_body payload) crc (length-framed_body payload) in
    let stored : from_be (drop (5 + length payload) bytes) ≡ crc32_ieee (framed_body payload) =
      ap from_be
        (drop-append (5 + length payload) (framed_body payload) crc (length-framed_body payload))
      ∙ from_be-to_be 4 _ (crc32_ieee-lt (framed_body payload)) in
    let header : drop 5 (framed_body payload) ≡ payload =
      drop-append 5 (frame_header payload) payload
        (omega (arith, length-to_be 4 (length payload))) in
    let sound : (crc32_ieee (framed_body payload) == crc32_ieee (framed_body payload)) ≡ true =
      (==_iff _ _).1 refl in
    rw (long, field, whole, body, stored, sound, header)
  where
    long_enough : (n : ℕ) → 9 ≤ n → (ltb n 9 || false) ≡ false
    long_enough n h = ground arith

abbrev inner {ℓ} : {S : Type ℓ} → (List ℕ → Option S) → Bool → Bool → Bool → List ℕ → Option S
inner from_json a b c payload =
    if a then none else if b then none else if c then none else from_json payload

inner-refused {ℓ} :
    {S : Type ℓ} (from_json : List ℕ → Option S) (a c : Bool) (payload : List ℕ)
    → inner from_json a true c payload ≡ none
inner-refused from_json true c payload = refl
inner-refused from_json false c payload = refl

-- Bytes whose number is not the one that their length field calls for are refused.
unframe-wrong_length {ℓ} :
    {S : Type ℓ} (from_json : List ℕ → Option S) (bytes : List ℕ)
    → (length bytes == 5 + from_be (slice 1 4 bytes) + 4) ≡ false
    → unframe from_json bytes ≡ none
unfolding unframe
unframe-wrong_length from_json bytes h =
    let body_end : ℕ = 5 + from_be (slice 1 4 bytes) in
    rw h (
      inner-refused from_json (ltb (length bytes) 9 || not (byte_at 0 bytes == format_version))
        (not (crc32_ieee (take body_end bytes) == from_be (drop body_end bytes)))
        (drop 5 (take body_end bytes)))

frame-ok {ℓ} :
    {S : Type ℓ} (to_json : S → Option (List ℕ)) (snap : S) (bytes : List ℕ)
    → frame to_json snap ≡ ok bytes
    → (payload : List ℕ) × (to_json snap ≡ some payload)
      × (length payload < 2 ^ 32)
      × (bytes ≡ framed payload)
unfolding frame
frame-ok to_json snap bytes h = of_payload (to_json snap) h
  where
    small : (payload : List ℕ) → ltb (length payload) (2 ^ 32) ≡ true → length payload < 2 ^ 32
    small payload e = ground arith

    same :
        (payload : List ℕ)
        → ltb (length payload) (2 ^ 32) ≡ true
        → frame_payload (some payload) ≡ ok bytes
        → bytes ≡ framed payload
    same payload e h =
        let at : frame_payload (some payload) ≡ ok (framed payload) =
          unfold frame_payload in rw e in
        cc

    refused :
        (payload : List ℕ)
        → ltb (length payload) (2 ^ 32) ≡ false
        → frame_payload (some payload) ≡ ok bytes
        → ⊥
    refused payload e h =
        let at : frame_payload (some payload) ≡ err too_large = unfold frame_payload in rw e in cc

    of_payload :
        (p : Option (List ℕ))
        → frame_payload p ≡ ok bytes
        → (payload : List ℕ) × (p ≡ some payload)
          × (length payload < 2 ^ 32)
          × (bytes ≡ framed payload)
    of_payload none h = unfold frame_payload in absurd cc
    of_payload (some payload) h = elim (Bool-cases (ltb (length payload) (2 ^ 32))) [
      | inl e ↦ (payload, refl, small payload e, same payload e h)
      | inr e ↦ absurd (refused payload e h)
    ]

-- What is framed is read back, if serde_json reads back what it wrote.
pub unframe-frame {ℓ} :
    {S : Type ℓ} (to_json : S → Option (List ℕ)) (from_json : List ℕ → Option S)
    → (reads_back : (s : S) (payload : List ℕ)
        → to_json s ≡ some payload
        → from_json payload ≡ some s)
    → (snap : S) (bytes : List ℕ) → frame to_json snap ≡ ok bytes
    → unframe from_json bytes ≡ some snap
unframe-frame to_json from_json reads_back snap bytes h =
    let (payload, p, small, same) = frame-ok to_json snap bytes h in
    ap (unframe from_json) same
    ∙ (unframe-framed from_json payload small ∙ reads_back snap payload p)

take_of_take : (n : ℕ) (xs : List ℕ) → 5 ≤ n → slice 1 4 (take n xs) ≡ slice 1 4 xs
take_of_take n xs h =
    let m : 5 + (n - 5) ≡ n = omega (arith, h) in
    ap (λ k. slice 1 4 (take k xs)) (sym m) ∙ by_shape (n - 5) xs
  where
    shaped :
        (k : ℕ) (xs : List ℕ) → slice 1 4 (take (suc (suc (suc (suc (suc k))))) xs) ≡ slice 1 4 xs
    shaped k [] = refl
    shaped k (a ∷ []) = refl
    shaped k (a ∷ (b ∷ [])) = refl
    shaped k (a ∷ (b ∷ (c ∷ []))) = refl
    shaped k (a ∷ (b ∷ (c ∷ (d ∷ [])))) = refl
    shaped k (a ∷ (b ∷ (c ∷ (d ∷ (e ∷ xs))))) = refl

    by_shape : (k : ℕ) (xs : List ℕ) → slice 1 4 (take (5 + k) xs) ≡ slice 1 4 xs
    by_shape k xs =
        let five : 5 + k ≡ suc (suc (suc (suc (suc k)))) = omega arith in rw five (shaped k xs)

unframe-short {ℓ} :
    {S : Type ℓ} (from_json : List ℕ → Option S) (bytes : List ℕ)
    → length bytes < 9
    → unframe from_json bytes ≡ none
unfolding unframe
unframe-short from_json bytes h = let short : ltb (length bytes) 9 ≡ true = ground arith in rw short

-- A torn file, any proper first part of a frame, is refused.
pub unframe-torn {ℓ} :
    {S : Type ℓ} (to_json : S → Option (List ℕ)) (from_json : List ℕ → Option S) (snap : S)
    (bytes : List ℕ) (n : ℕ)
    → frame to_json snap ≡ ok bytes
    → n < length bytes
    → unframe from_json (take n bytes) ≡ none
unframe-torn to_json from_json snap bytes n h less =
    let (payload, p, small, same) = frame-ok to_json snap bytes h in
    let whole : length bytes ≡ 5 + length payload + 4 =
      ap (λ xs. length xs) same ∙ length-framed payload in
    let cut : length (take n bytes) ≡ n = length-take_le n bytes (omega (arith, less)) in
    elim (Bool-cases (ltb n 9)) [
      | inl e ↦ unframe-short from_json (take n bytes) (omega (arith, cut, below e))
      | inr e ↦
          let field : from_be (slice 1 4 (take n bytes)) ≡ length payload =
            ap from_be (take_of_take n bytes (above e))
            ∙ (ap (λ bs. from_be (slice 1 4 bs))
                  (same ∙ append_assoc (frame_header payload) payload _)
                ∙ length_field payload _ small) in
          unframe-wrong_length from_json (take n bytes)
            (differs _ _ (omega (arith, cut, field, whole, less)))
    ]
  where
    below : ltb n 9 ≡ true → n < 9
    below e = ground arith

    above : ltb n 9 ≡ false → 5 ≤ n
    above e = ground arith

    differs : (a b : ℕ) → a < b → (a == b) ≡ false
    differs a b e = ground arith
