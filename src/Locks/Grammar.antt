-- ===== src/Locks/Grammar.antt =====
-- The name test against its grammar: a slash, and then segments of name bytes, none of them empty,
-- joined by slashes.
use lunet_locks.Prelude.{
  ℕ, suc, ◌+◌, ◌≡◌, refl, ◌∙◌, inl, inr, Bool, false, ◌&&◌, Bool-cases, List, [], ◌∷◌, arith, ltb,
  leb, ◌==◌, if◌then◌else◌, length, all,
}
use lunet_locks.Membership.Text.{split_on, push_front}
use lunet_locks.Locks.Names.{is_name_byte, name_loop, valid_name}

abbrev pub valid_segment : List ℕ → Bool
valid_segment s = ltb 0 (length s) && all is_name_byte s

abbrev pub is_path : List ℕ → Bool
is_path [] = false
is_path (b ∷ bs) = b == b'/' && all valid_segment (split_on b'/' bs)

-- The segments from inside one of which some bytes are read already.
segments_from : ℕ → List (List ℕ) → Bool
segments_from n [] = false
segments_from n (s ∷ ss) = ltb 0 (n + length s) && (all is_name_byte s && all valid_segment ss)

split_on-some :
    (c : ℕ) (bs : List ℕ) → (s : List ℕ) × (ss : List (List ℕ)) × (split_on c bs ≡ s ∷ ss)
unfolding split_on push_front
split_on-some c [] = ([], [], refl)
split_on-some c (b ∷ bs) =
    let (s, ss, e) = split_on-some c bs in
    elim (Bool-cases (b == c)) [
      | inl h ↦ ([], split_on c bs, rw h refl)
      | inr h ↦ (b ∷ s, ss, rw (h, e) refl)
    ]

segments_from-zero :
    (ss : List (List ℕ)) (s : List ℕ) → segments_from 0 (s ∷ ss) ≡ all valid_segment (s ∷ ss)
unfolding segments_from
segments_from-zero ss s = ground arith

segments_from-push_front :
    (n b : ℕ) (s : List ℕ) (ss : List (List ℕ))
    → segments_from n (push_front b (s ∷ ss)) ≡ (is_name_byte b && segments_from (suc n) (s ∷ ss))
unfolding segments_from push_front
segments_from-push_front n b s ss = ground arith

name_loop-cons :
    (n b : ℕ) (bs : List ℕ)
    → name_loop n (b ∷ bs) ≡ (
        if b == b'/'
        then if n == 0 then false else name_loop 0 bs
        else if is_name_byte b
        then name_loop (suc n) bs
        else false)
unfolding name_loop
name_loop-cons n b bs = ground arith

name_loop-segments : (n : ℕ) (bs : List ℕ) → name_loop n bs ≡ segments_from n (split_on b'/' bs)
unfolding split_on
name_loop-segments n [] = unfold name_loop segments_from in ground arith
name_loop-segments n (b ∷ bs) =
    let (s, ss, e) = split_on-some b'/' bs in
    let at_zero : name_loop 0 bs ≡ all valid_segment (s ∷ ss) =
      name_loop-segments 0 bs ∙ rw e (segments_from-zero ss s) in
    let later : name_loop (suc n) bs ≡ segments_from (suc n) (s ∷ ss) =
      name_loop-segments (suc n) bs ∙ rw e refl in
    name_loop-cons n b bs ∙ elim (Bool-cases (b == b'/')) [
      | inl h ↦ rw (h, e) (slash n (name_loop 0 bs) s ss at_zero)
      | inr h ↦
          rw (h, e)
            (rw (segments_from-push_front n b s ss)
              (letter n b bs (segments_from (suc n) (s ∷ ss)) later))
    ]
  where
    slash :
        (n : ℕ) (t : Bool) (s : List ℕ) (ss : List (List ℕ))
        → t ≡ all valid_segment (s ∷ ss)
        → (if n == 0 then false else t) ≡ segments_from n ([] ∷ s ∷ ss)
    slash n t s ss h = unfold segments_from in ground arith

    letter :
        (n b : ℕ) (bs : List ℕ) (t : Bool)
        → name_loop (suc n) bs ≡ t
        → (if is_name_byte b then name_loop (suc n) bs else false) ≡ (is_name_byte b && t)
    letter n b bs t h = ground arith

-- The name test accepts exactly the names of at most 128 bytes that are a path of the grammar.
pub valid_name-grammar :
    (bytes : List ℕ) → valid_name bytes ≡ (leb (length bytes) 128 && is_path bytes)
unfolding valid_name
valid_name-grammar [] = refl
valid_name-grammar (b ∷ bs) =
    let (s, ss, e) = split_on-some b'/' bs in
    let loop : name_loop 0 bs ≡ all valid_segment (split_on b'/' bs) =
      name_loop-segments 0 bs ∙ rw e (segments_from-zero ss s) in
    ground (arith, loop)
