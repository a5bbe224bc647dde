-- ===== src/Feed/Prefixed.antt =====
-- `PrefixedStream`: a stream that first gives back bytes that were read already.
use lunet_locks.Prelude.{
  ℕ, zero, suc, ◌+◌, ◌≤◌, ◌≡◌, refl, sym, ap, ◌∙◌, inl, inr, false, Bool-cases, List, [], ◌∷◌, ◌++◌,
  append_assoc, arith, ltb, min, if◌then◌else◌, length, take, drop,
}
use lunet_locks.Aof.Ring.{take_append_drop}

-- The inner stream is the bytes that it has yet to give.
pub record PrefixedStream : Type 0 where
  pub prefix : List ℕ
  pub position : ℕ
  pub inner : List ℕ

-- `poll_read` into a buffer with that much room. `ready` is how many bytes the inner stream gives then.
unfoldable pub poll_read : ℕ → ℕ → PrefixedStream → List ℕ × PrefixedStream
poll_read room ready s =
    if ltb s.position (length s.prefix)
    then (
      take (min (length (drop s.position s.prefix)) room) (drop s.position s.prefix),
      record s { position = s.position + min (length (drop s.position s.prefix)) room },
    )
    else (take (min ready room) s.inner, record s { inner = drop (min ready room) s.inner })

unfoldable pub poll_all : List (ℕ × ℕ) → PrefixedStream → List ℕ × PrefixedStream
unfolding poll_read
poll_all [] s = ([], s)
poll_all ((room, ready) ∷ ps) s =
    let (first, s') = poll_read room ready s in
    let (rest, s'') = poll_all ps s' in (first ++ rest, s'')

-- What is yet to be read.
abbrev pub unread : PrefixedStream → List ℕ
unread s = drop s.position s.prefix ++ s.inner

drop_nil : (n : ℕ) → drop {A = ℕ} n [] ≡ []
drop_nil zero = refl
drop_nil (suc n) = refl

drop_further : (n k : ℕ) (xs : List ℕ) → drop (n + k) xs ≡ drop k (drop n xs)
drop_further zero k xs = ap (λ m. drop m xs) zero_add
  where
    zero_add : 0 + k ≡ k
    zero_add = omega arith
drop_further (suc n) k [] = drop_nil (suc n + k) ∙ sym (drop_nil k)
drop_further (suc n) k (x ∷ xs) =
    let m : suc n + k ≡ suc (n + k) = omega arith in rw m (drop_further n k xs)

drop_ended : (n : ℕ) (xs : List ℕ) → length xs ≤ n → drop n xs ≡ []
drop_ended n [] h = drop_nil n
drop_ended zero (x ∷ xs) h = absurd (omega (arith, h))
drop_ended (suc n) (x ∷ xs) h = drop_ended n xs (omega (arith, h))

poll_read-unread :
    (room ready : ℕ) (s : PrefixedStream)
    → (poll_read room ready s).0 ++ unread (poll_read room ready s).1 ≡ unread s
unfolding poll_read
poll_read-unread room ready s = elim (Bool-cases (ltb s.position (length s.prefix))) [
  | inl e ↦
      let left : List ℕ = drop s.position s.prefix in
      let n : ℕ = min (length left) room in
      rw e (
        ap (λ xs. take n left ++ (xs ++ s.inner)) (drop_further s.position n s.prefix)
        ∙ (sym (append_assoc (take n left) (drop n left) s.inner)
            ∙ ap (λ xs. xs ++ s.inner) (take_append_drop n left)))
  | inr e ↦
      let none_left : drop s.position s.prefix ≡ [] = past s.position s.prefix e in
      rw e (rw none_left (take_append_drop (min ready room) s.inner))
]
  where
    le_of : (n m : ℕ) → ltb n m ≡ false → m ≤ n
    le_of n m h = ground arith

    past : (n : ℕ) (xs : List ℕ) → ltb n (length xs) ≡ false → drop n xs ≡ []
    past n xs h = drop_ended n xs (le_of n (length xs) h)

-- However the reads fall, what they gave and what is yet to be read are, in order, what was to be read:
-- the prefix and then the inner stream, with no byte lost, repeated or moved.
pub poll_all-unread :
    (polls : List (ℕ × ℕ)) (s : PrefixedStream)
    → (poll_all polls s).0 ++ unread (poll_all polls s).1 ≡ unread s
unfolding poll_all
poll_all-unread [] s = refl
poll_all-unread ((room, ready) ∷ ps) s =
    append_assoc (poll_read room ready s).0 (poll_all ps (poll_read room ready s).1).0 _
    ∙ (ap (λ xs. (poll_read room ready s).0 ++ xs) (poll_all-unread ps (poll_read room ready s).1)
        ∙ poll_read-unread room ready s)
