-- ===== src/Aof/Ring.antt =====
-- The ring's loop of partial writes against the one blocking write.
use lunet_locks.Prelude.{
  ℕ, zero, suc, ◌+◌, ◌-◌, ◌≤◌, ◌≡◌, refl, sym, ap, ◌∙◌, true, false, none, List, [], ◌∷◌, ◌++◌,
  append_assoc, append-nil, arith, ◌==◌, leb, length, take, drop, length-append, length-drop,
}
use lunet_locks.Prelude.Results.{ok}
use lunet_locks.Aof.Sink.{FileSink, write_at, write_all_blocking, Completion, wrote, write_all_ring}

pub take-length {ℓ} : {A : Type ℓ} (xs : List A) → take (length xs) xs ≡ xs
take-length [] = refl
take-length (x ∷ xs) = ap (◌∷◌ x) (take-length xs)

drop-nil {ℓ} : {A : Type ℓ} (n : ℕ) → drop {A = A} n [] ≡ []
drop-nil zero = refl
drop-nil (suc n) = refl

drop-past {ℓ} : {A : Type ℓ} (xs : List A) (n : ℕ) → drop (length xs + n) xs ≡ []
drop-past [] n = drop-nil (0 + n)
drop-past (x ∷ xs) n =
    let m : length (x ∷ xs) + n ≡ suc (length xs + n) = omega arith in rw m (drop-past xs n)

-- A write at the end of the file extends it.
pub write_at-end :
    (bytes content : List ℕ) → write_at (length content) bytes content ≡ content ++ bytes
unfolding write_at
write_at-end bytes content =
    let z : length content - length content ≡ 0 = omega arith in
    rw (take-length content, z, drop-past content (length bytes), append-nil)

pub take_append_drop {ℓ} : {A : Type ℓ} (n : ℕ) (xs : List A) → take n xs ++ drop n xs ≡ xs
take_append_drop zero xs = refl
take_append_drop (suc n) [] = refl
take_append_drop (suc n) (x ∷ xs) = ap (◌∷◌ x) (take_append_drop n xs)

pub length-take_le {ℓ} : {A : Type ℓ} (n : ℕ) (xs : List A) → n ≤ length xs → length (take n xs) ≡ n
length-take_le zero xs h = refl
length-take_le (suc n) [] h = absurd (omega arith)
length-take_le (suc n) (x ∷ xs) h = ap suc (length-take_le n xs (omega (arith, h)))

-- The file after bytes were written at its end.
abbrev pub extended : FileSink → List ℕ → FileSink
extended s bytes = record s { content = s.content ++ bytes; offset = s.offset + length bytes }

blocking-extended :
    (s : FileSink) (bytes : List ℕ)
    → s.offset ≡ length s.content
    → write_all_blocking none bytes s ≡ (extended s bytes, true)
unfolding write_all_blocking
blocking-extended s bytes h =
    let w : write_at s.offset bytes s.content ≡ s.content ++ bytes =
      ap (λ n. write_at n bytes s.content) h ∙ write_at-end bytes s.content in
    λ i. (record s { content = w i; offset = s.offset + length bytes }, true)

-- One submission that wrote some of the bytes.
ring_step :
    (ring : ℕ → ℕ → Completion) (fuel k n : ℕ) (b : ℕ) (bs : List ℕ) (s : FileSink)
    → ring k (length (b ∷ bs)) ≡ wrote n
    → 1 ≤ n
    → n ≤ length (b ∷ bs)
    → write_all_ring ring (suc fuel) k (b ∷ bs) s
      ≡ write_all_ring ring fuel (suc k) (drop n (b ∷ bs)) (record s {
        content = write_at s.offset (take n (b ∷ bs)) s.content;
        offset = s.offset + n;
      })
unfolding write_all_ring
ring_step ring fuel k n b bs s e some_bytes bound =
    let z : (n == 0) ≡ false = ground arith in
    let l : leb n (length (b ∷ bs)) ≡ true = ground arith in rw (e, write_all_ring) (rw (z, l))

extended_twice :
    (s : FileSink) (n : ℕ) (xs : List ℕ)
    → n ≤ length xs
    → extended (extended s (take n xs)) (drop n xs) ≡ extended s xs
extended_twice s n xs h =
    let c : (s.content ++ take n xs) ++ drop n xs ≡ s.content ++ xs =
      append_assoc s.content (take n xs) (drop n xs)
      ∙ ap (◌++◌ s.content) (take_append_drop n xs) in
    let o : s.offset + length (take n xs) + length (drop n xs) ≡ s.offset + length xs =
      omega (arith, length-take_le n xs h, length-drop n xs) in
    λ i. record s { content = c i; offset = o i }

ring-extended :
    (ring : ℕ → ℕ → Completion)
    → (progress : (k len : ℕ) → 1 ≤ len → (n : ℕ) × (ring k len ≡ wrote n) × (1 ≤ n) × (n ≤ len))
    → (fuel k : ℕ) (bytes : List ℕ) (s : FileSink) → length bytes ≤ fuel
    → s.offset ≡ length s.content
    → write_all_ring ring fuel k bytes s ≡ (extended s bytes, ok tt)
ring-extended ring progress fuel k [] s f h =
    unfold write_all_ring in
    λ i. (record s { content = sym (append-nil s.content) i; offset = same s.offset i }, ok tt)
  where
    same : (n : ℕ) → n ≡ n + 0
    same n = omega arith
ring-extended ring progress zero k (b ∷ bs) s f h = absurd (omega (arith, f))
ring-extended ring progress (suc fuel) k (b ∷ bs) s f h =
    let (n, e, some_bytes, bound) = progress k (length (b ∷ bs)) (omega arith) in
    let t = length-take_le n (b ∷ bs) bound in
    let moved : record s {
      content = write_at s.offset (take n (b ∷ bs)) s.content;
      offset = s.offset + n;
    }
        ≡ extended s (take n (b ∷ bs)) =
      λ i. record s {
        content =
            (ap (λ m. write_at m (take n (b ∷ bs)) s.content) h
                ∙ write_at-end (take n (b ∷ bs)) s.content)
              i;
        offset = ap (λ m. s.offset + m) (sym t) i;
      } in
    ring_step ring fuel k n b bs s e some_bytes bound
    ∙ (ap (write_all_ring ring fuel (suc k) (drop n (b ∷ bs))) moved
        ∙ (ring-extended ring progress fuel (suc k) (drop n (b ∷ bs)) (extended s (take n (b ∷ bs)))
              (omega (arith, f, bound, some_bytes, length-drop n (b ∷ bs)))
              (omega (arith, h, length-append s.content (take n (b ∷ bs))))
            ∙ ap (λ x. (x, ok tt)) (extended_twice s n (b ∷ bs) bound)))

-- Where every submission writes at least one byte and at most those it was given, and the offset
-- is the file's end, the ring's loop ends within as many submissions as there are bytes, without
-- an error, and leaves the file and the offset that one blocking write of all the bytes leaves.
pub write_all_ring-write_all_blocking :
    (ring : ℕ → ℕ → Completion)
    → (progress : (k len : ℕ) → 1 ≤ len → (n : ℕ) × (ring k len ≡ wrote n) × (1 ≤ n) × (n ≤ len))
    → (bytes : List ℕ) (s : FileSink) → s.offset ≡ length s.content
    → (write_all_ring ring (length bytes) 0 bytes s ≡ (extended s bytes, ok tt))
      × (write_all_blocking none bytes s ≡ (extended s bytes, true))
write_all_ring-write_all_blocking ring progress bytes s h = (
  ring-extended ring progress (length bytes) 0 bytes s (omega arith) h,
  blocking-extended s bytes h,
)
