-- ===== src/Locks/Restore.antt =====
-- Installing a snapshot, and what the snapshot of the installed state is.
use lunet_locks.Prelude.{
  ℕ, zero, suc, ◌<◌, ◌≤◌, ◌≡◌, refl, sym, ap, ◌∙◌, inl, inr, true, Bool-cases, some, Option-cases,
  List, [], ◌∷◌, ◌++◌, append-nil, arith, length, take, drop, All, take-append, length-drop,
}
use lunet_locks.Prelude.Bytes.{to_be, from_be, slice, to_be-from_be}
use lunet_locks.Locks.Types.{Lease, ClientId, is_nil, StateSnapshot, CoreSnapshot, Core}
use lunet_locks.Locks.Respond.{map_option, client_bytes, halves, compose}
use lunet_locks.Locks.Service.{
  client_of, client_or_nil, core_lease, durable_entry, snapshot, restore,
}

-- The holder has 16 bytes.
pub record IsHolder (h : List ℕ) : Type 0 where
  pub width : length h ≡ 16
  pub are_bytes : All (λ b. b < 256) h

length-take : (n : ℕ) (xs : List ℕ) → n ≤ length xs → length (take n xs) ≡ n
length-take zero xs h = refl
length-take (suc n) [] h = absurd (omega arith)
length-take (suc n) (x ∷ xs) h = ap suc (length-take n xs (omega arith))

take-drop : (n : ℕ) (xs : List ℕ) → take n xs ++ drop n xs ≡ xs
take-drop zero xs = refl
take-drop (suc n) [] = refl
take-drop (suc n) (x ∷ xs) = ap (λ ys. x ∷ ys) (take-drop n xs)

All-take : (P : ℕ → Type 0) (n : ℕ) (xs : List ℕ) → All P xs → All P (take n xs)
All-take P zero xs h = tt
All-take P (suc n) [] h = tt
All-take P (suc n) (x ∷ xs) h = (h.0, All-take P n xs h.1)

All-drop : (P : ℕ → Type 0) (n : ℕ) (xs : List ℕ) → All P xs → All P (drop n xs)
All-drop P zero xs h = h
All-drop P (suc n) [] h = tt
All-drop P (suc n) (x ∷ xs) h = All-drop P n xs h.1

to_be-of : (xs : List ℕ) → length xs ≡ 8 → All (λ b. b < 256) xs → to_be 8 (from_be xs) ≡ xs
to_be-of xs n v = ap (λ k. to_be k (from_be xs)) (sym n) ∙ to_be-from_be xs v

take_whole : (n : ℕ) (xs : List ℕ) → length xs ≡ n → take n xs ≡ xs
take_whole n xs h = ap (take n) (sym (append-nil xs)) ∙ take-append n xs [] h

halves-bytes : (h : List ℕ) → IsHolder h → client_bytes (halves h) ≡ h
halves-bytes h v =
    let back : slice 8 8 h ≡ drop 8 h =
      take_whole 8 (drop 8 h) (omega (arith, length-drop 8 h, v.width)) in
    let one : to_be 8 (from_be (take 8 h)) ≡ take 8 h =
      to_be-of (take 8 h) (length-take 8 h (omega (arith, v.width))) (All-take _ 8 h v.are_bytes) in
    let two : to_be 8 (from_be (drop 8 h)) ≡ drop 8 h =
      to_be-of (drop 8 h) (omega (arith, length-drop 8 h, v.width)) (All-drop _ 8 h v.are_bytes) in
    rw (back, one, two) (take-drop 8 h)

module _ (core : Core) where
  client-halves : (h : List ℕ) → client_or_nil core (client_of core h) ≡ halves h
  client-halves h = elim (Bool-cases (is_nil (halves h))) [
    | inl e ↦ rw (core.mint_nil (halves h) e) (nil (halves h) e)
    | inr e ↦ rw (core.mint_other (halves h) e) refl
  ]
    where
      nil : (c : ClientId) → is_nil c ≡ true → record { msb = 0; lsb = 0 } ≡ c
      nil c e =
          let m : 0 ≡ c.msb = ground arith in
          let l : 0 ≡ c.lsb = ground arith in λ i. record { msb = m i; lsb = l i }

  lease_back :
      (t : StateSnapshot) (id : ℕ) (l : Lease)
      → t.locks id ≡ some l
      → IsHolder l.holder
      → compose (λ k. map_option (durable_entry core) (t.locks k)) id (core_lease core l) ≡ l
  lease_back t id l e v = rw e (λ i. record {
    lease_id = l.lease_id;
    holder = (ap client_bytes (client-halves l.holder) ∙ halves-bytes l.holder v) i;
    expiry = l.expiry;
    lease_ms = l.lease_ms;
    name = l.name;
    labels = l.labels;
    taken_at_ms = l.taken_at_ms;
    renew_count = l.renew_count;
  })

  lock_back :
      (t : StateSnapshot) (id : ℕ)
      → ((l : Lease) → t.locks id ≡ some l → IsHolder l.holder)
      → map_option
          (compose (λ k. map_option (durable_entry core) (t.locks k)) id)
          (map_option (core_lease core) (t.locks id))
        ≡ t.locks id
  lock_back t id v = elim (Option-cases (t.locks id)) [
    | inl e ↦ rw e refl
    | inr (l, e) ↦
        ap
          (λ o.
            map_option (compose (λ k. map_option (durable_entry core) (t.locks k)) id)
              (map_option (core_lease core) o))
          e
        ∙ ap some (lease_back t id l e (v l e))
        ∙ sym e
  ]

  -- A snapshot that is installed is the snapshot taken afterwards: records, identities, counters and
  -- watermarks, the keeper records of the nil holder included. Every holder has 16 bytes.
  pub snapshot-restore :
      (t : StateSnapshot)
      → ((id : ℕ) (l : Lease) → t.locks id ≡ some l → IsHolder l.holder)
      → snapshot core (restore core t) ≡ t
  unfolding snapshot restore
  snapshot-restore t v =
      let back : core.snapshot (
            core.restore (record {
              locks = λ id. map_option (core_lease core) (t.locks id);
              generations = t.generations;
            }))
          ≡ record {
            locks = λ id. map_option (core_lease core) (t.locks id);
            generations = t.generations;
          } =
        core.snapshot_restore _ in
      λ i. record {
        locks = λ id.
            (ap
                  (λ (c : CoreSnapshot).
                    map_option (compose (λ k. map_option (durable_entry core) (t.locks k)) id)
                      (c.locks id))
                  back
                ∙ lock_back t id (v id))
              i;
        generations = (back i).generations;
      }
