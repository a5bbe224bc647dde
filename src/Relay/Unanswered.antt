-- ===== src/Relay/Unanswered.antt =====
-- Which datagrams await an answer after any calls.
use lunet_locks.Prelude.{
  ℕ, ◌+◌, ◌≤◌, ◌<◌, ◌≡◌, ◌↔◌, ◌⊎◌, refl, inl, inr, true, false, not, ◌&&◌, ◌||◌, List, [], ◌∷◌,
  arith, Bool-cases, length, any, In, All, subst, length-append, length-keep, ◌∙◌,
}
use lunet_locks.Prelude.Distinct.{length-replace_first}
use lunet_locks.Prelude.Members.{In-keep, keep-In, append-In, from-replace_first}
use lunet_locks.Relay.Wire.{Wire, Datagram, is_prepare_ok, is_start_view}
use lunet_locks.Relay.Ledger.{
  Ledger, relayable, answers, same_key, note_commit, push, record_unacked, record_datagram,
  answered, in_ballot, relay,
}
use lunet_locks.Relay.Shape.{Call, sent, heard, run}
use lunet_locks.Relay.Answers.{IsAnswer, unanswered_iff}
use lunet_locks.Relay.Delivery.{answered_exact, record-keeps, note_commit_fields, has_room}

module _ (w : Wire) where
  open w use {Tag, class, tag_eq, tag_eq_iff}

  -- The call sends nothing with the datagram's key.
  abbrev pub IsApart : Datagram Tag → Call w → Type 0
  IsApart e (sent d) = same_key w d e ≡ false
  IsApart e (heard from era view slot t) = Unit

  -- The call hears an answer to the datagram.
  abbrev pub Hears : Datagram Tag → Call w → Type 0
  Hears e (sent d) = ⊥
  Hears e (heard from era view slot t) = IsAnswer w e from era view slot t

  -- Nothing but the recorded datagram comes in.
  record_unacked-adds :
      (l : Ledger Tag) (d e : Datagram Tag)
      → length l.unacked < l.bound
      → In e (record_unacked w l d).unacked
      → In e l.unacked ⊎ (e ≡ d)
  unfolding record_unacked push
  record_unacked-adds l d e lt i = elim (Bool-cases (any (same_key w d) l.unacked)) [
    | inl a ↦ from-replace_first (same_key w d) d e l.unacked (rw a at i)
    | inr a ↦ pushed (append-In e l.unacked (d ∷ []) (rw (has_room w l lt) at (rw a at i)))
  ]
    where
      pushed : In e l.unacked ⊎ In e (d ∷ []) → In e l.unacked ⊎ (e ≡ d)
      pushed (inl h) = inl h
      pushed (inr (inl h)) = inr h
      pushed (inr (inr h)) = elim h [ ]

  record_unacked-size :
      (l : Ledger Tag) (d : Datagram Tag)
      → length l.unacked < l.bound
      → (length (record_unacked w l d).unacked ≤ length l.unacked + 1)
        × ((record_unacked w l d).bound ≡ l.bound)
  unfolding record_unacked push
  record_unacked-size l d lt = elim (Bool-cases (any (same_key w d) l.unacked)) [
    | inl a ↦ rw a (rw length-replace_first (omega arith), refl)
    | inr a ↦ rw a (rw (has_room w l lt) (omega (arith, length-append l.unacked (d ∷ [])), refl))
  ]

  record-adds :
      (l : Ledger Tag) (d e : Datagram Tag)
      → length l.unacked < l.bound
      → In e (record_datagram w l d).unacked
      → In e l.unacked ⊎ (e ≡ d)
  unfolding record_datagram
  record-adds l d e lt i = elim (Bool-cases (relayable w d.tag)) [
    | inr n ↦ inl (rw n at i)
    | inl r ↦
        let (u, b, _) = note_commit_fields w l d in
        subst (λ us. In e us ⊎ (e ≡ d)) u
          (record_unacked-adds (note_commit w l d) d e (rw (u, b) lt) (rw r at i))
  ]

  record-size :
      (l : Ledger Tag) (d : Datagram Tag)
      → length l.unacked < l.bound
      → (length (record_datagram w l d).unacked ≤ length l.unacked + 1)
        × ((record_datagram w l d).bound ≡ l.bound)
  unfolding record_datagram
  record-size l d lt = elim (Bool-cases (relayable w d.tag)) [
    | inr n ↦ rw n (omega arith, refl)
    | inl r ↦
        let (u, b, _) = note_commit_fields w l d in
        let sized = record_unacked-size (note_commit w l d) d (rw (u, b) lt) in
        rw r (
          subst (λ us. length (record_unacked w (note_commit w l d) d).unacked ≤ length us + 1) u
              sized.0,
          sized.1 ∙ b,
        )
  ]

  -- What a call that does not overflow does to the unanswered datagrams.
  record Stepped (e : Datagram Tag) (c : Call w) (l m : Ledger Tag) : Type 0 where
    size : length m.unacked ≤ length l.unacked + 1
    bound_same : m.bound ≡ l.bound
    exact : In e m.unacked ↔ (In e l.unacked × (¬ Hears e c))

  own_key : (d : Datagram Tag) → same_key w d d ≡ true
  own_key d = ground (arith, tag_eq_iff d.tag d.tag)

  record_datagram-Stepped :
      (e : Datagram Tag) (l : Ledger Tag) (d : Datagram Tag)
      → same_key w d e ≡ false
      → length l.unacked < l.bound
      → Stepped e (sent d) l (record_datagram w l d)
  record_datagram-Stepped e l d apart lt =
      let sized = record-size l d lt in
      record {
        size = sized.0;
        bound_same = sized.1;
        exact = (
          λ i. (before (record-adds l d e lt i), λ h. h),
          λ p. record-keeps w l d e p.0 apart lt,
        );
      }
    where
      before : In e l.unacked ⊎ (e ≡ d) → In e l.unacked
      before (inl i) = i
      before (inr h) = absurd (let own = own_key d in let q = rw h at apart in cc)

  answered-size :
      (l : Ledger Tag) (from era view slot : ℕ) (t : Tag)
      → (length (answered w l from era view slot t).unacked ≤ length l.unacked + 1)
        × ((answered w l from era view slot t).bound ≡ l.bound)
  unfolding answered
  answered-size l from era view slot t =
      elim (Bool-cases
        (not (relayable w t) && not (is_prepare_ok (class t) || is_start_view (class t)))) [
          | inl g ↦ rw g (omega arith, refl)
          | inr g ↦ rw g (
            omega (arith, length-keep (λ x. not (answers w x from era view slot t)) l.unacked),
            refl,
          )
        ]

  answered-Stepped :
      (e : Datagram Tag) (l : Ledger Tag) (from era view slot : ℕ) (t : Tag)
      → Stepped e (heard from era view slot t) l (answered w l from era view slot t)
  answered-Stepped e l from era view slot t =
      let x = answered_exact w l from era view slot t e in
      let u = unanswered_iff w e from era view slot t in
      let sized = answered-size l from era view slot t in
      record {
        size = sized.0;
        bound_same = sized.1;
        exact = (λ i. let p = x.0 i in (p.0, u.0 p.1), λ p. x.1 (p.0, u.1 p.1));
      }

  has_more :
      {e : Datagram Tag} {c : Call w} {l m : Ledger Tag} (cs : List (Call w))
      → Stepped e c l m
      → length l.unacked + length (c ∷ cs) ≤ l.bound
      → length m.unacked + length cs ≤ m.bound
  has_more cs s room = omega (arith, s.size, s.bound_same)

  first :
      {e : Datagram Tag} {c : Call w} {l m : Ledger Tag} (cs : List (Call w)) {A : Type 0}
      → Stepped e c l m
      → A ↔ (In e m.unacked × All (λ x. ¬ Hears e x) cs)
      → A ↔ (In e l.unacked × All (λ x. ¬ Hears e x) (c ∷ cs))
  first cs s r = (
    λ a. let p = r.0 a in let q = s.exact.0 p.0 in (q.0, (q.1, p.1)),
    λ p. r.1 (s.exact.1 (p.0, p.1.0), p.1.1),
  )

  run-exact :
      (l : Ledger Tag) (cs : List (Call w)) (e : Datagram Tag)
      → All (IsApart e) cs
      → length l.unacked + length cs ≤ l.bound
      → In e (run w l cs).unacked ↔ (In e l.unacked × All (λ c. ¬ Hears e c) cs)
  unfolding run
  run-exact l [] e apart room = (λ i. (i, tt), λ p. p.0)
  run-exact l (sent d ∷ cs) e apart room =
      let s = record_datagram-Stepped e l d apart.0 (omega arith) in
      first cs s (run-exact (record_datagram w l d) cs e apart.1 (has_more cs s room))
  run-exact l (heard from era view slot t ∷ cs) e apart room =
      let s = answered-Stepped e l from era view slot t in
      first cs s (run-exact (answered w l from era view slot t) cs e apart.1 (has_more cs s room))

  -- A ledger with room for every call relays a datagram for its ballot, byte for byte, exactly if it
  -- awaited its answer before and no call heard one. An answer is a message of the datagram's peer and
  -- era: to a prepare, a prepare-ok in its view for its slot or a later one; to a commit, a prepare-ok
  -- in its view for a later slot; to a view change, the peer's own for the same view; to a vote for a
  -- view, the start of that view or a later one. No call sends anything with the datagram's key.
  pub run-unanswered :
      (l : Ledger Tag) (cs : List (Call w)) (e : Datagram Tag)
      → All (IsApart e) cs
      → length l.unacked + length cs ≤ l.bound
      → In e (relay w (run w l cs) e.era e.view) ↔ (In e l.unacked × All (λ c. ¬ Hears e c) cs)
  unfolding relay
  run-unanswered l cs e apart room =
      let r = run-exact l cs e apart room in
      (
        λ i. r.0 (keep-In e (in_ballot w e.era e.view) _ i).0,
        λ p. In-keep e (in_ballot w e.era e.view) _ (r.1 p) (ground arith),
      )
