-- ===== src/Relay/Delivery.antt =====
-- What the ledger hands out: nothing is lost before it is answered, and the heartbeat is the newest.
use lunet_locks.Prelude.{
  ℕ, ◌+◌, ◌^◌, ◌≤◌, ◌<◌, ◌≡◌, ◌↔◌, refl, inl, inr, Bool, true, false, not, ◌&&◌, ◌||◌, List, [],
  ◌∷◌, arith, leb, Bool-cases, length, drop, any, In, All, All-mono, length-append, length-drop,
  leb→le, ◌∙◌,
}
use lunet_locks.Prelude.Members.{
  In-keep, keep-In, In-append_left, In-append_right, In-replace_first, replace_first-In, keep-none,
  All-In,
}
use lunet_locks.Relay.Wire.{
  Wire, Datagram, is_relayable, is_commit, is_prepare_ok, is_start_view, TagClass, prepare,
}
use lunet_locks.Relay.Ledger.{
  Ledger, relayable, answers, answers_class, same_key, same_peer, fresh_frontier, remember_commit,
  note_commit, make_room, push, record_unacked, record_datagram, answered, in_ballot, relay,
  last_commit,
}
use lunet_locks.Relay.Ballot.{IsLedger, IsOneBallot, note_commit-IsLedger}

module _ (w : Wire) where
  open w use {Tag, class, tag_eq, tag_eq_iff}

  record_unacked-In : (l : Ledger Tag) (d : Datagram Tag) → In d (record_unacked w l d).unacked
  unfolding record_unacked
  record_unacked-In l d = elim (Bool-cases (any (same_key w d) l.unacked)) [
    | inl e ↦ rw e (In-replace_first _ d l.unacked e)
    | inr e ↦ rw e (In-append_right d (make_room w l).unacked (d ∷ []) (inl refl))
  ]

  -- A datagram of a relayed class, once recorded, is relayed for its own ballot byte for byte.
  pub record-relay :
      (l : Ledger Tag) (d : Datagram Tag)
      → relayable w d.tag ≡ true
      → In d (relay w (record_datagram w l d) d.era d.view)
  unfolding relay record_datagram
  record-relay l d r = rw r (
      In-keep d (in_ballot w d.era d.view) _ (record_unacked-In (note_commit w l d) d)
        (ground arith))

  -- The guard on the answer's tag loses nothing: behind it no entry is answered.
  answers_guard :
      (c : TagClass) (e : Datagram Tag) (view slot : ℕ) (t : Tag)
      → (not (is_relayable (class t)) && not (is_prepare_ok (class t) || is_start_view (class t)))
        ≡ true
      → answers_class w c e view slot t ≡ false
  answers_guard prepare e view slot t h = ground arith
  answers_guard c e view slot t h = ground arith

  -- An answer takes out of the unanswered datagrams exactly those that it answers.
  pub answered_exact :
      (l : Ledger Tag) (from era view slot : ℕ) (t : Tag) (e : Datagram Tag)
      → In e (answered w l from era view slot t).unacked
        ↔ (In e l.unacked × (answers w e from era view slot t ≡ false))
  unfolding answered
  answered_exact l from era view slot t e =
      elim (Bool-cases (
        not (is_relayable (class t)) && not (is_prepare_ok (class t) || is_start_view (class t)))) [
          | inl g ↦
              rw g (λ i. (i, ground (arith, answers_guard (class e.tag) e view slot t)), λ p. p.0)
          | inr g ↦ rw g (
            λ i. (
              (keep-In e (λ x. not (answers w x from era view slot t)) l.unacked i).0,
              not_true _ (keep-In e (λ x. not (answers w x from era view slot t)) l.unacked i).1,
            ),
            λ p.
                In-keep e (λ x. not (answers w x from era view slot t)) l.unacked p.0
                  (not_false _ p.1),
          )
        ]
    where
      not_true : (b : Bool) → not b ≡ true → b ≡ false
      not_true b h = ground arith

      not_false : (b : Bool) → b ≡ false → not b ≡ true
      not_false b h = ground arith

  pub note_commit_fields :
      (l : Ledger Tag) (d : Datagram Tag)
      → ((note_commit w l d).unacked ≡ l.unacked)
        × ((note_commit w l d).bound ≡ l.bound)
        × ((note_commit w l d).dropped ≡ l.dropped)
  unfolding note_commit remember_commit
  note_commit_fields l d = ground arith

  pub has_room : (l : Ledger Tag) → length l.unacked < l.bound → make_room w l ≡ l
  unfolding make_room
  has_room l lt = ground arith

  record_unacked-keeps :
      (l : Ledger Tag) (d e : Datagram Tag)
      → In e l.unacked
      → same_key w d e ≡ false
      → length l.unacked < l.bound
      → In e (record_unacked w l d).unacked
  unfolding record_unacked push
  record_unacked-keeps l d e i h lt = elim (Bool-cases (any (same_key w d) l.unacked)) [
    | inl a ↦ rw a (replace_first-In (same_key w d) d e l.unacked h i)
    | inr a ↦ rw a (rw (has_room l lt) (In-append_left e l.unacked (d ∷ []) i))
  ]

  -- Recording another datagram while there is room leaves every entry with another key in place.
  pub record-keeps :
      (l : Ledger Tag) (d e : Datagram Tag)
      → In e l.unacked
      → same_key w d e ≡ false
      → length l.unacked < l.bound
      → In e (record_datagram w l d).unacked
  unfolding record_datagram
  record-keeps l d e i h lt = elim (Bool-cases (relayable w d.tag)) [
    | inr n ↦ rw n i
    | inl r ↦ rw r (
        let (u, b, _) = note_commit_fields l d in
        record_unacked-keeps (note_commit w l d) d e (rw u i) h (rw (u, b) lt))
  ]

  record_unacked-count :
      (l : Ledger Tag) (d : Datagram Tag)
      → 1 ≤ l.bound
      → any (same_key w d) l.unacked ≡ false
      → l.dropped + 1 < 2 ^ 64
      → length (record_unacked w l d).unacked + (record_unacked w l d).dropped
        ≡ length l.unacked + l.dropped + 1
  unfolding record_unacked push make_room
  record_unacked-count l d b h lt = rw h (elim (Bool-cases (leb l.bound (length l.unacked))) [
    | inl e ↦ rw e (
        omega
          (arith, length-append (drop 1 l.unacked) (d ∷ []), length-drop 1 l.unacked, leb→le _ _ e))
    | inr e ↦ rw e (omega (arith, length-append l.unacked (d ∷ [])))
  ])

  -- A new key adds one datagram: to the unanswered ones or, where these are full, to the dropped.
  -- The ledger has the shape that every ledger keeps, and the count of drops fits a u64.
  pub record-count :
      (l : Ledger Tag) (d : Datagram Tag)
      → IsLedger w l
      → relayable w d.tag ≡ true
      → any (same_key w d) l.unacked ≡ false
      → l.dropped + 1 < 2 ^ 64
      → length (record_datagram w l d).unacked + (record_datagram w l d).dropped
        ≡ length l.unacked + l.dropped + 1
  unfolding record_datagram
  record-count l d i r h lt =
      let (u, b, dr) = note_commit_fields l d in
      rw r (
        record_unacked-count (note_commit w l d) d (rw b i.bound_pos) (rw u h) (rw dr lt)
        ∙ rw (u, dr))

  record_unacked-commits :
      (l : Ledger Tag) (d : Datagram Tag) → (record_unacked w l d).last_commits ≡ l.last_commits
  unfolding record_unacked push make_room
  record_unacked-commits l d = ground arith

  note_commit-In :
      (l : Ledger Tag) (d : Datagram Tag)
      → is_commit (class d.tag) ≡ true
      → In d (note_commit w l d).last_commits
  unfolding note_commit remember_commit
  note_commit-In l d c =
      let cs : List (Datagram Tag) = fresh_frontier w l.last_commits d in
      rw c (elim (Bool-cases (any (same_peer w d) cs)) [
        | inl e ↦ rw e (In-replace_first _ d cs e)
        | inr e ↦ rw e (In-append_right d cs (d ∷ []) (inl refl))
      ])

  one_ballot_of :
      (d : Datagram Tag) (cs : List (Datagram Tag))
      → In d cs
      → IsOneBallot w cs
      → All (λ e. in_ballot w d.era d.view e ≡ true) cs
  one_ballot_of d [] i b = tt
  one_ballot_of d (c ∷ cs) (inl e) b = (rw e (ground arith), All-mono _ _ cs (λ x h. rw e h) b)
  one_ballot_of d (c ∷ cs) (inr i) b =
      let own = All-In _ d cs b i in (ground arith, All-mono _ _ cs (λ x h. both c x own h) b)
    where
      both :
          (c x : Datagram Tag)
          → in_ballot w c.era c.view d ≡ true
          → in_ballot w c.era c.view x ≡ true
          → in_ballot w d.era d.view x ≡ true
      both c x h k = ground arith

  commits-record :
      (l : Ledger Tag) (d : Datagram Tag)
      → is_commit (class d.tag) ≡ true
      → (record_datagram w l d).last_commits ≡ (note_commit w l d).last_commits
  unfolding record_datagram
  commits-record l d c =
      let r : is_relayable (class d.tag) ≡ true = ground arith in
      rw r (record_unacked-commits (note_commit w l d) d)

  -- After a commit is recorded, the last commits of its ballot hold it, and those of a ballot that
  -- is not its own are none. The ledger has the shape that every ledger keeps.
  pub record-last_commit :
      (l : Ledger Tag) (d : Datagram Tag) (era view : ℕ)
      → IsLedger w l
      → is_commit (class d.tag) ≡ true
      → in_ballot w era view d ≡ false
      → In d (last_commit w (record_datagram w l d) d.era d.view)
        × (last_commit w (record_datagram w l d) era view ≡ [])
  unfolding last_commit
  record-last_commit l d era view i c apart =
      let here = note_commit-In l d c in
      let all = one_ballot_of d _ here (note_commit-IsLedger w l d i).one_ballot in
      rw (commits-record l d c) (
        In-keep d (in_ballot w d.era d.view) _ here (ground arith),
        keep-none _ _ (All-mono _ _ _ (λ e h. elsewhere e h) all),
      )
    where
      elsewhere :
          (e : Datagram Tag) → in_ballot w d.era d.view e ≡ true → in_ballot w era view e ≡ false
      elsewhere e h = ground arith
