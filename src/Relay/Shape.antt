-- ===== src/Relay/Shape.antt =====
-- The shape that every ledger keeps, through all calls.
use lunet_locks.Prelude.{
  ℕ, ◌≤◌, ◌≡◌, refl, inl, inr, Bool, true, false, not, ◌&&◌, ◌||◌, List, [], ◌∷◌, arith, leb,
  Bool-cases, length, drop, any, All, All-keep, All-append, length-keep, length-append, length-drop,
  suc,
}
use lunet_locks.Prelude.Distinct.{
  DistinctBy, keep-DistinctBy, concat-DistinctBy, replace_first-DistinctBy, length-replace_first,
  replace_first-All,
}
use lunet_locks.Relay.Wire.{Wire, Datagram, is_prepare_ok, is_start_view}
use lunet_locks.Relay.Ledger.{
  Ledger, relayable, answers, same_key, note_commit, make_room, push, record_unacked,
  record_datagram, answered,
}
use lunet_locks.Relay.Ballot.{IsLedger, same_key-IsEquivalence, note_commit-IsLedger}

module _ (w : Wire) where
  open w use {Tag, class}

  make_room-IsLedger :
      (l : Ledger Tag) (d : Datagram Tag)
      → IsLedger w l
      → any (same_key w d) l.unacked ≡ false
      → IsLedger w (make_room w l)
        × (suc (length (make_room w l).unacked) ≤ (make_room w l).bound)
        × (any (same_key w d) (make_room w l).unacked ≡ false)
  unfolding make_room
  make_room-IsLedger l d i h = elim (Bool-cases (leb l.bound (length l.unacked))) [
    | inl e ↦ rw e (
      record {
        bound_pos = i.bound_pos;
        fits = omega (arith, length-drop 1 l.unacked, i.fits);
        relayed = All-drop_one _ l.unacked i.relayed;
        distinct = DistinctBy-drop_one l.unacked i.distinct;
        peers = i.peers;
        one_ballot = i.one_ballot;
        commits = i.commits;
      },
      omega (arith, length-drop 1 l.unacked, i.fits, i.bound_pos),
      any-drop_one (same_key w d) l.unacked h,
    )
    | inr e ↦ rw e (i, ground arith, h)
  ]
    where
      All-drop_one :
          (P : Datagram Tag → Type 0) (xs : List (Datagram Tag)) → All P xs → All P (drop 1 xs)
      All-drop_one P [] h = tt
      All-drop_one P (x ∷ xs) h = h.1

      DistinctBy-drop_one :
          (xs : List (Datagram Tag))
          → DistinctBy (same_key w) xs
          → DistinctBy (same_key w) (drop 1 xs)
      DistinctBy-drop_one [] h = tt
      DistinctBy-drop_one (x ∷ xs) h = h.1

      any-drop_one :
          (p : Datagram Tag → Bool) (xs : List (Datagram Tag))
          → any p xs ≡ false
          → any p (drop 1 xs) ≡ false
      any-drop_one p [] h = refl
      any-drop_one p (x ∷ xs) h = ground arith

  push-IsLedger :
      (l : Ledger Tag) (d : Datagram Tag)
      → relayable w d.tag ≡ true
      → IsLedger w l
      → suc (length l.unacked) ≤ l.bound
      → any (same_key w d) l.unacked ≡ false
      → IsLedger w (push w l d)
  unfolding push
  push-IsLedger l d r i fit h = record {
    bound_pos = i.bound_pos;
    fits = omega (arith, length-append l.unacked (d ∷ []), fit);
    relayed = All-append _ l.unacked (d ∷ []) i.relayed (r, tt);
    distinct = concat-DistinctBy (same_key w) (same_key-IsEquivalence w) d l.unacked h i.distinct;
    peers = i.peers;
    one_ballot = i.one_ballot;
    commits = i.commits;
  }

  record_unacked-IsLedger :
      (l : Ledger Tag) (d : Datagram Tag)
      → relayable w d.tag ≡ true
      → IsLedger w l
      → IsLedger w (record_unacked w l d)
  unfolding record_unacked
  record_unacked-IsLedger l d r i = elim (Bool-cases (any (same_key w d) l.unacked)) [
    | inl e ↦ rw e (record {
      bound_pos = i.bound_pos;
      fits = rw length-replace_first i.fits;
      relayed = replace_first-All _ d _ l.unacked r i.relayed;
      distinct =
          replace_first-DistinctBy (same_key w) (same_key-IsEquivalence w) d l.unacked i.distinct;
      peers = i.peers;
      one_ballot = i.one_ballot;
      commits = i.commits;
    })
    | inr e ↦
        rw e (
          let (j, fit, h) = make_room-IsLedger l d i e in push-IsLedger (make_room w l) d r j fit h)
  ]

  pub record-IsLedger :
      (l : Ledger Tag) (d : Datagram Tag) → IsLedger w l → IsLedger w (record_datagram w l d)
  unfolding record_datagram
  record-IsLedger l d i = elim (Bool-cases (relayable w d.tag)) [
    | inr no_relay ↦ rw no_relay i
    | inl r ↦ rw r (record_unacked-IsLedger (note_commit w l d) d r (note_commit-IsLedger w l d i))
  ]

  pub answered-IsLedger :
      (l : Ledger Tag) (from era view slot : ℕ) (t : Tag)
      → IsLedger w l
      → IsLedger w (answered w l from era view slot t)
  unfolding answered
  answered-IsLedger l from era view slot t i =
      elim (Bool-cases
        (not (relayable w t) && not (is_prepare_ok (class t) || is_start_view (class t)))) [
          | inl e ↦ rw e i
          | inr e ↦ rw e (record {
            bound_pos = i.bound_pos;
            fits = omega (
              arith,
              length-keep (λ e. not (answers w e from era view slot t)) l.unacked,
              i.fits,
            );
            relayed = All-keep _ _ l.unacked i.relayed;
            distinct = keep-DistinctBy (same_key w) _ l.unacked i.distinct;
            peers = i.peers;
            one_ballot = i.one_ballot;
            commits = i.commits;
          })
        ]

  -- The two calls that change a ledger.
  pub data Call : Type 0 where
    sent : Datagram Tag → Call
    heard : ℕ → ℕ → ℕ → ℕ → Tag → Call

  unfoldable pub run : Ledger Tag → List Call → Ledger Tag
  run l [] = l
  run l (sent d ∷ cs) = run (record_datagram w l d) cs
  run l (heard from era view slot t ∷ cs) = run (answered w l from era view slot t) cs

  -- Whatever is sent and heard, a ledger keeps its shape: at most `bound` unanswered datagrams, all of
  -- the relayed classes, no two with one key, and remembered commits of one ballot, one for each peer.
  pub run-IsLedger : (l : Ledger Tag) (cs : List Call) → IsLedger w l → IsLedger w (run l cs)
  unfolding run
  run-IsLedger l [] i = i
  run-IsLedger l (sent d ∷ cs) i = run-IsLedger (record_datagram w l d) cs (record-IsLedger l d i)
  run-IsLedger l (heard from era view slot t ∷ cs) i =
      run-IsLedger (answered w l from era view slot t) cs
        (answered-IsLedger l from era view slot t i)
