-- ===== src/Relay/Ledger.antt =====
-- The ledger's state and operations.
use lunet_locks.Prelude.{
  ℕ, zero, suc, ◌+◌, ◌%◌, ◌^◌, Bool, false, not, ◌&&◌, ◌||◌, Option, none, some, List, [], ◌∷◌,
  ◌++◌, max, ltb, leb, ◌==◌, if◌then◌else◌, length, drop, keep, any,
}
use lunet_locks.Prelude.Distinct.{replace_first}
use lunet_locks.Relay.Wire.{
  TagClass, prepare, commit, start_view_change, do_view_change, Wire, Datagram, is_relayable,
  is_commit, is_prepare_ok, is_start_view_change, is_start_view,
}

pub record Ledger (Tag : Type 0) : Type 0 where
  pub unacked : List (Datagram Tag)
  pub last_commits : List (Datagram Tag)
  pub bound : ℕ
  pub dropped : ℕ

module _ (w : Wire) where
  open w use {Tag, class, tag_eq, State, in_the_cluster, booted, retransmits}

  unfoldable pub relayable : Tag → Bool
  relayable t = is_relayable (class t)

  abbrev pub answers_class : TagClass → Datagram Tag → ℕ → ℕ → Tag → Bool
  answers_class prepare e view slot t =
      is_prepare_ok (class t) && (view == e.view && leb e.slot slot)
  answers_class commit e view slot t =
      is_prepare_ok (class t) && (view == e.view && ltb e.slot slot)
  answers_class start_view_change e view slot t = is_start_view_change (class t) && view == e.view
  answers_class do_view_change e view slot t = is_start_view (class t) && leb e.view view
  answers_class _ e view slot t = false

  unfoldable pub answers : Datagram Tag → ℕ → ℕ → ℕ → ℕ → Tag → Bool
  answers e from era view slot t =
      if not (e.to == from) || not (e.era == era)
      then false
      else answers_class (class e.tag) e view slot t

  abbrev pub with_bound : ℕ → Ledger Tag
  with_bound b = record { unacked = []; last_commits = []; bound = max b 1; dropped = 0 }

  -- DEFAULT_BOUND
  abbrev pub new : Ledger Tag
  new = with_bound 256

  abbrev pub same_key : Datagram Tag → Datagram Tag → Bool
  same_key d e =
      e.to == d.to
      && (e.era == d.era && (e.view == d.view && (e.slot == d.slot && tag_eq e.tag d.tag)))

  abbrev pub same_peer : Datagram Tag → Datagram Tag → Bool
  same_peer d e = e.to == d.to

  -- Cleared where the standing commits are of another ballot.
  abbrev pub fresh_frontier : List (Datagram Tag) → Datagram Tag → List (Datagram Tag)
  fresh_frontier [] d = []
  fresh_frontier (s ∷ rest) d = if s.era == d.era && s.view == d.view then s ∷ rest else []

  unfoldable pub remember_commit : Ledger Tag → Datagram Tag → Ledger Tag
  remember_commit l d =
      let standing = fresh_frontier l.last_commits d in
      record l {
        last_commits =
            if any (same_peer d) standing
            then replace_first (same_peer d) d standing
            else standing ++ d ∷ [];
      }

  unfoldable pub make_room : Ledger Tag → Ledger Tag
  make_room l =
      if leb l.bound (length l.unacked)
      then record l { unacked = drop 1 l.unacked; dropped = (l.dropped + 1) % 2 ^ 64 }
      else l

  unfoldable pub push : Ledger Tag → Datagram Tag → Ledger Tag
  push l d = record l { unacked = l.unacked ++ d ∷ [] }

  unfoldable pub record_unacked : Ledger Tag → Datagram Tag → Ledger Tag
  unfolding make_room push
  record_unacked l d =
      if any (same_key d) l.unacked
      then record l { unacked = replace_first (same_key d) d l.unacked }
      else push (make_room l) d

  unfoldable pub note_commit : Ledger Tag → Datagram Tag → Ledger Tag
  note_commit l d = if is_commit (class d.tag) then remember_commit l d else l

  -- `record`
  unfoldable pub record_datagram : Ledger Tag → Datagram Tag → Ledger Tag
  unfolding relayable
  record_datagram l d = if not (relayable d.tag) then l else record_unacked (note_commit l d) d

  unfoldable pub answered : Ledger Tag → ℕ → ℕ → ℕ → ℕ → Tag → Ledger Tag
  unfolding relayable answers
  answered l from era view slot t =
      if not (relayable t) && not (is_prepare_ok (class t) || is_start_view (class t))
      then l
      else record l { unacked = keep (λ e. not (answers e from era view slot t)) l.unacked }

  abbrev pub in_ballot : ℕ → ℕ → Datagram Tag → Bool
  in_ballot era view e = e.era == era && e.view == view

  unfoldable pub relay : Ledger Tag → ℕ → ℕ → List (Datagram Tag)
  relay l era view = keep (in_ballot era view) l.unacked

  unfoldable pub last_commit : Ledger Tag → ℕ → ℕ → List (Datagram Tag)
  last_commit l era view = keep (in_ballot era view) l.last_commits

  unfoldable pub unacknowledged : Ledger Tag → ℕ
  unacknowledged l = length l.unacked

  abbrev pub matcher_state : ℕ → State
  matcher_state zero = in_the_cluster
  matcher_state (suc zero) = in_the_cluster
  matcher_state (suc (suc n)) = booted

  unfoldable pub cluster_timeout : ℕ → Ledger Tag → ℕ → ℕ → List (Datagram Tag)
  unfolding relay
  cluster_timeout replication_state l era view =
      if not (retransmits (matcher_state replication_state)) then [] else relay l era view

  unfoldable pub heartbeat : List (Datagram Tag) → Option (List (Datagram Tag))
  heartbeat [] = none
  heartbeat (d ∷ ds) = some (d ∷ ds)
