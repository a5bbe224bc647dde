-- ===== src/Relay/Tests.antt =====
-- A ledger over tags that are just their classes, and the theorems at concrete datagrams.
use lunet_locks.Prelude.{ℕ, ◌≡◌, ◌↔◌, refl, Bool, true, false, List, [], ◌∷◌, In, All, arith}
use lunet_locks.Relay.Wire.{
  TagClass, prepare, prepare_ok, commit, start_view_change, do_view_change, start_view, other, Wire,
  Datagram,
}
use lunet_locks.Relay.Ledger.{
  Ledger, relayable, answers, with_bound, record_datagram, record_unacked, note_commit,
  remember_commit, make_room, push, answered, relay,
}
use lunet_locks.Relay.Ballot.{IsLedger, with_bound-IsLedger}
use lunet_locks.Relay.Shape.{Call, sent, heard, run, run-IsLedger}
use lunet_locks.Relay.Unanswered.{Hears, run-unanswered}

abbrev number : TagClass → ℕ
number prepare = 0
number prepare_ok = 1
number commit = 2
number start_view_change = 3
number do_view_change = 4
number start_view = 5
number other = 6

abbrev same_class : TagClass → TagClass → Bool
same_class prepare prepare = true
same_class prepare_ok prepare_ok = true
same_class commit commit = true
same_class start_view_change start_view_change = true
same_class do_view_change do_view_change = true
same_class start_view start_view = true
same_class other other = true
same_class _ _ = false

same_class_iff : (a b : TagClass) → (same_class a b ≡ true) ↔ (a ≡ b)
same_class_iff prepare b = ground arith
same_class_iff a b = ground arith

abbrev classes : Wire
classes = record {
  Tag = TagClass;
  class = λ t. t;
  tag_eq = same_class;
  tag_eq_iff = same_class_iff;
  State = Bool;
  in_the_cluster = true;
  booted = false;
  retransmits = λ s. s;
}

abbrev datagram : ℕ → ℕ → TagClass → Datagram TagClass
datagram peer slot tag = record {
  to = peer;
  era = 4;
  view = 42;
  slot = slot;
  tag = tag;
  bytes = slot ∷ [];
}

abbrev empty : Ledger TagClass
empty = with_bound classes 3

abbrev two : Ledger TagClass
two = run classes empty (sent (datagram 2 10 prepare) ∷ sent (datagram 3 10 prepare) ∷ [])

answered_one : (answered classes two 2 4 42 10 prepare_ok).unacked ≡ datagram 3 10 prepare ∷ []
unfolding run record_datagram record_unacked note_commit remember_commit make_room push answered
    answers relayable
answered_one = refl

bound_drops :
    (run classes empty (
      sent (datagram 2 1 prepare)
      ∷ sent (datagram 2 2 prepare)
      ∷ sent (datagram 2 3 prepare)
      ∷ sent (datagram 2 4 prepare)
      ∷ [])).dropped
    ≡ 1
unfolding run record_datagram record_unacked note_commit remember_commit make_room push answered
    answers relayable
bound_drops = refl

empty-IsLedger : IsLedger classes empty
empty-IsLedger = with_bound-IsLedger classes 3

run-IsLedger_example :
    IsLedger classes
      (run classes empty (sent (datagram 2 10 commit) ∷ heard 2 4 42 11 prepare_ok ∷ []))
run-IsLedger_example =
    run-IsLedger classes empty (sent (datagram 2 10 commit) ∷ heard 2 4 42 11 prepare_ok ∷ [])
      empty-IsLedger

prepare_relayed : relayable classes prepare ≡ true
unfolding relayable
prepare_relayed = refl

abbrev standing : Ledger TagClass
standing = record {
  unacked = datagram 2 10 commit ∷ (datagram 3 10 prepare ∷ []);
  last_commits = datagram 2 10 commit ∷ [];
  bound = 5;
  dropped = 0;
}

-- An acknowledgement of the commit's own slot, and a datagram behind it.
abbrev calls : List (Call classes)
calls = heard 2 4 42 10 prepare_ok ∷ (sent (datagram 2 12 prepare) ∷ [])

run-unanswered_example :
    In (datagram 2 10 commit) (relay classes (run classes standing calls) 4 42) ↔ (
      In (datagram 2 10 commit) standing.unacked
      × All (λ c. ¬ Hears classes (datagram 2 10 commit) c) calls)
run-unanswered_example =
    run-unanswered classes standing calls (datagram 2 10 commit) (tt, (refl, tt)) (omega arith)

commit_stands :
    relay classes (run classes standing calls) 4 42
    ≡ datagram 2 10 commit ∷ (datagram 3 10 prepare ∷ (datagram 2 12 prepare ∷ []))
unfolding run record_datagram record_unacked note_commit remember_commit make_room push answered
    answers relayable relay
commit_stands = refl

abbrev one : Ledger TagClass
one = record { unacked = datagram 2 10 prepare ∷ []; last_commits = []; bound = 3; dropped = 0 }
