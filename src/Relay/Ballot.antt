-- ===== src/Relay/Ballot.antt =====
-- The shape of a ledger, and that the remembered commits keep theirs.
use lunet_locks.Prelude.{
  ℕ, ◌≤◌, ◌≡◌, inl, inr, true, List, [], ◌∷◌, arith, Bool-cases, length, any, All, All-append,
  All-mono,
}
use lunet_locks.Prelude.Distinct.{
  IsEquivalence, DistinctBy, concat-DistinctBy, replace_first-DistinctBy, replace_first-All,
}
use lunet_locks.Relay.Wire.{Wire, Datagram, is_commit}
use lunet_locks.Relay.Ledger.{
  Ledger, relayable, with_bound, same_key, same_peer, fresh_frontier, remember_commit, note_commit,
  in_ballot,
}

module _ (w : Wire) where
  open w use {Tag, class, tag_eq, tag_eq_iff}

  pub same_key-IsEquivalence : IsEquivalence (same_key w)
  same_key-IsEquivalence = record {
    eqb_refl = λ a. ground (arith, tag_eq_iff a.tag a.tag);
    eqb_sym = λ a b. ground (arith, tag_eq_iff a.tag b.tag, tag_eq_iff b.tag a.tag);
    eqb_same = λ x a b h.
        ground (arith, tag_eq_iff b.tag a.tag, tag_eq_iff a.tag x.tag, tag_eq_iff b.tag x.tag);
  }

  same_peer-IsEquivalence : IsEquivalence (same_peer w)
  same_peer-IsEquivalence = record {
    eqb_refl = λ a. ground arith;
    eqb_sym = λ a b. ground arith;
    eqb_same = λ x a b h. ground arith;
  }

  -- All members after the first are of the first's ballot.
  abbrev pub IsOneBallot : List (Datagram Tag) → Type 0
  IsOneBallot [] = Unit
  IsOneBallot (d ∷ ds) = All (λ e. in_ballot w d.era d.view e ≡ true) ds

  abbrev pub IsCommitTagged : Datagram Tag → Type 0
  IsCommitTagged d = is_commit (class d.tag) ≡ true

  -- The unanswered datagrams number at most the bound, are all of the four relayed classes and have
  -- different keys; the remembered commits are commits of one ballot, one for each peer.
  pub record IsLedger (l : Ledger Tag) : Type 0 where
    pub bound_pos : 1 ≤ l.bound
    pub fits : length l.unacked ≤ l.bound
    pub relayed : All (λ d. relayable w d.tag ≡ true) l.unacked
    pub distinct : DistinctBy (same_key w) l.unacked
    pub peers : DistinctBy (same_peer w) l.last_commits
    pub one_ballot : IsOneBallot l.last_commits
    pub commits : All IsCommitTagged l.last_commits

  pub with_bound-IsLedger : (b : ℕ) → IsLedger (with_bound w b)
  with_bound-IsLedger b = record {
    bound_pos = omega arith;
    fits = omega arith;
    relayed = tt;
    distinct = tt;
    peers = tt;
    one_ballot = tt;
    commits = tt;
  }

  fresh_frontier-keeps :
      (cs : List (Datagram Tag)) (d : Datagram Tag)
      → DistinctBy (same_peer w) cs
      → IsOneBallot cs
      → All IsCommitTagged cs
      → DistinctBy (same_peer w) (fresh_frontier w cs d)
        × All (λ e. in_ballot w d.era d.view e ≡ true) (fresh_frontier w cs d)
        × All IsCommitTagged (fresh_frontier w cs d)
  fresh_frontier-keeps [] d p b c = (tt, tt, tt)
  fresh_frontier-keeps (s ∷ cs) d p b c = elim (Bool-cases (in_ballot w d.era d.view s)) [
    | inl e ↦ rw e (p, (e, All-mono _ _ cs (λ x h. same_ballot s x e h) b), c)
    | inr e ↦ rw e (tt, tt, tt)
  ]
    where
      same_ballot :
          (s x : Datagram Tag)
          → in_ballot w d.era d.view s ≡ true
          → in_ballot w s.era s.view x ≡ true
          → in_ballot w d.era d.view x ≡ true
      same_ballot s x e h = ground arith

  to-IsOneBallot :
      (d : Datagram Tag) (cs : List (Datagram Tag))
      → All (λ e. in_ballot w d.era d.view e ≡ true) cs
      → IsOneBallot cs
  to-IsOneBallot d [] h = tt
  to-IsOneBallot d (c ∷ cs) h = All-mono _ _ cs (λ x k. both c x h.0 k) h.1
    where
      both :
          (c x : Datagram Tag)
          → in_ballot w d.era d.view c ≡ true
          → in_ballot w d.era d.view x ≡ true
          → in_ballot w c.era c.view x ≡ true
      both c x h k = ground arith

  remember_commit-IsLedger :
      (l : Ledger Tag) (d : Datagram Tag)
      → IsCommitTagged d
      → IsLedger l
      → IsLedger (remember_commit w l d)
  unfolding remember_commit
  remember_commit-IsLedger l d c i =
      let cs : List (Datagram Tag) = fresh_frontier w l.last_commits d in
      let (p, b, t) = fresh_frontier-keeps l.last_commits d i.peers i.one_ballot i.commits in
      let own : in_ballot w d.era d.view d ≡ true = ground arith in
      elim (Bool-cases (any (same_peer w d) cs)) [
        | inl e ↦ rw e (record {
          bound_pos = i.bound_pos;
          fits = i.fits;
          relayed = i.relayed;
          distinct = i.distinct;
          peers = replace_first-DistinctBy (same_peer w) same_peer-IsEquivalence d cs p;
          one_ballot = to-IsOneBallot d _ (replace_first-All (same_peer w d) d _ cs own b);
          commits = replace_first-All (same_peer w d) d _ cs c t;
        })
        | inr e ↦ rw e (record {
          bound_pos = i.bound_pos;
          fits = i.fits;
          relayed = i.relayed;
          distinct = i.distinct;
          peers = concat-DistinctBy (same_peer w) same_peer-IsEquivalence d cs e p;
          one_ballot = to-IsOneBallot d _ (All-append _ cs (d ∷ []) b (own, tt));
          commits = All-append _ cs (d ∷ []) t (c, tt);
        })
      ]

  pub note_commit-IsLedger :
      (l : Ledger Tag) (d : Datagram Tag) → IsLedger l → IsLedger (note_commit w l d)
  unfolding note_commit
  note_commit-IsLedger l d i = elim (Bool-cases (is_commit (class d.tag))) [
    | inl c ↦ rw c (remember_commit-IsLedger l d c i)
    | inr c ↦ rw c i
  ]
