-- ===== src/Relay/Answers.antt =====
-- What counts as an answer to a datagram, written out by its class, and that the ledger's test finds
-- exactly these.
use lunet_locks.Prelude.{ℕ, ◌≤◌, ◌<◌, ◌≡◌, ◌↔◌, refl, inl, inr, true, false, arith, Bool-cases}
use lunet_locks.Relay.Wire.{
  Wire, Datagram, TagClass, prepare, prepare_ok, commit, start_view_change, do_view_change,
  start_view, is_prepare_ok, is_start_view_change, is_start_view,
}
use lunet_locks.Relay.Ledger.{answers, answers_class}

module _ (w : Wire) where
  open w use {Tag, class}

  -- What a peer's message of tag `t` for a view and a slot proves of a datagram that was sent to it.
  pub data Proves (e : Datagram Tag) (view slot : ℕ) (t : Tag) : Type 0 where
    -- the prepared slot, or a later one, is acknowledged
    prepared :
        class e.tag ≡ prepare
        → class t ≡ prepare_ok
        → view ≡ e.view
        → e.slot ≤ slot
        → Proves e view slot t
    -- a later slot than the committed one is acknowledged; its own does not prove the commit's arrival
    committed :
        class e.tag ≡ commit
        → class t ≡ prepare_ok
        → view ≡ e.view
        → e.slot < slot
        → Proves e view slot t
    -- the peer changes to the same view
    changes_too :
        class e.tag ≡ start_view_change
        → class t ≡ start_view_change
        → view ≡ e.view
        → Proves e view slot t
    -- the peer starts that view or a later one
    view_started :
        class e.tag ≡ do_view_change → class t ≡ start_view → e.view ≤ view → Proves e view slot t

  -- The message comes from the datagram's peer, is of its era, and proves it.
  pub record IsAnswer (e : Datagram Tag) (from era view slot : ℕ) (t : Tag) : Type 0 where
    pub same_peer : e.to ≡ from
    pub same_era : e.era ≡ era
    pub proves : Proves e view slot t

  class_prepare_ok : (c : TagClass) → is_prepare_ok c ≡ true → c ≡ prepare_ok
  class_prepare_ok prepare_ok h = refl
  class_prepare_ok c h = ground arith

  class_start_view_change : (c : TagClass) → is_start_view_change c ≡ true → c ≡ start_view_change
  class_start_view_change start_view_change h = refl
  class_start_view_change c h = ground arith

  class_start_view : (c : TagClass) → is_start_view c ≡ true → c ≡ start_view
  class_start_view start_view h = refl
  class_start_view c h = ground arith

  answers_class-Proves :
      (c : TagClass) (e : Datagram Tag) (view slot : ℕ) (t : Tag)
      → class e.tag ≡ c
      → answers_class w c e view slot t ≡ true
      → Proves e view slot t
  answers_class-Proves prepare e view slot t k h =
      prepared k (class_prepare_ok (class t) (ground arith)) (ground arith) (ground arith)
  answers_class-Proves commit e view slot t k h =
      committed k (class_prepare_ok (class t) (ground arith)) (ground arith) (ground arith)
  answers_class-Proves start_view_change e view slot t k h =
      changes_too k (class_start_view_change (class t) (ground arith)) (ground arith)
  answers_class-Proves do_view_change e view slot t k h =
      view_started k (class_start_view (class t) (ground arith)) (ground arith)
  answers_class-Proves c e view slot t k h = cc

  Proves-answers_class :
      (e : Datagram Tag) (view slot : ℕ) (t : Tag)
      → Proves e view slot t
      → answers_class w (class e.tag) e view slot t ≡ true
  Proves-answers_class e view slot t (prepared k c v s) = rw (k, c) (ground arith)
  Proves-answers_class e view slot t (committed k c v s) = rw (k, c) (ground arith)
  Proves-answers_class e view slot t (changes_too k c v) = rw (k, c) (ground arith)
  Proves-answers_class e view slot t (view_started k c v) = rw (k, c) (ground arith)

  pub answers-IsAnswer :
      (e : Datagram Tag) (from era view slot : ℕ) (t : Tag)
      → (answers w e from era view slot t ≡ true) ↔ IsAnswer e from era view slot t
  unfolding answers
  answers-IsAnswer e from era view slot t = (
    λ h. record {
      same_peer = ground arith;
      same_era = ground arith;
      proves = answers_class-Proves (class e.tag) e view slot t refl (ground arith);
    },
    λ a.
        let p = a.same_peer in
        let q = a.same_era in let r = Proves-answers_class e view slot t a.proves in ground arith,
  )

  -- No answer, in either way of saying it.
  pub unanswered_iff :
      (e : Datagram Tag) (from era view slot : ℕ) (t : Tag)
      → (answers w e from era view slot t ≡ false) ↔ (¬ IsAnswer e from era view slot t)
  unanswered_iff e from era view slot t = (
    λ h a. let q = (answers-IsAnswer e from era view slot t).1 a in cc,
    λ n. elim (Bool-cases (answers w e from era view slot t)) [
      | inl h ↦ absurd (n ((answers-IsAnswer e from era view slot t).0 h))
      | inr h ↦ h
    ],
  )
