-- ===== src/Relay/Wire.antt =====
-- What the ledger uses of the protocol's core library: its message tags and its timeout matcher.
use lunet_locks.Prelude.{ℕ, Bool, true, false, ◌≡◌, ◌↔◌, List}

-- The tags that the ledger matches on; every other tag is `other`.
pub data TagClass : Type 0 where
  prepare prepare_ok commit start_view_change do_view_change start_view other : TagClass

pub record Wire : Type 1 where
  pub Tag : Type 0
  pub class : Tag → TagClass
  -- `==` of tags
  pub tag_eq : Tag → Tag → Bool
  pub tag_eq_iff : (a b : Tag) → (tag_eq a b ≡ true) ↔ (a ≡ b)
  -- the matcher's states, and whether its opinion on a cluster timeout is to retransmit
  pub State : Type 0
  pub in_the_cluster : State
  pub booted : State
  pub retransmits : State → Bool

pub record Datagram (Tag : Type 0) : Type 0 where
  pub to : ℕ
  pub era : ℕ
  pub view : ℕ
  pub slot : ℕ
  pub tag : Tag
  pub bytes : List ℕ

abbrev pub is_relayable : TagClass → Bool
is_relayable prepare = true
is_relayable commit = true
is_relayable start_view_change = true
is_relayable do_view_change = true
is_relayable _ = false

abbrev pub is_commit : TagClass → Bool
is_commit commit = true
is_commit _ = false

abbrev pub is_prepare_ok : TagClass → Bool
is_prepare_ok prepare_ok = true
is_prepare_ok _ = false

abbrev pub is_start_view_change : TagClass → Bool
is_start_view_change start_view_change = true
is_start_view_change _ = false

abbrev pub is_start_view : TagClass → Bool
is_start_view start_view = true
is_start_view _ = false
