-- ===== src/Locks/Types.antt =====
-- Requests, responses, leases and transitions, and the core's side of them. A map is a function of
-- its keys; a UUID is its 16 bytes.
use lunet_locks.Prelude.{ℕ, ◌≡◌, Bool, true, false, ◌&&◌, Option, none, some, List, ◌==◌}

pub record Lease : Type 0 where
  pub lease_id : ℕ
  pub holder : List ℕ
  pub expiry : ℕ
  pub lease_ms : ℕ
  pub name : Option (List ℕ)
  pub labels : Option (List (List ℕ))
  pub taken_at_ms : ℕ
  pub renew_count : ℕ

-- The fields that every transition has.
pub record Fields : Type 0 where
  pub lock_id : ℕ
  pub lease_id : ℕ
  pub holder : List ℕ
  pub expiry : ℕ

pub data Transition : Type 0 where
  hold renew release break : Fields → Transition

pub record LeaseCandidate : Type 0 where
  pub candidate_holder : List ℕ
  pub candidate_ms : ℕ

pub data Operation : Type 0 where
  get_op break_op : Operation
  set_op : LeaseCandidate → Option (List ℕ) → Option (List (List ℕ)) → Operation
  release_op : List ℕ → ℕ → Operation

-- The fields of every request, and its operation. `sent_at_ms` is not read.
pub record Request : Type 0 where
  pub message_id : List ℕ
  pub client_id : ℕ
  pub request_num : ℕ
  pub lock_id : ℕ
  pub operation : Operation

-- What was answered, and the Boolean of the operation.
pub data Answer : Type 0 where
  get_answer : Answer
  set_answer release_answer break_answer : Bool → Answer

-- A response has the message's id and number too, which `execute` copies from its arguments.
pub record Response : Type 0 where
  pub answer : Answer
  pub lock_id : ℕ
  pub lease : Option Lease
  pub executed_at : ℕ

pub record DurableEntry : Type 0 where
  pub name : Option (List ℕ)
  pub labels : Option (List (List ℕ))
  pub taken_at_ms : ℕ
  pub renew_count : ℕ

-- The two halves of the core's client identity.
pub record ClientId : Type 0 where
  pub msb : ℕ
  pub lsb : ℕ

pub record CoreLease : Type 0 where
  pub lease_id : ℕ
  pub holder : ClientId
  pub expiry : ℕ
  pub window : ℕ

pub data CoreRequest : Type 0 where
  core_get core_break : ℕ → CoreRequest
  core_set : ClientId → ℕ → ℕ → CoreRequest
  core_release : ClientId → ℕ → ℕ → CoreRequest

pub record CoreResponse : Type 0 where
  pub answer : Answer
  pub lock_id : ℕ
  pub lease : Option CoreLease
  pub executed_at : ℕ

pub record CoreSnapshot : Type 0 where
  pub locks : ℕ → Option CoreLease
  pub generations : ℕ → Option ℕ

pub record StateSnapshot : Type 0 where
  pub locks : ℕ → Option Lease
  pub generations : ℕ → Option ℕ

abbrev pub lock_of : CoreRequest → ℕ
lock_of (core_get id) = id
lock_of (core_break id) = id
lock_of (core_set c id w) = id
lock_of (core_release c id l) = id

abbrev pub is_nil : ClientId → Bool
is_nil c = c.msb == 0 && c.lsb == 0

-- `vrr::locks`: the service behind its JSON, and the minting of a client identity, which refuses the
-- nil one alone. A response is about the lock of its request, and a snapshot that is restored is
-- the snapshot afterwards.
pub record Core : Type 1 where
  pub State : Type 0
  pub snapshot : State → CoreSnapshot
  pub restore : CoreSnapshot → State
  pub execute : State → ℕ → CoreRequest → State × Option CoreResponse
  pub mint : ClientId → Option ClientId
  pub mint_nil : (c : ClientId) → is_nil c ≡ true → mint c ≡ none
  pub mint_other : (c : ClientId) → is_nil c ≡ false → mint c ≡ some c
  pub snapshot_restore : (s : CoreSnapshot) → snapshot (restore s) ≡ s
  pub own_lock :
      (s : State) (time : ℕ) (q : CoreRequest) (r : CoreResponse)
      → (execute s time q).1 ≡ some r
      → r.lock_id ≡ lock_of q
