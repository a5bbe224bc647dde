-- ===== src/Locks/Tests.antt =====
-- A core that grants every request, and the theorems at concrete calls.
use lunet_locks.Prelude.{
  ℕ, zero, suc, subst, Bool-cases, ◌+◌, ◌-◌, ◌^◌, ◌<◌, ◌≡◌, ◌≢◌, ◌⊎◌, refl, inl, inr, true, false,
  ◌&&◌, Option, none, some, List, [], ◌∷◌, arith, if◌then◌else◌, replicate, leb, length, All, ◌==◌,
}
use lunet_locks.Locks.Names.{valid_name}
use lunet_locks.Locks.Types.{
  Lease, Request, set_op, set_answer, DurableEntry, ClientId, CoreLease, CoreRequest, CoreResponse,
  CoreSnapshot, StateSnapshot, Core, lock_of, is_nil,
}
use lunet_locks.Locks.Respond.{granted_entry}
use lunet_locks.Locks.Service.{execute, snapshot, restore}
use lunet_locks.Locks.Restore.{IsHolder, snapshot-restore}
use lunet_locks.Locks.Transitions.{FineOutcome, execute-Fine, granted_entry-counters}
use lunet_locks.Locks.Grammar.{is_path, valid_name-grammar}

abbrev client : ClientId
client = record { msb = 1; lsb = 2 }

abbrev lease_of : ℕ → CoreLease
lease_of time = record { lease_id = 70; holder = client; expiry = time + 5000; window = 5000 }

abbrev minted : ClientId → Option ClientId
minted c = if is_nil c then none else some c

minted_nil : (c : ClientId) → is_nil c ≡ true → minted c ≡ none
minted_nil c h = rw h refl

minted_other : (c : ClientId) → is_nil c ≡ false → minted c ≡ some c
minted_other c h = rw h refl

abbrev granted : CoreSnapshot → ℕ → CoreRequest → CoreSnapshot × Option CoreResponse
granted s time q = (
  s,
  some (record {
    answer = set_answer true;
    lock_id = lock_of q;
    lease = some (lease_of time);
    executed_at = time;
  }),
)

granted_lock :
    (s : CoreSnapshot) (time : ℕ) (q : CoreRequest) (r : CoreResponse)
    → (granted s time q).1 ≡ some r
    → r.lock_id ≡ lock_of q
granted_lock s time q r h = ground arith

abbrev granting : Core
granting = record {
  State = CoreSnapshot;
  snapshot = λ s. s;
  restore = λ s. s;
  execute = granted;
  mint = minted;
  mint_nil = minted_nil;
  mint_other = minted_other;
  snapshot_restore = λ s. refl;
  own_lock = granted_lock;
}

abbrev holder : List ℕ
holder = replicate 16 7

abbrev stored : Lease
stored = record {
  lease_id = 70;
  holder = holder;
  expiry = 9000;
  lease_ms = 5000;
  name = some (b'/' ∷ b'a' ∷ []);
  labels = none;
  taken_at_ms = 4000;
  renew_count = 3;
}

-- Lock 5 alone has a record.
abbrev state : StateSnapshot
state = record { locks = λ id. if id == 5 then some stored else none; generations = λ id. none }

holder-IsHolder : IsHolder holder
holder-IsHolder = record { width = refl; are_bytes = bytes_of 16 }
  where
    bytes_of : (n : ℕ) → All (λ b. b < 256) (replicate n 7)
    bytes_of zero = tt
    bytes_of (suc n) = (omega arith, bytes_of n)

state-holders : (id : ℕ) (l : Lease) → state.locks id ≡ some l → IsHolder l.holder
state-holders id l h = elim (Bool-cases (id == 5)) [
  | inl e ↦ of_stored l (rw e at h)
  | inr e ↦ absurd (nothing l (rw e at h))
]
  where
    of_stored : (l : Lease) → some stored ≡ some l → IsHolder l.holder
    of_stored l h = let e : holder ≡ l.holder = cc in subst IsHolder e holder-IsHolder

    nothing : (l : Lease) → none ≡ some l → ⊥
    nothing l h = cc

snapshot-restore_example : snapshot granting (restore granting state) ≡ state
snapshot-restore_example = snapshot-restore granting state state-holders

abbrev set_5 : Request
set_5 = record {
  message_id = holder;
  client_id = 9;
  request_num = 1;
  lock_id = 5;
  operation = set_op (record { candidate_holder = holder; candidate_ms = 5000 }) none none;
}

execute-Fine_example :
    FineOutcome granting
      (restore granting state)
      5
      8000
      (execute granting holder 9 1 (restore granting state) 8000 set_5)
execute-Fine_example = execute-Fine granting holder 9 1 (restore granting state) 8000 set_5

abbrev live_lease : Option CoreLease
live_lease = some (lease_of 4000)

abbrev entry : DurableEntry
entry = record { name = none; labels = none; taken_at_ms = 4000; renew_count = 3 }

granted_entry-counters_example :
    let g = granted_entry live_lease (some entry) (some entry) none none 6000 in
    ((live_lease ≢ none)
      × (g.taken_at_ms ≡ 4000)
      × (((3 < 2 ^ 32 - 1) × (g.renew_count ≡ 3 + 1)) ⊎ ((3 ≡ 2 ^ 32 - 1) × (g.renew_count ≡ 3))))
    ⊎ ((live_lease ≡ none) × (g.taken_at_ms ≢ 4000) × (g.renew_count ≡ 0))
granted_entry-counters_example =
    granted_entry-counters live_lease entry none none 6000 (omega arith) (omega arith)

-- /a/b
abbrev path : List ℕ
path = b'/' ∷ b'a' ∷ b'/' ∷ b'b' ∷ []

valid_name-grammar_example : valid_name path ≡ (leb (length path) 128 && is_path path)
valid_name-grammar_example = valid_name-grammar path
