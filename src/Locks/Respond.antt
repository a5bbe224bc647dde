-- ===== src/Locks/Respond.antt =====
-- What a call makes of the core's response: the side table, the response and the transition.
use lunet_locks.Prelude.{
  ℕ, ◌+◌, ◌-◌, ◌^◌, min, true, false, not, Option, none, some, List, ◌++◌, ltb, ◌==◌, if◌then◌else◌,
}
use lunet_locks.Prelude.Bytes.{to_be, from_be, slice}
use lunet_locks.Locks.Names.{validate_identity, normal_labels}
use lunet_locks.Locks.Types.{
  Lease, Fields, Transition, hold, renew, release, break, Operation, set_op, Answer, get_answer,
  set_answer, release_answer, break_answer, Response, DurableEntry, ClientId, CoreLease,
  CoreResponse,
}

unfoldable pub taken_at_ms_on_holder_change : ℕ → ℕ → ℕ
taken_at_ms_on_holder_change prior execution_time =
    if prior == execution_time then min (execution_time + 1) (2 ^ 64 - 1) else execution_time

-- `decode` behind the JSON.
unfoldable pub decode_operation : Operation → Option Operation
decode_operation (set_op c name labels) =
    if not (validate_identity name labels)
    then none
    else some (set_op c name (normal_labels labels))
decode_operation op = some op

abbrev pub map_option : {A B : Type 0} → (A → B) → Option A → Option B
map_option f none = none
map_option f (some a) = some (f a)

abbrev pub or_else : {A : Type 0} → Option A → Option A → Option A
or_else none b = b
or_else (some a) b = some a

-- `and_then` on an entry's field.
abbrev pub field_of : {A : Type 0} → (DurableEntry → Option A) → Option DurableEntry → Option A
field_of f none = none
field_of f (some e) = f e

abbrev pub number_of : (DurableEntry → ℕ) → Option DurableEntry → ℕ
number_of f none = 0
number_of f (some e) = f e

abbrev pub client_bytes : ClientId → List ℕ
client_bytes c = to_be 8 c.msb ++ to_be 8 c.lsb

abbrev pub halves : List ℕ → ClientId
halves bytes = record { msb = from_be (slice 0 8 bytes); lsb = from_be (slice 8 8 bytes) }

-- `incumbent`: the stored lease, if it outlasts the execution time.
abbrev pub live : ℕ → Option CoreLease → Option CoreLease
live time none = none
live time (some l) = if ltb time l.expiry then some l else none

abbrev pub fields : ℕ → CoreLease → Fields
fields id l = record {
  lock_id = id;
  lease_id = l.lease_id;
  holder = client_bytes l.holder;
  expiry = l.expiry;
}

abbrev pub default_entry : DurableEntry
default_entry = record { name = none; labels = none; taken_at_ms = 0; renew_count = 0 }

abbrev pub entry_or_default : Option DurableEntry → DurableEntry
entry_or_default none = default_entry
entry_or_default (some e) = e

abbrev pub taken_at : Option DurableEntry → ℕ → ℕ
taken_at none time = time
taken_at (some prior) time = taken_at_ms_on_holder_change prior.taken_at_ms time

-- The entry that a granted SET stores: `prior` is the request's lock's, `standing` the response's.
unfoldable pub granted_entry :
    (incumbent : Option CoreLease) (prior standing : Option DurableEntry) (name : Option (List ℕ))
    (labels : Option (List (List ℕ))) (time : ℕ)
    → DurableEntry
granted_entry (some l) prior standing name labels time =
    let e = entry_or_default prior in
    record {
      name = or_else name e.name;
      labels = or_else labels e.labels;
      taken_at_ms = e.taken_at_ms;
      renew_count = min (e.renew_count + 1) (2 ^ 32 - 1);
    }
granted_entry none prior standing name labels time =
    let e = entry_or_default prior in
    record {
      name = or_else name e.name;
      labels = or_else labels e.labels;
      taken_at_ms = taken_at standing time;
      renew_count = 0;
    }

abbrev pub granted_transition : ℕ → Option CoreLease → CoreLease → Transition
granted_transition id (some l) lease = renew (fields id lease)
granted_transition id none lease = hold (fields id lease)

abbrev pub set_name : Operation → Option (List ℕ)
set_name (set_op c name labels) = name
set_name op = none

abbrev pub set_labels : Operation → Option (List (List ℕ))
set_labels (set_op c name labels) = labels
set_labels op = none

-- The side table with one entry put in.
abbrev pub insert : (ℕ → Option DurableEntry) → ℕ → DurableEntry → ℕ → Option DurableEntry
insert durable id e k = if k == id then some e else durable k

abbrev pub cleared : DurableEntry → DurableEntry
cleared e = record e { taken_at_ms = 0; renew_count = 0 }

-- `get_mut`, and the two resets.
abbrev pub clear : (ℕ → Option DurableEntry) → ℕ → ℕ → Option DurableEntry
clear durable id k = if k == id then map_option cleared (durable k) else durable k

abbrev pub compose : (ℕ → Option DurableEntry) → ℕ → CoreLease → Lease
compose durable id l =
    let entry = durable id in
    record {
      lease_id = l.lease_id;
      holder = client_bytes l.holder;
      expiry = l.expiry;
      lease_ms = l.window;
      name = field_of (λ e. e.name) entry;
      labels = field_of (λ e. e.labels) entry;
      taken_at_ms = number_of (λ e. e.taken_at_ms) entry;
      renew_count = number_of (λ e. e.renew_count) entry;
    }

-- The core's response with its lease composed.
abbrev pub answer_with : CoreResponse → (ℕ → Option DurableEntry) → Response
answer_with r d = record {
  answer = r.answer;
  lock_id = r.lock_id;
  lease = map_option (compose d r.lock_id) r.lease;
  executed_at = r.executed_at;
}

abbrev pub Responded : Type 0
Responded = Option ((ℕ → Option DurableEntry) × Response × Option Transition)

-- A granted SET. Without a lease it is the panic of its `expect`, `none`.
unfoldable pub respond_granted :
    Option CoreLease
    → (ℕ → Option DurableEntry)
    → Option CoreLease
    → ℕ
    → ℕ
    → Operation
    → CoreResponse
    → Responded
respond_granted none durable stored id time op r = none
respond_granted (some lease) durable stored id time op r =
    let incumbent = live time stored in
    let d = insert durable r.lock_id (
      granted_entry incumbent (durable id) (durable r.lock_id) (set_name op) (set_labels op)
        time) in
    some (d, answer_with r d, some (granted_transition r.lock_id incumbent lease))

-- What `execute` makes of the core's response: the side table, the response and the transition.
unfoldable pub respond :
    Answer
    → (durable : ℕ → Option DurableEntry) → (stored : Option CoreLease) → (id time : ℕ) → Operation
    → CoreResponse
    → Responded
unfolding respond_granted
respond get_answer durable stored id time op r = some (durable, answer_with r durable, none)
respond (set_answer false) durable stored id time op r = some (durable, answer_with r durable, none)
respond (set_answer true) durable stored id time op r =
    respond_granted r.lease durable stored id time op r
respond (release_answer false) durable stored id time op r =
    some (durable, answer_with r durable, none)
respond (release_answer true) durable stored id time op r = some (
  clear durable r.lock_id,
  record { answer = r.answer; lock_id = r.lock_id; lease = none; executed_at = r.executed_at },
  map_option (λ l. release (fields r.lock_id l)) (live time stored),
)
respond (break_answer false) durable stored id time op r =
    some (durable, answer_with r durable, none)
respond (break_answer true) durable stored id time op r = some (
  clear durable r.lock_id,
  answer_with r (clear durable r.lock_id),
  map_option (λ l. break (fields r.lock_id l)) stored,
)
