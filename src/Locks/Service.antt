-- ===== src/Locks/Service.antt =====
-- The service: reading a request, executing it, and the snapshot of the whole state.
use lunet_locks.Prelude.{ℕ, Bool, not, ◌&&◌, Option, none, some, List, ◌==◌, if◌then◌else◌}
use lunet_locks.Journal.Record.{bytes_eq}
use lunet_locks.Locks.Types.{
  Lease, Transition, Operation, get_op, set_op, release_op, break_op, Request, Response,
  DurableEntry, ClientId, CoreLease, CoreRequest, core_get, core_set, core_release, core_break,
  CoreResponse, StateSnapshot, Core,
}
use lunet_locks.Locks.Respond.{decode_operation, map_option, halves, compose, Responded, respond}

module _ (core : Core) where
  open core use {State, mint}

  pub record Service : Type 0 where
    pub core_state : State
    pub durable : ℕ → Option DurableEntry

  abbrev pub client_of : List ℕ → Option ClientId
  client_of holder = mint (halves holder)

  unfoldable pub core_request : ℕ → Operation → Option CoreRequest
  core_request id get_op = some (core_get id)
  core_request id break_op = some (core_break id)
  core_request id (set_op c name labels) =
      map_option (λ client. core_set client id c.candidate_ms) (client_of c.candidate_holder)
  core_request id (release_op holder lease_id) =
      map_option (λ client. core_release client id lease_id) (client_of holder)

  -- The service with the response and the transition of a call that returns `Ok`.
  abbrev pub Outcome : Type 0
  Outcome = Service × Option (Response × Option Transition)

  -- What is made of `respond`; a panic leaves the state of the core's call.
  abbrev pub finished : Service → State → Responded → Outcome
  finished s state none = (record s { core_state = state }, none)
  finished s state (some (d, response, transition)) =
      (record { core_state = state; durable = d }, some (response, transition))

  unfoldable pub answered_by :
      Service → ℕ → ℕ → Operation → Option CoreLease → State × Option CoreResponse → Outcome
  answered_by s id time op stored (state, none) = (record s { core_state = state }, none)
  answered_by s id time op stored (state, some r) =
      finished s state (respond r.answer s.durable stored id time op r)

  unfoldable pub run_core : Service → ℕ → ℕ → Operation → Option CoreRequest → Outcome
  unfolding answered_by
  run_core s id time op none = (s, none)
  run_core s id time op (some q) =
      answered_by s id time op ((core.snapshot s.core_state).locks id)
        (core.execute s.core_state time q)

  unfoldable pub execute_decoded : Service → ℕ → ℕ → Bool → Option Operation → Outcome
  unfolding run_core
  execute_decoded s id time ids_match none = (s, none)
  execute_decoded s id time ids_match (some op) =
      if not ids_match then (s, none) else run_core s id time op (core_request id op)

  -- `execute`, on the request that its payload reads as; the first three are the envelope's.
  unfoldable pub execute :
      (message_id : List ℕ) (client_id request_num : ℕ) → Service → ℕ → Request → Outcome
  unfolding execute_decoded
  execute message_id client_id request_num s time q =
      execute_decoded s q.lock_id time
        (bytes_eq q.message_id message_id
          && (q.client_id == client_id && q.request_num == request_num))
        (decode_operation q.operation)

  unfoldable pub snapshot : Service → StateSnapshot
  snapshot s =
      let c = core.snapshot s.core_state in
      record {
        locks = λ id. map_option (compose s.durable id) (c.locks id);
        generations = c.generations;
      }

  -- `unwrap_or_else`, with the nil identity.
  abbrev pub client_or_nil : Option ClientId → ClientId
  client_or_nil none = record { msb = 0; lsb = 0 }
  client_or_nil (some c) = c

  abbrev pub core_lease : Lease → CoreLease
  core_lease l = record {
    lease_id = l.lease_id;
    holder = client_or_nil (client_of l.holder);
    expiry = l.expiry;
    window = l.lease_ms;
  }

  abbrev pub durable_entry : Lease → DurableEntry
  durable_entry l = record {
    name = l.name;
    labels = l.labels;
    taken_at_ms = l.taken_at_ms;
    renew_count = l.renew_count;
  }

  unfoldable pub restore : StateSnapshot → Service
  restore t = record {
    core_state =
        core.restore (record {
          locks = λ id. map_option core_lease (t.locks id);
          generations = t.generations;
        });
    durable = λ id. map_option durable_entry (t.locks id);
  }
