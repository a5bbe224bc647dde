-- ===== src/Locks/Transitions.antt =====
-- What an execution may do to the side table and report, whatever the core answers.
use lunet_locks.Prelude.{
  ℕ, ◌+◌, ◌^◌, ◌<◌, ◌⊎◌, ◌≡◌, ◌≢◌, ◌-◌, ltb, Bool-cases, refl, subst, ◌∙◌, inl, inr, Bool, true,
  false, Option, none, some, List, arith,
}
use lunet_locks.Locks.Types.{
  Operation, Request, DurableEntry, ClientId, CoreLease, CoreRequest, core_set, core_release,
  CoreResponse, Core, lock_of, get_op, set_op, release_op, break_op,
}
use lunet_locks.Locks.Respond.{
  taken_at_ms_on_holder_change, decode_operation, map_option, granted_entry, respond, Responded,
}
use lunet_locks.Locks.Service.{
  Service, client_of, core_request, Outcome, finished, answered_by, run_core, execute_decoded,
  execute,
}
use lunet_locks.Locks.SideTable.{AreTrue, Keeps, Keeps-same, Fine, respond-Fine}

-- A granted SET of a lock that has an entry: where a lease is live it keeps the time at which the
-- holder took the lock, and the renewals are one more, but stay at the greatest u32 once they are
-- there; where none is, the time differs from the entry's, so the change of holder shows, and the
-- renewals start at 0. The entry's time is below the greatest u64, and its renewals fit a u32.
pub granted_entry-counters :
    (incumbent : Option CoreLease) (e : DurableEntry) (name : Option (List ℕ))
    (labels : Option (List (List ℕ))) (time : ℕ)
    → e.taken_at_ms + 1 < 2 ^ 64
    → e.renew_count < 2 ^ 32
    → let g = granted_entry incumbent (some e) (some e) name labels time in
      ((incumbent ≢ none)
        × (g.taken_at_ms ≡ e.taken_at_ms)
        × (((e.renew_count < 2 ^ 32 - 1) × (g.renew_count ≡ e.renew_count + 1))
            ⊎ ((e.renew_count ≡ 2 ^ 32 - 1) × (g.renew_count ≡ e.renew_count))))
      ⊎ ((incumbent ≡ none) × (g.taken_at_ms ≢ e.taken_at_ms) × (g.renew_count ≡ 0))
unfolding granted_entry taken_at_ms_on_holder_change
granted_entry-counters none e name labels time h k = inr (refl, ground arith, refl)
granted_entry-counters (some l) e name labels time h k = inl (
  ground arith,
  refl,
  elim (Bool-cases (ltb e.renew_count (2 ^ 32 - 1))) [
    | inl room ↦ let below : e.renew_count < 2 ^ 32 - 1 = ground arith in inl (below, omega arith)
    | inr full ↦
        let at_most : e.renew_count ≡ 2 ^ 32 - 1 = ground arith in inr (at_most, omega arith)
  ],
)

module _ (core : Core) where
  -- What holds of a call's outcome, against the service and the record that stood before it.
  abbrev pub FineOutcome : Service core → ℕ → ℕ → Outcome core → Type 0
  FineOutcome s id time (t, none) = Keeps id s.durable t.durable
  FineOutcome s id time (t, some (response, transition)) =
      Keeps id s.durable t.durable
      × AreTrue ((core.snapshot s.core_state).locks id) id time transition

  finished-Fine :
      (s : Service core) (state : core.State) (id time : ℕ) (o : Responded)
      → Fine ((core.snapshot s.core_state).locks id) id time s.durable o
      → FineOutcome s id time (finished core s state o)
  unfolding Fine
  finished-Fine s state id time none f = Keeps-same id s.durable
  finished-Fine s state id time (some (e, response, t)) f = f

  answered_by-Fine :
      (s : Service core) (id time : ℕ) (op : Operation) (reply : core.State × Option CoreResponse)
      → ((r : CoreResponse) → reply.1 ≡ some r → r.lock_id ≡ id)
      → FineOutcome s id time
          (answered_by core s id time op ((core.snapshot s.core_state).locks id) reply)
  unfolding answered_by
  answered_by-Fine s id time op (state, none) own = Keeps-same id s.durable
  answered_by-Fine s id time op (state, some r) own =
      let stored : Option CoreLease = (core.snapshot s.core_state).locks id in
      finished-Fine s state id time (respond r.answer s.durable stored id time op r)
        (at_lock (own r refl) stored (respond-Fine r.answer s.durable stored time op r))
    where
      at_lock :
          r.lock_id ≡ id
          → (stored : Option CoreLease)
          → Fine stored r.lock_id time s.durable
              (respond r.answer s.durable stored r.lock_id time op r)
          → Fine stored id time s.durable (respond r.answer s.durable stored id time op r)
      at_lock e stored f =
          subst (λ n. Fine stored n time s.durable (respond r.answer s.durable stored n time op r))
            e f

  core_request-lock :
      (id : ℕ) (op : Operation) (q : CoreRequest)
      → core_request core id op ≡ some q
      → lock_of q ≡ id
  unfolding core_request
  core_request-lock id get_op q h = ground arith
  core_request-lock id break_op q h = ground arith
  core_request-lock id (set_op c name labels) q h = of_client (client_of core c.candidate_holder) h
    where
      of_client :
          (o : Option ClientId)
          → map_option (λ client. core_set client id c.candidate_ms) o ≡ some q
          → lock_of q ≡ id
      of_client none h = cc
      of_client (some client) h = ground arith
  core_request-lock id (release_op holder lease_id) q h = of_client (client_of core holder) h
    where
      of_client :
          (o : Option ClientId)
          → map_option (λ client. core_release client id lease_id) o ≡ some q
          → lock_of q ≡ id
      of_client none h = cc
      of_client (some client) h = ground arith

  run_core-Fine :
      (s : Service core) (id time : ℕ) (op : Operation) (o : Option CoreRequest)
      → ((q : CoreRequest) → o ≡ some q → lock_of q ≡ id)
      → FineOutcome s id time (run_core core s id time op o)
  unfolding run_core
  run_core-Fine s id time op none own = Keeps-same id s.durable
  run_core-Fine s id time op (some q) own =
      answered_by-Fine s id time op (core.execute s.core_state time q)
        (λ r h. core.own_lock s.core_state time q r h ∙ own q refl)

  execute_decoded-Fine :
      (s : Service core) (id time : ℕ) (ids_match : Bool) (o : Option Operation)
      → FineOutcome s id time (execute_decoded core s id time ids_match o)
  unfolding execute_decoded
  execute_decoded-Fine s id time ids_match none = Keeps-same id s.durable
  execute_decoded-Fine s id time false (some op) = Keeps-same id s.durable
  execute_decoded-Fine s id time true (some op) =
      run_core-Fine s id time op (core_request core id op) (core_request-lock id op)

  -- Whatever the request, whoever sent it, and however the core answers: only the entry of the
  -- request's lock may change in the side table, a lock that has a name keeps one, and a transition
  -- that is reported is true of the record that stood before: a hold only where no lease was live, a
  -- renewal only where one was, a release of the live lease, a break of the stored one.
  pub execute-Fine :
      (message_id : List ℕ) (client_id request_num : ℕ) (s : Service core) (time : ℕ) (q : Request)
      → FineOutcome s q.lock_id time (execute core message_id client_id request_num s time q)
  unfolding execute
  execute-Fine message_id client_id request_num s time q =
      execute_decoded-Fine s q.lock_id time _ (decode_operation q.operation)
