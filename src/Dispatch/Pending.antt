-- ===== src/Dispatch/Pending.antt =====
-- The rows of a pending dispatch (src/agentic_os/runtime_dispatch.py, lines 479 to 819).
use openclaw_agentic_os.Prelude.{
  ℕ, ◌+◌, String, ◌++◌, Bool, true, false, not, ◌&&◌, ◌||◌, Option, none, some, List, [], ◌∷◌, ◌=ₜ◌,
  one_of, is_text, same, any, ltb, if◌then◌else◌, ℕ_discrete,
}
use openclaw_agentic_os.Result.{Result, ok, err, dispatch_error, require}
use openclaw_agentic_os.Transaction.{Action, returns, reads, ◌>>=◌, ◌>>◌}
use openclaw_agentic_os.Dispatch.Rows.{
  Db, Intent, IntentIdentity, IntentState, SpawnState, LeaseState, SpawnRequest, Lease, Binding,
  External, sessions_spawn, allow_lease_acquire, RpcKind-discrete, Binding-discrete,
}
use openclaw_agentic_os.Dispatch.World.{Platform, World, Clock, now_utc, statement}
use openclaw_agentic_os.Dispatch.Request.{
  DispatchRequest, lease_id_of, lease_metadata, validate_dispatch_request,
  spawn_descriptor_metadata,
}
use openclaw_agentic_os.Dispatch.Replay.{binding_of, assert_no_conflicting_spawn_replay}
use openclaw_agentic_os.Dispatch.Live.{assert_no_potentially_live_dispatch}

abbrev pub no_external : External
no_external = record {
  metadata_contract_version = none;
  metadata_json = none;
  run_id = none;
  transition_id = none;
  client_request_id = none;
  idempotency_key = none;
  phase = none;
  agent_id = none;
  requester_agent_id = none;
  ttl_ms = none;
  task_digest = none;
  external_id = none;
}

-- An intent as its INSERT leaves it.
abbrev pub pending_intent : IntentIdentity → Intent
pending_intent identity = record {
  identity = identity;
  state = IntentState.pending;
  external = no_external;
  accepted_at = none;
  accepted_at_epoch_ms = none;
  resolved_at = none;
  resolved_at_epoch_ms = none;
}

abbrev pub insert_intent : IntentIdentity → Db → Db
insert_intent identity db = record db { intents = pending_intent identity ∷ db.intents }

-- For each row that a SELECT finds, whether it is the expected one.
verdicts : {A : Type 0} → (A → Bool) → (A → Bool) → List A → List Bool
verdicts selects expected [] = []
verdicts selects expected (x ∷ xs) =
    if selects x then expected x ∷ verdicts selects expected xs else verdicts selects expected xs

-- No row: insert. One row, the expected one: keep it. Anything else is a conflict.
insert_needed : String → List Bool → Result Bool
insert_needed message [] = ok true
insert_needed message (true ∷ []) = ok false
insert_needed message _ = err (dispatch_error message)

is_pending : IntentState → Bool
is_pending IntentState.pending = true
is_pending _ = false

is_spawn_pending : SpawnState → Bool
is_spawn_pending SpawnState.pending = true
is_spawn_pending _ = false

is_acquire_pending : LeaseState → Bool
is_acquire_pending LeaseState.acquire_pending = true
is_acquire_pending _ = false

abbrev spawn_request_row : DispatchRequest → String → SpawnRequest
spawn_request_row q now = record {
  spawn_request_id = q.spawn_request_id;
  run_id = q.run_id;
  phase = q.phase;
  agent_id = q.agent_id;
  transition_id = q.transition_id;
  client_request_id = q.spawn_client_request_id;
  spawn_idempotency_key = q.spawn_idempotency_key;
  task_digest = q.task_digest;
  state = SpawnState.pending;
  session_key = none;
  dispatch_run_id = none;
  metadata_contract_version = none;
  metadata_observed_at = none;
  external_metadata_json = none;
  ambiguity_reason = none;
  created_at = now;
  updated_at = now;
}

expected_spawn_request : DispatchRequest → SpawnRequest → Bool
unfolding is_spawn_pending
expected_spawn_request q sr =
    (sr.run_id =ₜ q.run_id)
    && (sr.phase =ₜ q.phase)
    && (sr.agent_id =ₜ q.agent_id)
    && (sr.transition_id =ₜ q.transition_id)
    && (sr.client_request_id =ₜ q.spawn_client_request_id)
    && (sr.spawn_idempotency_key =ₜ q.spawn_idempotency_key)
    && (sr.task_digest =ₜ q.task_digest)
    && is_spawn_pending sr.state

abbrev lease_row : DispatchRequest → String → String → ℕ → Lease
lease_row q now expires expires_ms = record {
  identity = record {
    lease_id = lease_id_of q;
    run_id = q.run_id;
    phase = q.phase;
    transition_id = q.transition_id;
    agent_id = q.agent_id;
    requester_agent_id = q.requester_agent_id;
    client_lease_id = q.client_lease_id;
    acquire_idempotency_key = q.acquire_idempotency_key;
    ttl_ms = q.ttl_ms;
    acquire_requested_at = now;
    expires_at = expires;
    expires_at_epoch_ms = some expires_ms;
  };
  state = LeaseState.acquire_pending;
  gateway_lease_id = none;
  release_idempotency_key = some q.release_idempotency_key;
  external = no_external;
  metadata_observed_at = none;
  acquired_at = none;
  release_requested_at = none;
  released_at = none;
  reconciliation_status = "not_needed";
}

selects_lease : DispatchRequest → Lease → Bool
unfolding lease_id_of
selects_lease q l =
    (l.identity.lease_id =ₜ lease_id_of q)
    || (l.identity.client_lease_id =ₜ q.client_lease_id)
    || (l.identity.acquire_idempotency_key =ₜ q.acquire_idempotency_key)

expected_lease : DispatchRequest → Lease → Bool
unfolding lease_id_of is_text is_acquire_pending
expected_lease q l =
    (l.identity.lease_id =ₜ lease_id_of q)
    && (l.identity.run_id =ₜ q.run_id)
    && (l.identity.phase =ₜ q.phase)
    && (l.identity.transition_id =ₜ q.transition_id)
    && (l.identity.agent_id =ₜ q.agent_id)
    && (l.identity.requester_agent_id =ₜ q.requester_agent_id)
    && is_acquire_pending l.state
    && (l.identity.client_lease_id =ₜ q.client_lease_id)
    && (l.identity.acquire_idempotency_key =ₜ q.acquire_idempotency_key)
    && is_text l.release_idempotency_key q.release_idempotency_key
    && same ℕ_discrete l.identity.ttl_ms q.ttl_ms

equal_number : Option ℕ → ℕ → Bool
equal_number none n = false
equal_number (some m) n = same ℕ_discrete m n

abbrev acquire_identity : Platform → DispatchRequest → String → ℕ → IntentIdentity
acquire_identity platform q now now_ms = record {
  intent_id = "acquire:" ++ q.acquire_idempotency_key;
  run_id = q.run_id;
  transition_id = q.transition_id;
  rpc_kind = allow_lease_acquire;
  spawn_request_id = none;
  reserve_budget_event_id = none;
  client_request_id = q.client_lease_id;
  idempotency_key = q.acquire_idempotency_key;
  phase = some q.phase;
  agent_id = some q.agent_id;
  requester_agent_id = some q.requester_agent_id;
  ttl_ms = some q.ttl_ms;
  task_digest = none;
  metadata_json = platform.dumps (lease_metadata q "pending");
  requested_at = now;
  requested_at_epoch_ms = some now_ms;
}

selects_acquire : DispatchRequest → Intent → Bool
unfolding RpcKind-discrete
selects_acquire q i =
    same RpcKind-discrete i.identity.rpc_kind allow_lease_acquire
    && ((i.identity.client_request_id =ₜ q.client_lease_id)
        || (i.identity.idempotency_key =ₜ q.acquire_idempotency_key))

expected_acquire : Platform → DispatchRequest → Intent → Bool
unfolding RpcKind-discrete is_text is_pending equal_number
expected_acquire platform q i =
    (i.identity.intent_id =ₜ ("acquire:" ++ q.acquire_idempotency_key))
    && (i.identity.run_id =ₜ q.run_id)
    && (i.identity.transition_id =ₜ q.transition_id)
    && same RpcKind-discrete i.identity.rpc_kind allow_lease_acquire
    && (i.identity.client_request_id =ₜ q.client_lease_id)
    && (i.identity.idempotency_key =ₜ q.acquire_idempotency_key)
    && is_text i.identity.phase q.phase
    && is_text i.identity.agent_id q.agent_id
    && is_text i.identity.requester_agent_id q.requester_agent_id
    && equal_number i.identity.ttl_ms q.ttl_ms
    && (i.identity.metadata_json =ₜ platform.dumps (lease_metadata q "pending"))
    && is_pending i.state

unfoldable pub assert_no_release_key_collision : Db → DispatchRequest → Result (Unit {0})
unfolding one_of
assert_no_release_key_collision db q =
    require
      (not (
          one_of q.release_idempotency_key (
            q.client_lease_id ∷ q.acquire_idempotency_key ∷ q.spawn_client_request_id
            ∷ q.spawn_idempotency_key ∷ []))
        && not (
            any
              (λ i.
                (i.identity.client_request_id =ₜ q.release_idempotency_key)
                || (i.identity.idempotency_key =ₜ q.release_idempotency_key))
              db.intents))
      (dispatch_error "conflicting reuse of allow_lease_release identity")

selects_binding : DispatchRequest → Binding × String → Bool
unfolding lease_id_of
selects_binding q b =
    (b.0.spawn_request_id =ₜ q.spawn_request_id)
    || (b.0.lease_id =ₜ lease_id_of q)
    || (b.0.client_lease_id =ₜ q.client_lease_id)
    || (b.0.acquire_idempotency_key =ₜ q.acquire_idempotency_key)
    || (b.0.release_idempotency_key =ₜ q.release_idempotency_key)
    || (b.0.spawn_client_request_id =ₜ q.spawn_client_request_id)
    || (b.0.spawn_idempotency_key =ₜ q.spawn_idempotency_key)

-- `requested_at_epoch_ms` after the reservation.
after_reserve : Option (Option ℕ) → ℕ → Result ℕ
after_reserve (some (some reserved)) now_ms =
    ok (if ltb now_ms (reserved + 1) then reserved + 1 else now_ms)
after_reserve _ now_ms = err (dispatch_error "missing reserve budget event timestamp")

unfoldable pub spawn_intent_requested_time : Db → DispatchRequest → ℕ → Result ℕ
unfolding after_reserve
spawn_intent_requested_time db q now_ms =
    after_reserve (db.reserve_times q.reserve_budget_event_id) now_ms

abbrev pub spawn_identity : Platform → DispatchRequest → String → String → ℕ → IntentIdentity
spawn_identity platform q metadata_json requested_at requested_ms = record {
  intent_id = "spawn:" ++ q.spawn_idempotency_key;
  run_id = q.run_id;
  transition_id = q.transition_id;
  rpc_kind = sessions_spawn;
  spawn_request_id = some q.spawn_request_id;
  reserve_budget_event_id = some q.reserve_budget_event_id;
  client_request_id = q.spawn_client_request_id;
  idempotency_key = q.spawn_idempotency_key;
  phase = some q.phase;
  agent_id = some q.agent_id;
  requester_agent_id = none;
  ttl_ms = none;
  task_digest = some q.task_digest;
  metadata_json = metadata_json;
  requested_at = requested_at;
  requested_at_epoch_ms = some requested_ms;
}

unfoldable pub insert_if : {T S : Type 0} → Platform → (Db → Db) → Bool → Action (World T S) Unit
insert_if platform change true = statement platform change
insert_if platform change false = returns tt

module _ {T S : Type 0} (platform : Platform) (q : DispatchRequest) where
  unfoldable pub assert_or_insert_spawn_request : String → Action (World T S) Unit
  unfolding verdicts insert_needed insert_if expected_spawn_request
  assert_or_insert_spawn_request now = do
    needed ← reads (λ w. insert_needed "conflicting reuse of spawn_request_id" (
        verdicts (λ sr. sr.spawn_request_id =ₜ q.spawn_request_id) (expected_spawn_request q)
          w.db.spawn_requests))
    insert_if platform
        (λ db. record db { spawn_requests = spawn_request_row q now ∷ db.spawn_requests }) needed

  unfoldable pub assert_or_insert_lease : String → String → ℕ → Action (World T S) Unit
  unfolding verdicts insert_needed insert_if selects_lease expected_lease
  assert_or_insert_lease now expires expires_ms = do
    needed ← reads (λ w.
        insert_needed "conflicting reuse of allow lease identity"
          (verdicts (selects_lease q) (expected_lease q) w.db.leases))
    insert_if platform (λ db. record db { leases = lease_row q now expires expires_ms ∷ db.leases })
        needed

  unfoldable pub assert_or_insert_acquire_intent : String → ℕ → Action (World T S) Unit
  unfolding verdicts insert_needed insert_if selects_acquire expected_acquire
  assert_or_insert_acquire_intent now now_ms = do
    needed ← reads (λ w.
        insert_needed "conflicting reuse of allow_lease_acquire identity"
          (verdicts (selects_acquire q) (expected_acquire platform q) w.db.intents))
    insert_if platform (insert_intent (acquire_identity platform q now now_ms)) needed

  unfoldable pub assert_or_insert_dispatch_binding : String → Action (World T S) Unit
  unfolding verdicts insert_needed insert_if selects_binding Binding-discrete
  assert_or_insert_dispatch_binding now = do
    needed ← reads (λ w. insert_needed "conflicting reuse of runtime dispatch binding" (
        verdicts (selects_binding q) (λ b. same Binding-discrete b.0 (binding_of q)) w.db.bindings))
    insert_if platform (λ db. record db { bindings = (binding_of q, now) ∷ db.bindings }) needed

  unfoldable pub insert_pending_dispatch : Clock T → Action (World T S) Unit
  insert_pending_dispatch clock = do
    reads (λ w. validate_dispatch_request q)
    reads (λ w. assert_no_conflicting_spawn_replay w.db q)
    reads (λ w. assert_no_release_key_collision w.db q)
    reads (λ w. assert_no_potentially_live_dispatch platform w.db q)
    now_ms ← now_utc clock
    requested_ms ← reads (λ w. spawn_intent_requested_time w.db q now_ms)
    assert_or_insert_spawn_request (platform.strftime now_ms)
    assert_or_insert_lease (platform.strftime now_ms) (platform.strftime (now_ms + q.ttl_ms))
        (now_ms + q.ttl_ms)
    assert_or_insert_acquire_intent (platform.strftime now_ms) now_ms
    assert_or_insert_dispatch_binding (platform.strftime now_ms)
    descriptor ← reads (λ w. spawn_descriptor_metadata platform q)
    statement platform (
        insert_intent (
          spawn_identity platform q (platform.dumps descriptor) (platform.strftime requested_ms)
            requested_ms))
