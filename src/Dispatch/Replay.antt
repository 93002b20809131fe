-- ===== src/Dispatch/Replay.antt =====
-- The replay of a sessions_spawn (src/agentic_os/runtime_dispatch.py, lines 312 to 476).
use openclaw_agentic_os.Prelude.{
  String, Bool, true, false, not, ◌&&◌, ◌||◌, Option, none, some, List, ◌=ₜ◌, is_text, same, any,
  find, if◌then◌else◌,
}
use openclaw_agentic_os.Result.{Result, ok, err, dispatch_error, require, ◌>>=◌, ◌>>◌}
use openclaw_agentic_os.Metadata.Observation.{validate_accepted_session_identity}
use openclaw_agentic_os.Dispatch.Rows.{
  Db, Intent, IntentState, SpawnState, SpawnRequest, Session, Lease, Binding, RpcKind,
  sessions_spawn, RpcKind-discrete, Binding-discrete,
}
use openclaw_agentic_os.Dispatch.World.{Platform}
use openclaw_agentic_os.Dispatch.Request.{
  DispatchRequest, DispatchResult, lease_id_of, validate_transient_spawn_descriptor,
  spawn_descriptor_metadata, replay_transient_descriptor_supplied,
  stored_descriptor_requires_transient_descriptor,
}

-- `rpc_kind=? AND idempotency_key=?`
unfoldable pub of_kind : RpcKind → String → Intent → Bool
unfolding RpcKind-discrete
of_kind kind idempotency_key i =
    same RpcKind-discrete i.identity.rpc_kind kind
    && (i.identity.idempotency_key =ₜ idempotency_key)

-- The eight columns that `_existing_spawn_replay_result` compares.
unfoldable pub same_spawn : DispatchRequest → Intent → Bool
unfolding is_text
same_spawn q i =
    (i.identity.run_id =ₜ q.run_id)
    && (i.identity.transition_id =ₜ q.transition_id)
    && is_text i.identity.spawn_request_id q.spawn_request_id
    && is_text i.identity.reserve_budget_event_id q.reserve_budget_event_id
    && (i.identity.client_request_id =ₜ q.spawn_client_request_id)
    && is_text i.identity.phase q.phase
    && is_text i.identity.agent_id q.agent_id
    && is_text i.identity.task_digest q.task_digest

-- `expected_binding`, the row that a dispatch of the request inserts.
abbrev pub binding_of : DispatchRequest → Binding
binding_of q = record {
  spawn_request_id = q.spawn_request_id;
  lease_id = lease_id_of q;
  run_id = q.run_id;
  transition_id = q.transition_id;
  phase = q.phase;
  agent_id = q.agent_id;
  requester_agent_id = q.requester_agent_id;
  task_digest = q.task_digest;
  client_lease_id = q.client_lease_id;
  acquire_idempotency_key = q.acquire_idempotency_key;
  release_idempotency_key = q.release_idempotency_key;
  spawn_client_request_id = q.spawn_client_request_id;
  spawn_idempotency_key = q.spawn_idempotency_key;
  reserve_budget_event_id = q.reserve_budget_event_id;
}

same_binding : DispatchRequest → Option (Binding × String) → Bool
unfolding Binding-discrete lease_id_of
same_binding q none = false
same_binding q (some (b, created_at)) = same Binding-discrete b (binding_of q)

accepted_or_completed : SpawnState → Bool
accepted_or_completed SpawnState.accepted = true
accepted_or_completed SpawnState.completed = true
accepted_or_completed _ = false

-- A column against another that is NOT NULL; SQL's `=` with a parameter that may be NULL.
equal_texts : Option String → Option String → Bool
unfolding is_text
equal_texts x none = false
equal_texts x (some t) = is_text x t

-- The WHERE on `spawn_requests`.
spawn_request_matches : DispatchRequest → Option String → SpawnRequest → Bool
unfolding equal_texts accepted_or_completed
spawn_request_matches q external_id sr =
    (sr.spawn_request_id =ₜ q.spawn_request_id)
    && (sr.run_id =ₜ q.run_id)
    && (sr.transition_id =ₜ q.transition_id)
    && (sr.client_request_id =ₜ q.spawn_client_request_id)
    && (sr.spawn_idempotency_key =ₜ q.spawn_idempotency_key)
    && (sr.phase =ₜ q.phase)
    && (sr.agent_id =ₜ q.agent_id)
    && (sr.task_digest =ₜ q.task_digest)
    && accepted_or_completed sr.state
    && equal_texts sr.session_key external_id

-- The JOIN with `sessions`.
unfoldable pub session_joins : SpawnRequest → Session → Bool
unfolding is_text
session_joins sr s =
    (s.spawn_request_id =ₜ sr.spawn_request_id)
    && (s.run_id =ₜ sr.run_id)
    && (s.transition_id =ₜ sr.transition_id)
    && (s.client_request_id =ₜ sr.client_request_id)
    && (s.spawn_idempotency_key =ₜ sr.spawn_idempotency_key)
    && (s.phase =ₜ sr.phase)
    && (s.agent_id =ₜ sr.agent_id)
    && (s.task_digest =ₜ sr.task_digest)
    && is_text sr.session_key s.session_key

unfoldable pub replay_identity : Option String → Option SpawnRequest → List Session → Result String
unfolding session_joins
replay_identity external_id none sessions =
    err (dispatch_error "accepted sessions_spawn replay lacks local session proof")
replay_identity external_id (some sr) sessions = elim (find (session_joins sr) sessions) [
  | none ↦ err (dispatch_error "accepted sessions_spawn replay lacks local session proof")
  | some s ↦ validate_accepted_session_identity external_id sr.session_key (some s.session_key) none
]

unfoldable pub accepted_spawn_replay_session_key :
    Db → DispatchRequest → Option String → Result String
unfolding replay_identity spawn_request_matches
accepted_spawn_replay_session_key db q external_id =
    replay_identity external_id (find (spawn_request_matches q external_id) db.spawn_requests)
      db.sessions

gateway_of : Option String → String
gateway_of none = ""
gateway_of (some g) = g

-- The WHERE on `leases`.
lease_matches : DispatchRequest → Lease → Bool
unfolding is_text gateway_of
lease_matches q l =
    (l.identity.run_id =ₜ q.run_id)
    && (l.identity.transition_id =ₜ q.transition_id)
    && (l.identity.phase =ₜ q.phase)
    && (l.identity.agent_id =ₜ q.agent_id)
    && (l.identity.requester_agent_id =ₜ q.requester_agent_id)
    && (l.identity.client_lease_id =ₜ q.client_lease_id)
    && (l.identity.acquire_idempotency_key =ₜ q.acquire_idempotency_key)
    && is_text l.release_idempotency_key q.release_idempotency_key
    && not (gateway_of l.gateway_lease_id =ₜ "")

replayed_lease : Option Lease → Result String
unfolding gateway_of
replayed_lease none =
    err (dispatch_error "conflicting reuse of sessions_spawn allow lease identity")
replayed_lease (some l) = ok (gateway_of l.gateway_lease_id)

-- The part for an intent that was accepted or reconciled.
unfoldable pub accepted_replay : Db → DispatchRequest → Intent → Result DispatchResult
unfolding same_binding lease_matches replayed_lease
accepted_replay db q i = do
  require (same_binding q (find (λ b. b.0.spawn_request_id =ₜ q.spawn_request_id) db.bindings))
      (dispatch_error "conflicting reuse of sessions_spawn allow lease identity binding")
  session_key ← accepted_spawn_replay_session_key db q i.external.external_id
  gateway_lease_id ← replayed_lease (find (lease_matches q) db.leases)
  ok (record {
    session_key = session_key;
    gateway_lease_id = gateway_lease_id;
    status = "replayed";
  })

-- Each state either replays or refuses.
unfoldable pub replay_by_state :
    Db → DispatchRequest → Intent → IntentState → Result (Option DispatchResult)
replay_by_state db q i IntentState.accepted = accepted_replay db q i >>= λ r. ok (some r)
replay_by_state db q i IntentState.reconciled = accepted_replay db q i >>= λ r. ok (some r)
replay_by_state db q i _ =
    err (dispatch_error "sessions_spawn replay is already resolved; it will not be retried")

-- The two tests of the execution descriptor.
unfoldable pub descriptor_needed : Platform → DispatchRequest → Intent → Bool
descriptor_needed platform q i =
    replay_transient_descriptor_supplied q
    || stored_descriptor_requires_transient_descriptor platform.decoder i.identity.metadata_json

unfoldable pub same_descriptor : Platform → DispatchRequest → Intent → Result (Unit {0})
same_descriptor platform q i = do
  descriptor ← spawn_descriptor_metadata platform q
  require (i.identity.metadata_json =ₜ platform.dumps descriptor)
      (dispatch_error "conflicting reuse of sessions_spawn execution descriptor")

unfoldable pub replay_intent :
    Platform → Db → DispatchRequest → Intent → Result (Option DispatchResult)
replay_intent platform db q i = do
  (if descriptor_needed platform q i then validate_transient_spawn_descriptor platform q else ok tt)
  require (same_spawn q i) (dispatch_error "conflicting reuse of sessions_spawn idempotency key")
  (if descriptor_needed platform q i then same_descriptor platform q i else ok tt)
  replay_by_state db q i i.state

unfoldable pub existing_spawn_replay_result :
    Platform → Db → DispatchRequest → Result (Option DispatchResult)
existing_spawn_replay_result platform db q =
    elim (find (of_kind sessions_spawn q.spawn_idempotency_key) db.intents) [
      | none ↦ ok none
      | some i ↦ replay_intent platform db q i
    ]

reuses_spawn_key : DispatchRequest → Intent → Bool
unfolding RpcKind-discrete
reuses_spawn_key q i =
    same RpcKind-discrete i.identity.rpc_kind sessions_spawn
    && ((i.identity.client_request_id =ₜ q.spawn_client_request_id)
        || (i.identity.idempotency_key =ₜ q.spawn_idempotency_key))

unfoldable pub assert_no_conflicting_spawn_replay : Db → DispatchRequest → Result (Unit {0})
unfolding reuses_spawn_key same_spawn
assert_no_conflicting_spawn_replay db q =
    require
      (not (
        any
          (λ i.
            reuses_spawn_key q i
            && not (same_spawn q i && (i.identity.idempotency_key =ₜ q.spawn_idempotency_key)))
          db.intents))
      (dispatch_error "conflicting reuse of sessions_spawn idempotency key")
