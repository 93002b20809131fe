-- ===== src/Dispatch/Live.antt =====
-- `assert_no_potentially_live_dispatch` (src/agentic_os/runtime_dispatch.py, lines 783 to 819).
use openclaw_agentic_os.Prelude.{
  String, Bool, true, false, not, ◌&&◌, Option, none, some, ◌=ₜ◌, is_text, same, any,
}
use openclaw_agentic_os.Result.{Result, dispatch_error, require}
use openclaw_agentic_os.Dispatch.Rows.{
  Db, Intent, IntentState, SpawnState, LeaseState, SpawnRequest, Lease, Binding, sessions_spawn,
  RpcKind-discrete,
}
use openclaw_agentic_os.Dispatch.World.{Platform}
use openclaw_agentic_os.Dispatch.Request.{DispatchRequest}

-- The joins of `assert_no_potentially_live_dispatch`.
live_spawn_request : Intent → SpawnRequest → Bool
unfolding is_text
live_spawn_request i sr =
    is_text i.identity.spawn_request_id sr.spawn_request_id
    && (sr.run_id =ₜ i.identity.run_id)
    && (sr.transition_id =ₜ i.identity.transition_id)
    && is_text i.identity.phase sr.phase
    && is_text i.identity.agent_id sr.agent_id
    && is_text i.identity.task_digest sr.task_digest
    && (sr.client_request_id =ₜ i.identity.client_request_id)
    && (sr.spawn_idempotency_key =ₜ i.identity.idempotency_key)

live_binding : Intent → SpawnRequest → Binding × String → Bool
unfolding is_text
live_binding i sr b =
    (b.0.spawn_request_id =ₜ sr.spawn_request_id)
    && (b.0.run_id =ₜ sr.run_id)
    && (b.0.transition_id =ₜ sr.transition_id)
    && (b.0.phase =ₜ sr.phase)
    && (b.0.agent_id =ₜ sr.agent_id)
    && (b.0.task_digest =ₜ sr.task_digest)
    && is_text i.identity.reserve_budget_event_id b.0.reserve_budget_event_id
    && (b.0.spawn_client_request_id =ₜ sr.client_request_id)
    && (b.0.spawn_idempotency_key =ₜ sr.spawn_idempotency_key)

live_lease : Binding × String → Lease → Bool
unfolding is_text
live_lease b l =
    (l.identity.lease_id =ₜ b.0.lease_id)
    && (l.identity.run_id =ₜ b.0.run_id)
    && (l.identity.transition_id =ₜ b.0.transition_id)
    && (l.identity.phase =ₜ b.0.phase)
    && (l.identity.agent_id =ₜ b.0.agent_id)
    && (l.identity.requester_agent_id =ₜ b.0.requester_agent_id)
    && (l.identity.client_lease_id =ₜ b.0.client_lease_id)
    && (l.identity.acquire_idempotency_key =ₜ b.0.acquire_idempotency_key)
    && is_text l.release_idempotency_key b.0.release_idempotency_key

reviewed : SpawnState → Bool
reviewed SpawnState.human_review_required = true
reviewed _ = false

lease_is_over : LeaseState → Bool
lease_is_over LeaseState.released = true
lease_is_over LeaseState.release_not_required = true
lease_is_over LeaseState.expired = true
lease_is_over _ = false

-- `NOT (… AND x LIKE y AND …)` where x may be NULL: no row satisfies it, as where LIKE holds.
like_option : Platform → Option String → String → Bool
like_option platform none pattern_text = true
like_option platform (some s) pattern_text = platform.like s pattern_text

-- The states of an intent that may be live.
may_live : Platform → IntentState → SpawnRequest → Lease → Bool
unfolding reviewed lease_is_over like_option
may_live platform IntentState.failed sr l = false
may_live platform IntentState.human_review_required sr l = not (
    reviewed sr.state
    && like_option platform sr.ambiguity_reason "spawn blocked by allow lease%"
    && lease_is_over l.state)
may_live platform _ sr l = true

competes : DispatchRequest → Intent → Bool
unfolding RpcKind-discrete is_text
competes q i =
    same RpcKind-discrete i.identity.rpc_kind sessions_spawn
    && (i.identity.run_id =ₜ q.run_id)
    && is_text i.identity.phase q.phase
    && is_text i.identity.agent_id q.agent_id
    && not (is_text i.identity.spawn_request_id q.spawn_request_id)

live_intent : Platform → Db → DispatchRequest → Intent → Bool
unfolding live_spawn_request live_binding live_lease may_live competes
live_intent platform db q i =
    competes q i
    && any
        (λ sr.
          live_spawn_request i sr
          && any
              (λ b.
                live_binding i sr b
                && any (λ l. live_lease b l && may_live platform i.state sr l) db.leases)
              db.bindings)
        db.spawn_requests

unfoldable pub assert_no_potentially_live_dispatch :
    Platform → Db → DispatchRequest → Result (Unit {0})
unfolding live_intent
assert_no_potentially_live_dispatch platform db q =
    require (not (any (live_intent platform db q) db.intents))
      (dispatch_error "duplicate live dispatch for run, phase, and agent is blocked")
