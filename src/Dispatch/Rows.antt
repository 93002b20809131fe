-- ===== src/Dispatch/Rows.antt =====
-- The rows that the dispatcher reads and writes (migrations/0001_minimum_contract.sql and
-- migrations/0010_runtime_dispatch_binding.sql). The states are those of the tables' CHECKs.
use openclaw_agentic_os.Prelude.{ℕ, String, Option, List, Table, String-discrete}

pub data IntentState : Type 0 where
  pending accepted unknown failed reconciled human_review_required : IntentState

pub data SpawnState : Type 0 where
  pending accepted unknown failed human_review_required completed : SpawnState

pub data LeaseState : Type 0 where
  acquire_pending acquired release_pending released release_not_required expired
        human_review_required :
      LeaseState

pub data RpcKind : Type 0 where
  allow_lease_acquire allow_lease_release sessions_spawn : RpcKind

-- The columns of an intent that its INSERT writes for good.
pub record IntentIdentity : Type 0 where
  pub intent_id : String
  pub run_id : String
  pub transition_id : String
  pub rpc_kind : RpcKind
  pub spawn_request_id : Option String
  pub reserve_budget_event_id : Option String
  pub client_request_id : String
  pub idempotency_key : String
  pub phase : Option String
  pub agent_id : Option String
  pub requester_agent_id : Option String
  pub ttl_ms : Option ℕ
  pub task_digest : Option String
  pub metadata_json : String
  pub requested_at : String
  pub requested_at_epoch_ms : Option ℕ

-- The `external_…` columns, and `metadata_contract_version`.
pub record External : Type 0 where
  pub metadata_contract_version : Option String
  pub metadata_json : Option String
  pub run_id : Option String
  pub transition_id : Option String
  pub client_request_id : Option String
  pub idempotency_key : Option String
  pub phase : Option String
  pub agent_id : Option String
  pub requester_agent_id : Option String
  pub ttl_ms : Option ℕ
  pub task_digest : Option String
  pub external_id : Option String

-- A row of `external_rpc_intents`.
pub record Intent : Type 0 where
  pub identity : IntentIdentity
  pub state : IntentState
  pub external : External
  pub accepted_at : Option String
  pub accepted_at_epoch_ms : Option ℕ
  pub resolved_at : Option String
  pub resolved_at_epoch_ms : Option ℕ

-- The columns of a lease that its INSERT writes for good; `release_idempotency_key` is nullable.
pub record LeaseIdentity : Type 0 where
  pub lease_id : String
  pub run_id : String
  pub phase : String
  pub transition_id : String
  pub agent_id : String
  pub requester_agent_id : String
  pub client_lease_id : String
  pub acquire_idempotency_key : String
  pub ttl_ms : ℕ
  pub acquire_requested_at : String
  pub expires_at : String
  pub expires_at_epoch_ms : Option ℕ

-- A row of `leases`.
pub record Lease : Type 0 where
  pub identity : LeaseIdentity
  pub state : LeaseState
  pub gateway_lease_id : Option String
  pub release_idempotency_key : Option String
  pub external : External
  pub metadata_observed_at : Option String
  pub acquired_at : Option String
  pub release_requested_at : Option String
  pub released_at : Option String
  pub reconciliation_status : String

-- A row of `spawn_requests`.
pub record SpawnRequest : Type 0 where
  pub spawn_request_id : String
  pub run_id : String
  pub phase : String
  pub agent_id : String
  pub transition_id : String
  pub client_request_id : String
  pub spawn_idempotency_key : String
  pub task_digest : String
  pub state : SpawnState
  pub session_key : Option String
  pub dispatch_run_id : Option String
  pub metadata_contract_version : Option String
  pub metadata_observed_at : Option String
  pub external_metadata_json : Option String
  pub ambiguity_reason : Option String
  pub created_at : String
  pub updated_at : String

-- A row of `runtime_dispatch_bindings`, without `created_at`.
pub record Binding : Type 0 where
  pub spawn_request_id : String
  pub lease_id : String
  pub run_id : String
  pub transition_id : String
  pub phase : String
  pub agent_id : String
  pub requester_agent_id : String
  pub task_digest : String
  pub client_lease_id : String
  pub acquire_idempotency_key : String
  pub release_idempotency_key : String
  pub spawn_client_request_id : String
  pub spawn_idempotency_key : String
  pub reserve_budget_event_id : String

-- A row of `sessions`, in the columns that the dispatcher writes.
pub record Session : Type 0 where
  pub session_id : String
  pub spawn_request_id : String
  pub run_id : String
  pub transition_id : String
  pub phase : String
  pub agent_id : String
  pub client_request_id : String
  pub spawn_idempotency_key : String
  pub session_key : String
  pub task_digest : String
  pub status_metadata_json : Option String
  pub state : String
  pub spawned_at : String

-- The tables, newest row first, and the time of each budget event.
pub record Db : Type 0 where
  pub intents : List Intent
  pub leases : List Lease
  pub spawn_requests : List SpawnRequest
  pub bindings : List (Binding × String)  -- with `created_at`
  pub sessions : List Session
  pub reserve_times : Table (Option ℕ)

unfoldable pub IntentState-discrete : Discrete IntentState
IntentState-discrete = hlevel

unfoldable pub SpawnState-discrete : Discrete SpawnState
SpawnState-discrete = hlevel

unfoldable pub LeaseState-discrete : Discrete LeaseState
LeaseState-discrete = hlevel

unfoldable pub RpcKind-discrete : Discrete RpcKind
RpcKind-discrete = hlevel

unfoldable pub Binding-discrete : Discrete Binding
Binding-discrete = hlevel String-discrete
