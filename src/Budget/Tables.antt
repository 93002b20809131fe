-- ===== src/Budget/Tables.antt =====
-- The rows that the budget ledger reads and writes, and the database they stand in. A column that
-- SQLite declares ANY holds `none` where its value is NULL or is no integer from 0 up.
use openclaw_agentic_os.Prelude.{ℕ, String, Option, List, Table, String-discrete, ℕ_discrete}
use openclaw_agentic_os.Budget.Amounts.{BudgetAmounts, BudgetAmounts-discrete}

-- The confidence texts; `other` stands for a text that is none of the three.
pub data Confidence : Type 0 where
  known estimated unknown other : Confidence

pub data EventType : Type 0 where
  reserve release consume retry_decrement retry_restore human_attention : EventType

-- The columns of a cost row that budgets, events and settlements repeat.
pub record CostBinding : Type 0 where
  pub provider : String
  pub model : String
  pub endpoint_binding_id : String
  pub capability_class : String
  pub cost_registry_id : String
  pub cost_effective_at : String
  pub cost_registry_hash : String
  pub cost_confidence : Confidence

pub record BudgetSelection : Type 0 where
  pub binding : CostBinding
  pub input_cost_microusd_per_million : Option ℕ
  pub output_cost_microusd_per_million : Option ℕ

pub record RunBudget : Type 0 where
  pub workflow : String
  pub selected : CostBinding
  pub selected_reserve_transition_id : String
  pub usage_confidence : Confidence
  pub budget : BudgetAmounts
  pub reserved : BudgetAmounts
  pub consumed : BudgetAmounts
  pub updated_at : String

-- The columns of `_EVENT_COMPARE_COLUMNS`.
pub record EventPayload : Type 0 where
  pub budget_event_id : String
  pub event_dedupe_hash : String
  pub run_id : String
  pub transition_id : String
  pub spawn_request_id : Option String
  pub cost : CostBinding
  pub zero_reserve_policy_id : Option String
  pub zero_reserve_policy_hash : Option String
  pub event_type : EventType
  pub amounts : BudgetAmounts
  pub usage_confidence : Confidence
  pub source : String
  pub created_at : String
  pub created_at_epoch_ms : ℕ
  pub clock_context_id : Option String

pub record BudgetEvent : Type 0 where
  pub payload : EventPayload
  pub event_idempotency_key : String
  pub event_sequence : ℕ
  pub settlement_id : Option String

-- The columns that a replayed settlement is compared by.
pub record SettlementPayload : Type 0 where
  pub settlement_id : String
  pub settlement_dedupe_hash : String
  pub run_id : String
  pub transition_id : String
  pub spawn_request_id : String
  pub cost : CostBinding
  pub actual : BudgetAmounts
  pub usage_confidence : Confidence
  pub source : String
  pub created_at : String
  pub created_at_epoch_ms : ℕ
  pub clock_context_id : String

pub record Settlement : Type 0 where
  pub payload : SettlementPayload
  pub settlement_idempotency_key : String
  pub released : BudgetAmounts

pub record Run : Type 0 where
  pub workflow : String
  pub state : String

pub record CostRow : Type 0 where
  pub provider : String
  pub model : String
  pub endpoint_binding_id : String
  pub capability_class : String
  pub effective_at : String
  pub registry_row_hash : String
  pub confidence : Confidence
  pub input_cost_microusd_per_million : Option ℕ
  pub output_cost_microusd_per_million : Option ℕ

-- What a spawn request, its RPC intent and its session share.
pub record SpawnRequest : Type 0 where
  pub run_id : String
  pub transition_id : String
  pub client_request_id : String
  pub spawn_idempotency_key : String
  pub phase : String
  pub agent_id : String
  pub task_digest : String
  pub session_key : Option String
  pub state : String

pub record RpcIntent : Type 0 where
  pub rpc_kind : String
  pub state : String
  pub run_id : String
  pub transition_id : String
  pub spawn_request_id : Option String
  pub client_request_id : String
  pub idempotency_key : String
  pub phase : Option String
  pub agent_id : Option String
  pub task_digest : Option String
  pub external_id : Option String
  pub requested_at_epoch_ms : Option ℕ
  pub accepted_at_epoch_ms : Option ℕ

pub record Session : Type 0 where
  pub spawn_request_id : String
  pub run_id : String
  pub transition_id : String
  pub client_request_id : String
  pub spawn_idempotency_key : String
  pub phase : String
  pub agent_id : String
  pub task_digest : String
  pub session_key : String
  pub state : String
  pub completed_at : Option String

pub record ClockContext : Type 0 where
  pub gate_run_id : String
  pub consumed_by_gate_run_id : String
  pub run_id : String
  pub transition_id : String
  pub gate_nonce : String
  pub trusted_clock_source_hash : String
  pub now_epoch_ms : Option ℕ
  pub bound_at_epoch_ms : Option ℕ
  pub consumed_at_epoch_ms : Option ℕ

pub record GateRun : Type 0 where
  pub run_id : String
  pub transition_id : String
  pub clock_context_id : String
  pub decision : String
  pub completed_at_epoch_ms : Option ℕ

pub record ZeroReservePolicy : Type 0 where
  pub endpoint_binding_id : String
  pub capability_class : String
  pub policy_hash : String

-- The tables that the ledger only reads.
pub record Reference : Type 0 where
  pub runs : Table Run
  pub transitions : Table String  -- the run of each transition
  pub model_cost_registry : Table CostRow
  pub spawn_requests : Table SpawnRequest
  pub external_rpc_intents : List RpcIntent
  pub sessions : List Session
  pub gate_clock_context : Table ClockContext
  pub gate_runs : Table GateRun
  pub endpoint_zero_reserve_policies : Table ZeroReservePolicy

-- The database; events and settlements stand newest first.
pub record Db : Type 0 where
  pub reference : Reference
  pub run_budgets : Table RunBudget
  pub budget_events : List BudgetEvent
  pub budget_settlements : List Settlement

-- What the ledger uses of Python's library: `hashlib.sha256(…).hexdigest()` of a text's bytes, the
-- ISO form of a time in milliseconds, and `str.strip`.
pub record Runtime : Type 0 where
  pub sha256_hex : String → String
  pub isoformat : ℕ → String
  pub strip : String → String

unfoldable pub Confidence-discrete : Discrete Confidence
Confidence-discrete = hlevel

unfoldable pub EventType-discrete : Discrete EventType
EventType-discrete = hlevel

unfoldable pub CostBinding-discrete : Discrete CostBinding
unfolding Confidence-discrete
CostBinding-discrete = hlevel (String-discrete, Confidence-discrete)

unfoldable pub EventPayload-discrete : Discrete EventPayload
unfolding CostBinding-discrete EventType-discrete
EventPayload-discrete = hlevel (
  String-discrete, ℕ_discrete, Confidence-discrete, EventType-discrete, CostBinding-discrete,
  BudgetAmounts-discrete,
)

unfoldable pub SettlementPayload-discrete : Discrete SettlementPayload
unfolding CostBinding-discrete
SettlementPayload-discrete =
    hlevel (
      String-discrete, ℕ_discrete, Confidence-discrete, CostBinding-discrete,
      BudgetAmounts-discrete,
    )
