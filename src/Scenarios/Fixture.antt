-- ===== src/Scenarios/Fixture.antt =====
-- One run with one spawn: its budget, its cost row, its clocks, and the requests of its life.
use openclaw_agentic_os.Prelude.{
  ℕ, String, Bool, true, false, ◌≡◌, refl, Option, none, some, List, [], ◌∷◌, ◌=ₜ◌, put, Table,
  arith, ◌+◌, if◌then◌else◌,
}
use openclaw_agentic_os.Budget.Amounts.{Dimension, time_seconds, BudgetAmounts, getattr, no_amounts}
use openclaw_agentic_os.Budget.Tables.{
  known, EventType, CostBinding, BudgetSelection, RunBudget, SpawnRequest, RpcIntent, Session,
  ClockContext, GateRun, Reference, Db, Runtime,
}
use openclaw_agentic_os.Budget.Ledger.{Engine, total}
use openclaw_agentic_os.Budget.PreAdmission.{EventRequest}
use openclaw_agentic_os.Budget.PostAdmission.{PostEventRequest}
use openclaw_agentic_os.Budget.SettlementAdmission.{SettlementRequest}
use openclaw_agentic_os.Budget.Reconcile.{IsSound, Agrees, WithinBudget}

-- A digest that is its text, a clock text that is one text, and no white space to strip.
abbrev pub plain : Runtime
plain = record { sha256_hex = λ s. s; isoformat = λ n. "time"; strip = λ s. s }

-- An engine that refuses nothing.
abbrev pub permissive : Engine
permissive = record {
  schema_verified = λ db. true;
  contracts_hold = λ db. true;
  admits_event = λ db e. true;
  admits_settlement = λ db s. true;
  admits_budget = λ db k rb. true;
}

abbrev pub amounts : ℕ → ℕ → ℕ → ℕ → ℕ → ℕ → BudgetAmounts
amounts t i o c r h = record { time = t; input = i; output = o; cost = c; retry = r; human = h }

abbrev pub binding : CostBinding
binding = record {
  provider = "acme";
  model = "small";
  endpoint_binding_id = "endpoint";
  capability_class = "text";
  cost_registry_id = "cost-1";
  cost_effective_at = "2026";
  cost_registry_hash = "hash";
  cost_confidence = known;
}

abbrev pub selection : BudgetSelection
selection = record {
  binding = binding;
  input_cost_microusd_per_million = some 3;
  output_cost_microusd_per_million = some 5;
}

abbrev pub budget_row : RunBudget
budget_row = record {
  workflow = "flow";
  selected = binding;
  selected_reserve_transition_id = "transition";
  usage_confidence = known;
  budget = amounts 100 1_000_000 1_000_000 50 4 2;
  reserved = no_amounts;
  consumed = no_amounts;
  updated_at = "start";
}

abbrev table_of : {A : Type 0} → String → A → Table A
table_of k v = put k v (λ j. none)

abbrev clock : String → ℕ → ClockContext
clock gate now = record {
  gate_run_id = gate;
  consumed_by_gate_run_id = gate;
  run_id = "run";
  transition_id = "transition";
  gate_nonce = "nonce";
  trusted_clock_source_hash = "source";
  now_epoch_ms = some now;
  bound_at_epoch_ms = some now;
  consumed_at_epoch_ms = some now;
}

abbrev gate : String → ℕ → GateRun
gate context now = record {
  run_id = "run";
  transition_id = "transition";
  clock_context_id = context;
  decision = "pass";
  completed_at_epoch_ms = some now;
}

abbrev spawn : String → Option String → SpawnRequest
spawn state key = record {
  run_id = "run";
  transition_id = "transition";
  client_request_id = "client";
  spawn_idempotency_key = "spawn-key";
  phase = "work";
  agent_id = "agent";
  task_digest = "digest";
  session_key = key;
  state = state;
}

abbrev intent : RpcIntent
intent = record {
  rpc_kind = "sessions_spawn";
  state = "accepted";
  run_id = "run";
  transition_id = "transition";
  spawn_request_id = some "spawn";
  client_request_id = "client";
  idempotency_key = "spawn-key";
  phase = some "work";
  agent_id = some "agent";
  task_digest = some "digest";
  external_id = some "session";
  requested_at_epoch_ms = some 20;
  accepted_at_epoch_ms = some 30;
}

abbrev session : Session
session = record {
  spawn_request_id = "spawn";
  run_id = "run";
  transition_id = "transition";
  client_request_id = "client";
  spawn_idempotency_key = "spawn-key";
  phase = "work";
  agent_id = "agent";
  task_digest = "digest";
  session_key = "session";
  state = "completed";
  completed_at = some "done";
}

abbrev reference : String → SpawnRequest → List RpcIntent → List Session → Reference
reference run_state sr intents sessions = record {
  runs = table_of "run" (record { workflow = "flow"; state = run_state });
  transitions = table_of "transition" "run";
  model_cost_registry = table_of "cost-1" (record {
    provider = "acme";
    model = "small";
    endpoint_binding_id = "endpoint";
    capability_class = "text";
    effective_at = "2026";
    registry_row_hash = "hash";
    confidence = known;
    input_cost_microusd_per_million = some 3;
    output_cost_microusd_per_million = some 5;
  });
  spawn_requests = table_of "spawn" sr;
  external_rpc_intents = intents;
  sessions = sessions;
  gate_clock_context = put "clock-1" (clock "gate-1" 10) (table_of "clock-2" (clock "gate-2" 40));
  gate_runs = put "gate-1" (gate "clock-1" 10) (table_of "gate-2" (gate "clock-2" 40));
  endpoint_zero_reserve_policies = λ k. none;
}

-- Before the spawn is dispatched.
abbrev pub fresh_db : Db
fresh_db = record {
  reference = reference "candidate" (spawn "pending" none) [] [];
  run_budgets = table_of "run" budget_row;
  budget_events = [];
  budget_settlements = [];
}

-- The same ledger once the spawn is accepted and its session has completed.
abbrev pub complete : Db → Db
complete db = record db {
  reference =
      reference "child_completed" (spawn "completed" (some "session")) (intent ∷ []) (session ∷ []);
}

abbrev pub event_request : EventType → String → BudgetAmounts → EventRequest
event_request t key v = record {
  event_type = t;
  run_id = "run";
  transition_id = "transition";
  selection = selection;
  amounts = v;
  idempotency_key = key;
  dedupe_key = key;
  source = "test";
  usage_confidence = known;
  spawn_request_id = "spawn";
  zero_reserve_policy_id = none;
  clock_context_id = some "clock-1";
}

abbrev pub post_request : EventType → String → BudgetAmounts → PostEventRequest
post_request t key v = record {
  event_type = t;
  run_id = "run";
  transition_id = "transition";
  selection = selection;
  amounts = v;
  idempotency_key = key;
  dedupe_key = key;
  source = "test";
  usage_confidence = known;
  spawn_request_id = "spawn";
  clock_context_id = "clock-2";
}

abbrev pub settlement_request : String → BudgetAmounts → SettlementRequest
settlement_request key v = record {
  run_id = "run";
  transition_id = "transition";
  selection = selection;
  actual_usage = v;
  idempotency_key = key;
  dedupe_key = key;
  source = "test";
  spawn_request_id = "spawn";
  clock_context_id = "clock-2";
  usage_confidence = known;
}

fresh_row :
    (b : Bool) (row : RunBudget)
    → (if b then some budget_row else none) ≡ some row
    → budget_row ≡ row
fresh_row true row h = cc
fresh_row false row h = cc

abbrev AgreesWithin : Type 0
AgreesWithin = (run_id : String) → Agrees run_id [] budget_row × WithinBudget budget_row

fresh_Agrees : AgreesWithin
unfolding total
fresh_Agrees run_id = (record { reserved = λ d. go d; consumed = λ d. go d }, λ d. within d)
  where
    go : (d : Dimension) → getattr no_amounts d + 0 ≡ 0
    go time_seconds = refl
    go _ = refl

    within : WithinBudget budget_row
    within time_seconds = omega arith
    within _ = omega arith

pub fresh_db-IsSound : IsSound fresh_db
unfolding put
fresh_db-IsSound = record {
  agrees = λ run_id row found. rw (← fresh_row ("run" =ₜ run_id) row found) (fresh_Agrees run_id).0;
  within = λ run_id row found. rw (← fresh_row ("run" =ₜ run_id) row found) (fresh_Agrees run_id).1;
}

pub complete-IsSound : (db : Db) → IsSound db → IsSound (complete db)
complete-IsSound db sound = record { agrees = sound.agrees; within = sound.within }
