-- ===== src/Budget/SettlementWrites.antt =====
-- `_settle_budget_on_connection` and `settle_budget`: the terminal usage of a spawn and the release
-- of its remainder, in one transaction (src/agentic_os/budgets.py, lines 1222 to 1602).
use openclaw_agentic_os.Prelude.{
  String, ◌++◌, Bool, true, false, ◌&&◌, not, Option, none, some, List, [], ◌∷◌, is_text,
  if◌then◌else◌,
}
use mathlib.Core.List.{◌++◌ as append}
use openclaw_agentic_os.Result.{ok}
use openclaw_agentic_os.Transaction.{Action, returns, reads, transact, ◌>>=◌, ◌>>◌}
use openclaw_agentic_os.Budget.Amounts.{BudgetAmounts, is_zero, budget_amounts, getattr, pos}
use openclaw_agentic_os.Budget.Tables.{
  Db, Runtime, EventType, EventPayload, BudgetEvent, Settlement, SettlementPayload, release,
  consume, retry_decrement, retry_restore, reserve, human_attention,
}
use openclaw_agentic_os.Budget.Identity.{event_id, dedupe_hash}
use openclaw_agentic_os.Budget.Ledger.{Engine, assert_budget_invariants}
use openclaw_agentic_os.Budget.Counters.{update_counters, update_post_dispatch_counters}
use openclaw_agentic_os.Budget.Events.{
  BudgetEventResult, reject_event_dedupe_collision, next_sequence, insert_event, insert_settlement,
}
use openclaw_agentic_os.Budget.PreDispatch.{event_row, recorded}
use openclaw_agentic_os.Budget.PostAdmission.{retry_only, human_only}
use openclaw_agentic_os.Budget.SettlementAdmission.{
  SettlementRequest, SettlementAdmission, checked_settlement, admit_settlement, existing_settlement,
  check_settlement_state, released_amounts,
}

pub record BudgetSettlementResult : Type 0 where
  pub settlement_id : String
  pub events : List BudgetEventResult
  pub released : BudgetAmounts
  pub replayed : Bool

-- The text of an event type, as the keys of a settlement's events embed it.
unfoldable pub event_type_text : EventType → String
event_type_text reserve = "reserve"
event_type_text release = "release"
event_type_text consume = "consume"
event_type_text retry_decrement = "retry_decrement"
event_type_text retry_restore = "retry_restore"
event_type_text human_attention = "human_attention"

-- The payload of the event that a settlement links.
unfoldable pub linked_payload :
    Runtime → SettlementRequest → SettlementPayload → EventType → BudgetAmounts → EventPayload
unfolding event_id dedupe_hash event_type_text
linked_payload rt q s event_type amounts = record {
  budget_event_id = event_id rt (q.idempotency_key ++ ("\0" ++ event_type_text event_type));
  event_dedupe_hash = dedupe_hash rt (q.dedupe_key ++ ("\0" ++ event_type_text event_type));
  run_id = q.run_id;
  transition_id = q.transition_id;
  spawn_request_id = some q.spawn_request_id;
  cost = q.selection.binding;
  zero_reserve_policy_id = none;
  zero_reserve_policy_hash = none;
  event_type = event_type;
  amounts = amounts;
  usage_confidence = q.usage_confidence;
  source = q.source;
  created_at = s.created_at;
  created_at_epoch_ms = s.created_at_epoch_ms;
  clock_context_id = some q.clock_context_id;
}

-- Which of the two UPDATE functions an event of a settlement calls.
unfoldable pub settle_counters :
    Engine → SettlementRequest → EventType → BudgetAmounts → String → Action Db Unit
settle_counters engine q release amounts created_at =
    update_counters engine release q.run_id amounts q.usage_confidence created_at
settle_counters engine q event_type amounts created_at =
    update_post_dispatch_counters engine event_type q.run_id amounts q.usage_confidence created_at

-- The body of the local function `insert_event`, past its early return.
unfoldable pub write_linked_event :
    Runtime
    → Engine
    → SettlementRequest
    → SettlementPayload
    → EventType
    → BudgetAmounts
    → Action Db (List BudgetEventResult)
write_linked_event rt engine q s event_type amounts = do
  sequence ← reads (λ db. next_sequence db q.run_id)
  insert_event engine (
      event_row (linked_payload rt q s event_type amounts)
        (q.idempotency_key ++ ("\0" ++ event_type_text event_type)) sequence (some s.settlement_id))
  settle_counters engine q event_type amounts s.created_at
  returns (recorded (linked_payload rt q s event_type amounts) sequence ∷ [])

-- The local function `insert_event`; the list is what it appends to `event_results`.
unfoldable pub linked_event :
    Runtime
    → Engine
    → SettlementRequest
    → SettlementPayload
    → EventType
    → BudgetAmounts
    → Bool
    → Action Db (List BudgetEventResult)
linked_event rt engine q s event_type amounts force_zero_marker =
    if is_zero amounts && not force_zero_marker
    then returns []
    else write_linked_event rt engine q s event_type amounts

-- The usage that the consume event of a settlement carries.
abbrev pub consumed_part : BudgetAmounts → BudgetAmounts
consumed_part a = record a { retry = 0; human = 0 }

-- The four events of a settlement.
unfoldable pub write_settlement_events :
    Runtime
    → Engine
    → SettlementRequest
    → SettlementPayload
    → BudgetAmounts
    → Action Db (List BudgetEventResult)
write_settlement_events rt engine q s released = do
  e1 ← linked_event rt engine q s consume (consumed_part q.actual_usage) false
  e2 ← linked_event rt engine q s retry_decrement (retry_only q.actual_usage.retry) false
  e3 ← linked_event rt engine q s human_attention (human_only q.actual_usage.human) false
  e4 ← linked_event rt engine q s release released (is_zero q.actual_usage && is_zero released)
  returns (append e1 (append e2 (append e3 e4)))

unfoldable pub settlement_row : SettlementPayload → String → BudgetAmounts → Settlement
settlement_row payload idempotency_key released = record {
  payload = payload;
  settlement_idempotency_key = idempotency_key;
  released = released;
}

-- The part for a key that no settlement has used.
unfoldable pub fresh_settlement :
    Runtime → Engine → SettlementRequest → SettlementAdmission → Action Db BudgetSettlementResult
fresh_settlement rt engine q a = do
  reads (λ db. reject_event_dedupe_collision db a.expected.settlement_dedupe_hash)
  reads (λ db. check_settlement_state db q a)
  reads (assert_budget_invariants engine)
  released ← reads (λ db. released_amounts db q)
  insert_settlement engine (settlement_row a.expected q.idempotency_key released)
  events ← write_settlement_events rt engine q a.expected released
  reads (assert_budget_invariants engine)
  returns (record {
    settlement_id = a.expected.settlement_id;
    events = events;
    released = released;
    replayed = false;
  })

-- The events of a settlement, oldest first: within a run the order of insertion is that of
-- `event_sequence`.
unfoldable pub linked_results : String → List BudgetEvent → List BudgetEventResult
linked_results settlement_id [] = []
linked_results settlement_id (e ∷ es) = append (linked_results settlement_id es) (
    if is_text e.settlement_id settlement_id
    then (record {
      budget_event_id = e.payload.budget_event_id;
      event_sequence = e.event_sequence;
      replayed = true;
    }
        ∷ [])
    else [])

unfoldable pub replay_settlement :
    Runtime
    → Engine
    → SettlementRequest
    → SettlementAdmission
    → Option Settlement
    → Action Db BudgetSettlementResult
replay_settlement rt engine q a none = fresh_settlement rt engine q a
replay_settlement rt engine q a (some s) = do
  reads (assert_budget_invariants engine)
  events ← reads (λ db. ok (linked_results a.expected.settlement_id db.budget_events))
  released ← reads (λ db. budget_amounts (λ d. pos (getattr s.released d)))
  returns (record {
    settlement_id = a.expected.settlement_id;
    events = events;
    released = released;
    replayed = true;
  })

unfoldable pub settle_budget_on_connection :
    Runtime → Engine → Bool → SettlementRequest → Action Db BudgetSettlementResult
settle_budget_on_connection rt engine schema_verified request = do
  q ← reads (λ db. checked_settlement rt request)
  a ← reads (λ db. admit_settlement rt engine schema_verified db q)
  replay ← reads (λ db. existing_settlement db q.idempotency_key a.expected)
  replay_settlement rt engine q a replay

unfoldable pub settle_budget :
    Runtime → Engine → SettlementRequest → Action Db BudgetSettlementResult
settle_budget rt engine q = transact (settle_budget_on_connection rt engine false q)
