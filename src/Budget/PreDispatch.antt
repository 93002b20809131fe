-- ===== src/Budget/PreDispatch.antt =====
-- `record_budget_event`: reservations and releases before a spawn is dispatched
-- (src/agentic_os/budgets.py, lines 609 to 827).
use openclaw_agentic_os.Prelude.{ℕ, String, Option, none, some, false}
use openclaw_agentic_os.Transaction.{Action, returns, reads, transact, ◌>>=◌, ◌>>◌}
use openclaw_agentic_os.Budget.Tables.{Db, Runtime, EventPayload, BudgetEvent, reserve, release}
use openclaw_agentic_os.Budget.Ledger.{Engine, assert_budget_invariants}
use openclaw_agentic_os.Budget.Counters.{update_counters}
use openclaw_agentic_os.Budget.Events.{
  BudgetEventResult, existing_event, reject_settlement_dedupe_collision, next_sequence,
  insert_event,
}
use openclaw_agentic_os.Budget.PreAdmission.{
  EventRequest, Admission, checked_request, admit_event, check_pre_dispatch, check_reservation,
}

-- The row that is inserted.
abbrev pub event_row : EventPayload → String → ℕ → Option String → BudgetEvent
event_row payload idempotency_key sequence settlement_id = record {
  payload = payload;
  event_idempotency_key = idempotency_key;
  event_sequence = sequence;
  settlement_id = settlement_id;
}

abbrev pub recorded : EventPayload → ℕ → BudgetEventResult
recorded payload sequence = record {
  budget_event_id = payload.budget_event_id;
  event_sequence = sequence;
  replayed = false;
}

-- The insert, the counters, the invariants.
unfoldable pub write_event : Engine → EventRequest → EventPayload → ℕ → Action Db BudgetEventResult
write_event engine q expected sequence = do
  insert_event engine (event_row expected q.idempotency_key sequence none)
  update_counters engine q.event_type q.run_id q.amounts q.usage_confidence expected.created_at
  reads (assert_budget_invariants engine)
  returns (recorded expected sequence)

-- The part for a key that no event has used.
unfoldable pub fresh_event : Engine → EventRequest → Admission → Action Db BudgetEventResult
fresh_event engine q a = do
  reads (λ db. reject_settlement_dedupe_collision db a.expected.event_dedupe_hash)
  reads (λ db. check_pre_dispatch db q a)
  reads (λ db. check_reservation db q)
  sequence ← reads (λ db. next_sequence db q.run_id)
  write_event engine q a.expected sequence

unfoldable pub replay_or :
    Engine → Action Db BudgetEventResult → Option BudgetEventResult → Action Db BudgetEventResult
replay_or engine fresh none = fresh
replay_or engine fresh (some replay) = do reads (assert_budget_invariants engine); returns replay

-- The body of the transaction.
unfoldable pub event_body : Runtime → Engine → EventRequest → Action Db BudgetEventResult
event_body rt engine q = do
  a ← reads (λ db. admit_event rt engine db q)
  replay ← reads (λ db. existing_event db q.idempotency_key a.expected)
  replay_or engine (fresh_event engine q a) replay

unfoldable pub record_budget_event : Runtime → Engine → EventRequest → Action Db BudgetEventResult
record_budget_event rt engine request = do
  q ← reads (λ db. checked_request rt request)
  transact (event_body rt engine q)

unfoldable pub reserve_budget : Runtime → Engine → EventRequest → Action Db BudgetEventResult
reserve_budget rt engine q = record_budget_event rt engine (record q { event_type = reserve })

unfoldable pub release_budget : Runtime → Engine → EventRequest → Action Db BudgetEventResult
release_budget rt engine q = record_budget_event rt engine (record q { event_type = release })
