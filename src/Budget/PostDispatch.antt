-- ===== src/Budget/PostDispatch.antt =====
-- `record_post_dispatch_event`: usage, retries and human attention of an accepted spawn
-- (src/agentic_os/budgets.py, lines 938 to 1219).
use openclaw_agentic_os.Prelude.{ℕ, none}
use openclaw_agentic_os.Transaction.{Action, returns, reads, transact, ◌>>=◌, ◌>>◌}
use openclaw_agentic_os.Budget.Tables.{
  Db, Runtime, EventPayload, consume, retry_decrement, retry_restore, human_attention,
}
use openclaw_agentic_os.Budget.Ledger.{Engine, assert_budget_invariants}
use openclaw_agentic_os.Budget.Counters.{update_post_dispatch_counters}
use openclaw_agentic_os.Budget.Events.{
  BudgetEventResult, existing_event, reject_settlement_dedupe_collision,
  reject_event_after_final_settlement, next_sequence, insert_event,
}
use openclaw_agentic_os.Budget.PreDispatch.{event_row, recorded, replay_or}
use openclaw_agentic_os.Budget.PostAdmission.{
  PostEventRequest, PostAdmission, checked_post_request, admit_post_event, check_usage_known,
  check_post_run_state, check_outstanding,
}

unfoldable pub write_post_event :
    Engine → PostEventRequest → EventPayload → ℕ → Action Db BudgetEventResult
write_post_event engine q expected sequence = do
  insert_event engine (event_row expected q.idempotency_key sequence none)
  update_post_dispatch_counters engine q.event_type q.run_id q.amounts q.usage_confidence
      expected.created_at
  reads (assert_budget_invariants engine)
  returns (recorded expected sequence)

unfoldable pub fresh_post_event :
    Engine → PostEventRequest → PostAdmission → Action Db BudgetEventResult
fresh_post_event engine q a = do
  reads (λ db. reject_settlement_dedupe_collision db a.expected.event_dedupe_hash)
  reads (λ db. reject_event_after_final_settlement db q.run_id q.transition_id q.spawn_request_id)
  reads (λ db. check_usage_known db q.run_id)
  reads (λ db. check_post_run_state a)
  reads (assert_budget_invariants engine)
  reads (λ db. check_outstanding db q)
  sequence ← reads (λ db. next_sequence db q.run_id)
  write_post_event engine q a.expected sequence

unfoldable pub post_event_body : Runtime → Engine → PostEventRequest → Action Db BudgetEventResult
post_event_body rt engine q = do
  a ← reads (λ db. admit_post_event rt engine db q)
  replay ← reads (λ db. existing_event db q.idempotency_key a.expected)
  replay_or engine (fresh_post_event engine q a) replay

unfoldable pub record_post_dispatch_event :
    Runtime → Engine → PostEventRequest → Action Db BudgetEventResult
record_post_dispatch_event rt engine request = do
  q ← reads (λ db. checked_post_request rt request)
  transact (post_event_body rt engine q)

unfoldable pub consume_budget : Runtime → Engine → PostEventRequest → Action Db BudgetEventResult
consume_budget rt engine q =
    record_post_dispatch_event rt engine (record q { event_type = consume })

unfoldable pub decrement_retry_budget :
    Runtime → Engine → PostEventRequest → Action Db BudgetEventResult
decrement_retry_budget rt engine q =
    record_post_dispatch_event rt engine (record q { event_type = retry_decrement })

unfoldable pub restore_retry_budget :
    Runtime → Engine → PostEventRequest → Action Db BudgetEventResult
restore_retry_budget rt engine q =
    record_post_dispatch_event rt engine (record q { event_type = retry_restore })

unfoldable pub consume_human_attention :
    Runtime → Engine → PostEventRequest → Action Db BudgetEventResult
consume_human_attention rt engine q =
    record_post_dispatch_event rt engine (record q { event_type = human_attention })
