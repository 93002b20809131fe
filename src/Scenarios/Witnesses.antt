-- ===== src/Scenarios/Witnesses.antt =====
-- The theorems of the ledger at the runs of Scenarios/Runs.antt.
use Prim.Native.Nat.{◌*◌}
use openclaw_agentic_os.Prelude.{
  ℕ, String, ◌+◌, ◌≤◌, ◌<◌, ◌≡◌, refl, true, false, some, inl, [], ◌∷◌,
}
use openclaw_agentic_os.Result.{ok}
use openclaw_agentic_os.Budget.Amounts.{
  Dimension, BudgetAmounts, getattr, no_amounts, limits, cost_microusd,
}
use openclaw_agentic_os.Budget.Tables.{reserve, release, consume}
use openclaw_agentic_os.Budget.Ledger.{spawn_outstanding}
use openclaw_agentic_os.Budget.Events.{
  BudgetEventResult, last_sequence, max_event_sequence, existing_event,
}
use openclaw_agentic_os.Budget.PreAdmission.{EventRequest, checked_request}
use openclaw_agentic_os.Budget.PostAdmission.{
  PostEventRequest, PostAdmission, checked_post_request, admit_post_event,
}
use openclaw_agentic_os.Budget.SettlementAdmission.{SettlementRequest, checked_settlement}
use openclaw_agentic_os.Budget.Reconcile.{IsSound}
use openclaw_agentic_os.Budget.PreDispatch.{record_budget_event}
use openclaw_agentic_os.Budget.PostDispatch.{record_post_dispatch_event}
use openclaw_agentic_os.Budget.SettlementWrites.{
  settle_budget, settle_budget_on_connection, BudgetSettlementResult,
}
use openclaw_agentic_os.Budget.SettlementLaws.{settle_budget-IsSound, settlement_drains}
use openclaw_agentic_os.Budget.Soundness.{
  record_budget_event-IsSound, record_post_dispatch_event-IsSound,
}
use openclaw_agentic_os.Budget.Funding.{release_keeps_funded, consume_keeps_funded, Remains}
use openclaw_agentic_os.Budget.Price.{required_cost_least}
use openclaw_agentic_os.Budget.Idempotence.{record_budget_event-idempotent}
use openclaw_agentic_os.Budget.Refusals.{closed_ledger_only_replays, sequence_advances}
use openclaw_agentic_os.Scenarios.Fixture.{
  plain, permissive, amounts, selection, fresh_db, complete, event_request, post_request,
  settlement_request, fresh_db-IsSound, complete-IsSound,
}
use openclaw_agentic_os.Scenarios.Runs.{
  reserved_amounts, after_reserve, after_release, after_consume, after_settlement,
  after_late_consume,
}
use openclaw_agentic_os.Scenarios.Steps.{event_steps, post_steps, settlement_steps}

abbrev reserve_request : EventRequest
reserve_request = event_request reserve "k1" reserved_amounts

abbrev release_request : EventRequest
release_request = event_request release "k2" (amounts 10 0 0 5 0 0)

abbrev consume_request : PostEventRequest
consume_request = post_request consume "k3" (amounts 20 500 500 10 0 0)

abbrev final_request : SettlementRequest
final_request = settlement_request "k4" (amounts 5 100 0 7 1 0)

abbrev result_of : String → ℕ → BudgetEventResult
result_of key n = record { budget_event_id = key; event_sequence = n; replayed = false }

abbrev k1_result : BudgetEventResult
k1_result = result_of "budget-agentic-os-budget-event\0k1" 1

abbrev k2_result : BudgetEventResult
k2_result = result_of "budget-agentic-os-budget-event\0k2" 2

abbrev k3_result : BudgetEventResult
k3_result = result_of "budget-agentic-os-budget-event\0k3" 3

abbrev k4_result : BudgetSettlementResult
k4_result = record {
  settlement_id = "settlement-agentic-os-budget-settlement\0k4";
  events =
      result_of "budget-agentic-os-budget-event\0k4\0consume" 4
      ∷ result_of "budget-agentic-os-budget-event\0k4\0retry_decrement" 5
      ∷ result_of "budget-agentic-os-budget-event\0k4\0release" 6
      ∷ [];
  released = amounts 25 400 1500 18 2 1;
  replayed = false;
}

reserve_runs :
    record_budget_event plain permissive reserve_request fresh_db ≡ (ok k1_result, after_reserve.1)
unfolding event_steps
reserve_runs = refl

release_runs :
    record_budget_event plain permissive release_request after_reserve.1
    ≡ (ok k2_result, after_release.1)
unfolding event_steps
release_runs = refl

consume_runs :
    record_post_dispatch_event plain permissive consume_request (complete after_release.1)
    ≡ (ok k3_result, after_consume.1)
unfolding post_steps
consume_runs = refl

settlement_runs :
    settle_budget_on_connection plain permissive false final_request after_consume.1
    ≡ (ok k4_result, after_settlement.1)
unfolding settlement_steps
settlement_runs = refl

late_consume_runs :
    record_post_dispatch_event plain permissive consume_request after_settlement.1
    ≡ (ok (record k3_result { replayed = true }), after_late_consume.1)
unfolding settlement_steps
late_consume_runs = refl

reserved_IsSound : IsSound after_reserve.1
reserved_IsSound =
    record_budget_event-IsSound plain permissive reserve_request fresh_db fresh_db-IsSound

released_IsSound : IsSound (complete after_release.1)
released_IsSound =
    complete-IsSound after_release.1 (
      record_budget_event-IsSound plain permissive release_request after_reserve.1 reserved_IsSound)

record_budget_event-IsSound_example :
    IsSound (record_budget_event plain permissive release_request after_reserve.1).1
record_budget_event-IsSound_example =
    record_budget_event-IsSound plain permissive release_request after_reserve.1 reserved_IsSound

record_post_dispatch_event-IsSound_example :
    IsSound
      (record_post_dispatch_event plain permissive consume_request (complete after_release.1)).1
record_post_dispatch_event-IsSound_example =
    record_post_dispatch_event-IsSound plain permissive consume_request (complete after_release.1)
      released_IsSound

consumed_IsSound : IsSound after_consume.1
consumed_IsSound =
    record_post_dispatch_event-IsSound plain permissive consume_request (complete after_release.1)
      released_IsSound

settle_budget-IsSound_example :
    IsSound (settle_budget plain permissive final_request after_consume.1).1
settle_budget-IsSound_example =
    settle_budget-IsSound plain permissive final_request after_consume.1 consumed_IsSound

settlement_drains_example :
    (q : SettlementRequest) × (o : BudgetAmounts) × (checked_settlement plain final_request ≡ ok q)
    × (spawn_outstanding after_consume.1 q.spawn_request_id q.run_id q.transition_id q.selection
        ≡ ok o)
    × ((d : Dimension) → getattr o d ≡ getattr q.actual_usage d + getattr k4_result.released d)
    × (spawn_outstanding after_settlement.1 q.spawn_request_id q.run_id q.transition_id q.selection
        ≡ ok no_amounts)
settlement_drains_example =
    settlement_drains plain permissive final_request after_consume.1 k4_result after_settlement.1
      settlement_runs refl

release_keeps_funded_example :
    (q : EventRequest) × (checked_request plain release_request ≡ ok q)
    × Remains q.spawn_request_id q.run_id q.transition_id q.selection q.amounts after_reserve.1
        after_release.1
release_keeps_funded_example =
    release_keeps_funded plain permissive release_request after_reserve.1 k2_result after_release.1
      refl release_runs refl

consume_keeps_funded_example :
    (q : PostEventRequest) × (checked_post_request plain consume_request ≡ ok q)
    × Remains q.spawn_request_id q.run_id q.transition_id q.selection q.amounts
        (complete after_release.1)
        after_consume.1
consume_keeps_funded_example =
    consume_keeps_funded plain permissive consume_request (complete after_release.1) k3_result
      after_consume.1 refl consume_runs refl

consume_request_checked : checked_post_request plain consume_request ≡ ok consume_request
unfolding post_steps
consume_request_checked = refl

closed_ledger_only_replays_example :
    (after_late_consume.1 ≡ after_settlement.1)
    × (a : PostAdmission) × (admit_post_event plain permissive after_settlement.1 consume_request
        ≡ ok a)
    × (existing_event after_settlement.1 "k3" a.expected
        ≡ ok (some (record k3_result { replayed = true })))
unfolding settlement_steps
closed_ledger_only_replays_example =
    closed_ledger_only_replays plain permissive consume_request consume_request after_settlement.1
      (record k3_result { replayed = true }) after_late_consume.1 consume_request_checked (inl refl)
      late_consume_runs

sequence_advances_example :
    (q : EventRequest) × (checked_request plain release_request ≡ ok q)
    × (2 ≡ last_sequence q.run_id after_reserve.1.budget_events + 1)
    × (2 ≤ max_event_sequence)
    × (last_sequence q.run_id after_release.1.budget_events ≡ 2)
sequence_advances_example =
    sequence_advances plain permissive release_request after_reserve.1 k2_result after_release.1
      release_runs refl

record_budget_event-idempotent_example :
    record_budget_event plain permissive release_request after_release.1
    ≡ (ok (record k2_result { replayed = true }), after_release.1)
record_budget_event-idempotent_example =
    record_budget_event-idempotent plain permissive release_request after_reserve.1 after_release.1
      k2_result release_runs refl refl

required_cost_least_example :
    (p : ℕ) × (q : ℕ) × (x : ℕ) × (y : ℕ) × (selection.input_cost_microusd_per_million ≡ some p)
    × (selection.output_cost_microusd_per_million ≡ some q)
    × (9 ≡ x + y)
    × (1_500_000 * p ≤ x * 1_000_000)
    × (700_001 * q ≤ y * 1_000_000)
    × (x * 1_000_000 < 1_500_000 * p + 1_000_000)
    × (y * 1_000_000 < 700_001 * q + 1_000_000)
    × (9 ≤ limits cost_microusd)
unfolding event_steps
required_cost_least_example =
    required_cost_least selection (amounts 1 1_500_000 700_001 0 0 0) 9 refl
