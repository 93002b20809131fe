-- ===== src/Scenarios/Steps.antt =====
-- What the runs of Scenarios/Runs.antt compute with.
use mathlib.Core.Option
use openclaw_agentic_os.Prelude
use openclaw_agentic_os.Result
use openclaw_agentic_os.Transaction
use openclaw_agentic_os.Budget.Amounts
use openclaw_agentic_os.Budget.Tables
use openclaw_agentic_os.Budget.Identity
use openclaw_agentic_os.Budget.Selection
use openclaw_agentic_os.Budget.Ledger
use openclaw_agentic_os.Budget.Counters
use openclaw_agentic_os.Budget.Events
use openclaw_agentic_os.Budget.PreAdmission
use openclaw_agentic_os.Budget.PreDispatch
use openclaw_agentic_os.Budget.PostAdmission
use openclaw_agentic_os.Budget.PostDispatch
use openclaw_agentic_os.Budget.SettlementAdmission
use openclaw_agentic_os.Budget.SettlementWrites

-- Reservations and releases.
unfoldable pub event_steps : Unit {0}
unfolding Option.bind Transaction.◌>>=◌ Result.◌>>=◌ Transaction.transact Transaction.write_if
    Prelude.String-discrete Prelude.same Prelude.◌=ₜ◌ Prelude.one_of Prelude.is_text
    Prelude.is_other_text Prelude.any Prelude.find Prelude.put Prelude.ℕ_discrete
    Identity.required_text Identity.event_id Identity.dedupe_hash Identity.created_at_of
    Identity.trusted_clock Identity.trusted_created_at Selection.selected_row
    Selection.selected_binding Selection.rounded_up Selection.required_cost
    Selection.zero_policy_hash Selection.Selection-discrete Tables.Confidence-discrete
    Tables.EventType-discrete Tables.CostBinding-discrete Tables.EventPayload-discrete Amounts.sub_ℕ
    Amounts.check_amount Amounts.budget_amounts Amounts.is_zero Amounts.BudgetAmounts-discrete
    Amounts.all_fields Ledger.total Ledger.net Ledger.of_spawn Ledger.or_invalid
    Ledger.spawn_outstanding Ledger.assert_budget_invariants Counters.counters_admit
    Counters.counters_set Counters.update_counters Events.existing_event
    Events.reject_settlement_dedupe_collision Events.last_sequence Events.next_sequence
    Events.insert_event PreAdmission.zero_token_cost PreAdmission.same_test
    PreAdmission.checked_request PreAdmission.spawn_identity_row PreAdmission.admit_event
    PreAdmission.has_spawn_intent PreAdmission.check_pre_dispatch PreAdmission.check_release
    PreAdmission.check_reservation PreDispatch.write_event PreDispatch.fresh_event
    PreDispatch.replay_or PreDispatch.event_body PreDispatch.record_budget_event
event_steps = tt

-- Post-dispatch events.
unfoldable pub post_steps : Unit {0}
unfolding event_steps PostAdmission.check_post_amounts PostAdmission.checked_post_request
    PostAdmission.session_proof PostAdmission.or_unproved PostAdmission.fresh_clock
    PostAdmission.check_usage_price PostAdmission.admit_post_event PostAdmission.has_unknown_event
    PostAdmission.check_usage_known PostAdmission.check_post_run_state PostAdmission.check_consume
    PostAdmission.check_against_outstanding PostAdmission.check_outstanding
    PostDispatch.write_post_event PostDispatch.fresh_post_event PostDispatch.post_event_body
    PostDispatch.record_post_dispatch_event Counters.post_dispatch_admit Counters.post_dispatch_set
    Counters.update_post_dispatch_counters Events.reject_event_after_final_settlement Events.settles
post_steps = tt

-- Settlements.
unfoldable pub settlement_steps : Unit {0}
unfolding post_steps Events.reject_event_dedupe_collision Events.insert_settlement
    SettlementAdmission.checked_settlement SettlementAdmission.admit_settlement
    SettlementAdmission.existing_settlement SettlementAdmission.check_settlement_state
    SettlementAdmission.released_amounts Tables.SettlementPayload-discrete
    SettlementWrites.event_type_text SettlementWrites.linked_payload
    SettlementWrites.settle_counters SettlementWrites.write_linked_event
    SettlementWrites.linked_event SettlementWrites.write_settlement_events
    SettlementWrites.settlement_row SettlementWrites.fresh_settlement
    SettlementWrites.linked_results SettlementWrites.replay_settlement
    SettlementWrites.settle_budget_on_connection SettlementWrites.settle_budget
settlement_steps = tt
