-- ===== src/Scenarios/Runs.antt =====
-- The life of a spawn's budget: reserve, replay, release, consume, settle.
use openclaw_agentic_os.Prelude.{false}
use openclaw_agentic_os.Result.{Result}
use openclaw_agentic_os.Budget.Amounts.{BudgetAmounts}
use openclaw_agentic_os.Budget.Tables.{Db, reserve, release, consume}
use openclaw_agentic_os.Budget.Events.{BudgetEventResult}
use openclaw_agentic_os.Budget.PreDispatch.{record_budget_event}
use openclaw_agentic_os.Budget.PostDispatch.{record_post_dispatch_event}
use openclaw_agentic_os.Budget.SettlementWrites.{
  settle_budget_on_connection, BudgetSettlementResult,
}
use openclaw_agentic_os.Scenarios.Fixture.{
  plain, permissive, amounts, fresh_db, complete, event_request, post_request, settlement_request,
}

abbrev pub reserved_amounts : BudgetAmounts
reserved_amounts = amounts 60 1000 2000 40 3 1

abbrev pub after_reserve : Result BudgetEventResult × Db
after_reserve =
    record_budget_event plain permissive (event_request reserve "k1" reserved_amounts) fresh_db

abbrev pub after_release : Result BudgetEventResult × Db
after_release =
    record_budget_event plain permissive (event_request release "k2" (amounts 10 0 0 5 0 0))
      after_reserve.1

abbrev pub after_consume : Result BudgetEventResult × Db
after_consume =
    record_post_dispatch_event plain permissive
      (post_request consume "k3" (amounts 20 500 500 10 0 0)) (complete after_release.1)

abbrev pub after_settlement : Result BudgetSettlementResult × Db
after_settlement =
    settle_budget_on_connection plain permissive false
      (settlement_request "k4" (amounts 5 100 0 7 1 0)) after_consume.1

-- A usage event on a spawn whose settlement stands in the ledger.
abbrev pub after_late_consume : Result BudgetEventResult × Db
after_late_consume =
    record_post_dispatch_event plain permissive
      (post_request consume "k3" (amounts 20 500 500 10 0 0)) after_settlement.1
