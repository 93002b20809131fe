-- ===== src/Budget/Counters.antt =====
-- The counter cache `run_budgets` (src/agentic_os/budgets.py, lines 548 to 606 and 830 to 935). An
-- UPDATE whose WHERE fits no row has rowcount 0; the key of the table makes any other count 1.
use openclaw_agentic_os.Prelude.{
  ◌+◌, ◌-◌, String, Bool, true, ◌&&◌, Option, none, some, leb, put, ◌≡◌, refl,
}
use openclaw_agentic_os.Result.{ok, err, budget_conflict, budget_exceeded, require, require-ok}
use openclaw_agentic_os.Transaction.{Action, reads, ◌>>◌, reads-ok, write_if, write_if-ok}
use openclaw_agentic_os.Budget.Amounts.{BudgetAmounts, getattr, amounts_of, all_fields}
use openclaw_agentic_os.Budget.Tables.{
  Db, RunBudget, EventType, Confidence, reserve, consume, retry_decrement, retry_restore, known,
  estimated, unknown,
}
use openclaw_agentic_os.Budget.Ledger.{Engine}

-- CASE WHEN usage_confidence='known' AND ?='estimated' THEN 'estimated' ELSE usage_confidence END
abbrev pub widen : Confidence → Confidence → Confidence
widen known estimated = estimated
widen current _ = current

-- The CASE of a consume event: an unknown usage makes the budget's usage unknown.
abbrev pub poison : Confidence → Confidence → Confidence
poison current unknown = unknown
poison current event = widen current event

-- The WHERE of an UPDATE, without its key.
unfoldable pub counters_admit : EventType → RunBudget → BudgetAmounts → Bool
unfolding all_fields
counters_admit reserve rb v =
    all_fields
      (λ d. leb (getattr rb.reserved d + getattr rb.consumed d + getattr v d) (getattr rb.budget d))
counters_admit _ rb v = all_fields (λ d. leb (getattr v d) (getattr rb.reserved d))

-- The SET of an UPDATE.
unfoldable pub counters_set :
    EventType → RunBudget → BudgetAmounts → Confidence → String → RunBudget
counters_set reserve rb v usage_confidence updated_at = record rb {
  reserved = amounts_of (λ d. getattr rb.reserved d + getattr v d);
  usage_confidence = widen rb.usage_confidence usage_confidence;
  updated_at = updated_at;
}
counters_set _ rb v usage_confidence updated_at = record rb {
  reserved = amounts_of (λ d. getattr rb.reserved d - getattr v d);
  usage_confidence = widen rb.usage_confidence usage_confidence;
  updated_at = updated_at;
}

unfoldable pub post_dispatch_admit : EventType → RunBudget → BudgetAmounts → Bool
post_dispatch_admit consume rb v =
    leb v.time rb.reserved.time
    && leb v.input rb.reserved.input
    && leb v.output rb.reserved.output
    && leb v.cost rb.reserved.cost
    && leb (rb.consumed.time + v.time) rb.budget.time
    && leb (rb.consumed.input + v.input) rb.budget.input
    && leb (rb.consumed.output + v.output) rb.budget.output
    && leb (rb.consumed.cost + v.cost) rb.budget.cost
post_dispatch_admit retry_decrement rb v =
    leb v.retry rb.reserved.retry && leb (rb.consumed.retry + v.retry) rb.budget.retry
post_dispatch_admit retry_restore rb v =
    leb v.retry rb.consumed.retry && leb (rb.reserved.retry + v.retry) rb.budget.retry
post_dispatch_admit _ rb v =
    leb v.human rb.reserved.human && leb (rb.consumed.human + v.human) rb.budget.human

unfoldable pub post_dispatch_set :
    EventType → RunBudget → BudgetAmounts → Confidence → String → RunBudget
post_dispatch_set consume rb v usage_confidence updated_at = record rb {
  reserved = record rb.reserved {
    time = rb.reserved.time - v.time;
    input = rb.reserved.input - v.input;
    output = rb.reserved.output - v.output;
    cost = rb.reserved.cost - v.cost;
  };
  consumed = record rb.consumed {
    time = rb.consumed.time + v.time;
    input = rb.consumed.input + v.input;
    output = rb.consumed.output + v.output;
    cost = rb.consumed.cost + v.cost;
  };
  usage_confidence = poison rb.usage_confidence usage_confidence;
  updated_at = updated_at;
}
post_dispatch_set retry_decrement rb v usage_confidence updated_at = record rb {
  reserved = record rb.reserved { retry = rb.reserved.retry - v.retry };
  consumed = record rb.consumed { retry = rb.consumed.retry + v.retry };
  usage_confidence = widen rb.usage_confidence usage_confidence;
  updated_at = updated_at;
}
post_dispatch_set retry_restore rb v usage_confidence updated_at = record rb {
  reserved = record rb.reserved { retry = rb.reserved.retry + v.retry };
  consumed = record rb.consumed { retry = rb.consumed.retry - v.retry };
  usage_confidence = widen rb.usage_confidence usage_confidence;
  updated_at = updated_at;
}
post_dispatch_set _ rb v usage_confidence updated_at = record rb {
  reserved = record rb.reserved { human = rb.reserved.human - v.human };
  consumed = record rb.consumed { human = rb.consumed.human + v.human };
  usage_confidence = widen rb.usage_confidence usage_confidence;
  updated_at = updated_at;
}

-- The database with the row of `run_id` replaced.
abbrev pub with_row : Db → String → RunBudget → Db
with_row db run_id rb = record db { run_budgets = put run_id rb db.run_budgets }

-- The UPDATE on the row of `run_id`, if it is there and fits, and the test of `cursor.rowcount`.
write_row :
    Engine
    → String
    → (RunBudget → Bool)
    → (RunBudget → RunBudget)
    → Option RunBudget
    → Action Db Unit
unfolding write_if
write_row engine run_id admits sets none db =
    (err (budget_exceeded "exceeds the selected budget or outstanding reservation"), db)
write_row engine run_id admits sets (some rb) db =
    (reads (λ _.
          require (admits rb)
            (budget_exceeded "exceeds the selected budget or outstanding reservation"))
        >> write_if (engine.admits_budget db run_id (sets rb))
            (budget_conflict "budget event violates ledger contract")
            (with_row db run_id (sets rb)))
      db

unfoldable pub update_counters :
    Engine → EventType → String → BudgetAmounts → Confidence → String → Action Db Unit
unfolding write_row counters_admit counters_set
update_counters engine event_type run_id v usage_confidence updated_at db =
    write_row engine run_id (λ rb. counters_admit event_type rb v)
      (λ rb. counters_set event_type rb v usage_confidence updated_at) (db.run_budgets run_id) db

unfoldable pub update_post_dispatch_counters :
    Engine → EventType → String → BudgetAmounts → Confidence → String → Action Db Unit
unfolding write_row post_dispatch_admit post_dispatch_set
update_post_dispatch_counters engine event_type run_id v usage_confidence updated_at db =
    write_row engine run_id (λ rb. post_dispatch_admit event_type rb v)
      (λ rb. post_dispatch_set event_type rb v usage_confidence updated_at) (db.run_budgets run_id)
      db

write_row-ok :
    (engine : Engine) (run_id : String) (admits : RunBudget → Bool) (sets : RunBudget → RunBudget)
    (row : Option RunBudget) (db db' : Db) {u : Unit {0}}
    → write_row engine run_id admits sets row db ≡ (ok u, db')
    → (rb : RunBudget) × (row ≡ some rb) × (admits rb ≡ true) × (db' ≡ with_row db run_id (sets rb))
unfolding write_row
write_row-ok engine run_id admits sets none db db' h = cc
write_row-ok engine run_id admits sets (some rb) db db' h =
    let (u, fits, wrote) = reads-ok _ _ db h in
    (rb, refl, require-ok _ _ fits, (write_if-ok _ _ _ db db' wrote).1)

-- What an UPDATE that did not raise has found and written.
pub update_counters-ok :
    (engine : Engine) (event_type : EventType) (run_id : String) (v : BudgetAmounts)
    (c : Confidence) (at : String) (db db' : Db) {u : Unit {0}}
    → update_counters engine event_type run_id v c at db ≡ (ok u, db')
    → (rb : RunBudget) × (db.run_budgets run_id ≡ some rb)
      × (counters_admit event_type rb v ≡ true)
      × (db' ≡ with_row db run_id (counters_set event_type rb v c at))
unfolding update_counters
update_counters-ok engine event_type run_id v c at db db' h =
    write_row-ok engine run_id _ _ (db.run_budgets run_id) db db' h

pub update_post_dispatch_counters-ok :
    (engine : Engine) (event_type : EventType) (run_id : String) (v : BudgetAmounts)
    (c : Confidence) (at : String) (db db' : Db) {u : Unit {0}}
    → update_post_dispatch_counters engine event_type run_id v c at db ≡ (ok u, db')
    → (rb : RunBudget) × (db.run_budgets run_id ≡ some rb)
      × (post_dispatch_admit event_type rb v ≡ true)
      × (db' ≡ with_row db run_id (post_dispatch_set event_type rb v c at))
unfolding update_post_dispatch_counters
update_post_dispatch_counters-ok engine event_type run_id v c at db db' h =
    write_row-ok engine run_id _ _ (db.run_budgets run_id) db db' h
