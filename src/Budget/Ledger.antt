-- ===== src/Budget/Ledger.antt =====
-- The sums that the ledger's queries take over `budget_events`, and the invariants that every
-- mutation re-checks (src/agentic_os/budgets.py, lines 322 to 455).
use openclaw_agentic_os.Prelude.{
  ℕ, ◌+◌, String, Bool, true, false, not, ◌&&◌, ◌||◌, Option, none, some, List, [], ◌∷◌, leb, ltb,
  same, ◌=ₜ◌, is_text, one_of, any, if◌then◌else◌,
}
use openclaw_agentic_os.Result.{Result, ok, err, budget_error, ◌>>◌, require}
use openclaw_agentic_os.Budget.Amounts.{
  Dimension, time_seconds, input_tokens, output_tokens, cost_microusd, retry_units,
  human_attention_units, BudgetAmounts, getattr, ℤ, sub_ℕ, budget_amounts, is_zero, all_fields,
}
use openclaw_agentic_os.Budget.Tables.{
  Db, BudgetEvent, Settlement, RunBudget, Run, SpawnRequest, BudgetSelection, EventType, Confidence,
  reserve, release, consume, retry_decrement, retry_restore, human_attention, unknown,
  CostBinding-discrete,
}

-- What SQLite and the migrations decide: whether `_verify_schema_identity` accepts the database,
-- whether every query of `_BUDGET_INVARIANT_QUERIES` returns no row, and whether the constraints and
-- triggers of the schema let a row be written.
pub record Engine : Type 0 where
  pub schema_verified : Db → Bool
  pub contracts_hold : Db → Bool
  pub admits_event : Db → BudgetEvent → Bool
  pub admits_settlement : Db → Settlement → Bool
  pub admits_budget : Db → String → RunBudget → Bool

-- `CASE WHEN … THEN +amount`, for the reservation of each dimension.
abbrev pub adds : EventType → Dimension → Bool
adds reserve d = true
adds retry_restore retry_units = true
adds _ _ = false

-- `CASE WHEN … THEN -amount`, for the reservation of each dimension.
abbrev pub takes : EventType → Dimension → Bool
takes release d = true
takes consume time_seconds = true
takes consume input_tokens = true
takes consume output_tokens = true
takes consume cost_microusd = true
takes retry_decrement retry_units = true
takes human_attention human_attention_units = true
takes _ _ = false

-- The amount that an event puts into a sum whose CASE has the test `counts`.
abbrev pub share : (EventType → Dimension → Bool) → Dimension → BudgetEvent → ℕ
share counts d e = if counts e.payload.event_type d then getattr e.payload.amounts d else 0

-- A sum over the events that a WHERE or a window selects.
unfoldable pub total :
    (EventType → Dimension → Bool) → Dimension → (BudgetEvent → Bool) → List BudgetEvent → ℕ
total counts d selects [] = 0
total counts d selects (e ∷ es) =
    (if selects e then share counts d e else 0) + total counts d selects es

-- SUM(CASE …) with both signs.
unfoldable pub net : (BudgetEvent → Bool) → List BudgetEvent → Dimension → ℤ
net selects es d = sub_ℕ (total adds d selects es) (total takes d selects es)

abbrev pub is_human_attention : EventType → Bool
is_human_attention human_attention = true
is_human_attention _ = false

-- The WHERE of `_spawn_outstanding`.
unfoldable pub of_spawn : String → String → String → BudgetSelection → BudgetEvent → Bool
unfolding CostBinding-discrete is_text
of_spawn spawn_request_id run_id transition_id selection e =
    is_text e.payload.spawn_request_id spawn_request_id
    && (e.payload.run_id =ₜ run_id)
    && (e.payload.transition_id =ₜ transition_id)
    && (if is_human_attention e.payload.event_type
        then e.payload.cost.capability_class =ₜ selection.binding.capability_class
        else same CostBinding-discrete e.payload.cost selection.binding)

unfoldable pub or_invalid : Result BudgetAmounts → Result BudgetAmounts
or_invalid (ok a) = ok a
or_invalid (err _) = err (budget_error "spawn request has an invalid outstanding reservation")

unfoldable pub spawn_outstanding :
    Db → String → String → String → BudgetSelection → Result BudgetAmounts
unfolding or_invalid net budget_amounts
spawn_outstanding db spawn_request_id run_id transition_id selection = or_invalid (
    budget_amounts
      (net (of_spawn spawn_request_id run_id transition_id selection) db.budget_events))

abbrev pub is_unknown : Confidence → Bool
is_unknown unknown = true
is_unknown _ = false

abbrev pub is_consume : EventType → Bool
is_consume consume = true
is_consume _ = false

-- A row of the query `unknown_usage`, for an event, its run and its budget.
unknown_usage_row : BudgetEvent → Option Run → Option RunBudget → Bool
unknown_usage_row e none rb = false
unknown_usage_row e (some r) none = is_unknown e.payload.usage_confidence
unknown_usage_row e (some r) (some rb) =
    is_unknown e.payload.usage_confidence
    && (not (is_unknown rb.usage_confidence)
        || one_of r.state ("gate_passed" ∷ "release_pending" ∷ "finalized" ∷ [])
        || not (is_consume e.payload.event_type && is_zero e.payload.amounts))

spawn_row_matches : BudgetEvent → Option SpawnRequest → Bool
spawn_row_matches e none = false
spawn_row_matches e (some sr) =
    (sr.run_id =ₜ e.payload.run_id) && (sr.transition_id =ₜ e.payload.transition_id)

budget_row_matches : BudgetEvent → Option RunBudget → Bool
budget_row_matches e none = false
budget_row_matches e (some rb) =
    (e.payload.transition_id =ₜ rb.selected_reserve_transition_id)
    && same CostBinding-discrete e.payload.cost rb.selected

-- The row that the LEFT JOIN on `spawn_requests` finds; it finds none for NULL.
joined_spawn : Db → Option String → Option SpawnRequest
joined_spawn db none = none
joined_spawn db (some spawn_request_id) = db.reference.spawn_requests spawn_request_id

-- A row of the query `invalid_binding`.
invalid_binding_row : Db → BudgetEvent → Bool
unfolding CostBinding-discrete spawn_row_matches budget_row_matches joined_spawn
invalid_binding_row db e =
    not (is_human_attention e.payload.event_type)
    && not (
        spawn_row_matches e (joined_spawn db e.payload.spawn_request_id)
        && budget_row_matches e (db.run_budgets e.payload.run_id))

-- PARTITION BY takes NULL for one value.
same_partition : Option String → Option String → Bool
same_partition none none = true
same_partition (some s) (some t) = s =ₜ t
same_partition _ _ = false

-- The window of the query `invalid_spawn_prefix` at the event `last`. Sequences are unique in a
-- run, so that `budget_event_id` breaks no tie.
in_window : BudgetEvent → BudgetEvent → Bool
unfolding same_partition
in_window last e =
    (e.payload.run_id =ₜ last.payload.run_id)
    && (e.payload.transition_id =ₜ last.payload.transition_id)
    && same_partition e.payload.spawn_request_id last.payload.spawn_request_id
    && (e.payload.cost.capability_class =ₜ last.payload.cost.capability_class)
    && leb e.event_sequence last.event_sequence

abbrev pub decrements : EventType → Dimension → Bool
decrements retry_decrement retry_units = true
decrements _ _ = false

abbrev pub restores : EventType → Dimension → Bool
restores retry_restore retry_units = true
restores _ _ = false

-- A row of that query: a prefix at which one of the seven sums is negative.
negative_prefix : List BudgetEvent → BudgetEvent → Bool
unfolding in_window total all_fields
negative_prefix es last =
    not
      (all_fields (λ d. leb (total takes d (in_window last) es) (total adds d (in_window last) es)))
    || ltb (total decrements retry_units (in_window last) es)
        (total restores retry_units (in_window last) es)

unfoldable pub assert_budget_invariants : Engine → Db → Result (Unit {0})
unfolding unknown_usage_row invalid_binding_row negative_prefix one_of any is_zero
assert_budget_invariants engine db = do
  require
      (not (
        any
          (λ e.
            unknown_usage_row e (db.reference.runs e.payload.run_id)
              (db.run_budgets e.payload.run_id))
          db.budget_events))
      (budget_error "unknown usage confidence already exists in budget ledger")
  require (engine.contracts_hold db) (budget_error "budget invariant failed")
  require (not (any (invalid_binding_row db) db.budget_events))
      (budget_error "budget event is not composite-bound to its spawn and cost row")
  require (not (any (negative_prefix db.budget_events) db.budget_events))
      (budget_error "per-spawn budget ledger prefix over-releases a reservation")
