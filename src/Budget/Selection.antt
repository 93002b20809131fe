-- ===== src/Budget/Selection.antt =====
-- The persisted selection of a run's budget and its prices (src/agentic_os/budgets.py, lines 266 to
-- 319 and 458 to 475).
use Prim.Native.Nat.{◌*◌, ◌/◌}
use mathlib.Core.Option
use openclaw_agentic_os.Prelude.{
  ℕ, ◌+◌, String, Bool, true, false, ◌&&◌, ◌||◌, Option, none, some, leb, same, ◌=ₜ◌, if◌then◌else◌,
  ℕ_discrete,
}
use openclaw_agentic_os.Result.{
  Result, ok, err, budget_error, budget_exceeded, ◌>>=◌, ◌>>◌, require,
}
use openclaw_agentic_os.Budget.Amounts.{BudgetAmounts, limits, cost_microusd}
use openclaw_agentic_os.Budget.Tables.{
  Db, Runtime, BudgetSelection, RunBudget, CostRow, Confidence, known, estimated,
  Confidence-discrete, CostBinding-discrete,
}
use openclaw_agentic_os.Budget.Identity.{required_text}

-- Membership in `_USAGE_CONFIDENCE`.
abbrev pub is_usable : Confidence → Bool
is_usable known = true
is_usable estimated = true
is_usable _ = false

unfoldable pub Selection-discrete : Discrete BudgetSelection
unfolding CostBinding-discrete
Selection-discrete = hlevel (CostBinding-discrete, ℕ_discrete)

-- The row of `model_cost_registry` carries every selected column of the budget.
unfoldable pub cost_row_matches : RunBudget → CostRow → Bool
cost_row_matches rb m =
    (m.provider =ₜ rb.selected.provider)
    && (m.model =ₜ rb.selected.model)
    && (m.endpoint_binding_id =ₜ rb.selected.endpoint_binding_id)
    && (m.capability_class =ₜ rb.selected.capability_class)
    && (m.effective_at =ₜ rb.selected.cost_effective_at)
    && (m.registry_row_hash =ₜ rb.selected.cost_registry_hash)
    && same Confidence-discrete m.confidence rb.selected.cost_confidence

-- The JOINs and the WHERE of `_selected_binding`, for the rows that its keys name.
unfoldable pub binding_matches :
    Bool → String → String → RunBudget → String → String → CostRow → Bool
binding_matches allow_unknown_usage run_id transition_id rb run_workflow transition_run m =
    (run_workflow =ₜ rb.workflow)
    && (transition_run =ₜ run_id)
    && cost_row_matches rb m
    && (rb.selected_reserve_transition_id =ₜ transition_id)
    && is_usable rb.selected.cost_confidence
    && (allow_unknown_usage || is_usable rb.usage_confidence)

unfoldable pub selected_row : Db → Bool → String → String → Option BudgetSelection
unfolding binding_matches cost_row_matches Confidence-discrete
selected_row db allow_unknown_usage run_id transition_id =
    Option.bind (db.run_budgets run_id) (λ rb. Option.bind (db.reference.runs run_id) (λ r.
      Option.bind (db.reference.transitions rb.selected_reserve_transition_id) (λ t.
        Option.bind (db.reference.model_cost_registry rb.selected.cost_registry_id) (λ m.
          if binding_matches allow_unknown_usage run_id transition_id rb r.workflow t m
          then some (record {
            binding = rb.selected;
            input_cost_microusd_per_million = m.input_cost_microusd_per_million;
            output_cost_microusd_per_million = m.output_cost_microusd_per_million;
          })
          else none))))

unfoldable pub or_unbound : Option BudgetSelection → Result BudgetSelection
or_unbound none = err (budget_error "run budget is absent, unknown, or not exactly bound")
or_unbound (some s) = ok s

unfoldable pub selected_binding : Db → Bool → String → String → Result BudgetSelection
unfolding or_unbound selected_row
selected_binding db allow_unknown_usage run_id transition_id =
    or_unbound (selected_row db allow_unknown_usage run_id transition_id)

-- `rounded_up`
unfoldable pub rounded_up : ℕ → Option ℕ → Result ℕ
rounded_up tokens none = err (budget_error "selected registry price is malformed")
rounded_up tokens (some price) =
    if leb price 100_000_000_000
    then ok ((tokens * price + 999_999) / 1_000_000)
    else err (budget_error "selected registry price is malformed")

unfoldable pub required_cost : BudgetSelection → BudgetAmounts → Result ℕ
unfolding rounded_up
required_cost selection amounts = do
  input ← rounded_up amounts.input selection.input_cost_microusd_per_million
  output ← rounded_up amounts.output selection.output_cost_microusd_per_million
  require (leb (input + output) (limits cost_microusd))
      (budget_exceeded "selected token reservation cost exceeds fixed-point limit")
  ok (input + output)

policy_row : Db → BudgetSelection → String → Option String
policy_row db selection policy_id =
    Option.bind (db.reference.endpoint_zero_reserve_policies policy_id) (λ p.
      if (p.endpoint_binding_id =ₜ selection.binding.endpoint_binding_id)
        && (p.capability_class =ₜ selection.binding.capability_class)
      then some p.policy_hash
      else none)

or_no_policy : Option String → Result (Option String)
or_no_policy none = err (budget_error "zero-reserve policy does not match the selected endpoint")
or_no_policy (some h) = ok (some h)

unfoldable pub zero_policy_hash :
    Runtime → Db → Option String → BudgetSelection → Result (Option String)
unfolding policy_row or_no_policy required_text
zero_policy_hash rt db none selection = ok none
zero_policy_hash rt db (some policy) selection = do
  policy_id ← required_text rt (some policy)
  or_no_policy (policy_row db selection policy_id)
