-- ===== src/Budget/SettlementAdmission.antt =====
-- What `_settle_budget_on_connection` checks and reads before it writes (src/agentic_os/budgets.py,
-- lines 1239 to 1399).
use openclaw_agentic_os.Prelude.{
  ℕ, String, Bool, true, false, ◌&&◌, ◌||◌, not, Option, none, some, [], ◌∷◌, leb, ltb, same, ◌=ₜ◌,
  one_of, find, if◌then◌else◌,
}
use openclaw_agentic_os.Result.{
  Result, ok, err, budget_error, budget_conflict, budget_exceeded, require, ◌>>=◌, ◌>>◌,
}
use openclaw_agentic_os.Budget.Amounts.{BudgetAmounts, getattr, sub_ℕ, budget_amounts, all_fields}
use openclaw_agentic_os.Budget.Tables.{
  Db, Runtime, BudgetSelection, SettlementPayload, Settlement, Confidence,
  SettlementPayload-discrete,
}
use openclaw_agentic_os.Budget.Identity.{
  required_text, settlement_id_of, dedupe_hash, trusted_created_at,
}
use openclaw_agentic_os.Budget.Selection.{
  is_usable, Selection-discrete, selected_binding, required_cost,
}
use openclaw_agentic_os.Budget.Ledger.{Engine, spawn_outstanding, is_unknown}
use openclaw_agentic_os.Budget.PostAdmission.{
  SessionProof, session_proof, or_unproved, has_unknown_event,
}

-- The keyword arguments of `_settle_budget_on_connection`, but for `schema_verified`.
pub record SettlementRequest : Type 0 where
  pub run_id : String
  pub transition_id : String
  pub selection : BudgetSelection
  pub actual_usage : BudgetAmounts
  pub idempotency_key : String
  pub dedupe_key : String
  pub source : String
  pub spawn_request_id : String
  pub clock_context_id : String
  pub usage_confidence : Confidence

settlement_texts : Runtime → SettlementRequest → Result SettlementRequest
settlement_texts rt q = do
  run_id ← required_text rt (some q.run_id)
  transition_id ← required_text rt (some q.transition_id)
  idempotency_key ← required_text rt (some q.idempotency_key)
  dedupe_key ← required_text rt (some q.dedupe_key)
  source ← required_text rt (some q.source)
  spawn_request_id ← required_text rt (some q.spawn_request_id)
  clock_context_id ← required_text rt (some q.clock_context_id)
  ok (record q {
    run_id = run_id;
    transition_id = transition_id;
    idempotency_key = idempotency_key;
    dedupe_key = dedupe_key;
    source = source;
    spawn_request_id = spawn_request_id;
    clock_context_id = clock_context_id;
  })

unfoldable pub checked_settlement : Runtime → SettlementRequest → Result SettlementRequest
unfolding settlement_texts required_text
checked_settlement rt request = do
  q ← settlement_texts rt request
  require (is_usable q.usage_confidence)
      (budget_error "final settlement requires known or estimated usage")
  ok q

clock_after_acceptance : Option ℕ → Option ℕ → ℕ → Bool
clock_after_acceptance (some requested) (some accepted) created =
    leb 1 requested && ltb requested accepted && ltb accepted created
clock_after_acceptance _ _ created = false

pub record SettlementAdmission : Type 0 where
  pub expected : SettlementPayload
  pub proof : SessionProof

-- From `_verify_schema_identity` to `expected_replay`.
unfoldable pub admit_settlement :
    Runtime → Engine → Bool → Db → SettlementRequest → Result SettlementAdmission
unfolding clock_after_acceptance Selection-discrete or_unproved settlement_id_of dedupe_hash
admit_settlement rt engine schema_verified db q = do
  require (schema_verified || engine.schema_verified db)
      (budget_error "budget database schema verification failed")
  actual_selection ← selected_binding db true q.run_id q.transition_id
  require (same Selection-discrete actual_selection q.selection)
      (budget_conflict "requested budget selection differs from persisted selected cost row")
  proof ← or_unproved (session_proof db true q.spawn_request_id q.run_id q.transition_id)
  stamp ← trusted_created_at rt db q.run_id q.transition_id q.clock_context_id
  require (clock_after_acceptance proof.requested_at_epoch_ms proof.accepted_at_epoch_ms stamp.1)
      (budget_error "final settlement requires a trusted clock after request acceptance")
  (if leb q.actual_usage.input 0 && leb q.actual_usage.output 0 && leb q.actual_usage.cost 0
      then ok tt
      else (do
        required ← required_cost q.selection q.actual_usage
        require (leb required q.actual_usage.cost)
            (budget_exceeded "final usage cost is below the selected registry price")))
  ok (record {
    expected = record {
      settlement_id = settlement_id_of rt q.idempotency_key;
      settlement_dedupe_hash = dedupe_hash rt q.dedupe_key;
      run_id = q.run_id;
      transition_id = q.transition_id;
      spawn_request_id = q.spawn_request_id;
      cost = q.selection.binding;
      actual = q.actual_usage;
      usage_confidence = q.usage_confidence;
      source = q.source;
      created_at = stamp.0;
      created_at_epoch_ms = stamp.1;
      clock_context_id = q.clock_context_id;
    };
    proof = proof;
  })

replayed_settlement : SettlementPayload → Option Settlement → Result (Option Settlement)
replayed_settlement expected none = ok none
replayed_settlement expected (some s) =
    if same SettlementPayload-discrete s.payload expected
    then ok (some s)
    else err (budget_conflict "settlement idempotency key was reused with another payload")

-- The row `replay`, compared with `expected_replay`.
unfoldable pub existing_settlement : Db → String → SettlementPayload → Result (Option Settlement)
unfolding replayed_settlement SettlementPayload-discrete
existing_settlement db idempotency_key expected =
    replayed_settlement expected
      (find (λ s. s.settlement_idempotency_key =ₜ idempotency_key) db.budget_settlements)

budget_usage_known : Db → String → Bool
budget_usage_known db run_id = elim (db.run_budgets run_id) [
  | none ↦ true
  | some rb ↦ not (is_unknown rb.usage_confidence)
]

unfoldable pub check_settlement_state :
    Db → SettlementRequest → SettlementAdmission → Result (Unit {0})
unfolding budget_usage_known has_unknown_event one_of
check_settlement_state db q a = do
  require
      (one_of a.proof.run_state ("child_completed" ∷ "child_failed" ∷ "aggregation_completed" ∷ []))
      (budget_error "final settlement requires a completed post-dispatch run state")
  require (budget_usage_known db q.run_id && not (has_unknown_event db q.run_id))
      (budget_error "unknown usage confidence blocks final settlement")

-- The outstanding reservation, less the usage: what the settlement releases.
unfoldable pub released_amounts : Db → SettlementRequest → Result BudgetAmounts
unfolding all_fields
released_amounts db q = do
  outstanding ← spawn_outstanding db q.spawn_request_id q.run_id q.transition_id q.selection
  require (all_fields (λ d. leb (getattr q.actual_usage d) (getattr outstanding d)))
      (budget_exceeded "final usage exceeds outstanding reservation")
  budget_amounts (λ d. sub_ℕ (getattr outstanding d) (getattr q.actual_usage d))
