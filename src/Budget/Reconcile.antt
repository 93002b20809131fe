-- ===== src/Budget/Reconcile.antt =====
-- The two invariants of the counters: each budget agrees with the ledger's sums over its run, and
-- nothing passes a budget. Every event that moves the counters keeps both.
use openclaw_agentic_os.Prelude.{
  String, Bool, true, false, ◌+◌, ◌≤◌, ◌≡◌, refl, some, List, ◌∷◌, arith, ◌=ₜ◌, text_self,
  eq_of_text, put, if◌then◌else◌,
}
use openclaw_agentic_os.Budget.Amounts.{Dimension, BudgetAmounts, getattr}
use openclaw_agentic_os.Budget.Tables.{Db, RunBudget, BudgetEvent, EventType}
use openclaw_agentic_os.Budget.Ledger.{adds, takes, restores, total}
use openclaw_agentic_os.Budget.Moves.{uses, part, Moves}
use openclaw_agentic_os.Budget.Writes.{after_event}

-- The events of a run.
abbrev pub of_run : String → BudgetEvent → Bool
of_run run_id e = e.payload.run_id =ₜ run_id

-- The reconciliation of one budget with the events of its run.
pub record Agrees (run_id : String) (es : List BudgetEvent) (rb : RunBudget) : Type 0 where
  pub reserved :
      (d : Dimension)
      → getattr rb.reserved d + total takes d (of_run run_id) es ≡ total adds d (of_run run_id) es
  pub consumed :
      (d : Dimension)
      → getattr rb.consumed d + total restores d (of_run run_id) es
        ≡ total uses d (of_run run_id) es

-- Reserved and consumed amounts together stay within the budget.
abbrev pub WithinBudget : RunBudget → Type 0
WithinBudget rb =
    (d : Dimension) → getattr rb.reserved d + getattr rb.consumed d ≤ getattr rb.budget d

-- Both, for every budget of the database.
pub record IsSound (db : Db) : Type 0 where
  pub agrees :
      (run_id : String) (rb : RunBudget)
      → db.run_budgets run_id ≡ some rb
      → Agrees run_id db.budget_events rb
  pub within :
      (run_id : String) (rb : RunBudget) → db.run_budgets run_id ≡ some rb → WithinBudget rb

total-own :
    (counts : EventType → Dimension → Bool) (d : Dimension) (run_id : String) (e : BudgetEvent)
    (es : List BudgetEvent) (t : EventType) (v : BudgetAmounts)
    → e.payload.run_id ≡ run_id
    → e.payload.event_type ≡ t
    → e.payload.amounts ≡ v
    → total counts d (of_run run_id) (e ∷ es)
      ≡ part counts t v d + total counts d (of_run run_id) es
unfolding total
total-own counts d run_id e es t v here type carries =
    let own : (e.payload.run_id =ₜ run_id) ≡ true = rw here (text_self run_id) in
    rw (own, type, carries)

total-other :
    (counts : EventType → Dimension → Bool) (d : Dimension) (run_id : String) (e : BudgetEvent)
    (es : List BudgetEvent)
    → (e.payload.run_id =ₜ run_id) ≡ false
    → total counts d (of_run run_id) (e ∷ es) ≡ total counts d (of_run run_id) es
unfolding total
total-other counts d run_id e es h = rw h (omega arith)

module _ (db : Db) (run_id : String) (e : BudgetEvent) (rb rb' : RunBudget) (t : EventType)
    (v : BudgetAmounts) (here : e.payload.run_id ≡ run_id) (type : e.payload.event_type ≡ t)
    (carries : e.payload.amounts ≡ v) (found : db.run_budgets run_id ≡ some rb)
    (moves : Moves t v rb rb') (sound : IsSound db) where
  Agrees-own : Agrees run_id (e ∷ db.budget_events) rb'
  Agrees-own = record {
    reserved = λ d. omega (
      arith,
      moves.reserved d,
      (sound.agrees run_id rb found).reserved d,
      total-own takes d run_id e db.budget_events t v here type carries,
      total-own adds d run_id e db.budget_events t v here type carries,
    );
    consumed = λ d. omega (
      arith,
      moves.consumed d,
      (sound.agrees run_id rb found).consumed d,
      total-own restores d run_id e db.budget_events t v here type carries,
      total-own uses d run_id e db.budget_events t v here type carries,
    );
  }

  Agrees-other :
      (j : String) (other : RunBudget)
      → (run_id =ₜ j) ≡ false
      → Agrees j db.budget_events other
      → Agrees j (e ∷ db.budget_events) other
  Agrees-other j other ne a =
      let apart : (e.payload.run_id =ₜ j) ≡ false = rw here ne in
      record {
        reserved = λ d.
            rw (total-other takes d j e db.budget_events apart)
              (rw (total-other adds d j e db.budget_events apart) (a.reserved d));
        consumed = λ d.
            rw (total-other restores d j e db.budget_events apart)
              (rw (total-other uses d j e db.budget_events apart) (a.consumed d));
      }

  row_of :
      (j : String) (row : RunBudget) (b : Bool)
      → (run_id =ₜ j) ≡ b
      → (if b then some rb' else db.run_budgets j) ≡ some row
      → Agrees j (e ∷ db.budget_events) row × WithinBudget row
  row_of j row true eq got =
      let same_run : run_id ≡ j = eq_of_text run_id j eq in
      let same_row : rb' ≡ row = cc got in
      rw (← same_run, ← same_row)
        (Agrees-own, λ d. moves.bounded d (sound.within run_id rb found d))
  row_of j row false ne got =
      (Agrees-other j row ne (sound.agrees j row got), sound.within j row got)

  pub IsSound-after_event : IsSound (after_event db run_id e rb')
  unfolding put
  IsSound-after_event = record {
    agrees = λ j row got. (row_of j row (run_id =ₜ j) refl got).0;
    within = λ j row got. (row_of j row (run_id =ₜ j) refl got).1;
  }
