-- ===== src/Budget/LinkedEvents.antt =====
-- What one linked event of a settlement does to the counters and to the reservation of its spawn.
use openclaw_agentic_os.Prelude.{
  is_text, ℕ, String, ◌++◌, Bool, true, false, ◌+◌, ◌≡◌, refl, sym, ap, ◌∙◌, ◌&&◌, not, Option,
  some, List, [], ◌∷◌, arith, same_self, text_self, if◌then◌else◌,
}
use openclaw_agentic_os.Result.{ok}
use openclaw_agentic_os.Transaction.{returns, then-ok, reads-ok, returns-ok}
use openclaw_agentic_os.Budget.Amounts.{Dimension, BudgetAmounts, is_zero, is_zero-getattr}
use openclaw_agentic_os.Budget.Tables.{
  Db, Runtime, RunBudget, BudgetEvent, EventType, SettlementPayload, reserve, release, consume,
  retry_decrement, retry_restore, human_attention,
}
use openclaw_agentic_os.Budget.Ledger.{Engine, adds, takes, total, of_spawn}
use openclaw_agentic_os.Budget.Counters.{
  with_row, update_counters-ok, update_post_dispatch_counters-ok,
}
use openclaw_agentic_os.Budget.Events.{BudgetEventResult, insert_event-ok}
use openclaw_agentic_os.Budget.PreDispatch.{event_row}
use openclaw_agentic_os.Budget.Moves.{part, Moves, Moves-release, Moves-post_dispatch}
use openclaw_agentic_os.Budget.Reconcile.{IsSound, IsSound-after_event}
use openclaw_agentic_os.Budget.Writes.{after_event}
use openclaw_agentic_os.Budget.SettlementAdmission.{SettlementRequest}
use openclaw_agentic_os.Budget.SettlementWrites.{
  settle_counters, write_linked_event, linked_event, linked_payload, event_type_text,
}

-- The event types of a settlement.
abbrev pub is_terminal : EventType → Bool
is_terminal release = true
is_terminal consume = true
is_terminal retry_decrement = true
is_terminal human_attention = true
is_terminal _ = false

settle_counters-ok :
    (engine : Engine) (q : SettlementRequest) (t : EventType) (v : BudgetAmounts) (at : String)
    (db db' : Db) {u : Unit {0}}
    → is_terminal t ≡ true
    → settle_counters engine q t v at db ≡ (ok u, db')
    → (rb : RunBudget) × (rb' : RunBudget) × (db.run_budgets q.run_id ≡ some rb)
      × Moves t v rb rb'
      × (db' ≡ with_row db q.run_id rb')
unfolding settle_counters
settle_counters-ok engine q release v at db db' _ h =
    let (rb, found, fits, wrote) = update_counters-ok engine release _ _ _ _ db db' h in
    (rb, _, found, Moves-release rb v _ _ fits, wrote)
settle_counters-ok engine q consume v at db db' _ h =
    let (rb, found, fits, wrote) = update_post_dispatch_counters-ok engine _ _ _ _ _ db db' h in
    (rb, _, found, Moves-post_dispatch consume rb v _ _ refl fits, wrote)
settle_counters-ok engine q retry_decrement v at db db' _ h =
    let (rb, found, fits, wrote) = update_post_dispatch_counters-ok engine _ _ _ _ _ db db' h in
    (rb, _, found, Moves-post_dispatch retry_decrement rb v _ _ refl fits, wrote)
settle_counters-ok engine q human_attention v at db db' _ h =
    let (rb, found, fits, wrote) = update_post_dispatch_counters-ok engine _ _ _ _ _ db db' h in
    (rb, _, found, Moves-post_dispatch human_attention rb v _ _ refl fits, wrote)
settle_counters-ok engine q reserve v at db db' no_type h = cc
settle_counters-ok engine q retry_restore v at db db' no_type h = cc

-- The events of the request's spawn.
abbrev pub own : SettlementRequest → BudgetEvent → Bool
own q = of_spawn q.spawn_request_id q.run_id q.transition_id q.selection

-- What one linked event does.
pub record LinkedEffect (q : SettlementRequest) (t : EventType) (v : BudgetAmounts) (db db' : Db)
    : Type 0 where
  pub sound : IsSound db → IsSound db'
  pub taken :
      (d : Dimension)
      → total takes d (own q) db'.budget_events
        ≡ part takes t v d + total takes d (own q) db.budget_events
  pub added :
      (d : Dimension)
      → total adds d (own q) db'.budget_events
        ≡ part adds t v d + total adds d (own q) db.budget_events
  pub settlements : db'.budget_settlements ≡ db.budget_settlements

own-linked_payload :
    (rt : Runtime) (q : SettlementRequest) (s : SettlementPayload) (t : EventType)
    (v : BudgetAmounts) (key : String) (n : ℕ) (link : Option String)
    → own q (event_row (linked_payload rt q s t v) key n link) ≡ true
unfolding of_spawn linked_payload is_text
own-linked_payload rt q s human_attention v key n link = simp text_self
own-linked_payload rt q s _ v key n link = simp (text_self, same_self)

total-linked :
    (counts : EventType → Dimension → Bool) (d : Dimension) (rt : Runtime) (q : SettlementRequest)
    (s : SettlementPayload) (t : EventType) (v : BudgetAmounts) (key : String) (n : ℕ)
    (link : Option String) (es : List BudgetEvent)
    → total counts d (own q) (event_row (linked_payload rt q s t v) key n link ∷ es)
      ≡ part counts t v d + total counts d (own q) es
unfolding total linked_payload
total-linked counts d rt q s t v key n link es = rw (own-linked_payload rt q s t v key n link)

write_linked_event-effect :
    (rt : Runtime) (engine : Engine) (q : SettlementRequest) (s : SettlementPayload) (t : EventType)
    (v : BudgetAmounts) (db : Db) (es : List BudgetEventResult) (db' : Db)
    → is_terminal t ≡ true
    → write_linked_event rt engine q s t v db ≡ (ok es, db')
    → LinkedEffect q t v db db'
unfolding write_linked_event
write_linked_event-effect rt engine q s t v db es db' type h =
    let (n, numbered, h1) = reads-ok _ _ db h in
    let (u1, db1, inserted, h2) = then-ok _ _ db h1 in
    let (u2, db2, updated, h3) = then-ok _ _ db1 h2 in
    let e1 = insert_event-ok engine _ db db1 inserted in
    let (rb, rb', found, moves, e2) = settle_counters-ok engine q t v _ db1 db2 type updated in
    let (e3, e4) = returns-ok _ _ _ _ h3 in
    let key = q.idempotency_key ++ ("\0" ++ event_type_text t) in
    let e : BudgetEvent = event_row (linked_payload rt q s t v) key n (some s.settlement_id) in
    let after : db' ≡ after_event db q.run_id e rb' =
      sym e4 ∙ e2 ∙ ap (λ (d : Db). with_row d q.run_id rb') e1 in
    let found' : db.run_budgets q.run_id ≡ some rb =
      ap (λ (d : Db). d.run_budgets q.run_id) (sym e1) ∙ found in
    record {
      sound = λ sound. rw after (
          unfold linked_payload in
          IsSound-after_event db q.run_id e rb rb' t v refl refl refl found' moves sound);
      taken = λ d. rw after (total-linked takes d rt q s t v key n _ db.budget_events);
      added = λ d. rw after (total-linked adds d rt q s t v key n _ db.budget_events);
      settlements = rw after;
    }

part-zero :
    (counts : EventType → Dimension → Bool) (t : EventType) (v : BudgetAmounts) (d : Dimension)
    → is_zero v ≡ true
    → part counts t v d ≡ 0
part-zero counts t v d h = ground (arith, is_zero-getattr v h d)

-- A linked event, written or skipped, moves the reservation of its spawn by its amounts.
pub linked_event-effect :
    (rt : Runtime) (engine : Engine) (q : SettlementRequest) (s : SettlementPayload) (t : EventType)
    (v : BudgetAmounts) (force : Bool) (db : Db) (es : List BudgetEventResult) (db' : Db)
    → is_terminal t ≡ true
    → linked_event rt engine q s t v force db ≡ (ok es, db')
    → LinkedEffect q t v db db'
unfolding linked_event
linked_event-effect rt engine q s t v force db es db' type h = go (is_zero v) (not force) refl h
  where
    go :
        (zero_amounts unforced : Bool)
        → is_zero v ≡ zero_amounts
        → (if zero_amounts && unforced then returns [] else write_linked_event rt engine q s t v) db
          ≡ (ok es, db')
        → LinkedEffect q t v db db'
    go true true z k =
        let (e1, e2) = returns-ok _ _ _ _ k in
        record {
          sound = λ sound. rw (← e2) sound;
          taken = λ d. rw (← e2) (omega (arith, part-zero takes t v d z));
          added = λ d. rw (← e2) (omega (arith, part-zero adds t v d z));
          settlements = rw (← e2);
        }
    go true false z k = write_linked_event-effect rt engine q s t v db es db' type k
    go false b z k = write_linked_event-effect rt engine q s t v db es db' type k
