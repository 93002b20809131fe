-- ===== src/Budget/SettlementLaws.antt =====
-- What a final settlement does: it keeps the ledger sound, and splits the whole reservation of its
-- spawn between the usage and the release.
use openclaw_agentic_os.Prelude.{
  Bool, true, false, ◌+◌, ◌≡◌, refl, sym, ap, ◌∙◌, Option, none, some, List, ◌∷◌, ◌⊎◌, inl, inr,
  arith,
}
use openclaw_agentic_os.Result.{Result, ok, err, bind-ok}
use openclaw_agentic_os.Transaction.{then-ok, reads-ok, returns-ok, transact-keeps}
use openclaw_agentic_os.Budget.Amounts.{
  Dimension, time_seconds, input_tokens, output_tokens, cost_microusd, retry_units,
  human_attention_units, BudgetAmounts, getattr, no_amounts, budget_amounts-ok, budget_amounts-zero,
  sub_ℕ-pos, sub_ℕ_self,
}
use openclaw_agentic_os.Budget.Tables.{
  Db, Runtime, SettlementPayload, Settlement, release, consume, retry_decrement, human_attention,
}
use openclaw_agentic_os.Budget.Ledger.{
  Engine, adds, takes, total, net, spawn_outstanding, or_invalid, assert_budget_invariants,
}
use openclaw_agentic_os.Budget.Events.{BudgetEventResult, insert_settlement-ok}
use openclaw_agentic_os.Budget.PostAdmission.{retry_only, human_only}
use openclaw_agentic_os.Budget.Moves.{part}
use openclaw_agentic_os.Budget.Reconcile.{IsSound}
use openclaw_agentic_os.Budget.LinkedEvents.{own, linked_event-effect}
use openclaw_agentic_os.Budget.SettlementAdmission.{
  SettlementRequest, SettlementAdmission, released_amounts, check_settlement_state,
  checked_settlement, admit_settlement,
}
use openclaw_agentic_os.Budget.SettlementWrites.{
  BudgetSettlementResult, write_settlement_events, fresh_settlement, settlement_row, consumed_part,
  replay_settlement, settle_budget_on_connection, settle_budget,
}

-- What the four events of a settlement do together.
pub record SettledEffect (q : SettlementRequest) (released : BudgetAmounts) (db db' : Db)
    : Type 0 where
  pub sound : IsSound db → IsSound db'
  pub taken :
      (d : Dimension)
      → total takes d (own q) db'.budget_events
        ≡ getattr q.actual_usage d + getattr released d + total takes d (own q) db.budget_events
  pub added :
      (d : Dimension)
      → total adds d (own q) db'.budget_events ≡ total adds d (own q) db.budget_events
  pub settlements : db'.budget_settlements ≡ db.budget_settlements

-- The shares of the four events add up to the usage and the release.
parts_taken :
    (a released : BudgetAmounts) (d : Dimension)
    → part takes release released d
        + (part takes human_attention (human_only a.human) d
            + (part takes retry_decrement (retry_only a.retry) d
                + part takes consume (consumed_part a) d))
      ≡ getattr a d + getattr released d
parts_taken a released time_seconds = omega arith
parts_taken a released input_tokens = omega arith
parts_taken a released output_tokens = omega arith
parts_taken a released cost_microusd = omega arith
parts_taken a released retry_units = omega arith
parts_taken a released human_attention_units = omega arith

parts_added :
    (a released : BudgetAmounts) (d : Dimension)
    → part adds release released d
        + (part adds human_attention (human_only a.human) d
            + (part adds retry_decrement (retry_only a.retry) d
                + part adds consume (consumed_part a) d))
      ≡ 0
parts_added a released time_seconds = refl
parts_added a released _ = refl

write_settlement_events-effect :
    (rt : Runtime) (engine : Engine) (q : SettlementRequest) (s : SettlementPayload)
    (released : BudgetAmounts) (db : Db) (es : List BudgetEventResult) (db' : Db)
    → write_settlement_events rt engine q s released db ≡ (ok es, db')
    → SettledEffect q released db db'
unfolding write_settlement_events
write_settlement_events-effect rt engine q s released db es db' h =
    let (r1, db1, ran1, h1) = then-ok _ _ db h in
    let (r2, db2, ran2, h2) = then-ok _ _ db1 h1 in
    let (r3, db3, ran3, h3) = then-ok _ _ db2 h2 in
    let (r4, db4, ran4, h4) = then-ok _ _ db3 h3 in
    let (e1, e2) = returns-ok _ _ _ _ h4 in
    let f1 = linked_event-effect rt engine q s consume _ _ db r1 db1 refl ran1 in
    let f2 = linked_event-effect rt engine q s retry_decrement _ _ db1 r2 db2 refl ran2 in
    let f3 = linked_event-effect rt engine q s human_attention _ _ db2 r3 db3 refl ran3 in
    let f4 = linked_event-effect rt engine q s release released _ db3 r4 db4 refl ran4 in
    rw (← e2) (record {
      sound = λ i. f4.sound (f3.sound (f2.sound (f1.sound i)));
      taken = λ d. omega (
        arith,
        f1.taken d,
        f2.taken d,
        f3.taken d,
        f4.taken d,
        parts_taken q.actual_usage released d,
      );
      added = λ d. omega (
        arith,
        f1.added d,
        f2.added d,
        f3.added d,
        f4.added d,
        parts_added q.actual_usage released d,
      );
      settlements = f4.settlements ∙ f3.settlements ∙ f2.settlements ∙ f1.settlements;
    })

-- A returned `fresh_settlement`.
pub record FreshSettlement (engine : Engine) (q : SettlementRequest) (a : SettlementAdmission)
    (db : Db) (r : BudgetSettlementResult) (db' : Db) : Type 0 where
  pub released : released_amounts db q ≡ ok r.released
  pub state : check_settlement_state db q a ≡ ok tt
  pub sound : IsSound db → IsSound db'
  pub taken :
      (d : Dimension)
      → total takes d (own q) db'.budget_events
        ≡ getattr q.actual_usage d + getattr r.released d + total takes d (own q) db.budget_events
  pub added :
      (d : Dimension)
      → total adds d (own q) db'.budget_events ≡ total adds d (own q) db.budget_events
  pub settlements :
      db'.budget_settlements
      ≡ settlement_row a.expected q.idempotency_key r.released ∷ db.budget_settlements
  pub fresh : r.replayed ≡ false
  pub invariants : assert_budget_invariants engine db' ≡ ok tt

assemble :
    (engine : Engine) (q : SettlementRequest) (a : SettlementAdmission) (db : Db)
    (r : BudgetSettlementResult) (db' : Db) (released : BudgetAmounts) (db1 db2 : Db)
    (es : List BudgetEventResult)
    → db' ≡ db2
    → record {
      settlement_id = a.expected.settlement_id;
      events = es;
      released = released;
      replayed = false;
    }
      ≡ r
    → released_amounts db q ≡ ok released
    → check_settlement_state db q a ≡ ok tt
    → db1 ≡ record db {
      budget_settlements =
          settlement_row a.expected q.idempotency_key released ∷ db.budget_settlements;
    }
    → assert_budget_invariants engine db2 ≡ ok tt
    → SettledEffect q released db1 db2
    → FreshSettlement engine q a db r db'
assemble engine q a db r db' released db1 db2 es last result amounts state e0 checked f =
    let same_released : released ≡ r.released = ap (λ x. x.released) result in
    let own_events : db1.budget_events ≡ db.budget_events = ap (λ (x : Db). x.budget_events) e0 in
    rw last (record {
      released = amounts ∙ ap ok same_released;
      state = state;
      sound = λ i. f.sound (rw e0 (record { agrees = i.agrees; within = i.within }));
      taken = λ d. omega (
        arith,
        f.taken d,
        ap (λ x. getattr x d) same_released,
        ap (λ x. total takes d (own q) x) own_events,
      );
      added = λ d. f.added d ∙ ap (λ x. total adds d (own q) x) own_events;
      settlements =
          f.settlements
          ∙ ap (λ (x : Db). x.budget_settlements) e0
          ∙ ap (λ x. settlement_row a.expected q.idempotency_key x ∷ db.budget_settlements)
              same_released;
      fresh = ap (λ x. x.replayed) (sym result);
      invariants = checked;
    })

pub fresh_settlement-ok :
    (rt : Runtime) (engine : Engine) (q : SettlementRequest) (a : SettlementAdmission) (db : Db)
    (r : BudgetSettlementResult) (db' : Db)
    → fresh_settlement rt engine q a db ≡ (ok r, db')
    → FreshSettlement engine q a db r db'
unfolding fresh_settlement
fresh_settlement-ok rt engine q a db r db' h =
    let (u1, g1, h1) = reads-ok _ _ db h in
    let (u2, state, h2) = reads-ok _ _ db h1 in
    let (u3, g3, h3) = reads-ok _ _ db h2 in
    let (released, amounts, h4) = reads-ok _ _ db h3 in
    let (u5, db1, inserted, h5) = then-ok _ _ db h4 in
    let (es, db2, events, h6) = then-ok _ _ db1 h5 in
    let (u7, checked, h7) = reads-ok _ _ db2 h6 in
    let (e1, e2) = returns-ok _ _ _ _ h7 in
    let e0 = insert_settlement-ok engine _ db db1 inserted in
    let f = write_settlement_events-effect rt engine q a.expected released db1 es db2 events in
    assemble engine q a db r db' released db1 db2 es (sym e2) e1 amounts state e0 checked
      (write_settlement_events-effect rt engine q a.expected released db1 es db2 events)

settled :
    (rt : Runtime) (engine : Engine) (q : SettlementRequest) (a : SettlementAdmission)
    (existing : Option Settlement) (db : Db) (r : BudgetSettlementResult) (db' : Db)
    → replay_settlement rt engine q a existing db ≡ (ok r, db')
    → ((r.replayed ≡ true) × (db' ≡ db)) ⊎ FreshSettlement engine q a db r db'
unfolding replay_settlement
settled rt engine q a none db r db' h = inr (fresh_settlement-ok rt engine q a db r db' h)
settled rt engine q a (some s) db r db' h =
    let (u1, g1, h1) = reads-ok _ _ db h in
    let (es, g2, h2) = reads-ok _ _ db h1 in
    let (released, g3, h3) = reads-ok _ _ db h2 in
    let (e1, e2) = returns-ok _ _ _ _ h3 in inl (ap (λ x. x.replayed) (sym e1), sym e2)

-- The body of a settlement that returned.
pub settle_budget_on_connection-ok :
    (rt : Runtime) (engine : Engine) (verified : Bool) (request : SettlementRequest) (db : Db)
    (r : BudgetSettlementResult) (db' : Db)
    → settle_budget_on_connection rt engine verified request db ≡ (ok r, db')
    → (q : SettlementRequest) × (a : SettlementAdmission) × (checked_settlement rt request ≡ ok q)
      × (admit_settlement rt engine verified db q ≡ ok a)
      × (((r.replayed ≡ true) × (db' ≡ db)) ⊎ FreshSettlement engine q a db r db')
unfolding settle_budget_on_connection
settle_budget_on_connection-ok rt engine verified request db r db' h =
    let (q, checked, h1) = reads-ok _ _ db h in
    let (a, admitted, h2) = reads-ok _ _ db h1 in
    let (existing, looked, h3) = reads-ok _ _ db h2 in
    (q, a, checked, admitted, settled rt engine q a existing db r db' h3)

-- A settlement, accepted, replayed or refused, keeps the ledger sound: every budget agrees with the
-- sums of its run's events, and reserved plus consumed stays within the budget.
pub settle_budget-IsSound :
    (rt : Runtime) (engine : Engine) (request : SettlementRequest) (db : Db)
    → IsSound db
    → IsSound (settle_budget rt engine request db).1
unfolding settle_budget
settle_budget-IsSound rt engine request db sound = transact-keeps IsSound _ db sound λ r db' ran.
    let (q, a, checked, admitted, did) =
      settle_budget_on_connection-ok rt engine false request db r db' ran in
    elim did [ inl (_, unchanged) ↦ rw unchanged sound | inr fresh ↦ fresh.sound sound ]

or_invalid-ok : (o : Result BudgetAmounts) (a : BudgetAmounts) → or_invalid o ≡ ok a → o ≡ ok a
unfolding or_invalid
or_invalid-ok (ok b) a h = h
or_invalid-ok (err e) a h = cc

-- What is outstanding for a spawn is the difference of its ledger's sums.
pub spawn_outstanding-ok :
    (db : Db) (q : SettlementRequest) (o : BudgetAmounts)
    → spawn_outstanding db q.spawn_request_id q.run_id q.transition_id q.selection ≡ ok o
    → (d : Dimension)
    → total adds d (own q) db.budget_events ≡ total takes d (own q) db.budget_events + getattr o d
unfolding spawn_outstanding net
spawn_outstanding-ok db q o h d =
    sub_ℕ-pos _ _ _ (budget_amounts-ok (net (own q) db.budget_events) o (or_invalid-ok _ o h) d).0

-- The usage and the release make up the reservation.
released_amounts-ok :
    (db : Db) (q : SettlementRequest) (released : BudgetAmounts)
    → released_amounts db q ≡ ok released
    → (o : BudgetAmounts) × (spawn_outstanding db q.spawn_request_id q.run_id q.transition_id
          q.selection
        ≡ ok o)
      × ((d : Dimension) → getattr o d ≡ getattr q.actual_usage d + getattr released d)
unfolding released_amounts
released_amounts-ok db q released h =
    let (o, outstanding, h1) = bind-ok _ _ h in
    let (u, fits, h2) = bind-ok _ _ h1 in
    (o, outstanding, λ d. sub_ℕ-pos _ _ _ (budget_amounts-ok _ released h2 d).0)

pub spawn_outstanding-zero :
    (db : Db) (q : SettlementRequest)
    → ((d : Dimension)
        → total adds d (own q) db.budget_events ≡ total takes d (own q) db.budget_events)
    → spawn_outstanding db q.spawn_request_id q.run_id q.transition_id q.selection ≡ ok no_amounts
unfolding spawn_outstanding net or_invalid
spawn_outstanding-zero db q h =
    rw
      (budget_amounts-zero (net (own q) db.budget_events) (λ d. unfold net in sub_ℕ_self _ _ (h d)))

-- A settlement that has written its row splits the outstanding reservation of its spawn, in every
-- dimension, into the usage and the release that it returns, and leaves nothing outstanding.
pub settlement_drains :
    (rt : Runtime) (engine : Engine) (request : SettlementRequest) (db : Db)
    (r : BudgetSettlementResult) (db' : Db)
    → settle_budget_on_connection rt engine false request db ≡ (ok r, db')
    → r.replayed ≡ false
    → (q : SettlementRequest) × (o : BudgetAmounts) × (checked_settlement rt request ≡ ok q)
      × (spawn_outstanding db q.spawn_request_id q.run_id q.transition_id q.selection ≡ ok o)
      × ((d : Dimension) → getattr o d ≡ getattr q.actual_usage d + getattr r.released d)
      × (spawn_outstanding db' q.spawn_request_id q.run_id q.transition_id q.selection
          ≡ ok no_amounts)
settlement_drains rt engine request db r db' ran new =
    let (q, a, checked, admitted, did) =
      settle_budget_on_connection-ok rt engine false request db r db' ran in
    elim did [
      | inl (old, _) ↦ cc
      | inr fresh ↦
          let (o, outstanding, split) = released_amounts-ok db q r.released fresh.released in
          (
            q,
            o,
            checked,
            outstanding,
            split,
            spawn_outstanding-zero db' q (λ d. omega (
              arith,
              fresh.taken d,
              fresh.added d,
              split d,
              spawn_outstanding-ok db q o outstanding d,
            )),
          )
    ]
