-- ===== src/Budget/Writes.antt =====
-- What a mutation that returned has done: its reads, and the two writes of each event.
use openclaw_agentic_os.Prelude.{
  ℕ, String, true, false, ◌≡◌, refl, sym, ap, ◌∙◌, ◌⊎◌, inl, inr, Option, none, some, ◌∷◌, put,
}
use openclaw_agentic_os.Result.{ok}
use openclaw_agentic_os.Transaction.{Action, transact-ok, then-ok, reads-ok, returns-ok}
use openclaw_agentic_os.Budget.Tables.{Db, Runtime, RunBudget, BudgetEvent, EventPayload}
use openclaw_agentic_os.Budget.Ledger.{Engine, assert_budget_invariants}
use openclaw_agentic_os.Budget.Counters.{counters_admit, counters_set, update_counters-ok, with_row}
use openclaw_agentic_os.Budget.Events.{
  BudgetEventResult, existing_event, reject_settlement_dedupe_collision, next_sequence,
  insert_event-ok, existing_event-replayed,
}
use openclaw_agentic_os.Budget.PreAdmission.{
  EventRequest, Admission, checked_request, admit_event, check_pre_dispatch, check_reservation,
}
use openclaw_agentic_os.Budget.PreDispatch.{
  event_row, recorded, write_event, fresh_event, replay_or, event_body, record_budget_event,
}

-- One event inserted, one budget row updated.
abbrev pub after_event : Db → String → BudgetEvent → RunBudget → Db
after_event db run_id e rb = record db {
  budget_events = e ∷ db.budget_events;
  run_budgets = put run_id rb db.run_budgets;
}

-- A returned `write_event`.
pub record EventWritten (engine : Engine) (q : EventRequest) (expected : EventPayload) (n : ℕ)
    (db : Db) (r : BudgetEventResult) (db' : Db) : Type 0 where
  pub row : RunBudget
  pub found : db.run_budgets q.run_id ≡ some row
  pub fits : counters_admit q.event_type row q.amounts ≡ true
  pub after :
      db'
      ≡ after_event db q.run_id
          (event_row expected q.idempotency_key n none)
          (counters_set q.event_type row q.amounts q.usage_confidence expected.created_at)
  pub result : r ≡ recorded expected n
  pub invariants : assert_budget_invariants engine db' ≡ ok tt

pub write_event-ok :
    (engine : Engine) (q : EventRequest) (expected : EventPayload) (n : ℕ) (db : Db)
    (r : BudgetEventResult) (db' : Db)
    → write_event engine q expected n db ≡ (ok r, db')
    → EventWritten engine q expected n db r db'
unfolding write_event
write_event-ok engine q expected n db r db' h =
    let (u1, db1, inserted, h1) = then-ok _ _ db h in
    let (u2, db2, updated, h2) = then-ok _ _ db1 h1 in
    let (u3, checked, h3) = reads-ok _ _ db2 h2 in
    let e1 = insert_event-ok engine _ db db1 inserted in
    let (rb, found, fits, e2) = update_counters-ok engine _ _ _ _ _ db1 db2 updated in
    let (e3, e4) = returns-ok _ _ _ _ h3 in
    record {
      row = rb;
      found = ap (λ (d : Db). d.run_budgets q.run_id) (sym e1) ∙ found;
      fits = fits;
      after =
          sym e4
          ∙ e2
          ∙ ap
              (λ (d : Db).
                with_row d q.run_id
                  (counters_set q.event_type rb q.amounts q.usage_confidence expected.created_at))
              e1;
      result = sym e3;
      invariants = ap (assert_budget_invariants engine) (sym e4) ∙ checked;
    }

-- A returned `fresh_event`.
pub record FreshEvent (engine : Engine) (q : EventRequest) (a : Admission) (db : Db)
    (r : BudgetEventResult) (db' : Db) : Type 0 where
  pub number : ℕ
  pub unsettled : reject_settlement_dedupe_collision db a.expected.event_dedupe_hash ≡ ok tt
  pub pre_dispatch : check_pre_dispatch db q a ≡ ok tt
  pub reservation : check_reservation db q ≡ ok tt
  pub numbered : next_sequence db q.run_id ≡ ok number
  pub written : EventWritten engine q a.expected number db r db'

pub fresh_event-ok :
    (engine : Engine) (q : EventRequest) (a : Admission) (db : Db) (r : BudgetEventResult)
    (db' : Db)
    → fresh_event engine q a db ≡ (ok r, db')
    → FreshEvent engine q a db r db'
unfolding fresh_event
fresh_event-ok engine q a db r db' h =
    let (u1, unsettled, h1) = reads-ok _ _ db h in
    let (u2, pre_dispatch, h2) = reads-ok _ _ db h1 in
    let (u3, reservation, h3) = reads-ok _ _ db h2 in
    let (n, numbered, h4) = reads-ok _ _ db h3 in
    record {
      number = n;
      unsettled = unsettled;
      pre_dispatch = pre_dispatch;
      reservation = reservation;
      numbered = numbered;
      written = write_event-ok engine q a.expected n db r db' h4;
    }

-- A replay leaves the database as it was, and its invariants hold.
abbrev pub Replayed : Engine → Option BudgetEventResult → Db → BudgetEventResult → Db → Type 0
Replayed engine replay db r db' =
    (replay ≡ some r) × (db' ≡ db) × (assert_budget_invariants engine db ≡ ok tt)

pub replay_or-ok :
    (engine : Engine) (fresh : Action Db BudgetEventResult) (replay : Option BudgetEventResult)
    (db : Db) (r : BudgetEventResult) (db' : Db)
    → replay_or engine fresh replay db ≡ (ok r, db')
    → Replayed engine replay db r db' ⊎ ((replay ≡ none) × (fresh db ≡ (ok r, db')))
unfolding replay_or
replay_or-ok engine fresh none db r db' h = inr (refl, h)
replay_or-ok engine fresh (some x) db r db' h =
    let (u, checked, h1) = reads-ok _ _ db h in
    let (e1, e2) = returns-ok _ _ _ _ h1 in inl (ap some e1, sym e2, checked)

-- The body of a reservation or release that returned.
pub event_body-ok :
    (rt : Runtime) (engine : Engine) (q : EventRequest) (db : Db) (r : BudgetEventResult) (db' : Db)
    → event_body rt engine q db ≡ (ok r, db')
    → (a : Admission) × (admit_event rt engine db q ≡ ok a)
      × ((existing : Option BudgetEventResult) × (existing_event db q.idempotency_key a.expected
            ≡ ok existing)
          × (Replayed engine existing db r db'
              ⊎ ((existing ≡ none) × FreshEvent engine q a db r db')))
unfolding event_body
event_body-ok rt engine q db r db' h =
    let (a, admitted, h1) = reads-ok _ _ db h in
    let (existing, looked, h2) = reads-ok _ _ db h1 in
    (
      a,
      admitted,
      (
        existing,
        looked,
        elim (replay_or-ok engine (fresh_event engine q a) existing db r db' h2) [
          | inl replayed ↦ inl replayed
          | inr (new, ran) ↦ inr (new, fresh_event-ok engine q a db r db' ran)
        ],
      ),
    )

-- A call of `record_budget_event` that returned.
pub record_budget_event-ok :
    (rt : Runtime) (engine : Engine) (request : EventRequest) (db : Db) (r : BudgetEventResult)
    (db' : Db)
    → record_budget_event rt engine request db ≡ (ok r, db')
    → (q : EventRequest) × (checked_request rt request ≡ ok q)
      × (event_body rt engine q db ≡ (ok r, db'))
unfolding record_budget_event
record_budget_event-ok rt engine request db r db' h =
    let (q, checked, h1) = reads-ok _ _ db h in (q, checked, transact-ok _ db db' r h1)

-- An accepted reservation or release: one that returned and is no replay.
pub record Accepted (rt : Runtime) (engine : Engine) (request : EventRequest) (db : Db)
    (r : BudgetEventResult) (db' : Db) : Type 0 where
  pub q : EventRequest
  pub a : Admission
  pub checked : checked_request rt request ≡ ok q
  pub admitted : admit_event rt engine db q ≡ ok a
  pub fresh : FreshEvent engine q a db r db'

pub record_budget_event-Accepted :
    (rt : Runtime) (engine : Engine) (request : EventRequest) (db : Db) (r : BudgetEventResult)
    (db' : Db)
    → record_budget_event rt engine request db ≡ (ok r, db')
    → r.replayed ≡ false
    → Accepted rt engine request db r db'
record_budget_event-Accepted rt engine request db r db' h new =
    let (q, checked, ran) = record_budget_event-ok rt engine request db r db' h in
    let (a, admitted, (existing, looked, did)) = event_body-ok rt engine q db r db' ran in
    elim did [
      | inl (old, _, _) ↦
          cc (existing_event-replayed db q.idempotency_key a.expected r (looked ∙ ap ok old))
      | inr (_, fresh) ↦ record {
        q = q;
        a = a;
        checked = checked;
        admitted = admitted;
        fresh = fresh;
      }
    ]
