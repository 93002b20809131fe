-- ===== src/Budget/PostWrites.antt =====
-- What a post-dispatch event that returned has done: its reads and its two writes.
use openclaw_agentic_os.Prelude.{
  ℕ, true, false, ◌≡◌, sym, ap, ◌∙◌, ◌⊎◌, inl, inr, Option, none, some,
}
use openclaw_agentic_os.Result.{ok}
use openclaw_agentic_os.Transaction.{transact-ok, then-ok, reads-ok, returns-ok}
use openclaw_agentic_os.Budget.Tables.{Db, Runtime, RunBudget, EventPayload}
use openclaw_agentic_os.Budget.Ledger.{Engine, assert_budget_invariants}
use openclaw_agentic_os.Budget.Counters.{
  with_row, post_dispatch_admit, post_dispatch_set, update_post_dispatch_counters-ok,
}
use openclaw_agentic_os.Budget.Events.{
  BudgetEventResult, existing_event, reject_settlement_dedupe_collision, next_sequence,
  insert_event-ok, reject_event_after_final_settlement, existing_event-replayed,
}
use openclaw_agentic_os.Budget.PreDispatch.{event_row, recorded}
use openclaw_agentic_os.Budget.PostAdmission.{
  PostEventRequest, PostAdmission, checked_post_request, admit_post_event, check_usage_known,
  check_post_run_state, check_outstanding,
}
use openclaw_agentic_os.Budget.PostDispatch.{
  write_post_event, fresh_post_event, post_event_body, record_post_dispatch_event,
}
use openclaw_agentic_os.Budget.Writes.{after_event, Replayed, replay_or-ok}

-- A returned `write_post_event`.
pub record PostEventWritten (engine : Engine) (q : PostEventRequest) (expected : EventPayload)
    (n : ℕ) (db : Db) (r : BudgetEventResult) (db' : Db) : Type 0 where
  pub row : RunBudget
  pub found : db.run_budgets q.run_id ≡ some row
  pub fits : post_dispatch_admit q.event_type row q.amounts ≡ true
  pub after :
      db'
      ≡ after_event db q.run_id
          (event_row expected q.idempotency_key n none)
          (post_dispatch_set q.event_type row q.amounts q.usage_confidence expected.created_at)
  pub result : r ≡ recorded expected n
  pub invariants : assert_budget_invariants engine db' ≡ ok tt

pub write_post_event-ok :
    (engine : Engine) (q : PostEventRequest) (expected : EventPayload) (n : ℕ) (db : Db)
    (r : BudgetEventResult) (db' : Db)
    → write_post_event engine q expected n db ≡ (ok r, db')
    → PostEventWritten engine q expected n db r db'
unfolding write_post_event
write_post_event-ok engine q expected n db r db' h =
    let (u1, db1, inserted, h1) = then-ok _ _ db h in
    let (u2, db2, updated, h2) = then-ok _ _ db1 h1 in
    let (u3, checked, h3) = reads-ok _ _ db2 h2 in
    let e1 = insert_event-ok engine _ db db1 inserted in
    let (rb, found, fits, e2) = update_post_dispatch_counters-ok engine _ _ _ _ _ db1 db2 updated in
    let (e3, e4) = returns-ok _ _ _ _ h3 in
    record {
      row = rb;
      found = ap (λ (d : Db). d.run_budgets q.run_id) (sym e1) ∙ found;
      fits = fits;
      after =
          sym e4
          ∙ e2
          ∙ ap
              (λ (d : Db). with_row d q.run_id (
                post_dispatch_set q.event_type rb q.amounts q.usage_confidence expected.created_at))
              e1;
      result = sym e3;
      invariants = ap (assert_budget_invariants engine) (sym e4) ∙ checked;
    }

-- A returned `fresh_post_event`.
pub record FreshPostEvent (engine : Engine) (q : PostEventRequest) (a : PostAdmission) (db : Db)
    (r : BudgetEventResult) (db' : Db) : Type 0 where
  pub number : ℕ
  pub unsettled : reject_settlement_dedupe_collision db a.expected.event_dedupe_hash ≡ ok tt
  pub open_ledger :
      reject_event_after_final_settlement db q.run_id q.transition_id q.spawn_request_id ≡ ok tt
  pub usage_known : check_usage_known db q.run_id ≡ ok tt
  pub run_active : check_post_run_state a ≡ ok tt
  pub reservation : check_outstanding db q ≡ ok tt
  pub numbered : next_sequence db q.run_id ≡ ok number
  pub written : PostEventWritten engine q a.expected number db r db'

pub fresh_post_event-ok :
    (engine : Engine) (q : PostEventRequest) (a : PostAdmission) (db : Db) (r : BudgetEventResult)
    (db' : Db)
    → fresh_post_event engine q a db ≡ (ok r, db')
    → FreshPostEvent engine q a db r db'
unfolding fresh_post_event
fresh_post_event-ok engine q a db r db' h =
    let (u1, unsettled, h1) = reads-ok _ _ db h in
    let (u2, open_ledger, h2) = reads-ok _ _ db h1 in
    let (u3, usage_known, h3) = reads-ok _ _ db h2 in
    let (u4, run_active, h4) = reads-ok _ _ db h3 in
    let (u5, invariants, h5) = reads-ok _ _ db h4 in
    let (u6, reservation, h6) = reads-ok _ _ db h5 in
    let (n, numbered, h7) = reads-ok _ _ db h6 in
    record {
      number = n;
      unsettled = unsettled;
      open_ledger = open_ledger;
      usage_known = usage_known;
      run_active = run_active;
      reservation = reservation;
      numbered = numbered;
      written = write_post_event-ok engine q a.expected n db r db' h7;
    }

-- The body of a post-dispatch event that returned.
pub post_event_body-ok :
    (rt : Runtime) (engine : Engine) (q : PostEventRequest) (db : Db) (r : BudgetEventResult)
    (db' : Db)
    → post_event_body rt engine q db ≡ (ok r, db')
    → (a : PostAdmission) × (admit_post_event rt engine db q ≡ ok a)
      × ((existing : Option BudgetEventResult) × (existing_event db q.idempotency_key a.expected
            ≡ ok existing)
          × (Replayed engine existing db r db'
              ⊎ ((existing ≡ none) × FreshPostEvent engine q a db r db')))
unfolding post_event_body
post_event_body-ok rt engine q db r db' h =
    let (a, admitted, h1) = reads-ok _ _ db h in
    let (existing, looked, h2) = reads-ok _ _ db h1 in
    (
      a,
      admitted,
      (
        existing,
        looked,
        elim (replay_or-ok engine (fresh_post_event engine q a) existing db r db' h2) [
          | inl replayed ↦ inl replayed
          | inr (new, ran) ↦ inr (new, fresh_post_event-ok engine q a db r db' ran)
        ],
      ),
    )

-- A call of `record_post_dispatch_event` that returned.
pub record_post_dispatch_event-ok :
    (rt : Runtime) (engine : Engine) (request : PostEventRequest) (db : Db) (r : BudgetEventResult)
    (db' : Db)
    → record_post_dispatch_event rt engine request db ≡ (ok r, db')
    → (q : PostEventRequest) × (checked_post_request rt request ≡ ok q)
      × (post_event_body rt engine q db ≡ (ok r, db'))
unfolding record_post_dispatch_event
record_post_dispatch_event-ok rt engine request db r db' h =
    let (q, checked, h1) = reads-ok _ _ db h in (q, checked, transact-ok _ db db' r h1)

-- An accepted post-dispatch event.
pub record PostAccepted (rt : Runtime) (engine : Engine) (request : PostEventRequest) (db : Db)
    (r : BudgetEventResult) (db' : Db) : Type 0 where
  pub q : PostEventRequest
  pub a : PostAdmission
  pub checked : checked_post_request rt request ≡ ok q
  pub admitted : admit_post_event rt engine db q ≡ ok a
  pub fresh : FreshPostEvent engine q a db r db'

pub record_post_dispatch_event-PostAccepted :
    (rt : Runtime) (engine : Engine) (request : PostEventRequest) (db : Db) (r : BudgetEventResult)
    (db' : Db)
    → record_post_dispatch_event rt engine request db ≡ (ok r, db')
    → r.replayed ≡ false
    → PostAccepted rt engine request db r db'
record_post_dispatch_event-PostAccepted rt engine request db r db' h new =
    let (q, checked, ran) = record_post_dispatch_event-ok rt engine request db r db' h in
    let (a, admitted, (existing, looked, did)) = post_event_body-ok rt engine q db r db' ran in
    elim did [
      | inl (old, _, _) ↦
          cc (existing_event-replayed db q.idempotency_key a.expected r (looked ∙ ap ok old))
      | inr (_, fresh) ↦ record {
        q = q;
        a = a;
        checked = checked;
        admitted = admitted;
        fresh = fresh;
      }
    ]
