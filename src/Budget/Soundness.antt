-- ===== src/Budget/Soundness.antt =====
-- The ledger's mutations keep its invariants, whether they return or raise.
use openclaw_agentic_os.Prelude.{◌≡◌, ap, inl, inr}
use openclaw_agentic_os.Result.{ok}
use openclaw_agentic_os.Transaction.{transact-keeps, reads-keeps}
use openclaw_agentic_os.Budget.Tables.{Db, Runtime}
use openclaw_agentic_os.Budget.Ledger.{Engine}
use openclaw_agentic_os.Budget.Events.{BudgetEventResult}
use openclaw_agentic_os.Budget.PreAdmission.{
  EventRequest, Admission, admit_event-ok, checked_request-ok, admit_event, is_reserve, is_release,
}
use openclaw_agentic_os.Budget.PreDispatch.{record_budget_event, event_body}
use openclaw_agentic_os.Budget.PostAdmission.{
  PostEventRequest, PostAdmission, admit_post_event, admit_post_event-ok, checked_post_request-ok,
  is_post_dispatch,
}
use openclaw_agentic_os.Budget.PostDispatch.{record_post_dispatch_event, post_event_body}
use openclaw_agentic_os.Budget.Writes.{FreshEvent, event_body-ok}
use openclaw_agentic_os.Budget.PostWrites.{FreshPostEvent, post_event_body-ok}
use openclaw_agentic_os.Budget.Moves.{Moves-counters, Moves-post_dispatch}
use openclaw_agentic_os.Budget.Reconcile.{IsSound, IsSound-after_event}
use openclaw_agentic_os.Prelude.{true, ◌||◌}

FreshEvent-IsSound :
    (rt : Runtime) (engine : Engine) (q : EventRequest) (a : Admission) (db : Db)
    (r : BudgetEventResult) (db' : Db)
    → (is_reserve q.event_type || is_release q.event_type) ≡ true
    → admit_event rt engine db q ≡ ok a
    → FreshEvent engine q a db r db'
    → IsSound db
    → IsSound db'
FreshEvent-IsSound rt engine q a db r db' type admitted fresh sound =
    let payload = (admit_event-ok rt engine db q a admitted).payload in
    let w = fresh.written in
    rw w.after (
      IsSound-after_event db q.run_id _ w.row _ q.event_type q.amounts (ap (λ p. p.run_id) payload)
        (ap (λ p. p.event_type) payload) (ap (λ p. p.amounts) payload) w.found
        (Moves-counters q.event_type w.row q.amounts _ _ type w.fits) sound)

FreshPostEvent-IsSound :
    (rt : Runtime) (engine : Engine) (q : PostEventRequest) (a : PostAdmission) (db : Db)
    (r : BudgetEventResult) (db' : Db)
    → is_post_dispatch q.event_type ≡ true
    → admit_post_event rt engine db q ≡ ok a
    → FreshPostEvent engine q a db r db'
    → IsSound db
    → IsSound db'
FreshPostEvent-IsSound rt engine q a db r db' type admitted fresh sound =
    let payload = (admit_post_event-ok rt engine db q a admitted).payload in
    let w = fresh.written in
    rw w.after (
      IsSound-after_event db q.run_id _ w.row _ q.event_type q.amounts (ap (λ p. p.run_id) payload)
        (ap (λ p. p.event_type) payload) (ap (λ p. p.amounts) payload) w.found
        (Moves-post_dispatch q.event_type w.row q.amounts _ _ type w.fits) sound)

-- A reservation or a release, accepted, replayed or refused, keeps the ledger sound: every budget
-- agrees with the sums of its run's events, and reserved plus consumed stays within the budget.
pub record_budget_event-IsSound :
    (rt : Runtime) (engine : Engine) (request : EventRequest) (db : Db)
    → IsSound db
    → IsSound (record_budget_event rt engine request db).1
unfolding record_budget_event
record_budget_event-IsSound rt engine request db sound =
    reads-keeps IsSound _ _ db sound λ q checked.
      transact-keeps IsSound (event_body rt engine q) db sound λ r db' ran.
        let (a, admitted, (existing, looked, did)) = event_body-ok rt engine q db r db' ran in
        elim did [
          | inl (_, unchanged, _) ↦ rw unchanged sound
          | inr (_, fresh) ↦
              FreshEvent-IsSound rt engine q a db r db' (checked_request-ok rt request q checked).0
                admitted fresh sound
        ]

-- A usage, retry or human-attention event, accepted, replayed or refused, keeps the ledger sound:
-- every budget agrees with the sums of its run's events, and reserved plus consumed stays within
-- the budget.
pub record_post_dispatch_event-IsSound :
    (rt : Runtime) (engine : Engine) (request : PostEventRequest) (db : Db)
    → IsSound db
    → IsSound (record_post_dispatch_event rt engine request db).1
unfolding record_post_dispatch_event
record_post_dispatch_event-IsSound rt engine request db sound =
    reads-keeps IsSound _ _ db sound λ q checked.
      transact-keeps IsSound (post_event_body rt engine q) db sound λ r db' ran.
        let (a, admitted, (existing, looked, did)) = post_event_body-ok rt engine q db r db' ran in
        elim did [
          | inl (_, unchanged, _) ↦ rw unchanged sound
          | inr (_, fresh) ↦
              FreshPostEvent-IsSound rt engine q a db r db'
                (checked_post_request-ok rt request q checked).0 admitted fresh sound
        ]
