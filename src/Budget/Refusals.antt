-- ===== src/Budget/Refusals.antt =====
-- When the ledger is closed to a spawn, and how its sequence numbers advance.
use openclaw_agentic_os.Prelude.{
  ◌+◌, ◌≤◌, ◌≡◌, sym, ap, ◌∙◌, true, false, inl, inr, ◌⊎◌, some, any, arith,
}
use openclaw_agentic_os.Result.{ok, require-ok}
use openclaw_agentic_os.Budget.Tables.{Db, Runtime}
use openclaw_agentic_os.Budget.Ledger.{Engine}
use openclaw_agentic_os.Budget.Events.{
  BudgetEventResult, max_event_sequence, last_sequence, next_sequence-ok, last_sequence-cons,
  settles, reject_event_after_final_settlement, existing_event,
}
use openclaw_agentic_os.Budget.PreAdmission.{EventRequest, checked_request, admit_event-ok}
use openclaw_agentic_os.Budget.PreDispatch.{record_budget_event}
use openclaw_agentic_os.Budget.PostAdmission.{
  PostEventRequest, PostAdmission, checked_post_request, check_usage_known, has_unknown_event,
  admit_post_event,
}
use openclaw_agentic_os.Budget.PostDispatch.{record_post_dispatch_event, post_event_body}
use openclaw_agentic_os.Budget.Writes.{record_budget_event-Accepted}
use openclaw_agentic_os.Budget.PostWrites.{
  post_event_body-ok, record_post_dispatch_event-ok, FreshPostEvent,
}

closed_refuses :
    {engine : Engine} (q : PostEventRequest) (a : PostAdmission) (db : Db) (r : BudgetEventResult)
    (db' : Db)
    → FreshPostEvent engine q a db r db'
    → (any (settles q.run_id q.transition_id q.spawn_request_id) db.budget_settlements ≡ true)
      ⊎ (has_unknown_event db q.run_id ≡ true)
    → ⊥
unfolding reject_event_after_final_settlement check_usage_known
closed_refuses q a db r db' fresh (inl settled) = ground (arith, require-ok _ _ fresh.open_ledger)
closed_refuses q a db r db' fresh (inr unknown_usage) =
    ground (arith, require-ok _ _ fresh.usage_known)

-- Once a spawn has a final settlement, or the usage of its run is unknown in the ledger, no
-- post-dispatch call for it writes anything: one that returns is the replay of an event that stands
-- in the ledger.
pub closed_ledger_only_replays :
    (rt : Runtime) (engine : Engine) (request q : PostEventRequest) (db : Db)
    (r : BudgetEventResult) (db' : Db)
    → checked_post_request rt request ≡ ok q
    → (any (settles q.run_id q.transition_id q.spawn_request_id) db.budget_settlements ≡ true)
      ⊎ (has_unknown_event db q.run_id ≡ true)
    → record_post_dispatch_event rt engine request db ≡ (ok r, db')
    → (db' ≡ db)
      × (a : PostAdmission) × (admit_post_event rt engine db q ≡ ok a)
      × (existing_event db q.idempotency_key a.expected ≡ ok (some r))
closed_ledger_only_replays rt engine request q db r db' checked closed h =
    let (q', checked', ran) = record_post_dispatch_event-ok rt engine request db r db' h in
    let same_request : q' ≡ q = cc (checked, checked') in
    let (a, admitted, (existing, looked, did)) =
      post_event_body-ok rt engine q db r db'
        (ap (λ x. post_event_body rt engine x db) (sym same_request) ∙ ran) in
    elim did [
      | inl (old, unchanged, _) ↦ (unchanged, a, admitted, looked ∙ ap ok old)
      | inr (_, fresh) ↦ absurd (closed_refuses q a db r db' fresh closed)
    ]

-- An accepted reservation or release gets the next sequence number of its run: one above the last,
-- within the limit, and the last of the run from then on.
pub sequence_advances :
    (rt : Runtime) (engine : Engine) (request : EventRequest) (db : Db) (r : BudgetEventResult)
    (db' : Db)
    → record_budget_event rt engine request db ≡ (ok r, db')
    → r.replayed ≡ false
    → (q : EventRequest) × (checked_request rt request ≡ ok q)
      × (r.event_sequence ≡ last_sequence q.run_id db.budget_events + 1)
      × (r.event_sequence ≤ max_event_sequence)
      × (last_sequence q.run_id db'.budget_events ≡ r.event_sequence)
sequence_advances rt engine request db r db' h new =
    let c = record_budget_event-Accepted rt engine request db r db' h new in
    let w = c.fresh.written in
    let (next, within) = next_sequence-ok db c.q.run_id c.fresh.number c.fresh.numbered in
    let number : r.event_sequence ≡ c.fresh.number = ap (λ x. x.event_sequence) w.result in
    let payload = (admit_event-ok rt engine db c.q c.a c.admitted).payload in
    (
      c.q,
      c.checked,
      number ∙ next,
      omega (arith, number, within),
      ap (λ (x : Db). last_sequence c.q.run_id x.budget_events) w.after
          ∙ last_sequence-cons c.q.run_id _ db.budget_events (ap (λ p. p.run_id) payload) next
          ∙ sym number,
    )
