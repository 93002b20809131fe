-- ===== src/Budget/Idempotence.antt =====
-- A reservation or release that is recorded, and recorded again.
use openclaw_agentic_os.Prelude.{
  ℕ, String, Bool, true, false, ◌≡◌, refl, sym, ap, ◌∙◌, some, none, false, put, Option, ◌&&◌, find,
  text_self, same_self, if◌then◌else◌,
}
use openclaw_agentic_os.Result.{ok, bind-ok, require-ok}
use openclaw_agentic_os.Transaction.{◌>>=◌, transact}
use openclaw_agentic_os.Budget.Tables.{
  Db, Runtime, BudgetEvent, RunBudget, EventPayload, EventPayload-discrete, EventType, reserve,
  release, consume, retry_decrement, retry_restore, human_attention, BudgetSelection, Confidence,
  known, estimated, unknown, other,
}
use openclaw_agentic_os.Budget.Ledger.{Engine, assert_budget_invariants}
use openclaw_agentic_os.Budget.Identity.{trusted_created_at, trusted_clock}
use openclaw_agentic_os.Budget.Selection.{
  selected_binding, selected_row, binding_matches, or_unbound, zero_policy_hash, is_usable,
}
use openclaw_agentic_os.Budget.Amounts.{BudgetAmounts}
use openclaw_agentic_os.Budget.Counters.{counters_set, widen}
use mathlib.Core.Option
use openclaw_agentic_os.Budget.Events.{BudgetEventResult, existing_event}
use openclaw_agentic_os.Budget.PreAdmission.{
  EventRequest, Admission, checked_request, admit_event, spawn_identity_row,
}
use openclaw_agentic_os.Budget.PreDispatch.{
  event_row, recorded, record_budget_event, event_body, replay_or,
}
use openclaw_agentic_os.Budget.Writes.{after_event, record_budget_event-Accepted}

-- A budget whose counters and confidence are written.
abbrev reshaped : RunBudget → BudgetAmounts → Confidence → String → RunBudget
reshaped rb amounts confidence updated_at = record rb {
  reserved = amounts;
  usage_confidence = confidence;
  updated_at = updated_at;
}

widen-usable : (a b : Confidence) → is_usable a ≡ true → is_usable (widen a b) ≡ true
widen-usable known estimated h = refl
widen-usable known known h = refl
widen-usable known unknown h = refl
widen-usable known other h = refl
widen-usable estimated b h = refl
widen-usable unknown b h = cc
widen-usable other b h = cc

bind-some :
    {A B : Type 0} (o : Option A) (f : A → Option B) (y : B)
    → Option.bind o f ≡ some y
    → (x : A) × (o ≡ some x) × (f x ≡ some y)
unfolding Option.bind
bind-some none f y h = cc
bind-some (some x) f y h = (x, refl, h)

tested-some : {A : Type 0} (b : Bool) (x y : A) → (if b then some x else none) ≡ some y → b ≡ true
tested-some true x y h = refl
tested-some false x y h = cc

last_test : (a b : Bool) → (a && b) ≡ true → b ≡ true
last_test true b h = h
last_test false b h = cc

or_unbound-ok :
    (o : Option BudgetSelection) (s : BudgetSelection) → or_unbound o ≡ ok s → o ≡ some s
unfolding or_unbound
or_unbound-ok none s h = cc
or_unbound-ok (some x) s h = cc

-- The budget that was selected is usable.
selected-usable :
    (db : Db) (run_id transition_id : String) (rb : RunBudget) (s : BudgetSelection)
    → db.run_budgets run_id ≡ some rb
    → selected_binding db false run_id transition_id ≡ ok s
    → is_usable rb.usage_confidence ≡ true
unfolding selected_binding selected_row binding_matches
selected-usable db run_id transition_id rb s found h =
    let row = bind-some _ _ s (or_unbound-ok _ s h) in
    let run = bind-some _ _ s row.2 in
    let transition = bind-some _ _ s run.2 in
    let cost = bind-some _ _ s transition.2 in
    let matches = tested-some _ _ s cost.2 in
    let usable : is_usable (row.0).usage_confidence ≡ true = last_test _ _ matches in
    let same_row : row.0 ≡ rb = some_same row.0 rb (sym row.1 ∙ found) in
    ap (λ (x : RunBudget). is_usable x.usage_confidence) (sym same_row) ∙ usable
  where
    some_same : (x y : RunBudget) → ◌≡◌ {A = Option RunBudget} (some x) (some y) → x ≡ y
    some_same x y e = cc

selected_binding-after :
    (db : Db) (run_id transition_id : String) (e : BudgetEvent) (rb : RunBudget) (x : BudgetAmounts)
    (c : Confidence) (u : String)
    → db.run_budgets run_id ≡ some rb
    → is_usable rb.usage_confidence ≡ true
    → is_usable c ≡ true
    → selected_binding (after_event db run_id e (reshaped rb x c u)) false run_id transition_id
      ≡ selected_binding db false run_id transition_id
unfolding selected_binding Option.bind put
selected_binding-after db run_id transition_id e rb x c u found before after =
    rw (text_self run_id) (rw found (rw before (rw after refl)))

schema-before :
    (rt : Runtime) (engine : Engine) (db : Db) (q : EventRequest) (a : Admission)
    → admit_event rt engine db q ≡ ok a
    → engine.schema_verified db ≡ true
unfolding admit_event
schema-before rt engine db q a h = require-ok _ _ (bind-ok _ _ h).1

-- What a call writes does not bear on whether its request is admitted.
admit_event-after :
    (rt : Runtime) (engine : Engine) (db : Db) (q : EventRequest) (e : BudgetEvent) (rb : RunBudget)
    (x : BudgetAmounts) (c : Confidence) (u : String)
    → engine.schema_verified db ≡ true
    → db.run_budgets q.run_id ≡ some rb
    → is_usable rb.usage_confidence ≡ true
    → is_usable c ≡ true
    → engine.schema_verified (after_event db q.run_id e (reshaped rb x c u)) ≡ true
    → admit_event rt engine (after_event db q.run_id e (reshaped rb x c u)) q
      ≡ admit_event rt engine db q
unfolding admit_event trusted_created_at trusted_clock zero_policy_hash spawn_identity_row
admit_event-after rt engine db q e rb x c u schema found before after verified = rw verified (
    rw schema
      (rw (selected_binding-after db q.run_id q.transition_id e rb x c u found before after) refl))

admitted-selected :
    (rt : Runtime) (engine : Engine) (db : Db) (q : EventRequest) (a : Admission)
    → admit_event rt engine db q ≡ ok a
    → (s : BudgetSelection) × (selected_binding db false q.run_id q.transition_id ≡ ok s)
unfolding admit_event
admitted-selected rt engine db q a h =
    let selected = bind-ok _ _ (bind-ok _ _ h).2 in (selected.0, selected.1)

-- The counters of a reservation or release.
counters_set-reshaped :
    (t : EventType) (rb : RunBudget) (v : BudgetAmounts) (c : Confidence) (u : String)
    → (x : BudgetAmounts) × (counters_set t rb v c u
        ≡ reshaped rb x (widen rb.usage_confidence c) u)
unfolding counters_set
counters_set-reshaped reserve rb v c u = (_, refl)
counters_set-reshaped release rb v c u = (_, refl)
counters_set-reshaped consume rb v c u = (_, refl)
counters_set-reshaped retry_decrement rb v c u = (_, refl)
counters_set-reshaped retry_restore rb v c u = (_, refl)
counters_set-reshaped human_attention rb v c u = (_, refl)

existing_event-inserted :
    (db : Db) (key run_id : String) (payload : EventPayload) (n : ℕ) (rb : RunBudget)
    → existing_event (after_event db run_id (event_row payload key n none) rb) key payload
      ≡ ok (some (record (recorded payload n) { replayed = true }))
unfolding existing_event find
existing_event-inserted db key run_id payload n rb =
    rw (text_self key) (rw (same_self EventPayload-discrete payload) refl)

-- A body whose request is admitted and whose key stands replays it.
event_body-replays :
    (rt : Runtime) (engine : Engine) (q : EventRequest) (db : Db) (a : Admission)
    (r : BudgetEventResult)
    → admit_event rt engine db q ≡ ok a
    → existing_event db q.idempotency_key a.expected ≡ ok (some r)
    → assert_budget_invariants engine db ≡ ok tt
    → event_body rt engine q db ≡ (ok r, db)
unfolding event_body replay_or ◌>>=◌
event_body-replays rt engine q db a r admitted found invariants =
    rw admitted (rw found (rw invariants refl))

record_budget_event-runs :
    (rt : Runtime) (engine : Engine) (request q : EventRequest) (db : Db) (r : BudgetEventResult)
    → checked_request rt request ≡ ok q
    → event_body rt engine q db ≡ (ok r, db)
    → record_budget_event rt engine request db ≡ (ok r, db)
unfolding record_budget_event transact ◌>>=◌
record_budget_event-runs rt engine request q db r checked ran = rw checked (rw ran refl)

-- A retry is idempotent: after a reservation or release that was recorded, the same call on what it
-- left writes nothing and returns the same event and the same sequence number, as a replay, as long
-- as the schema of the database still verifies.
pub record_budget_event-idempotent :
    (rt : Runtime) (engine : Engine) (request : EventRequest) (db db' : Db) (r : BudgetEventResult)
    → record_budget_event rt engine request db ≡ (ok r, db')
    → r.replayed ≡ false
    → engine.schema_verified db' ≡ true
    → record_budget_event rt engine request db' ≡ (ok (record r { replayed = true }), db')
record_budget_event-idempotent rt engine request db db' r h new verified =
    let c = record_budget_event-Accepted rt engine request db r db' h new in
    let w = c.fresh.written in
    let e = event_row c.a.expected c.q.idempotency_key c.fresh.number none in
    let shape =
      counters_set-reshaped c.q.event_type w.row c.q.amounts c.q.usage_confidence
        c.a.expected.created_at in
    let left = w.after ∙ ap (after_event db c.q.run_id e) shape.1 in
    let chosen = admitted-selected rt engine db c.q c.a c.admitted in
    let usable = selected-usable db c.q.run_id c.q.transition_id w.row chosen.0 w.found chosen.1 in
    record_budget_event-runs rt engine request c.q db' (record r { replayed = true }) c.checked
      (event_body-replays rt engine c.q db' c.a (record r { replayed = true })
        (ap (λ d. admit_event rt engine d c.q) left
          ∙ admit_event-after rt engine db c.q e w.row shape.0 _ _
              (schema-before rt engine db c.q c.a c.admitted) w.found usable
              (widen-usable w.row.usage_confidence c.q.usage_confidence usable)
              (ap engine.schema_verified (sym left) ∙ verified)
          ∙ c.admitted)
        (ap (λ d. existing_event d c.q.idempotency_key c.a.expected) left
          ∙ existing_event-inserted db c.q.idempotency_key c.q.run_id c.a.expected c.fresh.number _
          ∙ ap (λ (x : BudgetEventResult). ok (some (record x { replayed = true }))) (sym w.result))
        w.invariants)
