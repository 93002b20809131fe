-- ===== src/Budget/PreAdmission.antt =====
-- What `record_budget_event` checks and reads before it writes (src/agentic_os/budgets.py, lines
-- 627 to 773).
use openclaw_agentic_os.Prelude.{
  ℕ, String, Bool, true, false, ◌&&◌, ◌||◌, not, Option, none, some, [], ◌∷◌, leb, same, ◌=ₜ◌,
  one_of, any, is_text, is_some, if◌then◌else◌, not-true, ◌≡◌, sym, ap, ◌∙◌,
}
use openclaw_agentic_os.Result.{
  Result, ok, err, budget_error, budget_conflict, budget_exceeded, require, ◌>>=◌, ◌>>◌, bind-ok,
  require-ok,
}
use openclaw_agentic_os.Budget.Amounts.{
  BudgetAmounts, getattr, sub_ℕ, budget_amounts, is_zero, all_fields,
}
use openclaw_agentic_os.Budget.Tables.{
  Db, Runtime, BudgetSelection, EventPayload, Run, SpawnRequest, EventType, Confidence, reserve,
  release,
}
use openclaw_agentic_os.Budget.Identity.{required_text, event_id, dedupe_hash, trusted_created_at}
use openclaw_agentic_os.Budget.Selection.{
  is_usable, Selection-discrete, selected_binding, required_cost, zero_policy_hash,
}
use openclaw_agentic_os.Budget.Ledger.{Engine, spawn_outstanding}

-- The keyword arguments of `record_budget_event`.
pub record EventRequest : Type 0 where
  pub event_type : EventType
  pub run_id : String
  pub transition_id : String
  pub selection : BudgetSelection
  pub amounts : BudgetAmounts
  pub idempotency_key : String
  pub dedupe_key : String
  pub source : String
  pub usage_confidence : Confidence
  pub spawn_request_id : String
  pub zero_reserve_policy_id : Option String
  pub clock_context_id : Option String

abbrev pub is_reserve : EventType → Bool
is_reserve reserve = true
is_reserve _ = false

abbrev pub is_release : EventType → Bool
is_release release = true
is_release _ = false

-- The chained comparison `amounts.input_tokens == amounts.output_tokens == amounts.cost_microusd == 0`.
unfoldable pub zero_token_cost : BudgetAmounts → Bool
zero_token_cost a = leb a.input 0 && leb a.output 0 && leb a.cost 0

unfoldable pub same_test : Bool → Bool → Bool
same_test true b = b
same_test false b = not b

-- The texts of the request, stripped.
required_texts : Runtime → EventRequest → Result EventRequest
required_texts rt q = do
  run_id ← required_text rt (some q.run_id)
  transition_id ← required_text rt (some q.transition_id)
  idempotency_key ← required_text rt (some q.idempotency_key)
  dedupe_key ← required_text rt (some q.dedupe_key)
  source ← required_text rt (some q.source)
  spawn_request_id ← required_text rt (some q.spawn_request_id)
  clock_context_id ← required_text rt q.clock_context_id
  ok (record q {
    run_id = run_id;
    transition_id = transition_id;
    idempotency_key = idempotency_key;
    dedupe_key = dedupe_key;
    source = source;
    spawn_request_id = spawn_request_id;
    clock_context_id = some clock_context_id;
  })

-- The guards on the amounts, the confidence and the zero-reserve policy.
checked_event : EventRequest → Result EventRequest
checked_event q = do
  require (is_usable q.usage_confidence)
      (budget_error "unknown usage confidence blocks budget mutation")
  require (not (is_zero q.amounts)) (budget_error "event must carry a non-zero amount")
  require
      (not (is_reserve q.event_type)
        || same_test (zero_token_cost q.amounts) (is_some q.zero_reserve_policy_id))
      (budget_error "zero token/cost reserve requires exactly one zero-reserve policy")
  require (is_reserve q.event_type || not (is_some q.zero_reserve_policy_id))
      (budget_error "zero-reserve policy is valid only for reserve events")
  ok q

-- Everything before the connection is opened.
unfoldable pub checked_request : Runtime → EventRequest → Result EventRequest
unfolding required_texts checked_event
checked_request rt q = do
  require (is_reserve q.event_type || is_release q.event_type)
      (budget_error "unsupported budget event type")
  texts ← required_texts rt q
  checked_event texts

-- `spawn_identity`: the states of a spawn request and of its run.
unfoldable pub spawn_identity_row :
    Db → String → String → Option SpawnRequest → Option Run → Result (String × String)
spawn_identity_row db run_id transition_id (some sr) (some r) =
    if (sr.run_id =ₜ run_id) && (sr.transition_id =ₜ transition_id)
    then ok (sr.state, r.state)
    else err (budget_error "budget event requires an exact same-run spawn request")
spawn_identity_row db run_id transition_id _ _ =
    err (budget_error "budget event requires an exact same-run spawn request")

-- The clock context of a checked request, which is never `none`.
abbrev pub text_of : Option String → String
text_of none = ""
text_of (some t) = t

-- What the transaction has read when it compares with an earlier event.
pub record Admission : Type 0 where
  pub expected : EventPayload
  pub spawn_state : String
  pub run_state : String

-- `expected`
abbrev pub event_payload : Runtime → EventRequest → String × ℕ → Option String → EventPayload
event_payload rt q stamp policy_hash = record {
  budget_event_id = event_id rt q.idempotency_key;
  event_dedupe_hash = dedupe_hash rt q.dedupe_key;
  run_id = q.run_id;
  transition_id = q.transition_id;
  spawn_request_id = some q.spawn_request_id;
  cost = q.selection.binding;
  zero_reserve_policy_id = q.zero_reserve_policy_id;
  zero_reserve_policy_hash = policy_hash;
  event_type = q.event_type;
  amounts = q.amounts;
  usage_confidence = q.usage_confidence;
  source = q.source;
  created_at = stamp.0;
  created_at_epoch_ms = stamp.1;
  clock_context_id = none;
}

-- From `_verify_schema_identity` to `expected`.
unfoldable pub admit_event : Runtime → Engine → Db → EventRequest → Result Admission
admit_event rt engine db q = do
  require (engine.schema_verified db) (budget_error "budget database schema verification failed")
  actual_selection ← selected_binding db false q.run_id q.transition_id
  require (same Selection-discrete actual_selection q.selection)
      (budget_conflict "requested budget selection differs from persisted selected cost row")
  spawn_identity ←
      spawn_identity_row db q.run_id q.transition_id
        (db.reference.spawn_requests q.spawn_request_id) (db.reference.runs q.run_id)
  stamp ← trusted_created_at rt db q.run_id q.transition_id (text_of q.clock_context_id)
  required ← required_cost q.selection q.amounts
  require (not (is_reserve q.event_type) || leb required q.amounts.cost)
      (budget_exceeded "recorded cost is below the selected registry price for token amounts")
  policy_hash ← zero_policy_hash rt db q.zero_reserve_policy_id q.selection
  ok (record {
    expected = event_payload rt q stamp policy_hash;
    spawn_state = spawn_identity.0;
    run_state = spawn_identity.1;
  })

-- `prior_intent`
unfoldable pub has_spawn_intent : Db → String → String → String → Bool
has_spawn_intent db run_id transition_id spawn_request_id =
    any
      (λ i.
        (i.rpc_kind =ₜ "sessions_spawn")
        && (i.run_id =ₜ run_id)
        && (i.transition_id =ₜ transition_id)
        && is_text i.spawn_request_id spawn_request_id)
      db.reference.external_rpc_intents

-- The spawn and its run must still stand before dispatch.
unfoldable pub check_pre_dispatch : Db → EventRequest → Admission → Result (Unit {0})
unfolding has_spawn_intent one_of
check_pre_dispatch db q a = do
  require (a.spawn_state =ₜ "pending") (budget_error "requires a pending pre-RPC spawn request")
  require (one_of a.run_state ("candidate" ∷ []))
      (budget_error "requires an owning run in pre-dispatch state")
  require (not (has_spawn_intent db q.run_id q.transition_id q.spawn_request_id))
      (budget_error "requires no existing sessions_spawn intent for the spawn request")

-- The tests of a release against the outstanding reservation of its spawn.
unfoldable pub check_release : Db → EventRequest → Result (Unit {0})
unfolding all_fields
check_release db q = do
  outstanding ← spawn_outstanding db q.spawn_request_id q.run_id q.transition_id q.selection
  require (all_fields (λ d. leb (getattr q.amounts d) (getattr outstanding d)))
      (budget_exceeded "exceeds outstanding reservation")
  remaining ← budget_amounts (λ d. sub_ℕ (getattr outstanding d) (getattr q.amounts d))
  required ← required_cost q.selection remaining
  require (leb required remaining.cost)
      (budget_exceeded "release would underfund the remaining per-spawn token reservation")

unfoldable pub check_reservation : Db → EventRequest → Result (Unit {0})
unfolding check_release
check_reservation db q = if is_release q.event_type then check_release db q else ok tt

-- A checked request is a reservation or a release, of the type, amounts and selection it came with.
pub checked_request-ok :
    (rt : Runtime) (request q : EventRequest)
    → checked_request rt request ≡ ok q
    → ((is_reserve q.event_type || is_release q.event_type) ≡ true)
      × (q.event_type ≡ request.event_type)
      × (q.amounts ≡ request.amounts)
      × (q.selection ≡ request.selection)
      × (is_zero q.amounts ≡ false)
unfolding checked_request
checked_request-ok rt request q h =
    let (u, supported, h1) = bind-ok _ _ h in
    let (t, texts, h2) = bind-ok _ _ h1 in
    let (x1, g1, k1) = bind-ok _ _ texts in
    let (x2, g2, k2) = bind-ok _ _ k1 in
    let (x3, g3, k3) = bind-ok _ _ k2 in
    let (x4, g4, k4) = bind-ok _ _ k3 in
    let (x5, g5, k5) = bind-ok _ _ k4 in
    let (x6, g6, k6) = bind-ok _ _ k5 in
    let (x7, g7, k7) = bind-ok _ _ k6 in
    let (y1, c1, l1) = bind-ok _ _ h2 in
    let (y2, c2, l2) = bind-ok _ _ l1 in
    let (y3, c3, l3) = bind-ok _ _ l2 in
    let (y4, c4, l4) = bind-ok _ _ l3 in
    let same_request : t ≡ q = cc l4 in
    let type : q.event_type ≡ request.event_type = cc (same_request, k7) in
    let amounts : q.amounts ≡ request.amounts = cc (same_request, k7) in
    let selection : q.selection ≡ request.selection = cc (same_request, k7) in
    let nonzero : is_zero t.amounts ≡ false = not-true (require-ok _ _ c2) in
    (
      ap (λ ty. is_reserve ty || is_release ty) type ∙ require-ok _ _ supported,
      type,
      amounts,
      selection,
      ap (λ (r : EventRequest). is_zero r.amounts) (sym same_request) ∙ nonzero,
    )

-- What an admission has established.
pub record Admitted (rt : Runtime) (db : Db) (q : EventRequest) (a : Admission) : Type 0 where
  pub stamp : String × ℕ
  pub policy_hash : Option String
  pub payload : a.expected ≡ event_payload rt q stamp policy_hash
  pub required : ℕ
  pub priced : required_cost q.selection q.amounts ≡ ok required
  pub funded : (not (is_reserve q.event_type) || leb required q.amounts.cost) ≡ true

pub admit_event-ok :
    (rt : Runtime) (engine : Engine) (db : Db) (q : EventRequest) (a : Admission)
    → admit_event rt engine db q ≡ ok a
    → Admitted rt db q a
unfolding admit_event
admit_event-ok rt engine db q a h =
    let (u1, g1, h1) = bind-ok _ _ h in
    let (s1, g2, h2) = bind-ok _ _ h1 in
    let (u2, g3, h3) = bind-ok _ _ h2 in
    let (id, g4, h4) = bind-ok _ _ h3 in
    let (st, g5, h5) = bind-ok _ _ h4 in
    let (n, g6, h6) = bind-ok _ _ h5 in
    let (u3, g7, h7) = bind-ok _ _ h6 in
    let (ph, g8, h8) = bind-ok _ _ h7 in
    record {
      stamp = st;
      policy_hash = ph;
      payload = cc h8;
      required = n;
      priced = g6;
      funded = require-ok _ _ g7;
    }
