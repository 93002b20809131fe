-- ===== src/Budget/PostAdmission.antt =====
-- What `record_post_dispatch_event` checks and reads before it writes (src/agentic_os/budgets.py,
-- lines 957 to 1164).
use openclaw_agentic_os.Prelude.{
  ℕ, String, Bool, true, false, ◌&&◌, ◌||◌, not, Option, none, some, [], ◌∷◌, leb, ltb, same, ◌=ₜ◌,
  one_of, any, find, is_text, is_other_text, if◌then◌else◌, ◌≡◌, sym, ap, ◌∙◌,
}
use mathlib.Core.Option
use openclaw_agentic_os.Result.{
  Result, ok, err, budget_error, budget_conflict, budget_exceeded, require, ◌>>=◌, ◌>>◌, bind-ok,
  require-ok,
}
use openclaw_agentic_os.Budget.Amounts.{
  BudgetAmounts, getattr, sub_ℕ, budget_amounts, is_zero, BudgetAmounts-discrete,
}
use openclaw_agentic_os.Budget.Tables.{
  Db, Runtime, BudgetSelection, EventPayload, RunBudget, Run, SpawnRequest, RpcIntent, Session,
  EventType, Confidence, consume, retry_decrement, retry_restore, human_attention, other,
}
use openclaw_agentic_os.Budget.Identity.{
  required_text, event_id, dedupe_hash, trusted_created_at, max_epoch_ms,
}
use openclaw_agentic_os.Budget.Selection.{Selection-discrete, selected_binding, required_cost}
use openclaw_agentic_os.Budget.Ledger.{Engine, spawn_outstanding, is_unknown, is_consume}

-- The keyword arguments of `record_post_dispatch_event`.
pub record PostEventRequest : Type 0 where
  pub event_type : EventType
  pub run_id : String
  pub transition_id : String
  pub selection : BudgetSelection
  pub amounts : BudgetAmounts
  pub idempotency_key : String
  pub dedupe_key : String
  pub source : String
  pub usage_confidence : Confidence
  pub spawn_request_id : String
  pub clock_context_id : String

abbrev pub is_post_dispatch : EventType → Bool
is_post_dispatch consume = true
is_post_dispatch retry_decrement = true
is_post_dispatch retry_restore = true
is_post_dispatch human_attention = true
is_post_dispatch _ = false

-- Membership in `_POST_DISPATCH_USAGE_CONFIDENCE`.
abbrev is_confidence : Confidence → Bool
is_confidence other = false
is_confidence _ = true

abbrev pub retry_only : ℕ → BudgetAmounts
retry_only n = record { time = 0; input = 0; output = 0; cost = 0; retry = n; human = 0 }

abbrev pub human_only : ℕ → BudgetAmounts
human_only n = record { time = 0; input = 0; output = 0; cost = 0; retry = 0; human = n }

post_texts : Runtime → PostEventRequest → Result PostEventRequest
post_texts rt q = do
  run_id ← required_text rt (some q.run_id)
  transition_id ← required_text rt (some q.transition_id)
  idempotency_key ← required_text rt (some q.idempotency_key)
  dedupe_key ← required_text rt (some q.dedupe_key)
  source ← required_text rt (some q.source)
  spawn_request_id ← required_text rt (some q.spawn_request_id)
  clock_context_id ← required_text rt (some q.clock_context_id)
  ok (record q {
    run_id = run_id;
    transition_id = transition_id;
    idempotency_key = idempotency_key;
    dedupe_key = dedupe_key;
    source = source;
    spawn_request_id = spawn_request_id;
    clock_context_id = clock_context_id;
  })

retry_amounts : PostEventRequest → Result (Unit {0})
retry_amounts q = do
  require
      (same BudgetAmounts-discrete q.amounts (retry_only q.amounts.retry)
        && not (leb q.amounts.retry 0))
      (budget_error "must carry retry units only")
  require (not (is_unknown q.usage_confidence))
      (budget_error "retry events require known or estimated usage")

-- Which dimensions each event type may carry.
unfoldable pub check_post_amounts : EventType → PostEventRequest → Result (Unit {0})
unfolding retry_amounts BudgetAmounts-discrete is_zero
check_post_amounts consume q = do
  require (leb q.amounts.retry 0 && leb q.amounts.human 0)
      (budget_error "consume cannot carry retry or human-attention units")
  (if is_unknown q.usage_confidence
      then require (is_zero q.amounts)
          (budget_error "unknown usage must use a zero-amount classification")
      else require (not (is_zero q.amounts))
          (budget_error "known or estimated usage must carry a non-zero amount"))
check_post_amounts retry_decrement q = retry_amounts q
check_post_amounts retry_restore q = retry_amounts q
check_post_amounts _ q = do
  require
      (same BudgetAmounts-discrete q.amounts (human_only q.amounts.human)
        && not (leb q.amounts.human 0))
      (budget_error "human_attention must carry human-attention units only")
  require (not (is_unknown q.usage_confidence))
      (budget_error "human-attention events require known or estimated usage")

-- Everything before the connection is opened.
unfoldable pub checked_post_request : Runtime → PostEventRequest → Result PostEventRequest
unfolding post_texts
checked_post_request rt request = do
  require (is_post_dispatch request.event_type)
      (budget_error "unsupported post-dispatch event type")
  q ← post_texts rt request
  require (is_confidence q.usage_confidence) (budget_error "invalid post-dispatch usage confidence")
  check_post_amounts q.event_type q
  ok q

-- A nullable column against another nullable column.
equal_texts : Option String → Option String → Bool
equal_texts x none = false
equal_texts x (some t) = is_text x t

-- The JOIN of `external_rpc_intents` in the proof query.
intent_matches : String → SpawnRequest → RpcIntent → Bool
intent_matches spawn_request_id sr i =
    (i.rpc_kind =ₜ "sessions_spawn")
    && one_of i.state ("accepted" ∷ "reconciled" ∷ [])
    && is_text i.spawn_request_id spawn_request_id
    && (i.run_id =ₜ sr.run_id)
    && (i.transition_id =ₜ sr.transition_id)
    && (i.client_request_id =ₜ sr.client_request_id)
    && (i.idempotency_key =ₜ sr.spawn_idempotency_key)
    && is_text i.phase sr.phase
    && is_text i.agent_id sr.agent_id
    && is_text i.task_digest sr.task_digest
    && equal_texts i.external_id sr.session_key

-- The JOIN of `sessions` in the proof query.
session_matches : String → SpawnRequest → Session → Bool
session_matches spawn_request_id sr s =
    (s.spawn_request_id =ₜ spawn_request_id)
    && (s.run_id =ₜ sr.run_id)
    && (s.transition_id =ₜ sr.transition_id)
    && (s.client_request_id =ₜ sr.client_request_id)
    && (s.spawn_idempotency_key =ₜ sr.spawn_idempotency_key)
    && (s.phase =ₜ sr.phase)
    && (s.agent_id =ₜ sr.agent_id)
    && (s.task_digest =ₜ sr.task_digest)
    && is_text sr.session_key s.session_key

-- `s.state='completed' AND s.completed_at IS NOT NULL AND s.completed_at<>''`
session_completed : Session → Bool
session_completed s = (s.state =ₜ "completed") && is_other_text s.completed_at ""

-- What the proof query returns.
pub record SessionProof : Type 0 where
  pub spawn_state : String
  pub run_state : String
  pub accepted_at_epoch_ms : Option ℕ
  pub requested_at_epoch_ms : Option ℕ

proof_row : SpawnRequest → Option Run → Option RpcIntent → Option Session → Option SessionProof
proof_row sr (some r) (some i) (some s) = some (record {
  spawn_state = sr.state;
  run_state = r.state;
  accepted_at_epoch_ms = i.accepted_at_epoch_ms;
  requested_at_epoch_ms = i.requested_at_epoch_ms;
})
proof_row sr _ _ _ = none

-- The proof query; `completed` asks for a completed spawn request and session.
unfoldable pub session_proof : Db → Bool → String → String → String → Option SessionProof
unfolding intent_matches session_matches session_completed proof_row equal_texts one_of
session_proof db completed spawn_request_id run_id transition_id =
    Option.bind (db.reference.spawn_requests spawn_request_id) (λ sr.
      if (sr.run_id =ₜ run_id)
        && (sr.transition_id =ₜ transition_id)
        && one_of sr.state ("accepted" ∷ "completed" ∷ [])
        && (not completed || (sr.state =ₜ "completed"))
      then proof_row sr (db.reference.runs sr.run_id)
          (find (intent_matches spawn_request_id sr) db.reference.external_rpc_intents)
          (find
            (λ s. session_matches spawn_request_id sr s && (not completed || session_completed s))
            db.reference.sessions)
      else none)

unfoldable pub or_unproved : Option SessionProof → Result SessionProof
or_unproved none = err (budget_error "requires exact accepted session proof")
or_unproved (some p) = ok p

-- The clock of the event comes after the request and its acceptance.
unfoldable pub fresh_clock : Option ℕ → Option ℕ → ℕ → Bool
fresh_clock (some requested) (some accepted) created =
    leb 1 requested
    && leb requested max_epoch_ms
    && ltb requested accepted
    && ltb accepted created
    && ltb requested created
fresh_clock _ _ created = false

pub record PostAdmission : Type 0 where
  pub expected : EventPayload
  pub proof : SessionProof

-- A consume event of known usage costs at least the registry's price.
unfoldable pub check_usage_price : PostEventRequest → Result (Unit {0})
check_usage_price q =
    if is_consume q.event_type && not (is_unknown q.usage_confidence)
    then (do
      required ← required_cost q.selection q.amounts
      require (leb required q.amounts.cost)
          (budget_exceeded "usage cost is below the selected registry price for token amounts"))
    else ok tt

-- `expected`
abbrev pub post_event_payload : Runtime → PostEventRequest → String × ℕ → EventPayload
post_event_payload rt q stamp = record {
  budget_event_id = event_id rt q.idempotency_key;
  event_dedupe_hash = dedupe_hash rt q.dedupe_key;
  run_id = q.run_id;
  transition_id = q.transition_id;
  spawn_request_id = some q.spawn_request_id;
  cost = q.selection.binding;
  zero_reserve_policy_id = none;
  zero_reserve_policy_hash = none;
  event_type = q.event_type;
  amounts = q.amounts;
  usage_confidence = q.usage_confidence;
  source = q.source;
  created_at = stamp.0;
  created_at_epoch_ms = stamp.1;
  clock_context_id = some q.clock_context_id;
}

-- From `_verify_schema_identity` to `expected`.
unfoldable pub admit_post_event : Runtime → Engine → Db → PostEventRequest → Result PostAdmission
admit_post_event rt engine db q = do
  require (engine.schema_verified db) (budget_error "budget database schema verification failed")
  actual_selection ← selected_binding db true q.run_id q.transition_id
  require (same Selection-discrete actual_selection q.selection)
      (budget_conflict "requested budget selection differs from persisted selected cost row")
  proof ←
      or_unproved
        (session_proof db (is_consume q.event_type) q.spawn_request_id q.run_id q.transition_id)
  stamp ← trusted_created_at rt db q.run_id q.transition_id q.clock_context_id
  require (fresh_clock proof.requested_at_epoch_ms proof.accepted_at_epoch_ms stamp.1)
      (budget_error "post-dispatch budget event requires a fresh clock")
  check_usage_price q
  ok (record { expected = post_event_payload rt q stamp; proof = proof })

-- `poisoned_usage` and `usage_row`: no usage of the run is unknown, and the run has a budget.
usage_known : Option RunBudget → Bool
usage_known none = false
usage_known (some rb) = not (is_unknown rb.usage_confidence)

unfoldable pub has_unknown_event : Db → String → Bool
has_unknown_event db run_id =
    any (λ e. (e.payload.run_id =ₜ run_id) && is_unknown e.payload.usage_confidence)
      db.budget_events

unfoldable pub check_usage_known : Db → String → Result (Unit {0})
unfolding usage_known has_unknown_event
check_usage_known db run_id =
    require (usage_known (db.run_budgets run_id) && not (has_unknown_event db run_id))
      (budget_error "unknown usage confidence blocks post-dispatch budget mutation")

unfoldable pub check_post_run_state : PostAdmission → Result (Unit {0})
unfolding one_of
check_post_run_state a =
    require
      (one_of a.proof.run_state (
        "dispatched" ∷ "first_output_waiting" ∷ "running" ∷ "child_completed" ∷ "child_failed"
        ∷ "aggregation_completed" ∷ []))
      (budget_error "post-dispatch budget event requires an active post-dispatch run")

-- The tests of a consume event against the outstanding reservation of its spawn.
unfoldable pub check_consume : BudgetSelection → BudgetAmounts → BudgetAmounts → Result (Unit {0})
check_consume selection v outstanding = do
  require
      (leb v.time outstanding.time
        && leb v.input outstanding.input
        && leb v.output outstanding.output
        && leb v.cost outstanding.cost)
      (budget_exceeded "consume exceeds outstanding reservation")
  remaining ← budget_amounts (λ d. sub_ℕ (getattr outstanding d) (getattr v d))
  required ← required_cost selection remaining
  require (leb required remaining.cost)
      (budget_exceeded "consume would underfund the remaining per-spawn token reservation")

unfoldable pub check_against_outstanding :
    EventType → BudgetSelection → BudgetAmounts → BudgetAmounts → Result (Unit {0})
unfolding check_consume
check_against_outstanding consume selection v outstanding = check_consume selection v outstanding
check_against_outstanding retry_decrement selection v outstanding =
    require (leb v.retry outstanding.retry)
      (budget_exceeded "retry_decrement exceeds outstanding reservation")
check_against_outstanding human_attention selection v outstanding =
    require (leb v.human outstanding.human)
      (budget_exceeded "human_attention exceeds outstanding reservation")
check_against_outstanding _ selection v outstanding = ok tt

unfoldable pub check_outstanding : Db → PostEventRequest → Result (Unit {0})
check_outstanding db q = do
  outstanding ← spawn_outstanding db q.spawn_request_id q.run_id q.transition_id q.selection
  check_against_outstanding q.event_type q.selection q.amounts outstanding

-- A checked request is a post-dispatch event, of the type, amounts and selection it came with.
pub checked_post_request-ok :
    (rt : Runtime) (request q : PostEventRequest)
    → checked_post_request rt request ≡ ok q
    → (is_post_dispatch q.event_type ≡ true)
      × (q.event_type ≡ request.event_type)
      × (q.amounts ≡ request.amounts)
      × (check_post_amounts q.event_type q ≡ ok tt)
unfolding checked_post_request
checked_post_request-ok rt request q h =
    let (u, supported, h1) = bind-ok _ _ h in
    let (t, texts, h2) = bind-ok _ _ h1 in
    let (x1, g1, k1) = bind-ok _ _ texts in
    let (x2, g2, k2) = bind-ok _ _ k1 in
    let (x3, g3, k3) = bind-ok _ _ k2 in
    let (x4, g4, k4) = bind-ok _ _ k3 in
    let (x5, g5, k5) = bind-ok _ _ k4 in
    let (x6, g6, k6) = bind-ok _ _ k5 in
    let (x7, g7, k7) = bind-ok _ _ k6 in
    let (y1, c1, l1) = bind-ok _ _ h2 in
    let (y2, c2, l2) = bind-ok _ _ l1 in
    let same_request : t ≡ q = cc l2 in
    let type : q.event_type ≡ request.event_type = cc (same_request, k7) in
    let amounts : q.amounts ≡ request.amounts = cc (same_request, k7) in
    (
      ap is_post_dispatch type ∙ require-ok _ _ supported,
      type,
      amounts,
      ap (λ (r : PostEventRequest). check_post_amounts r.event_type r) (sym same_request) ∙ c2,
    )

-- What an admission has established.
pub record PostAdmitted (rt : Runtime) (db : Db) (q : PostEventRequest) (a : PostAdmission)
    : Type 0 where
  pub stamp : String × ℕ
  pub payload : a.expected ≡ post_event_payload rt q stamp
  pub proved :
      session_proof db (is_consume q.event_type) q.spawn_request_id q.run_id q.transition_id
      ≡ some a.proof
  pub clock : fresh_clock a.proof.requested_at_epoch_ms a.proof.accepted_at_epoch_ms stamp.1 ≡ true
  pub priced : check_usage_price q ≡ ok tt

or_unproved-ok : (o : Option SessionProof) (p : SessionProof) → or_unproved o ≡ ok p → o ≡ some p
unfolding or_unproved
or_unproved-ok none p h = cc
or_unproved-ok (some x) p h = cc

pub admit_post_event-ok :
    (rt : Runtime) (engine : Engine) (db : Db) (q : PostEventRequest) (a : PostAdmission)
    → admit_post_event rt engine db q ≡ ok a
    → PostAdmitted rt db q a
unfolding admit_post_event
admit_post_event-ok rt engine db q a h =
    let (u1, g1, h1) = bind-ok _ _ h in
    let (s1, g2, h2) = bind-ok _ _ h1 in
    let (u2, g3, h3) = bind-ok _ _ h2 in
    let (pf, g4, h4) = bind-ok _ _ h3 in
    let (st, g5, h5) = bind-ok _ _ h4 in
    let (u3, g6, h6) = bind-ok _ _ h5 in
    let (u4, g7, h7) = bind-ok _ _ h6 in
    let same_proof : pf ≡ a.proof = cc h7 in
    record {
      stamp = st;
      payload = cc h7;
      proved = or_unproved-ok _ _ g4 ∙ ap some same_proof;
      clock = rw (← same_proof) (require-ok _ _ g6);
      priced = g7;
    }
