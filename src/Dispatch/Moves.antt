-- ===== src/Dispatch/Moves.antt =====
-- The moves that the UPDATEs of the dispatcher make, by the states that their WHEREs select.
use openclaw_agentic_os.Prelude.{
  String, Bool, true, false, ◌≡◌, refl, ◌∙◌, Option, none, some, ◌=ₜ◌,
}
use openclaw_agentic_os.Dispatch.Rows.{Db, Intent, IntentState, Lease, LeaseState, RpcKind}
use openclaw_agentic_os.Dispatch.Request.{DispatchRequest}
use openclaw_agentic_os.Dispatch.Replay.{of_kind}
use openclaw_agentic_os.Dispatch.Marks.{
  is_open, is_unsettled, owned_lease, unreviewed_lease, releasing,
}
use openclaw_agentic_os.Dispatch.Persist.{
  open_of, update_intents, settled_state, acquirable, expirable, in_review,
}
use openclaw_agentic_os.Dispatch.Release.{is_acquired, is_release_pending}
use openclaw_agentic_os.Dispatch.Lifecycle.{
  IntentStep, accept, reconcile, LeaseStep, prepare, Reach, here, next, LeaseMoves, Evolves,
}
use openclaw_agentic_os.Dispatch.Steps.{
  and_left, and_right, open_unsettled, IntentMoves-step, Evolves-intents,
}

pub settle-step : (b : Bool) (s : IntentState) → is_open s ≡ true → IntentStep s (settled_state b)
settle-step true s h = reconcile h
settle-step false s h = accept h

-- An open intent of a kind, moved to a state by one step.
pub open-Evolves :
    (kind : RpcKind) (key : String) (set : Intent → Intent) (db : Db)
    → ((i : Intent) → (set i).identity ≡ i.identity)
    → ((i : Intent) → is_open i.state ≡ true → IntentStep i.state (set i).state)
    → Evolves db (update_intents (open_of kind key) set db)
open-Evolves kind key set db same step = Evolves-intents _ set db λ i h.
    IntentMoves-step i (set i) (same i)
      (open_unsettled i.state (and_right (of_kind kind key i) (is_open i.state) h))
      (next here (step i (and_right (of_kind kind key i) (is_open i.state) h)))

-- A lease whose request and gateway identity an UPDATE does not write.
pub LeaseMoves-step :
    (a b : Lease)
    → b.identity ≡ a.identity
    → b.gateway_lease_id ≡ a.gateway_lease_id
    → Reach LeaseStep a.state b.state
    → LeaseMoves a b
LeaseMoves-step a b same gateway steps = record {
  identity = same;
  states = steps;
  held = λ g h. gateway ∙ h;
}

pub unreviewed-step :
    (s : LeaseState) → unreviewed_lease s ≡ true → LeaseStep s LeaseState.human_review_required
unfolding unreviewed_lease
unreviewed-step LeaseState.acquired h = cc
unreviewed-step LeaseState.released h = cc
unreviewed-step LeaseState.human_review_required h = cc
unreviewed-step LeaseState.acquire_pending h = LeaseStep.review refl
unreviewed-step LeaseState.release_pending h = LeaseStep.review refl
unreviewed-step LeaseState.release_not_required h = LeaseStep.review refl
unreviewed-step LeaseState.expired h = LeaseStep.review refl

pub releasing-steps :
    (s : LeaseState) → releasing s ≡ true → Reach LeaseStep s LeaseState.release_pending
unfolding releasing
releasing-steps LeaseState.acquired h = next here prepare
releasing-steps LeaseState.release_pending h = here
releasing-steps LeaseState.acquire_pending h = cc
releasing-steps LeaseState.released h = cc
releasing-steps LeaseState.release_not_required h = cc
releasing-steps LeaseState.expired h = cc
releasing-steps LeaseState.human_review_required h = cc

-- What `acquirable` and `expirable` select.
pub acquirable-pending :
    (q : DispatchRequest) (l : Lease)
    → acquirable q l ≡ true
    → (l.state ≡ LeaseState.acquire_pending) × (l.gateway_lease_id ≡ none)
unfolding acquirable
acquirable-pending q l h = (
  state l.state (and_right (l.identity.client_lease_id =ₜ q.client_lease_id) _ (and_left _ _ h)),
  gateway l.gateway_lease_id (and_right _ _ h),
)
  where
    state :
        (s : LeaseState)
        → elim s [ LeaseState.acquire_pending ↦ true | _ ↦ false ] ≡ true
        → s ≡ LeaseState.acquire_pending
    state LeaseState.acquire_pending e = refl
    state LeaseState.acquired e = cc
    state LeaseState.release_pending e = cc
    state LeaseState.released e = cc
    state LeaseState.release_not_required e = cc
    state LeaseState.expired e = cc
    state LeaseState.human_review_required e = cc

    gateway : (g : Option String) → elim g [ none ↦ true | some _ ↦ false ] ≡ true → g ≡ none
    gateway none e = refl
    gateway (some x) e = cc

pub expirable-acquired :
    (q : DispatchRequest) (gateway : String) (l : Lease)
    → expirable q gateway l ≡ true
    → l.state ≡ LeaseState.acquired
unfolding expirable
expirable-acquired q gateway l h = go l.state (and_right (owned_lease q gateway l) _ h)
  where
    go :
        (s : LeaseState)
        → elim s [ LeaseState.acquired ↦ true | _ ↦ false ] ≡ true
        → s ≡ LeaseState.acquired
    go LeaseState.acquired e = refl
    go LeaseState.acquire_pending e = cc
    go LeaseState.release_pending e = cc
    go LeaseState.released e = cc
    go LeaseState.release_not_required e = cc
    go LeaseState.expired e = cc
    go LeaseState.human_review_required e = cc

pub is_acquired-acquired : (s : LeaseState) → is_acquired s ≡ true → s ≡ LeaseState.acquired
unfolding is_acquired
is_acquired-acquired LeaseState.acquired e = refl
is_acquired-acquired LeaseState.acquire_pending e = cc
is_acquired-acquired LeaseState.release_pending e = cc
is_acquired-acquired LeaseState.released e = cc
is_acquired-acquired LeaseState.release_not_required e = cc
is_acquired-acquired LeaseState.expired e = cc
is_acquired-acquired LeaseState.human_review_required e = cc

pub is_release_pending-pending :
    (s : LeaseState) → is_release_pending s ≡ true → s ≡ LeaseState.release_pending
unfolding is_release_pending
is_release_pending-pending LeaseState.release_pending e = refl
is_release_pending-pending LeaseState.acquire_pending e = cc
is_release_pending-pending LeaseState.acquired e = cc
is_release_pending-pending LeaseState.released e = cc
is_release_pending-pending LeaseState.release_not_required e = cc
is_release_pending-pending LeaseState.expired e = cc
is_release_pending-pending LeaseState.human_review_required e = cc

pub in_review-unsettled : (s : IntentState) → in_review s ≡ true → is_unsettled s ≡ true
unfolding in_review
in_review-unsettled IntentState.human_review_required e = refl
in_review-unsettled IntentState.pending e = refl
in_review-unsettled IntentState.unknown e = refl
in_review-unsettled IntentState.failed e = refl
in_review-unsettled IntentState.accepted e = cc
in_review-unsettled IntentState.reconciled e = cc

-- One step from a state that is known.
pub step_from : {a b c : LeaseState} → a ≡ b → LeaseStep b c → Reach LeaseStep a c
step_from {a} {b} {c} e s = next here (rw e s)
