-- ===== src/Dispatch/Marks.antt =====
-- Intents, spawn requests and leases that a failure leaves unknown or for a human
-- (src/agentic_os/runtime_dispatch.py, lines 1090 to 1264).
use openclaw_agentic_os.Prelude.{
  ℕ, String, Bool, true, false, ◌&&◌, Option, none, some, is_text, ◌=ₜ◌,
}
use openclaw_agentic_os.Transaction.{Action, ◌>>=◌, ◌>>◌}
use openclaw_agentic_os.Dispatch.Rows.{
  Db, Intent, IntentState, SpawnState, LeaseState, SpawnRequest, Lease, RpcKind, sessions_spawn,
  allow_lease_acquire, allow_lease_release,
}
use openclaw_agentic_os.Dispatch.World.{Platform, World, Clock, now_utc, statement, update_where}
use openclaw_agentic_os.Dispatch.Request.{DispatchRequest}
use openclaw_agentic_os.Dispatch.Replay.{of_kind}

-- `state IN ('pending','unknown')`, which is also `state NOT IN ('accepted','reconciled',
-- 'human_review_required','failed')`.
abbrev pub is_open : IntentState → Bool
is_open IntentState.pending = true
is_open IntentState.unknown = true
is_open _ = false

-- `state NOT IN ('accepted','reconciled')`
abbrev pub is_unsettled : IntentState → Bool
is_unsettled IntentState.accepted = false
is_unsettled IntentState.reconciled = false
is_unsettled _ = true

abbrev pub spawn_is_open : SpawnState → Bool
spawn_is_open SpawnState.pending = true
spawn_is_open SpawnState.unknown = true
spawn_is_open _ = false

-- `resolved_at` and the state.
abbrev pub resolve : IntentState → Platform → ℕ → Intent → Intent
resolve state platform now_ms i = record i {
  state = state;
  resolved_at = some (platform.strftime now_ms);
  resolved_at_epoch_ms = some now_ms;
}

-- The UPDATE on the open intent of a kind and a key.
abbrev pub resolve_intents : IntentState → Platform → RpcKind → String → ℕ → Db → Db
resolve_intents state platform kind key now_ms db = record db {
  intents =
      update_where (λ i. of_kind kind key i && is_open i.state) (resolve state platform now_ms)
        db.intents;
}

-- The same where only a settled intent is spared.
abbrev pub review_intents : Platform → RpcKind → String → ℕ → Db → Db
review_intents platform kind key now_ms db = record db {
  intents =
      update_where (λ i. of_kind kind key i && is_unsettled i.state)
        (resolve IntentState.human_review_required platform now_ms) db.intents;
}

abbrev pub update_spawn_requests : (SpawnRequest → Bool) → (SpawnRequest → SpawnRequest) → Db → Db
update_spawn_requests selects set db = record db {
  spawn_requests = update_where selects set db.spawn_requests;
}

abbrev pub update_leases : (Lease → Bool) → (Lease → Lease) → Db → Db
update_leases selects set db = record db { leases = update_where selects set db.leases }

unfoldable pub has_no_gateway : Lease → Bool
has_no_gateway l = elim l.gateway_lease_id [ none ↦ true | some _ ↦ false ]

-- `state NOT IN ('accepted','acquired','released','human_review_required','failed')`
unfoldable pub unreviewed_lease : LeaseState → Bool
unreviewed_lease LeaseState.acquired = false
unreviewed_lease LeaseState.released = false
unreviewed_lease LeaseState.human_review_required = false
unreviewed_lease _ = true

-- The lease of the request that the gateway identity names.
unfoldable pub owned_lease : DispatchRequest → String → Lease → Bool
unfolding is_text
owned_lease q gateway_lease_id l =
    (l.identity.client_lease_id =ₜ q.client_lease_id)
    && (l.identity.run_id =ₜ q.run_id)
    && (l.identity.transition_id =ₜ q.transition_id)
    && is_text l.gateway_lease_id gateway_lease_id

unfoldable pub releasing : LeaseState → Bool
releasing LeaseState.acquired = true
releasing LeaseState.release_pending = true
releasing _ = false

-- COALESCE(x, y) with y not NULL.
abbrev pub coalesce : {A : Type 0} → Option A → A → Option A
coalesce none y = some y
coalesce (some x) y = some x

module _ {T S : Type 0} (platform : Platform) (clock : Clock T) (q : DispatchRequest) where
  review_spawn_request : String → ℕ → Action (World T S) Unit
  review_spawn_request reason now_ms = statement platform (
      update_spawn_requests
        (λ sr. (sr.spawn_request_id =ₜ q.spawn_request_id) && spawn_is_open sr.state)
        (λ sr. record sr {
          state = SpawnState.human_review_required;
          ambiguity_reason = some reason;
          updated_at = platform.strftime now_ms;
        }))

  -- `mark_human_review` with `rpc_kind="sessions_spawn"`.
  unfoldable pub mark_spawn_review : String → Action (World T S) Unit
  unfolding review_spawn_request
  mark_spawn_review reason = do
    now_ms ← now_utc clock
    statement platform (
        resolve_intents IntentState.human_review_required platform sessions_spawn
          q.spawn_idempotency_key now_ms)
    review_spawn_request reason now_ms

  -- `mark_human_review` with `rpc_kind="allow_lease_acquire"`.
  unfoldable pub mark_acquire_review : String → Action (World T S) Unit
  unfolding has_no_gateway unreviewed_lease
  mark_acquire_review reason = do
    now_ms ← now_utc clock
    statement platform (
        resolve_intents IntentState.human_review_required platform allow_lease_acquire
          q.acquire_idempotency_key now_ms)
    statement platform (
        update_leases
          (λ l.
            (l.identity.client_lease_id =ₜ q.client_lease_id)
            && has_no_gateway l
            && unreviewed_lease l.state)
          (λ l. record l {
            state = LeaseState.human_review_required;
            reconciliation_status = reason;
          }))

  -- `mark_unknown` with `rpc_kind="allow_lease_acquire"`, the only kind that the dispatcher gives.
  unfoldable pub mark_acquire_unknown : String → Action (World T S) Unit
  unfolding has_no_gateway
  mark_acquire_unknown reason = do
    now_ms ← now_utc clock
    statement platform (
        resolve_intents IntentState.unknown platform allow_lease_acquire q.acquire_idempotency_key
          now_ms)
    statement platform (
        update_leases (λ l. (l.identity.client_lease_id =ₜ q.client_lease_id) && has_no_gateway l)
          (λ l. record l { reconciliation_status = reason }))

  unfoldable pub mark_owned_lease_release_review : String → String → Action (World T S) Unit
  mark_owned_lease_release_review gateway_lease_id reason = do
    now_ms ← now_utc clock
    statement platform
        (review_intents platform allow_lease_release q.release_idempotency_key now_ms)
    statement platform (
        update_leases (owned_lease q gateway_lease_id) (λ l. record l {
          release_idempotency_key = some q.release_idempotency_key;
          release_requested_at = some (platform.strftime now_ms);
          reconciliation_status = reason;
        }))

  unfoldable pub mark_owned_lease_release_unknown : String → String → Action (World T S) Unit
  unfolding releasing
  mark_owned_lease_release_unknown gateway_lease_id reason = do
    now_ms ← now_utc clock
    statement platform (
        resolve_intents IntentState.unknown platform allow_lease_release q.release_idempotency_key
          now_ms)
    statement platform (
        update_leases (λ l. owned_lease q gateway_lease_id l && releasing l.state)
          (λ l. record l {
            state = LeaseState.release_pending;
            release_idempotency_key = some q.release_idempotency_key;
            release_requested_at = coalesce l.release_requested_at (platform.strftime now_ms);
            reconciliation_status = reason;
          }))
