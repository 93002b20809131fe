-- ===== src/Dispatch/Persist.antt =====
-- What the dispatcher records of an acquired lease and of an accepted session
-- (src/agentic_os/runtime_dispatch.py, lines 706 to 718, 822 to 1087 and 1125 to 1168).
use openclaw_agentic_os.Prelude.{
  ℕ, ◌+◌, String, ◌++◌, Bool, true, false, ◌&&◌, Option, none, some, ◌∷◌, ◌=ₜ◌, is_text, find, ltb,
  leb, if◌then◌else◌,
}
use openclaw_agentic_os.Result.{Result, ok, err, dispatch_error}
use openclaw_agentic_os.Transaction.{Action, returns, reads, ◌>>=◌, ◌>>◌}
use openclaw_agentic_os.Metadata.Observation.{validate_session_observation}
use openclaw_agentic_os.Metadata.AllowLease.{validate_allow_lease_observation}
use openclaw_agentic_os.Dispatch.Rows.{
  Db, Intent, IntentState, SpawnState, LeaseState, SpawnRequest, Lease, External, RpcKind,
  sessions_spawn, allow_lease_acquire,
}
use openclaw_agentic_os.Dispatch.World.{
  Platform, World, Clock, Observation, now_utc, statement, exactly_one, count_where, update_where,
}
use openclaw_agentic_os.Dispatch.Request.{DispatchRequest, lease_metadata, spawn_metadata}
use openclaw_agentic_os.Dispatch.Replay.{of_kind}
use openclaw_agentic_os.Dispatch.Live.{assert_no_potentially_live_dispatch}
use openclaw_agentic_os.Dispatch.Marks.{
  is_open, spawn_is_open, coalesce, update_leases, update_spawn_requests, mark_spawn_review,
  resolve, owned_lease,
}
use openclaw_agentic_os.Dispatch.Columns.{
  lease_external, lease_row_external, session_external, candidate_external,
}

unfoldable pub requested_time : Option Intent → Result ℕ
requested_time none = err (dispatch_error "missing requested timestamp for accepted RPC")
requested_time (some i) = elim i.identity.requested_at_epoch_ms [
  | none ↦ err (dispatch_error "missing requested timestamp for accepted RPC")
  | some requested_ms ↦ ok requested_ms
]

-- The state that `reconciled` chooses.
abbrev pub settled_state : Bool → IntentState
settled_state true = IntentState.reconciled
settled_state false = IntentState.accepted

abbrev pub open_of : RpcKind → String → Intent → Bool
open_of kind key i = of_kind kind key i && is_open i.state

abbrev pub update_intents : (Intent → Bool) → (Intent → Intent) → Db → Db
update_intents selects set db = record db { intents = update_where selects set db.intents }

abbrev pub settle_intent : Bool → (External → External) → String → ℕ → Intent → Intent
settle_intent reconciled fill at ms i = record i {
  state = settled_state reconciled;
  external = fill i.external;
  accepted_at = coalesce i.accepted_at at;
  accepted_at_epoch_ms = coalesce i.accepted_at_epoch_ms ms;
}

unfoldable pub acquirable : DispatchRequest → Lease → Bool
acquirable q l =
    (l.identity.client_lease_id =ₜ q.client_lease_id)
    && elim l.state [ LeaseState.acquire_pending ↦ true | _ ↦ false ]
    && elim l.gateway_lease_id [ none ↦ true | some _ ↦ false ]

unfoldable pub in_review : IntentState → Bool
in_review IntentState.human_review_required = true
in_review _ = false

unfoldable pub expirable : DispatchRequest → String → Lease → Bool
expirable q gateway_lease_id l =
    owned_lease q gateway_lease_id l && elim l.state [ LeaseState.acquired ↦ true | _ ↦ false ]

expiry_of : Option Lease → Result ℕ
expiry_of none = err (dispatch_error "missing acquired lease expiry before sessions_spawn")
expiry_of (some l) = elim l.identity.expires_at_epoch_ms [
  | none ↦ err (dispatch_error "missing acquired lease expiry before sessions_spawn")
  | some expires_ms ↦ ok expires_ms
]

has_no_session : SpawnRequest → Bool
has_no_session sr = elim sr.session_key [ none ↦ true | some key ↦ key =ₜ "" ]

module _ {T S : Type 0} (platform : Platform) (clock : Clock T) where
  unfoldable pub strictly_after_requested_time : RpcKind → String → Action (World T S) ℕ
  unfolding requested_time
  strictly_after_requested_time kind key = do
    requested_ms ← reads (λ w. requested_time (find (of_kind kind key) w.db.intents))
    now_ms ← now_utc clock
    returns (if ltb now_ms (requested_ms + 1) then requested_ms + 1 else now_ms)

  module _ (q : DispatchRequest) where
    unfoldable pub persist_acquired_lease : Observation → String → Bool → Action (World T S) Unit
    unfolding acquirable
    persist_acquired_lease o gateway_lease_id reconciled = do
      now_ms ← strictly_after_requested_time allow_lease_acquire q.acquire_idempotency_key
      v ← reads (λ w.
          validate_allow_lease_observation platform.decoder (lease_metadata q gateway_lease_id)
            o.normalized o.raw_json o.metadata_contract_version)
      exactly_one platform "allow_lease_acquire intent update did not match exactly one row"
          (λ db. count_where (open_of allow_lease_acquire q.acquire_idempotency_key) db.intents)
          (update_intents (open_of allow_lease_acquire q.acquire_idempotency_key) (
            settle_intent reconciled (lease_external o v gateway_lease_id)
              (platform.strftime now_ms) now_ms))
      exactly_one platform "allow_lease_acquire lease update did not match exactly one row"
          (λ db. count_where (acquirable q) db.leases)
          (update_leases (acquirable q) (λ l. record l {
            state = LeaseState.acquired;
            gateway_lease_id = some gateway_lease_id;
            external = lease_row_external o v l.external;
            metadata_observed_at = some (platform.strftime now_ms);
            acquired_at = some (platform.strftime now_ms);
          }))

    unfoldable pub persist_unknown_acquired_lease_candidate :
        Observation → String → String → Action (World T S) Unit
    unfolding acquirable
    persist_unknown_acquired_lease_candidate o gateway_lease_id reason = do
      now_ms ← now_utc clock
      v ← reads (λ w.
          validate_allow_lease_observation platform.decoder (lease_metadata q gateway_lease_id)
            o.normalized o.raw_json o.metadata_contract_version)
      statement platform (
          update_intents (open_of allow_lease_acquire q.acquire_idempotency_key) (λ i.
            record (resolve IntentState.unknown platform now_ms i) {
              external = lease_external o v gateway_lease_id i.external;
            }))
      statement platform
          (update_leases (acquirable q) (λ l. record l { reconciliation_status = reason }))

    unfoldable pub expire_if : String → Bool → Action (World T S) Bool
    unfolding expirable
    expire_if gateway_lease_id false = returns false
    expire_if gateway_lease_id true = do
      exactly_one platform "expired lease update did not match exactly one row"
          (λ db. count_where (expirable q gateway_lease_id) db.leases)
          (update_leases (expirable q gateway_lease_id) (λ l. record l {
            state = LeaseState.expired;
            reconciliation_status = "lease expired before sessions_spawn";
          }))
      mark_spawn_review platform clock q "spawn blocked by locally expired allow lease"
      returns true

    unfoldable pub expire_locally_expired_lease_before_spawn : String → Action (World T S) Bool
    unfolding expire_if expiry_of expirable
    expire_locally_expired_lease_before_spawn gateway_lease_id = do
      expires_ms ← reads (λ w. expiry_of (find (expirable q gateway_lease_id) w.db.leases))
      now_ms ← now_utc clock
      expire_if gateway_lease_id (leb expires_ms now_ms)

    unfoldable pub persist_spawn_acceptance : Observation → String → Bool → Action (World T S) Unit
    unfolding has_no_session is_text
    persist_spawn_acceptance o session_key reconciled = do
      reads (λ w. assert_no_potentially_live_dispatch platform w.db q)
      now_ms ← strictly_after_requested_time sessions_spawn q.spawn_idempotency_key
      v ← reads (λ w.
          validate_session_observation platform.decoder (spawn_metadata q) o.normalized o.raw_json
            o.metadata_contract_version)
      exactly_one platform "sessions_spawn intent update did not match exactly one row"
          (λ db. count_where (open_of sessions_spawn q.spawn_idempotency_key) db.intents)
          (update_intents (open_of sessions_spawn q.spawn_idempotency_key) (
            settle_intent reconciled (session_external o v session_key) (platform.strftime now_ms)
              now_ms))
      exactly_one platform "sessions_spawn request update did not match exactly one row"
          (λ db.
            count_where
              (λ sr.
                (sr.spawn_request_id =ₜ q.spawn_request_id)
                && spawn_is_open sr.state
                && has_no_session sr)
              db.spawn_requests)
          (update_spawn_requests
            (λ sr.
              (sr.spawn_request_id =ₜ q.spawn_request_id)
              && spawn_is_open sr.state
              && has_no_session sr)
            (λ sr. record sr {
              session_key = some session_key;
              dispatch_run_id = some session_key;
              metadata_contract_version = o.metadata_contract_version;
              metadata_observed_at = some (platform.strftime now_ms);
              external_metadata_json = o.raw_json;
              updated_at = platform.strftime now_ms;
            }))
      statement platform (λ db. record db {
        sessions =
            record {
              session_id = "session:" ++ session_key;
              spawn_request_id = q.spawn_request_id;
              run_id = q.run_id;
              transition_id = q.transition_id;
              phase = q.phase;
              agent_id = q.agent_id;
              client_request_id = q.spawn_client_request_id;
              spawn_idempotency_key = q.spawn_idempotency_key;
              session_key = session_key;
              task_digest = q.task_digest;
              status_metadata_json = o.status_metadata_json;
              state = "running";
              spawned_at = platform.strftime now_ms;
            }
            ∷ db.sessions;
      })
      exactly_one platform "sessions_spawn acceptance did not match exactly one row"
          (λ db.
            count_where
              (λ sr.
                (sr.spawn_request_id =ₜ q.spawn_request_id)
                && spawn_is_open sr.state
                && is_text sr.session_key session_key)
              db.spawn_requests)
          (update_spawn_requests
            (λ sr.
              (sr.spawn_request_id =ₜ q.spawn_request_id)
              && spawn_is_open sr.state
              && is_text sr.session_key session_key)
            (λ sr. record sr {
              state = SpawnState.accepted;
              updated_at = platform.strftime now_ms;
            }))

    unfoldable pub keep_candidate_statement : Observation → String → Action (World T S) Unit
    unfolding candidate_external in_review
    keep_candidate_statement o external_id = statement platform (
        update_intents (λ i. of_kind sessions_spawn q.spawn_idempotency_key i && in_review i.state)
          (λ i. record i {
            external =
                candidate_external o
                  (validate_session_observation platform.decoder (spawn_metadata q) o.normalized
                    o.raw_json o.metadata_contract_version)
                  external_id i.external;
          }))

    unfoldable pub keep_candidate : Observation → Option String → Action (World T S) Unit
    keep_candidate o none = returns tt
    keep_candidate o (some external_id) =
        if external_id =ₜ "" then returns tt else keep_candidate_statement o external_id

    unfoldable pub persist_ambiguous_spawn_candidate : Observation → Action (World T S) Unit
    unfolding keep_candidate
    persist_ambiguous_spawn_candidate o = keep_candidate o o.external_id
