-- ===== src/Dispatch/Release.antt =====
-- The release of the lease that a dispatch owns (src/agentic_os/runtime_dispatch.py, lines 197 to 202
-- and 1267 to 1397).
use openclaw_agentic_os.Prelude.{
  ℕ, String, ◌++◌, Bool, true, false, ◌&&◌, Option, none, some, ◌=ₜ◌, if◌then◌else◌, find,
}
use openclaw_agentic_os.Result.{Result, ok, err, dispatch_error, other_error, require}
use openclaw_agentic_os.Transaction.{Action, reads, ◌>>=◌, ◌>>◌}
use openclaw_agentic_os.Metadata.Fields.{Values}
use openclaw_agentic_os.Metadata.Json.{
  Json, str, object, array, Members, no_members, member, Elements, no_elements, element,
}
use openclaw_agentic_os.Metadata.AllowLease.{validate_allow_lease_release_observation}
use openclaw_agentic_os.Metadata.Probe.{item}
use openclaw_agentic_os.Dispatch.Rows.{
  IntentIdentity, LeaseState, Lease, External, allow_lease_release,
}
use openclaw_agentic_os.Dispatch.World.{
  Platform, World, Clock, Observation, now_utc, statement, exactly_one, count_where,
}
use openclaw_agentic_os.Dispatch.Request.{DispatchRequest, release_metadata}
use openclaw_agentic_os.Dispatch.Pending.{insert_intent}
use openclaw_agentic_os.Dispatch.Marks.{owned_lease, update_leases}
use openclaw_agentic_os.Dispatch.Persist.{
  strictly_after_requested_time, settled_state, open_of, update_intents,
}

-- `storage[key] = value`
unfoldable pub set_member : String → Json → Members → Members
set_member key value no_members = member key value no_members
set_member key value (member k v ms) =
    if k =ₜ key then member k value ms else member k v (set_member key value ms)

-- What `json.loads` without hooks makes of a text's tree: each object is a dict, in which the last of
-- the values of a key stands at the place of the first.
unfoldable mutual
  unfolding set_member

  pub plain : Json → Json
  plain (object ms) = object (plain_members no_members ms)
  plain (array es) = array (plain_elements es)
  plain value = value

  pub plain_members : Members → Members → Members
  plain_members so_far no_members = so_far
  plain_members so_far (member k v ms) = plain_members (set_member k (plain v) so_far) ms

  pub plain_elements : Elements → Elements
  plain_elements no_elements = no_elements
  plain_elements (element v es) = element (plain v) (plain_elements es)

-- The `storage` of a release: the dict of the raw metadata, with the release's key.
unfoldable pub storage_members : String → Members → Members
unfolding plain_members
storage_members key ms = set_member "idempotency_key" (str key) (plain_members no_members ms)

unfoldable pub storage_of : Platform → String → Option Json → Result String
unfolding storage_members
storage_of platform key (some (object ms)) = ok (platform.dumps (storage_members key ms))
storage_of platform key (some _) =
    err (dispatch_error "allow_lease_release raw metadata is not an object")
storage_of platform key none = err (other_error "JSONDecodeError")

unfoldable pub text_of : Option String → String
text_of none = ""
text_of (some s) = s

unfoldable pub release_storage_metadata_json : Platform → Option String → String → Result String
unfolding storage_of text_of
release_storage_metadata_json platform raw_json key =
    storage_of platform key (platform.decoder.loads (text_of raw_json))

same_run_lease : DispatchRequest → Lease → Bool
same_run_lease q l =
    (l.identity.client_lease_id =ₜ q.client_lease_id)
    && (l.identity.run_id =ₜ q.run_id)
    && (l.identity.transition_id =ₜ q.transition_id)

unfoldable pub is_acquired : LeaseState → Bool
is_acquired LeaseState.acquired = true
is_acquired _ = false

unfoldable pub is_release_pending : LeaseState → Bool
is_release_pending LeaseState.release_pending = true
is_release_pending _ = false

owns : DispatchRequest → String → Option Lease → Bool
unfolding is_acquired
owns q gateway_lease_id none = false
owns q gateway_lease_id (some l) = is_acquired l.state && owned_lease q gateway_lease_id l

abbrev release_identity : Platform → DispatchRequest → String → ℕ → IntentIdentity
release_identity platform q gateway_lease_id now_ms = record {
  intent_id = "release:" ++ q.release_idempotency_key;
  run_id = q.run_id;
  transition_id = q.transition_id;
  rpc_kind = allow_lease_release;
  spawn_request_id = none;
  reserve_budget_event_id = none;
  client_request_id = q.release_idempotency_key;
  idempotency_key = q.release_idempotency_key;
  phase = some q.phase;
  agent_id = some q.agent_id;
  requester_agent_id = some q.requester_agent_id;
  ttl_ms = none;
  task_digest = none;
  metadata_json = platform.dumps (release_metadata q gateway_lease_id);
  requested_at = platform.strftime now_ms;
  requested_at_epoch_ms = some now_ms;
}

abbrev release_external : Observation → Values → String → External → External
release_external o v storage e = record e {
  metadata_contract_version = o.metadata_contract_version;
  metadata_json = some storage;
  run_id = item "run_id" v;
  transition_id = item "transition_id" v;
  client_request_id = item "client_lease_id" v;
  idempotency_key = item "idempotency_key" v;
  phase = item "phase" v;
  agent_id = item "agent_id" v;
  requester_agent_id = item "requester_agent_id" v;
  external_id = item "gateway_lease_id" v;
}

module _ {T S : Type 0} (platform : Platform) (clock : Clock T) (q : DispatchRequest) where
  unfoldable pub prepare_owned_lease_release : String → Action (World T S) Unit
  unfolding owns same_run_lease is_acquired
  prepare_owned_lease_release gateway_lease_id = do
    reads (λ w.
        require (owns q gateway_lease_id (find (same_run_lease q) w.db.leases))
          (dispatch_error "refusing to release a lease not exactly owned by this run"))
    now_ms ← now_utc clock
    exactly_one platform "release_pending lease update did not match exactly one row"
        (λ db. count_where (λ l. owned_lease q gateway_lease_id l && is_acquired l.state) db.leases)
        (update_leases (λ l. owned_lease q gateway_lease_id l && is_acquired l.state)
          (λ l. record l {
            state = LeaseState.release_pending;
            release_idempotency_key = some q.release_idempotency_key;
            release_requested_at = some (platform.strftime now_ms);
            reconciliation_status = "release_pending";
          }))
    statement platform (insert_intent (release_identity platform q gateway_lease_id now_ms))

  unfoldable pub persist_released_lease : Observation → String → Bool → Action (World T S) Unit
  unfolding is_release_pending
  persist_released_lease o gateway_lease_id reconciled = do
    v ← reads (λ w.
        validate_allow_lease_release_observation platform.decoder
          (release_metadata q gateway_lease_id) o.normalized o.raw_json o.metadata_contract_version)
    now_ms ←
        strictly_after_requested_time platform clock allow_lease_release q.release_idempotency_key
    storage ←
        reads (λ w. release_storage_metadata_json platform o.raw_json q.release_idempotency_key)
    exactly_one platform "allow_lease_release intent update did not match exactly one row"
        (λ db. count_where (open_of allow_lease_release q.release_idempotency_key) db.intents)
        (update_intents (open_of allow_lease_release q.release_idempotency_key) (λ i. record i {
          state = settled_state reconciled;
          external = release_external o v storage i.external;
          accepted_at = some (platform.strftime now_ms);
          accepted_at_epoch_ms = some now_ms;
        }))
    exactly_one platform "released lease update did not match exactly one row"
        (λ db.
          count_where (λ l. owned_lease q gateway_lease_id l && is_release_pending l.state)
            db.leases)
        (update_leases (λ l. owned_lease q gateway_lease_id l && is_release_pending l.state)
          (λ l. record l {
            state = LeaseState.released;
            released_at = some (platform.strftime now_ms);
            reconciliation_status = "not_needed";
          }))
