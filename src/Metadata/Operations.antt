-- ===== src/Metadata/Operations.antt =====
-- The operations of `MetadataDispatchProbe` (src/agentic_os/metadata_dispatch.py, lines 186 to 297).
use openclaw_agentic_os.Prelude.{String, none, some}
use openclaw_agentic_os.Result.{metadata_error, require}
use openclaw_agentic_os.Transaction.{Action, returns, reads, ◌>>=◌, ◌>>◌}
use openclaw_agentic_os.Prelude.{◌=ₜ◌}
use openclaw_agentic_os.Metadata.Json.{Decoder}
use openclaw_agentic_os.Metadata.Observation.{
  validate_accepted_lease_identity, validate_accepted_session_identity,
}
use openclaw_agentic_os.Metadata.AllowLease.{
  validate_allow_lease_observation, validate_allow_lease_release_observation,
}
use openclaw_agentic_os.Metadata.Intents.{
  AllowLeaseIntent, AllowLeaseReleaseIntent, SessionSpawnIntent, AllowLeaseIntent-discrete,
  AllowLeaseReleaseIntent-discrete, SessionSpawnIntent-discrete, lease_metadata, release_metadata,
  MetadataDispatchAdapter,
}
use openclaw_agentic_os.Metadata.Registry.{preflight}
use openclaw_agentic_os.Metadata.Probe.{
  Probe, lease_key, session_spawn_key, gateway_lease_id, require_owner, require_release_owner,
  release_replay, only_match, item, prior_identity, validate_session, calls, remember_lease_acquire,
  remember_session_spawn, remember_release,
}

abbrev release_key : AllowLeaseReleaseIntent → String
release_key intent = intent.idempotency_key

module _ {S : Type 0} (decoder : Decoder) (adapter : MetadataDispatchAdapter S) where
  unfoldable pub acquire_allow_lease : AllowLeaseIntent → Action (Probe S) String
  unfolding AllowLeaseIntent-discrete
  acquire_allow_lease intent = do
    reads (λ p.
        preflight AllowLeaseIntent-discrete lease_key "duplicate acquire identity changed"
          (p.registry.leases.by_key intent.idempotency_key) intent)
    observation ← calls (adapter.allow_lease_acquire intent)
    gateway ← reads (λ p. gateway_lease_id observation)
    observed ← reads (λ p.
        validate_allow_lease_observation decoder (lease_metadata intent gateway)
          observation.normalized observation.raw_json observation.metadata_contract_version)
    accepted ← reads (λ p.
        validate_accepted_lease_identity (some observed.gateway_lease_id)
          (prior_identity (p.registry.leases.by_key intent.idempotency_key)))
    remember_lease_acquire intent accepted
    returns accepted

  unfoldable pub status_allow_lease : AllowLeaseIntent → String → Action (Probe S) String
  unfolding AllowLeaseIntent-discrete
  status_allow_lease intent gateway = do
    reads (λ p.
        require_owner AllowLeaseIntent-discrete "status identity does not match acquired lease"
          (p.registry.leases.owner gateway) intent)
    observation ← calls (adapter.allow_lease_status gateway)
    observed ← reads (λ p.
        validate_allow_lease_observation decoder (lease_metadata intent gateway)
          observation.normalized observation.raw_json observation.metadata_contract_version)
    reads (λ p. validate_accepted_lease_identity (some observed.gateway_lease_id) (some gateway))

  unfoldable pub release_allow_lease : AllowLeaseReleaseIntent → Action (Probe S) String
  unfolding AllowLeaseReleaseIntent-discrete
  release_allow_lease intent = do
    reads (λ p.
        preflight AllowLeaseReleaseIntent-discrete release_key "release replay identity changed"
          (p.registry.releases intent.idempotency_key) intent)
    reads (λ p. require_release_owner intent (p.registry.leases.owner intent.gateway_lease_id))
    observation ← calls (adapter.allow_lease_release intent)
    observed ← reads (λ p.
        validate_allow_lease_release_observation decoder (release_metadata intent)
          observation.normalized observation.raw_json observation.metadata_contract_version)
    released ← reads (λ p.
        validate_accepted_lease_identity (item "gateway_lease_id" observed)
          (some intent.gateway_lease_id))
    reads (λ p. release_replay (p.registry.releases intent.idempotency_key) intent released)
    remember_release intent released
    returns released

  unfoldable pub spawn_session : SessionSpawnIntent → Action (Probe S) String
  unfolding SessionSpawnIntent-discrete
  spawn_session intent = do
    reads (λ p.
        preflight SessionSpawnIntent-discrete session_spawn_key "duplicate spawn identity changed"
          (p.registry.sessions.by_key intent.idempotency_key) intent)
    observation ← calls (adapter.session_spawn intent)
    session_key ← reads (λ p. validate_session decoder intent observation none)
    accepted ← reads (λ p.
        validate_accepted_session_identity observation.external_id
          observation.spawn_request_session_key observation.session_key
          (prior_identity (p.registry.sessions.by_key intent.idempotency_key)))
    reads (λ p.
        require (session_key =ₜ accepted)
          (metadata_error "session metadata identity does not match accepted identity"))
    remember_session_spawn intent accepted
    returns accepted

  unfoldable pub require_spawned_session : SessionSpawnIntent → String → Action (Probe S) Unit
  unfolding SessionSpawnIntent-discrete
  require_spawned_session intent session_key = reads (λ p.
      require_owner SessionSpawnIntent-discrete "session identity does not match spawned request"
        (p.registry.sessions.owner session_key) intent)

  unfoldable pub status_session : SessionSpawnIntent → String → Action (Probe S) String
  status_session intent session_key = do
    require_spawned_session intent session_key
    observation ← calls (adapter.session_status session_key)
    reads (λ p. validate_session decoder intent observation (some session_key))

  unfoldable pub list_session : SessionSpawnIntent → String → Action (Probe S) String
  list_session intent session_key = do
    require_spawned_session intent session_key
    listed ← calls (adapter.session_list intent)
    observation ← reads (λ p. only_match intent session_key listed)
    reads (λ p. validate_session decoder intent observation (some session_key))

  unfoldable pub result_session : SessionSpawnIntent → String → Action (Probe S) String
  result_session intent session_key = do
    require_spawned_session intent session_key
    observation ← calls (adapter.session_result session_key)
    reads (λ p. validate_session decoder intent observation (some session_key))
