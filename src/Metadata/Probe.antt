-- ===== src/Metadata/Probe.antt =====
-- `MetadataDispatchProbe` (src/agentic_os/metadata_dispatch.py, lines 175 to 400).
use openclaw_agentic_os.Prelude.{
  String, Bool, true, false, ◌&&◌, ◌||◌, Option, none, some, List, [], ◌∷◌, ◌=ₜ◌, is_text, ◌≡◌,
  refl, same, Table, put, if◌then◌else◌,
}
use openclaw_agentic_os.Result.{Result, ok, err, metadata_error, require}
use openclaw_agentic_os.Result as Result
use openclaw_agentic_os.Transaction.{Action}
use openclaw_agentic_os.Metadata.Json.{Json, str, Members, no_members, member, Decoder, get}
use openclaw_agentic_os.Metadata.Fields.{Values, session_fields, same_keys, nonempty_text}
use openclaw_agentic_os.Metadata.Observation.{
  validate_session_observation, validate_accepted_session_identity,
}
use openclaw_agentic_os.Metadata.Intents.{
  MetadataObservation, AllowLeaseIntent, AllowLeaseReleaseIntent, SessionSpawnIntent,
  AllowLeaseIntent-discrete, AllowLeaseReleaseIntent-discrete, SessionSpawnIntent-discrete,
  session_metadata,
}
use openclaw_agentic_os.Metadata.Registry.{Bindings, remember}

-- The five dictionaries.
pub record Registry : Type 0 where
  pub leases : Bindings AllowLeaseIntent
  pub releases : Table (AllowLeaseReleaseIntent × String)
  pub sessions : Bindings SessionSpawnIntent

-- The probe: its adapter's state and its dictionaries.
pub record Probe (S : Type 0) : Type 0 where
  pub adapter : S
  pub registry : Registry

abbrev pub no_bindings : {I : Type 0} → Bindings I
no_bindings = record { by_key = λ k. none; owner = λ k. none }

abbrev pub empty_registry : Registry
empty_registry = record { leases = no_bindings; releases = λ k. none; sessions = no_bindings }

abbrev pub lease_key : AllowLeaseIntent → String
lease_key intent = intent.idempotency_key

abbrev pub session_spawn_key : SessionSpawnIntent → String
session_spawn_key intent = intent.idempotency_key

unfoldable pub gateway_lease_id : MetadataObservation → Result String
unfolding nonempty_text get
gateway_lease_id observation = elim observation.normalized [
  | none ↦ err (metadata_error "normalized and raw external metadata are required")
  | some normalized ↦ nonempty_text (get "gateway_lease_id" normalized)
]

-- `acquired != intent` of `_require_acquired_lease` and `_require_spawned_session`.
unfoldable pub require_owner : {I : Type 0} → Discrete I → String → Option I → I → Result (Unit {0})
require_owner d message none intent = err (metadata_error message)
require_owner d message (some held) intent = require (same d held intent) (metadata_error message)

unfoldable pub require_release_owner :
    AllowLeaseReleaseIntent → Option AllowLeaseIntent → Result (Unit {0})
require_release_owner intent none =
    err (metadata_error "release references an unknown gateway lease")
require_release_owner intent (some acquired) =
    require
      ((intent.client_lease_id =ₜ acquired.client_lease_id)
        && (intent.run_id =ₜ acquired.run_id)
        && (intent.phase =ₜ acquired.phase)
        && (intent.transition_id =ₜ acquired.transition_id)
        && (intent.agent_id =ₜ acquired.agent_id)
        && (intent.requester_agent_id =ₜ acquired.requester_agent_id))
      (metadata_error "release owner metadata does not match acquired lease")

-- The second look at `_release_by_key`.
unfoldable pub release_replay :
    Option (AllowLeaseReleaseIntent × String) → AllowLeaseReleaseIntent → String → Result (Unit {0})
unfolding AllowLeaseReleaseIntent-discrete
release_replay none intent released = ok tt
release_replay (some (prior, prior_gateway_id)) intent released =
    Result.◌>>=◌
      (require (same AllowLeaseReleaseIntent-discrete prior intent)
        (metadata_error "release replay identity changed"))
      (λ _.
        require (prior_gateway_id =ₜ released)
          (metadata_error "release replay returned a different lease identity"))

holds_text : Option Json → String → Bool
holds_text (some (str s)) t = s =ₜ t
holds_text _ t = false

holds_members : Members → Members → Bool
unfolding holds_text get
holds_members normalized no_members = true
holds_members normalized (member k (str v) rest) =
    holds_text (get k normalized) v && holds_members normalized rest
holds_members normalized (member k _ rest) = false

unfoldable pub has_session_intent_metadata : SessionSpawnIntent → MetadataObservation → Bool
unfolding holds_members same_keys session_metadata
has_session_intent_metadata intent observation = elim observation.normalized [
  | none ↦ false
  | some normalized ↦
      same_keys normalized session_fields && holds_members normalized (session_metadata intent)
]

lists_session : SessionSpawnIntent → String → MetadataObservation → Bool
unfolding is_text has_session_intent_metadata
lists_session intent session_key o =
    is_text o.session_key session_key
    || is_text o.external_id session_key
    || has_session_intent_metadata intent o

matching : SessionSpawnIntent → String → List MetadataObservation → List MetadataObservation
unfolding lists_session
matching intent session_key [] = []
matching intent session_key (o ∷ os) =
    if lists_session intent session_key o
    then o ∷ matching intent session_key os
    else matching intent session_key os

-- `len(match_indexes) != 1`, and the observation at that index.
unfoldable pub only_match :
    SessionSpawnIntent → String → List MetadataObservation → Result MetadataObservation
unfolding matching
only_match intent session_key listed = elim (matching intent session_key listed) [
  | o ∷ [] ↦ ok o
  | _ ↦ err (metadata_error "session list must expose exactly one matching session")
]

-- `self._lease_by_acquire_key.get(…, (intent, None))[1]` and `prior[1] if prior is not None else None`
abbrev pub prior_identity : {I : Type 0} → Option (I × String) → Option String
prior_identity none = none
prior_identity (some (_, identity)) = some identity

-- `observed[field]`
unfoldable pub item : String → Values → Option String
item field [] = none
item field ((k, v) ∷ rest) = if k =ₜ field then some v else item field rest

unfoldable pub validate_session :
    Decoder → SessionSpawnIntent → MetadataObservation → Option String → Result String
validate_session decoder intent o expected =
    Result.◌>>=◌
      (validate_session_observation decoder (session_metadata intent) o.normalized o.raw_json
        o.metadata_contract_version)
      (λ _.
        validate_accepted_session_identity o.external_id o.spawn_request_session_key o.session_key
          expected)

abbrev pub remembered_lease :
    AllowLeaseIntent → String → Bindings AllowLeaseIntent → Result (Bindings AllowLeaseIntent)
remembered_lease =
    remember AllowLeaseIntent-discrete lease_key "duplicate acquire identity changed"
      "duplicate allowLease acquire returned a different lease identity"
      "gateway lease identity is already bound to another acquire intent"

abbrev pub remembered_session :
    SessionSpawnIntent → String → Bindings SessionSpawnIntent → Result (Bindings SessionSpawnIntent)
remembered_session =
    remember SessionSpawnIntent-discrete session_spawn_key "duplicate spawn identity changed"
      "duplicate spawn returned a different session identity"
      "session identity is already bound to another spawn intent"

module _ {S : Type 0} where
  -- A call of the adapter, which may raise.
  unfoldable pub calls : {A : Type 0} → Action S A → Action (Probe S) A
  calls m p = ((m p.adapter).0, record p { adapter = (m p.adapter).1 })

  keeps_leases : Probe S → Result (Bindings AllowLeaseIntent) → Result (Unit {0}) × Probe S
  keeps_leases p (ok leases) =
      (ok tt, record p { registry = record p.registry { leases = leases } })
  keeps_leases p (err e) = (err e, p)

  keeps_sessions : Probe S → Result (Bindings SessionSpawnIntent) → Result (Unit {0}) × Probe S
  keeps_sessions p (ok sessions) =
      (ok tt, record p { registry = record p.registry { sessions = sessions } })
  keeps_sessions p (err e) = (err e, p)

  unfoldable pub remember_lease_acquire : AllowLeaseIntent → String → Action (Probe S) Unit
  unfolding keeps_leases
  remember_lease_acquire intent gateway p =
      keeps_leases p (remembered_lease intent gateway p.registry.leases)

  unfoldable pub remember_session_spawn : SessionSpawnIntent → String → Action (Probe S) Unit
  unfolding keeps_sessions
  remember_session_spawn intent session_key p =
      keeps_sessions p (remembered_session intent session_key p.registry.sessions)

  unfoldable pub remember_release : AllowLeaseReleaseIntent → String → Action (Probe S) Unit
  remember_release intent released p = (
    ok tt,
    record p {
      registry = record p.registry {
        releases = put intent.idempotency_key (intent, released) p.registry.releases;
      };
    },
  )

  -- What holds of the dictionaries as they are, and as `remember` leaves them, holds after the call.
  pub remember_lease_acquire-kept :
      (P : Registry → Type 0) (i : AllowLeaseIntent) (gateway : String) (p : Probe S)
      → P p.registry
      → ((b : Bindings AllowLeaseIntent)
          → remembered_lease i gateway p.registry.leases ≡ ok b
          → P (record p.registry { leases = b }))
      → P (remember_lease_acquire i gateway p).1.registry
  unfolding remember_lease_acquire
  remember_lease_acquire-kept P i gateway p before after =
      go (remembered_lease i gateway p.registry.leases) refl
    where
      go :
          (r : Result (Bindings AllowLeaseIntent))
          → remembered_lease i gateway p.registry.leases ≡ r
          → P (keeps_leases p r).1.registry
      go (ok b) e = after b e
      go (err x) e = before

  pub remember_session_spawn-kept :
      (P : Registry → Type 0) (i : SessionSpawnIntent) (key : String) (p : Probe S)
      → P p.registry
      → ((b : Bindings SessionSpawnIntent)
          → remembered_session i key p.registry.sessions ≡ ok b
          → P (record p.registry { sessions = b }))
      → P (remember_session_spawn i key p).1.registry
  unfolding remember_session_spawn
  remember_session_spawn-kept P i key p before after =
      go (remembered_session i key p.registry.sessions) refl
    where
      go :
          (r : Result (Bindings SessionSpawnIntent))
          → remembered_session i key p.registry.sessions ≡ r
          → P (keeps_sessions p r).1.registry
      go (ok b) e = after b e
      go (err x) e = before
