-- ===== src/Scenarios/Probes.antt =====
-- A probe on a scripted adapter, and the theorems of the metadata contract at its runs.
use mathlib.Core.Option
use openclaw_agentic_os.Prelude
use openclaw_agentic_os.Prelude.{
  String, false, ◌≡◌, ◌≢◌, refl, Option, none, some, List, [], ◌∷◌, ◌=ₜ◌, put, if◌then◌else◌,
}
use openclaw_agentic_os.Result
use openclaw_agentic_os.Result.{Result, ok, err}
use openclaw_agentic_os.Transaction
use openclaw_agentic_os.Metadata.Json
use openclaw_agentic_os.Metadata.Json.{Json, str, object, Members, Decoder, get}
use openclaw_agentic_os.Metadata.Fields
use openclaw_agentic_os.Metadata.Fields.{Values, session_fields}
use openclaw_agentic_os.Metadata.Observation
use openclaw_agentic_os.Metadata.Observation.{validate_metadata_observation}
use openclaw_agentic_os.Metadata.Agreement.{validated_fields_agree}
use openclaw_agentic_os.Metadata.AllowLease
use openclaw_agentic_os.Metadata.Intents
use openclaw_agentic_os.Metadata.Intents.{
  MetadataObservation, AllowLeaseIntent, AllowLeaseReleaseIntent, SessionSpawnIntent,
  lease_metadata, session_metadata,
}
use openclaw_agentic_os.Metadata.Registry
use openclaw_agentic_os.Metadata.Probe
use openclaw_agentic_os.Metadata.Probe.{Probe, empty_registry, item}
use openclaw_agentic_os.Metadata.Operations
use openclaw_agentic_os.Metadata.Operations.{
  acquire_allow_lease, status_allow_lease, release_allow_lease, spawn_session, status_session,
  list_session, result_session,
}
use openclaw_agentic_os.Metadata.Scripted
use openclaw_agentic_os.Metadata.Scripted.{
  Script, scripted, scripted_session_list, queue_of, is_queued,
}
use openclaw_agentic_os.Metadata.Draining.{scripted_session_list-all}
use openclaw_agentic_os.Metadata.Binding.{ProbeIsBound, probe-IsBound, empty_registry-IsBound}
use openclaw_agentic_os.Metadata.Replay.{acquire_replay_stable, spawn_replay_stable}

abbrev lease_intent : AllowLeaseIntent
lease_intent = record {
  client_lease_id = "client";
  idempotency_key = "acquire-1";
  run_id = "run";
  phase = "work";
  transition_id = "transition";
  agent_id = "agent";
  requester_agent_id = "requester";
  ttl_ms = 1000;
}

abbrev release_intent : AllowLeaseReleaseIntent
release_intent = record {
  client_lease_id = "client";
  idempotency_key = "release-1";
  run_id = "run";
  phase = "work";
  transition_id = "transition";
  agent_id = "agent";
  requester_agent_id = "requester";
  gateway_lease_id = "lease";
}

abbrev spawn_intent : SessionSpawnIntent
spawn_intent = record {
  run_id = "run";
  transition_id = "transition";
  client_request_id = "client";
  idempotency_key = "spawn-1";
  phase = "work";
  agent_id = "agent";
  task_digest = "digest";
}

-- A decoder that knows the two texts that the script holds.
abbrev decoder : Decoder
decoder = record {
  loads = λ raw.
      if raw =ₜ "lease"
      then some (object (lease_metadata lease_intent "lease"))
      else if raw =ₜ "session"
      then some (object (session_metadata spawn_intent))
      else none;
}

abbrev lease_observation : MetadataObservation
lease_observation = record {
  normalized = some (lease_metadata lease_intent "lease");
  raw_json = some "lease";
  metadata_contract_version = some "1";
  external_id = none;
  spawn_request_session_key = none;
  session_key = none;
}

abbrev session_observation : MetadataObservation
session_observation = record {
  normalized = some (session_metadata spawn_intent);
  raw_json = some "session";
  metadata_contract_version = some "1";
  external_id = some "session";
  spawn_request_session_key = some "session";
  session_key = some "session";
}

-- Two answers for each call that is repeated.
abbrev start : Probe Script
start = record {
  adapter =
      put "allow_lease_acquire" (lease_observation ∷ lease_observation ∷ [])
        (put "session_spawn" (session_observation ∷ session_observation ∷ []) (λ name. none));
  registry = empty_registry;
}

abbrev acquired : Result String × Probe Script
acquired = acquire_allow_lease decoder scripted lease_intent start

abbrev acquired_again : Result String × Probe Script
acquired_again = acquire_allow_lease decoder scripted lease_intent acquired.1

abbrev spawned : Result String × Probe Script
spawned = spawn_session decoder scripted spawn_intent start

abbrev spawned_again : Result String × Probe Script
spawned_again = spawn_session decoder scripted spawn_intent spawned.1

unfoldable probe_steps : Unit {0}
unfolding Option.bind Transaction.◌>>=◌ Result.◌>>=◌ Prelude.String-discrete Prelude.same
    Prelude.◌=ₜ◌ Prelude.one_of Prelude.is_text Prelude.put Prelude.ℕ_discrete Json.has_key Json.get
    Json.reject_duplicate_keys Json.hooked Json.raw_json_object Fields.Values-discrete
    Fields.has_fields Fields.same_keys Fields.restrict Fields.nonempty_text
    Fields.exact_nonempty_fields Observation.raw_object Observation.contract_version
    Observation.both_required Observation.validate_metadata_observation
    Observation.validate_session_observation Observation.nonempty Observation.same_duplicate
    Observation.validate_accepted_lease_identity Observation.validate_accepted_session_identity
    AllowLease.LeaseValues-discrete AllowLease.require_keys AllowLease.allow_values
    AllowLease.validate_allow_lease_observation AllowLease.release_values
    AllowLease.validate_allow_lease_release_observation Intents.AllowLeaseIntent-discrete
    Intents.AllowLeaseReleaseIntent-discrete Intents.SessionSpawnIntent-discrete
    Intents.lease_metadata Intents.release_metadata Intents.session_metadata Registry.preflight
    Registry.remember Probe.gateway_lease_id Probe.require_owner Probe.require_release_owner
    Probe.release_replay Probe.has_session_intent_metadata Probe.only_match Probe.item
    Probe.validate_session Probe.calls Probe.remember_lease_acquire Probe.remember_session_spawn
    Probe.remember_release Operations.acquire_allow_lease Operations.spawn_session Scripted.next
    Scripted.is_queued Scripted.listing_loop Scripted.scripted_session_list
probe_steps = tt

abbrev session_values : Values
session_values =
    ("run_id", "run")
    ∷ ("transition_id", "transition")
    ∷ ("client_request_id", "client")
    ∷ ("idempotency_key", "spawn-1")
    ∷ ("phase", "work")
    ∷ ("agent_id", "agent")
    ∷ ("task_digest", "digest")
    ∷ []

session_validates :
    validate_metadata_observation decoder
      (session_metadata spawn_intent)
      (some (session_metadata spawn_intent))
      (some "session")
      (some "1")
      session_fields
    ≡ ok session_values
unfolding probe_steps
session_validates = refl

validated_fields_agree_example :
    (value : String) × (value ≢ "")
    × (item "phase" session_values ≡ some value)
    × (get "phase" (session_metadata spawn_intent) ≡ some (str value))
    × (observed : Members) × (some (session_metadata spawn_intent) ≡ some observed)
    × (get "phase" observed ≡ some (str value))
    × (raw : String) × (ms : Members) × (◌≡◌ {A = Option String} (some "session") (some raw))
    × (decoder.loads raw ≡ some (object ms))
    × (get "phase" ms ≡ some (str value))
unfolding probe_steps
validated_fields_agree_example =
    validated_fields_agree decoder (session_metadata spawn_intent)
      (some (session_metadata spawn_intent)) (some "session") (some "1") session_fields
      session_values "phase" session_validates refl

probe-IsBound_example :
    ProbeIsBound (acquire_allow_lease decoder scripted lease_intent start).1
    × ProbeIsBound (status_allow_lease decoder scripted lease_intent "lease" start).1
    × ProbeIsBound (release_allow_lease decoder scripted release_intent start).1
    × ProbeIsBound (spawn_session decoder scripted spawn_intent start).1
    × ProbeIsBound (status_session decoder scripted spawn_intent "lease" start).1
    × ProbeIsBound (list_session decoder scripted spawn_intent "lease" start).1
    × ProbeIsBound (result_session decoder scripted spawn_intent "lease" start).1
probe-IsBound_example =
    probe-IsBound decoder scripted start lease_intent release_intent spawn_intent "lease"
      empty_registry-IsBound

acquire_repeats :
    acquire_allow_lease decoder scripted lease_intent acquired.1 ≡ (ok "lease", acquired_again.1)
unfolding probe_steps
acquire_repeats = refl

acquire_is_remembered : acquired.1.registry.leases.by_key "acquire-1" ≡ some (lease_intent, "lease")
unfolding probe_steps
acquire_is_remembered = refl

acquire_replay_stable_example : (lease_intent ≡ lease_intent) × (◌≡◌ {A = String} "lease" "lease")
acquire_replay_stable_example =
    acquire_replay_stable decoder scripted acquired.1 acquired_again.1 lease_intent lease_intent
      "lease" "lease" acquire_is_remembered acquire_repeats

spawn_repeats :
    spawn_session decoder scripted spawn_intent spawned.1 ≡ (ok "session", spawned_again.1)
unfolding probe_steps
spawn_repeats = refl

spawn_is_remembered : spawned.1.registry.sessions.by_key "spawn-1" ≡ some (spawn_intent, "session")
unfolding probe_steps
spawn_is_remembered = refl

spawn_replay_stable_example : (spawn_intent ≡ spawn_intent) × (◌≡◌ {A = String} "session" "session")
spawn_replay_stable_example =
    spawn_replay_stable decoder scripted spawned.1 spawned_again.1 spawn_intent spawn_intent
      "session" "session" spawn_is_remembered spawn_repeats

-- A script that holds two observations of a list.
abbrev listing : Script
listing = put "session_list" (session_observation ∷ lease_observation ∷ []) (λ name. none)

scripted_session_list-all_example :
    ((scripted_session_list listing).0 ≡ ok (queue_of (listing "session_list")))
    × (is_queued ((scripted_session_list listing).1 "session_list") ≡ false)
    × ((scripted_session_list listing).1 "session_spawn" ≡ listing "session_spawn")
scripted_session_list-all_example = scripted_session_list-all listing "session_spawn" (λ e. cc e)

all_are_listed :
    (scripted_session_list listing).0 ≡ ok (session_observation ∷ lease_observation ∷ [])
unfolding probe_steps
all_are_listed = refl
