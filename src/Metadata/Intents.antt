-- ===== src/Metadata/Intents.antt =====
-- The observations and intents of the dispatch probe, and the adapter it drives
-- (src/agentic_os/metadata_dispatch.py, lines 25 to 125).
use openclaw_agentic_os.Prelude.{ℕ, String, Option, List, String-discrete, ℕ_discrete}
use openclaw_agentic_os.Transaction.{Action}
use openclaw_agentic_os.Budget.Amounts.{pos}
use openclaw_agentic_os.Metadata.Json.{str, int, Members, no_members, member}

pub record MetadataObservation : Type 0 where
  pub normalized : Option Members
  pub raw_json : Option String
  pub metadata_contract_version : Option String
  pub external_id : Option String
  pub spawn_request_session_key : Option String
  pub session_key : Option String

pub record AllowLeaseIntent : Type 0 where
  pub client_lease_id : String
  pub idempotency_key : String
  pub run_id : String
  pub phase : String
  pub transition_id : String
  pub agent_id : String
  pub requester_agent_id : String
  pub ttl_ms : ℕ

pub record AllowLeaseReleaseIntent : Type 0 where
  pub client_lease_id : String
  pub idempotency_key : String
  pub run_id : String
  pub phase : String
  pub transition_id : String
  pub agent_id : String
  pub requester_agent_id : String
  pub gateway_lease_id : String

pub record SessionSpawnIntent : Type 0 where
  pub run_id : String
  pub transition_id : String
  pub client_request_id : String
  pub idempotency_key : String
  pub phase : String
  pub agent_id : String
  pub task_digest : String

unfoldable pub AllowLeaseIntent-discrete : Discrete AllowLeaseIntent
AllowLeaseIntent-discrete = hlevel (String-discrete, ℕ_discrete)

unfoldable pub AllowLeaseReleaseIntent-discrete : Discrete AllowLeaseReleaseIntent
AllowLeaseReleaseIntent-discrete = hlevel String-discrete

unfoldable pub SessionSpawnIntent-discrete : Discrete SessionSpawnIntent
SessionSpawnIntent-discrete = hlevel String-discrete

text_member : String → String → Members → Members
text_member k v rest = member k (str v) rest

-- `AllowLeaseIntent.metadata`
unfoldable pub lease_metadata : AllowLeaseIntent → String → Members
unfolding text_member
lease_metadata intent gateway_lease_id = text_member "client_lease_id" intent.client_lease_id (
    text_member "idempotency_key" intent.idempotency_key (
      text_member "run_id" intent.run_id (
        text_member "phase" intent.phase (
          text_member "transition_id" intent.transition_id (
            text_member "agent_id" intent.agent_id (
              text_member "requester_agent_id" intent.requester_agent_id (
                member "ttl_ms" (int (pos intent.ttl_ms))
                  (text_member "gateway_lease_id" gateway_lease_id no_members))))))))

-- `AllowLeaseReleaseIntent.metadata`
unfoldable pub release_metadata : AllowLeaseReleaseIntent → Members
unfolding text_member
release_metadata intent = text_member "client_lease_id" intent.client_lease_id (
    text_member "release_idempotency_key" intent.idempotency_key (
      text_member "run_id" intent.run_id (
        text_member "phase" intent.phase (
          text_member "transition_id" intent.transition_id (
            text_member "agent_id" intent.agent_id (
              text_member "requester_agent_id" intent.requester_agent_id
                (text_member "gateway_lease_id" intent.gateway_lease_id no_members)))))))

-- `SessionSpawnIntent.metadata`
unfoldable pub session_metadata : SessionSpawnIntent → Members
unfolding text_member
session_metadata intent = text_member "run_id" intent.run_id (
    text_member "transition_id" intent.transition_id (
      text_member "client_request_id" intent.client_request_id (
        text_member "idempotency_key" intent.idempotency_key (
          text_member "phase" intent.phase (
            text_member "agent_id" intent.agent_id
              (text_member "task_digest" intent.task_digest no_members))))))

-- `MetadataDispatchAdapter`: each call may raise, and changes the adapter's own state.
pub record MetadataDispatchAdapter (S : Type 0) : Type 0 where
  pub allow_lease_acquire : AllowLeaseIntent → Action S MetadataObservation
  pub allow_lease_status : String → Action S MetadataObservation
  pub allow_lease_release : AllowLeaseReleaseIntent → Action S MetadataObservation
  pub session_spawn : SessionSpawnIntent → Action S MetadataObservation
  pub session_status : String → Action S MetadataObservation
  pub session_list : SessionSpawnIntent → Action S (List MetadataObservation)
  pub session_result : String → Action S MetadataObservation
