-- ===== src/Dispatch/Request.antt =====
-- The request and the metadata made of it (src/agentic_os/runtime_dispatch.py, lines 54 to 126 and
-- 170 to 309).
use openclaw_agentic_os.Prelude.{
  ℕ, String, Bool, true, false, not, ◌&&◌, ◌||◌, Option, none, some, List, [], ◌∷◌, leb, ◌=ₜ◌,
  one_of, is_text, is_some, any, if◌then◌else◌,
}
use openclaw_agentic_os.Result.{Result, ok, dispatch_error, require, ◌>>◌}
use openclaw_agentic_os.Budget.Amounts.{pos}
use openclaw_agentic_os.Metadata.Json.{
  Json, str, int, boolean, null, object, Members, no_members, member, Decoder, has_key,
}
use openclaw_agentic_os.Metadata.Fields.{max_lease_ttl_ms}
use openclaw_agentic_os.Dispatch.World.{Platform}

-- A `ttl_ms` that is no integer from 0 up is 0.
pub record DispatchRequest : Type 0 where
  pub run_id : String
  pub transition_id : String
  pub phase : String
  pub agent_id : String
  pub requester_agent_id : String
  pub task_digest : String
  pub spawn_request_id : String
  pub reserve_budget_event_id : String
  pub client_lease_id : String
  pub acquire_idempotency_key : String
  pub release_idempotency_key : String
  pub ttl_ms : ℕ
  pub spawn_client_request_id : String
  pub spawn_idempotency_key : String
  pub spawn_task : Option String
  pub spawn_task_name : Option String
  pub spawn_runtime : String
  pub spawn_mode : String
  pub spawn_cleanup : String
  pub spawn_context : String
  pub spawn_light_context : Bool
  pub lease_id : Option String

pub record DispatchResult : Type 0 where
  pub session_key : String
  pub gateway_lease_id : String
  pub status : String

-- The texts that must not be empty.
required_fields : DispatchRequest → List String
required_fields q =
    q.run_id ∷ q.transition_id ∷ q.phase ∷ q.agent_id ∷ q.requester_agent_id ∷ q.task_digest
    ∷ q.spawn_request_id ∷ q.reserve_budget_event_id ∷ q.client_lease_id ∷ q.acquire_idempotency_key
    ∷ q.release_idempotency_key ∷ q.spawn_client_request_id ∷ q.spawn_idempotency_key ∷ []

unfoldable pub validate_dispatch_request : DispatchRequest → Result (Unit {0})
unfolding required_fields one_of is_text
validate_dispatch_request q = do
  require (not (one_of "" (required_fields q))) (dispatch_error "must be a non-empty string")
  require (not (is_text q.lease_id ""))
      (dispatch_error "lease_id must be a non-empty string when provided")
  require (leb 1 q.ttl_ms && leb q.ttl_ms max_lease_ttl_ms)
      (dispatch_error "ttl_ms must be an integer in range")

-- `request.lease_id or request.client_lease_id`
unfoldable pub lease_id_of : DispatchRequest → String
lease_id_of q = elim q.lease_id [
  | none ↦ q.client_lease_id
  | some lease_id ↦ if lease_id =ₜ "" then q.client_lease_id else lease_id
]

text_member : String → String → Members → Members
text_member k v rest = member k (str v) rest

optional_member : String → Option String → Members → Members
optional_member k none rest = member k null rest
optional_member k (some v) rest = member k (str v) rest

unfoldable pub lease_metadata : DispatchRequest → String → Members
unfolding text_member
lease_metadata q gateway_lease_id = text_member "client_lease_id" q.client_lease_id (
    text_member "idempotency_key" q.acquire_idempotency_key (
      text_member "run_id" q.run_id (
        text_member "phase" q.phase (
          text_member "transition_id" q.transition_id (
            text_member "agent_id" q.agent_id (
              text_member "requester_agent_id" q.requester_agent_id (
                member "ttl_ms" (int (pos q.ttl_ms))
                  (text_member "gateway_lease_id" gateway_lease_id no_members))))))))

unfoldable pub release_metadata : DispatchRequest → String → Members
unfolding text_member
release_metadata q gateway_lease_id = text_member "client_lease_id" q.client_lease_id (
    text_member "release_idempotency_key" q.release_idempotency_key (
      text_member "run_id" q.run_id (
        text_member "phase" q.phase (
          text_member "transition_id" q.transition_id (
            text_member "agent_id" q.agent_id (
              text_member "requester_agent_id" q.requester_agent_id
                (text_member "gateway_lease_id" gateway_lease_id no_members)))))))

-- The parameters of the acquire call.
unfoldable pub acquire_params : DispatchRequest → Members
unfolding text_member
acquire_params q = text_member "run_id" q.run_id (
    text_member "transition_id" q.transition_id (
      text_member "phase" q.phase (
        text_member "agent_id" q.agent_id (
          text_member "requester_agent_id" q.requester_agent_id (
            text_member "client_lease_id" q.client_lease_id (
              text_member "idempotency_key" q.acquire_idempotency_key
                (member "ttl_ms" (int (pos q.ttl_ms)) no_members)))))))

-- `spawn_metadata`, in front of further members.
spawn_members : DispatchRequest → Members → Members
unfolding text_member
spawn_members q rest = text_member "run_id" q.run_id (
    text_member "transition_id" q.transition_id (
      text_member "client_request_id" q.spawn_client_request_id (
        text_member "idempotency_key" q.spawn_idempotency_key (
          text_member "phase" q.phase
            (text_member "agent_id" q.agent_id (text_member "task_digest" q.task_digest rest))))))

unfoldable pub spawn_metadata : DispatchRequest → Members
unfolding spawn_members
spawn_metadata q = spawn_members q no_members

nonempty_option : Option String → Bool
nonempty_option none = false
nonempty_option (some s) = not (s =ₜ "")

text_or_empty : Option String → String
text_or_empty none = ""
text_or_empty (some s) = s

unfoldable pub validate_transient_spawn_descriptor : Platform → DispatchRequest → Result (Unit {0})
unfolding nonempty_option text_or_empty one_of
validate_transient_spawn_descriptor platform q = do
  require (nonempty_option q.spawn_task)
      (dispatch_error "sessions_spawn transient task must be a non-empty string")
  require (nonempty_option q.spawn_task_name)
      (dispatch_error "sessions_spawn transient taskName must be a non-empty string")
  require (platform.sha256_hex (text_or_empty q.spawn_task) =ₜ q.task_digest)
      (dispatch_error "sessions_spawn transient task must match persisted task_digest")
  require (q.spawn_runtime =ₜ "subagent")
      (dispatch_error "sessions_spawn transient runtime must be subagent")
  require (q.spawn_mode =ₜ "run") (dispatch_error "sessions_spawn transient mode must be run")
  require (one_of q.spawn_cleanup ("delete" ∷ "keep" ∷ []))
      (dispatch_error "sessions_spawn transient cleanup is invalid")
  require (one_of q.spawn_context ("fork" ∷ "isolated" ∷ []))
      (dispatch_error "sessions_spawn transient context is invalid")

unfoldable pub spawn_descriptor_metadata : Platform → DispatchRequest → Result Members
unfolding spawn_members text_member optional_member
spawn_descriptor_metadata platform q = do
  validate_transient_spawn_descriptor platform q
  ok (
      spawn_members q (
        optional_member "taskName" q.spawn_task_name (
          text_member "runtime" q.spawn_runtime (
            text_member "mode" q.spawn_mode (
              text_member "cleanup" q.spawn_cleanup (
                text_member "context" q.spawn_context
                  (member "lightContext" (boolean q.spawn_light_context) no_members)))))))

unfoldable pub spawn_rpc_params : Platform → DispatchRequest → String → Result Members
unfolding spawn_members text_member optional_member
spawn_rpc_params platform q gateway_lease_id = do
  validate_transient_spawn_descriptor platform q
  ok (
      optional_member "task" q.spawn_task (
        optional_member "taskName" q.spawn_task_name (
          text_member "runtime" q.spawn_runtime (
            text_member "mode" q.spawn_mode (
              text_member "agentId" q.agent_id (
                text_member "cleanup" q.spawn_cleanup (
                  text_member "context" q.spawn_context (
                    member "lightContext" (boolean q.spawn_light_context) (
                      text_member "client_request_id" q.spawn_client_request_id (
                        text_member "idempotency_key" q.spawn_idempotency_key (
                          text_member "gateway_lease_id" gateway_lease_id (
                            member "metadata" (object (spawn_members q no_members))
                              no_members))))))))))))

unfoldable pub replay_transient_descriptor_supplied : DispatchRequest → Bool
replay_transient_descriptor_supplied q =
    is_some q.spawn_task
    || is_some q.spawn_task_name
    || not (q.spawn_runtime =ₜ "subagent")
    || not (q.spawn_mode =ₜ "run")
    || not (q.spawn_cleanup =ₜ "keep")
    || not (q.spawn_context =ₜ "isolated")
    || q.spawn_light_context

decoded_requires : Option Json → Bool
unfolding any has_key
decoded_requires (some (object ms)) =
    any (λ key. has_key key ms)
      ("taskName" ∷ "runtime" ∷ "mode" ∷ "cleanup" ∷ "context" ∷ "lightContext" ∷ [])
decoded_requires _ = true

-- `metadata_json` is NOT NULL in the table.
unfoldable pub stored_descriptor_requires_transient_descriptor : Decoder → String → Bool
unfolding decoded_requires
stored_descriptor_requires_transient_descriptor decoder metadata_json =
    decoded_requires (decoder.loads metadata_json)
