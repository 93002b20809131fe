-- ===== src/Scenarios/Dispatches.antt =====
-- A dispatch against a gateway that answers well, its replay, and one against a gateway that does not
-- answer; the theorems of the dispatcher at these runs.
use mathlib.Core.Option
use openclaw_agentic_os.Prelude
use openclaw_agentic_os.Prelude.{
  ◌<◌, ◌≤◌, find, ℕ, ◌+◌, String, Bool, true, false, ◌≡◌, refl, ◌⊎◌, Option, none, some, List, [],
  ◌∷◌, ◌=ₜ◌, if◌then◌else◌,
}
use openclaw_agentic_os.Result
use openclaw_agentic_os.Result.{Error, Result, ok, err, dispatch_error}
use openclaw_agentic_os.Transaction
use openclaw_agentic_os.Metadata.Json
use openclaw_agentic_os.Metadata.Json.{Json, str, object, Members, member, Decoder, has_key, get}
use openclaw_agentic_os.Metadata.Fields
use openclaw_agentic_os.Metadata.Observation
use openclaw_agentic_os.Metadata.AllowLease
use openclaw_agentic_os.Metadata.Probe
use openclaw_agentic_os.Dispatch.Rows
use openclaw_agentic_os.Dispatch.Rows.{Db, Intent, sessions_spawn}
use openclaw_agentic_os.Dispatch.World
use openclaw_agentic_os.Dispatch.World.{
  Platform, World, Clock, Observation, Outcome, observed, ambiguous, Adapter,
}
use openclaw_agentic_os.Dispatch.Request
use openclaw_agentic_os.Dispatch.Request.{
  DispatchRequest, DispatchResult, lease_metadata, spawn_metadata,
}
use openclaw_agentic_os.Dispatch.Replay
use openclaw_agentic_os.Dispatch.Live
use openclaw_agentic_os.Dispatch.Pending
use openclaw_agentic_os.Dispatch.Pending.{insert_pending_dispatch, pending_intent, spawn_identity}
use openclaw_agentic_os.Dispatch.Marks
use openclaw_agentic_os.Dispatch.Persist
use openclaw_agentic_os.Dispatch.Release
use openclaw_agentic_os.Dispatch.Release.{release_storage_metadata_json, storage_members}
use openclaw_agentic_os.Dispatch.Times.{persist_spawn_acceptance-later}
use openclaw_agentic_os.Dispatch.Persist.{persist_spawn_acceptance}
use openclaw_agentic_os.Dispatch.Replay.{of_kind}
use openclaw_agentic_os.Dispatch.Storage.{last_value, release_storage_metadata_json-reads}
use openclaw_agentic_os.Dispatch.Flow
use openclaw_agentic_os.Dispatch.Flow.{dispatch_with_metadata}
use openclaw_agentic_os.Dispatch.Lifecycle.{Evolves, Evolves-refl}
use openclaw_agentic_os.Dispatch.Evolution.{dispatch_with_metadata-Evolves}
use openclaw_agentic_os.Dispatch.Calls.{Calls, dispatch_with_metadata-Calls}
use openclaw_agentic_os.Dispatch.Once
use openclaw_agentic_os.Dispatch.Once.{is_dispatched, dispatch_with_metadata-once}
use openclaw_agentic_os.Dispatch.Accepted
use openclaw_agentic_os.Dispatch.Accepted.{has_recorded}
use openclaw_agentic_os.Dispatch.Outcomes.{
  dispatch_with_metadata-recorded, dispatch_with_metadata-inert,
}

abbrev request : DispatchRequest
request = record {
  run_id = "run";
  transition_id = "transition";
  phase = "work";
  agent_id = "agent";
  requester_agent_id = "requester";
  task_digest = "digest";
  spawn_request_id = "spawn-request";
  reserve_budget_event_id = "reserve";
  client_lease_id = "client-lease";
  acquire_idempotency_key = "acquire-1";
  release_idempotency_key = "release-1";
  ttl_ms = 1000;
  spawn_client_request_id = "client-spawn";
  spawn_idempotency_key = "spawn-1";
  spawn_task = some "task";
  spawn_task_name = some "name";
  spawn_runtime = "subagent";
  spawn_mode = "run";
  spawn_cleanup = "keep";
  spawn_context = "isolated";
  spawn_light_context = false;
  lease_id = none;
}

-- A platform that knows the texts of this run, with a schema that admits every statement.
abbrev platform : Platform
platform = record {
  sha256_hex = λ text. "digest";
  strftime = λ ms. "time";
  dumps = λ ms. if has_key "gateway_lease_id" ms then "lease" else "descriptor";
  decoder = record {
    loads = λ raw.
        if raw =ₜ "lease"
        then some (object (lease_metadata request "gateway"))
        else if raw =ₜ "session"
        then some (object (spawn_metadata request))
        else none;
  };
  like = λ text pattern_text. false;
  admits = λ before after. true;
}

-- A clock that advances by one.
abbrev clock : Clock ℕ
clock t = (t, t + 1)

abbrev lease_observation : Observation
lease_observation = record {
  metadata_contract_version = some "1";
  normalized = some (lease_metadata request "gateway");
  raw_json = some "lease";
  external_id = some "gateway";
  spawn_request_session_key = none;
  session_key = none;
  status_metadata_json = none;
}

abbrev session_observation : Observation
session_observation = record {
  metadata_contract_version = some "1";
  normalized = some (spawn_metadata request);
  raw_json = some "session";
  external_id = some "session";
  spawn_request_session_key = some "session";
  session_key = some "session";
  status_metadata_json = none;
}

-- Adapters whose state counts their calls.
abbrev gateway : Adapter ℕ
gateway = record {
  allow_lease_acquire = λ params n. (observed lease_observation, n + 1);
  allow_lease_release = λ params n. (ambiguous "unreachable" none, n + 1);
  sessions_spawn = λ params n. (observed session_observation, n + 1);
}

abbrev silent : Adapter ℕ
silent = record {
  allow_lease_acquire = λ params n. (ambiguous "unreachable" none, n + 1);
  allow_lease_release = λ params n. (ambiguous "unreachable" none, n + 1);
  sessions_spawn = λ params n. (ambiguous "unreachable" none, n + 1);
}

abbrev start : World ℕ ℕ
start = record {
  db = record {
    intents = [];
    leases = [];
    spawn_requests = [];
    bindings = [];
    sessions = [];
    reserve_times = λ id. some (some 1);
  };
  time = 10;
  outside = 0;
}

abbrev dispatched : Result DispatchResult × World ℕ ℕ
dispatched = dispatch_with_metadata platform clock gateway request start

abbrev unanswered : Result DispatchResult × World ℕ ℕ
unanswered = dispatch_with_metadata platform clock silent request start

unfoldable dispatch_steps : Unit {0}
unfolding Option.bind Transaction.◌>>=◌ Result.◌>>=◌ Prelude.String-discrete Prelude.same
    Prelude.◌=ₜ◌ Prelude.one_of Prelude.is_text Prelude.any Prelude.find Prelude.ℕ_discrete
    Json.has_key Json.get Json.reject_duplicate_keys Json.hooked Json.raw_json_object
    Fields.Values-discrete Fields.has_fields Fields.same_keys Fields.restrict Fields.nonempty_text
    Fields.exact_nonempty_fields Observation.raw_object Observation.contract_version
    Observation.both_required Observation.validate_metadata_observation
    Observation.validate_session_observation Observation.nonempty Observation.same_duplicate
    Observation.validate_accepted_lease_identity Observation.validate_accepted_session_identity
    AllowLease.LeaseValues-discrete AllowLease.require_keys AllowLease.allow_values
    AllowLease.validate_allow_lease_observation AllowLease.release_values
    AllowLease.validate_allow_lease_release_observation Probe.item Rows.RpcKind-discrete
    Rows.Binding-discrete World.count_where World.update_where World.now_utc
    World.immediate_transaction World.statement World.exactly_one World.call World.raises
    Request.validate_dispatch_request Request.lease_id_of Request.lease_metadata
    Request.acquire_params Request.spawn_metadata Request.validate_transient_spawn_descriptor
    Request.spawn_descriptor_metadata Request.spawn_rpc_params
    Request.replay_transient_descriptor_supplied
    Request.stored_descriptor_requires_transient_descriptor Replay.of_kind Replay.same_spawn
    Replay.session_joins Replay.replay_identity Replay.accepted_spawn_replay_session_key
    Replay.accepted_replay Replay.replay_by_state Replay.descriptor_needed Replay.same_descriptor
    Replay.replay_intent Replay.existing_spawn_replay_result
    Replay.assert_no_conflicting_spawn_replay Pending.assert_no_release_key_collision
    Pending.spawn_intent_requested_time Live.assert_no_potentially_live_dispatch Pending.insert_if
    Pending.assert_or_insert_spawn_request Pending.assert_or_insert_lease
    Pending.assert_or_insert_acquire_intent Pending.assert_or_insert_dispatch_binding
    Pending.insert_pending_dispatch Marks.has_no_gateway Marks.unreviewed_lease Marks.owned_lease
    Marks.mark_spawn_review Marks.mark_acquire_unknown Persist.acquirable Persist.expirable
    Persist.expire_if Persist.strictly_after_requested_time Persist.persist_acquired_lease
    Persist.expire_locally_expired_lease_before_spawn Persist.persist_spawn_acceptance
    Release.text_of Release.storage_of Release.set_member Release.plain Release.plain_members
    Release.storage_members Release.release_storage_metadata_json Flow.try_else Flow.reason_of
    Flow.accept_spawn Flow.after_spawn Flow.spawn_stage Flow.unless_expired Flow.expiry_stage
    Flow.keep_or_unknown Flow.acquire_uncertain Flow.acquired_as Flow.after_acquire
    Flow.acquire_stage Flow.begin_if_new Flow.begin_dispatch Flow.unless_replayed
    Flow.dispatch_with_metadata Once.is_dispatched Accepted.is_recorded Accepted.has_recorded
dispatch_steps = tt

dispatch_is_accepted : dispatched ≡ (
  ok (record { session_key = "session"; gateway_lease_id = "gateway"; status = "accepted" }),
  dispatched.1,
)
unfolding dispatch_steps
dispatch_is_accepted = refl

two_calls : dispatched.1.outside ≡ 2
unfolding dispatch_steps
two_calls = refl

dispatch_is_replayed :
    (dispatch_with_metadata platform clock gateway request dispatched.1).0
    ≡ ok (record { session_key = "session"; gateway_lease_id = "gateway"; status = "replayed" })
unfolding dispatch_steps
dispatch_is_replayed = refl

no_answer : unanswered.0 ≡ err (dispatch_error "allow lease transport outcome unknown")
unfolding dispatch_steps
no_answer = refl

one_call : unanswered.1.outside ≡ 1
unfolding dispatch_steps
one_call = refl

an_intent_is_there : is_dispatched request unanswered.1.db ≡ true
unfolding dispatch_steps
an_intent_is_there = refl

dispatched_is_there : is_dispatched request dispatched.1.db ≡ true
unfolding dispatch_steps
dispatched_is_there = refl

dispatch_with_metadata-Evolves_example : Evolves start.db dispatched.1.db
dispatch_with_metadata-Evolves_example =
    dispatch_with_metadata-Evolves platform clock gateway request start

dispatch_with_metadata-inert_example :
    ((dispatch_with_metadata platform clock gateway request dispatched.1).1 ≡ dispatched.1)
    × (((e : Error) × ((dispatch_with_metadata platform clock gateway request dispatched.1).0
            ≡ err e))
        ⊎ ((r : DispatchResult) × ((dispatch_with_metadata platform clock gateway request
                dispatched.1).0
              ≡ ok r)
            × (has_recorded request r.session_key dispatched.1.db ≡ true)))
dispatch_with_metadata-inert_example =
    dispatch_with_metadata-inert platform clock gateway request dispatched.1 dispatched_is_there

dispatch_with_metadata-once_example :
    ((unanswered.1.db ≡ start.db) × (unanswered.1.outside ≡ start.outside))
    ⊎ ((dispatch_with_metadata platform clock gateway request unanswered.1).1 ≡ unanswered.1)
dispatch_with_metadata-once_example =
    dispatch_with_metadata-once platform platform clock clock silent gateway request request start
      unanswered.1 refl (Evolves-refl unanswered.1.db)

dispatch_with_metadata-recorded_example : has_recorded request "session" dispatched.1.db ≡ true
dispatch_with_metadata-recorded_example =
    dispatch_with_metadata-recorded platform clock gateway request start dispatched.1
      (record { session_key = "session"; gateway_lease_id = "gateway"; status = "accepted" })
      dispatched.1.db dispatch_is_accepted (Evolves-refl dispatched.1.db)

dispatch_with_metadata-Calls_example :
    Calls platform silent request start.outside unanswered.1.outside
dispatch_with_metadata-Calls_example =
    dispatch_with_metadata-Calls platform clock silent request start

-- A platform on which the raw metadata of a release repeats a field.
abbrev repeated : Members
repeated = member "run_id" (str "other") (lease_metadata request "gateway")

abbrev storing : Platform
storing = record platform {
  dumps = λ ms. "stored";
  decoder = record {
    loads = λ raw.
        if raw =ₜ "lease"
        then some (object repeated)
        else some (object (storage_members "release-1" repeated));
  };
}

stored_run : release_storage_metadata_json storing (some "lease") "release-1" ≡ ok "stored"
unfolding dispatch_steps
stored_run = refl

last_run : last_value "run_id" repeated none ≡ some (str "run")
unfolding dispatch_steps last_value
last_run = refl

release_storage_metadata_json-reads_example :
    (stored : String) × (release_storage_metadata_json storing (some "lease") "release-1"
      ≡ ok stored)
    × (back : Members) × (storing.decoder.loads stored ≡ some (object back))
    × (get "idempotency_key" back ≡ some (str "release-1"))
    × (get "run_id" back ≡ last_value "run_id" repeated none)
unfolding dispatch_steps
release_storage_metadata_json-reads_example =
    release_storage_metadata_json-reads storing "lease" "release-1" "run_id" repeated refl
      (storage_members "release-1" repeated, refl, λ field. refl) (λ e. cc e)

-- The rows of a dispatch that waits for its session, on a clock that then goes back.
abbrev waiting : Result (Unit {0}) × World ℕ ℕ
waiting = insert_pending_dispatch platform request clock start

abbrev asked : World ℕ ℕ
asked = record waiting.1 { time = 3 }

abbrev accepted : Result (Unit {0}) × World ℕ ℕ
accepted = persist_spawn_acceptance platform clock request session_observation "session" false asked

spawn_is_accepted :
    persist_spawn_acceptance platform clock request session_observation "session" false asked
    ≡ (ok tt, accepted.1)
unfolding dispatch_steps
spawn_is_accepted = refl

abbrev waiting_intent : Intent
waiting_intent = pending_intent (spawn_identity platform request "descriptor" "time" 10)

persist_spawn_acceptance-later_example :
    (j : Intent) × (requested : ℕ) × (at : ℕ) × (find
        (of_kind sessions_spawn "spawn-1")
        accepted.1.db.intents
      ≡ some j)
    × (j.identity ≡ waiting_intent.identity)
    × (waiting_intent.identity.requested_at_epoch_ms ≡ some requested)
    × (j.accepted_at_epoch_ms ≡ some at)
    × (requested < at)
    × (3 ≤ at)
unfolding dispatch_steps
persist_spawn_acceptance-later_example =
    persist_spawn_acceptance-later platform clock request session_observation "session" false asked
      accepted.1 waiting_intent refl refl refl spawn_is_accepted
