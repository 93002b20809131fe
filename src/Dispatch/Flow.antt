-- ===== src/Dispatch/Flow.antt =====
-- `release_owned_lease` and `dispatch_with_metadata` (src/agentic_os/runtime_dispatch.py, lines 1387
-- to 1602).
use openclaw_agentic_os.Prelude.{String, ◌++◌, Bool, true, false, Option, none, some, if◌then◌else◌}
use openclaw_agentic_os.Result.{
  Error, Result, ok, err, budget_error, budget_conflict, budget_exceeded, metadata_error,
  adapter_error, dispatch_error, sqlite_error, other_error,
}
use openclaw_agentic_os.Transaction.{Action, returns, reads, ◌>>=◌, ◌>>◌}
use openclaw_agentic_os.Metadata.Observation.{
  validate_accepted_lease_identity, validate_accepted_session_identity,
}
use openclaw_agentic_os.Dispatch.World.{
  Platform, World, Clock, Observation, Outcome, observed, ambiguous, raised, Adapter, call, raises,
  immediate_transaction,
}
use openclaw_agentic_os.Dispatch.Request.{
  DispatchRequest, DispatchResult, validate_dispatch_request, validate_transient_spawn_descriptor,
  acquire_params, release_metadata, spawn_rpc_params,
}
use openclaw_agentic_os.Dispatch.Replay.{existing_spawn_replay_result}
use openclaw_agentic_os.Dispatch.Pending.{insert_pending_dispatch}
use openclaw_agentic_os.Dispatch.Marks.{
  mark_spawn_review, mark_acquire_review, mark_acquire_unknown, mark_owned_lease_release_review,
  mark_owned_lease_release_unknown,
}
use openclaw_agentic_os.Dispatch.Persist.{
  persist_acquired_lease, persist_unknown_acquired_lease_candidate,
  expire_locally_expired_lease_before_spawn, persist_spawn_acceptance,
  persist_ambiguous_spawn_candidate,
}
use openclaw_agentic_os.Dispatch.Release.{prepare_owned_lease_release, persist_released_lease}

-- `str(exc)`
unfoldable pub reason_of : Error → String
reason_of (budget_error s) = s
reason_of (budget_conflict s) = s
reason_of (budget_exceeded s) = s
reason_of (metadata_error s) = s
reason_of (adapter_error s) = s
reason_of (dispatch_error s) = s
reason_of (sqlite_error s) = s
reason_of (other_error s) = s

-- METADATA_RUNTIME_ERRORS
unfoldable pub is_metadata_runtime_error : Error → Bool
is_metadata_runtime_error (adapter_error _) = true
is_metadata_runtime_error (metadata_error _) = true
is_metadata_runtime_error (dispatch_error _) = true
is_metadata_runtime_error (sqlite_error _) = true
is_metadata_runtime_error _ = false

unfoldable pub is_metadata_error : Error → Bool
is_metadata_error (metadata_error _) = true
is_metadata_error _ = false

abbrev pub continued :
    {W A B : Type 0} → Result A → (A → Action W B) → (Error → Action W B) → W → Result B × W
continued (ok a) next handler w = next a w
continued (err e) next handler w = handler e w

-- `try: m except: handler`, and what follows where `m` returned. What `m` has done stays done.
unfoldable pub try_else :
    {W A B : Type 0} → Action W A → (A → Action W B) → (Error → Action W B) → Action W B
try_else m next handler w = continued (m w).0 next handler (m w).1

abbrev pub unverifiable : String
unverifiable =
    "sessions_spawn returned unverifiable metadata after the application RPC; observed candidate requires human reconciliation"

-- A call that has ended: `uncertain` is one of AMBIGUOUS_TRANSPORT_ERRORS, with its candidate.
pub data Ended (A : Type 0) : Type 0 where
  completed : A → Ended A
  uncertain : String → Option Observation → Ended A

module _ {T S : Type 0} (platform : Platform) (clock : Clock T) (adapter : Adapter S)
    (q : DispatchRequest) where
  -- `try: m except MetadataContractError: handler`
  unfoldable pub on_metadata_error :
      {A : Type 0} → Action (World T S) A → Action (World T S) A → Action (World T S) A
  unfolding is_metadata_error
  on_metadata_error m handler =
      try_else m (λ a. returns a) (λ e. if is_metadata_error e then handler else raises e)

  unfoldable pub persist_release : String → Outcome → Action (World T S) (Ended Unit)
  persist_release gateway_lease_id (observed o) = do
    immediate_transaction (persist_released_lease platform clock q o gateway_lease_id false)
    returns (completed tt)
  persist_release gateway_lease_id (ambiguous reason candidate) =
      returns (uncertain reason candidate)
  persist_release gateway_lease_id (raised e) = raises e

  unfoldable pub release_owned_lease : String → Action (World T S) (Ended Unit)
  unfolding persist_release
  release_owned_lease gateway_lease_id = do
    immediate_transaction (prepare_owned_lease_release platform clock q gateway_lease_id)
    outcome ← call (adapter.allow_lease_release (release_metadata q gateway_lease_id))
    persist_release gateway_lease_id outcome

  unfoldable pub released_or_not : String → Error → Ended Unit → Action (World T S) DispatchResult
  released_or_not gateway_lease_id e (completed _) = raises (
      dispatch_error
        ("sessions_spawn failed closed (" ++ (reason_of e ++ "); owned lease released")))
  released_or_not gateway_lease_id e (uncertain reason _) = do
    immediate_transaction
        (mark_owned_lease_release_unknown platform clock q gateway_lease_id reason)
    raises (
        dispatch_error
          "sessions_spawn metadata validation failed; owned lease release outcome unknown")

  unfoldable pub release_failed : String → Error → Action (World T S) DispatchResult
  release_failed gateway_lease_id e =
      if is_metadata_runtime_error e
      then (do
        immediate_transaction
            (mark_owned_lease_release_review platform clock q gateway_lease_id (reason_of e))
        raises (
            dispatch_error
              "sessions_spawn metadata validation failed; owned lease release requires human review"))
      else raises e

  -- The handler of an AdapterContractError or MetadataContractError of the spawn.
  unfoldable pub fail_closed : String → Error → Action (World T S) DispatchResult
  unfolding released_or_not release_failed
  fail_closed gateway_lease_id e = do
    immediate_transaction (mark_spawn_review platform clock q (reason_of e))
    try_else (release_owned_lease gateway_lease_id) (released_or_not gateway_lease_id e)
        (release_failed gateway_lease_id)

  -- The handler of a RuntimeDispatchError or sqlite3.Error of the spawn.
  unfoldable pub persistence_failed : Error → Action (World T S) DispatchResult
  persistence_failed e = do
    immediate_transaction (mark_spawn_review platform clock q (reason_of e))
    raises (
        dispatch_error "sessions_spawn local persistence failed; owned lease requires human review")

  unfoldable pub spawn_failed : String → Error → Action (World T S) DispatchResult
  unfolding fail_closed persistence_failed
  spawn_failed gateway_lease_id (adapter_error s) = fail_closed gateway_lease_id (adapter_error s)
  spawn_failed gateway_lease_id (metadata_error s) = fail_closed gateway_lease_id (metadata_error s)
  spawn_failed gateway_lease_id (dispatch_error s) = persistence_failed (dispatch_error s)
  spawn_failed gateway_lease_id (sqlite_error s) = persistence_failed (sqlite_error s)
  spawn_failed gateway_lease_id e = raises e

  unfoldable pub keep_spawn_candidate : Option Observation → Action (World T S) Unit
  keep_spawn_candidate none = returns tt
  keep_spawn_candidate (some o) = persist_ambiguous_spawn_candidate platform clock q o

  -- The handler of an ambiguous spawn.
  unfoldable pub spawn_uncertain : String → Option Observation → Action (World T S) DispatchResult
  unfolding keep_spawn_candidate
  spawn_uncertain reason candidate = do
    immediate_transaction
        (mark_spawn_review platform clock q reason >> keep_spawn_candidate candidate)
    raises (dispatch_error "sessions_spawn transport outcome unknown; human review required")

  unfoldable pub accept_spawn : Observation → Action (World T S) String
  accept_spawn o = do
    session_key ← reads (λ w.
        validate_accepted_session_identity o.external_id o.spawn_request_session_key o.session_key
          none)
    immediate_transaction (persist_spawn_acceptance platform clock q o session_key false)
    returns session_key

  unfoldable pub unverified_spawn : String → Observation → Error → Action (World T S) DispatchResult
  unfolding spawn_failed spawn_uncertain is_metadata_error
  unverified_spawn gateway_lease_id o e =
      if is_metadata_error e
      then spawn_uncertain unverifiable (some o)
      else spawn_failed gateway_lease_id e

  unfoldable pub after_spawn : String → Outcome → Action (World T S) DispatchResult
  unfolding spawn_failed spawn_uncertain unverified_spawn accept_spawn
  after_spawn gateway_lease_id (ambiguous reason candidate) = spawn_uncertain reason candidate
  after_spawn gateway_lease_id (raised e) = spawn_failed gateway_lease_id e
  after_spawn gateway_lease_id (observed o) =
      try_else (accept_spawn o)
        (λ session_key. returns (record {
          session_key = session_key;
          gateway_lease_id = gateway_lease_id;
          status = "accepted";
        }))
        (unverified_spawn gateway_lease_id o)

  unfoldable pub spawn_stage : String → Action (World T S) DispatchResult
  unfolding after_spawn spawn_failed
  spawn_stage gateway_lease_id =
      try_else (reads (λ w. spawn_rpc_params platform q gateway_lease_id))
        (λ params. call (adapter.sessions_spawn params) >>= after_spawn gateway_lease_id)
        (spawn_failed gateway_lease_id)

  unfoldable pub unless_expired : String → Bool → Action (World T S) DispatchResult
  unless_expired gateway_lease_id true =
      raises (dispatch_error "allow lease expired before sessions_spawn")
  unless_expired gateway_lease_id false = spawn_stage gateway_lease_id

  unfoldable pub expiry_stage : String → Action (World T S) DispatchResult
  unfolding unless_expired
  expiry_stage gateway_lease_id = do
    expired ←
        immediate_transaction
          (expire_locally_expired_lease_before_spawn platform clock q gateway_lease_id)
    unless_expired gateway_lease_id expired

  unfoldable pub keep_or_unknown : String → Option Observation → Action (World T S) Unit
  unfolding on_metadata_error
  keep_or_unknown reason none = mark_acquire_unknown platform clock q reason
  keep_or_unknown reason (some o) =
      on_metadata_error
        (reads (λ w. validate_accepted_lease_identity o.external_id none) >>= λ candidate_lease_id.
          persist_unknown_acquired_lease_candidate platform clock q o candidate_lease_id
            ("ambiguous allow lease candidate preserved for human reconciliation: " ++ reason))
        (mark_acquire_unknown platform clock q reason)

  -- The handler of an ambiguous acquire.
  unfoldable pub acquire_uncertain : String → Option Observation → Action (World T S) DispatchResult
  unfolding keep_or_unknown
  acquire_uncertain reason candidate = do
    immediate_transaction (
        keep_or_unknown reason candidate
        >> mark_spawn_review platform clock q "spawn blocked by allow lease transport uncertainty")
    raises (dispatch_error "allow lease transport outcome unknown")

  unfoldable pub keep_or_review : String → Option (Observation × String) → Action (World T S) Unit
  unfolding on_metadata_error
  keep_or_review reason none = mark_acquire_review platform clock q reason
  keep_or_review reason (some (o, gateway_lease_id)) =
      on_metadata_error
        (persist_unknown_acquired_lease_candidate platform clock q o gateway_lease_id
          ("validated allow lease candidate after local persistence failure: " ++ reason))
        (mark_acquire_review platform clock q reason)

  -- The handler of another failure of the acquire, with what had been observed.
  unfoldable pub acquire_failed :
      Option (Observation × String) → Error → Action (World T S) DispatchResult
  unfolding keep_or_review
  acquire_failed candidate e =
      if is_metadata_runtime_error e
      then (do
        immediate_transaction (
            keep_or_review (reason_of e) candidate
            >> mark_spawn_review platform clock q "spawn blocked by allow lease metadata failure")
        raises (dispatch_error "allow lease metadata validation failed"))
      else raises e

  unfoldable pub acquired_as : Observation → String → Action (World T S) DispatchResult
  unfolding acquire_failed expiry_stage
  acquired_as o gateway_lease_id =
      try_else
        (immediate_transaction (persist_acquired_lease platform clock q o gateway_lease_id false))
        (λ _. expiry_stage gateway_lease_id) (acquire_failed (some (o, gateway_lease_id)))

  unfoldable pub after_acquire : Outcome → Action (World T S) DispatchResult
  unfolding acquire_failed acquire_uncertain acquired_as
  after_acquire (ambiguous reason candidate) = acquire_uncertain reason candidate
  after_acquire (raised e) = acquire_failed none e
  after_acquire (observed o) =
      try_else (reads (λ w. validate_accepted_lease_identity o.external_id none)) (acquired_as o)
        (acquire_failed none)

  unfoldable pub acquire_stage : Action (World T S) DispatchResult
  unfolding after_acquire
  acquire_stage = call (adapter.allow_lease_acquire (acquire_params q)) >>= after_acquire

  unfoldable pub begin_if_new : Option DispatchResult → Action (World T S) (Option DispatchResult)
  begin_if_new (some result) = returns (some result)
  begin_if_new none = do
    reads (λ w. validate_transient_spawn_descriptor platform q)
    insert_pending_dispatch platform q clock
    returns none

  -- The first transaction: a replay, or the rows of a pending dispatch.
  unfoldable pub begin_dispatch : Action (World T S) (Option DispatchResult)
  unfolding begin_if_new
  begin_dispatch = do
    existing ← reads (λ w. existing_spawn_replay_result platform w.db q)
    begin_if_new existing

  unfoldable pub unless_replayed : Option DispatchResult → Action (World T S) DispatchResult
  unless_replayed (some result) = returns result
  unless_replayed none = acquire_stage

  unfoldable pub dispatch_with_metadata : Action (World T S) DispatchResult
  unfolding unless_replayed
  dispatch_with_metadata = do
    reads (λ w. validate_dispatch_request q)
    existing ← immediate_transaction begin_dispatch
    unless_replayed existing
