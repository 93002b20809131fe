-- ===== src/Dispatch/Calls.antt =====
-- Which calls of the adapter a dispatch makes, in which order, and for which lease.
use openclaw_agentic_os.Prelude.{String, Bool, true, false, ◌≡◌, refl, Option, none, some}
use openclaw_agentic_os.Result.{
  Error, ok, budget_error, budget_conflict, budget_exceeded, metadata_error, adapter_error,
  dispatch_error, sqlite_error, other_error,
}
use openclaw_agentic_os.Transaction.{returns, reads-kept, returns-kept}
use openclaw_agentic_os.Metadata.Json.{Members}
use openclaw_agentic_os.Metadata.Observation.{validate_accepted_lease_identity}
use openclaw_agentic_os.Dispatch.World.{
  Platform, World, Clock, Observation, Outcome, observed, ambiguous, raised, Adapter, raises,
}
use openclaw_agentic_os.Dispatch.Request.{
  DispatchRequest, DispatchResult, acquire_params, release_metadata, spawn_rpc_params,
}
use openclaw_agentic_os.Dispatch.Flow.{
  unverifiable, is_metadata_error, persist_release, persistence_failed, spawn_uncertain,
  acquire_uncertain, acquire_failed, release_owned_lease, fail_closed, spawn_failed,
  unverified_spawn, after_spawn, spawn_stage, unless_expired, expiry_stage, acquired_as,
  after_acquire, acquire_stage, unless_replayed, dispatch_with_metadata,
}
use openclaw_agentic_os.Dispatch.Local.{
  Local, raises-Local, transaction-Local, mark_spawn_review-Local, persist_acquired_lease-Local,
  expire_locally_expired_lease_before_spawn-Local, prepare_owned_lease_release-Local,
}
use openclaw_agentic_os.Dispatch.Handlers.{
  persist_release-Local, released_or_not-Local, release_failed-Local, persistence_failed-Local,
  spawn_uncertain-Local, accept_spawn-Local, acquire_uncertain-Local, acquire_failed-Local,
  begin_dispatch-Local,
}
use openclaw_agentic_os.Dispatch.Leads.{
  Leads, Local-Leads, then-Leads, try_else-Leads, tested-Leads, then-Local-Leads, if-Leads,
  call-Leads,
}

module _ {S : Type 0} (platform : Platform) (adapter : Adapter S) (q : DispatchRequest)
    (start : S) where
  abbrev pub after_allow_lease_acquire : S
  after_allow_lease_acquire = (adapter.allow_lease_acquire (acquire_params q) start).1

  -- The acquire has answered with a lease of this identity.
  pub record Owned (gateway_lease_id : String) : Type 0 where
    pub lease : Observation
    pub answered : (adapter.allow_lease_acquire (acquire_params q) start).0 ≡ observed lease
    pub named : validate_accepted_lease_identity lease.external_id none ≡ ok gateway_lease_id

  -- The states in which a dispatch may leave an adapter that stood at `start`: no call, then the
  -- acquire, then the spawn for the lease that was acquired, then its release, each at most once.
  pub data Spawning (gateway_lease_id : String) : S → Type 0 where
    unspawned : Owned gateway_lease_id → Spawning gateway_lease_id after_allow_lease_acquire
    spawned :
        (params : Members)
        → Owned gateway_lease_id
        → spawn_rpc_params platform q gateway_lease_id ≡ ok params
        → Spawning gateway_lease_id (adapter.sessions_spawn params after_allow_lease_acquire).1

  pub data Calls : S → Type 0 where
    untouched : Calls start
    acquired : Calls after_allow_lease_acquire
    spawning : {g : String} {s : S} → Spawning g s → Calls s
    released :
        {g : String} {s : S}
        → Spawning g s
        → Calls (adapter.allow_lease_release (release_metadata q g) s).1

module _ {T S : Type 0} (platform : Platform) (clock : Clock T) (adapter : Adapter S)
    (q : DispatchRequest) (start : S) where
  abbrev Q : S → Type 0
  Q = Calls platform adapter q start

  abbrev Spawns : String → S → Type 0
  Spawns = Spawning platform adapter q start

  release_owned_lease-Leads :
      (g : String) (s : S) → Spawns g s → Leads s Q (release_owned_lease platform clock adapter q g)
  unfolding release_owned_lease
  release_owned_lease-Leads g s before =
      then-Leads s Q _ _
        (transaction-Local s _ (prepare_owned_lease_release-Local s platform clock q g))
        (spawning before)
        λ _. call-Leads s Q (adapter.allow_lease_release (release_metadata q g)) _ λ o e.
          Local-Leads (adapter.allow_lease_release (release_metadata q g) s).1 Q
            (persist_release platform clock adapter q g o)
            (persist_release-Local _ platform clock adapter q g o) (released before)

  fail_closed-Leads :
      (g : String) (e : Error) (s : S)
      → Spawns g s
      → Leads s Q (fail_closed platform clock adapter q g e)
  unfolding fail_closed
  fail_closed-Leads g e s before =
      then-Leads s Q _ _ (transaction-Local s _ (mark_spawn_review-Local s platform clock q _))
        (spawning before)
        λ _.
          then-Local-Leads s Q _ _ _ (release_owned_lease-Leads g s before)
            (λ ended t. released_or_not-Local t platform clock adapter q g e ended)
            (λ x t. release_failed-Local t platform clock adapter q g x)

  spawn_failed-Leads :
      (g : String) (e : Error) (s : S)
      → Spawns g s
      → Leads s Q (spawn_failed platform clock adapter q g e)
  unfolding spawn_failed
  spawn_failed-Leads g (adapter_error m) s before = fail_closed-Leads g _ s before
  spawn_failed-Leads g (metadata_error m) s before = fail_closed-Leads g _ s before
  spawn_failed-Leads g (dispatch_error m) s before =
      Local-Leads s Q (persistence_failed platform clock adapter q (dispatch_error m))
        (persistence_failed-Local s platform clock adapter q (dispatch_error m)) (spawning before)
  spawn_failed-Leads g (sqlite_error m) s before =
      Local-Leads s Q (persistence_failed platform clock adapter q (sqlite_error m))
        (persistence_failed-Local s platform clock adapter q (sqlite_error m)) (spawning before)
  spawn_failed-Leads g (budget_error m) s before =
      Local-Leads s Q (raises (budget_error m)) (raises-Local s DispatchResult (budget_error m))
        (spawning before)
  spawn_failed-Leads g (budget_conflict m) s before =
      Local-Leads s Q (raises (budget_conflict m))
        (raises-Local s DispatchResult (budget_conflict m)) (spawning before)
  spawn_failed-Leads g (budget_exceeded m) s before =
      Local-Leads s Q (raises (budget_exceeded m))
        (raises-Local s DispatchResult (budget_exceeded m)) (spawning before)
  spawn_failed-Leads g (other_error m) s before =
      Local-Leads s Q (raises (other_error m)) (raises-Local s DispatchResult (other_error m))
        (spawning before)

  abbrev accepted_as : String → String → DispatchResult
  accepted_as key g = record { session_key = key; gateway_lease_id = g; status = "accepted" }

  after_spawn-Leads :
      (g : String) (outcome : Outcome) (s : S)
      → Spawns g s
      → Leads s Q (after_spawn platform clock adapter q g outcome)
  unfolding after_spawn unverified_spawn
  after_spawn-Leads g (ambiguous reason candidate) s before =
      Local-Leads s Q (spawn_uncertain platform clock adapter q reason candidate)
        (spawn_uncertain-Local s platform clock adapter q reason candidate) (spawning before)
  after_spawn-Leads g (raised e) s before = spawn_failed-Leads g e s before
  after_spawn-Leads g (observed o) s before =
      try_else-Leads s Q _ _ _ (accept_spawn-Local s platform clock adapter q o)
        (λ key.
          Local-Leads s Q (returns (accepted_as key g)) (returns-kept (Local s) (accepted_as key g))
            (spawning before))
        λ e.
          if-Leads s Q (is_metadata_error e) _ _
            (Local-Leads s Q (spawn_uncertain platform clock adapter q unverifiable (some o))
              (spawn_uncertain-Local s platform clock adapter q unverifiable (some o))
              (spawning before))
            (spawn_failed-Leads g e s before)

  abbrev expired_before_spawn : String
  expired_before_spawn = "allow lease expired before sessions_spawn"

  abbrev acquired_state : S
  acquired_state = after_allow_lease_acquire platform adapter q start

  spawn_stage-Leads :
      (g : String)
      → Owned platform adapter q start g
      → Leads acquired_state Q (spawn_stage platform clock adapter q g)
  unfolding spawn_stage
  spawn_stage-Leads g owned =
      tested-Leads acquired_state Q (spawn_rpc_params platform q g) _ _
        (λ params e.
          call-Leads acquired_state Q (adapter.sessions_spawn params) _
            λ o f. after_spawn-Leads g o _ (spawned params owned e))
        (λ x. spawn_failed-Leads g x acquired_state (unspawned owned))

  unless_expired-Leads :
      (g : String) (expired : Bool)
      → Owned platform adapter q start g
      → Leads acquired_state Q (unless_expired platform clock adapter q g expired)
  unfolding unless_expired
  unless_expired-Leads g true owned =
      Local-Leads acquired_state Q (raises (dispatch_error expired_before_spawn))
        (raises-Local acquired_state DispatchResult (dispatch_error expired_before_spawn)) acquired
  unless_expired-Leads g false owned = spawn_stage-Leads g owned

  acquired_as-Leads :
      (o : Observation) (g : String)
      → Owned platform adapter q start g
      → Leads acquired_state Q (acquired_as platform clock adapter q o g)
  unfolding acquired_as expiry_stage
  acquired_as-Leads o g owned =
      try_else-Leads acquired_state Q _ _ _
        (transaction-Local acquired_state _
          (persist_acquired_lease-Local acquired_state platform clock q o g false))
        (λ _.
          then-Leads acquired_state Q _ _
            (transaction-Local acquired_state _
              (expire_locally_expired_lease_before_spawn-Local acquired_state platform clock q g))
            acquired (λ expired. unless_expired-Leads g expired owned))
        (λ e.
          Local-Leads acquired_state Q (acquire_failed platform clock adapter q (some (o, g)) e)
            (acquire_failed-Local acquired_state platform clock adapter q (some (o, g)) e) acquired)

  after_acquire-Leads :
      (outcome : Outcome)
      → (adapter.allow_lease_acquire (acquire_params q) start).0 ≡ outcome
      → Leads acquired_state Q (after_acquire platform clock adapter q outcome)
  unfolding after_acquire
  after_acquire-Leads (ambiguous reason candidate) answer =
      Local-Leads acquired_state Q (acquire_uncertain platform clock adapter q reason candidate)
        (acquire_uncertain-Local acquired_state platform clock adapter q reason candidate) acquired
  after_acquire-Leads (raised e) answer =
      Local-Leads acquired_state Q (acquire_failed platform clock adapter q none e)
        (acquire_failed-Local acquired_state platform clock adapter q none e) acquired
  after_acquire-Leads (observed o) answer =
      tested-Leads acquired_state Q (validate_accepted_lease_identity o.external_id none) _ _
        (λ g e. acquired_as-Leads o g (record { lease = o; answered = answer; named = e }))
        (λ e.
          Local-Leads acquired_state Q (acquire_failed platform clock adapter q none e)
            (acquire_failed-Local acquired_state platform clock adapter q none e) acquired)

  unless_replayed-Leads :
      (existing : Option DispatchResult)
      → Leads start Q (unless_replayed platform clock adapter q existing)
  unfolding unless_replayed acquire_stage
  unless_replayed-Leads (some result) =
      Local-Leads start Q (returns result) (returns-kept (Local start) result) untouched
  unless_replayed-Leads none =
      call-Leads start Q (adapter.allow_lease_acquire (acquire_params q)) _ after_acquire-Leads

  dispatch-Leads : Leads start Q (dispatch_with_metadata platform clock adapter q)
  unfolding dispatch_with_metadata
  dispatch-Leads = then-Leads start Q _ _ (reads-kept (Local start) _) untouched λ _.
      then-Leads start Q _ _
        (transaction-Local start _ (begin_dispatch-Local start platform clock adapter q)) untouched
        unless_replayed-Leads

-- The calls of a dispatch are bounded and ordered: dispatch_with_metadata makes no call at all, or it
-- calls allow_lease_acquire once, then sessions_spawn at most once, then allow_lease_release at most
-- once. It spawns and releases only when the acquire has answered with a valid lease identity, with
-- that identity in the parameters, and what it spawns with is what spawn_rpc_params makes of the
-- request.
pub dispatch_with_metadata-Calls :
    {T S : Type 0} (platform : Platform) (clock : Clock T) (adapter : Adapter S)
    (q : DispatchRequest) (w : World T S)
    → Calls platform adapter q w.outside
        (dispatch_with_metadata platform clock adapter q w).1.outside
dispatch_with_metadata-Calls platform clock adapter q w =
    dispatch-Leads platform clock adapter q w.outside w refl
