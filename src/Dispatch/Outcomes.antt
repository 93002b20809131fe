-- ===== src/Dispatch/Outcomes.antt =====
-- Every way in which `dispatch_with_metadata` returns, through all its handlers.
use openclaw_agentic_os.Prelude.{
  String, Bool, true, false, ◌≡◌, refl, sym, ap, ◌∙◌, ◌⊎◌, inl, inr, Option, none, some,
}
use openclaw_agentic_os.Result.{
  Error, Result, ok, err, budget_error, budget_conflict, budget_exceeded, metadata_error,
  adapter_error, dispatch_error, sqlite_error, other_error,
}
use openclaw_agentic_os.Transaction.{then-ok, reads-ok, returns-ok}
use openclaw_agentic_os.Dispatch.Rows.{Db}
use openclaw_agentic_os.Dispatch.World.{
  Platform, World, Clock, Adapter, Observation, Outcome, observed, ambiguous, raised,
}
use openclaw_agentic_os.Dispatch.Request.{DispatchRequest, DispatchResult}
use openclaw_agentic_os.Dispatch.Returns.{
  Ensures, then-Ensures, raises-Ensures, if-Ensures, transaction-ok, try_else-Ensures,
  returns-Ensures,
}
use openclaw_agentic_os.Dispatch.Flow.{
  is_metadata_runtime_error, is_metadata_error, Ended, completed, uncertain, released_or_not,
  release_failed, fail_closed, persistence_failed, spawn_failed, spawn_uncertain, unverified_spawn,
  after_spawn, spawn_stage, unless_expired, expiry_stage, acquire_uncertain, acquire_failed,
  acquired_as, after_acquire, acquire_stage, begin_if_new, begin_dispatch, unless_replayed,
  dispatch_with_metadata,
}
use openclaw_agentic_os.Dispatch.Lifecycle.{Evolves, Evolves-refl}
use openclaw_agentic_os.Dispatch.Once.{is_dispatched, dispatch_with_metadata-unmoved}
use openclaw_agentic_os.Dispatch.Accepted.{
  has_recorded, has_recorded-Evolves, accept_spawn-Ensures, existing_spawn_replay_result-recorded,
}

module _ {T S : Type 0} (platform : Platform) (clock : Clock T) (q : DispatchRequest)
    (adapter : Adapter S) where
  -- The result stands on a recorded session.
  abbrev Recorded : DispatchResult → World T S → Type 0
  Recorded r v = has_recorded q r.session_key v.db ≡ true

  -- The handlers all raise.
  released_or_not-Ensures :
      (gateway : String) (error : Error) (ended : Ended Unit)
      → Ensures Recorded (released_or_not platform clock adapter q gateway error ended)
  unfolding released_or_not
  released_or_not-Ensures gateway error (completed _) = raises-Ensures Recorded _
  released_or_not-Ensures gateway error (uncertain reason candidate) =
      then-Ensures Recorded _ _ λ _. raises-Ensures Recorded _

  release_failed-Ensures :
      (gateway : String) (e : Error)
      → Ensures Recorded (release_failed platform clock adapter q gateway e)
  unfolding release_failed
  release_failed-Ensures gateway e =
      if-Ensures Recorded (is_metadata_runtime_error e) _ _
        (then-Ensures Recorded _ _ λ _. raises-Ensures Recorded _) (raises-Ensures Recorded _)

  fail_closed-Ensures :
      (gateway : String) (e : Error)
      → Ensures Recorded (fail_closed platform clock adapter q gateway e)
  unfolding fail_closed
  fail_closed-Ensures gateway e = then-Ensures Recorded _ _ λ _.
      try_else-Ensures Recorded _ _ _
        (λ ended s t h u r. released_or_not-Ensures gateway e ended t u r)
        (release_failed-Ensures gateway)

  persistence_failed-Ensures :
      (e : Error) → Ensures Recorded (persistence_failed platform clock adapter q e)
  unfolding persistence_failed
  persistence_failed-Ensures e = then-Ensures Recorded _ _ λ _. raises-Ensures Recorded _

  spawn_failed-Ensures :
      (gateway : String) (e : Error)
      → Ensures Recorded (spawn_failed platform clock adapter q gateway e)
  unfolding spawn_failed
  spawn_failed-Ensures gateway (adapter_error s) = fail_closed-Ensures gateway _
  spawn_failed-Ensures gateway (metadata_error s) = fail_closed-Ensures gateway _
  spawn_failed-Ensures gateway (dispatch_error s) = persistence_failed-Ensures _
  spawn_failed-Ensures gateway (sqlite_error s) = persistence_failed-Ensures _
  spawn_failed-Ensures gateway (budget_error s) = raises-Ensures Recorded _
  spawn_failed-Ensures gateway (budget_conflict s) = raises-Ensures Recorded _
  spawn_failed-Ensures gateway (budget_exceeded s) = raises-Ensures Recorded _
  spawn_failed-Ensures gateway (other_error s) = raises-Ensures Recorded _

  spawn_uncertain-Ensures :
      (reason : String) (candidate : Option Observation)
      → Ensures Recorded (spawn_uncertain platform clock adapter q reason candidate)
  unfolding spawn_uncertain
  spawn_uncertain-Ensures reason candidate =
      then-Ensures Recorded _ _ λ _. raises-Ensures Recorded _

  unverified_spawn-Ensures :
      (gateway : String) (o : Observation) (e : Error)
      → Ensures Recorded (unverified_spawn platform clock adapter q gateway o e)
  unfolding unverified_spawn
  unverified_spawn-Ensures gateway o e =
      if-Ensures Recorded (is_metadata_error e) _ _ (spawn_uncertain-Ensures _ (some o))
        (spawn_failed-Ensures gateway e)

  after_spawn-Ensures :
      (gateway : String) (outcome : Outcome)
      → Ensures Recorded (after_spawn platform clock adapter q gateway outcome)
  unfolding after_spawn
  after_spawn-Ensures gateway (observed o) =
      try_else-Ensures Recorded _ _ _
        (λ key s t e u r h.
          returns-Ensures Recorded _ r t u h
            (accept_spawn-Ensures platform clock q adapter o s t key e))
        (unverified_spawn-Ensures gateway o)
  after_spawn-Ensures gateway (ambiguous reason candidate) =
      spawn_uncertain-Ensures reason candidate
  after_spawn-Ensures gateway (raised e) = spawn_failed-Ensures gateway e

  spawn_stage-Ensures :
      (gateway : String) → Ensures Recorded (spawn_stage platform clock adapter q gateway)
  unfolding spawn_stage
  spawn_stage-Ensures gateway =
      try_else-Ensures Recorded _ _ _
        (λ params s t e u r. then-Ensures Recorded _ _ (after_spawn-Ensures gateway) t u r)
        (spawn_failed-Ensures gateway)

  unless_expired-Ensures :
      (gateway : String) (b : Bool)
      → Ensures Recorded (unless_expired platform clock adapter q gateway b)
  unfolding unless_expired
  unless_expired-Ensures gateway true = raises-Ensures Recorded _
  unless_expired-Ensures gateway false = spawn_stage-Ensures gateway

  expiry_stage-Ensures :
      (gateway : String) → Ensures Recorded (expiry_stage platform clock adapter q gateway)
  unfolding expiry_stage
  expiry_stage-Ensures gateway = then-Ensures Recorded _ _ (unless_expired-Ensures gateway)

  acquire_uncertain-Ensures :
      (reason : String) (candidate : Option Observation)
      → Ensures Recorded (acquire_uncertain platform clock adapter q reason candidate)
  unfolding acquire_uncertain
  acquire_uncertain-Ensures reason candidate =
      then-Ensures Recorded _ _ λ _. raises-Ensures Recorded _

  acquire_failed-Ensures :
      (candidate : Option (Observation × String)) (e : Error)
      → Ensures Recorded (acquire_failed platform clock adapter q candidate e)
  unfolding acquire_failed
  acquire_failed-Ensures candidate e =
      if-Ensures Recorded (is_metadata_runtime_error e) _ _
        (then-Ensures Recorded _ _ λ _. raises-Ensures Recorded _) (raises-Ensures Recorded _)

  acquired_as-Ensures :
      (o : Observation) (gateway : String)
      → Ensures Recorded (acquired_as platform clock adapter q o gateway)
  unfolding acquired_as
  acquired_as-Ensures o gateway =
      try_else-Ensures Recorded _ _ _ (λ _ s t e u r. expiry_stage-Ensures gateway t u r)
        (acquire_failed-Ensures (some (o, gateway)))

  after_acquire-Ensures :
      (outcome : Outcome) → Ensures Recorded (after_acquire platform clock adapter q outcome)
  unfolding after_acquire
  after_acquire-Ensures (ambiguous reason candidate) = acquire_uncertain-Ensures reason candidate
  after_acquire-Ensures (raised e) = acquire_failed-Ensures none e
  after_acquire-Ensures (observed o) =
      try_else-Ensures Recorded _ _ _ (λ gateway s t e u r. acquired_as-Ensures o gateway t u r)
        (acquire_failed-Ensures none)

  acquire_stage-Ensures : Ensures Recorded (acquire_stage platform clock adapter q)
  unfolding acquire_stage
  acquire_stage-Ensures = then-Ensures Recorded _ _ after_acquire-Ensures

  begin_if_new-recorded :
      (existing : Option DispatchResult) (s t : World T S) (r : DispatchResult)
      → begin_if_new platform clock adapter q existing s ≡ (ok (some r), t)
      → (existing ≡ some r) × (s ≡ t)
  unfolding begin_if_new
  begin_if_new-recorded (some x) s t r h =
      let same_world = returns-ok (some x) (some r) s t h in (same_world.0, same_world.1)
  begin_if_new-recorded none s t r h =
      let described = reads-ok _ _ s h in
      let inserted = then-ok _ _ s described.2 in
      cc (returns-ok none (some r) inserted.1 t inserted.3).0

  unless_replayed-Ensures :
      (existing : Option DispatchResult) (s t u : World T S) (r : DispatchResult)
      → begin_dispatch platform clock adapter q s ≡ (ok existing, t)
      → unless_replayed platform clock adapter q existing t ≡ (ok r, u)
      → Recorded r u
  unfolding unless_replayed begin_dispatch
  unless_replayed-Ensures none s t u r begun h = acquire_stage-Ensures t u r h
  unless_replayed-Ensures (some x) s t u r begun h =
      let found = reads-ok _ _ s begun in
      let kept = begin_if_new-recorded found.0 s t x found.2 in
      returns-Ensures Recorded x r t u h (
        replayed_at t kept.1
          (existing_spawn_replay_result-recorded platform s.db q x (found.1 ∙ ap ok kept.0)))
    where
      replayed_at : (v : World T S) → s ≡ v → Recorded x s → Recorded x v
      replayed_at v e rec = rw (sym e) rec

  dispatch-Ensures : Ensures Recorded (dispatch_with_metadata platform clock adapter q)
  unfolding dispatch_with_metadata
  dispatch-Ensures s t r h =
      let valid = reads-ok _ _ s h in
      let begun = then-ok _ _ s valid.2 in
      unless_replayed-Ensures begun.0 s begun.1 t r (transaction-ok _ s begun.1 begun.0 begun.2)
        begun.3

-- A dispatch that returns has a record: whether it was accepted now or replayed, the database holds a
-- sessions_spawn intent with the request's idempotency key that is accepted or reconciled under the
-- session key that the call returns, and it holds it still whenever the tables have evolved further.
pub dispatch_with_metadata-recorded :
    {T S : Type 0} (platform : Platform) (clock : Clock T) (adapter : Adapter S)
    (q : DispatchRequest) (w v : World T S) (r : DispatchResult) (later : Db)
    → dispatch_with_metadata platform clock adapter q w ≡ (ok r, v)
    → Evolves v.db later
    → has_recorded q r.session_key later ≡ true
dispatch_with_metadata-recorded platform clock adapter q w v r later h evolved =
    has_recorded-Evolves q r.session_key v.db later evolved
      (dispatch-Ensures platform clock q adapter w v r h)

-- Where a sessions_spawn intent with the request's idempotency key is recorded, in whatever state,
-- dispatch_with_metadata changes nothing: it writes no row, it reads no clock, and it does not call
-- the adapter. It raises, or it returns the session key under which an intent with that idempotency
-- key is accepted or reconciled already.
pub dispatch_with_metadata-inert :
    {T S : Type 0} (platform : Platform) (clock : Clock T) (adapter : Adapter S)
    (q : DispatchRequest) (w : World T S)
    → is_dispatched q w.db ≡ true
    → ((dispatch_with_metadata platform clock adapter q w).1 ≡ w)
      × (((e : Error) × ((dispatch_with_metadata platform clock adapter q w).0 ≡ err e))
          ⊎ ((r : DispatchResult) × ((dispatch_with_metadata platform clock adapter q w).0 ≡ ok r)
              × (has_recorded q r.session_key w.db ≡ true)))
dispatch_with_metadata-inert platform clock adapter q w there =
    (unmoved, go (dispatch_with_metadata platform clock adapter q w).0 refl)
  where
    unmoved : (dispatch_with_metadata platform clock adapter q w).1 ≡ w
    unmoved = dispatch_with_metadata-unmoved platform clock adapter q w there

    go :
        (found : Result DispatchResult)
        → (dispatch_with_metadata platform clock adapter q w).0 ≡ found
        → ((e : Error) × ((dispatch_with_metadata platform clock adapter q w).0 ≡ err e))
          ⊎ ((r : DispatchResult) × ((dispatch_with_metadata platform clock adapter q w).0 ≡ ok r)
              × (has_recorded q r.session_key w.db ≡ true))
    go (err e) raised_it = inl (e, raised_it)
    go (ok r) returned = inr (
      r,
      returned,
      dispatch_with_metadata-recorded platform clock adapter q w w r w.db
          (λ i. (returned i, unmoved i)) (Evolves-refl w.db),
    )
