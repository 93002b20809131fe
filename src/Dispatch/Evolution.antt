-- ===== src/Dispatch/Evolution.antt =====
-- `dispatch_with_metadata` as a move of the intents and leases, whatever the adapter answers.
use openclaw_agentic_os.Prelude.{String, Bool, true, false, Option, none, some}
use openclaw_agentic_os.Result.{
  Error, budget_error, budget_conflict, budget_exceeded, metadata_error, adapter_error,
  dispatch_error, sqlite_error, other_error,
}
use openclaw_agentic_os.Transaction.{Action, ◌>>=◌, Keeps, then-Keeps, reads-kept, returns-kept}
use openclaw_agentic_os.Dispatch.Rows.{Db}
use openclaw_agentic_os.Dispatch.World.{
  Platform, World, Clock, Observation, Outcome, observed, ambiguous, raised, Adapter,
  immediate_transaction,
}
use openclaw_agentic_os.Dispatch.Request.{DispatchRequest, DispatchResult}
use openclaw_agentic_os.Dispatch.Flow.{
  is_metadata_runtime_error, is_metadata_error, on_metadata_error, Ended, completed, uncertain,
  persist_release, release_owned_lease, released_or_not, release_failed, fail_closed,
  persistence_failed, spawn_failed, keep_spawn_candidate, spawn_uncertain, accept_spawn,
  unverified_spawn, after_spawn, spawn_stage, unless_expired, expiry_stage, keep_or_unknown,
  acquire_uncertain, keep_or_review, acquire_failed, acquired_as, after_acquire, acquire_stage,
  begin_if_new, begin_dispatch, unless_replayed, dispatch_with_metadata,
}
use openclaw_agentic_os.Dispatch.Handlers.{if-Keeps}
use openclaw_agentic_os.Dispatch.Lifecycle.{Evolves, Evolves-refl}
use openclaw_agentic_os.Dispatch.Steps.{
  Since, reads_then, call-Since, raises-Since, transaction-Since, try_else-Since,
}
use openclaw_agentic_os.Dispatch.Writes.{
  mark_spawn_review-Since, mark_acquire_review-Since, mark_acquire_unknown-Since,
  mark_owned_lease_release_review-Since, mark_owned_lease_release_unknown-Since,
  insert_pending_dispatch-Since, persist_acquired_lease-Since,
  persist_unknown_acquired_lease_candidate-Since, expire_locally_expired_lease_before_spawn-Since,
  persist_spawn_acceptance-Since, persist_ambiguous_spawn_candidate-Since,
  prepare_owned_lease_release-Since, persist_released_lease-Since,
}

module _ {T S : Type 0} (start : Db) (platform : Platform) (clock : Clock T) (adapter : Adapter S)
    (q : DispatchRequest) where
  abbrev P : World T S → Type 0
  P = Since start

  -- A transaction, and then an exception or a value.
  transaction_then :
      {A B : Type 0} (m : Action (World T S) A) (rest : A → Action (World T S) B)
      → Keeps P m
      → ((a : A) → Keeps P (rest a))
      → Keeps P (immediate_transaction m >>= rest)
  transaction_then m rest keeps = then-Keeps P _ _ (transaction-Since start m keeps)

  on_metadata_error-Since :
      {A : Type 0} (m handler : Action (World T S) A)
      → Keeps P m
      → Keeps P handler
      → Keeps P (on_metadata_error platform clock adapter q m handler)
  unfolding on_metadata_error
  on_metadata_error-Since m handler first second =
      try_else-Since start m _ _ first (λ a. returns-kept P a)
        λ e. if-Keeps P (is_metadata_error e) handler _ second (raises-Since start _ e)

  persist_release-Since :
      (gateway : String) (outcome : Outcome)
      → Keeps P (persist_release platform clock adapter q gateway outcome)
  unfolding persist_release
  persist_release-Since gateway (observed o) =
      transaction_then _ _ (persist_released_lease-Since start platform clock q o gateway false)
        λ _. returns-kept P _
  persist_release-Since gateway (ambiguous reason candidate) = returns-kept P _
  persist_release-Since gateway (raised e) = raises-Since start _ e

  release_owned_lease-Since :
      (gateway : String) → Keeps P (release_owned_lease platform clock adapter q gateway)
  unfolding release_owned_lease
  release_owned_lease-Since gateway =
      transaction_then _ _ (prepare_owned_lease_release-Since start platform clock q gateway)
        λ _. then-Keeps P _ _ (call-Since start _) λ o. persist_release-Since gateway o

  released_or_not-Since :
      (gateway : String) (e : Error) (ended : Ended Unit)
      → Keeps P (released_or_not platform clock adapter q gateway e ended)
  unfolding released_or_not
  released_or_not-Since gateway e (completed _) = raises-Since start _ _
  released_or_not-Since gateway e (uncertain reason candidate) =
      transaction_then _ _
        (mark_owned_lease_release_unknown-Since start platform clock q gateway reason)
        λ _. raises-Since start _ _

  release_failed-Since :
      (gateway : String) (e : Error) → Keeps P (release_failed platform clock adapter q gateway e)
  unfolding release_failed
  release_failed-Since gateway e =
      if-Keeps P (is_metadata_runtime_error e) _ _
        (transaction_then _ _
          (mark_owned_lease_release_review-Since start platform clock q gateway _)
          λ _. raises-Since start _ _)
        (raises-Since start _ e)

  fail_closed-Since :
      (gateway : String) (e : Error) → Keeps P (fail_closed platform clock adapter q gateway e)
  unfolding fail_closed
  fail_closed-Since gateway e =
      transaction_then _ _ (mark_spawn_review-Since start platform clock q _) λ _.
        try_else-Since start _ _ _ (release_owned_lease-Since gateway)
          (released_or_not-Since gateway e) (release_failed-Since gateway)

  persistence_failed-Since : (e : Error) → Keeps P (persistence_failed platform clock adapter q e)
  unfolding persistence_failed
  persistence_failed-Since e =
      transaction_then _ _ (mark_spawn_review-Since start platform clock q _)
        λ _. raises-Since start _ _

  spawn_failed-Since :
      (gateway : String) (e : Error) → Keeps P (spawn_failed platform clock adapter q gateway e)
  unfolding spawn_failed
  spawn_failed-Since gateway (adapter_error s) = fail_closed-Since gateway _
  spawn_failed-Since gateway (metadata_error s) = fail_closed-Since gateway _
  spawn_failed-Since gateway (dispatch_error s) = persistence_failed-Since _
  spawn_failed-Since gateway (sqlite_error s) = persistence_failed-Since _
  spawn_failed-Since gateway (budget_error s) = raises-Since start _ _
  spawn_failed-Since gateway (budget_conflict s) = raises-Since start _ _
  spawn_failed-Since gateway (budget_exceeded s) = raises-Since start _ _
  spawn_failed-Since gateway (other_error s) = raises-Since start _ _

  keep_spawn_candidate-Since :
      (candidate : Option Observation)
      → Keeps P (keep_spawn_candidate platform clock adapter q candidate)
  unfolding keep_spawn_candidate
  keep_spawn_candidate-Since none = returns-kept P tt
  keep_spawn_candidate-Since (some o) =
      persist_ambiguous_spawn_candidate-Since start platform clock q o

  spawn_uncertain-Since :
      (reason : String) (candidate : Option Observation)
      → Keeps P (spawn_uncertain platform clock adapter q reason candidate)
  unfolding spawn_uncertain
  spawn_uncertain-Since reason candidate =
      transaction_then _ _
        (then-Keeps P _ _ (mark_spawn_review-Since start platform clock q reason)
          λ _. keep_spawn_candidate-Since candidate)
        λ _. raises-Since start _ _

  accept_spawn-Since : (o : Observation) → Keeps P (accept_spawn platform clock adapter q o)
  unfolding accept_spawn
  accept_spawn-Since o = reads_then start _ _ λ key.
      transaction_then _ _ (persist_spawn_acceptance-Since start platform clock q o key false)
        λ _. returns-kept P key

  unverified_spawn-Since :
      (gateway : String) (o : Observation) (e : Error)
      → Keeps P (unverified_spawn platform clock adapter q gateway o e)
  unfolding unverified_spawn
  unverified_spawn-Since gateway o e =
      if-Keeps P (is_metadata_error e) _ _ (spawn_uncertain-Since _ (some o))
        (spawn_failed-Since gateway e)

  after_spawn-Since :
      (gateway : String) (outcome : Outcome)
      → Keeps P (after_spawn platform clock adapter q gateway outcome)
  unfolding after_spawn
  after_spawn-Since gateway (ambiguous reason candidate) = spawn_uncertain-Since reason candidate
  after_spawn-Since gateway (raised e) = spawn_failed-Since gateway e
  after_spawn-Since gateway (observed o) =
      try_else-Since start _ _ _ (accept_spawn-Since o) (λ key. returns-kept P _)
        (unverified_spawn-Since gateway o)

  pub spawn_stage-Since :
      (gateway : String) → Keeps P (spawn_stage platform clock adapter q gateway)
  unfolding spawn_stage
  spawn_stage-Since gateway =
      try_else-Since start _ _ _ (reads-kept P _)
        (λ params. then-Keeps P _ _ (call-Since start _) λ o. after_spawn-Since gateway o)
        (spawn_failed-Since gateway)

  unless_expired-Since :
      (gateway : String) (b : Bool) → Keeps P (unless_expired platform clock adapter q gateway b)
  unfolding unless_expired
  unless_expired-Since gateway true = raises-Since start _ _
  unless_expired-Since gateway false = spawn_stage-Since gateway

  expiry_stage-Since : (gateway : String) → Keeps P (expiry_stage platform clock adapter q gateway)
  unfolding expiry_stage
  expiry_stage-Since gateway =
      transaction_then _ _
        (expire_locally_expired_lease_before_spawn-Since start platform clock q gateway)
        (unless_expired-Since gateway)

  keep_or_unknown-Since :
      (reason : String) (candidate : Option Observation)
      → Keeps P (keep_or_unknown platform clock adapter q reason candidate)
  unfolding keep_or_unknown
  keep_or_unknown-Since reason none = mark_acquire_unknown-Since start platform clock q reason
  keep_or_unknown-Since reason (some o) =
      on_metadata_error-Since _ _
        (reads_then start _ _
          λ id. persist_unknown_acquired_lease_candidate-Since start platform clock q o id _)
        (mark_acquire_unknown-Since start platform clock q reason)

  acquire_uncertain-Since :
      (reason : String) (candidate : Option Observation)
      → Keeps P (acquire_uncertain platform clock adapter q reason candidate)
  unfolding acquire_uncertain
  acquire_uncertain-Since reason candidate =
      transaction_then _ _
        (then-Keeps P _ _ (keep_or_unknown-Since reason candidate)
          λ _. mark_spawn_review-Since start platform clock q _)
        λ _. raises-Since start _ _

  keep_or_review-Since :
      (reason : String) (candidate : Option (Observation × String))
      → Keeps P (keep_or_review platform clock adapter q reason candidate)
  unfolding keep_or_review
  keep_or_review-Since reason none = mark_acquire_review-Since start platform clock q reason
  keep_or_review-Since reason (some (o, gateway)) =
      on_metadata_error-Since _ _
        (persist_unknown_acquired_lease_candidate-Since start platform clock q o gateway _)
        (mark_acquire_review-Since start platform clock q reason)

  acquire_failed-Since :
      (candidate : Option (Observation × String)) (e : Error)
      → Keeps P (acquire_failed platform clock adapter q candidate e)
  unfolding acquire_failed
  acquire_failed-Since candidate e =
      if-Keeps P (is_metadata_runtime_error e) _ _
        (transaction_then _ _
          (then-Keeps P _ _ (keep_or_review-Since _ candidate)
            λ _. mark_spawn_review-Since start platform clock q _)
          λ _. raises-Since start _ _)
        (raises-Since start _ e)

  acquired_as-Since :
      (o : Observation) (gateway : String)
      → Keeps P (acquired_as platform clock adapter q o gateway)
  unfolding acquired_as
  acquired_as-Since o gateway =
      try_else-Since start _ _ _
        (transaction-Since start _
          (persist_acquired_lease-Since start platform clock q o gateway false))
        (λ _. expiry_stage-Since gateway) (acquire_failed-Since (some (o, gateway)))

  after_acquire-Since :
      (outcome : Outcome) → Keeps P (after_acquire platform clock adapter q outcome)
  unfolding after_acquire
  after_acquire-Since (ambiguous reason candidate) = acquire_uncertain-Since reason candidate
  after_acquire-Since (raised e) = acquire_failed-Since none e
  after_acquire-Since (observed o) =
      try_else-Since start _ _ _ (reads-kept P _) (acquired_as-Since o) (acquire_failed-Since none)

  pub acquire_stage-Since : Keeps P (acquire_stage platform clock adapter q)
  unfolding acquire_stage
  acquire_stage-Since = then-Keeps P _ _ (call-Since start _) after_acquire-Since

  begin_if_new-Since :
      (existing : Option DispatchResult) → Keeps P (begin_if_new platform clock adapter q existing)
  unfolding begin_if_new
  begin_if_new-Since (some result) = returns-kept P _
  begin_if_new-Since none = reads_then start _ _ λ _.
      then-Keeps P _ _ (insert_pending_dispatch-Since start platform clock q) λ _. returns-kept P _

  unless_replayed-Since :
      (existing : Option DispatchResult)
      → Keeps P (unless_replayed platform clock adapter q existing)
  unfolding unless_replayed
  unless_replayed-Since (some result) = returns-kept P result
  unless_replayed-Since none = acquire_stage-Since

  dispatch-Since : Keeps P (dispatch_with_metadata platform clock adapter q)
  unfolding dispatch_with_metadata begin_dispatch
  dispatch-Since =
      reads_then start _ _
        λ _. transaction_then _ _ (reads_then start _ _ begin_if_new-Since) unless_replayed-Since

-- Whatever the adapter, the clock and the schema answer, and whether it returns or raises,
-- dispatch_with_metadata only moves the intents and leases that were there along their automata:
-- every row stays, in order, with the request it was inserted for, an accepted or reconciled intent
-- does not change, and a lease keeps the gateway identity that it has.
pub dispatch_with_metadata-Evolves :
    {T S : Type 0} (platform : Platform) (clock : Clock T) (adapter : Adapter S)
    (q : DispatchRequest) (w : World T S)
    → Evolves w.db (dispatch_with_metadata platform clock adapter q w).1.db
dispatch_with_metadata-Evolves platform clock adapter q w =
    dispatch-Since w.db platform clock adapter q w (Evolves-refl w.db)
