-- ===== src/Dispatch/Handlers.antt =====
-- The handlers of `dispatch_with_metadata` that call nothing.
use openclaw_agentic_os.Prelude.{String, Bool, true, false, Option, none, some, if◌then◌else◌}
use openclaw_agentic_os.Result.{Error, Result, ok, err}
use openclaw_agentic_os.Transaction.{Action, ◌>>=◌, Keeps, then-Keeps, returns-kept}
use openclaw_agentic_os.Dispatch.World.{
  Platform, World, Clock, Observation, Outcome, observed, ambiguous, raised, Adapter,
  immediate_transaction,
}
use openclaw_agentic_os.Dispatch.Request.{DispatchRequest, DispatchResult}
use openclaw_agentic_os.Dispatch.Flow.{
  continued, try_else, is_metadata_runtime_error, is_metadata_error, on_metadata_error, Ended,
  completed, uncertain, persist_release, released_or_not, release_failed, persistence_failed,
  keep_spawn_candidate, spawn_uncertain, accept_spawn, keep_or_unknown, acquire_uncertain,
  keep_or_review, acquire_failed, begin_if_new, begin_dispatch,
}
use openclaw_agentic_os.Dispatch.Local.{
  Local, reads_then, raises-Local, transaction-Local, mark_spawn_review-Local,
  mark_acquire_review-Local, mark_acquire_unknown-Local, mark_owned_lease_release_review-Local,
  mark_owned_lease_release_unknown-Local, insert_pending_dispatch-Local,
  persist_unknown_acquired_lease_candidate-Local, persist_spawn_acceptance-Local,
  persist_ambiguous_spawn_candidate-Local, persist_released_lease-Local,
}

module _ {S : Type 0} (P : S → Type 0) where
  pub if-Keeps :
      {A : Type 0} (b : Bool) (m n : Action S A)
      → Keeps P m
      → Keeps P n
      → Keeps P (if b then m else n)
  if-Keeps true m n first second = first
  if-Keeps false m n first second = second

  pub try_else-Keeps :
      {A B : Type 0} (m : Action S A) (rest : A → Action S B) (handler : Error → Action S B)
      → Keeps P m
      → ((a : A) → Keeps P (rest a))
      → ((e : Error) → Keeps P (handler e))
      → Keeps P (try_else m rest handler)
  unfolding try_else
  try_else-Keeps {A} m rest handler first second third w h = go (m w).0 (m w).1 (first w h)
    where
      go : (r : Result A) (v : S) → P v → P (continued r rest handler v).1
      go (ok a) v k = second a v k
      go (err e) v k = third e v k

module _ {T S : Type 0} (outside : S) (platform : Platform) (clock : Clock T) (adapter : Adapter S)
    (q : DispatchRequest) where
  abbrev P : World T S → Type 0
  P = Local outside

  -- A transaction that calls nothing, and then the rest.
  pub transaction_then :
      {A B : Type 0} (m : Action (World T S) A) (rest : A → Action (World T S) B)
      → Keeps P m
      → ((a : A) → Keeps P (rest a))
      → Keeps P (immediate_transaction m >>= rest)
  transaction_then m rest keeps = then-Keeps P _ _ (transaction-Local outside m keeps)

  on_metadata_error-Local :
      {A : Type 0} (m handler : Action (World T S) A)
      → Keeps P m
      → Keeps P handler
      → Keeps P (on_metadata_error platform clock adapter q m handler)
  unfolding on_metadata_error
  on_metadata_error-Local m handler first second =
      try_else-Keeps P m _ _ first (λ a. returns-kept P a)
        λ e. if-Keeps P (is_metadata_error e) handler _ second (raises-Local outside _ e)

  pub persist_release-Local :
      (gateway : String) (outcome : Outcome)
      → Keeps P (persist_release platform clock adapter q gateway outcome)
  unfolding persist_release
  persist_release-Local gateway (observed o) =
      transaction_then _ _ (persist_released_lease-Local outside platform clock q o gateway false)
        λ _. returns-kept P _
  persist_release-Local gateway (ambiguous reason candidate) = returns-kept P _
  persist_release-Local gateway (raised e) = raises-Local outside _ e

  pub released_or_not-Local :
      (gateway : String) (e : Error) (ended : Ended Unit)
      → Keeps P (released_or_not platform clock adapter q gateway e ended)
  unfolding released_or_not
  released_or_not-Local gateway e (completed _) = raises-Local outside _ _
  released_or_not-Local gateway e (uncertain reason candidate) =
      transaction_then _ _
        (mark_owned_lease_release_unknown-Local outside platform clock q gateway reason)
        λ _. raises-Local outside _ _

  pub release_failed-Local :
      (gateway : String) (e : Error) → Keeps P (release_failed platform clock adapter q gateway e)
  unfolding release_failed
  release_failed-Local gateway e =
      if-Keeps P (is_metadata_runtime_error e) _ _
        (transaction_then _ _
          (mark_owned_lease_release_review-Local outside platform clock q gateway _)
          (λ _. raises-Local outside _ _))
        (raises-Local outside _ e)

  pub persistence_failed-Local :
      (e : Error) → Keeps P (persistence_failed platform clock adapter q e)
  unfolding persistence_failed
  persistence_failed-Local e =
      transaction_then _ _ (mark_spawn_review-Local outside platform clock q _)
        λ _. raises-Local outside _ _

  keep_spawn_candidate-Local :
      (candidate : Option Observation)
      → Keeps P (keep_spawn_candidate platform clock adapter q candidate)
  unfolding keep_spawn_candidate
  keep_spawn_candidate-Local none = returns-kept P tt
  keep_spawn_candidate-Local (some o) =
      persist_ambiguous_spawn_candidate-Local outside platform clock q o

  pub spawn_uncertain-Local :
      (reason : String) (candidate : Option Observation)
      → Keeps P (spawn_uncertain platform clock adapter q reason candidate)
  unfolding spawn_uncertain
  spawn_uncertain-Local reason candidate =
      transaction_then _ _
        (then-Keeps P _ _ (mark_spawn_review-Local outside platform clock q reason)
          λ _. keep_spawn_candidate-Local candidate)
        λ _. raises-Local outside _ _

  pub accept_spawn-Local : (o : Observation) → Keeps P (accept_spawn platform clock adapter q o)
  unfolding accept_spawn
  accept_spawn-Local o = reads_then outside _ _ λ key.
      transaction_then _ _ (persist_spawn_acceptance-Local outside platform clock q o key false)
        λ _. returns-kept P key

  keep_or_unknown-Local :
      (reason : String) (candidate : Option Observation)
      → Keeps P (keep_or_unknown platform clock adapter q reason candidate)
  unfolding keep_or_unknown
  keep_or_unknown-Local reason none = mark_acquire_unknown-Local outside platform clock q reason
  keep_or_unknown-Local reason (some o) =
      on_metadata_error-Local _ _
        (reads_then outside _ _
          λ id. persist_unknown_acquired_lease_candidate-Local outside platform clock q o id _)
        (mark_acquire_unknown-Local outside platform clock q reason)

  pub acquire_uncertain-Local :
      (reason : String) (candidate : Option Observation)
      → Keeps P (acquire_uncertain platform clock adapter q reason candidate)
  unfolding acquire_uncertain
  acquire_uncertain-Local reason candidate =
      transaction_then _ _
        (then-Keeps P _ _ (keep_or_unknown-Local reason candidate)
          λ _. mark_spawn_review-Local outside platform clock q _)
        λ _. raises-Local outside _ _

  keep_or_review-Local :
      (reason : String) (candidate : Option (Observation × String))
      → Keeps P (keep_or_review platform clock adapter q reason candidate)
  unfolding keep_or_review
  keep_or_review-Local reason none = mark_acquire_review-Local outside platform clock q reason
  keep_or_review-Local reason (some (o, gateway)) =
      on_metadata_error-Local _ _
        (persist_unknown_acquired_lease_candidate-Local outside platform clock q o gateway _)
        (mark_acquire_review-Local outside platform clock q reason)

  pub acquire_failed-Local :
      (candidate : Option (Observation × String)) (e : Error)
      → Keeps P (acquire_failed platform clock adapter q candidate e)
  unfolding acquire_failed
  acquire_failed-Local candidate e =
      if-Keeps P (is_metadata_runtime_error e) _ _
        (transaction_then _ _
          (then-Keeps P _ _ (keep_or_review-Local _ candidate)
            λ _. mark_spawn_review-Local outside platform clock q _)
          (λ _. raises-Local outside _ _))
        (raises-Local outside _ e)

  begin_if_new-Local :
      (existing : Option DispatchResult) → Keeps P (begin_if_new platform clock adapter q existing)
  unfolding begin_if_new
  begin_if_new-Local (some result) = returns-kept P _
  begin_if_new-Local none = reads_then outside _ _ λ _.
      then-Keeps P _ _ (insert_pending_dispatch-Local outside platform clock q)
        λ _. returns-kept P _

  pub begin_dispatch-Local : Keeps P (begin_dispatch platform clock adapter q)
  unfolding begin_dispatch
  begin_dispatch-Local = reads_then outside _ _ begin_if_new-Local
