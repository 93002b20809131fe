-- ===== src/Dispatch/Local.antt =====
-- Reading, writing and the clock leave the adapter alone.
use openclaw_agentic_os.Prelude.{
  ℕ, String, Bool, true, false, ◌≡◌, Option, none, some, ◌=ₜ◌, if◌then◌else◌,
}
use openclaw_agentic_os.Result.{Error, Result, ok, err}
use openclaw_agentic_os.Transaction.{
  Action, reads, returns, ◌>>=◌, ◌>>◌, Keeps, then-Keeps, reads-kept, returns-kept,
}
use openclaw_agentic_os.Dispatch.Rows.{Db}
use openclaw_agentic_os.Dispatch.World.{
  Platform, World, Clock, Observation, now_utc, statement, exactly_one, immediate_transaction,
  raises, restore, run_statement,
}
use openclaw_agentic_os.Dispatch.Request.{DispatchRequest}
use openclaw_agentic_os.Dispatch.Pending.{
  insert_pending_dispatch, insert_if, assert_or_insert_spawn_request, assert_or_insert_lease,
  assert_or_insert_acquire_intent, assert_or_insert_dispatch_binding,
}
use openclaw_agentic_os.Dispatch.Marks.{
  mark_spawn_review, mark_acquire_review, mark_acquire_unknown, mark_owned_lease_release_review,
  mark_owned_lease_release_unknown,
}
use openclaw_agentic_os.Dispatch.Persist.{
  strictly_after_requested_time, expire_if, keep_candidate, keep_candidate_statement,
  persist_acquired_lease, persist_unknown_acquired_lease_candidate,
  expire_locally_expired_lease_before_spawn, persist_spawn_acceptance,
  persist_ambiguous_spawn_candidate,
}
use openclaw_agentic_os.Dispatch.Release.{prepare_owned_lease_release, persist_released_lease}

module _ {T S : Type 0} (outside : S) where
  -- The adapter stands at the state `outside`.
  abbrev pub Local : World T S → Type 0
  Local w = w.outside ≡ outside

  now_utc-Local : (clock : Clock T) → Keeps Local (now_utc clock)
  unfolding now_utc
  now_utc-Local clock w h = h

  pub raises-Local : (A : Type 0) (e : Error) → Keeps Local (raises {A = A} e)
  unfolding raises
  raises-Local A e w h = h

  statement-Local :
      (platform : Platform) (change : Db → Db) → Keeps Local (statement platform change)
  unfolding statement
  statement-Local platform change w h = go (platform.admits w.db (change w.db))
    where
      go : (b : Bool) → Local (run_statement b (change w.db) w).1
      go true = h
      go false = h

  pub transaction-Local :
      {A : Type 0} (m : Action (World T S) A)
      → Keeps Local m
      → Keeps Local (immediate_transaction m)
  unfolding immediate_transaction
  transaction-Local {A} m keeps w h = go (m w).0 (m w).1 (keeps w h)
    where
      go : (r : Result A) (v : World T S) → Local v → Local (restore w.db r v).1
      go (ok a) v k = k
      go (err e) v k = k

  -- A step that calls nothing, and then the rest.
  pub reads_then :
      {A B : Type 0} (g : World T S → Result A) (rest : A → Action (World T S) B)
      → ((a : A) → Keeps Local (rest a))
      → Keeps Local (reads g >>= rest)
  reads_then g rest = then-Keeps Local _ _ (reads-kept Local g)

  clock_then :
      {A : Type 0} (clock : Clock T) (rest : ℕ → Action (World T S) A)
      → ((n : ℕ) → Keeps Local (rest n))
      → Keeps Local (now_utc clock >>= rest)
  clock_then clock rest = then-Keeps Local _ _ (now_utc-Local clock)

  statement_then :
      {A : Type 0} (platform : Platform) (change : Db → Db) (rest : Action (World T S) A)
      → Keeps Local rest
      → Keeps Local (statement platform change >> rest)
  statement_then platform change rest keeps =
      then-Keeps Local _ _ (statement-Local platform change) λ _. keeps

  exactly_one-Local :
      (platform : Platform) (message : String) (count : Db → ℕ) (change : Db → Db)
      → Keeps Local (exactly_one platform message count change)
  unfolding exactly_one
  exactly_one-Local platform message count change =
      reads_then _ _ λ n. statement_then platform _ _ (reads-kept Local _)

  module _ (platform : Platform) (clock : Clock T) (q : DispatchRequest) where
    pub mark_spawn_review-Local :
        (reason : String) → Keeps Local (mark_spawn_review platform clock q reason)
    unfolding mark_spawn_review
    mark_spawn_review-Local reason =
        clock_then clock _ λ n. statement_then platform _ _ (statement-Local platform _)

    pub mark_acquire_review-Local :
        (reason : String) → Keeps Local (mark_acquire_review platform clock q reason)
    unfolding mark_acquire_review
    mark_acquire_review-Local reason =
        clock_then clock _ λ n. statement_then platform _ _ (statement-Local platform _)

    pub mark_acquire_unknown-Local :
        (reason : String) → Keeps Local (mark_acquire_unknown platform clock q reason)
    unfolding mark_acquire_unknown
    mark_acquire_unknown-Local reason =
        clock_then clock _ λ n. statement_then platform _ _ (statement-Local platform _)

    pub mark_owned_lease_release_review-Local :
        (gateway reason : String)
        → Keeps Local (mark_owned_lease_release_review platform clock q gateway reason)
    unfolding mark_owned_lease_release_review
    mark_owned_lease_release_review-Local gateway reason =
        clock_then clock _ λ n. statement_then platform _ _ (statement-Local platform _)

    pub mark_owned_lease_release_unknown-Local :
        (gateway reason : String)
        → Keeps Local (mark_owned_lease_release_unknown platform clock q gateway reason)
    unfolding mark_owned_lease_release_unknown
    mark_owned_lease_release_unknown-Local gateway reason =
        clock_then clock _ λ n. statement_then platform _ _ (statement-Local platform _)

    insert_if-Local :
        (change : Db → Db) (needed : Bool) → Keeps Local (insert_if platform change needed)
    unfolding insert_if
    insert_if-Local change true = statement-Local platform change
    insert_if-Local change false = returns-kept Local tt

    pub insert_pending_dispatch-Local : Keeps Local (insert_pending_dispatch platform q clock)
    unfolding insert_pending_dispatch assert_or_insert_spawn_request assert_or_insert_lease
        assert_or_insert_acquire_intent assert_or_insert_dispatch_binding
    insert_pending_dispatch-Local = reads_then _ _ λ _. reads_then _ _ λ _. reads_then _ _ λ _.
        reads_then _ _ λ _. clock_then clock _ λ n. reads_then _ _ λ m.
          then-Keeps Local _ _ (reads_then _ _ λ b. insert_if-Local _ b) λ _.
            then-Keeps Local _ _ (reads_then _ _ λ b. insert_if-Local _ b) λ _.
              then-Keeps Local _ _ (reads_then _ _ λ b. insert_if-Local _ b) λ _.
                then-Keeps Local _ _ (reads_then _ _ λ b. insert_if-Local _ b)
                  λ _. reads_then _ _ λ d. statement-Local platform _

    pub persist_acquired_lease-Local :
        (o : Observation) (gateway : String) (reconciled : Bool)
        → Keeps Local (persist_acquired_lease platform clock q o gateway reconciled)
    unfolding persist_acquired_lease strictly_after_requested_time
    persist_acquired_lease-Local o gateway reconciled =
        then-Keeps Local _ _ (reads_then _ _ λ m. clock_then clock _ λ n. returns-kept Local _) λ n.
          reads_then _ _ λ v.
            then-Keeps Local _ _ (exactly_one-Local platform _ _ _)
              λ _. exactly_one-Local platform _ _ _

    pub persist_unknown_acquired_lease_candidate-Local :
        (o : Observation) (gateway reason : String)
        → Keeps Local (persist_unknown_acquired_lease_candidate platform clock q o gateway reason)
    unfolding persist_unknown_acquired_lease_candidate
    persist_unknown_acquired_lease_candidate-Local o gateway reason =
        clock_then clock _
          λ n. reads_then _ _ λ v. statement_then platform _ _ (statement-Local platform _)

    expire_if-Local :
        (gateway : String) (b : Bool) → Keeps Local (expire_if platform clock q gateway b)
    unfolding expire_if
    expire_if-Local gateway false = returns-kept Local false
    expire_if-Local gateway true =
        then-Keeps Local _ _ (exactly_one-Local platform _ _ _)
          λ _. then-Keeps Local _ _ (mark_spawn_review-Local _) λ _. returns-kept Local true

    pub expire_locally_expired_lease_before_spawn-Local :
        (gateway : String)
        → Keeps Local (expire_locally_expired_lease_before_spawn platform clock q gateway)
    unfolding expire_locally_expired_lease_before_spawn
    expire_locally_expired_lease_before_spawn-Local gateway =
        reads_then _ _ λ m. clock_then clock _ λ n. expire_if-Local gateway _

    pub persist_spawn_acceptance-Local :
        (o : Observation) (key : String) (reconciled : Bool)
        → Keeps Local (persist_spawn_acceptance platform clock q o key reconciled)
    unfolding persist_spawn_acceptance strictly_after_requested_time
    persist_spawn_acceptance-Local o key reconciled = reads_then _ _ λ _.
        then-Keeps Local _ _ (reads_then _ _ λ m. clock_then clock _ λ n. returns-kept Local _) λ n.
          reads_then _ _ λ v. then-Keeps Local _ _ (exactly_one-Local platform _ _ _) λ _.
            then-Keeps Local _ _ (exactly_one-Local platform _ _ _)
              λ _. statement_then platform _ _ (exactly_one-Local platform _ _ _)

    keep_candidate-Local :
        (o : Observation) (external_id : Option String)
        → Keeps Local (keep_candidate platform clock q o external_id)
    unfolding keep_candidate keep_candidate_statement
    keep_candidate-Local o none = returns-kept Local tt
    keep_candidate-Local o (some external_id) = go (external_id =ₜ "")
      where
        go :
            (b : Bool)
            → Keeps Local
                (if b then returns tt else keep_candidate_statement platform clock q o external_id)
        go true = returns-kept Local tt
        go false = statement-Local platform _

    pub persist_ambiguous_spawn_candidate-Local :
        (o : Observation) → Keeps Local (persist_ambiguous_spawn_candidate platform clock q o)
    unfolding persist_ambiguous_spawn_candidate
    persist_ambiguous_spawn_candidate-Local o = keep_candidate-Local o o.external_id

    pub prepare_owned_lease_release-Local :
        (gateway : String) → Keeps Local (prepare_owned_lease_release platform clock q gateway)
    unfolding prepare_owned_lease_release
    prepare_owned_lease_release-Local gateway = reads_then _ _ λ _.
        clock_then clock _ λ n.
          then-Keeps Local _ _ (exactly_one-Local platform _ _ _) λ _. statement-Local platform _

    pub persist_released_lease-Local :
        (o : Observation) (gateway : String) (reconciled : Bool)
        → Keeps Local (persist_released_lease platform clock q o gateway reconciled)
    unfolding persist_released_lease strictly_after_requested_time
    persist_released_lease-Local o gateway reconciled = reads_then _ _ λ v.
        then-Keeps Local _ _ (reads_then _ _ λ m. clock_then clock _ λ n. returns-kept Local _) λ n.
          reads_then _ _ λ s.
            then-Keeps Local _ _ (exactly_one-Local platform _ _ _)
              λ _. exactly_one-Local platform _ _ _
