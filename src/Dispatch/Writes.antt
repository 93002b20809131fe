-- ===== src/Dispatch/Writes.antt =====
-- Each write of the dispatcher, from its pending rows to what it records of a failure, as moves of
-- intents and leases.
use openclaw_agentic_os.Prelude.{
  String, Bool, true, false, ◌&&◌, refl, sym, ◌∙◌, Option, none, some, ◌=ₜ◌, if◌then◌else◌,
}
use openclaw_agentic_os.Transaction.{returns, Keeps, then-Keeps, returns-kept}
use openclaw_agentic_os.Dispatch.Rows.{Db, sessions_spawn}
use openclaw_agentic_os.Dispatch.World.{Platform, Clock, Observation}
use openclaw_agentic_os.Dispatch.Request.{DispatchRequest}
use openclaw_agentic_os.Dispatch.Replay.{of_kind}
use openclaw_agentic_os.Dispatch.Pending.{
  insert_pending_dispatch, insert_if, assert_or_insert_spawn_request, assert_or_insert_lease,
  assert_or_insert_acquire_intent, assert_or_insert_dispatch_binding,
}
use openclaw_agentic_os.Dispatch.Marks.{
  owned_lease, has_no_gateway, mark_spawn_review, mark_acquire_review, mark_acquire_unknown,
  mark_owned_lease_release_review, mark_owned_lease_release_unknown,
}
use openclaw_agentic_os.Dispatch.Persist.{
  strictly_after_requested_time, expire_if, keep_candidate, keep_candidate_statement,
  persist_acquired_lease, persist_unknown_acquired_lease_candidate,
  expire_locally_expired_lease_before_spawn, persist_spawn_acceptance,
  persist_ambiguous_spawn_candidate,
}
use openclaw_agentic_os.Dispatch.Release.{prepare_owned_lease_release, persist_released_lease}
use openclaw_agentic_os.Dispatch.Lifecycle.{
  IntentStep, lose, acquire, expire, prepare, release, here, next, new, Follows-refl,
  IntentMoves-refl, LeaseMoves-refl, Evolves,
}
use openclaw_agentic_os.Dispatch.Steps.{
  and_right, open_unsettled, IntentMoves-step, Evolves-intents, Evolves-leases,
  Evolves-insert_intent, Evolves-other, Since, statement-Since, exactly_one-Since, clock_then,
  reads_then, statement_then,
}
use openclaw_agentic_os.Dispatch.Moves.{
  settle-step, open-Evolves, LeaseMoves-step, unreviewed-step, releasing-steps, acquirable-pending,
  expirable-acquired, is_acquired-acquired, is_release_pending-pending, in_review-unsettled,
  step_from,
}

module _ {T S : Type 0} (start : Db) (platform : Platform) (clock : Clock T)
    (q : DispatchRequest) where
  pub mark_spawn_review-Since :
      (reason : String)
      → Keeps (Since {T = T} {S = S} start) (mark_spawn_review platform clock q reason)
  unfolding mark_spawn_review
  mark_spawn_review-Since reason = clock_then start clock _ λ n.
      statement_then start platform _ _
        (λ db.
          open-Evolves _ _ _ db (λ i. refl) (λ i h. IntentStep.review (open_unsettled i.state h)))
        (statement-Since start platform _ λ db. Evolves-other db _ refl refl)

  pub mark_acquire_review-Since :
      (reason : String)
      → Keeps (Since {T = T} {S = S} start) (mark_acquire_review platform clock q reason)
  unfolding mark_acquire_review
  mark_acquire_review-Since reason = clock_then start clock _ λ n.
      statement_then start platform _ _
        (λ db.
          open-Evolves _ _ _ db (λ i. refl) (λ i h. IntentStep.review (open_unsettled i.state h)))
        (statement-Since start platform _ λ db. Evolves-leases _ _ db λ l h.
          LeaseMoves-step l _ refl refl (
            next here (
              unreviewed-step l.state (
                and_right ((l.identity.client_lease_id =ₜ q.client_lease_id) && has_no_gateway l) _
                  h))))

  pub mark_acquire_unknown-Since :
      (reason : String)
      → Keeps (Since {T = T} {S = S} start) (mark_acquire_unknown platform clock q reason)
  unfolding mark_acquire_unknown
  mark_acquire_unknown-Since reason = clock_then start clock _ λ n.
      statement_then start platform _ _ (λ db. open-Evolves _ _ _ db (λ i. refl) (λ i h. lose h))
        (statement-Since start platform _
          λ db. Evolves-leases _ _ db λ l h. LeaseMoves-step l _ refl refl here)

  pub mark_owned_lease_release_review-Since :
      (gateway reason : String)
      → Keeps
          (Since {T = T} {S = S} start)
          (mark_owned_lease_release_review platform clock q gateway reason)
  unfolding mark_owned_lease_release_review
  mark_owned_lease_release_review-Since gateway reason = clock_then start clock _ λ n.
      statement_then start platform _ _
        (λ db. Evolves-intents _ _ db λ i h.
          IntentMoves-step i _ refl (and_right _ _ h)
            (next here (IntentStep.review (and_right _ _ h))))
        (statement-Since start platform _
          λ db. Evolves-leases _ _ db λ l h. LeaseMoves-step l _ refl refl here)

  pub mark_owned_lease_release_unknown-Since :
      (gateway reason : String)
      → Keeps
          (Since {T = T} {S = S} start)
          (mark_owned_lease_release_unknown platform clock q gateway reason)
  unfolding mark_owned_lease_release_unknown
  mark_owned_lease_release_unknown-Since gateway reason = clock_then start clock _ λ n.
      statement_then start platform _ _ (λ db. open-Evolves _ _ _ db (λ i. refl) (λ i h. lose h))
        (statement-Since start platform _ λ db.
          Evolves-leases _ _ db
            λ l h. LeaseMoves-step l _ refl refl (releasing-steps l.state (and_right _ _ h)))

  insert_if-Since :
      (change : Db → Db) (needed : Bool)
      → ((db : Db) → Evolves db (change db))
      → Keeps (Since {T = T} {S = S} start) (insert_if platform change needed)
  unfolding insert_if returns
  insert_if-Since change true moves = statement-Since start platform change moves
  insert_if-Since change false moves = λ w h. h

  pub insert_pending_dispatch-Since :
      Keeps (Since {T = T} {S = S} start) (insert_pending_dispatch platform q clock)
  unfolding insert_pending_dispatch assert_or_insert_spawn_request assert_or_insert_lease
      assert_or_insert_acquire_intent assert_or_insert_dispatch_binding
  insert_pending_dispatch-Since = reads_then start _ _ λ _. reads_then start _ _ λ _.
      reads_then start _ _ λ _. reads_then start _ _ λ _. clock_then start clock _ λ n.
        reads_then start _ _ λ m.
          then-Keeps (Since start) _ _
            (reads_then start _ _ λ b. insert_if-Since _ b λ db. Evolves-other db _ refl refl)
            λ _.
              then-Keeps (Since start) _ _
                (reads_then start _ _ λ b. insert_if-Since _ b λ db. record {
                  intents = Follows-refl IntentMoves-refl db.intents;
                  leases = new (Follows-refl LeaseMoves-refl db.leases);
                })
                λ _.
                  then-Keeps (Since start) _ _
                    (reads_then start _ _ λ b. insert_if-Since _ b λ db. Evolves-insert_intent _ db)
                    λ _.
                      then-Keeps (Since start) _ _
                        (reads_then start _ _
                          λ b. insert_if-Since _ b λ db. Evolves-other db _ refl refl)
                        λ _.
                          reads_then start _ _
                            λ d. statement-Since start platform _ λ db. Evolves-insert_intent _ db

  pub persist_acquired_lease-Since :
      (o : Observation) (gateway : String) (reconciled : Bool)
      → Keeps
          (Since {T = T} {S = S} start)
          (persist_acquired_lease platform clock q o gateway reconciled)
  unfolding persist_acquired_lease strictly_after_requested_time
  persist_acquired_lease-Since o gateway reconciled =
      then-Keeps (Since start) _ _
        (reads_then start _ _ λ m. clock_then start clock _ λ n. returns-kept (Since start) _)
        λ n. reads_then start _ _ λ v.
          then-Keeps (Since start) _ _
            (exactly_one-Since start platform _ _ _
              λ db. open-Evolves _ _ _ db (λ i. refl) (λ i h. settle-step reconciled i.state h))
            λ _. exactly_one-Since start platform _ _ _ λ db. Evolves-leases _ _ db λ l h. record {
              identity = refl;
              states = step_from (acquirable-pending q l h).0 acquire;
              held = λ g e. cc (sym e ∙ (acquirable-pending q l h).1);
            }

  pub persist_unknown_acquired_lease_candidate-Since :
      (o : Observation) (gateway reason : String)
      → Keeps
          (Since {T = T} {S = S} start)
          (persist_unknown_acquired_lease_candidate platform clock q o gateway reason)
  unfolding persist_unknown_acquired_lease_candidate
  persist_unknown_acquired_lease_candidate-Since o gateway reason = clock_then start clock _ λ n.
      reads_then start _ _ λ v.
        statement_then start platform _ _ (λ db. open-Evolves _ _ _ db (λ i. refl) (λ i h. lose h))
          (statement-Since start platform _
            λ db. Evolves-leases _ _ db λ l h. LeaseMoves-step l _ refl refl here)

  expire_if-Since :
      (gateway : String) (b : Bool)
      → Keeps (Since {T = T} {S = S} start) (expire_if platform clock q gateway b)
  unfolding expire_if
  expire_if-Since gateway false = returns-kept (Since start) false
  expire_if-Since gateway true =
      then-Keeps (Since start) _ _
        (exactly_one-Since start platform _ _ _ λ db. Evolves-leases _ _ db λ l h.
          LeaseMoves-step l _ refl refl (step_from (expirable-acquired q gateway l h) expire))
        λ _.
          then-Keeps (Since start) _ _ (mark_spawn_review-Since _)
            λ _. returns-kept (Since start) true

  pub expire_locally_expired_lease_before_spawn-Since :
      (gateway : String)
      → Keeps
          (Since {T = T} {S = S} start)
          (expire_locally_expired_lease_before_spawn platform clock q gateway)
  unfolding expire_locally_expired_lease_before_spawn
  expire_locally_expired_lease_before_spawn-Since gateway =
      reads_then start _ _ λ m. clock_then start clock _ λ n. expire_if-Since gateway _

  pub persist_spawn_acceptance-Since :
      (o : Observation) (session_key : String) (reconciled : Bool)
      → Keeps
          (Since {T = T} {S = S} start)
          (persist_spawn_acceptance platform clock q o session_key reconciled)
  unfolding persist_spawn_acceptance strictly_after_requested_time
  persist_spawn_acceptance-Since o session_key reconciled = reads_then start _ _ λ _.
      then-Keeps (Since start) _ _
        (reads_then start _ _ λ m. clock_then start clock _ λ n. returns-kept (Since start) _)
        λ n. reads_then start _ _ λ v.
          then-Keeps (Since start) _ _
            (exactly_one-Since start platform _ _ _
              λ db. open-Evolves _ _ _ db (λ i. refl) (λ i h. settle-step reconciled i.state h))
            λ _.
              then-Keeps (Since start) _ _
                (exactly_one-Since start platform _ _ _ λ db. Evolves-other db _ refl refl)
                λ _.
                  statement_then start platform _ _ (λ db. Evolves-other db _ refl refl)
                    (exactly_one-Since start platform _ _ _ λ db. Evolves-other db _ refl refl)

  keep_candidate-Since :
      (o : Observation) (external_id : Option String)
      → Keeps (Since {T = T} {S = S} start) (keep_candidate platform clock q o external_id)
  unfolding keep_candidate keep_candidate_statement
  keep_candidate-Since o none = returns-kept (Since start) tt
  keep_candidate-Since o (some external_id) = go (external_id =ₜ "")
    where
      go :
          (b : Bool)
          → Keeps
              (Since {T = T} {S = S} start)
              (if b then returns tt else keep_candidate_statement platform clock q o external_id)
      go true = returns-kept (Since start) tt
      go false = statement-Since start platform _ λ db. Evolves-intents _ _ db λ i h.
          IntentMoves-step i _ refl
            (in_review-unsettled i.state
              (and_right (of_kind sessions_spawn q.spawn_idempotency_key i) _ h))
            here

  pub persist_ambiguous_spawn_candidate-Since :
      (o : Observation)
      → Keeps (Since {T = T} {S = S} start) (persist_ambiguous_spawn_candidate platform clock q o)
  unfolding persist_ambiguous_spawn_candidate
  persist_ambiguous_spawn_candidate-Since o = keep_candidate-Since o o.external_id

  pub prepare_owned_lease_release-Since :
      (gateway : String)
      → Keeps (Since {T = T} {S = S} start) (prepare_owned_lease_release platform clock q gateway)
  unfolding prepare_owned_lease_release
  prepare_owned_lease_release-Since gateway = reads_then start _ _ λ _.
      clock_then start clock _ λ n.
        then-Keeps (Since start) _ _
          (exactly_one-Since start platform _ _ _ λ db. Evolves-leases _ _ db λ l h.
            LeaseMoves-step l _ refl refl (
              step_from (is_acquired-acquired l.state (and_right (owned_lease q gateway l) _ h))
                prepare))
          λ _. statement-Since start platform _ λ db. Evolves-insert_intent _ db

  pub persist_released_lease-Since :
      (o : Observation) (gateway : String) (reconciled : Bool)
      → Keeps
          (Since {T = T} {S = S} start)
          (persist_released_lease platform clock q o gateway reconciled)
  unfolding persist_released_lease strictly_after_requested_time
  persist_released_lease-Since o gateway reconciled = reads_then start _ _ λ v.
      then-Keeps (Since start) _ _
        (reads_then start _ _ λ m. clock_then start clock _ λ n. returns-kept (Since start) _)
        λ n. reads_then start _ _ λ storage.
          then-Keeps (Since start) _ _
            (exactly_one-Since start platform _ _ _
              λ db. open-Evolves _ _ _ db (λ i. refl) (λ i h. settle-step reconciled i.state h))
            λ _. exactly_one-Since start platform _ _ _ λ db. Evolves-leases _ _ db λ l h.
              LeaseMoves-step l _ refl refl (
                step_from
                  (is_release_pending-pending l.state (and_right (owned_lease q gateway l) _ h))
                  release)
