-- ===== src/Dispatch/Once.antt =====
-- What a sessions_spawn intent does to later calls of `dispatch_with_metadata` for its key.
use openclaw_agentic_os.Prelude.{
  String, Bool, true, false, ◌||◌, ◌&&◌, ◌≡◌, refl, ap, ◌∙◌, ◌⊎◌, ◌≢◌, inl, inr, Option, none, some,
  List, [], ◌∷◌, any, find, if◌then◌else◌, text_self, same_self, ◌=ₜ◌, same,
}
use openclaw_agentic_os.Result.{Result, ok, err, bind-ok}
use openclaw_agentic_os.Transaction.{returns, ◌>>=◌, ◌>>◌, continue}
use openclaw_agentic_os.Dispatch.Rows.{
  Db, Intent, IntentIdentity, IntentState, sessions_spawn, RpcKind, RpcKind-discrete,
}
use openclaw_agentic_os.Dispatch.World.{
  Platform, World, Clock, Adapter, immediate_transaction, restore,
}
use openclaw_agentic_os.Dispatch.Request.{
  DispatchRequest, DispatchResult, validate_dispatch_request, validate_transient_spawn_descriptor,
}
use openclaw_agentic_os.Dispatch.Replay.{
  of_kind, replay_intent, replay_by_state, accepted_replay, existing_spawn_replay_result,
}
use openclaw_agentic_os.Dispatch.Pending.{insert_pending_dispatch}
use openclaw_agentic_os.Dispatch.Flow.{
  dispatch_with_metadata, begin_dispatch, begin_if_new, unless_replayed,
}
use openclaw_agentic_os.Dispatch.Returns.{Ensures, then-Ensures, statement-ok}
use openclaw_agentic_os.Dispatch.Lifecycle.{
  IntentMoves, Follows, done, row, new, Evolves, Evolves-refl,
}
use openclaw_agentic_os.Dispatch.Evolution.{acquire_stage-Since}
use openclaw_agentic_os.Dispatch.Local.{insert_pending_dispatch-Local}

-- A sessions_spawn intent with the request's key has been recorded.
unfoldable pub is_dispatched : DispatchRequest → Db → Bool
is_dispatched q db = any (of_kind sessions_spawn q.spawn_idempotency_key) db.intents

-- A replay decides: no intent that is there leads to another dispatch.
replay_by_state-some :
    (db : Db) (q : DispatchRequest) (i : Intent) (s : IntentState)
    → replay_by_state db q i s ≢ ok none
unfolding replay_by_state
replay_by_state-some db q i IntentState.accepted h = cc (bind-ok (accepted_replay db q i) _ h).2
replay_by_state-some db q i IntentState.reconciled h = cc (bind-ok (accepted_replay db q i) _ h).2
replay_by_state-some db q i IntentState.pending h = cc
replay_by_state-some db q i IntentState.unknown h = cc
replay_by_state-some db q i IntentState.failed h = cc
replay_by_state-some db q i IntentState.human_review_required h = cc

replay_intent-some :
    (platform : Platform) (db : Db) (q : DispatchRequest) (i : Intent)
    → replay_intent platform db q i ≢ ok none
unfolding replay_intent
replay_intent-some platform db q i h =
    replay_by_state-some db q i i.state (bind-ok _ _ (bind-ok _ _ (bind-ok _ _ h).2).2).2

module _ (platform : Platform) (db : Db) (q : DispatchRequest) where
  -- What a SELECT of the key makes of a list of intents.
  abbrev replayed : Option Intent → Result (Option DispatchResult)
  replayed found = elim found [ none ↦ ok none | some i ↦ replay_intent platform db q i ]

  replayed-some :
      (xs : List Intent)
      → any (of_kind sessions_spawn q.spawn_idempotency_key) xs ≡ true
      → replayed (find (of_kind sessions_spawn q.spawn_idempotency_key) xs) ≢ ok none
  unfolding any find
  replayed-some [] e = cc
  replayed-some (x ∷ xs) e =
      go (of_kind sessions_spawn q.spawn_idempotency_key x) (replayed-some xs) e
    where
      go :
          (b : Bool)
          → (any (of_kind sessions_spawn q.spawn_idempotency_key) xs ≡ true
              → replayed (find (of_kind sessions_spawn q.spawn_idempotency_key) xs) ≢ ok none)
          → (b || any (of_kind sessions_spawn q.spawn_idempotency_key) xs) ≡ true
          → replayed
              (if b then some x else find (of_kind sessions_spawn q.spawn_idempotency_key) xs)
            ≢ ok none
      go true rest h = replay_intent-some platform db q x
      go false rest h = rest h

  found-some : is_dispatched q db ≡ true → existing_spawn_replay_result platform db q ≢ ok none
  unfolding is_dispatched existing_spawn_replay_result
  found-some there = replayed-some db.intents there

or_mono :
    (a b c d : Bool)
    → (a ≡ true → c ≡ true)
    → (b ≡ true → d ≡ true)
    → (a || b) ≡ true
    → (c || d) ≡ true
or_mono true b true d f g h = refl
or_mono true b false d f g h = cc (f refl)
or_mono false b true d f g h = refl
or_mono false b false d f g h = g h

-- Moves keep the intent of a key.
of_kind-Follows :
    (kind : RpcKind) (key : String) {xs ys : List Intent}
    → Follows IntentMoves xs ys
    → any (of_kind kind key) xs ≡ true
    → any (of_kind kind key) ys ≡ true
unfolding any of_kind
of_kind-Follows kind key done h = h
of_kind-Follows kind key (row r f) h =
    or_mono _ _ _ _
      (λ e.
        ap
          (λ (x : IntentIdentity).
            same RpcKind-discrete x.rpc_kind kind && (x.idempotency_key =ₜ key))
          r.identity
        ∙ e)
      (of_kind-Follows kind key f) h
of_kind-Follows kind key (new {b = b} f) h =
    or_mono false _ (of_kind kind key b) _ (λ e. cc e) (of_kind-Follows kind key f) h

pub is_dispatched-Evolves :
    (q : DispatchRequest) (before after : Db)
    → Evolves before after
    → is_dispatched q before ≡ true
    → is_dispatched q after ≡ true
unfolding is_dispatched
is_dispatched-Evolves q before after e h =
    of_kind-Follows sessions_spawn q.spawn_idempotency_key e.intents h

same_key-is_dispatched :
    (q later_q : DispatchRequest) (db : Db)
    → later_q.spawn_idempotency_key ≡ q.spawn_idempotency_key
    → is_dispatched q db ≡ true
    → is_dispatched later_q db ≡ true
unfolding is_dispatched
same_key-is_dispatched q later_q db key there =
    ap (λ k. any (of_kind sessions_spawn k) db.intents) key ∙ there

module _ {T S : Type 0} (platform : Platform) (clock : Clock T) (adapter : Adapter S)
    (q : DispatchRequest) where
  -- The rest of a dispatch, once the first transaction has ended.
  abbrev finish :
      World T S → Result (Option DispatchResult) × World T S → Result DispatchResult × World T S
  finish w p =
      continue (restore w.db p.0 p.1).0 (unless_replayed platform clock adapter q)
        (restore w.db p.0 p.1).1

  -- Where a sessions_spawn intent with the request's idempotency key is recorded, in whatever state,
  -- dispatch_with_metadata changes nothing: it writes no row, it reads no clock, and it does not call
  -- the adapter.
  pub dispatch_with_metadata-unmoved :
      (w : World T S)
      → is_dispatched q w.db ≡ true
      → (dispatch_with_metadata platform clock adapter q w).1 ≡ w
  unfolding dispatch_with_metadata begin_dispatch begin_if_new unless_replayed immediate_transaction
      ◌>>=◌
  dispatch_with_metadata-unmoved w there =
      checked (validate_dispatch_request q)
        (decided (existing_spawn_replay_result platform w.db q) (found-some platform w.db q there))
    where
      decided :
          (existing : Result (Option DispatchResult))
          → existing ≢ ok none
          → (finish w (continue existing (begin_if_new platform clock adapter q) w)).1 ≡ w
      decided (err e) n = refl
      decided (ok (some r)) n = refl
      decided (ok none) n = absurd (n refl)

      checked :
          (valid : Result Unit)
          → (finish w (begin_dispatch platform clock adapter q w)).1 ≡ w
          → (continue valid (λ _ v. finish v (begin_dispatch platform clock adapter q v)) w).1 ≡ w
      checked (err e) same = refl
      checked (ok _) same = same

  -- The rows of a pending dispatch hold its sessions_spawn intent.
  insert_pending_dispatch-Ensures :
      Ensures
        (λ _ (v : World T S). is_dispatched q v.db ≡ true)
        (insert_pending_dispatch platform q clock)
  unfolding insert_pending_dispatch is_dispatched any of_kind
  insert_pending_dispatch-Ensures = then-Ensures _ _ _ λ _. then-Ensures _ _ _ λ _.
      then-Ensures _ _ _ λ _. then-Ensures _ _ _ λ _. then-Ensures _ _ _ λ now_ms.
        then-Ensures _ _ _ λ requested_ms. then-Ensures _ _ _ λ _. then-Ensures _ _ _ λ _.
          then-Ensures _ _ _ λ _. then-Ensures _ _ _ λ _. then-Ensures _ _ _ λ descriptor.
            λ s t u h. ap (is_dispatched q) (statement-ok platform _ s t u h) ∙ inserted-head _
    where
      inserted-head :
          (others : Bool)
          → (same RpcKind-discrete sessions_spawn sessions_spawn
                && (q.spawn_idempotency_key =ₜ q.spawn_idempotency_key)
              || others)
            ≡ true
      inserted-head others =
          rw (same_self RpcKind-discrete sessions_spawn)
            (rw (text_self q.spawn_idempotency_key) refl)

  -- After a dispatch: either the tables and the adapter are as they were, or the intent is recorded.
  abbrev Tried : World T S → World T S → Type 0
  Tried w v = ((v.db ≡ w.db) × (v.outside ≡ w.outside)) ⊎ (is_dispatched q v.db ≡ true)

  dispatch_with_metadata-Tried :
      (w : World T S) → Tried w (dispatch_with_metadata platform clock adapter q w).1
  unfolding dispatch_with_metadata begin_dispatch begin_if_new unless_replayed immediate_transaction
      ◌>>=◌
  dispatch_with_metadata-Tried w = checked (validate_dispatch_request q) (
      decided (existing_spawn_replay_result platform w.db q) (
        described (validate_transient_spawn_descriptor platform q) (
          inserted (insert_pending_dispatch platform q clock w).0
            (insert_pending_dispatch platform q clock w).1
            (insert_pending_dispatch-Local w.outside platform clock q w refl) refl)))
    where
      inserted :
          (r : Result Unit) (v : World T S)
          → v.outside ≡ w.outside
          → insert_pending_dispatch platform q clock w ≡ (r, v)
          → Tried w (finish w (continue r (λ _. returns none) v)).1
      inserted (err e) v outside h = inl (refl, outside)
      inserted (ok u) v outside h = inr (
          is_dispatched-Evolves q v.db _
            (acquire_stage-Since v.db platform clock adapter q v (Evolves-refl v.db))
            (insert_pending_dispatch-Ensures w v u h))

      described :
          (r : Result Unit)
          → Tried w (finish w ((insert_pending_dispatch platform q clock >> returns none) w)).1
          → Tried w
              (finish w
                (continue r (λ _. insert_pending_dispatch platform q clock >> returns none) w)).1
      described (err e) rest = inl (refl, refl)
      described (ok _) rest = rest

      decided :
          (existing : Result (Option DispatchResult))
          → Tried w (finish w (begin_if_new platform clock adapter q none w)).1
          → Tried w (finish w (continue existing (begin_if_new platform clock adapter q) w)).1
      decided (err e) rest = inl (refl, refl)
      decided (ok (some r)) rest = inl (refl, refl)
      decided (ok none) rest = rest

      checked :
          (valid : Result Unit)
          → Tried w (finish w (begin_dispatch platform clock adapter q w)).1
          → Tried w
              (continue valid (λ _ v. finish v (begin_dispatch platform clock adapter q v)) w).1
      checked (err e) rest = inl (refl, refl)
      checked (ok _) rest = rest

-- dispatch_with_metadata tries once: a call either leaves the tables and the adapter as they were, or
-- every later call for the same sessions_spawn idempotency key is inert, on any database that has
-- evolved from what the call left, with any request, clock, adapter and schema.
pub dispatch_with_metadata-once :
    {T S U R : Type 0} (platform later_platform : Platform) (clock : Clock T)
    (later_clock : Clock U) (adapter : Adapter S) (later_adapter : Adapter R)
    (q later_q : DispatchRequest) (w : World T S) (later : World U R)
    → later_q.spawn_idempotency_key ≡ q.spawn_idempotency_key
    → Evolves (dispatch_with_metadata platform clock adapter q w).1.db later.db
    → (((dispatch_with_metadata platform clock adapter q w).1.db ≡ w.db)
        × ((dispatch_with_metadata platform clock adapter q w).1.outside ≡ w.outside))
      ⊎ ((dispatch_with_metadata later_platform later_clock later_adapter later_q later).1 ≡ later)
dispatch_with_metadata-once platform later_platform clock later_clock adapter later_adapter q
      later_q w later key evolved =
    go (dispatch_with_metadata-Tried platform clock adapter q w)
  where
    go :
        Tried platform clock adapter q w (dispatch_with_metadata platform clock adapter q w).1
        → (((dispatch_with_metadata platform clock adapter q w).1.db ≡ w.db)
            × ((dispatch_with_metadata platform clock adapter q w).1.outside ≡ w.outside))
          ⊎ ((dispatch_with_metadata later_platform later_clock later_adapter later_q later).1
              ≡ later)
    go (inl same) = inl same
    go (inr there) = inr (
        dispatch_with_metadata-unmoved later_platform later_clock later_adapter later_q later (
          same_key-is_dispatched q later_q later.db key
            (is_dispatched-Evolves q _ later.db evolved there)))
