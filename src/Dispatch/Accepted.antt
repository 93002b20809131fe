-- ===== src/Dispatch/Accepted.antt =====
-- What a dispatch that returns has recorded.
use openclaw_agentic_os.Prelude.{
  ◌+◌, arith, String, Bool, true, false, not, ◌&&◌, ◌||◌, ◌≡◌, refl, ap, ◌∙◌, Option, none, some,
  List, [], ◌∷◌, any, find, if◌then◌else◌, is_text, text_self,
}
use openclaw_agentic_os.Result.{Error, Result, ok, err, bind-ok, dispatch_error}
use openclaw_agentic_os.Transaction.{then-Keeps}
use openclaw_agentic_os.Metadata.Observation.{validate_accepted_session_identity, nonempty}
use openclaw_agentic_os.Dispatch.Rows.{
  Db, Intent, IntentState, sessions_spawn, SpawnRequest, Session,
}
use openclaw_agentic_os.Dispatch.World.{
  Platform, World, Clock, Adapter, Observation, count_where, update_where,
}
use openclaw_agentic_os.Dispatch.Request.{DispatchRequest, DispatchResult}
use openclaw_agentic_os.Dispatch.Replay.{
  of_kind, replay_intent, replay_by_state, accepted_replay, accepted_spawn_replay_session_key,
  replay_identity, session_joins, existing_spawn_replay_result,
}
use openclaw_agentic_os.Dispatch.Marks.{is_unsettled}
use openclaw_agentic_os.Dispatch.Persist.{open_of, persist_spawn_acceptance}
use openclaw_agentic_os.Dispatch.Returns.{
  Ensures, then-Ensures, exactly_one-Ensures, established-Ensures, committed-Ensures,
}
use openclaw_agentic_os.Dispatch.Flow.{accept_spawn}
use openclaw_agentic_os.Dispatch.Lifecycle.{
  IntentMoves, Follows, done, row, new, Evolves, Evolves-refl,
}
use openclaw_agentic_os.Dispatch.Steps.{
  and_left, and_right, Since, statement_then, exactly_one-Since, Evolves-other,
}

-- A sessions_spawn intent of the request that was accepted or reconciled as a session.
unfoldable pub is_recorded : DispatchRequest → String → Intent → Bool
unfolding is_text
is_recorded q session_key i =
    of_kind sessions_spawn q.spawn_idempotency_key i
    && not (is_unsettled i.state)
    && is_text i.external.external_id session_key

unfoldable pub has_recorded : DispatchRequest → String → Db → Bool
has_recorded q session_key db = any (is_recorded q session_key) db.intents

recorded_of :
    (q : DispatchRequest) (key : String) (i : Intent)
    → of_kind sessions_spawn q.spawn_idempotency_key i ≡ true
    → is_unsettled i.state ≡ false
    → is_text i.external.external_id key ≡ true
    → is_recorded q key i ≡ true
unfolding is_recorded
recorded_of q key i kind settled external = rw kind (rw settled (rw external refl))

-- What is settled never changes.
is_recorded-frozen :
    (q : DispatchRequest) (key : String) (i j : Intent)
    → IntentMoves i j
    → is_recorded q key i ≡ true
    → is_recorded q key j ≡ true
unfolding is_recorded
is_recorded-frozen q key i j moves h =
    ap (is_recorded q key) (
      moves.frozen (
        settled (is_unsettled i.state)
          (and_right (of_kind sessions_spawn q.spawn_idempotency_key i) _ (and_left _ _ h))))
    ∙ h
  where
    settled : (b : Bool) → not b ≡ true → b ≡ false
    settled true e = cc
    settled false e = refl

or_left : (a b : Bool) → a ≡ true → (a || b) ≡ true
or_left true b h = refl
or_left false b h = cc

or_right : (a b : Bool) → b ≡ true → (a || b) ≡ true
or_right true b h = refl
or_right false b h = h

or_mono :
    (a b c d : Bool)
    → (a ≡ true → c ≡ true)
    → (b ≡ true → d ≡ true)
    → (a || b) ≡ true
    → (c || d) ≡ true
or_mono true b c d f g h = or_left c d (f refl)
or_mono false b c d f g h = or_right c d (g h)

is_recorded-Follows :
    (q : DispatchRequest) (key : String) {xs ys : List Intent}
    → Follows IntentMoves xs ys
    → any (is_recorded q key) xs ≡ true
    → any (is_recorded q key) ys ≡ true
unfolding any
is_recorded-Follows q key done h = h
is_recorded-Follows q key (row {a = a} {b = b} r f) h =
    or_mono _ _ _ _ (is_recorded-frozen q key a b r) (is_recorded-Follows q key f) h
is_recorded-Follows q key (new {b = b} f) h = or_right _ _ (is_recorded-Follows q key f h)

pub has_recorded-Evolves :
    (q : DispatchRequest) (key : String) (before after : Db)
    → Evolves before after
    → has_recorded q key before ≡ true
    → has_recorded q key after ≡ true
unfolding has_recorded
has_recorded-Evolves q key before after e = is_recorded-Follows q key e.intents

-- An UPDATE that found its one row has written it.
update_where-any :
    {A : Type 0} (selects after : A → Bool) (set : A → A)
    → ((a : A) → selects a ≡ true → after (set a) ≡ true)
    → (xs : List A) → count_where selects xs ≡ 1
    → any after (update_where selects set xs) ≡ true
unfolding any update_where count_where
update_where-any selects after set wrote [] h = absurd (omega arith)
update_where-any {A} selects after set wrote (x ∷ xs) h =
    go (selects x) refl h (update_where-any selects after set wrote xs)
  where
    go :
        (b : Bool)
        → selects x ≡ b
        → (if b then 1 else 0) + count_where selects xs ≡ 1
        → (count_where selects xs ≡ 1 → any after (update_where selects set xs) ≡ true)
        → (after (if b then set x else x) || any after (update_where selects set xs)) ≡ true
    go true e n rest = or_left _ _ (wrote x e)
    go false e n rest = or_right _ _ (rest (omega arith))

module _ {T S : Type 0} (platform : Platform) (clock : Clock T) (q : DispatchRequest) where
  persist_spawn_acceptance-Ensures :
      (o : Observation) (key : String)
      → Ensures
          (λ _ (v : World T S). has_recorded q key v.db ≡ true)
          (persist_spawn_acceptance platform clock q o key false)
  unfolding persist_spawn_acceptance has_recorded of_kind is_text
  persist_spawn_acceptance-Ensures o key = then-Ensures _ _ _ λ _. then-Ensures _ _ _ λ now_ms.
      then-Ensures _ _ _ λ v.
        established-Ensures (λ w. has_recorded q key w.db ≡ true) _ _
          (exactly_one-Ensures (λ db. has_recorded q key db ≡ true) platform _ _ _
            λ db one.
              update_where-any (open_of sessions_spawn q.spawn_idempotency_key) (is_recorded q key)
                _
                (λ i e.
                  recorded_of q key _
                    (and_left (of_kind sessions_spawn q.spawn_idempotency_key i) _ e) refl
                    (text_self key))
                db.intents one)
          (λ _ w h.
            has_recorded-Evolves q key w.db _
              (then-Keeps (Since w.db) _ _
                (exactly_one-Since w.db platform _ _ _ λ db. Evolves-other db _ refl refl)
                (λ _.
                  statement_then w.db platform _ _ (λ db. Evolves-other db _ refl refl)
                    (exactly_one-Since w.db platform _ _ _ λ db. Evolves-other db _ refl refl))
                w (Evolves-refl w.db))
              h)

  pub accept_spawn-Ensures :
      (adapter : Adapter S) (o : Observation)
      → Ensures
          (λ key (v : World T S). has_recorded q key v.db ≡ true)
          (accept_spawn platform clock adapter q o)
  unfolding accept_spawn
  accept_spawn-Ensures adapter o = then-Ensures _ _ _ λ key.
      committed-Ensures (λ key v. has_recorded q key v.db ≡ true) _ key
        (persist_spawn_acceptance-Ensures o key)

-- What a replay returns is the session of the settled intent that it found.
same_text :
    (x y key : String)
    → ◌≡◌ {A = Result String} (ok x) (ok y)
    → ◌≡◌ {A = Result String} (ok y) (ok key)
    → ◌≡◌ {A = Option String} (some x) (some key)
same_text x y key e f = cc

validate_accepted_session_identity-ok :
    (external spawned session : Option String) (key : String)
    → validate_accepted_session_identity external spawned session none ≡ ok key
    → external ≡ some key
unfolding validate_accepted_session_identity nonempty
validate_accepted_session_identity-ok none spawned session key h =
    let first = bind-ok _ _ h in absurd (not_ok first.1)
  where
    not_ok : {e : Error} {x : String} → ◌≡◌ {A = Result String} (err e) (ok x) → ⊥
    not_ok h = cc
validate_accepted_session_identity-ok (some x) spawned session key h =
    let first = bind-ok _ _ h in
    let second = bind-ok _ _ first.2 in
    let third = bind-ok _ _ second.2 in
    let fourth = bind-ok _ _ third.2 in
    let fifth = bind-ok _ _ fourth.2 in
    let nonempty_x = bind-ok _ _ first.1 in same_text x first.0 key nonempty_x.2 fifth.2

replay_identity-ok :
    (external : Option String) (found : Option SpawnRequest) (sessions : List Session)
    (key : String)
    → replay_identity external found sessions ≡ ok key
    → external ≡ some key
unfolding replay_identity
replay_identity-ok external none sessions key h = cc
replay_identity-ok external (some sr) sessions key h = go (find (session_joins sr) sessions) h
  where
    go :
        (found : Option Session)
        → elim found [
          | none ↦ err (dispatch_error "accepted sessions_spawn replay lacks local session proof")
          | some s ↦
              validate_accepted_session_identity external sr.session_key (some s.session_key) none
        ]
          ≡ ok key
        → external ≡ some key
    go none e = cc
    go (some s) e = validate_accepted_session_identity-ok external _ _ key e

session_of : Result DispatchResult → Option String
session_of (ok r) = some r.session_key
session_of (err e) = none

module _ (platform : Platform) (db : Db) (q : DispatchRequest) (r : DispatchResult) where
  accepted_replay-ok :
      (i : Intent) → accepted_replay db q i ≡ ok r → i.external.external_id ≡ some r.session_key
  unfolding accepted_replay session_of accepted_spawn_replay_session_key
  accepted_replay-ok i h =
      let bound = bind-ok _ _ h in
      let key = bind-ok _ _ bound.2 in
      let gateway = bind-ok _ _ key.2 in
      replay_identity-ok i.external.external_id _ _ key.0 key.1 ∙ named key.0 gateway.0 gateway.2
    where
      named :
          (key gateway : String)
          → ◌≡◌ {A = Result DispatchResult}
              (ok (record { session_key = key; gateway_lease_id = gateway; status = "replayed" }))
              (ok r)
          → ◌≡◌ {A = Option String} (some key) (some r.session_key)
      named key gateway e = ap (λ (x : Result DispatchResult). session_of x) e

  replay_by_state-ok :
      (i : Intent) (s : IntentState)
      → replay_by_state db q i s ≡ ok (some r)
      → (is_unsettled s ≡ false) × (i.external.external_id ≡ some r.session_key)
  unfolding replay_by_state
  replay_by_state-ok i IntentState.accepted h =
      let done = bind-ok (accepted_replay db q i) _ h in
      (refl, accepted_replay-ok i (only done.0 done.1 done.2))
    where
      only :
          (x : DispatchResult)
          → accepted_replay db q i ≡ ok x
          → ◌≡◌ {A = Result (Option DispatchResult)} (ok (some x)) (ok (some r))
          → accepted_replay db q i ≡ ok r
      only x e f = cc
  replay_by_state-ok i IntentState.reconciled h =
      let done = bind-ok (accepted_replay db q i) _ h in
      (refl, accepted_replay-ok i (only done.0 done.1 done.2))
    where
      only :
          (x : DispatchResult)
          → accepted_replay db q i ≡ ok x
          → ◌≡◌ {A = Result (Option DispatchResult)} (ok (some x)) (ok (some r))
          → accepted_replay db q i ≡ ok r
      only x e f = cc
  replay_by_state-ok i IntentState.pending h = cc
  replay_by_state-ok i IntentState.unknown h = cc
  replay_by_state-ok i IntentState.failed h = cc
  replay_by_state-ok i IntentState.human_review_required h = cc

  replay_intent-recorded :
      (i : Intent)
      → of_kind sessions_spawn q.spawn_idempotency_key i ≡ true
      → replay_intent platform db q i ≡ ok (some r)
      → is_recorded q r.session_key i ≡ true
  unfolding replay_intent is_text
  replay_intent-recorded i kind h =
      let described = bind-ok _ _ h in
      let same_columns = bind-ok _ _ described.2 in
      let same_description = bind-ok _ _ same_columns.2 in
      let settled = replay_by_state-ok i i.state same_description.2 in
      recorded_of q r.session_key i kind settled.0 (rw settled.1 (text_self r.session_key))

  -- What a SELECT of the key makes of a list of intents.
  abbrev replayed : Option Intent → Result (Option DispatchResult)
  replayed found = elim found [ none ↦ ok none | some i ↦ replay_intent platform db q i ]

  replayed-recorded :
      (xs : List Intent)
      → replayed (find (of_kind sessions_spawn q.spawn_idempotency_key) xs) ≡ ok (some r)
      → any (is_recorded q r.session_key) xs ≡ true
  unfolding any find
  replayed-recorded [] h = cc
  replayed-recorded (x ∷ xs) h =
      go (of_kind sessions_spawn q.spawn_idempotency_key x) refl h (replayed-recorded xs)
    where
      go :
          (b : Bool)
          → of_kind sessions_spawn q.spawn_idempotency_key x ≡ b
          → replayed
              (if b then some x else find (of_kind sessions_spawn q.spawn_idempotency_key) xs)
            ≡ ok (some r)
          → (replayed (find (of_kind sessions_spawn q.spawn_idempotency_key) xs) ≡ ok (some r)
              → any (is_recorded q r.session_key) xs ≡ true)
          → (is_recorded q r.session_key x || any (is_recorded q r.session_key) xs) ≡ true
      go true kind e rest = or_left _ _ (replay_intent-recorded x kind e)
      go false kind e rest = or_right _ _ (rest e)

  pub existing_spawn_replay_result-recorded :
      existing_spawn_replay_result platform db q ≡ ok (some r)
      → has_recorded q r.session_key db ≡ true
  unfolding existing_spawn_replay_result has_recorded
  existing_spawn_replay_result-recorded h = replayed-recorded db.intents h
