-- ===== src/Dispatch/Times.antt =====
-- The time at which an accepted call is recorded.
use openclaw_agentic_os.Prelude.{
  ℕ, ◌+◌, ◌≤◌, ◌<◌, String, Bool, true, false, ◌&&◌, ◌≡◌, refl, sym, ap, ◌∙◌, Option, none, some,
  List, [], ◌∷◌, find, ltb, arith, if◌then◌else◌,
}
use openclaw_agentic_os.Result.{Result, ok}
use openclaw_agentic_os.Transaction.{reads-ok, then-ok, returns-ok}
use openclaw_agentic_os.Dispatch.Rows.{Db, Intent, RpcKind, sessions_spawn}
use openclaw_agentic_os.Dispatch.World.{
  Platform, World, Clock, Observation, now_utc, count_where, update_where,
}
use openclaw_agentic_os.Dispatch.Replay.{of_kind}
use openclaw_agentic_os.Dispatch.Persist.{
  requested_time, strictly_after_requested_time, settle_intent, persist_spawn_acceptance,
}
use openclaw_agentic_os.Dispatch.Marks.{is_open, coalesce}
use openclaw_agentic_os.Dispatch.Columns.{session_external}
use openclaw_agentic_os.Dispatch.Returns.{exactly_one-ok, statement-ok}
use openclaw_agentic_os.Dispatch.Request.{DispatchRequest}

requested_time-ok :
    (found : Option Intent) (m : ℕ)
    → requested_time found ≡ ok m
    → (i : Intent) × (found ≡ some i) × (i.identity.requested_at_epoch_ms ≡ some m)
unfolding requested_time
requested_time-ok none m h = cc
requested_time-ok (some i) m h = (i, refl, go i.identity.requested_at_epoch_ms h)
  where
    go :
        (at : Option ℕ)
        → requested_time
            (some (record i { identity = record i.identity { requested_at_epoch_ms = at } }))
          ≡ ok m
        → at ≡ some m
    go none e = cc
    go (some k) e = cc

later_of_both :
    (now requested n : ℕ)
    → (if ltb now (requested + 1) then requested + 1 else now) ≡ n
    → (requested < n) × (now ≤ n)
later_of_both now requested n h = ground arith

reading :
    {S : Type 0} (at now n : ℕ) (w v : S)
    → ◌≡◌ {A = Result ℕ × S} (ok at, w) (ok now, v)
    → now ≤ n
    → at ≤ n
reading at now n w v e h =
    let same_time : at ≡ now = same_of_ok at now (ap (λ p. p.0) e) in rw same_time h
  where
    same_of_ok : (x y : ℕ) → ◌≡◌ {A = Result ℕ} (ok x) (ok y) → x ≡ y
    same_of_ok x y e = cc

-- The time that _strictly_after_requested_time returns is strictly after that of the request of the
-- first intent of the kind and the key, and not before the clock's reading; no table is changed.
strictly_after_requested_time-later :
    {T S : Type 0} (platform : Platform) (clock : Clock T) (kind : RpcKind) (key : String)
    (w v : World T S) (n : ℕ)
    → strictly_after_requested_time platform clock kind key w ≡ (ok n, v)
    → (i : Intent) × (requested : ℕ) × (find (of_kind kind key) w.db.intents ≡ some i)
      × (i.identity.requested_at_epoch_ms ≡ some requested)
      × (requested < n)
      × ((clock w.time).0 ≤ n)
      × (v.db ≡ w.db)
unfolding strictly_after_requested_time now_utc
strictly_after_requested_time-later platform clock kind key w v n h =
    let asked = reads-ok _ _ w h in
    let found = requested_time-ok _ asked.0 asked.1 in
    let read = then-ok _ _ w asked.2 in
    let done = returns-ok _ _ _ _ read.3 in
    let bounds = later_of_both read.0 asked.0 n done.0 in
    (
      found.0,
      asked.0,
      found.1,
      found.2,
      bounds.0,
      reading (clock w.time).0 read.0 n _ _ read.2 bounds.1,
      ap (λ x. x.db) (sym done.1) ∙ ap (λ p. p.1.db) (sym read.2),
    )

selected_none :
    {A : Type 0} (selects open_row : A → Bool) (xs : List A)
    → count_where selects xs ≡ 0
    → count_where (λ x. selects x && open_row x) xs ≡ 0
unfolding count_where
selected_none selects open_row [] h = refl
selected_none selects open_row (x ∷ xs) h =
    go (selects x) (open_row x) (selected_none selects open_row xs) h
  where
    go :
        (s o : Bool)
        → (count_where selects xs ≡ 0 → count_where (λ x. selects x && open_row x) xs ≡ 0)
        → (if s then 1 else 0) + count_where selects xs ≡ 0
        → (if s && o then 1 else 0) + count_where (λ x. selects x && open_row x) xs ≡ 0
    go true o rest e = absurd (omega (arith, e))
    go false o rest e = omega (arith, rest (omega (arith, e)))

-- Where a key has one row, and that row is open, an UPDATE of the open rows writes the row that a
-- SELECT by the key finds.
find-updated :
    {A : Type 0} (selects open_row : A → Bool) (set : A → A) (xs : List A) (found : A)
    → ((x : A) → selects (set x) ≡ selects x)
    → find selects xs ≡ some found
    → count_where selects xs ≡ 1
    → count_where (λ x. selects x && open_row x) xs ≡ 1
    → find selects (update_where (λ x. selects x && open_row x) set xs) ≡ some (set found)
unfolding count_where update_where find
find-updated selects open_row set [] found keeps h one one_open = cc
find-updated selects open_row set (x ∷ xs) found keeps h one one_open =
    go (selects x) (open_row x) refl (find-updated selects open_row set xs found keeps) h one
      one_open
  where
    go :
        (s o : Bool)
        → selects x ≡ s
        → (find selects xs ≡ some found
            → count_where selects xs ≡ 1
            → count_where (λ x. selects x && open_row x) xs ≡ 1
            → find selects (update_where (λ x. selects x && open_row x) set xs) ≡ some (set found))
        → (if s then some x else find selects xs) ≡ some found
        → (if s then 1 else 0) + count_where selects xs ≡ 1
        → (if s && o then 1 else 0) + count_where (λ x. selects x && open_row x) xs ≡ 1
        → find selects
            ((if s && o then set x else x) ∷ update_where (λ x. selects x && open_row x) set xs)
          ≡ some (set found)
    go true true at rest e n m =
        let same_row : x ≡ found = cc e in
        ap
          (λ b.
            if b
            then some (set x)
            else find selects (update_where (λ x. selects x && open_row x) set xs))
          (keeps x ∙ at)
        ∙ ap (λ y. some (set y)) same_row
    go true false at rest e n m =
        let none_left = selected_none selects open_row xs (omega (arith, n)) in
        absurd (omega (arith, none_left, m))
    go false o at rest e n m =
        ap
          (λ b.
            if b then some x else find selects (update_where (λ x. selects x && open_row x) set xs))
          at
        ∙ rest e (omega (arith, n)) (omega (arith, m))

-- The time at which an accepted session is recorded is later than its request, whatever the clock
-- does: where persist_spawn_acceptance returns, and the tables held one sessions_spawn intent of the
-- idempotency key, with a time of its request and none of its acceptance, that intent is recorded as
-- accepted at a time strictly after that of its request, and not before the clock's reading.
pub persist_spawn_acceptance-later :
    {T S : Type 0} (platform : Platform) (clock : Clock T) (q : DispatchRequest) (o : Observation)
    (session_key : String) (reconciled : Bool) (w v : World T S) (i : Intent)
    → find (of_kind sessions_spawn q.spawn_idempotency_key) w.db.intents ≡ some i
    → count_where (of_kind sessions_spawn q.spawn_idempotency_key) w.db.intents ≡ 1
    → i.accepted_at_epoch_ms ≡ none
    → persist_spawn_acceptance platform clock q o session_key reconciled w ≡ (ok tt, v)
    → (j : Intent) × (requested : ℕ) × (accepted : ℕ) × (find
          (of_kind sessions_spawn q.spawn_idempotency_key)
          v.db.intents
        ≡ some j)
      × (j.identity ≡ i.identity)
      × (i.identity.requested_at_epoch_ms ≡ some requested)
      × (j.accepted_at_epoch_ms ≡ some accepted)
      × (requested < accepted)
      × ((clock w.time).0 ≤ accepted)
unfolding persist_spawn_acceptance of_kind
persist_spawn_acceptance-later platform clock q o session_key reconciled w v i found one fresh h =
    let (u0, alone, h1) = reads-ok _ _ w h in
    let (n, w1, timed, h2) = then-ok _ _ w h1 in
    let (values, valid, h3) = reads-ok _ _ w1 h2 in
    let (u2, w2, settled, h4) = then-ok _ _ w1 h3 in
    let (u3, w3, bound, h5) = then-ok _ _ w2 h4 in
    let (u4, w4, listed, h6) = then-ok _ _ w3 h5 in
    let (i', requested, at, asked, later, read, same_tables) =
      strictly_after_requested_time-later platform clock sessions_spawn q.spawn_idempotency_key w w1
        n timed in
    let (one_open, wrote) = exactly_one-ok platform _ _ _ w1 w2 u2 settled in
    let marked = (exactly_one-ok platform _ _ _ w2 w3 u3 bound).1 in
    let inserted = statement-ok platform _ w3 w4 u4 listed in
    let accepted = (exactly_one-ok platform _ _ _ w4 v tt h6).1 in
    let after : v.db.intents ≡ _ =
      ap (λ (db : Db). db.intents) accepted
      ∙ ap (λ (db : Db). db.intents) inserted
      ∙ ap (λ (db : Db). db.intents) marked
      ∙ ap (λ (db : Db). db.intents) wrote in
    let same_intent : i' ≡ i = cc (sym at ∙ found) in
    (
      settle_intent reconciled (session_external o values session_key) (platform.strftime n) n i,
      requested,
      n,
      ap (find (of_kind sessions_spawn q.spawn_idempotency_key)) after
          ∙ find-updated (of_kind sessions_spawn q.spawn_idempotency_key) (λ x. is_open x.state) _
              w1.db.intents i (λ x. refl)
              (ap (λ (db : Db). find (of_kind sessions_spawn q.spawn_idempotency_key) db.intents)
                  same_tables
                ∙ found)
              (ap
                  (λ (db : Db).
                    count_where (of_kind sessions_spawn q.spawn_idempotency_key) db.intents)
                  same_tables
                ∙ one)
              one_open,
      refl,
      ap (λ (x : Intent). x.identity.requested_at_epoch_ms) (sym same_intent) ∙ asked,
      ap (λ a. coalesce a n) fresh,
      later,
      read,
    )
