-- ===== src/Budget/Funding.antt =====
-- What stays reserved for a spawn covers the registry's price of what it may still use.
use openclaw_agentic_os.Prelude.{
  some, is_text, ℕ, String, Bool, true, false, ◌&&◌, ◌+◌, ◌≤◌, ◌≡◌, refl, sym, ap, ◌∙◌, Option,
  none, List, ◌∷◌, arith, leb, same_self, text_self, inl, inr, Bool-cases,
}
use openclaw_agentic_os.Result.{Result, ok, err, bind-ok, require-ok}
use openclaw_agentic_os.Budget.Amounts.{
  Dimension, time_seconds, input_tokens, output_tokens, cost_microusd, retry_units,
  human_attention_units, BudgetAmounts, getattr, sub_ℕ, sub_ℕ-pos, sub_ℕ-add, budget_amounts-ok,
  budget_amounts-pos, limits,
}
use openclaw_agentic_os.Budget.Tables.{
  Db, Runtime, BudgetSelection, BudgetEvent, EventPayload, EventType, release, consume,
}
use openclaw_agentic_os.Budget.Selection.{required_cost}
use openclaw_agentic_os.Budget.Ledger.{
  Engine, adds, takes, total, net, of_spawn, spawn_outstanding, or_invalid, is_human_attention,
}
use openclaw_agentic_os.Budget.Events.{BudgetEventResult}
use openclaw_agentic_os.Budget.PreAdmission.{
  EventRequest, checked_request, checked_request-ok, admit_event-ok, check_reservation,
  check_release,
}
use openclaw_agentic_os.Budget.PreDispatch.{event_row, record_budget_event}
use openclaw_agentic_os.Budget.PostAdmission.{
  PostEventRequest, checked_post_request, checked_post_request-ok, admit_post_event-ok,
  check_outstanding, check_against_outstanding, check_post_amounts, check_consume,
}
use openclaw_agentic_os.Budget.PostDispatch.{record_post_dispatch_event}
use openclaw_agentic_os.Budget.Moves.{part}
use openclaw_agentic_os.Budget.Writes.{record_budget_event-Accepted}
use openclaw_agentic_os.Budget.PostWrites.{record_post_dispatch_event-PostAccepted}

module _ (spawn_request_id run_id transition_id : String) (selection : BudgetSelection) where
  abbrev mine : BudgetEvent → Bool
  mine = of_spawn spawn_request_id run_id transition_id selection

  mine-row :
      (p : EventPayload) (key : String) (n : ℕ) (link : Option String)
      → p.spawn_request_id ≡ some spawn_request_id
      → p.run_id ≡ run_id
      → p.transition_id ≡ transition_id
      → p.cost ≡ selection.binding
      → mine (event_row p key n link) ≡ true
  unfolding of_spawn is_text
  mine-row p key n link e1 e2 e3 e4 = elim (Bool-cases (is_human_attention p.event_type)) [
    | inl human ↦ rw human (simp (e1, e2, e3, e4, text_self))
    | inr other ↦ rw other (simp (e1, e2, e3, e4, text_self, same_self))
  ]

  total-mine :
      (counts : EventType → Dimension → Bool) (d : Dimension) (e : BudgetEvent)
      (es : List BudgetEvent) (v : BudgetAmounts) (t : EventType)
      → mine e ≡ true
      → e.payload.event_type ≡ t
      → e.payload.amounts ≡ v
      → total counts d mine (e ∷ es) ≡ part counts t v d + total counts d mine es
  unfolding total
  total-mine counts d e es v t own type carries = rw (own, type, carries)

  outstanding_sums :
      (db : Db) (o : BudgetAmounts)
      → spawn_outstanding db spawn_request_id run_id transition_id selection ≡ ok o
      → (d : Dimension)
      → total adds d mine db.budget_events ≡ total takes d mine db.budget_events + getattr o d
  unfolding spawn_outstanding net or_invalid
  outstanding_sums db o h d =
      sub_ℕ-pos _ _ _ (budget_amounts-ok (net mine db.budget_events) o (valid _ h) d).0
    where
      valid : (x : Result BudgetAmounts) → or_invalid x ≡ ok o → x ≡ ok o
      valid (ok y) q = q
      valid (err y) q = cc

  outstanding_from_sums :
      (db : Db) (o : BudgetAmounts)
      → ((d : Dimension)
          → (total adds d mine db.budget_events ≡ total takes d mine db.budget_events + getattr o d)
            × (getattr o d ≤ limits d))
      → spawn_outstanding db spawn_request_id run_id transition_id selection ≡ ok o
  unfolding spawn_outstanding or_invalid
  outstanding_from_sums db o h = rw (
      budget_amounts-pos (net mine db.budget_events) o
        (λ d. (unfold net in sub_ℕ-add _ _ _ (h d).0, (h d).1)))

-- The reservation `o` of a spawn, less `v`, is what is outstanding in `db'`, and it covers its price.
pub record Remains (spawn_request_id run_id transition_id : String) (selection : BudgetSelection)
    (v : BudgetAmounts) (db db' : Db) : Type 0 where
  pub before : BudgetAmounts
  pub after : BudgetAmounts
  pub price : ℕ
  pub outstanding_before :
      spawn_outstanding db spawn_request_id run_id transition_id selection ≡ ok before
  pub outstanding_after :
      spawn_outstanding db' spawn_request_id run_id transition_id selection ≡ ok after
  pub split : (d : Dimension) → getattr before d ≡ getattr v d + getattr after d
  pub priced : required_cost selection after ≡ ok price
  pub funded : price ≤ getattr after cost_microusd

leb-le : (a b : ℕ) → leb a b ≡ true → a ≤ b
leb-le a b h = ground arith

module _ (sp run tr : String) (selection : BudgetSelection) (v : BudgetAmounts) (p : EventPayload)
    (db db' : Db) (key : String) (n : ℕ) (t : EventType) (e1 : p.spawn_request_id ≡ some sp)
    (e2 : p.run_id ≡ run) (e3 : p.transition_id ≡ tr) (e4 : p.cost ≡ selection.binding)
    (type : p.event_type ≡ t) (carries : p.amounts ≡ v)
    (wrote : db'.budget_events ≡ event_row p key n none ∷ db.budget_events) where
  -- The sums after the event give the outstanding amounts after it.
  outstanding_after_event :
      (o rest : BudgetAmounts)
      → spawn_outstanding db sp run tr selection ≡ ok o
      → ((d : Dimension) → part adds t v d ≡ 0)
      → ((d : Dimension) → getattr o d ≡ part takes t v d + getattr rest d)
      → ((d : Dimension) → getattr rest d ≤ limits d)
      → spawn_outstanding db' sp run tr selection ≡ ok rest
  outstanding_after_event o rest before no_adds split small =
      outstanding_from_sums sp run tr selection db' rest λ d.
        let own = mine-row sp run tr selection p key n none e1 e2 e3 e4 in
        let sum = λ (counts : EventType → Dimension → Bool).
          ap (λ x. total counts d (mine sp run tr selection) x) wrote
          ∙ total-mine sp run tr selection counts d _ db.budget_events v t own type carries in
        (
          omega (
            arith,
            sum adds,
            sum takes,
            split d,
            no_adds d,
            outstanding_sums sp run tr selection db o before d,
          ),
          small d,
        )

released :
    (q : EventRequest) (p : EventPayload) (db db' : Db) (n : ℕ)
    → q.event_type ≡ release
    → p.spawn_request_id ≡ some q.spawn_request_id
    → p.run_id ≡ q.run_id
    → p.transition_id ≡ q.transition_id
    → p.cost ≡ q.selection.binding
    → p.event_type ≡ release
    → p.amounts ≡ q.amounts
    → check_reservation db q ≡ ok tt
    → db'.budget_events ≡ event_row p q.idempotency_key n none ∷ db.budget_events
    → Remains q.spawn_request_id q.run_id q.transition_id q.selection q.amounts db db'
unfolding check_reservation check_release
released q p db db' n q_type e1 e2 e3 e4 type carries reservation wrote =
    let (o, before, h1) = bind-ok _ _ (rw q_type at reservation) in
    let (u1, fits, h2) = bind-ok _ _ h1 in
    let (rest, remaining, h3) = bind-ok _ _ h2 in
    let (price, priced, h4) = bind-ok _ _ h3 in
    let accepted =
      budget_amounts-ok (λ d. sub_ℕ (getattr o d) (getattr q.amounts d)) rest remaining in
    record {
      before = o;
      after = rest;
      price = price;
      outstanding_before = before;
      outstanding_after =
          outstanding_after_event q.spawn_request_id q.run_id q.transition_id q.selection q.amounts
            p db db' q.idempotency_key n release e1 e2 e3 e4 type carries wrote o rest before
            (λ d. refl) (λ d. sub_ℕ-pos _ _ _ (accepted d).0) (λ d. (accepted d).1);
      split = λ d. sub_ℕ-pos _ _ _ (accepted d).0;
      priced = priced;
      funded = leb-le price rest.cost (require-ok _ _ h4);
    }

-- An accepted release takes exactly its amounts from what is outstanding for its spawn, and what
-- remains reserved still covers the registry's price of the tokens that remain reserved.
pub release_keeps_funded :
    (rt : Runtime) (engine : Engine) (request : EventRequest) (db : Db) (r : BudgetEventResult)
    (db' : Db)
    → request.event_type ≡ release
    → record_budget_event rt engine request db ≡ (ok r, db')
    → r.replayed ≡ false
    → (q : EventRequest) × (checked_request rt request ≡ ok q)
      × Remains q.spawn_request_id q.run_id q.transition_id q.selection q.amounts db db'
release_keeps_funded rt engine request db r db' type h new =
    let c = record_budget_event-Accepted rt engine request db r db' h new in
    let q_type : c.q.event_type ≡ release =
      (checked_request-ok rt request c.q c.checked).1 ∙ type in
    let payload = (admit_event-ok rt engine db c.q c.a c.admitted).payload in
    (
      c.q,
      c.checked,
      released c.q c.a.expected db db' c.fresh.number q_type (ap (λ p. p.spawn_request_id) payload)
          (ap (λ p. p.run_id) payload) (ap (λ p. p.transition_id) payload)
          (ap (λ p. p.cost) payload) (ap (λ p. p.event_type) payload ∙ q_type)
          (ap (λ p. p.amounts) payload) c.fresh.reservation
          (ap (λ (x : Db). x.budget_events) c.fresh.written.after),
    )

consume_part :
    (q : PostEventRequest) (d : Dimension)
    → check_post_amounts consume q ≡ ok tt
    → part takes consume q.amounts d ≡ getattr q.amounts d
unfolding check_post_amounts
consume_part q d h = let (u, none_other, h1) = bind-ok _ _ h in go d (require-ok _ _ none_other)
  where
    go :
        (d : Dimension)
        → (leb q.amounts.retry 0 && leb q.amounts.human 0) ≡ true
        → part takes consume q.amounts d ≡ getattr q.amounts d
    go time_seconds h = refl
    go input_tokens h = refl
    go output_tokens h = refl
    go cost_microusd h = refl
    go retry_units h = ground arith
    go human_attention_units h = ground arith

consumed :
    (q : PostEventRequest) (p : EventPayload) (db db' : Db) (n : ℕ)
    → q.event_type ≡ consume
    → p.spawn_request_id ≡ some q.spawn_request_id
    → p.run_id ≡ q.run_id
    → p.transition_id ≡ q.transition_id
    → p.cost ≡ q.selection.binding
    → p.event_type ≡ consume
    → p.amounts ≡ q.amounts
    → check_post_amounts consume q ≡ ok tt
    → check_outstanding db q ≡ ok tt
    → db'.budget_events ≡ event_row p q.idempotency_key n none ∷ db.budget_events
    → Remains q.spawn_request_id q.run_id q.transition_id q.selection q.amounts db db'
unfolding check_outstanding check_against_outstanding check_consume
consumed q p db db' n q_type e1 e2 e3 e4 type carries allowed reservation wrote =
    let (o, before, h0) = bind-ok _ _ reservation in
    let (u1, fits, h2) = bind-ok _ _ (rw q_type at h0) in
    let (rest, remaining, h3) = bind-ok _ _ h2 in
    let (price, priced, h4) = bind-ok _ _ h3 in
    let accepted =
      budget_amounts-ok (λ d. sub_ℕ (getattr o d) (getattr q.amounts d)) rest remaining in
    record {
      before = o;
      after = rest;
      price = price;
      outstanding_before = before;
      outstanding_after =
          outstanding_after_event q.spawn_request_id q.run_id q.transition_id q.selection q.amounts
            p db db' q.idempotency_key n consume e1 e2 e3 e4 type carries wrote o rest before
            (λ d. refl) (λ d. rw (consume_part q d allowed) (sub_ℕ-pos _ _ _ (accepted d).0))
            (λ d. (accepted d).1);
      split = λ d. sub_ℕ-pos _ _ _ (accepted d).0;
      priced = priced;
      funded = leb-le price rest.cost (require-ok _ _ h4);
    }

-- An accepted usage event takes exactly its amounts from what is outstanding for its spawn, and what
-- remains reserved still covers the registry's price of the tokens that remain reserved.
pub consume_keeps_funded :
    (rt : Runtime) (engine : Engine) (request : PostEventRequest) (db : Db) (r : BudgetEventResult)
    (db' : Db)
    → request.event_type ≡ consume
    → record_post_dispatch_event rt engine request db ≡ (ok r, db')
    → r.replayed ≡ false
    → (q : PostEventRequest) × (checked_post_request rt request ≡ ok q)
      × Remains q.spawn_request_id q.run_id q.transition_id q.selection q.amounts db db'
consume_keeps_funded rt engine request db r db' type h new =
    let c = record_post_dispatch_event-PostAccepted rt engine request db r db' h new in
    let (post, same_type, same_amounts, allowed) =
      checked_post_request-ok rt request c.q c.checked in
    let q_type : c.q.event_type ≡ consume = same_type ∙ type in
    let payload = (admit_post_event-ok rt engine db c.q c.a c.admitted).payload in
    (
      c.q,
      c.checked,
      consumed c.q c.a.expected db db' c.fresh.number q_type (ap (λ p. p.spawn_request_id) payload)
          (ap (λ p. p.run_id) payload) (ap (λ p. p.transition_id) payload)
          (ap (λ p. p.cost) payload) (ap (λ p. p.event_type) payload ∙ q_type)
          (ap (λ p. p.amounts) payload) (ap (λ t. check_post_amounts t c.q) (sym q_type) ∙ allowed)
          c.fresh.reservation (ap (λ (x : Db). x.budget_events) c.fresh.written.after),
    )
