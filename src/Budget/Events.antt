-- ===== src/Budget/Events.antt =====
-- What every mutation does with `budget_events` and `budget_settlements`: replay lookups, collision
-- tests, sequence numbers and inserts (src/agentic_os/budgets.py, lines 478 to 545 and 774 to 798).
use Prim.Native.Nat.{max}
use openclaw_agentic_os.Prelude.{
  ℕ, ◌+◌, String, Bool, true, ◌&&◌, not, Option, none, some, List, [], ◌∷◌, leb, same, ◌=ₜ◌, any,
  find, ◌≡◌, arith, ◌≤◌, Bool-cases, inl, inr, text_self, if◌then◌else◌,
}
use openclaw_agentic_os.Result.{
  Result, ok, err, budget_conflict, budget_exceeded, ◌>>=◌, ◌>>◌, require,
}
use openclaw_agentic_os.Transaction.{Action, write_if, write_if-ok}
use openclaw_agentic_os.Budget.Tables.{
  Db, BudgetEvent, EventPayload, Settlement, EventPayload-discrete,
}
use openclaw_agentic_os.Budget.Ledger.{Engine}

abbrev pub max_event_sequence : ℕ
max_event_sequence = 1_000_000

pub record BudgetEventResult : Type 0 where
  pub budget_event_id : String
  pub event_sequence : ℕ
  pub replayed : Bool

abbrev replay_of : EventPayload → Option BudgetEvent → Result (Option BudgetEventResult)
replay_of expected none = ok none
replay_of expected (some e) =
    if same EventPayload-discrete e.payload expected
    then ok (
        some (record {
          budget_event_id = e.payload.budget_event_id;
          event_sequence = e.event_sequence;
          replayed = true;
        }))
    else err (budget_conflict "budget event idempotency key was reused with another payload")

unfoldable pub existing_event : Db → String → EventPayload → Result (Option BudgetEventResult)
unfolding EventPayload-discrete
existing_event db idempotency_key expected =
    replay_of expected (find (λ e. e.event_idempotency_key =ₜ idempotency_key) db.budget_events)

unfoldable pub reject_settlement_dedupe_collision : Db → String → Result (Unit {0})
reject_settlement_dedupe_collision db event_dedupe_hash =
    require
      (not (any (λ s. s.payload.settlement_dedupe_hash =ₜ event_dedupe_hash) db.budget_settlements))
      (budget_conflict "dedupe key was already used by a final settlement")

unfoldable pub reject_event_dedupe_collision : Db → String → Result (Unit {0})
reject_event_dedupe_collision db settlement_dedupe_hash =
    require
      (not (any (λ e. e.payload.event_dedupe_hash =ₜ settlement_dedupe_hash) db.budget_events))
      (budget_conflict "settlement dedupe key was already used by a budget event")

-- The settlement of one spawn.
unfoldable pub settles : String → String → String → Settlement → Bool
settles run_id transition_id spawn_request_id s =
    (s.payload.run_id =ₜ run_id)
    && (s.payload.transition_id =ₜ transition_id)
    && (s.payload.spawn_request_id =ₜ spawn_request_id)

unfoldable pub reject_event_after_final_settlement :
    Db → String → String → String → Result (Unit {0})
unfolding settles
reject_event_after_final_settlement db run_id transition_id spawn_request_id =
    require (not (any (settles run_id transition_id spawn_request_id) db.budget_settlements))
      (budget_conflict "final settlement is terminal for this spawn budget ledger")

-- COALESCE(MAX(event_sequence),0)
unfoldable pub last_sequence : String → List BudgetEvent → ℕ
last_sequence run_id [] = 0
last_sequence run_id (e ∷ es) =
    let rest = last_sequence run_id es in
    if e.payload.run_id =ₜ run_id then max e.event_sequence rest else rest

unfoldable pub next_sequence : Db → String → Result ℕ
unfolding last_sequence
next_sequence db run_id = do
  let sequence = last_sequence run_id db.budget_events + 1
  require (leb 1 sequence && leb sequence max_event_sequence)
      (budget_exceeded "budget event sequence limit reached")
  ok sequence

unfoldable pub insert_event : Engine → BudgetEvent → Action Db Unit
unfolding write_if
insert_event engine e db =
    write_if (engine.admits_event db e) (budget_conflict "budget event violates ledger contract")
      (record db { budget_events = e ∷ db.budget_events }) db

unfoldable pub insert_settlement : Engine → Settlement → Action Db Unit
unfolding write_if
insert_settlement engine s db =
    write_if (engine.admits_settlement db s)
      (budget_conflict "final settlement violates ledger contract")
      (record db { budget_settlements = s ∷ db.budget_settlements }) db

pub insert_event-ok :
    (engine : Engine) (e : BudgetEvent) (db db' : Db) {u : Unit {0}}
    → insert_event engine e db ≡ (ok u, db')
    → db' ≡ record db { budget_events = e ∷ db.budget_events }
unfolding insert_event
insert_event-ok engine e db db' h = (write_if-ok _ _ _ db db' h).1

pub insert_settlement-ok :
    (engine : Engine) (s : Settlement) (db db' : Db) {u : Unit {0}}
    → insert_settlement engine s db ≡ (ok u, db')
    → db' ≡ record db { budget_settlements = s ∷ db.budget_settlements }
unfolding insert_settlement
insert_settlement-ok engine s db db' h = (write_if-ok _ _ _ db db' h).1

-- The number of the next event is above those of the run's events, and within the limit.
pub next_sequence-ok :
    (db : Db) (run_id : String) (n : ℕ)
    → next_sequence db run_id ≡ ok n
    → (n ≡ last_sequence run_id db.budget_events + 1) × (n ≤ max_event_sequence)
unfolding next_sequence
next_sequence-ok db run_id n h = unfold ◌>>=◌ in ground arith

replay_of-replayed :
    (expected : EventPayload) (o : Option BudgetEvent) (r : BudgetEventResult)
    → replay_of expected o ≡ ok (some r)
    → r.replayed ≡ true
replay_of-replayed expected none r h = cc
replay_of-replayed expected (some e) r h =
    elim (Bool-cases (same EventPayload-discrete e.payload expected)) [
      | inl eq ↦ ground arith
      | inr ne ↦ ground arith
    ]

pub existing_event-replayed :
    (db : Db) (idempotency_key : String) (expected : EventPayload) (r : BudgetEventResult)
    → existing_event db idempotency_key expected ≡ ok (some r)
    → r.replayed ≡ true
unfolding existing_event
existing_event-replayed db idempotency_key expected r h = replay_of-replayed expected _ r h

pub last_sequence-cons :
    (run_id : String) (e : BudgetEvent) (es : List BudgetEvent)
    → e.payload.run_id ≡ run_id
    → e.event_sequence ≡ last_sequence run_id es + 1
    → last_sequence run_id (e ∷ es) ≡ e.event_sequence
unfolding last_sequence
last_sequence-cons run_id e es here next =
    let own : (e.payload.run_id =ₜ run_id) ≡ true = rw here (text_self run_id) in
    rw own (omega arith)
