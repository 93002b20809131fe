-- ===== src/Dispatch/Steps.antt =====
-- The statements of the dispatcher, as moves of the rows.
use openclaw_agentic_os.Prelude.{ℕ, String, Bool, true, false, ◌&&◌, ◌≡◌, refl}
use openclaw_agentic_os.Result.{Error, Result, ok, err}
use openclaw_agentic_os.Transaction.{Action, reads, ◌>>=◌, ◌>>◌, Keeps, then-Keeps, reads-kept}
use openclaw_agentic_os.Dispatch.Rows.{Db, Intent, IntentState, IntentIdentity, Lease}
use openclaw_agentic_os.Dispatch.World.{
  Platform, World, Clock, Outcome, now_utc, statement, restore, run_statement, exactly_one,
  immediate_transaction, call, raises,
}
use openclaw_agentic_os.Dispatch.Marks.{is_open, is_unsettled, update_leases}
use openclaw_agentic_os.Dispatch.Pending.{insert_intent}
use openclaw_agentic_os.Dispatch.Persist.{update_intents}
use openclaw_agentic_os.Dispatch.Flow.{try_else, continued}
use openclaw_agentic_os.Dispatch.Lifecycle.{
  IntentStep, Reach, IntentMoves, LeaseMoves, IntentMoves-refl, LeaseMoves-refl, new, Follows-refl,
  Follows-update_where, Evolves, Evolves-trans,
}

pub and_left : (p q : Bool) → (p && q) ≡ true → p ≡ true
and_left true q h = refl
and_left false q h = cc

pub and_right : (p q : Bool) → (p && q) ≡ true → q ≡ true
and_right true q h = h
and_right false q h = cc

pub open_unsettled : (s : IntentState) → is_open s ≡ true → is_unsettled s ≡ true
open_unsettled IntentState.pending h = refl
open_unsettled IntentState.unknown h = refl
open_unsettled IntentState.accepted h = cc
open_unsettled IntentState.failed h = cc
open_unsettled IntentState.reconciled h = cc
open_unsettled IntentState.human_review_required h = cc

-- One step of an intent that is not settled.
pub IntentMoves-step :
    (a b : Intent)
    → b.identity ≡ a.identity
    → is_unsettled a.state ≡ true
    → Reach IntentStep a.state b.state
    → IntentMoves a b
IntentMoves-step a b same unsettled steps = record {
  identity = same;
  states = steps;
  frozen = λ h. cc;
}

pub Evolves-intents :
    (selects : Intent → Bool) (set : Intent → Intent) (db : Db)
    → ((i : Intent) → selects i ≡ true → IntentMoves i (set i))
    → Evolves db (update_intents selects set db)
Evolves-intents selects set db moves = record {
  intents = Follows-update_where IntentMoves-refl selects set moves db.intents;
  leases = Follows-refl LeaseMoves-refl db.leases;
}

pub Evolves-leases :
    (selects : Lease → Bool) (set : Lease → Lease) (db : Db)
    → ((l : Lease) → selects l ≡ true → LeaseMoves l (set l))
    → Evolves db (update_leases selects set db)
Evolves-leases selects set db moves = record {
  intents = Follows-refl IntentMoves-refl db.intents;
  leases = Follows-update_where LeaseMoves-refl selects set moves db.leases;
}

pub Evolves-insert_intent :
    (identity : IntentIdentity) (db : Db) → Evolves db (insert_intent identity db)
Evolves-insert_intent identity db = record {
  intents = new (Follows-refl IntentMoves-refl db.intents);
  leases = Follows-refl LeaseMoves-refl db.leases;
}

-- What a table of another name holds is no part of the evolution.
pub Evolves-other :
    (before after : Db)
    → after.intents ≡ before.intents
    → after.leases ≡ before.leases
    → Evolves before after
Evolves-other before after e f = record {
  intents = rw e (Follows-refl IntentMoves-refl before.intents);
  leases = rw f (Follows-refl LeaseMoves-refl before.leases);
}

module _ {T S : Type 0} (start : Db) where
  -- The world has evolved from the database `start`.
  abbrev pub Since : World T S → Type 0
  Since w = Evolves start w.db

  pub now_utc-Since : (clock : Clock T) → Keeps Since (now_utc clock)
  unfolding now_utc
  now_utc-Since clock w h = h

  pub call-Since : (f : S → Outcome × S) → Keeps Since (call f)
  unfolding call
  call-Since f w h = h

  pub raises-Since : (A : Type 0) (e : Error) → Keeps Since (raises {A = A} e)
  unfolding raises
  raises-Since A e w h = h

  pub statement-Since :
      (platform : Platform) (change : Db → Db)
      → ((db : Db) → Evolves db (change db))
      → Keeps Since (statement platform change)
  unfolding statement
  statement-Since platform change moves w h = go (platform.admits w.db (change w.db))
    where
      go : (b : Bool) → Since (run_statement b (change w.db) w).1
      go true = Evolves-trans h (moves w.db)
      go false = h

  pub exactly_one-Since :
      (platform : Platform) (message : String) (count : Db → ℕ) (change : Db → Db)
      → ((db : Db) → Evolves db (change db))
      → Keeps Since (exactly_one platform message count change)
  unfolding exactly_one
  exactly_one-Since platform message count change moves =
      then-Keeps Since _ _ (reads-kept Since _)
        λ _. then-Keeps Since _ _ (statement-Since platform change moves) λ _. reads-kept Since _

  pub transaction-Since :
      {A : Type 0} (m : Action (World T S) A)
      → Keeps Since m
      → Keeps Since (immediate_transaction m)
  unfolding immediate_transaction
  transaction-Since {A} m keeps w h = go (m w).0 (m w).1 (keeps w h)
    where
      go : (r : Result A) (v : World T S) → Since v → Since (restore w.db r v).1
      go (ok a) v k = k
      go (err e) v k = h

  pub try_else-Since :
      {A B : Type 0} (m : Action (World T S) A) (rest : A → Action (World T S) B)
      (handler : Error → Action (World T S) B)
      → Keeps Since m
      → ((a : A) → Keeps Since (rest a))
      → ((e : Error) → Keeps Since (handler e))
      → Keeps Since (try_else m rest handler)
  unfolding try_else
  try_else-Since {A} {B} m rest handler first second third w h = go (m w).0 (m w).1 (first w h)
    where
      go : (r : Result A) (v : World T S) → Since v → Since (continued r rest handler v).1
      go (ok a) v k = second a v k
      go (err e) v k = third e v k

  -- The reading of the clock, a test, or a statement, and then the rest.
  pub clock_then :
      {A : Type 0} (clock : Clock T) (rest : ℕ → Action (World T S) A)
      → ((n : ℕ) → Keeps Since (rest n))
      → Keeps Since (now_utc clock >>= rest)
  clock_then clock rest = then-Keeps Since _ _ (now_utc-Since clock)

  pub reads_then :
      {A B : Type 0} (g : World T S → Result A) (rest : A → Action (World T S) B)
      → ((a : A) → Keeps Since (rest a))
      → Keeps Since (reads g >>= rest)
  reads_then g rest = then-Keeps Since _ _ (reads-kept Since g)

  pub statement_then :
      {A : Type 0} (platform : Platform) (change : Db → Db) (rest : Action (World T S) A)
      → ((db : Db) → Evolves db (change db))
      → Keeps Since rest
      → Keeps Since (statement platform change >> rest)
  statement_then platform change rest moves keeps =
      then-Keeps Since _ _ (statement-Since platform change moves) λ _. keeps
