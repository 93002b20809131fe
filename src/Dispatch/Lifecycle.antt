-- ===== src/Dispatch/Lifecycle.antt =====
-- The abstract life of an intent and of a lease, and the tables whose rows live by it.
use openclaw_agentic_os.Prelude.{
  String, Bool, true, false, ◌≡◌, refl, ap, ◌∙◌, some, List, [], ◌∷◌, if◌then◌else◌,
}
use openclaw_agentic_os.Dispatch.Rows.{Db, Intent, IntentState, Lease, LeaseState}
use openclaw_agentic_os.Dispatch.World.{update_where}
use openclaw_agentic_os.Dispatch.Marks.{is_open, is_unsettled}

-- The steps that an intent may take: an open one is accepted, reconciled or lost from sight, and one
-- that is not settled may be handed to a human.
pub data IntentStep : IntentState → IntentState → Type 0 where
  accept : {s : IntentState} → is_open s ≡ true → IntentStep s IntentState.accepted
  reconcile : {s : IntentState} → is_open s ≡ true → IntentStep s IntentState.reconciled
  lose : {s : IntentState} → is_open s ≡ true → IntentStep s IntentState.unknown
  review :
      {s : IntentState} → is_unsettled s ≡ true → IntentStep s IntentState.human_review_required

-- A lease that may still be handed to a human.
abbrev pub is_reviewable : LeaseState → Bool
is_reviewable LeaseState.acquired = false
is_reviewable LeaseState.released = false
is_reviewable LeaseState.human_review_required = false
is_reviewable _ = true

pub data LeaseStep : LeaseState → LeaseState → Type 0 where
  acquire : LeaseStep LeaseState.acquire_pending LeaseState.acquired
  expire : LeaseStep LeaseState.acquired LeaseState.expired
  prepare : LeaseStep LeaseState.acquired LeaseState.release_pending
  release : LeaseStep LeaseState.release_pending LeaseState.released
  review : {s : LeaseState} → is_reviewable s ≡ true → LeaseStep s LeaseState.human_review_required

-- The steps of an automaton, one after another.
pub data Reach {A : Type 0} (R : A → A → Type 0) (a : A) : A → Type 0 where
  here : Reach R a a
  next : {b c : A} → Reach R a b → R b c → Reach R a c

Reach-trans :
    {A : Type 0} {R : A → A → Type 0} {a b c : A} → Reach R a b → Reach R b c → Reach R a c
Reach-trans first here = first
Reach-trans first (next more step) = next (Reach-trans first more) step

-- What may become of an intent's row: its request stays, its state takes steps of the automaton, and
-- a settled row does not change at all.
pub record IntentMoves (a b : Intent) : Type 0 where
  pub identity : b.identity ≡ a.identity
  pub states : Reach IntentStep a.state b.state
  pub frozen : is_unsettled a.state ≡ false → b ≡ a

-- What may become of a lease's row: its request stays, its state takes steps of the automaton, and
-- its gateway identity, once known, stays.
pub record LeaseMoves (a b : Lease) : Type 0 where
  pub identity : b.identity ≡ a.identity
  pub states : Reach LeaseStep a.state b.state
  pub held : (g : String) → a.gateway_lease_id ≡ some g → b.gateway_lease_id ≡ some g

pub IntentMoves-refl : (a : Intent) → IntentMoves a a
IntentMoves-refl a = record { identity = refl; states = here; frozen = λ _. refl }

IntentMoves-trans : (a b c : Intent) → IntentMoves a b → IntentMoves b c → IntentMoves a c
IntentMoves-trans a b c p q = record {
  identity = q.identity ∙ p.identity;
  states = Reach-trans p.states q.states;
  frozen = λ h. q.frozen (ap (λ (x : Intent). is_unsettled x.state) (p.frozen h) ∙ h) ∙ p.frozen h;
}

pub LeaseMoves-refl : (a : Lease) → LeaseMoves a a
LeaseMoves-refl a = record { identity = refl; states = here; held = λ g h. h }

LeaseMoves-trans : (a b c : Lease) → LeaseMoves a b → LeaseMoves b c → LeaseMoves a c
LeaseMoves-trans a b c p q = record {
  identity = q.identity ∙ p.identity;
  states = Reach-trans p.states q.states;
  held = λ g h. q.held g (p.held g h);
}

-- A table after a while: each row has moved, and new rows stand in front.
pub data Follows {A : Type 0} (R : A → A → Type 0) : List A → List A → Type 0 where
  done : Follows R [] []
  row : {a b : A} {xs ys : List A} → R a b → Follows R xs ys → Follows R (a ∷ xs) (b ∷ ys)
  new : {b : A} {xs ys : List A} → Follows R xs ys → Follows R xs (b ∷ ys)

module _ {A : Type 0} {R : A → A → Type 0} where
  pub Follows-refl : ((a : A) → R a a) → (xs : List A) → Follows R xs xs
  Follows-refl r [] = done
  Follows-refl r (x ∷ xs) = row (r x) (Follows-refl r xs)

  Follows-trans :
      ((a b c : A) → R a b → R b c → R a c)
      → {ys zs : List A} → Follows R ys zs
      → {xs : List A} → Follows R xs ys
      → Follows R xs zs
  Follows-trans t done f = f
  Follows-trans t (row s g) (row r f) = row (t _ _ _ r s) (Follows-trans t g f)
  Follows-trans t (row s g) (new f) = new (Follows-trans t g f)
  Follows-trans t (new g) f = new (Follows-trans t g f)

  -- An UPDATE moves the rows that its WHERE selects.
  pub Follows-update_where :
      ((a : A) → R a a)
      → (selects : A → Bool) (set : A → A) → ((a : A) → selects a ≡ true → R a (set a))
      → (xs : List A) → Follows R xs (update_where selects set xs)
  unfolding update_where
  Follows-update_where r selects set moves [] = done
  Follows-update_where r selects set moves (x ∷ xs) =
      row (go (selects x) refl) (Follows-update_where r selects set moves xs)
    where
      go : (b : Bool) → selects x ≡ b → R x (if b then set x else x)
      go true e = moves x e
      go false e = r x

-- The database after a while.
pub record Evolves (before after : Db) : Type 0 where
  pub intents : Follows IntentMoves before.intents after.intents
  pub leases : Follows LeaseMoves before.leases after.leases

pub Evolves-refl : (db : Db) → Evolves db db
Evolves-refl db = record {
  intents = Follows-refl IntentMoves-refl db.intents;
  leases = Follows-refl LeaseMoves-refl db.leases;
}

pub Evolves-trans : {a b c : Db} → Evolves a b → Evolves b c → Evolves a c
Evolves-trans p q = record {
  intents = Follows-trans IntentMoves-trans q.intents p.intents;
  leases = Follows-trans LeaseMoves-trans q.leases p.leases;
}
