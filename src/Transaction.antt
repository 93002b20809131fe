-- ===== src/Transaction.antt =====
-- `BEGIN IMMEDIATE` … `COMMIT` / `ROLLBACK` around a chain of statements: what a statement has
-- written stays written when a later one raises, until the transaction rolls back.
use openclaw_agentic_os.Prelude.{◌≡◌, refl, sym, ap, Bool, true, false}
use openclaw_agentic_os.Result.{Error, Result, ok, err}

-- An action on the database: it leaves a state whether it returns or raises.
abbrev pub Action : Type 0 → Type 0 → Type 0
Action S A = S → Result A × S

abbrev pub continue : {S A B : Type 0} → Result A → (A → Action S B) → S → Result B × S
continue (ok a) f s = f a s
continue (err e) f s = (err e, s)

module _ {S A : Type 0} where
  unfoldable pub returns : A → Action S A
  returns a s = (ok a, s)

  -- Code that reads the database and writes nothing.
  unfoldable pub reads : (S → Result A) → Action S A
  reads f s = (f s, s)

infixl 5 ◌>>=◌ ◌>>◌
-- Opening this opens `returns` and `reads` too.
unfoldable pub ◌>>=◌ : {S A B : Type 0} → Action S A → (A → Action S B) → Action S B
unfolding returns reads
◌>>=◌ m f s = continue (m s).0 f (m s).1

abbrev pub ◌>>◌ : {S B : Type 0} → Action S (Unit {0}) → Action S B → Action S B
m >> k = m >>= λ _. k

settle : {S A : Type 0} → S → Result A → S → Result A × S
settle before (ok a) after = (ok a, after)
settle before (err e) after = (err e, before)

module _ {S A : Type 0} where
  -- `COMMIT` when the body returns; `except Exception: ROLLBACK; raise` when it raises.
  unfoldable pub transact : Action S A → Action S A
  unfolding settle
  transact m s = settle s (m s).0 (m s).1

  -- What a transaction that returned did is what its body did.
  pub transact-ok : (m : Action S A) (s t : S) (a : A) → transact m s ≡ (ok a, t) → m s ≡ (ok a, t)
  unfolding transact
  transact-ok m s t a h = go (m s).0 (m s).1 h
    where
      go :
          (r : Result A) (u : S)
          → settle s r u ≡ (ok a, t)
          → ◌≡◌ {A = Result A × S} (r, u) (ok a, t)
      go (ok b) u e = e
      go (err x) u e = cc

-- A statement that writes, unless a constraint or a trigger refuses it.
unfoldable pub write_if : {S : Type 0} → Bool → Error → S → Action S (Unit {0})
write_if true e after s = (ok tt, after)
write_if false e after s = (err e, s)

pub write_if-ok :
    {S : Type 0} (b : Bool) (e : Error) (after s t : S) {u : Unit {0}}
    → write_if b e after s ≡ (ok u, t)
    → (b ≡ true) × (t ≡ after)
unfolding write_if
write_if-ok true e after s t h = (refl, ap (λ p. p.1) (sym h))
write_if-ok false e after s t h = cc

-- Inversion of a chain of actions that returned.
pub then-ok :
    {S A B : Type 0} (m : Action S A) (f : A → Action S B) (s : S) {t : S} {b : B}
    → (m >>= f) s ≡ (ok b, t)
    → (a : A) × (u : S) × (m s ≡ (ok a, u)) × (f a u ≡ (ok b, t))
unfolding ◌>>=◌
then-ok {S} {A} {B} m f s {t} {b} h = go (m s).0 (m s).1 refl h
  where
    go :
        (r : Result A) (u : S)
        → m s ≡ (r, u)
        → continue r f u ≡ (ok b, t)
        → (a : A) × (v : S) × (m s ≡ (ok a, v)) × (f a v ≡ (ok b, t))
    go (ok a) u e q = (a, u, e, q)
    go (err x) u e q = cc

-- The same where the first action only reads.
pub reads-ok :
    {S A B : Type 0} (g : S → Result A) (f : A → Action S B) (s : S) {t : S} {b : B}
    → (reads g >>= f) s ≡ (ok b, t)
    → (a : A) × (g s ≡ ok a) × (f a s ≡ (ok b, t))
unfolding ◌>>=◌
reads-ok {S} {A} {B} g f s {t} {b} h = go (g s) refl h
  where
    go :
        (r : Result A)
        → g s ≡ r
        → continue r f s ≡ (ok b, t)
        → (a : A) × (g s ≡ ok a) × (f a s ≡ (ok b, t))
    go (ok a) e q = (a, e, q)
    go (err x) e q = cc

pub returns-ok : {S A : Type 0} (a b : A) (s t : S) → returns a s ≡ (ok b, t) → (a ≡ b) × (s ≡ t)
unfolding returns
returns-ok a b s t h = (cc h, ap (λ p. p.1) h)

-- A property that holds before a transaction holds after it, if the body establishes it on return.
pub transact-keeps :
    {S A : Type 0} (P : S → Type 0) (m : Action S A) (s : S)
    → P s
    → ((a : A) (t : S) → m s ≡ (ok a, t) → P t)
    → P (transact m s).1
unfolding transact
transact-keeps {S} {A} P m s before keep = go (m s).0 (m s).1 refl
  where
    go : (r : Result A) (t : S) → m s ≡ (r, t) → P (settle s r t).1
    go (ok a) t e = keep a t e
    go (err x) t e = before

-- The same for an action that reads first.
pub reads-keeps :
    {S A B : Type 0} (P : S → Type 0) (g : S → Result A) (f : A → Action S B) (s : S)
    → P s
    → ((a : A) → g s ≡ ok a → P (f a s).1)
    → P ((reads g >>= f) s).1
unfolding ◌>>=◌
reads-keeps {S} {A} P g f s before keep = go (g s) refl
  where
    go : (r : Result A) → g s ≡ r → P (continue r f s).1
    go (ok a) e = keep a e
    go (err x) e = before

-- An action that keeps a property of the state, whether it returns or raises.
abbrev pub Keeps : {S A : Type 0} → (S → Type 0) → Action S A → Type 0
Keeps {S} P m = (s : S) → P s → P (m s).1

pub then-Keeps :
    {S A B : Type 0} (P : S → Type 0) (m : Action S A) (f : A → Action S B)
    → Keeps P m
    → ((a : A) → Keeps P (f a))
    → Keeps P (m >>= f)
unfolding ◌>>=◌
then-Keeps {S} {A} P m f first next s before = go (m s).0 (m s).1 (first s before)
  where
    go : (r : Result A) (t : S) → P t → P (continue r f t).1
    go (ok a) t p = next a t p
    go (err e) t p = p

pub reads-kept : {S A : Type 0} (P : S → Type 0) (g : S → Result A) → Keeps P (reads g)
unfolding reads
reads-kept P g s before = before

pub returns-kept : {S A : Type 0} (P : S → Type 0) (a : A) → Keeps P (returns a)
unfolding returns
returns-kept P a s before = before
