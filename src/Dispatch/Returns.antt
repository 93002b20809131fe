-- ===== src/Dispatch/Returns.antt =====
-- What holds where an action of the dispatcher returns.
use openclaw_agentic_os.Prelude.{
  ℕ, String, Bool, true, false, ◌≡◌, refl, sym, ap, ◌∙◌, if◌then◌else◌, same, eq_of_same,
  ℕ_discrete,
}
use openclaw_agentic_os.Result.{Error, Result, ok, err, require-ok}
use openclaw_agentic_os.Transaction.{
  Action, reads, ◌>>=◌, ◌>>◌, then-ok, reads-ok, Keeps, returns, returns-ok,
}
use openclaw_agentic_os.Dispatch.Rows.{Db}
use openclaw_agentic_os.Dispatch.World.{
  Platform, World, immediate_transaction, restore, statement, run_statement, exactly_one, raises,
}
use openclaw_agentic_os.Dispatch.Flow.{continued, try_else}

-- Where an action returns, the value and the state satisfy this.
abbrev pub Ensures : {S A : Type 0} → (A → S → Type 0) → Action S A → Type 0
Ensures {S} {A} Q m = (s t : S) (a : A) → m s ≡ (ok a, t) → Q a t

module _ {T S : Type 0} where
  pub then-Ensures :
      {A B : Type 0} (Q : B → World T S → Type 0) (m : Action (World T S) A)
      (f : A → Action (World T S) B)
      → ((a : A) → Ensures Q (f a))
      → Ensures Q (m >>= f)
  then-Ensures Q m f k s t b h = k (then-ok m f s h).0 (then-ok m f s h).1 t b (then-ok m f s h).3

  pub raises-Ensures : {A : Type 0} (Q : A → World T S → Type 0) (e : Error) → Ensures Q (raises e)
  unfolding raises
  raises-Ensures Q e s t a h = cc

  pub if-Ensures :
      {A : Type 0} (Q : A → World T S → Type 0) (b : Bool) (m n : Action (World T S) A)
      → Ensures Q m
      → Ensures Q n
      → Ensures Q (if b then m else n)
  if-Ensures Q true m n first second = first
  if-Ensures Q false m n first second = second

  pub transaction-ok :
      {A : Type 0} (m : Action (World T S) A) (s t : World T S) (a : A)
      → immediate_transaction m s ≡ (ok a, t)
      → m s ≡ (ok a, t)
  unfolding immediate_transaction
  transaction-ok {A} m s t a h = go (m s).0 (m s).1 h
    where
      go :
          (r : Result A) (v : World T S)
          → restore s.db r v ≡ (ok a, t)
          → ◌≡◌ {A = Result A × World T S} (r, v) (ok a, t)
      go (ok b) v e = e
      go (err x) v e = cc

  pub try_else-Ensures :
      {A B : Type 0} (Q : B → World T S → Type 0) (m : Action (World T S) A)
      (rest : A → Action (World T S) B) (handler : Error → Action (World T S) B)
      → ((a : A) (s t : World T S)
          → m s ≡ (ok a, t)
          → (u : World T S) (b : B) → rest a t ≡ (ok b, u)
          → Q b u)
      → ((e : Error) → Ensures Q (handler e))
      → Ensures Q (try_else m rest handler)
  unfolding try_else
  try_else-Ensures {A} {B} Q m rest handler first second s t b h = go (m s).0 (m s).1 refl h
    where
      go :
          (r : Result A) (v : World T S)
          → m s ≡ (r, v)
          → continued r rest handler v ≡ (ok b, t)
          → Q b t
      go (ok a) v e k = first a s v e t b k
      go (err x) v e k = second x v t b k

  pub statement-ok :
      (platform : Platform) (change : Db → Db) (w v : World T S) (u : Unit {0})
      → statement platform change w ≡ (ok u, v)
      → v.db ≡ change w.db
  unfolding statement
  statement-ok platform change w v u h = go (platform.admits w.db (change w.db)) h
    where
      go : (b : Bool) → run_statement b (change w.db) w ≡ (ok u, v) → v.db ≡ change w.db
      go true e = ap (λ p. p.1.db) (sym e)
      go false e = cc

  pub exactly_one-ok :
      (platform : Platform) (message : String) (count : Db → ℕ) (change : Db → Db) (w v : World T S)
      (u : Unit {0})
      → exactly_one platform message count change w ≡ (ok u, v)
      → (count w.db ≡ 1) × (v.db ≡ change w.db)
  unfolding exactly_one reads
  exactly_one-ok platform message count change w v u h =
      let counted = reads-ok _ _ w h in
      let written = then-ok _ _ w counted.2 in
      let tested = sym (ap (λ p. p.1) written.3) in
      (
        ap_count counted.0 (count w.db) counted.1 (require-ok _ _ (ap (λ p. p.0) written.3)),
        ap (λ (x : World T S). x.db) tested
            ∙ statement-ok platform change w written.1 written.0 written.2,
      )
    where
      ap_count :
          (rows n : ℕ) → ◌≡◌ {A = Result ℕ} (ok n) (ok rows) → same ℕ_discrete rows 1 ≡ true → n ≡ 1
      ap_count rows n e h =
          let same_rows : n ≡ rows = cc in same_rows ∙ eq_of_same ℕ_discrete rows 1 h

pub exactly_one-Ensures :
    {T S : Type 0} (P : Db → Type 0) (platform : Platform) (message : String) (count : Db → ℕ)
    (change : Db → Db)
    → ((db : Db) → count db ≡ 1 → P (change db))
    → Ensures {S = World T S} (λ _ v. P v.db) (exactly_one platform message count change)
exactly_one-Ensures P platform message count change wrote s t u h =
    rw ((exactly_one-ok platform message count change s t u h).1)
      (wrote s.db (exactly_one-ok platform message count change s t u h).0)

-- An action that keeps a property has kept it where it returned.
pub kept_on_return :
    {S A : Type 0} (P : S → Type 0) (m : Action S A) (s t : S) (a : A)
    → Keeps P m
    → m s ≡ (ok a, t)
    → P s
    → P t
kept_on_return P m s t a keeps h before = rw (sym (ap (λ p. p.1) h)) (keeps s before)

-- What the first action establishes, and the rest keeps.
pub established-Ensures :
    {S A B : Type 0} (P : S → Type 0) (m : Action S A) (rest : A → Action S B)
    → Ensures (λ _ v. P v) m
    → ((a : A) → Keeps P (rest a))
    → Ensures (λ _ v. P v) (m >>= rest)
established-Ensures P m rest first keeps s t b h =
    kept_on_return P (rest (then-ok m rest s h).0) (then-ok m rest s h).1 t b
      (keeps (then-ok m rest s h).0) (then-ok m rest s h).3
      (first s (then-ok m rest s h).1 (then-ok m rest s h).0 (then-ok m rest s h).2)

pub returns-Ensures :
    {S A : Type 0} (Q : A → S → Type 0) (a b : A) (s t : S)
    → returns a s ≡ (ok b, t)
    → Q a s
    → Q b t
returns-Ensures {S} {A} Q a b s t h = go b t (returns-ok a b s t h).0 (returns-ok a b s t h).1
  where
    go : (b : A) (t : S) → a ≡ b → s ≡ t → Q a s → Q b t
    go b t e f h = rw (sym e) (rw (sym f) h)

pub committed-Ensures :
    {T S A : Type 0} (Q : A → World T S → Type 0) (m : Action (World T S) (Unit {0})) (a : A)
    → Ensures (λ _ v. Q a v) m
    → Ensures Q (immediate_transaction m >> returns a)
committed-Ensures Q m a first s t b h =
    let done = then-ok (immediate_transaction m) (λ _. returns a) s h in
    returns-Ensures Q a b done.1 t done.3
      (first s done.1 done.0 (transaction-ok m s done.1 done.0 done.2))
