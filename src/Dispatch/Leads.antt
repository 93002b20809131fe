-- ===== src/Dispatch/Leads.antt =====
-- Where an action leads the adapter, stage by stage.
use openclaw_agentic_os.Prelude.{Bool, true, false, ◌≡◌, refl, if◌then◌else◌}
use openclaw_agentic_os.Result.{Error, Result, ok, err}
use openclaw_agentic_os.Transaction.{Action, reads, ◌>>=◌, continue, Keeps}
use openclaw_agentic_os.Dispatch.World.{World, Outcome, call}
use openclaw_agentic_os.Dispatch.Flow.{continued, try_else}
use openclaw_agentic_os.Dispatch.Local.{Local}

-- From a state of the adapter, an action leads to states of which Q holds.
abbrev pub Leads : {T S A : Type 0} → S → (S → Type 0) → Action (World T S) A → Type 0
Leads {T} {S} s Q m = (w : World T S) → w.outside ≡ s → Q (m w).1.outside

module _ {T S : Type 0} (s : S) (Q : S → Type 0) where
  pub Local-Leads : {A : Type 0} (m : Action (World T S) A) → Keeps (Local s) m → Q s → Leads s Q m
  Local-Leads m keeps before w h = rw (keeps w h) before

  pub then-Leads :
      {A B : Type 0} (m : Action (World T S) A) (rest : A → Action (World T S) B)
      → Keeps (Local s) m
      → Q s
      → ((a : A) → Leads s Q (rest a))
      → Leads s Q (m >>= rest)
  unfolding ◌>>=◌
  then-Leads {A} m rest keeps before leads w h = go (m w).0 (m w).1 (keeps w h)
    where
      go : (r : Result A) (v : World T S) → v.outside ≡ s → Q (continue r rest v).1.outside
      go (ok a) v e = leads a v e
      go (err x) v e = rw e before

  pub try_else-Leads :
      {A B : Type 0} (m : Action (World T S) A) (rest : A → Action (World T S) B)
      (handler : Error → Action (World T S) B)
      → Keeps (Local s) m
      → ((a : A) → Leads s Q (rest a))
      → ((e : Error) → Leads s Q (handler e))
      → Leads s Q (try_else m rest handler)
  unfolding try_else
  try_else-Leads {A} m rest handler keeps leads handles w h = go (m w).0 (m w).1 (keeps w h)
    where
      go : (r : Result A) (v : World T S) → v.outside ≡ s → Q (continued r rest handler v).1.outside
      go (ok a) v e = leads a v e
      go (err x) v e = handles x v e

  -- The same where the test reads nothing, with what it found.
  pub tested-Leads :
      {A B : Type 0} (r : Result A) (rest : A → Action (World T S) B)
      (handler : Error → Action (World T S) B)
      → ((a : A) → r ≡ ok a → Leads s Q (rest a))
      → ((e : Error) → Leads s Q (handler e))
      → Leads s Q (try_else (reads (λ w. r)) rest handler)
  unfolding try_else reads
  tested-Leads {A} r rest handler leads handles w h = go r refl
    where
      go : (x : Result A) → r ≡ x → Q (continued x rest handler w).1.outside
      go (ok a) e = leads a e w h
      go (err x) e = handles x w h

  -- What follows calls nothing.
  pub then-Local-Leads :
      {A B : Type 0} (m : Action (World T S) A) (rest : A → Action (World T S) B)
      (handler : Error → Action (World T S) B)
      → Leads s Q m
      → ((a : A) (t : S) → Keeps (Local t) (rest a))
      → ((e : Error) (t : S) → Keeps (Local t) (handler e))
      → Leads s Q (try_else m rest handler)
  unfolding try_else
  then-Local-Leads {A} m rest handler first second third w h = go (m w).0 (m w).1 (first w h)
    where
      go : (r : Result A) (v : World T S) → Q v.outside → Q (continued r rest handler v).1.outside
      go (ok a) v before = rw (second a v.outside v refl) before
      go (err x) v before = rw (third x v.outside v refl) before

  pub if-Leads :
      {A : Type 0} (b : Bool) (m n : Action (World T S) A)
      → Leads s Q m
      → Leads s Q n
      → Leads s Q (if b then m else n)
  if-Leads true m n first second = first
  if-Leads false m n first second = second

  pub call-Leads :
      {A : Type 0} (f : S → Outcome × S) (rest : Outcome → Action (World T S) A)
      → ((o : Outcome) → (f s).0 ≡ o → Leads (f s).1 Q (rest o))
      → Leads s Q (call f >>= rest)
  unfolding call ◌>>=◌
  call-Leads f rest leads w h = go w.outside h
    where
      go : (t : S) → t ≡ s → Q (rest (f t).0 (record w { outside = (f t).1 })).1.outside
      go t e = rw e (leads (f s).0 refl (record w { outside = (f s).1 }) refl)
