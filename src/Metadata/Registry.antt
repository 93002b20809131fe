-- ===== src/Metadata/Registry.antt =====
-- The dictionaries of the dispatch probe: which intent owns an external identity
-- (src/agentic_os/metadata_dispatch.py, lines 309 to 341 and 386 to 400).
use openclaw_agentic_os.Prelude.{
  String, Bool, true, false, ◌≡◌, refl, sym, ap, ◌∙◌, Option, none, some, ◌=ₜ◌, same, Table, put,
  eq_of_same, eq_of_text, text_self, if◌then◌else◌,
}
use openclaw_agentic_os.Result.{Result, ok, metadata_error, require, ◌>>◌, bind-ok, require-ok}

-- `_lease_by_acquire_key` and `_lease_by_gateway_id`, or `_session_by_spawn_key` and
-- `_session_intent_by_key`.
pub record Bindings (I : Type 0) : Type 0 where
  pub by_key : Table (I × String)
  pub owner : Table I

module _ {I : Type 0} (d : Discrete I) (key : I → String) where
  -- `prior is not None and prior[0] != intent`
  unfoldable pub preflight : String → Option (I × String) → I → Result (Unit {0})
  preflight message none intent = ok tt
  preflight message (some (prior, _)) intent =
      require (same d prior intent) (metadata_error message)

  check_prior : String → String → Option (I × String) → I → String → Result (Unit {0})
  check_prior changed different none intent identity = ok tt
  check_prior changed different (some (prior, prior_identity)) intent identity = do
    require (same d prior intent) (metadata_error changed)
    require (prior_identity =ₜ identity) (metadata_error different)

  check_owner : String → Option I → I → Result (Unit {0})
  check_owner bound none intent = ok tt
  check_owner bound (some held) intent = require (same d held intent) (metadata_error bound)

  unfoldable pub remember : String → String → String → I → String → Bindings I → Result (Bindings I)
  unfolding check_prior check_owner
  remember changed different bound intent identity b = do
    check_prior changed different (b.by_key (key intent)) intent identity
    check_owner bound (b.owner identity) intent
    ok (record {
      by_key = put (key intent) (intent, identity) b.by_key;
      owner = put identity intent b.owner;
    })

  -- Each key stands for one intent and one identity, and each identity for one intent.
  pub record IsBound (b : Bindings I) : Type 0 where
    pub keyed :
        (k : String) (i : I) (identity : String)
        → b.by_key k ≡ some (i, identity)
        → (key i ≡ k) × (b.owner identity ≡ some i)
    pub owned :
        (identity : String) (i : I)
        → b.owner identity ≡ some i
        → b.by_key (key i) ≡ some (i, identity)

  check_prior-ok :
      (changed different : String) (prior : Option (I × String)) (i : I) (identity : String) (j : I)
      (other : String)
      → check_prior changed different prior i identity ≡ ok tt
      → prior ≡ some (j, other)
      → (j ≡ i) × (other ≡ identity)
  unfolding check_prior
  check_prior-ok changed different none i identity j other h e = cc
  check_prior-ok changed different (some (p, q)) i identity j other h e =
      let (u, same_intent, h1) = bind-ok _ _ h in
      let e1 : p ≡ i = eq_of_same d p i (require-ok _ _ same_intent) in
      let e2 : q ≡ identity = eq_of_text q identity (require-ok _ _ h1) in
      let (f1, f2) = parts p j q other e in (sym f1 ∙ e1, sym f2 ∙ e2)
    where
      parts :
          (p j : I) (q other : String)
          → ◌≡◌ {A = Option (I × String)} (some (p, q)) (some (j, other))
          → (p ≡ j) × (q ≡ other)
      parts p j q other e = (cc, cc)

  check_owner-ok :
      (bound : String) (held : Option I) (i j : I)
      → check_owner bound held i ≡ ok tt
      → held ≡ some j
      → j ≡ i
  unfolding check_owner
  check_owner-ok bound none i j h e = cc
  check_owner-ok bound (some p) i j h e =
      let e1 : p ≡ i = eq_of_same d p i (require-ok _ _ h) in let e2 : p ≡ j = cc e in sym e2 ∙ e1

  module _ (b : Bindings I) (i : I) (identity changed different bound : String)
      (prior_fits : check_prior changed different (b.by_key (key i)) i identity ≡ ok tt)
      (owner_fits : check_owner bound (b.owner identity) i ≡ ok tt) (h : IsBound b) where
    keyed_by :
        (k : String) (j : I) (x : String) (t u : Bool)
        → (key i =ₜ k) ≡ t
        → (identity =ₜ x) ≡ u
        → (if t then some (i, identity) else b.by_key k) ≡ some (j, x)
        → (key j ≡ k) × ((if u then some i else b.owner x) ≡ some j)
    keyed_by k j x true u same_key at got =
        let e1 : i ≡ j = cc got in
        let e2 : identity ≡ x = cc got in
        let here : u ≡ true = sym at ∙ rw (← e2) (text_self identity) in
        (ap key (sym e1) ∙ eq_of_text (key i) k same_key, rw here (ap some e1))
    keyed_by k j x false true other_key at got =
        let (e1, e2) = h.keyed k j x got in
        let e3 : identity ≡ x = eq_of_text identity x at in
        let e4 : j ≡ i = check_owner-ok bound _ i j owner_fits (ap b.owner e3 ∙ e2) in
        (e1, ap some (sym e4))
    keyed_by k j x false false other_key at got = h.keyed k j x got

    owned_by :
        (x : String) (j : I) (t u : Bool)
        → (identity =ₜ x) ≡ t
        → (key i =ₜ key j) ≡ u
        → (if t then some i else b.owner x) ≡ some j
        → (if u then some (i, identity) else b.by_key (key j)) ≡ some (j, x)
    owned_by x j true u same_identity at got =
        let e1 : i ≡ j = cc got in
        let e2 : identity ≡ x = eq_of_text identity x same_identity in
        let here : u ≡ true = sym at ∙ rw (← e1) (text_self (key i)) in
        rw here (ap some (cc (e1, e2)))
    owned_by x j false true other_identity at got =
        let e1 : key i ≡ key j = eq_of_text (key i) (key j) at in
        let (e2, e3) =
          check_prior-ok changed different _ i identity j x prior_fits
            (ap b.by_key e1 ∙ h.owned x j got) in
        ap some (cc (e2, e3))
    owned_by x j false false other_identity at got = h.owned x j got

  -- Remembering an identity keeps the binding of keys, intents and identities one to one.
  pub remember-IsBound :
      (changed different bound : String) (i : I) (identity : String) (b b' : Bindings I)
      → remember changed different bound i identity b ≡ ok b'
      → IsBound b
      → IsBound b'
  unfolding remember put
  remember-IsBound changed different bound i identity b b' ran h =
      let (u, prior_fits, h1) = bind-ok _ _ ran in
      let (v, owner_fits, h2) = bind-ok _ _ h1 in
      let e : record { by_key = put (key i) (i, identity) b.by_key; owner = put identity i b.owner }
          ≡ b' =
        cc h2 in
      rw (← e) (record {
        keyed = λ k j x got.
            keyed_by b i identity changed different bound prior_fits owner_fits h k j x _ _ refl
              refl got;
        owned = λ x j got.
            owned_by b i identity changed different bound prior_fits owner_fits h x j _ _ refl refl
              got;
      })

  -- Remembering an identity leaves the owners as they are.
  pub remember-owner :
      (changed different bound : String) (i : I) (identity : String) (b b' : Bindings I)
      (x : String) (j : I)
      → remember changed different bound i identity b ≡ ok b'
      → b.owner x ≡ some j
      → b'.owner x ≡ some j
  unfolding remember put
  remember-owner changed different bound i identity b b' x j ran held =
      let (u, prior_fits, h1) = bind-ok _ _ ran in
      let (v, owner_fits, h2) = bind-ok _ _ h1 in
      let e : record { by_key = put (key i) (i, identity) b.by_key; owner = put identity i b.owner }
          ≡ b' =
        cc h2 in
      rw (← e) (go owner_fits (identity =ₜ x) refl)
    where
      go :
          check_owner bound (b.owner identity) i ≡ ok tt
          → (t : Bool) → (identity =ₜ x) ≡ t
          → (if t then some i else b.owner x) ≡ some j
      go owner_fits true at = ap some (
          sym
            (check_owner-ok bound _ i j owner_fits (ap b.owner (eq_of_text identity x at) ∙ held)))
      go owner_fits false at = held
