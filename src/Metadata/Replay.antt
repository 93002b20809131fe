-- ===== src/Metadata/Replay.antt =====
-- A repeated acquire or spawn is bound to its first answer.
use openclaw_agentic_os.Prelude.{
  String, ◌≡◌, sym, ap, ◌∙◌, Bool, true, false, not, ◌&&◌, Option, some, ◌=ₜ◌, eq_of_text,
  eq_of_same,
}
use openclaw_agentic_os.Result.{Result, ok, bind-ok, require-ok}
use openclaw_agentic_os.Transaction.{then-ok, reads-ok, returns-ok}
use openclaw_agentic_os.Metadata.Json.{Decoder}
use openclaw_agentic_os.Metadata.Observation.{
  same_duplicate, validate_accepted_lease_identity, validate_accepted_session_identity,
}
use openclaw_agentic_os.Metadata.Intents.{
  AllowLeaseIntent, SessionSpawnIntent, AllowLeaseIntent-discrete, SessionSpawnIntent-discrete,
  MetadataDispatchAdapter,
}
use openclaw_agentic_os.Metadata.Registry.{preflight}
use openclaw_agentic_os.Metadata.Probe.{Probe, Registry, calls}
use openclaw_agentic_os.Metadata.Operations.{acquire_allow_lease, spawn_session}

preflight-ok :
    {I : Type 0} (d : Discrete I) (key : I → String) (message : String) (i j : I) (x : String)
    → preflight d key message (some (j, x)) i ≡ ok tt
    → j ≡ i
unfolding preflight
preflight-ok d key message i j x h = eq_of_same d j i (require-ok _ _ h)

same_duplicate-ok :
    (message x accepted : String) → same_duplicate message (some x) accepted ≡ ok tt → x ≡ accepted
unfolding same_duplicate
same_duplicate-ok message x accepted h =
    eq_of_text x accepted (second (not (x =ₜ "")) (x =ₜ accepted) (require-ok _ _ h))
  where
    second : (p q : Bool) → (p && q) ≡ true → q ≡ true
    second true q e = e
    second false q e = cc

pub lease_identity-ok :
    (gateway : Option String) (x a : String)
    → validate_accepted_lease_identity gateway (some x) ≡ ok a
    → x ≡ a
unfolding validate_accepted_lease_identity
lease_identity-ok gateway x a h =
    let (accepted, found, h1) = bind-ok _ _ h in
    let (u, duplicate, h2) = bind-ok _ _ h1 in same_duplicate-ok _ x accepted duplicate ∙ cc h2

session_identity-ok :
    (external spawned key : Option String) (x a : String)
    → validate_accepted_session_identity external spawned key (some x) ≡ ok a
    → x ≡ a
unfolding validate_accepted_session_identity
session_identity-ok external spawned key x a h =
    let (e, h0, h1) = bind-ok _ _ h in
    let (s, h2, h3) = bind-ok _ _ h1 in
    let (k, h4, h5) = bind-ok _ _ h3 in
    let (u, h6, h7) = bind-ok _ _ h5 in
    let (v, duplicate, h8) = bind-ok _ _ h7 in same_duplicate-ok _ x e duplicate ∙ cc h8

calls-registry :
    {S A : Type 0} (m : S → Result A × S) (p p' : Probe S) (a : A)
    → calls m p ≡ (ok a, p')
    → p'.registry ≡ p.registry
unfolding calls
calls-registry {S} {A} m p p' a h = ap (λ (q : Result A × Probe S). q.1.registry) (sym h)

-- An acquire whose idempotency key has been used returns, if it returns, the lease that the key
-- stands for, and only for the intent that it stands for.
pub acquire_replay_stable :
    {S : Type 0} (decoder : Decoder) (adapter : MetadataDispatchAdapter S) (p p' : Probe S)
    (intent prior : AllowLeaseIntent) (gateway accepted : String)
    → p.registry.leases.by_key intent.idempotency_key ≡ some (prior, gateway)
    → acquire_allow_lease decoder adapter intent p ≡ (ok accepted, p')
    → (prior ≡ intent) × (accepted ≡ gateway)
unfolding acquire_allow_lease
acquire_replay_stable decoder adapter p p' intent prior gateway accepted used h =
    let (u, allowed, h1) = reads-ok _ _ p h in
    let (o, p1, called, h2) = then-ok _ _ p h1 in
    let (g, h3, h4) = reads-ok _ _ p1 h2 in
    let (v, h5, h6) = reads-ok _ _ p1 h4 in
    let (a, identity, h7) = reads-ok _ _ p1 h6 in
    let (w, p2, h8, h9) = then-ok _ _ p1 h7 in
    let (e1, e2) = returns-ok _ _ _ _ h9 in
    let still : p1.registry.leases.by_key intent.idempotency_key ≡ some (prior, gateway) =
      ap (λ (r : Registry). r.leases.by_key intent.idempotency_key) (calls-registry _ p p1 o called)
      ∙ used in
    (
      preflight-ok AllowLeaseIntent-discrete _ _ intent prior gateway (rw used at allowed),
      sym (lease_identity-ok (some v.gateway_lease_id) gateway a (rw still at identity) ∙ e1),
    )

-- A spawn whose idempotency key has been used returns, if it returns, the session that the key
-- stands for, and only for the intent that it stands for.
pub spawn_replay_stable :
    {S : Type 0} (decoder : Decoder) (adapter : MetadataDispatchAdapter S) (p p' : Probe S)
    (intent prior : SessionSpawnIntent) (session_key accepted : String)
    → p.registry.sessions.by_key intent.idempotency_key ≡ some (prior, session_key)
    → spawn_session decoder adapter intent p ≡ (ok accepted, p')
    → (prior ≡ intent) × (accepted ≡ session_key)
unfolding spawn_session
spawn_replay_stable decoder adapter p p' intent prior session_key accepted used h =
    let (u, allowed, h1) = reads-ok _ _ p h in
    let (o, p1, called, h2) = then-ok _ _ p h1 in
    let (s, h3, h4) = reads-ok _ _ p1 h2 in
    let (a, identity, h5) = reads-ok _ _ p1 h4 in
    let (v, h6, h7) = reads-ok _ _ p1 h5 in
    let (w, p2, h8, h9) = then-ok _ _ p1 h7 in
    let (e1, e2) = returns-ok _ _ _ _ h9 in
    let still : p1.registry.sessions.by_key intent.idempotency_key ≡ some (prior, session_key) =
      ap (λ (r : Registry). r.sessions.by_key intent.idempotency_key)
        (calls-registry _ p p1 o called)
      ∙ used in
    (
      preflight-ok SessionSpawnIntent-discrete _ _ intent prior session_key (rw used at allowed),
      sym (
          session_identity-ok o.external_id o.spawn_request_session_key o.session_key session_key a
            (rw still at identity)
          ∙ e1),
    )
