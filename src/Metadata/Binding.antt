-- ===== src/Metadata/Binding.antt =====
-- The probe's dictionaries bind intents and external identities.
use openclaw_agentic_os.Prelude.{
  String, Bool, true, false, ◌&&◌, ◌≡◌, refl, sym, ap, ◌∙◌, Option, none, some, ◌=ₜ◌, put,
  eq_of_text, if◌then◌else◌, arith,
}
use openclaw_agentic_os.Result.{Result, ok, err, require-ok}
use openclaw_agentic_os.Transaction.{
  Action, Keeps, then-Keeps, reads-keeps, reads-kept, returns-kept, ◌>>=◌, ◌>>◌, returns, continue,
}
use openclaw_agentic_os.Metadata.Json.{Decoder}
use openclaw_agentic_os.Metadata.Intents.{
  AllowLeaseIntent, AllowLeaseReleaseIntent, SessionSpawnIntent, AllowLeaseIntent-discrete,
  SessionSpawnIntent-discrete, MetadataDispatchAdapter,
}
use openclaw_agentic_os.Metadata.Registry.{Bindings, IsBound, remember-IsBound, remember-owner}
use openclaw_agentic_os.Metadata.Replay.{lease_identity-ok}
use openclaw_agentic_os.Metadata.Probe.{
  Probe, Registry, empty_registry, require_release_owner, remembered_lease, lease_key,
  session_spawn_key, calls, remember_lease_acquire, remember_session_spawn, remember_release,
  remember_lease_acquire-kept, remember_session_spawn-kept,
}
use openclaw_agentic_os.Metadata.Operations.{
  acquire_allow_lease, status_allow_lease, release_allow_lease, spawn_session, status_session,
  list_session, result_session, require_spawned_session,
}

-- The release's owner is that of the acquire.
pub record IsOwner (i : AllowLeaseReleaseIntent) (a : AllowLeaseIntent) : Type 0 where
  pub client_lease_id : i.client_lease_id ≡ a.client_lease_id
  pub run_id : i.run_id ≡ a.run_id
  pub phase : i.phase ≡ a.phase
  pub transition_id : i.transition_id ≡ a.transition_id
  pub agent_id : i.agent_id ≡ a.agent_id
  pub requester_agent_id : i.requester_agent_id ≡ a.requester_agent_id

-- Each release stands under its key, for the lease that it names, which its owner has acquired.
pub record ReleaseIsBound (r : Registry) : Type 0 where
  pub released :
      (k : String) (i : AllowLeaseReleaseIntent) (gateway : String)
      → r.releases k ≡ some (i, gateway)
      → (i.idempotency_key ≡ k)
        × (i.gateway_lease_id ≡ gateway)
        × (a : AllowLeaseIntent) × (r.leases.owner gateway ≡ some a)
        × IsOwner i a

-- All five dictionaries.
abbrev pub RegistryIsBound : Registry → Type 0
RegistryIsBound r =
    IsBound AllowLeaseIntent-discrete lease_key r.leases
    × IsBound SessionSpawnIntent-discrete session_spawn_key r.sessions
    × ReleaseIsBound r

abbrev pub ProbeIsBound : {S : Type 0} → Probe S → Type 0
ProbeIsBound p = RegistryIsBound p.registry

both : {p q : Bool} → (p && q) ≡ true → (p ≡ true) × (q ≡ true)
both {p} {q} h = ground arith

require_release_owner-ok :
    (i : AllowLeaseReleaseIntent) (held : Option AllowLeaseIntent) {u : Unit {0}}
    → require_release_owner i held ≡ ok u
    → (a : AllowLeaseIntent) × (held ≡ some a) × IsOwner i a
unfolding require_release_owner
require_release_owner-ok i none h = cc
require_release_owner-ok i (some a) h =
    let (h5, requester) = both (require-ok _ _ h) in
    let (h4, agent) = both h5 in
    let (h3, transition) = both h4 in
    let (h2, same_phase) = both h3 in
    let (client, run) = both h2 in
    (
      a,
      refl,
      record {
        client_lease_id = eq_of_text _ _ client;
        run_id = eq_of_text _ _ run;
        phase = eq_of_text _ _ same_phase;
        transition_id = eq_of_text _ _ transition;
        agent_id = eq_of_text _ _ agent;
        requester_agent_id = eq_of_text _ _ requester;
      },
    )

-- A release of a lease that its owner has acquired keeps the dictionaries bound.
put-ReleaseIsBound :
    (r : Registry) (i : AllowLeaseReleaseIntent) (gateway : String) (a : AllowLeaseIntent)
    → ReleaseIsBound r
    → i.gateway_lease_id ≡ gateway
    → r.leases.owner i.gateway_lease_id ≡ some a
    → IsOwner i a
    → ReleaseIsBound (record r { releases = put i.idempotency_key (i, gateway) r.releases })
unfolding put
put-ReleaseIsBound r i gateway a h names held owner = record {
  released = λ k j other. go k j other (i.idempotency_key =ₜ k) refl;
}
  where
    go :
        (k : String) (j : AllowLeaseReleaseIntent) (other : String) (t : Bool)
        → (i.idempotency_key =ₜ k) ≡ t
        → (if t then some (i, gateway) else r.releases k) ≡ some (j, other)
        → (j.idempotency_key ≡ k)
          × (j.gateway_lease_id ≡ other)
          × (a : AllowLeaseIntent) × (r.leases.owner other ≡ some a)
          × IsOwner j a
    go k j other false at got = h.released k j other got
    go k j other true at got =
        let same_intent : i ≡ j = cc got in
        let same_lease : gateway ≡ other = cc got in
        (
          rw (← same_intent) (eq_of_text i.idempotency_key k at),
          rw (← same_intent) (names ∙ same_lease),
          a,
          ap r.leases.owner (sym same_lease ∙ sym names) ∙ held,
          rw (← same_intent) owner,
        )

module _ {S : Type 0} where
  abbrev Bound : Probe S → Type 0
  Bound p = ProbeIsBound p

  calls-kept : {A : Type 0} (m : Action S A) → Keeps Bound (calls m)
  unfolding calls
  calls-kept m p bound = bound

  remember_lease_acquire-IsBound :
      (i : AllowLeaseIntent) (gateway : String) → Keeps Bound (remember_lease_acquire i gateway)
  remember_lease_acquire-IsBound i gateway p (h, k, l) =
      remember_lease_acquire-kept RegistryIsBound i gateway p (h, k, l)
        λ b ran. (
          remember-IsBound AllowLeaseIntent-discrete lease_key _ _ _ i gateway p.registry.leases b
              ran h,
          k,
          acquired b ran,
        )
    where
      acquired :
          (b : Bindings AllowLeaseIntent)
          → remembered_lease i gateway p.registry.leases ≡ ok b
          → ReleaseIsBound (record p.registry { leases = b })
      acquired b ran = record {
        released = λ key j x got.
            let (keyed, named, a, held, owner) = l.released key j x got in
            (
              keyed,
              named,
              a,
              remember-owner AllowLeaseIntent-discrete lease_key _ _ _ i gateway p.registry.leases b
                  x a ran held,
              owner,
            );
      }

  remember_session_spawn-IsBound :
      (i : SessionSpawnIntent) (key : String) → Keeps Bound (remember_session_spawn i key)
  remember_session_spawn-IsBound i key p (h, k, l) =
      remember_session_spawn-kept RegistryIsBound i key p (h, k, l)
        λ b ran. (
          h,
          remember-IsBound SessionSpawnIntent-discrete session_spawn_key _ _ _ i key
              p.registry.sessions b ran k,
          record { released = l.released },
        )

  -- After a call of the adapter the dictionaries are as before.
  calls-keeps :
      {A B : Type 0} (m : Action S A) (f : A → Action (Probe S) B) (p : Probe S)
      → Bound p
      → ((o : A) (p' : Probe S) → p'.registry ≡ p.registry → Bound (f o p').1)
      → Bound ((calls m >>= f) p).1
  unfolding calls ◌>>=◌
  calls-keeps {A} {B} m f p before keep = go (m p.adapter).0
    where
      go : (found : Result A) → Bound (continue found f (record p { adapter = (m p.adapter).1 })).1
      go (ok o) = keep o (record p { adapter = (m p.adapter).1 }) refl
      go (err e) = before

  remember_release-IsBound :
      (i : AllowLeaseReleaseIntent) (gateway : String) (p : Probe S) (a : AllowLeaseIntent)
      → Bound p
      → i.gateway_lease_id ≡ gateway
      → p.registry.leases.owner i.gateway_lease_id ≡ some a
      → IsOwner i a
      → Bound ((remember_release i gateway >> returns gateway) p).1
  unfolding remember_release ◌>>=◌
  remember_release-IsBound i gateway p a (h, k, l) names held owner =
      (h, k, put-ReleaseIsBound p.registry i gateway a l names held owner)

  module _ (decoder : Decoder) (adapter : MetadataDispatchAdapter S) where
    acquire_allow_lease-kept :
        (i : AllowLeaseIntent) → Keeps Bound (acquire_allow_lease decoder adapter i)
    unfolding acquire_allow_lease
    acquire_allow_lease-kept i = then-Keeps Bound _ _ (reads-kept Bound _) λ _.
        then-Keeps Bound _ _ (calls-kept _) λ _. then-Keeps Bound _ _ (reads-kept Bound _) λ _.
          then-Keeps Bound _ _ (reads-kept Bound _) λ _.
            then-Keeps Bound _ _ (reads-kept Bound _) λ a.
              then-Keeps Bound _ _ (remember_lease_acquire-IsBound i a) λ _. returns-kept Bound _

    status_allow_lease-kept :
        (i : AllowLeaseIntent) (gateway : String)
        → Keeps Bound (status_allow_lease decoder adapter i gateway)
    unfolding status_allow_lease
    status_allow_lease-kept i gateway = then-Keeps Bound _ _ (reads-kept Bound _) λ _.
        then-Keeps Bound _ _ (calls-kept _)
          λ _. then-Keeps Bound _ _ (reads-kept Bound _) λ _. reads-kept Bound _

    release_allow_lease-kept :
        (i : AllowLeaseReleaseIntent) → Keeps Bound (release_allow_lease decoder adapter i)
    unfolding release_allow_lease
    release_allow_lease-kept i p h = reads-keeps Bound _ _ p h λ _ fresh.
        reads-keeps Bound _ _ p h λ _ known. calls-keeps _ _ p h λ o p' still.
          let h' : Bound p' = rw still h in
          reads-keeps Bound _ _ p' h' λ observed valid.
            reads-keeps Bound _ _ p' h' λ released accepted.
              reads-keeps Bound _ _ p' h' λ _ replayed.
                let (a, held, owner) = require_release_owner-ok i _ known in
                remember_release-IsBound i released p' a h'
                  (lease_identity-ok _ i.gateway_lease_id released accepted)
                  (ap (λ (r : Registry). r.leases.owner i.gateway_lease_id) still ∙ held) owner

    spawn_session-kept : (i : SessionSpawnIntent) → Keeps Bound (spawn_session decoder adapter i)
    unfolding spawn_session
    spawn_session-kept i = then-Keeps Bound _ _ (reads-kept Bound _) λ _.
        then-Keeps Bound _ _ (calls-kept _) λ _. then-Keeps Bound _ _ (reads-kept Bound _) λ _.
          then-Keeps Bound _ _ (reads-kept Bound _) λ a.
            then-Keeps Bound _ _ (reads-kept Bound _) λ _.
              then-Keeps Bound _ _ (remember_session_spawn-IsBound i a) λ _. returns-kept Bound _

    require_spawned_session-kept :
        (i : SessionSpawnIntent) (key : String)
        → Keeps Bound (require_spawned_session decoder adapter i key)
    unfolding require_spawned_session
    require_spawned_session-kept i key = reads-kept Bound _

    status_session-kept :
        (i : SessionSpawnIntent) (key : String) → Keeps Bound (status_session decoder adapter i key)
    unfolding status_session
    status_session-kept i key =
        then-Keeps Bound _ _ (require_spawned_session-kept i key)
          λ _. then-Keeps Bound _ _ (calls-kept _) λ _. reads-kept Bound _

    list_session-kept :
        (i : SessionSpawnIntent) (key : String) → Keeps Bound (list_session decoder adapter i key)
    unfolding list_session
    list_session-kept i key = then-Keeps Bound _ _ (require_spawned_session-kept i key) λ _.
        then-Keeps Bound _ _ (calls-kept _)
          λ _. then-Keeps Bound _ _ (reads-kept Bound _) λ _. reads-kept Bound _

    result_session-kept :
        (i : SessionSpawnIntent) (key : String) → Keeps Bound (result_session decoder adapter i key)
    unfolding result_session
    result_session-kept i key =
        then-Keeps Bound _ _ (require_spawned_session-kept i key)
          λ _. then-Keeps Bound _ _ (calls-kept _) λ _. reads-kept Bound _

-- Whatever the adapter answers, each of the probe's seven operations keeps its five dictionaries
-- bound, whether it returns or raises. For leases and for sessions, a key stands for one intent and
-- one identity, and an identity belongs to one intent, that of the key which acquired it. A release
-- stands under its own key for the lease that it names, and the intent that acquired this lease has
-- the release's client lease, run, phase, transition, agent and requester.
pub probe-IsBound :
    {S : Type 0} (decoder : Decoder) (adapter : MetadataDispatchAdapter S) (p : Probe S)
    (lease : AllowLeaseIntent) (released : AllowLeaseReleaseIntent) (session : SessionSpawnIntent)
    (identity : String)
    → ProbeIsBound p
    → ProbeIsBound (acquire_allow_lease decoder adapter lease p).1
      × ProbeIsBound (status_allow_lease decoder adapter lease identity p).1
      × ProbeIsBound (release_allow_lease decoder adapter released p).1
      × ProbeIsBound (spawn_session decoder adapter session p).1
      × ProbeIsBound (status_session decoder adapter session identity p).1
      × ProbeIsBound (list_session decoder adapter session identity p).1
      × ProbeIsBound (result_session decoder adapter session identity p).1
probe-IsBound decoder adapter p lease released session identity h = (
  acquire_allow_lease-kept decoder adapter lease p h,
  status_allow_lease-kept decoder adapter lease identity p h,
  release_allow_lease-kept decoder adapter released p h,
  spawn_session-kept decoder adapter session p h,
  status_session-kept decoder adapter session identity p h,
  list_session-kept decoder adapter session identity p h,
  result_session-kept decoder adapter session identity p h,
)

pub empty_registry-IsBound : RegistryIsBound empty_registry
empty_registry-IsBound = (
  record { keyed = λ k i x h. cc; owned = λ x i h. cc },
  record { keyed = λ k i x h. cc; owned = λ x i h. cc },
  record { released = λ k i x h. cc },
)
