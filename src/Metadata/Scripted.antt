-- ===== src/Metadata/Scripted.antt =====
-- `ScriptedMetadataDispatchAdapter` (src/agentic_os/metadata_dispatch.py, lines 128 to 172).
use mathlib.Core.List.{◌++◌}
use openclaw_agentic_os.Prelude.{
  ℕ, zero, suc, String, Bool, true, false, Option, none, some, List, [], ◌∷◌, Table, put, length,
}
use openclaw_agentic_os.Result.{ok, err, metadata_error, other_error}
use openclaw_agentic_os.Transaction.{Action, ◌>>=◌}
use openclaw_agentic_os.Metadata.Intents.{MetadataObservation, MetadataDispatchAdapter}

-- `_script`: the queue of each call's name.
abbrev pub Script : Type 0
Script = Table (List MetadataObservation)

unfoldable pub pop_left :
    String → Option (List MetadataObservation) → Action Script MetadataObservation
unfolding put
pop_left name (some (o ∷ os)) script = (ok o, put name os script)
pop_left name _ script = (err (metadata_error "fake adapter has no scripted observation"), script)

-- `_next`
unfoldable pub next : String → Action Script MetadataObservation
unfolding pop_left
next name script = pop_left name (script name) script

-- `self._script.get(name)` as a test.
unfoldable pub is_queued : Option (List MetadataObservation) → Bool
is_queued (some (o ∷ os)) = true
is_queued _ = false

-- The loop of `session_list`, on fuel.
unfoldable pub listing_loop :
    ℕ → List MetadataObservation → Action Script (List MetadataObservation)
unfolding next is_queued
listing_loop zero observations script = (err (other_error "out of fuel"), script)
listing_loop (suc fuel) observations script = elim (is_queued (script "session_list")) [
  | true ↦ (next "session_list" >>= λ o. listing_loop fuel (observations ++ (o ∷ []))) script
  | false ↦ (ok observations, script)
]

unfoldable pub queue_of : Option (List MetadataObservation) → List MetadataObservation
queue_of none = []
queue_of (some os) = os

-- The fuel is one more than the observations in the queue.
unfoldable pub scripted_session_list : Action Script (List MetadataObservation)
unfolding listing_loop queue_of
scripted_session_list script =
    listing_loop (suc (length (queue_of (script "session_list")))) [] script

abbrev pub scripted : MetadataDispatchAdapter Script
scripted = record {
  allow_lease_acquire = λ intent. next "allow_lease_acquire";
  allow_lease_status = λ gateway. next "allow_lease_status";
  allow_lease_release = λ intent. next "allow_lease_release";
  session_spawn = λ intent. next "session_spawn";
  session_status = λ key. next "session_status";
  session_list = λ intent. scripted_session_list;
  session_result = λ key. next "session_result";
}
