-- ===== src/Metadata/Draining.antt =====
-- The loop of `session_list` of the scripted adapter against the queue that it reads.
use mathlib.Core.List.{◌++◌, append-nil, append_assoc}
use openclaw_agentic_os.Prelude.{
  ℕ, zero, suc, ◌<◌, arith, String, ◌≡◌, ◌≢◌, refl, sym, ap, ◌∙◌, true, false, Option, none, some,
  List, [], ◌∷◌, put, text_self, text_of_ne, if◌then◌else◌, length,
}
use openclaw_agentic_os.Result.{ok}
use openclaw_agentic_os.Transaction.{◌>>=◌, continue}
use openclaw_agentic_os.Metadata.Intents.{MetadataObservation}
use openclaw_agentic_os.Metadata.Scripted.{
  Script, next, pop_left, is_queued, listing_loop, queue_of, scripted_session_list,
}

-- A round of the loop, where the queue holds an observation.
listing_loop_step :
    (fuel : ℕ) (observations os : List MetadataObservation) (o : MetadataObservation)
    (script : Script)
    → script "session_list" ≡ some (o ∷ os)
    → listing_loop (suc fuel) observations script
      ≡ listing_loop fuel (observations ++ (o ∷ [])) (put "session_list" os script)
unfolding listing_loop next pop_left is_queued ◌>>=◌
listing_loop_step fuel observations os o script h =
    ap
      (λ found. elim (is_queued found) [
        | true ↦
            continue (pop_left "session_list" found script).0
              (λ o. listing_loop fuel (observations ++ (o ∷ [])))
              (pop_left "session_list" found script).1
        | false ↦ (ok observations, script)
      ])
      h

-- The end of the loop, where the queue is empty or missing.
listing_loop_end :
    (fuel : ℕ) (observations : List MetadataObservation) (script : Script)
    → is_queued (script "session_list") ≡ false
    → listing_loop (suc fuel) observations script ≡ (ok observations, script)
unfolding listing_loop
listing_loop_end fuel observations script h =
    ap
      (λ found. elim found [
        | true ↦ (next "session_list" >>= λ o. listing_loop fuel (observations ++ (o ∷ []))) script
        | false ↦ (ok observations, script)
      ])
      h

-- What is left of a script whose session_list queue was drained.
record Drained (script after : Script) : Type 0 where
  pub empty : after "session_list" ≡ some []
  pub others : (name : String) → name ≢ "session_list" → after name ≡ script name

-- Popping one observation, and draining the rest.
put-Drained :
    (os : List MetadataObservation) (script after : Script)
    → Drained (put "session_list" os script) after
    → Drained script after
unfolding put
put-Drained os script after d = record {
  empty = d.empty;
  others = λ name ne.
      d.others name ne
      ∙ ap (λ b. if b then some os else script name)
          (text_of_ne "session_list" name (λ e. ne (sym e)));
}

put_self :
    (os : List MetadataObservation) (script : Script)
    → put "session_list" os script "session_list" ≡ some os
unfolding put
put_self os script =
    ap (λ b. if b then some os else script "session_list") (text_self "session_list")

-- With more fuel than the queue has observations, the loop ends by its test.
listing_loop-all :
    (fuel : ℕ) (observations os : List MetadataObservation) (script : Script)
    → length os < fuel
    → script "session_list" ≡ some os
    → ((listing_loop fuel observations script).0 ≡ ok (observations ++ os))
      × Drained script (listing_loop fuel observations script).1
unfolding is_queued
listing_loop-all zero observations os script enough h = absurd (omega (arith, enough))
listing_loop-all (suc fuel) observations [] script enough h =
    rw (listing_loop_end fuel observations script (ap is_queued h))
      (ap ok (sym (append-nil observations)), record { empty = h; others = λ name ne. refl })
listing_loop-all (suc fuel) observations (o ∷ os) script enough h =
    let rest =
      listing_loop-all fuel (observations ++ (o ∷ [])) os (put "session_list" os script)
        (omega (arith, enough)) (put_self os script) in
    rw (listing_loop_step fuel observations os o script h)
      (rest.0 ∙ ap ok (append_assoc observations (o ∷ []) os), put-Drained os script _ rest.1)

-- The loop of session_list ends for every script, by its own test and within its fuel, and never
-- raises: it returns all of the queue in the order of the script, none where there is no queue; then
-- the queue is empty, and the queue of any other call is as it was.
pub scripted_session_list-all :
    (script : Script) (name : String)
    → name ≢ "session_list"
    → ((scripted_session_list script).0 ≡ ok (queue_of (script "session_list")))
      × (is_queued ((scripted_session_list script).1 "session_list") ≡ false)
      × ((scripted_session_list script).1 name ≡ script name)
unfolding scripted_session_list queue_of
scripted_session_list-all script name ne = go (script "session_list") refl
  where
    go :
        (found : Option (List MetadataObservation))
        → script "session_list" ≡ found
        → ((listing_loop (suc (length (queue_of found))) [] script).0 ≡ ok (queue_of found))
          × (is_queued ((listing_loop (suc (length (queue_of found))) [] script).1 "session_list")
              ≡ false)
          × ((listing_loop (suc (length (queue_of found))) [] script).1 name ≡ script name)
    go none e = rw (listing_loop_end 0 [] script (ap is_queued e)) (refl, ap is_queued e, refl)
    go (some os) e =
        let all = listing_loop-all (suc (length os)) [] os script (omega arith) e in
        (all.0, ap is_queued all.1.empty, all.1.others name ne)
