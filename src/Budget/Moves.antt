-- ===== src/Budget/Moves.antt =====
-- How each event type moves the counters of a budget, whichever function writes them: the shares of
-- the event in the sums of the reconciliation contract (src/agentic_os/slo_contracts.py, line 48).
use openclaw_agentic_os.Prelude.{
  ℕ, String, Bool, true, false, ◌||◌, ◌+◌, ◌≤◌, ◌≡◌, refl, leb, arith, if◌then◌else◌,
}
use openclaw_agentic_os.Budget.Amounts.{
  Dimension, time_seconds, input_tokens, output_tokens, cost_microusd, retry_units,
  human_attention_units, BudgetAmounts, getattr, getattr-amounts_of, all_fields-at,
}
use openclaw_agentic_os.Budget.Tables.{
  RunBudget, EventType, Confidence, reserve, release, consume, retry_decrement, retry_restore,
  human_attention,
}
use openclaw_agentic_os.Budget.Ledger.{adds, takes, restores}
use openclaw_agentic_os.Budget.PreAdmission.{is_reserve, is_release}
use openclaw_agentic_os.Budget.PostAdmission.{is_post_dispatch}
use openclaw_agentic_os.Budget.Counters.{
  counters_admit, counters_set, post_dispatch_admit, post_dispatch_set,
}

-- The sums of what was consumed.
abbrev pub uses : EventType → Dimension → Bool
uses consume time_seconds = true
uses consume input_tokens = true
uses consume output_tokens = true
uses consume cost_microusd = true
uses retry_decrement retry_units = true
uses human_attention human_attention_units = true
uses _ _ = false

abbrev pub part : (EventType → Dimension → Bool) → EventType → BudgetAmounts → Dimension → ℕ
part counts t v d = if counts t d then getattr v d else 0

-- The counters of `rb'` are those of `rb` after one event.
pub record Moves (t : EventType) (v : BudgetAmounts) (rb rb' : RunBudget) : Type 0 where
  pub reserved :
      (d : Dimension)
      → getattr rb'.reserved d + part takes t v d ≡ getattr rb.reserved d + part adds t v d
  pub consumed :
      (d : Dimension)
      → getattr rb'.consumed d + part restores t v d ≡ getattr rb.consumed d + part uses t v d
  pub budget : rb'.budget ≡ rb.budget
  pub bounded :
      (d : Dimension)
      → getattr rb.reserved d + getattr rb.consumed d ≤ getattr rb.budget d
      → getattr rb'.reserved d + getattr rb'.consumed d ≤ getattr rb'.budget d

-- The test of a reserve in each dimension.
abbrev room : RunBudget → BudgetAmounts → Dimension → Bool
room rb v d =
    leb (getattr rb.reserved d + getattr rb.consumed d + getattr v d) (getattr rb.budget d)

-- The test of a release in each dimension.
abbrev held : RunBudget → BudgetAmounts → Dimension → Bool
held rb v d = leb (getattr v d) (getattr rb.reserved d)

pub Moves-reserve :
    (rb : RunBudget) (v : BudgetAmounts) (c : Confidence) (at : String)
    → counters_admit reserve rb v ≡ true
    → Moves reserve v rb (counters_set reserve rb v c at)
unfolding counters_admit counters_set
Moves-reserve rb v c at fits = record {
  reserved = λ d. rw getattr-amounts_of (omega arith);
  consumed = λ d. omega arith;
  budget = refl;
  bounded = λ d h. rw getattr-amounts_of (ground (arith, all_fields-at (room rb v) fits d));
}

pub Moves-release :
    (rb : RunBudget) (v : BudgetAmounts) (c : Confidence) (at : String)
    → counters_admit release rb v ≡ true
    → Moves release v rb (counters_set release rb v c at)
unfolding counters_admit counters_set
Moves-release rb v c at fits = record {
  reserved = λ d. rw getattr-amounts_of (ground (arith, all_fields-at (held rb v) fits d));
  consumed = λ d. omega arith;
  budget = refl;
  bounded = λ d h. rw getattr-amounts_of (ground (arith, all_fields-at (held rb v) fits d));
}

module _ (rb : RunBudget) (v : BudgetAmounts) (c : Confidence) (at : String) where
  abbrev MovesAt : EventType → Dimension → Type 0
  MovesAt t d =
      (getattr (post_dispatch_set t rb v c at).reserved d + part takes t v d
        ≡ getattr rb.reserved d + part adds t v d)
      × (getattr (post_dispatch_set t rb v c at).consumed d + part restores t v d
          ≡ getattr rb.consumed d + part uses t v d)

  consume-MovesAt : post_dispatch_admit consume rb v ≡ true → (d : Dimension) → MovesAt consume d
  unfolding post_dispatch_admit post_dispatch_set
  consume-MovesAt fits time_seconds = ground arith
  consume-MovesAt fits input_tokens = ground arith
  consume-MovesAt fits output_tokens = ground arith
  consume-MovesAt fits cost_microusd = ground arith
  consume-MovesAt fits retry_units = ground arith
  consume-MovesAt fits human_attention_units = ground arith

  decrement-MovesAt :
      post_dispatch_admit retry_decrement rb v ≡ true → (d : Dimension) → MovesAt retry_decrement d
  unfolding post_dispatch_admit post_dispatch_set
  decrement-MovesAt fits time_seconds = ground arith
  decrement-MovesAt fits _ = ground arith

  restore-MovesAt :
      post_dispatch_admit retry_restore rb v ≡ true → (d : Dimension) → MovesAt retry_restore d
  unfolding post_dispatch_admit post_dispatch_set
  restore-MovesAt fits time_seconds = ground arith
  restore-MovesAt fits _ = ground arith

  human-MovesAt :
      post_dispatch_admit human_attention rb v ≡ true → (d : Dimension) → MovesAt human_attention d
  unfolding post_dispatch_admit post_dispatch_set
  human-MovesAt fits time_seconds = ground arith
  human-MovesAt fits _ = ground arith

-- After dispatch what leaves the reservation is what is consumed, and the other way round.
conserved :
    (t : EventType) (v : BudgetAmounts) (d : Dimension)
    → is_post_dispatch t ≡ true
    → (part takes t v d ≡ part uses t v d) × (part adds t v d ≡ part restores t v d)
conserved consume v time_seconds h = (refl, refl)
conserved consume v input_tokens h = (refl, refl)
conserved consume v output_tokens h = (refl, refl)
conserved consume v cost_microusd h = (refl, refl)
conserved consume v retry_units h = (refl, refl)
conserved consume v human_attention_units h = (refl, refl)
conserved retry_decrement v time_seconds h = (refl, refl)
conserved retry_decrement v _ h = (refl, refl)
conserved retry_restore v time_seconds h = (refl, refl)
conserved retry_restore v _ h = (refl, refl)
conserved human_attention v time_seconds h = (refl, refl)
conserved human_attention v _ h = (refl, refl)
conserved reserve v d h = cc
conserved release v d h = cc

post_dispatch-MovesAt :
    (t : EventType) (rb : RunBudget) (v : BudgetAmounts) (c : Confidence) (at : String)
    → is_post_dispatch t ≡ true
    → post_dispatch_admit t rb v ≡ true
    → (d : Dimension) → MovesAt rb v c at t d
post_dispatch-MovesAt consume rb v c at h fits d = consume-MovesAt rb v c at fits d
post_dispatch-MovesAt retry_decrement rb v c at h fits d = decrement-MovesAt rb v c at fits d
post_dispatch-MovesAt retry_restore rb v c at h fits d = restore-MovesAt rb v c at fits d
post_dispatch-MovesAt human_attention rb v c at h fits d = human-MovesAt rb v c at fits d
post_dispatch-MovesAt reserve rb v c at h fits d = cc
post_dispatch-MovesAt release rb v c at h fits d = cc

budget-post_dispatch_set :
    (t : EventType) (rb : RunBudget) (v : BudgetAmounts) (c : Confidence) (at : String)
    → (post_dispatch_set t rb v c at).budget ≡ rb.budget
unfolding post_dispatch_set
budget-post_dispatch_set consume rb v c at = refl
budget-post_dispatch_set _ rb v c at = refl

pub Moves-post_dispatch :
    (t : EventType) (rb : RunBudget) (v : BudgetAmounts) (c : Confidence) (at : String)
    → is_post_dispatch t ≡ true
    → post_dispatch_admit t rb v ≡ true
    → Moves t v rb (post_dispatch_set t rb v c at)
Moves-post_dispatch t rb v c at h fits = record {
  reserved = λ d. (post_dispatch-MovesAt t rb v c at h fits d).0;
  consumed = λ d. (post_dispatch-MovesAt t rb v c at h fits d).1;
  budget = budget-post_dispatch_set t rb v c at;
  bounded = λ d within.
      rw budget-post_dispatch_set
        (omega (arith, post_dispatch-MovesAt t rb v c at h fits d, conserved t v d h));
}

pub Moves-counters :
    (t : EventType) (rb : RunBudget) (v : BudgetAmounts) (c : Confidence) (at : String)
    → (is_reserve t || is_release t) ≡ true
    → counters_admit t rb v ≡ true
    → Moves t v rb (counters_set t rb v c at)
Moves-counters reserve rb v c at h fits = Moves-reserve rb v c at fits
Moves-counters release rb v c at h fits = Moves-release rb v c at fits
Moves-counters consume rb v c at h fits = cc
Moves-counters retry_decrement rb v c at h fits = cc
Moves-counters retry_restore rb v c at h fits = cc
Moves-counters human_attention rb v c at h fits = cc
