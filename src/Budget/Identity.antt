-- ===== src/Budget/Identity.antt =====
-- Texts and identifiers of a request (src/agentic_os/budgets.py, lines 137 to 200).
use openclaw_agentic_os.Prelude.{
  ℕ, String, ◌++◌, Bool, false, not, ◌&&◌, Option, none, some, leb, same, ◌=ₜ◌, if◌then◌else◌,
  ℕ_discrete,
}
use mathlib.Core.Option
use openclaw_agentic_os.Result.{Result, ok, err, budget_error, ◌>>=◌}
use openclaw_agentic_os.Budget.Tables.{Runtime, Db, ClockContext, GateRun}

abbrev pub max_epoch_ms : ℕ
max_epoch_ms = 253_402_300_799_999

module _ (rt : Runtime) where
  open rt use {sha256_hex, isoformat, strip}

  -- `none` is a value that is no `str`.
  unfoldable pub required_text : Option String → Result String
  required_text none = err (budget_error "must be a non-empty string")
  required_text (some value) =
      if strip value =ₜ ""
      then err (budget_error "must be a non-empty string")
      else ok (strip value)

  unfoldable pub event_id : String → String
  event_id idempotency_key =
      "budget-" ++ sha256_hex ("agentic-os-budget-event\0" ++ idempotency_key)

  unfoldable pub dedupe_hash : String → String
  dedupe_hash dedupe_key = sha256_hex ("agentic-os-budget-dedupe\0" ++ dedupe_key)

  unfoldable pub settlement_id_of : String → String
  settlement_id_of idempotency_key =
      "settlement-" ++ sha256_hex ("agentic-os-budget-settlement\0" ++ idempotency_key)

  unfoldable pub created_at_of : Option ℕ → Result String
  created_at_of none = err (budget_error "created_at_epoch_ms must be an integer in range")
  created_at_of (some epoch_ms) =
      if leb 1 epoch_ms && leb epoch_ms max_epoch_ms
      then ok (isoformat epoch_ms)
      else err (budget_error "created_at_epoch_ms must be an integer in range")

-- SQL's `=` between two columns that hold integers.
equal_numbers : Option ℕ → Option ℕ → Bool
equal_numbers none y = false
equal_numbers (some x) none = false
equal_numbers (some x) (some y) = same ℕ_discrete x y

-- The JOIN and the WHERE of `_trusted_created_at`, for one clock context and its gate run.
clock_matches : String → String → String → ClockContext → GateRun → Bool
clock_matches clock_context_id run_id transition_id c g =
    (g.clock_context_id =ₜ clock_context_id)
    && (g.run_id =ₜ c.run_id)
    && (g.transition_id =ₜ c.transition_id)
    && (c.run_id =ₜ run_id)
    && (c.transition_id =ₜ transition_id)
    && (c.gate_run_id =ₜ c.consumed_by_gate_run_id)
    && equal_numbers c.bound_at_epoch_ms c.now_epoch_ms
    && equal_numbers c.consumed_at_epoch_ms c.now_epoch_ms
    && not (c.trusted_clock_source_hash =ₜ "")
    && not (c.gate_nonce =ₜ "")
    && (g.decision =ₜ "pass")
    && equal_numbers g.completed_at_epoch_ms c.now_epoch_ms

-- The row of that query; `some` around a cell that may itself be no integer.
unfoldable pub trusted_clock : Db → String → String → String → Option (Option ℕ)
unfolding clock_matches equal_numbers
trusted_clock db run_id transition_id clock_context_id =
    Option.bind (db.reference.gate_clock_context clock_context_id) (λ c.
      Option.bind (db.reference.gate_runs c.gate_run_id) (λ g.
        if clock_matches clock_context_id run_id transition_id c g
        then some c.now_epoch_ms
        else none))

stamp : Runtime → Option (Option ℕ) → Result (String × ℕ)
stamp rt none = err (budget_error "budget event requires a trusted gate/order clock context")
stamp rt (some none) = err (budget_error "created_at_epoch_ms must be an integer in range")
stamp rt (some (some epoch_ms)) = do
  created_at ← created_at_of rt (some epoch_ms)
  ok (created_at, epoch_ms)

unfoldable pub trusted_created_at : Runtime → Db → String → String → String → Result (String × ℕ)
unfolding stamp created_at_of trusted_clock
trusted_created_at rt db run_id transition_id clock_context_id =
    stamp rt (trusted_clock db run_id transition_id clock_context_id)
