-- ===== src/Budget/Price.antt =====
-- The price of a reservation in the registry.
use Prim.Native.Nat.{◌*◌, ◌/◌}
use openclaw_agentic_os.Prelude.{ℕ, ◌+◌, ◌≤◌, ◌<◌, ◌≡◌, refl, true, Option, none, some, leb, arith}
use openclaw_agentic_os.Result.{ok, bind-ok, require-ok}
use openclaw_agentic_os.Budget.Amounts.{BudgetAmounts, limits, cost_microusd}
use openclaw_agentic_os.Budget.Tables.{BudgetSelection}
use openclaw_agentic_os.Budget.Selection.{rounded_up, required_cost}

rounded_up-ok :
    (tokens : ℕ) (price : Option ℕ) (n : ℕ)
    → rounded_up tokens price ≡ ok n
    → (p : ℕ) × (price ≡ some p) × (n ≡ (tokens * p + 999_999) / 1_000_000)
unfolding rounded_up
rounded_up-ok tokens none n h = cc
rounded_up-ok tokens (some p) n h = (p, refl, ground arith)

-- A registry price is charged per million tokens and rounded up: the required cost of a reservation
-- is the sum, over input and output, of the least whole numbers of micro-dollars that cover the
-- tokens at the selected prices, and lies within the fixed-point limit.
pub required_cost_least :
    (selection : BudgetSelection) (a : BudgetAmounts) (n : ℕ)
    → required_cost selection a ≡ ok n
    → (p : ℕ) × (q : ℕ) × (x : ℕ) × (y : ℕ) × (selection.input_cost_microusd_per_million ≡ some p)
      × (selection.output_cost_microusd_per_million ≡ some q)
      × (n ≡ x + y)
      × (a.input * p ≤ x * 1_000_000)
      × (a.output * q ≤ y * 1_000_000)
      × (x * 1_000_000 < a.input * p + 1_000_000)
      × (y * 1_000_000 < a.output * q + 1_000_000)
      × (n ≤ limits cost_microusd)
unfolding required_cost
required_cost_least selection a n h =
    let (x, gx, h1) = bind-ok _ _ h in
    let (y, gy, h2) = bind-ok _ _ h1 in
    let (u, fits, h3) = bind-ok _ _ h2 in
    let (p, ep, ex) = rounded_up-ok a.input _ x gx in
    let (q, eq, ey) = rounded_up-ok a.output _ y gy in
    let total : n ≡ x + y = cc h3 in
    let within : leb (x + y) (limits cost_microusd) ≡ true = require-ok _ _ fits in
    (
      p,
      q,
      x,
      y,
      ep,
      eq,
      total,
      omega (arith, ex),
      omega (arith, ey),
      omega (arith, ex),
      omega (arith, ey),
      ground arith,
    )
