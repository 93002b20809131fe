-- ===== src/Budget/Amounts.antt =====
-- `BudgetAmounts` and its limits (src/agentic_os/budgets.py, lines 42 to 106).
use openclaw_agentic_os.Prelude.{
  ℕ, ◌+◌, ◌-◌, ◌≤◌, ◌≡◌, refl, Bool, true, ◌&&◌, arith, ℕ_discrete, leb, if◌then◌else◌,
}
use openclaw_agentic_os.Result.{Result, ok, err, budget_error, ◌>>=◌, bind-ok}

-- The keys of `_LIMITS`, in its order.
pub data Dimension : Type 0 where
  time_seconds input_tokens output_tokens cost_microusd retry_units human_attention_units :
      Dimension

abbrev pub limits : Dimension → ℕ
limits time_seconds = 31_536_000
limits input_tokens = 1_000_000_000
limits output_tokens = 1_000_000_000
limits cost_microusd = 100_000_000_000
limits retry_units = 1_000_000
limits human_attention_units = 1_000_000

pub record BudgetAmounts : Type 0 where
  pub time : ℕ
  pub input : ℕ
  pub output : ℕ
  pub cost : ℕ
  pub retry : ℕ
  pub human : ℕ

-- `getattr(amounts, field)`
abbrev pub getattr : BudgetAmounts → Dimension → ℕ
getattr a time_seconds = a.time
getattr a input_tokens = a.input
getattr a output_tokens = a.output
getattr a cost_microusd = a.cost
getattr a retry_units = a.retry
getattr a human_attention_units = a.human

abbrev pub amounts_of : (Dimension → ℕ) → BudgetAmounts
amounts_of f = record {
  time = f time_seconds;
  input = f input_tokens;
  output = f output_tokens;
  cost = f cost_microusd;
  retry = f retry_units;
  human = f human_attention_units;
}

pub getattr-amounts_of : (f : Dimension → ℕ) (d : Dimension) → getattr (amounts_of f) d ≡ f d
getattr-amounts_of f time_seconds = refl
getattr-amounts_of f input_tokens = refl
getattr-amounts_of f output_tokens = refl
getattr-amounts_of f cost_microusd = refl
getattr-amounts_of f retry_units = refl
getattr-amounts_of f human_attention_units = refl

-- Two amounts that agree in every dimension are equal.
pub amounts_ext : (a b : BudgetAmounts) → ((d : Dimension) → getattr a d ≡ getattr b d) → a ≡ b
amounts_ext a b h = λ i. record {
  time = h time_seconds i;
  input = h input_tokens i;
  output = h output_tokens i;
  cost = h cost_microusd i;
  retry = h retry_units i;
  human = h human_attention_units i;
}

-- A Python integer, as SQLite's SUM returns one: `negsuc n` is -(n + 1).
pub data ℤ : Type 0 where
  pos : ℕ → ℤ
  negsuc : ℕ → ℤ

-- a - b
unfoldable pub sub_ℕ : ℕ → ℕ → ℤ
sub_ℕ a b = if leb b a then pos (a - b) else negsuc (b - a - 1)

-- One round of the loop of `__post_init__`.
unfoldable pub check_amount : Dimension → ℤ → Result ℕ
check_amount d (pos n) =
    if leb n (limits d) then ok n else err (budget_error "must be an integer in [0,maximum]")
check_amount d (negsuc n) = err (budget_error "must be an integer in [0,maximum]")

-- `BudgetAmounts(…)` on integers; the loop raises at the first dimension that is out of range.
unfoldable pub budget_amounts : (Dimension → ℤ) → Result BudgetAmounts
budget_amounts f = do
  t ← check_amount time_seconds (f time_seconds)
  i ← check_amount input_tokens (f input_tokens)
  o ← check_amount output_tokens (f output_tokens)
  c ← check_amount cost_microusd (f cost_microusd)
  r ← check_amount retry_units (f retry_units)
  h ← check_amount human_attention_units (f human_attention_units)
  ok (record { time = t; input = i; output = o; cost = c; retry = r; human = h })

abbrev pub is_zero_at : BudgetAmounts → Dimension → Bool
is_zero_at a d = leb (getattr a d) 0

-- `not any(asdict(self).values())`
unfoldable pub is_zero : BudgetAmounts → Bool
is_zero a =
    is_zero_at a time_seconds
    && is_zero_at a input_tokens
    && is_zero_at a output_tokens
    && is_zero_at a cost_microusd
    && is_zero_at a retry_units
    && is_zero_at a human_attention_units

unfoldable pub BudgetAmounts-discrete : Discrete BudgetAmounts
BudgetAmounts-discrete = hlevel ℕ_discrete

-- A `for field in _LIMITS` loop with a test that raises.
unfoldable pub all_fields : (Dimension → Bool) → Bool
all_fields p =
    p time_seconds
    && p input_tokens
    && p output_tokens
    && p cost_microusd
    && p retry_units
    && p human_attention_units

pub all_fields-at : (p : Dimension → Bool) → all_fields p ≡ true → (d : Dimension) → p d ≡ true
unfolding all_fields
all_fields-at p h time_seconds = ground arith
all_fields-at p h input_tokens = ground arith
all_fields-at p h output_tokens = ground arith
all_fields-at p h cost_microusd = ground arith
all_fields-at p h retry_units = ground arith
all_fields-at p h human_attention_units = ground arith

check_amount-ok :
    (d : Dimension) (z : ℤ) (n : ℕ) → check_amount d z ≡ ok n → (z ≡ pos n) × (n ≤ limits d)
unfolding check_amount
check_amount-ok d (pos m) n h = ground arith
check_amount-ok d (negsuc m) n h = cc

-- What `BudgetAmounts(…)` accepts is what it was given, within the limits.
pub budget_amounts-ok :
    (f : Dimension → ℤ) (a : BudgetAmounts)
    → budget_amounts f ≡ ok a
    → (d : Dimension) → (f d ≡ pos (getattr a d)) × (getattr a d ≤ limits d)
unfolding budget_amounts
budget_amounts-ok f a h =
    let (t, ht, h1) = bind-ok _ _ h in
    let (i, hi, h2) = bind-ok _ _ h1 in
    let (o, ho, h3) = bind-ok _ _ h2 in
    let (c, hc, h4) = bind-ok _ _ h3 in
    let (r, hr, h5) = bind-ok _ _ h4 in
    let (u, hu, h6) = bind-ok _ _ h5 in go t i o c r u ht hi ho hc hr hu h6
  where
    go :
        (t i o c r u : ℕ)
        → check_amount time_seconds (f time_seconds) ≡ ok t
        → check_amount input_tokens (f input_tokens) ≡ ok i
        → check_amount output_tokens (f output_tokens) ≡ ok o
        → check_amount cost_microusd (f cost_microusd) ≡ ok c
        → check_amount retry_units (f retry_units) ≡ ok r
        → check_amount human_attention_units (f human_attention_units) ≡ ok u
        → ok (record { time = t; input = i; output = o; cost = c; retry = r; human = u }) ≡ ok a
        → (d : Dimension) → (f d ≡ pos (getattr a d)) × (getattr a d ≤ limits d)
    go t i o c r u ht hi ho hc hr hu e time_seconds =
        ground (arith, check_amount-ok time_seconds (f time_seconds) t ht)
    go t i o c r u ht hi ho hc hr hu e input_tokens =
        ground (arith, check_amount-ok input_tokens (f input_tokens) i hi)
    go t i o c r u ht hi ho hc hr hu e output_tokens =
        ground (arith, check_amount-ok output_tokens (f output_tokens) o ho)
    go t i o c r u ht hi ho hc hr hu e cost_microusd =
        ground (arith, check_amount-ok cost_microusd (f cost_microusd) c hc)
    go t i o c r u ht hi ho hc hr hu e retry_units =
        ground (arith, check_amount-ok retry_units (f retry_units) r hr)
    go t i o c r u ht hi ho hc hr hu e human_attention_units =
        ground (arith, check_amount-ok human_attention_units (f human_attention_units) u hu)

abbrev pub no_amounts : BudgetAmounts
no_amounts = record { time = 0; input = 0; output = 0; cost = 0; retry = 0; human = 0 }

pub is_zero-getattr : (a : BudgetAmounts) → is_zero a ≡ true → (d : Dimension) → getattr a d ≡ 0
unfolding is_zero
is_zero-getattr a h time_seconds = ground arith
is_zero-getattr a h input_tokens = ground arith
is_zero-getattr a h output_tokens = ground arith
is_zero-getattr a h cost_microusd = ground arith
is_zero-getattr a h retry_units = ground arith
is_zero-getattr a h human_attention_units = ground arith

pub budget_amounts-zero :
    (f : Dimension → ℤ) → ((d : Dimension) → f d ≡ pos 0) → budget_amounts f ≡ ok no_amounts
unfolding budget_amounts check_amount ◌>>=◌
budget_amounts-zero f h = rw (
  h time_seconds,
  h input_tokens,
  h output_tokens,
  h cost_microusd,
  h retry_units,
  h human_attention_units,
)

pub sub_ℕ-pos : (a b n : ℕ) → sub_ℕ a b ≡ pos n → a ≡ b + n
unfolding sub_ℕ
sub_ℕ-pos a b n h = ground arith

pub sub_ℕ_self : (a b : ℕ) → a ≡ b → sub_ℕ a b ≡ pos 0
unfolding sub_ℕ
sub_ℕ_self a b h = ground arith

pub check_amount-pos :
    (d : Dimension) (z : ℤ) (n : ℕ) → z ≡ pos n → n ≤ limits d → check_amount d z ≡ ok n
unfolding check_amount
check_amount-pos d z n h within = rw h (ground arith)

-- Integers within the limits are accepted as they are.
pub budget_amounts-pos :
    (f : Dimension → ℤ) (a : BudgetAmounts)
    → ((d : Dimension) → (f d ≡ pos (getattr a d)) × (getattr a d ≤ limits d))
    → budget_amounts f ≡ ok a
unfolding budget_amounts ◌>>=◌
budget_amounts-pos f a h = rw (
  at time_seconds,
  at input_tokens,
  at output_tokens,
  at cost_microusd,
  at retry_units,
  at human_attention_units,
)
  where
    at : (d : Dimension) → check_amount d (f d) ≡ ok (getattr a d)
    at d = check_amount-pos d (f d) (getattr a d) (h d).0 (h d).1

pub sub_ℕ-add : (a b n : ℕ) → a ≡ b + n → sub_ℕ a b ≡ pos n
unfolding sub_ℕ
sub_ℕ-add a b n h = ground arith
