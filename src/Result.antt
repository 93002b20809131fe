-- ===== src/Result.antt =====
-- Python code that may raise, as values: the exceptions of src/agentic_os/budgets.py,
-- src/agentic_os/metadata.py and src/agentic_os/runtime_dispatch.py.
use openclaw_agentic_os.Prelude.{◌≡◌, refl, Bool, true, false, String}

-- The exception classes of `budgets.py`, `MetadataContractError`, `AdapterContractError`,
-- `RuntimeDispatchError` and `sqlite3.Error`, with the message's fixed text; `other_error` is any
-- exception that none of the handlers names.
pub data Error : Type 0 where
  budget_error : String → Error
  budget_conflict : String → Error
  budget_exceeded : String → Error
  metadata_error : String → Error
  adapter_error : String → Error
  dispatch_error : String → Error
  sqlite_error : String → Error
  other_error : String → Error

pub data Result {ℓ} (A : Type ℓ) : Type ℓ where
  ok : A → Result A
  err : Error → Result A

-- `if not test: raise error`
unfoldable pub require : Bool → Error → Result (Unit {0})
require true e = ok tt
require false e = err e

infixl 5 ◌>>=◌ ◌>>◌
-- An exception ends the chain. Opening this opens `require` too.
unfoldable pub ◌>>=◌ {ℓ κ} : {X : Type ℓ} {Y : Type κ} → Result X → (X → Result Y) → Result Y
unfolding require
err raised >>= next = err raised
ok value >>= next = next value

abbrev pub ◌>>◌ {ℓ} : {Y : Type ℓ} → Result (Unit {0}) → Result Y → Result Y
first >> next = first >>= λ done. next

-- Inversion of a chain that returned.
pub bind-ok {ℓ κ} :
    {X : Type ℓ} {Y : Type κ} (first : Result X) (next : X → Result Y) {last : Y}
    → (first >>= next) ≡ ok last
    → (value : X) × (first ≡ ok value) × (next value ≡ ok last)
unfolding ◌>>=◌
bind-ok (err raised) next h = cc
bind-ok (ok value) next h = (value, refl, h)

pub require-ok : (test : Bool) (e : Error) {u : Unit {0}} → require test e ≡ ok u → test ≡ true
unfolding require
require-ok true e h = refl
require-ok false e h = cc
