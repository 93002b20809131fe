-- ===== src/Dispatch/World.antt =====
-- What the dispatcher acts on, what it calls, and how it writes: statements that the schema may
-- refuse, transactions, the clock (src/agentic_os/runtime_dispatch.py, lines 87 to 97 and 158 to 167).
use openclaw_agentic_os.Prelude.{
  ℕ, ◌+◌, String, Bool, true, false, Option, List, [], ◌∷◌, if◌then◌else◌, same, ℕ_discrete,
}
use openclaw_agentic_os.Result.{Error, Result, ok, err, sqlite_error, dispatch_error, require}
use openclaw_agentic_os.Transaction.{Action, reads, ◌>>=◌, ◌>>◌}
use openclaw_agentic_os.Metadata.Json.{Members, Decoder}
use openclaw_agentic_os.Dispatch.Rows.{Db}

-- `MetadataObservation` of `openclaw_adapter`, in the fields that the dispatcher reads.
pub record Observation : Type 0 where
  pub metadata_contract_version : Option String
  pub normalized : Option Members
  pub raw_json : Option String
  pub external_id : Option String
  pub spawn_request_session_key : Option String
  pub session_key : Option String
  pub status_metadata_json : Option String

-- A call of the adapter: it returns, it raises one of AMBIGUOUS_TRANSPORT_ERRORS, with the
-- candidate that the exception may carry, or it raises another exception.
pub data Outcome : Type 0 where
  observed : Observation → Outcome
  ambiguous : String → Option Observation → Outcome
  raised : Error → Outcome

-- `MetadataCapableOpenClawAdapter`, in the calls that the dispatcher makes, over a state of its own.
pub record Adapter (S : Type 0) : Type 0 where
  pub allow_lease_acquire : Members → S → Outcome × S
  pub allow_lease_release : Members → S → Outcome × S
  pub sessions_spawn : Members → S → Outcome × S

-- Python's library and SQLite: `hashlib.sha256(…).hexdigest()`, `time.strftime` on a time,
-- `json.dumps` with sorted keys, `json.loads`, the LIKE operator, and whether the constraints and
-- triggers of the schema admit a statement that leads from one database to another.
pub record Platform : Type 0 where
  pub sha256_hex : String → String
  pub strftime : ℕ → String
  pub dumps : Members → String
  pub decoder : Decoder
  pub like : String → String → Bool
  pub admits : Db → Db → Bool

-- `time.time() * 1000` at each reading of a clock.
abbrev pub Clock : Type 0 → Type 0
Clock T = T → ℕ × T

-- The database, the clock's state and the adapter's.
pub record World (T S : Type 0) : Type 0 where
  pub db : Db
  pub time : T
  pub outside : S

-- Rows that an UPDATE's WHERE selects.
unfoldable pub count_where : {A : Type 0} → (A → Bool) → List A → ℕ
count_where selects [] = 0
count_where selects (x ∷ xs) = (if selects x then 1 else 0) + count_where selects xs

unfoldable pub update_where : {A : Type 0} → (A → Bool) → (A → A) → List A → List A
update_where selects set [] = []
update_where selects set (x ∷ xs) = (if selects x then set x else x) ∷ update_where selects set xs

abbrev pub restore : {T S A : Type 0} → Db → Result A → World T S → Result A × World T S
restore before (ok a) w = (ok a, w)
restore before (err e) w = (err e, record w { db = before })

abbrev pub run_statement : {T S : Type 0} → Bool → Db → World T S → Result (Unit {0}) × World T S
run_statement true after w = (ok tt, record w { db = after })
run_statement false after w = (err (sqlite_error "constraint failed"), w)

module _ {T S : Type 0} where
  -- `now_utc`, in milliseconds.
  unfoldable pub now_utc : Clock T → Action (World T S) ℕ
  now_utc clock w = (ok (clock w.time).0, record w { time = (clock w.time).1 })

  -- `immediate_transaction`: a rollback restores the tables, and nothing else.
  unfoldable pub immediate_transaction : {A : Type 0} → Action (World T S) A → Action (World T S) A
  immediate_transaction m w = restore w.db (m w).0 (m w).1

  -- A statement that writes.
  unfoldable pub statement : Platform → (Db → Db) → Action (World T S) Unit
  statement platform change w = run_statement (platform.admits w.db (change w.db)) (change w.db) w

  -- A statement, and the test of its `rowcount`.
  unfoldable pub exactly_one : Platform → String → (Db → ℕ) → (Db → Db) → Action (World T S) Unit
  exactly_one platform message count change = do
    rows ← reads (λ w. ok (count w.db))
    statement platform change
    reads (λ w. require (same ℕ_discrete rows 1) (dispatch_error message))

  -- A call of the adapter.
  unfoldable pub call : (S → Outcome × S) → Action (World T S) Outcome
  call f w = (ok (f w.outside).0, record w { outside = (f w.outside).1 })

  unfoldable pub raises : {A : Type 0} → Error → Action (World T S) A
  raises e w = (err e, w)
