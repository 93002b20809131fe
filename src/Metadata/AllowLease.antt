-- ===== src/Metadata/AllowLease.antt =====
-- The observations of an allow lease and of its release (src/agentic_os/metadata.py, lines 148 to 227).
use openclaw_agentic_os.Prelude.{
  ℕ, String, Bool, true, false, not, ◌&&◌, Option, none, some, List, [], ◌∷◌, ◌=ₜ◌, same, leb,
  String-discrete, ℕ_discrete, if◌then◌else◌,
}
use openclaw_agentic_os.Result.{Result, ok, err, metadata_error, require, ◌>>=◌, ◌>>◌}
use openclaw_agentic_os.Budget.Amounts.{pos}
use openclaw_agentic_os.Metadata.Json.{Json, str, int, null, Members, Decoder, get, raw_json_object}
use openclaw_agentic_os.Metadata.Fields.{
  Values, Values-discrete, allow_lease_identity_fields, allow_lease_observed_fields,
  allow_lease_release_fields, max_lease_ttl_ms, has_fields, same_keys, restrict, nonempty_text,
  exact_nonempty_fields,
}
use openclaw_agentic_os.Metadata.Observation.{contract_version, both_required}

pub record LeaseValues : Type 0 where
  pub identity : Values
  pub ttl_ms : ℕ
  pub gateway_lease_id : String

unfoldable pub LeaseValues-discrete : Discrete LeaseValues
unfolding Values-discrete
LeaseValues-discrete = hlevel (String-discrete, ℕ_discrete, Values-discrete)

-- `type(ttl_ms) is int and 1 <= ttl_ms <= MAX_LEASE_TTL_MS`
ttl_of : Option Json → Result ℕ
ttl_of (some (int (pos n))) =
    if leb 1 n && leb n max_lease_ttl_ms
    then ok n
    else err (metadata_error "ttl_ms must be an integer in range")
ttl_of _ = err (metadata_error "ttl_ms must be an integer in range")

-- `if exact and set(value) != set(fields): raise`, and the missing fields.
unfoldable pub require_keys : List String → Members → Bool → Result (Unit {0})
require_keys fields value exact = do
  require (if exact then same_keys value fields else true)
      (metadata_error "must contain exactly its fields")
  require (has_fields fields value) (metadata_error "is missing required fields")

unfoldable pub allow_values : Members → Bool → Result LeaseValues
unfolding ttl_of
allow_values value exact = do
  require_keys allow_lease_observed_fields value exact
  identity ←
      exact_nonempty_fields (restrict value allow_lease_identity_fields) allow_lease_identity_fields
  ttl_ms ← ttl_of (get "ttl_ms" value)
  gateway_lease_id ← nonempty_text (get "gateway_lease_id" value)
  ok (record { identity = identity; ttl_ms = ttl_ms; gateway_lease_id = gateway_lease_id })

unfoldable pub validate_allow_lease_observation :
    Decoder → Members → Option Members → Option String → Option String → Result LeaseValues
unfolding LeaseValues-discrete
validate_allow_lease_observation decoder local normalized raw_json version = do
  contract_version version
  observed ← both_required normalized raw_json
  local_values ← allow_values local true
  observed_values ← allow_values observed.0 true
  raw ← raw_json_object decoder observed.1
  raw_values ← allow_values raw false
  require
      (same LeaseValues-discrete local_values observed_values
        && same LeaseValues-discrete observed_values raw_values)
      (metadata_error "local, normalized, and raw metadata do not match")
  ok observed_values

-- The idempotency key that an older observation may carry besides.
legacy_key : Option Json → String → Result (Unit {0})
legacy_key none release_idem = ok tt
legacy_key (some null) release_idem = ok tt
legacy_key (some (str legacy_idem)) release_idem = do
  require (not (legacy_idem =ₜ "")) (metadata_error "idempotency_key must be a non-empty string")
  require (legacy_idem =ₜ release_idem)
      (metadata_error "idempotency_key conflicts with release_idempotency_key")
legacy_key (some _) release_idem = err (metadata_error "idempotency_key must be a non-empty string")

-- `external.pop("release_idempotency_key")` and `external["idempotency_key"] = …`, in place.
rename_key : Values → Values
rename_key [] = []
rename_key ((k, v) ∷ rest) =
    ((if k =ₜ "release_idempotency_key" then "idempotency_key" else k), v) ∷ rename_key rest

unfoldable pub release_values : Members → Bool → Result Values
unfolding legacy_key rename_key
release_values value exact = do
  require_keys allow_lease_release_fields value exact
  external ←
      exact_nonempty_fields (restrict value allow_lease_release_fields) allow_lease_release_fields
  release_idem ← nonempty_text (get "release_idempotency_key" value)
  legacy_key (get "idempotency_key" value) release_idem
  ok (rename_key external)

unfoldable pub validate_allow_lease_release_observation :
    Decoder → Members → Option Members → Option String → Option String → Result Values
unfolding Values-discrete
validate_allow_lease_release_observation decoder local normalized raw_json version = do
  contract_version version
  observed ← both_required normalized raw_json
  local_values ← release_values local true
  observed_values ← release_values observed.0 true
  raw ← raw_json_object decoder observed.1
  raw_values ← release_values raw false
  require
      (same Values-discrete local_values observed_values
        && same Values-discrete observed_values raw_values)
      (metadata_error "local, normalized, and raw metadata do not match")
  ok observed_values
