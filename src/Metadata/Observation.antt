-- ===== src/Metadata/Observation.antt =====
-- A session's observation and the accepted identities (src/agentic_os/metadata.py, lines 108 to 145
-- and 230 to 262).
use openclaw_agentic_os.Prelude.{
  String, Bool, true, false, not, ◌&&◌, Option, none, some, List, ◌=ₜ◌, same, ◌≡◌, refl, sym, ◌∙◌,
  ap, eq_of_same,
}
use openclaw_agentic_os.Result.{
  Result, ok, err, metadata_error, require, ◌>>=◌, ◌>>◌, bind-ok, require-ok,
}
use openclaw_agentic_os.Metadata.Json.{Members, Decoder, raw_json_object}
use openclaw_agentic_os.Metadata.Fields.{
  Values, Values-discrete, session_fields, has_fields, restrict, exact_nonempty_fields,
}

unfoldable pub raw_object : Decoder → String → List String → Result Values
raw_object decoder raw_json fields = do
  value ← raw_json_object decoder raw_json
  require (has_fields fields value)
      (metadata_error "raw external metadata is missing required fields")
  exact_nonempty_fields (restrict value fields) fields

-- `metadata_contract_version`, as each validator tests it.
unfoldable pub contract_version : Option String → Result (Unit {0})
contract_version none = err (metadata_error "metadata contract version is absent")
contract_version (some version) =
    require (not (version =ₜ "")) (metadata_error "metadata contract version is absent")

-- `normalized` and `raw_json`, neither of them None.
unfoldable pub both_required : Option Members → Option String → Result (Members × String)
both_required (some normalized) (some raw_json) = ok (normalized, raw_json)
both_required _ _ = err (metadata_error "normalized and raw external metadata are required")

unfoldable pub validate_metadata_observation :
    Decoder → Members → Option Members → Option String → Option String → List String → Result Values
unfolding Values-discrete
validate_metadata_observation decoder local normalized raw_json version fields = do
  contract_version version
  observed ← both_required normalized raw_json
  local_values ← exact_nonempty_fields local fields
  observed_values ← exact_nonempty_fields observed.0 fields
  raw_values ← raw_object decoder observed.1 fields
  require
      (same Values-discrete local_values observed_values
        && same Values-discrete observed_values raw_values)
      (metadata_error "local, normalized, and raw metadata do not match")
  ok observed_values

unfoldable pub validate_session_observation :
    Decoder → Members → Option Members → Option String → Option String → Result Values
validate_session_observation decoder local normalized raw_json version =
    validate_metadata_observation decoder local normalized raw_json version session_fields

-- A value that is a non-empty `str`.
unfoldable pub nonempty : String → Option String → Result String
nonempty message none = err (metadata_error message)
nonempty message (some s) = require (not (s =ₜ "")) (metadata_error message) >> ok s

-- A duplicate's identity, if there is one, against the accepted identity.
unfoldable pub same_duplicate : String → Option String → String → Result (Unit {0})
same_duplicate message none accepted = ok tt
same_duplicate message (some duplicate) accepted =
    require (not (duplicate =ₜ "") && (duplicate =ₜ accepted)) (metadata_error message)

unfoldable pub validate_accepted_lease_identity : Option String → Option String → Result String
validate_accepted_lease_identity gateway_lease_id duplicate_acquire_lease_id = do
  accepted ← nonempty "accepted gateway lease identity must be non-empty" gateway_lease_id
  same_duplicate "duplicate allowLease acquire returned a different lease identity"
      duplicate_acquire_lease_id accepted
  ok accepted

unfoldable pub validate_accepted_session_identity :
    Option String → Option String → Option String → Option String → Result String
validate_accepted_session_identity external_id spawn_request_session_key session_key duplicate = do
  external ← nonempty "accepted session identity must be stable and non-empty" external_id
  spawned ←
      nonempty "accepted session identity must be stable and non-empty" spawn_request_session_key
  key ← nonempty "accepted session identity must be stable and non-empty" session_key
  require ((external =ₜ spawned) && (external =ₜ key))
      (metadata_error "accepted session identity tuple does not match")
  same_duplicate "duplicate spawn returned a different session identity" duplicate external
  ok external

both_required-ok :
    (n : Option Members) (r : Option String) (o : Members × String)
    → both_required n r ≡ ok o
    → (n ≡ some o.0) × (r ≡ some o.1)
unfolding both_required
both_required-ok (some a) (some b) o e = (cc, cc)
both_required-ok none b o e = cc
both_required-ok (some a) none o e = cc

both_tests : (p q : Bool) → (p && q) ≡ true → (p ≡ true) × (q ≡ true)
both_tests true true e = (refl, refl)
both_tests true false e = cc
both_tests false q e = cc

-- Three results whose values are equal are one.
three_agree :
    (a b c : Result Values) (x y z v : Values)
    → a ≡ ok x
    → b ≡ ok y
    → c ≡ ok z
    → (same Values-discrete x y && same Values-discrete y z) ≡ true
    → ◌≡◌ {A = Result Values} (ok y) (ok v)
    → (a ≡ ok v) × (b ≡ ok v) × (c ≡ ok v)
three_agree a b c x y z v ax by cz agree done =
    let (xy, yz) = both_tests (same Values-discrete x y) (same Values-discrete y z) agree in
    let e1 : x ≡ y = eq_of_same Values-discrete x y xy in
    let e2 : y ≡ z = eq_of_same Values-discrete y z yz in
    (ax ∙ ap ok e1 ∙ done, by ∙ done, cz ∙ ap ok (sym e2) ∙ done)

-- The three readings of an accepted observation.
pub validated_agree :
    (decoder : Decoder) (local : Members) (normalized : Option Members)
    (raw_json version : Option String) (fields : List String) (v : Values)
    → validate_metadata_observation decoder local normalized raw_json version fields ≡ ok v
    → (observed : Members) × (raw : String) × (normalized ≡ some observed)
      × (raw_json ≡ some raw)
      × (exact_nonempty_fields local fields ≡ ok v)
      × (exact_nonempty_fields observed fields ≡ ok v)
      × (raw_object decoder raw fields ≡ ok v)
unfolding validate_metadata_observation
validated_agree decoder local normalized raw_json version fields v h =
    let (u, versioned, h1) = bind-ok _ _ h in
    let (observed, present, h2) = bind-ok _ _ h1 in
    let (x, local_ok, h3) = bind-ok _ _ h2 in
    let (y, observed_ok, h4) = bind-ok _ _ h3 in
    let (z, raw_ok, h5) = bind-ok _ _ h4 in
    let (w, agree, h6) = bind-ok _ _ h5 in
    let (found, raw_found) = both_required-ok normalized raw_json observed present in
    let (e1, e2, e3) =
      three_agree _ _ _ x y z v local_ok observed_ok raw_ok (require-ok _ _ agree) h6 in
    (observed.0, observed.1, found, raw_found, e1, e2, e3)
