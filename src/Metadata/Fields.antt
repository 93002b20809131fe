-- ===== src/Metadata/Fields.antt =====
-- The fields of an observation (src/agentic_os/metadata.py, lines 18 to 68).
use openclaw_agentic_os.Prelude.{
  ℕ, String, Bool, true, ◌&&◌, Option, none, some, List, [], ◌∷◌, ◌=ₜ◌, one_of, if◌then◌else◌,
  String-discrete,
}
use openclaw_agentic_os.Result.{Result, ok, err, metadata_error, require, ◌>>=◌, ◌>>◌}
use openclaw_agentic_os.Metadata.Json.{Json, str, Members, no_members, member, has_key, get}

abbrev pub session_fields : List String
session_fields =
    "run_id" ∷ "transition_id" ∷ "client_request_id" ∷ "idempotency_key" ∷ "phase" ∷ "agent_id"
    ∷ "task_digest" ∷ []

abbrev pub allow_lease_identity_fields : List String
allow_lease_identity_fields =
    "client_lease_id" ∷ "idempotency_key" ∷ "run_id" ∷ "phase" ∷ "transition_id" ∷ "agent_id"
    ∷ "requester_agent_id" ∷ []

abbrev pub allow_lease_observed_fields : List String
allow_lease_observed_fields =
    "client_lease_id" ∷ "idempotency_key" ∷ "run_id" ∷ "phase" ∷ "transition_id" ∷ "agent_id"
    ∷ "requester_agent_id" ∷ "ttl_ms" ∷ "gateway_lease_id" ∷ []

abbrev pub allow_lease_release_fields : List String
allow_lease_release_fields =
    "client_lease_id" ∷ "release_idempotency_key" ∷ "run_id" ∷ "phase" ∷ "transition_id"
    ∷ "agent_id" ∷ "requester_agent_id" ∷ "gateway_lease_id" ∷ []

abbrev pub max_lease_ttl_ms : ℕ
max_lease_ttl_ms = 31_536_000_000

-- A validated dict: its texts in the order of its fields.
abbrev pub Values : Type 0
Values = List (String × String)

unfoldable pub Values-discrete : Discrete Values
Values-discrete = hlevel String-discrete

-- `[field for field in fields if field not in value]` is empty.
unfoldable pub has_fields : List String → Members → Bool
unfolding has_key
has_fields [] value = true
has_fields (f ∷ fs) value = has_key f value && has_fields fs value

known_keys : List String → Members → Bool
unfolding one_of
known_keys fields no_members = true
known_keys fields (member k v ms) = one_of k fields && known_keys fields ms

-- `set(value) == set(fields)`
unfoldable pub same_keys : Members → List String → Bool
unfolding known_keys has_fields
same_keys value fields = known_keys fields value && has_fields fields value

-- `{field: value[field] for field in fields}`, where no field is missing.
unfoldable pub restrict : Members → List String → Members
unfolding get
restrict value [] = no_members
restrict value (f ∷ fs) = elim (get f value) [
  | none ↦ restrict value fs
  | some v ↦ member f v (restrict value fs)
]

unfoldable pub nonempty_text : Option Json → Result String
nonempty_text (some (str s)) =
    if s =ₜ "" then err (metadata_error "must be a non-empty string") else ok s
nonempty_text _ = err (metadata_error "must be a non-empty string")

unfoldable pub nonempty_fields : Members → List String → Result Values
unfolding nonempty_text get
nonempty_fields value [] = ok []
nonempty_fields value (f ∷ fs) = do
  item ← nonempty_text (get f value)
  rest ← nonempty_fields value fs
  ok ((f, item) ∷ rest)

unfoldable pub exact_nonempty_fields : Members → List String → Result Values
unfolding nonempty_fields same_keys
exact_nonempty_fields value fields = do
  require (same_keys value fields) (metadata_error "must contain exactly its fields")
  nonempty_fields value fields
