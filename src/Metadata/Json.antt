-- ===== src/Metadata/Json.antt =====
-- JSON values and the hooks that `_raw_json_object` gives to `json.loads`
-- (src/agentic_os/metadata.py, lines 71 to 105).
use openclaw_agentic_os.Prelude.{
  String, Bool, false, not, ◌||◌, Option, none, some, ◌=ₜ◌, ◌≡◌, ap, ◌∙◌, if◌then◌else◌,
}
use openclaw_agentic_os.Result.{Result, ok, err, metadata_error, require, ◌>>=◌, ◌>>◌, bind-ok}
use openclaw_agentic_os.Budget.Amounts.{ℤ}

mutual
  -- `constant` is one of NaN, Infinity, -Infinity; `other` a float.
  pub data Json : Type 0 where
    str : String → Json
    int : ℤ → Json
    boolean : Bool → Json
    null other constant : Json
    object : Members → Json
    array : Elements → Json

  -- The pairs of an object or the items of a mapping, in order.
  pub data Members : Type 0 where
    no_members : Members
    member : String → Json → Members → Members

  pub data Elements : Type 0 where
    no_elements : Elements
    element : Json → Elements → Elements

-- What `json.loads` does before its hooks run: the tree of a text that is JSON.
pub record Decoder : Type 0 where
  pub loads : String → Option Json

unfoldable pub has_key : String → Members → Bool
has_key key no_members = false
has_key key (member k v ms) = (k =ₜ key) || has_key key ms

-- `value.get(key)`
unfoldable pub get : String → Members → Option Json
get key no_members = none
get key (member k v ms) = if k =ₜ key then some v else get key ms

unfoldable pub reject_duplicate_keys : Members → Result (Unit {0})
unfolding has_key
reject_duplicate_keys no_members = ok tt
reject_duplicate_keys (member k v ms) = do
  require (not (has_key k ms)) (metadata_error "raw external metadata contains duplicate key")
  reject_duplicate_keys ms

-- The hooks, on every object and constant of a text: an object's hook runs once its members stand.
unfoldable mutual
  unfolding reject_duplicate_keys

  pub hooked : Json → Result (Unit {0})
  hooked constant = err (metadata_error "raw external metadata contains non-standard JSON constant")
  hooked (object ms) = hooked_members ms >> reject_duplicate_keys ms
  hooked (array es) = hooked_elements es
  hooked _ = ok tt

  pub hooked_members : Members → Result (Unit {0})
  hooked_members no_members = ok tt
  hooked_members (member k v ms) = hooked v >> hooked_members ms

  pub hooked_elements : Elements → Result (Unit {0})
  hooked_elements no_elements = ok tt
  hooked_elements (element v es) = hooked v >> hooked_elements es

decoded : Option Json → Result Json
unfolding hooked
decoded none = err (metadata_error "raw external metadata is invalid JSON")
decoded (some value) = hooked value >> ok value

as_object : Json → Result Members
as_object (object ms) = ok ms
as_object _ = err (metadata_error "raw external metadata must be a JSON object")

unfoldable pub raw_json_object : Decoder → String → Result Members
unfolding decoded as_object
raw_json_object decoder raw_json = do
  require (not (raw_json =ₜ "")) (metadata_error "raw external metadata is required")
  value ← decoded (decoder.loads raw_json)
  as_object value

decoded-ok : (found : Option Json) (value : Json) → decoded found ≡ ok value → found ≡ some value
unfolding decoded
decoded-ok none value h = cc
decoded-ok (some found) value h = let (u, accepted, h1) = bind-ok _ _ h in cc h1

as_object-ok : (value : Json) (ms : Members) → as_object value ≡ ok ms → value ≡ object ms
unfolding as_object
as_object-ok (object os) ms h = cc h
as_object-ok (str s) ms h = cc
as_object-ok (int n) ms h = cc
as_object-ok (boolean b) ms h = cc
as_object-ok null ms h = cc
as_object-ok other ms h = cc
as_object-ok constant ms h = cc
as_object-ok (array es) ms h = cc

-- Where `_raw_json_object` returns, the text is that of the object.
pub raw_json_object-ok :
    (decoder : Decoder) (raw : String) (ms : Members)
    → raw_json_object decoder raw ≡ ok ms
    → decoder.loads raw ≡ some (object ms)
unfolding raw_json_object
raw_json_object-ok decoder raw ms h =
    let (u, present, h1) = bind-ok _ _ h in
    let (value, found, h2) = bind-ok _ _ h1 in
    decoded-ok _ value found ∙ ap some (as_object-ok value ms h2)
