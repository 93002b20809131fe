-- ===== src/Dispatch/Storage.antt =====
-- What a release stores of the gateway's metadata.
use openclaw_agentic_os.Prelude.{
  String, Bool, true, false, ◌≡◌, ◌≢◌, refl, sym, ap, ◌∙◌, Option, none, some, ◌=ₜ◌, text_self,
  text_of_ne, eq_of_text, if◌then◌else◌,
}
use openclaw_agentic_os.Result.{ok}
use openclaw_agentic_os.Metadata.Json.{Json, str, object, Members, no_members, member, get}
use openclaw_agentic_os.Dispatch.World.{Platform}
use openclaw_agentic_os.Dispatch.Release.{
  set_member, plain, plain_members, storage_members, storage_of, text_of,
  release_storage_metadata_json,
}

-- What setting a key does to a read.
set_member-get :
    (key field : String) (value : Json) (ms : Members)
    → get field (set_member key value ms) ≡ (if key =ₜ field then some value else get field ms)
unfolding set_member get
set_member-get key field value no_members = refl
set_member-get key field value (member k v ms) =
    go (k =ₜ key) refl (set_member-get key field value ms)
  where
    go :
        (b : Bool)
        → (k =ₜ key) ≡ b
        → get field (set_member key value ms) ≡ (if key =ₜ field then some value else get field ms)
        → get field (if b then member k value ms else member k v (set_member key value ms))
          ≡ (if key =ₜ field then some value else if k =ₜ field then some v else get field ms)
    go true e rest = rw (eq_of_text k key e) (again (key =ₜ field))
      where
        again :
            (c : Bool)
            → (if c then some value else get field ms)
              ≡ (if c then some value else if c then some v else get field ms)
        again true = refl
        again false = refl
    go false e rest = apart (k =ₜ field) (key =ₜ field) refl refl
      where
        apart :
            (c d : Bool)
            → (k =ₜ field) ≡ c
            → (key =ₜ field) ≡ d
            → (if c then some v else get field (set_member key value ms))
              ≡ (if d then some value else if c then some v else get field ms)
        apart true true x y = absurd (differ (eq_of_text k field x ∙ sym (eq_of_text key field y)))
          where
            differ : k ≡ key → ⊥
            differ same_key = cc (sym e ∙ ap (λ t. t =ₜ key) same_key ∙ text_self key)
        apart true false x y = refl
        apart false true x y = rest ∙ ap (λ d. if d then some value else get field ms) y
        apart false false x y = rest ∙ ap (λ d. if d then some value else get field ms) y

-- The last of the values of a field in a text's pairs, and what stood before where there is none.
unfoldable pub last_value : String → Members → Option Json → Option Json
last_value field no_members before = before
last_value field (member k v ms) before =
    last_value field ms (if k =ₜ field then some (plain v) else before)

plain_members-get :
    (field : String) (so_far ms : Members)
    → get field (plain_members so_far ms) ≡ last_value field ms (get field so_far)
unfolding plain_members last_value
plain_members-get field so_far no_members = refl
plain_members-get field so_far (member k v ms) =
    plain_members-get field (set_member k (plain v) so_far) ms
    ∙ ap (last_value field ms) (set_member-get k field (plain v) so_far)

-- The text of a dict loads back as an object that reads as the dict.
abbrev pub LoadsBack : Platform → Members → Type 0
LoadsBack platform ms =
    (back : Members) × (platform.decoder.loads (platform.dumps ms) ≡ some (object back))
    × ((field : String) → get field back ≡ get field ms)

-- What a release stores reads back. Where the raw metadata is the JSON of an object, and json.loads
-- gives back the dict that stable_json is given here, release_storage_metadata_json returns a text
-- that loads as an object whose idempotency_key is the release's key; any other field of it reads as
-- in the raw metadata, the last of its values where the raw metadata repeats the field.
pub release_storage_metadata_json-reads :
    (platform : Platform) (raw key field : String) (ms : Members)
    → platform.decoder.loads raw ≡ some (object ms)
    → LoadsBack platform (storage_members key ms)
    → field ≢ "idempotency_key"
    → (stored : String) × (release_storage_metadata_json platform (some raw) key ≡ ok stored)
      × (back : Members) × (platform.decoder.loads stored ≡ some (object back))
      × (get "idempotency_key" back ≡ some (str key))
      × (get field back ≡ last_value field ms none)
unfolding release_storage_metadata_json storage_of storage_members text_of get
release_storage_metadata_json-reads platform raw key field ms loaded (back, written, reads_as) ne =
    (
      platform.dumps (storage_members key ms),
      ap (storage_of platform key) loaded,
      back,
      written,
      reads_as "idempotency_key"
          ∙ set_member-get "idempotency_key" "idempotency_key" (str key)
              (plain_members no_members ms)
          ∙ ap
              (λ b.
                if b then some (str key) else get "idempotency_key" (plain_members no_members ms))
              (text_self "idempotency_key"),
      reads_as field
          ∙ set_member-get "idempotency_key" field (str key) (plain_members no_members ms)
          ∙ ap (λ b. if b then some (str key) else get field (plain_members no_members ms))
              (text_of_ne "idempotency_key" field (λ e. ne (sym e)))
          ∙ plain_members-get field no_members ms,
    )
