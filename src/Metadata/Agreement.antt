-- ===== src/Metadata/Agreement.antt =====
-- What an accepted observation (src/agentic_os/metadata.py, lines 116 to 133) says, field by field.
use openclaw_agentic_os.Prelude.{
  String, Bool, true, false, ◌||◌, ◌≡◌, ◌≢◌, refl, sym, ap, ◌∙◌, Option, none, some, List, [], ◌∷◌,
  ◌=ₜ◌, one_of, eq_of_text, text_self, text_of_ne, if◌then◌else◌,
}
use openclaw_agentic_os.Result.{ok, err, metadata_error, bind-ok}
use openclaw_agentic_os.Metadata.Json.{
  Json, str, int, boolean, null, constant, array, object, Members, member, Decoder, get,
  raw_json_object-ok,
}
use openclaw_agentic_os.Metadata.Fields.{
  Values, restrict, nonempty_text, nonempty_fields, exact_nonempty_fields,
}
use openclaw_agentic_os.Metadata.Observation.{
  raw_object, validate_metadata_observation, validated_agree,
}
use openclaw_agentic_os.Metadata.Probe.{item}

nonempty_text-ok :
    (found : Option Json) (s : String)
    → nonempty_text found ≡ ok s
    → (found ≡ some (str s)) × (s ≢ "")
unfolding nonempty_text
nonempty_text-ok none s h = cc
nonempty_text-ok (some (str t)) s h = go (t =ₜ "") refl h
  where
    go :
        (b : Bool)
        → (t =ₜ "") ≡ b
        → (if b then err (metadata_error "must be a non-empty string") else ok t) ≡ ok s
        → (some (str t) ≡ some (str s)) × (s ≢ "")
    go true at e = cc
    go false at e =
        let same_text : t ≡ s = cc e in
        (
          ap (λ x. some (str x)) same_text,
          λ empty. cc (sym at ∙ ap (λ x. x =ₜ "") (same_text ∙ empty) ∙ text_self ""),
        )
nonempty_text-ok (some (int n)) s h = cc
nonempty_text-ok (some (boolean b)) s h = cc
nonempty_text-ok (some null) s h = cc
nonempty_text-ok (some Json.other) s h = cc
nonempty_text-ok (some constant) s h = cc
nonempty_text-ok (some (object ms)) s h = cc
nonempty_text-ok (some (array es)) s h = cc

-- A field's value in the members and in the validated dict.
record IsRead (field : String) (ms : Members) (v : Values) : Type 0 where
  pub value : String
  pub nonempty : value ≢ ""
  pub validated : item field v ≡ some value
  pub held : get field ms ≡ some (str value)

nonempty_fields-IsRead :
    (ms : Members) (fields : List String) (v : Values) (field : String)
    → nonempty_fields ms fields ≡ ok v
    → one_of field fields ≡ true
    → IsRead field ms v
unfolding nonempty_fields one_of item
nonempty_fields-IsRead ms [] v field h there = cc
nonempty_fields-IsRead ms (f ∷ fs) v field h there =
    let (s, text, h1) = bind-ok _ _ h in
    let (rest, others, h2) = bind-ok _ _ h1 in
    let (found, filled) = nonempty_text-ok _ s text in
    let same_values : ◌≡◌ {A = Values} ((f, s) ∷ rest) v = cc h2 in
    rw (← same_values) (
      go s rest found filled (field =ₜ f) refl there
        (λ later. nonempty_fields-IsRead ms fs rest field others later))
  where
    apart : (field =ₜ f) ≡ false → f ≢ field
    apart at e = cc (sym at ∙ ap (λ x. x =ₜ f) (sym e) ∙ text_self f)

    go :
        (s : String) (rest : Values)
        → get f ms ≡ some (str s)
        → s ≢ ""
        → (b : Bool) → (field =ₜ f) ≡ b
        → (b || one_of field fs) ≡ true
        → (one_of field fs ≡ true → IsRead field ms rest)
        → IsRead field ms ((f, s) ∷ rest)
    go s rest found filled true at here later = record {
      value = s;
      nonempty = filled;
      validated =
          ap (λ b. if b then some s else item field rest)
            (ap (λ x. f =ₜ x) (eq_of_text field f at) ∙ text_self f);
      held = ap (λ x. get x ms) (eq_of_text field f at) ∙ found;
    }
    go s rest found filled false at here later =
        let r = later here in
        record {
          value = r.value;
          nonempty = r.nonempty;
          validated =
              ap (λ b. if b then some s else item field rest) (text_of_ne f field (apart at))
              ∙ r.validated;
          held = r.held;
        }

exact_nonempty_fields-IsRead :
    (ms : Members) (fields : List String) (v : Values) (field : String)
    → exact_nonempty_fields ms fields ≡ ok v
    → one_of field fields ≡ true
    → IsRead field ms v
unfolding exact_nonempty_fields
exact_nonempty_fields-IsRead ms fields v field h there =
    let (u, exact, h1) = bind-ok _ _ h in nonempty_fields-IsRead ms fields v field h1 there

-- What the restriction holds, the members hold.
restrict-get :
    (ms : Members) (fields : List String) (field : String) (value : Json)
    → get field (restrict ms fields) ≡ some value
    → get field ms ≡ some value
unfolding restrict get
restrict-get ms [] field value h = cc
restrict-get ms (f ∷ fs) field value h = go (get f ms) refl (restrict-get ms fs field value) h
  where
    go :
        (found : Option Json)
        → get f ms ≡ found
        → (get field (restrict ms fs) ≡ some value → get field ms ≡ some value)
        → get field (elim found [ none ↦ restrict ms fs | some v ↦ member f v (restrict ms fs) ])
          ≡ some value
        → get field ms ≡ some value
    go none at rest e = rest e
    go (some v) at rest e = pick (f =ₜ field) refl e
      where
        pick :
            (b : Bool)
            → (f =ₜ field) ≡ b
            → (if b then some v else get field (restrict ms fs)) ≡ some value
            → get field ms ≡ some value
        pick true here x = ap (λ t. get t ms) (sym (eq_of_text f field here)) ∙ at ∙ x
        pick false here x = rest x

raw_object-IsRead :
    (decoder : Decoder) (raw : String) (fields : List String) (v : Values) (field : String)
    → raw_object decoder raw fields ≡ ok v
    → one_of field fields ≡ true
    → (ms : Members) × (decoder.loads raw ≡ some (object ms)) × IsRead field ms v
unfolding raw_object
raw_object-IsRead decoder raw fields v field h there =
    let (ms, loaded, h1) = bind-ok _ _ h in
    let (u, complete, h2) = bind-ok _ _ h1 in
    let r = exact_nonempty_fields-IsRead (restrict ms fields) fields v field h2 there in
    (
      ms,
      raw_json_object-ok decoder raw ms loaded,
      record {
        value = r.value;
        nonempty = r.nonempty;
        validated = r.validated;
        held = restrict-get ms fields field (str r.value) r.held;
      },
    )

same_value :
    {field : String} {ms ns : Members} {v : Values} (r : IsRead field ms v) (s : IsRead field ns v)
    → get field ns ≡ some (str r.value)
same_value r s =
    let e : s.value ≡ r.value = cc (sym s.validated ∙ r.validated) in
    s.held ∙ ap (λ x. some (str x)) e

-- An observation is accepted only when the three accounts of it agree: for each of the fields there is
-- one non-empty text that the local intent, the normalized metadata and the object of the raw JSON
-- all hold at the field, and the validated dict holds it too.
pub validated_fields_agree :
    (decoder : Decoder) (local : Members) (normalized : Option Members)
    (raw_json version : Option String) (fields : List String) (v : Values) (field : String)
    → validate_metadata_observation decoder local normalized raw_json version fields ≡ ok v
    → one_of field fields ≡ true
    → (value : String) × (value ≢ "")
      × (item field v ≡ some value)
      × (get field local ≡ some (str value))
      × (observed : Members) × (normalized ≡ some observed)
      × (get field observed ≡ some (str value))
      × (raw : String) × (ms : Members) × (raw_json ≡ some raw)
      × (decoder.loads raw ≡ some (object ms))
      × (get field ms ≡ some (str value))
validated_fields_agree decoder local normalized raw_json version fields v field h there =
    let (observed, raw, has_normalized, has_raw, at_local, at_observed, at_raw) =
      validated_agree decoder local normalized raw_json version fields v h in
    let r = exact_nonempty_fields-IsRead local fields v field at_local there in
    let s = exact_nonempty_fields-IsRead observed fields v field at_observed there in
    let (ms, loaded, t) = raw_object-IsRead decoder raw fields v field at_raw there in
    (
      r.value,
      r.nonempty,
      r.validated,
      r.held,
      observed,
      has_normalized,
      same_value r s,
      raw,
      ms,
      has_raw,
      loaded,
      same_value r t,
    )
