-- ===== src/Sdk/Client/Laws.antt =====
-- What the client sends is what the token endpoint reads.
use kontxt.Base.{
  String, ◌≡◌, refl, sym, ◌⊎◌, inl, inr, Bool, true, false, not, none, some, [], ◌∷◌, ◌++◌, ◌==◌,
  Eq_nat, Eq_string, Bool-cases, ok, map_err, map_err-eq-ok, bind-eq-ok, guard-eq-ok, subst, ok_inj,
}
use kontxt.Base.Maps.{Map, lookup}
use kontxt.Any.{Any, Object, Json, of_object}
use kontxt.Token
use kontxt.Sdk.Client.{ExchangeRequest, ExchangeError, object_field, type_of, exchange_form}
use kontxt.Tts.Request.{
  TokenExchangeRequest, RequestError, invalid_details, invalid_context, parse_request,
  optional_object, value_at,
}

-- Decoding a marshalled map gives the map back, and no marshalled map is the empty text.
abbrev pub Roundtrips : Json → Type 0
Roundtrips json =
    (m : Map String Any) (s : String)
    → json.marshal (of_object (some m)) ≡ ok s
    → (json.unmarshal s ≡ ok (some m)) × ((s == "") ≡ false)

-- The request that the endpoint is to read.
abbrev pub read_back : ExchangeRequest → TokenExchangeRequest
read_back req = record {
  grant_type = Token.grant_type;
  subject_token = req.subject_token;
  subject_token_type = type_of req;
  requested_token_type = Token.requested_token_type;
  audience = "";
  scope = req.scope;
  request_details = req.request_details;
  request_context = req.request_context;
}

type_there : (req : ExchangeRequest) → (type_of req == "") ≡ false
unfolding type_of
type_there req = elim (Bool-cases (req.subject_token_type == "")) [
  | inl missing ↦ rw (missing, type_of) refl
  | inr there ↦ rw (there, type_of) there
]

not-false : (b : Bool) → not b ≡ true → b ≡ false
not-false false e = refl
not-false true e = cc

module _ (json : Json) (trips : Roundtrips json) where
  -- A field of the form: absent for a nil map, and else the marshalled map.
  abbrev FieldOf : String → Object → Map String String → Type 0
  FieldOf k o d =
      ((o ≡ none) × (d ≡ []))
      ⊎ ((m : Map String Any) × (s : String) × (o ≡ some m)
          × (d ≡ (k, s) ∷ [])
          × (json.unmarshal s ≡ ok (some m))
          × ((s == "") ≡ false))

  object_field-FieldOf :
      (bad : String → ExchangeError) (k : String) (o : Object) (d : Map String String)
      → object_field json bad k o ≡ ok d
      → FieldOf k o d
  unfolding object_field
  object_field-FieldOf bad k none d e = inl (refl, sym (ok_inj (ok []) refl e))
  object_field-FieldOf bad k (some m) d e =
      let (s, made, e') = bind-eq-ok (map_err bad (json.marshal (of_object (some m)))) _ e in
      let (back, there) = trips m s (map_err-eq-ok bad _ made) in
      inr (m, s, refl, sym (ok_inj (ok ((k, s) ∷ [])) refl e'), back, there)

  optional_object_back :
      (invalid : String → RequestError) (s : String) (m : Map String Any)
      → json.unmarshal s ≡ ok (some m)
      → (s == "") ≡ false
      → optional_object json invalid s ≡ ok (some m)
  unfolding optional_object
  optional_object_back invalid s m back there = rw (there, back) refl

  -- The form as a list.
  abbrev form_of : ExchangeRequest → Map String String → Map String String → Map String String
  form_of req d c =
      ("grant_type", Token.grant_type)
      ∷ ("subject_token", req.subject_token)
      ∷ ("subject_token_type", type_of req)
      ∷ ("requested_token_type", Token.requested_token_type)
      ∷ ("scope", req.scope)
      ∷ (d ++ c)

  details_back :
      (invalid : String → RequestError) (req : ExchangeRequest) (d c : Map String String)
      → FieldOf "request_details" req.request_details d
      → FieldOf "request_context" req.request_context c
      → optional_object json invalid (value_at "request_details" (form_of req d c))
        ≡ ok req.request_details
  unfolding optional_object lookup
  details_back invalid req d c (inl (absent, e)) (inl (absent', e')) = rw (absent, e, e') refl
  details_back invalid req d c (inl (absent, e)) (inr (m', s', o', e', b', t')) =
      rw (absent, e, e') refl
  details_back invalid req d c (inr (m, s, o, e, b, t)) f = rw (o, e) (rw (t, b) refl)

  context_back :
      (invalid : String → RequestError) (req : ExchangeRequest) (d c : Map String String)
      → FieldOf "request_details" req.request_details d
      → FieldOf "request_context" req.request_context c
      → optional_object json invalid (value_at "request_context" (form_of req d c))
        ≡ ok req.request_context
  unfolding optional_object lookup
  context_back invalid req d c (inl (absent, e)) (inl (absent', e')) = rw (absent', e, e') refl
  context_back invalid req d c (inl (absent, e)) (inr (m', s', o', e', b', t')) =
      rw (o', e, e') (rw (t', b') refl)
  context_back invalid req d c (inr (m, s, o, e, b, t)) (inl (absent', e')) =
      rw (absent', e, e') refl
  context_back invalid req d c (inr (m, s, o, e, b, t)) (inr (m', s', o', e', b', t')) =
      rw (o', e, e') (rw (t', b') refl)

  no_audience :
      (req : ExchangeRequest) (d c : Map String String)
      → FieldOf "request_details" req.request_details d
      → FieldOf "request_context" req.request_context c
      → value_at "audience" (form_of req d c) ≡ ""
  unfolding lookup
  no_audience req d c (inl (absent, e)) (inl (absent', e')) = rw (e, e') refl
  no_audience req d c (inl (absent, e)) (inr (m', s', o', e', b', t')) = rw (e, e') refl
  no_audience req d c (inr (m, s, o, e, b, t)) (inl (absent', e')) = rw (e, e') refl
  no_audience req d c (inr (m, s, o, e, b, t)) (inr (m', s', o', e', b', t')) = rw (e, e') refl

  parse_form :
      (req : ExchangeRequest) (d c : Map String String)
      → (req.subject_token == "") ≡ false
      → (req.scope == "") ≡ false
      → FieldOf "request_details" req.request_details d
      → FieldOf "request_context" req.request_context c
      → parse_request json (form_of req d c) ≡ ok (read_back req)
  unfolding parse_request lookup
  parse_form req d c t s fd fc =
      rw (t, s, type_there req)
        (rw (details_back invalid_details req d c fd fc, context_back invalid_context req d c fd fc)
          (λ i. ok (record (read_back req) { audience = no_audience req d c fd fc i })))

  -- The form that the client builds reads at the token endpoint as the request that it was built
  -- from, when decoding a marshalled map gives it back and its text is not empty.
  pub parse_request-exchange_form :
      (req : ExchangeRequest) (form : Map String String)
      → exchange_form json req ≡ ok form
      → parse_request json form ≡ ok (read_back req)
  unfolding exchange_form
  parse_request-exchange_form req form e =
      let (t, e1) = guard-eq-ok (not (req.subject_token == "")) _ _ e in
      let (s, e2) = guard-eq-ok (not (req.scope == "")) _ _ e1 in
      let (d, made, e3) =
        bind-eq-ok (object_field json _ "request_details" req.request_details) _ e2 in
      let (c, made', e4) =
        bind-eq-ok (object_field json _ "request_context" req.request_context) _ e3 in
      subst (λ f. parse_request json f ≡ ok (read_back req)) (ok_inj (ok (form_of req d c)) refl e4)
        (parse_form req d c (not-false _ t) (not-false _ s) (object_field-FieldOf _ _ _ d made)
          (object_field-FieldOf _ _ _ c made'))
