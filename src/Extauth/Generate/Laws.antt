-- ===== src/Extauth/Generate/Laws.antt =====
-- What a generated token's request holds.
use kontxt.Base.{
  code, String, ◌≡◌, refl, sym, ◌⊎◌, inl, inr, true, Option, none, some, [], ◌∷◌, arith, Eq_nat,
  Eq_string, Option-cases, is_some, test_refl, All, Outcome, ok, Outcome-cases, bind-eq-ok, subst,
  ok_inj,
}
use kontxt.Base.Maps.{Map, lookup, insert, lookup-insert}
use kontxt.Any.{Any, text, Json}
use kontxt.Token.{header_name}
use kontxt.Crd.{TctxFieldMapping}
use kontxt.Rules.{GenerationRule}
use kontxt.Sdk.Client.{ExchangeRequest}
use kontxt.Extauth.Claims.{HttpAttributes}
use kontxt.Extauth.Generate.{
  CheckRequest, allow, GenerationServer, find_matching_rule, field_entry, collect, exchange_request,
  generate, check,
}

allow_inj : {a b : Map String String} → allow a ≡ allow b → a ≡ b
allow_inj e = cc

module _ (json : Json) (parse_query : String → Outcome String (String → String)) where
  field_entry_required :
      (http : HttpAttributes) (name : String) (m : TctxFieldMapping) (entry : Option String)
      → m.required ≡ true
      → field_entry json parse_query http name m ≡ ok entry
      → is_some entry ≡ true
  unfolding field_entry
  field_entry_required http name m entry required e = ground (arith, required, e)

  -- A field that is there stays there.
  collect-keeps :
      (http : HttpAttributes) (mapping : Map String TctxFieldMapping) (details out : Map String Any)
      (name : String)
      → collect json parse_query http mapping details ≡ ok out
      → is_some (lookup name details) ≡ true
      → is_some (lookup name out) ≡ true
  unfolding collect
  collect-keeps http [] details out name e there =
      subst (λ l. is_some (lookup name l) ≡ true)
        (ok_inj (collect json parse_query http [] details) refl e) there
  collect-keeps http ((k, m) ∷ rest) details out name e there =
      let (entry, one, e') = bind-eq-ok (field_entry json parse_query http k m) _ e in
      elim (Option-cases entry) [
        | inl missing ↦ collect-keeps http rest details out name (rw missing at e') there
        | inr (val, given) ↦
            collect-keeps http rest (insert k (text val) details) out name (rw given at e')
              (rw (lookup-insert k name (text val) details) (ground (arith, there)))
      ]

  -- When the fields of a mapping were collected, every required one is in the details.
  pub collect-required :
      (http : HttpAttributes) (mapping : Map String TctxFieldMapping) (details out : Map String Any)
      → collect json parse_query http mapping details ≡ ok out
      → All (λ km. km.1.required ≡ true → is_some (lookup km.0 out) ≡ true) mapping
  unfolding collect
  collect-required http [] details out e = tt
  collect-required http ((k, m) ∷ rest) details out e =
      let (entry, one, e') = bind-eq-ok (field_entry json parse_query http k m) _ e in
      (
        (λ required. elim (Option-cases entry) [
          | inl missing ↦ cc (missing, field_entry_required http k m entry required one)
          | inr (val, given) ↦
              collect-keeps http rest (insert k (text val) details) out k (rw given at e')
                (rw (lookup-insert k k (text val) details, test_refl k) refl)
        ]),
        collect-required http rest _ out e',
      )

  generate-allow :
      (s : GenerationServer) (req : CheckRequest) (http : HttpAttributes) (rule : GenerationRule)
      (hs : Map String String)
      → generate json parse_query s req http rule ≡ allow hs
      → (request : ExchangeRequest) × (token : String) × (exchange_request json parse_query s req
            http rule
          ≡ ok request)
        × (s.tts_client request ≡ ok token)
        × (hs ≡ (header_name, token) ∷ [])
  unfolding generate
  generate-allow s req http rule hs e =
      elim (Outcome-cases (exchange_request json parse_query s req http rule)) [
        | inr ((code, d), failed) ↦ cc (rw (failed, generate) at e)
        | inl (request, asked) ↦ elim (Outcome-cases (s.tts_client request)) [
          | inr (x, failed) ↦ cc (rw (asked, failed, generate) at e)
          | inl (token, given) ↦
              (request, token, asked, given, allow_inj (sym (rw (asked, given, generate) at e)))
        ]
      ]

  -- How a request was let through: without headers when no rule matches, or else with the token that
  -- the token service gave for the request of the matching rule.
  abbrev pub Allowed : GenerationServer → CheckRequest → Map String String → Type 0
  Allowed s req hs =
      (http : HttpAttributes) × (req.http ≡ some http)
      × (((find_matching_rule s http.path http.method ≡ none) × (hs ≡ []))
          ⊎ ((rule : GenerationRule) × (request : ExchangeRequest) × (token : String)
              × (find_matching_rule s http.path http.method ≡ some rule)
              × (exchange_request json parse_query s req http rule ≡ ok request)
              × (s.tts_client request ≡ ok token)
              × (hs ≡ (header_name, token) ∷ [])))

  -- A generating service lets a request through only without a header when no rule matches, or else
  -- with the token that the token service gave for the request of the matching rule.
  pub check-allow :
      (s : GenerationServer) (req : CheckRequest) (hs : Map String String)
      → check json parse_query s req ≡ allow hs
      → Allowed s req hs
  unfolding check
  check-allow s req hs e = elim (Option-cases req.http) [
    | inl missing ↦ cc (rw (missing, check) at e)
    | inr (http, there) ↦
        let e' = rw (there, check) at e in
        elim (Option-cases (find_matching_rule s http.path http.method)) [
          | inl none_matches ↦
              (http, there, inl (none_matches, allow_inj (sym (rw none_matches at e'))))
          | inr (rule, matches) ↦
              let (request, token, asked, given, same) =
                generate-allow s req http rule hs (rw matches at e') in
              (http, there, inr (rule, request, token, matches, asked, given, same))
        ]
  ]
