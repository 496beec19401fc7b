-- ===== src/Authn/Oidc/Laws/Accepted.antt =====
-- What the settings of an authenticator ask of the claims of a token.
use kontxt.Base.{
  String, ◌≡◌, refl, ap, ◌∙◌, inl, inr, Bool, true, Option, none, some, List, [], ◌∷◌, arith,
  if◌then◌else◌, Eq_nat, Eq_string, Bool-cases, test_refl, any, All, contains, In, ok, map_err,
  map_err-eq-ok, bind-eq-ok, guard-eq-ok, subst, ok_inj,
}
use kontxt.Base.Maps.{Map, lookup, insert, lookup-insert}
use kontxt.Any.{Any}
use kontxt.Cel.{Cel}
use kontxt.Jwt.{Jwt, Parser}
use kontxt.Authn.{SubjectInfo}
use kontxt.Authn.Config.{AuthenticatorConfig}
use kontxt.Authn.Claims.{
  CompiledRule, compile_validation_rules, compile_subject_mapping, new_cel_env,
  compile_extra_mappings, evaluate_subject_mapping, evaluate_extra_mappings,
}
use kontxt.Authn.Claims.Laws.{
  Passes, evaluate_validation_rules-Passes, IsSubject, evaluate_subject_mapping-IsSubject,
}
use kontxt.Authn.Oidc.{
  OidcAuthenticator, no_environment, bad_extra, audience_set, new_oidc_authenticator, is_audience,
  validate_audience, subject_info, no_subject, no_extra,
}
use kontxt.Authn.Oidc.Keys.{Provider}

lookup-audience_set :
    (aud : String) (auds : List String) (m : Map String Bool)
    → lookup aud (audience_set auds m) ≡ (if contains auds aud then some true else lookup aud m)
unfolding audience_set
lookup-audience_set aud [] m = refl
lookup-audience_set aud (x ∷ xs) m =
    ground (arith, lookup-audience_set aud xs (insert x true m), lookup-insert x aud true m)

-- A list and a test have an element in common.
any-In :
    (p : String → Bool) (auds xs : List String)
    → ((aud : String) → p aud ≡ true → In aud auds)
    → any p xs ≡ true
    → (aud : String) × In aud xs × In aud auds
any-In p auds [] f e = cc
any-In p auds (x ∷ xs) f e = elim (Bool-cases (p x)) [
  | inl found ↦ (x, ground (arith, test_refl x), f x found)
  | inr other ↦
      let (aud, there, wanted) = any-In p auds xs f (rw other at e) in
      (aud, ground (arith, there), wanted)
]

module _ {jwt : Jwt} (cel : Cel) where
  open cel use {Env}

  -- What the settings of an authenticator ask of the claims of a token, and what is the subject.
  pub record IsVetted (config : AuthenticatorConfig) (parser : Parser jwt) (claims : Map String Any)
      (info : SubjectInfo) : Type 0 where
    pub auds : List String
    pub addressed : parser.audience_of claims ≡ ok auds
    pub audience : (aud : String) × In aud auds × In aud config.issuer.audiences
    pub env : Env
    pub rules : List (CompiledRule cel)
    pub compiled : compile_validation_rules cel env config.claim_validation_rules ≡ ok rules
    pub passed : All (Passes cel claims) rules
    pub prg : Option cel.Program
    pub compiled_subject : compile_subject_mapping cel env config.claim_mappings.subject ≡ ok prg
    pub named : IsSubject cel config.claim_mappings.subject prg claims info.subject

module _ {jwt : Jwt} {cel : Cel} where
  open cel use {Env}

  -- What the constructor makes of a configuration.
  pub record IsBuilt (config : AuthenticatorConfig) (a : OidcAuthenticator jwt cel) : Type 0 where
    pub same_config : a.config ≡ config
    pub same_url : a.issuer_url ≡ config.issuer.url
    pub same_audiences : a.audiences ≡ audience_set config.issuer.audiences []
    pub env : Env
    pub rules :
        compile_validation_rules cel env config.claim_validation_rules ≡ ok a.validation_rules
    pub subject :
        compile_subject_mapping cel env config.claim_mappings.subject ≡ ok a.subject_program

  pub new_oidc_authenticator-IsBuilt :
      (config : AuthenticatorConfig) (a : OidcAuthenticator jwt cel)
      → new_oidc_authenticator config ≡ ok a
      → IsBuilt config a × (a.keys ≡ [])
  unfolding new_oidc_authenticator
  new_oidc_authenticator-IsBuilt config a e =
      let (env, _, e1) = bind-eq-ok (map_err no_environment (new_cel_env cel)) _ e in
      let (rules, compiled, e2) = bind-eq-ok _ _ e1 in
      let (subject, compiled', e3) = bind-eq-ok _ _ e2 in
      let (extra, _, e4) =
        bind-eq-ok (map_err bad_extra (compile_extra_mappings cel env config.claim_mappings.extra))
          _ e3 in
      subst (λ (b : OidcAuthenticator jwt cel). IsBuilt config b × (b.keys ≡ [])) (ok_inj _ refl e4)
        (
          record {
            same_config = refl;
            same_url = refl;
            same_audiences = refl;
            env = env;
            rules = map_err-eq-ok _ _ compiled;
            subject = map_err-eq-ok _ _ compiled';
          },
          refl,
        )

  audience-In :
      (config : AuthenticatorConfig) (a : OidcAuthenticator jwt cel) (aud : String)
      → IsBuilt config a
      → is_audience a aud ≡ true
      → In aud config.issuer.audiences
  unfolding lookup
  audience-In config a aud built e = elim (Bool-cases (contains config.issuer.audiences aud)) [
    | inl there ↦ there
    | inr missing ↦
        let absent : (lookup aud a.audiences ≡ none) =
          ap (lookup aud) built.same_audiences
          ∙ lookup-audience_set aud config.issuer.audiences []
          ∙ rw missing refl in
        cc (rw (absent, is_audience) at e)
  ]

  validate_audience-In :
      (config : AuthenticatorConfig) (a : OidcAuthenticator jwt cel) (parser : Parser jwt)
      (claims : Map String Any)
      → IsBuilt config a
      → validate_audience a parser claims ≡ ok tt
      → (auds : List String) × (parser.audience_of claims ≡ ok auds)
        × ((aud : String) × In aud auds × In aud config.issuer.audiences)
  unfolding validate_audience
  validate_audience-In config a parser claims built e =
      let (auds, addressed, rest) = bind-eq-ok _ _ e in
      let (some_one, _) = guard-eq-ok (any (is_audience a) auds) _ _ rest in
      (
        auds,
        map_err-eq-ok _ _ addressed,
        any-In (is_audience a) config.issuer.audiences auds
            (λ aud wanted. audience-In config a aud built wanted) some_one,
      )

  pub subject_info-IsVetted :
      (config : AuthenticatorConfig) (a : OidcAuthenticator jwt cel) (p : Provider jwt)
      (claims : Map String Any) (info : SubjectInfo)
      → IsBuilt config a
      → subject_info a p.parser p.render claims ≡ ok info
      → IsVetted cel config p.parser claims info
  unfolding subject_info
  subject_info-IsVetted config a p claims info built e =
      let (tt, addressed, e1) = bind-eq-ok _ _ e in
      let (tt, passed, e2) = bind-eq-ok _ _ e1 in
      let (subject, found, e3) =
        bind-eq-ok
          (map_err no_subject
            (evaluate_subject_mapping cel a.config.claim_mappings.subject a.subject_program claims))
          _ e2 in
      let (extra, _, e4) =
        bind-eq-ok (map_err no_extra (evaluate_extra_mappings cel p.render a.extra_mappings claims))
          _ e3 in
      let (auds, wanted, audience) =
        validate_audience-In config a p.parser claims built addressed in
      subst (IsVetted cel config p.parser claims) (ok_inj _ refl e4) (record {
        auds = auds;
        addressed = wanted;
        audience = audience;
        env = built.env;
        rules = a.validation_rules;
        compiled = built.rules;
        passed =
            evaluate_validation_rules-Passes cel claims a.validation_rules
              (map_err-eq-ok _ _ passed);
        prg = a.subject_program;
        compiled_subject = built.subject;
        named =
            subst
              (λ (c : AuthenticatorConfig).
                IsSubject cel c.claim_mappings.subject a.subject_program claims subject)
              built.same_config
              (evaluate_subject_mapping-IsSubject cel a.config.claim_mappings.subject
                a.subject_program claims subject (map_err-eq-ok _ _ found));
      })
