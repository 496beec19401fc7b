-- ===== src/Authn/Oidc.antt =====
-- pkg/authn/oidc.go: the authenticator of the JWTs of an OIDC provider, with its cache of keys.
pub mod Keys
pub mod Laws
use kontxt.Base.{
  String, Bool, true, false, not, ◌||◌, Option, none, some, List, [], ◌∷◌, if◌then◌else◌, ◌==◌,
  Eq_nat, Eq_string, length, any, Outcome, ok, ◌>>=◌, ◌>>◌, guard, map_err, concat,
}
use kontxt.Base.Strings.{trim_suffix}
use kontxt.Base.Maps.{Map, lookup, insert}
use kontxt.Base.Integers.{ℤ}
use kontxt.Any.{Any, as_text}
use kontxt.Cel.{Cel, CelValue}
use kontxt.Jwt.{Jwt, JwtToken, is_rsa, Parser}
use kontxt.Jwks.{Http, FetchError, undecoded, get_ok}
use kontxt.Authn.{SubjectInfo, Authenticator, rejected}
use kontxt.Authn.Config.{AuthenticatorConfig}
use kontxt.Authn.Claims
use kontxt.Authn.Claims.{
  CompileError, ClaimError, CompiledRule, CompiledMapping, new_cel_env, compile_validation_rules,
  compile_subject_mapping, compile_extra_mappings, evaluate_validation_rules,
  evaluate_subject_mapping, evaluate_extra_mappings,
}

-- OIDCAuthenticator, without the HTTP client
pub record OidcAuthenticator (jwt : Jwt) (cel : Cel) : Type 0 where
  pub config : AuthenticatorConfig
  pub issuer_url : String
  pub discovery_url : String
  pub audiences : Map String Bool
  pub match_any : Bool
  pub validation_rules : List (CompiledRule cel)
  pub subject_program : Option cel.Program
  pub extra_mappings : List (CompiledMapping cel)
  pub jwks_url : String
  pub keys : Map String jwt.PublicKey

-- The errors of `NewOIDCAuthenticator`.
pub data NewError : Type 0 where
  no_environment : String → NewError
  bad_rules bad_subject bad_extra : CompileError → NewError

-- The errors of the key function.
pub data KeyError : Type 0 where
  unexpected_method missing_kid no_jwks_uri : KeyError
  no_discovery : FetchError → KeyError
  wrong_issuer : String → String → KeyError
  no_key_set : FetchError → KeyError
  key_not_found : String → KeyError

-- The errors of `Authenticate`.
pub data OidcError : Type 0 where
  not_parsed : String → OidcError
  no_audience : String → OidcError
  wrong_audience : List String → OidcError
  invalid_claims no_subject no_extra : ClaimError → OidcError

unfoldable pub audience_set : List String → Map String Bool → Map String Bool
audience_set [] m = m
audience_set (aud ∷ auds) m = audience_set auds (insert aud true m)

-- The discovery URL, with its default.
unfoldable pub discovery_of : String → String → String
discovery_of discovery_url url =
    if discovery_url == ""
    then concat (trim_suffix b'/' url) "/.well-known/openid-configuration"
    else discovery_url

module _ {jwt : Jwt} {cel : Cel} where
  -- NewOIDCAuthenticator
  unfoldable pub new_oidc_authenticator :
      AuthenticatorConfig → Outcome NewError (OidcAuthenticator jwt cel)
  new_oidc_authenticator config = do
    env ← map_err no_environment (new_cel_env cel)
    rules ← map_err bad_rules (compile_validation_rules cel env config.claim_validation_rules)
    subject ← map_err bad_subject (compile_subject_mapping cel env config.claim_mappings.subject)
    extra ← map_err bad_extra (compile_extra_mappings cel env config.claim_mappings.extra)
    ok (record {
      config = config;
      issuer_url = config.issuer.url;
      discovery_url = discovery_of config.issuer.discovery_url config.issuer.url;
      audiences = audience_set config.issuer.audiences [];
      match_any =
          config.issuer.audience_match_policy == "MatchAny" || length config.issuer.audiences == 1;
      validation_rules = rules;
      subject_program = subject;
      extra_mappings = extra;
      jwks_url = "";
      keys = [];
    })

  -- SetJWKSURL
  unfoldable pub set_jwks_url : OidcAuthenticator jwt cel → String → OidcAuthenticator jwt cel
  set_jwks_url a url = record a { jwks_url = url }

  module _ (a : OidcAuthenticator jwt cel) where
    -- Matches
    unfoldable pub matches : String → Bool
    matches issuer = issuer == a.issuer_url

    -- discoverJWKSURL
    unfoldable pub discover_jwks_url : Http → Outcome KeyError String
    discover_jwks_url http = do
      body ← map_err no_discovery (get_ok http a.discovery_url)
      disco ← map_err (λ e. no_discovery (undecoded e)) (http.decode_discovery body)
      guard (disco.issuer == a.issuer_url) (wrong_issuer disco.issuer a.issuer_url)
      guard (not (disco.jwks_uri == "")) no_jwks_uri
      ok disco.jwks_uri

    -- `a.audiences[aud]`
    abbrev pub is_audience : String → Bool
    is_audience aud = elim (lookup aud a.audiences) [ none ↦ false | some b ↦ b ]

    -- validateAudience
    unfoldable pub validate_audience : Parser jwt → Map String Any → Outcome OidcError (Unit {0})
    validate_audience parser claims = do
      auds ← map_err no_audience (parser.audience_of claims)
      guard (any is_audience auds) (wrong_audience auds)
      ok tt

    -- The part of `Authenticate` behind the parser.
    unfoldable pub subject_info :
        Parser jwt → (CelValue → String) → Map String Any → Outcome OidcError SubjectInfo
    subject_info parser render claims = do
      validate_audience parser claims
      map_err invalid_claims (evaluate_validation_rules cel a.validation_rules claims)
      subject ←
          map_err no_subject
            (evaluate_subject_mapping cel a.config.claim_mappings.subject a.subject_program claims)
      extra ← map_err no_extra (evaluate_extra_mappings cel render a.extra_mappings claims)
      ok (record { subject = subject; extra = extra })
