-- ===== src/Tests/Authn.antt =====
-- The OIDC authenticator at concrete inputs.
use kontxt.Base.{
  String, ◌≡◌, refl, inl, inr, true, false, none, some, List, [], ◌∷◌, eq_iff, ◌==◌, Eq_nat,
  Eq_string, Bool-cases, ok, subst, ok_inj,
}
use kontxt.Base.Maps.{lookup, insert}
use kontxt.Base.Integers.{pos}
use kontxt.Base.Strings.{trim_suffix}
use kontxt.Keys.{JwkKey, public_keys, new_public_key}
use kontxt.Jwks.{get_ok, get_jwks, cache_keys, cache_key, jwk_to_rsa_public_key}
use kontxt.Jwks.Laws.{published, key_of}
use kontxt.Authn.{SubjectInfo}
use kontxt.Authn.Config.{AuthenticatorConfig}
use kontxt.Authn.Claims.{
  new_cel_env, compile_validation_rules, compile_rules_from, compile_subject_mapping,
  compile_extra_mappings, compile_mappings_from, evaluate_validation_rules,
  evaluate_subject_mapping, claim_subject, evaluate_extra_mappings, collect_extra,
  compile_validation_rule, judge,
}
use kontxt.Authn.Oidc.{
  OidcAuthenticator, new_oidc_authenticator, discovery_of, audience_set, discover_jwks_url,
  validate_audience, subject_info,
}
use kontxt.Authn.Oidc.Keys.{
  jwks_endpoint, fetch_jwks, kid_of, cached, fetch_key, key_for, key_func, authenticate,
}
use kontxt.Authn.Oidc.Laws.Cache.{Serves}
use kontxt.Authn.Oidc.Laws.Runs.{Run, here, next, key_func-Run}
use kontxt.Authn.Oidc.Laws.Trusted.{IsAccepted, authenticate-IsAccepted}
use kontxt.Tests.Fixtures.{toy_cel, text_jwt, text_codec, text_manager, differ}
use kontxt.Tests.Parsing.{toy_token, text_parser-IsParser, provider, serving}

abbrev config : AuthenticatorConfig
config = record {
  issuer = record {
    url = "https://idp";
    discovery_url = "";
    audiences = "web" ∷ "api" ∷ [];
    audience_match_policy = "";
  };
  claim_validation_rules = record { expression = "true"; message = "" } ∷ [];
  claim_mappings = record { subject = record { claim = "sub"; expression = "" }; extra = [] };
}

abbrev idp : OidcAuthenticator text_jwt toy_cel
idp = record {
  config = config;
  issuer_url = "https://idp";
  discovery_url = "https://idp/.well-known/openid-configuration";
  audiences = ("web", true) ∷ ("api", true) ∷ [];
  match_any = false;
  validation_rules = record { prg = "true"; message = "" } ∷ [];
  subject_program = none;
  extra_mappings = [];
  jwks_url = "";
  keys = [];
}

idp-new : new_oidc_authenticator config ≡ ok idp
unfolding new_oidc_authenticator new_cel_env compile_validation_rules compile_rules_from
    compile_subject_mapping compile_extra_mappings compile_mappings_from discovery_of audience_set
    insert trim_suffix compile_validation_rule
idp-new = refl

-- The keys of this provider are their own ids.
abbrev Trust : String → String → Type 0
Trust kid key = kid ≡ key

published-Trust :
    (kid : String) {key : String}
    → published text_codec (public_keys text_codec text_manager) kid ≡ some key
    → kid ≡ key
unfolding published public_keys new_public_key key_of jwk_to_rsa_public_key
published-Trust kid e = elim (Bool-cases ("k1" == kid)) [
  | inl same ↦ cc ((eq_iff "k1" kid).0 same, rw same at e)
  | inr other ↦ cc (rw other at e)
]

serves : Serves {jwt = text_jwt} Trust text_codec provider.http
unfolding get_jwks get_ok
serves url ks kid key got e =
    published-Trust kid
      (subst (λ (l : List JwkKey). published text_codec l kid ≡ some key) (ok_inj _ got refl) e)

abbrev alice : SubjectInfo
alice = record { subject = "alice"; extra = [] }

authenticate-IsAccepted_example : IsAccepted toy_cel provider Trust config "a.b.c" alice
unfolding authenticate key_func kid_of key_for fetch_key fetch_jwks jwks_endpoint discover_jwks_url
    get_jwks get_ok cached cache_keys cache_key public_keys new_public_key jwk_to_rsa_public_key
    lookup insert subject_info validate_audience evaluate_validation_rules evaluate_subject_mapping
    claim_subject judge evaluate_extra_mappings collect_extra
authenticate-IsAccepted_example =
    authenticate-IsAccepted provider Trust config provider.http "a.b.c" alice (pos 0)
      text_parser-IsParser (differ "https://idp" "" refl) idp-new here serves refl

abbrev filled : OidcAuthenticator text_jwt toy_cel
filled = record idp { keys = ("k1", "k1") ∷ [] }

abbrev later : OidcAuthenticator text_jwt toy_cel
later = (authenticate provider (pos 0) "a.b.c" filled).0

filled-Run : Run provider Trust filled later
filled-Run = next here provider.http (pos 0) "a.b.c" serves

key_func-Run_example :
    (key : String) × (key_func (serving []) text_codec toy_token later ≡ (later, ok key))
unfolding kid_of lookup
key_func-Run_example =
    key_func-Run provider text_parser-IsParser toy_token "k1" (serving []) filled-Run refl
      ("k1", refl)
