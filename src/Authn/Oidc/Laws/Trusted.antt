-- ===== src/Authn/Oidc/Laws/Trusted.antt =====
-- Which tokens an authenticator accepts in a run, and by which keys.
use kontxt.Base.{String, ◌≡◌, sym, ap, ◌∙◌, ◌≢◌, some, Eq_nat, Eq_string, ok, subst}
use kontxt.Base.Maps.{lookup}
use kontxt.Base.Integers.{ℤ}
use kontxt.Base.State.{follow-eq-ok, wrap-eq-ok}
use kontxt.Any.{text}
use kontxt.Cel.{Cel}
use kontxt.Jwt.{Jwt, JwtToken, with_issuer, IsParser}
use kontxt.Jwks.{Http}
use kontxt.Authn.{SubjectInfo}
use kontxt.Authn.Config.{AuthenticatorConfig}
use kontxt.Authn.Oidc.{OidcAuthenticator, new_oidc_authenticator, not_parsed}
use kontxt.Authn.Oidc.Keys.{Provider, kid_of, key_func, parser_key, authenticate}
use kontxt.Authn.Oidc.Laws.{key_func-keeps}
use kontxt.Authn.Oidc.Laws.Cache.{
  Serves, IsSame, IsTrusted, IsSame-IsKept, IsTrusted-IsKept, key_func_found,
}
use kontxt.Authn.Oidc.Laws.Runs.{Run, Run-IsTrusted, Run-IsSame}
use kontxt.Authn.Oidc.Laws.Accepted.{
  IsBuilt, IsVetted, new_oidc_authenticator-IsBuilt, subject_info-IsVetted,
}

-- What the acceptance of a token rests on.
pub record IsAccepted {jwt : Jwt} (cel : Cel) (p : Provider jwt)
    (Trust : String → jwt.PublicKey → Type 0) (config : AuthenticatorConfig) (token : String)
    (info : SubjectInfo) : Type 0 where
  pub parsed : JwtToken
  pub kid : String
  pub key : jwt.PublicKey
  pub named : kid_of parsed ≡ ok kid
  pub trusted : Trust kid key
  pub verifies : jwt.Verifies token key
  pub issuer : lookup "iss" parsed.claims ≡ some (text config.issuer.url)
  pub vetted : IsVetted cel config p.parser parsed.claims info

module _ {jwt : Jwt} {cel : Cel} where
  open jwt use {PublicKey, Verifies}

  IsBuilt-IsSame :
      (config : AuthenticatorConfig) {a b : OidcAuthenticator jwt cel}
      → IsSame a b
      → IsBuilt config a
      → IsBuilt config b
  IsBuilt-IsSame config {a} {b} same built = subst (IsBuilt config) (sym same) (record {
    same_config = built.same_config;
    same_url = built.same_url;
    same_audiences = built.same_audiences;
    env = built.env;
    rules = built.rules;
    subject = built.subject;
  })

  new-IsTrusted :
      (Trust : String → PublicKey → Type 0) (config : AuthenticatorConfig)
      (a : OidcAuthenticator jwt cel)
      → new_oidc_authenticator config ≡ ok a
      → IsTrusted Trust a
  unfolding lookup
  new-IsTrusted Trust config a e kid key there =
      cc (rw (new_oidc_authenticator-IsBuilt config a e).1 at there)

  module _ (p : Provider jwt) (Trust : String → PublicKey → Type 0) (config : AuthenticatorConfig)
      (http : Http) where
    -- The answer of the key function, within the parser.
    resolved :
        (first a : OidcAuthenticator jwt cel) (parsed : JwtToken) (u : OidcAuthenticator jwt cel)
        (key : PublicKey)
        → parser_key (record p { http = http }) parsed a ≡ (u, ok key)
        → Serves Trust p.codec http
        → IsTrusted Trust a
        → IsSame first a
        → (kid : String) × (kid_of parsed ≡ ok kid) × Trust kid key × IsSame first u
    resolved first a parsed u key e serves trusted same =
        let answer = wrap-eq-ok p.message (key_func http p.codec parsed a) e in
        let (kid, named, there) = key_func_found http p.codec parsed a u key answer in
        (
          kid,
          named,
          subst (IsTrusted Trust) (ap (λ r. r.0) answer)
              (key_func-keeps (IsTrusted Trust) (IsTrusted-IsKept Trust http p.codec serves) parsed
                a trusted)
              kid key there,
          subst (IsSame first) (ap (λ r. r.0) answer)
              (key_func-keeps (IsSame first) (IsSame-IsKept first http p.codec) parsed a same),
        )

    -- In every state that authentications reach from a new authenticator, while the provider serves
    -- only keys of some kind, a token is accepted only when it verifies under a key of that kind
    -- with its key id, its issuer is the configured one and not empty, one of its audiences is
    -- configured, every validation rule is true of its claims, and the subject is the one of the
    -- mapping, when the parser does as documented.
    pub authenticate-IsAccepted :
        {first a b : OidcAuthenticator jwt cel} (token : String) (info : SubjectInfo) (now : ℤ)
        → IsParser p.parser
        → config.issuer.url ≢ ""
        → new_oidc_authenticator config ≡ ok first
        → Run p Trust first a
        → Serves Trust p.codec http
        → authenticate (record p { http = http }) now token a ≡ (b, ok info)
        → IsAccepted cel p Trust config token info
    unfolding authenticate
    authenticate-IsAccepted {first} {a} {b} token info now parser given made run serves e =
        let (u, parsed, wrapped, answer) = follow-eq-ok _ _ e in
        let parses = wrap-eq-ok not_parsed _ wrapped in
        let (key, found, verifies) =
          parser.parsed now (with_issuer a.issuer_url) token _ a u parsed parses in
        let same = Run-IsSame p parser run in
        let built = (new_oidc_authenticator-IsBuilt config first made).0 in
        let (kid, named, trusted, same') =
          resolved first a parsed u key found serves
            (Run-IsTrusted p parser run (new-IsTrusted Trust config first made)) same in
        let url : (a.issuer_url ≡ config.issuer.url) =
          (IsBuilt-IsSame config same built).same_url in
        record {
          parsed = parsed;
          kid = kid;
          key = key;
          named = named;
          trusted = trusted;
          verifies = verifies;
          issuer =
              parser.issued_by now a.issuer_url token _ a u parsed parses
                (λ empty. given (sym url ∙ empty))
              ∙ ap (λ s. some (text s)) url;
          vetted =
              subject_info-IsVetted config u p parsed.claims info
                (IsBuilt-IsSame config same' built) (ap (λ r. r.1) answer);
        }
