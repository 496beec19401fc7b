-- ===== src/Authn/Oidc/Keys.antt =====
-- pkg/authn/oidc.go: the calls that fill the cache of keys, keyFunc and fetchJWKS, and Authenticate.
use kontxt.Base.{
  String, not, none, some, if◌then◌else◌, ◌==◌, Eq_nat, Eq_string, Outcome, ok, err, map_err,
}
use kontxt.Base.Maps.{lookup}
use kontxt.Base.Integers.{ℤ}
use kontxt.Base.State.{Action, lift, gets, modify, ◌>>=◌, ◌>>◌, map_error}
use kontxt.Any.{as_text}
use kontxt.Cel.{Cel, CelValue}
use kontxt.Jwt.{Jwt, JwtToken, is_rsa, Parser, with_issuer}
use kontxt.Keys.{KeyCodec}
use kontxt.Jwks.{Http, get_jwks, cache_keys}
use kontxt.Authn.{SubjectInfo, Authenticator, rejected}
use kontxt.Authn.Oidc.{
  OidcAuthenticator, KeyError, unexpected_method, missing_kid, no_key_set, key_not_found, OidcError,
  not_parsed, discover_jwks_url, subject_info, matches,
}

-- What the authenticators of one process take from outside: HTTP, RSA keys, the parser, and how an
-- error of the key function and a value of CEL are rendered.
pub record Provider (jwt : Jwt) : Type 1 where
  pub http : Http
  pub codec : KeyCodec jwt
  pub parser : Parser jwt
  pub message : KeyError → String
  pub render : CelValue → String

abbrev pub Call : Jwt → Cel → Type 0 → Type 0 → Type 0
Call jwt cel E A = Action (OidcAuthenticator jwt cel) E A

-- `kid, ok := token.Header["kid"].(string)`, behind the test of the method
unfoldable pub kid_of : JwtToken → Outcome KeyError String
kid_of token =
    if not (is_rsa token.method) then err unexpected_method else elim (lookup "kid" token.header) [
      | none ↦ err missing_kid
      | some v ↦ elim (as_text v) [ none ↦ err missing_kid | some kid ↦ ok kid ]
    ]

module _ {jwt : Jwt} {cel : Cel} where
  open jwt use {PublicKey}

  -- The start of `fetchJWKS`: the URL, which is kept when it was discovered.
  unfoldable pub jwks_endpoint : Http → Call jwt cel KeyError String
  jwks_endpoint http a =
      if not (a.jwks_url == "") then (a, ok a.jwks_url) else elim (discover_jwks_url a http) [
        | err e ↦ (a, err e)
        | ok url ↦ (record a { jwks_url = url }, ok url)
      ]

  -- fetchJWKS
  unfoldable pub fetch_jwks : Http → KeyCodec jwt → Call jwt cel KeyError (Unit {0})
  fetch_jwks http codec = do
    url ← jwks_endpoint http
    ks ← lift (map_err no_key_set (get_jwks http url))
    modify (λ a. record a { keys = cache_keys codec ks a.keys })

  -- A key of the cache.
  unfoldable pub cached : String → OidcAuthenticator jwt cel → Outcome KeyError PublicKey
  cached kid a = elim (lookup kid a.keys) [ none ↦ err (key_not_found kid) | some key ↦ ok key ]

  unfoldable pub fetch_key : Http → KeyCodec jwt → String → Call jwt cel KeyError PublicKey
  fetch_key http codec kid = do fetch_jwks http codec; gets (cached kid)

  -- The part of `keyFunc` behind the key id.
  unfoldable pub key_for : Http → KeyCodec jwt → String → Call jwt cel KeyError PublicKey
  key_for http codec kid a = elim (lookup kid a.keys) [
    | none ↦ fetch_key http codec kid a
    | some key ↦ (a, ok key)
  ]

  -- keyFunc
  unfoldable pub key_func : Http → KeyCodec jwt → JwtToken → Call jwt cel KeyError PublicKey
  key_func http codec token = do kid ← lift (kid_of token); key_for http codec kid

  module _ (p : Provider jwt) where
    -- The key function as the parser calls it.
    abbrev pub parser_key : JwtToken → Call jwt cel String PublicKey
    parser_key token = map_error p.message (key_func p.http p.codec token)

    -- Authenticate
    unfoldable pub authenticate : ℤ → String → Call jwt cel OidcError SubjectInfo
    authenticate now token a =
        (do
          parsed ←
              map_error not_parsed (p.parser.parse now (with_issuer a.issuer_url) token parser_key)
          gets (λ b. subject_info b p.parser p.render parsed.claims))
          a

    -- An OIDC authenticator as the router sees it, in one of its states.
    unfoldable pub as_authenticator :
        ℤ → (OidcError → String) → OidcAuthenticator jwt cel → Authenticator
    as_authenticator now text a = record {
      matches = matches a;
      authenticate = λ token. map_err (λ e. rejected (text e)) (authenticate now token a).1;
    }
