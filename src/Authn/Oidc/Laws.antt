-- ===== src/Authn/Oidc/Laws.antt =====
-- What the calls of an authenticator keep, and what a run of authentications reaches.
pub mod Cache
pub mod Runs
pub mod Accepted
pub mod Trusted
use kontxt.Base.{
  String, ◌≡◌, inl, inr, List, ◌==◌, Eq_nat, Eq_string, Bool-cases, Option-cases, ok, Outcome-cases,
}
use kontxt.Base.Maps.{lookup}
use kontxt.Base.Integers.{ℤ}
use kontxt.Base.State.{◌>>=◌, follow-keeps, wrap-keeps}
use kontxt.Cel.{Cel}
use kontxt.Jwt.{Jwt, JwtToken, with_issuer, IsParser}
use kontxt.Keys.{JwkKey, KeyCodec}
use kontxt.Jwks.{Http, get_jwks, cache_keys}
use kontxt.Jwks.Laws.{published, or_else, lookup-cache_keys}
use kontxt.Authn.Oidc.{OidcAuthenticator, not_parsed, discover_jwks_url}
use kontxt.Authn.Oidc.Keys.{
  Provider, jwks_endpoint, fetch_jwks, kid_of, cached, fetch_key, key_for, key_func, parser_key,
  authenticate,
}

module _ {ℓ} {jwt : Jwt} {cel : Cel} (Holds : OidcAuthenticator jwt cel → Type ℓ) where
  -- Setting the URL keeps a property, and so does adding the keys that the endpoint publishes.
  pub record IsKept (http : Http) (codec : KeyCodec jwt) : Type ℓ where
    pub set_url :
        (a : OidcAuthenticator jwt cel) (url : String)
        → Holds a
        → Holds (record a { jwks_url = url })
    pub add_keys :
        (a : OidcAuthenticator jwt cel) (url : String) (ks : List JwkKey)
        → get_jwks http url ≡ ok ks
        → Holds a
        → Holds (record a { keys = cache_keys codec ks a.keys })

  module _ {http : Http} {codec : KeyCodec jwt} (k : IsKept http codec) where
    jwks_endpoint-keeps : (a : OidcAuthenticator jwt cel) → Holds a → Holds (jwks_endpoint http a).0
    unfolding jwks_endpoint
    jwks_endpoint-keeps a h = elim (Bool-cases (a.jwks_url == "")) [
      | inl empty ↦ elim (Outcome-cases (discover_jwks_url a http)) [
        | inl (url, found) ↦ rw (empty, found) (k.set_url a url h)
        | inr (e, failed) ↦ rw (empty, failed) h
      ]
      | inr set ↦ rw set h
    ]

    fetch_jwks-keeps : (a : OidcAuthenticator jwt cel) → Holds a → Holds (fetch_jwks http codec a).0
    unfolding fetch_jwks
    fetch_jwks-keeps a h =
        follow-keeps Holds (jwks_endpoint http a) _ (jwks_endpoint-keeps a h) λ url b hb.
          elim (Outcome-cases (get_jwks http url)) [
            | inl (ks, got) ↦ rw got (k.add_keys b url ks got hb)
            | inr (e, failed) ↦ rw failed hb
          ]

    key_for-keeps :
        (kid : String) (a : OidcAuthenticator jwt cel)
        → Holds a
        → Holds (key_for http codec kid a).0
    unfolding key_for fetch_key
    key_for-keeps kid a h = elim (Option-cases (lookup kid a.keys)) [
      | inr (key, there) ↦ rw (there, key_for) h
      | inl missing ↦
          rw (missing, key_for)
            (follow-keeps Holds (fetch_jwks http codec a) _ (fetch_jwks-keeps a h) λ _ b hb. hb)
    ]

    pub key_func-keeps :
        (token : JwtToken) (a : OidcAuthenticator jwt cel)
        → Holds a
        → Holds (key_func http codec token a).0
    unfolding key_func
    key_func-keeps token a h = elim (Outcome-cases (kid_of token)) [
      | inr (e, failed) ↦ rw failed h
      | inl (kid, named) ↦ rw named (key_for-keeps kid a h)
    ]

  module _ (p : Provider jwt) (now : ℤ) (token : String) (a : OidcAuthenticator jwt cel)
      (parser : IsParser p.parser) (k : IsKept p.http p.codec) (h : Holds a) where
    parse-keeps : Holds (p.parser.parse now (with_issuer a.issuer_url) token (parser_key p) a).0
    parse-keeps = elim (parser.called_once now (with_issuer a.issuer_url) token (parser_key p) a) [
      | inl same ↦ rw same h
      | inr (seen, same) ↦ rw same (wrap-keeps Holds p.message _ (key_func-keeps k seen a h))
    ]

    -- What every call of the key function keeps, an authentication keeps.
    pub authenticate-keeps : Holds (authenticate p now token a).0
    unfolding authenticate
    authenticate-keeps =
        follow-keeps Holds _ _ (wrap-keeps Holds not_parsed _ parse-keeps) λ parsed b hb. hb
