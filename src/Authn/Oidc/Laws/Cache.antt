-- ===== src/Authn/Oidc/Laws/Cache.antt =====
-- What each call keeps of the cache: the settings, the provenance of the keys, and their key ids.
use kontxt.Base.{
  String, ◌≡◌, sym, ap, ◌∙◌, inl, inr, some, List, Eq_nat, Eq_string, Option-cases, ok,
}
use kontxt.Base.Maps.{lookup}
use kontxt.Base.State.{follow-eq-ok}
use kontxt.Cel.{Cel}
use kontxt.Jwt.{Jwt, JwtToken}
use kontxt.Keys.{JwkKey, KeyCodec}
use kontxt.Jwks.{Http, get_jwks, cache_keys}
use kontxt.Jwks.Laws.{published, lookup-cache_keys, or_else-cases, or_else-some}
use kontxt.Authn.Oidc.{OidcAuthenticator}
use kontxt.Authn.Oidc.Keys.{kid_of, cached, fetch_jwks, fetch_key, key_for, key_func}
use kontxt.Authn.Oidc.Laws.{IsKept}

module _ {jwt : Jwt} where
  open jwt use {PublicKey}

  -- The key set that is served holds only keys of this kind.
  abbrev pub Serves : (String → PublicKey → Type 0) → KeyCodec jwt → Http → Type 0
  Serves P codec http =
      (url : String) (ks : List JwkKey) (kid : String) (key : PublicKey)
      → get_jwks http url ≡ ok ks
      → published codec ks kid ≡ some key
      → P kid key

module _ {jwt : Jwt} {cel : Cel} where
  open jwt use {PublicKey, Verifies}

  -- States that differ at most in the URL of the key set and in the cache.
  abbrev pub IsSame : OidcAuthenticator jwt cel → OidcAuthenticator jwt cel → Type 0
  IsSame a b = b ≡ record a { jwks_url = b.jwks_url; keys = b.keys }

  abbrev pub IsTrusted : (String → PublicKey → Type 0) → OidcAuthenticator jwt cel → Type 0
  IsTrusted P a = (kid : String) (key : PublicKey) → lookup kid a.keys ≡ some key → P kid key

  -- Under the key id there is a key.
  abbrev pub HasKey : String → OidcAuthenticator jwt cel → Type 0
  HasKey kid a = (key : PublicKey) × (lookup kid a.keys ≡ some key)

  pub IsSame-IsKept :
      (a : OidcAuthenticator jwt cel) (http : Http) (codec : KeyCodec jwt)
      → IsKept (IsSame a) http codec
  IsSame-IsKept a http codec = record {
    set_url =
        λ b url same. ap (λ (c : OidcAuthenticator jwt cel). record c { jwks_url = url }) same;
    add_keys = λ b url ks got same.
        ap (λ (c : OidcAuthenticator jwt cel). record c { keys = cache_keys codec ks b.keys }) same;
  }

  pub IsTrusted-IsKept :
      (P : String → PublicKey → Type 0) (http : Http) (codec : KeyCodec jwt)
      → Serves P codec http
      → IsKept (IsTrusted P) http codec
  IsTrusted-IsKept P http codec serves = record {
    set_url = λ b url h. h;
    add_keys = λ b url ks got h kid key there.
        elim (or_else-cases codec (published codec ks kid) (lookup kid b.keys)
          (sym (lookup-cache_keys codec kid ks b.keys) ∙ there)) [
            | inl fresh ↦ serves url ks kid key got fresh
            | inr old ↦ h kid key old
          ];
  }

  pub HasKey-IsKept :
      (kid : String) (http : Http) (codec : KeyCodec jwt) → IsKept (HasKey kid) http codec
  HasKey-IsKept kid http codec = record {
    set_url = λ b url h. h;
    add_keys = λ b url ks got (key, there).
        let (other, found) =
          or_else-some codec (published codec ks kid) (lookup kid b.keys) there in
        (other, lookup-cache_keys codec kid ks b.keys ∙ found);
  }

  cached_found :
      (kid : String) (a : OidcAuthenticator jwt cel) {key : PublicKey}
      → cached kid a ≡ ok key
      → lookup kid a.keys ≡ some key
  unfolding cached
  cached_found kid a e = elim (Option-cases (lookup kid a.keys)) [
    | inl missing ↦ cc (rw (missing, cached) at e)
    | inr (key, there) ↦ cc (rw (there, cached) at e, there)
  ]

  key_for_found :
      (http : Http) (codec : KeyCodec jwt) (kid : String) (a b : OidcAuthenticator jwt cel)
      (key : PublicKey)
      → key_for http codec kid a ≡ (b, ok key)
      → lookup kid b.keys ≡ some key
  unfolding key_for fetch_key
  key_for_found http codec kid a b key e = elim (Option-cases (lookup kid a.keys)) [
    | inr (found, there) ↦ cc (rw (there, key_for) at e, there)
    | inl missing ↦
        let (u, tt, fetched, answer) =
          follow-eq-ok (fetch_jwks http codec a) _ (rw (missing, key_for) at e) in
        cached_found kid b (cc answer)
  ]

  -- The key that the key function answers with is in the cache under the key id of the token.
  pub key_func_found :
      (http : Http) (codec : KeyCodec jwt) (token : JwtToken) (a b : OidcAuthenticator jwt cel)
      (key : PublicKey)
      → key_func http codec token a ≡ (b, ok key)
      → (kid : String) × (kid_of token ≡ ok kid) × (lookup kid b.keys ≡ some key)
  unfolding key_func
  key_func_found http codec token a b key e =
      let (u, kid, named, answer) = follow-eq-ok (a, kid_of token) (key_for http codec) e in
      (kid, cc named, key_for_found http codec kid u b key answer)
