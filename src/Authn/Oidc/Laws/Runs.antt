-- ===== src/Authn/Oidc/Laws/Runs.antt =====
-- Runs of authentications: what holds of the cache in every state.
use kontxt.Base.{String, ◌≡◌, refl, some, Eq_nat, Eq_string, ok}
use kontxt.Base.Maps.{lookup}
use kontxt.Base.Integers.{ℤ}
use kontxt.Cel.{Cel}
use kontxt.Jwt.{Jwt, JwtToken, IsParser}
use kontxt.Keys.{KeyCodec}
use kontxt.Jwks.{Http}
use kontxt.Authn.Oidc.{OidcAuthenticator}
use kontxt.Authn.Oidc.Keys.{Provider, kid_of, key_for, key_func, authenticate}
use kontxt.Authn.Oidc.Laws.{authenticate-keeps}
use kontxt.Authn.Oidc.Laws.Cache.{
  Serves, IsSame, IsTrusted, HasKey, IsSame-IsKept, IsTrusted-IsKept, HasKey-IsKept,
}

key_for-cached :
    {jwt : Jwt} {cel : Cel} (kid : String) (http : Http) (codec : KeyCodec jwt)
    (a : OidcAuthenticator jwt cel) {key : jwt.PublicKey}
    → lookup kid a.keys ≡ some key
    → key_for http codec kid a ≡ (a, ok key)
unfolding key_for
key_for-cached kid http codec a there = rw (there, key_for) refl

module _ {jwt : Jwt} {cel : Cel} (p : Provider jwt) where
  open jwt use {PublicKey, Verifies}

  -- A run of authentications, in each of which HTTP serves key sets of this kind.
  pub data Run (Trust : String → PublicKey → Type 0) (first : OidcAuthenticator jwt cel)
      : OidcAuthenticator jwt cel → Type 0 where
    here : Run Trust first first
    next :
        {a : OidcAuthenticator jwt cel}
        → Run Trust first a
        → (http : Http) (now : ℤ) (token : String) → Serves Trust p.codec http
        → Run Trust first (authenticate (record p { http = http }) now token a).0

  module _ {Trust : String → PublicKey → Type 0} (parser : IsParser p.parser)
      {first : OidcAuthenticator jwt cel} where
    pub Run-IsTrusted :
        {a : OidcAuthenticator jwt cel}
        → Run Trust first a
        → IsTrusted Trust first
        → IsTrusted Trust a
    Run-IsTrusted here h = h
    Run-IsTrusted (next {a} r http now token serves) h =
        authenticate-keeps (IsTrusted Trust) (record p { http = http }) now token a parser
          (IsTrusted-IsKept Trust http p.codec serves) (Run-IsTrusted r h)

    pub Run-IsSame : {a : OidcAuthenticator jwt cel} → Run Trust first a → IsSame first a
    Run-IsSame here = refl
    Run-IsSame (next {a} r http now token serves) =
        authenticate-keeps (IsSame first) (record p { http = http }) now token a parser
          (IsSame-IsKept first http p.codec) (Run-IsSame r)

    Run-HasKey :
        {a : OidcAuthenticator jwt cel} (kid : String)
        → Run Trust first a
        → HasKey kid first
        → HasKey kid a
    Run-HasKey kid here h = h
    Run-HasKey kid (next {a} r http now token serves) h =
        authenticate-keeps (HasKey kid) (record p { http = http }) now token a parser
          (HasKey-IsKept kid http p.codec) (Run-HasKey kid r h)

    -- Once an authenticator has a key under a key id, it answers every token of an RSA method with
    -- that key id from its cache, after any authentications and whatever the provider serves since,
    -- when the parser does as documented.
    pub key_func-Run :
        {a : OidcAuthenticator jwt cel} (token : JwtToken) (kid : String) (http : Http)
        → Run Trust first a
        → kid_of token ≡ ok kid
        → HasKey kid first
        → (key : PublicKey) × (key_func http p.codec token a ≡ (a, ok key))
    unfolding key_func
    key_func-Run {a} token kid http r named h =
        let (key, there) = Run-HasKey kid r h in
        (key, rw named (key_for-cached kid http p.codec a there))
