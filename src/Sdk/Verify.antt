-- ===== src/Sdk/Verify.antt =====
-- sdk/verify/verifier.go: the verifier of TxTokens over a key set that it fetches and caches.
pub mod Laws
pub mod Rotation
pub mod Verified
pub mod Issued
use kontxt.Base.{
  String, not, none, some, [], if◌then◌else◌, ◌==◌, Eq_nat, Eq_string, Outcome, ok, err, map_err,
}
use kontxt.Base.Maps.{Map, lookup}
use kontxt.Base.Integers.{ℤ}
use kontxt.Base.State.{Action, lift, gets, modify, ◌>>=◌, ◌>>◌, map_error}
use kontxt.Any.{Any}
use kontxt.Jwt.{Jwt, JwtToken, is_rsa, Parser, with_audience}
use kontxt.Token.{Claims, type_header}
use kontxt.Keys.{KeyCodec}
use kontxt.Jwks.{Http, FetchError, get_jwks, cache_keys}
use kontxt.Tts.Verifier.{text_at, number_at, object_at}

-- Verifier, without the HTTP client
pub record Verifier (jwt : Jwt) : Type 0 where
  pub jwks_url : String
  pub audience : String
  pub keys : Map String jwt.PublicKey

-- The errors of the key function.
pub data KeyError : Type 0 where
  unexpected_method missing_kid : KeyError
  fetching : FetchError → KeyError
  key_not_found : String → String → KeyError

-- The errors of `Verify`.
pub data VerifyError : Type 0 where
  empty_token : VerifyError
  not_verified : String → VerifyError
  invalid_typ : String → VerifyError

-- extractClaims
unfoldable pub extract_claims : Map String Any → Claims
extract_claims mc = record {
  issuer = text_at "iss" mc;
  audience = text_at "aud" mc;
  subject = text_at "sub" mc;
  scope = text_at "scope" mc;
  requesting_workload = text_at "req_wl" mc;
  transaction_id = text_at "txn" mc;
  issued_at = number_at "iat" mc;
  expires_at = number_at "exp" mc;
  transaction_context = object_at "tctx" mc;
  requester_context = object_at "rctx" mc;
}

-- The tests of `keyFunc` on a token.
unfoldable pub kid_of : JwtToken → Outcome KeyError String
kid_of t =
    if not (is_rsa t.method)
    then err unexpected_method
    else if text_at "kid" t.header == ""
    then err missing_kid
    else ok (text_at "kid" t.header)

-- The part of `Verify` behind the parser.
unfoldable pub check_typ : JwtToken → Outcome VerifyError Claims
unfolding extract_claims
check_typ parsed =
    if text_at "typ" parsed.header == type_header
    then ok (extract_claims parsed.claims)
    else err (invalid_typ (text_at "typ" parsed.header))

module _ {jwt : Jwt} where
  open jwt use {PublicKey}

  -- New
  unfoldable pub new : String → String → Verifier jwt
  new jwks_url audience = record { jwks_url = jwks_url; audience = audience; keys = [] }

  -- A key of the cache.
  unfoldable pub cached : String → Verifier jwt → Outcome KeyError PublicKey
  cached kid v = elim (lookup kid v.keys) [
    | none ↦ err (key_not_found kid v.jwks_url)
    | some key ↦ ok key
  ]

  module _ (http : Http) (codec : KeyCodec jwt) where
    -- fetchJWKS, which replaces the cache
    unfoldable pub fetch_jwks : Action (Verifier jwt) KeyError (Unit {0})
    fetch_jwks v =
        (do
          ks ← lift (map_err fetching (get_jwks http v.jwks_url))
          modify (λ (u : Verifier jwt). record u { keys = cache_keys codec ks [] }))
          v

    unfoldable pub fetch_key : String → Action (Verifier jwt) KeyError PublicKey
    fetch_key kid = do fetch_jwks; gets (cached kid)

    -- The part of `keyFunc` behind the key id.
    unfoldable pub key_for : String → Action (Verifier jwt) KeyError PublicKey
    key_for kid v = elim (lookup kid v.keys) [ none ↦ fetch_key kid v | some key ↦ (v, ok key) ]

    -- keyFunc
    unfoldable pub key_func : JwtToken → Action (Verifier jwt) KeyError PublicKey
    key_func t = do kid ← lift (kid_of t); key_for kid

    module _ (parser : Parser jwt) (message : KeyError → String) where
      -- The key function as the parser calls it.
      abbrev pub parser_key : JwtToken → Action (Verifier jwt) String PublicKey
      parser_key t = map_error message (key_func t)

      -- Verify
      unfoldable pub verify : ℤ → String → Action (Verifier jwt) VerifyError Claims
      verify now token v =
          if token == ""
          then (v, err empty_token)
          else (do
            parsed ←
                map_error not_verified
                  (parser.parse now (with_audience v.audience) token parser_key)
            gets (λ _. check_typ parsed))
              v
