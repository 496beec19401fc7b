-- ===== src/Jwks.antt =====
-- The key sets that verifiers fetch over HTTP: pkg/authn/oidc.go, and the same loop in
-- sdk/verify/verifier.go.
pub mod Laws
use kontxt.Base.{
  ℕ, String, not, ◌||◌, List, [], ◌∷◌, if◌then◌else◌, ◌==◌, Eq_nat, Eq_string, Outcome, ok, err,
  ◌>>=◌, ◌>>◌, guard, map_err,
}
use kontxt.Base.Maps.{Map, insert}
use kontxt.Jwt.{Jwt}
use kontxt.Keys.{JwkKey, KeyCodec}

-- oidcDiscovery
pub record OidcDiscovery : Type 0 where
  pub issuer : String
  pub jwks_uri : String

-- What net/http and encoding/json do for a client: a GET, with the status and the body or an error,
-- and the decoding of a body into a discovery document or into a key set.
pub record Http : Type 0 where
  pub get : String → Outcome String (ℕ × String)
  pub decode_discovery : String → Outcome String OidcDiscovery
  pub decode_jwks : String → Outcome String (List JwkKey)

-- The errors of a fetch, with what their messages show.
pub data FetchError : Type 0 where
  unreachable : String → String → FetchError
  bad_status : ℕ → FetchError
  undecoded : String → FetchError

-- The part of a fetch up to the decoding.
unfoldable pub get_ok : Http → String → Outcome FetchError String
get_ok http url = do
  response ← map_err (unreachable url) (http.get url)
  let (status, body) = response
  guard (status == 200) (bad_status status)
  ok body

-- The keys that an endpoint publishes.
unfoldable pub get_jwks : Http → String → Outcome FetchError (List JwkKey)
unfolding get_ok
get_jwks http url = do body ← get_ok http url; map_err undecoded (http.decode_jwks body)

module _ {jwt : Jwt} (codec : KeyCodec jwt) where
  open jwt use {PublicKey}

  -- jwkToRSAPublicKey
  unfoldable pub jwk_to_rsa_public_key : JwkKey → Outcome String PublicKey
  jwk_to_rsa_public_key k = codec.decode k.modulus k.exponent

  -- One round of the loop: other keys and broken ones are skipped.
  unfoldable pub cache_key : JwkKey → Map String PublicKey → Map String PublicKey
  cache_key k keys =
      if not (k.kty == "RSA") || not (k.use_of == "sig")
      then keys
      else (elim (jwk_to_rsa_public_key k) [ err _ ↦ keys | ok key ↦ insert k.kid key keys ])

  unfoldable pub cache_keys : List JwkKey → Map String PublicKey → Map String PublicKey
  cache_keys [] keys = keys
  cache_keys (k ∷ ks) keys = cache_keys ks (cache_key k keys)
