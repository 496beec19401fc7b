-- ===== src/Authn.antt =====
-- pkg/authn: authenticators of subject tokens, and the router that picks one by issuer.
pub mod Config
pub mod Claims
pub mod Oidc
use kontxt.Base.{
  ℕ, String, Bool, List, [], ◌∷◌, if◌then◌else◌, ◌==◌, Eq_nat, Eq_string, length, Outcome, ok, err,
  ◌>>=◌, map_err,
}
use kontxt.Base.Strings.{split}
use kontxt.Base.Maps.{Map}

-- SubjectInfo
pub record SubjectInfo : Type 0 where
  pub subject : String
  pub extra : Map String String

-- The errors of `extractIssuer`.
pub data IssuerError : Type 0 where
  wrong_parts : ℕ → IssuerError
  bad_payload : String → IssuerError
  no_issuer : IssuerError

pub data AuthnError : Type 0 where
  extracting : IssuerError → AuthnError
  no_authenticator : String → AuthnError
  rejected : String → AuthnError

-- Authenticator
pub record Authenticator : Type 0 where
  pub matches : String → Bool
  pub authenticate : String → Outcome AuthnError SubjectInfo

-- `payload_issuer` is base64.RawURLEncoding.DecodeString, and json.Unmarshal into the `iss` field.
module _ (payload_issuer : String → Outcome String String) where
  checked_issuer : String → Outcome IssuerError String
  checked_issuer payload = do
    issuer ← map_err bad_payload (payload_issuer payload)
    if issuer == "" then err no_issuer else ok issuer

  issuer_of_parts : List String → Outcome IssuerError String
  unfolding checked_issuer
  issuer_of_parts (header ∷ payload ∷ signature ∷ []) = checked_issuer payload
  issuer_of_parts parts = err (wrong_parts (length parts))

  -- extractIssuer
  unfoldable pub extract_issuer : String → Outcome IssuerError String
  unfolding issuer_of_parts
  extract_issuer token = issuer_of_parts (split b'.' token)

  -- the loop of `Router.Authenticate`
  route : List Authenticator → String → String → Outcome AuthnError SubjectInfo
  route [] issuer token = err (no_authenticator issuer)
  route (auth ∷ rest) issuer token =
      let next = route rest issuer token in
      if auth.matches issuer then auth.authenticate token else next

  -- Router.Authenticate
  unfoldable pub authenticate : List Authenticator → String → Outcome AuthnError SubjectInfo
  unfolding extract_issuer route
  authenticate authenticators token = do
    issuer ← map_err extracting (extract_issuer token)
    route authenticators issuer token
