-- ===== src/Token.antt =====
-- pkg/token: the claims of a TxToken, and its creation.
pub mod Laws
use kontxt.Base.{
  ℕ, ◌^◌, String, not, none, some, [], ◌∷◌, ◌++◌, if◌then◌else◌, ◌==◌, Eq_nat, Eq_string, Outcome,
  ok, ◌>>◌, guard, map_err,
}
use kontxt.Base.Maps.{Map}
use kontxt.Base.Integers.{ℤ, pos, ◌+ℤ◌, floor_div}
use kontxt.Any.{Any, text, number, Object, object, members}
use kontxt.Jwt.{Jwt}

abbrev pub header_name : String
header_name = "Txn-Token"

abbrev pub type_header : String
type_header = "txntoken+jwt"

abbrev pub grant_type : String
grant_type = "urn:ietf:params:oauth:grant-type:token-exchange"

abbrev pub requested_token_type : String
requested_token_type = "urn:ietf:params:oauth:token-type:txn_token"

abbrev pub subject_token_type_access_token : String
subject_token_type_access_token = "urn:ietf:params:oauth:token-type:access_token"

abbrev pub subject_token_type_txn_token : String
subject_token_type_txn_token = "urn:ietf:params:oauth:token-type:txn_token"

-- Claims
pub record Claims : Type 0 where
  pub issuer : String
  pub issued_at : ℤ
  pub expires_at : ℤ
  pub audience : String
  pub transaction_id : String
  pub subject : String
  pub scope : String
  pub requesting_workload : String
  pub transaction_context : Object
  pub requester_context : Object

-- The errors of `New`: a missing claim, or the signer's.
pub data TokenError : Type 0 where
  issuer_required audience_required subject_required scope_required workload_required : TokenError
  signing : String → TokenError

-- validateRequired
unfoldable pub validate_required : Claims → Outcome TokenError (Unit {0})
validate_required claims = do
  guard (not (claims.issuer == "")) issuer_required
  guard (not (claims.audience == "")) audience_required
  guard (not (claims.subject == "")) subject_required
  guard (not (claims.scope == "")) scope_required
  guard (not (claims.requesting_workload == "")) workload_required
  ok tt

-- One second, in the nanoseconds of time.Duration.
abbrev pub second : ℕ
second = 10 ^ 9

-- `if m != nil { jwtClaims[k] = m }`
abbrev pub optional_entry : String → Object → Map String Any
optional_entry k none = []
optional_entry k (some m) = (k, object (members m)) ∷ []

-- The claims map that `New` builds.
unfoldable pub jwt_claims : Claims → ℤ → ℤ → String → Map String Any
jwt_claims claims now lifetime txn =
    ("iss", text claims.issuer)
    ∷ ("iat", number (floor_div now second))
    ∷ ("exp", number (floor_div (now +ℤ lifetime) second))
    ∷ ("aud", text claims.audience)
    ∷ ("txn", text txn)
    ∷ ("sub", text claims.subject)
    ∷ ("scope", text claims.scope)
    ∷ ("req_wl", text claims.requesting_workload)
    ∷ (optional_entry "tctx" claims.transaction_context
        ++ optional_entry "rctx" claims.requester_context)

-- The header that `New` sets; `alg` is the signer's.
unfoldable pub jwt_header : String → Map String Any
jwt_header kid = ("alg", text "RS256") ∷ ("typ", text type_header) ∷ ("kid", text kid) ∷ []

-- The transaction id of a new token: the given one, or a fresh UUID.
unfoldable pub transaction_of : Claims → String → String
transaction_of claims uuid = if claims.transaction_id == "" then uuid else claims.transaction_id

module _ (jwt : Jwt) where
  open jwt use {PrivateKey, sign}

  -- New, at a time and with the UUID that uuid.New would return
  unfoldable pub new : ℤ → String → Claims → PrivateKey → String → ℤ → Outcome TokenError String
  new now uuid claims key kid lifetime = do
    validate_required claims
    map_err signing
        (sign (jwt_header kid) (jwt_claims claims now lifetime (transaction_of claims uuid)) key)
