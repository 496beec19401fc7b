-- ===== src/Sdk/Middleware.antt =====
-- sdk/middleware: verify.go, which lets requests with a verified TxToken through, and propagate.go,
-- which passes the token on.
pub mod Laws
use kontxt.Base.{
  ℕ, String, not, Option, none, some, [], ◌∷◌, if◌then◌else◌, ◌==◌, Eq_nat, Eq_string, Outcome, ok,
  err,
}
use kontxt.Base.Maps.{Map, lookup, insert}
use kontxt.Base.State.{Action}
use kontxt.Token.{Claims, header_name}
use kontxt.Tts.Request.{value_at}
use kontxt.Sdk.Verify.{VerifyError}

-- The values under the two context keys.
pub record Values : Type 0 where
  pub claims : Option Claims
  pub token : Option String

-- context.Context; `none` is nil.
abbrev pub Context : Type 0
Context = Option Values

-- What the middleware reads of an HTTP request.
pub record Request : Type 0 where
  pub context : Context
  pub headers : Map String String

-- What `writeVerifyError` sends.
pub record Response : Type 0 where
  pub status : ℕ
  pub headers : Map String String
  pub body : Map String String

abbrev pub background : Values
background = record { claims = none; token = none }

-- `if ctx == nil { ctx = context.Background() }`
abbrev pub values_of : Context → Values
values_of none = background
values_of (some v) = v

-- ClaimsFromContext
unfoldable pub claims_from_context : Context → Option Claims
claims_from_context none = none
claims_from_context (some v) = v.claims

-- TokenFromContext
unfoldable pub token_from_context : Context → String
token_from_context none = ""
token_from_context (some v) = elim v.token [ none ↦ "" | some s ↦ s ]

-- withClaims
unfoldable pub with_claims : Context → Claims → Context
with_claims ctx claims = some (record (values_of ctx) { claims = some claims })

-- withToken, and WithToken
unfoldable pub with_token : Context → String → Context
with_token ctx token = some (record (values_of ctx) { token = some token })

-- writeVerifyError
unfoldable pub write_verify_error : String → Response
write_verify_error message = record {
  status = 401;
  headers = ("Content-Type", "application/json") ∷ [];
  body = ("error", "invalid_token") ∷ ("message", message) ∷ [];
}

-- The request that the next handler gets.
unfoldable pub verified_request : Request → Claims → Request
verified_request r claims = record r {
  context = with_token (with_claims r.context claims) (value_at header_name r.headers);
}

module _ {V : Type 0} (verify : String → Action V VerifyError Claims)
    (message : VerifyError → String) (next : Request → Response) where
  -- The part of `VerifyTxToken` behind the verifier.
  unfoldable pub admit : Request → V × Outcome VerifyError Claims → V × Response
  unfolding write_verify_error verified_request
  admit r (v, err e) = (v, write_verify_error (message e))
  admit r (v, ok claims) = (v, next (verified_request r claims))

  -- VerifyTxToken, over a verifier with a state
  unfoldable pub verify_tx_token : Request → V → V × Response
  unfolding write_verify_error
  verify_tx_token r v =
      if value_at header_name r.headers == ""
      then (v, write_verify_error "missing Txn-Token header")
      else admit r (verify (value_at header_name r.headers) v)

-- The request that the base transport gets from `RoundTrip`.
unfoldable pub outbound : Request → Request
outbound req =
    if not (value_at header_name req.headers == "")
    then req
    else if not (token_from_context req.context == "")
    then record req { headers = insert header_name (token_from_context req.context) req.headers }
    else req

-- NewPropagateTransport: the base, or http.DefaultTransport where it is nil
unfoldable pub new_propagate_transport {ℓ} :
    {R : Type ℓ} → Option (Request → R) → (Request → R) → Request → R
new_propagate_transport none default_transport = default_transport
new_propagate_transport (some base) default_transport = base

-- PropagateTransport.RoundTrip
unfoldable pub round_trip {ℓ} : {R : Type ℓ} → (Request → R) → Request → R
unfolding outbound
round_trip base req = base (outbound req)
