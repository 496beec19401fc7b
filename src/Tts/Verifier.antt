-- ===== src/Tts/Verifier.antt =====
-- pkg/tts/local_verifier.go: the verifier of TxTokens over the live keys.
pub mod Laws
pub mod Rotation
use kontxt.Base.{
  String, not, none, some, List, [], ◌∷◌, if◌then◌else◌, ◌==◌, Eq_nat, Eq_string, Outcome, ok, err,
  ◌>>=◌, ◌>>◌, guard, map_err,
}
use kontxt.Base.Maps.{Map, lookup}
use kontxt.Base.Integers.{ℤ, pos}
use kontxt.Any.{Any, number, Object, as_text, as_object}
use kontxt.Jwt.{Jwt, JwtToken, is_rsa}
use kontxt.Token.{Claims, type_header}
use kontxt.Keys.{Manager, JwkKey, KeyCodec, public_keys, rsa_public_key}

-- The errors of `Verify`; the key function's errors reach it through the parser.
pub data VerifyError : Type 0 where
  empty_token : VerifyError
  not_verified : String → VerifyError
  invalid_typ : String → VerifyError

-- The errors of the key function, as the texts that the parser wraps.
pub data KeyError : Type 0 where
  unexpected_method missing_kid : KeyError
  undecodable : String → String → KeyError
  unknown_kid : String → KeyError

-- `s, _ := mc[k].(string)`
abbrev pub text_at : String → Map String Any → String
text_at k mc = elim (lookup k mc) [
  | none ↦ ""
  | some v ↦ elim (as_text v) [ none ↦ "" | some s ↦ s ]
]

-- `if n, ok := mc[k].(float64); ok { … = int64(n) }`
abbrev pub number_at : String → Map String Any → ℤ
number_at k mc = elim (lookup k mc) [ some (number n) ↦ n | _ ↦ pos 0 ]

-- `if m, ok := mc[k].(map[string]any); ok { … = m }`
abbrev pub object_at : String → Map String Any → Object
object_at k mc = elim (lookup k mc) [
  | none ↦ none
  | some v ↦ elim (as_object v) [ none ↦ none | some m ↦ m ]
]

-- extractClaims
unfoldable pub extract_claims : Map String Any → Claims
extract_claims mc = record {
  issuer = text_at "iss" mc;
  issued_at = number_at "iat" mc;
  expires_at = number_at "exp" mc;
  audience = text_at "aud" mc;
  transaction_id = text_at "txn" mc;
  subject = text_at "sub" mc;
  scope = text_at "scope" mc;
  requesting_workload = text_at "req_wl" mc;
  transaction_context = object_at "tctx" mc;
  requester_context = object_at "rctx" mc;
}

module _ {jwt : Jwt} (codec : KeyCodec jwt) where
  open jwt use {PublicKey}

  -- The loop over the public keys in `keyFunc`.
  unfoldable pub find_key : List JwkKey → String → Outcome KeyError PublicKey
  find_key [] kid = err (unknown_kid kid)
  find_key (pk ∷ pks) kid =
      let rest = find_key pks kid in
      if pk.kid == kid then map_err (undecodable kid) (rsa_public_key codec pk) else rest

  -- localVerifier.keyFunc
  unfoldable pub key_func : Manager jwt → JwtToken → Outcome KeyError PublicKey
  key_func m t = do
    guard (is_rsa t.method) unexpected_method
    let kid = text_at "kid" t.header
    guard (not (kid == "")) missing_kid
    find_key (public_keys codec m) kid

  -- localVerifier.Verify; `message` renders the key function's error for the parser.
  unfoldable pub verify :
      (KeyError → String) → Manager jwt → String → ℤ → String → Outcome VerifyError Claims
  verify message m audience now token = do
    guard (not (token == "")) empty_token
    parsed ←
        map_err not_verified (jwt.parse now token (λ t. map_err message (key_func m t)) audience)
    let typ = text_at "typ" parsed.header
    guard (typ == type_header) (invalid_typ typ)
    ok (extract_claims parsed.claims)
