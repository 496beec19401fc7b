-- ===== src/Sdk/Middleware/Laws.antt =====
-- What the middleware lets through, and what it passes on.
use kontxt.Base.{
  String, ◌≡◌, refl, sym, ap, ◌∙◌, ◌⊎◌, inl, inr, false, some, eq_iff, if◌then◌else◌, ◌==◌, Eq_nat,
  Eq_string, Bool-cases, test_refl, Outcome, ok, err, subst,
}
use kontxt.Base.Maps.{Map, lookup, insert, lookup-insert}
use kontxt.Base.Integers.{ℤ}
use kontxt.Jwt.{Jwt, Parser, IsParser}
use kontxt.Token.{Claims, header_name}
use kontxt.Keys.{KeyCodec}
use kontxt.Jwks.{Http}
use kontxt.Tts.Request.{value_at}
use kontxt.Sdk.Verify.{Verifier, KeyError, VerifyError, verify}
use kontxt.Sdk.Verify.Verified.{IsVerified, verify-IsVerified}
use kontxt.Sdk.Middleware.{
  Request, Response, claims_from_context, token_from_context, with_claims, with_token,
  write_verify_error, verified_request, admit, verify_tx_token, outbound,
}

-- The token of a request.
abbrev pub token_of : Request → String
token_of r = value_at header_name r.headers

verified_request-claims :
    (r : Request) (claims : Claims)
    → claims_from_context (verified_request r claims).context ≡ some claims
unfolding verified_request with_token with_claims claims_from_context
verified_request-claims r claims = refl

verified_request-token :
    (r : Request) (claims : Claims)
    → token_from_context (verified_request r claims).context ≡ token_of r
unfolding verified_request with_token with_claims token_from_context
verified_request-token r claims = refl

value_at-insert : (k s : String) (m : Map String String) → value_at k (insert k s m) ≡ s
value_at-insert k s m =
    let found : (lookup k (insert k s m) ≡ some s) =
      lookup-insert k k s m ∙ rw (test_refl k) refl in
    rw (found, value_at) refl

-- The base transport gets the token of the request, or else the one of its context.
token_of-outbound :
    (req : Request)
    → token_of (outbound req)
      ≡ (if token_of req == "" then token_from_context req.context else token_of req)
unfolding outbound
token_of-outbound req = elim (Bool-cases (token_of req == "")) [
  | inr given ↦ rw given refl
  | inl empty ↦ elim (Bool-cases (token_from_context req.context == "")) [
    | inl nothing ↦
        rw (empty, nothing, outbound)
          ((eq_iff (token_of req) "").0 empty
            ∙ sym ((eq_iff (token_from_context req.context) "").0 nothing))
    | inr there ↦
        rw (empty, there, outbound)
          (value_at-insert header_name (token_from_context req.context) req.headers)
  ]
]

module _ {jwt : Jwt} (codec : KeyCodec jwt) (http : Http) (parser : Parser jwt)
    (key_message : KeyError → String) (message : VerifyError → String) (now : ℤ)
    (next : Request → Response) where
  -- The answer of the middleware to a request, with the verifier before and after.
  abbrev pub answer : Request → Verifier jwt → Verifier jwt × Response
  answer r v = verify_tx_token (verify http codec parser key_message now) message next r v

  -- The request has no token or one that does not verify, and is answered with status 401.
  pub record IsRefused (r : Request) (v : Verifier jwt) : Type 0 where
    pub text : String
    pub replied : (answer r v).1 ≡ write_verify_error text
    pub reason :
        (token_of r ≡ "")
        ⊎ ((e : VerifyError) × ((verify http codec parser key_message now (token_of r) v).1 ≡ err e)
            × (text ≡ message e))

  -- The token verifies, the next handler answers, it finds the claims in the context, and the calls
  -- in its context carry the token, or another one that they have already.
  pub record IsPassed (r : Request) (v : Verifier jwt) : Type 0 where
    pub claims : Claims
    pub verified : IsVerified (answer r v).0 (token_of r) claims
    pub passed : Request
    pub replied : (answer r v).1 ≡ next passed
    pub same_headers : passed.headers ≡ r.headers
    pub found : claims_from_context passed.context ≡ some claims
    pub propagated :
        (req : Request)
        → req.context ≡ passed.context
        → token_of (outbound req) ≡ (if token_of req == "" then token_of r else token_of req)

  answer-admit :
      (r : Request) (v : Verifier jwt)
      → (token_of r == "") ≡ false
      → answer r v
        ≡ admit
            (verify http codec parser key_message now)
            message
            next
            r
            (verify http codec parser key_message now (token_of r) v)
  unfolding verify_tx_token
  answer-admit r v given = rw given refl

  settle :
      (r : Request) (v : Verifier jwt) (result : Verifier jwt × Outcome VerifyError Claims)
      → IsParser parser
      → verify http codec parser key_message now (token_of r) v ≡ result
      → answer r v ≡ admit (verify http codec parser key_message now) message next r result
      → IsRefused r v ⊎ IsPassed r v
  unfolding admit verified_request
  settle r v (u, err e) is_parser verified answered = inl (record {
    text = message e;
    replied = ap (λ p. p.1) answered;
    reason = inr (e, ap (λ p. p.1) verified, refl);
  })
  settle r v (u, ok claims) is_parser verified answered = inr (record {
    claims = claims;
    verified =
        subst (λ (w : Verifier jwt). IsVerified w (token_of r) claims)
          (sym (ap (λ p. p.0) answered))
          (verify-IsVerified codec http parser key_message now (token_of r) v u claims is_parser
            verified);
    passed = verified_request r claims;
    replied = ap (λ p. p.1) answered;
    same_headers = refl;
    found = verified_request-claims r claims;
    propagated = λ req same.
        token_of-outbound req
        ∙ ap (λ s. if token_of req == "" then s else token_of req)
            (ap token_from_context same ∙ verified_request-token r claims);
  })

  -- A request is refused with status 401 when it has no token or the verifier returns an error, and
  -- else it is handed on with a token that verifies under a cached key, its claims are in the
  -- context, and calls in that context carry the token unless they have another one, when the
  -- parser does as documented.
  pub verify_tx_token_lem :
      (r : Request) (v : Verifier jwt) → IsParser parser → IsRefused r v ⊎ IsPassed r v
  unfolding verify_tx_token
  verify_tx_token_lem r v is_parser = elim (Bool-cases (token_of r == "")) [
    | inl empty ↦ inl (record {
      text = "missing Txn-Token header";
      replied = rw empty refl;
      reason = inl ((eq_iff (token_of r) "").0 empty);
    })
    | inr given ↦ settle r v _ is_parser refl (answer-admit r v given)
  ]
