-- ===== src/Sdk/Verify/Verified.antt =====
-- What the verification of a token rests on.
use kontxt.Base.{
  String, ◌≡◌, refl, ap, ◌∙◌, inl, inr, some, eq_iff, ◌==◌, Eq_nat, Eq_string, Bool-cases,
  Option-cases, ok, subst, ok_inj,
}
use kontxt.Base.Maps.{lookup}
use kontxt.Base.Integers.{ℤ}
use kontxt.Base.State.{follow-eq-ok, wrap-eq-ok}
use kontxt.Jwt.{Jwt, JwtToken, Parser, with_audience, IsParser}
use kontxt.Token.{Claims, type_header}
use kontxt.Keys.{KeyCodec}
use kontxt.Jwks.{Http}
use kontxt.Tts.Verifier
use kontxt.Tts.Verifier.{text_at}
use kontxt.Sdk.Verify.{
  Verifier, KeyError, not_verified, extract_claims, kid_of, check_typ, cached, fetch_jwks,
  fetch_key, key_for, key_func, verify,
}

-- The token verifies under a key of the cache, which has its key id; its type is the one of TxTokens,
-- and the claims are its own, read as the token service reads them.
pub record IsVerified {jwt : Jwt} (v : Verifier jwt) (token : String) (claims : Claims)
    : Type 0 where
  pub parsed : JwtToken
  pub kid : String
  pub key : jwt.PublicKey
  pub named : kid_of parsed ≡ ok kid
  pub held : lookup kid v.keys ≡ some key
  pub verifies : jwt.Verifies token key
  pub typed : text_at "typ" parsed.header ≡ type_header
  pub read : claims ≡ Verifier.extract_claims parsed.claims

extract_claims_lem : (t : JwtToken) → extract_claims t.claims ≡ Verifier.extract_claims t.claims
unfolding extract_claims Verifier.extract_claims
extract_claims_lem t = refl

check_typ-ok :
    (t : JwtToken) {claims : Claims}
    → check_typ t ≡ ok claims
    → (text_at "typ" t.header ≡ type_header) × (claims ≡ Verifier.extract_claims t.claims)
unfolding check_typ
check_typ-ok t e = elim (Bool-cases (text_at "typ" t.header == type_header)) [
  | inl same ↦ (
    (eq_iff (text_at "typ" t.header) type_header).0 same,
    ok_inj (ok (extract_claims t.claims)) (rw (same, check_typ) at e) refl ∙ extract_claims_lem t,
  )
  | inr other ↦ cc (rw (other, check_typ) at e)
]

module _ {jwt : Jwt} (codec : KeyCodec jwt) (http : Http) where
  open jwt use {PublicKey}

  cached_found :
      (kid : String) (v : Verifier jwt) {key : PublicKey}
      → cached kid v ≡ ok key
      → lookup kid v.keys ≡ some key
  unfolding cached
  cached_found kid v e = elim (Option-cases (lookup kid v.keys)) [
    | inl missing ↦ cc (rw (missing, cached) at e)
    | inr (key, there) ↦ cc (rw (there, cached) at e, there)
  ]

  key_for_found :
      (kid : String) (v u : Verifier jwt) (key : PublicKey)
      → key_for http codec kid v ≡ (u, ok key)
      → lookup kid u.keys ≡ some key
  unfolding key_for fetch_key
  key_for_found kid v u key e = elim (Option-cases (lookup kid v.keys)) [
    | inr (found, there) ↦ cc (rw (there, key_for) at e, there)
    | inl missing ↦
        let (w, tt, fetched, answer) =
          follow-eq-ok (fetch_jwks http codec v) _ (rw (missing, key_for) at e) in
        cached_found kid u (cc answer)
  ]

  key_func_found :
      (t : JwtToken) (v u : Verifier jwt) (key : PublicKey)
      → key_func http codec t v ≡ (u, ok key)
      → (kid : String) × (kid_of t ≡ ok kid) × (lookup kid u.keys ≡ some key)
  unfolding key_func
  key_func_found t v u key e =
      let (w, kid, named, answer) = follow-eq-ok (v, kid_of t) (key_for http codec) e in
      (kid, cc named, key_for_found kid w u key answer)

  -- The claims come back only for a token that verifies under a cached key.
  pub verify-IsVerified :
      (parser : Parser jwt) (message : KeyError → String) (now : ℤ) (token : String)
      (v u : Verifier jwt) (claims : Claims)
      → IsParser parser
      → verify http codec parser message now token v ≡ (u, ok claims)
      → IsVerified u token claims
  unfolding verify
  verify-IsVerified parser message now token v u claims is_parser e =
      elim (Bool-cases (token == "")) [
        | inl empty ↦ cc (rw (empty, verify) at e)
        | inr given ↦
            let (w, parsed, wrapped, answer) = follow-eq-ok _ _ (rw (given, verify) at e) in
            let parses = wrap-eq-ok not_verified _ wrapped in
            let (key, found, verifies) =
              is_parser.parsed now (with_audience v.audience) token _ v w parsed parses in
            let (kid, named, held) = key_func_found parsed v w key (wrap-eq-ok message _ found) in
            let (typed, read) = check_typ-ok parsed (ap (λ r. r.1) answer) in
            record {
              parsed = parsed;
              kid = kid;
              key = key;
              named = named;
              held =
                  subst (λ (x : Verifier jwt). lookup kid x.keys ≡ some key) (ap (λ r. r.0) answer)
                    held;
              verifies = verifies;
              typed = typed;
              read = read;
            }
      ]
