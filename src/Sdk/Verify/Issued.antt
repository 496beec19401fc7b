-- ===== src/Sdk/Verify/Issued.antt =====
-- The tokens of the token service at a verifier of the SDK.
use kontxt.Base.{
  String, ◌≡◌, refl, ap, ◌∙◌, true, false, some, ◌==◌, Eq_nat, Eq_string, test_refl, Outcome, ok,
  err, subst, ok_inj,
}
use kontxt.Base.Maps.{Map, lookup}
use kontxt.Base.Integers.{ℤ}
use kontxt.Base.State.{wrap, map_error}
use kontxt.Any.{Any, text}
use kontxt.Cel.{Cel}
use kontxt.Jwt.{Jwt, JwtToken, rsa, Parser, IsComplete}
use kontxt.Token.{jwt_header, jwt_claims, transaction_of}
use kontxt.Keys.{Manager, KeyCodec, Decodes, public_keys, new_public_key, rsa_public_key}
use kontxt.Jwks.{Http, get_jwks}
use kontxt.Authn.{SubjectInfo, authenticate}
use kontxt.Tts.Verifier
use kontxt.Tts.Verifier.{text_at, find_key}
use kontxt.Tts.Verifier.Laws.{issued, extract_claims-jwt_claims}
use kontxt.Tts.Handler.{Handler, World, issuance_claims, handle_issuance}
use kontxt.Tts.Handler.Laws.{Signs, signed_claims, handle_issuance-Issued}
use kontxt.Tts.Request.{HttpRequest, TokenExchangeRequest, identify_workload}
use kontxt.Sdk.Verify.{Verifier, new, KeyError, extract_claims, check_typ, key_func, verify}
use kontxt.Sdk.Verify.Laws.{IsDistinct, result, key_func_served}

result-ok : {E A : Type 0} (r : Outcome E A) {a : A} → result r ≡ some a → r ≡ ok a
result-ok (ok b) e = cc
result-ok (err x) e = cc

module _ {jwt : Jwt} (codec : KeyCodec jwt) (m : Manager jwt) (mc : Map String Any) where
  open jwt use {PublicKey, public_key}

  -- A token of the current key, as the parser hands it over.
  abbrev current_token : JwtToken
  current_token = record { method = rsa; header = jwt_header m.current.kid; claims = mc }

  key_func-current :
      Decodes jwt codec
      → (m.current.kid == "") ≡ false
      → Verifier.key_func codec m current_token ≡ ok (public_key m.current.private_key)
  unfolding Verifier.key_func jwt_header lookup find_key public_keys new_public_key rsa_public_key
  key_func-current decodes named =
      rw (named, test_refl m.current.kid, decodes (public_key m.current.private_key)) refl

  check_typ-current : check_typ current_token ≡ ok (Verifier.extract_claims mc)
  unfolding check_typ jwt_header lookup extract_claims Verifier.extract_claims
  check_typ-current = refl

  key_func_current_served :
      (http : Http) (url audience : String)
      → Decodes jwt codec
      → IsDistinct codec m
      → (m.current.kid == "") ≡ false
      → get_jwks http url ≡ ok (public_keys codec m)
      → (key_func http codec current_token (new url audience)).1
        ≡ ok (public_key m.current.private_key)
  key_func_current_served http url audience decodes distinct named served = result-ok _ (
      key_func_served codec m http url audience current_token decodes distinct served
      ∙ ap result (key_func-current decodes named))

module _ {jwt : Jwt} {cel : Cel} (codec : KeyCodec jwt) (h : Handler jwt cel) (w : World) where
  Signs-issued :
      (r : HttpRequest) (req : TokenExchangeRequest) (info : SubjectInfo) (s : String)
      → authenticate w.payload_issuer h.router req.subject_token ≡ ok info
      → handle_issuance h w r req ≡ ok s
      → Signs h w (signed_claims h w (issuance_claims h w info (identify_workload r) req)) s
  Signs-issued r req info s authenticated issuance =
      let given = handle_issuance-Issued h w r req s issuance in
      subst
        (λ (i : SubjectInfo).
          Signs h w (signed_claims h w (issuance_claims h w i (identify_workload r) req)) s)
        (ok_inj _ given.authenticated authenticated) given.signed

  aud_issued :
      (info : SubjectInfo) (workload : String) (req : TokenExchangeRequest)
      → lookup "aud" (signed_claims h w (issuance_claims h w info workload req))
        ≡ some (text h.trust_domain)
  unfolding jwt_claims lookup issuance_claims
  aud_issued info workload req = refl

  -- A token that the endpoint issued verifies at a new verifier for the trust domain, to which the
  -- key set of the handler is served, and its claims are those of the request, when the parser
  -- accepts signed tokens whose times allow it, decoding gives back encoded keys, the two keys have
  -- different ids, and neither the token nor the id of the current key is empty.
  pub verify-handle_issuance :
      (http : Http) (url : String) (parser : Parser jwt) (message : KeyError → String) (later : ℤ)
      (r : HttpRequest) (req : TokenExchangeRequest) (info : SubjectInfo) (s : String)
      → IsComplete parser
      → Decodes jwt codec
      → IsDistinct codec h.key_manager
      → (h.key_manager.current.kid == "") ≡ false
      → get_jwks http url ≡ ok (public_keys codec h.key_manager)
      → authenticate w.payload_issuer h.router req.subject_token ≡ ok info
      → handle_issuance h w r req ≡ ok s
      → (s == "") ≡ false
      → parser.is_current later
          (signed_claims h w (issuance_claims h w info (identify_workload r) req))
        ≡ true
      → (verify http codec parser message later s (new url h.trust_domain)).1
        ≡ ok (
            issued
              (issuance_claims h w info (identify_workload r) req)
              w.now
              h.lifetime
              (transaction_of (issuance_claims h w info (identify_workload r) req) w.uuid))
  unfolding verify new
  verify-handle_issuance http url parser message later r req info s complete decodes distinct named
        served authenticated issuance given current =
      let mc : Map String Any =
        signed_claims h w (issuance_claims h w info (identify_workload r) req) in
      let v : Verifier jwt = new url h.trust_domain in
      let found =
        key_func_current_served codec h.key_manager mc http url h.trust_domain decodes distinct
          named served in
      let parses =
        complete.accepted later h.trust_domain s (jwt_header h.key_manager.current.kid) mc
          h.key_manager.current.private_key (λ t. map_error message (key_func http codec t)) v
          (key_func http codec (current_token codec h.key_manager mc) v).0
          (Signs-issued r req info s authenticated issuance) current
          (aud_issued info (identify_workload r) req)
          (ap
            (λ x.
              wrap message ((key_func http codec (current_token codec h.key_manager mc) v).0, x))
            found) in
      rw given (
        rw parses (
          check_typ-current codec h.key_manager mc
          ∙ ap ok (extract_claims-jwt_claims _ w.now h.lifetime _)))
