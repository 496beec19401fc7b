-- ===== src/Tests/Issuance.antt =====
-- A signer of one token, and that token at a verifier.
use kontxt.Base.{
  ℕ, String, ◌≡◌, refl, sym, ap, ◌∙◌, inl, inr, Bool, true, false, ◌&&◌, none, some, [], ◌∷◌,
  eq_iff, if◌then◌else◌, ◌==◌, Eq_nat, Eq_string, nat_eq_iff, Bool-cases, Outcome, ok, err, both,
}
use kontxt.Base.Integers.{◌+ℤ◌, floor_div, pos, negsuc}
use kontxt.Any.{Any, null, boolean, number, text, slice, nil_map, object}
use kontxt.Jwt.{Jwt, JwtToken, rsa, Parser, IsComplete}
use kontxt.Token
use kontxt.Token.{
  jwt_header, jwt_claims, validate_required, transaction_of,
  subject_token_type_access_token as bearer,
}
use kontxt.Base.Strings.{split, span_parts}
use kontxt.Base.Maps.{Map, lookup}
use kontxt.Authn.{authenticate, extract_issuer}
use kontxt.Sdk.Verify.{verify, new}
use kontxt.Sdk.Verify.Issued.{verify-handle_issuance}
use kontxt.Tts.Rules.{
  evaluate_issuance_rules, check_rules, check_rule, verdict, rule_applies_to_namespace,
}
use kontxt.Tts.Request.{identify_workload}
use kontxt.Keys.{KeyCodec, public_keys, signing_key}
use kontxt.Jwks.{get_jwks, get_ok}
use kontxt.Tts.Handler.{
  Handler, handle_issuance, issuance_claims, check_policy, load_issuance_rules, sign,
}
use kontxt.Tests.Fixtures.{toy_cel, rule, authenticator, world, request_of, post}
use kontxt.Tests.Parsing.{serving}

-- Equality of texts and of numbers.
abbrev same : Any → Any → Bool
same (text s) (text t) = s == t
same (number (pos a)) (number (pos b)) = a == b
same (text s) _ = false
same (number (pos a)) _ = false
same _ _ = false

same-eq : (v u : Any) → same v u ≡ true → v ≡ u
same-eq (text s) (text t) e = ap text ((eq_iff s t).0 e)
same-eq (number (pos a)) (number (pos b)) e = ap (λ (n : ℕ). number (pos n)) ((nat_eq_iff a b).0 e)
same-eq null _ e = cc
same-eq (boolean _) _ e = cc
same-eq (slice _) _ e = cc
same-eq nil_map _ e = cc
same-eq (object _) _ e = cc
same-eq (number (negsuc _)) _ e = cc
same-eq (text _) null e = cc
same-eq (text _) (boolean _) e = cc
same-eq (text _) (slice _) e = cc
same-eq (text _) nil_map e = cc
same-eq (text _) (object _) e = cc
same-eq (text _) (number _) e = cc
same-eq (number (pos _)) null e = cc
same-eq (number (pos _)) (boolean _) e = cc
same-eq (number (pos _)) (slice _) e = cc
same-eq (number (pos _)) nil_map e = cc
same-eq (number (pos _)) (object _) e = cc
same-eq (number (pos _)) (text _) e = cc
same-eq (number (pos _)) (number (negsuc _)) e = cc

abbrev same_map : Map String Any → Map String Any → Bool
same_map [] [] = true
same_map ((k, v) ∷ m) ((j, u) ∷ n) = k == j && (same v u && same_map m n)
same_map [] (_ ∷ _) = false
same_map (_ ∷ _) [] = false

same_map-eq : (m n : Map String Any) → same_map m n ≡ true → m ≡ n
same_map-eq [] [] e = refl
same_map-eq ((k, v) ∷ m) ((j, u) ∷ n) e =
    let (keys, more) = both _ _ e in
    let (values, rest) = both _ _ more in
    λ i. ((eq_iff k j).0 keys i, same-eq v u values i) ∷ same_map-eq m n rest i
same_map-eq [] (_ ∷ _) e = cc
same_map-eq (_ ∷ _) [] e = cc

abbrev known_header : Map String Any
known_header = jwt_header "k1"

abbrev known_claims : Map String Any
known_claims =
    ("iss", text "https://tts")
    ∷ ("iat", number (pos 1))
    ∷ ("exp", number (pos 16))
    ∷ ("aud", text "example.com")
    ∷ ("txn", text "u1")
    ∷ ("sub", text "alice")
    ∷ ("scope", text "read")
    ∷ ("req_wl", text "analyzer")
    ∷ []

abbrev sign_known : Map String Any → Map String Any → String → Outcome String String
sign_known header claims key =
    if same_map header known_header && same_map claims known_claims
    then ok "signed"
    else err "unsupported"

sign_known-ok :
    (header claims : Map String Any) (key : String) {s : String}
    → sign_known header claims key ≡ ok s
    → (header ≡ known_header) × (claims ≡ known_claims)
sign_known-ok header claims key e =
    elim (Bool-cases (same_map header known_header && same_map claims known_claims)) [
      | inl known ↦
          let (h, c) = both _ _ known in
          (same_map-eq header known_header h, same_map-eq claims known_claims c)
      | inr other ↦ cc (rw other at e)
    ]

-- Texts for keys, and one token that can be signed.
abbrev issuing_jwt : Jwt
issuing_jwt = record {
  PrivateKey = String;
  PublicKey = String;
  public_key = λ k. k;
  sign = sign_known;
  parse = λ now s key_func audience. err "malformed";
  Verifies = λ s k. Unit;
}

abbrev issuing_codec : KeyCodec issuing_jwt
issuing_codec = record {
  compute_kid = λ k. k;
  encode_modulus = λ k. k;
  encode_exponent = λ k. "AQAB";
  decode = λ n e. ok n;
}

abbrev known_token : JwtToken
known_token = record { method = rsa; header = known_header; claims = known_claims }

abbrev answered : {S : Type 0} → S × Outcome String String → S × Outcome String JwtToken
answered (s, ok key) = (s, ok known_token)
answered (s, err e) = (s, err e)

abbrev known_parser : Parser issuing_jwt
known_parser = record {
  parse = λ now option token key_func s. answered (key_func known_token s);
  audience_of = λ claims. ok ("example.com" ∷ []);
  is_current = λ now claims. true;
}

known_parser-IsComplete : IsComplete known_parser
known_parser-IsComplete = record {
  accepted =
      λ now audience token header claims private key_func s t signed current addressed answers.
        let (h, c) = sign_known-ok header claims private signed in
        let same : record { method = rsa; header = header; claims = claims } ≡ known_token =
          λ i. record { method = rsa; header = h i; claims = c i } in
        ap (λ (seen : JwtToken). answered (key_func seen s)) (sym same)
        ∙ ap answered answers
        ∙ ap (λ (seen : JwtToken). (t, ok seen)) (sym same);
}

abbrev issuer : Handler issuing_jwt toy_cel
issuer = record {
  router = authenticator ∷ [];
  key_manager = record {
    current = record { private_key = "k1"; kid = "k1" };
    previous = none;
    key_size = 2048;
    lifetime = pos 3600;
  };
  verifier = none;
  issuer = "https://tts";
  trust_domain = "example.com";
  lifetime = pos 15000000000;
  issuance_rules = some (rule ∷ []);
}

verify-handle_issuance_example :
    (verify
      (serving (public_keys issuing_codec issuer.key_manager))
      issuing_codec
      known_parser
      (λ e. "no key")
      (pos 2)
      "signed"
      (new "https://tts/.well-known/jwks.json" "example.com")).1
    ≡ ok (record {
      issuer = "https://tts";
      issued_at = pos 1;
      expires_at = pos 16;
      audience = "example.com";
      transaction_id = "u1";
      subject = "alice";
      scope = "read";
      requesting_workload = "analyzer";
      transaction_context = none;
      requester_context = none;
    })
unfolding handle_issuance sign Token.new validate_required identify_workload issuance_claims
    signing_key lookup authenticate extract_issuer split span_parts check_policy
    evaluate_issuance_rules check_rules check_rule verdict rule_applies_to_namespace
    load_issuance_rules get_jwks get_ok jwt_header jwt_claims transaction_of floor_div ◌+ℤ◌
verify-handle_issuance_example =
    verify-handle_issuance issuing_codec issuer world
      (serving (public_keys issuing_codec issuer.key_manager)) "https://tts/.well-known/jwks.json"
      known_parser (λ e. "no key") (pos 2) post (request_of "a.b.c" bearer)
      (record { subject = "alice"; extra = [] }) "signed" known_parser-IsComplete (λ k. refl)
      (λ entry there. cc) refl refl refl refl refl refl
