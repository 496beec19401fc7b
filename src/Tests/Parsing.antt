-- ===== src/Tests/Parsing.antt =====
-- A small parser of tokens and a small identity provider, for the tests.
use kontxt.Base.{
  String, ◌≡◌, refl, sym, ap, ◌∙◌, inr, Bool, true, false, some, List, [], ◌∷◌, eq_iff, ◌==◌,
  Eq_nat, Eq_string, Outcome, ok, err, subst, ok_inj,
}
use kontxt.Base.Maps.{lookup}
use kontxt.Any.{text}
use kontxt.Jwt.{JwtToken, rsa, ParseOption, with_issuer, with_audience, Parser, IsParser}
use kontxt.Token.{type_header}
use kontxt.Keys.{JwkKey, public_keys}
use kontxt.Jwks.{Http}
use kontxt.Authn.Oidc.Keys.{Provider}
use kontxt.Tests.Fixtures.{text_jwt, text_codec, text_manager}

abbrev pub token_with : String → JwtToken
token_with kid = record {
  method = rsa;
  header = ("kid", text kid) ∷ ("typ", text type_header) ∷ [];
  claims = ("iss", text "https://idp") ∷ ("sub", text "alice") ∷ [];
}

-- Every text is this token.
abbrev pub toy_token : JwtToken
toy_token = token_with "k1"

abbrev accepts : ParseOption → Bool
accepts (with_issuer issuer) = issuer == "https://idp"
accepts (with_audience audience) = true

abbrev finish : {S : Type 0} → Bool → S × Outcome String String → S × Outcome String JwtToken
finish accepted (s, err e) = (s, err e)
finish true (s, ok key) = (s, ok toy_token)
finish false (s, ok key) = (s, err "token has invalid issuer")

abbrev pub text_parser : Parser text_jwt
text_parser = record {
  parse = λ now option token key_func s. finish (accepts option) (key_func toy_token s);
  audience_of = λ claims. ok ("api" ∷ []);
  is_current = λ now claims. true;
}

finish-ok :
    {S : Type 0} (accepted : Bool) (r : S × Outcome String String) {t : S} {parsed : JwtToken}
    → finish accepted r ≡ (t, ok parsed)
    → (accepted ≡ true) × (toy_token ≡ parsed) × (key : String) × (r ≡ (t, ok key))
finish-ok accepted (s, err e) h = cc
finish-ok true (s, ok key) h =
    (refl, ok_inj (ok toy_token) refl (ap (λ r. r.1) h), key, λ i. ((h i).0, ok key))
finish-ok false (s, ok key) h = cc

finish-state :
    {S : Type 0} (accepted : Bool) (r : S × Outcome String String) → (finish accepted r).0 ≡ r.0
finish-state accepted (s, err e) = refl
finish-state true (s, ok key) = refl
finish-state false (s, ok key) = refl

issuer_there :
    (parsed : JwtToken)
    → toy_token ≡ parsed
    → lookup "iss" parsed.claims ≡ some (text "https://idp")
unfolding lookup
issuer_there parsed same =
    subst (λ (t : JwtToken). lookup "iss" t.claims ≡ some (text "https://idp")) same refl

pub text_parser-IsParser : IsParser text_parser
text_parser-IsParser = record {
  parsed = λ now option token key_func s t parsed h.
      let (_, same, key, called) = finish-ok (accepts option) (key_func toy_token s) h in
      (key, subst (λ (seen : JwtToken). key_func seen s ≡ (t, ok key)) same called, tt);
  called_once = λ now option token key_func s.
      inr (toy_token, finish-state (accepts option) (key_func toy_token s));
  issued_by = λ now issuer token key_func s t parsed h given.
      let (accepted, same, key, called) =
        finish-ok (issuer == "https://idp") (key_func toy_token s) h in
      issuer_there parsed same
      ∙ ap (λ (i : String). some (text i)) (sym ((eq_iff issuer "https://idp").0 accepted));
}

abbrev pub serving : List JwkKey → Http
serving ks = record {
  get = λ url. ok (200, "{}");
  decode_discovery = λ body. ok (record { issuer = "https://idp"; jwks_uri = "https://idp/keys" });
  decode_jwks = λ body. ok ks;
}

abbrev pub provider : Provider text_jwt
provider = record {
  http = serving (public_keys text_codec text_manager);
  codec = text_codec;
  parser = text_parser;
  message = λ e. "no key";
  render = λ v. "value";
}
