-- ===== src/Tests/Fixtures.antt =====
-- Small instances of the libraries, and data for the tests.
use kontxt.Base.{
  ℕ, String, ◌≡◌, ◌≢◌, false, not, Option, none, some, [], ◌∷◌, eq_iff, if◌then◌else◌, ◌==◌, Eq_nat,
  Eq_string, Outcome, ok, err,
}
use kontxt.Base.Maps.{Map}
use kontxt.Base.Integers.{pos}
use kontxt.Any.{Any, object, no_members, Json, text}
use kontxt.Cel.{Cel, bool_type, bool_value}
use kontxt.Jwt.{Jwt}
use kontxt.Token
use kontxt.Token.{Claims}
use kontxt.Authn.{Authenticator}
use kontxt.Keys.{Manager, KeyCodec}
use kontxt.Tts.Rules
use kontxt.Tts.Handler.{Handler, World}
use kontxt.Tts.Request.{HttpRequest, TokenExchangeRequest}

abbrev pub toy_jwt : Jwt
toy_jwt = record {
  PrivateKey = ℕ;
  PublicKey = ℕ;
  public_key = λ k. k;
  sign = λ header claims key. ok "signed";
  parse = λ now s key_func audience. err "malformed";
  Verifies = λ s k. Unit;
}

-- Every expression compiles, and evaluates to true unless it is "false".
abbrev pub toy_cel : Cel
toy_cel = record {
  Env = Unit;
  Ast = String;
  Program = String;
  new_env = λ variables. ok tt;
  compile = λ env s. ok s;
  output_type = λ ast. bool_type;
  program = λ env ast. ok ast;
  eval = λ prg activation. ok (bool_value (not (prg == "false")));
}

-- Only the empty object has a text.
abbrev toy_marshal : Any → Outcome String String
toy_marshal (object no_members) = ok "{}"
toy_marshal _ = err "unsupported"

abbrev toy_unmarshal : String → Outcome String (Option (Map String Any))
toy_unmarshal s = if s == "{}" then ok (some []) else err "unsupported"

abbrev pub toy_json : Json
toy_json = record { marshal = toy_marshal; unmarshal = toy_unmarshal }

abbrev pub empty_json : Json
empty_json = record { marshal = λ v. ok "{}"; unmarshal = λ s. ok (some []) }

abbrev pub codec : KeyCodec toy_jwt
codec = record {
  compute_kid = λ k. if k == 1 then "k1" else if k == 2 then "k2" else "k3";
  encode_modulus = λ k. if k == 1 then "n1" else "n2";
  encode_exponent = λ k. "AQAB";
  decode = λ n e. ok (if n == "n1" then 1 else 2);
}

abbrev pub manager : Manager toy_jwt
manager = record {
  current = record { private_key = 1; kid = "k1" };
  previous = none;
  key_size = 2048;
  lifetime = pos 3600;
}

-- Keys that are texts, each of which is its own id and modulus.
abbrev pub text_jwt : Jwt
text_jwt = record {
  PrivateKey = String;
  PublicKey = String;
  public_key = λ k. k;
  sign = λ header claims key. ok "signed";
  parse = λ now s key_func audience. err "malformed";
  Verifies = λ s k. Unit;
}

abbrev pub text_codec : KeyCodec text_jwt
text_codec = record {
  compute_kid = λ k. k;
  encode_modulus = λ k. k;
  encode_exponent = λ k. "AQAB";
  decode = λ n e. ok n;
}

abbrev pub text_manager : Manager text_jwt
text_manager = record {
  current = record { private_key = "k1"; kid = "k1" };
  previous = none;
  key_size = 2048;
  lifetime = pos 3600;
}

abbrev pub existing : Claims
existing = record {
  issuer = "https://tts";
  issued_at = pos 0;
  expires_at = pos 15;
  audience = "example.com";
  transaction_id = "t1";
  subject = "alice";
  scope = "read write";
  requesting_workload = "gateway";
  transaction_context = some (("purpose", text "analysis") ∷ []);
  requester_context = none;
}

abbrev pub authenticator : Authenticator
authenticator = record {
  matches = λ issuer. issuer == "https://idp";
  authenticate = λ token. ok (record { subject = "alice"; extra = [] });
}

abbrev pub rule : Rules.IssuanceRule toy_cel
rule = record { name = "allow"; prg = "true"; message = ""; target_namespaces = [] }

abbrev pub targeted : Rules.IssuanceRule toy_cel
targeted = record { name = "deny"; prg = "false"; message = "no"; target_namespaces = "prod" ∷ [] }

abbrev pub handler : Handler toy_jwt toy_cel
handler = record {
  router = authenticator ∷ [];
  key_manager = manager;
  verifier = some (λ s. ok existing);
  issuer = "https://tts";
  trust_domain = "example.com";
  lifetime = pos 15000000000;
  issuance_rules = some (rule ∷ []);
}

abbrev pub world : World
world = record {
  now = pos 1000000000;
  uuid = "u1";
  json = toy_json;
  payload_issuer = λ payload. ok "https://idp";
}

abbrev pub form_of : String → String → Map String String
form_of token token_type =
    ("grant_type", Token.grant_type)
    ∷ ("subject_token", token)
    ∷ ("subject_token_type", token_type)
    ∷ ("requested_token_type", Token.requested_token_type)
    ∷ ("scope", "read")
    ∷ []

abbrev pub request_of : String → String → TokenExchangeRequest
request_of token token_type = record {
  grant_type = Token.grant_type;
  subject_token = token;
  subject_token_type = token_type;
  requested_token_type = Token.requested_token_type;
  audience = "";
  scope = "read";
  request_details = none;
  request_context = none;
}

abbrev pub post : HttpRequest
post = record {
  method = "POST";
  form = some (form_of "a.b.c" Token.subject_token_type_txn_token);
  headers = ("X-Kontxt-Workload", "analyzer") ∷ [];
}

-- Texts that the test tells apart are different.
pub differ : (a b : String) → (a == b) ≡ false → a ≢ b
differ a b e p = cc (e, (eq_iff a b).1 p)
