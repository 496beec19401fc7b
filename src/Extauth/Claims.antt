-- ===== src/Extauth/Claims.antt =====
-- The answers of pkg/extauth/server.go, the order of its rules, and its checks of the claims.
use kontxt.Base.{
  ℕ, code, String, Bool, none, some, List, [], ◌∷◌, ◌++◌, if◌then◌else◌, ◌==◌, Eq_nat, Eq_string,
  is_some, Outcome, ok, err, ◌>>=◌, ◌>>◌, guard, map_err,
}
use kontxt.Base.Strings.{to_lower, text_lt}
use kontxt.Base.Maps.{Map, lookup, insert}
use kontxt.Any.{Any, text, number, object, members, Object, Json}
use kontxt.Token.{Claims}
use kontxt.Rules.{VerificationRule}
use kontxt.Extauth.Celverify.{Context, EvaluationError}

-- What the services read of a CheckRequest's HTTP attributes; `body` is read for generation only.
pub record HttpAttributes : Type 0 where
  pub path : String
  pub method : String
  pub body : String
  pub headers : Map String String

-- The gRPC codes that the answers use.
pub data Code : Type 0 where
  success invalid_argument permission_denied unauthenticated internal : Code

-- The errors of `checkVerificationRules`, with what their messages show.
pub data RuleError : Type 0 where
  scope_missing : String → String → String → RuleError
  tctx_nil field_missing : String → String → RuleError
  converting : String → RuleError
  evaluation : EvaluationError → RuleError

-- The messages of the denials.
pub data Message (V : Type 0) : Type 0 where
  no_attributes no_token : Message V
  not_verified : V → Message V
  violated : RuleError → Message V

-- CheckResponse: the headers to add, or the code, the HTTP status and the message of a denial.
pub data CheckResponse (V : Type 0) : Type 0 where
  allow : Map String String → CheckResponse V
  deny : Code → ℕ → Message V → CheckResponse V

-- allowed, and allowedWithHeaders of no header
abbrev pub allowed : {V : Type 0} → CheckResponse V
allowed = allow []

-- The HTTP status that `denied` picks.
unfoldable pub http_code : Code → ℕ
http_code permission_denied = 403
http_code invalid_argument = 400
http_code _ = 401

-- denied; the body is the JSON of the code and the message.
unfoldable pub denied : {V : Type 0} → Code → Message V → CheckResponse V
denied code message = deny code (http_code code) message

-- The order of `sort.Slice` in SetVerificationRules: by namespace, then by name.
unfoldable pub rule_lt : VerificationRule → VerificationRule → Bool
rule_lt a b =
    if a.namespace == b.namespace then text_lt a.name b.name else text_lt a.namespace b.namespace

-- A field with `omitempty`: left out when the map is nil or empty.
abbrev pub omit_empty : String → Object → Map String Any
omit_empty k (some (e ∷ m)) = (k, object (members (e ∷ m))) ∷ []
omit_empty k _ = []

-- The claims with the JSON names of the fields.
unfoldable pub claims_json : Claims → Map String Any
claims_json c =
    ("iss", text c.issuer)
    ∷ ("iat", number c.issued_at)
    ∷ ("exp", number c.expires_at)
    ∷ ("aud", text c.audience)
    ∷ ("txn", text c.transaction_id)
    ∷ ("sub", text c.subject)
    ∷ ("scope", text c.scope)
    ∷ ("req_wl", text c.requesting_workload)
    ∷ (omit_empty "tctx" c.transaction_context ++ omit_empty "rctx" c.requester_context)

-- claimsToMap of claims that are there
unfoldable pub claims_to_map : Json → Claims → Outcome String Object
claims_to_map json c = do b ← json.marshal (object (members (claims_json c))); json.unmarshal b

-- headersToCEL
unfoldable pub lower_headers : Map String String → Map String Any → Map String Any
lower_headers [] out = out
lower_headers ((k, v) ∷ m) out = lower_headers m (insert (to_lower k) (text v) out)

unfoldable pub headers_to_cel : Map String String → Map String Any
headers_to_cel headers = lower_headers headers []

-- The context of the CEL programs for one request.
unfoldable pub context_of :
    Json → Claims → String → String → Map String String → Outcome RuleError Context
context_of json claims path method headers = do
  tx_map ← map_err converting (claims_to_map json claims)
  ok (record {
    tx_token = tx_map;
    request = some (
        ("path", text path)
        ∷ ("method", text method)
        ∷ ("headers", object (members (headers_to_cel headers)))
        ∷ []);
  })

-- The loop over the required fields of a rule.
unfoldable pub check_fields : Object → String → List String → Outcome RuleError (Unit {0})
check_fields tctx name [] = ok tt
check_fields none name (field ∷ fields) = err (tctx_nil field name)
check_fields (some m) name (field ∷ fields) = do
  guard (is_some (lookup field m)) (field_missing field name)
  check_fields (some m) name fields
