-- ===== src/Tts/Request.antt =====
-- The requests and the replies of pkg/tts/handler.go: parseRequest, identifyWorkload, writeError.
use kontxt.Base.{
  ℕ, String, not, Option, none, some, [], ◌∷◌, if◌then◌else◌, ◌==◌, Eq_nat, Eq_string, Outcome, ok,
  err, ◌>>=◌, ◌>>◌, guard, map_err,
}
use kontxt.Base.Strings.{has_prefix}
use kontxt.Base.Maps.{Map, lookup}
use kontxt.Any.{Object, Json}
use kontxt.Token
use kontxt.Token.{
  Claims, TokenError, grant_type, requested_token_type, subject_token_type_txn_token,
}
use kontxt.Authn.{AuthnError}
use kontxt.Tts.Rules.{EvaluationError}
use kontxt.Tts.Verifier.{VerifyError}

-- What the handler reads of an HTTP request. `form` is `none` where ParseForm fails; the values are
-- the first of each key, and the header keys are in canonical form.
pub record HttpRequest : Type 0 where
  pub method : String
  pub form : Option (Map String String)
  pub headers : Map String String

-- r.FormValue and r.Header.Get: the empty text where the key is missing
abbrev pub value_at : String → Map String String → String
value_at k m = elim (lookup k m) [ none ↦ "" | some v ↦ v ]

-- TokenExchangeRequest
pub record TokenExchangeRequest : Type 0 where
  pub grant_type : String
  pub subject_token : String
  pub subject_token_type : String
  pub requested_token_type : String
  pub audience : String
  pub scope : String
  pub request_details : Object
  pub request_context : Object

-- The errors of `parseRequest`.
pub data RequestError : Type 0 where
  unsupported_grant_type unsupported_token_type invalid_details invalid_context :
      String → RequestError
  token_required token_type_required scope_required : RequestError

-- The description of an error response, with what its text shows.
pub data Description : Type 0 where
  method_not_allowed bad_form no_verifier : Description
  bad_request : RequestError → Description
  not_authenticated : AuthnError → Description
  policy : EvaluationError → Description
  not_verified : VerifyError → Description
  not_subset : String → String → Description
  not_created : TokenError → Description

-- What `writeError` sends: the status, the OAuth error code, and the description.
pub record Failure : Type 0 where
  pub status : ℕ
  pub error : String
  pub description : Description

-- TokenExchangeResponse
pub record TokenExchangeResponse : Type 0 where
  pub access_token : String
  pub issued_token_type : String
  pub token_type : String

pub data Body : Type 0 where
  exchanged : TokenExchangeResponse → Body
  failed : String → Description → Body

pub record Reply : Type 0 where
  pub status : ℕ
  pub headers : Map String String
  pub body : Body

-- writeError
unfoldable pub write_error : Failure → Reply
write_error f = record {
  status = f.status;
  headers = ("Content-Type", "application/json") ∷ [];
  body = failed f.error f.description;
}

-- The end of `signAndRespond`.
unfoldable pub write_token : String → Reply
write_token tx_token = record {
  status = 200;
  headers = ("Content-Type", "application/json") ∷ ("Cache-Control", "no-store") ∷ [];
  body = exchanged (record {
    access_token = tx_token;
    issued_token_type = Token.requested_token_type;
    token_type = "N_A";
  });
}

unfoldable pub respond : Outcome Failure String → Reply
unfolding write_error write_token
respond (ok tx_token) = write_token tx_token
respond (err f) = write_error f

-- identifyWorkload
unfoldable pub identify_workload : HttpRequest → String
identify_workload r =
    if not (value_at "X-Kontxt-Workload" r.headers == "")
    then value_at "X-Kontxt-Workload" r.headers
    else if has_prefix (value_at "Authorization" r.headers) "Bearer "
    then "authenticated-workload"
    else "unknown"

-- `if v := r.FormValue(k); v != "" { json.Unmarshal … }`
unfoldable pub optional_object :
    Json → (String → RequestError) → String → Outcome RequestError Object
optional_object json invalid v = if v == "" then ok none else map_err invalid (json.unmarshal v)

-- parseRequest
unfoldable pub parse_request : Json → Map String String → Outcome RequestError TokenExchangeRequest
parse_request json form = do
  let grant = value_at "grant_type" form
  guard (grant == Token.grant_type) (unsupported_grant_type grant)
  let subject = value_at "subject_token" form
  guard (not (subject == "")) token_required
  let subject_type = value_at "subject_token_type" form
  guard (not (subject_type == "")) token_type_required
  let requested = value_at "requested_token_type" form
  guard (requested == Token.requested_token_type) (unsupported_token_type requested)
  let wanted = value_at "scope" form
  guard (not (wanted == "")) scope_required
  details ← optional_object json invalid_details (value_at "request_details" form)
  context ← optional_object json invalid_context (value_at "request_context" form)
  ok (record {
    grant_type = grant;
    subject_token = subject;
    subject_token_type = subject_type;
    requested_token_type = requested;
    audience = value_at "audience" form;
    scope = wanted;
    request_details = details;
    request_context = context;
  })
