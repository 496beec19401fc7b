-- ===== src/Sdk/Client.antt =====
-- sdk/tts/client.go: the client of the token endpoint.
pub mod Laws
use kontxt.Base.{
  ℕ, String, not, none, some, [], ◌∷◌, ◌++◌, if◌then◌else◌, ◌==◌, Eq_nat, Eq_string, Outcome, ok,
  err, ◌>>=◌, ◌>>◌, guard, map_err,
}
use kontxt.Base.Maps.{Map}
use kontxt.Any.{Object, of_object, Json}
use kontxt.Token.{grant_type, requested_token_type, subject_token_type_access_token}

-- ExchangeRequest
pub record ExchangeRequest : Type 0 where
  pub subject_token : String
  pub subject_token_type : String
  pub scope : String
  pub request_details : Object
  pub request_context : Object

-- exchangeResponse
pub record ExchangeResponse : Type 0 where
  pub access_token : String
  pub issued_token_type : String
  pub token_type : String
  pub error : String
  pub error_desc : String

pub data ExchangeError : Type 0 where
  token_required scope_required no_access_token : ExchangeError
  bad_details bad_context not_sent undecoded : String → ExchangeError
  -- The status with the error and its description, or with the body.
  refused : ℕ → String → String → ExchangeError
  failed : ℕ → String → ExchangeError

-- What net/http and encoding/json do: the POST of a form to the endpoint, up to the body that was
-- read, and the decoding of a body into exchangeResponse.
pub record Transport : Type 0 where
  pub json : Json
  pub post : Map String String → Outcome String (ℕ × String)
  pub decode : String → Outcome String ExchangeResponse

-- `if m != nil { b, err := json.Marshal(m); …; form.Set(k, string(b)) }`
unfoldable pub object_field :
    Json → (String → ExchangeError) → String → Object → Outcome ExchangeError (Map String String)
object_field json bad k none = ok []
object_field json bad k (some m) = do
  s ← map_err bad (json.marshal (of_object (some m)))
  ok ((k, s) ∷ [])

-- The type of the subject token, with its default.
unfoldable pub type_of : ExchangeRequest → String
type_of req =
    if req.subject_token_type == "" then subject_token_type_access_token else req.subject_token_type

-- The part of `Exchange` that builds the form.
unfoldable pub exchange_form : Json → ExchangeRequest → Outcome ExchangeError (Map String String)
exchange_form json req = do
  guard (not (req.subject_token == "")) token_required
  guard (not (req.scope == "")) scope_required
  details ← object_field json bad_details "request_details" req.request_details
  context ← object_field json bad_context "request_context" req.request_context
  ok (
      ("grant_type", grant_type)
      ∷ ("subject_token", req.subject_token)
      ∷ ("subject_token_type", type_of req)
      ∷ ("requested_token_type", requested_token_type)
      ∷ ("scope", req.scope)
      ∷ (details ++ context))

-- The part of `Exchange` that reads the response.
unfoldable pub read_failure : Transport → ℕ → String → ExchangeError
read_failure t status body = elim (t.decode body) [
  | ok r ↦ if r.error == "" then failed status body else refused status r.error r.error_desc
  | err _ ↦ failed status body
]

unfoldable pub read_response : Transport → ℕ → String → Outcome ExchangeError String
read_response t status body = do
  guard (status == 200) (read_failure t status body)
  r ← map_err undecoded (t.decode body)
  guard (not (r.access_token == "")) no_access_token
  ok r.access_token

-- Client.Exchange
unfoldable pub exchange : Transport → ExchangeRequest → Outcome ExchangeError String
exchange t req = do
  form ← exchange_form t.json req
  response ← map_err not_sent (t.post form)
  let (status, body) = response
  read_response t status body
