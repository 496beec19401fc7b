-- ===== src/Extauth/Generate.antt =====
-- pkg/extauth/generate.go: TxTokens for requests at the entry points.
pub mod Laws
pub mod Order
use kontxt.Base.{
  code, String, not, ◌&&◌, Option, none, some, List, [], ◌∷◌, ◌++◌, if◌then◌else◌, ◌==◌, Eq_nat,
  Eq_string, Outcome, ok, err, ◌>>=◌, map_err,
}
use kontxt.Base.Strings.{cut, has_prefix, trim_prefix, to_lower, up_to, equal_fold}
use kontxt.Base.Maps.{Map, lookup, insert}
use kontxt.Any.{Any, text, Json}
use kontxt.Token.{header_name, subject_token_type_access_token}
use kontxt.Crd.{TctxFieldMapping}
use kontxt.Rules.{GenerationRule}
use kontxt.Sdk.Client.{ExchangeRequest, ExchangeError}
use kontxt.Extauth.Identity.{IdentityResolver, IdentityError, WorkloadIdentity, resolve}
use kontxt.Extauth.Matching.{match_endpoint_path, get_header}
use kontxt.Extauth.Claims.{HttpAttributes, Code, invalid_argument, unauthenticated, internal}

-- The source of a CheckRequest; the address is there where the socket address is.
pub record Source : Type 0 where
  pub principal : String
  pub socket_address : Option String

-- CheckRequest
pub record CheckRequest : Type 0 where
  pub http : Option HttpAttributes
  pub source : Option Source

-- The errors of `extractTctxField`.
pub data FieldError : Type 0 where
  bad_body bad_query unknown_source : String → FieldError

-- Why a request is denied.
pub data Denial : Type 0 where
  no_attributes : Denial
  no_identity : IdentityError → Denial
  field_failed : String → FieldError → Denial
  field_missing : String → Denial
  not_exchanged : ExchangeError → Denial

-- The answer: the headers to add, or the code and the reason.
pub data Answer : Type 0 where
  allow : Map String String → Answer
  deny : Code → Denial → Answer

-- GenerationServer, with the exchange of its TTS client
pub record GenerationServer : Type 0 where
  pub tts_client : ExchangeRequest → Outcome ExchangeError String
  pub identity_resolver : IdentityResolver
  pub generation_rules : List GenerationRule

-- NewGenerationServer
unfoldable pub new_generation_server :
    (ExchangeRequest → Outcome ExchangeError String) → IdentityResolver → GenerationServer
new_generation_server client resolver = record {
  tts_client = client;
  identity_resolver = resolver;
  generation_rules = [];
}

-- SetGenerationRules
unfoldable pub set_generation_rules : GenerationServer → List GenerationRule → GenerationServer
set_generation_rules s rules = record s { generation_rules = rules }

-- The loop of `findMatchingRule`, on a path without its query.
unfoldable pub find_rule : String → String → List GenerationRule → Option GenerationRule
find_rule path method [] = none
find_rule path method (rule ∷ rules) =
    let rest = find_rule path method rules in
    if equal_fold rule.endpoint.method method && match_endpoint_path path rule.endpoint.path
    then some rule
    else rest

-- findMatchingRule
unfoldable pub find_matching_rule : GenerationServer → String → String → Option GenerationRule
find_matching_rule s path method = find_rule (up_to b'?' path) method s.generation_rules

-- extractSourceAddress
unfoldable pub extract_source_address : CheckRequest → String
extract_source_address req = elim req.source [
  | none ↦ ""
  | some src ↦ elim src.socket_address [ none ↦ "" | some a ↦ a ]
]

unfoldable pub principal_of : CheckRequest → String
principal_of req = elim req.source [ none ↦ "" | some src ↦ src.principal ]

-- `json.Marshal` whose error is dropped
unfoldable pub marshal_or_empty : Json → Any → String
marshal_or_empty json v = elim (json.marshal v) [ ok s ↦ s | err _ ↦ "" ]

-- `parse_query` is url.ParseQuery followed by Get.
module _ (json : Json) (parse_query : String → Outcome String (String → String)) where
  -- The value of a field of the body.
  unfoldable pub field_value : Any → String
  field_value (text s) = s
  field_value v = marshal_or_empty json v

  unfoldable pub body_field : String → String → Outcome FieldError String
  body_field body field = if body == "" then ok "" else do
    parsed ← map_err bad_body (json.unmarshal body)
    ok (elim parsed [
      | none ↦ ""
      | some m ↦ elim (lookup field m) [ none ↦ "" | some v ↦ field_value v ]
    ])

  unfoldable pub query_field : String → String → Outcome FieldError String
  query_field path field = elim (cut b'?' path) [
    | none ↦ ok ""
    | some (before, query) ↦ do get ← map_err bad_query (parse_query query); ok (get field)
  ]

  -- extractTctxField
  unfoldable pub extract_tctx_field : HttpAttributes → TctxFieldMapping → Outcome FieldError String
  extract_tctx_field http mapping =
      let in_body = body_field http.body mapping.field in
      let in_query = query_field http.path mapping.field in
      if mapping.source == "body"
      then in_body
      else if mapping.source == "query"
      then in_query
      else if mapping.source == "header"
      then ok (get_header http.headers (to_lower mapping.field))
      else if mapping.source == "path"
      then ok ""
      else err (unknown_source mapping.source)

  -- What one field of the mapping adds: an error, nothing, or a value.
  unfoldable pub field_entry :
      HttpAttributes → String → TctxFieldMapping → Outcome Denial (Option String)
  field_entry http name mapping = elim (extract_tctx_field http mapping) [
    | err e ↦ if mapping.required then err (field_failed name e) else ok none
    | ok val ↦
        if not (val == "")
        then ok (some val)
        else if mapping.required
        then err (field_missing name)
        else ok none
  ]

  -- The loop over the mapping in `Check`.
  unfoldable pub collect :
      HttpAttributes
      → Map String TctxFieldMapping
      → Map String Any
      → Outcome Denial (Map String Any)
  collect http [] details = ok details
  collect http ((name, mapping) ∷ rest) details = do
    entry ← field_entry http name mapping
    collect http rest (elim entry [ none ↦ details | some val ↦ insert name (text val) details ])

  -- The subject token and its type.
  unfoldable pub subject_of :
      GenerationServer → CheckRequest → String → Outcome Denial (String × String)
  subject_of s req auth_header =
      if not (auth_header == "") && has_prefix auth_header "Bearer "
      then ok (trim_prefix auth_header "Bearer ", subject_token_type_access_token)
      else do
        identity ←
            map_err no_identity
              (resolve s.identity_resolver (principal_of req) (extract_source_address req))
        ok (identity.subject, "urn:ietf:params:oauth:token-type:kubernetes-sa")

  -- The request context (rctx).
  unfoldable pub request_context : CheckRequest → String → Map String Any
  request_context req auth_header =
      let ip = extract_source_address req in
      (if ip == "" then [] else ("req_ip", text ip) ∷ [])
      ++ ("authn", text (if auth_header == "" then "kubernetes-sa" else "oidc")) ∷ []

  -- The part of `Check` up to the exchange.
  unfoldable pub exchange_request :
      GenerationServer
      → CheckRequest
      → HttpAttributes
      → GenerationRule
      → Outcome (Code × Denial) ExchangeRequest
  exchange_request s req http rule = do
    let auth_header = get_header http.headers "Authorization"
    subject ← map_err (λ d. (unauthenticated, d)) (subject_of s req auth_header)
    details ←
        map_err (λ d. (invalid_argument, d))
          (collect http rule.tctx_mapping (("purpose", text rule.purpose) ∷ []))
    ok (record {
      subject_token = subject.0;
      subject_token_type = subject.1;
      scope = rule.scope;
      request_details = some details;
      request_context = some (request_context req auth_header);
    })

  -- The end of `Check`: the exchange and its answer.
  unfoldable pub generate :
      GenerationServer → CheckRequest → HttpAttributes → GenerationRule → Answer
  generate s req http rule = elim (exchange_request s req http rule) [
    | err (code, d) ↦ deny code d
    | ok request ↦ elim (s.tts_client request) [
      | err e ↦ deny internal (not_exchanged e)
      | ok tx_token ↦ allow ((header_name, tx_token) ∷ [])
    ]
  ]

  -- Check
  unfoldable pub check : GenerationServer → CheckRequest → Answer
  check s req = elim req.http [
    | none ↦ deny invalid_argument no_attributes
    | some http ↦ elim (find_matching_rule s http.path http.method) [
      | none ↦ allow []
      | some rule ↦ generate s req http rule
    ]
  ]
