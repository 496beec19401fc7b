-- ===== src/Tests/Extauth.antt =====
-- The ext_authz services and the token client at concrete inputs.
use kontxt.Base.{
  String, ◌≡◌, refl, ◌↔◌, ◌⊎◌, true, false, none, some, [], ◌∷◌, ◌++◌, ◌==◌, Eq_nat, Eq_string, All,
  Outcome, ok, subst, ok_inj,
}
use kontxt.Base.Strings.{
  ends_with, fields, span_words, is_space, to_lower, up_to, split, span_parts, trim, trim_left,
  trim_right, equal_fold, has_prefix, strip_prefix, trim_prefix,
}
use kontxt.Base.Maps.{Map, lookup, insert}
use kontxt.Token.{header_name}
use kontxt.Crd.{TctxFieldMapping}
use kontxt.Rules.{GenerationRule, VerificationRule}
use kontxt.Sdk.Client.{ExchangeRequest, exchange_form, object_field, type_of}
use kontxt.Sdk.Client.Laws.{Roundtrips, read_back, parse_request-exchange_form}
use kontxt.Tts.Request.{parse_request}
use kontxt.Base.Strings.{contains_char}
use kontxt.Extauth.Identity.{identity_of, resolve_from_principal}
use kontxt.Extauth.Identity.Principals.{principal_of, resolve_from_principal-principal_of}
use kontxt.Extauth.Matching.{
  match_path, match_endpoint_path, match_parts, scope_contains, get_header,
}
use kontxt.Extauth.Server
use kontxt.Extauth.Server.{
  VerificationRuleSet, Server, is_excluded, excludes, check_rule_sets, check_rule_set,
  check_programs, set_verification_rules, rule_sets, compile_cel, load_verification_rules,
  new_server, check_verification_rules, check_token, admit, auto_narrow, find_narrowing, narrows,
}
use kontxt.Extauth.Claims.{HttpAttributes, check_fields}
use kontxt.Extauth.Server.Laws.{Satisfied, Admitted, check_rule_sets_iff, check-Admitted}
use kontxt.Extauth.Server.Narrowing.{IsFirst, find_narrowing_iff}
use kontxt.Extauth.Identity.{Pod}
use kontxt.Extauth.Generate
use kontxt.Extauth.Generate.{
  CheckRequest, GenerationServer, find_matching_rule, find_rule, exchange_request, collect,
  field_entry, extract_tctx_field, generate, subject_of, request_context, extract_source_address,
}
use kontxt.Extauth.Generate.Laws.{Allowed, check-allow}
use kontxt.Tests.Fixtures.{toy_cel, toy_json, empty_json, existing, form_of}

abbrev reader : VerificationRule
reader = record {
  namespace = "prod";
  name = "reader";
  service_name = "reader";
  required_scope = "read";
  required_tctx_fields = "purpose" ∷ [];
  cel_rules = [];
  excluded_endpoints = record { path = "/healthz"; method = "GET" } ∷ [];
  auto_narrow = true;
}

abbrev reader_set : VerificationRuleSet toy_cel
reader_set = record { rule = reader; cel_programs = [] }

abbrev pub server : Server toy_cel String
server = record {
  verifier = λ s. ok existing;
  verification_rules = some (reader_set ∷ []);
  tts_client = none;
}

abbrev pub http : HttpAttributes
http = record { path = "/data"; method = "GET"; body = ""; headers = ("txn-token", "a.b.c") ∷ [] }

check_rule_sets_iff_example :
    (check_rule_sets toy_cel
        (ok (record { tx_token = none; request = none }))
        existing
        (reader_set ∷ [])
      ≡ ok tt)
    ↔ All
        (Satisfied toy_cel (ok (record { tx_token = none; request = none })) existing)
        (reader_set ∷ [])
check_rule_sets_iff_example =
    check_rule_sets_iff toy_cel (ok (record { tx_token = none; request = none })) existing
      (reader_set ∷ [])

check-Admitted_example :
    (is_excluded toy_cel server "/data" "GET" ≡ true) ⊎ Admitted toy_cel server empty_json http
unfolding Server.check is_excluded excludes match_path up_to has_prefix strip_prefix equal_fold
    check_token get_header to_lower lookup admit check_verification_rules check_rule_sets
    check_rule_set check_fields check_programs scope_contains fields span_words is_space auto_narrow
    load_verification_rules
check-Admitted_example = check-Admitted toy_cel server empty_json http [] refl

-- A rule that wants no narrowing stands first.
abbrev plain_set : VerificationRuleSet toy_cel
plain_set = record { rule = record reader { auto_narrow = false }; cel_programs = [] }

find_narrowing_iff_example :
    (find_narrowing toy_cel existing (plain_set ∷ reader_set ∷ []) ≡ some reader_set)
    ↔ IsFirst toy_cel existing reader_set (plain_set ∷ reader_set ∷ [])
find_narrowing_iff_example =
    find_narrowing_iff toy_cel existing (plain_set ∷ reader_set ∷ []) reader_set

abbrev pod : Pod
pod = record {
  name = "agent-1";
  namespace = "team";
  service_account_name = "agent";
  pod_ip = "10.0.0.42";
}

abbrev mapping : Map String TctxFieldMapping
mapping = ("trace", record { source = "header"; field = "X-Trace"; required = true }) ∷ []

abbrev analyze : GenerationRule
analyze = record {
  namespace = "prod";
  name = "analyze";
  endpoint = record { path = "/datasets/{id}"; method = "GET" };
  purpose = "analysis";
  scope = "read";
  tctx_mapping = mapping;
  tctx_enrichments = [];
  rctx_fields = [];
  token_lifetime = "15s";
}

abbrev pub entry : HttpAttributes
entry = record {
  path = "/datasets/7";
  method = "GET";
  body = "";
  headers = ("x-trace", "t") ∷ ("authorization", "Bearer a.b.c") ∷ [];
}

abbrev pub queries : String → Outcome String (String → String)
queries s = ok (λ k. "")

abbrev pub generator : GenerationServer
generator = record {
  tts_client = λ req. ok "signed";
  identity_resolver = [];
  generation_rules = analyze ∷ [];
}

check-allow_example :
    Allowed toy_json queries generator
      (record { http = some entry; source = none })
      ((header_name, "signed") ∷ [])
unfolding Generate.check find_matching_rule find_rule match_endpoint_path match_parts split
    span_parts trim trim_left trim_right up_to equal_fold generate exchange_request subject_of
    has_prefix strip_prefix trim_prefix collect field_entry extract_tctx_field get_header to_lower
    lookup insert request_context extract_source_address ends_with
check-allow_example =
    check-allow toy_json queries generator (record { http = some entry; source = none })
      ((header_name, "signed") ∷ []) refl

toy-Roundtrips : Roundtrips toy_json
toy-Roundtrips [] s e =
    subst (λ x. (toy_json.unmarshal x ≡ ok (some [])) × ((x == "") ≡ false))
      (ok_inj (ok "{}") refl e) (refl, refl)
toy-Roundtrips (kv ∷ m) s e = cc (e)

abbrev client_request : ExchangeRequest
client_request = record {
  subject_token = "a.b.c";
  subject_token_type = "";
  scope = "read";
  request_details = some [];
  request_context = none;
}

abbrev sent_form : Map String String
sent_form =
    form_of "a.b.c" "urn:ietf:params:oauth:token-type:access_token"
    ++ ("request_details", "{}") ∷ []

parse_request-exchange_form_example :
    parse_request toy_json sent_form ≡ ok (read_back client_request)
unfolding exchange_form object_field type_of
parse_request-exchange_form_example =
    parse_request-exchange_form toy_json toy-Roundtrips client_request sent_form refl

abbrev writer : VerificationRule
writer = record reader { name = "writer" }

resolve_from_principal-principal_of_example :
    resolve_from_principal (principal_of "cluster.local" "prod" "reader")
    ≡ ok (identity_of "prod" "reader")
unfolding contains_char
resolve_from_principal-principal_of_example =
    resolve_from_principal-principal_of "cluster.local" "prod" "reader" refl refl refl
