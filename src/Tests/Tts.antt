-- ===== src/Tests/Tts.antt =====
-- The token service at concrete inputs.
use kontxt.Base.{String, ◌≡◌, refl, List, [], ◌∷◌, Eq_nat, Eq_string, keep, ok}
use kontxt.Base.Strings.{fields, split, span_words, span_parts, is_space}
use kontxt.Base.Maps.{lookup}
use kontxt.Any.{text}
use kontxt.Jwt.{JwtToken, rsa}
use kontxt.Keys.{signing_key}
use kontxt.Token
use kontxt.Token.{Claims, validate_required, jwt_header, transaction_of}
use kontxt.Authn.{authenticate, extract_issuer}
use kontxt.Tts.Scope.{is_scope_subset}
use kontxt.Tts.Rules
use kontxt.Tts.Rules.{
  evaluate_issuance_rules, check_rules, check_rule, verdict, rule_applies_to_namespace,
  activation_of,
}
use kontxt.Tts.Verifier.{extract_claims}
use kontxt.Tts.Handler.{
  serve_http, read_request, exchange, handle_replacement, handle_issuance, replace,
  replacement_claims, issuance_claims, check_policy, load_issuance_rules, sign, set_issuance_rules,
}
use kontxt.Tts.Request.{respond, write_token, parse_request, optional_object, identify_workload}
use kontxt.Tts.Handler.Laws.{
  IsReplacement, Replaced, Issued, handle_replacement-Replaced, handle_issuance-Issued,
}
use kontxt.Tts.Handler.Replies.{Granted, Statuses, serve_http-Granted, serve_http-Statuses}
use kontxt.Tts.Handler.Chain.{here, next, Replaces, Chain-IsReplacement, serve_http-keep}
use kontxt.Tts.Rules.Laws.{is_cluster_wide}
use kontxt.Token.{jwt_claims}
use kontxt.Tests.Fixtures.{
  toy_jwt, toy_cel, existing, rule, targeted, handler, world, request_of, post,
}

abbrev bearer : String
bearer = "urn:ietf:params:oauth:token-type:access_token"

handle_replacement-Replaced_example :
    Replaced handler world (request_of "a.b.c" Token.subject_token_type_txn_token) "signed"
unfolding handle_replacement replace sign Token.new validate_required is_scope_subset fields
    span_words is_space identify_workload replacement_claims signing_key lookup
handle_replacement-Replaced_example =
    handle_replacement-Replaced handler world post
      (request_of "a.b.c" Token.subject_token_type_txn_token) "signed" refl

handle_issuance-Issued_example : Issued handler world post (request_of "a.b.c" bearer) "signed"
unfolding handle_issuance sign Token.new validate_required identify_workload issuance_claims
    signing_key lookup authenticate extract_issuer split span_parts check_policy
    evaluate_issuance_rules check_rules check_rule verdict rule_applies_to_namespace
    load_issuance_rules
handle_issuance-Issued_example =
    handle_issuance-Issued handler world post (request_of "a.b.c" bearer) "signed" refl

serve_http-Granted_example : Granted handler world post (record {
  access_token = "signed";
  issued_token_type = Token.requested_token_type;
  token_type = "N_A";
})
unfolding serve_http respond write_token read_request parse_request optional_object exchange
    handle_replacement replace sign Token.new validate_required is_scope_subset fields span_words
    is_space identify_workload replacement_claims signing_key lookup
serve_http-Granted_example = serve_http-Granted handler world post _ refl

serve_http-Statuses_example : Statuses handler world post
serve_http-Statuses_example = serve_http-Statuses handler world post

abbrev cluster_wide_only : List (Rules.IssuanceRule toy_cel)
cluster_wide_only = keep (is_cluster_wide toy_cel) (targeted ∷ rule ∷ [])

serve_http-keep_example :
    serve_http (set_issuance_rules handler (targeted ∷ rule ∷ [])) world post
    ≡ serve_http (set_issuance_rules handler cluster_wide_only) world post
serve_http-keep_example = serve_http-keep handler world (targeted ∷ rule ∷ []) post

-- The claims that the replacement of `existing` is signed for.
abbrev replaced : Claims
replaced = extract_claims (
    jwt_claims
      (replacement_claims handler world existing "analyzer"
        (request_of "a.b.c" Token.subject_token_type_txn_token))
      world.now handler.lifetime "t1")

one_replacement : Replaces toy_jwt toy_cel existing replaced
unfolding handle_replacement replace sign Token.new validate_required is_scope_subset fields
    span_words is_space identify_workload replacement_claims signing_key lookup transaction_of
one_replacement = record {
  handler = handler;
  world = world;
  http = post;
  req = request_of "a.b.c" Token.subject_token_type_txn_token;
  verify = λ s. ok existing;
  configured = refl;
  verified = refl;
  token = "signed";
  granted = refl;
  signed = refl;
}

Chain-IsReplacement_example : IsReplacement existing replaced
Chain-IsReplacement_example = Chain-IsReplacement toy_jwt toy_cel (next here one_replacement)

abbrev signed_before : JwtToken
signed_before = record { method = rsa; header = ("kid", text "k1") ∷ []; claims = [] }
