-- ===== src/Extauth/Server.antt =====
-- pkg/extauth/server.go: verification of the TxTokens of incoming requests.
pub mod Laws
pub mod Narrowing
pub mod Order
use kontxt.Base.{
  String, Bool, not, ◌&&◌, ◌||◌, Option, none, some, List, [], ◌∷◌, ◌++◌, if◌then◌else◌, ◌==◌,
  Eq_nat, Eq_string, any, Outcome, ok, err, ◌>>=◌, ◌>>◌, guard, map_err,
}
use kontxt.Base.Strings.{to_lower, text_lt, equal_fold}
use kontxt.Base.Maps.{Map, lookup, insert}
use kontxt.Base.Sorting.{sort}
use kontxt.Any.{Any, text, number, object, members, Object, of_object, Json}
use kontxt.Cel.{Cel}
use kontxt.Token.{Claims, header_name, subject_token_type_txn_token}
use kontxt.Crd.{EndpointSpec}
use kontxt.Rules.{VerificationRule, CelRule}
use kontxt.Sdk.Client.{ExchangeRequest, ExchangeError}
use kontxt.Extauth.Celverify.{Program, Context, EvaluationError, compile_rules, evaluate}
use kontxt.Extauth.Matching.{scope_contains, scope_is_broader, match_path, get_header}
use kontxt.Extauth.Claims.{
  HttpAttributes, Code, RuleError, Message, CheckResponse, allowed, http_code, denied, rule_lt,
  omit_empty, claims_json, claims_to_map, lower_headers, headers_to_cel, context_of, check_fields,
  success, invalid_argument, permission_denied, unauthenticated, internal, scope_missing, tctx_nil,
  field_missing, converting, evaluation, no_attributes, no_token, not_verified, violated, allow,
  deny,
}

module _ (cel : Cel) where
  -- verificationRuleSet
  pub record VerificationRuleSet : Type 0 where
    pub rule : VerificationRule
    pub cel_programs : List (Program cel)

  -- Server, with the verifier at the time of the request, and the exchange of the TTS client
  pub record Server (V : Type 0) : Type 0 where
    pub verifier : String → Outcome V Claims
    pub verification_rules : Option (List VerificationRuleSet)
    pub tts_client : Option (ExchangeRequest → Outcome ExchangeError String)

  -- compileVerificationRuleCEL: an expression that does not compile is left out.
  unfoldable pub compile_cel : List CelRule → List (Program cel)
  compile_cel [] = []
  compile_cel (c ∷ cs) =
      let rest = compile_cel cs in
      elim (compile_rules cel (c ∷ [])) [ err _ ↦ rest | ok programs ↦ programs ++ rest ]

  -- The loop of `SetVerificationRules`.
  unfoldable pub rule_sets : List VerificationRule → List VerificationRuleSet
  rule_sets [] = []
  rule_sets (r ∷ rs) = record { rule = r; cel_programs = compile_cel r.cel_rules } ∷ rule_sets rs

  module _ {V : Type 0} where
    -- NewServer
    unfoldable pub new_server : (String → Outcome V Claims) → Server V
    new_server verifier = record {
      verifier = verifier;
      verification_rules = none;
      tts_client = none;
    }

    -- SetVerificationRules
    unfoldable pub set_verification_rules : Server V → List VerificationRule → Server V
    set_verification_rules s rules = record s {
      verification_rules = some (rule_sets (sort rule_lt rules));
    }

    -- SetTTSClient
    unfoldable pub set_tts_client :
        Server V → (ExchangeRequest → Outcome ExchangeError String) → Server V
    set_tts_client s client = record s { tts_client = some client }

    -- loadVerificationRules
    unfoldable pub load_verification_rules : Server V → List VerificationRuleSet
    load_verification_rules s = elim s.verification_rules [ none ↦ [] | some rules ↦ rules ]

  -- The evaluation of a rule's programs, if any; the context is built on demand.
  unfoldable pub check_programs :
      Outcome RuleError Context → List (Program cel) → Outcome RuleError (Unit {0})
  check_programs context [] = ok tt
  check_programs context (p ∷ ps) = do ctx ← context; map_err evaluation (evaluate cel (p ∷ ps) ctx)

  -- One round of the loop of `checkVerificationRules`.
  unfoldable pub check_rule_set :
      Outcome RuleError Context → Claims → VerificationRuleSet → Outcome RuleError (Unit {0})
  check_rule_set context claims rs = do
    guard (rs.rule.required_scope == "" || scope_contains claims.scope rs.rule.required_scope)
        (scope_missing claims.scope rs.rule.required_scope rs.rule.name)
    fields_there ← check_fields claims.transaction_context rs.rule.name rs.rule.required_tctx_fields
    check_programs context rs.cel_programs

  unfoldable pub check_rule_sets :
      Outcome RuleError Context → Claims → List VerificationRuleSet → Outcome RuleError (Unit {0})
  check_rule_sets context claims [] = ok tt
  check_rule_sets context claims (rs ∷ rest) = do
    passed ← check_rule_set context claims rs
    check_rule_sets context claims rest

  -- The loops of `isExcluded`.
  unfoldable pub excludes : String → String → VerificationRuleSet → Bool
  excludes path method rs =
      any (λ ep. match_path path ep.path && equal_fold method ep.method) rs.rule.excluded_endpoints

  -- The test of the loop of `autoNarrow`.
  unfoldable pub narrows : Claims → VerificationRuleSet → Bool
  narrows claims rs =
      rs.rule.auto_narrow
      && not (rs.rule.required_scope == "")
      && not (claims.scope == rs.rule.required_scope)
      && scope_is_broader claims.scope rs.rule.required_scope

  -- The request of `autoNarrow` for a replacement.
  unfoldable pub narrowing_request : String → String → ExchangeRequest
  narrowing_request original_token required_scope = record {
    subject_token = original_token;
    subject_token_type = subject_token_type_txn_token;
    scope = required_scope;
    request_details = none;
    request_context = none;
  }

  -- The first rule that narrows.
  unfoldable pub find_narrowing : Claims → List VerificationRuleSet → Option VerificationRuleSet
  find_narrowing claims [] = none
  find_narrowing claims (rs ∷ rest) =
      let next = find_narrowing claims rest in if narrows claims rs then some rs else next

  module _ {V : Type 0} (s : Server V) where
    -- isExcluded
    unfoldable pub is_excluded : String → String → Bool
    is_excluded path method = any (excludes path method) (load_verification_rules s)

    -- checkVerificationRules
    unfoldable pub check_verification_rules :
        Json → Claims → String → String → Map String String → Outcome RuleError (Unit {0})
    check_verification_rules json claims path method headers =
        check_rule_sets (context_of json claims path method headers) claims
          (load_verification_rules s)

    -- The token that the client answers with, or the empty text.
    unfoldable pub narrowed_by :
        (ExchangeRequest → Outcome ExchangeError String)
        → String
        → Option VerificationRuleSet
        → String
    narrowed_by client original_token none = ""
    narrowed_by client original_token (some rs) =
        elim (client (narrowing_request original_token rs.rule.required_scope)) [
          | err _ ↦ ""
          | ok narrowed_token ↦ narrowed_token
        ]

    -- autoNarrow
    unfoldable pub auto_narrow : Claims → String → String
    auto_narrow claims original_token = elim s.tts_client [
      | none ↦ ""
      | some client ↦
          narrowed_by client original_token (find_narrowing claims (load_verification_rules s))
    ]

    -- The part of `Check` behind the verification.
    unfoldable pub admit : Json → HttpAttributes → String → Claims → CheckResponse V
    admit json http tx_token claims =
        elim (check_verification_rules json claims http.path http.method http.headers) [
          | err e ↦ denied permission_denied (violated e)
          | ok _ ↦
              let narrowed = auto_narrow claims tx_token in
              if narrowed == "" then allowed else allow ((header_name, narrowed) ∷ [])
        ]

    -- The part of `Check` behind the exclusion.
    unfoldable pub check_token : Json → HttpAttributes → String → CheckResponse V
    check_token json http tx_token =
        if tx_token == "" then denied unauthenticated no_token else elim (s.verifier tx_token) [
          | err e ↦ denied unauthenticated (not_verified e)
          | ok claims ↦ admit json http tx_token claims
        ]

    -- Check
    unfoldable pub check : Json → Option HttpAttributes → CheckResponse V
    check json none = denied invalid_argument no_attributes
    check json (some http) =
        if is_excluded http.path http.method
        then allowed
        else check_token json http (get_header http.headers header_name)
