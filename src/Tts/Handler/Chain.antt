-- ===== src/Tts/Handler/Chain.antt =====
-- Chains of replacements, and the issuance rules that a request without a namespace meets.
use kontxt.Base.{
  String, ◌≡◌, refl, sym, ◌∙◌, true, some, List, keep, Outcome, ok, ◌>>=◌, guard-eq-ok,
}
use mathlib.Core.Path.{subst}
use kontxt.Authn.{SubjectInfo}
use kontxt.Cel.{Cel}
use kontxt.Jwt.{Jwt}
use kontxt.Token.{Claims}
use kontxt.Tts.Scope.{is_scope_subset}
use kontxt.Tts.Rules.{IssuanceRule, evaluate_issuance_rules}
use kontxt.Tts.Rules.Laws.{is_cluster_wide, check_rules_no_namespace}
use kontxt.Tts.Verifier.{VerifyError, extract_claims}
use kontxt.Tts.Handler.{
  Handler, World, check_policy, handle_issuance, load_issuance_rules, exchange, handle_replacement,
  read_request, sign, issuance_claims, serve_http, set_issuance_rules, replacement_claims, replace,
}
use kontxt.Tts.Request.{HttpRequest, TokenExchangeRequest, identify_workload, respond}
use kontxt.Tts.Handler.Laws.{IsReplacement, signed_claims, replacement_claims-IsReplacement}

IsReplacement-refl : (c : Claims) → IsReplacement c c
IsReplacement-refl c = record {
  same_transaction = λ _. refl;
  same_subject = refl;
  same_tctx = refl;
  same_rctx = refl;
  narrower = λ s m. m;
}

IsReplacement-trans : {b c d : Claims} → IsReplacement b c → IsReplacement c d → IsReplacement b d
IsReplacement-trans p q = record {
  same_transaction = λ given.
      q.same_transaction (λ e. given (sym (p.same_transaction given) ∙ e))
      ∙ p.same_transaction given;
  same_subject = q.same_subject ∙ p.same_subject;
  same_tctx = q.same_tctx ∙ p.same_tctx;
  same_rctx = q.same_rctx ∙ p.same_rctx;
  narrower = λ s m. p.narrower s (q.narrower s m);
}

replace-narrow :
    {jwt : Jwt} {cel : Cel} (h : Handler jwt cel) (w : World)
    (verify : String → Outcome VerifyError Claims) (r : HttpRequest) (req : TokenExchangeRequest)
    {existing : Claims} {s : String}
    → verify req.subject_token ≡ ok existing
    → replace h w verify r req ≡ ok s
    → is_scope_subset req.scope existing.scope ≡ true
unfolding replace
replace-narrow h w verify r req verified e = (guard-eq-ok _ _ _ (rw (verified, replace) at e)).0

module _ (jwt : Jwt) (cel : Cel) where
  -- One replacement: a handler's verifier accepted a token with the first claims, and the handler
  -- answered with a token that it signed for the second.
  pub record Replaces (existing fresh : Claims) : Type 0 where
    pub handler : Handler jwt cel
    pub world : World
    pub http : HttpRequest
    pub req : TokenExchangeRequest
    pub verify : String → Outcome VerifyError Claims
    pub configured : handler.verifier ≡ some verify
    pub verified : verify req.subject_token ≡ ok existing
    pub token : String
    pub granted : handle_replacement handler world http req ≡ ok token
    pub signed :
        fresh
        ≡ extract_claims (
            signed_claims handler world
              (replacement_claims handler world existing (identify_workload http) req))

  pub data Chain (first : Claims) : Claims → Type 0 where
    here : Chain first first
    next : {c d : Claims} → Chain first c → Replaces c d → Chain first d

  Replaces-narrow : {c d : Claims} (r : Replaces c d) → is_scope_subset r.req.scope c.scope ≡ true
  unfolding handle_replacement
  Replaces-narrow {c} r =
      replace-narrow r.handler r.world r.verify r.http r.req r.verified
        (rw (r.configured, handle_replacement) at r.granted)

  Replaces-IsReplacement : {c d : Claims} → Replaces c d → IsReplacement c d
  Replaces-IsReplacement {c} r = subst (IsReplacement c) (sym r.signed) (
      replacement_claims-IsReplacement r.handler r.world c (identify_workload r.http) r.req
        (Replaces-narrow r))

  -- Along a chain of replacements, by any handlers, the scope never grows beyond the first one, and
  -- the subject, the contexts and a transaction id that is not empty stay.
  pub Chain-IsReplacement : {c d : Claims} → Chain c d → IsReplacement c d
  Chain-IsReplacement {c} here = IsReplacement-refl c
  Chain-IsReplacement (next r s) =
      IsReplacement-trans (Chain-IsReplacement r) (Replaces-IsReplacement s)

module _ {jwt : Jwt} {cel : Cel} (h : Handler jwt cel) (w : World)
    (rules : List (IssuanceRule cel)) where
  abbrev with_rules : List (IssuanceRule cel) → Handler jwt cel
  with_rules kept = record h { issuance_rules = some kept }

  check_policy-keep :
      (info : SubjectInfo) (workload : String) (req : TokenExchangeRequest)
      → check_policy (with_rules rules) w info workload req
        ≡ check_policy (with_rules (keep (is_cluster_wide cel) rules)) w info workload req
  unfolding check_policy evaluate_issuance_rules load_issuance_rules
  check_policy-keep info workload req = check_rules_no_namespace cel _ rules

  issuance-keep :
      (r : HttpRequest) (req : TokenExchangeRequest)
      → handle_issuance (with_rules rules) w r req
        ≡ handle_issuance (with_rules (keep (is_cluster_wide cel) rules)) w r req
  unfolding handle_issuance sign issuance_claims
  issuance-keep r req = simp check_policy-keep

  exchange-keep :
      (r : HttpRequest) (req : TokenExchangeRequest)
      → exchange (with_rules rules) w r req
        ≡ exchange (with_rules (keep (is_cluster_wide cel) rules)) w r req
  unfolding exchange handle_replacement replace sign replacement_claims
  exchange-keep r req = rw (issuance-keep r req)

  -- The token endpoint answers as if the issuance rules that target namespaces were not there.
  pub serve_http-keep :
      (r : HttpRequest)
      → serve_http (set_issuance_rules h rules) w r
        ≡ serve_http (set_issuance_rules h (keep (is_cluster_wide cel) rules)) w r
  unfolding serve_http read_request set_issuance_rules
  serve_http-keep r = λ i. respond (read_request h w r >>= λ req. exchange-keep r req i)
