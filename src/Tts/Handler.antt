-- ===== src/Tts/Handler.antt =====
-- pkg/tts/handler.go: the token exchange endpoint.
pub mod Laws
pub mod Replies
pub mod Chain
use kontxt.Base.{
  String, Option, none, some, List, [], if◌then◌else◌, ◌==◌, Eq_nat, Eq_string, Outcome, ok, err,
  ◌>>=◌, ◌>>◌, guard, map_err,
}
use kontxt.Base.Strings.{has_prefix}
use kontxt.Base.Maps.{Map, lookup}
use kontxt.Base.Integers.{ℤ, pos}
use kontxt.Any.{Any, Object, Json}
use kontxt.Cel.{Cel}
use kontxt.Jwt.{Jwt}
use kontxt.Token
use kontxt.Token.{
  Claims, TokenError, grant_type, requested_token_type, subject_token_type_txn_token,
}
use kontxt.Authn.{AuthnError, SubjectInfo, Authenticator, authenticate}
use kontxt.Keys.{Manager, signing_key}
use kontxt.Tts.Scope.{is_scope_subset}
use kontxt.Tts.Rules.{IssuanceRule, EvaluationError, evaluate_issuance_rules}
use kontxt.Tts.Verifier.{VerifyError}
use kontxt.Tts.Request.{
  HttpRequest, value_at, TokenExchangeRequest, RequestError, Description, Failure,
  TokenExchangeResponse, Body, Reply, write_error, write_token, respond, identify_workload,
  optional_object, parse_request, unsupported_grant_type, unsupported_token_type, invalid_details,
  invalid_context, token_required, token_type_required, scope_required, method_not_allowed,
  bad_form, no_verifier, bad_request, not_authenticated, policy, not_verified, not_subset,
  not_created, exchanged, failed,
}

-- Handler; `issuance_rules` is the atomic pointer, and the verifier has the clock inside.
pub record Handler (jwt : Jwt) (cel : Cel) : Type 0 where
  pub router : List Authenticator
  pub key_manager : Manager jwt
  pub verifier : Option (String → Outcome VerifyError Claims)
  pub issuer : String
  pub trust_domain : String
  pub lifetime : ℤ
  pub issuance_rules : Option (List (IssuanceRule cel))

-- What one request takes from outside: the clock, uuid.New, encoding/json, and the decoding of a
-- JWT payload.
pub record World : Type 0 where
  pub now : ℤ
  pub uuid : String
  pub json : Json
  pub payload_issuer : String → Outcome String String

module _ {jwt : Jwt} {cel : Cel} where
  -- NewHandler
  unfoldable pub new_handler :
      List Authenticator → Manager jwt → String → String → ℤ → Handler jwt cel
  new_handler router key_manager issuer trust_domain lifetime = record {
    router = router;
    key_manager = key_manager;
    verifier = none;
    issuer = issuer;
    trust_domain = trust_domain;
    lifetime = lifetime;
    issuance_rules = none;
  }

  -- SetVerifier
  unfoldable pub set_verifier :
      Handler jwt cel → (String → Outcome VerifyError Claims) → Handler jwt cel
  set_verifier h v = record h { verifier = some v }

  -- SetIssuanceRules; the values of the model are never mutated, so the copy is the list.
  unfoldable pub set_issuance_rules : Handler jwt cel → List (IssuanceRule cel) → Handler jwt cel
  set_issuance_rules h rules = record h { issuance_rules = some rules }

  -- loadIssuanceRules
  unfoldable pub load_issuance_rules : Handler jwt cel → List (IssuanceRule cel)
  load_issuance_rules h = elim h.issuance_rules [ none ↦ [] | some rules ↦ rules ]

  module _ (h : Handler jwt cel) (w : World) where
    -- signAndRespond, up to the response
    unfoldable pub sign : Claims → Outcome Failure String
    sign claims =
        let (key, kid) = signing_key h.key_manager in
        map_err (λ e. record { status = 500; error = "server_error"; description = not_created e })
          (Token.new jwt w.now w.uuid claims key kid h.lifetime)

    -- The claims of a new token.
    unfoldable pub issuance_claims : SubjectInfo → String → TokenExchangeRequest → Claims
    issuance_claims info workload req = record {
      issuer = h.issuer;
      issued_at = pos 0;
      expires_at = pos 0;
      audience = h.trust_domain;
      transaction_id = "";
      subject = info.subject;
      scope = req.scope;
      requesting_workload = workload;
      transaction_context = req.request_details;
      requester_context = req.request_context;
    }

    -- The claims of a replacement token.
    unfoldable pub replacement_claims : Claims → String → TokenExchangeRequest → Claims
    replacement_claims existing workload req = record {
      issuer = h.issuer;
      issued_at = pos 0;
      expires_at = pos 0;
      audience = h.trust_domain;
      transaction_id = existing.transaction_id;
      subject = existing.subject;
      scope = req.scope;
      requesting_workload = workload;
      transaction_context = existing.transaction_context;
      requester_context = existing.requester_context;
    }

    -- `EvaluateIssuanceRules` on the loaded rules; the namespace of the workload stays empty.
    unfoldable pub check_policy :
        SubjectInfo → String → TokenExchangeRequest → Outcome EvaluationError (Unit {0})
    check_policy info workload req = evaluate_issuance_rules cel (load_issuance_rules h) (record {
      subject = info.subject;
      scope = req.scope;
      tctx = req.request_details;
      rctx = req.request_context;
      workload = workload;
      workload_ns = "";
    })

    -- The part of `ServeHTTP` behind the dispatch: a new token.
    unfoldable pub handle_issuance : HttpRequest → TokenExchangeRequest → Outcome Failure String
    handle_issuance r req = do
      info ←
          map_err
            (λ e. record {
              status = 401;
              error = "invalid_token";
              description = not_authenticated e;
            })
            (authenticate w.payload_issuer h.router req.subject_token)
      let workload = identify_workload r
      passed ←
          map_err (λ e. record { status = 403; error = "policy_denied"; description = policy e })
            (check_policy info workload req)
      sign (issuance_claims info workload req)

    -- handleReplacement behind the test that a verifier is there
    unfoldable pub replace :
        (String → Outcome VerifyError Claims)
        → HttpRequest
        → TokenExchangeRequest
        → Outcome Failure String
    replace verify r req = do
      existing ←
          map_err
            (λ e. record { status = 401; error = "invalid_token"; description = not_verified e })
            (verify req.subject_token)
      guard (is_scope_subset req.scope existing.scope) (record {
        status = 403;
        error = "invalid_scope";
        description = not_subset req.scope existing.scope;
      })
      sign (replacement_claims existing (identify_workload r) req)

    -- handleReplacement
    unfoldable pub handle_replacement : HttpRequest → TokenExchangeRequest → Outcome Failure String
    handle_replacement r req = elim h.verifier [
      | none ↦ err (record { status = 500; error = "server_error"; description = no_verifier })
      | some verify ↦ replace verify r req
    ]

    -- The dispatch of `ServeHTTP`.
    unfoldable pub exchange : HttpRequest → TokenExchangeRequest → Outcome Failure String
    exchange r req =
        if req.subject_token_type == subject_token_type_txn_token
        then handle_replacement r req
        else handle_issuance r req

    -- The checks of `ServeHTTP` before the dispatch.
    unfoldable pub read_request : HttpRequest → Outcome Failure TokenExchangeRequest
    read_request r = do
      guard (r.method == "POST")
          (record { status = 405; error = "invalid_request"; description = method_not_allowed })
      form ← elim r.form [
        | none ↦ err (record { status = 400; error = "invalid_request"; description = bad_form })
        | some form ↦ ok form
      ]
      map_err (λ e. record { status = 400; error = "invalid_request"; description = bad_request e })
          (parse_request w.json form)

    -- ServeHTTP
    unfoldable pub serve_http : HttpRequest → Reply
    serve_http r = respond (read_request r >>= exchange r)
