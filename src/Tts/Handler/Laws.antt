-- ===== src/Tts/Handler/Laws.antt =====
-- What a successful exchange guarantees: a replacement only narrows, an issuance was allowed.
use kontxt.Base.{
  String, ◌≡◌, refl, ◌≢◌, inl, inr, true, some, Option-cases, All, Outcome, ok, map_err-eq-ok,
  bind-eq-ok, guard-eq-ok,
}
use kontxt.Base.Maps.{Map}
use kontxt.Any.{Any}
use kontxt.Cel.{Cel}
use kontxt.Jwt.{Jwt}
use kontxt.Token.{Claims, jwt_header, jwt_claims, transaction_of}
use kontxt.Token.Laws.{HasRequired, new_iff, transaction_of_given}
use kontxt.Authn.{SubjectInfo, authenticate}
use kontxt.Keys.{signing_key}
use kontxt.Tts.Scope.{is_scope_subset, is_scope_subset_iff, Narrows}
use kontxt.Tts.Rules.{evaluate_issuance_rules, activation_of}
use kontxt.Tts.Rules.Laws.{Passes, check_rules_iff}
use kontxt.Tts.Verifier.{VerifyError, extract_claims}
use kontxt.Tts.Verifier.Laws.{extract_claims-jwt_claims}
use kontxt.Tts.Handler.{
  Handler, World, sign, issuance_claims, replacement_claims, check_policy, handle_issuance, replace,
  handle_replacement, load_issuance_rules,
}
use kontxt.Tts.Request.{HttpRequest, TokenExchangeRequest, identify_workload}

-- A token for these claims differs from the verified one only as a replacement may.
pub record IsReplacement (existing fresh : Claims) : Type 0 where
  pub same_transaction :
      existing.transaction_id ≢ "" → fresh.transaction_id ≡ existing.transaction_id
  pub same_subject : fresh.subject ≡ existing.subject
  pub same_tctx : fresh.transaction_context ≡ existing.transaction_context
  pub same_rctx : fresh.requester_context ≡ existing.requester_context
  pub narrower : Narrows fresh.scope existing.scope

module _ {jwt : Jwt} {cel : Cel} (h : Handler jwt cel) (w : World) where
  -- The claims map that is signed for these claims.
  abbrev pub signed_claims : Claims → Map String Any
  signed_claims claims = jwt_claims claims w.now h.lifetime (transaction_of claims w.uuid)

  -- The text is a token of the handler's current key for this claims map.
  abbrev pub Signs : Map String Any → String → Type 0
  Signs mc s =
      jwt.sign (jwt_header h.key_manager.current.kid) mc h.key_manager.current.private_key ≡ ok s

  pub sign-Signs :
      (claims : Claims) (s : String)
      → sign h w claims ≡ ok s
      → HasRequired claims × Signs (signed_claims claims) s
  unfolding sign signing_key
  sign-Signs claims s e = (new_iff jwt w.now w.uuid claims _ _ h.lifetime s).0 (map_err-eq-ok _ _ e)

  -- What a successful replacement comes from.
  pub record Replaced (req : TokenExchangeRequest) (s : String) : Type 0 where
    pub verify : String → Outcome VerifyError Claims
    pub configured : h.verifier ≡ some verify
    pub existing : Claims
    pub verified : verify req.subject_token ≡ ok existing
    pub claims : Map String Any
    pub signed : Signs claims s
    pub replacement : IsReplacement existing (extract_claims claims)

  pub replacement_claims-IsReplacement :
      (existing : Claims) (workload : String) (req : TokenExchangeRequest)
      → is_scope_subset req.scope existing.scope ≡ true
      → IsReplacement existing
          (extract_claims (signed_claims (replacement_claims h w existing workload req)))
  unfolding replacement_claims
  replacement_claims-IsReplacement existing workload req narrow =
      rw (extract_claims-jwt_claims _ w.now h.lifetime) (record {
        same_transaction = transaction_of_given _ w.uuid;
        same_subject = refl;
        same_tctx = refl;
        same_rctx = refl;
        narrower = (is_scope_subset_iff req.scope existing.scope).0 narrow;
      })

  replace-Replaced :
      (verify : String → Outcome VerifyError Claims) (r : HttpRequest) (req : TokenExchangeRequest)
      (s : String)
      → h.verifier ≡ some verify
      → replace h w verify r req ≡ ok s
      → Replaced req s
  unfolding replace
  replace-Replaced verify r req s configured e =
      let (existing, verified, checked) = bind-eq-ok _ _ e in
      let (narrow, created) = guard-eq-ok (is_scope_subset req.scope existing.scope) _ _ checked in
      let claims : Claims = replacement_claims h w existing (identify_workload r) req in
      record {
        verify = verify;
        configured = configured;
        existing = existing;
        verified = map_err-eq-ok _ _ verified;
        claims = signed_claims claims;
        signed = (sign-Signs claims s created).1;
        replacement = replacement_claims-IsReplacement existing (identify_workload r) req narrow;
      }

  -- A replacement is issued only for a verified token, and its claims differ from that one only as
  -- a replacement may: same subject, contexts and given transaction id, and no new scope.
  pub handle_replacement-Replaced :
      (r : HttpRequest) (req : TokenExchangeRequest) (s : String)
      → handle_replacement h w r req ≡ ok s
      → Replaced req s
  unfolding handle_replacement
  handle_replacement-Replaced r req s e = elim (Option-cases h.verifier) [
    | inl missing ↦ cc (rw (missing, handle_replacement) at e)
    | inr (verify, there) ↦
        replace-Replaced verify r req s there (rw (there, handle_replacement) at e)
  ]

  -- The activation of the issuance rules for a request.
  abbrev pub policy_activation : SubjectInfo → String → TokenExchangeRequest → Map String Any
  policy_activation info workload req = activation_of (record {
    subject = info.subject;
    scope = req.scope;
    tctx = req.request_details;
    rctx = req.request_context;
    workload = workload;
    workload_ns = "";
  })

  -- What a successful issuance comes from.
  pub record Issued (r : HttpRequest) (req : TokenExchangeRequest) (s : String) : Type 0 where
    pub info : SubjectInfo
    pub authenticated : authenticate w.payload_issuer h.router req.subject_token ≡ ok info
    pub allowed :
        All
          (Passes cel "" (policy_activation info (identify_workload r) req))
          (load_issuance_rules h)
    pub complete : HasRequired (issuance_claims h w info (identify_workload r) req)
    pub signed : Signs (signed_claims (issuance_claims h w info (identify_workload r) req)) s

  -- A token is issued only for an authenticated subject whom every rule that applies without a
  -- namespace allows, with the required claims, and is signed by the current key for the claims of
  -- the request.
  pub handle_issuance-Issued :
      (r : HttpRequest) (req : TokenExchangeRequest) (s : String)
      → handle_issuance h w r req ≡ ok s
      → Issued r req s
  unfolding handle_issuance check_policy evaluate_issuance_rules
  handle_issuance-Issued r req s e =
      let (info, authenticated, rest) = bind-eq-ok _ _ e in
      let (tt, passed, created) = bind-eq-ok _ _ rest in
      let (complete, signed) = sign-Signs _ s created in
      record {
        info = info;
        authenticated = map_err-eq-ok _ _ authenticated;
        allowed = (check_rules_iff cel _ _ _).0 (map_err-eq-ok _ _ passed);
        complete = complete;
        signed = signed;
      }
