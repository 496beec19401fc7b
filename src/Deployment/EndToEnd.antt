-- ===== src/Deployment/EndToEnd.antt =====
-- The services along every history of the controller, the rule server and their client.
use kontxt.Base.{
  ◌⊎◌, inl, inr, Outcome-cases, ℕ, String, ◌≡◌, ap, ◌∙◌, Option, some, List, [], map, Eq_nat,
  Eq_string, All, Outcome, ok,
}
use kontxt.Base.Maps.{lookup}
use kontxt.Base.Perm.{AllPairs}
use kontxt.Base.Strings.{up_to}
use kontxt.Any.{Json}
use kontxt.Cel.{Cel}
use kontxt.Jwt.{Jwt}
use kontxt.Crd.{TransactionType, TokenPolicy}
use kontxt.Controller.Generation.{Cluster, generation_rule}
use kontxt.Controller.Issuance.{rules_of_all, resolve_target_namespaces}
use kontxt.Authn.{SubjectInfo, authenticate}
use kontxt.Tts.Request.{HttpRequest, TokenExchangeRequest, identify_workload}
use kontxt.Tts.Handler.{Handler, World, handle_issuance}
use kontxt.Tts.Handler.Laws.{policy_activation}
use kontxt.Distribution.Server.{RuleServer}
use kontxt.Distribution.Client.{values, flatten}
use kontxt.Distribution.Setter.{apply_issuance_rules}
use kontxt.Distribution.Sync.{View}
use kontxt.Distribution.Kinds.{generation_kind, verification_kind, issuance_kind}
use kontxt.Extauth.Claims.{HttpAttributes}
use kontxt.Extauth.Server
use kontxt.Extauth.Server.{set_verification_rules}
use kontxt.Extauth.Generate
use kontxt.Extauth.Generate.{GenerationServer, CheckRequest, set_generation_rules}
use kontxt.Extauth.Generate.Order.{AreExclusive}
use kontxt.Command.Controller.Laws.{Published}
use kontxt.Deployment.History.{History, History-Run, History-published}
use kontxt.Deployment.History.Sides.{generation_side, verification_side, issuance_side}
use kontxt.Deployment.Verifying.{set_verification_rules-values}
use kontxt.Deployment.Generating.{check-set_generation_rules}
use kontxt.Deployment.Issuing.{IsEnforced, apply_issuance_rules-flatten, handle_issuance-flatten}
use kontxt.Deployment.Policies.{OnOk, IsReported, rules_of_all-split}

module _ (cel : Cel) (id : ℕ) {p : Published} {rs : RuleServer} where
  -- Along every history of the controller, the rule server and a client since it joined, in which
  -- no response meets a full channel of the client and no list gives a key two rules, the verifying
  -- service whose client has read all that waits for it answers every request as one that was given
  -- the rules that the replay of the history has.
  pub check-verification_History :
      {m : View verification_kind id} {V : Type 0} (s : Server.Server cel V) (json : Json)
      (http : Option HttpAttributes)
      → History cel id (verification_side cel id) p rs m
      → lookup id rs.verification.subscribers ≡ some []
      → Server.check cel (set_verification_rules cel s (values m)) json http
        ≡ Server.check cel (set_verification_rules cel s p.verification) json http
  check-verification_History s json http history empty =
      ap (λ t. Server.check cel t json http)
        (set_verification_rules-values cel id
            (History-Run cel id (verification_side cel id) history) empty s
          ∙ ap (λ (x : Published). set_verification_rules cel s x.verification)
              (History-published cel id (verification_side cel id) history))

  -- Along every history of the controller, the rule server and a client since it joined, in which
  -- no response meets a full channel of the client and no list gives a key two rules, the
  -- generating service whose client has read all that waits for it answers a request as one that
  -- was given the rules of the transaction types themselves, where the replay of the history has
  -- these rules, and the endpoint of at most one of them matches the request.
  pub check-generation_History :
      {m : View generation_kind id} (s : GenerationServer) (c : Cluster)
      (types : List TransactionType) (json : Json)
      (parse_query : String → Outcome String (String → String)) (req : CheckRequest)
      (http : HttpAttributes)
      → History cel id (generation_side cel id) p rs m
      → lookup id rs.generation.subscribers ≡ some []
      → p.generation ≡ map (generation_rule c) types
      → req.http ≡ some http
      → AllPairs (AreExclusive (up_to b'?' http.path) http.method) (map (generation_rule c) types)
      → Generate.check json parse_query (set_generation_rules s (values m)) req
        ≡ Generate.check json parse_query
            (set_generation_rules s (map (generation_rule c) types))
            req
  check-generation_History s c types json parse_query req http history empty latest =
      check-set_generation_rules id (History-Run cel id (generation_side cel id) history) empty s c
        types json parse_query req http
        (ap (λ (x : Published). x.generation)
            (History-published cel id (generation_side cel id) history)
          ∙ latest)

  -- Along every history of the controller, the rule server and a client since it joined, in which
  -- no response meets a full channel of the client and no list gives a key two rules, a token
  -- service whose client has read all that waits for it, where the replay of the history has the
  -- rules of some policies, compiles its rules, and when it issues a token, each rule of each of
  -- these policies compiles, and is true if the policy has no target namespaces, unless the
  -- controller reports the name of the rule as one of a rule that does not compile.
  pub handle_issuance-History :
      {m : View issuance_kind id} {jwt : Jwt} (h : Handler jwt cel) (w : World)
      (policies : List TokenPolicy) (r : HttpRequest) (req : TokenExchangeRequest)
      → History cel id (issuance_side cel id) p rs m
      → lookup id rs.issuance.subscribers ≡ some []
      → p.issuance ≡ rules_of_all cel policies
      → ((apply_issuance_rules h (flatten m)).1 ≡ ok tt)
        × OnOk
            (λ token.
              (info : SubjectInfo) × (authenticate w.payload_issuer h.router req.subject_token
                ≡ ok info)
              × All
                  (λ policy.
                    All
                      (λ ir.
                        IsReported cel policy ir
                        ⊎ IsEnforced cel
                            (policy_activation h w info (identify_workload r) req)
                            ir.cel
                            (resolve_target_namespaces policy.spec.target_namespaces))
                      policy.spec.issuance_rules)
                  policies)
            (handle_issuance (apply_issuance_rules h (flatten m)).0 w r req)
  handle_issuance-History {m} h w policies r req history empty latest =
      let run = History-Run cel id (issuance_side cel id) history in
      let published =
        ap (λ (x : Published). x.issuance) (History-published cel id (issuance_side cel id) history)
        ∙ latest in
      (
        apply_issuance_rules-flatten cel id run empty h policies published,
        elim (Outcome-cases (handle_issuance (apply_issuance_rules h (flatten m)).0 w r req)) [
          | inr (e, refused) ↦ rw refused tt
          | inl (token, issued) ↦
              let (info, authenticated, enforced) =
                handle_issuance-flatten cel id run empty h w policies r req token published
                  issued in
              rw issued (info, authenticated, rules_of_all-split cel _ policies enforced)
        ],
      )
