-- ===== src/Command/Extauth/Unready.antt =====
-- What the verifying service does until rules arrive.
use kontxt.Base.{
  String, ◌≡◌, refl, sym, ap, ◌∙◌, ◌∷◌, false, some, List, [], arith, ◌==◌, Eq_nat, Eq_string,
  Outcome, ok, subst, some_inj,
}
use kontxt.Any.{Json}
use kontxt.Cel.{Cel}
use kontxt.Token.{Claims, header_name}
use kontxt.Sdk.Client.{ExchangeRequest, ExchangeError}
use kontxt.Extauth.Claims.{HttpAttributes, allow}
use kontxt.Extauth.Matching.{get_header}
use kontxt.Extauth.Server.{
  Server, new_server, set_verification_rules, load_verification_rules, check, check_token, admit,
  auto_narrow, check_verification_rules, is_excluded, check_rule_sets,
}
use kontxt.Extauth.Generate.{GenerationServer, set_generation_rules}
use kontxt.Extauth.Identity.{IdentityResolver}
use kontxt.Distribution.Streams.{
  RuleClient, Attempt, new_rule_client, set_verification_setter, ready,
}
use kontxt.Distribution.Streams.Given.{is_fed, give_all, run-given}
use kontxt.Command.Extauth.{wire, serve, readyz_status}

check-fresh :
    (cel : Cel) {V : Type 0} (verifier : String → Outcome V Claims) (json : Json)
    (http : HttpAttributes) (claims : Claims)
    → (get_header http.headers header_name == "") ≡ false
    → verifier (get_header http.headers header_name) ≡ ok claims
    → check cel (new_server cel verifier) json (some http) ≡ allow []
unfolding check check_token admit auto_narrow check_verification_rules is_excluded check_rule_sets
    new_server load_verification_rules
check-fresh cel verifier json http claims given verified = rw (given, verified) refl

unfed : {T R : Type 0} (lists : List (List R)) (t : T) → is_fed (some t) lists ≡ false → lists ≡ []
unfed [] t e = refl
unfed (l ∷ ls) t e = cc

module _ {cel : Cel} {V : Type 0} where
  -- The client of a verifying service at its start.
  abbrev verifying : (String → Outcome V Claims) → RuleClient GenerationServer (Server cel V)
  verifying verifier = set_verification_setter (new_server cel verifier) new_rule_client

  unready_status :
      (rc : RuleClient GenerationServer (Server cel V)) → readyz_status rc ≡ 503 → ready rc ≡ false
  unfolding readyz_status
  unready_status rc unready = ground arith

  unready-fresh :
      (verifier : String → Outcome V Claims) (attempts : List Attempt) (s : Server cel V)
      → readyz_status (serve attempts (verifying verifier)) ≡ 503
      → (serve attempts (verifying verifier)).ver.setter ≡ some s
      → s ≡ new_server cel verifier
  unfolding serve readyz_status set_verification_setter new_rule_client
  unready-fresh verifier attempts s unready there =
      let (_, given, fed) =
        run-given (λ rules g. set_generation_rules g rules)
          (λ rules t. set_verification_rules cel t rules) (verifying verifier) attempts 500 refl
          refl refl refl in
      let nothing = unfed _ (new_server cel verifier) (sym fed ∙ unready_status _ unready) in
      some_inj (
        sym there
        ∙ given
        ∙ ap
            (λ ls. some (
              give_all (λ rules t. set_verification_rules cel t rules) ls
                (new_server cel verifier)))
            nothing)

  -- While the verifying service says that it is not ready, it lets every request through that has a
  -- token, not an empty one, which the verifier accepts.
  pub check-readyz_status :
      (verifier : String → Outcome V Claims)
      (client : ExchangeRequest → Outcome ExchangeError String) (resolver : IdentityResolver)
      (rc : RuleClient GenerationServer (Server cel V)) (attempts : List Attempt) (s : Server cel V)
      (json : Json) (http : HttpAttributes) (claims : Claims)
      → wire "verify" verifier client resolver ≡ some rc
      → readyz_status (serve attempts rc) ≡ 503
      → (serve attempts rc).ver.setter ≡ some s
      → (get_header http.headers header_name == "") ≡ false
      → verifier (get_header http.headers header_name) ≡ ok claims
      → check cel s json (some http) ≡ allow []
  unfolding wire
  check-readyz_status verifier client resolver rc attempts s json http claims wired unready there
        given verified =
      let same : rc ≡ verifying verifier = sym (some_inj wired) in
      let fresh =
        unready-fresh verifier attempts s
          (subst
            (λ (c : RuleClient GenerationServer (Server cel V)).
              readyz_status (serve attempts c) ≡ 503)
            same unready)
          (subst
            (λ (c : RuleClient GenerationServer (Server cel V)).
              (serve attempts c).ver.setter ≡ some s)
            same there) in
      subst (λ (t : Server cel V). check cel t json (some http) ≡ allow []) (sym fresh)
        (check-fresh cel verifier json http claims given verified)
