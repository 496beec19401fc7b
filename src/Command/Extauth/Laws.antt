-- ===== src/Command/Extauth/Laws.antt =====
-- What an ext_authz service lets through, as the command starts it.
use kontxt.Base.{
  String, ◌≡◌, refl, sym, ap, ◌∙◌, inl, inr, Option, none, some, List, [], ◌==◌, Eq_nat, Eq_string,
  Bool-cases, Outcome, Outcome-cases, subst, some_inj,
}
use kontxt.Base.Maps.{Map}
use kontxt.Any.{Json}
use kontxt.Cel.{Cel}
use kontxt.Token.{Claims}
use kontxt.Sdk.Client.{ExchangeRequest, ExchangeError}
use kontxt.Extauth.Claims.{HttpAttributes, allow, denied}
use kontxt.Extauth.Server.{
  Server, new_server, set_verification_rules, check, check_token, admit, auto_narrow,
  check_verification_rules, is_excluded,
}
use kontxt.Extauth.Generate.{GenerationServer, set_generation_rules}
use kontxt.Extauth.Identity.{IdentityResolver}
use kontxt.Rules.{VerificationRule}
use kontxt.Distribution.Stream.{RuleKey, Update}
use kontxt.Distribution.Client.{apply_verification}
use kontxt.Distribution.Streams.{
  Side, opened, received, failed, hand_on, start, deliver, stream, Event, generation, verification,
  handle, RuleClient, Attempt, set_verification_setter,
}
use kontxt.Distribution.Streams.Laws.{run-keeps}
use kontxt.Command.Extauth.{wire, serve}

start-setter : {T R : Type 0} (o : Option T) (side : Side T R) → (start o side).setter ≡ side.setter
unfolding start
start-setter none side = refl
start-setter (some target) side = refl

module _ {cel : Cel} {V : Type 0} where
  admit-allow :
      (s : Server cel V) (json : Json) (http : HttpAttributes) (token : String) (claims : Claims)
      (hs : Map String String)
      → s.tts_client ≡ none
      → admit cel s json http token claims ≡ allow hs
      → hs ≡ []
  unfolding admit auto_narrow denied
  admit-allow s json http token claims hs clientless e =
      elim (Outcome-cases
        (check_verification_rules cel s json claims http.path http.method http.headers)) [
          | inl (_, passed) ↦ cc (rw (passed, clientless, admit) at e)
          | inr (x, refused) ↦ cc (rw (refused, admit) at e)
        ]

  check_token-allow :
      (s : Server cel V) (json : Json) (http : HttpAttributes) (token : String)
      (hs : Map String String)
      → s.tts_client ≡ none
      → check_token cel s json http token ≡ allow hs
      → hs ≡ []
  unfolding check_token denied
  check_token-allow s json http token hs clientless e = elim (Bool-cases (token == "")) [
    | inl missing ↦ cc (rw (missing, check_token) at e)
    | inr there ↦ elim (Outcome-cases (s.verifier token)) [
      | inr (x, refused) ↦ cc (rw (there, refused, check_token) at e)
      | inl (claims, verified) ↦
          admit-allow s json http token claims hs clientless
            (rw (there, verified, check_token) at e)
    ]
  ]

  check-allow :
      (s : Server cel V) (json : Json) (http : Option HttpAttributes) (hs : Map String String)
      → s.tts_client ≡ none
      → check cel s json http ≡ allow hs
      → hs ≡ []
  unfolding check denied
  check-allow s json none hs clientless e = cc
  check-allow s json (some http) hs clientless e =
      elim (Bool-cases (is_excluded cel s http.path http.method)) [
        | inl out ↦ cc (rw (out, check) at e)
        | inr other ↦ check_token-allow s json http _ hs clientless (rw (other, check) at e)
      ]

  -- The setter of the verification rules has no client of the token service.
  abbrev IsClientless : RuleClient GenerationServer (Server cel V) → Type 0
  IsClientless rc = (s : Server cel V) → rc.ver.setter ≡ some s → s.tts_client ≡ none

  deliver-clientless :
      (o : Option (Server cel V)) (rules : Option (Map RuleKey VerificationRule))
      (u : Update VerificationRule) (side : Side (Server cel V) VerificationRule) (s : Server cel V)
      → ((t : Server cel V) → o ≡ some t → t.tts_client ≡ none)
      → ((t : Server cel V) → side.setter ≡ some t → t.tts_client ≡ none)
      → (deliver
          (λ rules t. set_verification_rules cel t rules)
          apply_verification
          o
          rules
          u
          side).setter
        ≡ some s
      → s.tts_client ≡ none
  unfolding deliver hand_on set_verification_rules
  deliver-clientless none rules u side s held kept e = kept s e
  deliver-clientless (some target) none u side s held kept e = kept s e
  deliver-clientless (some target) (some m) u side s held kept e =
      ap (λ (t : Server cel V). t.tts_client) (sym (some_inj e)) ∙ held target refl

  handle-IsClientless :
      (e : Event) (rc : RuleClient GenerationServer (Server cel V))
      → IsClientless rc
      → IsClientless (
          handle
            (λ rules s. set_generation_rules s rules)
            (λ rules s. set_verification_rules cel s rules)
            e
            rc)
  unfolding handle stream
  handle-IsClientless (generation m) rc clientless = clientless
  handle-IsClientless (verification opened) rc clientless =
      λ s e. clientless s (sym (start-setter rc.ver.setter rc.ver) ∙ e)
  handle-IsClientless (verification (failed x)) rc clientless = clientless
  handle-IsClientless (verification (received u)) rc clientless =
      λ s e. deliver-clientless rc.ver.setter rc.ver.rules u rc.ver s clientless clientless e

  -- The verifying service never narrows a token, whatever rules it gets: when it lets a request
  -- through, it sets no header.
  pub check-serve :
      (verifier : String → Outcome V Claims)
      (client : ExchangeRequest → Outcome ExchangeError String) (resolver : IdentityResolver)
      (rc : RuleClient GenerationServer (Server cel V)) (attempts : List Attempt) (s : Server cel V)
      (json : Json) (http : Option HttpAttributes) (hs : Map String String)
      → wire "verify" verifier client resolver ≡ some rc
      → (serve attempts rc).ver.setter ≡ some s
      → check cel s json http ≡ allow hs
      → check cel s json http ≡ allow []
  unfolding serve wire set_verification_setter new_server
  check-serve verifier client resolver rc attempts s json http hs wired there e =
      e
      ∙ ap allow (
          check-allow s json http hs
            (run-keeps _ _ IsClientless handle-IsClientless attempts 500 rc
              (λ t set.
                subst
                  (λ (c : RuleClient GenerationServer (Server cel V)).
                    c.ver.setter ≡ some t → t.tts_client ≡ none)
                  (some_inj wired)
                  (λ same. ap (λ (x : Server cel V). x.tts_client) (sym (some_inj same))) set)
              s there)
            e)
