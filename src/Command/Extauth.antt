-- ===== src/Command/Extauth.antt =====
-- cmd/extauth/main.go: an ext_authz service with its rule client.
pub mod Laws
pub mod Unready
use kontxt.Base.{
  ℕ, String, not, Option, none, some, List, if◌then◌else◌, ◌==◌, Eq_nat, Eq_string, Outcome,
}
use kontxt.Cel.{Cel}
use kontxt.Token.{Claims}
use kontxt.Sdk.Client.{ExchangeRequest, ExchangeError}
use kontxt.Extauth.Server.{Server, new_server, set_verification_rules}
use kontxt.Extauth.Generate.{GenerationServer, new_generation_server, set_generation_rules}
use kontxt.Extauth.Identity.{IdentityResolver}
use kontxt.Distribution.Streams.{
  RuleClient, Attempt, new_rule_client, set_generation_setter, set_verification_setter, ready, run,
}

module _ {cel : Cel} {V : Type 0} where
  -- The switch on the mode, which makes a service the setter of the rule client; no other mode starts.
  unfoldable pub wire :
      String
      → (String → Outcome V Claims)
      → (ExchangeRequest → Outcome ExchangeError String)
      → IdentityResolver
      → Option (RuleClient GenerationServer (Server cel V))
  wire mode verifier client resolver =
      if mode == "verify"
      then some (set_verification_setter (new_server cel verifier) new_rule_client)
      else if mode == "generate"
      then some (set_generation_setter (new_generation_server client resolver) new_rule_client)
      else none

  -- `rc.Run`, whose first wait is 500 milliseconds, up to some attempt.
  unfoldable pub serve :
      List Attempt
      → RuleClient GenerationServer (Server cel V)
      → RuleClient GenerationServer (Server cel V)
  serve attempts rc =
      (run (λ rules s. set_generation_rules s rules) (λ rules s. set_verification_rules cel s rules)
        attempts 500 rc).0

  -- The status of the handler of `/readyz`.
  unfoldable pub readyz_status : RuleClient GenerationServer (Server cel V) → ℕ
  readyz_status rc = if not (ready rc) then 503 else 200
