-- ===== src/Tests/Deployment.antt =====
-- The parts together at concrete inputs.
use kontxt.Base.{
  ◌++◌, String, ◌≡◌, refl, true, false, none, some, List, [], ◌∷◌, map, ◌==◌, Eq_nat, Eq_string, ok,
  err,
}
use kontxt.Crd.{TokenPolicy}
use kontxt.Rules.{GenerationRule, VerificationRule, IssuanceRule}
use kontxt.Controller.Conditions.{not_found, found}
use kontxt.Controller.Generation
use kontxt.Controller.Verification
use kontxt.Controller.Verification.{verification_rule}
use kontxt.Controller.Issuance.{rules_of_all}
use kontxt.Distribution.Stream.{snapshot}
use kontxt.Distribution.Server.{new_rule_server}
use kontxt.Distribution.Client.{apply_issuance}
use kontxt.Command.Controller.{Round, service_token_requirement, run}
use kontxt.Command.Controller.Laws.{published, run-replay}
use kontxt.Controller.Issuance.Laws.{Compiles}
use kontxt.Tts.Rules.{new_issuance_env}
use kontxt.Distribution.Proto.{issuance_rule_to_proto}
use kontxt.Extauth.Claims.{HttpAttributes}
use kontxt.Extauth.Generate.{CheckRequest}
use kontxt.Deployment.Policies.{rule_for}
use kontxt.Deployment.Collision.{key_for, lookup-apply_issuance}
use kontxt.Base.Maps.{lookup}
use kontxt.Distribution.Server.{Eq_issuance_key}
use kontxt.Tests.Fixtures.{toy_cel}
use kontxt.Tests.Controller.{good, policy, requirement, txn, durations}
use kontxt.Tests.Extauth.{entry}

abbrev pub wanted : List VerificationRule
wanted = map (verification_rule toy_cel) (requirement ∷ [])

abbrev pub types : Generation.Cluster
types = record {
  list_policies = ok (policy ∷ []);
  list_types = ok (txn ∷ []);
  status_update = ok tt;
  now = 7;
  has_publisher = true;
  render = λ violations. "";
  parse_duration = durations;
}

abbrev pub generated : List GenerationRule
generated = map (Generation.generation_rule types) (txn ∷ [])

abbrev pub analyzed : HttpAttributes
analyzed = record entry { path = "/analyze?v=1"; method = "POST" }

abbrev pub asked : CheckRequest
asked = record { http = some analyzed; source = none }

-- A policy for all namespaces, with a rule that does not compile.
abbrev pub everywhere : TokenPolicy
everywhere = record policy { spec = record (policy.spec) { target_namespaces = none } }

abbrev pub allowed_rules : List IssuanceRule
allowed_rules = rules_of_all toy_cel (everywhere ∷ [])

-- A policy with two rules of one name.
abbrev twins : TokenPolicy
twins = record policy {
  spec = record (policy.spec) { issuance_rules = good ∷ record good { cel = "false" } ∷ [] };
}

compiles : (x : String) → (x == "") ≡ false → Compiles toy_cel x
unfolding new_issuance_env
compiles x there = (
  tt,
  refl,
  record { ast = x; prg = x; there = there; compiled = refl; is_bool = refl; programmed = refl },
)

-- A policy with another name stands before it.
abbrev other_policy : TokenPolicy
other_policy = record policy { name = "other" }

lookup-apply_issuance_example :
    (rules_of_all toy_cel (other_policy ∷ twins ∷ [])
      ≡ rules_of_all toy_cel (other_policy ∷ [])
        ++ (rule_for twins good ∷ rule_for twins (record good { cel = "false" }) ∷ []))
    × (lookup (key_for twins "good") (
          apply_issuance [] (
            snapshot
              (map issuance_rule_to_proto (rules_of_all toy_cel (other_policy ∷ twins ∷ [])))))
        ≡ some (rule_for twins (record good { cel = "false" })))
unfolding rules_of_all
lookup-apply_issuance_example =
    lookup-apply_issuance toy_cel twins (compiles "true" refl, (compiles "false" refl, tt))
      (other_policy ∷ []) [] [] "good" (refl, tt) tt

-- The controller gets a list of requirements, and then no list.
abbrev pub cluster : Verification.Cluster
cluster = record {
  list_requirements = ok (requirement ∷ []);
  status_update = ok tt;
  now = 7;
  has_publisher = true;
  render = λ errors. "";
}

abbrev rounds : List Round
rounds =
    service_token_requirement cluster not_found
    ∷ service_token_requirement (record cluster { list_requirements = err "timeout" })
        (found requirement)
    ∷ []

run-replay_example :
    published (run toy_cel rounds new_rule_server)
    ≡ record { generation = []; verification = wanted; issuance = [] }
unfolding new_rule_server
run-replay_example = run-replay toy_cel rounds new_rule_server
