-- ===== src/Command/Controller.antt =====
-- cmd/controller/main.go: the three reconcilers with the rule server as their publisher.
pub mod Step
pub mod Laws
use kontxt.Base.{true, List, [], ◌∷◌}
use kontxt.Cel.{Cel}
use kontxt.Crd.{TransactionType, ServiceTokenRequirement, TokenPolicy}
use kontxt.Controller.Conditions.{Fetched, Effect, update_status, publish}
use kontxt.Controller.Generation
use kontxt.Controller.Verification
use kontxt.Controller.Issuance
use kontxt.Distribution.Server.{
  RuleServer, new_rule_server, update_generation_rules, update_verification_rules,
  update_issuance_rules,
}

-- What the effects of a reconciler do to the publisher; the status goes to the API server.
unfoldable pub perform : {T R S : Type 0} → (S → List R → S) → List (Effect T R) → S → S
perform update [] s = s
perform update (update_status t ∷ effects) s = perform update effects s
perform update (publish rules ∷ effects) s = perform update effects (update s rules)

-- One call of a reconciler by the manager, with what it reads.
pub data Round : Type 0 where
  transaction_type : Generation.Cluster → Fetched TransactionType → Round
  service_token_requirement : Verification.Cluster → Fetched ServiceTokenRequirement → Round
  token_policy : Issuance.Cluster → Fetched TokenPolicy → Round

module _ (cel : Cel) where
  -- The reconcilers that `main` sets up, all with the rule server.
  unfoldable pub handle : Round → RuleServer → RuleServer
  handle (transaction_type c fetched) rs =
      perform update_generation_rules
        (Generation.reconcile (record c { has_publisher = true }) fetched).0 rs
  handle (service_token_requirement c fetched) rs =
      perform update_verification_rules
        (Verification.reconcile cel (record c { has_publisher = true }) fetched).0 rs
  handle (token_policy c fetched) rs =
      perform update_issuance_rules
        (Issuance.reconcile cel (record c { has_publisher = true }) fetched).0 rs

  -- The controller from its start, after calls in this order.
  unfoldable pub run : List Round → RuleServer → RuleServer
  run [] rs = rs
  run (round ∷ rounds) rs = run rounds (handle round rs)
