-- ===== src/Controller/Generation.antt =====
-- TransactionTypeReconciler of internal/controller/controller.go.
use kontxt.Base.{
  ℕ, String, Bool, Option, none, some, List, [], ◌∷◌, map, if◌then◌else◌, ◌==◌, Eq_nat, Eq_string,
  Outcome, ok, err, concat,
}
use kontxt.Base.Integers.{ℤ}
use kontxt.Crd.{Condition, TransactionType, TokenPolicy}
use kontxt.Rules.{GenerationRule}
use kontxt.Controller.Policy.{
  Violation, validate_against_policy, clamp_token_lifetime, compute_produced_tctx_fields,
  find_applicable_policy,
}
use kontxt.Controller.Conditions.{
  set_condition, Fetched, found, not_found, get_failed, Effect, update_status, publish,
}

-- What the reconciler reads from outside: the two List calls, the answer to the status update, the
-- clock, whether a publisher is set, and the text of the violations.
pub record Cluster : Type 0 where
  pub list_policies : Outcome String (List TokenPolicy)
  pub list_types : Outcome String (List TransactionType)
  pub status_update : Outcome String (Unit {0})
  pub now : ℕ
  pub has_publisher : Bool
  pub render : List Violation → String
  pub parse_duration : String → Outcome String ℤ

module _ (c : Cluster) where
  -- findApplicablePolicy, whose error is dropped
  unfoldable pub policy_for : String → Option TokenPolicy
  policy_for namespace = elim c.list_policies [
    | err _ ↦ none
    | ok policies ↦ find_applicable_policy policies namespace
  ]

  -- The lifetime under the policy.
  unfoldable pub effective_lifetime : TransactionType → Option TokenPolicy → String
  effective_lifetime txn none = txn.spec.token_lifetime
  effective_lifetime txn (some policy) =
      clamp_token_lifetime c.parse_duration txn.spec.token_lifetime
        policy.spec.constraints.max_token_lifetime "15s"

  -- One round of the loop of `rebuildGenerationRules`.
  unfoldable pub generation_rule : TransactionType → GenerationRule
  generation_rule txn =
      let lifetime = effective_lifetime txn (policy_for txn.namespace) in
      record {
        namespace = txn.namespace;
        name = txn.name;
        endpoint = txn.spec.endpoint;
        purpose = txn.spec.purpose;
        scope = txn.spec.scope;
        tctx_mapping = txn.spec.tctx_mapping;
        tctx_enrichments = txn.spec.tctx_enrichments;
        rctx_fields = txn.spec.rctx_fields;
        token_lifetime = if lifetime == "" then "15s" else lifetime;
      }

  -- rebuildGenerationRules
  unfoldable pub rebuild_generation_rules :
      List (Effect TransactionType GenerationRule) × Outcome String (Unit {0})
  rebuild_generation_rules = elim c.list_types [
    | err e ↦ ([], err e)
    | ok items ↦ ((if c.has_publisher then publish (map generation_rule items) ∷ [] else []), ok tt)
  ]

  -- The PolicyCompliant condition, by the violations.
  unfoldable pub set_compliance : List Condition → List Violation → List Condition
  set_compliance conditions [] =
      set_condition c.now conditions "PolicyCompliant" "True" "Compliant"
        "all policy constraints satisfied"
  set_compliance conditions (v ∷ vs) =
      set_condition c.now conditions "PolicyCompliant" "False" "PolicyViolation"
        (concat "violations: " (c.render (v ∷ vs)))

  -- The object with the status that Reconcile computes.
  unfoldable pub with_status : TransactionType → TransactionType
  with_status txn =
      let policy = policy_for txn.namespace in
      let violations = validate_against_policy c.parse_duration txn policy in
      record txn {
        status = record {
          conditions =
              set_condition c.now (set_compliance txn.status.conditions violations) "Ready" "True"
                "Reconciled" "generation rules updated";
          produced_tctx_fields = compute_produced_tctx_fields txn;
          effective_token_lifetime = effective_lifetime txn policy;
        };
      }

  -- Reconcile
  unfoldable pub reconcile :
      Fetched TransactionType
      → List (Effect TransactionType GenerationRule) × Outcome String (Unit {0})
  reconcile not_found = rebuild_generation_rules
  reconcile (get_failed e) = ([], err e)
  reconcile (found txn) = elim c.status_update [
    | err e ↦ (update_status (with_status txn) ∷ [], err e)
    | ok _ ↦
        let (effects, result) = rebuild_generation_rules in
        (update_status (with_status txn) ∷ effects, result)
  ]
