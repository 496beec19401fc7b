-- ===== src/Controller/Verification.antt =====
-- ServiceTokenRequirementReconciler of internal/controller/controller.go.
pub mod Laws
use kontxt.Base.{
  ℕ, String, Bool, List, [], ◌∷◌, map, if◌then◌else◌, ◌==◌, Eq_nat, Eq_string, length, Outcome, ok,
  err, concat,
}
use kontxt.Cel.{Cel}
use kontxt.Crd.{NamedCel, ServiceTokenRequirement}
use kontxt.Rules.{CelRule, VerificationRule}
use kontxt.Extauth.Celverify.{CompileError, compile_rules}
use kontxt.Controller.Conditions.{
  set_condition, Fetched, found, not_found, get_failed, Effect, update_status, publish,
}

-- The errors of `validateAndCompileCELRules`.
pub data CelError : Type 0 where
  empty_expression : String → CelError
  not_compiled : CompileError → CelError

abbrev pub as_cel_rule : NamedCel → CelRule
as_cel_rule r = record { name = r.name; cel = r.cel; message = r.message }

-- What the reconciler reads from outside.
pub record Cluster : Type 0 where
  pub list_requirements : Outcome String (List ServiceTokenRequirement)
  pub status_update : Outcome String (Unit {0})
  pub now : ℕ
  pub has_publisher : Bool
  pub render : List CelError → String

module _ (cel : Cel) where
  -- validateAndCompileCELRules
  unfoldable pub validate_and_compile : List NamedCel → List NamedCel × List CelError
  validate_and_compile [] = ([], [])
  validate_and_compile (rule ∷ rules) =
      let (valid, errs) = validate_and_compile rules in
      if rule.cel == ""
      then (valid, empty_expression rule.name ∷ errs)
      else elim (compile_rules cel (as_cel_rule rule ∷ [])) [
        | err e ↦ (valid, not_compiled e ∷ errs)
        | ok _ ↦ (rule ∷ valid, errs)
      ]

  -- validateCELRules
  unfoldable pub validate_cel_rules : List NamedCel → List CelError
  validate_cel_rules rules = (validate_and_compile rules).1

  -- One round of the loop of `rebuildVerificationRules`.
  unfoldable pub verification_rule : ServiceTokenRequirement → VerificationRule
  verification_rule str = record {
    namespace = str.namespace;
    name = str.name;
    service_name = str.spec.service_name;
    required_scope = str.spec.verification.required_scope;
    required_tctx_fields = str.spec.verification.required_tctx_fields;
    cel_rules = map as_cel_rule (validate_and_compile str.spec.verification.rules).0;
    excluded_endpoints = str.spec.excluded_endpoints;
    auto_narrow = str.spec.auto_narrow;
  }

  module _ (c : Cluster) where
    -- rebuildVerificationRules
    unfoldable pub rebuild_verification_rules :
        List (Effect ServiceTokenRequirement VerificationRule) × Outcome String (Unit {0})
    rebuild_verification_rules = elim c.list_requirements [
      | err e ↦ ([], err e)
      | ok items ↦
          ((if c.has_publisher then publish (map verification_rule items) ∷ [] else []), ok tt)
    ]

    -- The object with the status that Reconcile computes.
    unfoldable pub with_status : ServiceTokenRequirement → ServiceTokenRequirement
    with_status str = record str {
      status = record {
        conditions = elim (validate_cel_rules str.spec.verification.rules) [
          | [] ↦
              set_condition c.now str.status.conditions "Ready" "True" "Reconciled"
                "verification rules updated"
          | e ∷ es ↦
              set_condition c.now str.status.conditions "Ready" "False" "CELCompilationError"
                (concat "CEL errors: " (c.render (e ∷ es)))
        ];
        active_verification_rules = length str.spec.verification.rules;
        excluded_endpoint_count = length str.spec.excluded_endpoints;
      };
    }

    -- Reconcile
    unfoldable pub reconcile :
        Fetched ServiceTokenRequirement
        → List (Effect ServiceTokenRequirement VerificationRule) × Outcome String (Unit {0})
    reconcile not_found = rebuild_verification_rules
    reconcile (get_failed e) = ([], err e)
    reconcile (found str) = elim c.status_update [
      | err e ↦ (update_status (with_status str) ∷ [], err e)
      | ok _ ↦
          let (effects, result) = rebuild_verification_rules in
          (update_status (with_status str) ∷ effects, result)
    ]
