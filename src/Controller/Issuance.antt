-- ===== src/Controller/Issuance.antt =====
-- internal/controller/policy_reconciler.go: TokenPolicyReconciler.
pub mod Laws
pub mod Status
use kontxt.Base.{
  ℕ, String, Bool, Option, none, some, List, [], ◌∷◌, ◌++◌, map, if◌then◌else◌, Eq_nat, Eq_string,
  contains, Outcome, ok, err, concat,
}
use kontxt.Cel.{Cel}
use kontxt.Crd.{NamespaceSelector, NamedCel, TokenPolicy}
use kontxt.Rules.{IssuanceRule}
use kontxt.Tts.Rules.{IssuanceRuleConfig, CompileError, compile_issuance_rules}
use kontxt.Controller.Conditions.{
  set_condition, Fetched, found, not_found, get_failed, Effect, update_status, publish,
}

-- resolveTargetNamespaces
unfoldable pub resolve_target_namespaces : Option NamespaceSelector → List String
resolve_target_namespaces none = []
resolve_target_namespaces (some selector) = selector.match_names

-- issuanceCELError
pub record IssuanceCelError : Type 0 where
  pub rule_name : String
  pub error : CompileError

-- The configuration that `validateIssuanceCEL` compiles.
abbrev pub config_of : NamedCel → IssuanceRuleConfig
config_of r = record { name = r.name; cel = r.cel; message = r.message; target_namespaces = [] }

-- The rules whose name is not among the broken ones, for one policy.
unfoldable pub publishable : TokenPolicy → List String → List NamedCel → List IssuanceRule
publishable policy broken [] = []
publishable policy broken (ir ∷ irs) =
    let rest = publishable policy broken irs in
    if contains broken ir.name
    then rest
    else record {
      policy_namespace = "";
      policy_name = policy.name;
      rule_name = ir.name;
      cel = ir.cel;
      message = ir.message;
      target_namespaces = resolve_target_namespaces policy.spec.target_namespaces;
    }
      ∷ rest

-- What the reconciler reads from outside.
pub record Cluster : Type 0 where
  pub list_policies : Outcome String (List TokenPolicy)
  pub status_update : Outcome String (Unit {0})
  pub now : ℕ
  pub has_publisher : Bool
  pub render : List IssuanceCelError → String

module _ (cel : Cel) where
  -- The slow path of `validateIssuanceCEL`: every rule by itself.
  unfoldable pub compile_each : List IssuanceRuleConfig → List IssuanceCelError
  compile_each [] = []
  compile_each (cfg ∷ cfgs) =
      let rest = compile_each cfgs in
      elim (compile_issuance_rules cel (cfg ∷ [])) [
        | ok _ ↦ rest
        | err e ↦ record { rule_name = cfg.name; error = e } ∷ rest
      ]

  -- validateIssuanceCEL
  unfoldable pub validate_issuance_cel : List NamedCel → List IssuanceCelError
  validate_issuance_cel rules = elim (compile_issuance_rules cel (map config_of rules)) [
    | ok _ ↦ []
    | err _ ↦ compile_each (map config_of rules)
  ]

  -- The rules of one policy in `rebuildIssuanceRules`.
  unfoldable pub rules_of : TokenPolicy → List IssuanceRule
  rules_of policy =
      publishable policy (map (λ e. e.rule_name) (validate_issuance_cel policy.spec.issuance_rules))
        policy.spec.issuance_rules

  unfoldable pub rules_of_all : List TokenPolicy → List IssuanceRule
  rules_of_all [] = []
  rules_of_all (policy ∷ policies) = rules_of policy ++ rules_of_all policies

  module _ (c : Cluster) where
    -- rebuildIssuanceRules
    unfoldable pub rebuild_issuance_rules :
        List (Effect TokenPolicy IssuanceRule) × Outcome String (Unit {0})
    rebuild_issuance_rules = elim c.list_policies [
      | err e ↦ ([], err e)
      | ok items ↦ ((if c.has_publisher then publish (rules_of_all items) ∷ [] else []), ok tt)
    ]

    -- The object with the status that Reconcile computes.
    unfoldable pub with_status : TokenPolicy → TokenPolicy
    with_status policy = record policy {
      conditions = elim (validate_issuance_cel policy.spec.issuance_rules) [
        | [] ↦
            set_condition c.now
              (set_condition c.now policy.conditions "PolicyCompliant" "True" "Compliant"
                "all issuance rules compiled successfully")
              "Ready" "True" "Reconciled" "issuance rules updated"
        | e ∷ es ↦
            set_condition c.now
              (set_condition c.now policy.conditions "PolicyCompliant" "False" "CELCompilationError"
                (concat "CEL errors: " (c.render (e ∷ es))))
              "Ready" "False" "CELCompilationError"
              (concat "one or more issuance rules failed to compile: " (c.render (e ∷ es)))
      ];
    }

    -- Reconcile
    unfoldable pub reconcile :
        Fetched TokenPolicy → List (Effect TokenPolicy IssuanceRule) × Outcome String (Unit {0})
    reconcile not_found = rebuild_issuance_rules
    reconcile (get_failed e) = ([], err e)
    reconcile (found policy) = elim c.status_update [
      | err e ↦ (update_status (with_status policy) ∷ [], err e)
      | ok _ ↦
          let (effects, result) = rebuild_issuance_rules in
          (update_status (with_status policy) ∷ effects, result)
    ]
