-- ===== src/Distribution/Setter.antt =====
-- pkg/tts/ruleclient/handler_setter.go: compiling the received issuance rules into the handler.
use kontxt.Base.{
  String, not, List, [], ◌++◌, map, if◌then◌else◌, ◌==◌, Eq_nat, Eq_string, Outcome, ok, err,
  concat,
}
use kontxt.Cel.{Cel}
use kontxt.Jwt.{Jwt}
use kontxt.Rules.{IssuanceRule}
use kontxt.Tts.Rules.{IssuanceRuleConfig, CompileError, compile_issuance_rules}
use kontxt.Tts.Handler.{Handler, set_issuance_rules}

-- qualifiedName
unfoldable pub qualified_name : IssuanceRule → String
qualified_name r =
    let name =
      if not (r.policy_name == "")
      then concat r.policy_name (concat "/" r.rule_name)
      else r.rule_name in
    if not (r.policy_namespace == "") then concat r.policy_namespace (concat "/" name) else name

-- The configuration of one rule.
unfoldable pub config_of : IssuanceRule → IssuanceRuleConfig
config_of r = record {
  name = qualified_name r;
  cel = r.cel;
  message = r.message;
  target_namespaces = [] ++ r.target_namespaces;
}

-- HandlerSetter.SetIssuanceRules of a handler that is there
unfoldable pub apply_issuance_rules :
    {jwt : Jwt} {cel : Cel}
    → Handler jwt cel
    → List IssuanceRule
    → Handler jwt cel × Outcome CompileError (Unit {0})
apply_issuance_rules {cel = cel} h rules = elim (compile_issuance_rules cel (map config_of rules)) [
  | err e ↦ (h, err e)
  | ok compiled ↦ (set_issuance_rules h compiled, ok tt)
]
