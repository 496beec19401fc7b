-- ===== src/Tts/Rules.antt =====
-- pkg/tts/cel.go: compiling and evaluating issuance rules.
pub mod Laws
use kontxt.Base.{
  ℕ, ◌+◌, String, Bool, true, false, List, [], ◌∷◌, if◌then◌else◌, ◌==◌, Eq_nat, Eq_string,
  contains, Outcome, ok, err, ◌>>=◌, ◌>>◌, guard, map_err,
}
use kontxt.Base.Maps.{Map}
use kontxt.Any.{Any, text, object, no_members, Object, of_object, is_nil}
use kontxt.Cel.{
  Cel, CelType, string_type, dyn_type, is_bool_type, CelValue, bool_value, string_value,
  other_value,
}

-- IssuanceRuleConfig
pub record IssuanceRuleConfig : Type 0 where
  pub name : String
  pub cel : String
  pub message : String
  pub target_namespaces : List String

-- IssuanceContext
pub record IssuanceContext : Type 0 where
  pub subject : String
  pub scope : String
  pub tctx : Object
  pub rctx : Object
  pub workload : String
  pub workload_ns : String

-- The errors of `CompileIssuanceRules`, with what their messages show.
pub data CompileError : Type 0 where
  no_environment : String → CompileError
  empty_expression : ℕ → String → CompileError
  not_compiled : String → String → CompileError
  not_bool : String → CelType → CompileError
  no_program : String → String → CompileError

-- The errors of `EvaluateIssuanceRules`; `denied` is IssuanceDeniedError.
pub data EvaluationError : Type 0 where
  not_evaluated : String → String → EvaluationError
  wrong_type : String → CelValue → EvaluationError
  denied : String → String → EvaluationError

-- The loop over the targets in `ruleAppliesToNamespace` is a membership test.
unfoldable pub rule_applies_to_namespace : List String → String → Bool
rule_applies_to_namespace [] workload_ns = true
rule_applies_to_namespace (t ∷ ts) workload_ns =
    if workload_ns == "" then false else contains (t ∷ ts) workload_ns

-- `if activation[k] == nil { activation[k] = map[string]any{} }`
unfoldable pub default_empty : Any → Any
default_empty v = if is_nil v then object no_members else v

-- The activation map, in which a nil map is a non-nil interface value.
unfoldable pub activation_of : IssuanceContext → Map String Any
unfolding default_empty
activation_of ictx =
    ("subject", text ictx.subject)
    ∷ ("scope", text ictx.scope)
    ∷ ("tctx", default_empty (of_object ictx.tctx))
    ∷ ("rctx", default_empty (of_object ictx.rctx))
    ∷ ("workload", text ictx.workload)
    ∷ ("workload_ns", text ictx.workload_ns)
    ∷ []

module _ (cel : Cel) where
  open cel use {Env, Program, new_env, compile, output_type, program, eval}

  -- IssuanceRule
  pub record IssuanceRule : Type 0 where
    pub name : String
    pub prg : Program
    pub message : String
    pub target_namespaces : List String

  -- newIssuanceCELEnv
  unfoldable pub new_issuance_env : Outcome String Env
  new_issuance_env = new_env (
      ("subject", string_type)
      ∷ ("scope", string_type)
      ∷ ("tctx", dyn_type)
      ∷ ("rctx", dyn_type)
      ∷ ("workload", string_type)
      ∷ ("workload_ns", string_type)
      ∷ [])

  -- One round of the loop of `CompileIssuanceRules`.
  unfoldable pub compile_rule : Env → ℕ → IssuanceRuleConfig → Outcome CompileError IssuanceRule
  compile_rule env i cfg = if cfg.cel == "" then err (empty_expression i cfg.name) else do
    ast ← map_err (not_compiled cfg.name) (compile env cfg.cel)
    guard (is_bool_type (output_type ast)) (not_bool cfg.name (output_type ast))
    prg ← map_err (no_program cfg.name) (program env ast)
    ok (record {
      name = cfg.name;
      prg = prg;
      message = cfg.message;
      target_namespaces = cfg.target_namespaces;
    })

  unfoldable pub compile_from :
      Env → ℕ → List IssuanceRuleConfig → Outcome CompileError (List IssuanceRule)
  compile_from env i [] = ok []
  compile_from env i (cfg ∷ cfgs) = do
    rule ← compile_rule env i cfg
    rules ← compile_from env (i + 1) cfgs
    ok (rule ∷ rules)

  -- CompileIssuanceRules
  unfoldable pub compile_issuance_rules :
      List IssuanceRuleConfig → Outcome CompileError (List IssuanceRule)
  unfolding new_issuance_env compile_from compile_rule
  compile_issuance_rules [] = ok []
  compile_issuance_rules (cfg ∷ cfgs) = do
    env ← map_err no_environment new_issuance_env
    compile_from env 0 (cfg ∷ cfgs)

  -- What one evaluation of a rule's program says.
  unfoldable pub verdict :
      IssuanceRule → Outcome String CelValue → Outcome EvaluationError (Unit {0})
  verdict rule (err e) = err (not_evaluated rule.name e)
  verdict rule (ok (bool_value true)) = ok tt
  verdict rule (ok (bool_value false)) = err (denied rule.name rule.message)
  verdict rule (ok (string_value s)) = err (wrong_type rule.name (string_value s))
  verdict rule (ok (other_value v)) = err (wrong_type rule.name (other_value v))

  -- One round of the loop of `EvaluateIssuanceRules`.
  unfoldable pub check_rule :
      String → Map String Any → IssuanceRule → Outcome EvaluationError (Unit {0})
  check_rule workload_ns activation rule =
      if rule_applies_to_namespace rule.target_namespaces workload_ns
      then verdict rule (eval rule.prg activation)
      else ok tt

  unfoldable pub check_rules :
      String → Map String Any → List IssuanceRule → Outcome EvaluationError (Unit {0})
  check_rules workload_ns activation [] = ok tt
  check_rules workload_ns activation (rule ∷ rules) = do
    passed ← check_rule workload_ns activation rule
    check_rules workload_ns activation rules

  -- EvaluateIssuanceRules
  unfoldable pub evaluate_issuance_rules :
      List IssuanceRule → IssuanceContext → Outcome EvaluationError (Unit {0})
  evaluate_issuance_rules rules ictx = check_rules ictx.workload_ns (activation_of ictx) rules
