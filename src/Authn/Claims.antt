-- ===== src/Authn/Claims.antt =====
-- pkg/authn/cel.go: compiling and evaluating the claim validation rules and the claim mappings.
pub mod Laws
use kontxt.Base.{
  ℕ, ◌+◌, String, Bool, true, false, not, Option, none, some, List, [], ◌∷◌, if◌then◌else◌, ◌==◌,
  Eq_nat, Eq_string, Outcome, ok, err, ◌>>=◌, ◌>>◌, guard, map_err,
}
use kontxt.Base.Maps.{Map, lookup, insert}
use kontxt.Any.{Any, object, members, as_text}
use kontxt.Cel.{
  Cel, CelType, dyn_type, is_bool_type, string_type, CelValue, bool_value, string_value,
  other_value,
}
use kontxt.Authn.Config.{ClaimValidationRule, ClaimOrExpression, ExtraMapping}

-- The errors of the three compilations, with what their messages show.
pub data CompileError : Type 0 where
  rule_not_compiled : ℕ → String → String → CompileError
  rule_not_bool : ℕ → String → CelType → CompileError
  rule_no_program : ℕ → String → CompileError
  subject_not_compiled : String → String → CompileError
  subject_not_string : String → CelType → CompileError
  subject_no_program : String → CompileError
  extra_not_compiled : ℕ → String → String → CompileError
  extra_no_program : ℕ → String → CompileError

-- The errors of the three evaluations. `panicked` is the failing assertion of a subject that is no
-- string, which the server of a request recovers from.
pub data ClaimError : Type 0 where
  rule_not_evaluated : String → ClaimError
  rule_wrong_type : CelValue → ClaimError
  rule_failed : String → ClaimError
  claim_not_found : String → ClaimError
  claim_not_string : String → ClaimError
  no_mapping : ClaimError
  subject_not_evaluated : String → ClaimError
  panicked : CelValue → ClaimError
  extra_not_evaluated : String → String → ClaimError

-- The activation of every evaluation.
abbrev pub activation_of : Map String Any → Map String Any
activation_of claims = ("claims", object (members claims)) ∷ []

-- refValueToString; `render` is the format %v of a value that is no string.
unfoldable pub ref_value_to_string : (CelValue → String) → CelValue → String
ref_value_to_string render (string_value s) = s
ref_value_to_string render (bool_value b) = render (bool_value b)
ref_value_to_string render (other_value v) = render (other_value v)

-- `outType != cel.StringType && outType != cel.DynType`, negated
abbrev is_string_or_dyn : CelType → Bool
is_string_or_dyn string_type = true
is_string_or_dyn dyn_type = true
is_string_or_dyn _ = false

module _ (cel : Cel) where
  open cel use {Env, Ast, Program, new_env, compile, output_type, program, eval}

  -- compiledRule
  pub record CompiledRule : Type 0 where
    pub prg : cel.Program
    pub message : String

  -- compiledMapping
  pub record CompiledMapping : Type 0 where
    pub prg : cel.Program
    pub key : String

  -- newCELEnv
  unfoldable pub new_cel_env : Outcome String Env
  new_cel_env = new_env (("claims", dyn_type) ∷ [])

  -- One round of the loop of `compileValidationRules`.
  unfoldable pub compile_validation_rule :
      Env → ℕ → ClaimValidationRule → Outcome CompileError CompiledRule
  compile_validation_rule env i rule = do
    ast ← map_err (rule_not_compiled i rule.expression) (compile env rule.expression)
    guard (is_bool_type (output_type ast)) (rule_not_bool i rule.expression (output_type ast))
    prg ← map_err (rule_no_program i) (program env ast)
    ok (record { prg = prg; message = rule.message })

  unfoldable pub compile_rules_from :
      Env → ℕ → List ClaimValidationRule → Outcome CompileError (List CompiledRule)
  compile_rules_from env i [] = ok []
  compile_rules_from env i (rule ∷ rules) = do
    first ← compile_validation_rule env i rule
    rest ← compile_rules_from env (i + 1) rules
    ok (first ∷ rest)

  -- compileValidationRules
  unfoldable pub compile_validation_rules :
      Env → List ClaimValidationRule → Outcome CompileError (List CompiledRule)
  compile_validation_rules env rules = compile_rules_from env 0 rules

  -- What one evaluation of a rule says.
  unfoldable pub judge : CompiledRule → Outcome String CelValue → Outcome ClaimError (Unit {0})
  judge rule (err e) = err (rule_not_evaluated e)
  judge rule (ok (bool_value true)) = ok tt
  judge rule (ok (bool_value false)) = err (rule_failed rule.message)
  judge rule (ok (string_value s)) = err (rule_wrong_type (string_value s))
  judge rule (ok (other_value v)) = err (rule_wrong_type (other_value v))

  -- evaluateValidationRules
  unfoldable pub evaluate_validation_rules :
      List CompiledRule → Map String Any → Outcome ClaimError (Unit {0})
  evaluate_validation_rules [] claims = ok tt
  evaluate_validation_rules (rule ∷ rules) claims = do
    passed ← judge rule (eval rule.prg (activation_of claims))
    evaluate_validation_rules rules claims

  -- compileSubjectMapping; `none` is the nil program
  unfoldable pub compile_subject_mapping :
      Env → ClaimOrExpression → Outcome CompileError (Option Program)
  compile_subject_mapping env mapping = if mapping.expression == "" then ok none else do
    ast ← map_err (subject_not_compiled mapping.expression) (compile env mapping.expression)
    guard (is_string_or_dyn (output_type ast))
        (subject_not_string mapping.expression (output_type ast))
    prg ← map_err subject_no_program (program env ast)
    ok (some prg)

  -- `val, ok := claims[claim]; …; s, ok := val.(string)`
  unfoldable pub claim_subject : String → Map String Any → Outcome ClaimError String
  claim_subject claim claims = elim (lookup claim claims) [
    | none ↦ err (claim_not_found claim)
    | some v ↦ elim (as_text v) [ none ↦ err (claim_not_string claim) | some s ↦ ok s ]
  ]

  -- `out.Value().(string)`
  unfoldable pub string_of : CelValue → Outcome ClaimError String
  string_of (string_value s) = ok s
  string_of (bool_value b) = err (panicked (bool_value b))
  string_of (other_value v) = err (panicked (other_value v))

  unfoldable pub program_subject : Option Program → Map String Any → Outcome ClaimError String
  program_subject none claims = err no_mapping
  program_subject (some prg) claims = do
    out ← map_err subject_not_evaluated (eval prg (activation_of claims))
    string_of out

  -- evaluateSubjectMapping
  unfoldable pub evaluate_subject_mapping :
      ClaimOrExpression → Option Program → Map String Any → Outcome ClaimError String
  evaluate_subject_mapping mapping prg claims =
      if not (mapping.claim == "")
      then claim_subject mapping.claim claims
      else program_subject prg claims

  unfoldable pub compile_extra_mapping :
      Env → ℕ → ExtraMapping → Outcome CompileError CompiledMapping
  compile_extra_mapping env i m = do
    ast ← map_err (extra_not_compiled i m.value_expression) (compile env m.value_expression)
    prg ← map_err (extra_no_program i) (program env ast)
    ok (record { prg = prg; key = m.key })

  unfoldable pub compile_mappings_from :
      Env → ℕ → List ExtraMapping → Outcome CompileError (List CompiledMapping)
  compile_mappings_from env i [] = ok []
  compile_mappings_from env i (m ∷ ms) = do
    first ← compile_extra_mapping env i m
    rest ← compile_mappings_from env (i + 1) ms
    ok (first ∷ rest)

  -- compileExtraMappings
  unfoldable pub compile_extra_mappings :
      Env → List ExtraMapping → Outcome CompileError (List CompiledMapping)
  compile_extra_mappings env ms = compile_mappings_from env 0 ms

  module _ (render : CelValue → String) where
    -- The loop of `evaluateExtraMappings`, on the map so far.
    unfoldable pub collect_extra :
        List CompiledMapping
        → Map String Any
        → Map String String
        → Outcome ClaimError (Map String String)
    collect_extra [] claims extra = ok extra
    collect_extra (m ∷ ms) claims extra = do
      out ← map_err (extra_not_evaluated m.key) (eval m.prg (activation_of claims))
      collect_extra ms claims (insert m.key (ref_value_to_string render out) extra)

    -- evaluateExtraMappings; a nil map reads as an empty one.
    unfoldable pub evaluate_extra_mappings :
        List CompiledMapping → Map String Any → Outcome ClaimError (Map String String)
    evaluate_extra_mappings ms claims = collect_extra ms claims []
