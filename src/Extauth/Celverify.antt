-- ===== src/Extauth/Celverify.antt =====
-- pkg/extauth/celverify/cel.go: compiling and evaluating verification rules.
use kontxt.Base.{
  ℕ, ◌+◌, String, true, false, List, [], ◌∷◌, if◌then◌else◌, ◌==◌, Eq_nat, Eq_string, Outcome, ok,
  err, ◌>>=◌, ◌>>◌, guard, map_err,
}
use kontxt.Base.Maps.{Map}
use kontxt.Any.{Any, object, no_members, Object, of_object, is_nil}
use kontxt.Cel.{
  Cel, CelType, dyn_type, is_bool_type, CelValue, bool_value, string_value, other_value,
}
use kontxt.Rules.{CelRule}

-- Context
pub record Context : Type 0 where
  pub tx_token : Object
  pub request : Object

-- The errors of `Compile`, with what their messages show.
pub data CompileError : Type 0 where
  no_environment : String → CompileError
  empty_expression : ℕ → String → CompileError
  not_compiled : String → String → CompileError
  not_bool : String → CelType → CompileError
  no_program : String → String → CompileError

-- The errors of `Evaluate`; `denied` is DeniedError.
pub data EvaluationError : Type 0 where
  not_evaluated : String → String → EvaluationError
  wrong_type : String → CelValue → EvaluationError
  denied : String → String → EvaluationError

-- `if activation[k] == nil { activation[k] = map[string]any{} }`
abbrev default_empty : Any → Any
default_empty v = if is_nil v then object no_members else v

-- The activation map, in which a nil map is a non-nil interface value.
unfoldable pub activation_of : Context → Map String Any
activation_of ctx =
    ("txtoken", default_empty (of_object ctx.tx_token))
    ∷ ("request", default_empty (of_object ctx.request))
    ∷ []

module _ (cel : Cel) where
  open cel use {Env, new_env, compile, output_type, program, eval}

  -- Program
  pub record Program : Type 0 where
    pub name : String
    pub prg : cel.Program
    pub message : String

  -- NewEnv
  unfoldable pub new_verification_env : Outcome String Env
  new_verification_env = new_env (("txtoken", dyn_type) ∷ ("request", dyn_type) ∷ [])

  -- One round of the loop of `Compile`.
  unfoldable pub compile_one : Env → ℕ → CelRule → Outcome CompileError Program
  compile_one env i r = if r.cel == "" then err (empty_expression i r.name) else do
    ast ← map_err (not_compiled r.name) (compile env r.cel)
    guard (is_bool_type (output_type ast)) (not_bool r.name (output_type ast))
    prg ← map_err (no_program r.name) (program env ast)
    ok (record { name = r.name; prg = prg; message = r.message })

  unfoldable pub compile_from : Env → ℕ → List CelRule → Outcome CompileError (List Program)
  compile_from env i [] = ok []
  compile_from env i (r ∷ rs) = do
    p ← compile_one env i r
    ps ← compile_from env (i + 1) rs
    ok (p ∷ ps)

  -- Compile
  unfoldable pub compile_rules : List CelRule → Outcome CompileError (List Program)
  compile_rules [] = ok []
  compile_rules (r ∷ rs) = do
    env ← map_err no_environment new_verification_env
    compile_from env 0 (r ∷ rs)

  -- What one evaluation of a program says.
  unfoldable pub judge : Program → Outcome String CelValue → Outcome EvaluationError (Unit {0})
  judge p (err e) = err (not_evaluated p.name e)
  judge p (ok (bool_value true)) = ok tt
  judge p (ok (bool_value false)) = err (denied p.name p.message)
  judge p (ok (string_value s)) = err (wrong_type p.name (string_value s))
  judge p (ok (other_value v)) = err (wrong_type p.name (other_value v))

  -- Evaluate
  unfoldable pub evaluate : List Program → Context → Outcome EvaluationError (Unit {0})
  evaluate [] ctx = ok tt
  evaluate (p ∷ ps) ctx = do passed ← judge p (eval p.prg (activation_of ctx)); evaluate ps ctx
