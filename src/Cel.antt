-- ===== src/Cel.antt =====
-- cel-go, which the program only calls, as an interface: environments, compilation, evaluation.
use kontxt.Base.{String, Bool, List, Outcome}
use kontxt.Base.Maps.{Map}
use kontxt.Any.{Any}

-- The types that the program tells apart.
pub data CelType : Type 0 where
  bool_type string_type dyn_type other_type : CelType

abbrev pub is_bool_type : CelType → Bool
is_bool_type bool_type = Bool.true
is_bool_type _ = Bool.false

-- What an evaluation returns: a Boolean, a string, or a value of another type.
pub data CelValue : Type 0 where
  bool_value : Bool → CelValue
  string_value : String → CelValue
  other_value : Any → CelValue

pub record Cel : Type 1 where
  pub Env : Type 0
  pub Ast : Type 0
  pub Program : Type 0
  -- cel.NewEnv over typed variables
  pub new_env : List (String × CelType) → Outcome String Env
  -- env.Compile
  pub compile : Env → String → Outcome String Ast
  -- ast.OutputType
  pub output_type : Ast → CelType
  -- env.Program
  pub program : Env → Ast → Outcome String Program
  -- program.Eval on an activation
  pub eval : Program → Map String Any → Outcome String CelValue
