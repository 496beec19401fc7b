-- ===== src/Controller/Conditions/Laws.antt =====
-- What the conditions say after they are set.
use kontxt.Base.{
  ℕ, String, ◌≡◌, refl, Option, none, some, List, [], ◌∷◌, arith, eq_iff, if◌then◌else◌, ◌==◌,
  Eq_nat, Eq_string,
}
use kontxt.Crd.{Condition}
use kontxt.Controller.Conditions.{set_condition}

-- The status of the first condition of a type.
abbrev pub status_of : String → List Condition → Option String
status_of t [] = none
status_of t (c ∷ cs) = if c.type_of == t then some c.status else status_of t cs

-- After a condition is set, its status is found under its type, and the status found under any
-- other type is as before.
pub status_of-set_condition :
    (t : String) (now : ℕ) (cs : List Condition) (cond_type status reason message : String)
    → status_of t (set_condition now cs cond_type status reason message)
      ≡ (if cond_type == t then some status else status_of t cs)
unfolding set_condition
status_of-set_condition t now [] cond_type status reason message = refl
status_of-set_condition t now (c ∷ cs) cond_type status reason message = ground (
  arith,
  eq_iff c.type_of cond_type,
  eq_iff c.type_of t,
  eq_iff cond_type t,
  status_of-set_condition t now cs cond_type status reason message,
)
