-- ===== src/Controller/Verification/Laws.antt =====
-- The published verification rules compile at the ext_authz service.
use kontxt.Base.{
  ◌+◌, ◌≡◌, refl, sym, ap, inl, inr, List, [], ◌∷◌, map, arith, ◌==◌, Eq_nat, Eq_string, Bool-cases,
  length, length-append, ok, map_err, Outcome-cases, bind-eq-ok, ok_inj,
}
use kontxt.Cel.{Cel}
use kontxt.Crd.{NamedCel, ServiceTokenRequirement}
use kontxt.Rules.{CelRule}
use kontxt.Extauth.Celverify.{
  Program, new_verification_env, compile_one, compile_from, compile_rules,
}
use kontxt.Extauth.Server.{compile_cel}
use kontxt.Controller.Verification.{
  as_cel_rule, validate_and_compile, validate_cel_rules, verification_rule,
}

module _ (cel : Cel) where
  -- One rule compiles to one program.
  one_program :
      (c : CelRule) (ps : List (Program cel)) → compile_rules cel (c ∷ []) ≡ ok ps → length ps ≡ 1
  unfolding compile_rules compile_from
  one_program c ps e =
      let (env, made, e') = bind-eq-ok (map_err _ (new_verification_env cel)) _ e in
      let (p, one, e'') = bind-eq-ok (compile_one cel env 0 c) _ e' in
      ap length (sym (ok_inj (ok (p ∷ [])) refl e''))

  compile_cel-valid :
      (rules : List NamedCel)
      → length (compile_cel cel (map as_cel_rule (validate_and_compile cel rules).0))
        ≡ length (validate_and_compile cel rules).0
  unfolding compile_cel validate_and_compile
  compile_cel-valid [] = refl
  compile_cel-valid (rule ∷ rules) = elim (Bool-cases (rule.cel == "")) [
    | inl empty ↦ rw empty (compile_cel-valid rules)
    | inr there ↦ elim (Outcome-cases (compile_rules cel (as_cel_rule rule ∷ []))) [
      | inl (ps, e) ↦
          rw (there, e, compile_cel, e)
            (omega (
              arith,
              length-append ps
                  (compile_cel cel (map as_cel_rule (validate_and_compile cel rules).0)),
              one_program _ ps e,
              compile_cel-valid rules,
            ))
      | inr (x, e) ↦ rw (there, e) (compile_cel-valid rules)
    ]
  ]

  -- The ext_authz service compiles as many programs of a requirement as the controller found valid
  -- expressions in it, and so leaves out none.
  pub verification_rule-compile_cel :
      (str : ServiceTokenRequirement)
      → length (compile_cel cel (verification_rule cel str).cel_rules)
        ≡ length (validate_and_compile cel str.spec.verification.rules).0
  unfolding verification_rule
  verification_rule-compile_cel str = compile_cel-valid str.spec.verification.rules

  -- As many CEL expressions of a requirement are published or reported as there are.
  pub validate_and_compile-length :
      (rules : List NamedCel)
      → length (validate_and_compile cel rules).0 + length (validate_cel_rules cel rules)
        ≡ length rules
  unfolding validate_and_compile validate_cel_rules
  validate_and_compile-length [] = refl
  validate_and_compile-length (rule ∷ rules) = ground (arith, validate_and_compile-length rules)
