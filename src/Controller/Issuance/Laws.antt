-- ===== src/Controller/Issuance/Laws.antt =====
-- Which issuance rules are published, and that the token service accepts all of them.
use kontxt.Base.{
  ℕ, ◌+◌, String, ◌≡◌, refl, sym, ◌∙◌, ◌↔◌, inl, inr, true, false, List, [], ◌∷◌, map, arith, ◌==◌,
  Eq_nat, Eq_string, Bool-cases, test_refl, or_true, All, All-append, All-map, contains, In, ok,
  err, Outcome-cases, map_err-eq-ok, bind-eq-ok, guard-eq-ok, subst, ok_inj,
}
use kontxt.Cel.{Cel, is_bool_type}
use kontxt.Jwt.{Jwt}
use kontxt.Crd.{NamedCel, TokenPolicy}
use kontxt.Rules.{IssuanceRule}
use kontxt.Tts.Rules
use kontxt.Tts.Rules.{
  IssuanceRuleConfig, CompileError, new_issuance_env, compile_rule, compile_from,
  compile_issuance_rules,
}
use kontxt.Tts.Handler.{Handler}
use kontxt.Distribution.Setter
use kontxt.Distribution.Setter.{apply_issuance_rules}
use kontxt.Controller.Issuance.{
  config_of, IssuanceCelError, compile_each, validate_issuance_cel, publishable, rules_of,
  rules_of_all,
}

module _ (cel : Cel) where
  open cel use {Env, Ast, Program}

  -- An expression that is there, compiles to a Boolean, and gives a program.
  pub record CompilesIn (env : Env) (expression : String) : Type 0 where
    pub ast : Ast
    pub prg : Program
    pub there : (expression == "") ≡ false
    pub compiled : cel.compile env expression ≡ ok ast
    pub is_bool : is_bool_type (cel.output_type ast) ≡ true
    pub programmed : cel.program env ast ≡ ok prg

  compile_rule-CompilesIn :
      (env : Env) (i : ℕ) (cfg : IssuanceRuleConfig) (r : Rules.IssuanceRule cel)
      → compile_rule cel env i cfg ≡ ok r
      → CompilesIn env cfg.cel
  unfolding compile_rule
  compile_rule-CompilesIn env i cfg r e = elim (Bool-cases (cfg.cel == "")) [
    | inl empty ↦ absurd (ground (arith, (rw empty at e)))
    | inr there ↦
        let (ast, c, e') = bind-eq-ok _ _ (rw there at e) in
        let (b, e'') = guard-eq-ok (is_bool_type (cel.output_type ast)) _ _ e' in
        let (prg, p, _) = bind-eq-ok _ _ e'' in
        record {
          ast = ast;
          prg = prg;
          there = there;
          compiled = map_err-eq-ok _ _ c;
          is_bool = b;
          programmed = map_err-eq-ok _ _ p;
        }
  ]

  CompilesIn-compile_rule :
      (env : Env) (i : ℕ) (cfg : IssuanceRuleConfig)
      → CompilesIn env cfg.cel
      → (r : Rules.IssuanceRule cel) × (compile_rule cel env i cfg ≡ ok r)
  unfolding compile_rule
  CompilesIn-compile_rule env i cfg c = (
    record {
      name = cfg.name;
      prg = c.prg;
      message = cfg.message;
      target_namespaces = cfg.target_namespaces;
    },
    rw (c.there, c.compiled, c.is_bool, c.programmed) refl,
  )

  -- An expression that compiles in the environment of issuance rules.
  abbrev pub Compiles : String → Type 0
  Compiles expression = (env : Env) × (new_issuance_env cel ≡ ok env) × CompilesIn env expression

  one_env : (x : String) (env : Env) → new_issuance_env cel ≡ ok env → Compiles x → CompilesIn env x
  one_env x env there (other, made, k) =
      subst (λ e. CompilesIn e x) (ok_inj (new_issuance_env cel) made there) k

  compile_from-All :
      (env : Env) (i : ℕ) (cfgs : List IssuanceRuleConfig) (rs : List (Rules.IssuanceRule cel))
      → compile_from cel env i cfgs ≡ ok rs
      → All (λ cfg. CompilesIn env cfg.cel) cfgs
  unfolding compile_from
  compile_from-All env i [] rs e = tt
  compile_from-All env i (cfg ∷ cfgs) rs e =
      let (r, one, e') = bind-eq-ok _ _ e in
      let (rest, more, _) = bind-eq-ok _ _ e' in
      (compile_rule-CompilesIn env i cfg r one, compile_from-All env (i + 1) cfgs rest more)

  All-compile_from :
      (env : Env) (i : ℕ) (cfgs : List IssuanceRuleConfig)
      → All (λ cfg. CompilesIn env cfg.cel) cfgs
      → (rs : List (Rules.IssuanceRule cel)) × (compile_from cel env i cfgs ≡ ok rs)
  unfolding compile_from
  All-compile_from env i [] _ = ([], refl)
  All-compile_from env i (cfg ∷ cfgs) (c, cs) =
      let (r, one) = CompilesIn-compile_rule env i cfg c in
      let (rs, more) = All-compile_from env (i + 1) cfgs cs in (r ∷ rs, rw (one, more) refl)

  -- `CompileIssuanceRules` succeeds exactly when every expression compiles by itself.
  pub compile_issuance_rules_iff :
      (cfgs : List IssuanceRuleConfig)
      → ((rs : List (Rules.IssuanceRule cel)) × (compile_issuance_rules cel cfgs ≡ ok rs))
        ↔ All (λ cfg. Compiles cfg.cel) cfgs
  unfolding compile_issuance_rules
  compile_issuance_rules_iff [] = ((λ _. tt), (λ _. ([], refl)))
  compile_issuance_rules_iff (cfg ∷ cfgs) = (
    (λ (rs, e).
        let (env, made, all_compiled) = bind-eq-ok _ _ e in
        let there = map_err-eq-ok _ _ made in
        All-map (λ c. CompilesIn env c.cel) (λ c. Compiles c.cel) (cfg ∷ cfgs)
          (λ c k. (env, there, k)) (compile_from-All env 0 (cfg ∷ cfgs) rs all_compiled)),
    (λ (c, cs).
        let (env, there, first) = c in
        let same =
          All-map (λ d. Compiles d.cel) (λ d. CompilesIn env d.cel) cfgs
            (λ d k. one_env d.cel env there k) cs in
        let (rs, e) = All-compile_from env 0 (cfg ∷ cfgs) (first, same) in (rs, rw (there) e)),
  )

  -- One rule by itself.
  compile_single :
      (cfg : IssuanceRuleConfig) (rs : List (Rules.IssuanceRule cel))
      → compile_issuance_rules cel (cfg ∷ []) ≡ ok rs
      → Compiles cfg.cel
  compile_single cfg rs e = ((compile_issuance_rules_iff (cfg ∷ [])).0 (rs, e)).0

  single-Compiles :
      (cfg : IssuanceRuleConfig)
      → Compiles cfg.cel
      → (rs : List (Rules.IssuanceRule cel)) × (compile_issuance_rules cel (cfg ∷ []) ≡ ok rs)
  single-Compiles cfg c = (compile_issuance_rules_iff (cfg ∷ [])).1 (c, tt)

  compile_each_ok :
      (cfg : IssuanceRuleConfig) (cfgs : List IssuanceRuleConfig)
      (rs : List (Rules.IssuanceRule cel))
      → compile_issuance_rules cel (cfg ∷ []) ≡ ok rs
      → compile_each cel (cfg ∷ cfgs) ≡ compile_each cel cfgs
  unfolding compile_each
  compile_each_ok cfg cfgs rs e = rw (e, compile_each) refl

  compile_each_err :
      (cfg : IssuanceRuleConfig) (cfgs : List IssuanceRuleConfig) (x : CompileError)
      → compile_issuance_rules cel (cfg ∷ []) ≡ err x
      → compile_each cel (cfg ∷ cfgs)
        ≡ record { rule_name = cfg.name; error = x } ∷ compile_each cel cfgs
  unfolding compile_each
  compile_each_err cfg cfgs x e = rw (e, compile_each) refl

  compile_each_none :
      (cfgs : List IssuanceRuleConfig)
      → All (λ cfg. Compiles cfg.cel) cfgs
      → compile_each cel cfgs ≡ []
  unfolding compile_each
  compile_each_none [] _ = refl
  compile_each_none (cfg ∷ cfgs) (c, cs) =
      let (rs, e) = single-Compiles cfg c in
      compile_each_ok cfg cfgs rs e ∙ compile_each_none cfgs cs

  -- Compiling all issuance rules at once first gives the same errors as compiling each by itself.
  pub validate_issuance_cel-compile_each :
      (rules : List NamedCel)
      → validate_issuance_cel cel rules ≡ compile_each cel (map config_of rules)
  unfolding validate_issuance_cel
  validate_issuance_cel-compile_each rules =
      elim (Outcome-cases (compile_issuance_rules cel (map config_of rules))) [
        | inl (rs, e) ↦
            rw (e, validate_issuance_cel)
              (sym (
                compile_each_none (map config_of rules)
                  ((compile_issuance_rules_iff (map config_of rules)).0 (rs, e))))
        | inr (x, e) ↦ rw (e, validate_issuance_cel) refl
      ]

  -- The name is that of an error.
  abbrev IsBroken : String → List IssuanceCelError → Type 0
  IsBroken n errors = In n (map (λ e. e.rule_name) errors)

  -- A rule whose name is not among the broken ones compiles.
  kept-Compiles :
      (irs : List NamedCel) (broken : List String)
      → ((n : String)
          → In n (map (λ e. e.rule_name) (compile_each cel (map config_of irs)))
          → In n broken)
      → All (λ ir. contains broken ir.name ≡ false → Compiles ir.cel) irs
  unfolding compile_each
  kept-Compiles [] broken h = tt
  kept-Compiles (ir ∷ irs) broken h =
      elim (Outcome-cases (compile_issuance_rules cel (config_of ir ∷ []))) [
        | inl (rs, e) ↦
            let same = compile_each_ok (config_of ir) (map config_of irs) rs e in
            (
              (λ _. compile_single (config_of ir) rs e),
              kept-Compiles irs broken (λ n m. h n (subst (IsBroken n) (sym same) m)),
            )
        | inr (x, e) ↦
            let same = compile_each_err (config_of ir) (map config_of irs) x e in
            (
              (λ f. cc (
                f,
                h ir.name (subst (IsBroken ir.name) (sym same) (rw (test_refl ir.name) refl)),
              )),
              kept-Compiles irs broken
                  (λ n m. h n (subst (IsBroken n) (sym same) (rw m (or_true (ir.name == n))))),
            )
      ]

  publishable-All :
      (policy : TokenPolicy) (broken : List String) (irs : List NamedCel)
      → All (λ ir. contains broken ir.name ≡ false → Compiles ir.cel) irs
      → All (λ r. Compiles r.cel) (publishable policy broken irs)
  unfolding publishable
  publishable-All policy broken [] _ = tt
  publishable-All policy broken (ir ∷ irs) (c, cs) = elim (Bool-cases (contains broken ir.name)) [
    | inl gone ↦ rw gone (publishable-All policy broken irs cs)
    | inr stays ↦ rw stays (c stays, publishable-All policy broken irs cs)
  ]

  rules_of-All : (policy : TokenPolicy) → All (λ r. Compiles r.cel) (rules_of cel policy)
  unfolding rules_of
  rules_of-All policy = publishable-All policy _ policy.spec.issuance_rules (
      kept-Compiles policy.spec.issuance_rules _
        (λ n m. rw (validate_issuance_cel-compile_each policy.spec.issuance_rules) m))

  pub rules_of_all-All :
      (policies : List TokenPolicy) → All (λ r. Compiles r.cel) (rules_of_all cel policies)
  unfolding rules_of_all
  rules_of_all-All [] = tt
  rules_of_all-All (policy ∷ policies) =
      All-append (λ r. Compiles r.cel) (rules_of cel policy) (rules_of_all cel policies)
        (rules_of-All policy) (rules_of_all-All policies)

  pub configs-All :
      (rules : List IssuanceRule)
      → All (λ r. Compiles r.cel) rules
      → All (λ cfg. Compiles cfg.cel) (map Setter.config_of rules)
  unfolding Setter.config_of
  configs-All [] _ = tt
  configs-All (r ∷ rs) (c, cs) = (c, configs-All rs cs)

  -- Whatever policies there are, the token service compiles all the issuance rules that the
  -- controller publishes for them.
  pub rules_of_all-accepted :
      {jwt : Jwt} (h : Handler jwt cel) (policies : List TokenPolicy)
      → (apply_issuance_rules h (rules_of_all cel policies)).1 ≡ ok tt
  unfolding apply_issuance_rules
  rules_of_all-accepted h policies =
      let (rs, e) =
        (compile_issuance_rules_iff (map Setter.config_of (rules_of_all cel policies))).1
          (configs-All _ (rules_of_all-All policies)) in
      rw (e, apply_issuance_rules) refl
