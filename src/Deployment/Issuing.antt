-- ===== src/Deployment/Issuing.antt =====
-- The token service with the issuance rules of the controller.
use kontxt.Base.{
  ℕ, ◌+◌, String, ◌≡◌, refl, sym, ap, inl, inr, true, some, List, [], ◌∷◌, map, arith, ◌==◌, Eq_nat,
  Eq_string, Bool-cases, All, ok, map_err-eq-ok, bind-eq-ok, guard-eq-ok, subst, ok_inj,
}
use mathlib.Core.List.Permᴰ
use kontxt.Base.Maps.{Map, lookup}
use kontxt.Base.Perm.{All-perm}
use kontxt.Base.Sorting.Laws.{sort-Permᴰ}
use kontxt.Any.{Any}
use kontxt.Cel.{Cel, bool_value, is_bool_type}
use kontxt.Jwt.{Jwt}
use kontxt.Crd.{TokenPolicy}
use kontxt.Authn.{SubjectInfo, authenticate}
use kontxt.Rules.{IssuanceRule}
use kontxt.Tts.Rules
use kontxt.Tts.Rules.{
  IssuanceRuleConfig, new_issuance_env, compile_rule, compile_from, compile_issuance_rules,
}
use kontxt.Tts.Rules.Laws.{AppliesTo, Passes}
use kontxt.Tts.Request.{HttpRequest, TokenExchangeRequest, identify_workload}
use kontxt.Tts.Handler.{Handler, World, handle_issuance, load_issuance_rules, set_issuance_rules}
use kontxt.Tts.Handler.Laws.{policy_activation, Issued, handle_issuance-Issued}
use kontxt.Controller.Issuance.{rules_of_all}
use kontxt.Controller.Issuance.Laws.{
  CompilesIn, Compiles, compile_issuance_rules_iff, configs-All, rules_of_all-All,
}
use kontxt.Distribution.Client.{values, flatten, issuance_lt}
use kontxt.Distribution.Setter.{config_of, apply_issuance_rules}
use kontxt.Distribution.Sync.{Server, View, Run}
use kontxt.Distribution.Sync.Ordered.{Run-perm}
use kontxt.Distribution.Kinds.{issuance_kind}

module _ (cel : Cel) (activation : Map String Any) where
  -- The expression compiles, and it is true where the rule applies without a namespace.
  pub record IsEnforced (expression : String) (targets : List String) : Type 0 where
    pub env : cel.Env
    pub made : new_issuance_env cel ≡ ok env
    pub compiles : CompilesIn cel env expression
    pub passes : AppliesTo targets "" → cel.eval compiles.prg activation ≡ ok (bool_value true)

  compile_rule-IsEnforced :
      (env : cel.Env) (i : ℕ) (cfg : IssuanceRuleConfig) (r : Rules.IssuanceRule cel)
      → new_issuance_env cel ≡ ok env
      → compile_rule cel env i cfg ≡ ok r
      → Passes cel "" activation r
      → IsEnforced cfg.cel cfg.target_namespaces
  unfolding compile_rule
  compile_rule-IsEnforced env i cfg r made e passes = elim (Bool-cases (cfg.cel == "")) [
    | inl empty ↦ absurd (ground (arith, (rw empty at e)))
    | inr there ↦
        let (ast, c, e') = bind-eq-ok _ _ (rw there at e) in
        let (b, e'') = guard-eq-ok (is_bool_type (cel.output_type ast)) _ _ e' in
        let (prg, p, e''') = bind-eq-ok _ _ e'' in
        let same = ok_inj _ e''' refl in
        record {
          env = env;
          made = made;
          compiles = record {
            ast = ast;
            prg = prg;
            there = there;
            compiled = map_err-eq-ok _ _ c;
            is_bool = b;
            programmed = map_err-eq-ok _ _ p;
          };
          passes = subst (λ (x : Rules.IssuanceRule cel). Passes cel "" activation x) same passes;
        }
  ]

  compile_from-IsEnforced :
      (env : cel.Env) (i : ℕ) (cfgs : List IssuanceRuleConfig) (rs : List (Rules.IssuanceRule cel))
      → new_issuance_env cel ≡ ok env
      → compile_from cel env i cfgs ≡ ok rs
      → All (Passes cel "" activation) rs
      → All (λ cfg. IsEnforced cfg.cel cfg.target_namespaces) cfgs
  unfolding compile_from
  compile_from-IsEnforced env i [] rs made e passes = tt
  compile_from-IsEnforced env i (cfg ∷ cfgs) rs made e passes =
      let (r, one, e') = bind-eq-ok _ _ e in
      let (rest, more, e'') = bind-eq-ok _ _ e' in
      let both_pass : All (Passes cel "" activation) (r ∷ rest) =
        subst (λ l. All (Passes cel "" activation) l) (ok_inj _ refl (sym e'')) passes in
      (
        compile_rule-IsEnforced env i cfg r made one both_pass.0,
        compile_from-IsEnforced env (i + 1) cfgs rest made more both_pass.1,
      )

  compile_issuance_rules-IsEnforced :
      (cfgs : List IssuanceRuleConfig) (rs : List (Rules.IssuanceRule cel))
      → compile_issuance_rules cel cfgs ≡ ok rs
      → All (Passes cel "" activation) rs
      → All (λ cfg. IsEnforced cfg.cel cfg.target_namespaces) cfgs
  unfolding compile_issuance_rules
  compile_issuance_rules-IsEnforced [] rs e passes = tt
  compile_issuance_rules-IsEnforced (cfg ∷ cfgs) rs e passes =
      let (env, made, compiled) = bind-eq-ok _ _ e in
      compile_from-IsEnforced env 0 (cfg ∷ cfgs) rs (map_err-eq-ok _ _ made) compiled passes

  config_of-All :
      (rules : List IssuanceRule)
      → All (λ cfg. IsEnforced cfg.cel cfg.target_namespaces) (map config_of rules)
      → All (λ r. IsEnforced r.cel r.target_namespaces) rules
  unfolding config_of
  config_of-All [] h = tt
  config_of-All (r ∷ rs) (h, hs) = (h, config_of-All rs hs)

module _ (cel : Cel) (id : ℕ) {st : Server issuance_kind id} {m : View issuance_kind id}
    (run : Run issuance_kind id st m) (empty : lookup id st.subscribers ≡ some []) where
  flatten-All : (P : IssuanceRule → Type 0) → All P (flatten m) → All P st.rules
  unfolding flatten
  flatten-All P h =
      All-perm P (Run-perm issuance_kind id run empty)
        (All-perm P (sort-Permᴰ issuance_lt (values m)) h)

  All-flatten : (P : IssuanceRule → Type 0) → All P st.rules → All P (flatten m)
  unfolding flatten
  All-flatten P h =
      All-perm P (Permᴰ.symm (sort-Permᴰ issuance_lt (values m)))
        (All-perm P (Permᴰ.symm (Run-perm issuance_kind id run empty)) h)

  -- The rules compile, whatever their order.
  flatten-compiles :
      (policies : List TokenPolicy)
      → st.rules ≡ rules_of_all cel policies
      → (rs : List (Rules.IssuanceRule cel)) × (compile_issuance_rules cel
            (map config_of (flatten m))
          ≡ ok rs)
  flatten-compiles policies published =
      (compile_issuance_rules_iff cel (map config_of (flatten m))).1 (
        configs-All cel (flatten m) (
          All-flatten (λ r. Compiles cel r.cel)
            (subst (λ l. All (λ r. Compiles cel r.cel) l) (sym published)
              (rules_of_all-All cel policies))))

  applied_rules :
      {jwt : Jwt} (h : Handler jwt cel) (rs : List (Rules.IssuanceRule cel))
      → compile_issuance_rules cel (map config_of (flatten m)) ≡ ok rs
      → apply_issuance_rules h (flatten m) ≡ (set_issuance_rules h rs, ok tt)
  unfolding apply_issuance_rules
  applied_rules h rs compiled = rw (compiled, apply_issuance_rules) refl

  pub apply_issuance_rules-flatten :
      {jwt : Jwt} (h : Handler jwt cel) (policies : List TokenPolicy)
      → st.rules ≡ rules_of_all cel policies
      → (apply_issuance_rules h (flatten m)).1 ≡ ok tt
  apply_issuance_rules-flatten h policies published =
      let (rs, compiled) = flatten-compiles policies published in
      ap (λ x. x.1) (applied_rules h rs compiled)

  -- A token that is issued with these rules was allowed by each of them.
  pub handle_issuance-flatten :
      {jwt : Jwt} (h : Handler jwt cel) (w : World) (policies : List TokenPolicy) (r : HttpRequest)
      (req : TokenExchangeRequest) (s : String)
      → st.rules ≡ rules_of_all cel policies
      → handle_issuance (apply_issuance_rules h (flatten m)).0 w r req ≡ ok s
      → (info : SubjectInfo) × (authenticate w.payload_issuer h.router req.subject_token ≡ ok info)
        × All
            (λ rule.
              IsEnforced cel
                (policy_activation h w info (identify_workload r) req)
                rule.cel
                rule.target_namespaces)
            (rules_of_all cel policies)
  unfolding set_issuance_rules load_issuance_rules
  handle_issuance-flatten {jwt} h w policies r req s published issuance =
      let (rs, compiled) = flatten-compiles policies published in
      let applied = applied_rules h rs compiled in
      let given : Issued (set_issuance_rules h rs) w r req s =
        handle_issuance-Issued (set_issuance_rules h rs) w r req s (
          subst (λ (x : Handler jwt cel). handle_issuance x w r req ≡ ok s) (ap (λ x. x.0) applied)
            issuance) in
      (
        given.info,
        given.authenticated,
        subst
            (λ l.
              All
                (λ rule.
                  IsEnforced cel (policy_activation h w given.info (identify_workload r) req)
                    rule.cel rule.target_namespaces)
                l)
            published
            (flatten-All _ (
              config_of-All cel (policy_activation h w given.info (identify_workload r) req)
                (flatten m)
                (compile_issuance_rules-IsEnforced cel _ (map config_of (flatten m)) rs compiled
                  given.allowed))),
      )
