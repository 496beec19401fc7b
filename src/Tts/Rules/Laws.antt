-- ===== src/Tts/Rules/Laws.antt =====
-- What the evaluation of issuance rules guarantees.
use kontxt.Base.{
  String, ◌≡◌, refl, sym, ◌∙◌, ◌≢◌, ◌↔◌, ◌⊎◌, inl, inr, Bool, true, false, List, [], ◌∷◌, arith,
  eq_iff, Eq_nat, Eq_string, Bool-cases, keep, All, In, Outcome, ok, err, Outcome-cases,
}
use mathlib.Core.Bool.{false≢true}
use kontxt.Base.Maps.{Map}
use kontxt.Any.{Any}
use kontxt.Cel.{Cel, CelValue, bool_value, string_value, other_value}
use kontxt.Tts.Rules.{IssuanceRule, rule_applies_to_namespace, verdict, check_rule, check_rules}

abbrev pub AppliesTo : List String → String → Type 0
AppliesTo targets ns = (targets ≡ []) ⊎ ((ns ≢ "") × In ns targets)

-- A rule applies when it has no targets, or when the namespace is known and one of them.
pub rule_applies_to_namespace_iff :
    (targets : List String) (ns : String)
    → (rule_applies_to_namespace targets ns ≡ true) ↔ AppliesTo targets ns
unfolding rule_applies_to_namespace
rule_applies_to_namespace_iff [] ns = ground arith
rule_applies_to_namespace_iff (t ∷ ts) ns = ground (arith, eq_iff ns "")

module _ (cel : Cel) where
  -- A rule that applies evaluates to true.
  abbrev pub Passes : String → Map String Any → IssuanceRule cel → Type 0
  Passes ns activation rule =
      AppliesTo rule.target_namespaces ns → cel.eval rule.prg activation ≡ ok (bool_value true)

  verdict_iff :
      (rule : IssuanceRule cel) (r : Outcome String CelValue)
      → (verdict cel rule r ≡ ok tt) ↔ (r ≡ ok (bool_value true))
  unfolding verdict
  verdict_iff rule (err e) = ground arith
  verdict_iff rule (ok (bool_value true)) = ground arith
  verdict_iff rule (ok (bool_value false)) = ground arith
  verdict_iff rule (ok (string_value s)) = ground arith
  verdict_iff rule (ok (other_value v)) = ground arith

  pub check_rule_iff :
      (ns : String) (activation : Map String Any) (rule : IssuanceRule cel)
      → (check_rule cel ns activation rule ≡ ok tt) ↔ Passes ns activation rule
  unfolding check_rule
  check_rule_iff ns activation rule =
      elim (Bool-cases (rule_applies_to_namespace rule.target_namespaces ns)) [
        | inl applies ↦ rw applies (
          (λ e _. (verdict_iff rule _).0 e),
          (λ h. (verdict_iff rule _).1 (h ((rule_applies_to_namespace_iff _ _).0 applies))),
        )
        | inr skipped ↦ rw skipped (
          (λ _ h. absurd (false≢true (sym skipped ∙ (rule_applies_to_namespace_iff _ _).1 h))),
          (λ _. refl),
        )
      ]

  -- The issuance rules pass exactly when every rule that applies to the namespace evaluates to
  -- true.
  pub check_rules_iff :
      (ns : String) (activation : Map String Any) (rules : List (IssuanceRule cel))
      → (check_rules cel ns activation rules ≡ ok tt) ↔ All (Passes ns activation) rules
  unfolding check_rules
  check_rules_iff ns activation [] = ground arith
  check_rules_iff ns activation (rule ∷ rules) =
      elim (Outcome-cases (check_rule cel ns activation rule)) [
        | inl (_, passed) ↦ rw passed (
          (λ e. (
            (check_rule_iff ns activation rule).0 passed,
            (check_rules_iff ns activation rules).0 e,
          )),
          (λ h. (check_rules_iff ns activation rules).1 h.1),
        )
        | inr (e, failed) ↦
            rw failed ((λ h. cc), (λ h. cc ((check_rule_iff ns activation rule).1 h.0)))
      ]

  -- The rules that hold for every namespace.
  abbrev pub is_cluster_wide : IssuanceRule cel → Bool
  is_cluster_wide rule = elim rule.target_namespaces [ [] ↦ true | _ ↦ false ]

  -- Without a namespace, only the rules without targets are evaluated.
  pub check_rules_no_namespace :
      (activation : Map String Any) (rules : List (IssuanceRule cel))
      → check_rules cel "" activation rules
        ≡ check_rules cel "" activation (keep is_cluster_wide rules)
  unfolding check_rules check_rule rule_applies_to_namespace
  check_rules_no_namespace activation [] = refl
  check_rules_no_namespace activation (rule ∷ rules) =
      ground (arith, eq_iff "" "", check_rules_no_namespace activation rules)
