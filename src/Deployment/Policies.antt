-- ===== src/Deployment/Policies.antt =====
-- The issuance rules of policies among those that the controller publishes.
use kontxt.Base.{
  String, ◌≡◌, ◌⊎◌, inl, inr, true, List, [], ◌∷◌, ◌++◌, map, Eq_string, Bool-cases, All, contains,
  Outcome, ok, err,
}
use kontxt.Cel.{Cel}
use kontxt.Crd.{NamedCel, TokenPolicy}
use kontxt.Rules.{IssuanceRule}
use kontxt.Controller.Issuance.{
  publishable, resolve_target_namespaces, validate_issuance_cel, rules_of, rules_of_all,
}

-- What holds of the value, where there is one.
abbrev pub OnOk {ℓ κ} : {E : Type 0} {A : Type ℓ} → (A → Type κ) → Outcome E A → Type κ
OnOk P (ok a) = P a
OnOk P (err e) = Unit

-- The rule that is published for one of a policy.
abbrev pub rule_for : TokenPolicy → NamedCel → IssuanceRule
rule_for policy ir = record {
  policy_namespace = "";
  policy_name = policy.name;
  rule_name = ir.name;
  cel = ir.cel;
  message = ir.message;
  target_namespaces = resolve_target_namespaces policy.spec.target_namespaces;
}

All-split {ℓ κ} :
    {A : Type ℓ} (P : A → Type κ) (xs ys : List A) → All P (xs ++ ys) → All P xs × All P ys
All-split P [] ys h = (tt, h)
All-split P (x ∷ xs) ys (p, h) = let (hs, ks) = All-split P xs ys h in ((p, hs), ks)

module _ (cel : Cel) where
  -- The controller reports the name of the rule as one of a rule that does not compile.
  abbrev pub IsReported : TokenPolicy → NamedCel → Type 0
  IsReported policy ir =
      contains (map (λ e. e.rule_name) (validate_issuance_cel cel policy.spec.issuance_rules))
        ir.name
      ≡ true

  module _ (P : IssuanceRule → Type 0) where
    publishable-split :
        (policy : TokenPolicy) (broken : List String) (irs : List NamedCel)
        → All P (publishable policy broken irs)
        → All (λ ir. (contains broken ir.name ≡ true) ⊎ P (rule_for policy ir)) irs
    unfolding publishable
    publishable-split policy broken [] h = tt
    publishable-split policy broken (ir ∷ irs) h = elim (Bool-cases (contains broken ir.name)) [
      | inl gone ↦ (inl gone, publishable-split policy broken irs (rw (gone, publishable) at h))
      | inr stays ↦
          let (p, rest) : All P (rule_for policy ir ∷ publishable policy broken irs) =
            rw (stays, publishable) at h in
          (inr p, publishable-split policy broken irs rest)
    ]

    -- What holds of all published rules holds of the rules of every policy that are not reported.
    pub rules_of_all-split :
        (policies : List TokenPolicy)
        → All P (rules_of_all cel policies)
        → All
            (λ policy.
              All (λ ir. IsReported policy ir ⊎ P (rule_for policy ir)) policy.spec.issuance_rules)
            policies
    unfolding rules_of_all rules_of
    rules_of_all-split [] h = tt
    rules_of_all-split (policy ∷ policies) h =
        let (here, rest) = All-split P (rules_of cel policy) (rules_of_all cel policies) h in
        (
          publishable-split policy _ policy.spec.issuance_rules here,
          rules_of_all-split policies rest,
        )
