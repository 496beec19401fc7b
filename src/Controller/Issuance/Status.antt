-- ===== src/Controller/Issuance/Status.antt =====
-- The conditions that a reconciled policy has.
use kontxt.Base.{String, ◌≡◌, refl, ◌∙◌, ◌⊎◌, inl, inr, Option, some, List, [], ◌∷◌}
use kontxt.Cel.{Cel}
use kontxt.Crd.{TokenPolicy}
use kontxt.Controller.Conditions.Laws.{status_of, status_of-set_condition}
use kontxt.Controller.Issuance.{Cluster, IssuanceCelError, validate_issuance_cel, with_status}

-- The status for these errors.
abbrev pub verdict : List IssuanceCelError → String
verdict [] = "True"
verdict (_ ∷ _) = "False"

errors_cases :
    (es : List IssuanceCelError)
    → (es ≡ []) ⊎ ((x : IssuanceCelError) × (xs : List IssuanceCelError) × (es ≡ x ∷ xs))
errors_cases [] = inl refl
errors_cases (x ∷ xs) = inr (x, xs, refl)

module _ (cel : Cel) (c : Cluster) where
  -- Both conditions of a policy.
  abbrev pub ready_of : TokenPolicy → Option String
  ready_of policy = status_of "Ready" (with_status cel c policy).conditions

  abbrev pub compliant_of : TokenPolicy → Option String
  compliant_of policy = status_of "PolicyCompliant" (with_status cel c policy).conditions

  -- Both conditions of a reconciled policy are True when all its issuance rules compile, and else
  -- False.
  pub with_status-status_of :
      (policy : TokenPolicy)
      → (ready_of policy ≡ some (verdict (validate_issuance_cel cel policy.spec.issuance_rules)))
        × (compliant_of policy
            ≡ some (verdict (validate_issuance_cel cel policy.spec.issuance_rules)))
  unfolding with_status
  with_status-status_of policy =
      elim (errors_cases (validate_issuance_cel cel policy.spec.issuance_rules)) [
        | inl good ↦
            rw (good, with_status)
              (
                status_of-set_condition "Ready" c.now _ "Ready" _ _ _,
                status_of-set_condition "PolicyCompliant" c.now _ "Ready" _ _ _
                    ∙ status_of-set_condition "PolicyCompliant" c.now _ "PolicyCompliant" _ _ _,
              )
        | inr (e, es, bad) ↦
            rw (bad, with_status)
              (
                status_of-set_condition "Ready" c.now _ "Ready" _ _ _,
                status_of-set_condition "PolicyCompliant" c.now _ "Ready" _ _ _
                    ∙ status_of-set_condition "PolicyCompliant" c.now _ "PolicyCompliant" _ _ _,
              )
      ]
