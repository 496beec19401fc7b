-- ===== src/Controller/Policy/Laws.antt =====
-- Compliance with a policy, the clamped lifetime, and which policy applies.
use kontxt.Base.{
  String, ◌≡◌, refl, ◌≢◌, ◌↔◌, ◌⊎◌, inl, inr, true, false, none, some, List, [], ◌∷◌, ◌++◌, arith,
  eq_iff, Eq_nat, Eq_string, Bool-cases, Option-cases, All, contains, Outcome, Outcome-cases,
}
use kontxt.Base.Integers.{ℤ, exceeds, pos, negsuc}
use kontxt.Crd.{TransactionType, TctxEnrichment, TokenPolicy}
use kontxt.Controller.Policy.{
  longer, lifetime_violations, produces, field_violations, matching_enrichers, enricher_violations,
  validate_against_policy, clamp, clamp_token_lifetime, find_default, find_matching,
  find_applicable_policy,
}

exceeds_irrefl : (a : ℤ) → exceeds a a ≡ false
exceeds_irrefl (pos n) = ground arith
exceeds_irrefl (negsuc n) = ground arith

append-eq-nil : {A : Type 0} (xs ys : List A) → xs ++ ys ≡ [] → (xs ≡ []) × (ys ≡ [])
append-eq-nil [] ys e = (refl, e)
append-eq-nil (x ∷ xs) ys e = cc

nil-append : {A : Type 0} (xs ys : List A) → xs ≡ [] → ys ≡ [] → xs ++ ys ≡ []
nil-append [] ys _ e = e
nil-append (x ∷ xs) ys e _ = cc

module _ (parse_duration : String → Outcome String ℤ) where
  longer_irrefl : (a : String) → longer parse_duration a a ≡ false
  unfolding longer
  longer_irrefl a = elim (Outcome-cases (parse_duration a)) [
    | inl (n, e) ↦ rw (e, e, longer) (exceeds_irrefl n)
    | inr (x, e) ↦ rw (e, longer) refl
  ]

  -- Where the policy has a maximum, the clamped lifetime is not longer than it, or one of the two
  -- does not parse as a duration.
  pub clamp_token_lifetime-longer :
      (requested max_lifetime default_lifetime : String)
      → max_lifetime ≢ ""
      → longer parse_duration
          (clamp_token_lifetime parse_duration requested max_lifetime default_lifetime)
          max_lifetime
        ≡ false
  unfolding clamp_token_lifetime clamp
  clamp_token_lifetime-longer requested max_lifetime default_lifetime there =
      ground (arith, eq_iff max_lifetime "", longer_irrefl max_lifetime)

  -- What a policy asks of a transaction type.
  pub record Complies (txn : TransactionType) (policy : TokenPolicy) : Type 0 where
    pub lifetime :
        (policy.spec.constraints.max_token_lifetime ≡ "")
        ⊎ (txn.spec.token_lifetime ≡ "")
        ⊎ (longer parse_duration txn.spec.token_lifetime policy.spec.constraints.max_token_lifetime
            ≡ false)
    pub mandatory :
        All
          (λ f. (f ≡ "purpose") ⊎ (produces parse_duration txn f ≡ true))
          policy.spec.constraints.mandatory_tctx_fields
    pub enrichers :
        All
          (λ e. contains policy.spec.constraints.disallowed_enrichers e.enricher ≡ false)
          txn.spec.tctx_enrichments

  lifetime_iff :
      (max_lifetime lifetime : String)
      → (lifetime_violations parse_duration max_lifetime lifetime ≡ []) ↔ (
          (max_lifetime ≡ "")
          ⊎ (lifetime ≡ "")
          ⊎ (longer parse_duration lifetime max_lifetime ≡ false))
  unfolding lifetime_violations
  lifetime_iff max_lifetime lifetime = ground (arith, eq_iff max_lifetime "", eq_iff lifetime "")

  field_iff :
      (txn : TransactionType) (fs : List String)
      → (field_violations parse_duration txn fs ≡ [])
        ↔ All (λ f. (f ≡ "purpose") ⊎ (produces parse_duration txn f ≡ true)) fs
  unfolding field_violations
  field_iff txn [] = ((λ _. tt), (λ _. refl))
  field_iff txn (f ∷ fs) = ground (arith, eq_iff f "purpose", field_iff txn fs)

  matching_iff :
      (e : TctxEnrichment) (ds : List String)
      → (matching_enrichers parse_duration e ds ≡ []) ↔ (contains ds e.enricher ≡ false)
  unfolding matching_enrichers
  matching_iff e [] = ((λ _. refl), (λ _. refl))
  matching_iff e (d ∷ ds) =
      ground (arith, eq_iff e.enricher d, eq_iff d e.enricher, matching_iff e ds)

  enricher_iff :
      (es : List TctxEnrichment) (ds : List String)
      → (enricher_violations parse_duration es ds ≡ [])
        ↔ All (λ e. contains ds e.enricher ≡ false) es
  unfolding enricher_violations
  enricher_iff [] ds = ((λ _. tt), (λ _. refl))
  enricher_iff (e ∷ es) ds = (
    (λ h. let (a, b) = append-eq-nil _ _ h in ((matching_iff e ds).0 a, (enricher_iff es ds).0 b)),
    (λ h. nil-append _ _ ((matching_iff e ds).1 h.0) ((enricher_iff es ds).1 h.1)),
  )

  -- A transaction type has no violation exactly when its lifetime is not longer than the maximum,
  -- it produces the mandatory fields, and it uses no disallowed enricher.
  pub validate_against_policy_iff :
      (txn : TransactionType) (policy : TokenPolicy)
      → (validate_against_policy parse_duration txn (some policy) ≡ []) ↔ Complies txn policy
  unfolding validate_against_policy
  validate_against_policy_iff txn policy =
      let limits = policy.spec.constraints in
      (
        (λ h.
            let (ab, c) = append-eq-nil _ _ h in
            let (a, b) = append-eq-nil _ _ ab in
            record {
              lifetime = (lifetime_iff limits.max_token_lifetime txn.spec.token_lifetime).0 a;
              mandatory = (field_iff txn limits.mandatory_tctx_fields).0 b;
              enrichers = (enricher_iff txn.spec.tctx_enrichments limits.disallowed_enrichers).0 c;
            }),
        (λ h.
            nil-append _ _
              (nil-append _ _
                ((lifetime_iff limits.max_token_lifetime txn.spec.token_lifetime).1 h.lifetime)
                ((field_iff txn limits.mandatory_tctx_fields).1 h.mandatory))
              ((enricher_iff txn.spec.tctx_enrichments limits.disallowed_enrichers).1 h.enrichers)),
      )

find_default-none :
    (policies : List TokenPolicy) (namespace : String)
    → find_matching policies namespace ≡ none
    → find_default policies ≡ none
unfolding find_matching find_default
find_default-none [] namespace e = refl
find_default-none (policy ∷ policies) namespace e =
    elim (Option-cases policy.spec.target_namespaces) [
      | inl everywhere ↦ cc (rw (everywhere, find_matching) at e)
      | inr (selector, there) ↦ elim (Bool-cases (contains selector.match_names namespace)) [
        | inl named ↦ cc (rw (there, named, find_matching) at e)
        | inr others ↦
            rw (there, find_default)
              (find_default-none policies namespace (rw (there, others, find_matching) at e))
      ]
    ]

-- The search for a default policy never finds one where the search by namespace finds none.
pub find_applicable_policy-find_matching :
    (policies : List TokenPolicy) (namespace : String)
    → find_applicable_policy policies namespace ≡ find_matching policies namespace
unfolding find_applicable_policy
find_applicable_policy-find_matching policies namespace =
    elim (Option-cases (find_matching policies namespace)) [
      | inl missing ↦
          rw (missing, find_applicable_policy) (find_default-none policies namespace missing)
      | inr (policy, there) ↦ rw (there, find_applicable_policy) refl
    ]
