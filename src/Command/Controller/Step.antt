-- ===== src/Command/Controller/Step.antt =====
-- What one call of a reconciler publishes.
use kontxt.Base.{
  String, ◌≡◌, refl, inl, inr, Bool, true, false, List, map, if◌then◌else◌, Bool-cases, Outcome, ok,
  err, Outcome-cases,
}
use kontxt.Cel.{Cel}
use kontxt.Crd.{TransactionType, ServiceTokenRequirement, TokenPolicy}
use kontxt.Controller.Conditions.{Fetched, found, not_found, get_failed}
use kontxt.Controller.Generation
use kontxt.Controller.Verification
use kontxt.Controller.Issuance
use kontxt.Distribution.Server.{
  RuleServer, update_generation_rules, update_verification_rules, update_issuance_rules,
}
use kontxt.Command.Controller.{perform}

-- Whether a call of a reconciler gets to its listing: the resource was found and its status updated, or
-- it is gone.
abbrev pub reaches : {T : Type 0} → Fetched T → Outcome String (Unit {0}) → Bool
reaches not_found status = true
reaches (get_failed e) status = false
reaches (found t) (ok _) = true
reaches (found t) (err e) = false

-- What a list makes of the old value, where the call gets to a list.
abbrev pub next {ℓ} :
    {T : Type 0} {S : Type ℓ}
    → (List T → S)
    → Fetched T
    → Outcome String (Unit {0})
    → Outcome String (List T)
    → S
    → S
next g fetched status listed old =
    if reaches fetched status then elim listed [ ok items ↦ g items | err _ ↦ old ] else old

pub next-natural {ℓ κ} :
    {T : Type 0} {S : Type ℓ} {S' : Type κ} (h : S → S') (g : List T → S) (fetched : Fetched T)
    (status : Outcome String (Unit {0})) (listed : Outcome String (List T)) (old : S)
    → h (next g fetched status listed old)
      ≡ next (λ items. h (g items)) fetched status listed (h old)
next-natural h g fetched status listed old = elim (Bool-cases (reaches fetched status)) [
  | inr stops ↦ rw stops refl
  | inl lists ↦ elim (Outcome-cases listed) [
    | inl (items, got) ↦ rw (lists, got) refl
    | inr (e, failed) ↦ rw (lists, failed) refl
  ]
]

-- What holds of the old value, and of what any list makes, holds of the next one.
pub next-keeps {ℓ κ} :
    {T : Type 0} {S : Type ℓ} (Holds : S → Type κ) (g : List T → S) (fetched : Fetched T)
    (status : Outcome String (Unit {0})) (listed : Outcome String (List T)) (old : S)
    → Holds old
    → ((items : List T) → listed ≡ ok items → Holds (g items))
    → Holds (next g fetched status listed old)
next-keeps Holds g fetched status listed old h made = elim (Bool-cases (reaches fetched status)) [
  | inr stops ↦ rw stops h
  | inl lists ↦ elim (Outcome-cases listed) [
    | inl (items, got) ↦ rw (lists, got) (made items got)
    | inr (e, failed) ↦ rw (lists, failed) h
  ]
]

generation-rebuilt :
    (c : Generation.Cluster) (rs : RuleServer)
    → perform update_generation_rules
        (Generation.rebuild_generation_rules (record c { has_publisher = true })).0
        rs
      ≡ elim c.list_types [
        | ok items ↦ update_generation_rules rs (map (Generation.generation_rule c) items)
        | err _ ↦ rs
      ]
unfolding perform Generation.rebuild_generation_rules Generation.generation_rule
    Generation.policy_for Generation.effective_lifetime
generation-rebuilt c rs = elim (Outcome-cases c.list_types) [
  | inl (items, listed) ↦ rw (listed, Generation.rebuild_generation_rules) refl
  | inr (e, failed) ↦ rw (failed, Generation.rebuild_generation_rules) refl
]

pub generation_next :
    (c : Generation.Cluster) (fetched : Fetched TransactionType) (rs : RuleServer)
    → perform update_generation_rules
        (Generation.reconcile (record c { has_publisher = true }) fetched).0
        rs
      ≡ next
          (λ items. update_generation_rules rs (map (Generation.generation_rule c) items))
          fetched
          c.status_update
          c.list_types
          rs
unfolding perform Generation.reconcile
generation_next c not_found rs = generation-rebuilt c rs
generation_next c (get_failed e) rs = refl
generation_next c (found t) rs = elim (Outcome-cases c.status_update) [
  | inr (e, failed) ↦ rw (failed, Generation.reconcile) refl
  | inl (_, updated) ↦ rw (updated, Generation.reconcile) (generation-rebuilt c rs)
]

module _ (cel : Cel) where
  verification-rebuilt :
      (c : Verification.Cluster) (rs : RuleServer)
      → perform update_verification_rules
          (Verification.rebuild_verification_rules cel (record c { has_publisher = true })).0
          rs
        ≡ elim c.list_requirements [
          | ok items ↦ update_verification_rules rs (map (Verification.verification_rule cel) items)
          | err _ ↦ rs
        ]
  unfolding perform Verification.rebuild_verification_rules
  verification-rebuilt c rs = elim (Outcome-cases c.list_requirements) [
    | inl (items, listed) ↦ rw (listed, Verification.rebuild_verification_rules) refl
    | inr (e, failed) ↦ rw (failed, Verification.rebuild_verification_rules) refl
  ]

  pub verification_next :
      (c : Verification.Cluster) (fetched : Fetched ServiceTokenRequirement) (rs : RuleServer)
      → perform update_verification_rules
          (Verification.reconcile cel (record c { has_publisher = true }) fetched).0
          rs
        ≡ next
            (λ items. update_verification_rules rs (map (Verification.verification_rule cel) items))
            fetched
            c.status_update
            c.list_requirements
            rs
  unfolding perform Verification.reconcile
  verification_next c not_found rs = verification-rebuilt c rs
  verification_next c (get_failed e) rs = refl
  verification_next c (found t) rs = elim (Outcome-cases c.status_update) [
    | inr (e, failed) ↦ rw (failed, Verification.reconcile) refl
    | inl (_, updated) ↦ rw (updated, Verification.reconcile) (verification-rebuilt c rs)
  ]

  issuance-rebuilt :
      (c : Issuance.Cluster) (rs : RuleServer)
      → perform update_issuance_rules
          (Issuance.rebuild_issuance_rules cel (record c { has_publisher = true })).0
          rs
        ≡ elim c.list_policies [
          | ok items ↦ update_issuance_rules rs (Issuance.rules_of_all cel items)
          | err _ ↦ rs
        ]
  unfolding perform Issuance.rebuild_issuance_rules
  issuance-rebuilt c rs = elim (Outcome-cases c.list_policies) [
    | inl (items, listed) ↦ rw (listed, Issuance.rebuild_issuance_rules) refl
    | inr (e, failed) ↦ rw (failed, Issuance.rebuild_issuance_rules) refl
  ]

  pub issuance_next :
      (c : Issuance.Cluster) (fetched : Fetched TokenPolicy) (rs : RuleServer)
      → perform update_issuance_rules
          (Issuance.reconcile cel (record c { has_publisher = true }) fetched).0
          rs
        ≡ next
            (λ items. update_issuance_rules rs (Issuance.rules_of_all cel items))
            fetched
            c.status_update
            c.list_policies
            rs
  unfolding perform Issuance.reconcile
  issuance_next c not_found rs = issuance-rebuilt c rs
  issuance_next c (get_failed e) rs = refl
  issuance_next c (found t) rs = elim (Outcome-cases c.status_update) [
    | inr (e, failed) ↦ rw (failed, Issuance.reconcile) refl
    | inl (_, updated) ↦ rw (updated, Issuance.reconcile) (issuance-rebuilt c rs)
  ]
