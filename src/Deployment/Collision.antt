-- ===== src/Deployment/Collision.antt =====
-- Issuance rules of one policy that have the same name.
use mathlib.Core.List.{append_assoc}
use mathlib.Core.Option.{map as map_option}
use kontxt.Base.{
  contains, All-append, false, arith, sym, Option, none, some, List, ◌++◌, Bool-cases, inl, inr,
  if◌then◌else◌, ◌==◌, All, String, ◌≡◌, refl, ap, ◌∙◌, [], ◌∷◌, map, Eq_nat, Eq_string, test_refl,
}
use kontxt.Base.Maps.{Map, lookup, insert, lookup-insert}
use kontxt.Cel.{Cel}
use kontxt.Crd.{NamedCel, TokenPolicy}
use kontxt.Rules.{IssuanceRule}
use kontxt.Controller.Issuance.{
  config_of, publishable, validate_issuance_cel, rules_of, rules_of_all,
}
use kontxt.Controller.Issuance.Laws.{Compiles, compile_issuance_rules_iff}
use kontxt.Distribution.Proto.{issuance_rule_to_proto, proto_to_issuance_rule}
use kontxt.Distribution.Proto.Laws.{issuance_rule_back}
use kontxt.Distribution.Stream.{IssuanceKey, snapshot}
use kontxt.Distribution.Server.{Eq_issuance_key, issuance_key}
use kontxt.Deployment.Policies.{rule_for}
use kontxt.Distribution.Client.{apply_issuance, apply, store}

-- The last rule with a name.
abbrev pub last_named : String → List NamedCel → Option NamedCel
last_named name [] = none
last_named name (ir ∷ irs) = elim (last_named name irs) [
  | some later ↦ some later
  | none ↦ if ir.name == name then some ir else none
]

-- The key of the rules of a policy with a name.
abbrev pub key_for : TokenPolicy → String → IssuanceKey
key_for policy name = record { policy_namespace = ""; policy_name = policy.name; rule_name = name }

-- What stands under a key, in front of what stood there before.
abbrev in_front : TokenPolicy → Option NamedCel → Option IssuanceRule → Option IssuanceRule
in_front policy none before = before
in_front policy (some ir) before = some (rule_for policy ir)

lookup-insert_rule :
    (policy : TokenPolicy) (ir : NamedCel) (name : String) (m : Map IssuanceKey IssuanceRule)
    → lookup (key_for policy name) (insert (key_for policy ir.name) (rule_for policy ir) m)
      ≡ (if ir.name == name then some (rule_for policy ir) else lookup (key_for policy name) m)
lookup-insert_rule policy ir name m =
    lookup-insert (key_for policy ir.name) (key_for policy name) (rule_for policy ir) m
    ∙ rw (test_refl policy.name) refl

in_front-none :
    (policy : TokenPolicy) (last : Option NamedCel)
    → in_front policy last none ≡ map_option (rule_for policy) last
in_front-none policy none = refl
in_front-none policy (some ir) = refl

in_front-if :
    (policy : TokenPolicy) (ir : NamedCel) (name : String) (later : Option NamedCel)
    (before : Option IssuanceRule)
    → in_front policy later (if ir.name == name then some (rule_for policy ir) else before)
      ≡ in_front policy
          (elim later [ some l ↦ some l | none ↦ if ir.name == name then some ir else none ])
          before
in_front-if policy ir name (some later) before = refl
in_front-if policy ir name none before = elim (Bool-cases (ir.name == name)) [
  | inl same ↦ rw same refl
  | inr other ↦ rw other refl
]

lookup-store :
    (policy : TokenPolicy) (name : String) (rules : List NamedCel)
    (m : Map IssuanceKey IssuanceRule)
    → lookup (key_for policy name) (
        store proto_to_issuance_rule issuance_key
          (map issuance_rule_to_proto (map (rule_for policy) rules))
          m)
      ≡ in_front policy (last_named name rules) (lookup (key_for policy name) m)
unfolding store
lookup-store policy name [] m = refl
lookup-store policy name (ir ∷ irs) m =
    (λ i. lookup (key_for policy name) (
      store proto_to_issuance_rule issuance_key
        (map issuance_rule_to_proto (map (rule_for policy) irs))
        (insert (issuance_key (issuance_rule_back (rule_for policy ir) i))
          (issuance_rule_back (rule_for policy ir) i) m)))
    ∙ lookup-store policy name irs _
    ∙ ap (in_front policy (last_named name irs)) (lookup-insert_rule policy ir name m)
    ∙ in_front-if policy ir name (last_named name irs) (lookup (key_for policy name) m)

-- The client's map after these rules arrived one after the other.
abbrev kept : List IssuanceRule → Map IssuanceKey IssuanceRule → Map IssuanceKey IssuanceRule
kept rules m = store proto_to_issuance_rule issuance_key (map issuance_rule_to_proto rules) m

kept-append :
    (rs ts : List IssuanceRule) (m : Map IssuanceKey IssuanceRule)
    → kept (rs ++ ts) m ≡ kept ts (kept rs m)
unfolding store
kept-append [] ts m = refl
kept-append (r ∷ rs) ts m = kept-append rs ts _

-- The rules of another policy.
abbrev IsOther : TokenPolicy → IssuanceRule → Type 0
IsOther policy r = (r.policy_name == policy.name) ≡ false

lookup-kept :
    (policy : TokenPolicy) (name : String) (rs : List IssuanceRule)
    (m : Map IssuanceKey IssuanceRule)
    → All (IsOther policy) rs
    → lookup (key_for policy name) (kept rs m) ≡ lookup (key_for policy name) m
unfolding store
lookup-kept policy name [] m h = refl
lookup-kept policy name (r ∷ rs) m (other, others) =
    lookup-kept policy name rs _ others
    ∙ (λ i.
        lookup (key_for policy name)
          (insert (issuance_key (issuance_rule_back r i)) (issuance_rule_back r i) m))
    ∙ lookup-insert (issuance_key r) (key_for policy name) r m
    ∙ rw other (ground arith)

publishable-IsOther :
    (policy other : TokenPolicy) (broken : List String) (irs : List NamedCel)
    → (other.name == policy.name) ≡ false
    → All (IsOther policy) (publishable other broken irs)
unfolding publishable
publishable-IsOther policy other broken [] differs = tt
publishable-IsOther policy other broken (ir ∷ irs) differs =
    elim (Bool-cases (contains broken ir.name)) [
      | inl gone ↦ rw (gone, publishable) (publishable-IsOther policy other broken irs differs)
      | inr stays ↦
          rw (stays, publishable) (differs, publishable-IsOther policy other broken irs differs)
    ]

module _ (cel : Cel) (policy : TokenPolicy)
    (compiles : All (λ ir. Compiles cel ir.cel) policy.spec.issuance_rules) where
  configs_compile :
      (rules : List NamedCel)
      → All (λ ir. Compiles cel ir.cel) rules
      → All (λ cfg. Compiles cel cfg.cel) (map config_of rules)
  configs_compile [] h = tt
  configs_compile (ir ∷ irs) (h, hs) = (h, configs_compile irs hs)

  valid : validate_issuance_cel cel policy.spec.issuance_rules ≡ []
  unfolding validate_issuance_cel
  valid =
      let (rs, compiled) =
        (compile_issuance_rules_iff cel (map config_of policy.spec.issuance_rules)).1
          (configs_compile policy.spec.issuance_rules compiles) in
      rw (compiled, validate_issuance_cel) refl

  publishable_all :
      (rules : List NamedCel) → publishable policy [] rules ≡ map (rule_for policy) rules
  unfolding publishable
  publishable_all [] = refl
  publishable_all (ir ∷ irs) = ap (λ l. rule_for policy ir ∷ l) (publishable_all irs)

  all_published : rules_of cel policy ≡ map (rule_for policy) policy.spec.issuance_rules
  unfolding rules_of
  all_published = rw (valid, rules_of) (publishable_all policy.spec.issuance_rules)

  -- The policies that have other names.
  abbrev pub AreOthers : List TokenPolicy → Type 0
  AreOthers = All (λ p. (p.name == policy.name) ≡ false)

  rules_of_all-IsOther :
      (policies : List TokenPolicy)
      → AreOthers policies
      → All (IsOther policy) (rules_of_all cel policies)
  unfolding rules_of_all rules_of
  rules_of_all-IsOther [] others = tt
  rules_of_all-IsOther (p ∷ ps) (differs, others) =
      All-append (IsOther policy) (rules_of cel p) (rules_of_all cel ps)
        (publishable-IsOther policy p _ p.spec.issuance_rules differs)
        (rules_of_all-IsOther ps others)

  rules_of_all-append :
      (before after : List TokenPolicy)
      → rules_of_all cel (before ++ policy ∷ after)
        ≡ rules_of_all cel before
          ++ (map (rule_for policy) policy.spec.issuance_rules ++ rules_of_all cel after)
  unfolding rules_of_all
  rules_of_all-append [] after = ap (λ l. l ++ rules_of_all cel after) all_published
  rules_of_all-append (p ∷ before) after =
      ap (λ l. rules_of cel p ++ l) (rules_of_all-append before after)
      ∙ sym (append_assoc (rules_of cel p) (rules_of_all cel before) _)

  -- Of a policy whose rules all compile, among others with other names, the controller publishes
  -- every rule, in order, also where some have the same name, and a client that takes all published
  -- rules as a snapshot keeps under each name the last rule of the policy only.
  pub lookup-apply_issuance :
      (before after : List TokenPolicy) (m : Map IssuanceKey IssuanceRule) (name : String)
      → AreOthers before
      → AreOthers after
      → (rules_of_all cel (before ++ policy ∷ after)
          ≡ rules_of_all cel before
            ++ (map (rule_for policy) policy.spec.issuance_rules ++ rules_of_all cel after))
        × (lookup (key_for policy name) (
              apply_issuance m (
                snapshot
                  (map issuance_rule_to_proto (rules_of_all cel (before ++ policy ∷ after)))))
            ≡ map_option (rule_for policy) (last_named name policy.spec.issuance_rules))
  unfolding apply_issuance apply lookup
  lookup-apply_issuance before after m name earlier later =
      let mine = map (rule_for policy) policy.spec.issuance_rules in
      let first = rules_of_all cel before in
      let last = rules_of_all cel after in
      (
        rules_of_all-append before after,
        ap (λ l. lookup (key_for policy name) (kept l [])) (rules_of_all-append before after)
            ∙ ap (lookup (key_for policy name))
                (kept-append first (mine ++ last) [] ∙ kept-append mine last (kept first []))
            ∙ lookup-kept policy name last _ (rules_of_all-IsOther after later)
            ∙ lookup-store policy name policy.spec.issuance_rules (kept first [])
            ∙ ap (in_front policy (last_named name policy.spec.issuance_rules))
                (lookup-kept policy name first [] (rules_of_all-IsOther before earlier))
            ∙ in_front-none policy (last_named name policy.spec.issuance_rules),
      )
