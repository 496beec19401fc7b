-- ===== src/Distribution/Proto/Laws.antt =====
-- The conversions of the server and of the clients undo each other.
use kontxt.Base.{
  String, ◌≡◌, refl, sym, ap, ◌∙◌, inl, inr, not, ◌||◌, none, some, List, [], ◌∷◌, map, eq_iff,
  if◌then◌else◌, ◌==◌, Eq_nat, Eq_string, Bool-cases,
}
use kontxt.Base.Maps.{Map}
use kontxt.Crd.{EndpointSpec, TctxFieldMapping}
use kontxt.Rules.{GenerationRule, VerificationRule, IssuanceRule}
use kontxt.Distribution.Proto.{
  copy_mapping, copy_enrichments, copy_cel_rules, endpoint_to_proto, generation_rule_to_proto,
  verification_rule_to_proto, issuance_rule_to_proto, proto_to_generation_rule,
  proto_to_verification_rule, proto_to_issuance_rule,
}

map_same {ℓ} : {A : Type ℓ} (f : A → A) → ((a : A) → f a ≡ a) → (xs : List A) → map f xs ≡ xs
map_same f same [] = refl
map_same f same (x ∷ xs) = λ i. same x i ∷ map_same f same xs i

copy_mapping_same : (m : Map String TctxFieldMapping) → copy_mapping m ≡ m
unfolding copy_mapping
copy_mapping_same [] = refl
copy_mapping_same ((k, v) ∷ m) =
    ap (λ (l : Map String TctxFieldMapping). (k, v) ∷ l) (copy_mapping_same m)

-- An endpoint whose path and method are both empty is sent as none, and comes back empty.
endpoint_back :
    (e : EndpointSpec)
    → elim (if not (e.path == "") || not (e.method == "") then some (endpoint_to_proto e) else none)
        as (λ _. EndpointSpec) [
          | none ↦ record { path = ""; method = "" }
          | some ep ↦ record { path = ep.path; method = ep.method }
        ]
      ≡ e
unfolding endpoint_to_proto
endpoint_back e = elim (Bool-cases (e.path == "")) [
  | inl no_path ↦ elim (Bool-cases (e.method == "")) [
    | inl no_method ↦
        rw (no_path, no_method)
          (λ i. record {
            path = sym ((eq_iff _ _).0 no_path) i;
            method = sym ((eq_iff _ _).0 no_method) i;
          })
    | inr method ↦ rw (no_path, method) refl
  ]
  | inr path ↦ rw path refl
]

-- A generation rule comes back from its message, also one whose endpoint is empty.
pub generation_rule_back :
    (r : GenerationRule) → proto_to_generation_rule (generation_rule_to_proto r) ≡ r
unfolding proto_to_generation_rule generation_rule_to_proto copy_enrichments
generation_rule_back r = λ i. record r {
  endpoint = endpoint_back r.endpoint i;
  tctx_mapping =
      (ap copy_mapping (copy_mapping_same r.tctx_mapping) ∙ copy_mapping_same r.tctx_mapping) i;
  tctx_enrichments =
      (ap copy_enrichments (map_same _ (λ _. refl) r.tctx_enrichments)
          ∙ map_same _ (λ _. refl) r.tctx_enrichments)
        i;
}

-- A verification rule comes back from its message.
pub verification_rule_back :
    (r : VerificationRule) → proto_to_verification_rule (verification_rule_to_proto r) ≡ r
unfolding proto_to_verification_rule verification_rule_to_proto copy_cel_rules endpoint_to_proto
verification_rule_back r = λ i. record r {
  cel_rules =
      (ap copy_cel_rules (map_same _ (λ _. refl) r.cel_rules) ∙ map_same _ (λ _. refl) r.cel_rules)
        i;
  excluded_endpoints =
      (ap (map _) (map_same _ (λ _. refl) r.excluded_endpoints)
          ∙ map_same _ (λ _. refl) r.excluded_endpoints)
        i;
}

-- `protoToIssuanceRule` gives back the rule that `issuanceRuleToProto` took.
pub issuance_rule_back : (r : IssuanceRule) → proto_to_issuance_rule (issuance_rule_to_proto r) ≡ r
unfolding proto_to_issuance_rule issuance_rule_to_proto
issuance_rule_back r = refl
