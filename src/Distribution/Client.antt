-- ===== src/Distribution/Client.antt =====
-- The stream loops of pkg/extauth/ruleclient/client.go and pkg/tts/ruleclient/client.go: the map of
-- rules that a client keeps, and how a response changes it.
use kontxt.Base.{Bool, not, List, [], ◌∷◌, if◌then◌else◌, Eq, ◌==◌, Eq_nat, Eq_string}
use kontxt.Base.Strings.{text_lt}
use kontxt.Base.Maps.{Map, insert, delete}
use kontxt.Base.Sorting.{sort}
use kontxt.Rules.{GenerationRule, VerificationRule, IssuanceRule}
use kontxt.Distribution.Proto.{
  GenerationMessage, proto_to_generation_rule, proto_to_verification_rule, proto_to_issuance_rule,
}
use kontxt.Distribution.Stream.{RuleKey, IssuanceKey, RuleRef, Update, snapshot, delta, remove_all}
use kontxt.Distribution.Server.{
  Eq_rule_key, Eq_issuance_key, generation_key, verification_key, issuance_key, key_of_ref,
  of_policy,
}

-- The values of a map, in the order of a range.
unfoldable pub values : {K V : Type 0} → Map K V → List V
values [] = []
values ((k, v) ∷ m) = v ∷ values m

-- The loop over the removed references; `drop` is what one of them deletes.
unfoldable pub drop_refs :
    {K R : Type 0} → (RuleRef → Map K R → Map K R) → List RuleRef → Map K R → Map K R
drop_refs drop [] m = m
drop_refs drop (ref ∷ refs) m = drop_refs drop refs (drop ref m)

module _ {K R P : Type 0} ⦃e : Eq K⦄ (from_proto : P → R) (key : R → K) where
  -- The loop over the rules of a snapshot, or over the upserted rules of a delta.
  unfoldable pub store : List P → Map K R → Map K R
  store [] m = m
  store (pr ∷ prs) m = store prs (insert (key (from_proto pr)) (from_proto pr) m)

  -- The switch of the stream loops.
  unfoldable pub apply : (RuleRef → Map K R → Map K R) → Map K R → Update P → Map K R
  apply drop m (snapshot prs) = store prs []
  apply drop m (delta upserted removed) = drop_refs drop removed (store upserted m)

-- `delete(rules, ruleKey{…})`
abbrev pub drop_key : {R : Type 0} → RuleRef → Map RuleKey R → Map RuleKey R
drop_key ref m = delete (key_of_ref ref) m

-- The loop that deletes the rules of a policy.
abbrev pub drop_policy : {R : Type 0} → RuleRef → Map IssuanceKey R → Map IssuanceKey R
drop_policy ref m = remove_all (λ kv. of_policy ref kv.0) m

-- The switches of streamGeneration, streamVerification and streamIssuance
unfoldable pub apply_generation :
    Map RuleKey GenerationRule → Update GenerationMessage → Map RuleKey GenerationRule
apply_generation = apply proto_to_generation_rule generation_key drop_key

unfoldable pub apply_verification :
    Map RuleKey VerificationRule → Update VerificationRule → Map RuleKey VerificationRule
apply_verification = apply proto_to_verification_rule verification_key drop_key

unfoldable pub apply_issuance :
    Map IssuanceKey IssuanceRule → Update IssuanceRule → Map IssuanceKey IssuanceRule
apply_issuance = apply proto_to_issuance_rule issuance_key drop_policy

-- The order of `sort.Slice` in streamIssuance.
unfoldable pub issuance_lt : IssuanceRule → IssuanceRule → Bool
issuance_lt a b =
    if not (a.policy_namespace == b.policy_namespace)
    then text_lt a.policy_namespace b.policy_namespace
    else if not (a.policy_name == b.policy_name)
    then text_lt a.policy_name b.policy_name
    else text_lt a.rule_name b.rule_name

-- The list that streamIssuance hands on.
unfoldable pub flatten : Map IssuanceKey IssuanceRule → List IssuanceRule
flatten rules = sort issuance_lt (values rules)
