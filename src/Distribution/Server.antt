-- ===== src/Distribution/Server.antt =====
-- RuleServer of internal/controller/ruleserver/server.go: its three streams.
pub mod Calls
pub mod Sound
pub mod Subscribers
use kontxt.Base.{
  ℕ, String, ◌≡◌, ap, ◌↔◌, Bool, true, ◌&&◌, List, arith, eq_iff, Eq, ◌==◌, Eq_nat, Eq_string, both,
}
use kontxt.Rules.{GenerationRule, VerificationRule, IssuanceRule}
use kontxt.Distribution.Proto.{
  GenerationMessage, generation_rule_to_proto, verification_rule_to_proto, issuance_rule_to_proto,
}
use kontxt.Distribution.Stream.{
  RuleKey, IssuanceKey, RuleRef, Response, Stream, empty_stream, next_version, update_rules,
  upsert_rule, remove_rule, remove_rules, subscribe,
}

abbrev same_rule_key : RuleKey → RuleKey → Bool
same_rule_key a b = a.namespace == b.namespace && a.name == b.name

pub same_rule_key_iff : (a b : RuleKey) → (same_rule_key a b ≡ true) ↔ (a ≡ b)
same_rule_key_iff a b = (
  (λ h.
      let (p, q) = both _ _ h in
      λ i. record {
        namespace = (eq_iff a.namespace b.namespace).0 p i;
        name = (eq_iff a.name b.name).0 q i;
      }),
  (λ p. ground (
    arith,
    eq_iff a.namespace b.namespace,
    eq_iff a.name b.name,
    ap (λ (k : RuleKey). k.namespace) p,
    ap (λ (k : RuleKey). k.name) p,
  )),
)

instance abbrev pub Eq_rule_key : Eq RuleKey
Eq_rule_key = record { test = same_rule_key; test_iff = same_rule_key_iff }

abbrev same_issuance_key : IssuanceKey → IssuanceKey → Bool
same_issuance_key a b =
    a.policy_namespace == b.policy_namespace
    && a.policy_name == b.policy_name
    && a.rule_name == b.rule_name

pub same_issuance_key_iff : (a b : IssuanceKey) → (same_issuance_key a b ≡ true) ↔ (a ≡ b)
same_issuance_key_iff a b = (
  (λ h.
      let (pq, r) = both _ _ h in
      let (p, q) = both _ _ pq in
      λ i. record {
        policy_namespace = (eq_iff a.policy_namespace b.policy_namespace).0 p i;
        policy_name = (eq_iff a.policy_name b.policy_name).0 q i;
        rule_name = (eq_iff a.rule_name b.rule_name).0 r i;
      }),
  (λ p. ground (
    arith,
    eq_iff a.policy_namespace b.policy_namespace,
    eq_iff a.policy_name b.policy_name,
    eq_iff a.rule_name b.rule_name,
    ap (λ (k : IssuanceKey). k.policy_namespace) p,
    ap (λ (k : IssuanceKey). k.policy_name) p,
    ap (λ (k : IssuanceKey). k.rule_name) p,
  )),
)

instance abbrev pub Eq_issuance_key : Eq IssuanceKey
Eq_issuance_key = record { test = same_issuance_key; test_iff = same_issuance_key_iff }

-- The keys of the rules.
abbrev pub generation_key : GenerationRule → RuleKey
generation_key r = record { namespace = r.namespace; name = r.name }

abbrev pub verification_key : VerificationRule → RuleKey
verification_key r = record { namespace = r.namespace; name = r.name }

-- keyFor
abbrev pub issuance_key : IssuanceRule → IssuanceKey
issuance_key r = record {
  policy_namespace = r.policy_namespace;
  policy_name = r.policy_name;
  rule_name = r.rule_name;
}

abbrev pub key_of_ref : RuleRef → RuleKey
key_of_ref ref = record { namespace = ref.namespace; name = ref.name }

-- The test of `RemoveIssuanceRule` on the policy.
abbrev pub of_policy : RuleRef → IssuanceKey → Bool
of_policy ref k = k.policy_namespace == ref.namespace && k.policy_name == ref.name

-- RuleServer
pub record RuleServer : Type 0 where
  pub generation : Stream GenerationRule GenerationMessage
  pub verification : Stream VerificationRule VerificationRule
  pub issuance : Stream IssuanceRule IssuanceRule
  pub sub_id_counter : ℕ

-- NewRuleServer
unfoldable pub new_rule_server : RuleServer
new_rule_server = record {
  generation = empty_stream;
  verification = empty_stream;
  issuance = empty_stream;
  sub_id_counter = 0;
}

-- UpdateGenerationRules
unfoldable pub update_generation_rules : RuleServer → List GenerationRule → RuleServer
update_generation_rules s rules = record s {
  generation = update_rules generation_rule_to_proto s.generation rules;
}

-- UpsertGenerationRule
unfoldable pub upsert_generation_rule : RuleServer → GenerationRule → RuleServer
upsert_generation_rule s rule = record s {
  generation = upsert_rule generation_rule_to_proto generation_key s.generation rule;
}

-- RemoveGenerationRule
unfoldable pub remove_generation_rule : RuleServer → String → String → RuleServer
remove_generation_rule s namespace name = record s {
  generation =
      remove_rule generation_rule_to_proto generation_key key_of_ref s.generation
        (record { namespace = namespace; name = name });
}

-- UpdateVerificationRules
unfoldable pub update_verification_rules : RuleServer → List VerificationRule → RuleServer
update_verification_rules s rules = record s {
  verification = update_rules verification_rule_to_proto s.verification rules;
}

-- UpsertVerificationRule
unfoldable pub upsert_verification_rule : RuleServer → VerificationRule → RuleServer
upsert_verification_rule s rule = record s {
  verification = upsert_rule verification_rule_to_proto verification_key s.verification rule;
}

-- RemoveVerificationRule
unfoldable pub remove_verification_rule : RuleServer → String → String → RuleServer
remove_verification_rule s namespace name = record s {
  verification =
      remove_rule verification_rule_to_proto verification_key key_of_ref s.verification
        (record { namespace = namespace; name = name });
}

-- UpdateIssuanceRules
unfoldable pub update_issuance_rules : RuleServer → List IssuanceRule → RuleServer
update_issuance_rules s rules = record s {
  issuance = update_rules issuance_rule_to_proto s.issuance rules;
}

-- UpsertIssuanceRule
unfoldable pub upsert_issuance_rule : RuleServer → IssuanceRule → RuleServer
upsert_issuance_rule s rule = record s {
  issuance = upsert_rule issuance_rule_to_proto issuance_key s.issuance rule;
}

-- RemoveIssuanceRule
unfoldable pub remove_issuance_rule : RuleServer → String → String → RuleServer
remove_issuance_rule s policy_namespace policy_name = record s {
  issuance =
      remove_rules issuance_rule_to_proto issuance_key of_policy s.issuance
        (record { namespace = policy_namespace; name = policy_name });
}

-- The starts of StreamGenerationRules, StreamVerificationRules and StreamIssuanceRules: the id, the
-- registration and the snapshot.
unfoldable pub stream_generation_rules : RuleServer → RuleServer × Response GenerationMessage
stream_generation_rules s =
    let id = next_version s.sub_id_counter in
    let (st, snapshot) = subscribe generation_rule_to_proto s.generation id in
    (record s { generation = st; sub_id_counter = id }, snapshot)

unfoldable pub stream_verification_rules : RuleServer → RuleServer × Response VerificationRule
stream_verification_rules s =
    let id = next_version s.sub_id_counter in
    let (st, snapshot) = subscribe verification_rule_to_proto s.verification id in
    (record s { verification = st; sub_id_counter = id }, snapshot)

unfoldable pub stream_issuance_rules : RuleServer → RuleServer × Response IssuanceRule
stream_issuance_rules s =
    let id = next_version s.sub_id_counter in
    let (st, snapshot) = subscribe issuance_rule_to_proto s.issuance id in
    (record s { issuance = st; sub_id_counter = id }, snapshot)
