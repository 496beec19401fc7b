-- ===== src/Distribution/Kinds.antt =====
-- The three streams as instances of what they have in common.
use kontxt.Base.{◌==◌, Eq_nat, Eq_string}
use kontxt.Base.Maps.{lookup-delete}
use kontxt.Rules.{GenerationRule, VerificationRule, IssuanceRule}
use kontxt.Distribution.Proto.{
  GenerationMessage, generation_rule_to_proto, verification_rule_to_proto, issuance_rule_to_proto,
  proto_to_generation_rule, proto_to_verification_rule, proto_to_issuance_rule,
}
use kontxt.Distribution.Proto.Laws.{
  generation_rule_back, verification_rule_back, issuance_rule_back,
}
use kontxt.Distribution.Stream.{RuleKey, IssuanceKey, remove_first, remove_all}
use kontxt.Distribution.Server.{
  Eq_rule_key, Eq_issuance_key, generation_key, verification_key, issuance_key, key_of_ref,
  of_policy,
}
use kontxt.Distribution.Client.{drop_key, drop_policy}
use kontxt.Distribution.Laws.{
  find-remove_first, Unique-remove_first, find-remove_all, Unique-remove_all, lookup-remove_all,
}
use kontxt.Distribution.Perm.{delete-IsKeyed, remove_all-IsKeyed}
use kontxt.Distribution.Sync.{RuleKind}

abbrev pub generation_kind : RuleKind
generation_kind = record {
  R = GenerationRule;
  P = GenerationMessage;
  K = RuleKey;
  Eq_key = Eq_rule_key;
  to_proto = generation_rule_to_proto;
  from_proto = proto_to_generation_rule;
  key = generation_key;
  names = λ ref k. key_of_ref ref == k;
  removed = λ ref rs. remove_first (λ r. generation_key r == key_of_ref ref) rs;
  drop = drop_key;
  from_proto-to_proto = generation_rule_back;
  find-removed = λ ref k rs u. find-remove_first generation_key (key_of_ref ref) k rs u;
  Unique-removed = λ ref rs u. Unique-remove_first generation_key (key_of_ref ref) rs u;
  lookup-drop = λ ref k m. lookup-delete (key_of_ref ref) k m;
  drop-IsKeyed = λ ref m h. delete-IsKeyed generation_key (key_of_ref ref) m h;
}

abbrev pub verification_kind : RuleKind
verification_kind = record {
  R = VerificationRule;
  P = VerificationRule;
  K = RuleKey;
  Eq_key = Eq_rule_key;
  to_proto = verification_rule_to_proto;
  from_proto = proto_to_verification_rule;
  key = verification_key;
  names = λ ref k. key_of_ref ref == k;
  removed = λ ref rs. remove_first (λ r. verification_key r == key_of_ref ref) rs;
  drop = drop_key;
  from_proto-to_proto = verification_rule_back;
  find-removed = λ ref k rs u. find-remove_first verification_key (key_of_ref ref) k rs u;
  Unique-removed = λ ref rs u. Unique-remove_first verification_key (key_of_ref ref) rs u;
  lookup-drop = λ ref k m. lookup-delete (key_of_ref ref) k m;
  drop-IsKeyed = λ ref m h. delete-IsKeyed verification_key (key_of_ref ref) m h;
}

abbrev pub issuance_kind : RuleKind
issuance_kind = record {
  R = IssuanceRule;
  P = IssuanceRule;
  K = IssuanceKey;
  Eq_key = Eq_issuance_key;
  to_proto = issuance_rule_to_proto;
  from_proto = proto_to_issuance_rule;
  key = issuance_key;
  names = of_policy;
  removed = λ ref rs. remove_all (λ r. of_policy ref (issuance_key r)) rs;
  drop = drop_policy;
  from_proto-to_proto = issuance_rule_back;
  find-removed = λ ref k rs u. find-remove_all issuance_key (of_policy ref) k rs;
  Unique-removed = λ ref rs u. Unique-remove_all issuance_key (of_policy ref) rs u;
  lookup-drop = λ ref k m. lookup-remove_all (of_policy ref) k m;
  drop-IsKeyed = λ ref m h. remove_all-IsKeyed issuance_key (of_policy ref) m h;
}
