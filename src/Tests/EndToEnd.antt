-- ===== src/Tests/EndToEnd.antt =====
-- Histories of the controller, the rule server and a client at concrete inputs.
mod Issuing
use kontxt.Base.{
  ◌≡◌, refl, true, some, List, [], ◌∷◌, map, ltb, Eq_nat, Eq_string, length, ok, subst, some_inj,
  ok_inj,
}
use kontxt.Base.Maps.{lookup, insert}
use kontxt.Crd.{TransactionType, ServiceTokenRequirement, TokenPolicy}
use kontxt.Rules.{GenerationRule, VerificationRule, IssuanceRule}
use kontxt.Controller.Conditions.{not_found}
use kontxt.Controller.Generation
use kontxt.Controller.Verification
use kontxt.Controller.Verification.{verification_rule}
use kontxt.Controller.Issuance
use kontxt.Distribution.Stream.{
  Response, Stream, empty_stream, update_rules, push, subscribe, build_snapshot, snapshot,
  broadcast, offer, next_version,
}
use kontxt.Distribution.Server.{
  RuleServer, new_rule_server, verification_key, generation_key, issuance_key, Eq_issuance_key,
  Eq_rule_key, update_verification_rules, update_generation_rules, update_issuance_rules,
}
use kontxt.Distribution.Laws.{Unique}
use kontxt.Distribution.Client.{values, flatten, apply, store}
use kontxt.Distribution.Sync.{Server, View, HasRoom, take_in}
use kontxt.Distribution.Kinds.{generation_kind, verification_kind, issuance_kind}
use kontxt.Extauth.Server
use kontxt.Extauth.Server.{set_verification_rules}
use kontxt.Extauth.Generate
use kontxt.Extauth.Generate.{set_generation_rules}
use kontxt.Base.Sorting.{sort, insert_sorted}
use kontxt.Base.Strings.{split, span_parts}
use kontxt.Authn.{SubjectInfo, authenticate, extract_issuer}
use kontxt.Token
use kontxt.Token.{validate_required, subject_token_type_access_token as bearer}
use kontxt.Keys.{signing_key}
use kontxt.Controller.Issuance.{
  rules_of_all, rules_of, publishable, validate_issuance_cel, compile_each,
  resolve_target_namespaces,
}
use kontxt.Tts.Rules.{
  compile_issuance_rules, compile_from, compile_rule, new_issuance_env, evaluate_issuance_rules,
  check_rules, check_rule, verdict, rule_applies_to_namespace,
}
use kontxt.Tts.Handler.{
  handle_issuance, sign, issuance_claims, check_policy, load_issuance_rules, set_issuance_rules,
}
use kontxt.Tts.Handler.Laws.{policy_activation}
use kontxt.Tts.Request.{identify_workload}
use kontxt.Distribution.Setter.{config_of, apply_issuance_rules}
use kontxt.Distribution.Proto.{issuance_rule_to_proto, proto_to_issuance_rule}
use kontxt.Deployment.Issuing.{IsEnforced}
use kontxt.Command.Controller.{
  Round, service_token_requirement, transaction_type, token_policy, handle, perform,
}
use kontxt.Command.Controller.Laws.{Published, published}
use kontxt.Deployment.History.{History, connected, reconciled, received}
use kontxt.Deployment.History.Sides.{verification_side, generation_side, issuance_side}
use kontxt.Deployment.EndToEnd.{
  check-verification_History, check-generation_History, handle_issuance-History,
}
use kontxt.Tests.Fixtures.{toy_cel, toy_json, handler, world, request_of, post}
use kontxt.Tests.Controller.{policy, requirement, txn, durations}
use kontxt.Tests.Extauth.{server, http, generator, entry, queries}
use kontxt.Tests.Deployment.{cluster, wanted, types, generated, asked, analyzed, allowed_rules}

-- Client 1 joins, the controller publishes one rule, and the client reads it.
abbrev checked : Round
checked = service_token_requirement cluster not_found

abbrev start : RuleServer
start = record new_rule_server {
  verification = (subscribe verification_kind.to_proto new_rule_server.verification 1).0;
}

abbrev after : RuleServer
after = handle toy_cel checked start

abbrev resp : Response VerificationRule
resp = record { update = snapshot (map verification_kind.to_proto wanted); version = 1 }

abbrev read_all : RuleServer
read_all = record after {
  verification = record (after.verification) {
    subscribers = insert 1 [] after.verification.subscribers;
  };
}

abbrev view : View verification_kind 1
view = take_in verification_kind 1 [] resp.update

has_room : HasRoom verification_kind 1 start.verification
unfolding new_rule_server subscribe insert lookup
has_room = λ ch e. subst (λ l. ltb (length l) 64 ≡ true) (some_inj e) refl

is_distinct :
    (items : List ServiceTokenRequirement)
    → cluster.list_requirements ≡ ok items
    → Unique verification_key (map (verification_rule toy_cel) items)
is_distinct items got =
    subst (λ l. Unique verification_key (map (verification_rule toy_cel) l)) (ok_inj _ refl got)
      (refl, tt)

checked-History :
    History toy_cel 1
      (verification_side toy_cel 1)
      (record { generation = []; verification = wanted; issuance = [] })
      read_all
      view
unfolding new_rule_server subscribe insert lookup build_snapshot handle perform
    Verification.reconcile Verification.rebuild_verification_rules update_verification_rules
    update_rules push broadcast offer next_version apply store
checked-History =
    received resp []
      (reconciled checked (connected new_rule_server tt)
        (λ items got. (has_room, is_distinct items got)))
      refl

check-verification_History_example :
    Server.check toy_cel (set_verification_rules toy_cel server (values view)) toy_json (some http)
    ≡ Server.check toy_cel (set_verification_rules toy_cel server wanted) toy_json (some http)
unfolding new_rule_server subscribe insert lookup build_snapshot handle perform
    Verification.reconcile Verification.rebuild_verification_rules update_verification_rules
    update_rules push broadcast offer next_version
check-verification_History_example =
    check-verification_History toy_cel 1 server toy_json (some http) checked-History refl

-- The same with a rule of a transaction type.
abbrev typed : Round
typed = transaction_type types not_found

abbrev typed_start : RuleServer
typed_start = record new_rule_server {
  generation = (subscribe generation_kind.to_proto new_rule_server.generation 1).0;
}

abbrev typed_after : RuleServer
typed_after = handle toy_cel typed typed_start

abbrev typed_read : RuleServer
typed_read = record typed_after {
  generation = record (typed_after.generation) {
    subscribers = insert 1 [] typed_after.generation.subscribers;
  };
}

abbrev typed_view : View generation_kind 1
typed_view = take_in generation_kind 1 [] (snapshot (map generation_kind.to_proto generated))

typed-History :
    History toy_cel 1
      (generation_side toy_cel 1)
      (record { generation = generated; verification = []; issuance = [] })
      typed_read
      typed_view
unfolding new_rule_server subscribe insert lookup build_snapshot handle perform Generation.reconcile
    Generation.rebuild_generation_rules update_generation_rules update_rules push broadcast offer
    next_version apply store
typed-History =
    received (record { update = snapshot (map generation_kind.to_proto generated); version = 1 }) []
      (reconciled typed (connected new_rule_server tt) (λ items got. (
        (λ ch e. subst (λ l. ltb (length l) 64 ≡ true) (some_inj e) refl),
        subst (λ l. Unique generation_key (map (Generation.generation_rule types) l))
            (ok_inj _ refl got) (refl, tt),
      )))
      refl

check-generation_History_example :
    Generate.check toy_json queries (set_generation_rules generator (values typed_view)) asked
    ≡ Generate.check toy_json queries (set_generation_rules generator generated) asked
unfolding new_rule_server subscribe insert lookup build_snapshot handle perform Generation.reconcile
    Generation.rebuild_generation_rules update_generation_rules update_rules push broadcast offer
    next_version
check-generation_History_example =
    check-generation_History toy_cel 1 generator types (txn ∷ []) toy_json queries asked analyzed
      typed-History refl refl refl (tt, tt)
