-- ===== src/Tests/EndToEnd/Issuing.antt =====
-- A history of the token policies at a concrete input.
use kontxt.Base.{
  ◌⊎◌, ◌≡◌, refl, true, [], ◌∷◌, map, ltb, Eq_nat, Eq_string, length, All, ok, subst, some_inj,
  ok_inj,
}
use kontxt.Base.Maps.{lookup, insert}
use kontxt.Controller.Conditions.{not_found}
use kontxt.Controller.Issuance
use kontxt.Distribution.Stream.{
  update_rules, push, subscribe, build_snapshot, snapshot, broadcast, offer, next_version,
}
use kontxt.Distribution.Server.{
  RuleServer, new_rule_server, issuance_key, Eq_issuance_key, Eq_rule_key, update_issuance_rules,
}
use kontxt.Distribution.Laws.{Unique}
use kontxt.Distribution.Client.{values, flatten, apply, store}
use kontxt.Distribution.Sync.{View, take_in}
use kontxt.Distribution.Kinds.{issuance_kind}
use kontxt.Base.Sorting.{sort, insert_sorted}
use kontxt.Base.Strings.{split, span_parts}
use kontxt.Authn.{SubjectInfo, authenticate, extract_issuer}
use kontxt.Token
use kontxt.Token.{validate_required, subject_token_type_access_token as bearer}
use kontxt.Keys.{signing_key}
use kontxt.Controller.Issuance.{
  rules_of_all, rules_of, publishable, validate_issuance_cel, compile_each,
  resolve_target_namespaces,
}
use kontxt.Tts.Rules.{
  compile_issuance_rules, compile_from, compile_rule, new_issuance_env, evaluate_issuance_rules,
  check_rules, check_rule, verdict, rule_applies_to_namespace,
}
use kontxt.Tts.Handler.{
  handle_issuance, sign, issuance_claims, check_policy, load_issuance_rules, set_issuance_rules,
}
use kontxt.Tts.Handler.Laws.{policy_activation}
use kontxt.Tts.Request.{identify_workload}
use kontxt.Distribution.Setter.{config_of, apply_issuance_rules}
use kontxt.Distribution.Proto.{issuance_rule_to_proto, proto_to_issuance_rule}
use kontxt.Deployment.Issuing.{IsEnforced}
use kontxt.Deployment.Policies.{OnOk, IsReported}
use kontxt.Command.Controller.{Round, token_policy, handle, perform}
use kontxt.Deployment.History.{History, connected, reconciled, received}
use kontxt.Deployment.History.Sides.{issuance_side}
use kontxt.Deployment.EndToEnd.{handle_issuance-History}
use kontxt.Tests.Fixtures.{toy_cel, handler, world, request_of, post}
use kontxt.Tests.Deployment.{everywhere, allowed_rules}

-- Client 1 joins, the controller publishes the rule of a policy, and the client reads it.
abbrev policies : Issuance.Cluster
policies = record {
  list_policies = ok (everywhere ∷ []);
  status_update = ok tt;
  now = 7;
  has_publisher = true;
  render = λ errors. "";
}

abbrev ruled : Round
ruled = token_policy policies not_found

abbrev ruled_start : RuleServer
ruled_start = record new_rule_server {
  issuance = (subscribe issuance_kind.to_proto new_rule_server.issuance 1).0;
}

abbrev ruled_after : RuleServer
ruled_after = handle toy_cel ruled ruled_start

abbrev ruled_read : RuleServer
ruled_read = record ruled_after {
  issuance = record (ruled_after.issuance) {
    subscribers = insert 1 [] ruled_after.issuance.subscribers;
  };
}

abbrev ruled_view : View issuance_kind 1
ruled_view = take_in issuance_kind 1 [] (snapshot (map issuance_kind.to_proto allowed_rules))

allowed-Unique : Unique issuance_key allowed_rules
unfolding rules_of_all rules_of publishable validate_issuance_cel compile_issuance_rules
    compile_from compile_rule new_issuance_env compile_each
allowed-Unique = (refl, tt)

ruled-History :
    History toy_cel 1
      (issuance_side toy_cel 1)
      (record { generation = []; verification = []; issuance = allowed_rules })
      ruled_read
      ruled_view
unfolding new_rule_server subscribe insert lookup build_snapshot handle perform Issuance.reconcile
    Issuance.rebuild_issuance_rules update_issuance_rules update_rules push broadcast offer
    next_version apply store
ruled-History =
    received (record { update = snapshot (map issuance_kind.to_proto allowed_rules); version = 1 })
      []
      (reconciled ruled (connected new_rule_server tt) (λ items got. (
        (λ ch e. subst (λ l. ltb (length l) 64 ≡ true) (some_inj e) refl),
        subst (λ l. Unique issuance_key (rules_of_all toy_cel l)) (ok_inj _ refl got)
            allowed-Unique,
      )))
      refl

-- A token is issued.
ruled_token :
    handle_issuance
      (apply_issuance_rules handler (flatten ruled_view)).0
      world
      post
      (request_of "a.b.c" bearer)
    ≡ ok "signed"
unfolding new_rule_server subscribe build_snapshot handle perform Issuance.reconcile
    Issuance.rebuild_issuance_rules update_issuance_rules update_rules push broadcast offer
    next_version insert lookup rules_of_all rules_of publishable validate_issuance_cel
    compile_issuance_rules compile_from compile_rule new_issuance_env compile_each handle_issuance
    sign Token.new validate_required identify_workload issuance_claims signing_key authenticate
    extract_issuer split span_parts check_policy evaluate_issuance_rules check_rules check_rule
    verdict rule_applies_to_namespace load_issuance_rules apply_issuance_rules set_issuance_rules
    flatten values sort insert_sorted apply store config_of proto_to_issuance_rule
    issuance_rule_to_proto resolve_target_namespaces
ruled_token = refl

handle_issuance-History_example :
    ((apply_issuance_rules handler (flatten ruled_view)).1 ≡ ok tt)
    × OnOk
        (λ token.
          (info : SubjectInfo) × (authenticate world.payload_issuer handler.router "a.b.c"
            ≡ ok info)
          × All
              (λ p.
                All
                  (λ ir.
                    IsReported toy_cel p ir
                    ⊎ IsEnforced toy_cel
                        (policy_activation handler world info
                          (identify_workload post)
                          (request_of "a.b.c" bearer))
                        ir.cel
                        (resolve_target_namespaces p.spec.target_namespaces))
                  p.spec.issuance_rules)
              (everywhere ∷ []))
        (handle_issuance
          (apply_issuance_rules handler (flatten ruled_view)).0
          world
          post
          (request_of "a.b.c" bearer))
unfolding new_rule_server subscribe build_snapshot handle perform Issuance.reconcile
    Issuance.rebuild_issuance_rules update_issuance_rules update_rules push broadcast offer
    next_version insert lookup
handle_issuance-History_example =
    handle_issuance-History toy_cel 1 handler world (everywhere ∷ []) post
      (request_of "a.b.c" bearer) ruled-History refl refl
