-- ===== src/Tests/Loop.antt =====
-- The rule client of the token service at concrete inputs.
use kontxt.Base.{is_some, some, ◌≡◌, refl, ◌↔◌, true, false, none, List, [], ◌∷◌, ok, err}
use kontxt.Rules.{IssuanceRule, GenerationRule, VerificationRule}
use kontxt.Distribution.Streams
use kontxt.Distribution.Streams.{
  RuleClient, Met, opened, received, failed, recv, Event, generation, verification, new_rule_client,
  set_generation_setter, set_verification_setter, handle_all,
}
use kontxt.Distribution.Streams.{ready}
use kontxt.Distribution.Client.{
  apply_generation, apply_verification, apply, values, store, drop_refs,
}
use kontxt.Distribution.Streams.Given.{run-given}
use kontxt.Distribution.Streams.Interleaving.{handle_all-met}
use kontxt.Distribution.Stream.{snapshot, delta}
use kontxt.Distribution.Loop.{Attempt, run}
use kontxt.Distribution.Loop.Laws.{lists_of_all, last_compiled}
use kontxt.Distribution.Loop.Waits.{run-waits_from}
use kontxt.Tts.Server.{Server, readyz, plain}
use kontxt.Command.{wire}
use kontxt.Command.Laws.{readyz-wire}
use kontxt.Tests.Fixtures.{toy_jwt, toy_cel, handler, manager, differ}

abbrev good : IssuanceRule
good = record {
  policy_namespace = "";
  policy_name = "limits";
  rule_name = "good";
  cel = "true";
  message = "";
  target_namespaces = [];
}

-- One connection that is refused, and one that brings a snapshot until the context is done.
abbrev refused : Attempt
refused = record {
  connection = record {
    dialled = err "refused";
    opened = ok tt;
    sent = ok tt;
    received = [];
    broken = "";
  };
  done = false;
  done_waiting = false;
}

abbrev served : Attempt
served = record {
  connection = record {
    dialled = ok tt;
    opened = ok tt;
    sent = ok tt;
    received = snapshot (good ∷ []) ∷ [];
    broken = "EOF";
  };
  done = true;
  done_waiting = false;
}

abbrev fresh : Server toy_jwt toy_cel
fresh = record {
  handler = record handler { issuance_rules = none };
  key_manager = manager;
  ready_fn = none;
}

run-waits_from_example :
    ((run
        (refused ∷ refused ∷ served ∷ [])
        500
        (record { handler = fresh.handler; synced = false })).1
      ≡ 500 ∷ 1000 ∷ [])
    × ((run
          (refused ∷ refused ∷ served ∷ [])
          500
          (record { handler = fresh.handler; synced = false })).2
        ≡ true)
run-waits_from_example =
    run-waits_from (refused ∷ refused ∷ served ∷ [])
      (record { handler = fresh.handler; synced = false })

readyz-wire_example :
    ((wire fresh "controller:9090" (refused ∷ served ∷ [])).handler.issuance_rules
      ≡ last_compiled none (lists_of_all (refused ∷ served ∷ [])))
    × ((readyz (wire fresh "controller:9090" (refused ∷ served ∷ [])) ≡ plain 200 "ready") ↔ (
        is_some (last_compiled {cel = toy_cel} none (lists_of_all (refused ∷ served ∷ []))) ≡ true))
readyz-wire_example =
    readyz-wire fresh "controller:9090" (refused ∷ served ∷ []) (differ "controller:9090" "" refl)
      refl

-- An ext_authz client with both setters, each of which keeps the list that it is given.
abbrev ext_authz : RuleClient (List GenerationRule) (List VerificationRule)
ext_authz = set_verification_setter [] (set_generation_setter [] new_rule_client)

abbrev empty_delta : {P : Type 0} → Met P
empty_delta = received (delta [] [])

abbrev both_streams : List Event
both_streams =
    generation opened
    ∷ verification opened
    ∷ verification empty_delta
    ∷ generation empty_delta
    ∷ generation (failed (recv "EOF"))
    ∷ []

abbrev one_after_another : List Event
one_after_another =
    generation opened
    ∷ generation empty_delta
    ∷ generation (failed (recv "EOF"))
    ∷ verification opened
    ∷ verification empty_delta
    ∷ []

abbrev lost : Streams.Attempt
lost = record { dialled = ok tt; events = both_streams; done = false; done_waiting = false }

run-given_example :
    ((Streams.run (λ rs _. rs) (λ rs _. rs) (lost ∷ []) 500 ext_authz).0.gen.setter ≡ some [])
    × ((Streams.run (λ rs _. rs) (λ rs _. rs) (lost ∷ []) 500 ext_authz).0.ver.setter ≡ some [])
    × (ready (Streams.run (λ rs _. rs) (λ rs _. rs) (lost ∷ []) 500 ext_authz).0 ≡ true)
unfolding new_rule_client set_generation_setter set_verification_setter apply_generation
    apply_verification apply values store drop_refs
run-given_example =
    run-given (λ rs _. rs) (λ rs _. rs) ext_authz (lost ∷ []) 500 refl refl refl refl

handle_all-met_example :
    (handle_all (λ rs _. rs) (λ rs _. rs) both_streams ext_authz).0
    ≡ (handle_all (λ rs _. rs) (λ rs _. rs) one_after_another ext_authz).0
handle_all-met_example =
    handle_all-met (λ rs _. rs) (λ rs _. rs) both_streams one_after_another ext_authz refl refl
