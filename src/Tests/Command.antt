-- ===== src/Tests/Command.antt =====
-- The command of the ext_authz services at concrete inputs.
use kontxt.Base.{String, ◌≡◌, refl, true, false, some, [], ◌∷◌, Eq_nat, Eq_string, Outcome, ok, err}
use kontxt.Base.Strings.{to_lower}
use kontxt.Base.Sorting.{sort}
use kontxt.Base.Maps.{lookup}
use kontxt.Sdk.Client.{ExchangeRequest, ExchangeError}
use kontxt.Extauth.Claims.{HttpAttributes, allow}
use kontxt.Extauth.Matching.{get_header}
use kontxt.Extauth.Server.{
  Server, new_server, set_verification_rules, load_verification_rules, check, check_token, admit,
  auto_narrow, check_verification_rules, is_excluded, check_rule_sets, rule_sets,
}
use kontxt.Extauth.Generate.{GenerationServer}
use kontxt.Distribution.Client.{apply_verification, apply, store, values}
use kontxt.Distribution.Stream.{snapshot}
use kontxt.Distribution.Streams.{
  RuleClient, Attempt, verification, opened, received, hand_on, start, deliver, stream, handle,
  handle_all, connect, run, new_rule_client, set_verification_setter, ready,
}
use kontxt.Command.Extauth.{wire, serve, readyz_status}
use kontxt.Command.Extauth.Laws.{check-serve}
use kontxt.Command.Extauth.Unready.{check-readyz_status}
use kontxt.Tests.Fixtures.{toy_cel, toy_json, existing}

abbrev accepting : Server toy_cel String
accepting = new_server toy_cel (λ s. ok existing)

abbrev rule_client : RuleClient GenerationServer (Server toy_cel String)
rule_client = set_verification_setter accepting new_rule_client

abbrev no_exchange : ExchangeRequest → Outcome ExchangeError String
no_exchange r = ok "narrowed"

abbrev http : HttpAttributes
http = record { path = "/"; method = "GET"; body = ""; headers = ("txn-token", "a.b.c") ∷ [] }

abbrev synced : Attempt
synced = record {
  dialled = ok tt;
  events = verification opened ∷ verification (received (snapshot [])) ∷ [];
  done = true;
  done_waiting = false;
}

abbrev unreachable : Attempt
unreachable = record { dialled = err "refused"; events = []; done = false; done_waiting = false }

check-serve_example :
    check toy_cel (set_verification_rules toy_cel accepting []) toy_json (some http) ≡ allow []
unfolding wire serve run connect handle_all handle stream start deliver hand_on
    set_verification_setter new_server new_rule_client set_verification_rules rule_sets
    load_verification_rules ready readyz_status check check_token get_header to_lower lookup
    is_excluded check_verification_rules check_rule_sets admit auto_narrow apply_verification apply
    store values sort
check-serve_example =
    check-serve (λ s. ok existing) no_exchange [] rule_client (synced ∷ [])
      (set_verification_rules toy_cel accepting []) toy_json (some http) [] refl refl refl

check-readyz_status_example : check toy_cel accepting toy_json (some http) ≡ allow []
unfolding wire serve run connect handle_all handle stream start deliver hand_on
    set_verification_setter new_server new_rule_client set_verification_rules rule_sets
    load_verification_rules ready readyz_status check check_token get_header to_lower lookup
    is_excluded check_verification_rules check_rule_sets admit auto_narrow apply_verification apply
    store values
check-readyz_status_example =
    check-readyz_status (λ s. ok existing) no_exchange [] rule_client (unreachable ∷ []) accepting
      toy_json http existing refl refl refl refl refl
