-- ===== src/Tests/Controller.antt =====
-- The controller at concrete inputs.
use kontxt.Base.{
  String, ◌≡◌, ◌↔◌, true, none, some, [], ◌∷◌, if◌then◌else◌, ◌==◌, Eq_nat, Eq_string, Outcome, ok,
  err,
}
use kontxt.Base.Integers.{ℤ, pos}
use kontxt.Crd.{NamedCel, ServiceTokenRequirement, TokenPolicy, TransactionType}
use kontxt.Distribution.Setter.{apply_issuance_rules}
use kontxt.Controller.Issuance
use kontxt.Controller.Issuance.{compile_each, validate_issuance_cel, rules_of_all}
use kontxt.Controller.Issuance.Laws.{rules_of_all-accepted}
use kontxt.Controller.Policy.{validate_against_policy, find_applicable_policy, find_matching}
use kontxt.Controller.Policy.Laws.{
  Complies, validate_against_policy_iff, find_applicable_policy-find_matching,
}
use kontxt.Tests.Fixtures.{toy_cel, handler}

abbrev pub good : NamedCel
good = record { name = "good"; cel = "true"; message = "" }

abbrev pub empty : NamedCel
empty = record { name = "empty"; cel = ""; message = "" }

abbrev pub policy : TokenPolicy
policy = record {
  name = "limits";
  spec = record {
    target_namespaces = some (record { match_names = "prod" ∷ []; match_labels = [] });
    constraints = record {
      max_token_lifetime = "30s";
      mandatory_tctx_fields = "purpose" ∷ "dataset" ∷ [];
      mandatory_rctx_fields = [];
      disallowed_enrichers = "geo" ∷ [];
    };
    issuance_rules = good ∷ empty ∷ [];
    access_evaluation_webhook = none;
  };
  conditions = [];
}

abbrev pub txn : TransactionType
txn = record {
  name = "analyze";
  namespace = "prod";
  spec = record {
    endpoint = record { path = "/analyze"; method = "POST" };
    purpose = "analysis";
    scope = "read";
    tctx_mapping = ("dataset", record { source = "body"; field = "id"; required = true }) ∷ [];
    tctx_enrichments = [];
    rctx_fields = [];
    token_lifetime = "15s";
  };
  status = record { conditions = []; produced_tctx_fields = []; effective_token_lifetime = "" };
}

abbrev pub requirement : ServiceTokenRequirement
requirement = record {
  name = "reader";
  namespace = "prod";
  spec = record {
    service_name = "reader";
    verification = record {
      required_scope = "read";
      required_tctx_fields = [];
      rules = good ∷ empty ∷ [];
    };
    excluded_endpoints = [];
    auto_narrow = true;
  };
  status = record { conditions = []; active_verification_rules = 0; excluded_endpoint_count = 0 };
}

-- Durations of a few texts.
abbrev pub durations : String → Outcome String ℤ
durations s = if s == "15s" then ok (pos 15) else if s == "30s" then ok (pos 30) else err "unknown"

rules_of_all-accepted_example :
    (apply_issuance_rules handler (rules_of_all toy_cel (policy ∷ []))).1 ≡ ok tt
rules_of_all-accepted_example = rules_of_all-accepted toy_cel handler (policy ∷ [])

validate_against_policy_iff_example :
    (validate_against_policy durations txn (some policy) ≡ []) ↔ Complies durations txn policy
validate_against_policy_iff_example = validate_against_policy_iff durations txn policy

find_applicable_policy-find_matching_example :
    find_applicable_policy (policy ∷ []) "prod" ≡ find_matching (policy ∷ []) "prod"
find_applicable_policy-find_matching_example =
    find_applicable_policy-find_matching (policy ∷ []) "prod"

abbrev cluster : Issuance.Cluster
cluster = record {
  list_policies = ok (policy ∷ []);
  status_update = ok tt;
  now = 7;
  has_publisher = true;
  render = λ errors. "errors";
}
