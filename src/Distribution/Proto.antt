-- ===== src/Distribution/Proto.antt =====
-- The messages of the RuleDiscoveryService, and the conversions of ruleserver/server.go and of the
-- clients. A missing repeated field is the empty list.
pub mod Laws
use kontxt.Base.{
  String, not, ◌||◌, Option, none, some, List, [], ◌∷◌, ◌++◌, map, if◌then◌else◌, ◌==◌, Eq_nat,
  Eq_string,
}
use kontxt.Base.Maps.{Map}
use kontxt.Crd.{EndpointSpec, TctxFieldMapping, TctxEnrichment}
use kontxt.Rules.{GenerationRule, CelRule, VerificationRule, IssuanceRule}

-- rulesv1.GenerationRule; the other messages have the fields of the controller's types, so their
-- types are those.
pub record GenerationMessage : Type 0 where
  pub namespace : String
  pub name : String
  pub endpoint : Option EndpointSpec
  pub purpose : String
  pub scope : String
  pub tctx_mapping : Map String TctxFieldMapping
  pub tctx_enrichments : List TctxEnrichment
  pub rctx_fields : List String
  pub token_lifetime : String

-- The loops that copy a mapping, a list of enrichments, of CEL rules and of endpoints.
unfoldable pub copy_mapping : Map String TctxFieldMapping → Map String TctxFieldMapping
copy_mapping [] = []
copy_mapping ((k, v) ∷ m) =
    (k, record { source = v.source; field = v.field; required = v.required }) ∷ copy_mapping m

unfoldable pub copy_enrichments : List TctxEnrichment → List TctxEnrichment
copy_enrichments es = map (λ e. record { field = e.field; enricher = e.enricher }) es

unfoldable pub copy_cel_rules : List CelRule → List CelRule
copy_cel_rules cs = map (λ c. record { name = c.name; cel = c.cel; message = c.message }) cs

-- endpointToProto
unfoldable pub endpoint_to_proto : EndpointSpec → EndpointSpec
endpoint_to_proto e = record { path = e.path; method = e.method }

-- generationRuleToProto
unfoldable pub generation_rule_to_proto : GenerationRule → GenerationMessage
generation_rule_to_proto r = record {
  namespace = r.namespace;
  name = r.name;
  endpoint =
      if not (r.endpoint.path == "") || not (r.endpoint.method == "")
      then some (endpoint_to_proto r.endpoint)
      else none;
  purpose = r.purpose;
  scope = r.scope;
  tctx_mapping = copy_mapping r.tctx_mapping;
  tctx_enrichments = copy_enrichments r.tctx_enrichments;
  rctx_fields = r.rctx_fields;
  token_lifetime = r.token_lifetime;
}

-- verificationRuleToProto
unfoldable pub verification_rule_to_proto : VerificationRule → VerificationRule
verification_rule_to_proto r = record {
  namespace = r.namespace;
  name = r.name;
  service_name = r.service_name;
  required_scope = r.required_scope;
  required_tctx_fields = r.required_tctx_fields;
  cel_rules = copy_cel_rules r.cel_rules;
  excluded_endpoints = map endpoint_to_proto r.excluded_endpoints;
  auto_narrow = r.auto_narrow;
}

-- issuanceRuleToProto
unfoldable pub issuance_rule_to_proto : IssuanceRule → IssuanceRule
issuance_rule_to_proto r = record {
  policy_namespace = r.policy_namespace;
  policy_name = r.policy_name;
  rule_name = r.rule_name;
  cel = r.cel;
  message = r.message;
  target_namespaces = [] ++ r.target_namespaces;
}

-- protoToGenerationRule
unfoldable pub proto_to_generation_rule : GenerationMessage → GenerationRule
proto_to_generation_rule pr = record {
  namespace = pr.namespace;
  name = pr.name;
  endpoint = elim pr.endpoint [
    | none ↦ record { path = ""; method = "" }
    | some ep ↦ record { path = ep.path; method = ep.method }
  ];
  purpose = pr.purpose;
  scope = pr.scope;
  tctx_mapping = copy_mapping pr.tctx_mapping;
  tctx_enrichments = copy_enrichments pr.tctx_enrichments;
  rctx_fields = pr.rctx_fields;
  token_lifetime = pr.token_lifetime;
}

-- protoToVerificationRule
unfoldable pub proto_to_verification_rule : VerificationRule → VerificationRule
proto_to_verification_rule pr = record {
  namespace = pr.namespace;
  name = pr.name;
  service_name = pr.service_name;
  required_scope = pr.required_scope;
  required_tctx_fields = pr.required_tctx_fields;
  cel_rules = copy_cel_rules pr.cel_rules;
  excluded_endpoints = map (λ e. record { path = e.path; method = e.method }) pr.excluded_endpoints;
  auto_narrow = pr.auto_narrow;
}

-- protoToIssuanceRule
unfoldable pub proto_to_issuance_rule : IssuanceRule → IssuanceRule
proto_to_issuance_rule pr = record {
  policy_namespace = pr.policy_namespace;
  policy_name = pr.policy_name;
  rule_name = pr.rule_name;
  cel = pr.cel;
  message = pr.message;
  target_namespaces = [] ++ pr.target_namespaces;
}
