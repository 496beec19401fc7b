-- ===== src/Rules.antt =====
-- internal/controller/rules.go: the rules that the controller publishes.
use kontxt.Base.{String, Bool, List}
use kontxt.Base.Maps.{Map}
use kontxt.Crd.{EndpointSpec, TctxFieldMapping, TctxEnrichment}

-- GenerationRule
pub record GenerationRule : Type 0 where
  pub namespace : String
  pub name : String
  pub endpoint : EndpointSpec
  pub purpose : String
  pub scope : String
  pub tctx_mapping : Map String TctxFieldMapping
  pub tctx_enrichments : List TctxEnrichment
  pub rctx_fields : List String
  pub token_lifetime : String

-- CELRule
pub record CelRule : Type 0 where
  pub name : String
  pub cel : String
  pub message : String

-- VerificationRule
pub record VerificationRule : Type 0 where
  pub namespace : String
  pub name : String
  pub service_name : String
  pub required_scope : String
  pub required_tctx_fields : List String
  pub cel_rules : List CelRule
  pub excluded_endpoints : List EndpointSpec
  pub auto_narrow : Bool

-- IssuanceRule
pub record IssuanceRule : Type 0 where
  pub policy_namespace : String
  pub policy_name : String
  pub rule_name : String
  pub cel : String
  pub message : String
  pub target_namespaces : List String
