-- ===== src/Crd.antt =====
-- api/v1alpha1: the custom resources, with the fields that the controller reads and writes. Of the
-- object's metadata the name and the namespace are kept.
use kontxt.Base.{ℕ, String, Bool, Option, List}
use kontxt.Base.Maps.{Map}

-- EndpointSpec
pub record EndpointSpec : Type 0 where
  pub path : String
  pub method : String

-- TctxFieldMapping
pub record TctxFieldMapping : Type 0 where
  pub source : String
  pub field : String
  pub required : Bool

-- TctxEnrichment
pub record TctxEnrichment : Type 0 where
  pub field : String
  pub enricher : String

-- metav1.Condition, of Kubernetes; the time is a number.
pub record Condition : Type 0 where
  pub type_of : String
  pub status : String
  pub reason : String
  pub message : String
  pub last_transition_time : ℕ

-- TransactionTypeSpec
pub record TransactionTypeSpec : Type 0 where
  pub endpoint : EndpointSpec
  pub purpose : String
  pub scope : String
  pub tctx_mapping : Map String TctxFieldMapping
  pub tctx_enrichments : List TctxEnrichment
  pub rctx_fields : List String
  pub token_lifetime : String

-- TransactionTypeStatus
pub record TransactionTypeStatus : Type 0 where
  pub conditions : List Condition
  pub produced_tctx_fields : List String
  pub effective_token_lifetime : String

-- TransactionType
pub record TransactionType : Type 0 where
  pub name : String
  pub namespace : String
  pub spec : TransactionTypeSpec
  pub status : TransactionTypeStatus

-- VerificationRule, and the IssuanceRule of a policy, which has the same fields
pub record NamedCel : Type 0 where
  pub name : String
  pub cel : String
  pub message : String

-- VerificationSpec
pub record VerificationSpec : Type 0 where
  pub required_scope : String
  pub required_tctx_fields : List String
  pub rules : List NamedCel

-- ServiceTokenRequirementSpec; `service_name` is ServiceRef.Name.
pub record ServiceTokenRequirementSpec : Type 0 where
  pub service_name : String
  pub verification : VerificationSpec
  pub excluded_endpoints : List EndpointSpec
  pub auto_narrow : Bool

-- ServiceTokenRequirementStatus
pub record ServiceTokenRequirementStatus : Type 0 where
  pub conditions : List Condition
  pub active_verification_rules : ℕ
  pub excluded_endpoint_count : ℕ

-- ServiceTokenRequirement
pub record ServiceTokenRequirement : Type 0 where
  pub name : String
  pub namespace : String
  pub spec : ServiceTokenRequirementSpec
  pub status : ServiceTokenRequirementStatus

-- NamespaceSelector
pub record NamespaceSelector : Type 0 where
  pub match_names : List String
  pub match_labels : Map String String

-- PolicyConstraints
pub record PolicyConstraints : Type 0 where
  pub max_token_lifetime : String
  pub mandatory_tctx_fields : List String
  pub mandatory_rctx_fields : List String
  pub disallowed_enrichers : List String

-- WebhookConfig
pub record WebhookConfig : Type 0 where
  pub enabled : Bool
  pub endpoint : String
  pub failure_policy : String

-- TokenPolicySpec, without the two fields of Kubernetes' label selectors, which no code reads.
pub record TokenPolicySpec : Type 0 where
  pub target_namespaces : Option NamespaceSelector
  pub constraints : PolicyConstraints
  pub issuance_rules : List NamedCel
  pub access_evaluation_webhook : Option WebhookConfig

-- TokenPolicy
pub record TokenPolicy : Type 0 where
  pub name : String
  pub spec : TokenPolicySpec
  pub conditions : List Condition
