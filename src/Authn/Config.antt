-- ===== src/Authn/Config.antt =====
-- pkg/authn/types.go: the configuration of an authenticator.
use kontxt.Base.{String, List}

-- IssuerConfig
pub record IssuerConfig : Type 0 where
  pub url : String
  pub discovery_url : String
  pub audiences : List String
  pub audience_match_policy : String

-- ClaimValidationRule
pub record ClaimValidationRule : Type 0 where
  pub expression : String
  pub message : String

-- ClaimOrExpression
pub record ClaimOrExpression : Type 0 where
  pub claim : String
  pub expression : String

-- ExtraMapping
pub record ExtraMapping : Type 0 where
  pub key : String
  pub value_expression : String

-- ClaimMappings
pub record ClaimMappings : Type 0 where
  pub subject : ClaimOrExpression
  pub extra : List ExtraMapping

-- AuthenticatorConfig
pub record AuthenticatorConfig : Type 0 where
  pub issuer : IssuerConfig
  pub claim_validation_rules : List ClaimValidationRule
  pub claim_mappings : ClaimMappings
