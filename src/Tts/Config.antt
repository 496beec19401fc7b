-- ===== src/Tts/Config.antt =====
-- pkg/tts/config.go: the configuration of the token service, its defaults and its validation.
use kontxt.Base.{
  ℕ, ◌*◌, String, not, List, if◌then◌else◌, ◌==◌, Eq_nat, Eq_string, Outcome, ok, err, ◌>>=◌, ◌>>◌,
  guard, map_err,
}
use kontxt.Base.Integers.{ℤ, pos}
use kontxt.Token.{second}
use kontxt.Authn.Config.{AuthenticatorConfig}

-- TokenDefaults; no key size is below zero here.
pub record TokenDefaults : Type 0 where
  pub token_lifetime : String
  pub key_size : ℕ

-- Config
pub record Config : Type 0 where
  pub trust_domain : String
  pub issuer : String
  pub subject_tokens : List AuthenticatorConfig
  pub defaults : TokenDefaults

-- The errors of `Validate` and `LoadConfig`.
pub data ConfigError : Type 0 where
  trust_domain_required issuer_required : ConfigError
  reading parsing : String → ConfigError

abbrev pub fifteen_seconds : ℤ
fifteen_seconds = pos (15 * second)

-- DefaultTokenLifetime; `parse_duration` is time.ParseDuration.
unfoldable pub default_token_lifetime : (String → Outcome String ℤ) → Config → ℤ
default_token_lifetime parse_duration c =
    if c.defaults.token_lifetime == ""
    then fifteen_seconds
    else elim (parse_duration c.defaults.token_lifetime) [ err _ ↦ fifteen_seconds | ok d ↦ d ]

-- DefaultKeySize
unfoldable pub default_key_size : Config → ℕ
default_key_size c = if c.defaults.key_size == 0 then 2048 else c.defaults.key_size

-- Validate
unfoldable pub validate : Config → Outcome ConfigError (Unit {0})
validate c = do
  guard (not (c.trust_domain == "")) trust_domain_required
  guard (not (c.issuer == "")) issuer_required
  ok tt

-- LoadConfig, over os.ReadFile and yaml.Unmarshal
unfoldable pub load_config :
    (String → Outcome String String)
    → (String → Outcome String Config)
    → String
    → Outcome ConfigError Config
load_config read_file unmarshal path = do
  data_of ← map_err reading (read_file path)
  cfg ← map_err parsing (unmarshal data_of)
  validate cfg
  ok cfg
