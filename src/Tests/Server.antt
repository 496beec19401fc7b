-- ===== src/Tests/Server.antt =====
-- The token service built from a configuration.
use kontxt.Base.{refl, none, [], ok, err}
use kontxt.Base.Integers.{pos}
use kontxt.Keys.{generate_key, new_manager, Manager}
use kontxt.Tts.Config.{
  Config, load_config, validate, default_token_lifetime, default_key_size, fifteen_seconds,
}
use kontxt.Tts.Request.{HttpRequest, method_not_allowed, respond, write_error}
use kontxt.Tts.Handler.{serve_http, read_request, set_verifier, new_handler}
use kontxt.Tts.Server.{Server, Platform, new_authenticators, new_server, new_local_verifier}
use kontxt.Tts.Server.Laws.{IsNotOfSettings, serve_http-load_config}
use kontxt.Tests.Fixtures.{toy_cel, text_jwt, world}
use kontxt.Tests.Parsing.{provider}

abbrev settings : Config
settings = record {
  trust_domain = "example.com";
  issuer = "https://tts";
  subject_tokens = [];
  defaults = record { token_lifetime = ""; key_size = 0 };
}

abbrev platform : Platform text_jwt
platform = record {
  now = pos 0;
  parse_duration = λ s. err "no duration";
  generated = ok "k1";
  provider = provider;
  rejection = λ e. "rejected";
  key_message = λ e. "no key";
}

abbrev signing : Manager text_jwt
signing = record {
  current = record { private_key = "k1"; kid = "k1" };
  previous = none;
  key_size = 2048;
  lifetime = fifteen_seconds;
}

abbrev service : Server text_jwt toy_cel
service = record {
  handler =
      set_verifier (new_handler [] signing "https://tts" "example.com" fifteen_seconds)
        (new_local_verifier platform signing "example.com");
  key_manager = signing;
  ready_fn = none;
}

abbrev get : HttpRequest
get = record { method = "GET"; form = none; headers = [] }

serve_http-load_config_example : IsNotOfSettings method_not_allowed
unfolding load_config validate new_server new_authenticators generate_key new_manager
    default_token_lifetime default_key_size serve_http read_request respond write_error
serve_http-load_config_example =
    serve_http-load_config platform (λ path. ok "yaml") (λ data_of. ok settings) "config.yaml"
      settings service world get "invalid_request" method_not_allowed refl refl refl
