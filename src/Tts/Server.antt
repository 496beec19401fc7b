-- ===== src/Tts/Server.antt =====
-- pkg/tts/server.go: the token service built from its configuration, and its routes.
pub mod Laws
use kontxt.Base.{
  ℕ, ◌+◌, String, Option, none, some, List, [], ◌∷◌, map, Outcome, ok, err, ◌>>=◌, map_err,
}
use kontxt.Base.Integers.{ℤ}
use kontxt.Cel.{Cel}
use kontxt.Jwt.{Jwt}
use kontxt.Token.{Claims}
use kontxt.Keys.{Manager, KeyCodec, JwksReply, new_manager, jwks_handler}
use kontxt.Authn.{Authenticator}
use kontxt.Authn.Config.{AuthenticatorConfig}
use kontxt.Authn.Oidc.{OidcAuthenticator, NewError, OidcError, new_oidc_authenticator}
use kontxt.Authn.Oidc.Keys.{Provider, as_authenticator}
use kontxt.Tts.Config.{Config, default_token_lifetime, default_key_size}
use kontxt.Tts.Verifier
use kontxt.Tts.Handler.{Handler, World, new_handler, set_verifier, serve_http}
use kontxt.Tts.Request.{HttpRequest, Reply}

-- Server; the routes are `serve`.
pub record Server (jwt : Jwt) (cel : Cel) : Type 0 where
  pub handler : Handler jwt cel
  pub key_manager : Manager jwt
  pub ready_fn : Option (Outcome String (Unit {0}))

-- The errors of `NewServer`.
pub data ServerError : Type 0 where
  no_key_manager : String → ServerError
  no_authenticator : ℕ → String → NewError → ServerError

-- What the service takes from outside: time.ParseDuration, what rsa.GenerateKey returns, the providers
-- of subject tokens, and how errors are rendered. The authenticators and the verifier read the clock
-- here, so that a server of the model stands for the service at one time.
pub record Platform (jwt : Jwt) : Type 1 where
  pub now : ℤ
  pub parse_duration : String → Outcome String ℤ
  pub generated : Outcome String jwt.PrivateKey
  pub provider : Provider jwt
  pub rejection : OidcError → String
  pub key_message : Verifier.KeyError → String

-- The patterns of the routes, of which the mux picks one.
pub data Pattern : Type 0 where
  post_token_endpoint get_jwks get_healthz get_readyz : Pattern

pub data Response : Type 0 where
  token_reply : Reply → Response
  key_set : JwksReply → Response
  plain : ℕ → String → Response

-- newLocalVerifier
unfoldable pub new_local_verifier :
    {jwt : Jwt} → Platform jwt → Manager jwt → String → String → Outcome Verifier.VerifyError Claims
new_local_verifier p m audience token =
    Verifier.verify p.provider.codec p.key_message m audience p.now token

module _ {jwt : Jwt} {cel : Cel} where
  -- The loop of `NewServer` over the configured authenticators.
  unfoldable pub new_authenticators :
      ℕ → List AuthenticatorConfig → Outcome ServerError (List (OidcAuthenticator jwt cel))
  new_authenticators i [] = ok []
  new_authenticators i (config ∷ configs) = do
    auth ← map_err (no_authenticator i config.issuer.url) (new_oidc_authenticator config)
    auths ← new_authenticators (i + 1) configs
    ok (auth ∷ auths)

  module _ (p : Platform jwt) where
    -- NewServer
    unfoldable pub new_server : Config → Outcome ServerError (Server jwt cel)
    new_server cfg = do
      m ← map_err no_key_manager (
          new_manager p.provider.codec (default_key_size cfg)
            (default_token_lifetime p.parse_duration cfg) p.generated)
      auths ← new_authenticators 0 cfg.subject_tokens
      ok (record {
        handler =
            set_verifier
              (new_handler (map (as_authenticator p.provider p.now p.rejection) auths) m cfg.issuer
                cfg.trust_domain (default_token_lifetime p.parse_duration cfg))
              (new_local_verifier p m cfg.trust_domain);
        key_manager = m;
        ready_fn = none;
      })

  -- SetReadyCheck
  unfoldable pub set_ready_check :
      Server jwt cel → Option (Outcome String (Unit {0})) → Server jwt cel
  set_ready_check s fn = record s { ready_fn = fn }

  -- The handler of `GET /readyz`.
  unfoldable pub readyz : Server jwt cel → Response
  readyz s = elim s.ready_fn [
    | none ↦ plain 200 "ready"
    | some check ↦ elim check [ ok _ ↦ plain 200 "ready" | err e ↦ plain 503 e ]
  ]

  -- The handlers of the mux.
  unfoldable pub serve : KeyCodec jwt → Server jwt cel → World → Pattern → HttpRequest → Response
  unfolding readyz
  serve codec s w post_token_endpoint r = token_reply (serve_http s.handler w r)
  serve codec s w get_jwks r = key_set (jwks_handler codec s.key_manager r.method)
  serve codec s w get_healthz r = plain 200 "ok"
  serve codec s w get_readyz r = readyz s
