-- ===== src/Tts/Server/Laws.antt =====
-- What a server of a loaded configuration answers, and never answers.
use kontxt.Base.{
  code, String, ◌≡◌, refl, sym, ap, ◌∙◌, ◌≢◌, inl, inr, some, arith, eq_iff, Outcome, ok, err,
  ◌>>=◌, map_err, Outcome-cases, bind-eq-ok, subst, ok_inj,
}
use kontxt.Base.Integers.{ℤ}
use kontxt.Cel.{Cel}
use kontxt.Jwt.{Jwt}
use kontxt.Token
use kontxt.Token.{Claims, TokenError, issuer_required, audience_required, validate_required}
use kontxt.Tts.Config.{Config, validate, load_config, default_key_size, default_token_lifetime}
use kontxt.Tts.Verifier.{VerifyError}
use kontxt.Tts.Handler.{
  Handler, World, new_handler, set_verifier, sign, issuance_claims, replacement_claims,
  handle_issuance, replace, handle_replacement, exchange, read_request, serve_http,
}
use kontxt.Tts.Request.{
  HttpRequest, TokenExchangeRequest, Description, no_verifier, not_created, Failure, failed,
  respond, write_error, write_token,
}
use kontxt.Tts.Server.{
  Server, Platform, new_authenticators, new_local_verifier, new_server, no_key_manager,
}
use kontxt.Keys.{new_manager}

-- The failure does not come from a missing verifier, issuer, or trust domain.
abbrev pub IsNotOfSettings : Description → Type 0
IsNotOfSettings d =
    d ≢ no_verifier × d ≢ not_created issuer_required × d ≢ not_created audience_required

new_failure :
    (jwt : Jwt) (now lifetime : ℤ) (uuid kid : String) (claims : Claims) (key : jwt.PrivateKey)
    (e : TokenError)
    → claims.issuer ≢ ""
    → claims.audience ≢ ""
    → Token.new jwt now uuid claims key kid lifetime ≡ err e
    → e ≢ issuer_required × e ≢ audience_required
unfolding Token.new validate_required
new_failure jwt now lifetime uuid kid claims key e issuer audience failure =
    ground (arith, eq_iff claims.issuer "", eq_iff claims.audience "")

module _ {jwt : Jwt} {cel : Cel} (h : Handler jwt cel) (w : World) (given : h.issuer ≢ "")
    (given' : h.trust_domain ≢ "") where
  sign_failure :
      (c : Claims) (f : Failure)
      → c.issuer ≢ ""
      → c.audience ≢ ""
      → sign h w c ≡ err f
      → IsNotOfSettings f.description
  unfolding sign
  sign_failure c f issuer audience e = grind (arith, new_failure)

  issuance_failure :
      (r : HttpRequest) (req : TokenExchangeRequest) (f : Failure)
      → handle_issuance h w r req ≡ err f
      → IsNotOfSettings f.description
  unfolding handle_issuance issuance_claims
  issuance_failure r req f e = grind (arith, sign_failure, given, given')

  replace_failure :
      (verify : String → Outcome VerifyError Claims) (r : HttpRequest) (req : TokenExchangeRequest)
      (f : Failure)
      → replace h w verify r req ≡ err f
      → IsNotOfSettings f.description
  unfolding replace replacement_claims
  replace_failure verify r req f e = grind (arith, sign_failure, given, given')

  read_failure :
      (r : HttpRequest) (f : Failure) → read_request h w r ≡ err f → IsNotOfSettings f.description
  unfolding read_request
  read_failure r f e = ground arith

  respond_failed :
      (o : Outcome Failure String) (code : String) (d : Description)
      → (respond o).body ≡ failed code d
      → (f : Failure) × (o ≡ err f) × (f.description ≡ d)
  unfolding respond write_error write_token
  respond_failed (ok s) code d e = cc
  respond_failed (err f) code d e = (f, refl, cc)

  module _ (verify : String → Outcome VerifyError Claims) (there : h.verifier ≡ some verify) where
    exchange_failure :
        (r : HttpRequest) (req : TokenExchangeRequest) (f : Failure)
        → exchange h w r req ≡ err f
        → IsNotOfSettings f.description
    unfolding exchange handle_replacement
    exchange_failure r req f e =
        ground (arith, issuance_failure r req f, replace_failure verify r req f, there)

    answer_failure :
        (r : HttpRequest) (f : Failure)
        → (read_request h w r >>= exchange h w r) ≡ err f
        → IsNotOfSettings f.description
    answer_failure r f e = elim (Outcome-cases (read_request h w r)) [
      | inl (req, read) ↦ exchange_failure r req f (rw read at e)
      | inr (g, failure) ↦
          let same : (g ≡ f) = cc (rw failure at e) in read_failure r f (failure ∙ ap err same)
    ]

    pub serve_http_failure :
        (r : HttpRequest) (code : String) (d : Description)
        → (serve_http h w r).body ≡ failed code d
        → IsNotOfSettings d
    unfolding serve_http
    serve_http_failure r code d e =
        let (f, failure, same) = respond_failed _ code d e in
        subst IsNotOfSettings same (answer_failure r f failure)

-- What the handler of a new server has of the configuration.
record IsOfConfig {jwt : Jwt} {cel : Cel} (cfg : Config) (h : Handler jwt cel) : Type 0 where
  same_issuer : h.issuer ≡ cfg.issuer
  same_trust_domain : h.trust_domain ≡ cfg.trust_domain
  verify : String → Outcome VerifyError Claims
  there : h.verifier ≡ some verify

new_server-IsOfConfig :
    {jwt : Jwt} {cel : Cel} (p : Platform jwt) (cfg : Config) (srv : Server jwt cel)
    → new_server p cfg ≡ ok srv
    → IsOfConfig cfg srv.handler
unfolding new_server new_handler set_verifier
new_server-IsOfConfig {jwt} {cel} p cfg srv e =
    let (m, _, rest) =
      bind-eq-ok
        (map_err no_key_manager (
          new_manager p.provider.codec (default_key_size cfg)
            (default_token_lifetime p.parse_duration cfg) p.generated))
        _ e in
    let (auths, _, made) = bind-eq-ok (new_authenticators 0 cfg.subject_tokens) _ rest in
    subst (λ (s : Server jwt cel). IsOfConfig cfg s.handler) (ok_inj _ refl made)
      (record {
        same_issuer = refl;
        same_trust_domain = refl;
        verify = new_local_verifier p m cfg.trust_domain;
        there = refl;
      })

load_config-given :
    (read_file : String → Outcome String String) (unmarshal : String → Outcome String Config)
    (path : String) (cfg : Config)
    → load_config read_file unmarshal path ≡ ok cfg
    → (cfg.issuer ≢ "") × (cfg.trust_domain ≢ "")
unfolding load_config validate
load_config-given read_file unmarshal path cfg e =
    ground (arith, eq_iff cfg.issuer "", eq_iff cfg.trust_domain "")

-- The token endpoint of a server of a loaded configuration never answers that there is no verifier,
-- or that the issuer or the audience of a new token is missing.
pub serve_http-load_config :
    {jwt : Jwt} {cel : Cel} (p : Platform jwt) (read_file : String → Outcome String String)
    (unmarshal : String → Outcome String Config) (path : String) (cfg : Config)
    (srv : Server jwt cel) (w : World) (r : HttpRequest) (code : String) (d : Description)
    → load_config read_file unmarshal path ≡ ok cfg
    → new_server p cfg ≡ ok srv
    → (serve_http srv.handler w r).body ≡ failed code d
    → IsNotOfSettings d
serve_http-load_config p read_file unmarshal path cfg srv w r code d loaded made answered =
    let (issuer, trust_domain) = load_config-given read_file unmarshal path cfg loaded in
    let built = new_server-IsOfConfig p cfg srv made in
    serve_http_failure srv.handler w (λ empty. issuer (sym built.same_issuer ∙ empty))
      (λ empty. trust_domain (sym built.same_trust_domain ∙ empty)) built.verify built.there r code
      d answered
