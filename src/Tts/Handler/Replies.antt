-- ===== src/Tts/Handler/Replies.antt =====
-- Which status the token endpoint answers with, and when it hands out a token.
use kontxt.Base.{
  String, ◌≡◌, refl, ◌≢◌, ◌↔◌, ◌⊎◌, inl, inr, arith, eq_iff, ◌==◌, Eq_nat, Eq_string, Bool-cases,
  Option-cases, Outcome, ok, err, Outcome-cases, bind-eq-ok,
}
use kontxt.Cel.{Cel}
use kontxt.Jwt.{Jwt}
use kontxt.Token.{Claims, subject_token_type_txn_token}
use kontxt.Tts.Verifier.{VerifyError}
use kontxt.Tts.Handler.{
  Handler, World, sign, handle_issuance, replace, handle_replacement, exchange, read_request,
  serve_http,
}
use kontxt.Tts.Request.{
  HttpRequest, TokenExchangeRequest, Failure, exchanged, respond, TokenExchangeResponse,
}
use kontxt.Tts.Handler.Laws.{Replaced, Issued, handle_replacement-Replaced, handle_issuance-Issued}

-- The statuses of the failures behind the dispatch.
abbrev IsExchangeFailure : Failure → Type 0
IsExchangeFailure f = (f.status ≡ 401) ⊎ (f.status ≡ 403) ⊎ (f.status ≡ 500)

abbrev IsReadFailure : Failure → Type 0
IsReadFailure f = (f.status ≡ 405) ⊎ (f.status ≡ 400)

module _ {jwt : Jwt} {cel : Cel} (h : Handler jwt cel) (w : World) where
  sign_failure : (c : Claims) (f : Failure) → sign h w c ≡ err f → f.status ≡ 500
  unfolding sign
  sign_failure c f e = ground arith

  issuance_failure :
      (r : HttpRequest) (req : TokenExchangeRequest) (f : Failure)
      → handle_issuance h w r req ≡ err f
      → IsExchangeFailure f
  unfolding handle_issuance
  issuance_failure r req f e = grind (arith, sign_failure)

  replace_failure :
      (verify : String → Outcome VerifyError Claims) (r : HttpRequest) (req : TokenExchangeRequest)
      (f : Failure)
      → replace h w verify r req ≡ err f
      → IsExchangeFailure f
  unfolding replace
  replace_failure verify r req f e = grind (arith, sign_failure)

  replacement_failure :
      (r : HttpRequest) (req : TokenExchangeRequest) (f : Failure)
      → handle_replacement h w r req ≡ err f
      → IsExchangeFailure f
  unfolding handle_replacement
  replacement_failure r req f e = elim (Option-cases h.verifier) [
    | inl missing ↦ inr (inr (ground (arith, rw (missing, handle_replacement) at e)))
    | inr (verify, there) ↦ replace_failure verify r req f (rw (there, handle_replacement) at e)
  ]

  exchange_failure :
      (r : HttpRequest) (req : TokenExchangeRequest) (f : Failure)
      → exchange h w r req ≡ err f
      → IsExchangeFailure f
  unfolding exchange
  exchange_failure r req f e = ground (arith, issuance_failure r req f, replacement_failure r req f)

  read_failure :
      (r : HttpRequest) (f : Failure)
      → read_request h w r ≡ err f
      → ((f.status ≡ 405) × (r.method ≢ "POST")) ⊎ ((f.status ≡ 400) × (r.method ≡ "POST"))
  unfolding read_request
  read_failure r f e = ground (arith, eq_iff r.method "POST")

  read_is_post :
      (r : HttpRequest) (req : TokenExchangeRequest)
      → read_request h w r ≡ ok req
      → r.method ≡ "POST"
  unfolding read_request
  read_is_post r req e = ground (arith, eq_iff r.method "POST")

  -- What stands behind a response with a token.
  pub record Granted (r : HttpRequest) (t : TokenExchangeResponse) : Type 0 where
    pub req : TokenExchangeRequest
    pub is_post : r.method ≡ "POST"
    pub read : read_request h w r ≡ ok req
    pub origin :
        ((req.subject_token_type ≡ subject_token_type_txn_token) × Replaced h w req t.access_token)
        ⊎ ((req.subject_token_type ≢ subject_token_type_txn_token)
            × Issued h w r req t.access_token)

  exchange_origin :
      (r : HttpRequest) (req : TokenExchangeRequest) (s : String)
      → exchange h w r req ≡ ok s
      → ((req.subject_token_type ≡ subject_token_type_txn_token) × Replaced h w req s)
        ⊎ ((req.subject_token_type ≢ subject_token_type_txn_token) × Issued h w r req s)
  unfolding exchange
  exchange_origin r req s e =
      elim (Bool-cases (req.subject_token_type == subject_token_type_txn_token)) [
        | inl same ↦
            inl ((eq_iff _ _).0 same, handle_replacement-Replaced h w r req s (rw same at e))
        | inr other ↦ inr (
          (λ p. cc (other, (eq_iff req.subject_token_type subject_token_type_txn_token).1 p)),
          handle_issuance-Issued h w r req s (rw other at e),
        )
      ]

  respond-exchanged :
      (o : Outcome Failure String) (t : TokenExchangeResponse)
      → (respond o).body ≡ exchanged t
      → o ≡ ok t.access_token
  unfolding respond
  respond-exchanged (ok s) t e = cc
  respond-exchanged (err f) t e = cc

  -- The token endpoint answers with a token only to a POST that reads as a request, and the token
  -- comes either from a replacement of a verified token, for a transaction token, or from the
  -- issuance for an authenticated subject whom the rules allow, for any other type.
  pub serve_http-Granted :
      (r : HttpRequest) (t : TokenExchangeResponse)
      → (serve_http h w r).body ≡ exchanged t
      → Granted r t
  unfolding serve_http
  serve_http-Granted r t e =
      let (req, read, granted) = bind-eq-ok _ _ (respond-exchanged _ t e) in
      record {
        req = req;
        is_post = read_is_post r req read;
        read = read;
        origin = exchange_origin r req t.access_token granted;
      }

  -- Which status goes with which request and response.
  abbrev pub Statuses : HttpRequest → Type 0
  Statuses r =
      ((serve_http h w r).status ≡ 405 ↔ (r.method ≢ "POST"))
      × ((serve_http h w r).status ≡ 200
          ↔ ((t : TokenExchangeResponse) × ((serve_http h w r).body ≡ exchanged t)))
      × ((serve_http h w r).status ≡ 400
          ↔ ((r.method ≡ "POST") × ((f : Failure) × (read_request h w r ≡ err f))))

  -- The endpoint answers 405 exactly for another method than POST, 200 exactly with a token, and
  -- 400 exactly for a POST that does not read as a request.
  pub serve_http-Statuses : (r : HttpRequest) → Statuses r
  unfolding serve_http respond
  serve_http-Statuses r = elim (Outcome-cases (read_request h w r)) [
    | inl (req, read) ↦ elim (Outcome-cases (exchange h w r req)) [
      | inl (s, granted) ↦
          rw (read, granted)
            (
              ((λ e. absurd (omega arith)), (λ n. absurd (n (read_is_post r req read)))),
              ((λ _. (_, refl)), (λ _. refl)),
              ((λ e. absurd (omega arith)), (λ p. cc (p.1.1))),
            )
      | inr (f, failed) ↦
          let status = exchange_failure r req f failed in
          rw (read, failed)
            (
              ((λ e. absurd (omega arith)), (λ n. absurd (n (read_is_post r req read)))),
              ((λ e. absurd (omega arith)), (λ p. cc (p.1))),
              ((λ e. absurd (omega arith)), (λ p. cc (p.1.1))),
            )
    ]
    | inr (f, unread) ↦ elim (read_failure r f unread) [
      | inl (status, other) ↦ rw unread (
        ((λ _. other), (λ _. status)),
        ((λ e. absurd (omega arith)), (λ p. cc (p.1))),
        ((λ e. absurd (omega arith)), (λ p. absurd (other p.0))),
      )
      | inr (status, post) ↦ rw unread (
        ((λ e. absurd (omega arith)), (λ n. absurd (n post))),
        ((λ e. absurd (omega arith)), (λ p. cc (p.1))),
        ((λ _. (post, (f, refl))), (λ _. status)),
      )
    ]
  ]
