-- ===== src/Extauth/Server/Laws.antt =====
-- When a request passes the verification, and that narrowing never asks for more than the token has.
use kontxt.Base.{
  String, ◌≡◌, refl, sym, ◌≢◌, ◌↔◌, ◌⊎◌, inl, inr, true, false, ◌||◌, none, some, List, [], ◌∷◌,
  arith, eq_iff, ◌==◌, Eq_nat, Eq_string, Bool-cases, is_some, All, In, Outcome, ok, err,
  Outcome-cases, map_err-eq-ok, bind-eq-ok, guard-eq-ok, subst, some_inj,
}
use kontxt.Base.Strings.{fields}
use kontxt.Base.Maps.{Map, lookup}
use kontxt.Any.{Any, Object, Json}
use kontxt.Cel.{Cel, CelValue, bool_value, string_value, other_value}
use kontxt.Token.{Claims, header_name}
use kontxt.Extauth.Celverify.{Program, Context, activation_of, evaluate, judge}
use kontxt.Extauth.Matching.{scope_contains, get_header}
use kontxt.Extauth.Server.{
  VerificationRuleSet, Server, load_verification_rules, check_rule_set, check_rule_sets,
  check_programs, is_excluded, check_verification_rules, admit, check_token, check,
}
use kontxt.Extauth.Claims.{
  HttpAttributes, RuleError, allow, denied, evaluation, context_of, check_fields,
}

-- The transaction context has a field.
abbrev pub HasField : Object → String → Type 0
HasField tctx field = (m : Map String Any) × (tctx ≡ some m) × (is_some (lookup field m) ≡ true)

check_fields_iff :
    (tctx : Object) (name : String) (required : List String)
    → (check_fields tctx name required ≡ ok tt) ↔ All (HasField tctx) required
unfolding check_fields
check_fields_iff tctx name [] = ((λ _. tt), (λ _. refl))
check_fields_iff none name (field ∷ rest) = ((λ e. cc (e)), (λ h. cc (h.0.1)))
check_fields_iff (some m) name (field ∷ rest) = (
  (λ e.
      let (there, e') = guard-eq-ok (is_some (lookup field m)) _ _ e in
      ((m, refl, there), (check_fields_iff (some m) name rest).0 e')),
  (λ h.
      rw (subst (λ n. is_some (lookup field n) ≡ true) (some_inj (sym h.0.1)) h.0.2)
        ((check_fields_iff (some m) name rest).1 h.1)),
)

required_scope_iff :
    (required scope : String)
    → ((required == "" || scope_contains scope required) ≡ true)
      ↔ ((required ≡ "") ⊎ In required (fields scope))
unfolding scope_contains
required_scope_iff required scope = elim (Bool-cases (required == "")) [
  | inl empty ↦ rw empty ((λ _. inl ((eq_iff required "").0 empty)), (λ _. refl))
  | inr there ↦
      rw there
        ((λ e. inr e), (λ h. elim h [ inl e ↦ cc (there, (eq_iff required "").1 e) | inr e ↦ e ]))
]

module _ (cel : Cel) where
  -- A program evaluates to true.
  abbrev pub Holds : Context → Program cel → Type 0
  Holds ctx p = cel.eval p.prg (activation_of ctx) ≡ ok (bool_value true)

  judge_iff :
      (p : Program cel) (r : Outcome String CelValue)
      → (judge cel p r ≡ ok tt) ↔ (r ≡ ok (bool_value true))
  unfolding judge
  judge_iff p (err e) = ground arith
  judge_iff p (ok (bool_value true)) = ground arith
  judge_iff p (ok (bool_value false)) = ground arith
  judge_iff p (ok (string_value s)) = ground arith
  judge_iff p (ok (other_value v)) = ground arith

  evaluate_iff :
      (ps : List (Program cel)) (ctx : Context) → (evaluate cel ps ctx ≡ ok tt) ↔ All (Holds ctx) ps
  unfolding evaluate
  evaluate_iff [] ctx = ((λ _. tt), (λ _. refl))
  evaluate_iff (p ∷ ps) ctx =
      elim (Outcome-cases (judge cel p (cel.eval p.prg (activation_of ctx)))) [
        | inl (_, passed) ↦ rw passed (
          (λ e. ((judge_iff p _).0 passed, (evaluate_iff ps ctx).0 e)),
          (λ h. (evaluate_iff ps ctx).1 h.1),
        )
        | inr (e, failed) ↦ rw failed ((λ h. cc), (λ h. cc ((judge_iff p _).1 h.0)))
      ]

  -- What one rule asks of the claims; `context` is built from the claims and the request.
  pub record Satisfied (context : Outcome RuleError Context) (claims : Claims)
      (rs : VerificationRuleSet cel) : Type 0 where
    pub scope : (rs.rule.required_scope ≡ "") ⊎ In rs.rule.required_scope (fields claims.scope)
    pub tctx : All (HasField claims.transaction_context) rs.rule.required_tctx_fields
    pub programs :
        (rs.cel_programs ≡ [])
        ⊎ ((ctx : Context) × (context ≡ ok ctx) × All (Holds ctx) rs.cel_programs)

  check_programs_iff :
      (context : Outcome RuleError Context) (ps : List (Program cel))
      → (check_programs cel context ps ≡ ok tt)
        ↔ ((ps ≡ []) ⊎ ((ctx : Context) × (context ≡ ok ctx) × All (Holds ctx) ps))
  unfolding check_programs
  check_programs_iff context [] = ((λ _. inl refl), (λ _. refl))
  check_programs_iff context (p ∷ ps) = (
    (λ e.
        let (ctx, made, e') = bind-eq-ok context _ e in
        inr (ctx, made, (evaluate_iff (p ∷ ps) ctx).0 (map_err-eq-ok evaluation _ e'))),
    (λ h. elim h [
      | inl e ↦ cc (e)
      | inr (ctx, made, holds) ↦ rw (made, (evaluate_iff (p ∷ ps) ctx).1 holds) refl
    ]),
  )

  check_rule_set_iff :
      (context : Outcome RuleError Context) (claims : Claims) (rs : VerificationRuleSet cel)
      → (check_rule_set cel context claims rs ≡ ok tt) ↔ Satisfied context claims rs
  unfolding check_rule_set
  check_rule_set_iff context claims rs = (
    (λ e.
        let (s, e') = guard-eq-ok _ _ _ e in
        let (passed, f, e'') = bind-eq-ok _ _ e' in
        record {
          scope = (required_scope_iff rs.rule.required_scope claims.scope).0 s;
          tctx = (check_fields_iff claims.transaction_context rs.rule.name _).0 f;
          programs = (check_programs_iff context rs.cel_programs).0 e'';
        }),
    (λ h.
        rw
          (
            (required_scope_iff rs.rule.required_scope claims.scope).1 h.scope,
            (check_fields_iff claims.transaction_context rs.rule.name _).1 h.tctx,
          )
          ((check_programs_iff context rs.cel_programs).1 h.programs)),
  )

  -- The verification rules pass exactly when every rule has its scope among those of the token, its
  -- fields in the transaction context, and its programs true.
  pub check_rule_sets_iff :
      (context : Outcome RuleError Context) (claims : Claims)
      (rules : List (VerificationRuleSet cel))
      → (check_rule_sets cel context claims rules ≡ ok tt) ↔ All (Satisfied context claims) rules
  unfolding check_rule_sets
  check_rule_sets_iff context claims [] = ((λ _. tt), (λ _. refl))
  check_rule_sets_iff context claims (rs ∷ rest) =
      elim (Outcome-cases (check_rule_set cel context claims rs)) [
        | inl (_, passed) ↦ rw passed (
          (λ e. (
            (check_rule_set_iff context claims rs).0 passed,
            (check_rule_sets_iff context claims rest).0 e,
          )),
          (λ h. (check_rule_sets_iff context claims rest).1 h.1),
        )
        | inr (e, failed) ↦
            rw failed ((λ h. cc), (λ h. cc ((check_rule_set_iff context claims rs).1 h.0)))
      ]

  -- Why a request is allowed: its endpoint is excluded, or it has a token that the verifier accepts
  -- and whose claims satisfy every rule.
  pub record Admitted {V : Type 0} (s : Server cel V) (json : Json) (http : HttpAttributes)
      : Type 0 where
    pub claims : Claims
    pub token_there : get_header http.headers header_name ≢ ""
    pub verified : s.verifier (get_header http.headers header_name) ≡ ok claims
    pub satisfied :
        All
          (Satisfied (context_of json claims http.path http.method http.headers) claims)
          (load_verification_rules cel s)

  admit-Satisfied :
      {V : Type 0} (s : Server cel V) (json : Json) (http : HttpAttributes) (token : String)
      (claims : Claims) (hs : Map String String)
      → admit cel s json http token claims ≡ allow hs
      → All
          (Satisfied (context_of json claims http.path http.method http.headers) claims)
          (load_verification_rules cel s)
  unfolding admit denied check_verification_rules
  admit-Satisfied s json http token claims hs e =
      elim (Outcome-cases
        (check_verification_rules cel s json claims http.path http.method http.headers)) [
          | inl (_, passed) ↦ (check_rule_sets_iff _ claims _).0 passed
          | inr (x, failed) ↦ cc (rw (failed, admit) at e)
        ]

  check_token-Admitted :
      {V : Type 0} (s : Server cel V) (json : Json) (http : HttpAttributes) (hs : Map String String)
      → check_token cel s json http (get_header http.headers header_name) ≡ allow hs
      → Admitted s json http
  unfolding check_token denied
  check_token-Admitted s json http hs e =
      elim (Bool-cases (get_header http.headers header_name == "")) [
        | inl missing ↦ cc (rw (missing, check_token) at e)
        | inr there ↦ elim (Outcome-cases (s.verifier (get_header http.headers header_name))) [
          | inl (claims, verified) ↦ record {
            claims = claims;
            token_there = λ p. cc (there, (eq_iff (get_header http.headers header_name) "").1 p);
            verified = verified;
            satisfied =
                admit-Satisfied s json http _ claims hs (rw (there, verified, check_token) at e);
          }
          | inr (x, failed) ↦ cc (rw (there, failed, check_token) at e)
        ]
      ]

  -- A request is let through only when its endpoint is excluded, or when it has a token that the
  -- verifier accepts and whose claims satisfy every verification rule.
  pub check-Admitted :
      {V : Type 0} (s : Server cel V) (json : Json) (http : HttpAttributes) (hs : Map String String)
      → check cel s json (some http) ≡ allow hs
      → (is_excluded cel s http.path http.method ≡ true) ⊎ Admitted s json http
  unfolding check
  check-Admitted s json http hs e = elim (Bool-cases (is_excluded cel s http.path http.method)) [
    | inl out ↦ inl out
    | inr other ↦ inr (check_token-Admitted s json http hs (rw (other, check) at e))
  ]
