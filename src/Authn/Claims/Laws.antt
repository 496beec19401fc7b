-- ===== src/Authn/Claims/Laws.antt =====
-- Which claims the compiled rules let through, and what is the subject.
use kontxt.Base.{
  String, ◌≡◌, refl, ◌≢◌, ◌⊎◌, inl, inr, true, false, Option, none, some, List, [], ◌∷◌, eq_iff,
  ◌==◌, Eq_nat, Eq_string, Bool-cases, Option-cases, All, Outcome, ok, err, map_err, map_err-eq-ok,
  bind-eq-ok,
}
use kontxt.Base.Maps.{Map, lookup}
use kontxt.Any.{Any, text, null, boolean, number, slice, nil_map, object, as_text}
use kontxt.Cel.{Cel, CelValue, bool_value, string_value, other_value}
use kontxt.Authn.Config.{ClaimOrExpression}
use kontxt.Authn.Claims.{
  CompiledRule, subject_not_evaluated, activation_of, judge, evaluate_validation_rules,
  claim_subject, string_of, program_subject, evaluate_subject_mapping,
}

module _ (cel : Cel) where
  open cel use {Program, eval}

  -- A rule evaluates to true on the claims.
  abbrev pub Passes : Map String Any → CompiledRule cel → Type 0
  Passes claims rule = eval rule.prg (activation_of claims) ≡ ok (bool_value true)

  judge-Passes :
      (rule : CompiledRule cel) (out : Outcome String CelValue)
      → judge cel rule out ≡ ok tt
      → out ≡ ok (bool_value true)
  unfolding judge
  judge-Passes rule (ok (bool_value true)) e = refl
  judge-Passes rule (ok (bool_value false)) e = cc
  judge-Passes rule (ok (string_value s)) e = cc
  judge-Passes rule (ok (other_value v)) e = cc
  judge-Passes rule (err x) e = cc

  -- The rules let claims through only when each of them evaluates to true.
  pub evaluate_validation_rules-Passes :
      (claims : Map String Any) (rules : List (CompiledRule cel))
      → evaluate_validation_rules cel rules claims ≡ ok tt
      → All (Passes claims) rules
  unfolding evaluate_validation_rules
  evaluate_validation_rules-Passes claims [] e = tt
  evaluate_validation_rules-Passes claims (rule ∷ rules) e =
      let (tt, passed, rest) = bind-eq-ok _ _ e in
      (judge-Passes rule _ passed, evaluate_validation_rules-Passes claims rules rest)

  -- The subject is a claim that is a text, where the mapping names a claim, and else the string that
  -- the program of the mapping evaluates to.
  abbrev pub IsSubject : ClaimOrExpression → Option Program → Map String Any → String → Type 0
  IsSubject mapping prg claims s =
      (mapping.claim ≢ "" × (lookup mapping.claim claims ≡ some (text s)))
      ⊎ ((mapping.claim ≡ "")
          × ((p : Program) × (prg ≡ some p)
              × (eval p (activation_of claims) ≡ ok (string_value s))))

  as_text-some : (v : Any) {s : String} → as_text v ≡ some s → v ≡ text s
  as_text-some (text t) e = cc
  as_text-some null e = cc
  as_text-some (boolean b) e = cc
  as_text-some (number n) e = cc
  as_text-some (slice es) e = cc
  as_text-some nil_map e = cc
  as_text-some (object ms) e = cc

  claim_subject_text :
      (claim : String) (claims : Map String Any) {s : String}
      → claim_subject cel claim claims ≡ ok s
      → lookup claim claims ≡ some (text s)
  unfolding claim_subject
  claim_subject_text claim claims e = elim (Option-cases (lookup claim claims)) [
    | inl missing ↦ cc (rw (missing, claim_subject) at e)
    | inr (v, there) ↦ elim (Option-cases (as_text v)) [
      | inl other ↦ cc (rw (there, other, claim_subject) at e)
      | inr (t, is_text) ↦
          cc (rw (there, is_text, claim_subject) at e, as_text-some v is_text, there)
    ]
  ]

  string_of_string : (out : CelValue) {s : String} → string_of cel out ≡ ok s → out ≡ string_value s
  unfolding string_of
  string_of_string (string_value t) e = cc
  string_of_string (bool_value b) e = cc
  string_of_string (other_value v) e = cc

  program_subject_string :
      (prg : Option Program) (claims : Map String Any) {s : String}
      → program_subject cel prg claims ≡ ok s
      → (p : Program) × (prg ≡ some p) × (eval p (activation_of claims) ≡ ok (string_value s))
  unfolding program_subject
  program_subject_string none claims e = cc
  program_subject_string (some p) claims e =
      let (out, evaluated, is_string) =
        bind-eq-ok (map_err subject_not_evaluated (eval p (activation_of claims))) (string_of cel)
          e in
      (p, refl, cc (map_err-eq-ok _ _ evaluated, string_of_string out is_string))

  pub evaluate_subject_mapping-IsSubject :
      (mapping : ClaimOrExpression) (prg : Option Program) (claims : Map String Any) (s : String)
      → evaluate_subject_mapping cel mapping prg claims ≡ ok s
      → IsSubject mapping prg claims s
  unfolding evaluate_subject_mapping
  evaluate_subject_mapping-IsSubject mapping prg claims s e =
      elim (Bool-cases (mapping.claim == "")) [
        | inl empty ↦ inr (
          (eq_iff mapping.claim "").0 empty,
          program_subject_string prg claims (rw (empty, evaluate_subject_mapping) at e),
        )
        | inr named ↦ inl (
          λ same. cc ((eq_iff mapping.claim "").1 same, named),
          claim_subject_text mapping.claim claims (rw (named, evaluate_subject_mapping) at e),
        )
      ]
