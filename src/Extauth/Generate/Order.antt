-- ===== src/Extauth/Generate/Order.antt =====
-- Which generation rule is taken, by the order of the rules.
use kontxt.Base.{
  String, ◌≡◌, refl, sym, ap, ◌∙◌, inl, inr, Bool, true, false, ◌&&◌, Option, none, some, List, [],
  ◌∷◌, arith, if◌then◌else◌, Option-cases, Outcome,
}
use mathlib.Core.List.{Permᴰ}
use kontxt.Base.Perm.{AllPairs, AllPairs-perm}
use kontxt.Rules.{GenerationRule}
use kontxt.Base.Strings.{equal_fold, up_to}
use kontxt.Extauth.Matching.{match_endpoint_path}
use kontxt.Any.{Json}
use kontxt.Extauth.Claims.{HttpAttributes}
use kontxt.Extauth.Generate.{
  GenerationServer, CheckRequest, Answer, allow, set_generation_rules, find_matching_rule,
  find_rule, check, generate, exchange_request, subject_of,
}

-- The test of `findMatchingRule`, on a path without its query.
abbrev pub matches : String → String → GenerationRule → Bool
matches path method rule =
    equal_fold rule.endpoint.method method && match_endpoint_path path rule.endpoint.path

module _ (path method : String) where
  -- At most one of two rules matches.
  abbrev pub AreExclusive : GenerationRule → GenerationRule → Type 0
  AreExclusive a b = (matches path method a && matches path method b) ≡ false

  AreExclusive-sym : (a b : GenerationRule) → AreExclusive a b → AreExclusive b a
  AreExclusive-sym a b h = ground arith

  find_rule-swap :
      (a b : GenerationRule) (rules : List GenerationRule)
      → AreExclusive a b
      → find_rule path method (a ∷ b ∷ rules) ≡ find_rule path method (b ∷ a ∷ rules)
  unfolding find_rule
  find_rule-swap a b rules h = ground (arith, h)

  -- The rule that is taken does not depend on the order, where at most one matches.
  pub find_rule-perm :
      {rules others : List GenerationRule}
      → Permᴰ rules others
      → AllPairs AreExclusive rules
      → find_rule path method rules ≡ find_rule path method others
  unfolding find_rule
  find_rule-perm Permᴰ.nil h = refl
  find_rule-perm (Permᴰ.cons {a} {b} {l₁} {l₂} e p) (h, k) =
      (λ i. if matches path method (e i) then some (e i) else find_rule-perm p k i)
  find_rule-perm (Permᴰ.swap {a} {b} {a'} {b'} {l} e e') (h, k) =
      find_rule-swap a b l h.0 ∙ (λ i. find_rule path method (e' i ∷ e i ∷ l))
  find_rule-perm (Permᴰ.trans p q) h =
      find_rule-perm p h ∙ find_rule-perm q (AllPairs-perm AreExclusive AreExclusive-sym p h)

  -- Of two rules that both match, the first one is taken, so that the order decides.
  pub find_rule-two :
      (a b : GenerationRule)
      → matches path method a ≡ true
      → matches path method b ≡ true
      → (find_rule path method (a ∷ b ∷ []) ≡ some a)
        × (find_rule path method (b ∷ a ∷ []) ≡ some b)
  unfolding find_rule
  find_rule-two a b p q = (rw p refl, rw q refl)

module _ (json : Json) (parse_query : String → Outcome String (String → String))
    (s : GenerationServer) (req : CheckRequest) (http : HttpAttributes)
    (given : req.http ≡ some http) where
  -- The answer by the rule that is taken.
  abbrev by_rule : Option GenerationRule → Answer
  by_rule none = allow []
  by_rule (some rule) = generate json parse_query s req http rule

  check-by_rule :
      (rules : List GenerationRule)
      → check json parse_query (set_generation_rules s rules) req
        ≡ by_rule (find_rule (up_to b'?' http.path) http.method rules)
  unfolding check find_matching_rule set_generation_rules generate exchange_request subject_of
  check-by_rule rules = elim (Option-cases (find_rule (up_to b'?' http.path) http.method rules)) [
    | inl missing ↦ rw (given, check) (rw missing refl)
    | inr (rule, there) ↦ rw (given, check) (rw there refl)
  ]

  -- The service answers a request alike in whatever order its rules come, where the endpoint of at most
  -- one of them matches the request.
  pub check-perm :
      {rules others : List GenerationRule}
      → Permᴰ rules others
      → AllPairs (AreExclusive (up_to b'?' http.path) http.method) rules
      → check json parse_query (set_generation_rules s rules) req
        ≡ check json parse_query (set_generation_rules s others) req
  check-perm {rules} {others} p exclusive =
      check-by_rule rules
      ∙ ap by_rule (find_rule-perm (up_to b'?' http.path) http.method p exclusive)
      ∙ sym (check-by_rule others)
