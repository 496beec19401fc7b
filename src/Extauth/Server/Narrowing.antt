-- ===== src/Extauth/Server/Narrowing.antt =====
-- Which rule the automatic narrowing of server.go takes.
use kontxt.Base.{
  String, ◌≡◌, refl, ap, ◌∙◌, ◌≢◌, ◌↔◌, inl, inr, true, some, List, [], ◌∷◌, ◌++◌, ◌<◌, length,
  arith, eq_iff, Eq_nat, Eq_string, Bool-cases, All, both, subst, some_inj,
}
use kontxt.Base.Strings.{fields}
use kontxt.Cel.{Cel}
use kontxt.Token.{Claims}
use kontxt.Tts.Scope.{Narrows, is_scope_subset, is_scope_subset_iff}
use kontxt.Extauth.Matching.{scope_is_broader}
use kontxt.Extauth.Server.{VerificationRuleSet, narrows, find_narrowing}

scope_is_broader_iff :
    (broader narrower : String)
    → (scope_is_broader broader narrower ≡ true)
      ↔ (Narrows narrower broader × (length (fields narrower) < length (fields broader)))
unfolding scope_is_broader is_scope_subset
scope_is_broader_iff broader narrower = (
  (λ h.
      let (subset, fewer) = both _ _ h in
      ((is_scope_subset_iff narrower broader).0 subset, ground (arith, fewer))),
  (λ (subset, fewer).
      rw ((is_scope_subset_iff narrower broader).1 subset, scope_is_broader)
        (ground (arith, fewer))),
)

module _ (cel : Cel) (claims : Claims) where
  -- The rule wants narrowing, and its scope has words, all of which and more the token has.
  abbrev pub IsNarrower : VerificationRuleSet cel → Type 0
  IsNarrower rs =
      (rs.rule.auto_narrow ≡ true)
      × (rs.rule.required_scope ≢ "")
      × Narrows rs.rule.required_scope claims.scope
      × (length (fields rs.rule.required_scope) < length (fields claims.scope))

  narrows_iff : (rs : VerificationRuleSet cel) → (narrows cel claims rs ≡ true) ↔ IsNarrower rs
  unfolding narrows
  narrows_iff rs = (
    (λ e.
        let (abc, broader) = both _ _ e in
        let (ab, differs) = both _ _ abc in
        let (wants, given) = both _ _ ab in
        let (subset, fewer) =
          (scope_is_broader_iff claims.scope rs.rule.required_scope).0 broader in
        (
          wants,
          (λ p. ground (arith, given, (eq_iff rs.rule.required_scope "").1 p)),
          subset,
          fewer,
        )),
    (λ (wants, given, subset, fewer).
        let broader =
          (scope_is_broader_iff claims.scope rs.rule.required_scope).1 (subset, fewer) in
        let differs : claims.scope ≢ rs.rule.required_scope =
          λ p. omega (arith, fewer, ap (λ s. length (fields s)) p) in
        ground (
          arith,
          wants,
          broader,
          eq_iff rs.rule.required_scope "",
          eq_iff claims.scope rs.rule.required_scope,
          given,
          differs,
        )),
  )

  -- The first rule that is narrower.
  abbrev pub IsFirst : VerificationRuleSet cel → List (VerificationRuleSet cel) → Type 0
  IsFirst rs rules =
      (before : List (VerificationRuleSet cel)) × (after : List (VerificationRuleSet cel)) × (rules
        ≡ before ++ rs ∷ after)
      × All (λ r. ¬ IsNarrower r) before
      × IsNarrower rs

  find_narrowing-IsFirst :
      (rules : List (VerificationRuleSet cel)) (rs : VerificationRuleSet cel)
      → find_narrowing cel claims rules ≡ some rs
      → IsFirst rs rules
  unfolding find_narrowing
  find_narrowing-IsFirst [] rs e = cc
  find_narrowing-IsFirst (r ∷ rest) rs e = elim (Bool-cases (narrows cel claims r)) [
    | inl first ↦
        let same : r ≡ rs = some_inj (rw (first, find_narrowing) at e) in
        (
          [],
          rest,
          ap (λ (x : VerificationRuleSet cel). x ∷ rest) same,
          tt,
          subst IsNarrower same ((narrows_iff r).0 first),
        )
    | inr other ↦
        let (before, after, split, none_before, narrower) =
          find_narrowing-IsFirst rest rs (rw (other, find_narrowing) at e) in
        (
          r ∷ before,
          after,
          ap (λ l. r ∷ l) split,
          ((λ h. cc (other, (narrows_iff r).1 h)), none_before),
          narrower,
        )
  ]

  find_narrowing-append :
      (before after : List (VerificationRuleSet cel)) (rs : VerificationRuleSet cel)
      → All (λ r. ¬ IsNarrower r) before
      → IsNarrower rs
      → find_narrowing cel claims (before ++ rs ∷ after) ≡ some rs
  unfolding find_narrowing
  find_narrowing-append [] after rs others narrower =
      rw ((narrows_iff rs).1 narrower, find_narrowing) refl
  find_narrowing-append (r ∷ before) after rs (other, others) narrower =
      elim (Bool-cases (narrows cel claims r)) [
        | inl first ↦ absurd (other ((narrows_iff r).0 first))
        | inr skipped ↦
            rw (skipped, find_narrowing) (find_narrowing-append before after rs others narrower)
      ]

  -- Automatic narrowing takes a rule exactly when it is the first in the list that wants narrowing,
  -- has a scope that is not empty, and whose words are all among the words of the scope of the
  -- token, which are more.
  pub find_narrowing_iff :
      (rules : List (VerificationRuleSet cel)) (rs : VerificationRuleSet cel)
      → (find_narrowing cel claims rules ≡ some rs) ↔ IsFirst rs rules
  find_narrowing_iff rules rs = (
    find_narrowing-IsFirst rules rs,
    (λ (before, after, split, others, narrower).
        ap (find_narrowing cel claims) split
        ∙ find_narrowing-append before after rs others narrower),
  )
