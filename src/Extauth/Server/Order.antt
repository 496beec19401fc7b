-- ===== src/Extauth/Server/Order.antt =====
-- The rules of the verifying ext_authz service do not depend on the order that they arrive in.
use kontxt.Base.{
  ◌≡◌, ap, inl, inr, true, false, none, some, List, [], ◌∷◌, arith, eq_iff, ◌==◌, Eq_nat, Eq_string,
  Bool-cases, All,
}
use mathlib.Core.List.{Permᴰ}
use kontxt.Base.Strings.Order.{text_lt_trans, text_lt_apart, text_lt_irrefl}
use kontxt.Base.Sorting.Laws.{IsApart, IsSpread, sort-perm}
use kontxt.Cel.{Cel}
use kontxt.Rules.{VerificationRule}
use kontxt.Distribution.Server.{Eq_rule_key, verification_key}
use kontxt.Distribution.Laws.{find, Unique}
use kontxt.Extauth.Claims.{rule_lt}
use kontxt.Extauth.Server.{Server, rule_sets, set_verification_rules}

rule_lt_trans :
    (a b c : VerificationRule) → rule_lt a b ≡ true → rule_lt b c ≡ true → rule_lt a c ≡ true
unfolding rule_lt
rule_lt_trans a b c p q = ground (
  arith,
  text_lt_trans a.name b.name c.name,
  text_lt_trans a.namespace b.namespace c.namespace,
  text_lt_irrefl a.namespace,
  eq_iff a.namespace b.namespace,
  eq_iff b.namespace c.namespace,
  eq_iff a.namespace c.namespace,
  eq_iff b.namespace a.namespace,
)

-- Rules with different keys are apart.
rule_lt-IsApart :
    (a b : VerificationRule)
    → (verification_key b == verification_key a) ≡ false
    → IsApart rule_lt a b
unfolding rule_lt
rule_lt-IsApart a b differ = ground (
  arith,
  differ,
  text_lt_apart a.name b.name,
  text_lt_apart a.namespace b.namespace,
  eq_iff a.namespace b.namespace,
  eq_iff b.namespace a.namespace,
  eq_iff b.name a.name,
)

find-IsApart :
    (a : VerificationRule) (rules : List VerificationRule)
    → find verification_key (verification_key a) rules ≡ none
    → All (IsApart rule_lt a) rules
find-IsApart a [] h = tt
find-IsApart a (b ∷ rules) h = elim (Bool-cases (verification_key b == verification_key a)) [
  | inl same ↦ cc (rw (same, find) at h)
  | inr other ↦ (rule_lt-IsApart a b other, find-IsApart a rules (rw (other, find) at h))
]

Unique-IsSpread :
    (rules : List VerificationRule) → Unique verification_key rules → IsSpread rule_lt rules
Unique-IsSpread [] u = tt
Unique-IsSpread (a ∷ rules) (fresh, u) = (find-IsApart a rules fresh, Unique-IsSpread rules u)

-- The ext_authz service has the same rules in whatever order they arrive, where no two have the
-- same namespace and name.
pub set_verification_rules-perm :
    (cel : Cel) {V : Type 0} (s : Server cel V) {rules others : List VerificationRule}
    → Permᴰ rules others
    → Unique verification_key rules
    → set_verification_rules cel s rules ≡ set_verification_rules cel s others
unfolding set_verification_rules
set_verification_rules-perm cel {V} s p u =
    ap (λ (l : List VerificationRule). record s { verification_rules = some (rule_sets cel l) })
      (sort-perm rule_lt rule_lt_trans p (Unique-IsSpread _ u))
