-- ===== src/Base/Strings/Order.antt =====
-- Go's `<` on strings is a strict order.
use Prim.Native.Char.{code}
use Prim.Native.String.{String, [], ◌∷◌}
use mathlib.Core.Path.{◌≡◌, refl}
use mathlib.Core.Logic.{inl, inr, ◌≢◌}
use mathlib.Core.Bool.{true, false, not}
use native.Mathlib.Omega.{arith}
use text.Mathlib.TextEquality.{Char-path}
use kontxt.Base.Control.{Bool-cases, nat_eq_iff, Eq_nat, ◌==◌}
use kontxt.Base.Strings.{text_lt}

pub text_lt_trans : (s t u : String) → text_lt s t ≡ true → text_lt t u ≡ true → text_lt s u ≡ true
unfolding text_lt
text_lt_trans s t [] p q = cc
text_lt_trans s [] (e ∷ u) p q = cc
text_lt_trans [] (d ∷ t) (e ∷ u) p q = refl
text_lt_trans (c ∷ s) (d ∷ t) (e ∷ u) p q = ground (arith, text_lt_trans s t u)

-- Of two different texts exactly one is before the other.
pub text_lt_apart : (s t : String) → s ≢ t → text_lt s t ≡ not (text_lt t s)
unfolding text_lt
text_lt_apart [] [] n = absurd (n refl)
text_lt_apart [] (d ∷ t) n = refl
text_lt_apart (c ∷ s) [] n = refl
text_lt_apart (c ∷ s) (d ∷ t) n = elim (Bool-cases (code c == code d)) [
  | inl same ↦
      let letters : (c ≡ d) = Char-path c d ((nat_eq_iff (code c) (code d)).0 same) in
      ground (arith, same, text_lt_apart s t (λ texts. n (λ i. letters i ∷ texts i)))
  | inr other ↦ ground (arith, other)
]

pub text_lt_irrefl : (s : String) → text_lt s s ≡ false
unfolding text_lt
text_lt_irrefl [] = refl
text_lt_irrefl (c ∷ s) = ground (arith, text_lt_irrefl s)
