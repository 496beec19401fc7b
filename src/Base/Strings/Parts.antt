-- ===== src/Base/Strings/Parts.antt =====
-- Cutting and splitting texts that were put together at a separator.
use Prim.Native.Nat.{ℕ}
use Prim.Native.Char.{Char, code}
use Prim.Native.String.{String, [], ◌∷◌, ◌++◌ as concat}
use Prim.Native.String.append
use mathlib.Core.Path.{◌≡◌, refl}
use mathlib.Core.Bool.{true, false}
use mathlib.Core.Option.{some}
use mathlib.Core.List.{[], ◌∷◌}
use native.Mathlib.Omega.{arith}
use kontxt.Base.Control.{Eq_nat, ◌==◌}
use kontxt.Base.Strings.{split, span_parts, cut, contains_char, strip_prefix}

pub cut-concat :
    (n : ℕ) (s rest : String) (c : Char)
    → (code c == n) ≡ true
    → contains_char s n ≡ false
    → cut n (concat s (c ∷ rest)) ≡ some (s, rest)
unfolding cut contains_char
cut-concat n [] rest c sep h = rw (append.nil (c ∷ rest)) (rw (sep, cut) refl)
cut-concat n (d ∷ s) rest c sep h =
    rw (append.cons d s (c ∷ rest)) (grind (arith, cut-concat n s rest c))

pub span_parts-concat :
    (n : ℕ) (s rest : String) (c : Char)
    → (code c == n) ≡ true
    → contains_char s n ≡ false
    → span_parts n (concat s (c ∷ rest)) ≡ (s, split n rest)
unfolding span_parts contains_char split
span_parts-concat n [] rest c sep h = rw (append.nil (c ∷ rest)) (rw (sep, span_parts) refl)
span_parts-concat n (d ∷ s) rest c sep h =
    rw (append.cons d s (c ∷ rest)) (grind (arith, span_parts-concat n s rest c))

pub span_parts-whole : (n : ℕ) (s : String) → contains_char s n ≡ false → span_parts n s ≡ (s, [])
unfolding span_parts contains_char
span_parts-whole n [] h = refl
span_parts-whole n (d ∷ s) h = grind (arith, span_parts-whole n s)

pub strip_prefix-concat : (p s : String) → strip_prefix (concat p s) p ≡ some s
unfolding strip_prefix
strip_prefix-concat [] s = rw (append.nil s) refl
strip_prefix-concat (c ∷ p) s = rw (append.cons c p s) (ground (arith, strip_prefix-concat p s))

pub split-concat :
    (n : ℕ) (s rest : String) (c : Char)
    → (code c == n) ≡ true
    → contains_char s n ≡ false
    → split n (concat s (c ∷ rest)) ≡ s ∷ split n rest
unfolding split
split-concat n s rest c sep h = rw (span_parts-concat n s rest c sep h, split) refl

pub split-whole : (n : ℕ) (s : String) → contains_char s n ≡ false → split n s ≡ s ∷ []
unfolding split
split-whole n s h = rw (span_parts-whole n s h, split) refl
