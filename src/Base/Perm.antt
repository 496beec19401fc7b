-- ===== src/Base/Perm.antt =====
-- What a change of the order keeps of a list.
use mathlib.Core.Path.{subst}
use mathlib.Core.List.{List, [], ◌∷◌, Permᴰ}
use kontxt.Base.Lists.{All}

pub All-perm {ℓ κ} :
    {A : Type ℓ} (P : A → Type κ) {xs ys : List A} → Permᴰ xs ys → All P xs → All P ys
All-perm P Permᴰ.nil h = tt
All-perm P (Permᴰ.cons e p) (h, k) = (subst P e h, All-perm P p k)
All-perm P (Permᴰ.swap e e') (h, hs) = (subst P e' hs.0, (subst P e h, hs.1))
All-perm P (Permᴰ.trans p q) h = All-perm P q (All-perm P p h)

module _ {ℓ κ} {A : Type ℓ} (Related : A → A → Type κ) where
  -- Any two elements of the list are related.
  abbrev pub AllPairs : List A → Type κ
  AllPairs [] = Unit
  AllPairs (x ∷ xs) = All (Related x) xs × AllPairs xs

  module _ (symmetric : (a b : A) → Related a b → Related b a) where
    pub AllPairs-perm : {xs ys : List A} → Permᴰ xs ys → AllPairs xs → AllPairs ys
    AllPairs-perm Permᴰ.nil h = tt
    AllPairs-perm (Permᴰ.cons {a} {b} {l₁} {l₂} e p) (h, k) =
        (subst (λ z. All (Related z) l₂) e (All-perm (Related a) p h), AllPairs-perm p k)
    AllPairs-perm (Permᴰ.swap {a} {b} {a'} {b'} {l} e e') (h, hs) = (
      (
        subst (λ z. Related z b') e' (subst (Related b) e (symmetric a b h.0)),
        subst (λ z. All (Related z) l) e' hs.0,
      ),
      (subst (λ z. All (Related z) l) e h.1, hs.1),
    )
    AllPairs-perm (Permᴰ.trans p q) h = AllPairs-perm q (AllPairs-perm p h)
