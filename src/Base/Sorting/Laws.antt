-- ===== src/Base/Sorting/Laws.antt =====
-- A sorted list does not depend on the order that its elements had before.
use mathlib.Core.Path.{◌≡◌, refl, ◌∙◌}
use mathlib.Core.Bool.{Bool, true, not}
use mathlib.Core.List.{List, [], ◌∷◌, Permᴰ}
use mathlib.Core.List.Permᴰ
use mathlib.Core.Logic.{inl, inr}
use native.Mathlib.Omega.{arith}
use kontxt.Base.Control.{Bool-cases}
use kontxt.Base.Perm.{AllPairs, AllPairs-perm}
use kontxt.Base.Sorting.{insert_sorted, sort}

module _ {ℓ} {A : Type ℓ} (lt : A → A → Bool) where
  -- Exactly one of two elements is before the other.
  abbrev pub IsApart : A → A → Type 0
  IsApart a b = lt a b ≡ not (lt b a)

  -- Any two elements of the list are apart.
  abbrev pub IsSpread : List A → Type 0
  IsSpread = AllPairs IsApart

  IsApart-sym : (a b : A) → IsApart a b → IsApart b a
  IsApart-sym a b h = ground arith

  IsSpread-perm : {xs ys : List A} → Permᴰ xs ys → IsSpread xs → IsSpread ys
  IsSpread-perm = AllPairs-perm IsApart IsApart-sym

  module _ (trans : (a b c : A) → lt a b ≡ true → lt b c ≡ true → lt a c ≡ true) where
    insert_sorted-swap :
        (a b : A) (xs : List A)
        → IsApart a b
        → insert_sorted lt a (insert_sorted lt b xs) ≡ insert_sorted lt b (insert_sorted lt a xs)
    unfolding insert_sorted
    insert_sorted-swap a b [] h = ground arith
    insert_sorted-swap a b (x ∷ xs) h =
        ground (arith, trans x a b, trans x b a, insert_sorted-swap a b xs h)

    -- Two orders of the same elements, any two of which are apart, are sorted to one list.
    pub sort-perm : {xs ys : List A} → Permᴰ xs ys → IsSpread xs → sort lt xs ≡ sort lt ys
    unfolding sort
    sort-perm Permᴰ.nil h = refl
    sort-perm (Permᴰ.cons e p) (h, k) = λ i. insert_sorted lt (e i) (sort-perm p k i)
    sort-perm (Permᴰ.swap {a} {b} {a'} {b'} {l} e e') (h, k) =
        insert_sorted-swap a b (sort lt l) h.0 ∙ λ i.
        insert_sorted lt (e' i) (insert_sorted lt (e i) (sort lt l))
    sort-perm (Permᴰ.trans p q) h = sort-perm p h ∙ sort-perm q (IsSpread-perm p h)

  insert_sorted-perm : (a : A) (xs : List A) → Permᴰ (insert_sorted lt a xs) (a ∷ xs)
  unfolding insert_sorted
  insert_sorted-perm a [] = Permᴰ.refl (a ∷ [])
  insert_sorted-perm a (x ∷ xs) = elim (Bool-cases (lt x a)) [
    | inl before ↦
        rw before (Permᴰ.trans (Permᴰ.cons refl (insert_sorted-perm a xs)) (Permᴰ.swap refl refl))
    | inr after ↦ rw after (Permᴰ.refl (a ∷ x ∷ xs))
  ]

  -- Sorting only changes the order.
  pub sort-Permᴰ : (xs : List A) → Permᴰ (sort lt xs) xs
  unfolding sort
  sort-Permᴰ [] = Permᴰ.nil
  sort-Permᴰ (x ∷ xs) =
      Permᴰ.trans (insert_sorted-perm x (sort lt xs)) (Permᴰ.cons refl (sort-Permᴰ xs))
