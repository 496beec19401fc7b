-- ===== src/Base/Maps.antt =====
-- Go maps with comparable keys, as association lists in the order in which a `range` meets them.
use mathlib.Core.Path.{◌≡◌, refl}
use mathlib.Core.Option.{Option, none, some}
use mathlib.Core.List.{List, [], ◌∷◌}
use native.Mathlib.Omega.{arith}
use kontxt.Base.Control.{Eq, ◌==◌, if◌then◌else◌}

abbrev pub Map {ℓ κ} : Type ℓ → Type κ → Type (ℓ ⊔ κ)
Map K V = List (K × V)

module _ {ℓ κ} {K : Type ℓ} {V : Type κ} ⦃e : Eq K⦄ where
  -- `v, ok := m[k]`
  unfoldable pub lookup : K → Map K V → Option V
  lookup wanted [] = none
  lookup wanted ((key, val) ∷ rest) = if key == wanted then some val else lookup wanted rest

  -- `m[k] = v`
  unfoldable pub insert : K → V → Map K V → Map K V
  insert new val [] = (new, val) ∷ []
  insert new val ((key, old) ∷ rest) =
      let others = insert new val rest in
      if key == new then (new, val) ∷ rest else (key, old) ∷ others

  -- `delete(m, k)`
  unfoldable pub delete : K → Map K V → Map K V
  delete gone [] = []
  delete gone ((key, val) ∷ rest) =
      let others = delete gone rest in if key == gone then others else (key, val) ∷ others

  pub lookup-insert :
      (new wanted : K) (val : V) (m : Map K V)
      → lookup wanted (insert new val m) ≡ (if new == wanted then some val else lookup wanted m)
  unfolding lookup insert
  lookup-insert new wanted val [] = refl
  lookup-insert new wanted val ((key, old) ∷ rest) = ground (
    arith,
    lookup-insert new wanted val rest,
    e.test_iff key new,
    e.test_iff key wanted,
    e.test_iff new wanted,
  )

  pub lookup-delete :
      (k j : K) (m : Map K V) → lookup j (delete k m) ≡ (if k == j then none else lookup j m)
  unfolding lookup delete
  lookup-delete k j [] = ground arith
  lookup-delete k j ((i, w) ∷ m) =
      ground (arith, e.test_iff k j, e.test_iff i k, e.test_iff i j, lookup-delete k j m)
