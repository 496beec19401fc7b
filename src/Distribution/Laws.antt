-- ===== src/Distribution/Laws.antt =====
-- Finding rules by their keys: how each change of a list or of a client's map changes what is found.
use kontxt.Base.{
  ◌≡◌, refl, ap, ◌∙◌, inl, inr, Bool, Option, none, some, List, [], ◌∷◌, map, arith, if◌then◌else◌,
  Eq, ◌==◌, Eq_nat, Eq_string, Bool-cases,
}
use kontxt.Base.Maps.{Map, lookup, insert, lookup-insert}
use kontxt.Distribution.Stream.{remove_first, remove_all, replace_or_append}
use kontxt.Distribution.Client.{store}

-- The entries of a map whose key passes a test are gone.
pub lookup-remove_all :
    {K V : Type 0} ⦃e : Eq K⦄ (p : K → Bool) (k : K) (m : Map K V)
    → lookup k (remove_all (λ kv. p kv.0) m) ≡ (if p k then none else lookup k m)
unfolding remove_all lookup
lookup-remove_all p k [] = ground arith
lookup-remove_all ⦃e⦄ p k ((j, v) ∷ m) = grind (arith, e.test_iff j k, lookup-remove_all p k m)

module _ {K R : Type 0} ⦃e : Eq K⦄ (key : R → K) where
  -- The first rule with a key.
  abbrev pub find : K → List R → Option R
  find k [] = none
  find k (r ∷ rs) = if key r == k then some r else find k rs

  -- No two rules have the same key.
  abbrev pub Unique : List R → Type 0
  Unique [] = Unit
  Unique (r ∷ rs) = (find (key r) rs ≡ none) × Unique rs

  pub find-replace_or_append :
      (k : K) (x : R) (rs : List R)
      → find k (replace_or_append (λ r. key r == key x) x rs)
        ≡ (if key x == k then some x else find k rs)
  unfolding replace_or_append
  find-replace_or_append k x [] = refl
  find-replace_or_append k x (r ∷ rs) = ground (
    arith,
    e.test_iff (key x) k,
    e.test_iff (key r) k,
    e.test_iff (key r) (key x),
    find-replace_or_append k x rs,
  )

  pub Unique-replace_or_append :
      (x : R) (rs : List R) → Unique rs → Unique (replace_or_append (λ r. key r == key x) x rs)
  unfolding replace_or_append
  Unique-replace_or_append x [] u = (refl, tt)
  Unique-replace_or_append x (r ∷ rs) (n, u) = elim (Bool-cases (key r == key x)) [
    | inl same ↦ rw same (rw ((e.test_iff _ _).0 same) at n, u)
    | inr other ↦ rw other (
      ground (
        arith,
        n,
        other,
        e.test_iff (key r) (key x),
        e.test_iff (key x) (key r),
        find-replace_or_append (key r) x rs,
      ),
      Unique-replace_or_append x rs u,
    )
  ]

  pub find-remove_all :
      (p : K → Bool) (k : K) (rs : List R)
      → find k (remove_all (λ r. p (key r)) rs) ≡ (if p k then none else find k rs)
  unfolding remove_all
  find-remove_all p k [] = ground arith
  find-remove_all p k (r ∷ rs) = grind (arith, e.test_iff (key r) k, find-remove_all p k rs)

  pub Unique-remove_all :
      (p : K → Bool) (rs : List R) → Unique rs → Unique (remove_all (λ r. p (key r)) rs)
  unfolding remove_all
  Unique-remove_all p [] u = tt
  Unique-remove_all p (r ∷ rs) (n, u) = elim (Bool-cases (p (key r))) [
    | inl gone ↦ rw gone (Unique-remove_all p rs u)
    | inr stays ↦
        rw stays (ground (arith, n, stays, find-remove_all p (key r) rs), Unique-remove_all p rs u)
  ]

  pub find-remove_first :
      (j k : K) (rs : List R)
      → Unique rs
      → find k (remove_first (λ r. key r == j) rs) ≡ (if j == k then none else find k rs)
  unfolding remove_first
  find-remove_first j k [] u = ground arith
  find-remove_first j k (r ∷ rs) (n, u) = grind (
    arith,
    n,
    e.test_iff j k,
    e.test_iff (key r) k,
    e.test_iff (key r) j,
    find-remove_first j k rs u,
  )

  pub Unique-remove_first :
      (j : K) (rs : List R) → Unique rs → Unique (remove_first (λ r. key r == j) rs)
  unfolding remove_first
  Unique-remove_first j [] u = tt
  Unique-remove_first j (r ∷ rs) (n, u) = elim (Bool-cases (key r == j)) [
    | inl gone ↦ rw gone u
    | inr stays ↦
        rw stays (ground (arith, n, find-remove_first j (key r) rs u), Unique-remove_first j rs u)
  ]

  module _ {P : Type 0} (to_proto : R → P) (from_proto : P → R)
      (back : (r : R) → from_proto (to_proto r) ≡ r) where
    store_step :
        (r : R) (ps : List P) (m : Map K R)
        → store from_proto key (to_proto r ∷ ps) m ≡ store from_proto key ps (insert (key r) r m)
    unfolding store
    store_step r ps m = ap (λ (x : R). store from_proto key ps (insert (key x) x m)) (back r)

    -- The rule that stands first, against the entry that is stored first.
    found_first :
        (k : K) (r : R) (rs : List R) (m : Map K R)
        → find (key r) rs ≡ none
        → elim (find k rs) [ some x ↦ some x | none ↦ lookup k (insert (key r) r m) ]
          ≡ elim (find k (r ∷ rs)) [ some x ↦ some x | none ↦ lookup k m ]
    found_first k r rs m n = grind (arith, e.test_iff (key r) k, lookup-insert (key r) k r m, n)

    -- Rules stored one after the other, when the conversion gives them back.
    pub lookup-store :
        (k : K) (rs : List R) (m : Map K R)
        → Unique rs
        → lookup k (store from_proto key (map to_proto rs) m)
          ≡ elim (find k rs) [ some r ↦ some r | none ↦ lookup k m ]
    unfolding store
    lookup-store k [] m u = refl
    lookup-store k (r ∷ rs) m (n, u) =
        ap (λ l. lookup k l) (store_step r (map to_proto rs) m)
        ∙ lookup-store k rs (insert (key r) r m) u
        ∙ found_first k r rs m n
