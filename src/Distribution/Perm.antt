-- ===== src/Distribution/Perm.antt =====
-- Rules found alike under every key, and the map of a client as a list of rules.
use kontxt.Base.{
  ◌≡◌, refl, sym, ap, ◌∙◌, inl, inr, Bool, none, some, List, [], ◌∷◌, arith, if◌then◌else◌, Eq,
  ◌==◌, Eq_nat, Eq_string, Bool-cases, test_refl, subst, some_inj,
}
use mathlib.Core.List.{Permᴰ}
use mathlib.Core.List.Permᴰ
use kontxt.Base.Maps.{Map, lookup, insert, delete, lookup-insert, lookup-delete}
use kontxt.Distribution.Stream.{remove_first, remove_all}
use kontxt.Distribution.Client.{values, store}
use kontxt.Distribution.Laws.{
  find, Unique, find-remove_first, Unique-remove_first, lookup-remove_all,
}

module _ {K R : Type 0} ⦃e : Eq K⦄ (key : R → K) where
  find-key : (k : K) (rs : List R) {r : R} → find key k rs ≡ some r → key r ≡ k
  find-key k [] h = cc
  find-key k (x ∷ rs) h = elim (Bool-cases (key x == k)) [
    | inl same ↦
        subst (λ (y : R). key y ≡ k) (some_inj (rw (same, find) at h)) ((e.test_iff _ _).0 same)
    | inr other ↦ find-key k rs (rw (other, find) at h)
  ]

  -- The rule that is found, in front of the others.
  remove_first-perm :
      (k : K) (rs : List R) {r : R}
      → find key k rs ≡ some r
      → Permᴰ rs (r ∷ remove_first (λ x. key x == k) rs)
  unfolding remove_first
  remove_first-perm k [] h = cc
  remove_first-perm k (x ∷ rs) h = elim (Bool-cases (key x == k)) [
    | inl same ↦ rw same (Permᴰ.cons (some_inj (rw (same, find) at h)) (Permᴰ.refl rs))
    | inr other ↦ rw other (
        Permᴰ.trans (Permᴰ.cons refl (remove_first-perm k rs (rw (other, find) at h)))
          (Permᴰ.swap refl refl))
  ]

  rest_same :
      (k : K) (r : R) (rs ss : List R)
      → find key (key r) rs ≡ none
      → Unique key ss
      → find key k (r ∷ rs) ≡ find key k ss
      → find key k rs ≡ find key k (remove_first (λ x. key x == key r) ss)
  rest_same k r rs ss fresh v same = elim (Bool-cases (key r == k)) [
    | inl at_r ↦
        subst (λ (j : K). find key j rs ≡ none) ((e.test_iff _ _).0 at_r) fresh
        ∙ sym (find-remove_first key (key r) k ss v ∙ (rw at_r refl))
    | inr other ↦ (rw other at same) ∙ sym (find-remove_first key (key r) k ss v ∙ (rw other refl))
  ]

  -- Two lists without double keys, in which the same rules are found, are the same up to the order.
  pub find-perm :
      (rs ss : List R)
      → Unique key rs
      → Unique key ss
      → ((k : K) → find key k rs ≡ find key k ss)
      → Permᴰ rs ss
  find-perm [] [] u v same = Permᴰ.nil
  find-perm [] (s ∷ ss) u v same = cc (same (key s), test_refl (key s))
  find-perm (r ∷ rs) ss (fresh, u) v same =
      let here : find key (key r) ss ≡ some r =
        sym (same (key r)) ∙ (rw (test_refl (key r)) refl) in
      Permᴰ.trans
        (Permᴰ.cons refl (
          find-perm rs (remove_first (λ x. key x == key r) ss) u
            (Unique-remove_first key (key r) ss v) (λ k. rest_same k r rs ss fresh v (same k))))
        (Permᴰ.symm (remove_first-perm (key r) ss here))

  -- Every rule of the map stands under its own key, and no key twice.
  abbrev pub IsKeyed : Map K R → Type 0
  IsKeyed [] = Unit
  IsKeyed ((k, r) ∷ m) = (key r ≡ k) × (lookup k m ≡ none) × IsKeyed m

  pub find-values : (k : K) (m : Map K R) → IsKeyed m → find key k (values m) ≡ lookup k m
  unfolding values lookup
  find-values k [] h = refl
  find-values k ((j, r) ∷ m) (own, fresh, h) =
      rw own (ap (λ o. if j == k then some r else o) (find-values k m h))

  pub Unique-values : (m : Map K R) → IsKeyed m → Unique key (values m)
  unfolding values
  Unique-values [] h = tt
  Unique-values ((j, r) ∷ m) (own, fresh, h) =
      (find-values (key r) m h ∙ (rw own fresh), Unique-values m h)

  pub insert-IsKeyed : (r : R) (m : Map K R) → IsKeyed m → IsKeyed (insert (key r) r m)
  unfolding insert lookup
  insert-IsKeyed r [] h = (refl, refl, tt)
  insert-IsKeyed r ((j, x) ∷ m) (own, fresh, h) = elim (Bool-cases (j == key r)) [
    | inl same ↦ rw same (refl, (rw ((e.test_iff _ _).0 same) at fresh), h)
    | inr other ↦ rw other (
      own,
      lookup-insert (key r) j r m
          ∙ (ground (arith, fresh, other, e.test_iff (key r) j, e.test_iff j (key r))),
      insert-IsKeyed r m h,
    )
  ]

  pub delete-IsKeyed : (k : K) (m : Map K R) → IsKeyed m → IsKeyed (delete k m)
  unfolding delete
  delete-IsKeyed k [] h = tt
  delete-IsKeyed k ((j, x) ∷ m) (own, fresh, h) = elim (Bool-cases (j == k)) [
    | inl same ↦ rw same (delete-IsKeyed k m h)
    | inr other ↦
        rw other (own, lookup-delete k j m ∙ (ground (arith, fresh)), delete-IsKeyed k m h)
  ]

  pub remove_all-IsKeyed :
      (p : K → Bool) (m : Map K R) → IsKeyed m → IsKeyed (remove_all (λ kv. p kv.0) m)
  unfolding remove_all
  remove_all-IsKeyed p [] h = tt
  remove_all-IsKeyed p ((j, x) ∷ m) (own, fresh, h) = elim (Bool-cases (p j)) [
    | inl gone ↦ rw gone (remove_all-IsKeyed p m h)
    | inr stays ↦
        rw stays (own, lookup-remove_all p j m ∙ (ground (arith, fresh)), remove_all-IsKeyed p m h)
  ]

  pub store-IsKeyed :
      {P : Type 0} (from_proto : P → R) (ps : List P) (m : Map K R)
      → IsKeyed m
      → IsKeyed (store from_proto key ps m)
  unfolding store
  store-IsKeyed from_proto [] m h = h
  store-IsKeyed from_proto (p ∷ ps) m h =
      store-IsKeyed from_proto ps _ (insert-IsKeyed (from_proto p) m h)

  -- A map that has under each key the rule of a list holds the rules of the list, in some order.
  pub values-perm :
      (m : Map K R) (rules : List R)
      → IsKeyed m
      → Unique key rules
      → ((k : K) → lookup k m ≡ find key k rules)
      → Permᴰ (values m) rules
  values-perm m rules h u same =
      find-perm (values m) rules (Unique-values m h) u (λ k. find-values k m h ∙ same k)
