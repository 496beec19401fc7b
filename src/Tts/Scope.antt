-- ===== src/Tts/Scope.antt =====
-- The scope tests of pkg/tts: `isScopeSubset` of handler.go, and `ScopeContains` of cel.go.
use kontxt.Base.{
  String, ◌≡◌, refl, ◌↔◌, Bool, true, ◌||◌, List, [], ◌∷◌, arith, eq_iff, ◌==◌, Eq_nat, Eq_string,
  test_refl, or_true, all, contains, In,
}
use kontxt.Base.Strings.{fields}

-- isScopeSubset; the set of existing scopes is the list of their words.
unfoldable pub is_scope_subset : String → String → Bool
is_scope_subset requested existing = all (λ s. contains (fields existing) s) (fields requested)

-- the loop of `ScopeContains`
abbrev find_scope : List String → String → Bool
find_scope [] target = Bool.false
find_scope (s ∷ rest) target = s == target || find_scope rest target

-- ScopeContains
unfoldable pub scope_contains : String → String → Bool
scope_contains scope target = find_scope (fields scope) target

-- Every scope of the first text is one of the second.
abbrev pub Narrows : String → String → Type 0
Narrows requested existing = (s : String) → In s (fields requested) → In s (fields existing)

all-contains-In :
    (xs ys : List String) (s : String) → all (λ s. contains ys s) xs ≡ true → In s xs → In s ys
all-contains-In [] ys s h m = cc
all-contains-In (x ∷ xs) ys s h m = ground (arith, eq_iff x s, all-contains-In xs ys s)

all-contains_of_In :
    (xs ys : List String) → ((s : String) → In s xs → In s ys) → all (λ s. contains ys s) xs ≡ true
all-contains_of_In [] ys h = refl
all-contains_of_In (x ∷ xs) ys h =
    rw (h x (rw (test_refl x))) (all-contains_of_In xs ys (λ s m. h s (rw m (or_true (x == s)))))

-- The subset test accepts exactly the requested scopes whose every word is an existing one.
pub is_scope_subset_iff :
    (requested existing : String)
    → (is_scope_subset requested existing ≡ true) ↔ Narrows requested existing
unfolding is_scope_subset
is_scope_subset_iff requested existing = (
  (λ h s. all-contains-In (fields requested) (fields existing) s h),
  all-contains_of_In (fields requested) (fields existing),
)

find_scope-contains : (xs : List String) (s : String) → find_scope xs s ≡ contains xs s
find_scope-contains [] s = refl
find_scope-contains (x ∷ xs) s = rw (find_scope-contains xs s)

-- `ScopeContains` is membership among the words of the scope.
pub scope_contains_lem :
    (scope target : String) → scope_contains scope target ≡ contains (fields scope) target
unfolding scope_contains
scope_contains_lem scope target = find_scope-contains (fields scope) target
