-- ===== src/Base/State.antt =====
-- A call that changes a state and may fail, for methods that fill a cache: what was written before an
-- error stays written.
use mathlib.Core.Path.{◌≡◌, refl}
use kontxt.Base.Errors.{Outcome, ok, err}

module _ {ℓ} (S : Type ℓ) where
  abbrev pub Action {κ κ'} : Type κ → Type κ' → Type (ℓ ⊔ κ ⊔ κ')
  Action E A = S → S × Outcome E A

module _ {ℓ κ} {S : Type ℓ} {E : Type κ} where
  -- A result that leaves the state alone.
  abbrev pub lift {ℓ'} : {A : Type ℓ'} → Outcome E A → Action S E A
  lift r s = (s, r)

  abbrev pub gets {ℓ'} : {A : Type ℓ'} → (S → Outcome E A) → Action S E A
  gets f s = (s, f s)

  abbrev pub modify : (S → S) → Action S E (Unit {0})
  modify f s = (f s, ok tt)

  -- What comes after a call, on the state that it left.
  abbrev pub follow {ℓ' ℓ''} :
      {A : Type ℓ'} {B : Type ℓ''} → S × Outcome E A → (A → Action S E B) → S × Outcome E B
  follow (s, ok a) f = f a s
  follow (s, err e) f = (s, err e)

  infixl 5 ◌>>=◌ ◌>>◌
  abbrev pub ◌>>=◌ {ℓ' ℓ''} :
      {A : Type ℓ'} {B : Type ℓ''} → Action S E A → (A → Action S E B) → Action S E B
  ◌>>=◌ m f s = follow (m s) f

  abbrev pub ◌>>◌ {ℓ'} : {B : Type ℓ'} → Action S E (Unit {0}) → Action S E B → Action S E B
  m >> k = m >>= λ _. k

  module _ {ℓ' ℓ''} {A : Type ℓ'} {B : Type ℓ''} where
    -- A success taken apart.
    pub follow-eq-ok :
        (r : S × Outcome E A) (f : A → Action S E B) {t : S} {b : B}
        → follow r f ≡ (t, ok b)
        → (u : S) × (a : A) × (r ≡ (u, ok a)) × (f a u ≡ (t, ok b))
    follow-eq-ok (u, ok a) f e = (u, a, refl, e)
    follow-eq-ok (u, err x) f e = cc

    -- What holds of the state after each part holds after both.
    pub follow-keeps {κ'} :
        (Holds : S → Type κ') (r : S × Outcome E A) (f : A → Action S E B)
        → Holds r.0
        → ((a : A) (u : S) → Holds u → Holds (f a u).0)
        → Holds (follow r f).0
    follow-keeps Holds (u, ok a) f h k = k a u h
    follow-keeps Holds (u, err x) f h k = h

-- An error wrapped on its way up.
abbrev pub wrap {ℓ κ κ' ℓ'} :
    {S : Type ℓ} {E : Type κ} {F : Type κ'} {A : Type ℓ'}
    → (E → F)
    → S × Outcome E A
    → S × Outcome F A
wrap f (s, ok a) = (s, ok a)
wrap f (s, err e) = (s, err (f e))

abbrev pub map_error {ℓ κ κ' ℓ'} :
    {S : Type ℓ} {E : Type κ} {F : Type κ'} {A : Type ℓ'} → (E → F) → Action S E A → Action S F A
map_error f m s = wrap f (m s)

pub wrap-eq-ok {ℓ κ κ' ℓ'} :
    {S : Type ℓ} {E : Type κ} {F : Type κ'} {A : Type ℓ'} (f : E → F) (r : S × Outcome E A) {t : S}
    {a : A}
    → wrap f r ≡ (t, ok a)
    → r ≡ (t, ok a)
wrap-eq-ok f (u, ok b) e = cc
wrap-eq-ok f (u, err x) e = cc

pub wrap-keeps {ℓ κ κ' ℓ' ℓ''} :
    {S : Type ℓ} {E : Type κ} {F : Type κ'} {A : Type ℓ'} (Holds : S → Type ℓ'') (f : E → F)
    (r : S × Outcome E A)
    → Holds r.0
    → Holds (wrap f r).0
wrap-keeps Holds f (u, ok b) h = h
wrap-keeps Holds f (u, err x) h = h
