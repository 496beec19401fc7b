-- ===== src/Base/Errors.antt =====
-- A value or an error, for Go's `(T, error)` results, with `do`.
use mathlib.Core.Path.{◌≡◌, refl}
use mathlib.Core.Logic.{◌⊎◌, inl, inr}
use mathlib.Core.Bool.{Bool, true, false}

pub data Outcome {ℓ κ} (E : Type ℓ) (A : Type κ) : Type (ℓ ⊔ κ) where
  ok : A → Outcome E A
  err : E → Outcome E A

infixl 5 ◌>>=◌ ◌>>◌
abbrev pub ◌>>=◌ {ℓ κ κ'} :
    {E : Type ℓ} {A : Type κ} {B : Type κ'} → Outcome E A → (A → Outcome E B) → Outcome E B
ok a >>= f = f a
err e >>= f = err e

abbrev pub ◌>>◌ {ℓ κ} : {E : Type ℓ} {B : Type κ} → Outcome E (Unit {0}) → Outcome E B → Outcome E B
m >> k = m >>= λ _. k

abbrev pub guard {ℓ} : {E : Type ℓ} → Bool → E → Outcome E (Unit {0})
guard true e = ok tt
guard false e = err e

-- An error wrapped on its way up.
abbrev pub map_err {ℓ ℓ' κ} :
    {E : Type ℓ} {F : Type ℓ'} {A : Type κ} → (E → F) → Outcome E A → Outcome F A
map_err f (ok a) = ok a
map_err f (err e) = err (f e)

abbrev pub is_ok {ℓ κ} : {E : Type ℓ} {A : Type κ} → Outcome E A → Bool
is_ok (ok _) = true
is_ok (err _) = false

pub Outcome-cases {ℓ κ} :
    {E : Type ℓ} {A : Type κ} (r : Outcome E A) → ((a : A) × (r ≡ ok a)) ⊎ ((e : E) × (r ≡ err e))
Outcome-cases (ok a) = inl (a, refl)
Outcome-cases (err e) = inr (e, refl)

-- A success taken apart.
module _ {ℓ κ} {E : Type ℓ} {A : Type κ} where
  pub map_err-eq-ok {ℓ'} :
      {F : Type ℓ'} (f : E → F) (r : Outcome E A) {a : A} → map_err f r ≡ ok a → r ≡ ok a
  map_err-eq-ok f (ok b) e = cc
  map_err-eq-ok f (err b) e = cc

  pub bind-eq-ok {κ'} :
      {B : Type κ'} (r : Outcome E A) (f : A → Outcome E B) {b : B}
      → (r >>= f) ≡ ok b
      → (a : A) × (r ≡ ok a) × (f a ≡ ok b)
  bind-eq-ok (ok a) f e = (a, refl, e)
  bind-eq-ok (err c) f e = cc

  pub guard-eq-ok :
      (b : Bool) (c : E) (r : Outcome E A) {a : A}
      → (guard b c >> r) ≡ ok a
      → (b ≡ true) × (r ≡ ok a)
  guard-eq-ok true c r e = (refl, e)
  guard-eq-ok false c r e = cc

  pub ok_inj : (r : Outcome E A) {a b : A} → r ≡ ok a → r ≡ ok b → a ≡ b
  ok_inj r p q = cc
