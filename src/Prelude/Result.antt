-- ===== src/Prelude/Result.antt =====
-- Code that may raise: a value, or the exception. `do` blocks stop at the first exception.
use mathlib.Core.Path.{◌≡◌, refl}
use mathlib.Core.Logic.{◌⊎◌, inl, inr}
use mathlib.Core.Bool.{Bool, true, false}

pub data Result {ℓ} (E : Type 0) (A : Type ℓ) : Type ℓ where
  err : E → Result E A
  ok : A → Result E A

module _ {ℓ κ} {E : Type 0} {A : Type ℓ} {B : Type κ} where
  infixl 5 ◌>>=◌
  abbrev pub ◌>>=◌ : Result E A → (A → Result E B) → Result E B
  err raised >>= next = err raised
  ok value >>= next = next value

  -- a block that returned went through each of its steps
  pub bind-ok :
      (step : Result E A) (next : A → Result E B) {last : B}
      → (step >>= next) ≡ ok last
      → (value : A) × (step ≡ ok value) × (next value ≡ ok last)
  bind-ok (err raised) next h = cc
  bind-ok (ok value) next h = (value, refl, h)

module _ {E : Type 0} where
  infixl 5 ◌>>◌
  abbrev pub ◌>>◌ {κ} : {B : Type κ} → Result E (Unit {0}) → Result E B → Result E B
  step >> rest = step >>= λ _. rest

  -- `if not test: raise e`
  abbrev pub unless_raise : Bool → E → Result E (Unit {0})
  unless_raise false e = err e
  unless_raise true e = ok tt

-- two steps whose values are put together
module _ {ℓ κ μ} {E : Type 0} {A : Type ℓ} {B : Type κ} {C : Type μ} where
  pub bind-bind-ok :
      (one : Result E A) (two : Result E B) (f : A → B → C) {last : C}
      → (one >>= λ a. two >>= λ b. ok (f a b)) ≡ ok last
      → (a : A) × (b : B) × (one ≡ ok a) × (two ≡ ok b) × (f a b ≡ last)
  bind-bind-ok (err raised) two f h = cc
  bind-bind-ok (ok a) (err raised) f h = cc
  bind-bind-ok (ok a) (ok b) f h = (a, b, refl, refl, cc)

pub Result-cases {ℓ} :
    {E : Type 0} {A : Type ℓ} (r : Result E A)
    → ((raised : E) × (r ≡ err raised)) ⊎ ((value : A) × (r ≡ ok value))
Result-cases (err raised) = inl (raised, refl)
Result-cases (ok value) = inr (value, refl)

pub ok_eq {ℓ} : {E : Type 0} {A : Type ℓ} (a b : A) → ◌≡◌ {A = Result E A} (ok a) (ok b) → a ≡ b
ok_eq a b e = cc
