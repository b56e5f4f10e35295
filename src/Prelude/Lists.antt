-- ===== src/Prelude/Lists.antt =====
-- Lists measured by native numbers, under the library's names, and predicates by recursion.
use Prim.Native.Nat.{ℕ, zero, suc, ◌+◌}
use mathlib.Core.Path.{◌≡◌, refl}
use mathlib.Core.Logic.{◌⊎◌, inl, inr}
use mathlib.Core.Bool.{Bool, true, false, ◌&&◌, ◌||◌}
use mathlib.Core.List.{List, [], ◌∷◌, ◌++◌}
use native.Mathlib.Omega.{arith}
use slayer.Prelude.Tests.{eqb}

module _ {ℓ} {A : Type ℓ} where
  abbrev pub length : List A → ℕ
  length [] = 0
  length (x ∷ xs) = suc (length xs)

  abbrev pub take : ℕ → List A → List A
  take zero xs = []
  take (suc n) [] = []
  take (suc n) (x ∷ xs) = x ∷ take n xs

  abbrev pub drop : ℕ → List A → List A
  drop zero xs = xs
  drop (suc n) [] = []
  drop (suc n) (x ∷ xs) = drop n xs

  abbrev pub replicate : ℕ → A → List A
  replicate zero a = []
  replicate (suc n) a = a ∷ replicate n a

  -- `[x for x in xs if keep(x)]`
  abbrev pub keep_if : (A → Bool) → List A → List A
  keep_if keep [] = []
  keep_if keep (x ∷ xs) = elim (keep x) [ true ↦ x ∷ keep_if keep xs | false ↦ keep_if keep xs ]

  -- `any(test(x) for x in xs)`
  abbrev pub any : (A → Bool) → List A → Bool
  any test [] = false
  any test (x ∷ xs) = test x || any test xs

  -- `all(test(x) for x in xs)`
  abbrev pub all : (A → Bool) → List A → Bool
  all test [] = true
  all test (x ∷ xs) = test x && all test xs

  pub any-cong : (f g : A → Bool) (xs : List A) → ((x : A) → f x ≡ g x) → any f xs ≡ any g xs
  any-cong f g [] h = refl
  any-cong f g (x ∷ xs) h = ground (arith, h x, any-cong f g xs h)

  pub any-and :
      (b : Bool) (f g : A → Bool) (xs : List A)
      → any (λ x. f x && (b && g x)) xs ≡ (b && any (λ x. f x && g x) xs)
  any-and true f g [] = refl
  any-and false f g [] = refl
  any-and b f g (x ∷ xs) = ground (arith, any-and b f g xs)

  pub all_mono :
      (f g : A → Bool) (xs : List A)
      → ((x : A) → f x ≡ true → g x ≡ true)
      → all f xs ≡ true
      → all g xs ≡ true
  all_mono f g [] h k = refl
  all_mono f g (x ∷ xs) h k = ground (arith, h x, all_mono f g xs h)

  pub List-cases : (xs : List A) → (xs ≡ []) ⊎ ((x : A) × (rest : List A) × (xs ≡ x ∷ rest))
  List-cases [] = inl refl
  List-cases (x ∷ xs) = inr (x, xs, refl)

  pub length-append : (xs ys : List A) → length (xs ++ ys) ≡ length xs + length ys
  length-append [] ys = omega arith
  length-append (x ∷ xs) ys = omega (arith, length-append xs ys)

-- A predicate of every element; it computes to a tuple.
abbrev pub All {κ ℓ} : {A : Type ℓ} (Holds : A → Type κ) (list : List A) → Type κ
All Holds [] = Unit
All Holds (first ∷ list) = Holds first × All Holds list

-- `l.startswith(p)` over code points
unfoldable pub starts_with : List ℕ → List ℕ → Bool
starts_with [] l = true
starts_with (p ∷ ps) [] = false
starts_with (p ∷ ps) (c ∷ l) = eqb p c && starts_with ps l
