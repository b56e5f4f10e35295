-- ===== src/Alias/RoundTrip.antt =====
-- _alias_mangle.py: which aliases `decode_alias` Restores from `encode_alias`.
use slayer.Prelude.{
  ℕ, zero, suc, ◌≤◌, ◌≡◌, refl, ap, ◌≢◌, ◌↔◌, true, false, ◌||◌, List, [], ◌∷◌, ◌++◌, arith, length,
  starts_with, eqb, any,
}
use slayer.Alias.{alias_sep, escape_seps, replace_dots, encode_alias, decode_from, decode_alias}
use slayer.Alias.Tokens.{
  leads_sep, restorable, finish, triple, lone, separator, plain, Token-cases, encode-triple,
  encode-separator, encode-lone, encode-plain, restorable-triple, restorable-separator,
  restorable-lone, restorable-plain,
}

encode-nil : encode_alias [] ≡ []
unfolding encode_alias
encode-nil = refl

-- whether the encoded text begins with one, two or three underscores
first-encode :
    (l : List ℕ)
    → starts_with (b'_' ∷ []) (encode_alias l)
      ≡ (starts_with (b'.' ∷ []) l || starts_with (b'_' ∷ []) l)
unfolding starts_with
first-encode l = elim (Token-cases l) [
  | finish e ↦ rw e (rw encode-nil)
  | triple s e ↦ ground (arith, encode-triple s)
  | lone s short e ↦ ground (arith, encode-lone s short)
  | separator s e ↦ ground (arith, encode-separator s)
  | plain c s u d e ↦ ground (arith, encode-plain c s u d)
]

second-encode :
    (l : List ℕ)
    → starts_with (b'_' ∷ b'_' ∷ []) l ≡ false
    → starts_with (b'_' ∷ b'_' ∷ []) (encode_alias l)
      ≡ (starts_with (b'.' ∷ []) l || starts_with (b'_' ∷ b'.' ∷ []) l)
unfolding starts_with
second-encode l h = elim (Token-cases l) [
  | finish e ↦ rw e (rw encode-nil)
  | triple s e ↦ ground arith
  | lone s short e ↦ ground (arith, encode-lone s short, first-encode s)
  | separator s e ↦ ground (arith, encode-separator s)
  | plain c s u d e ↦ ground (arith, encode-plain c s u d)
]

third-encode : (l : List ℕ) → starts_with alias_sep (encode_alias l) ≡ leads_sep l
unfolding starts_with leads_sep
third-encode l = elim (Token-cases l) [
  | finish e ↦ rw e (rw encode-nil)
  | triple s e ↦ ground (arith, encode-triple s)
  | lone s short e ↦ ground (arith, encode-lone s short, second-encode s short)
  | separator s e ↦ ground (arith, encode-separator s)
  | plain c s u d e ↦ ground (arith, encode-plain c s u d)
]

-- `decode_from` with fuel enough gives the alias back exactly if it is restorable
Restores : List ℕ → ℕ → Type 0
Restores l fuel = (decode_from fuel (encode_alias l) ≡ l) ↔ (restorable l ≡ true)

module _ (s : List ℕ) (fuel : ℕ) where
  Restores-triple : Restores s fuel → Restores (alias_sep ++ s) (suc fuel)
  unfolding Restores decode_from
  Restores-triple h = ground (arith, encode-triple s, restorable-triple s)

  Restores-lone :
      starts_with (b'_' ∷ b'_' ∷ []) s ≡ false → Restores s fuel → Restores (b'_' ∷ s) (suc fuel)
  unfolding Restores decode_from leads_sep
  Restores-lone short h =
      ground (arith, encode-lone s short, restorable-lone s short, third-encode (b'_' ∷ s))

  Restores-separator : Restores s fuel → Restores (b'.' ∷ s) (suc fuel)
  unfolding Restores decode_from
  Restores-separator h = ground (arith, encode-separator s, restorable-separator s, third-encode s)

  Restores-plain : (c : ℕ) → c ≢ b'_' → c ≢ b'.' → Restores s fuel → Restores (c ∷ s) (suc fuel)
  unfolding Restores decode_from
  Restores-plain c u d h = ground (arith, encode-plain c s u d, restorable-plain c s u d)

Restores-nil : (fuel : ℕ) → Restores [] fuel
unfolding Restores encode_alias decode_from restorable
Restores-nil zero = (λ _. refl, λ _. refl)
Restores-nil (suc fuel) = (λ _. refl, λ _. refl)

-- the encoded text is longer than what its first token leaves
length-encode-cons :
    (a : ℕ) (l s : List ℕ) {t u : List ℕ}
    → a ∷ l ≡ t
    → encode_alias t ≡ u
    → suc (length (encode_alias s)) ≤ length u
    → suc (length (encode_alias s)) ≤ length (encode_alias (a ∷ l))
length-encode-cons a l s e f h = rw (e, f) h

module _ (n a : ℕ) (l : List ℕ) (bound : length l ≤ n) (fuel : ℕ) where
  Restores-cons :
      ((s : List ℕ) (k : ℕ) → length s ≤ n → length (encode_alias s) ≤ k → Restores s k)
      → length (encode_alias (a ∷ l)) ≤ suc fuel
      → Restores (a ∷ l) (suc fuel)
  Restores-cons ih k = elim (Token-cases (a ∷ l)) [
    | finish e ↦ cc
    | triple s e ↦
        let longer = length-encode-cons a l s e (encode-triple s) (omega arith) in
        rw e
          (Restores-triple s fuel (ih s fuel (omega (arith, ap length e)) (omega (arith, longer))))
    | lone s short e ↦
        let longer = length-encode-cons a l s e (encode-lone s short) (omega arith) in
        rw e (
          Restores-lone s fuel short
            (ih s fuel (omega (arith, ap length e)) (omega (arith, longer))))
    | separator s e ↦
        let longer = length-encode-cons a l s e (encode-separator s) (omega arith) in
        rw e (
          Restores-separator s fuel
            (ih s fuel (omega (arith, ap length e)) (omega (arith, longer))))
    | plain c s u d e ↦
        let longer = length-encode-cons a l s e (encode-plain c s u d) (omega arith) in
        rw e (
          Restores-plain s fuel c u d
            (ih s fuel (omega (arith, ap length e)) (omega (arith, longer))))
  ]

encode-ne-nil : (a : ℕ) (l : List ℕ) → 1 ≤ length (encode_alias (a ∷ l))
encode-ne-nil a l = elim (Token-cases (a ∷ l)) [
  | finish e ↦ cc
  | triple s e ↦ rw (e, encode-triple s) (omega arith)
  | lone s short e ↦ rw (e, encode-lone s short) (omega arith)
  | separator s e ↦ rw (e, encode-separator s) (omega arith)
  | plain c s u d e ↦ rw (e, encode-plain c s u d) (omega arith)
]

Restores-of_bounds :
    (n : ℕ) (l : List ℕ) (fuel : ℕ)
    → length l ≤ n
    → length (encode_alias l) ≤ fuel
    → Restores l fuel
Restores-of_bounds n [] fuel h k = Restores-nil fuel
Restores-of_bounds zero (a ∷ l) fuel h k = absurd (omega arith)
Restores-of_bounds (suc n) (a ∷ l) zero h k = absurd (omega (arith, encode-ne-nil a l))
Restores-of_bounds (suc n) (a ∷ l) (suc fuel) h k =
    Restores-cons n a l (omega arith) fuel (Restores-of_bounds n) k

-- `decode_alias` gives an alias back from its encoding exactly if the alias is `restorable`: a dot
-- follows no underscores but triples of them, and is not followed by a dot, by three underscores or
-- by one or two underscores and a dot.
pub decode-encode :
    (alias : List ℕ) → (decode_alias (encode_alias alias) ≡ alias) ↔ (restorable alias ≡ true)
unfolding Restores decode_alias
decode-encode alias =
    Restores-of_bounds (length alias) alias (length (encode_alias alias)) (omega arith)
      (omega arith)

replace_dots-no_dot : (s : List ℕ) → any (eqb b'.') (replace_dots s) ≡ false
unfolding replace_dots
replace_dots-no_dot [] = refl
replace_dots-no_dot (c ∷ s) = ground (arith, replace_dots-no_dot s)

-- No encoded alias holds a dot.
encode-no_dot : (alias : List ℕ) → any (eqb b'.') (encode_alias alias) ≡ false
unfolding encode_alias
encode-no_dot alias = replace_dots-no_dot (escape_seps alias)
