-- ===== src/Alias/Tokens.antt =====
-- _alias_mangle.py: an alias as a sequence of tokens, and what `encode_alias` makes of each.
use slayer.Prelude.{
  ℕ, ◌≡◌, refl, ◌≢◌, inl, inr, Bool, Bool-cases, true, false, ◌&&◌, ◌||◌, not, List, [], ◌∷◌, ◌++◌,
  arith, starts_with, eqb,
}
use slayer.Alias.{alias_sep, esc, encode_alias}

-- the text begins with what is encoded to a text that begins with `___`
unfoldable pub leads_sep : List ℕ → Bool
unfolding starts_with
leads_sep s =
    starts_with (b'.' ∷ []) s
    || (starts_with (b'_' ∷ b'.' ∷ []) s
        || (starts_with (b'_' ∷ b'_' ∷ b'.' ∷ []) s || starts_with alias_sep s))

-- No dot follows one or two underscores that stand over after the triples, counted from the left,
-- and what follows a dot does not begin as `leads_sep` says.
unfoldable pub restorable : List ℕ → Bool
restorable (a ∷ b ∷ c ∷ s) = elim (eqb a b'_' && (eqb b b'_' && eqb c b'_')) [
  | true ↦ restorable s
  | false ↦
      not (eqb a b'.' && leads_sep (b ∷ c ∷ s))
      && (not (eqb a b'_' && leads_sep (a ∷ b ∷ c ∷ s)) && restorable (b ∷ c ∷ s))
]
restorable (a ∷ s) =
    not (eqb a b'.' && leads_sep s) && (not (eqb a b'_' && leads_sep (a ∷ s)) && restorable s)
restorable [] = true

-- one token of an alias, and what follows it
pub data Token (l : List ℕ) : Type 0 where
  finish : l ≡ [] → Token l
  triple : (s : List ℕ) → l ≡ alias_sep ++ s → Token l
  lone : (s : List ℕ) → starts_with (b'_' ∷ b'_' ∷ []) s ≡ false → l ≡ b'_' ∷ s → Token l
  separator : (s : List ℕ) → l ≡ b'.' ∷ s → Token l
  plain : (c : ℕ) (s : List ℕ) → c ≢ b'_' → c ≢ b'.' → l ≡ c ∷ s → Token l

two_underscores :
    (s : List ℕ) → starts_with (b'_' ∷ b'_' ∷ []) s ≡ true → (t : List ℕ) × (s ≡ b'_' ∷ b'_' ∷ t)
unfolding starts_with
two_underscores [] h = ground arith
two_underscores (a ∷ []) h = ground arith
two_underscores (a ∷ b ∷ t) h = (t, ground arith)

pub Token-cases : (l : List ℕ) → Token l
Token-cases [] = finish refl
Token-cases (a ∷ s) = elim (Bool-cases (eqb a b'_')) [
  | inr other ↦ elim (Bool-cases (eqb a b'.')) [
    | inl dot ↦ separator s (ground arith)
    | inr c ↦ plain a s (ground arith) (ground arith) refl
  ]
  | inl u ↦ elim (Bool-cases (starts_with (b'_' ∷ b'_' ∷ []) s)) [
    | inr short ↦ lone s short (ground arith)
    | inl long ↦ let (t, e) = two_underscores s long in triple t (ground arith)
  ]
]

pub encode-triple : (s : List ℕ) → encode_alias (alias_sep ++ s) ≡ esc ++ encode_alias s
unfolding encode_alias
encode-triple s = refl

pub encode-separator : (s : List ℕ) → encode_alias (b'.' ∷ s) ≡ alias_sep ++ encode_alias s
unfolding encode_alias
encode-separator [] = refl
encode-separator (a ∷ []) = refl
encode-separator (a ∷ b ∷ s) = refl

pub encode-lone :
    (s : List ℕ)
    → starts_with (b'_' ∷ b'_' ∷ []) s ≡ false
    → encode_alias (b'_' ∷ s) ≡ b'_' ∷ encode_alias s
unfolding encode_alias starts_with
encode-lone [] h = refl
encode-lone (a ∷ []) h = refl
encode-lone (a ∷ b ∷ s) h = ground arith

pub encode-plain :
    (c : ℕ) (s : List ℕ) → c ≢ b'_' → c ≢ b'.' → encode_alias (c ∷ s) ≡ c ∷ encode_alias s
unfolding encode_alias
encode-plain c [] h k = ground arith
encode-plain c (a ∷ []) h k = ground arith
encode-plain c (a ∷ b ∷ s) h k = ground arith

pub restorable-triple : (s : List ℕ) → restorable (alias_sep ++ s) ≡ restorable s
unfolding restorable
restorable-triple s = refl

pub restorable-separator :
    (s : List ℕ) → restorable (b'.' ∷ s) ≡ (not (leads_sep s) && restorable s)
unfolding restorable
restorable-separator [] = refl
restorable-separator (a ∷ []) = ground arith
restorable-separator (a ∷ b ∷ s) = ground arith

pub restorable-lone :
    (s : List ℕ)
    → starts_with (b'_' ∷ b'_' ∷ []) s ≡ false
    → restorable (b'_' ∷ s) ≡ (not (leads_sep (b'_' ∷ s)) && restorable s)
unfolding restorable starts_with
restorable-lone [] h = refl
restorable-lone (a ∷ []) h = ground arith
restorable-lone (a ∷ b ∷ s) h = ground arith

pub restorable-plain :
    (c : ℕ) (s : List ℕ) → c ≢ b'_' → c ≢ b'.' → restorable (c ∷ s) ≡ restorable s
unfolding restorable
restorable-plain c [] h k = ground arith
restorable-plain c (a ∷ []) h k = ground arith
restorable-plain c (a ∷ b ∷ s) h k = ground arith
