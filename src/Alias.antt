-- ===== src/Alias.antt =====
-- slayer/sql/dialects/_alias_mangle.py: how BigQuery and T-SQL carry dotted output-column names.
-- A text is the list of its code points.
pub mod RoundTrip
mod Examples
mod Tokens
use slayer.Prelude.{
  ℕ, zero, suc, Bool, true, false, ◌&&◌, List, [], ◌∷◌, ◌++◌, length, drop, starts_with, eqb,
}

-- `_ALIAS_SEP`, and the text that an occurrence of it is escaped to
abbrev pub alias_sep : List ℕ
alias_sep = b'_' ∷ b'_' ∷ b'_' ∷ []

abbrev pub esc : List ℕ
esc = b'_' ∷ b'_' ∷ b'_' ∷ b'_' ∷ b'_' ∷ b'_' ∷ []

-- `.replace("___", "______")`: the occurrences are found from the left and do not overlap
unfoldable pub escape_seps : List ℕ → List ℕ
escape_seps (a ∷ b ∷ c ∷ s) = elim (eqb a b'_' && (eqb b b'_' && eqb c b'_')) [
  | true ↦ esc ++ escape_seps s
  | false ↦ a ∷ escape_seps (b ∷ c ∷ s)
]
escape_seps s = s

-- `.replace(".", "___")`
unfoldable pub replace_dots : List ℕ → List ℕ
replace_dots [] = []
replace_dots (c ∷ s) = elim (eqb c b'.') [
  | true ↦ alias_sep ++ replace_dots s
  | false ↦ c ∷ replace_dots s
]

unfoldable pub encode_alias : List ℕ → List ℕ
unfolding escape_seps replace_dots
encode_alias alias = replace_dots (escape_seps alias)

-- the `while` loop of `decode_alias`, over what is left of the key
unfoldable pub decode_from : ℕ → List ℕ → List ℕ
unfolding starts_with
decode_from zero key = []
decode_from (suc fuel) [] = []
decode_from (suc fuel) (c ∷ key) = elim (starts_with esc (c ∷ key)) [
  | true ↦ alias_sep ++ decode_from fuel (drop 6 (c ∷ key))
  | false ↦ elim (starts_with alias_sep (c ∷ key)) [
    | true ↦ b'.' ∷ decode_from fuel (drop 3 (c ∷ key))
    | false ↦ c ∷ decode_from fuel key
  ]
]

-- Every round consumes a code point, so the length of the key is fuel enough.
unfoldable pub decode_alias : List ℕ → List ℕ
unfolding decode_from
decode_alias key = decode_from (length key) key
