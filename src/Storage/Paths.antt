-- ===== src/Storage/Paths.antt =====
-- slayer/storage/base.py: `_validate_path_component`.
use slayer.Prelude.{
  ℕ, ◌≡◌, ◌≢◌, refl, ap, ◌↔◌, inl, inr, Bool, true, false, ◌||◌, not, Bool-cases, Option, none,
  some, [], ◌∷◌, starts_with, arith,
}
use slayer.Prelude.Result.{Result, ok, ◌>>◌, unless_raise}
use slayer.Prelude.Text.{Text, text, text_eq, text_eq_iff, strip}
use slayer.Storage.{
  StorageError, not_a_name, outer_whitespace, path_traversal, has_char, contains, first_disallowed,
  check_characters, is_traversal, is_blank_name, path_component_disallowed, validate_path_component,
}

has_char-starts_with :
    (p : ℕ) (ps value : Text) → starts_with (p ∷ ps) value ≡ true → has_char p value ≡ true
unfolding starts_with
has_char-starts_with p ps [] h = absurd (cc)
has_char-starts_with p ps (c ∷ value) h = ground (arith)

has_char-contains :
    (p : ℕ) (ps value : Text) → contains (p ∷ ps) value ≡ true → has_char p value ≡ true
unfolding contains starts_with
has_char-contains p ps [] h = absurd (cc)
has_char-contains p ps (c ∷ value) h =
    ground (arith, has_char-contains p ps value, has_char-starts_with p ps (c ∷ value))

-- what a safe component of a path is
unfoldable pub IsSafe : Text → Type 0
IsSafe value =
    (value ≢ [])
    × (strip value ≡ value)
    × (has_char b'/' value ≡ false)
    × (has_char b'\\' value ≡ false)
    × (has_char 0 value ≡ false)
    × (has_char b'.' value ≡ false)

not_blank :
    (value stripped : Text)
    → value ≢ []
    → stripped ≡ value
    → (text_eq value [] || text_eq stripped []) ≡ false
unfolding text_eq
not_blank [] stripped filled same = absurd (filled refl)
not_blank (c ∷ value) stripped filled same = ap (λ s. text_eq s []) same

not_traversal :
    (value : Text)
    → has_char b'/' value ≡ false
    → has_char b'\\' value ≡ false
    → has_char b'.' value ≡ false
    → is_traversal value ≡ false
unfolding is_traversal
not_traversal value a b c =
    let one = has_char-starts_with b'.' (text ".") value in
    let two = has_char-contains b'/' (text "..") value in
    let three = has_char-contains b'\\' (text "..") value in
    elim (Bool-cases (text_eq value (text ".."))) [
      | inl dots ↦
          absurd (ground (arith, ap (has_char b'.') ((text_eq_iff value (text "..")).0 dots)))
      | inr other ↦ ground (arith)
    ]

module _ (value : Text) where
  -- the four checks in turn
  abbrev checks : Bool → Bool → Bool → Option ℕ → Result StorageError (Unit {0})
  checks blank same traversal bad =
      unless_raise (not blank) (not_a_name value)
      >> (unless_raise same (outer_whitespace value)
          >> (unless_raise (not traversal) (path_traversal value) >> check_characters value bad))

  checks_iff :
      (blank same traversal : Bool) (bad : Option ℕ)
      → (checks blank same traversal bad ≡ ok tt)
        ↔ ((blank ≡ false) × (same ≡ true) × (traversal ≡ false) × (bad ≡ none))
  unfolding check_characters
  checks_iff true same traversal bad = (λ h. absurd (cc), λ (b, s, t, n). absurd (cc))
  checks_iff false false traversal bad = (λ h. absurd (cc), λ (b, s, t, n). absurd (cc))
  checks_iff false true true bad = (λ h. absurd (cc), λ (b, s, t, n). absurd (cc))
  checks_iff false true false none = (λ h. (refl, refl, refl, refl), λ _. refl)
  checks_iff false true false (some ch) = (λ h. absurd (cc), λ (b, s, t, n). absurd (cc))

filled : (value s : Text) → (text_eq value [] || text_eq s []) ≡ false → value ≢ []
unfolding text_eq
filled [] s h e = cc
filled (c ∷ value) s h e = cc

-- A name is accepted exactly if it is not empty, has no whitespace at its ends, and none of the
-- characters `/`, `\`, NUL and `.`.
pub validate_path_component_iff :
    (value : Text) → (validate_path_component value ≡ ok tt) ↔ IsSafe value
unfolding validate_path_component IsSafe
validate_path_component_iff value =
    let both =
      checks_iff value (is_blank_name value) (text_eq (strip value) value) (is_traversal value)
        (first_disallowed path_component_disallowed value) in
    (
      λ h.
          let (b, s, t, n) = both.0 h in
          let (slash, backslash, nul, dot) = allowed n in
          (
            filled value (strip value) b,
            (text_eq_iff (strip value) value).0 s,
            slash,
            backslash,
            nul,
            dot,
          ),
      λ (e, s, slash, backslash, nul, dot). both.1 (
        not_blank value (strip value) e s,
        (text_eq_iff (strip value) value).1 s,
        not_traversal value slash backslash dot,
        ground (arith),
      ),
    )
  where
    allowed :
        first_disallowed path_component_disallowed value ≡ none
        → (has_char b'/' value ≡ false)
          × (has_char b'\\' value ≡ false)
          × (has_char 0 value ≡ false)
          × (has_char b'.' value ≡ false)
    allowed h = (ground (arith), ground (arith), ground (arith), ground (arith))
