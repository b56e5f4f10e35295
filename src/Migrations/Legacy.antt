-- ===== src/Migrations/Legacy.antt =====
-- What `_coerce_type_string` of slayer/storage/v5_migration.py leaves in a column.
use slayer.Prelude.{
  ◌≡◌, refl, subst, Option, Option-cases, none, some, Bool, Bool-cases, true, false, [], ◌∷◌, ◌⊎◌,
  inl, inr, if◌then◌else◌, arith, All,
}
use slayer.Prelude.Text.{Text, text, text_eq, text_eq_iff, member}
use slayer.Prelude.TextDict.{TextDict, lookup}
use slayer.Migrations.{
  Json, null, boolean, number, string, array, object, Fields, empty, field, get_field, del_field,
}
use slayer.Migrations.Once.{get_field-put_field}
use slayer.Migrations.Convert.{
  legacy_to_v5, legacy_pseudo, coerce_text, coerce_type_string, rewrite_column,
}

-- a name that version 5 replaces or removes
abbrev pub is_legacy : Text → Bool
is_legacy t = elim (lookup legacy_to_v5 t) [ none ↦ member t legacy_pseudo | some v ↦ true ]

new_names : All (λ e. is_legacy e.1 ≡ false) legacy_to_v5
unfolding lookup member text_eq
new_names = (refl, (refl, (refl, (refl, (refl, (refl, tt))))))

lookup-All :
    (Good : Text → Type 0) (d : TextDict Text) (key v : Text)
    → All (λ e. Good e.1) d
    → lookup d key ≡ some v
    → Good v
unfolding lookup
lookup-All Good [] key v all h = absurd (cc)
lookup-All Good ((k, held) ∷ d) key v (good, all) h = elim (Bool-cases (text_eq k key)) [
  | inl same ↦ subst Good (ground (arith, same)) good
  | inr other ↦ lookup-All Good d key v all (ground (arith, other))
]

mapped-modern : (s t : Text) → lookup legacy_to_v5 s ≡ some t → is_legacy t ≡ false
mapped-modern s t h = lookup-All (λ v. is_legacy v ≡ false) legacy_to_v5 s t new_names h

coerced :
    (o : Option Text) (b : Bool) (s t : Text)
    → (elim o [ some mapped ↦ some mapped | none ↦ if b then none else some s ]) ≡ some t
    → (o ≡ some t) ⊎ ((o ≡ none) × (b ≡ false) × (s ≡ t))
coerced none true s t h = absurd (cc)
coerced none false s t h = inr (refl, refl, cc)
coerced (some v) b s t h = inl h

coerce_text-modern : (s t : Text) → coerce_text s ≡ some t → is_legacy t ≡ false
unfolding coerce_text
coerce_text-modern s t h = elim (coerced (lookup legacy_to_v5 s) (member s legacy_pseudo) s t h) [
  | inl e ↦ mapped-modern s t e
  | inr (missing, kept, same) ↦ subst (λ v. is_legacy v ≡ false) same (rw missing kept)
]

coerce_type_string-modern :
    (j : Json) (t : Text) → coerce_type_string j ≡ some (string t) → is_legacy t ≡ false
unfolding coerce_type_string
coerce_type_string-modern (string s) t h = elim (Option-cases (coerce_text s)) [
  | inl e ↦ absurd (ground (arith, e))
  | inr (v, e) ↦ coerce_text-modern s t (ground (arith, e))
]
coerce_type_string-modern null t h = absurd (cc)
coerce_type_string-modern (boolean b) t h = absurd (cc)
coerce_type_string-modern (number n) t h = absurd (cc)
coerce_type_string-modern (array a) t h = absurd (cc)
coerce_type_string-modern (object o) t h = absurd (cc)

get_field-del_field : (fs : Fields) (key : Text) → get_field (del_field fs key) key ≡ none
unfolding get_field del_field
get_field-del_field empty key = refl
get_field-del_field (field k v fs) key = ground (arith, get_field-del_field fs key)

pub rewrite_column-modern :
    (col : Fields) (t : Text)
    → get_field (rewrite_column col) (text "type") ≡ some (string t)
    → is_legacy t ≡ false
unfolding rewrite_column
rewrite_column-modern col t h = elim (Option-cases (get_field col (text "type"))) [
  | inl e ↦ absurd (ground (arith, e))
  | inr (j, e) ↦ elim (Option-cases (coerce_type_string j)) [
    | inl f ↦ absurd (ground (arith, e, f, get_field-del_field col (text "type")))
    | inr (mapped, f) ↦ coerce_type_string-modern j t (
        ground (
          arith,
          e,
          f,
          get_field-put_field col (text "type") (text "type") mapped,
          text_eq_iff (text "type") (text "type"),
        ))
  ]
]
