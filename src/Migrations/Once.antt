-- ===== src/Migrations/Once.antt =====
-- `migrate` of slayer/storage/migrations.py on what it returned.
use slayer.Prelude.{
  ℕ, zero, suc, ◌≡◌, refl, ap, ◌∙◌, sym, subst, Option, Option-cases, none, some, List, ◌⊎◌, inl,
  inr, if◌then◌else◌, arith,
}
use slayer.Prelude.Text.{Text, text, text_eq, text_eq_iff}
use slayer.Prelude.TextDict.{lookup}
use slayer.Prelude.Result.{err, ok, ◌>>=◌, bind-ok, ok_eq}
use slayer.Wire.{ℤ, pos, negsuc}
use slayer.Migrations.{
  Json, number, object, Fields, empty, field, get_field, put_field, no_migration, Migration,
  current_versions, find_converter, next_version, steps_left, climb, set_default, version_of,
  migrate_to, migrate_fields, migrate, to_int, boolean, string, array, null,
}

pub get_field-put_field :
    (fs : Fields) (key asked : Text) (new : Json)
    → get_field (put_field fs key new) asked
      ≡ (if text_eq key asked then some new else get_field fs asked)
unfolding get_field put_field
get_field-put_field empty key asked new = refl
get_field-put_field (field k v fs) key asked new = ground (
  arith,
  get_field-put_field fs key asked new,
  text_eq_iff k key,
  text_eq_iff k asked,
  text_eq_iff key asked,
)

steps_left-next_version :
    (v : ℤ) (target left : ℕ)
    → steps_left v target ≡ suc left
    → steps_left (next_version v) target ≡ left
unfolding steps_left next_version
steps_left-next_version (pos n) target left e = omega arith
steps_left-next_version (negsuc zero) target left e = omega arith
steps_left-next_version (negsuc (suc n)) target left e = omega arith

last_version : (v : ℤ) (target : ℕ) → steps_left v target ≡ 1 → next_version v ≡ pos target
unfolding steps_left next_version
last_version (pos n) target e = ap pos (omega arith)
last_version (negsuc zero) target e = ap pos (omega arith)
last_version (negsuc (suc n)) target e = absurd (omega arith)

module _ (registry : List Migration) (entity : Text) where
  -- one step of the loop that did not raise
  climb-step :
      (left : ℕ) (current : ℤ) (fs out : Fields)
      → climb registry entity (suc left) current fs ≡ ok out
      → (mid : Fields) × (climb registry entity left
            (next_version current)
            (put_field mid (text "version") (number (next_version current)))
          ≡ ok out)
  unfolding climb
  climb-step left current fs out h = elim (Option-cases (find_converter registry entity current)) [
    | inl missing ↦ absurd (ground (arith, missing))
    | inr (fn, e) ↦
        let (mid, _, rest) = bind-ok (fn fs) _ (
          subst
            (λ o.
              (elim o [
                | none ↦ err (no_migration entity current)
                | some f ↦ f fs >>= λ d.
                    climb registry entity left (next_version current)
                      (put_field d (text "version") (number (next_version current)))
              ])
              ≡ ok out)
            e h) in
        (mid, rest)
  ]

  -- after a step the version stands in the dict
  climb-version :
      (left : ℕ) (current : ℤ) (fs out : Fields) (target : ℕ)
      → steps_left current target ≡ suc left
      → climb registry entity (suc left) current fs ≡ ok out
      → get_field out (text "version") ≡ some (number (pos target))
  unfolding climb
  climb-version zero current fs out target e h =
      let (mid, rest) = climb-step zero current fs out h in
      subst (λ d. get_field d (text "version") ≡ some (number (pos target))) (ok_eq _ _ rest)
        (get_field-put_field mid (text "version") (text "version") _
          ∙ ap (λ v. some (number v)) (last_version current target e))
  climb-version (suc left) current fs out target e h =
      let (mid, rest) = climb-step (suc left) current fs out h in
      climb-version left (next_version current) _ out target
        (steps_left-next_version current target (suc left) e) rest

module _ (parse_int : Text → Option ℤ) (registry : List Migration) (entity : Text) where
  -- a dict whose version is the target or higher is left as it is
  migrate_to-current :
      (target : ℕ) (fs : Fields) (v : ℤ) (held : Json)
      → get_field fs (text "version") ≡ some held
      → to_int parse_int held ≡ some v
      → steps_left v target ≡ 0
      → migrate_to parse_int registry entity target fs ≡ ok fs
  unfolding migrate_to
  migrate_to-current target fs v held e f g = ground (arith, e, f, g)

  set_default-version :
      (fs : Fields) (key : Text) (new : Json)
      → ((held : Json) × (get_field fs key ≡ some held) × (set_default fs key new ≡ fs))
        ⊎ ((get_field fs key ≡ none) × (get_field (set_default fs key new) key ≡ some new))
  unfolding set_default
  set_default-version fs key new = elim (Option-cases (get_field fs key)) [
    | inl missing ↦
        inr (
          missing,
          ground (arith, missing, get_field-put_field fs key key new, text_eq_iff key key),
        )
    | inr (held, e) ↦ inl (held, e, ground (arith, e))
  ]

  -- the dict has a version from which no step is left
  abbrev IsCurrent : ℕ → Fields → Type 0
  IsCurrent target fs =
      (v : ℤ) × (held : Json) × (get_field fs (text "version") ≡ some held)
      × (to_int parse_int held ≡ some v)
      × (steps_left v target ≡ 0)

  IsCurrent-target :
      (target : ℕ) (fs : Fields)
      → get_field fs (text "version") ≡ some (number (pos target))
      → IsCurrent target fs
  unfolding to_int steps_left
  IsCurrent-target target fs e = (pos target, number (pos target), e, refl, omega arith)

  IsCurrent-set_default :
      (target : ℕ) (fs : Fields) (v : ℤ)
      → version_of parse_int fs ≡ some v
      → steps_left v target ≡ 0
      → IsCurrent target (set_default fs (text "version") (number (pos target)))
  unfolding version_of
  IsCurrent-set_default target fs v e g =
      elim (set_default-version fs (text "version") (number (pos target))) [
        | inl (held, f, same) ↦
            subst (IsCurrent target) (sym same) (v, held, f, ground (arith, e, f), g)
        | inr (missing, f) ↦
            IsCurrent-target target (set_default fs (text "version") (number (pos target))) f
      ]

  climb-IsCurrent :
      (target left : ℕ) (fs mid : Fields) (v : ℤ)
      → version_of parse_int fs ≡ some v
      → steps_left v target ≡ left
      → climb registry entity left v fs ≡ ok mid
      → IsCurrent target (set_default mid (text "version") (number (pos target)))
  unfolding climb
  climb-IsCurrent target zero fs mid v e g h =
      subst (λ d. IsCurrent target (set_default d (text "version") (number (pos target))))
        (ok_eq fs mid h) (IsCurrent-set_default target fs v e g)
  climb-IsCurrent target (suc left) fs mid v e g h =
      let now = climb-version registry entity left v fs mid target g h in
      elim (set_default-version mid (text "version") (number (pos target))) [
        | inl (held, f, same) ↦
            subst (IsCurrent target) (sym same) (IsCurrent-target target mid now)
        | inr (missing, f) ↦
            IsCurrent-target target (set_default mid (text "version") (number (pos target))) f
      ]

  migrate_to-again :
      (target : ℕ) (fs out : Fields)
      → migrate_to parse_int registry entity target fs ≡ ok out
      → migrate_to parse_int registry entity target out ≡ ok out
  unfolding migrate_to
  migrate_to-again target fs out h = elim (Option-cases (version_of parse_int fs)) [
    | inl missing ↦ absurd (ground (arith, missing))
    | inr (v, e) ↦
        let (mid, up, last) =
          bind-ok (climb registry entity (steps_left v target) v fs)
            (λ d. ok (set_default d (text "version") (number (pos target)))) {last = out}
            (ground (arith, e)) in
        let (w, held, f, g, done) =
          subst (IsCurrent target) (ok_eq _ _ last)
            (climb-IsCurrent target (steps_left v target) fs mid v e refl up) in
        migrate_to-current target out w held f g done
  ]

  migrate_fields-again :
      (fs out : Fields)
      → migrate_fields parse_int registry entity fs ≡ ok out
      → migrate_fields parse_int registry entity out ≡ ok out
  unfolding migrate_fields
  migrate_fields-again fs out h = elim (Option-cases (lookup current_versions entity)) [
    | inl missing ↦ absurd (ground (arith, missing))
    | inr (target, e) ↦
        rw (e, migrate_fields) (migrate_to-again target fs out (rw (e, migrate_fields) at h))
  ]

  -- With any registry, what `migrate` returned is returned as it is when it is migrated again: no
  -- converter runs a second time, whatever the converters do to the dict.
  pub migrate_idempotent :
      (j out : Json)
      → migrate parse_int registry entity j ≡ ok out
      → migrate parse_int registry entity out ≡ ok out
  unfolding migrate
  migrate_idempotent (object fs) out h =
      let (gs, e, same) = bind-ok (migrate_fields parse_int registry entity fs) _ h in
      subst (λ o. migrate parse_int registry entity o ≡ ok o) (ok_eq (object gs) out same)
        (ground (arith, migrate_fields-again fs gs e))
  migrate_idempotent null out h = ground (arith, h)
  migrate_idempotent (boolean b) out h = ground (arith, h)
  migrate_idempotent (number n) out h = ground (arith, h)
  migrate_idempotent (string s) out h = ground (arith, h)
  migrate_idempotent (array items) out h = ground (arith, h)
