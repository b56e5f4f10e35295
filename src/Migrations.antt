-- ===== src/Migrations.antt =====
-- slayer/storage/migrations.py and the converters v5_migration.py to v7_migration.py, over the
-- values of a JSON or YAML file. A float is left out of these. A converter may change the dicts
-- inside of what it is given; the model returns the changed value.
pub mod Convert
pub mod Legacy
pub mod Inside
pub mod Modern
pub mod Once
mod Examples
use slayer.Prelude.{
  ℕ, zero, suc, ◌+◌, ◌-◌, Option, none, some, Bool, true, false, List, [], ◌∷◌, if◌then◌else◌, eqb,
  ◌&&◌,
}
use slayer.Prelude.Text.{Text, text, text_eq, member}
use slayer.Prelude.TextDict.{TextDict, lookup}
use slayer.Prelude.Result.{Result, err, ok, ◌>>=◌}
use slayer.Wire.{ℤ, pos, negsuc}

mutual
  pub data Json : Type 0 where
    null : Json
    boolean : Bool → Json
    number : ℤ → Json
    string : Text → Json
    array : Items → Json
    object : Fields → Json

  pub data Items : Type 0 where
    end : Items
    item : Json → Items → Items

  -- a `dict`, in insertion order
  pub data Fields : Type 0 where
    empty : Fields
    field : Text → Json → Fields → Fields

-- `d.get(key)`
unfoldable pub get_field : Fields → Text → Option Json
unfolding text_eq
get_field empty key = none
get_field (field k v fs) key = if text_eq k key then some v else get_field fs key

-- `d[key] = value`
unfoldable pub put_field : Fields → Text → Json → Fields
unfolding text_eq
put_field empty key new = field key new empty
put_field (field k v fs) key new =
    if text_eq k key then field k new fs else field k v (put_field fs key new)

-- `del d[key]`
unfoldable pub del_field : Fields → Text → Fields
unfolding text_eq
del_field empty key = empty
del_field (field k v fs) key =
    let rest = del_field fs key in if text_eq k key then rest else field k v rest

pub data MigrationError : Type 0 where
  duplicate_migration : Text → ℤ → MigrationError
  unknown_entity : Text → MigrationError
  bad_version : MigrationError
  no_migration : Text → ℤ → MigrationError
  not_converted : MigrationError

abbrev pub Converter : Type 0
Converter = Fields → Result MigrationError Fields

-- `_REGISTRY`
pub record Migration : Type 0 where
  pub entity : Text
  pub source_version : ℤ
  pub convert : Converter

unfoldable pub int_eq : ℤ → ℤ → Bool
int_eq (pos a) (pos b) = eqb a b
int_eq (negsuc a) (negsuc b) = eqb a b
int_eq _ _ = false

-- `_REGISTRY.get((entity, version))`
unfoldable pub find_converter : List Migration → Text → ℤ → Option Converter
unfolding text_eq int_eq
find_converter [] entity version = none
find_converter (m ∷ registry) entity version =
    if text_eq m.entity entity && int_eq m.source_version version
    then some m.convert
    else find_converter registry entity version

unfoldable pub register_migration :
    List Migration → Text → ℤ → Converter → Result MigrationError (List Migration)
unfolding find_converter
register_migration registry entity version fn = elim (find_converter registry entity version) [
  | some held ↦ err (duplicate_migration entity version)
  | none ↦ ok (record { entity = entity; source_version = version; convert = fn } ∷ registry)
]

abbrev pub current_versions : TextDict ℕ
current_versions =
    (text "SlayerModel", 7)
    ∷ (text "SlayerQuery", 3)
    ∷ (text "DatasourceConfig", 2)
    ∷ (text "Memory", 2)
    ∷ (text "Embedding", 1)
    ∷ []

unfoldable pub next_version : ℤ → ℤ
next_version (pos n) = pos (suc n)
next_version (negsuc zero) = pos 0
next_version (negsuc (suc n)) = negsuc n

-- how often `current < target` holds while `current` grows
unfoldable pub steps_left : ℤ → ℕ → ℕ
steps_left (pos n) target = target - n
steps_left (negsuc n) target = suc (target + n)

-- the `while` loop
unfoldable pub climb : List Migration → Text → ℕ → ℤ → Fields → Result MigrationError Fields
unfolding find_converter next_version put_field
climb registry entity zero current fs = ok fs
climb registry entity (suc left) current fs = elim (find_converter registry entity current) [
  | none ↦ err (no_migration entity current)
  | some fn ↦ fn fs >>= λ out.
      climb registry entity left (next_version current)
        (put_field out (text "version") (number (next_version current)))
]

-- `data.setdefault(key, value)`
unfoldable pub set_default : Fields → Text → Json → Fields
unfolding get_field put_field
set_default fs key new = elim (get_field fs key) [ some held ↦ fs | none ↦ put_field fs key new ]

module _ (parse_int : Text → Option ℤ) where
  -- `int(value)`, where `parse_int` reads a text
  unfoldable pub to_int : Json → Option ℤ
  to_int (boolean true) = some (pos 1)
  to_int (boolean false) = some (pos 0)
  to_int (number n) = some n
  to_int (string s) = parse_int s
  to_int _ = none

  -- `int(data.get("version", 1))`
  unfoldable pub version_of : Fields → Option ℤ
  unfolding to_int get_field
  version_of fs = elim (get_field fs (text "version")) [ none ↦ some (pos 1) | some v ↦ to_int v ]

  -- a `dict` of an entity with a current version
  unfoldable pub migrate_to : List Migration → Text → ℕ → Fields → Result MigrationError Fields
  unfolding version_of climb steps_left set_default
  migrate_to registry entity target fs = elim (version_of fs) [
    | none ↦ err bad_version
    | some current ↦ climb registry entity (steps_left current target) current fs >>= λ out.
        ok (set_default out (text "version") (number (pos target)))
  ]

  unfoldable pub migrate_fields : List Migration → Text → Fields → Result MigrationError Fields
  unfolding migrate_to lookup
  migrate_fields registry entity fs = elim (lookup current_versions entity) [
    | none ↦ err (unknown_entity entity)
    | some target ↦ migrate_to registry entity target fs
  ]

  unfoldable pub migrate : List Migration → Text → Json → Result MigrationError Json
  unfolding migrate_fields
  migrate registry entity (object fs) = migrate_fields registry entity fs >>= λ out. ok (object out)
  migrate registry entity j = ok j
