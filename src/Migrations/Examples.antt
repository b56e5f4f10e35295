-- ===== src/Migrations/Examples.antt =====
-- Tests of slayer/storage/migrations.py and its converters, and the witnesses of the theorems.
use slayer.Prelude.{ℕ, ◌≡◌, refl, Option, none, some, false, List, [], ◌∷◌}
use slayer.Prelude.Text.{Text, text}
use slayer.Prelude.Result.{ok, err}
use slayer.Wire.{ℤ, pos}
use slayer.Migrations.{
  Json, number, string, array, object, end, item, Fields, empty, field, Migration, migrate,
  get_field, unknown_entity,
}
use slayer.Migrations.Convert.{model_v3_to_v4, model_v4_to_v5, model_v5_to_v6, model_v6_to_v7}
use slayer.Migrations.Legacy.{is_legacy}
use slayer.Migrations.Inside.{first, ColumnOf, own, inline}
use slayer.Migrations.Modern.{model_v4_to_v5-modern}
use slayer.Migrations.Once.{migrate_idempotent}

abbrev model_registry : List Migration
model_registry =
    record { entity = text "SlayerModel"; source_version = pos 3; convert = model_v3_to_v4 }
    ∷ record { entity = text "SlayerModel"; source_version = pos 4; convert = model_v4_to_v5 }
    ∷ record { entity = text "SlayerModel"; source_version = pos 5; convert = model_v5_to_v6 }
    ∷ record { entity = text "SlayerModel"; source_version = pos 6; convert = model_v6_to_v7 }
    ∷ []

abbrev no_texts : Text → Option ℤ
no_texts s = none

abbrev one_column : Text → Fields
one_column type =
    field (text "columns") (array (item (object (field (text "type") (string type) empty)) end))
      empty

-- a model with a query over an inline model
abbrev nested : Text → Fields
nested type =
    field (text "source_queries")
      (array (item (object (field (text "source_model") (object (one_column type)) empty)) end))
      empty

abbrev with_version : ℕ → Fields → Json
with_version n fs = object (field (text "version") (number (pos n)) fs)

test_nested : model_v4_to_v5 (nested (text "number")) ≡ ok (nested (text "DOUBLE"))
unfolding model_v4_to_v5
test_nested = refl

test_migrate :
    migrate no_texts model_registry (text "SlayerModel") (with_version 4 (nested (text "number")))
    ≡ ok (with_version 7 (nested (text "DOUBLE")))
unfolding migrate model_v4_to_v5 model_v5_to_v6 model_v6_to_v7
test_migrate = refl

test_unknown :
    migrate no_texts model_registry (text "Note") (object empty)
    ≡ err (unknown_entity (text "Note"))
unfolding migrate
test_unknown = refl

migrate_idempotent_example :
    migrate no_texts model_registry (text "SlayerModel") (with_version 7 (nested (text "DOUBLE")))
    ≡ ok (with_version 7 (nested (text "DOUBLE")))
migrate_idempotent_example =
    migrate_idempotent no_texts model_registry (text "SlayerModel")
      (with_version 4 (nested (text "number"))) (with_version 7 (nested (text "DOUBLE")))
      test_migrate

abbrev double : Fields
double = field (text "type") (string (text "DOUBLE")) empty

inner_column : ColumnOf (nested (text "DOUBLE")) double
unfolding get_field
inner_column = inline refl (first refl) refl (own refl (first refl))

type_of_double : get_field double (text "type") ≡ some (string (text "DOUBLE"))
unfolding get_field
type_of_double = refl

model_v4_to_v5-modern_example : is_legacy (text "DOUBLE") ≡ false
model_v4_to_v5-modern_example =
    model_v4_to_v5-modern (nested (text "number")) (nested (text "DOUBLE")) double (text "DOUBLE")
      test_nested inner_column type_of_double
