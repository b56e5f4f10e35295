-- ===== src/Migrations/Convert.antt =====
-- The converters of v4_migration.py to v7_migration.py of slayer/storage, from version 3 of a model
-- to version 7.
use slayer.Prelude.{
  Option, none, some, Bool, true, false, not, ◌&&◌, List, [], ◌∷◌, if◌then◌else◌, eqb,
}
use slayer.Prelude.Text.{Text, text, text_eq, member, strip}
use slayer.Prelude.TextDict.{TextDict, lookup}
use slayer.Prelude.Result.{err, ok}
use slayer.Wire.{pos, negsuc}
use slayer.Migrations.{
  Json, null, boolean, number, string, array, object, Items, end, item, Fields, empty, field,
  get_field, put_field, del_field, Converter, not_converted,
}

-- `bool(value)`
unfoldable pub truthy : Json → Bool
truthy null = false
truthy (boolean b) = b
truthy (number (pos n)) = not (eqb n 0)
truthy (number (negsuc n)) = true
truthy (string []) = false
truthy (string (c ∷ s)) = true
truthy (array end) = false
truthy (array (item j items)) = true
truthy (object empty) = false
truthy (object (field k v fs)) = true

abbrev pub blank_text : Text → Bool
blank_text [] = true
blank_text (c ∷ s) = false

-- `ds is None or (isinstance(ds, str) and not ds.strip())`
unfoldable pub is_empty_source : Option Json → Bool
unfolding strip
is_empty_source none = true
is_empty_source (some null) = true
is_empty_source (some (string s)) = blank_text (strip s)
is_empty_source (some _) = false

unfoldable pub truthy_field : Option Json → Bool
unfolding truthy
truthy_field none = false
truthy_field (some j) = truthy j

unfoldable pub model_v3_to_v4 : Converter
unfolding is_empty_source truthy_field get_field
model_v3_to_v4 fs =
    if is_empty_source (get_field fs (text "data_source"))
      && not (truthy_field (get_field fs (text "source_queries")))
    then err not_converted
    else ok fs

abbrev pub legacy_to_v5 : TextDict Text
legacy_to_v5 =
    (text "string", text "TEXT")
    ∷ (text "number", text "DOUBLE")
    ∷ (text "integer", text "INT")
    ∷ (text "time", text "TIMESTAMP")
    ∷ (text "date", text "DATE")
    ∷ (text "boolean", text "BOOLEAN")
    ∷ []

abbrev pub legacy_pseudo : List Text
legacy_pseudo =
    text "count"
    ∷ text "count_distinct"
    ∷ text "sum"
    ∷ text "avg"
    ∷ text "min"
    ∷ text "max"
    ∷ text "last"
    ∷ []

-- `none` where the field is to be removed
unfoldable pub coerce_text : Text → Option Text
unfolding lookup member
coerce_text t = elim (lookup legacy_to_v5 t) [
  | some mapped ↦ some mapped
  | none ↦ if member t legacy_pseudo then none else some t
]

unfoldable pub coerce_type_string : Json → Option Json
unfolding coerce_text
coerce_type_string (string t) = elim (coerce_text t) [ none ↦ none | some s ↦ some (string s) ]
coerce_type_string j = some j

-- one round of the loop over the columns, for a column that is a dict
unfoldable pub rewrite_column : Fields → Fields
unfolding coerce_type_string get_field put_field del_field
rewrite_column col = elim (get_field col (text "type")) [
  | none ↦ col
  | some t ↦ elim (coerce_type_string t) [
    | none ↦ del_field col (text "type")
    | some mapped ↦ put_field col (text "type") mapped
  ]
]

unfoldable pub rewrite_item : Json → Json
unfolding rewrite_column
rewrite_item (object col) = object (rewrite_column col)
rewrite_item j = j

unfoldable pub rewrite_columns_in_place : Items → Items
unfolding rewrite_item
rewrite_columns_in_place end = end
rewrite_columns_in_place (item j cols) = item (rewrite_item j) (rewrite_columns_in_place cols)

-- the columns of a model, where they are a list
unfoldable pub rewrite_list : Json → Json
unfolding rewrite_columns_in_place
rewrite_list (array cols) = array (rewrite_columns_in_place cols)
rewrite_list j = j

unfoldable pub rewrite_model : Fields → Fields
unfolding rewrite_list get_field put_field
rewrite_model fs = elim (get_field fs (text "columns")) [
  | none ↦ fs
  | some cols ↦ put_field fs (text "columns") (rewrite_list cols)
]

-- `_walk_inline_source_models`, by recursion on the value. Of an inline model the walk changes
-- `source_queries` and the rewriting `columns`, so that the order of the two is free.
unfoldable mutual
  unfolding rewrite_model text_eq

  pub walk_inline_source_models : Fields → Fields
  walk_inline_source_models empty = empty
  walk_inline_source_models (field k v fs) =
      let walked = walk_queries v in
      let rest = walk_inline_source_models fs in
      field k (if text_eq k (text "source_queries") then walked else v) rest

  pub walk_queries : Json → Json
  walk_queries (array items) = array (walk_items items)
  walk_queries j = j

  pub walk_items : Items → Items
  walk_items end = end
  walk_items (item j items) = item (walk_query j) (walk_items items)

  pub walk_query : Json → Json
  walk_query (object fs) = object (walk_source_model fs)
  walk_query j = j

  pub walk_source_model : Fields → Fields
  walk_source_model empty = empty
  walk_source_model (field k v fs) =
      let walked = walk_model v in
      let rest = walk_source_model fs in
      field k (if text_eq k (text "source_model") then walked else v) rest

  pub walk_model : Json → Json
  walk_model (object fs) = object (rewrite_model (walk_inline_source_models fs))
  walk_model j = j

unfoldable pub model_v4_to_v5 : Converter
unfolding rewrite_model walk_inline_source_models
model_v4_to_v5 fs = ok (walk_inline_source_models (rewrite_model fs))

unfoldable pub model_v5_to_v6 : Converter
model_v5_to_v6 fs = ok fs

unfoldable pub model_v6_to_v7 : Converter
model_v6_to_v7 fs = ok fs
