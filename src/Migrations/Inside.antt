-- ===== src/Migrations/Inside.antt =====
-- The columns and the inline models that `_walk_inline_source_models` of
-- slayer/storage/v5_migration.py reaches.
use slayer.Prelude.{◌≡◌, some, ◌⊎◌, inl, inr}
use slayer.Prelude.Text.{text}
use slayer.Migrations.{
  Json, null, boolean, number, string, array, object, Items, end, item, Fields, get_field,
}
use slayer.Migrations.Convert.{
  rewrite_column, rewrite_item, rewrite_columns_in_place, rewrite_list, rewrite_model,
  walk_inline_source_models, walk_queries, walk_items, walk_query, walk_source_model, walk_model,
}

pub data In (j : Json) : Items → Type 0 where
  first : {k : Json} {items : Items} → j ≡ k → In j (item k items)
  later : {k : Json} {items : Items} → In j items → In j (item k items)

-- the columns that are dicts, of a model and of the models in its queries, at any depth
pub data ColumnOf : Fields → Fields → Type 0 where
  own :
      {fs col : Fields} {cols : Items}
      → get_field fs (text "columns") ≡ some (array cols)
      → In (object col) cols
      → ColumnOf fs col
  inline :
      {fs query model col : Fields} {queries : Items}
      → get_field fs (text "source_queries") ≡ some (array queries)
      → In (object query) queries
      → get_field query (text "source_model") ≡ some (object model)
      → ColumnOf model col
      → ColumnOf fs col

In-item : {j k : Json} {items : Items} → In j (item k items) → (j ≡ k) ⊎ In j items
In-item (first e) = inl e
In-item (later i) = inr i

end-empty : {j : Json} → ¬ In j end
end-empty i = elim i [ ]

pub In-rewrite_columns :
    (col : Fields) (cols : Items)
    → In (object col) (rewrite_columns_in_place cols)
    → (j : Json) × (object col ≡ rewrite_item j)
unfolding rewrite_columns_in_place
In-rewrite_columns col end i = absurd (end-empty i)
In-rewrite_columns col (item j cols) i = elim (In-item i) [
  | inl e ↦ (j, e)
  | inr rest ↦ In-rewrite_columns col cols rest
]

pub In-walk_items :
    (query : Fields) (items : Items)
    → In (object query) (walk_items items)
    → (j : Json) × (object query ≡ walk_query j)
unfolding walk_items
In-walk_items query end i = absurd (end-empty i)
In-walk_items query (item j items) i = elim (In-item i) [
  | inl e ↦ (j, e)
  | inr rest ↦ In-walk_items query items rest
]

-- a column after the rewriting was a dict before
pub rewrite_item-object :
    (col : Fields) (j : Json)
    → object col ≡ rewrite_item j
    → (was : Fields) × (col ≡ rewrite_column was)
unfolding rewrite_item
rewrite_item-object col (object was) e = (was, cc)
rewrite_item-object col null e = absurd (cc)
rewrite_item-object col (boolean b) e = absurd (cc)
rewrite_item-object col (number n) e = absurd (cc)
rewrite_item-object col (string s) e = absurd (cc)
rewrite_item-object col (array a) e = absurd (cc)

pub walk_query-object :
    (query : Fields) (j : Json)
    → object query ≡ walk_query j
    → (was : Fields) × (query ≡ walk_source_model was)
unfolding walk_query
walk_query-object query (object was) e = (was, cc)
walk_query-object query null e = absurd (cc)
walk_query-object query (boolean b) e = absurd (cc)
walk_query-object query (number n) e = absurd (cc)
walk_query-object query (string s) e = absurd (cc)
walk_query-object query (array a) e = absurd (cc)

pub walk_model-object :
    (model : Fields) (j : Json)
    → object model ≡ walk_model j
    → (was : Fields) × (model ≡ rewrite_model (walk_inline_source_models was))
unfolding walk_model
walk_model-object model (object was) e = (was, cc)
walk_model-object model null e = absurd (cc)
walk_model-object model (boolean b) e = absurd (cc)
walk_model-object model (number n) e = absurd (cc)
walk_model-object model (string s) e = absurd (cc)
walk_model-object model (array a) e = absurd (cc)

pub rewrite_list-array :
    (cols : Items) (j : Json)
    → array cols ≡ rewrite_list j
    → (was : Items) × (cols ≡ rewrite_columns_in_place was)
unfolding rewrite_list
rewrite_list-array cols (array was) e = (was, cc)
rewrite_list-array cols null e = absurd (cc)
rewrite_list-array cols (boolean b) e = absurd (cc)
rewrite_list-array cols (number n) e = absurd (cc)
rewrite_list-array cols (string s) e = absurd (cc)
rewrite_list-array cols (object o) e = absurd (cc)

pub walk_queries-array :
    (queries : Items) (j : Json)
    → array queries ≡ walk_queries j
    → (was : Items) × (queries ≡ walk_items was)
unfolding walk_queries
walk_queries-array queries (array was) e = (was, cc)
walk_queries-array queries null e = absurd (cc)
walk_queries-array queries (boolean b) e = absurd (cc)
walk_queries-array queries (number n) e = absurd (cc)
walk_queries-array queries (string s) e = absurd (cc)
walk_queries-array queries (object o) e = absurd (cc)
