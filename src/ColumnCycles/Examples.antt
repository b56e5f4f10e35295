-- ===== src/ColumnCycles/Examples.antt =====
-- Tests of slayer/engine/column_dependency.py and the witnesses of its theorems.
use slayer.Prelude.{◌≡◌, refl, ◌⊎◌, Option, true, false, some, List, [], ◌∷◌, if◌then◌else◌}
use slayer.Prelude.{◌↔◌}
use slayer.Prelude.Result.{err, ok}
use slayer.Prelude.Text.{Text, text, text_eq}
use slayer.Prelude.TextDict.{TextDict, lookup}
use slayer.ColumnCycles.{
  Column, SlayerModel, ColumnRef, Node, node_dependencies, split_path, unquote,
}
use slayer.ColumnCycles.Search.{
  prefetch_reachable_models, column_cycle_error, validate_no_column_cycles,
}
use slayer.ColumnCycles.Relation.{Leads, IsCycle}
use slayer.ColumnCycles.Joined.{Joined}
use slayer.ColumnCycles.Collected.{prefetch_reachable_models_correct}
use slayer.ColumnCycles.Correct.{validate_no_column_cycles_correct}

abbrev derived : Text → Text → Column
derived name sql = record { name = name; sql = some sql }

-- `orders.total` is derived from `customers.rate`, and that from `orders.total` again
abbrev orders : SlayerModel
orders = record {
  name = text "orders";
  columns = derived (text "total") (text "customers.rate + 1") ∷ [];
  joins = text "customers" ∷ text "unknown" ∷ [];
}

abbrev customers : SlayerModel
customers = record {
  name = text "customers";
  columns = derived (text "rate") (text "orders.total") ∷ [];
  joins = text "orders" ∷ [];
}

abbrev stored : TextDict SlayerModel
stored = (text "customers", customers) ∷ (text "orders", orders) ∷ []

abbrev to : Text → Text → ColumnRef
to table name = record {
  in_root_scope = true;
  has_db_or_catalog = false;
  table = some table;
  name = name;
}

abbrev parse : Text → Option (List ColumnRef)
parse sql =
    if text_eq sql (text "orders.total")
    then some (to (text "orders") (text "total") ∷ [])
    else some (to (text "customers") (text "rate") ∷ [])

abbrev total : Node
total = (text "orders", text "total")

abbrev rate : Node
rate = (text "customers", text "rate")

raises :
    validate_no_column_cycles parse orders stored
    ≡ err (column_cycle_error (rate ∷ total ∷ rate ∷ []))
unfolding validate_no_column_cycles
raises = refl

-- a model without its joins has no cycle
accepts : validate_no_column_cycles parse (record orders { joins = [] }) stored ≡ ok tt
unfolding validate_no_column_cycles
accepts = refl

splits : split_path (text "a__b_c____d") ≡ text "a" ∷ text "b_c" ∷ [] ∷ text "d" ∷ []
unfolding split_path
splits = refl

unquotes : unquote (text "\"a\"\"b\"") ≡ text "a\"b"
unfolding unquote
unquotes = refl

validate_no_column_cycles_correct_example :
    (reachable : TextDict SlayerModel) × (prefetch_reachable_models orders stored ≡ some reachable)
    × (((validate_no_column_cycles parse orders stored ≡ ok tt)
          × ((n : Node) → ¬ (Leads (node_dependencies parse reachable) n n)))
        ⊎ ((found : List Node) × (validate_no_column_cycles parse orders stored
              ≡ err (column_cycle_error found))
            × IsCycle (node_dependencies parse reachable) found))
validate_no_column_cycles_correct_example = validate_no_column_cycles_correct parse orders stored

prefetch_reachable_models_correct_example :
    (reachable : TextDict SlayerModel) × (prefetch_reachable_models orders stored ≡ some reachable)
    × ((name : Text) (m : SlayerModel)
        → (lookup reachable name ≡ some m) ↔ Joined orders stored name m)
prefetch_reachable_models_correct_example = prefetch_reachable_models_correct orders stored
