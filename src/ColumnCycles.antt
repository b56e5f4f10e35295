-- ===== src/ColumnCycles.antt =====
-- slayer/engine/column_dependency.py: the search for cycles of derived columns before a model is
-- saved, with `_is_trivial_base` of slayer/engine/column_expansion.py. sqlglot's parse of the SQL of
-- a column, its input prequoted, is a parameter: it gives the column nodes in document order, each
-- marked by whether it lies in the root scope. A set is a list, newest member first.
pub mod Search
pub mod Relation
pub mod Visit
pub mod Finish
pub mod Fuel
pub mod Roots
pub mod Prefetch
pub mod Joined
pub mod Collected
pub mod Correct
mod Examples
use slayer.Prelude.{
  ℕ, zero, suc, ◌+◌, Bool, true, false, ◌&&◌, ◌||◌, Option, none, some, List, [], ◌∷◌, ◌++◌, length,
  eqb, leb, if◌then◌else◌,
}
use slayer.Prelude.Result.{Result, err, ok}
use slayer.Prelude.Text.{Text, text_eq, strip}
use slayer.Prelude.TextDict.{TextDict, lookup}

pub record Column : Type 0 where
  pub name : Text
  pub sql : Option Text

-- what the search reads of a `SlayerModel`; of its joins the names of the targets
pub record SlayerModel : Type 0 where
  pub name : Text
  pub columns : List Column
  pub joins : List Text

-- an `exp.Column`: whether it is in the root scope, whether it has a database or a catalog, the
-- name of its table, and its own
pub record ColumnRef : Type 0 where
  pub in_root_scope : Bool
  pub has_db_or_catalog : Bool
  pub table : Option Text
  pub name : Text

-- `get_column`
unfoldable pub get_column : List Column → Text → Option Column
unfolding text_eq
get_column [] name = none
get_column (c ∷ columns) name =
    let found = get_column columns name in if text_eq c.name name then some c else found

-- `sql[1:-1]` after its first character, and whether the last one is a quotation mark
unfoldable unquote_last : Text → Option Text
unquote_last [] = none
unquote_last (c ∷ []) = if eqb c b'"' then some [] else none
unquote_last (c ∷ d ∷ s) = elim (unquote_last (d ∷ s)) [ none ↦ none | some t ↦ some (c ∷ t) ]

-- `.replace('""', '"')`
unfoldable undouble : Text → Text
undouble [] = []
undouble (c ∷ []) = c ∷ []
undouble (c ∷ d ∷ s) =
    let rest = undouble s in
    let next = undouble (d ∷ s) in if eqb c b'"' && eqb d b'"' then c ∷ rest else c ∷ next

-- without its quotation marks, where it has them at both ends
unfoldable pub unquote : Text → Text
unfolding unquote_last undouble
unquote [] = []
unquote (c ∷ s) = elim (eqb c b'"') [
  | false ↦ c ∷ s
  | true ↦ elim (unquote_last s) [ none ↦ c ∷ s | some inner ↦ undouble inner ]
]

unfoldable pub is_trivial_base : Column → Bool
unfolding strip unquote text_eq
is_trivial_base column = elim column.sql [
  | none ↦ true
  | some sql ↦ text_eq (unquote (strip sql)) column.name
]

-- `table_alias.split("__")`, which is the one alias where there is no `__`
unfoldable pub split_path : Text → List Text
split_path [] = [] ∷ []
split_path (c ∷ []) = (c ∷ []) ∷ []
split_path (c ∷ d ∷ s) =
    let cut = split_path s in
    let next = split_path (d ∷ s) in
    if eqb c b'_' && eqb d b'_'
    then [] ∷ cut
    else elim next [ [] ↦ (c ∷ []) ∷ [] | part ∷ parts ↦ (c ∷ part) ∷ parts ]

-- `any(j.target_model == hop for j in joins)`
unfoldable pub has_join : List Text → Text → Bool
unfolding text_eq
has_join [] hop = false
has_join (target ∷ joins) hop = text_eq target hop || has_join joins hop

-- the loop over the hops of a path
unfoldable pub walk_hops : TextDict SlayerModel → SlayerModel → List Text → Option SlayerModel
unfolding has_join lookup
walk_hops reachable current [] = some current
walk_hops reachable current (hop ∷ hops) = elim (has_join current.joins hop) [
  | false ↦ none
  | true ↦ elim (lookup reachable hop) [ none ↦ none | some next ↦ walk_hops reachable next hops ]
]

unfoldable pub resolve_target_for_ref :
    Option Text → SlayerModel → TextDict SlayerModel → Option SlayerModel
unfolding walk_hops split_path text_eq
resolve_target_for_ref none host reachable = some host
resolve_target_for_ref (some table_alias) host reachable =
    if text_eq table_alias host.name
    then some host
    else walk_hops reachable host (split_path table_alias)

-- a column of a model
abbrev pub Node : Type 0
Node = Text × Text

unfoldable pub same_node : Node → Node → Bool
unfolding text_eq
same_node (model_name, name) (model_name', name') =
    text_eq model_name model_name' && text_eq name name'

-- `node in nodes`
unfoldable pub has_node : Node → List Node → Bool
unfolding same_node
has_node node [] = false
has_node node (n ∷ nodes) = same_node n node || has_node node nodes

-- the column that a reference means on the model it resolves to
unfoldable pub derived_target : SlayerModel → Text → Option Node
unfolding get_column is_trivial_base
derived_target target name = elim (get_column target.columns name) [
  | none ↦ none
  | some column ↦ if is_trivial_base column then none else some (target.name, column.name)
]

unfoldable pub resolve_single_column : SlayerModel → TextDict SlayerModel → ColumnRef → Option Node
unfolding resolve_target_for_ref derived_target
resolve_single_column host reachable ref = elim (ref.in_root_scope) [
  | false ↦ none
  | true ↦ elim (ref.has_db_or_catalog) [
    | true ↦ none
    | false ↦ elim (resolve_target_for_ref ref.table host reachable) [
      | none ↦ none
      | some target ↦ derived_target target ref.name
    ]
  ]
]

unfoldable pub resolve_columns : SlayerModel → TextDict SlayerModel → List ColumnRef → List Node
unfolding resolve_single_column
resolve_columns host reachable [] = []
resolve_columns host reachable (ref ∷ refs) =
    let deps = resolve_columns host reachable refs in
    elim (resolve_single_column host reachable ref) [ none ↦ deps | some dep ↦ dep ∷ deps ]

module _ (parse : Text → Option (List ColumnRef)) where
  -- `_column_dependencies`, once the SQL is parsed; a parse failure gives none
  unfoldable pub column_dependencies : Column → SlayerModel → TextDict SlayerModel → List Node
  unfolding is_trivial_base resolve_columns
  column_dependencies column host reachable = elim column.sql [
    | none ↦ []
    | some sql ↦ elim (is_trivial_base column) [
      | true ↦ []
      | false ↦ elim (parse sql) [ none ↦ [] | some refs ↦ resolve_columns host reachable refs ]
    ]
  ]

  unfoldable pub node_dependencies : TextDict SlayerModel → Node → List Node
  unfolding lookup get_column column_dependencies
  node_dependencies reachable (model_name, col_name) = elim (lookup reachable model_name) [
    | none ↦ []
    | some host ↦ elim (get_column host.columns col_name) [
      | none ↦ []
      | some column ↦ column_dependencies column host reachable
    ]
  ]
