-- ===== src/ColumnCycles/Search.antt =====
-- slayer/engine/column_dependency.py: the depth-first search, the models it needs, and the check
-- before a save. A set is a list, newest member first.
use slayer.Prelude.{
  ℕ, zero, suc, Bool, true, false, Option, none, some, List, [], ◌∷◌, ◌++◌, length, if◌then◌else◌,
}
use slayer.Prelude.Result.{Result, err, ok}
use slayer.Prelude.Text.{Text, text_leb}
use slayer.Prelude.TextDict.{TextDict, lookup}
use slayer.ColumnCycles.{
  Column, SlayerModel, ColumnRef, is_trivial_base, Node, same_node, has_node, node_dependencies,
}

-- the outcome of a visit: the first cycle, or what is visited; or the fuel ran out
pub data Visited : Type 0 where
  no_fuel : Visited
  cycle : List Node → Visited
  done : List Node → Visited

-- `if found is not None: return found`
unfoldable pub after_visit : Visited → (List Node → Visited) → Visited
after_visit no_fuel rest = no_fuel
after_visit (cycle found) rest = cycle found
after_visit (done visited) rest = rest visited

-- the loop over the dependencies of a node, which stops at the first cycle
unfoldable pub visit_each : (Node → List Node → Visited) → List Node → List Node → Visited
unfolding after_visit
visit_each visit [] visited = done visited
visit_each visit (dep ∷ deps) visited = after_visit (visit dep visited) (visit_each visit deps)

-- `visited.add(node)`, once the dependencies are done
unfoldable pub close_node : Node → Visited → Visited
close_node node no_fuel = no_fuel
close_node node (cycle found) = cycle found
close_node node (done visited) = done (node ∷ visited)

-- `on_stack[on_stack.index(node):]`
unfoldable pub stack_from : Node → List Node → List Node
unfolding same_node
stack_from node [] = []
stack_from node (n ∷ on_stack) =
    let rest = stack_from node on_stack in if same_node n node then n ∷ on_stack else rest

-- `_dfs_visit`, for the edges that leave a node. `on_stack_set` has the members of `on_stack`.
unfoldable pub dfs_visit : (Node → List Node) → ℕ → List Node → Node → List Node → Visited
unfolding has_node stack_from visit_each close_node
dfs_visit edges zero on_stack node visited = no_fuel
dfs_visit edges (suc fuel) on_stack node visited = elim (has_node node on_stack) [
  | true ↦ cycle (stack_from node on_stack ++ node ∷ [])
  | false ↦ elim (has_node node visited) [
    | true ↦ done visited
    | false ↦
        close_node node
          (visit_each (dfs_visit edges fuel (on_stack ++ node ∷ [])) (edges node) visited)
  ]
]

-- the columns of the models
unfoldable pub columns_of : Text → List Column → List Node
columns_of model_name [] = []
columns_of model_name (c ∷ columns) = (model_name, c.name) ∷ columns_of model_name columns

unfoldable pub all_columns : TextDict SlayerModel → List Node
unfolding columns_of
all_columns [] = []
all_columns ((model_name, model) ∷ reachable) =
    columns_of model_name model.columns ++ all_columns reachable

-- The stack holds a node once, and only a column of the models has dependencies.
unfoldable pub detect_cycle_dfs :
    (Text → Option (List ColumnRef)) → TextDict SlayerModel → Node → Visited
unfolding dfs_visit node_dependencies all_columns
detect_cycle_dfs parse reachable start =
    dfs_visit (node_dependencies parse reachable) (suc (length (all_columns reachable))) [] start []

-- the state of `_prefetch_reachable_models`
pub record Prefetch : Type 0 where
  pub out : TextDict SlayerModel
  pub queue : List SlayerModel

-- `target_name in out`
unfoldable pub is_fetched : TextDict SlayerModel → Text → Bool
unfolding lookup
is_fetched out name = elim (lookup out name) [ none ↦ false | some model ↦ true ]

-- one join of the model whose turn it is; `stored` are the models that the storage returns for the
-- datasource
unfoldable pub fetch_join : TextDict SlayerModel → Text → Prefetch → Prefetch
unfolding lookup is_fetched
fetch_join stored target_name s = elim (is_fetched s.out target_name) [
  | true ↦ s
  | false ↦ elim (lookup stored target_name) [
    | none ↦ s
    | some target ↦ record {
      out = s.out ++ (target_name, target) ∷ [];
      queue = s.queue ++ target ∷ [];
    }
  ]
]

unfoldable pub fetch_joins : TextDict SlayerModel → List Text → Prefetch → Prefetch
unfolding fetch_join
fetch_joins stored [] s = s
fetch_joins stored (target_name ∷ joins) s =
    fetch_joins stored joins (fetch_join stored target_name s)

unfoldable pub prefetch_loop : TextDict SlayerModel → ℕ → Prefetch → Option (TextDict SlayerModel)
unfolding fetch_joins
prefetch_loop stored zero s = none
prefetch_loop stored (suc fuel) s = elim s.queue [
  | [] ↦ some s.out
  | current ∷ queue ↦
      prefetch_loop stored fuel (fetch_joins stored current.joins (record s { queue = queue }))
]

-- Each stored model enters the queue once.
unfoldable pub prefetch_reachable_models :
    SlayerModel → TextDict SlayerModel → Option (TextDict SlayerModel)
unfolding prefetch_loop
prefetch_reachable_models model stored =
    prefetch_loop stored (suc (suc (length stored)))
      (record { out = (model.name, model) ∷ []; queue = model ∷ [] })

-- `sorted(reachable.keys())`, with the models
unfoldable pub insert_sorted : Text → SlayerModel → TextDict SlayerModel → TextDict SlayerModel
unfolding text_leb
insert_sorted name model [] = (name, model) ∷ []
insert_sorted name model ((first, held) ∷ sorted) =
    let rest = insert_sorted name model sorted in
    if text_leb name first then (name, model) ∷ (first, held) ∷ sorted else (first, held) ∷ rest

unfoldable pub sorted_models : TextDict SlayerModel → TextDict SlayerModel
unfolding insert_sorted
sorted_models [] = []
sorted_models ((name, model) ∷ reachable) = insert_sorted name model (sorted_models reachable)

-- the derived columns of a model
unfoldable pub derived_of : Text → List Column → List Node
unfolding is_trivial_base
derived_of entity_name [] = []
derived_of entity_name (c ∷ columns) =
    let rest = derived_of entity_name columns in
    if is_trivial_base c then rest else (entity_name, c.name) ∷ rest

unfoldable pub roots_of : TextDict SlayerModel → List Node
unfolding derived_of
roots_of [] = []
roots_of ((entity_name, entity) ∷ reachable) =
    derived_of entity_name entity.columns ++ roots_of reachable

-- what `validate_no_column_cycles` raises; the last is the model's own, for fuel that ran out
pub data CycleError : Type 0 where
  column_cycle_error : List Node → CycleError
  out_of_fuel : CycleError

-- the loop over the roots
unfoldable pub check_roots : (Node → Visited) → List Node → Result CycleError (Unit {0})
check_roots detect [] = ok tt
check_roots detect (root ∷ roots) = elim (detect root) [
  | no_fuel ↦ err out_of_fuel
  | cycle found ↦ err (column_cycle_error found)
  | done visited ↦ check_roots detect roots
]

unfoldable pub validate_no_column_cycles :
    (Text → Option (List ColumnRef))
    → SlayerModel
    → TextDict SlayerModel
    → Result CycleError (Unit {0})
unfolding prefetch_reachable_models check_roots detect_cycle_dfs roots_of sorted_models
validate_no_column_cycles parse model stored = elim (prefetch_reachable_models model stored) [
  | none ↦ err out_of_fuel
  | some reachable ↦
      check_roots (detect_cycle_dfs parse reachable) (roots_of (sorted_models reachable))
]
