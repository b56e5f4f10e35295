-- ===== src/ColumnCycles/Fuel.antt =====
-- slayer/engine/column_dependency.py: how deep the depth-first search goes.
use slayer.Prelude.{
  ℕ, zero, suc, ◌+◌, ◌≤◌, ◌≡◌, ◌≢◌, refl, subst, ◌⊎◌, inl, inr, ◌||◌, Bool-cases, Option,
  Option-cases, true, false, none, some, List, [], ◌∷◌, ◌++◌, length, arith, if◌then◌else◌,
}
use slayer.Prelude.Text.{Text, text_eq, text_eq_iff}
use slayer.Prelude.TextDict.{TextDict, lookup}
use slayer.ColumnCycles.{
  Column, SlayerModel, ColumnRef, Node, same_node, has_node, get_column, node_dependencies,
}
use slayer.ColumnCycles.Search.{
  Visited, no_fuel, cycle, done, after_visit, visit_each, close_node, dfs_visit, columns_of,
  all_columns,
}
use slayer.ColumnCycles.Relation.{same_node_iff, has_node-append}

-- how many of the nodes are not on the stack
pub fresh : List Node → List Node → ℕ
fresh on_stack [] = 0
fresh on_stack (n ∷ nodes) = (if has_node n on_stack then 0 else 1) + fresh on_stack nodes

pub fresh-le-length : (on_stack nodes : List Node) → fresh on_stack nodes ≤ length nodes
unfolding fresh
fresh-le-length on_stack [] = omega arith
fresh-le-length on_stack (n ∷ nodes) = ground (arith, fresh-le-length on_stack nodes)

module _ (on_stack : List Node) (node : Node) where
  fresh-append-le : (nodes : List Node) → fresh (on_stack ++ node ∷ []) nodes ≤ fresh on_stack nodes
  unfolding fresh
  fresh-append-le [] = omega arith
  fresh-append-le (n ∷ nodes) =
      ground (arith, fresh-append-le nodes, has_node-append n on_stack (node ∷ []))

  fresh-append-lt :
      (nodes : List Node)
      → has_node node on_stack ≡ false
      → has_node node nodes ≡ true
      → suc (fresh (on_stack ++ node ∷ []) nodes) ≤ fresh on_stack nodes
  unfolding fresh has_node
  fresh-append-lt [] h k = absurd (cc)
  fresh-append-lt (n ∷ nodes) h k = ground (
    arith,
    fresh-append-lt nodes,
    fresh-append-le nodes,
    has_node-append n on_stack (node ∷ []),
    same_node_iff n node,
    same_node_iff node n,
  )

module _ (edges : Node → List Node) where
  after_visit-fuel :
      (r : Visited) (rest : List Node → Visited)
      → r ≢ no_fuel
      → ((visited : List Node) → rest visited ≢ no_fuel)
      → after_visit r rest ≢ no_fuel
  unfolding after_visit
  after_visit-fuel no_fuel rest h k = absurd (h refl)
  after_visit-fuel (cycle found) rest h k = h
  after_visit-fuel (done visited) rest h k = k visited

  close_node-fuel : (node : Node) (r : Visited) → r ≢ no_fuel → close_node node r ≢ no_fuel
  unfolding close_node
  close_node-fuel node no_fuel h = h
  close_node-fuel node (cycle found) h = h
  close_node-fuel node (done visited) h = λ e. cc

  visit_each-fuel :
      (visit : Node → List Node → Visited)
      → ((node : Node) (visited : List Node) → visit node visited ≢ no_fuel)
      → (deps visited : List Node) → visit_each visit deps visited ≢ no_fuel
  unfolding visit_each
  visit_each-fuel visit h [] visited = λ e. cc
  visit_each-fuel visit h (dep ∷ deps) visited =
      after_visit-fuel (visit dep visited) (visit_each visit deps) (h dep visited)
        (visit_each-fuel visit h deps)

  -- Where only nodes of a list have edges, fuel above the number of those off the stack is enough.
  pub dfs_visit-fuel :
      (nodes : List Node)
      → ((n : Node) → (edges n ≡ []) ⊎ (has_node n nodes ≡ true))
      → (fuel : ℕ) (on_stack : List Node) (node : Node) (visited : List Node)
      → suc (fresh on_stack nodes) ≤ fuel
      → dfs_visit edges fuel on_stack node visited ≢ no_fuel
  unfolding dfs_visit
  dfs_visit-fuel nodes known zero on_stack node visited h = absurd (omega arith)
  dfs_visit-fuel nodes known (suc fuel) on_stack node visited h =
      elim (Bool-cases (has_node node on_stack)) [
        | inl repeated ↦ rw (repeated, dfs_visit) (λ e. cc)
        | inr new ↦ elim (Bool-cases (has_node node visited)) [
          | inl old ↦ rw (new, old, dfs_visit) (λ e. cc)
          | inr unseen ↦
              rw (new, unseen, dfs_visit)
                (close_node-fuel node _ (elim (known node) [
                  | inl empty ↦ rw (empty, visit_each) (λ e. cc)
                  | inr listed ↦
                      visit_each-fuel _
                        (λ n seen.
                          dfs_visit-fuel nodes known fuel (on_stack ++ node ∷ []) n seen
                            (omega (arith, fresh-append-lt on_stack node nodes new listed)))
                        (edges node) visited
                ]))
        ]
      ]

module _ (parse : Text → Option (List ColumnRef)) where
  get_column-columns_of :
      (model_name name : Text) (columns : List Column)
      → (get_column columns name ≡ none)
        ⊎ (has_node (model_name, name) (columns_of model_name columns) ≡ true)
  unfolding get_column columns_of has_node same_node
  get_column-columns_of model_name name [] = inl refl
  get_column-columns_of model_name name (c ∷ columns) = elim (Bool-cases (text_eq c.name name)) [
    | inl same ↦ inr (ground (arith, text_eq_iff model_name model_name))
    | inr other ↦ elim (get_column-columns_of model_name name columns) [
      | inl missing ↦ inl (rw (other, missing, get_column) refl)
      | inr listed ↦ inr (ground (arith))
    ]
  ]

  -- only a column of the models has dependencies
  lookup-all_columns :
      (model_name name : Text) (reachable : TextDict SlayerModel) (host : SlayerModel)
      → lookup reachable model_name ≡ some host
      → (get_column host.columns name ≡ none)
        ⊎ (has_node (model_name, name) (all_columns reachable) ≡ true)
  unfolding lookup all_columns
  lookup-all_columns model_name name [] host h = absurd (cc)
  lookup-all_columns model_name name ((first, held) ∷ reachable) host h =
      elim (Bool-cases (text_eq first model_name)) [
        | inl same ↦
            let e : held ≡ host = some_eq (rw (same, lookup) at h) in
            let name_eq : first ≡ model_name = (text_eq_iff first model_name).0 same in
            elim (get_column-columns_of first name held.columns) [
              | inl missing ↦ inl (subst (λ m. get_column m.columns name ≡ none) e missing)
              | inr listed ↦ inr (
                  subst (λ k. has_node (k, name) (all_columns ((first, held) ∷ reachable)) ≡ true)
                    name_eq (ground (arith, listed, append first)))
            ]
        | inr other ↦
            elim (lookup-all_columns model_name name reachable host (rw (other, lookup) at h)) [
              | inl missing ↦ inl missing
              | inr listed ↦ inr (ground (arith, listed, append model_name))
            ]
      ]
    where
      append :
          (key : Text)
          → has_node (key, name) (columns_of first held.columns ++ all_columns reachable) ≡ (
              has_node (key, name) (columns_of first held.columns)
              || has_node (key, name) (all_columns reachable))
      append key =
          has_node-append (key, name) (columns_of first held.columns) (all_columns reachable)

      some_eq : some held ≡ some host → held ≡ host
      some_eq e = cc

  pub node_dependencies-all_columns :
      (reachable : TextDict SlayerModel) (n : Node)
      → (node_dependencies parse reachable n ≡ []) ⊎ (has_node n (all_columns reachable) ≡ true)
  unfolding node_dependencies
  node_dependencies-all_columns reachable (model_name, name) =
      elim (Option-cases (lookup reachable model_name)) [
        | inl missing ↦ inl (rw (missing, node_dependencies) refl)
        | inr (host, found) ↦ elim (lookup-all_columns model_name name reachable host found) [
          | inl missing ↦ inl (rw (found, missing, node_dependencies) refl)
          | inr listed ↦ inr listed
        ]
      ]
