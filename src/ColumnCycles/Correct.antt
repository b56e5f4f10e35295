-- ===== src/ColumnCycles/Correct.antt =====
-- slayer/engine/column_dependency.py: when the check before a save accepts and when it raises.
use slayer.Prelude.{
  suc, ◌≡◌, ◌≢◌, refl, subst, ◌⊎◌, Bool-cases, inl, inr, Option, true, some, List, [], ◌∷◌, length,
  arith,
}
use slayer.Prelude.Result.{err, ok}
use slayer.Prelude.Text.{Text}
use slayer.Prelude.TextDict.{TextDict}
use slayer.ColumnCycles.{SlayerModel, ColumnRef, Node, same_node, has_node, node_dependencies}
use slayer.ColumnCycles.Search.{
  Visited, no_fuel, cycle, done, dfs_visit, all_columns, detect_cycle_dfs,
  prefetch_reachable_models, sorted_models, roots_of, column_cycle_error, check_roots,
  validate_no_column_cycles,
}
use slayer.ColumnCycles.Relation.{same_node_iff, Edge, Leads, one, more, IsCycle}
use slayer.ColumnCycles.Visit.{dfs_visit-IsCycle}
use slayer.ColumnCycles.Finish.{dfs_visit-Leaves, Finished-acyclic}
use slayer.ColumnCycles.Fuel.{dfs_visit-fuel, fresh-le-length, node_dependencies-all_columns}
use slayer.ColumnCycles.Roots.{dependencies-roots_of}
use slayer.ColumnCycles.Prefetch.{prefetch_reachable_models_ends}

Visited-cases :
    (r : Visited)
    → r ≢ no_fuel
    → ((found : List Node) × (r ≡ cycle found)) ⊎ ((visited : List Node) × (r ≡ done visited))
Visited-cases no_fuel h = absurd (h refl)
Visited-cases (cycle found) h = inl (found, refl)
Visited-cases (done visited) h = inr (visited, refl)

module _ (parse : Text → Option (List ColumnRef)) (reachable : TextDict SlayerModel) where
  abbrev edges : Node → List Node
  edges = node_dependencies parse reachable

  -- A search that starts at a column ends. It finds a cycle of dependencies, or the column lies on
  -- no cycle.
  pub detect_cycle_dfs_correct :
      (start : Node)
      → ((found : List Node) × (detect_cycle_dfs parse reachable start ≡ cycle found)
          × IsCycle (node_dependencies parse reachable) found)
        ⊎ ((visited : List Node) × (detect_cycle_dfs parse reachable start ≡ done visited)
            × ¬ (Leads (node_dependencies parse reachable) start start))
  unfolding detect_cycle_dfs
  detect_cycle_dfs_correct start =
      let fuel = suc (length (all_columns reachable)) in
      let ends =
        dfs_visit-fuel edges (all_columns reachable) (node_dependencies-all_columns parse reachable)
          fuel [] start [] (omega (arith, fresh-le-length [] (all_columns reachable))) in
      elim (Visited-cases (dfs_visit edges fuel [] start []) ends) [
        | inl (found, e) ↦ inl (found, e, dfs_visit-IsCycle edges fuel [] start [] found tt e)
        | inr (visited, e) ↦
            let (grown, mem) = dfs_visit-Leaves edges fuel [] start [] visited tt e in
            inr (visited, e, Finished-acyclic edges visited start grown.finished mem)
      ]

  check_roots_correct :
      (roots : List Node)
      → ((check_roots (detect_cycle_dfs parse reachable) roots ≡ ok tt)
          × ((n : Node) → has_node n roots ≡ true → ¬ (Leads edges n n)))
        ⊎ ((found : List Node) × (check_roots (detect_cycle_dfs parse reachable) roots
              ≡ err (column_cycle_error found))
            × IsCycle edges found)
  unfolding check_roots has_node
  check_roots_correct [] = inl (refl, λ n m. absurd (cc))
  check_roots_correct (root ∷ roots) = elim (detect_cycle_dfs_correct root) [
    | inl (found, e, c) ↦ inr (found, rw (e, check_roots) refl, c)
    | inr (visited, e, acyclic) ↦ elim (check_roots_correct roots) [
      | inl (accepts, none_cyclic) ↦ inl (
        rw (e, check_roots) accepts,
        λ n m. elim (Bool-cases (same_node root n)) [
          | inl same ↦ subst (λ k. ¬ (Leads edges k k)) ((same_node_iff root n).0 same) acyclic
          | inr other ↦ none_cyclic n (ground (arith))
        ],
      )
      | inr (found, raises, c) ↦ inr (found, rw (e, check_roots) raises, c)
    ]
  ]

module _ (parse : Text → Option (List ColumnRef)) (model : SlayerModel)
    (stored : TextDict SlayerModel) where
  Leads_first :
      (reachable : TextDict SlayerModel) {u v : Node}
      → Leads (node_dependencies parse reachable) u v
      → (d : Node) × Edge (node_dependencies parse reachable) u d
  Leads_first reachable (one {v} edge) = (v, edge)
  Leads_first reachable (more l edge) = Leads_first reachable l

  -- The check of a model ends. Over the models that it collected it accepts, and then no column has
  -- a chain of dependencies that leads back to it, or it raises ColumnCycleError with a cycle of
  -- dependencies.
  pub validate_no_column_cycles_correct :
      (reachable : TextDict SlayerModel) × (prefetch_reachable_models model stored ≡ some reachable)
      × (((validate_no_column_cycles parse model stored ≡ ok tt)
            × ((n : Node) → ¬ (Leads (node_dependencies parse reachable) n n)))
          ⊎ ((found : List Node) × (validate_no_column_cycles parse model stored
                ≡ err (column_cycle_error found))
              × IsCycle (node_dependencies parse reachable) found))
  unfolding validate_no_column_cycles
  validate_no_column_cycles_correct =
      let (reachable, e) = prefetch_reachable_models_ends model stored in
      (
        reachable,
        e,
        elim (check_roots_correct parse reachable (roots_of (sorted_models reachable))) [
          | inl (accepts, acyclic) ↦ inl (
            rw (e, validate_no_column_cycles) accepts,
            λ n l.
                let (d, edge) = Leads_first reachable l in
                acyclic n (dependencies-roots_of parse reachable n d edge) l,
          )
          | inr (found, raises, c) ↦ inr (found, rw (e, validate_no_column_cycles) raises, c)
        ],
      )
