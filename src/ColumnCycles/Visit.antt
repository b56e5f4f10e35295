-- ===== src/ColumnCycles/Visit.antt =====
-- slayer/engine/column_dependency.py: what the depth-first search finds.
use slayer.Prelude.{
  ℕ, zero, suc, ◌≡◌, refl, ◌∙◌, sym, subst, ap, ◌⊎◌, inl, inr, Bool-cases, true, List, [], ◌∷◌,
  ◌++◌, arith,
}
use slayer.ColumnCycles.{Node, same_node, has_node}
use slayer.ColumnCycles.Search.{
  Visited, no_fuel, cycle, done, after_visit, visit_each, close_node, stack_from, dfs_visit,
}
use slayer.ColumnCycles.Relation.{same_node_iff, IsChain, IsCycle, IsChain-tail, IsChain-append}

abbrev pub nodes_of : Visited → List Node
nodes_of no_fuel = []
nodes_of (cycle nodes) = nodes
nodes_of (done nodes) = nodes

module _ (edges : Node → List Node) where
  IsChain-stack_from :
      (node : Node) (on_stack rest : List Node)
      → has_node node on_stack ≡ true
      → IsChain edges (on_stack ++ rest)
      → (mid : List Node) × (stack_from node on_stack ≡ node ∷ mid)
        × IsChain edges (stack_from node on_stack ++ rest)
  unfolding has_node stack_from
  IsChain-stack_from node [] rest m h = absurd (cc)
  IsChain-stack_from node (n ∷ on_stack) rest m h = elim (Bool-cases (same_node n node)) [
    | inl same ↦ (
      on_stack,
      rw (same) (ap (λ (k : Node). k ∷ on_stack) ((same_node_iff n node).0 same)),
      rw (same) h,
    )
    | inr other ↦
        let (mid, starts, chain) =
          IsChain-stack_from node on_stack rest (rw (other) at m)
            (IsChain-tail edges n (on_stack ++ rest) h) in
        (mid, rw (other) starts, rw (other) chain)
  ]

  after_visit-cycle :
      (r : Visited) (rest : List Node → Visited) (found : List Node)
      → after_visit r rest ≡ cycle found
      → (r ≡ cycle found)
        ⊎ ((visited : List Node) × (r ≡ done visited) × (rest visited ≡ cycle found))
  unfolding after_visit
  after_visit-cycle no_fuel rest found h = absurd (cc)
  after_visit-cycle (cycle nodes) rest found h = inl h
  after_visit-cycle (done visited) rest found h = inr (visited, refl, h)

  -- the visit that a loop over dependencies returns
  visit_each-cycle :
      (visit : Node → List Node → Visited) (deps visited found : List Node)
      → visit_each visit deps visited ≡ cycle found
      → (dep : Node) × (seen : List Node) × (has_node dep deps ≡ true)
        × (visit dep seen ≡ cycle found)
  unfolding visit_each has_node
  visit_each-cycle visit [] visited found h = absurd (cc)
  visit_each-cycle visit (dep ∷ deps) visited found h =
      elim (after_visit-cycle (visit dep visited) _ found h) [
        | inl c ↦ (dep, visited, ground (arith, same_node_iff dep dep), c)
        | inr (visited', e, h') ↦
            let (d, seen, m, c) = visit_each-cycle visit deps visited' found h' in
            (d, seen, ground (arith), c)
      ]

  close_node-cycle :
      (node : Node) (r : Visited) (found : List Node)
      → close_node node r ≡ cycle found
      → r ≡ cycle found
  unfolding close_node
  close_node-cycle node (cycle nodes) found h = h
  close_node-cycle node no_fuel found h = absurd (cc)
  close_node-cycle node (done visited) found h = absurd (cc)

  -- A visit whose stack is a chain to its node finds nothing but cycles.
  pub dfs_visit-IsCycle :
      (fuel : ℕ) (on_stack : List Node) (node : Node) (visited found : List Node)
      → IsChain edges (on_stack ++ node ∷ [])
      → dfs_visit edges fuel on_stack node visited ≡ cycle found
      → IsCycle edges found
  unfolding dfs_visit IsCycle
  dfs_visit-IsCycle zero on_stack node visited found chain h = absurd (cc)
  dfs_visit-IsCycle (suc fuel) on_stack node visited found chain h =
      elim (Bool-cases (has_node node on_stack)) [
        | inl repeated ↦
            let (mid, starts, closes) =
              IsChain-stack_from node on_stack (node ∷ []) repeated chain in
            let same : stack_from node on_stack ++ node ∷ [] ≡ found =
              ap nodes_of (rw (repeated, dfs_visit) at h) in
            (
              node,
              mid,
              sym same ∙ ap (λ nodes. nodes ++ node ∷ []) starts,
              subst (IsChain edges) same closes,
            )
        | inr fresh ↦ elim (Bool-cases (has_node node visited)) [
          | inl old ↦ absurd (ground (arith))
          | inr new ↦
              let (dep, seen, edge, c) =
                visit_each-cycle (dfs_visit edges fuel (on_stack ++ node ∷ [])) (edges node) visited
                  found (close_node-cycle node _ found (rw (fresh, new, dfs_visit) at h)) in
              dfs_visit-IsCycle fuel (on_stack ++ node ∷ []) dep seen found
                (IsChain-append edges on_stack node dep chain edge) c
        ]
      ]
