-- ===== src/ColumnCycles/Finish.antt =====
-- slayer/engine/column_dependency.py: what the depth-first search leaves behind when it finds nothing.
use slayer.Prelude.{
  ℕ, zero, suc, ◌≡◌, refl, sym, subst, ap, ◌⊎◌, inl, inr, Bool-cases, true, List, [], ◌∷◌, ◌++◌,
  arith,
}
use slayer.ColumnCycles.{Node, same_node, has_node}
use slayer.ColumnCycles.Search.{
  Visited, no_fuel, cycle, done, after_visit, visit_each, close_node, dfs_visit,
}
use slayer.ColumnCycles.Relation.{same_node_iff, Edge, Leads, one, more}
use slayer.ColumnCycles.Visit.{nodes_of}

module _ (edges : Node → List Node) where
  -- Every node has its dependencies behind it, so none of the nodes lies on a cycle.
  abbrev pub Finished : List Node → Type 0
  Finished [] = Unit
  Finished (n ∷ nodes) = ((d : Node) → Edge edges n d → has_node d nodes ≡ true) × Finished nodes

  -- from one list of visited nodes to the next
  pub record Grown (visited visited' : List Node) : Type 0 where
    pub finished : Finished visited'
    pub kept : (n : Node) → has_node n visited ≡ true → has_node n visited' ≡ true

  after_visit-done :
      (r : Visited) (rest : List Node → Visited) (nodes : List Node)
      → after_visit r rest ≡ done nodes
      → (visited : List Node) × (r ≡ done visited) × (rest visited ≡ done nodes)
  unfolding after_visit
  after_visit-done no_fuel rest nodes h = absurd (cc)
  after_visit-done (cycle found) rest nodes h = absurd (cc)
  after_visit-done (done visited) rest nodes h = (visited, refl, h)

  close_node-done :
      (node : Node) (r : Visited) (nodes : List Node)
      → close_node node r ≡ done nodes
      → (visited : List Node) × (r ≡ done visited) × (node ∷ visited ≡ nodes)
  unfolding close_node
  close_node-done node no_fuel nodes h = absurd (cc)
  close_node-done node (cycle found) nodes h = absurd (cc)
  close_node-done node (done visited) nodes h = (visited, refl, ap nodes_of h)

  -- what a visit that found no cycle has to show
  abbrev pub Leaves : (Node → List Node → Visited) → Type 0
  Leaves visit =
      (node : Node) (visited visited' : List Node)
      → Finished visited
      → visit node visited ≡ done visited'
      → Grown visited visited' × (has_node node visited' ≡ true)

  visit_each-Grown :
      (visit : Node → List Node → Visited) (deps visited visited' : List Node)
      → Leaves visit
      → Finished visited
      → visit_each visit deps visited ≡ done visited'
      → Grown visited visited' × ((d : Node) → has_node d deps ≡ true → has_node d visited' ≡ true)
  unfolding visit_each has_node
  visit_each-Grown visit [] visited visited' leaves f h =
      let same : visited ≡ visited' = ap nodes_of h in
      (
        record {
          finished = subst Finished same f;
          kept = λ n m. subst (λ nodes. has_node n nodes ≡ true) same m;
        },
        λ d m. absurd (cc),
      )
  visit_each-Grown visit (dep ∷ deps) visited visited' leaves f h =
      let (seen, e, rest) = after_visit-done (visit dep visited) _ visited' h in
      let (grown, mem) = leaves dep visited seen f e in
      let (grown', mems) = visit_each-Grown visit deps seen visited' leaves grown.finished rest in
      (
        record { finished = grown'.finished; kept = λ n m. grown'.kept n (grown.kept n m) },
        λ d m. elim (Bool-cases (same_node dep d)) [
          | inl same ↦
              subst (λ n. has_node n visited' ≡ true) ((same_node_iff dep d).0 same)
                (grown'.kept dep mem)
          | inr other ↦ mems d (ground (arith))
        ],
      )

  -- A visit that finds no cycle leaves its node among the visited ones, and all of these finished.
  pub dfs_visit-Leaves : (fuel : ℕ) (on_stack : List Node) → Leaves (dfs_visit edges fuel on_stack)
  unfolding dfs_visit has_node
  dfs_visit-Leaves zero on_stack node visited visited' f h = absurd (cc)
  dfs_visit-Leaves (suc fuel) on_stack node visited visited' f h =
      elim (Bool-cases (has_node node on_stack)) [
        | inl repeated ↦ absurd (ground (arith))
        | inr fresh ↦ elim (Bool-cases (has_node node visited)) [
          | inl old ↦
              let same : visited ≡ visited' = ap nodes_of (rw (fresh, old, dfs_visit) at h) in
              (
                record {
                  finished = subst Finished same f;
                  kept = λ n m. subst (λ nodes. has_node n nodes ≡ true) same m;
                },
                subst (λ nodes. has_node node nodes ≡ true) same old,
              )
          | inr new ↦
              let (seen, e, same) =
                close_node-done node _ visited' (rw (fresh, new, dfs_visit) at h) in
              let (grown, mems) =
                visit_each-Grown (dfs_visit edges fuel (on_stack ++ node ∷ [])) (edges node) visited
                  seen (dfs_visit-Leaves fuel (on_stack ++ node ∷ [])) f e in
              (
                record {
                  finished = subst Finished same (mems, grown.finished);
                  kept = λ n m.
                      subst (λ nodes. has_node n nodes ≡ true) same
                        (ground (arith, grown.kept n m));
                },
                subst (λ nodes. has_node node nodes ≡ true) same
                    (ground (arith, same_node_iff node node)),
              )
        ]
      ]

  Finished-Edge :
      (nodes : List Node) (u v : Node)
      → Finished nodes
      → has_node u nodes ≡ true
      → Edge edges u v
      → has_node v nodes ≡ true
  unfolding has_node
  Finished-Edge [] u v f m edge = absurd (cc)
  Finished-Edge (n ∷ nodes) u v (behind, f) m edge = elim (Bool-cases (has_node u nodes)) [
    | inl old ↦ ground (arith, Finished-Edge nodes u v f old edge)
    | inr new ↦
        let same : n ≡ u = (same_node_iff n u).0 (ground (arith)) in
        ground (arith, behind v (subst (λ k. Edge edges k v) (sym same) edge))
  ]

  Finished-Leads :
      (nodes : List Node) {u v : Node}
      → Finished nodes
      → has_node u nodes ≡ true
      → Leads edges u v
      → has_node v nodes ≡ true
  Finished-Leads nodes {u} f m (one {v} edge) = Finished-Edge nodes u v f m edge
  Finished-Leads nodes f m (more {v} {w} l edge) =
      Finished-Edge nodes v w f (Finished-Leads nodes f m l) edge

  Leads_first :
      {u v : Node} → Leads edges u v → (d : Node) × Edge edges u d × ((d ≡ v) ⊎ Leads edges d v)
  Leads_first (one {v} edge) = (v, edge, inl refl)
  Leads_first (more {v} {w} l edge) =
      let (d, first, rest) = Leads_first l in
      elim rest [
        | inl same ↦ (d, first, inr (one (subst (λ k. Edge edges k w) (sym same) edge)))
        | inr l' ↦ (d, first, inr (more l' edge))
      ]

  pub Finished-acyclic :
      (nodes : List Node) (u : Node)
      → Finished nodes
      → has_node u nodes ≡ true
      → ¬ (Leads edges u u)
  unfolding has_node
  Finished-acyclic [] u f m l = cc
  Finished-acyclic (n ∷ nodes) u (behind, f) m l = elim (Bool-cases (has_node u nodes)) [
    | inl old ↦ Finished-acyclic nodes u f old l
    | inr new ↦
        let same : u ≡ n = sym ((same_node_iff n u).0 (ground (arith))) in
        let (d, first, rest) = Leads_first l in
        let back : has_node d nodes ≡ true = behind d (subst (λ k. Edge edges k d) same first) in
        let again : has_node u nodes ≡ true = elim rest [
          | inl e ↦ subst (λ k. has_node k nodes ≡ true) e back
          | inr l' ↦ Finished-Leads nodes f back l'
        ] in
        absurd (ground (arith))
  ]
