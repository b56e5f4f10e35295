-- ===== src/ColumnCycles/Relation.antt =====
-- What the search of slayer/engine/column_dependency.py is to find: cycles of dependencies.
use slayer.Prelude.{◌≡◌, refl, ap₂, ◌↔◌, true, ◌||◌, List, [], ◌∷◌, ◌++◌, arith}
use slayer.Prelude.Text.{Text, text_eq_iff}
use slayer.ColumnCycles.{Node, same_node, has_node}

pub same_node_iff : (m n : Node) → (same_node m n ≡ true) ↔ (m ≡ n)
unfolding same_node
same_node_iff (a, b) (c, d) = (
  λ h.
      ap₂ (λ (x y : Text). (x, y)) ((text_eq_iff a c).0 (ground (arith)))
        ((text_eq_iff b d).0 (ground (arith))),
  λ e. ground (arith, text_eq_iff a c, text_eq_iff b d),
)

pub has_node-append :
    (n : Node) (xs ys : List Node) → has_node n (xs ++ ys) ≡ (has_node n xs || has_node n ys)
unfolding has_node
has_node-append n [] ys = refl
has_node-append n (x ∷ xs) ys = ground (arith, has_node-append n xs ys)

module _ (edges : Node → List Node) where
  -- an edge of the graph
  abbrev pub Edge : Node → Node → Type 0
  Edge u v = has_node v (edges u) ≡ true

  -- one or more edges lead from `u` to a node
  pub data Leads (u : Node) : Node → Type 0 where
    one : {v : Node} → Edge u v → Leads u v
    more : {v w : Node} → Leads u v → Edge v w → Leads u w

  -- every node has an edge to the next
  abbrev pub IsChain : List Node → Type 0
  IsChain [] = Unit
  IsChain (u ∷ []) = Unit
  IsChain (u ∷ v ∷ nodes) = Edge u v × IsChain (v ∷ nodes)

  -- a chain that ends at the node where it starts
  unfoldable pub IsCycle : List Node → Type 0
  IsCycle nodes = (u : Node) × (mid : List Node) × (nodes ≡ u ∷ (mid ++ u ∷ [])) × IsChain nodes

  pub IsChain-tail : (u : Node) (nodes : List Node) → IsChain (u ∷ nodes) → IsChain nodes
  IsChain-tail u [] h = tt
  IsChain-tail u (v ∷ nodes) (edge, h) = h

  pub IsChain-append :
      (nodes : List Node) (u v : Node)
      → IsChain (nodes ++ u ∷ [])
      → Edge u v
      → IsChain ((nodes ++ u ∷ []) ++ v ∷ [])
  IsChain-append [] u v h edge = (edge, tt)
  IsChain-append (a ∷ []) u v (first, h) edge = (first, (edge, tt))
  IsChain-append (a ∷ b ∷ nodes) u v (first, h) edge =
      (first, IsChain-append (b ∷ nodes) u v h edge)
