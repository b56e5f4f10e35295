-- ===== src/JoinGraph/Paths.antt =====
-- `shortest_path` of slayer/engine/join_graph.py. An outer `none` is a run that raises KeyError or
-- ValueError, or whose fuel ran out; `some none` is the source's `None`.
use slayer.Prelude.{
  ℕ, zero, suc, ◌-◌, Option, none, some, Bool, true, false, not, ◌&&◌, ◌||◌, List, [], ◌∷◌, ◌++◌,
  if◌then◌else◌, eqb, keep_if,
}
use slayer.Prelude.Text.{Text, text_eq, text_leb, member, sort_texts}
use slayer.Prelude.TextDict.{TextDict, lookup, assign}
use slayer.JoinGraph.{Adjacency, neighbours, count_targets}

-- the keys of a `dict`, in their order
abbrev pub keys : {V : Type 0} → TextDict V → List Text
keys [] = []
keys ((name, held) ∷ d) = name ∷ keys d

pub record Layers : Type 0 where
  pub dist : TextDict ℕ
  pub frontier : List Text

-- the inner loop, for a node at distance `d`
unfoldable pub layer_all : ℕ → Layers → List Text → Layers
unfolding member assign
layer_all d s [] = s
layer_all d s (n ∷ nbrs) =
    layer_all d
      (if member n (keys s.dist)
        then s
        else record { dist = assign s.dist n (suc d); frontier = s.frontier ++ n ∷ [] })
      nbrs

-- the `while` loop
unfoldable pub layer_loop : Adjacency → ℕ → Layers → Option (TextDict ℕ)
unfolding layer_all neighbours lookup sort_texts
layer_loop adj zero s = elim s.frontier [ [] ↦ some s.dist | _ ∷ _ ↦ none ]
layer_loop adj (suc fuel) s = elim s.frontier [
  | [] ↦ some s.dist
  | node ∷ rest ↦ elim (lookup s.dist node) [
    | none ↦ none
    | some d ↦
        layer_loop adj fuel (
          layer_all d (record { dist = s.dist; frontier = rest })
            (sort_texts (neighbours adj node)))
  ]
]

-- the distances from the root, with the fuel of `reachable_from`
unfoldable pub distances : Adjacency → Text → Option (TextDict ℕ)
unfolding layer_loop count_targets
distances adj root =
    layer_loop adj (suc (count_targets adj))
      (record { dist = (root, 0) ∷ []; frontier = root ∷ [] })

-- `p <= q` of lists of names
unfoldable pub hops_leb : List Text → List Text → Bool
unfolding text_leb text_eq
hops_leb [] q = true
hops_leb (a ∷ p) [] = false
hops_leb (a ∷ p) (b ∷ q) = not (text_leb b a) || text_eq a b && hops_leb p q

-- the rest of `min(best[u] for u in preds)`, after the first
unfoldable pub smallest : TextDict (List Text) → List Text → List Text → Option (List Text)
unfolding lookup hops_leb
smallest best p [] = some p
smallest best p (u ∷ preds) = elim (lookup best u) [
  | none ↦ none
  | some q ↦ smallest best (if hops_leb p q then p else q) preds
]

unfoldable pub min_best : TextDict (List Text) → List Text → Option (List Text)
unfolding lookup smallest
min_best best [] = none
min_best best (u ∷ preds) = elim (lookup best u) [ none ↦ none | some p ↦ smallest best p preds ]

-- `dist[v]` for a key `v`, and 0 for another name
abbrev pub level : TextDict ℕ → Text → ℕ
level dist v = elim (lookup dist v) [ none ↦ 0 | some d ↦ d ]

-- `nodes_by_dist.get(d, [])`
unfoldable pub nodes_at : TextDict ℕ → ℕ → List Text
unfolding lookup
nodes_at dist d = keep_if (λ v. eqb (level dist v) d) (keys dist)

-- the predecessors of `v` at distance `d - 1`
unfoldable pub preds_of : Adjacency → TextDict ℕ → ℕ → Text → List Text
unfolding member neighbours lookup
preds_of adj dist d v =
    keep_if (λ u. eqb (level dist u) (d - 1) && member v (neighbours adj u)) (keys dist)

-- the loop over the nodes at distance `d`
unfoldable pub extend_layer :
    Adjacency → TextDict ℕ → ℕ → List Text → TextDict (List Text) → Option (TextDict (List Text))
unfolding min_best preds_of assign
extend_layer adj dist d [] best = some best
extend_layer adj dist d (v ∷ nodes) best = elim (min_best best (preds_of adj dist d v)) [
  | none ↦ none
  | some p ↦ extend_layer adj dist d nodes (assign best v (p ++ v ∷ []))
]

-- `best` after the layers from 1 to a given one
unfoldable pub best_upto : Adjacency → TextDict ℕ → Text → ℕ → Option (TextDict (List Text))
unfolding extend_layer nodes_at
best_upto adj dist root zero = some ((root, []) ∷ [])
best_upto adj dist root (suc d) = elim (best_upto adj dist root d) [
  | none ↦ none
  | some best ↦ extend_layer adj dist (suc d) (nodes_at dist (suc d)) best
]

-- `best[target]`, after the layers up to that of the target
unfoldable pub best_path : Adjacency → TextDict ℕ → Text → Text → ℕ → Option (Option (List Text))
unfolding best_upto lookup
best_path adj dist root target d = elim (best_upto adj dist root d) [
  | none ↦ none
  | some best ↦ elim (lookup best target) [ none ↦ none | some p ↦ some (some p) ]
]

unfoldable pub path_by_distance :
    Adjacency → Text → Text → Option (TextDict ℕ) → Option (Option (List Text))
unfolding best_path lookup
path_by_distance adj root target none = none
path_by_distance adj root target (some dist) = elim (lookup dist target) [
  | none ↦ some none
  | some d ↦ best_path adj dist root target d
]

unfoldable pub shortest_path : Adjacency → Text → Text → Option (Option (List Text))
unfolding distances path_by_distance member text_eq
shortest_path adj root target =
    let found = path_by_distance adj root target (distances adj root) in
    if text_eq root target
    then some (some [])
    else if not (member target (keys adj)) && not (member root (keys adj))
    then some none
    else found
