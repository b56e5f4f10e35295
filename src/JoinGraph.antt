-- ===== src/JoinGraph.antt =====
-- slayer/engine/join_graph.py: the graph of the stored joins of one datasource's models.
-- A set of names is a list without duplicates. The order in which Python iterates over a set is
-- not fixed; the model takes that of the list.
pub mod Build
pub mod Reach
pub mod Loop
pub mod Correct
pub mod Paths
pub mod Layers
pub mod Layered
pub mod Distances
pub mod Order
pub mod Best
pub mod Extend
pub mod Shortest
pub mod Roots
pub mod Totals
pub mod MinHops
mod Examples
use slayer.Prelude.{
  ℕ, zero, suc, ◌+◌, Bool, true, false, Option, none, some, List, [], ◌∷◌, ◌++◌, map, length,
  if◌then◌else◌,
}
use slayer.Prelude.Text.{Text, text_eq, member}

-- what the graph reads of a `SlayerModel`: its name and the targets of its joins
pub record ModelJoins : Type 0 where
  pub name : Text
  pub targets : List Text

-- `dict[str, set[str]]`
abbrev pub Adjacency : Type 0
Adjacency = List (Text × List Text)

-- `names.add(s)`
unfoldable pub add : Text → List Text → List Text
unfolding member
add s names = if member s names then names else names ++ s ∷ []

-- `self._adj.get(node, ())`
unfoldable pub neighbours : Adjacency → Text → List Text
unfolding text_eq
neighbours [] node = []
neighbours ((name, targets) ∷ adj) node = if text_eq name node then targets else neighbours adj node

-- `adj[source].add(target)`, for a `source` that is a key
unfoldable pub add_edge : Adjacency → Text → Text → Adjacency
unfolding text_eq add
add_edge [] source target = []
add_edge ((name, targets) ∷ adj) source target =
    if text_eq name source
    then (name, add target targets) ∷ adj
    else (name, targets) ∷ add_edge adj source target

-- `{name: set() for name in names}`
unfoldable pub blank : List Text → Adjacency
blank names = map (λ name. (name, [])) names

-- the inner loop over `m.joins`
unfoldable pub add_targets : List Text → Text → List Text → Adjacency → Adjacency
unfolding add_edge member
add_targets names source [] adj = adj
add_targets names source (t ∷ targets) adj =
    add_targets names source targets (if member t names then add_edge adj source t else adj)

unfoldable pub add_models : List Text → List ModelJoins → Adjacency → Adjacency
unfolding add_targets
add_models names [] adj = adj
add_models names (m ∷ models) adj = add_models names models (add_targets names m.name m.targets adj)

-- `{m.name for m in models}`
unfoldable pub names_of : List ModelJoins → List Text
unfolding add
names_of [] = []
names_of (m ∷ models) = add m.name (names_of models)

unfoldable pub build_from_models : List ModelJoins → Adjacency
unfolding add_models names_of blank
build_from_models models = let names = names_of models in add_models names models (blank names)

pub record Search : Type 0 where
  pub seen : List Text
  pub frontier : List Text

-- the inner loop of `reachable_from`
unfoldable pub visit_all : Search → List Text → Search
unfolding member
visit_all s [] = s
visit_all s (n ∷ nbrs) =
    visit_all
      (if member n s.seen
        then s
        else record { seen = s.seen ++ n ∷ []; frontier = s.frontier ++ n ∷ [] })
      nbrs

-- the `while` loop; `none` means that the fuel ran out
unfoldable pub search_loop : Adjacency → ℕ → Search → Option (List Text)
unfolding visit_all neighbours
search_loop adj zero s = elim s.frontier [ [] ↦ some s.seen | _ ∷ _ ↦ none ]
search_loop adj (suc fuel) s = elim s.frontier [
  | [] ↦ some s.seen
  | node ∷ rest ↦
      search_loop adj fuel
        (visit_all (record { seen = s.seen; frontier = rest }) (neighbours adj node))
]

-- how often names stand in the sets of the graph
unfoldable pub count_targets : Adjacency → ℕ
count_targets [] = 0
count_targets ((name, targets) ∷ adj) = length targets + count_targets adj

-- Every round takes one name off the frontier, and a name enters it once.
unfoldable pub reachable_from : Adjacency → Text → Option (List Text)
unfolding search_loop count_targets
reachable_from adj root =
    search_loop adj (suc (count_targets adj)) (record { seen = root ∷ []; frontier = root ∷ [] })
