-- ===== src/JoinGraph/Reach.antt =====
-- What a search over the join graph of slayer/engine/join_graph.py is to find: the walks.
use slayer.Prelude.{◌≡◌, true}
use slayer.Prelude.Text.{Text, member}
use slayer.JoinGraph.{Adjacency, neighbours}

-- an edge of the graph
abbrev pub Edge : Adjacency → Text → Text → Type 0
Edge adj u v = member v (neighbours adj u) ≡ true

-- `v` is reached from `root` along directed edges
pub data Reach (adj : Adjacency) (root : Text) : Text → Type 0 where
  here : Reach adj root root
  step : {u v : Text} → Reach adj root u → Edge adj u v → Reach adj root v
