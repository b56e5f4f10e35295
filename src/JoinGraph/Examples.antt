-- ===== src/JoinGraph/Examples.antt =====
-- Tests of slayer/engine/join_graph.py and the witnesses of its theorems.
use slayer.Prelude.{ℕ, ◌≡◌, refl, ◌↔◌, ◌⊎◌, true, none, some, Option, List, [], ◌∷◌, any, ◌&&◌}
use slayer.Prelude.Text.{Text, text, text_eq, member}
use slayer.JoinGraph.{ModelJoins, Adjacency, neighbours, build_from_models, reachable_from}
use slayer.JoinGraph.Reach.{Reach}
use slayer.JoinGraph.Build.{neighbours-build_from_models}
use slayer.JoinGraph.Paths.{shortest_path}
use slayer.JoinGraph.Shortest.{IsAnswer, shortest_path_correct}
use slayer.JoinGraph.Roots.{min_hops_root, rank_leb, ranked}
use slayer.JoinGraph.Totals.{TotalHops}
use slayer.JoinGraph.MinHops.{min_hops_root_correct}
use slayer.JoinGraph.Correct.{reachable_from_correct}

-- a and b join one another, b joins c and a model that is not there
abbrev models : List ModelJoins
models =
    record { name = text "a"; targets = text "b" ∷ [] }
    ∷ record { name = text "b"; targets = text "c" ∷ text "gone" ∷ text "a" ∷ [] }
    ∷ record { name = text "c"; targets = [] }
    ∷ []

abbrev graph : Adjacency
graph = (text "a", text "b" ∷ []) ∷ (text "b", text "c" ∷ text "a" ∷ []) ∷ []

test_neighbours : neighbours (build_from_models models) (text "b") ≡ text "c" ∷ text "a" ∷ []
unfolding neighbours build_from_models
test_neighbours = refl

test_reachable : reachable_from graph (text "a") ≡ some (text "a" ∷ text "b" ∷ text "c" ∷ [])
unfolding reachable_from
test_reachable = refl

neighbours-build_from_models_example :
    member (text "c") (neighbours (build_from_models models) (text "b"))
    ≡ any
        (λ m.
          text_eq m.name (text "b")
          && (member (text "c") m.targets && any (λ k. text_eq k.name (text "c")) models))
        models
neighbours-build_from_models_example = neighbours-build_from_models models (text "b") (text "c")

reachable_from_correct_example :
    (seen : List Text) × (reachable_from graph (text "a") ≡ some seen)
    × ((v : Text) → (member v seen ≡ true) ↔ Reach graph (text "a") v)
reachable_from_correct_example = reachable_from_correct graph (text "a")

-- two shortest ways from a to d, through b and through c
abbrev diamond : Adjacency
diamond =
    (text "a", text "c" ∷ text "b" ∷ [])
    ∷ (text "b", text "d" ∷ [])
    ∷ (text "c", text "d" ∷ [])
    ∷ (text "d", [])
    ∷ []

test_shortest : shortest_path diamond (text "a") (text "d") ≡ some (some (text "b" ∷ text "d" ∷ []))
unfolding shortest_path
test_shortest = refl

test_unreachable : shortest_path diamond (text "d") (text "a") ≡ some none
unfolding shortest_path
test_unreachable = refl

shortest_path_correct_example :
    (answer : Option (List Text)) × (shortest_path diamond (text "a") (text "d") ≡ some answer)
    × IsAnswer diamond (text "a") (text "d") answer
shortest_path_correct_example = shortest_path_correct diamond (text "a") (text "d")

abbrev all_names : List Text
all_names = text "d" ∷ text "c" ∷ text "b" ∷ text "a" ∷ []

abbrev two_names : List Text
two_names = text "b" ∷ text "d" ∷ []

test_root : min_hops_root diamond all_names two_names ≡ some (some (text "b"))
unfolding min_hops_root
test_root = refl

min_hops_root_correct_example :
    (answer : Option Text) × (min_hops_root diamond all_names two_names ≡ some answer)
    × (((answer ≡ none)
          × ((c : Text) (n : ℕ) → member c all_names ≡ true → ¬ TotalHops diamond c two_names n))
        ⊎ ((c : Text) × (n : ℕ) × (answer ≡ some c)
            × (member c all_names ≡ true)
            × TotalHops diamond c two_names n
            × ((v : Text) (k : ℕ)
                → member v all_names ≡ true
                → TotalHops diamond v two_names k
                → rank_leb (ranked two_names c n) (ranked two_names v k) ≡ true)))
min_hops_root_correct_example = min_hops_root_correct diamond all_names two_names
