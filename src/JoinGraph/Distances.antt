-- ===== src/JoinGraph/Distances.antt =====
-- The distances that `shortest_path` of slayer/engine/join_graph.py computes are those of the
-- shortest walks.
use slayer.Prelude.{
  ℕ, zero, suc, ◌≤◌, ◌≡◌, refl, ap, ◌∙◌, sym, subst, inl, true, some, List, [], ◌∷◌, ◌++◌, length,
  length-append, arith,
}
use slayer.Prelude.Text.{Text, text_eq_iff, member}
use slayer.Prelude.TextDict.{TextDict, lookup}
use slayer.JoinGraph.{Adjacency, neighbours, count_targets}
use slayer.JoinGraph.Loop.{
  targets_of, unseen-le-length, work, work-visit_all, neighbours-targets_of, length-targets_of,
}
use slayer.JoinGraph.Paths.{keys, level, Layers, layer_loop, distances}
use slayer.JoinGraph.Layers.{search_of, lookup-level, all_member-sort_texts}
use mathlib.Core.List.{append-nil}
use slayer.JoinGraph.Layered.{
  Walk, here, hop, IsDistances, Layered, nbrs, next, popped, next-search, Layered-expand,
}

module _ (adj : Adjacency) (root : Text) where
  module _ (s : Layers) (node : Text) (near far : List Text) (k : ℕ) where
    work-next :
        (fuel : ℕ)
        → s.frontier ≡ node ∷ (near ++ far)
        → work (targets_of adj) (search_of s) ≤ suc fuel
        → work (targets_of adj) (search_of (next adj root s node near far k)) ≤ fuel
    work-next fuel e h = omega (
      arith,
      ap length e,
      ap (work (targets_of adj)) (next-search adj root s node near far k),
      work-visit_all (targets_of adj) (popped adj root s node near far k)
          (nbrs adj root s node near far k)
          (all_member-sort_texts (targets_of adj) (neighbours adj node)
            (neighbours-targets_of adj node)),
    )

    layer_loop-next :
        (fuel : ℕ)
        → s.frontier ≡ node ∷ (near ++ far)
        → lookup s.dist node ≡ some k
        → layer_loop adj (suc fuel) s ≡ layer_loop adj fuel (next adj root s node near far k)
    unfolding layer_loop
    layer_loop-next fuel e h = ground (arith, e, h)

  Layered-shift :
      (s : Layers) (far : List Text) (k : ℕ)
      → Layered adj root s [] far k
      → Layered adj root s far [] (suc k)
  unfolding member
  Layered-shift s far k inv = record {
    queue = inv.queue ∙ sym (append-nil far);
    first = inv.second;
    second = λ v m. absurd (cc);
    waits = inv.waits;
    top = λ v m. omega (arith, inv.top v m);
    walk = inv.walk;
    source = inv.source;
    closed = inv.closed;
  }

  IsDistances-Layered :
      (s : Layers) (k : ℕ) → Layered adj root s [] [] k → IsDistances adj root s.dist
  unfolding member
  IsDistances-Layered s k inv = record { found = inv.walk; least = shortest }
    where
      shortest :
          {p : List Text} {v : Text}
          → Walk adj root p v
          → (member v (keys s.dist) ≡ true) × (level s.dist v ≤ length p)
      shortest (here {p} {v} empty same) =
          subst (λ u. (member u (keys s.dist) ≡ true) × (level s.dist u ≤ length p)) same
            (inv.source.0, omega (arith, inv.source.1))
      shortest (hop {p} {q} {u} {v} w edge e) =
          let before = shortest w in
          ground (
            arith,
            before,
            inv.closed u v,
            ap (member u) inv.queue,
            e,
            ap length e,
            length-append p (v ∷ []),
          )

  abbrev Ends : ℕ → Layers → Type 0
  Ends fuel s =
      (dist : TextDict ℕ) × (layer_loop adj fuel s ≡ some dist) × IsDistances adj root dist

  layer_loop-empty : (fuel : ℕ) (s : Layers) → s.frontier ≡ [] → layer_loop adj fuel s ≡ some s.dist
  unfolding layer_loop
  layer_loop-empty zero s e = rw e refl
  layer_loop-empty (suc fuel) s e = rw e refl

  Layered-first :
      (s : Layers) (node : Text) (near far : List Text) (k : ℕ)
      → Layered adj root s (node ∷ near) far k
      → lookup s.dist node ≡ some k
  unfolding member
  Layered-first s node near far k inv = ground (
    arith,
    lookup-level s.dist node,
    inv.waits node,
    inv.first node,
    ap (member node) inv.queue,
    text_eq_iff node node,
  )

  layers_end :
      (fuel : ℕ) (s : Layers) (near far : List Text) (k : ℕ)
      → Layered adj root s near far k
      → work (targets_of adj) (search_of s) ≤ fuel
      → Ends fuel s
  layers_end fuel s [] [] k inv h =
      (s.dist, layer_loop-empty fuel s inv.queue, IsDistances-Layered s k inv)
  layers_end zero s (node ∷ near) far k inv h = absurd (omega (arith, ap length inv.queue))
  layers_end zero s [] (node ∷ far) k inv h = absurd (omega (arith, ap length inv.queue))
  layers_end (suc fuel) s (node ∷ near) far k inv h =
      let (dist, e, d) =
        layers_end fuel (next adj root s node near far k) near _ k
          (Layered-expand adj root s node near far k inv)
          (work-next s node near far k fuel inv.queue h) in
      (
        dist,
        layer_loop-next s node near far k fuel inv.queue (Layered-first s node near far k inv) ∙ e,
        d,
      )
  layers_end (suc fuel) s [] (node ∷ far) k inv h =
      let inv' = Layered-shift s (node ∷ far) k inv in
      let (dist, e, d) =
        layers_end fuel (next adj root s node far [] (suc k)) far _ (suc k)
          (Layered-expand adj root s node far [] (suc k) inv')
          (work-next s node far [] (suc k) fuel inv'.queue h) in
      (
        dist,
        layer_loop-next s node far [] (suc k) fuel inv'.queue
              (Layered-first s node far [] (suc k) inv')
            ∙ e,
        d,
      )

  Layered-start :
      Layered adj root (record { dist = (root, 0) ∷ []; frontier = root ∷ [] }) (root ∷ []) [] 0
  unfolding member lookup
  Layered-start = record {
    queue = refl;
    first = λ v m. ground arith;
    second = λ v m. absurd (cc);
    waits = λ v q. q;
    top = λ v m. ground arith;
    walk = λ v m. ([], here refl (ground (arith, text_eq_iff root v)), ground arith);
    source = (ground (arith, text_eq_iff root root), ground arith);
    closed = λ u v m edge. inl m;
  }

  pub distances-IsDistances :
      (dist : TextDict ℕ) × (distances adj root ≡ some dist) × IsDistances adj root dist
  unfolding distances
  distances-IsDistances =
      layers_end (suc (count_targets adj)) (record { dist = (root, 0) ∷ []; frontier = root ∷ [] })
        (root ∷ []) [] 0 Layered-start
        (omega (arith, unseen-le-length (root ∷ []) (targets_of adj), length-targets_of adj))
