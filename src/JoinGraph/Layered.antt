-- ===== src/JoinGraph/Layered.antt =====
-- The invariant of the search by layers in `shortest_path` of slayer/engine/join_graph.py.
use slayer.Prelude.{
  ℕ, suc, ◌≤◌, ◌≡◌, refl, ap, ◌∙◌, ◌⊎◌, inl, inr, Bool-cases, true, if◌then◌else◌, List, [], ◌∷◌,
  ◌++◌, length, length-append, arith,
}
use slayer.Prelude.Text.{Text, text_eq_iff, member, sort_texts}
use slayer.Prelude.TextDict.{TextDict}
use slayer.JoinGraph.{Adjacency, neighbours, Search, visit_all}
use slayer.JoinGraph.Build.{member-append}
use slayer.JoinGraph.Reach.{Edge}
use slayer.JoinGraph.Loop.{visit_all-seen}
use slayer.JoinGraph.Paths.{keys, level, Layers, layer_all}
use slayer.JoinGraph.Layers.{
  search_of, search_of-layer_all, level-layer_all, fresh, frontier-visit_all, member-fresh,
  member-sort_texts,
}
use mathlib.Core.List.{append_assoc}

-- the walks from a root, by the names of their hops
pub data Walk (adj : Adjacency) (root : Text) : List Text → Text → Type 0 where
  here : {p : List Text} {v : Text} → p ≡ [] → root ≡ v → Walk adj root p v
  hop :
      {p q : List Text} {u v : Text}
      → Walk adj root p u
      → Edge adj u v
      → q ≡ p ++ v ∷ []
      → Walk adj root q v

module _ (adj : Adjacency) (root : Text) where
  -- the names that are reached, each with the length of a shortest walk
  pub record IsDistances (dist : TextDict ℕ) : Type 0 where
    pub found :
        (v : Text)
        → member v (keys dist) ≡ true
        → (p : List Text) × Walk adj root p v × (length p ≡ level dist v)
    pub least :
        {p : List Text} {v : Text}
        → Walk adj root p v
        → (member v (keys dist) ≡ true) × (level dist v ≤ length p)

  -- the frontier has names at distance `k`, then names at distance `k + 1`
  pub record Layered (s : Layers) (near far : List Text) (k : ℕ) : Type 0 where
    pub queue : s.frontier ≡ near ++ far
    pub first : (v : Text) → member v near ≡ true → level s.dist v ≡ k
    pub second : (v : Text) → member v far ≡ true → level s.dist v ≡ suc k
    pub waits : (v : Text) → member v s.frontier ≡ true → member v (keys s.dist) ≡ true
    pub top : (v : Text) → member v (keys s.dist) ≡ true → level s.dist v ≤ suc k
    pub walk :
        (v : Text)
        → member v (keys s.dist) ≡ true
        → (p : List Text) × Walk adj root p v × (length p ≡ level s.dist v)
    pub source : (member root (keys s.dist) ≡ true) × (level s.dist root ≡ 0)
    pub closed :
        (u v : Text)
        → member u (keys s.dist) ≡ true
        → Edge adj u v
        → (member u s.frontier ≡ true)
          ⊎ ((member v (keys s.dist) ≡ true) × (level s.dist v ≤ suc (level s.dist u)))

  abbrev pub expand : Layers → Text → List Text → ℕ → Layers
  expand s node rest k =
      layer_all k (record { dist = s.dist; frontier = rest }) (sort_texts (neighbours adj node))

  module _ (s : Layers) (node : Text) (near far : List Text) (k : ℕ) where
    abbrev pub nbrs : List Text
    nbrs = sort_texts (neighbours adj node)

    abbrev pub next : Layers
    next = expand s node (near ++ far) k

    abbrev pub popped : Search
    popped = record { seen = keys s.dist; frontier = near ++ far }

    pub next-search : search_of next ≡ visit_all popped nbrs
    next-search = search_of-layer_all k (record { dist = s.dist; frontier = near ++ far }) nbrs

    next-keys :
        (v : Text)
        → member v (keys next.dist) ≡ (if member v (keys s.dist) then true else member v nbrs)
    next-keys v =
        ground
          (arith, ap (λ (t : Search). member v t.seen) next-search, visit_all-seen popped nbrs v)

    next-frontier : next.frontier ≡ near ++ (far ++ fresh (keys s.dist) nbrs)
    next-frontier =
        ap (λ (t : Search). t.frontier) next-search
        ∙ frontier-visit_all popped nbrs
        ∙ append_assoc near far (fresh (keys s.dist) nbrs)

    next-level :
        (v : Text)
        → level next.dist v
          ≡ (if member v (keys s.dist) then level s.dist v else if member v nbrs then suc k else 0)
    next-level v = level-layer_all k (record { dist = s.dist; frontier = near ++ far }) nbrs v

    pub Layered-expand :
        Layered s (node ∷ near) far k → Layered next near (far ++ fresh (keys s.dist) nbrs) k
    unfolding member
    Layered-expand inv =
        let added = fresh (keys s.dist) nbrs in
        let key = next-keys in
        let lev = next-level in
        let fr = λ (v : Text). member-fresh (keys s.dist) nbrs v in
        let old = λ (v : Text). ap (member v) inv.queue in
        let new = λ (v : Text). ap (member v) next-frontier in
        let split = λ (v : Text). member-append v near far in
        let split' = λ (v : Text). member-append v near (far ++ added) in
        let split'' = λ (v : Text). member-append v far added in
        let sorted = λ (v : Text). member-sort_texts v (neighbours adj node) in
        let known : member node (keys s.dist) ≡ true =
          inv.waits node (ground (arith, old node, text_eq_iff node node)) in
        let here_k : level s.dist node ≡ k =
          inv.first node (ground (arith, text_eq_iff node node)) in
        record {
          queue = next-frontier;
          first = λ v m. ground (arith, lev v, inv.first v, inv.waits v, old v, split v);
          second = λ v m.
              ground (arith, lev v, fr v, split'' v, inv.second v, inv.waits v, old v, split v);
          waits = λ v q.
              ground (arith, key v, fr v, new v, split' v, split'' v, inv.waits v, old v, split v);
          top = λ v m. ground (arith, key v, lev v, inv.top v);
          walk = λ v m. elim (Bool-cases (member v (keys s.dist))) [
            | inl was ↦ let (p, w, e) = inv.walk v was in (p, w, ground (arith, lev v))
            | inr is_new ↦
                let (p, w, e) = inv.walk node known in
                (
                  p ++ v ∷ [],
                  hop w (ground (arith, key v, sorted v)) refl,
                  ground (arith, lev v, key v, length-append p (v ∷ [])),
                )
          ];
          source = (ground (arith, key root, inv.source), ground (arith, lev root, inv.source));
          closed = λ u v m edge. ground (
            arith,
            key u,
            key v,
            lev u,
            lev v,
            fr u,
            new u,
            split' u,
            split'' u,
            old u,
            split u,
            inv.closed u v,
            inv.top v,
            sorted v,
            text_eq_iff node u,
          );
        }
