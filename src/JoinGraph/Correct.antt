-- ===== src/JoinGraph/Correct.antt =====
-- `reachable_from` of slayer/engine/join_graph.py against reachability.
use slayer.Prelude.{
  ℕ, zero, suc, ◌≤◌, ◌≡◌, sym, subst, ap, ◌⊎◌, inl, inr, ◌↔◌, Bool-cases, true, some, List, [], ◌∷◌,
  length, List-cases, arith,
}
use slayer.Prelude.Text.{Text, text_eq_iff, member}
use slayer.JoinGraph.{
  Adjacency, neighbours, Search, visit_all, search_loop, count_targets, reachable_from,
}
use slayer.JoinGraph.Reach.{Edge, Reach, here, step}
use slayer.JoinGraph.Loop.{
  targets_of, visit_all-seen, visit_all-frontier, unseen-le-length, work, work-visit_all,
  neighbours-targets_of, length-targets_of,
}

module _ (adj : Adjacency) where
  -- one round, after `node` left the head of the frontier
  abbrev expand : Search → Text → List Text → Search
  expand s node rest = visit_all (record { seen = s.seen; frontier = rest }) (neighbours adj node)

  search_ends :
      (fuel : ℕ) (s : Search)
      → work (targets_of adj) s ≤ fuel
      → (seen : List Text) × (search_loop adj fuel s ≡ some seen)
  unfolding search_loop
  search_ends zero s h = elim (List-cases s.frontier) [
    | inl e ↦ (s.seen, rw (e, search_loop))
    | inr (node, rest, e) ↦ absurd (omega (arith, ap length e))
  ]
  search_ends (suc fuel) s h = elim (List-cases s.frontier) [
    | inl e ↦ (s.seen, rw (e, search_loop))
    | inr (node, rest, e) ↦
        let less =
          work-visit_all (targets_of adj) (record { seen = s.seen; frontier = rest })
            (neighbours adj node) (neighbours-targets_of adj node) in
        let (seen, f) = search_ends fuel (expand s node rest) (omega (arith, less, ap length e)) in
        (seen, rw (e, search_loop) f)
  ]

  module _ (root : Text) where
    record Inv (s : Search) : Type 0 where
      source : member root s.seen ≡ true
      sound : (v : Text) → member v s.seen ≡ true → Reach adj root v
      waits : (v : Text) → member v s.frontier ≡ true → member v s.seen ≡ true
      closed :
          (u v : Text)
          → member u s.seen ≡ true
          → Edge adj u v
          → (member u s.frontier ≡ true) ⊎ (member v s.seen ≡ true)

    Inv-expand :
        (s : Search) (node : Text) (rest : List Text)
        → s.frontier ≡ node ∷ rest
        → Inv s
        → Inv (expand s node rest)
    unfolding member
    Inv-expand s node rest e inv =
        let s' = record s { frontier = rest } in
        let seen = λ (v : Text). visit_all-seen s' (neighbours adj node) v in
        let queue = λ (v : Text). visit_all-frontier s' (neighbours adj node) v in
        let front = λ (v : Text). ap (member v) e in
        let head : member node s.frontier ≡ true =
          ground (arith, front node, text_eq_iff node node) in
        record {
          source = ground (arith, seen root, inv.source);
          sound = λ v m. elim (Bool-cases (member v s.seen)) [
            | inl old ↦ inv.sound v old
            | inr new ↦ step (inv.sound node (inv.waits node head)) (ground (arith, seen v))
          ];
          waits = λ v q. ground (arith, seen v, queue v, front v, inv.waits v);
          closed = λ u v m edge.
              ground (arith, seen u, seen v, queue u, front u, inv.closed u v, text_eq_iff node u);
        }

    Inv-search :
        (fuel : ℕ) (s : Search) (seen : List Text)
        → Inv s
        → search_loop adj fuel s ≡ some seen
        → (t : Search) × Inv t × (t.frontier ≡ []) × (t.seen ≡ seen)
    unfolding search_loop
    Inv-search zero s seen inv h = elim (List-cases s.frontier) [
      | inl e ↦ (s, inv, e, ground arith)
      | inr (node, rest, e) ↦ absurd (ground arith)
    ]
    Inv-search (suc fuel) s seen inv h = elim (List-cases s.frontier) [
      | inl e ↦ (s, inv, e, ground arith)
      | inr (node, rest, e) ↦
          Inv-search fuel (expand s node rest) seen (Inv-expand s node rest e inv)
            (rw (e, search_loop) at h)
    ]

    Inv-start : Inv (record { seen = root ∷ []; frontier = root ∷ [] })
    unfolding member
    Inv-start = record {
      source = ground (arith, text_eq_iff root root);
      sound = λ v m. subst (Reach adj root) (ground (arith, text_eq_iff root v)) here;
      waits = λ v q. q;
      closed = λ u v m edge. inl m;
    }

    complete :
        (t : Search) {v : Text}
        → Inv t
        → t.frontier ≡ []
        → Reach adj root v
        → member v t.seen ≡ true
    unfolding member
    complete t inv e here = inv.source
    complete t inv e (step {u} {v} r edge) =
        ground (arith, inv.closed u v, complete t inv e r, ap (member u) e)

-- `reachable_from` ends for every graph and every root, cycles included, and returns the names to
-- which a walk leads from the root, the root among them, and no others.
pub reachable_from_correct :
    (adj : Adjacency) (root : Text)
    → (seen : List Text) × (reachable_from adj root ≡ some seen)
      × ((v : Text) → (member v seen ≡ true) ↔ Reach adj root v)
unfolding reachable_from
reachable_from_correct adj root =
    let start : Search = record { seen = root ∷ []; frontier = root ∷ [] } in
    let (seen, ends) =
      search_ends adj (suc (count_targets adj)) start
        (omega (arith, unseen-le-length (root ∷ []) (targets_of adj), length-targets_of adj)) in
    let (t, inv, empty, same) =
      Inv-search adj root (suc (count_targets adj)) start seen (Inv-start adj root) ends in
    (
      seen,
      ends,
      λ v. (
        λ m. inv.sound v (subst (λ xs. member v xs ≡ true) (sym same) m),
        λ r. subst (λ xs. member v xs ≡ true) same (complete adj root t inv empty r),
      ),
    )
