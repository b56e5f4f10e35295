-- ===== src/JoinGraph/Shortest.antt =====
-- `shortest_path` of slayer/engine/join_graph.py against the walks of the graph.
use slayer.Prelude.{
  ℕ, zero, suc, ◌≡◌, refl, ap, subst, ◌⊎◌, inl, inr, Bool-cases, true, false, ◌&&◌, not, some, none,
  Option, List, [], ◌∷◌, ◌++◌, length, length-append, arith, ⊎_elim, eqb,
}
use slayer.Prelude.Text.{Text, text_eq, text_eq_iff, member}
use slayer.Prelude.TextDict.{TextDict, lookup, assign, lookup-assign}
use slayer.JoinGraph.{Adjacency, neighbours}
use slayer.JoinGraph.Paths.{
  keys, level, nodes_at, extend_layer, best_upto, best_path, path_by_distance, distances,
  shortest_path,
}
use slayer.JoinGraph.Layers.{lookup-level, lookup-absent}
use slayer.JoinGraph.Layered.{Walk, here, hop, IsDistances}
use slayer.JoinGraph.Distances.{distances-IsDistances}
use slayer.JoinGraph.Best.{member-keep_if}
use slayer.JoinGraph.Extend.{IsShortest, Known, KnownUpto, extend_node}

module _ (adj : Adjacency) (root : Text) where
  module _ (dist : TextDict ℕ) (is : IsDistances adj root dist) (d : ℕ) where
    Known-assign_same :
        (best : TextDict (List Text)) (v : Text) (p : List Text)
        → IsShortest adj root v p
        → (u : Text) → text_eq v u ≡ true
        → Known adj root dist is (assign best v p) d u
    Known-assign_same best v p s u same =
        let e : v ≡ u = ground (arith, text_eq_iff v u) in
        (p, ground (arith, lookup-assign p v u best), subst (λ w. IsShortest adj root w p) e s)

    Known-assign :
        (best : TextDict (List Text)) (v : Text) (p : List Text)
        → IsShortest adj root v p
        → (u : Text) → Known adj root dist is best d u
        → Known adj root dist is (assign best v p) d u
    Known-assign best v p s u (q, e, t) = elim (Bool-cases (text_eq v u)) [
      | inl same ↦ Known-assign_same best v p s u same
      | inr other ↦ (q, ground (arith, lookup-assign p v u best), t)
    ]

    -- the nodes that have a path after a layer
    extend_layer-Known :
        (nodes : List Text) (best : TextDict (List Text))
        → ((v : Text)
            → member v nodes ≡ true
            → (member v (keys dist) ≡ true) × (level dist v ≡ suc d))
        → KnownUpto adj root dist is best d
        → (after : TextDict (List Text)) × (extend_layer adj dist (suc d) nodes best ≡ some after)
          × ((u : Text)
              → ((member u nodes ≡ true) ⊎ Known adj root dist is best d u)
              → Known adj root dist is after d u)
    unfolding extend_layer member
    extend_layer-Known [] best at known =
        (best, refl, λ u k. ⊎_elim (λ m. absurd (cc)) (λ had. had) k)
    extend_layer-Known (v ∷ nodes) best at known =
        let (key, lev) = at v (ground (arith, text_eq_iff v v)) in
        let (p, e, s) = extend_node adj root dist is best d v known key lev in
        let best' = assign best v (p ++ v ∷ []) in
        let kept = Known-assign best v (p ++ v ∷ []) s in
        let (after, f, k) =
          extend_layer-Known nodes best' (λ u m. at u (ground arith))
            (λ u m le. kept u (known u m le)) in
        (
          after,
          ground (arith, e, f),
          λ u had.
              ⊎_elim
                (λ m. elim (Bool-cases (text_eq v u)) [
                  | inl same ↦ k u (inr (Known-assign_same best v (p ++ v ∷ []) s u same))
                  | inr other ↦ k u (inl (ground arith))
                ])
                (λ had'. k u (inr (kept u had'))) had,
        )

  module _ (dist : TextDict ℕ) (is : IsDistances adj root dist) where
    root_only : {p : List Text} {v : Text} → Walk adj root p v → length p ≡ 0 → root ≡ v
    root_only (here empty same) e = same
    root_only (hop {p} {q} {u} {v} w edge grown) e =
        absurd (omega (arith, ap length grown, length-append p (v ∷ []), e))

    member-nodes_at :
        (v : Text) (d : ℕ)
        → member v (nodes_at dist d) ≡ (eqb (level dist v) d && member v (keys dist))
    unfolding nodes_at
    member-nodes_at v d = member-keep_if _ v (keys dist)

    best_upto-Known :
        (d : ℕ)
        → (best : TextDict (List Text)) × (best_upto adj dist root d ≡ some best)
          × KnownUpto adj root dist is best d
    unfolding best_upto lookup
    best_upto-Known zero = (
      (root, []) ∷ [],
      refl,
      λ v m le.
          let (p, w, e) = is.found v m in
          let same : root ≡ v = root_only w (omega (arith, e)) in
          (
            [],
            ground (arith, same, text_eq_iff root v),
            record { walk = here refl same; shortest = λ w'. omega arith; first = λ w' e'. refl },
          ),
    )
    best_upto-Known (suc d) =
        let (best, e, known) = best_upto-Known d in
        let at = λ (v : Text). member-nodes_at v (suc d) in
        let (after, f, k) =
          extend_layer-Known dist is d (nodes_at dist (suc d)) best
            (λ v m. (ground (arith, at v), ground (arith, at v))) known in
        (
          after,
          ground (arith, e, f),
          λ v m le. elim (Bool-cases (eqb (level dist v) (suc d))) [
            | inl now ↦ k v (inl (ground (arith, at v)))
            | inr before ↦ k v (inr (known v m (ground arith)))
          ],
        )

    best_path-IsShortest :
        (target : Text)
        → member target (keys dist) ≡ true
        → (p : List Text) × (best_path adj dist root target (level dist target) ≡ some (some p))
          × IsShortest adj root target p
    unfolding best_path
    best_path-IsShortest target m =
        let (best, e, known) = best_upto-Known (level dist target) in
        let (p, f, s) = known target m (omega arith) in (p, ground (arith, e, f), s)

  -- what `shortest_path` returns where it is not at once decided
  abbrev pub IsAnswer : Text → Option (List Text) → Type 0
  IsAnswer target answer =
      ((answer ≡ none) × ((p : List Text) → ¬ Walk adj root p target))
      ⊎ ((p : List Text) × (answer ≡ some p) × IsShortest adj root target p)

  path_by_distance-IsAnswer :
      (target : Text)
      → (answer : Option (List Text)) × (path_by_distance adj root target (distances adj root)
          ≡ some answer)
        × IsAnswer target answer
  unfolding path_by_distance
  path_by_distance-IsAnswer target =
      let (dist, e, is) = distances-IsDistances adj root in
      elim (Bool-cases (member target (keys dist))) [
        | inl found ↦
            let (p, f, s) = best_path-IsShortest dist is target found in
            (some p, ground (arith, e, f, lookup-level dist target), inr (p, refl, s))
        | inr missing ↦ (
          none,
          ground (arith, e, lookup-absent dist target),
          inl (refl, λ p w. absurd (ground (arith, is.least w))),
        )
      ]

  neighbours-absent : (g : Adjacency) (n : Text) → member n (keys g) ≡ false → neighbours g n ≡ []
  unfolding neighbours member
  neighbours-absent [] n h = refl
  neighbours-absent ((name, targets) ∷ g) n h = ground (arith, neighbours-absent g n)

  no_hops :
      {p : List Text} {v : Text} → member root (keys adj) ≡ false → Walk adj root p v → root ≡ v
  unfolding member
  no_hops h (here empty same) = same
  no_hops h (hop {p} {q} {u} {v} w edge grown) =
      absurd (ground (arith, no_hops h w, neighbours-absent adj root h))

-- For every graph, root and target `shortest_path` ends without an error. It returns `None`
-- exactly when no walk leads from the root to the target; otherwise it returns the hops of a walk
-- to the target, no walk has fewer hops, and of the walks with as many it is the least in the
-- order of lists of names.
pub shortest_path_correct :
    (adj : Adjacency) (root target : Text)
    → (answer : Option (List Text)) × (shortest_path adj root target ≡ some answer)
      × IsAnswer adj root target answer
unfolding shortest_path
shortest_path_correct adj root target = elim (Bool-cases (text_eq root target)) [
  | inl same ↦ (
    some [],
    ground (arith, same),
    inr (
      [],
      refl,
      record {
        walk = here refl (ground (arith, text_eq_iff root target));
        shortest = λ w. omega arith;
        first = λ w e. refl;
      },
    ),
  )
  | inr other ↦ elim (Bool-cases (not (member target (keys adj)) && not (member root (keys adj)))) [
    | inl unknown ↦ (
      none,
      ground (arith, other, unknown),
      inl (
        refl,
        λ p w. absurd (ground (arith, no_hops adj root (ground arith) w, text_eq_iff root target)),
      ),
    )
    | inr known ↦
        let (answer, e, is) = path_by_distance-IsAnswer adj root target in
        (answer, ground (arith, other, known, e), is)
  ]
]
