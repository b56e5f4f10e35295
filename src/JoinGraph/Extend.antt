-- ===== src/JoinGraph/Extend.antt =====
-- The paths that `shortest_path` of slayer/engine/join_graph.py extends layer by layer are the
-- least of the shortest walks.
use slayer.Prelude.{
  ℕ, suc, ◌-◌, ◌≤◌, ◌≡◌, refl, ap, ◌∙◌, sym, subst, true, ◌&&◌, some, List, [], ◌∷◌, ◌++◌, length,
  length-append, arith, eqb,
}
use slayer.Prelude.Text.{Text, member}
use slayer.Prelude.TextDict.{TextDict, lookup}
use slayer.JoinGraph.{Adjacency, neighbours}
use slayer.JoinGraph.Reach.{Edge}
use slayer.JoinGraph.Paths.{keys, level, hops_leb, min_best, preds_of}
use slayer.JoinGraph.Order.{hops_leb_trans, hops_leb-append}
use slayer.JoinGraph.Layered.{Walk, here, hop, IsDistances}
use slayer.JoinGraph.Best.{member-keep_if, min_best-Least}

module _ (adj : Adjacency) (root : Text) where
  -- a walk of the least length, and the least in the order among these
  pub record IsShortest (target : Text) (p : List Text) : Type 0 where
    pub walk : Walk adj root p target
    pub shortest : {q : List Text} → Walk adj root q target → length p ≤ length q
    pub first : {q : List Text} → Walk adj root q target → length q ≡ length p → hops_leb p q ≡ true

  module _ (dist : TextDict ℕ) (is : IsDistances adj root dist) where
    IsShortest-level :
        (v : Text) (p : List Text)
        → member v (keys dist) ≡ true
        → IsShortest v p
        → length p ≡ level dist v
    IsShortest-level v p m best =
        let (q, w, e) = is.found v m in omega (arith, best.shortest w, is.least best.walk, e)

    -- the last name but one of a shortest walk
    hop-level :
        (p : List Text) (u v : Text) (d : ℕ)
        → Walk adj root p u
        → Edge adj u v
        → level dist v ≡ suc d
        → length p ≡ d
        → (member u (keys dist) ≡ true) × (level dist u ≡ d)
    hop-level p u v d w edge e f =
        let (known, le) = is.least w in
        let (q, w', g) = is.found u known in
        let (_, le') = is.least (hop w' edge refl) in
        (known, omega (arith, le, le', e, f, g, length-append q (v ∷ [])))

    module _ (best : TextDict (List Text)) (d : ℕ) where
      -- the paths are known up to a distance
      abbrev pub Known : Text → Type 0
      Known v = (p : List Text) × (lookup best v ≡ some p) × IsShortest v p

      abbrev pub KnownUpto : Type 0
      KnownUpto = (v : Text) → member v (keys dist) ≡ true → level dist v ≤ d → Known v

      -- a path to a predecessor
      abbrev ToPred : Text → List Text → Type 0
      ToPred v q = (u : Text) × Walk adj root q u × Edge adj u v × (length q ≡ d)

      member-preds_of :
          (u v : Text)
          → member u (preds_of adj dist (suc d) v) ≡ (
              (eqb (level dist u) (suc d - 1) && member v (neighbours adj u))
              && member u (keys dist))
      unfolding preds_of
      member-preds_of u v = member-keep_if _ u (keys dist)

      pred-ToPred :
          (v u : Text)
          → KnownUpto
          → member u (preds_of adj dist (suc d) v) ≡ true
          → (q : List Text) × (lookup best u ≡ some q) × ToPred v q
      pred-ToPred v u known m =
          let key : member u (keys dist) ≡ true = ground (arith, member-preds_of u v) in
          let lev : level dist u ≡ d = ground (arith, member-preds_of u v) in
          let edge : Edge adj u v = ground (arith, member-preds_of u v) in
          let (q, e, s) = known u key (omega arith) in
          (q, e, (u, s.walk, edge, IsShortest-level u q key s ∙ lev))

      -- the last hop of a shortest walk comes from a predecessor with a path at most as large
      last_hop :
          {w : List Text} (v : Text)
          → KnownUpto
          → Walk adj root w v
          → level dist v ≡ suc d
          → length w ≡ suc d
          → (u : Text) × (p : List Text) × (q : List Text) × (member u (preds_of adj dist (suc d) v)
              ≡ true)
            × (w ≡ p ++ v ∷ [])
            × (length p ≡ d)
            × (lookup best u ≡ some q)
            × (hops_leb q p ≡ true)
      last_hop v known (here empty same) e f = absurd (omega (arith, ap length empty, f))
      last_hop v known (hop {p} {q} {u} before edge same) e f =
          let size : length p ≡ d = omega (arith, ap length same, length-append p (v ∷ []), f) in
          let (key, lev) = hop-level p u v d before edge e size in
          let (r, g, s) = known u key (omega (arith, lev)) in
          (
            u,
            p,
            r,
            ground (arith, member-preds_of u v, key, lev, edge),
            same,
            size,
            g,
            s.first before (omega (arith, size, lev, IsShortest-level u r key s)),
          )

      -- a predecessor with a path
      has_pred :
          (v : Text)
          → KnownUpto
          → member v (keys dist) ≡ true
          → level dist v ≡ suc d
          → (u : Text) × (member u (preds_of adj dist (suc d) v) ≡ true)
      has_pred v known m e =
          let (w, walk, size) = is.found v m in
          let (u, p, r, pred, same, _, _, _) = last_hop v known walk e (size ∙ e) in (u, pred)

      pub extend_node :
          (v : Text)
          → KnownUpto
          → member v (keys dist) ≡ true
          → level dist v ≡ suc d
          → (p : List Text) × (min_best best (preds_of adj dist (suc d) v) ≡ some p)
            × IsShortest v (p ++ v ∷ [])
      extend_node v known m e =
          let (u, pred) = has_pred v known m e in
          let (r, min, (u', w, edge, size), least) =
            min_best-Least best (ToPred v) _ u pred (λ u' m'. pred-ToPred v u' known m') in
          let grown = length-append r (v ∷ []) in
          (
            r,
            min,
            record {
              walk = hop w edge refl;
              shortest = λ w'. omega (arith, is.least w', e, size, grown);
              first = λ {q} w' same.
                  let (u2, p2, q2, pred2, is2, size2, look2, le2) =
                    last_hop v known w' e (omega (arith, same, grown, size)) in
                  subst (λ (x : List Text). hops_leb (r ++ v ∷ []) x ≡ true) (sym is2)
                    (hops_leb-append r p2 (v ∷ []) (size ∙ sym size2)
                      (hops_leb_trans r q2 p2 (least u2 q2 pred2 look2) le2));
            },
          )
