-- ===== src/JoinGraph/Best.antt =====
-- `min(best[u] for u in preds)` of slayer/engine/join_graph.py
use slayer.Prelude.{
  ◌≡◌, refl, ap, inl, inr, Bool, Bool-cases, true, ◌&&◌, some, Option, List, [], ◌∷◌, arith,
  keep_if,
}
use slayer.Prelude.Text.{Text, text_eq_iff, member}
use slayer.Prelude.TextDict.{TextDict, lookup}
use slayer.JoinGraph.Paths.{hops_leb, smallest, min_best}
use slayer.JoinGraph.Order.{hops_leb_refl, hops_leb_total, hops_leb_trans}

pub member-keep_if :
    (keep : Text → Bool) (v : Text) (names : List Text)
    → member v (keep_if keep names) ≡ (keep v && member v names)
unfolding member
member-keep_if keep v [] = ground arith
member-keep_if keep v (n ∷ names) =
    ground (arith, member-keep_if keep v names, text_eq_iff n v, ap keep)

module _ (best : TextDict (List Text)) (Good : List Text → Type 0) where
  -- a good path that is at most the paths of the names
  abbrev pub Least : Option (List Text) → List Text → Type 0
  Least found names =
      (r : List Text) × (found ≡ some r)
      × Good r
      × ((u : Text) (q : List Text)
          → member u names ≡ true
          → lookup best u ≡ some q
          → hops_leb r q ≡ true)

  abbrev pub AllGood : List Text → Type 0
  AllGood names =
      (u : Text) → member u names ≡ true → (q : List Text) × (lookup best u ≡ some q) × Good q

  smallest-Least :
      (p : List Text) (names : List Text)
      → Good p
      → AllGood names
      → (r : List Text) × (smallest best p names ≡ some r)
        × Good r
        × (hops_leb r p ≡ true)
        × ((u : Text) (q : List Text)
            → member u names ≡ true
            → lookup best u ≡ some q
            → hops_leb r q ≡ true)
  unfolding smallest member
  smallest-Least p [] good all = (p, refl, good, hops_leb_refl p, λ u q m e. absurd (cc))
  smallest-Least p (n ∷ names) good all =
      let (q, e, good_q) = all n (ground (arith, text_eq_iff n n)) in
      let rest : AllGood names = λ u m. all u (ground arith) in
      elim (Bool-cases (hops_leb p q)) [
        | inl le ↦
            let (r, f, good_r, r_p, r_all) = smallest-Least p names good rest in
            (
              r,
              ground (arith, e, le, f),
              good_r,
              r_p,
              λ u q' m e'.
                  ground (arith, text_eq_iff n u, r_all u q', hops_leb_trans r p q, e, r_p),
            )
        | inr gt ↦
            let (r, f, good_r, r_q, r_all) = smallest-Least q names good_q rest in
            (
              r,
              ground (arith, e, gt, f),
              good_r,
              hops_leb_trans r q p r_q (hops_leb_total p q gt),
              λ u q' m e'. ground (arith, text_eq_iff n u, r_all u q', e, r_q),
            )
      ]

  pub min_best-Least :
      (names : List Text) (some_name : Text)
      → member some_name names ≡ true
      → AllGood names
      → Least (min_best best names) names
  unfolding min_best member
  min_best-Least [] u m all = absurd (cc)
  min_best-Least (n ∷ names) u m all =
      let (p, e, good) = all n (ground (arith, text_eq_iff n n)) in
      let (r, f, good_r, r_p, r_all) =
        smallest-Least p names good (λ u' m'. all u' (ground arith)) in
      (
        r,
        ground (arith, e, f),
        good_r,
        λ u' q m' e'. ground (arith, text_eq_iff n u', r_all u' q, e, r_p),
      )
