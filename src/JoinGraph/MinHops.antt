-- ===== src/JoinGraph/MinHops.antt =====
-- The root that `min_hops_root` of slayer/engine/join_graph.py picks.
use slayer.Prelude.{
  ℕ, ◌≡◌, refl, ap, ap₂, subst, ◌⊎◌, inl, inr, Bool-cases, true, false, some, none, Option, List,
  [], ◌∷◌, arith, ⊎_elim,
}
use slayer.Prelude.Text.{Text, text_eq, text_eq_iff, member}
use slayer.JoinGraph.{Adjacency}
use slayer.JoinGraph.Order.{text_leb_refl, text_leb_total, text_leb_trans}
use slayer.JoinGraph.Totals.{TotalHops, total_hops-TotalHops, valid_roots-TotalHops}
use slayer.JoinGraph.Roots.{Rank, rank_leb, ranked, least_rank, choose_root, min_hops_root}

rank_leb_refl : (a : Rank) → rank_leb a a ≡ true
unfolding rank_leb
rank_leb_refl a = ground (arith, text_leb_refl a.name)

rank_leb_total : (a b : Rank) → rank_leb a b ≡ false → rank_leb b a ≡ true
unfolding rank_leb
rank_leb_total a b h = ground (arith, text_leb_total a.name b.name)

rank_leb_trans : (a b c : Rank) → rank_leb a b ≡ true → rank_leb b c ≡ true → rank_leb a c ≡ true
unfolding rank_leb
rank_leb_trans a b c h k = ground (arith, text_leb_trans a.name b.name c.name)

module _ (adj : Adjacency) (mentioned : List Text) where
  -- the rank of a name that reaches what is mentioned
  abbrev IsRank : Rank → Type 0
  IsRank r = (n : ℕ) × TotalHops adj r.name mentioned n × (r ≡ ranked mentioned r.name n)

  same_rank :
      (c v : Text) (k n : ℕ)
      → TotalHops adj c mentioned k
      → TotalHops adj v mentioned n
      → text_eq c v ≡ true
      → ranked mentioned c k ≡ ranked mentioned v n
  same_rank c v k n t s same =
      let e : c ≡ v = ground (arith, text_eq_iff c v) in
      let f : k ≡ n = ground (
        arith,
        e,
        total_hops-TotalHops adj c mentioned k t,
        total_hops-TotalHops adj v mentioned n s,
      ) in
      ap₂ (ranked mentioned) e f

  -- the least of a rank and those of the names
  abbrev IsLeast : Rank → List Text → Rank → Type 0
  IsLeast r valid best =
      IsRank best
      × ((best ≡ r) ⊎ (member best.name valid ≡ true))
      × (rank_leb best r ≡ true)
      × ((c : Text) (n : ℕ)
          → member c valid ≡ true
          → TotalHops adj c mentioned n
          → rank_leb best (ranked mentioned c n) ≡ true)

  least_of_rest :
      (c : Text) (k : ℕ) (valid : List Text) (best : Rank)
      → TotalHops adj c mentioned k
      → rank_leb best (ranked mentioned c k) ≡ true
      → ((v : Text) (n : ℕ)
          → member v valid ≡ true
          → TotalHops adj v mentioned n
          → rank_leb best (ranked mentioned v n) ≡ true)
      → (v : Text) (n : ℕ) → member v (c ∷ valid) ≡ true
      → TotalHops adj v mentioned n
      → rank_leb best (ranked mentioned v n) ≡ true
  unfolding member
  least_of_rest c k valid best t le least v n m s = elim (Bool-cases (text_eq c v)) [
    | inl same ↦ subst (λ x. rank_leb best x ≡ true) (same_rank c v k n t s same) le
    | inr other ↦ least v n (ground arith) s
  ]

  abbrev AllReach : List Text → Type 0
  AllReach valid = (c : Text) → member c valid ≡ true → (n : ℕ) × TotalHops adj c mentioned n

  least_rank-IsLeast :
      (valid : List Text) (r : Rank)
      → AllReach valid
      → IsRank r
      → (best : Rank) × (least_rank adj mentioned r valid ≡ some best) × IsLeast r valid best
  unfolding least_rank member
  least_rank-IsLeast [] r all is =
      (r, refl, (is, inl refl, rank_leb_refl r, λ c n m t. absurd (cc)))
  least_rank-IsLeast (c ∷ valid) r all is =
      let (k, t) = all c (ground (arith, text_eq_iff c c)) in
      let q = ranked mentioned c k in
      let rest = λ (v : Text) (m : member v valid ≡ true). all v (ground arith) in
      let (read, _) = total_hops-TotalHops adj c mentioned k t in
      elim (Bool-cases (rank_leb r q)) [
        | inl le ↦
            let (best, e, (is', from, best_r, least)) = least_rank-IsLeast valid r rest is in
            (
              best,
              ground (arith, read, le, e),
              (
                is',
                ⊎_elim (λ same. inl same) (λ m. inr (ground (arith, m))) from,
                best_r,
                least_of_rest c k valid best t (rank_leb_trans best r q best_r le) least,
              ),
            )
        | inr gt ↦
            let (best, e, (is', from, best_q, least)) =
              least_rank-IsLeast valid q rest (k, t, refl) in
            (
              best,
              ground (arith, read, gt, e),
              (
                is',
                inr (
                    ⊎_elim
                      (λ (same : best ≡ q).
                        ground (arith, ap (λ (x : Rank). x.name) same, text_eq_iff c best.name))
                      (λ (m : member best.name valid ≡ true). ground (arith, m)) from),
                rank_leb_trans best q r best_q (rank_leb_total r q gt),
                least_of_rest c k valid best t best_q least,
              ),
            )
      ]

  choose_root-IsLeast :
      (valid : List Text)
      → AllReach valid
      → (answer : Option Text) × (choose_root adj mentioned valid ≡ some answer)
        × (((answer ≡ none) × (valid ≡ []))
            ⊎ ((c : Text) × (n : ℕ) × (answer ≡ some c)
                × (member c valid ≡ true)
                × TotalHops adj c mentioned n
                × ((v : Text) (k : ℕ)
                    → member v valid ≡ true
                    → TotalHops adj v mentioned k
                    → rank_leb (ranked mentioned c n) (ranked mentioned v k) ≡ true)))
  unfolding choose_root member
  choose_root-IsLeast [] all = (none, refl, inl (refl, refl))
  choose_root-IsLeast (c ∷ valid) all =
      let (k, t) = all c (ground (arith, text_eq_iff c c)) in
      let (read, _) = total_hops-TotalHops adj c mentioned k t in
      let (best, e, ((n, s, is), from, le, least)) =
        least_rank-IsLeast valid (ranked mentioned c k) (λ v m. all v (ground arith))
          (k, t, refl) in
      (
        some best.name,
        ground (arith, read, e),
        inr (
          best.name,
          n,
          refl,
          ⊎_elim
              (λ (same : best ≡ ranked mentioned c k).
                ground (arith, ap (λ (x : Rank). x.name) same, text_eq_iff c best.name))
              (λ (m : member best.name valid ≡ true). ground (arith, m)) from,
          s,
          λ v k' m' s'.
              subst (λ x. rank_leb x (ranked mentioned v k') ≡ true) is
                (least_of_rest c k valid best t le least v k' m' s'),
        ),
      )

-- For every graph and every list of candidates and of mentioned names `min_hops_root` ends without
-- an error. It returns `None` where no candidate has a walk to each of the mentioned names.
-- Otherwise it returns a candidate that has, and of these the one with the least sum of the hops of
-- shortest walks; among equal sums a mentioned one comes first, then the least name.
pub min_hops_root_correct :
    (adj : Adjacency) (candidates mentioned : List Text)
    → (answer : Option Text) × (min_hops_root adj candidates mentioned ≡ some answer)
      × (((answer ≡ none)
            × ((c : Text) (n : ℕ) → member c candidates ≡ true → ¬ TotalHops adj c mentioned n))
          ⊎ ((c : Text) × (n : ℕ) × (answer ≡ some c)
              × (member c candidates ≡ true)
              × TotalHops adj c mentioned n
              × ((v : Text) (k : ℕ)
                  → member v candidates ≡ true
                  → TotalHops adj v mentioned k
                  → rank_leb (ranked mentioned c n) (ranked mentioned v k) ≡ true)))
unfolding min_hops_root member
min_hops_root_correct adj candidates mentioned =
    let (valid, e, sound, complete) = valid_roots-TotalHops adj mentioned candidates in
    let (answer, f, picked) =
      choose_root-IsLeast adj mentioned valid (λ c m. let (was, n, t) = sound c m in (n, t)) in
    (
      answer,
      ground (arith, e, f),
      elim picked [
        | inl (nothing, empty) ↦
            inl (nothing, λ c n m t. absurd (ground (arith, complete c n m t, ap (member c) empty)))
        | inr (c, n, same, m, t, least) ↦
            inr (c, n, same, (sound c m).0, t, λ v k m' s. least v k (complete v k m' s) s)
      ],
    )
