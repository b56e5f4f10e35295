-- ===== src/JoinGraph/Totals.antt =====
-- The hops that `min_hops_root` of slayer/engine/join_graph.py adds up, and the candidates that it
-- keeps.
use slayer.Prelude.{
  ℕ, ◌+◌, ◌≡◌, refl, subst, ◌⊎◌, inl, inr, Bool-cases, true, false, some, none, List, [], ◌∷◌,
  length, arith, ⊎_elim,
}
use slayer.Prelude.Text.{Text, text_eq, text_eq_iff, member}
use slayer.JoinGraph.{Adjacency}
use slayer.JoinGraph.Paths.{shortest_path}
use slayer.JoinGraph.Layered.{Walk}
use slayer.JoinGraph.Extend.{IsShortest}
use slayer.JoinGraph.Shortest.{shortest_path_correct}
use slayer.JoinGraph.Roots.{total_hops, reaches_all, valid_roots}

-- the sum of the lengths of shortest walks from a root to each of the names
pub data TotalHops (adj : Adjacency) (root : Text) : List Text → ℕ → Type 0 where
  none_left : {n : ℕ} → n ≡ 0 → TotalHops adj root [] n
  one_more :
      {m : Text} {names : List Text} {p : List Text} {n k : ℕ}
      → IsShortest adj root m p
      → TotalHops adj root names n
      → k ≡ length p + n
      → TotalHops adj root (m ∷ names) k

module _ (adj : Adjacency) where
  shortest_path-length :
      (root m : Text) (p : List Text)
      → IsShortest adj root m p
      → (q : List Text) × (shortest_path adj root m ≡ some (some q)) × (length q ≡ length p)
  shortest_path-length root m p s =
      let (answer, e, is) = shortest_path_correct adj root m in
      ⊎_elim
        (λ (no : (answer ≡ none) × ((w : List Text) → ¬ Walk adj root w m)). absurd (no.1 p s.walk))
        (λ (found : (q : List Text) × (answer ≡ some q) × IsShortest adj root m q).
          let (q, f, t) = found in
          (q, ground (arith, e, f), omega (arith, s.shortest t.walk, t.shortest s.walk)))
        is

  pub total_hops-TotalHops :
      (root : Text) (names : List Text) (n : ℕ)
      → TotalHops adj root names n
      → (total_hops adj root names ≡ some n) × (reaches_all adj root names ≡ some true)
  unfolding total_hops reaches_all
  total_hops-TotalHops root [] n (none_left e) = (ground (arith, e), refl)
  total_hops-TotalHops root (m ∷ names) k (one_more {p} {n} s rest e) =
      let (q, f, size) = shortest_path-length root m p s in
      let (t, r) = total_hops-TotalHops root names n rest in
      (ground (arith, f, t, e, size), ground (arith, f, r))

  reaches_all-TotalHops :
      (root : Text) (names : List Text)
      → (reaches_all adj root names ≡ some false)
        ⊎ ((reaches_all adj root names ≡ some true) × (n : ℕ) × TotalHops adj root names n)
  unfolding reaches_all
  reaches_all-TotalHops root [] = inr (refl, 0, none_left refl)
  reaches_all-TotalHops root (m ∷ names) =
      let (answer, e, is) = shortest_path_correct adj root m in
      let later = reaches_all-TotalHops root names in
      ⊎_elim
        (λ (no : (answer ≡ none) × ((w : List Text) → ¬ Walk adj root w m)).
          inl (ground (arith, e, no.0)))
        (λ (found : (q : List Text) × (answer ≡ some q) × IsShortest adj root m q).
          let (q, f, s) = found in
          elim later [
            | inl missing ↦ inl (ground (arith, e, f, missing))
            | inr (all, n, t) ↦ inr (ground (arith, e, f, all), length q + n, one_more s t refl)
          ])
        is

module _ (adj : Adjacency) (mentioned : List Text) where
  pub valid_roots-TotalHops :
      (candidates : List Text)
      → (valid : List Text) × (valid_roots adj mentioned candidates ≡ some valid)
        × ((c : Text)
            → member c valid ≡ true
            → (member c candidates ≡ true) × (n : ℕ) × TotalHops adj c mentioned n)
        × ((c : Text) (n : ℕ)
            → member c candidates ≡ true
            → TotalHops adj c mentioned n
            → member c valid ≡ true)
  unfolding valid_roots member
  valid_roots-TotalHops [] = ([], refl, λ c m. absurd (cc), λ c n m t. m)
  valid_roots-TotalHops (c ∷ candidates) =
      let (valid, e, sound, complete) = valid_roots-TotalHops candidates in
      elim (reaches_all-TotalHops adj c mentioned) [
        | inl missing ↦ (
          valid,
          ground (arith, e, missing),
          λ v m. let (was, k, found) = sound v m in (ground (arith, was), k, found),
          λ v n m t. ground (
            arith,
            complete v n,
            t,
            missing,
            total_hops-TotalHops adj v mentioned n t,
            text_eq_iff c v,
          ),
        )
        | inr (all, n, t) ↦ (
          c ∷ valid,
          ground (arith, e, all),
          λ v m. elim (Bool-cases (text_eq c v)) [
            | inl same ↦ (
              ground (arith, same),
              n,
              subst (λ u. TotalHops adj u mentioned n) (ground (arith, text_eq_iff c v)) t,
            )
            | inr other ↦
                let (was, k, found) = sound v (ground arith) in (ground (arith, was), k, found)
          ],
          λ v k m s. ground (arith, complete v k, s),
        )
      ]
