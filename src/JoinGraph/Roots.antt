-- ===== src/JoinGraph/Roots.antt =====
-- `min_hops_root` of slayer/engine/join_graph.py. An outer `none` is a run that raises, as in
-- `shortest_path`.
use slayer.Prelude.{
  ℕ, ◌+◌, Option, none, some, Bool, true, false, ◌&&◌, ◌||◌, List, [], ◌∷◌, length, if◌then◌else◌,
  eqb, ltb,
}
use slayer.Prelude.Text.{Text, text_leb, member}
use slayer.JoinGraph.{Adjacency}
use slayer.JoinGraph.Paths.{shortest_path}

-- `len(path or [])`
abbrev pub count_hops : Option (List Text) → ℕ
count_hops none = 0
count_hops (some p) = length p

unfoldable pub total_hops : Adjacency → Text → List Text → Option ℕ
unfolding shortest_path
total_hops adj root [] = some 0
total_hops adj root (m ∷ mentioned) = elim (shortest_path adj root m) [
  | none ↦ none
  | some path ↦ elim (total_hops adj root mentioned) [
    | none ↦ none
    | some n ↦ some (count_hops path + n)
  ]
]

unfoldable pub reaches_all : Adjacency → Text → List Text → Option Bool
unfolding shortest_path
reaches_all adj root [] = some true
reaches_all adj root (m ∷ mentioned) = elim (shortest_path adj root m) [
  | none ↦ none
  | some path ↦ elim path [ none ↦ some false | some p ↦ reaches_all adj root mentioned ]
]

-- `[c for c in candidates if reaches_all(c)]`
unfoldable pub valid_roots : Adjacency → List Text → List Text → Option (List Text)
unfolding reaches_all
valid_roots adj mentioned [] = some []
valid_roots adj mentioned (c ∷ candidates) = elim (reaches_all adj c mentioned) [
  | none ↦ none
  | some reaches ↦ elim (valid_roots adj mentioned candidates) [
    | none ↦ none
    | some valid ↦ some (if reaches then c ∷ valid else valid)
  ]
]

-- the key of a candidate
pub record Rank : Type 0 where
  pub hops : ℕ
  pub away : ℕ
  pub name : Text

-- `a <= b` of the tuples
unfoldable pub rank_leb : Rank → Rank → Bool
unfolding text_leb
rank_leb a b =
    ltb a.hops b.hops
    || eqb a.hops b.hops && (ltb a.away b.away || eqb a.away b.away && text_leb a.name b.name)

-- `(total_hops(n), 0 if n in mentioned else 1, n)`, the hops given
unfoldable pub ranked : List Text → Text → ℕ → Rank
unfolding member
ranked mentioned n hops = record {
  hops = hops;
  away = if member n mentioned then 0 else 1;
  name = n;
}

-- the rest of `min`, after the first
unfoldable pub least_rank : Adjacency → List Text → Rank → List Text → Option Rank
unfolding total_hops ranked rank_leb
least_rank adj mentioned r [] = some r
least_rank adj mentioned r (n ∷ valid) = elim (total_hops adj n mentioned) [
  | none ↦ none
  | some hops ↦
      let q = ranked mentioned n hops in
      least_rank adj mentioned (if rank_leb r q then r else q) valid
]

-- `min(valid, key=...)`, or `None` where nothing is valid
unfoldable pub choose_root : Adjacency → List Text → List Text → Option (Option Text)
unfolding least_rank total_hops ranked
choose_root adj mentioned [] = some none
choose_root adj mentioned (n ∷ valid) = elim (total_hops adj n mentioned) [
  | none ↦ none
  | some hops ↦ elim (least_rank adj mentioned (ranked mentioned n hops) valid) [
    | none ↦ none
    | some r ↦ some (some r.name)
  ]
]

unfoldable pub min_hops_root : Adjacency → List Text → List Text → Option (Option Text)
unfolding valid_roots choose_root
min_hops_root adj candidates mentioned = elim (valid_roots adj mentioned candidates) [
  | none ↦ none
  | some valid ↦ choose_root adj mentioned valid
]
