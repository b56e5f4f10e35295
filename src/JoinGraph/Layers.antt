-- ===== src/JoinGraph/Layers.antt =====
-- One round of the search by layers in `shortest_path` of slayer/engine/join_graph.py.
use slayer.Prelude.{
  ℕ, suc, ◌≡◌, refl, sym, true, false, ◌||◌, ◌&&◌, not, List, [], ◌∷◌, ◌++◌, arith, if◌then◌else◌,
  some, none,
}
use slayer.Prelude.Text.{Text, text_eq, text_eq_iff, member, sort_texts, insert_text}
use mathlib.Core.List.{append-nil, append_assoc}
use slayer.Prelude.TextDict.{TextDict, lookup, assign, lookup-assign}
use slayer.JoinGraph.{Search, visit_all}
use slayer.JoinGraph.Build.{member-append}
use slayer.JoinGraph.Loop.{all_member}
use slayer.JoinGraph.Paths.{keys, level, Layers, layer_all}

-- the search that keeps only the names
abbrev pub search_of : Layers → Search
search_of s = record { seen = keys s.dist; frontier = s.frontier }

pub keys-assign :
    {V : Type 0} (d : TextDict V) (v : Text) (new : V)
    → member v (keys d) ≡ false
    → keys (assign d v new) ≡ keys d ++ v ∷ []
unfolding assign member
keys-assign [] v new h = refl
keys-assign ((name, held) ∷ d) v new h = ground (arith, keys-assign d v new)

pub lookup-level :
    (dist : TextDict ℕ) (v : Text)
    → member v (keys dist) ≡ true
    → lookup dist v ≡ some (level dist v)
unfolding lookup member
lookup-level [] v h = absurd (cc)
lookup-level ((name, d) ∷ dist) v h = ground (arith, lookup-level dist v)

pub lookup-absent :
    {V : Type 0} (d : TextDict V) (v : Text) → member v (keys d) ≡ false → lookup d v ≡ none
unfolding lookup member
lookup-absent [] v h = refl
lookup-absent ((name, held) ∷ d) v h = ground (arith, lookup-absent d v)

pub search_of-layer_all :
    (d : ℕ) (s : Layers) (nbrs : List Text)
    → search_of (layer_all d s nbrs) ≡ visit_all (search_of s) nbrs
unfolding layer_all visit_all
search_of-layer_all d s [] = refl
search_of-layer_all d s (n ∷ nbrs) = ground (
  arith,
  search_of-layer_all d s nbrs,
  search_of-layer_all d (record { dist = assign s.dist n (suc d); frontier = s.frontier ++ n ∷ [] })
      nbrs,
  keys-assign s.dist n (suc d),
)

pub level-layer_all :
    (d : ℕ) (s : Layers) (nbrs : List Text) (v : Text)
    → level (layer_all d s nbrs).dist v
      ≡ (if member v (keys s.dist) then level s.dist v else if member v nbrs then suc d else 0)
unfolding layer_all member
level-layer_all d s [] v = ground (arith, lookup-absent s.dist v)
level-layer_all d s (n ∷ nbrs) v = ground (
  arith,
  level-layer_all d s nbrs v,
  level-layer_all d (record { dist = assign s.dist n (suc d); frontier = s.frontier ++ n ∷ [] })
      nbrs v,
  keys-assign s.dist n (suc d),
  member-append v (keys s.dist) (n ∷ []),
  lookup-assign (suc d) n v s.dist,
  text_eq_iff n v,
)

member-insert_text :
    (v s : Text) (names : List Text)
    → member v (insert_text s names) ≡ (text_eq s v || member v names)
unfolding insert_text member
member-insert_text v s [] = refl
member-insert_text v s (t ∷ names) = ground (arith, member-insert_text v s names)

pub member-sort_texts :
    (v : Text) (names : List Text) → member v (sort_texts names) ≡ member v names
unfolding sort_texts member
member-sort_texts v [] = refl
member-sort_texts v (s ∷ names) =
    ground (arith, member-insert_text v s (sort_texts names), member-sort_texts v names)

-- the neighbours that a round adds, in their order
pub fresh : List Text → List Text → List Text
fresh seen [] = []
fresh seen (n ∷ nbrs) =
    let later = fresh (seen ++ n ∷ []) nbrs in
    let others = fresh seen nbrs in if member n seen then others else n ∷ later

pub frontier-visit_all :
    (s : Search) (nbrs : List Text) → (visit_all s nbrs).frontier ≡ s.frontier ++ fresh s.seen nbrs
unfolding visit_all fresh
frontier-visit_all s [] = sym (append-nil s.frontier)
frontier-visit_all s (n ∷ nbrs) = ground (
  arith,
  frontier-visit_all s nbrs,
  frontier-visit_all (record { seen = s.seen ++ n ∷ []; frontier = s.frontier ++ n ∷ [] }) nbrs,
  append_assoc s.frontier (n ∷ []) (fresh (s.seen ++ n ∷ []) nbrs),
)

pub member-fresh :
    (seen nbrs : List Text) (v : Text)
    → member v (fresh seen nbrs) ≡ (not (member v seen) && member v nbrs)
unfolding fresh member
member-fresh seen [] v = ground arith
member-fresh seen (n ∷ nbrs) v = ground (
  arith,
  member-fresh seen nbrs v,
  member-fresh (seen ++ n ∷ []) nbrs v,
  member-append v seen (n ∷ []),
  text_eq_iff n v,
)

module _ (names : List Text) where
  all_member-insert_text :
      (s : Text) (ns : List Text)
      → member s names ≡ true
      → all_member ns names ≡ true
      → all_member (insert_text s ns) names ≡ true
  unfolding insert_text all_member
  all_member-insert_text s [] h k = ground arith
  all_member-insert_text s (n ∷ ns) h k = ground (arith, all_member-insert_text s ns)

  pub all_member-sort_texts :
      (ns : List Text) → all_member ns names ≡ true → all_member (sort_texts ns) names ≡ true
  unfolding sort_texts all_member
  all_member-sort_texts [] h = ground arith
  all_member-sort_texts (n ∷ ns) h =
      ground (arith, all_member-insert_text n (sort_texts ns), all_member-sort_texts ns)
