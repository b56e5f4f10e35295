-- ===== src/JoinGraph/Build.antt =====
-- `build_from_models` of slayer/engine/join_graph.py
use slayer.Prelude.{
  ◌≡◌, refl, Bool, true, false, ◌&&◌, ◌||◌, List, [], ◌∷◌, ◌++◌, any, all, ap, ap₂, ◌∙◌, any-cong,
  all_mono, arith,
}
use slayer.Prelude.Text.{Text, text_eq, text_eq_iff, member}
use slayer.JoinGraph.{
  ModelJoins, Adjacency, add, neighbours, add_edge, blank, add_targets, add_models, names_of,
  build_from_models,
}

pub member-append :
    (s : Text) (xs ys : List Text) → member s (xs ++ ys) ≡ (member s xs || member s ys)
unfolding member
member-append s [] ys = refl
member-append s (x ∷ xs) ys = ground (arith, member-append s xs ys)

member-add : (s t : Text) (xs : List Text) → member s (add t xs) ≡ (text_eq t s || member s xs)
unfolding add
member-add s t xs = ground (arith, member-append s xs (t ∷ []), text_eq_iff t s, member-one s t)
  where
    member-one : (s t : Text) → member s (t ∷ []) ≡ (text_eq t s || false)
    member-one s t = refl

-- `n in adj`
abbrev is_key : Adjacency → Text → Bool
is_key adj n = any (λ e. text_eq e.0 n) adj

module _ (source target : Text) where
  is_key-add_edge :
      (adj : Adjacency) (n : Text) → is_key (add_edge adj source target) n ≡ is_key adj n
  unfolding add_edge
  is_key-add_edge [] n = refl
  is_key-add_edge ((name, targets) ∷ adj) n = ground (arith, is_key-add_edge adj n)

  neighbours-add_edge :
      (adj : Adjacency) (n s : Text)
      → is_key adj source ≡ true
      → member s (neighbours (add_edge adj source target) n)
        ≡ (member s (neighbours adj n) || (text_eq source n && text_eq target s))
  unfolding add_edge neighbours
  neighbours-add_edge [] n s h = ground arith
  neighbours-add_edge ((name, targets) ∷ adj) n s h = ground (
    arith,
    neighbours-add_edge adj n s,
    member-add s target targets,
    text_eq_iff name source,
    text_eq_iff name n,
    text_eq_iff source n,
  )

module _ (names : List Text) where
  is_key-add_targets :
      (source n : Text) (targets : List Text) (adj : Adjacency)
      → is_key (add_targets names source targets adj) n ≡ is_key adj n
  unfolding add_targets
  is_key-add_targets source n [] adj = refl
  is_key-add_targets source n (t ∷ targets) adj = ground (
    arith,
    is_key-add_targets source n targets (add_edge adj source t),
    is_key-add_targets source n targets adj,
    is_key-add_edge source t adj n,
  )

  neighbours-add_targets :
      (source n s : Text) (targets : List Text) (adj : Adjacency)
      → is_key adj source ≡ true
      → member s (neighbours (add_targets names source targets adj) n) ≡ (
          member s (neighbours adj n) || (text_eq source n && (member s targets && member s names)))
  unfolding add_targets member
  neighbours-add_targets source n s [] adj h = ground arith
  neighbours-add_targets source n s (t ∷ targets) adj h = ground (
    arith,
    neighbours-add_targets source n s targets (add_edge adj source t),
    neighbours-add_targets source n s targets adj,
    is_key-add_edge source t adj source,
    neighbours-add_edge source t adj n s,
    text_eq_iff t s,
  )

  -- the stored join from `n` to `s`, to a model of the set
  abbrev pub joins : Text → Text → ModelJoins → Bool
  joins n s m = text_eq m.name n && (member s m.targets && member s names)

  neighbours-add_models :
      (n s : Text) (models : List ModelJoins) (adj : Adjacency)
      → all (λ m. is_key adj m.name) models ≡ true
      → member s (neighbours (add_models names models adj) n)
        ≡ (member s (neighbours adj n) || any (joins n s) models)
  unfolding add_models
  neighbours-add_models n s [] adj h = ground arith
  neighbours-add_models n s (m ∷ models) adj h = ground (
    arith,
    neighbours-add_models n s models (add_targets names m.name m.targets adj),
    neighbours-add_targets m.name n s m.targets adj,
    keys_kept models,
  )
    where
      keys_kept :
          (ms : List ModelJoins)
          → all (λ k. is_key (add_targets names m.name m.targets adj) k.name) ms
            ≡ all (λ k. is_key adj k.name) ms
      keys_kept [] = refl
      keys_kept (k ∷ ms) = ap₂ ◌&&◌ (is_key-add_targets m.name k.name m.targets adj) (keys_kept ms)

neighbours-blank : (names : List Text) (n : Text) → neighbours (blank names) n ≡ []
unfolding neighbours blank
neighbours-blank [] n = refl
neighbours-blank (name ∷ names) n = ground (arith, neighbours-blank names n)

is_key-blank : (names : List Text) (n : Text) → is_key (blank names) n ≡ member n names
unfolding blank member
is_key-blank [] n = refl
is_key-blank (name ∷ names) n = ap (λ (b : Bool). text_eq name n || b) (is_key-blank names n)

member-names_of :
    (models : List ModelJoins) (n : Text)
    → member n (names_of models) ≡ any (λ m. text_eq m.name n) models
unfolding names_of
member-names_of [] n = refl
member-names_of (m ∷ models) n =
    member-add n m.name (names_of models)
    ∙ ap (λ (b : Bool). text_eq m.name n || b) (member-names_of models n)

module _ (names : List Text) where
  all_keys :
      (models : List ModelJoins)
      → all (λ m. member m.name names) models ≡ true
      → all (λ m. is_key (blank names) m.name) models ≡ true
  all_keys [] h = refl
  all_keys (m ∷ models) h = ground (arith, is_key-blank names m.name, all_keys models)

named : (models : List ModelJoins) → all (λ m. member m.name (names_of models)) models ≡ true
unfolding names_of
named [] = refl
named (m ∷ models) =
    let names = names_of models in
    let first : member m.name (add m.name names) ≡ true =
      ground (arith, member-add m.name m.name names, text_eq_iff m.name m.name) in
    let rest : all (λ k. member k.name (add m.name names)) models ≡ true =
      all_mono (λ k. member k.name names) _ models
        (λ k h. ground (arith, member-add k.name m.name names)) (named models) in
    ground arith

-- The set of a name in the graph holds exactly the names of models to which a model of that name
-- has a stored join; a join to a name that no model has is left out.
pub neighbours-build_from_models :
    (models : List ModelJoins) (n s : Text)
    → member s (neighbours (build_from_models models) n)
      ≡ any
          (λ m. text_eq m.name n && (member s m.targets && any (λ k. text_eq k.name s) models))
          models
unfolding build_from_models member
neighbours-build_from_models models n s =
    let names = names_of models in
    neighbours-add_models names n s models (blank names) (all_keys names models (named models))
    ∙ ap (λ (xs : List Text). member s xs || any (joins names n s) models)
        (neighbours-blank names n)
    ∙ any-cong _ _ models (λ m.
      ap (λ (b : Bool). text_eq m.name n && (member s m.targets && b)) (member-names_of models s))
