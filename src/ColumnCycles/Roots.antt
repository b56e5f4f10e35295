-- ===== src/ColumnCycles/Roots.antt =====
-- slayer/engine/column_dependency.py: the roots from which the check searches.
use slayer.Prelude.{
  ◌≡◌, ◌≢◌, refl, subst, ap, ◌∙◌, inl, inr, Bool, Bool-cases, Option, Option-cases, true, false,
  ◌||◌, none, some, List, [], ◌∷◌, ◌++◌, arith,
}
use slayer.Prelude.Text.{Text, text_eq, text_eq_iff}
use slayer.Prelude.TextDict.{TextDict, lookup}
use slayer.ColumnCycles.{
  Column, SlayerModel, ColumnRef, Node, same_node, has_node, get_column, is_trivial_base,
  column_dependencies, node_dependencies,
}
use slayer.ColumnCycles.Search.{derived_of, roots_of, insert_sorted, sorted_models}
use slayer.ColumnCycles.Relation.{has_node-append}

has_node-insert_sorted :
    (n : Node) (name : Text) (model : SlayerModel) (sorted : TextDict SlayerModel)
    → has_node n (roots_of (insert_sorted name model sorted))
      ≡ (has_node n (derived_of name model.columns) || has_node n (roots_of sorted))
unfolding insert_sorted roots_of
has_node-insert_sorted n name model [] = has_node-append n (derived_of name model.columns) []
has_node-insert_sorted n name model ((first, held) ∷ sorted) = ground (
  arith,
  has_node-append n (derived_of name model.columns) (roots_of ((first, held) ∷ sorted)),
  has_node-append n (derived_of first held.columns) (roots_of sorted),
  has_node-append n (derived_of first held.columns) (roots_of (insert_sorted name model sorted)),
  has_node-insert_sorted n name model sorted,
)

has_node-sorted_models :
    (n : Node) (reachable : TextDict SlayerModel)
    → has_node n (roots_of (sorted_models reachable)) ≡ has_node n (roots_of reachable)
unfolding sorted_models roots_of
has_node-sorted_models n [] = refl
has_node-sorted_models n ((name, model) ∷ reachable) = ground (
  arith,
  has_node-insert_sorted n name model (sorted_models reachable),
  has_node-sorted_models n reachable,
  has_node-append n (derived_of name model.columns) (roots_of reachable),
)

get_column-derived_of :
    (model_name name : Text) (columns : List Column) (column : Column)
    → get_column columns name ≡ some column
    → is_trivial_base column ≡ false
    → has_node (model_name, name) (derived_of model_name columns) ≡ true
unfolding get_column derived_of has_node same_node
get_column-derived_of model_name name [] column h k = absurd (cc)
get_column-derived_of model_name name (c ∷ columns) column h k =
    elim (Bool-cases (text_eq c.name name)) [
      | inl same ↦
          let e : is_trivial_base c ≡ false = ap trivial (rw (same, get_column) at h) ∙ k in
          ground (arith, text_eq_iff model_name model_name)
      | inr other ↦
          let rest =
            get_column-derived_of model_name name columns column (rw (other, get_column) at h) k in
          ground (arith)
    ]
  where
    trivial : Option Column → Bool
    trivial none = false
    trivial (some c) = is_trivial_base c

lookup-roots_of :
    (model_name name : Text) (reachable : TextDict SlayerModel) (host : SlayerModel)
    (column : Column)
    → lookup reachable model_name ≡ some host
    → get_column host.columns name ≡ some column
    → is_trivial_base column ≡ false
    → has_node (model_name, name) (roots_of reachable) ≡ true
unfolding lookup roots_of
lookup-roots_of model_name name [] host column h g k = absurd (cc)
lookup-roots_of model_name name ((first, held) ∷ reachable) host column h g k =
    elim (Bool-cases (text_eq first model_name)) [
      | inl same ↦
          let found : get_column held.columns name ≡ some column =
            ap columns (rw (same, lookup) at h) ∙ g in
          let name_eq : first ≡ model_name = (text_eq_iff first model_name).0 same in
          subst (λ key. has_node (key, name) (roots_of ((first, held) ∷ reachable)) ≡ true) name_eq
            (ground
              (arith, get_column-derived_of first name held.columns column found k, append first))
      | inr other ↦
          let rest =
            lookup-roots_of model_name name reachable host column (rw (other, lookup) at h) g k in
          ground (arith, append model_name)
    ]
  where
    columns : Option SlayerModel → Option Column
    columns none = none
    columns (some m) = get_column m.columns name

    append :
        (key : Text)
        → has_node (key, name) (derived_of first held.columns ++ roots_of reachable) ≡ (
            has_node (key, name) (derived_of first held.columns)
            || has_node (key, name) (roots_of reachable))
    append key = has_node-append (key, name) (derived_of first held.columns) (roots_of reachable)

module _ (parse : Text → Option (List ColumnRef)) where
  derived_column :
      (column : Column) (host : SlayerModel) (reachable : TextDict SlayerModel)
      → column_dependencies parse column host reachable ≢ []
      → is_trivial_base column ≡ false
  unfolding column_dependencies
  derived_column column host reachable h = elim (Bool-cases (is_trivial_base column)) [
    | inl trivial ↦ absurd (ground (arith))
    | inr derived ↦ derived
  ]

  -- a column that has dependencies is one of the roots
  pub dependencies-roots_of :
      (reachable : TextDict SlayerModel) (n d : Node)
      → has_node d (node_dependencies parse reachable n) ≡ true
      → has_node n (roots_of (sorted_models reachable)) ≡ true
  unfolding node_dependencies has_node
  dependencies-roots_of reachable (model_name, name) d h =
      elim (Option-cases (lookup reachable model_name)) [
        | inl missing ↦ absurd (ground (arith))
        | inr (host, found) ↦ elim (Option-cases (get_column host.columns name)) [
          | inl missing ↦ absurd (ground (arith))
          | inr (column, held) ↦
              has_node-sorted_models (model_name, name) reachable
              ∙ lookup-roots_of model_name name reachable host column found held
                  (derived_column column host reachable (λ e. absurd (ground (arith))))
        ]
      ]
