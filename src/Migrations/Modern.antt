-- ===== src/Migrations/Modern.antt =====
-- What `_model_v4_to_v5` of slayer/storage/v5_migration.py leaves in the columns of a model and of
-- the models inside of it.
use slayer.Prelude.{
  ◌≡◌, refl, sym, subst, Option-cases, none, some, false, inl, inr, if◌then◌else◌, arith,
}
use slayer.Prelude.Text.{Text, text, text_eq, text_eq_iff}
use slayer.Prelude.Result.{ok, ok_eq}
use slayer.Migrations.{Json, string, array, object, Fields, empty, field, get_field}
use slayer.Migrations.Once.{get_field-put_field}
use slayer.Migrations.Legacy.{is_legacy, rewrite_column-modern}
use slayer.Migrations.Inside.{
  In, ColumnOf, own, inline, In-rewrite_columns, In-walk_items, rewrite_item-object,
  walk_query-object, walk_model-object, rewrite_list-array, walk_queries-array,
}
use slayer.Migrations.Convert.{
  rewrite_list, rewrite_model, walk_inline_source_models, walk_queries, walk_source_model,
  walk_model, model_v4_to_v5,
}

-- what a converted dict holds under a key, by what it held
abbrev HeldBy : Fields → Fields → (Json → Json) → Text → Type 0
HeldBy before after f key =
    (held : Json)
    → get_field after key ≡ some held
    → (was : Json) × (get_field before key ≡ some was) × (held ≡ f was)

record Migrated (before after : Fields) : Type 0 where
  columns : HeldBy before after rewrite_list (text "columns")
  queries : HeldBy before after walk_queries (text "source_queries")

get_field-walk_inline :
    (fs : Fields) (key : Text)
    → get_field (walk_inline_source_models fs) key ≡ (elim (get_field fs key) [
      | none ↦ none
      | some j ↦ some (if text_eq key (text "source_queries") then walk_queries j else j)
    ])
unfolding get_field walk_inline_source_models
get_field-walk_inline empty key = refl
get_field-walk_inline (field k v fs) key =
    ground (arith, get_field-walk_inline fs key, text_eq_iff k key)

get_field-walk_source_model :
    (fs : Fields) (key : Text)
    → get_field (walk_source_model fs) key ≡ (elim (get_field fs key) [
      | none ↦ none
      | some j ↦ some (if text_eq key (text "source_model") then walk_model j else j)
    ])
unfolding get_field walk_source_model
get_field-walk_source_model empty key = refl
get_field-walk_source_model (field k v fs) key =
    ground (arith, get_field-walk_source_model fs key, text_eq_iff k key)

get_field-rewrite_model :
    (fs : Fields) (key : Text)
    → get_field (rewrite_model fs) key ≡ (elim (get_field fs key) [
      | none ↦ none
      | some j ↦ some (if text_eq (text "columns") key then rewrite_list j else j)
    ])
unfolding rewrite_model
get_field-rewrite_model fs key = elim (Option-cases (get_field fs (text "columns"))) [
  | inl e ↦ ground (arith, e, text_eq_iff (text "columns") key)
  | inr (cols, e) ↦ ground (
    arith,
    e,
    get_field-put_field fs (text "columns") key (rewrite_list cols),
    text_eq_iff (text "columns") key,
  )
]

HeldBy-map :
    (before after : Fields) (f : Json → Json) (key : Text)
    → get_field after key ≡ (elim (get_field before key) [ none ↦ none | some j ↦ some (f j) ])
    → HeldBy before after f key
HeldBy-map before after f key e held h = elim (Option-cases (get_field before key)) [
  | inl missing ↦ absurd (ground (arith, e, missing, h))
  | inr (was, found) ↦ (was, found, ground (arith, e, found, h))
]

Migrated-inline : (fs : Fields) → Migrated fs (rewrite_model (walk_inline_source_models fs))
unfolding text_eq
Migrated-inline fs =
    let get = λ (key : Text). get_field-rewrite_model (walk_inline_source_models fs) key in
    let walked = λ (key : Text). get_field-walk_inline fs key in
    record {
      columns =
          HeldBy-map fs _ rewrite_list (text "columns")
            (ground (arith, get (text "columns"), walked (text "columns")));
      queries =
          HeldBy-map fs _ walk_queries (text "source_queries")
            (ground (arith, get (text "source_queries"), walked (text "source_queries")));
    }

Migrated-top : (fs : Fields) → Migrated fs (walk_inline_source_models (rewrite_model fs))
unfolding text_eq
Migrated-top fs =
    let get = λ (key : Text). get_field-walk_inline (rewrite_model fs) key in
    let rewritten = λ (key : Text). get_field-rewrite_model fs key in
    record {
      columns =
          HeldBy-map fs _ rewrite_list (text "columns")
            (ground (arith, get (text "columns"), rewritten (text "columns")));
      queries =
          HeldBy-map fs _ walk_queries (text "source_queries")
            (ground (arith, get (text "source_queries"), rewritten (text "source_queries")));
    }

-- an inline model of a walked query was walked and rewritten
source_model-walked :
    (query model : Fields)
    → get_field (walk_source_model query) (text "source_model") ≡ some (object model)
    → (was : Fields) × (model ≡ rewrite_model (walk_inline_source_models was))
unfolding text_eq
source_model-walked query model h = elim (Option-cases (get_field query (text "source_model"))) [
  | inl e ↦ absurd (ground (arith, e, get_field-walk_source_model query (text "source_model")))
  | inr (j, e) ↦
      walk_model-object model j
        (ground (arith, e, get_field-walk_source_model query (text "source_model")))
]

Migrated-modern :
    (before : Fields) {after col : Fields} (t : Text)
    → Migrated before after
    → ColumnOf after col
    → get_field col (text "type") ≡ some (string t)
    → is_legacy t ≡ false
Migrated-modern before t m (own {fs} {col} {cols} e i) h =
    let (was, f, same) = m.columns (array cols) e in
    let (cols', same') = rewrite_list-array cols was same in
    let (j, x) = In-rewrite_columns col cols' (subst (In (object col)) same' i) in
    let (c, y) = rewrite_item-object col j x in
    rewrite_column-modern c t (subst (λ d. get_field d (text "type") ≡ some (string t)) y h)
Migrated-modern before t m (inline {fs} {query} {model} {col} {queries} e i f d) h =
    let (was, g, same) = m.queries (array queries) e in
    let (items, same') = walk_queries-array queries was same in
    let (j, x) = In-walk_items query items (subst (In (object query)) same' i) in
    let (q, y) = walk_query-object query j x in
    let (inner, z) =
      source_model-walked q model
        (subst (λ o. get_field o (text "source_model") ≡ some (object model)) y f) in
    Migrated-modern inner t (subst (Migrated inner) (sym z) (Migrated-inline inner)) d h

-- After the step to version 5 no column that is a dict has a type that version 5 replaces or
-- removes: neither a column of the model nor one of a model inside of its queries, at any depth.
pub model_v4_to_v5-modern :
    (fs out col : Fields) (t : Text)
    → model_v4_to_v5 fs ≡ ok out
    → ColumnOf out col
    → get_field col (text "type") ≡ some (string t)
    → is_legacy t ≡ false
unfolding model_v4_to_v5
model_v4_to_v5-modern fs out col t h c e =
    Migrated-modern fs t (subst (Migrated fs) (ok_eq _ _ h) (Migrated-top fs)) c e
