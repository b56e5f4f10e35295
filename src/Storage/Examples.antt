-- ===== src/Storage/Examples.antt =====
-- Tests of slayer/storage/base.py and the witnesses of its theorems.
use slayer.Prelude.{◌≡◌, refl, ◌↔◌, true, ◌&&◌, not, none, some, List, [], ◌∷◌, ◌++◌}
use slayer.Prelude.Result.{err, ok}
use slayer.Prelude.Text.{Text, text, member}
use slayer.Storage.{
  Identity, validate_path_component, path_traversal, disallowed_character, outer_whitespace,
  resolve_model_identity, resolve_target_or_none, ambiguous_model, list_models, several_datasources,
  set_datasource_priority, unknown_datasources,
}
use slayer.Storage.Paths.{IsSafe, validate_path_component_iff}
use slayer.Storage.Identity.{Resolved, resolve_model_identity-Resolved}
use slayer.Storage.Rows.{
  Memory, Rows, Draft, canonical_of, delete_model, save_memory, bad_memory_id,
}
use slayer.Storage.Cascade.{IsCleared, Without, delete_model-IsCleared}
use slayer.Storage.Embeddings.{delete_embeddings_for_canonical}
use slayer.Storage.Names.{goes_with, part, delete_embeddings-canonical_of}

safe_name : validate_path_component (text "orders_2024") ≡ ok tt
unfolding validate_path_component
safe_name = refl

dotted_name :
    validate_path_component (text "prod.db") ≡ err (disallowed_character (text "prod.db") b'.')
unfolding validate_path_component
dotted_name = refl

escaping_name : validate_path_component (text "..") ≡ err (path_traversal (text ".."))
unfolding validate_path_component
escaping_name = refl

padded_name : validate_path_component (text " a") ≡ err (outer_whitespace (text " a"))
unfolding validate_path_component
padded_name = refl

abbrev identities : List Identity
identities = (text "a", text "orders") ∷ (text "b", text "orders") ∷ (text "b", text "items") ∷ []

one_candidate :
    resolve_model_identity identities [] (text "items") none ≡ ok (some (text "b", text "items"))
unfolding resolve_model_identity
one_candidate = refl

by_order :
    resolve_model_identity identities (text "c" ∷ text "b" ∷ []) (text "orders") none
    ≡ ok (some (text "b", text "orders"))
unfolding resolve_model_identity
by_order = refl

no_order :
    resolve_model_identity identities [] (text "orders") none
    ≡ err (ambiguous_model (text "orders") (text "a" ∷ text "b" ∷ []))
unfolding resolve_model_identity
no_order = refl

lists : list_models identities [] (some (text "b")) ≡ ok (text "items" ∷ text "orders" ∷ [])
unfolding list_models
lists = refl

lists_several :
    list_models identities [] none ≡ err (several_datasources (text "a" ∷ text "b" ∷ []))
unfolding list_models
lists_several = refl

unknown_priority :
    set_datasource_priority (text "a" ∷ []) (text "b" ∷ [])
    ≡ err (unknown_datasources (text "b" ∷ []))
unfolding set_datasource_priority
unknown_priority = refl

abbrev note : Text → List Text → Memory Text
note id entities = record {
  id = id;
  learning = text "x";
  description = none;
  entities = entities;
  query = none;
  created_at = 3;
}

abbrev rows : Rows Text
rows = record {
  identities = identities;
  datasources = text "a" ∷ text "b" ∷ [];
  priority = [];
  memories =
      note (text "1") (text "a.orders.total" ∷ text "b.orders" ∷ [])
      ∷ note (text "2") (text "memory:1" ∷ [])
      ∷ [];
  embeddings = text "a.orders" ∷ text "a.orders_old" ∷ text "memory:1" ∷ text "memory:1.x" ∷ [];
}

abbrev rows_after : Rows Text
rows_after = record rows {
  identities = (text "b", text "orders") ∷ (text "b", text "items") ∷ [];
  memories = note (text "1") (text "b.orders" ∷ []) ∷ note (text "2") (text "memory:1" ∷ []) ∷ [];
  embeddings = text "a.orders_old" ∷ text "memory:1" ∷ text "memory:1.x" ∷ [];
}

deletes_model : delete_model rows (text "orders") (some (text "a")) ≡ ok (true, rows_after)
unfolding delete_model
deletes_model = refl

-- the embedding of the memory `1.x` goes with the memory `1`
abbrev rows_without_memory : Rows Text
rows_without_memory = record rows {
  memories = note (text "2") [] ∷ [];
  embeddings = text "a.orders" ∷ text "a.orders_old" ∷ [];
}

abbrev draft : Draft Text
draft = record { learning = text "y"; description = none; entities = []; query = none }

abbrev updated : Memory Text
updated = record (note (text "1") []) { learning = text "y" }

-- an update keeps the time of creation
updates :
    save_memory (λ s. s) true (λ memories. text "9") rows draft (some (text "1")) 8
    ≡ ok (updated, record rows { memories = updated ∷ note (text "2") (text "memory:1" ∷ []) ∷ [] })
unfolding save_memory
updates = refl

bad_id :
    save_memory (λ s. s) true (λ memories. text "9") rows draft (some (text "a/b")) 8
    ≡ err (bad_memory_id (text "a/b"))
unfolding save_memory
bad_id = refl

validate_path_component_iff_example :
    (validate_path_component (text "orders") ≡ ok tt) ↔ IsSafe (text "orders")
validate_path_component_iff_example = validate_path_component_iff (text "orders")

resolve_model_identity-Resolved_example :
    Resolved identities
      (text "b" ∷ [])
      (text "orders")
      none
      (resolve_model_identity identities (text "b" ∷ []) (text "orders") none)
resolve_model_identity-Resolved_example =
    resolve_model_identity-Resolved identities (text "b" ∷ []) (text "orders") none

delete_model-IsCleared_example :
    (identity : Identity) × (resolve_target_or_none identities [] (text "orders") (some (text "a"))
      ≡ ok (some identity))
    × Without identity rows rows_after
    × IsCleared (canonical_of identity) rows rows_after
delete_model-IsCleared_example =
    delete_model-IsCleared rows rows_after (text "orders") (some (text "a")) deletes_model

abbrev stored_ids : List Text
stored_ids = text "a.It_em.x" ∷ text "a.It_em" ∷ text "a.item.x" ∷ []

-- the escaped `_` matches itself only, and of a model in another case the parts go
deletes_below :
    delete_embeddings_for_canonical (text "a.it_em") stored_ids
    ≡ text "a.It_em" ∷ text "a.item.x" ∷ []
unfolding delete_embeddings_for_canonical
deletes_below = refl

delete_embeddings-canonical_of_example :
    member
      (canonical_of (text "a", text "It_em") ++ text ".x")
      (delete_embeddings_for_canonical (canonical_of (text "a", text "it_em")) stored_ids)
    ≡ (member (canonical_of (text "a", text "It_em") ++ text ".x") stored_ids
        && not (goes_with (text ".x") (text "a") (text "it_em") (text "a") (text "It_em")))
delete_embeddings-canonical_of_example =
    delete_embeddings-canonical_of (text "a") (text "it_em") (text "a") (text "It_em") (text ".x")
      stored_ids refl refl refl refl (part (text "x"))
