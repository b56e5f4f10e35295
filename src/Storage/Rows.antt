-- ===== src/Storage/Rows.antt =====
-- slayer/storage/base.py: what a deletion takes with it, and the memories. The rows that a backend
-- keeps are lists: those of a memory and of an embedding are found by their ids. `Query` is the type
-- of the queries that memories carry.
use slayer.Prelude.{
  ℕ, Bool, true, false, ◌&&◌, ◌||◌, not, any, Option, none, some, List, [], ◌∷◌, ◌++◌, map, keep_if,
  eqb, ltb, starts_with, if◌then◌else◌,
}
use slayer.Prelude.Result.{Result, err, ok, ◌>>=◌, ◌>>◌, unless_raise}
use slayer.Prelude.Text.{Text, text, text_eq, is_space}
use slayer.Storage.Embeddings.{delete_embeddings_for_canonical}
use slayer.Storage.{
  StorageError, has_char, Identity, resolve_target_or_none, validate_path_component,
  find_case_colliding_id,
}

pub record Memory (Query : Type 0) : Type 0 where
  pub id : Text
  pub learning : Text
  pub description : Option Text
  pub entities : List Text
  pub query : Option Query
  pub created_at : ℕ

-- of an embedding only its canonical id is read
pub record Rows (Query : Type 0) : Type 0 where
  pub identities : List Identity
  pub datasources : List Text
  pub priority : List Text
  pub memories : List (Memory Query)
  pub embeddings : List Text

-- `MEMORY_CANONICAL_PREFIX`
abbrev pub memory_prefix : Text
memory_prefix = text "memory:"

-- what a caller of `save_memory` gives beside the id
pub record Draft (Query : Type 0) : Type 0 where
  pub learning : Text
  pub description : Option Text
  pub entities : List Text
  pub query : Option Query

-- what `_validate_memory_id_charset` and the memory operations raise
pub data MemoryError : Type 0 where
  bad_memory_id : Text → MemoryError
  memory_id_collision : Text → Text → MemoryError
  memory_not_found : Text → MemoryError

-- `_entity_matches_cascade`
unfoldable pub entity_matches_cascade : Text → Text → Bool → Bool
unfolding text_eq starts_with
entity_matches_cascade entry canonical_id true = text_eq entry canonical_id
entity_matches_cascade entry canonical_id false =
    text_eq entry canonical_id || starts_with (canonical_id ++ text ".") entry

-- the charset of a memory's id
abbrev forbidden_id_chars : List ℕ
forbidden_id_chars = b':' ∷ b'/' ∷ b'?' ∷ b'#' ∷ b'\\' ∷ []

unfoldable pub is_memory_id : Text → Bool
unfolding is_space
is_memory_id [] = false
is_memory_id (c ∷ value) =
    not (any (λ ch. has_char ch (c ∷ value)) forbidden_id_chars)
    && not (any (λ d. is_space d || (ltb d 32 || eqb d 127)) (c ∷ value))

unfoldable pub is_memory_ref : Text → Bool
unfolding starts_with
is_memory_ref canonical_id = starts_with memory_prefix canonical_id

unfoldable pub keep_entities : Text → List Text → List Text
unfolding entity_matches_cascade is_memory_ref
keep_entities canonical_id entities =
    keep_if (λ e. not (entity_matches_cascade e canonical_id (is_memory_ref canonical_id))) entities

-- `fresh_kept == fresh.entities`
unfoldable pub same_texts : List Text → List Text → Bool
unfolding text_eq
same_texts [] [] = true
same_texts (s ∷ ss) (t ∷ ts) = text_eq s t && same_texts ss ts
same_texts _ _ = false

unfoldable pub no_id_collision : Text → Option Text → Result MemoryError (Unit {0})
no_id_collision id none = ok tt
no_id_collision id (some existing) = err (memory_id_collision id existing)

module _ {Query : Type 0} where
  unfoldable pub get_row : List (Memory Query) → Text → Option (Memory Query)
  unfolding text_eq
  get_row [] id = none
  get_row (m ∷ memories) id =
      let found = get_row memories id in if text_eq m.id id then some m else found

  -- `_save_memory_row`: an upsert by id
  unfoldable pub save_row : List (Memory Query) → Memory Query → List (Memory Query)
  unfolding text_eq
  save_row [] new = new ∷ []
  save_row (m ∷ memories) new =
      let rest = save_row memories new in if text_eq m.id new.id then new ∷ memories else m ∷ rest

  unfoldable pub delete_memory_row : List (Memory Query) → Text → List (Memory Query)
  unfolding text_eq
  delete_memory_row memories id = keep_if (λ m. not (text_eq m.id id)) memories

  -- `_memory_has_cascade_candidate`
  unfoldable pub has_cascade_candidate : Text → Memory Query → Bool
  unfolding entity_matches_cascade is_memory_ref
  has_cascade_candidate canonical_id m =
      any (λ e. entity_matches_cascade e canonical_id (is_memory_ref canonical_id)) m.entities

  -- `_rewrite_memory_dropping_entity`, for the row that is fetched again
  unfoldable pub rewrite_memory :
      Text → List (Memory Query) → Option (Memory Query) → List (Memory Query)
  unfolding save_row keep_entities same_texts
  rewrite_memory canonical_id memories none = memories
  rewrite_memory canonical_id memories (some fresh) =
      let kept = keep_entities canonical_id fresh.entities in
      if same_texts kept fresh.entities
      then memories
      else save_row memories (record fresh { entities = kept })

  -- the loop over the memories that were listed
  unfoldable pub strip_each : Text → List (Memory Query) → List (Memory Query) → List (Memory Query)
  unfolding rewrite_memory has_cascade_candidate get_row
  strip_each canonical_id [] memories = memories
  strip_each canonical_id (m ∷ listed) memories = strip_each canonical_id listed (
      if has_cascade_candidate canonical_id m
      then rewrite_memory canonical_id memories (get_row memories m.id)
      else memories)

  unfoldable pub strip_dangling_entities_from_memories :
      Text → List (Memory Query) → List (Memory Query)
  unfolding strip_each
  strip_dangling_entities_from_memories [] memories = memories
  strip_dangling_entities_from_memories (c ∷ canonical_id) memories =
      strip_each (c ∷ canonical_id) memories memories

  -- the rows after the two cascades of a deletion
  unfoldable pub cascade : Text → Rows Query → Rows Query
  unfolding delete_embeddings_for_canonical strip_dangling_entities_from_memories
  cascade canonical_id rows = record rows {
    embeddings = delete_embeddings_for_canonical canonical_id rows.embeddings;
    memories = strip_dangling_entities_from_memories canonical_id rows.memories;
  }

-- `(data_source, name) == identity`
unfoldable pub same_identity : Identity → Identity → Bool
unfolding text_eq
same_identity (ds, name) (ds', name') = text_eq ds ds' && text_eq name name'

-- `f"{data_source}.{name}"`
abbrev pub canonical_of : Identity → Text
canonical_of (ds, name) = ds ++ text "." ++ name

unfoldable pub delete_model_row : Identity → List Identity → List Identity
unfolding same_identity
delete_model_row identity identities = keep_if (λ i. not (same_identity i identity)) identities

module _ {Query : Type 0} where
  unfoldable pub delete_resolved : Rows Query → Option Identity → Bool × Rows Query
  unfolding delete_model_row cascade same_identity
  delete_resolved rows none = (false, rows)
  delete_resolved rows (some identity) =
      if any (λ i. same_identity i identity) rows.identities
      then (
        true,
        cascade (canonical_of identity)
            (record rows { identities = delete_model_row identity rows.identities }),
      )
      else (false, rows)

  -- `delete_model`
  unfoldable pub delete_model :
      Rows Query → Text → Option Text → Result StorageError (Bool × Rows Query)
  unfolding resolve_target_or_none delete_resolved
  delete_model rows name data_source =
      resolve_target_or_none rows.identities rows.priority name data_source >>= λ target.
      ok (delete_resolved rows target)

  -- `delete_datasource`
  unfoldable pub delete_datasource : Rows Query → Text → Result StorageError (Bool × Rows Query)
  unfolding validate_path_component cascade text_eq
  delete_datasource rows name =
      validate_path_component name
      >> ok (
          if any (λ ds. text_eq ds name) rows.datasources
          then (
            true,
            cascade name (record rows {
              datasources = keep_if (λ ds. not (text_eq ds name)) rows.datasources;
            }),
          )
          else (false, rows))

  abbrev pub memory_of : Text → Draft Query → ℕ → Memory Query
  memory_of id draft created_at = record {
    id = id;
    learning = draft.learning;
    description = draft.description;
    entities = draft.entities;
    query = draft.query;
    created_at = created_at;
  }

  -- the time of the row that is replaced, or the present
  unfoldable pub created : Option (Memory Query) → ℕ → ℕ
  created none now = now
  created (some existing) now = existing.created_at

  unfoldable pub check_id :
      (Text → Text) → Bool → List (Memory Query) → Text → Result MemoryError (Unit {0})
  unfolding is_memory_id no_id_collision find_case_colliding_id
  check_id casefold false memories id = unless_raise (is_memory_id id) (bad_memory_id id)
  check_id casefold true memories id =
      unless_raise (is_memory_id id) (bad_memory_id id)
      >> no_id_collision id (find_case_colliding_id casefold id (map (λ m. m.id) memories))

  abbrev pub store_memory :
      Rows Query → Memory Query → Result MemoryError (Memory Query × Rows Query)
  store_memory rows memory = ok (memory, record rows { memories = save_row rows.memories memory })

  -- `save_memory`, for the case folding, whether ids collide as file names, and `_next_memory_seq`
  unfoldable pub save_memory :
      (Text → Text)
      → Bool
      → (List (Memory Query) → Text)
      → Rows Query
      → Draft Query
      → Option Text
      → ℕ
      → Result MemoryError (Memory Query × Rows Query)
  unfolding check_id created get_row save_row
  save_memory casefold collide next_memory_seq rows draft none now =
      store_memory rows (memory_of (next_memory_seq rows.memories) draft now)
  save_memory casefold collide next_memory_seq rows draft (some id) now =
      check_id casefold collide rows.memories id
      >> store_memory rows (memory_of id draft (created (get_row rows.memories id) now))

  -- `delete_memory`
  unfoldable pub delete_memory : Rows Query → Text → Result MemoryError (Rows Query)
  unfolding delete_memory_row cascade get_row
  delete_memory rows memory_id = elim (get_row rows.memories memory_id) [
    | none ↦ err (memory_not_found memory_id)
    | some m ↦ ok (
        cascade (memory_prefix ++ memory_id)
          (record rows { memories = delete_memory_row rows.memories memory_id }))
  ]
