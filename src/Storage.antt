-- ===== src/Storage.antt =====
-- slayer/storage/base.py: what every storage backend shares. The names of paths, the lookup of a
-- model by its bare name, the lists of models, and the priority of datasources. `casefold` is
-- Python's, a parameter.
pub mod Paths
pub mod Identity
pub mod Embeddings
pub mod Rows
pub mod Strip
pub mod Cascade
pub mod Names
mod Examples
use slayer.Prelude.{
  ℕ, Bool, ◌&&◌, ◌||◌, not, any, Option, none, some, List, [], ◌∷◌, ◌++◌, keep_if, map, eqb,
  starts_with, if◌then◌else◌,
}
use slayer.Prelude.Result.{Result, err, ok, ◌>>◌, unless_raise}
use slayer.Prelude.Text.{Text, text, text_eq, sort_texts, strip, member}

-- the errors, by the check that raises them
pub data StorageError : Type 0 where
  not_a_name : Text → StorageError
  outer_whitespace : Text → StorageError
  path_traversal : Text → StorageError
  disallowed_character : Text → ℕ → StorageError
  ambiguous_model : Text → List Text → StorageError
  unknown_data_source : Text → StorageError
  unknown_datasources : List Text → StorageError
  several_datasources : List Text → StorageError
  id_collision : Text → Text → StorageError

-- `_PATH_COMPONENT_DISALLOWED`
abbrev pub path_component_disallowed : List ℕ
path_component_disallowed = b'/' ∷ b'\\' ∷ 0 ∷ b'.' ∷ []

-- `ch in value`
abbrev pub has_char : ℕ → Text → Bool
has_char ch value = any (λ c. eqb c ch) value

-- `part in value`
unfoldable pub contains : Text → Text → Bool
unfolding starts_with
contains part [] = starts_with part []
contains part (c ∷ value) = starts_with part (c ∷ value) || contains part value

-- the loop over the disallowed characters
unfoldable pub first_disallowed : List ℕ → Text → Option ℕ
first_disallowed [] value = none
first_disallowed (ch ∷ chs) value =
    let rest = first_disallowed chs value in if has_char ch value then some ch else rest

unfoldable pub check_characters : Text → Option ℕ → Result StorageError (Unit {0})
check_characters value none = ok tt
check_characters value (some ch) = err (disallowed_character value ch)

-- `value == ".." or value.startswith("..") or "/.." in value or "\\.." in value`
unfoldable pub is_traversal : Text → Bool
unfolding text_eq starts_with contains
is_traversal value =
    text_eq value (text "..")
    || (starts_with (text "..") value
        || (contains (text "/..") value || contains (text "\\..") value))

-- `not value or not value.strip()`
unfoldable pub is_blank_name : Text → Bool
unfolding strip text_eq
is_blank_name value = text_eq value [] || text_eq (strip value) []

unfoldable pub validate_path_component : Text → Result StorageError (Unit {0})
unfolding is_blank_name strip text_eq is_traversal first_disallowed check_characters
validate_path_component value =
    unless_raise (not (is_blank_name value)) (not_a_name value)
    >> (unless_raise (text_eq (strip value) value) (outer_whitespace value)
        >> (unless_raise (not (is_traversal value)) (path_traversal value)
            >> check_characters value (first_disallowed path_component_disallowed value)))

-- `_find_case_colliding_id`
unfoldable pub find_case_colliding_id : (Text → Text) → Text → List Text → Option Text
unfolding text_eq
find_case_colliding_id casefold candidate [] = none
find_case_colliding_id casefold candidate (entry ∷ existing) =
    let rest = find_case_colliding_id casefold candidate existing in
    if not (text_eq entry candidate) && text_eq (casefold entry) (casefold candidate)
    then some entry
    else rest

-- a saved `(data_source, name)`
abbrev pub Identity : Type 0
Identity = Text × Text

-- `[ds for ds, n in identities if n == name]`
unfoldable pub candidates : List Identity → Text → List Text
unfolding text_eq
candidates [] name = []
candidates ((ds, n) ∷ identities) name =
    let rest = candidates identities name in if text_eq n name then ds ∷ rest else rest

-- the first datasource of the priority list that has the name
unfoldable pub first_in : List Text → List Text → Option Text
unfolding member
first_in [] found = none
first_in (ds ∷ priority) found =
    let rest = first_in priority found in if member ds found then some ds else rest

unfoldable pub by_priority : Text → List Text → Option Text → Result StorageError (Option Identity)
by_priority name found none = err (ambiguous_model name found)
by_priority name found (some ds) = ok (some (ds, name))

-- `prefer_data_source is not None and prefer_data_source in candidates`
unfoldable pub preferred : Option Text → List Text → Option Text
unfolding member
preferred none found = none
preferred (some ds) found = if member ds found then some ds else none

unfoldable pub among_several :
    Text → List Text → List Text → Option Text → Result StorageError (Option Identity)
unfolding first_in by_priority
among_several name found priority (some ds) = ok (some (ds, name))
among_several name found priority none = by_priority name found (first_in priority found)

unfoldable pub choose :
    Text → List Text → Option Text → List Text → Result StorageError (Option Identity)
unfolding among_several preferred
choose name priority prefer [] = ok none
choose name priority prefer (ds ∷ []) = ok (some (ds, name))
choose name priority prefer (ds ∷ ds' ∷ found) =
    among_several name (ds ∷ ds' ∷ found) priority (preferred prefer (ds ∷ ds' ∷ found))

unfoldable pub resolve_model_identity :
    List Identity → List Text → Text → Option Text → Result StorageError (Option Identity)
unfolding choose candidates
resolve_model_identity identities priority name prefer =
    choose name priority prefer (candidates identities name)

-- `_resolve_target_or_none`
unfoldable pub resolve_target_or_none :
    List Identity → List Text → Text → Option Text → Result StorageError (Option Identity)
unfolding validate_path_component resolve_model_identity
resolve_target_or_none identities priority name none =
    validate_path_component name >> resolve_model_identity identities priority name none
resolve_target_or_none identities priority name (some ds) =
    validate_path_component name >> (validate_path_component ds >> ok (some (ds, name)))

-- `[name for ds, name in identities if ds == data_source]`
unfoldable pub names_in : List Identity → Text → List Text
unfolding text_eq
names_in [] data_source = []
names_in ((ds, n) ∷ identities) data_source =
    let rest = names_in identities data_source in if text_eq ds data_source then n ∷ rest else rest

-- `{ds for ds, _ in identities}`
unfoldable pub sources_of : List Identity → List Text
unfolding member
sources_of [] = []
sources_of ((ds, n) ∷ identities) =
    let rest = sources_of identities in if member ds rest then rest else ds ∷ rest

-- without a datasource, by the datasources that hold models
unfoldable pub list_only : List Identity → List Text → Result StorageError (List Text)
unfolding sort_texts
list_only identities [] = ok []
list_only identities (ds ∷ []) = ok (sort_texts (map (λ i. i.1) identities))
list_only identities (ds ∷ ds' ∷ sources) =
    err (several_datasources (sort_texts (ds ∷ ds' ∷ sources)))

unfoldable pub list_models :
    List Identity → List Text → Option Text → Result StorageError (List Text)
unfolding sources_of list_only names_in sort_texts member
list_models identities datasources none = list_only identities (sources_of identities)
list_models identities datasources (some ds) =
    if member ds datasources || member ds (sources_of identities)
    then ok (sort_texts (names_in identities ds))
    else err (unknown_data_source ds)

-- `set_datasource_priority`, with the list that is stored
unfoldable pub set_datasource_priority : List Text → List Text → Result StorageError (List Text)
unfolding member
set_datasource_priority datasources priority =
    elim (keep_if (λ p. not (member p datasources)) priority) [
      | [] ↦ ok priority
      | p ∷ unknown ↦ err (unknown_datasources (p ∷ unknown))
    ]

unfoldable pub no_collision : Text → Option Text → Result StorageError (Unit {0})
no_collision id none = ok tt
no_collision id (some existing) = err (id_collision id existing)

-- `_check_model_identity_collision`
unfoldable pub check_model_identity_collision :
    (Text → Text) → List Identity → List Text → Identity → Result StorageError (Unit {0})
unfolding no_collision find_case_colliding_id sources_of names_in
check_model_identity_collision casefold identities datasources (ds, name) =
    no_collision ds (find_case_colliding_id casefold ds (sources_of identities ++ datasources))
    >> no_collision name (find_case_colliding_id casefold name (names_in identities ds))
