-- ===== src/JoinSync.antt =====
-- slayer/storage/join_sync.py: the storage wrapper that keeps inner joins in both directions.
-- The wrapped storage is an interface. What it returns is a copy, so an assignment to a field of it
-- has no effect before it is saved. A set of names is a list.
pub mod Edits
pub mod Effects
pub mod Save
pub mod Memory
pub mod Symmetry
pub mod Delete
pub mod Reconcile
mod Examples
use slayer.Prelude.{
  Bool, true, false, ◌&&◌, not, Option, none, some, List, [], ◌∷◌, ◌++◌, map, length, ltb, keep_if,
  if◌then◌else◌,
}
use slayer.Prelude.Result.{Result, ok, ◌>>=◌, ◌>>◌}
use slayer.Prelude.Text.{Text, text_eq, member}

-- slayer/core/enums.py
pub data JoinType : Type 0 where
  left : JoinType
  inner : JoinType

-- `Other` holds what this code does not read: of a join its description and metadata, which a new
-- one lacks, and of a model its other fields.
pub record ModelJoin (Other : Type 0) : Type 0 where
  pub target_model : Text
  pub join_pairs : List (Text × Text)
  pub join_type : JoinType
  pub other : Option Other

pub record SlayerModel (Other : Type 0) : Type 0 where
  pub name : Text
  pub data_source : Text
  pub joins : List (ModelJoin Other)
  pub other : Other

-- the wrapped `StorageBackend`: a lookup under a datasource and a name, the resolver of a bare name,
-- the checks of a save, the list of what is stored, the write of one model, and `delete_model` for a
-- datasource and a name, with its result
pub record Backend (Other : Type 0) : Type 1 where
  pub State : Type 0
  pub Error : Type 0
  pub get_model : State → Text → Text → Option (SlayerModel Other)
  pub check_save : State → SlayerModel Other → Result Error (Unit {0})
  pub list_all_model_identities : State → List (Text × Text)
  pub save_row : State → SlayerModel Other → State
  pub resolve_identity : State → Text → Result Error (Option (Text × Text))
  pub delete_inner : State → Text → Text → Bool × State

unfoldable pub is_inner : JoinType → Bool
is_inner left = false
is_inner inner = true

unfoldable pub same_pairs : List (Text × Text) → List (Text × Text) → Bool
unfolding text_eq
same_pairs [] [] = true
same_pairs ((a, b) ∷ ps) ((c, d) ∷ qs) = text_eq a c && (text_eq b d && same_pairs ps qs)
same_pairs _ _ = false

-- `[[tgt, src] for src, tgt in pairs]`
unfoldable pub reverse_pairs : List (Text × Text) → List (Text × Text)
reverse_pairs pairs = map (λ p. (p.1, p.0)) pairs

module _ {Other : Type 0} where
  -- `j.target_model == name and j.join_type == JoinType.INNER`
  unfoldable pub is_back : Text → ModelJoin Other → Bool
  unfolding text_eq is_inner
  is_back name j = text_eq j.target_model name && is_inner j.join_type

  -- `next((j for j in joins if ...), None)`
  unfoldable pub find_back : Text → List (ModelJoin Other) → Option (ModelJoin Other)
  unfolding is_back
  find_back name [] = none
  find_back name (j ∷ joins) =
      let found = find_back name joins in if is_back name j then some j else found

  -- the joins after `existing.join_pairs = pairs`
  unfoldable pub set_back :
      Text → List (Text × Text) → List (ModelJoin Other) → List (ModelJoin Other)
  unfolding is_back
  set_back name pairs [] = []
  set_back name pairs (j ∷ joins) =
      let rest = set_back name pairs joins in
      if is_back name j then (record j { join_pairs = pairs }) ∷ joins else j ∷ rest

  abbrev pub new_back : Text → List (Text × Text) → ModelJoin Other
  new_back name pairs = record {
    target_model = name;
    join_pairs = pairs;
    join_type = inner;
    other = none;
  }

  -- the target that is saved; `none` where it needs no save
  unfoldable pub reversed :
      Text
      → List (Text × Text)
      → SlayerModel Other
      → Option (ModelJoin Other)
      → Option (SlayerModel Other)
  unfolding set_back same_pairs
  reversed name pairs target (some existing) =
      if same_pairs existing.join_pairs pairs
      then none
      else some (record target { joins = set_back name pairs target.joins })
  reversed name pairs target none =
      some (record target { joins = target.joins ++ new_back name pairs ∷ [] })

  -- whether an inner join is to be mirrored: it does not lead to the model itself
  unfoldable pub is_mirrored : Text → ModelJoin Other → Bool
  unfolding is_inner text_eq
  is_mirrored name j = is_inner j.join_type && not (text_eq j.target_model name)

  -- `[j for j in joins if not (...)]`
  unfoldable pub drop_back : Text → List (ModelJoin Other) → List (ModelJoin Other)
  unfolding is_back
  drop_back name joins = keep_if (λ j. not (is_back name j)) joins

  -- `{j.target_model for j in joins if ...}`
  unfoldable pub inner_targets : Text → List (ModelJoin Other) → List Text
  unfolding is_mirrored
  inner_targets name [] = []
  inner_targets name (j ∷ joins) =
      let rest = inner_targets name joins in
      if is_mirrored name j then j.target_model ∷ rest else rest

-- `old_targets - new_targets`
unfoldable pub without : List Text → List Text → List Text
unfolding member
without names others = keep_if (λ n. not (member n others)) names

module _ {Other : Type 0} (B : Backend Other) where
  -- `storage.save_model(target)`, with its checks
  unfoldable pub save_model : B.State → SlayerModel Other → Result B.Error B.State
  save_model s m = B.check_save s m >> ok (B.save_row s m)

  unfoldable pub save_if : B.State → Option (SlayerModel Other) → Result B.Error B.State
  unfolding save_model
  save_if s none = ok s
  save_if s (some target) = save_model s target

  -- one join of `_mirror_inner_joins`, for the target that the storage returns
  unfoldable pub mirror_to :
      SlayerModel Other
      → ModelJoin Other
      → B.State
      → Option (SlayerModel Other)
      → Result B.Error B.State
  unfolding save_if reversed find_back reverse_pairs
  mirror_to model join s none = ok s
  mirror_to model join s (some target) = save_if s (
      reversed model.name (reverse_pairs join.join_pairs) target
        (find_back model.name target.joins))

  unfoldable pub mirror_join :
      SlayerModel Other → ModelJoin Other → B.State → Result B.Error B.State
  unfolding mirror_to is_mirrored
  mirror_join model join s =
      if is_mirrored model.name join
      then mirror_to model join s (B.get_model s model.data_source join.target_model)
      else ok s

  unfoldable pub mirror_joins :
      SlayerModel Other → List (ModelJoin Other) → B.State → Result B.Error B.State
  unfolding mirror_join
  mirror_joins model [] s = ok s
  mirror_joins model (join ∷ joins) s = mirror_join model join s >>= mirror_joins model joins

  unfoldable pub mirror_inner_joins : SlayerModel Other → B.State → Result B.Error B.State
  unfolding mirror_joins
  mirror_inner_joins model s = mirror_joins model model.joins s

  -- one target of `_remove_inner_joins_to`
  unfoldable pub remove_from : Text → B.State → Option (SlayerModel Other) → Result B.Error B.State
  unfolding save_model drop_back
  remove_from source_name s none = ok s
  remove_from source_name s (some target) =
      let joins = drop_back source_name target.joins in
      if ltb (length joins) (length target.joins)
      then save_model s (record target { joins = joins })
      else ok s

  unfoldable pub remove_inner_joins_to : Text → Text → List Text → B.State → Result B.Error B.State
  unfolding remove_from
  remove_inner_joins_to source_name data_source [] s = ok s
  remove_inner_joins_to source_name data_source (target_name ∷ names) s =
      remove_from source_name s (B.get_model s data_source target_name)
      >>= remove_inner_joins_to source_name data_source names

  -- `_reconcile_all_inner_joins`, over the identities that are listed
  unfoldable pub reconcile_one : Option (SlayerModel Other) → B.State → Result B.Error B.State
  unfolding mirror_inner_joins
  reconcile_one none s = ok s
  reconcile_one (some model) s = mirror_inner_joins model s

  unfoldable pub reconcile_all_inner_joins : List (Text × Text) → B.State → Result B.Error B.State
  unfolding reconcile_one
  reconcile_all_inner_joins [] s = ok s
  reconcile_all_inner_joins ((data_source, name) ∷ identities) s =
      reconcile_one (B.get_model s data_source name) s >>= reconcile_all_inner_joins identities

  -- the clean-up of `_save_model_impl`, for the version that was stored before
  unfoldable pub clean_up :
      SlayerModel Other → Option (SlayerModel Other) → B.State → Result B.Error B.State
  unfolding remove_inner_joins_to without inner_targets
  clean_up model none s = ok s
  clean_up model (some old) s =
      remove_inner_joins_to model.name model.data_source
        (without (inner_targets old.name old.joins) (inner_targets model.name model.joins)) s

  -- `_save_model_impl`, once the storage is reconciled
  unfoldable pub save_model_impl : SlayerModel Other → B.State → Result B.Error B.State
  unfolding mirror_inner_joins clean_up
  save_model_impl model s =
      mirror_inner_joins model (B.save_row s model)
      >>= clean_up model (B.get_model s model.data_source model.name)

  -- what `delete_model` does after the deletion in the wrapped storage, for its result
  unfoldable pub after_delete :
      Text → Option (SlayerModel Other) → Bool × B.State → Result B.Error (Bool × B.State)
  unfolding remove_inner_joins_to inner_targets
  after_delete name none (result, s) = ok (result, s)
  after_delete name (some model) (false, s) = ok (false, s)
  after_delete name (some model) (true, s) =
      remove_inner_joins_to name model.data_source (inner_targets name model.joins) s >>= λ t.
      ok (true, t)

  -- `delete_model` for a datasource and a name, once the storage is reconciled
  unfoldable pub delete_at : Text → Text → B.State → Result B.Error (Bool × B.State)
  unfolding after_delete
  delete_at name data_source s =
      after_delete name (B.get_model s data_source name) (B.delete_inner s data_source name)

  unfoldable pub delete_identity : Option (Text × Text) → B.State → Result B.Error (Bool × B.State)
  unfolding delete_at
  delete_identity none s = ok (false, s)
  delete_identity (some (data_source, name)) s = delete_at name data_source s

  unfoldable pub delete_target : Text → Option Text → B.State → Result B.Error (Bool × B.State)
  unfolding delete_at delete_identity
  delete_target name (some data_source) s = delete_at name data_source s
  delete_target name none s = B.resolve_identity s name >>= λ identity. delete_identity identity s

  -- `_ensure_reconciled`, for the flag that is set at the first access
  unfoldable pub ensure_reconciled : Bool → B.State → Result B.Error B.State
  unfolding reconcile_all_inner_joins
  ensure_reconciled true s = ok s
  ensure_reconciled false s = reconcile_all_inner_joins (B.list_all_model_identities s) s

  unfoldable pub wrapper_save : Bool → SlayerModel Other → B.State → Result B.Error B.State
  unfolding ensure_reconciled save_model_impl
  wrapper_save reconciled model s = ensure_reconciled reconciled s >>= save_model_impl model

  unfoldable pub delete_model :
      Bool → Text → Option Text → B.State → Result B.Error (Bool × B.State)
  unfolding ensure_reconciled delete_target
  delete_model reconciled name data_source s =
      ensure_reconciled reconciled s >>= delete_target name data_source
