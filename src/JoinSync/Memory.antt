-- ===== src/JoinSync/Memory.antt =====
-- A storage for slayer/storage/join_sync.py that keeps its models in a list, for the tests.
use slayer.Prelude.{
  any, true, ◌≡◌, refl, sym, ap, ◌∙◌, ◌&&◌, Option, none, some, List, [], ◌∷◌, map, Bool-cases, inl,
  inr, arith, if◌then◌else◌,
}
use slayer.Prelude.Result.{Result, ok}
use slayer.Prelude.Text.{Text, text_eq, text_eq_iff}
use slayer.JoinSync.{SlayerModel, Backend}
use slayer.JoinSync.Effects.{IsLawful, is_some}

module _ {Other : Type 0} where
  unfoldable pub get_in : List (SlayerModel Other) → Text → Text → Option (SlayerModel Other)
  unfolding text_eq
  get_in [] data_source name = none
  get_in (m ∷ models) data_source name =
      let found = get_in models data_source name in
      if text_eq m.data_source data_source && text_eq m.name name then some m else found

  unfoldable pub delete_in : List (SlayerModel Other) → Text → Text → List (SlayerModel Other)
  unfolding text_eq
  delete_in [] data_source name = []
  delete_in (m ∷ models) data_source name =
      let rest = delete_in models data_source name in
      if text_eq m.data_source data_source && text_eq m.name name then rest else m ∷ rest

  -- the first model of a name
  unfoldable pub resolve_in : List (SlayerModel Other) → Text → Option (Text × Text)
  unfolding text_eq
  resolve_in [] name = none
  resolve_in (m ∷ models) name =
      let found = resolve_in models name in
      if text_eq m.name name then some (m.data_source, m.name) else found

  get_in-delete_in :
      (models : List (SlayerModel Other)) (ds n data_source name : Text)
      → get_in (delete_in models ds n) data_source name ≡ (
          if text_eq ds data_source && text_eq n name then none else get_in models data_source name)
  unfolding get_in delete_in
  get_in-delete_in [] ds n data_source name = ground (arith)
  get_in-delete_in (m ∷ models) ds n data_source name = ground (
    arith,
    get_in-delete_in models ds n data_source name,
    text_eq_iff m.data_source ds,
    text_eq_iff m.name n,
    text_eq_iff m.data_source data_source,
    text_eq_iff m.name name,
    text_eq_iff ds data_source,
    text_eq_iff n name,
  )

  get_in-listed :
      (models : List (SlayerModel Other)) (ds n : Text)
      → is_some (get_in models ds n) ≡ true
      → any {A = Text × Text}
          (λ i. text_eq i.0 ds && text_eq i.1 n)
          (map (λ m. (m.data_source, m.name)) models)
        ≡ true
  unfolding get_in is_some
  get_in-listed [] ds n h = absurd (cc)
  get_in-listed (m ∷ models) ds n h = ground (arith, get_in-listed models ds n)

  get_in_keyed :
      (models : List (SlayerModel Other)) (data_source name : Text) (m : SlayerModel Other)
      → get_in models data_source name ≡ some m
      → (m.data_source ≡ data_source) × (m.name ≡ name)
  unfolding get_in
  get_in_keyed [] data_source name m h = absurd (cc)
  get_in_keyed (k ∷ models) data_source name m h =
      elim (Bool-cases (text_eq k.data_source data_source && text_eq k.name name)) [
        | inl same ↦
            let e : k ≡ m = some_eq k (rw (same, get_in) at h) in
            (
              sym (ap (λ j. j.data_source) e)
                  ∙ (text_eq_iff k.data_source data_source).0 (ground (arith)),
              sym (ap (λ j. j.name) e) ∙ (text_eq_iff k.name name).0 (ground (arith)),
            )
        | inr other ↦ get_in_keyed models data_source name m (rw (other, get_in) at h)
      ]
    where
      some_eq : (j : SlayerModel Other) → some j ≡ some m → j ≡ m
      some_eq j e = cc

  -- `check` stands for what a save validates
  abbrev pub memory : (SlayerModel Other → Result Text (Unit {0})) → Backend Other
  memory check = record {
    State = List (SlayerModel Other);
    Error = Text;
    get_model = get_in;
    check_save = λ models m. check m;
    list_all_model_identities = map (λ m. (m.data_source, m.name));
    save_row = λ models m. m ∷ delete_in models m.data_source m.name;
    resolve_identity = λ models name. ok (resolve_in models name);
    delete_inner = λ models data_source name.
        (is_some (get_in models data_source name), delete_in models data_source name);
  }

  pub memory-IsLawful :
      (check : SlayerModel Other → Result Text (Unit {0})) → IsLawful (memory check)
  unfolding get_in
  memory-IsLawful check = record {
    get-save = λ models m data_source name.
        ground (arith, get_in-delete_in models m.data_source m.name data_source name);
    get-delete = λ models ds n data_source name. get_in-delete_in models ds n data_source name;
    delete-found = λ models ds n. refl;
    lists = λ models ds n stored. get_in-listed models ds n stored;
    get_keyed = λ models data_source name m h. get_in_keyed models data_source name m h;
  }
