-- ===== src/JoinSync/Delete.antt =====
-- slayer/storage/join_sync.py: `delete_model` as a whole.
use slayer.Prelude.{
  ◌≡◌, refl, sym, ap, ◌∙◌, Bool, true, false, ◌&&◌, Option, none, some, arith, if◌then◌else◌,
}
use slayer.Prelude.Result.{Result, ok, bind-ok, ok_eq}
use slayer.Prelude.Text.{Text, text_eq, text_eq_iff}
use slayer.JoinSync.{
  SlayerModel, Backend, inner_targets, remove_inner_joins_to, after_delete, delete_at,
  delete_identity, delete_target, ensure_reconciled, delete_model,
}
use slayer.JoinSync.Edits.{without_back}
use slayer.JoinSync.Effects.{is_some, IsLawful, change, get-remove_inner_joins_to}
use slayer.JoinSync.Symmetry.{joins_to}

module _ {Other : Type 0} (B : Backend Other) where
  -- the datasource and the name that a deletion is about
  abbrev pub target_of : B.State → Text → Option Text → Result B.Error (Option (Text × Text))
  target_of s name (some data_source) = ok (some (data_source, name))
  target_of s name none = B.resolve_identity s name

  -- the result of a deletion, and each model after it
  abbrev pub Removed : B.State → B.State → Bool → Option (Text × Text) → Type 0
  Removed s s' gone none =
      (gone ≡ false) × ((ds' n' : Text) → B.get_model s' ds' n' ≡ B.get_model s ds' n')
  Removed s s' gone (some (ds, name)) =
      (gone ≡ is_some (B.get_model s ds name))
      × ((ds' n' : Text)
          → B.get_model s' ds' n' ≡ (
              if text_eq ds ds' && text_eq name n'
              then none
              else change (text_eq ds ds' && joins_to (B.get_model s ds name) name n')
                  (without_back name) (B.get_model s ds' n')))

module _ {Other : Type 0} (B : Backend Other) (L : IsLawful B) where
  module _ (name ds : Text) (s s' : B.State) (gone : Bool) where
    abbrev Deleted : Option (SlayerModel Other) → Type 0
    Deleted found =
        (gone ≡ is_some found)
        × ((ds' n' : Text)
            → B.get_model s' ds' n' ≡ (
                if text_eq ds ds' && text_eq name n'
                then none
                else change (text_eq ds ds' && joins_to found name n') (without_back name)
                    (B.get_model s ds' n')))

    Deleted-some :
        (model : SlayerModel Other) (t : B.State)
        → B.get_model s ds name ≡ some model
        → ((ds' n' : Text)
            → B.get_model t ds' n'
              ≡ (if text_eq ds ds' && text_eq name n' then none else B.get_model s ds' n'))
        → after_delete B name (some model) (true, t) ≡ ok (gone, s')
        → Deleted (some model)
    unfolding after_delete is_some joins_to
    Deleted-some model t found one h =
        let (u, removed, e) =
          bind-ok
            (remove_inner_joins_to B name model.data_source (inner_targets name model.joins) t)
            (λ v. ok (true, v)) h in
        let same = ok_eq (true, u) (gone, s') e in
        let (kd, kn) = L.get_keyed s ds name model found in
        (
          sym (ap (λ (p : Bool × B.State). p.0) same),
          λ ds' n'.
              ap (λ (p : Bool × B.State). B.get_model p.1 ds' n') (sym same)
              ∙ ground (
                arith,
                one ds' n',
                get-remove_inner_joins_to B L name model.data_source
                    (inner_targets name model.joins) t u ds' n' removed,
                kd,
              ),
        )

    Deleted-after :
        (found : Option (SlayerModel Other)) (result : Bool) (t : B.State)
        → B.get_model s ds name ≡ found
        → result ≡ is_some found
        → ((ds' n' : Text)
            → B.get_model t ds' n'
              ≡ (if text_eq ds ds' && text_eq name n' then none else B.get_model s ds' n'))
        → after_delete B name found (result, t) ≡ ok (gone, s')
        → Deleted found
    unfolding after_delete is_some joins_to
    Deleted-after none result t missing r one h =
        let same = ok_eq (result, t) (gone, s') h in
        (
          sym (ap (λ (p : Bool × B.State). p.0) same) ∙ r,
          λ ds' n'.
              ap (λ (p : Bool × B.State). B.get_model p.1 ds' n') (sym same)
              ∙ ground (arith, one ds' n', missing, text_eq_iff ds ds', text_eq_iff name n'),
        )
    Deleted-after (some model) true t found r one h = Deleted-some model t found one h
    Deleted-after (some model) false t found r one h = absurd (cc)

    Removed-delete_at :
        delete_at B name ds s ≡ ok (gone, s') → Removed B s s' gone (some (ds, name))
    unfolding delete_at
    Removed-delete_at h =
        Deleted-after (B.get_model s ds name) (B.delete_inner s ds name).0
          (B.delete_inner s ds name).1 refl (L.delete-found s ds name) (L.get-delete s ds name) h

  Removed-delete_identity :
      (s s' : B.State) (gone : Bool) (identity : Option (Text × Text))
      → delete_identity B identity s ≡ ok (gone, s')
      → Removed B s s' gone identity
  unfolding delete_identity
  Removed-delete_identity s s' gone none h =
      let same = ok_eq (false, s) (gone, s') h in
      (
        sym (ap (λ (p : Bool × B.State). p.0) same),
        λ ds' n'. ap (λ (p : Bool × B.State). B.get_model p.1 ds' n') (sym same),
      )
  Removed-delete_identity s s' gone (some (ds, name)) h = Removed-delete_at name ds s s' gone h

  delete_target-Removed :
      (name : Text) (data_source : Option Text) (s s' : B.State) (gone : Bool)
      → delete_target B name data_source s ≡ ok (gone, s')
      → (target : Option (Text × Text)) × (target_of B s name data_source ≡ ok target)
        × Removed B s s' gone target
  unfolding delete_target
  delete_target-Removed name (some ds) s s' gone h =
      (some (ds, name), refl, Removed-delete_at name ds s s' gone h)
  delete_target-Removed name none s s' gone h =
      let (identity, found, e) =
        bind-ok (B.resolve_identity s name) (λ i. delete_identity B i s) h in
      (identity, found, Removed-delete_identity s s' gone identity e)

  -- A deletion that returns first reconciled the storage, where that was still to be done, and then
  -- found the datasource and the name that it is about: those that it was given, or those to which
  -- the storage resolves the name. Against the reconciled storage, it reports whether that model was
  -- stored; the model is gone, the models of its datasource to which it had an inner join lose
  -- theirs back to it, and every other model is as it was. Where the name resolves to nothing, it
  -- reports false and every model is as it was.
  pub get-delete_model :
      (reconciled : Bool) (name : Text) (data_source : Option Text) (s s' : B.State) (gone : Bool)
      → delete_model B reconciled name data_source s ≡ ok (gone, s')
      → (healed : B.State) × (ensure_reconciled B reconciled s ≡ ok healed)
        × (target : Option (Text × Text)) × (target_of B healed name data_source ≡ ok target)
        × Removed B healed s' gone target
  unfolding delete_model
  get-delete_model reconciled name data_source s s' gone h =
      let (healed, e, rest) =
        bind-ok (ensure_reconciled B reconciled s) (delete_target B name data_source) h in
      let (target, found, removed) = delete_target-Removed name data_source healed s' gone rest in
      (healed, e, target, found, removed)
