-- ===== src/JoinSync/Save.antt =====
-- slayer/storage/join_sync.py: `_save_model_impl` as a whole.
use slayer.Prelude.{
  ◌≡◌, refl, sym, subst, ap, ◌∙◌, inl, inr, Bool, true, false, ◌&&◌, not, Bool-cases, Option,
  Option-cases, none, some, List, [], ◌∷◌, arith, if◌then◌else◌,
}
use slayer.Prelude.Result.{ok, bind-ok, ok_eq}
use slayer.Prelude.Text.{Text, text_eq, text_eq_iff, member}
use slayer.JoinSync.{
  ModelJoin, SlayerModel, Backend, reverse_pairs, is_mirrored, inner_targets, without,
  mirror_inner_joins, clean_up, save_model_impl,
}
use slayer.JoinSync.Edits.{with_back, without_back}
use slayer.JoinSync.Effects.{
  is_some, IsLawful, change, last_pairs, get-mirror_joins, get-remove_inner_joins_to,
}

pub member-without :
    (n : Text) (names others : List Text)
    → member n (without names others) ≡ (member n names && not (member n others))
unfolding without member
member-without n [] others = refl
member-without n (m ∷ names) others = ground (arith, member-without n names others, text_eq_iff m n)

module _ {Other : Type 0} where
  -- whether a model had an inner join to a name
  unfoldable pub had_inner : Option (SlayerModel Other) → Text → Bool
  unfolding inner_targets member
  had_inner none n = false
  had_inner (some old) n = member n (inner_targets old.name old.joins)

  -- what a save makes of another model of the datasource
  unfoldable pub synced :
      SlayerModel Other
      → Option (SlayerModel Other)
      → Text
      → Option (SlayerModel Other)
      → Option (SlayerModel Other)
  unfolding last_pairs with_back without_back had_inner
  synced model old n t = elim (last_pairs model.name model.joins n) [
    | some pairs ↦ change true (with_back model.name (reverse_pairs pairs)) t
    | none ↦ change (had_inner old n) (without_back model.name) t
  ]

  pub member-inner_targets :
      (name n : Text) (joins : List (ModelJoin Other))
      → member n (inner_targets name joins) ≡ is_some (last_pairs name joins n)
  unfolding inner_targets last_pairs member is_some
  member-inner_targets name n [] = refl
  member-inner_targets name n (j ∷ joins) = ground (arith, member-inner_targets name n joins)

  pub last_pairs_self :
      (name : Text) (joins : List (ModelJoin Other)) → last_pairs name joins name ≡ none
  unfolding last_pairs is_mirrored
  last_pairs_self name [] = refl
  last_pairs_self name (j ∷ joins) = ground (arith, last_pairs_self name joins)

  pub had_inner_self :
      (name : Text) (old : Option (SlayerModel Other))
      → ((t : SlayerModel Other) → old ≡ some t → t.name ≡ name)
      → had_inner old name ≡ false
  unfolding had_inner is_some
  had_inner_self name none keyed = refl
  had_inner_self name (some old) keyed =
      let e = keyed old refl in
      ap (λ k. member k (inner_targets old.name old.joins)) (sym e)
      ∙ member-inner_targets old.name old.name old.joins
      ∙ ap is_some (last_pairs_self old.name old.joins)

module _ {Other : Type 0} (B : Backend Other) (L : IsLawful B) where
  get-clean_up :
      (model : SlayerModel Other) (old : Option (SlayerModel Other)) (s s' : B.State) (ds n : Text)
      → ((t : SlayerModel Other) → old ≡ some t → t.name ≡ model.name)
      → clean_up B model old s ≡ ok s'
      → B.get_model s' ds n
        ≡ change
            (text_eq model.data_source ds
              && (had_inner old n && not (member n (inner_targets model.name model.joins))))
            (without_back model.name)
            (B.get_model s ds n)
  unfolding clean_up had_inner
  get-clean_up model none s s' ds n keyed h =
      let e = ap (λ k. B.get_model k ds n) (ok_eq s s' h) in ground (arith, e)
  get-clean_up model (some old) s s' ds n keyed h =
      let gone =
        without (inner_targets old.name old.joins) (inner_targets model.name model.joins) in
      get-remove_inner_joins_to B L model.name model.data_source gone s s' ds n h
      ∙ ap
          (λ b.
            change (text_eq model.data_source ds && b) (without_back model.name)
              (B.get_model s ds n))
          (member-without n (inner_targets old.name old.joins)
            (inner_targets model.name model.joins))

  -- A save that returns leaves the model under its key. Every other model of its datasource has an
  -- inner join back, over the reversed pairs of the last inner join to it, if there is one; it loses
  -- its inner joins back, if only the old version had one to it; and it stays as it was otherwise,
  -- like every model of another datasource.
  pub get-save_model_impl :
      (model : SlayerModel Other) (s s' : B.State) (ds n : Text)
      → save_model_impl B model s ≡ ok s'
      → B.get_model s' ds n ≡ (
          if text_eq model.data_source ds
          then (if text_eq model.name n
              then some model
              else synced model (B.get_model s model.data_source model.name) n (B.get_model s ds n))
          else B.get_model s ds n)
  unfolding save_model_impl mirror_inner_joins synced is_some
  get-save_model_impl model s s' ds n h =
      let old = B.get_model s model.data_source model.name in
      let (s1, mirrored, cleaned) =
        bind-ok (mirror_inner_joins B model (B.save_row s model)) (clean_up B model old) h in
      let one = L.get-save s model ds n in
      let two = get-mirror_joins B L model model.joins (B.save_row s model) s1 ds n mirrored in
      let three =
        get-clean_up model old s1 s' ds n
          (λ t e. (L.get_keyed s model.data_source model.name t e).1) cleaned in
      let listed = member-inner_targets model.name n model.joins in
      let keyed : (t : SlayerModel Other) → old ≡ some t → t.name ≡ model.name =
        λ t e. (L.get_keyed s model.data_source model.name t e).1 in
      elim (Bool-cases (text_eq model.data_source ds)) [
        | inr other ↦ ground (arith, one, two, three)
        | inl same ↦ elim (Bool-cases (text_eq model.name n)) [
          | inl itself ↦
              let name_eq : model.name ≡ n = (text_eq_iff model.name n).0 itself in
              let unmirrored : last_pairs model.name model.joins n ≡ none =
                subst (λ k. last_pairs model.name model.joins k ≡ none) name_eq
                  (last_pairs_self model.name model.joins) in
              let unremoved : had_inner old n ≡ false =
                subst (λ k. had_inner old k ≡ false) name_eq
                  (had_inner_self model.name old keyed) in
              ground (arith, one, two, three, unmirrored, unremoved)
          | inr another ↦ elim (Option-cases (last_pairs model.name model.joins n)) [
            | inl absent ↦ ground (arith, one, two, three, absent, listed)
            | inr (pairs, found) ↦ ground (arith, one, two, three, found, listed)
          ]
        ]
      ]
