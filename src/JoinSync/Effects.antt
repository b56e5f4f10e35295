-- ===== src/JoinSync/Effects.antt =====
-- slayer/storage/join_sync.py: what a save does to each stored model, followed one key at a time.
use slayer.Prelude.{
  any, ◌≡◌, refl, sym, subst, ap, ◌∙◌, inl, inr, Bool, true, false, ◌&&◌, ◌||◌, Bool-cases, Option,
  none, some, List, [], ◌∷◌, length, ltb, arith, if◌then◌else◌,
}
use slayer.Prelude.Result.{ok, bind-ok, ok_eq}
use slayer.Prelude.Text.{Text, text_eq, text_eq_iff, member}
use slayer.JoinSync.{
  ModelJoin, SlayerModel, Backend, reverse_pairs, is_mirrored, drop_back, save_model, save_if,
  mirror_to, mirror_join, mirror_joins, remove_from, remove_inner_joins_to,
}
use slayer.JoinSync.Edits.{
  with_back, without_back, reversed-with_back, with_back-with_back, with_back_name,
  with_back_data_source, drop_back_same, without_back-without_back,
}

unfoldable pub is_some : {A : Type 0} → Option A → Bool
is_some none = false
is_some (some a) = true

-- what the wrapper relies on: a row is read back under its own key and no other, until it is
-- deleted, a deletion returns whether there was one, and the list has every key with a row
pub record IsLawful {Other : Type 0} (B : Backend Other) : Type 0 where
  pub get-save :
      (s : B.State) (m : SlayerModel Other) (data_source name : Text)
      → B.get_model (B.save_row s m) data_source name ≡ (
          if text_eq m.data_source data_source && text_eq m.name name
          then some m
          else B.get_model s data_source name)
  pub get-delete :
      (s : B.State) (ds n data_source name : Text)
      → B.get_model (B.delete_inner s ds n).1 data_source name ≡ (
          if text_eq ds data_source && text_eq n name then none else B.get_model s data_source name)
  pub delete-found :
      (s : B.State) (ds n : Text) → (B.delete_inner s ds n).0 ≡ is_some (B.get_model s ds n)
  pub lists :
      (s : B.State) (ds n : Text)
      → is_some (B.get_model s ds n) ≡ true
      → any (λ i. text_eq i.0 ds && text_eq i.1 n) (B.list_all_model_identities s) ≡ true
  pub get_keyed :
      (s : B.State) (data_source name : Text) (m : SlayerModel Other)
      → B.get_model s data_source name ≡ some m
      → (m.data_source ≡ data_source) × (m.name ≡ name)

-- an edit of one stored model, where a test holds
abbrev pub change :
    {Other : Type 0}
    → Bool
    → (SlayerModel Other → SlayerModel Other)
    → Option (SlayerModel Other)
    → Option (SlayerModel Other)
change false edit t = t
change true edit none = none
change true edit (some t) = some (edit t)

module _ {Other : Type 0} where
  -- the pairs of the last mirrored join to a name
  unfoldable pub last_pairs : Text → List (ModelJoin Other) → Text → Option (List (Text × Text))
  unfolding is_mirrored
  last_pairs name [] n = none
  last_pairs name (j ∷ joins) n = elim (last_pairs name joins n) [
    | some pairs ↦ some pairs
    | none ↦ if is_mirrored name j && text_eq j.target_model n then some j.join_pairs else none
  ]

  abbrev pub mirrored_by :
      Text → Option (List (Text × Text)) → Option (SlayerModel Other) → Option (SlayerModel Other)
  mirrored_by name none t = t
  mirrored_by name (some pairs) t = change true (with_back name (reverse_pairs pairs)) t

  mirrored_by-change :
      (name : Text) (b : Bool) (pairs : List (Text × Text)) (later : Option (List (Text × Text)))
      (old : Option (SlayerModel Other))
      → mirrored_by name later (change b (with_back name (reverse_pairs pairs)) old)
        ≡ mirrored_by name
            (elim later [ some q ↦ some q | none ↦ if b then some pairs else none ])
            old
  mirrored_by-change name false pairs none old = refl
  mirrored_by-change name true pairs none old = refl
  mirrored_by-change name false pairs (some q) old = refl
  mirrored_by-change name true pairs (some q) none = refl
  mirrored_by-change name true pairs (some q) (some t) =
      ap some (with_back-with_back name (reverse_pairs pairs) (reverse_pairs q) t)

  change-change :
      (edit : SlayerModel Other → SlayerModel Other) (b c : Bool) (old : Option (SlayerModel Other))
      → ((t : SlayerModel Other) → edit (edit t) ≡ edit t)
      → change b edit (change c edit old) ≡ change (c || b) edit old
  change-change edit false false old same = refl
  change-change edit true false old same = refl
  change-change edit false true old same = refl
  change-change edit true true none same = refl
  change-change edit true true (some t) same = ap some (same t)

module _ {Other : Type 0} (B : Backend Other) (L : IsLawful B) where
  get-save_model :
      (s s' : B.State) (m : SlayerModel Other) (ds n : Text)
      → save_model B s m ≡ ok s'
      → B.get_model s' ds n
        ≡ (if text_eq m.data_source ds && text_eq m.name n then some m else B.get_model s ds n)
  unfolding save_model
  get-save_model s s' m ds n h =
      let (value, checked, e) = bind-ok (B.check_save s m) (λ _. ok (B.save_row s m)) h in
      subst
        (λ k.
          B.get_model k ds n
          ≡ (if text_eq m.data_source ds && text_eq m.name n then some m else B.get_model s ds n))
        (ok_eq (B.save_row s m) s' e) (L.get-save s m ds n)

  -- the save of an edited target
  edit_saved :
      (s s' : B.State) (edit : SlayerModel Other → SlayerModel Other) (target : SlayerModel Other)
      (ds n ds' n' : Text)
      → (edit target).data_source ≡ target.data_source
      → (edit target).name ≡ target.name
      → B.get_model s ds n ≡ some target
      → save_model B s (edit target) ≡ ok s'
      → B.get_model s' ds' n' ≡ change (text_eq ds ds' && text_eq n n') edit (B.get_model s ds' n')
  edit_saved s s' edit target ds n ds' n' ed en found h =
      let (kd, kn) = L.get_keyed s ds n target found in
      let saved = get-save_model s s' (edit target) ds' n' h in
      ground (arith, saved, ed, en, kd, kn, found, text_eq_iff ds ds', text_eq_iff n n')

  unchanged :
      (s s' : B.State) (edit : SlayerModel Other → SlayerModel Other) (ds n ds' n' : Text)
      → (old : Option (SlayerModel Other)) → B.get_model s ds n ≡ old
      → change true edit old ≡ old
      → s ≡ s'
      → B.get_model s' ds' n' ≡ change (text_eq ds ds' && text_eq n n') edit (B.get_model s ds' n')
  unchanged s s' edit ds n ds' n' old found same e =
      subst
        (λ k.
          B.get_model k ds' n'
          ≡ change (text_eq ds ds' && text_eq n n') edit (B.get_model s ds' n'))
        e (ground (arith, same, found, text_eq_iff ds ds', text_eq_iff n n'))

  get-mirror_to :
      (model : SlayerModel Other) (join : ModelJoin Other) (s s' : B.State) (ds n ds' n' : Text)
      (found : Option (SlayerModel Other))
      → B.get_model s ds n ≡ found
      → mirror_to B model join s found ≡ ok s'
      → B.get_model s' ds' n'
        ≡ change
            (text_eq ds ds' && text_eq n n')
            (with_back model.name (reverse_pairs join.join_pairs))
            (B.get_model s ds' n')
  unfolding mirror_to with_back
  get-mirror_to model join s s' ds n ds' n' none e h =
      unchanged s s' (with_back model.name (reverse_pairs join.join_pairs)) ds n ds' n' none e refl
        (ok_eq s s' h)
  get-mirror_to model join s s' ds n ds' n' (some target) e h =
      let pairs = reverse_pairs join.join_pairs in
      elim (reversed-with_back model.name pairs target) [
        | inl (nothing, same) ↦
            unchanged s s' (with_back model.name pairs) ds n ds' n' (some target) e (ap some same)
              (ok_eq s s' (ap (save_if B s) (sym nothing) ∙ h))
        | inr edited ↦
            edit_saved s s' (with_back model.name pairs) target ds n ds' n'
              (with_back_data_source model.name pairs target)
              (with_back_name model.name pairs target) e (ap (save_if B s) (sym edited) ∙ h)
      ]

  get-mirror_join :
      (model : SlayerModel Other) (join : ModelJoin Other) (s s' : B.State) (ds n : Text)
      → mirror_join B model join s ≡ ok s'
      → B.get_model s' ds n
        ≡ change
            (is_mirrored model.name join
              && (text_eq model.data_source ds && text_eq join.target_model n))
            (with_back model.name (reverse_pairs join.join_pairs))
            (B.get_model s ds n)
  unfolding mirror_join
  get-mirror_join model join s s' ds n h = elim (Bool-cases (is_mirrored model.name join)) [
    | inl mirrored ↦ rw (mirrored) (
        get-mirror_to model join s s' model.data_source join.target_model ds n _ refl
          (rw (mirrored, mirror_join) at h))
    | inr other ↦
        rw (other) (sym (ap (λ k. B.get_model k ds n) (ok_eq s s' (rw (other, mirror_join) at h))))
  ]

  pub get-mirror_joins :
      (model : SlayerModel Other) (joins : List (ModelJoin Other)) (s s' : B.State) (ds n : Text)
      → mirror_joins B model joins s ≡ ok s'
      → B.get_model s' ds n ≡ (
          if text_eq model.data_source ds
          then mirrored_by model.name (last_pairs model.name joins n) (B.get_model s ds n)
          else B.get_model s ds n)
  unfolding mirror_joins last_pairs
  get-mirror_joins model [] s s' ds n h =
      let e = ap (λ k. B.get_model k ds n) (ok_eq s s' h) in ground (arith, e)
  get-mirror_joins model (j ∷ joins) s s' ds n h =
      let (s1, one, rest) = bind-ok (mirror_join B model j s) (mirror_joins B model joins) h in
      let first = get-mirror_join model j s s1 ds n one in
      let later = get-mirror_joins model joins s1 s' ds n rest in
      let fuse =
        mirrored_by-change model.name (is_mirrored model.name j && text_eq j.target_model n)
          j.join_pairs (last_pairs model.name joins n) (B.get_model s ds n) in
      elim (Bool-cases (text_eq model.data_source ds)) [
        | inl same ↦ rw (same) (
            (rw (same) at later)
            ∙ ap (mirrored_by model.name (last_pairs model.name joins n)) (rw (same) at first)
            ∙ fuse)
        | inr other ↦ ground (arith, first, later)
      ]

  get-remove_from :
      (source : Text) (s s' : B.State) (ds n ds' n' : Text) (found : Option (SlayerModel Other))
      → B.get_model s ds n ≡ found
      → remove_from B source s found ≡ ok s'
      → B.get_model s' ds' n'
        ≡ change (text_eq ds ds' && text_eq n n') (without_back source) (B.get_model s ds' n')
  unfolding remove_from without_back
  get-remove_from source s s' ds n ds' n' none e h =
      unchanged s s' (without_back source) ds n ds' n' none e refl (ok_eq s s' h)
  get-remove_from source s s' ds n ds' n' (some target) e h =
      elim (Bool-cases (ltb (length (drop_back source target.joins)) (length target.joins))) [
        | inl shorter ↦
            edit_saved s s' (without_back source) target ds n ds' n' refl refl e
              (rw (shorter, remove_from) at h)
        | inr same ↦
            unchanged s s' (without_back source) ds n ds' n' (some target) e
              (ap (λ js. some (record target { joins = js }))
                (drop_back_same source target.joins same))
              (ok_eq s s' (rw (same, remove_from) at h))
      ]

  pub get-remove_inner_joins_to :
      (source ds : Text) (names : List Text) (s s' : B.State) (ds' n' : Text)
      → remove_inner_joins_to B source ds names s ≡ ok s'
      → B.get_model s' ds' n'
        ≡ change (text_eq ds ds' && member n' names) (without_back source) (B.get_model s ds' n')
  unfolding remove_inner_joins_to member
  get-remove_inner_joins_to source ds [] s s' ds' n' h =
      let e = ap (λ k. B.get_model k ds' n') (ok_eq s s' h) in ground (arith, e)
  get-remove_inner_joins_to source ds (n ∷ names) s s' ds' n' h =
      let (s1, one, rest) =
        bind-ok (remove_from B source s (B.get_model s ds n))
          (remove_inner_joins_to B source ds names) h in
      let first = get-remove_from source s s1 ds n ds' n' _ refl one in
      let later = get-remove_inner_joins_to source ds names s1 s' ds' n' rest in
      let fuse =
        change-change (without_back source) (text_eq ds ds' && member n' names)
          (text_eq ds ds' && text_eq n n') (B.get_model s ds' n')
          (without_back-without_back source) in
      later
      ∙ ap (change (text_eq ds ds' && member n' names) (without_back source)) first
      ∙ fuse
      ∙ ap (λ b. change b (without_back source) (B.get_model s ds' n'))
          (and_or (text_eq ds ds') (text_eq n n') (member n' names))
    where
      and_or : (a b c : Bool) → (a && b || a && c) ≡ (a && (b || c))
      and_or a b c = ground (arith)
