-- ===== src/JoinSync/Symmetry.antt =====
-- slayer/storage/join_sync.py: inner joins in both directions.
use slayer.Prelude.{
  ◌≡◌, refl, sym, subst, ap, ◌∙◌, inl, inr, Bool, true, false, ◌&&◌, not, Bool-cases, Option, none,
  some, List, arith, if◌then◌else◌,
}
use slayer.Prelude.Result.{ok}
use slayer.Prelude.Text.{Text, text_eq, text_eq_iff, member}
use slayer.JoinSync.{SlayerModel, Backend, reverse_pairs, inner_targets, save_model_impl}
use slayer.JoinSync.Edits.{with_back, without_back, member-with_back, member-without_back}
use slayer.JoinSync.Effects.{is_some, IsLawful, change, last_pairs}
use slayer.JoinSync.Save.{
  member-inner_targets, last_pairs_self, had_inner, synced, get-save_model_impl,
}

-- whether the model, stored under a name, has an inner join to another one
unfoldable pub joins_to : {Other : Type 0} → Option (SlayerModel Other) → Text → Text → Bool
unfolding member inner_targets
joins_to none own x = false
joins_to (some m) own x = member x (inner_targets own m.joins)

module _ {Other : Type 0} (name own : Text) where
  -- another model after a save, for the pairs of the last inner join to it
  abbrev pub after :
      Option (List (Text × Text)) → Bool → Option (SlayerModel Other) → Option (SlayerModel Other)
  after last had t = elim last [
    | some pairs ↦ change true (with_back name (reverse_pairs pairs)) t
    | none ↦ change had (without_back name) t
  ]

  pub joins_to-after :
      (x : Text) (last : Option (List (Text × Text))) (had : Bool) (t : Option (SlayerModel Other))
      → text_eq name own ≡ false
      → joins_to (after last had t) own x ≡ (
          if text_eq name x
          then (if is_some last then is_some t else joins_to t own x && not had)
          else joins_to t own x)
  unfolding joins_to is_some
  joins_to-after x (some pairs) had none other = ground (arith)
  joins_to-after x (some pairs) had (some t) other =
      ground (arith, member-with_back name own x (reverse_pairs pairs) t other)
  joins_to-after x none true none other = ground (arith)
  joins_to-after x none false none other = ground (arith)
  joins_to-after x none true (some t) other = ground (arith, member-without_back name own x t)
  joins_to-after x none false (some t) other = ground (arith)

  pub is_some-after :
      (last : Option (List (Text × Text))) (had : Bool) (t : Option (SlayerModel Other))
      → is_some (after last had t) ≡ is_some t
  unfolding is_some
  is_some-after (some pairs) had none = refl
  is_some-after (some pairs) had (some t) = refl
  is_some-after none true none = refl
  is_some-after none false none = refl
  is_some-after none true (some t) = refl
  is_some-after none false (some t) = refl

module _ {Other : Type 0} (B : Backend Other) where
  -- Between stored models of a datasource, an inner join has one in the other direction.
  unfoldable pub IsSymmetric : B.State → Text → Type 0
  unfolding joins_to is_some
  IsSymmetric s ds =
      (a b : Text)
      → joins_to (B.get_model s ds a) a b ≡ true
      → is_some (B.get_model s ds b) ≡ true
      → joins_to (B.get_model s ds b) b a ≡ true

  module _ (L : IsLawful B) (model : SlayerModel Other) (s s' : B.State)
      (saved : save_model_impl B model s ≡ ok s') where
    abbrev ds : Text
    ds = model.data_source

    abbrev old : Option (SlayerModel Other)
    old = B.get_model s ds model.name

    abbrev listed : Text → Bool
    listed n = member n (inner_targets model.name model.joins)

    joins_to-itself : (x : Text) → joins_to (B.get_model s' ds model.name) model.name x ≡ listed x
    unfolding joins_to
    joins_to-itself x = ground (
      arith,
      get-save_model_impl B L model s s' ds model.name saved,
      text_eq_iff ds ds,
      text_eq_iff model.name model.name,
    )

    get_other :
        (n : Text)
        → text_eq model.name n ≡ false
        → B.get_model s' ds n
          ≡ after model.name n
              (last_pairs model.name model.joins n)
              (had_inner old n)
              (B.get_model s ds n)
    unfolding synced
    get_other n another =
        get-save_model_impl B L model s s' ds n saved
        ∙ rw (another) (ground (arith, text_eq_iff ds ds))

    joins_to-other :
        (n x : Text)
        → text_eq model.name n ≡ false
        → joins_to (B.get_model s' ds n) n x ≡ (
            if text_eq model.name x
            then (if listed n
                then is_some (B.get_model s ds n)
                else joins_to (B.get_model s ds n) n x && not (had_inner old n))
            else joins_to (B.get_model s ds n) n x)
    joins_to-other n x another = ground (
      arith,
      ap (λ t. joins_to t n x) (get_other n another),
      joins_to-after model.name n x (last_pairs model.name model.joins n) (had_inner old n)
          (B.get_model s ds n) another,
      member-inner_targets model.name n model.joins,
    )

    stored_other :
        (n : Text)
        → text_eq model.name n ≡ false
        → is_some (B.get_model s' ds n) ≡ is_some (B.get_model s ds n)
    stored_other n another =
        ap is_some (get_other n another)
        ∙ is_some-after model.name n (last_pairs model.name model.joins n) (had_inner old n)
            (B.get_model s ds n)

    had_inner-joins_to : (n : Text) → had_inner old n ≡ joins_to old model.name n
    unfolding had_inner joins_to
    had_inner-joins_to n = by_version old (λ t e. (L.get_keyed s ds model.name t e).1)
      where
        by_version :
            (o : Option (SlayerModel Other))
            → ((t : SlayerModel Other) → o ≡ some t → t.name ≡ model.name)
            → had_inner o n ≡ joins_to o model.name n
        by_version none keyed = refl
        by_version (some t) keyed = ap (λ k. member n (inner_targets k t.joins)) (keyed t refl)

    from_itself :
        (b : Text)
        → joins_to (B.get_model s' ds model.name) model.name b ≡ true
        → is_some (B.get_model s' ds b) ≡ true
        → joins_to (B.get_model s' ds b) b model.name ≡ true
    unfolding is_some
    from_itself b joined stored =
        let listed_b : listed b ≡ true = sym (joins_to-itself b) ∙ joined in
        elim (Bool-cases (text_eq model.name b)) [
          | inl b_is ↦
              let e : model.name ≡ b = (text_eq_iff model.name b).0 b_is in
              let self : listed b ≡ false =
                subst (λ k. listed k ≡ false) e
                  (member-inner_targets model.name model.name model.joins
                    ∙ ap is_some (last_pairs_self model.name model.joins)) in
              absurd (ground (arith))
          | inr b_not ↦ ground (
            arith,
            joins_to-other b model.name b_not,
            stored_other b b_not,
            text_eq_iff model.name model.name,
          )
        ]

    to_itself :
        ((a : Text)
          → joins_to (B.get_model s ds a) a model.name ≡ true
          → is_some (B.get_model s ds model.name) ≡ true)
        → IsSymmetric s ds
        → (a : Text) → text_eq model.name a ≡ false
        → joins_to (B.get_model s' ds a) a model.name ≡ true
        → joins_to (B.get_model s' ds model.name) model.name a ≡ true
    unfolding IsSymmetric
    to_itself no_wait symmetric a a_not joined = ground (
      arith,
      joins_to-itself a,
      joins_to-other a model.name a_not,
      no_wait a,
      symmetric a model.name,
      had_inner-joins_to a,
      text_eq_iff model.name model.name,
    )

    -- A save of a model that returns keeps the symmetry of its datasource, where no stored model
    -- with an inner join to it waits for its first save.
    pub save_model_impl-IsSymmetric :
        ((a : Text)
          → joins_to (B.get_model s ds a) a model.name ≡ true
          → is_some (B.get_model s ds model.name) ≡ true)
        → IsSymmetric s ds
        → IsSymmetric s' ds
    unfolding IsSymmetric
    save_model_impl-IsSymmetric no_wait symmetric a b joined stored =
        elim (Bool-cases (text_eq model.name a)) [
          | inl a_is ↦
              let e : model.name ≡ a = (text_eq_iff model.name a).0 a_is in
              subst (λ k. joins_to (B.get_model s' ds b) b k ≡ true) e
                (from_itself b
                  (subst (λ k. joins_to (B.get_model s' ds k) k b ≡ true) (sym e) joined) stored)
          | inr a_not ↦ elim (Bool-cases (text_eq model.name b)) [
            | inl b_is ↦
                let e : model.name ≡ b = (text_eq_iff model.name b).0 b_is in
                subst (λ k. joins_to (B.get_model s' ds k) k a ≡ true) e
                  (to_itself no_wait symmetric a a_not
                    (subst (λ k. joins_to (B.get_model s' ds a) a k ≡ true) (sym e) joined))
            | inr b_not ↦ ground (
              arith,
              joins_to-other a b a_not,
              joins_to-other b a b_not,
              stored_other b b_not,
              symmetric a b,
            )
          ]
        ]
