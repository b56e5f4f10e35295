-- ===== src/JoinSync/Reconcile.antt =====
-- slayer/storage/join_sync.py: what the first access does to the stored inner joins.
use slayer.Prelude.{
  ◌≡◌, refl, sym, subst, ap, ◌∙◌, inl, inr, Bool, false, ◌&&◌, ◌||◌, any, Bool-cases, Option, none,
  some, List, [], ◌∷◌, arith,
}
use slayer.Prelude.Result.{ok, bind-ok, ok_eq}
use slayer.Prelude.Text.{Text, text_eq, text_eq_iff}
use slayer.JoinSync.{
  SlayerModel, Backend, mirror_inner_joins, reconcile_one, reconcile_all_inner_joins,
  ensure_reconciled,
}
use slayer.JoinSync.Effects.{is_some, IsLawful, last_pairs, mirrored_by, get-mirror_joins}
use slayer.JoinSync.Save.{member-inner_targets, last_pairs_self}
use slayer.JoinSync.Symmetry.{joins_to, after, joins_to-after, is_some-after, IsSymmetric}

module _ {Other : Type 0} where
  mirrored_by-after :
      (name own : Text) (last : Option (List (Text × Text))) (t : Option (SlayerModel Other))
      → mirrored_by name last t ≡ after name own last false t
  mirrored_by-after name own none t = refl
  mirrored_by-after name own (some pairs) t = refl

  joins_to_self : (own : Text) (t : Option (SlayerModel Other)) → joins_to t own own ≡ false
  unfolding joins_to is_some
  joins_to_self own none = refl
  joins_to_self own (some m) =
      member-inner_targets own own m.joins ∙ ap is_some (last_pairs_self own m.joins)

  joins_to_stored :
      (own x : Text) (t : Option (SlayerModel Other))
      → joins_to t own x ≡ (is_some t && joins_to t own x)
  unfolding joins_to is_some
  joins_to_stored own x none = refl
  joins_to_stored own x (some m) = refl

  -- a model after another one, of a given name, was mirrored
  joins_to-mirrored_by :
      (own x : Text) (m : SlayerModel Other) (t : Option (SlayerModel Other))
      → joins_to (mirrored_by m.name (last_pairs m.name m.joins own) t) own x
        ≡ (joins_to t own x || (text_eq m.name x && (joins_to (some m) m.name own && is_some t)))
  unfolding joins_to is_some
  joins_to-mirrored_by own x m t =
      let last = last_pairs m.name m.joins own in
      let targets = member-inner_targets m.name own m.joins in
      elim (Bool-cases (text_eq m.name own)) [
        | inl same ↦
            let unmirrored : last ≡ none =
              subst (λ k. last_pairs m.name m.joins k ≡ none) ((text_eq_iff m.name own).0 same)
                (last_pairs_self m.name m.joins) in
            ground (arith, unmirrored, targets, ap is_some unmirrored)
        | inr other ↦ ground (
          arith,
          ap (λ k. joins_to k own x) (mirrored_by-after m.name own last t),
          joins_to-after m.name own x last false t other,
          targets,
          joins_to_stored own x t,
        )
      ]

  is_some-mirrored_by :
      (name own : Text) (last : Option (List (Text × Text))) (t : Option (SlayerModel Other))
      → is_some (mirrored_by name last t) ≡ is_some t
  is_some-mirrored_by name own last t =
      ap is_some (mirrored_by-after name own last t) ∙ is_some-after name own last false t

module _ {Other : Type 0} (B : Backend Other) (L : IsLawful B) where
  module _ (ds : Text) where
    -- an inner join between the models of the datasource
    abbrev edge : B.State → Text → Text → Bool
    edge s a b = joins_to (B.get_model s ds a) a b

    abbrev stored : B.State → Text → Bool
    stored s a = is_some (B.get_model s ds a)

    -- the joins after one model was mirrored
    abbrev Mirrored : B.State → B.State → Text → Text → Type 0
    Mirrored s s' d name =
        (a b : Text)
        → (stored s' a ≡ stored s a)
          × (edge s' a b
              ≡ (edge s a b || ((text_eq d ds && text_eq name b) && (edge s b a && stored s a))))

    reconcile_one-Mirrored :
        (d name : Text) (found : Option (SlayerModel Other)) (s s' : B.State)
        → B.get_model s d name ≡ found
        → reconcile_one B found s ≡ ok s'
        → Mirrored s s' d name
    unfolding reconcile_one mirror_inner_joins joins_to
    reconcile_one-Mirrored d name none s s' e h a b =
        let same = ok_eq s s' h in
        (
          ap (λ k. stored k a) (sym same),
          ap (λ k. edge k a b) (sym same) ∙ ground (arith, e, text_eq_iff d ds, text_eq_iff name b),
        )
    reconcile_one-Mirrored d name (some m) s s' e h a b =
        let (kd, kn) = L.get_keyed s d name m e in
        let got = get-mirror_joins B L m m.joins s s' ds a h in
        let old = B.get_model s ds a in
        let last = last_pairs m.name m.joins a in
        elim (Bool-cases (text_eq m.data_source ds)) [
          | inl same ↦
              let here : B.get_model s' ds a ≡ mirrored_by m.name last old =
                ground (arith, got, same) in
              (
                ap is_some here ∙ is_some-mirrored_by m.name a last old,
                ap (λ k. joins_to k a b) here
                    ∙ joins_to-mirrored_by a b m old
                    ∙ ground (arith, e, kd, kn, same, text_eq_iff d ds, text_eq_iff name b),
              )
          | inr other ↦
              let here : B.get_model s' ds a ≡ old = ground (arith, got, other) in
              (ap is_some here, ap (λ k. joins_to k a b) here ∙ ground (arith, kd, other))
        ]

    reconcile_all-edge :
        (identities : List (Text × Text)) (s s' : B.State)
        → reconcile_all_inner_joins B identities s ≡ ok s'
        → (a b : Text)
        → (stored s' a ≡ stored s a)
          × (edge s' a b ≡ (
              edge s a b
              || ((edge s b a && stored s a)
                  && any (λ i. text_eq i.0 ds && text_eq i.1 b) identities)))
    unfolding reconcile_all_inner_joins
    reconcile_all-edge [] s s' h a b =
        let same = ok_eq s s' h in
        (ap (λ k. stored k a) (sym same), ap (λ k. edge k a b) (sym same) ∙ ground arith)
    reconcile_all-edge ((d, name) ∷ identities) s s' h a b =
        let (s1, one, rest) =
          bind-ok (reconcile_one B (B.get_model s d name) s)
            (reconcile_all_inner_joins B identities) h in
        let first = reconcile_one-Mirrored d name (B.get_model s d name) s s1 refl one in
        let later = reconcile_all-edge identities s1 s' rest a b in
        let (kept_a, edge_ab) = first a b in
        let (kept_b, edge_ba) = first b a in
        let bare = joins_to_stored b a (B.get_model s ds b) in
        let straight = joins_to_stored a b (B.get_model s ds a) in
        (later.0 ∙ kept_a, later.1 ∙ ground (arith, kept_a, edge_ab, edge_ba, bare, straight))

  reconciled-edge :
      (s s' : B.State) (ds a b : Text)
      → reconcile_all_inner_joins B (B.list_all_model_identities s) s ≡ ok s'
      → (is_some (B.get_model s' ds a) ≡ is_some (B.get_model s ds a))
        × (joins_to (B.get_model s' ds a) a b ≡ (
            joins_to (B.get_model s ds a) a b
            || (joins_to (B.get_model s ds b) b a && is_some (B.get_model s ds a))))
  reconciled-edge s s' ds a b h =
      let (kept, joined) = reconcile_all-edge ds (B.list_all_model_identities s) s s' h a b in
      (kept, joined ∙ ground (arith, joins_to_stored b a (B.get_model s ds b), L.lists s ds b))

  -- The first access, where it returns, leaves the joins of every datasource symmetric, whatever was
  -- stored: a stored model has an inner join to another name exactly if it had one, or the model of
  -- that name had one to it. No model is added or removed.
  pub ensure_reconciled-IsSymmetric :
      (s s' : B.State) (ds : Text)
      → ensure_reconciled B false s ≡ ok s'
      → IsSymmetric B s' ds
        × ((a b : Text)
            → (is_some (B.get_model s' ds a) ≡ is_some (B.get_model s ds a))
              × (joins_to (B.get_model s' ds a) a b ≡ (
                  joins_to (B.get_model s ds a) a b
                  || (joins_to (B.get_model s ds b) b a && is_some (B.get_model s ds a)))))
  unfolding ensure_reconciled IsSymmetric
  ensure_reconciled-IsSymmetric s s' ds h = (
    λ a b joined there. ground (
      arith,
      reconciled-edge s s' ds a b h,
      reconciled-edge s s' ds b a h,
      joins_to_stored a b (B.get_model s ds a),
      joins_to_stored b a (B.get_model s ds b),
    ),
    λ a b. reconciled-edge s s' ds a b h,
  )
