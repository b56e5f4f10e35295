-- ===== src/JoinSync/Edits.antt =====
-- slayer/storage/join_sync.py: the edits of one model's joins.
use slayer.Prelude.{
  ◌≡◌, refl, sym, ap, ◌∙◌, ◌↔◌, ◌⊎◌, inl, inr, true, false, ◌&&◌, ◌||◌, not, Bool-cases, Option,
  Option-cases, none, some, List, [], ◌∷◌, ◌++◌, ◌≤◌, length, ltb, arith,
}
use slayer.Prelude.Text.{Text, text_eq, text_eq_iff, member}
use slayer.JoinSync.{
  is_inner, ModelJoin, SlayerModel, same_pairs, is_back, find_back, set_back, new_back, reversed,
  is_mirrored, drop_back, inner_targets,
}

pub same_pairs_iff : (ps qs : List (Text × Text)) → (same_pairs ps qs ≡ true) ↔ (ps ≡ qs)
unfolding same_pairs
same_pairs_iff [] [] = (λ _. refl, λ _. refl)
same_pairs_iff [] (q ∷ qs) = (λ h. absurd (cc), λ e. absurd (cc))
same_pairs_iff (p ∷ ps) [] = (λ h. absurd (cc), λ e. absurd (cc))
same_pairs_iff ((a, b) ∷ ps) ((c, d) ∷ qs) = (
  λ h.
      cons_eq ((text_eq_iff a c).0 (ground (arith))) ((text_eq_iff b d).0 (ground (arith)))
        ((same_pairs_iff ps qs).0 (ground (arith))),
  λ e. ground (arith, text_eq_iff a c, text_eq_iff b d, same_pairs_iff ps qs),
)
  where
    cons_eq : a ≡ c → b ≡ d → ps ≡ qs → (a, b) ∷ ps ≡ (c, d) ∷ qs
    cons_eq e f g = cc

module _ {Other : Type 0} where
  -- the target with an inner join back to `name` over the pairs
  unfoldable pub with_back : Text → List (Text × Text) → SlayerModel Other → SlayerModel Other
  unfolding find_back set_back
  with_back name pairs t = elim (find_back name t.joins) [
    | none ↦ record t { joins = t.joins ++ new_back name pairs ∷ [] }
    | some existing ↦ record t { joins = set_back name pairs t.joins }
  ]

  -- the target without inner joins to `name`
  unfoldable pub without_back : Text → SlayerModel Other → SlayerModel Other
  unfolding drop_back
  without_back name t = record t { joins = drop_back name t.joins }

  module _ (name : Text) where
    -- an edit that keeps the pairs keeps the joins
    set_back_same :
        (pairs : List (Text × Text)) (joins : List (ModelJoin Other)) (existing : ModelJoin Other)
        → find_back name joins ≡ some existing
        → existing.join_pairs ≡ pairs
        → set_back name pairs joins ≡ joins
    unfolding find_back set_back
    set_back_same pairs [] existing h e = refl
    set_back_same pairs (j ∷ joins) existing h e = elim (Bool-cases (is_back name j)) [
      | inl back ↦
          rw (back, set_back)
            (ap (λ ps. (record j { join_pairs = ps }) ∷ joins)
              (sym (ap pairs_of (rw (back, find_back) at h) ∙ e)))
      | inr other ↦
          rw (other, set_back)
            (ap (λ js. j ∷ js) (set_back_same pairs joins existing (rw (other, find_back) at h) e))
    ]
      where
        pairs_of : Option (ModelJoin Other) → List (Text × Text)
        pairs_of none = []
        pairs_of (some k) = k.join_pairs

    set_back-set_back :
        (ps qs : List (Text × Text)) (joins : List (ModelJoin Other))
        → set_back name qs (set_back name ps joins) ≡ set_back name qs joins
    unfolding set_back is_back
    set_back-set_back ps qs [] = refl
    set_back-set_back ps qs (j ∷ joins) = ground (arith, set_back-set_back ps qs joins)

    -- `reversed` gives what is to be saved, where it differs
    pub reversed-with_back :
        (pairs : List (Text × Text)) (t : SlayerModel Other)
        → ((reversed name pairs t (find_back name t.joins) ≡ none) × (with_back name pairs t ≡ t))
          ⊎ (reversed name pairs t (find_back name t.joins) ≡ some (with_back name pairs t))
    unfolding reversed with_back
    reversed-with_back pairs t = elim (Option-cases (find_back name t.joins)) [
      | inl absent ↦ inr (rw (absent, reversed, with_back) refl)
      | inr (existing, found) ↦ elim (Bool-cases (same_pairs existing.join_pairs pairs)) [
        | inl same ↦ inl (
          rw (found, same, reversed) refl,
          rw (found, with_back)
              (ap (λ js. record t { joins = js })
                (set_back_same pairs t.joins existing found ((same_pairs_iff _ _).0 same))),
        )
        | inr other ↦ inr (rw (found, other, reversed, with_back) refl)
      ]
    ]

    module _ (own x : Text) where
      member-set_back :
          (pairs : List (Text × Text)) (joins : List (ModelJoin Other))
          → member x (inner_targets own (set_back name pairs joins))
            ≡ member x (inner_targets own joins)
      unfolding set_back inner_targets is_mirrored member
      member-set_back pairs [] = refl
      member-set_back pairs (j ∷ joins) = ground (arith, member-set_back pairs joins)

      member-append :
          (joins : List (ModelJoin Other)) (last : ModelJoin Other)
          → member x (inner_targets own (joins ++ last ∷ [])) ≡ (
              member x (inner_targets own joins)
              || (is_mirrored own last && text_eq last.target_model x))
      unfolding inner_targets member
      member-append [] last = ground (arith)
      member-append (j ∷ joins) last = ground (arith, member-append joins last)

      member-find_back :
          (joins : List (ModelJoin Other)) (existing : ModelJoin Other)
          → text_eq name own ≡ false
          → find_back name joins ≡ some existing
          → text_eq name x ≡ true
          → member x (inner_targets own joins) ≡ true
      unfolding find_back inner_targets is_mirrored is_back member
      member-find_back [] existing h f e = absurd (cc)
      member-find_back (j ∷ joins) existing h f e = ground (
        arith,
        member-find_back joins existing h,
        text_eq_iff j.target_model name,
        text_eq_iff name own,
        text_eq_iff j.target_model own,
        text_eq_iff name x,
        text_eq_iff j.target_model x,
      )

      -- The model gains an inner join to `name`, and loses none.
      pub member-with_back :
          (pairs : List (Text × Text)) (t : SlayerModel Other)
          → text_eq name own ≡ false
          → member x (inner_targets own (with_back name pairs t).joins)
            ≡ (member x (inner_targets own t.joins) || text_eq name x)
      unfolding with_back is_mirrored is_inner
      member-with_back pairs t h = elim (Option-cases (find_back name t.joins)) [
        | inl absent ↦ ground (arith, absent, member-append t.joins (new_back name pairs))
        | inr (existing, found) ↦
            ground (
              arith,
              found,
              member-set_back pairs t.joins,
              member-find_back t.joins existing h found,
            )
      ]

      member-drop_back :
          (joins : List (ModelJoin Other))
          → member x (inner_targets own (drop_back name joins))
            ≡ (member x (inner_targets own joins) && not (text_eq name x))
      unfolding drop_back inner_targets is_mirrored is_back member
      member-drop_back [] = refl
      member-drop_back (j ∷ joins) = ground (
        arith,
        member-drop_back joins,
        text_eq_iff j.target_model name,
        text_eq_iff name x,
        text_eq_iff j.target_model x,
      )

      -- The model loses its inner joins to `name`, and no other.
      pub member-without_back :
          (t : SlayerModel Other)
          → member x (inner_targets own (without_back name t).joins)
            ≡ (member x (inner_targets own t.joins) && not (text_eq name x))
      unfolding without_back
      member-without_back t = member-drop_back t.joins

    -- a filtered list that is not shorter is the list
    length-drop_back :
        (joins : List (ModelJoin Other)) → length (drop_back name joins) ≤ length joins
    unfolding drop_back
    length-drop_back [] = omega arith
    length-drop_back (j ∷ joins) = ground (arith, length-drop_back joins)

    pub drop_back_same :
        (joins : List (ModelJoin Other))
        → ltb (length (drop_back name joins)) (length joins) ≡ false
        → drop_back name joins ≡ joins
    unfolding drop_back
    drop_back_same [] h = refl
    drop_back_same (j ∷ joins) h = ground (arith, drop_back_same joins, length-drop_back joins)

    find_back-set_back :
        (pairs : List (Text × Text)) (joins : List (ModelJoin Other))
        → (find_back name joins ≡ none)
          ⊎ ((existing : ModelJoin Other) × (find_back name (set_back name pairs joins)
                ≡ some existing))
    unfolding find_back set_back is_back
    find_back-set_back pairs [] = inl refl
    find_back-set_back pairs (j ∷ joins) = elim (Bool-cases (is_back name j)) [
      | inl back ↦ inr (record j { join_pairs = pairs }, ground (arith))
      | inr other ↦ elim (find_back-set_back pairs joins) [
        | inl absent ↦ inl (ground (arith))
        | inr (existing, found) ↦ inr (existing, ground (arith))
      ]
    ]

    append_back :
        (ps qs : List (Text × Text)) (joins : List (ModelJoin Other))
        → find_back name joins ≡ none
        → (find_back name (joins ++ new_back name ps ∷ []) ≡ some (new_back name ps))
          × (set_back name qs (joins ++ new_back name ps ∷ []) ≡ joins ++ new_back name qs ∷ [])
    unfolding find_back set_back is_back is_inner
    append_back ps qs [] h =
        (ground (arith, text_eq_iff name name), ground (arith, text_eq_iff name name))
    append_back ps qs (j ∷ joins) h =
        let other : is_back name j ≡ false = ground (arith) in
        let (found, edited) = append_back ps qs joins (rw (other, find_back) at h) in
        (ground (arith), ground (arith))

    with_back-none :
        (pairs : List (Text × Text)) (t : SlayerModel Other)
        → find_back name t.joins ≡ none
        → with_back name pairs t ≡ record t { joins = t.joins ++ new_back name pairs ∷ [] }
    unfolding with_back
    with_back-none pairs t h = rw (h, with_back) refl

    with_back-some :
        (pairs : List (Text × Text)) (t : SlayerModel Other) (existing : ModelJoin Other)
        → find_back name t.joins ≡ some existing
        → with_back name pairs t ≡ record t { joins = set_back name pairs t.joins }
    unfolding with_back
    with_back-some pairs t existing h = rw (h, with_back) refl

    -- of two edits in turn the second counts
    pub with_back-with_back :
        (ps qs : List (Text × Text)) (t : SlayerModel Other)
        → with_back name qs (with_back name ps t) ≡ with_back name qs t
    with_back-with_back ps qs t = elim (Option-cases (find_back name t.joins)) [
      | inl absent ↦
          let (found, edited) = append_back ps qs t.joins absent in
          let t' = record t { joins = t.joins ++ new_back name ps ∷ [] } in
          ap (with_back name qs) (with_back-none ps t absent)
          ∙ with_back-some qs t' (new_back name ps) found
          ∙ ap (λ js. record t { joins = js }) edited
          ∙ sym (with_back-none qs t absent)
      | inr (existing, found) ↦ elim (find_back-set_back ps t.joins) [
        | inl absent ↦ absurd (ground (arith))
        | inr (kept, found') ↦
            let t' = record t { joins = set_back name ps t.joins } in
            ap (with_back name qs) (with_back-some ps t existing found)
            ∙ with_back-some qs t' kept found'
            ∙ ap (λ js. record t { joins = js }) (set_back-set_back ps qs t.joins)
            ∙ sym (with_back-some qs t existing found)
      ]
    ]

    pub with_back_name :
        (pairs : List (Text × Text)) (t : SlayerModel Other)
        → (with_back name pairs t).name ≡ t.name
    unfolding with_back
    with_back_name pairs t = elim (Option-cases (find_back name t.joins)) [
      | inl absent ↦ ground (arith)
      | inr (existing, found) ↦ ground (arith)
    ]

    pub with_back_data_source :
        (pairs : List (Text × Text)) (t : SlayerModel Other)
        → (with_back name pairs t).data_source ≡ t.data_source
    unfolding with_back
    with_back_data_source pairs t = elim (Option-cases (find_back name t.joins)) [
      | inl absent ↦ ground (arith)
      | inr (existing, found) ↦ ground (arith)
    ]

    drop_back-drop_back :
        (joins : List (ModelJoin Other))
        → drop_back name (drop_back name joins) ≡ drop_back name joins
    unfolding drop_back
    drop_back-drop_back [] = refl
    drop_back-drop_back (j ∷ joins) = ground (arith, drop_back-drop_back joins)

    pub without_back-without_back :
        (t : SlayerModel Other) → without_back name (without_back name t) ≡ without_back name t
    unfolding without_back
    without_back-without_back t = ap (λ js. record t { joins = js }) (drop_back-drop_back t.joins)
