-- ===== src/ColumnCycles/Collected.antt =====
-- slayer/engine/column_dependency.py: the loop that collects models, against the walks along joins.
use slayer.Prelude.{
  ℕ, zero, suc, ◌≡◌, refl, subst, sym, ap, ◌∙◌, ◌⊎◌, inl, inr, ◌↔◌, Bool-cases, Option-cases,
  List-cases, true, some, List, [], ◌∷◌, length, arith,
}
use slayer.Prelude.Text.{Text, text_eq, text_eq_iff}
use slayer.Prelude.TextDict.{TextDict, lookup}
use slayer.ColumnCycles.{SlayerModel, has_join}
use slayer.ColumnCycles.Search.{
  Prefetch, is_fetched, fetch_join, fetch_joins, prefetch_loop, prefetch_reachable_models,
}
use slayer.ColumnCycles.Prefetch.{fetch_join-cases, prefetch_reachable_models_ends}
use slayer.ColumnCycles.Joined.{Joined, itself, hop, Waits, Inv, Inv-skip, Inv-collect}

module _ (model : SlayerModel) (stored : TextDict SlayerModel) where
  Inv-fetch_joins :
      (joins : List Text) (s : Prefetch)
      → Inv model stored joins s
      → Inv model stored [] (fetch_joins stored joins s)
  unfolding fetch_joins
  Inv-fetch_joins [] s inv = inv
  Inv-fetch_joins (t ∷ joins) s inv =
      Inv-fetch_joins joins (fetch_join stored t s) (elim (fetch_join-cases stored t s) [
        | inl (same, why) ↦
            subst (Inv model stored joins) (sym same) (Inv-skip model stored t joins s why inv)
        | inr (target, found, new, same) ↦
            subst (Inv model stored joins) (sym same)
              (Inv-collect model stored t joins target s found new inv)
      ])

  -- the joins of the model that leaves the queue are still to be looked at
  Inv-take :
      (s : Prefetch) (current : SlayerModel) (rest : List SlayerModel)
      → s.queue ≡ current ∷ rest
      → Inv model stored [] s
      → Inv model stored current.joins (record s { queue = rest })
  unfolding has_join
  Inv-take s current rest e inv =
      let (current_name, held) = inv.waiting current (subst (Waits current) (sym e) (inl refl)) in
      record {
        source = inv.source;
        agrees = inv.agrees;
        sound = inv.sound;
        waiting = λ m w. inv.waiting m (subst (Waits m) (sym e) (inr w));
        pending = λ t target j f. hop (inv.sound current_name current held) j f;
        closed = λ name m h. elim (inv.closed name m h) [
          | inl w ↦ elim (subst (Waits m) e w) [
            | inl same ↦ inr (λ t target j f. inr (subst (λ k. has_join k.joins t ≡ true) same j))
            | inr later ↦ inl later
          ]
          | inr c ↦ inr (λ t target j f. elim (c t target j f) [
            | inl fetched ↦ inl fetched
            | inr nothing ↦ absurd (cc)
          ])
        ];
      }

  Inv-prefetch_loop :
      (fuel : ℕ) (s : Prefetch) (out : TextDict SlayerModel)
      → Inv model stored [] s
      → prefetch_loop stored fuel s ≡ some out
      → (t : Prefetch) × Inv model stored [] t × (t.queue ≡ []) × (t.out ≡ out)
  unfolding prefetch_loop
  Inv-prefetch_loop zero s out inv h = absurd (cc)
  Inv-prefetch_loop (suc fuel) s out inv h = elim (List-cases s.queue) [
    | inl e ↦ (s, inv, e, ground (arith))
    | inr (current, rest, e) ↦
        Inv-prefetch_loop fuel (fetch_joins stored current.joins (record s { queue = rest })) out
          (Inv-fetch_joins current.joins (record s { queue = rest })
            (Inv-take s current rest e inv))
          (rw (e, prefetch_loop) at h)
  ]

  single :
      (name : Text) (m : SlayerModel)
      → lookup ((model.name, model) ∷ []) name ≡ some m
      → (model.name ≡ name) × (model ≡ m)
  unfolding lookup
  single name m h = elim (Bool-cases (text_eq model.name name)) [
    | inl same ↦ ((text_eq_iff model.name name).0 same, ground (arith))
    | inr other ↦ absurd (ground (arith))
  ]

  start_of : Inv model stored [] (record { out = (model.name, model) ∷ []; queue = model ∷ [] })
  unfolding lookup has_join
  start_of =
      let self : lookup ((model.name, model) ∷ []) model.name ≡ some model =
        ground (arith, text_eq_iff model.name model.name) in
      record {
        source = self;
        agrees = λ name m h.
            let (same, same_model) = single name m h in ground (arith, text_eq_iff model.name name);
        sound = λ name m h.
            let (same, same_model) = single name m h in
            subst (λ k. Joined model stored k m) same
              (subst (Joined model stored model.name) same_model itself);
        waiting = λ m w. elim w [
          | inl e ↦ (model.name, self ∙ ap some (sym e))
          | inr none_left ↦ absurd none_left
        ];
        pending = λ t target j f. absurd (cc);
        closed = λ name m h. inl (inl (sym (single name m h).1));
      }

  fetched :
      (s : Prefetch) (name : Text) (target : SlayerModel)
      → Inv model stored [] s
      → lookup ((model.name, model) ∷ stored) name ≡ some target
      → (lookup stored name ≡ some target
          → (is_fetched s.out name ≡ true) ⊎ (has_join [] name ≡ true))
      → is_fetched s.out name ≡ true
  unfolding lookup is_fetched has_join
  fetched s name target inv f c = elim (Bool-cases (text_eq model.name name)) [
    | inl same ↦ ground (arith, inv.source, text_eq_iff model.name name)
    | inr other ↦ elim (c (ground (arith))) [ inl h ↦ h | inr nothing ↦ absurd (cc) ]
  ]

  fetched_lookup :
      (s : Prefetch) (name : Text) (target : SlayerModel)
      → Inv model stored [] s
      → lookup ((model.name, model) ∷ stored) name ≡ some target
      → is_fetched s.out name ≡ true
      → lookup s.out name ≡ some target
  unfolding is_fetched
  fetched_lookup s name target inv f h = elim (Option-cases (lookup s.out name)) [
    | inl absent ↦ absurd (ground (arith))
    | inr (m, e) ↦ e ∙ sym (inv.agrees name m e) ∙ f
  ]

  complete :
      (s : Prefetch) {name : Text} {m : SlayerModel}
      → Inv model stored [] s
      → s.queue ≡ []
      → Joined model stored name m
      → lookup s.out name ≡ some m
  complete s inv e itself = inv.source
  complete s inv e (hop {name} {target_name} {m} {target} joined j f) =
      let held = complete s inv e joined in
      elim (inv.closed name m held) [
        | inl w ↦ absurd (subst (Waits m) e w)
        | inr c ↦
            fetched_lookup s target_name target inv f
              (fetched s target_name target inv f (c target_name target j))
      ]

-- The models that are collected are those to which the joins of the model lead, with the stored
-- models as they are and the model itself for its own name.
pub prefetch_reachable_models_correct :
    (model : SlayerModel) (stored : TextDict SlayerModel)
    → (reachable : TextDict SlayerModel) × (prefetch_reachable_models model stored ≡ some reachable)
      × ((name : Text) (m : SlayerModel)
          → (lookup reachable name ≡ some m) ↔ Joined model stored name m)
unfolding prefetch_reachable_models
prefetch_reachable_models_correct model stored =
    let (reachable, ends) = prefetch_reachable_models_ends model stored in
    let (t, inv, empty, same) =
      Inv-prefetch_loop model stored (suc (suc (length stored)))
        (record { out = (model.name, model) ∷ []; queue = model ∷ [] }) reachable
        (start_of model stored) ends in
    (
      reachable,
      ends,
      λ name m. (
        λ h. inv.sound name m (subst (λ out. lookup out name ≡ some m) (sym same) h),
        λ joined.
            subst (λ out. lookup out name ≡ some m) same (complete model stored t inv empty joined),
      ),
    )
