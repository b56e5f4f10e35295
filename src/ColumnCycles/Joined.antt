-- ===== src/ColumnCycles/Joined.antt =====
-- slayer/engine/column_dependency.py: the collected models against the walks along joins.
use slayer.Prelude.{
  ◌≡◌, refl, subst, sym, ap, ◌∙◌, ◌⊎◌, inl, inr, Bool-cases, Option-cases, true, false, none, some,
  List, [], ◌∷◌, ◌++◌, arith,
}
use slayer.Prelude.Text.{Text, text_eq, text_eq_iff}
use slayer.Prelude.TextDict.{TextDict, lookup}
use slayer.ColumnCycles.{SlayerModel, has_join}
use slayer.ColumnCycles.Search.{Prefetch, is_fetched}
use slayer.ColumnCycles.Prefetch.{lookup-append, is_fetched-append, collect}

-- Joins lead from the model to a name, where the model itself stands for its name.
pub data Joined (model : SlayerModel) (stored : TextDict SlayerModel)
    : Text → SlayerModel → Type 0 where
  itself : Joined model stored model.name model
  hop :
      {name target_name : Text} {m target : SlayerModel}
      → Joined model stored name m
      → has_join m.joins target_name ≡ true
      → lookup ((model.name, model) ∷ stored) target_name ≡ some target
      → Joined model stored target_name target

abbrev pub Waits : SlayerModel → List SlayerModel → Type 0
Waits m [] = ⊥
Waits m (first ∷ queue) = (m ≡ first) ⊎ Waits m queue

Waits-append :
    (m last : SlayerModel) (queue : List SlayerModel) → Waits m queue → Waits m (queue ++ last ∷ [])
Waits-append m last [] w = absurd w
Waits-append m last (first ∷ queue) (inl e) = inl e
Waits-append m last (first ∷ queue) (inr w) = inr (Waits-append m last queue w)

Waits-last : (last : SlayerModel) (queue : List SlayerModel) → Waits last (queue ++ last ∷ [])
Waits-last last [] = inl refl
Waits-last last (first ∷ queue) = inr (Waits-last last queue)

Waits-cases :
    (m last : SlayerModel) (queue : List SlayerModel)
    → Waits m (queue ++ last ∷ [])
    → Waits m queue ⊎ (m ≡ last)
Waits-cases m last [] (inl e) = inr e
Waits-cases m last [] (inr w) = absurd w
Waits-cases m last (first ∷ queue) (inl e) = inl (inl e)
Waits-cases m last (first ∷ queue) (inr w) = elim (Waits-cases m last queue w) [
  | inl old ↦ inl (inr old)
  | inr e ↦ inr e
]

module _ (model : SlayerModel) (stored : TextDict SlayerModel) where
  -- while the names of a list are still to be looked at
  pub record Inv (joins : List Text) (s : Prefetch) : Type 0 where
    pub source : lookup s.out model.name ≡ some model
    pub agrees :
        (name : Text) (m : SlayerModel)
        → lookup s.out name ≡ some m
        → lookup ((model.name, model) ∷ stored) name ≡ some m
    pub sound :
        (name : Text) (m : SlayerModel) → lookup s.out name ≡ some m → Joined model stored name m
    pub waiting : (m : SlayerModel) → Waits m s.queue → (name : Text) × (lookup s.out name ≡ some m)
    pub pending :
        (t : Text) (target : SlayerModel)
        → has_join joins t ≡ true
        → lookup ((model.name, model) ∷ stored) t ≡ some target
        → Joined model stored t target
    pub closed :
        (name : Text) (m : SlayerModel)
        → lookup s.out name ≡ some m
        → Waits m s.queue
          ⊎ ((t : Text) (target : SlayerModel)
              → has_join m.joins t ≡ true
              → lookup stored t ≡ some target
              → (is_fetched s.out t ≡ true) ⊎ (has_join joins t ≡ true))

  other_join :
      (t t' : Text) (joins : List Text)
      → has_join (t ∷ joins) t' ≡ true
      → (t ≡ t') ⊎ (has_join joins t' ≡ true)
  unfolding has_join
  other_join t t' joins h = elim (Bool-cases (text_eq t t')) [
    | inl same ↦ inl ((text_eq_iff t t').0 same)
    | inr other ↦ inr (ground (arith))
  ]

  later_join :
      (t t' : Text) (joins : List Text) → has_join joins t' ≡ true → has_join (t ∷ joins) t' ≡ true
  unfolding has_join
  later_join t t' joins h = ground (arith)

  first_join : (t : Text) (joins : List Text) → has_join (t ∷ joins) t ≡ true
  unfolding has_join
  first_join t joins = ground (arith, text_eq_iff t t)

  pub Inv-skip :
      (t : Text) (joins : List Text) (s : Prefetch)
      → ((is_fetched s.out t ≡ true) ⊎ (lookup stored t ≡ none))
      → Inv (t ∷ joins) s
      → Inv joins s
  Inv-skip t joins s why inv = record {
    source = inv.source;
    agrees = inv.agrees;
    sound = inv.sound;
    waiting = inv.waiting;
    pending = λ t' target h. inv.pending t' target (later_join t t' joins h);
    closed = λ name m h. elim (inv.closed name m h) [
      | inl w ↦ inl w
      | inr c ↦ inr (λ t' target j f. elim (c t' target j f) [
        | inl fetched ↦ inl fetched
        | inr listed ↦ elim (other_join t t' joins listed) [
          | inl same ↦ elim why [
            | inl fetched ↦ inl (subst (λ k. is_fetched s.out k ≡ true) same fetched)
            | inr absent ↦ absurd (ground (arith))
          ]
          | inr later ↦ inr later
        ]
      ])
    ];
  }

  module _ (t : Text) (joins : List Text) (target : SlayerModel) (s : Prefetch) where
    old_or_new :
        (name : Text) (m : SlayerModel)
        → is_fetched s.out t ≡ false
        → lookup (s.out ++ (t, target) ∷ []) name ≡ some m
        → (lookup s.out name ≡ some m) ⊎ ((t ≡ name) × (target ≡ m))
    unfolding is_fetched
    old_or_new name m new h = elim (Option-cases (lookup s.out name)) [
      | inl absent ↦ inr (
        (text_eq_iff t name).0 (ground (arith, lookup-append s.out t name target)),
        ground (arith, lookup-append s.out t name target),
      )
      | inr (held, e) ↦ inl (ground (arith, lookup-append s.out t name target))
    ]

    kept :
        (name : Text) (m : SlayerModel)
        → lookup s.out name ≡ some m
        → lookup (s.out ++ (t, target) ∷ []) name ≡ some m
    unfolding is_fetched
    kept name m h = ground (arith, lookup-append s.out t name target)

    overlay :
        Inv (t ∷ joins) s
        → is_fetched s.out t ≡ false
        → lookup stored t ≡ some target
        → lookup ((model.name, model) ∷ stored) t ≡ some target
    unfolding is_fetched lookup
    overlay inv new found = ground (arith, text_eq_iff model.name t, inv.source)

    added : is_fetched s.out t ≡ false → lookup (s.out ++ (t, target) ∷ []) t ≡ some target
    unfolding is_fetched
    added new = ground (arith, lookup-append s.out t t target, text_eq_iff t t)

    pub Inv-collect :
        lookup stored t ≡ some target
        → is_fetched s.out t ≡ false
        → Inv (t ∷ joins) s
        → Inv joins (collect stored t target s)
    Inv-collect found new inv =
        let reached = inv.pending t target (first_join t joins) (overlay inv new found) in
        record {
          source = kept model.name model inv.source;
          agrees = λ name m h. elim (old_or_new name m new h) [
            | inl old ↦ inv.agrees name m old
            | inr (same, same_model) ↦
                subst (λ k. lookup ((model.name, model) ∷ stored) k ≡ some m) same
                  (overlay inv new found ∙ ap some same_model)
          ];
          sound = λ name m h. elim (old_or_new name m new h) [
            | inl old ↦ inv.sound name m old
            | inr (same, same_model) ↦
                subst (λ k. Joined model stored k m) same
                  (subst (Joined model stored t) same_model reached)
          ];
          waiting = λ m w. elim (Waits-cases m target s.queue w) [
            | inl old ↦ let (name, h) = inv.waiting m old in (name, kept name m h)
            | inr e ↦
                (t, subst (λ k. lookup (s.out ++ (t, target) ∷ []) t ≡ some k) (sym e) (added new))
          ];
          pending = λ t' found' h. inv.pending t' found' (later_join t t' joins h);
          closed = λ name m h. elim (old_or_new name m new h) [
            | inl old ↦ elim (inv.closed name m old) [
              | inl w ↦ inl (Waits-append m target s.queue w)
              | inr c ↦ inr (λ t' target' j f. elim (c t' target' j f) [
                | inl fetched ↦ inl (ground (arith, is_fetched-append s.out t t' target))
                | inr listed ↦ elim (other_join t t' joins listed) [
                  | inl same ↦
                      inl (ground (arith, is_fetched-append s.out t t' target, text_eq_iff t t'))
                  | inr later ↦ inr later
                ]
              ])
            ]
            | inr (same, same_model) ↦ inl (
                subst (λ k. Waits k (s.queue ++ target ∷ [])) same_model
                  (Waits-last target s.queue))
          ];
        }
