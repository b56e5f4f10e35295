-- ===== src/ColumnCycles/Prefetch.antt =====
-- slayer/engine/column_dependency.py: the models that `_prefetch_reachable_models` collects.
use slayer.Prelude.{
  ℕ, zero, suc, ◌+◌, ◌≤◌, ◌≡◌, refl, ap, ◌⊎◌, inl, inr, Bool-cases, Option-cases, List-cases, true,
  false, ◌||◌, none, some, List, [], ◌∷◌, ◌++◌, length, length-append, arith, if◌then◌else◌,
}
use slayer.Prelude.Text.{Text, text_eq, text_eq_iff}
use slayer.Prelude.TextDict.{TextDict, lookup}
use slayer.ColumnCycles.{SlayerModel}
use slayer.ColumnCycles.Search.{
  Prefetch, is_fetched, fetch_join, fetch_joins, prefetch_loop, prefetch_reachable_models,
}

pub lookup-append :
    (out : TextDict SlayerModel) (name asked : Text) (model : SlayerModel)
    → lookup (out ++ (name, model) ∷ []) asked ≡ (
        if is_fetched out asked
        then lookup out asked
        else (if text_eq name asked then some model else none))
unfolding lookup is_fetched
lookup-append [] name asked model = ground arith
lookup-append ((first, held) ∷ out) name asked model =
    ground (arith, lookup-append out name asked model)

pub is_fetched-append :
    (out : TextDict SlayerModel) (name asked : Text) (model : SlayerModel)
    → is_fetched (out ++ (name, model) ∷ []) asked ≡ (is_fetched out asked || text_eq name asked)
unfolding is_fetched
is_fetched-append out name asked model = ground (arith, lookup-append out name asked model)

-- how many of the stored models are not collected
missing : TextDict SlayerModel → TextDict SlayerModel → ℕ
missing out [] = 0
missing out ((name, model) ∷ stored) = (if is_fetched out name then 0 else 1) + missing out stored

missing-le-length : (out stored : TextDict SlayerModel) → missing out stored ≤ length stored
unfolding missing
missing-le-length out [] = omega arith
missing-le-length out ((name, model) ∷ stored) = ground (arith, missing-le-length out stored)

module _ (out : TextDict SlayerModel) (name : Text) (model : SlayerModel) where
  missing-append-le :
      (stored : TextDict SlayerModel)
      → missing (out ++ (name, model) ∷ []) stored ≤ missing out stored
  unfolding missing
  missing-append-le [] = omega arith
  missing-append-le ((n, m) ∷ stored) =
      ground (arith, missing-append-le stored, is_fetched-append out name n model)

  missing-append-lt :
      (stored : TextDict SlayerModel) (found : SlayerModel)
      → is_fetched out name ≡ false
      → lookup stored name ≡ some found
      → suc (missing (out ++ (name, model) ∷ []) stored) ≤ missing out stored
  unfolding missing lookup
  missing-append-lt [] found h k = absurd (cc)
  missing-append-lt ((n, m) ∷ stored) found h k = ground (
    arith,
    missing-append-lt stored found,
    missing-append-le stored,
    is_fetched-append out name n model,
    text_eq_iff n name,
    text_eq_iff name n,
  )

module _ (stored : TextDict SlayerModel) where
  abbrev pub collect : Text → SlayerModel → Prefetch → Prefetch
  collect name target s = record {
    out = s.out ++ (name, target) ∷ [];
    queue = s.queue ++ target ∷ [];
  }

  -- A step of the loop adds a stored model that was not collected, or nothing.
  pub fetch_join-cases :
      (t : Text) (s : Prefetch)
      → ((fetch_join stored t s ≡ s) × ((is_fetched s.out t ≡ true) ⊎ (lookup stored t ≡ none)))
        ⊎ ((target : SlayerModel) × (lookup stored t ≡ some target)
            × (is_fetched s.out t ≡ false)
            × (fetch_join stored t s ≡ collect t target s))
  unfolding fetch_join
  fetch_join-cases t s = elim (Bool-cases (is_fetched s.out t)) [
    | inl old ↦ inl (rw (old, fetch_join) refl, inl old)
    | inr new ↦ elim (Option-cases (lookup stored t)) [
      | inl absent ↦ inl (rw (new, absent, fetch_join) refl, inr absent)
      | inr (target, found) ↦ inr (target, found, new, rw (new, found, fetch_join) refl)
    ]
  ]

  abbrev work : Prefetch → ℕ
  work s = missing s.out stored + length s.queue

  work-fetch_joins : (joins : List Text) (s : Prefetch) → work (fetch_joins stored joins s) ≤ work s
  unfolding fetch_joins
  work-fetch_joins [] s = omega arith
  work-fetch_joins (t ∷ joins) s =
      let rest = work-fetch_joins joins (fetch_join stored t s) in
      elim (fetch_join-cases t s) [
        | inl (same, _) ↦ omega (arith, rest, ap work same)
        | inr (target, found, new, same) ↦ omega (
          arith,
          rest,
          ap work same,
          missing-append-lt s.out t target stored target new found,
          length-append s.queue (target ∷ []),
        )
      ]

  prefetch_ends :
      (fuel : ℕ) (s : Prefetch)
      → suc (work s) ≤ fuel
      → (out : TextDict SlayerModel) × (prefetch_loop stored fuel s ≡ some out)
  unfolding prefetch_loop
  prefetch_ends zero s h = absurd (omega arith)
  prefetch_ends (suc fuel) s h = elim (List-cases s.queue) [
    | inl e ↦ (s.out, rw (e, prefetch_loop))
    | inr (current, rest, e) ↦
        let (out, f) =
          prefetch_ends fuel (fetch_joins stored current.joins (record s { queue = rest })) (
            omega
              (arith, work-fetch_joins current.joins (record s { queue = rest }), ap length e)) in
        (out, rw (e, prefetch_loop) f)
  ]

-- the loop over the models ends
pub prefetch_reachable_models_ends :
    (model : SlayerModel) (stored : TextDict SlayerModel)
    → (reachable : TextDict SlayerModel) × (prefetch_reachable_models model stored ≡ some reachable)
unfolding prefetch_reachable_models
prefetch_reachable_models_ends model stored =
    prefetch_ends stored (suc (suc (length stored)))
      (record { out = (model.name, model) ∷ []; queue = model ∷ [] })
      (omega (arith, missing-le-length ((model.name, model) ∷ []) stored))
