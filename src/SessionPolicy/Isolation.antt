-- ===== src/SessionPolicy/Isolation.antt =====
-- `apply_session_policy` of slayer/sql/session_policy.py against the policy: the rows that what it
-- returns lets through.
use mathlib.Core.List.{Memᴰ}
use slayer.Prelude.{
  ◌≡◌, refl, sym, ap, ap₂, ◌∙◌, inl, inr, Bool, Bool-cases, List-cases, true, false, some, List, [],
  ◌∷◌, map, any, all, arith,
}
use slayer.Prelude.Text.{Text}
use slayer.Policy.{block, ColumnFilterRule, JoinFilterRule, DataFilterRule}
use slayer.SessionPolicy.{
  Predicate, Root, other, TableRef, Source, bare, semi_joined, Rewritten, Externals, wrap_table,
  column_rules, join_rules, build_all_exists, targeting, build_predicate, is_semi_joined,
  predicates_for_table, scope_ref, scope_refs, apply_session_policy,
}
use slayer.SessionPolicy.Rows.{Row, only, value_holds, predicate_holds, visible}
use slayer.Prelude.Result.{ok, bind-ok}
use slayer.SessionPolicy.Scoped.{
  has_cases, column_permits, join_permits, permits, predicates_refine, exists_refine,
}

module _ {S : Type 0} (same : S → S → Bool) (db : Text → List (Row S)) (x : Externals) where
  visible-wrap_table :
      (ref : TableRef) (ps : List (Predicate S)) (row : Row S)
      → visible same db (wrap_table ref ps) row ≡ all (predicate_holds same (only row)) ps
  unfolding visible
  visible-wrap_table ref [] row = refl
  visible-wrap_table ref (p ∷ ps) row = refl

  module _ (columns : List (ColumnFilterRule S)) (joins : List (JoinFilterRule S)) where
    scope_cte :
        (ref : TableRef) (source : Source S) (row : Row S)
        → ref.is_scope ≡ true
        → scope_ref x columns joins ref ≡ ok source
        → visible same db source row ≡ true
    unfolding scope_ref visible
    scope_cte ref source row cte h = ground arith

    scope_untargeted :
        (ref : TableRef) (source : Source S) (row : Row S)
        → ref.is_scope ≡ false
        → targeting x joins ref.scoped ≡ []
        → scope_ref x columns joins ref ≡ ok source
        → (ps : List (Predicate S)) × (predicates_for_table x ref.scoped columns ≡ ok ps)
          × (visible same db source row ≡ all (column_permits same db x ref.scoped row) columns)
    unfolding scope_ref
    scope_untargeted ref source row physical untargeted h =
        let (ps, e, f) =
          bind-ok (predicates_for_table x ref.scoped columns) (λ ps. ok (wrap_table ref ps))
            (rw (physical, untargeted, scope_ref) at h) in
        let g : source ≡ wrap_table ref ps = ground arith in
        (
          ps,
          e,
          rw g (
              visible-wrap_table ref ps row
              ∙ predicates_refine same db x ref.scoped row columns ps e),
        )

    scope_targeted :
        (ref : TableRef) (source : Source S) (row : Row S) (rule : JoinFilterRule S)
        (rules : List (JoinFilterRule S))
        → ref.is_scope ≡ false
        → targeting x joins ref.scoped ≡ rule ∷ rules
        → scope_ref x columns joins ref ≡ ok source
        → visible same db source row ≡ all (join_permits same db x row) (rule ∷ rules)
    unfolding scope_ref visible
    scope_targeted ref source row rule rules physical targeted h =
        let (es, e, f) =
          bind-ok (build_all_exists x (rule ∷ rules)) (λ es. ok (semi_joined ref es))
            (rw (physical, targeted, scope_ref) at h) in
        let g : source ≡ semi_joined ref es = ground arith in
        rw (g, visible) (exists_refine same db x row (rule ∷ rules) es e)

    scope_ref_refines :
        (ref : TableRef) (source : Source S) (row : Row S)
        → scope_ref x columns joins ref ≡ ok source
        → visible same db source row ≡ permits same db x columns joins ref row
    unfolding permits
    scope_ref_refines ref source row h = elim (Bool-cases ref.is_scope) [
      | inl cte ↦ rw (cte, permits) (scope_cte ref source row cte h)
      | inr physical ↦ elim (List-cases (targeting x joins ref.scoped)) [
        | inl untargeted ↦
            rw (physical, untargeted, permits)
              (scope_untargeted ref source row physical untargeted h).2
        | inr (rule, rules, targeted) ↦
            rw (physical, targeted, permits)
              (scope_targeted ref source row rule rules physical targeted h)
      ]
    ]

    scope_refs_refine :
        (refs : List TableRef) (sources : List (Source S)) (row : Row S)
        → scope_refs x columns joins refs ≡ ok sources
        → map (λ s. visible same db s row) sources
          ≡ map (λ ref. permits same db x columns joins ref row) refs
    unfolding scope_refs
    scope_refs_refine [] sources row h = ground arith
    scope_refs_refine (ref ∷ refs) sources row h =
        let (s, e, h1) = bind-ok (scope_ref x columns joins ref) _ h in
        let (ss, f, h2) = bind-ok (scope_refs x columns joins refs) _ h1 in
        let g : sources ≡ s ∷ ss = ground arith in
        rw g (ap₂ ◌∷◌ (scope_ref_refines ref s row e) (scope_refs_refine refs ss row f))

    all_rules-hold :
        (f : ColumnFilterRule S → Bool) (rules : List (ColumnFilterRule S))
        {rule : ColumnFilterRule S}
        → Memᴰ rule rules
        → all f rules ≡ true
        → f rule ≡ true
    all_rules-hold f [] m h = elim m [ ]
    all_rules-hold f (r ∷ rules) (Memᴰ.head e) h = rw e (ground arith)
    all_rules-hold f (r ∷ rules) (Memᴰ.tail m) h = all_rules-hold f rules m (ground arith)

    predicates-head :
        (ref : TableRef) (rule : ColumnFilterRule S) (rules : List (ColumnFilterRule S))
        (ps : List (Predicate S))
        → predicates_for_table x ref.scoped (rule ∷ rules) ≡ ok ps
        → rule.on_unapplicable ≡ block
        → x.has_column ref.scoped rule.column ≡ some true
    unfolding predicates_for_table
    predicates-head ref rule rules ps h b = elim (has_cases (x.has_column ref.scoped rule.column)) [
      | inl (inl e) ↦ ground arith
      | inl (inr e) ↦ ground arith
      | inr e ↦ e
    ]

    predicates-tail :
        (ref : TableRef) (rule : ColumnFilterRule S) (rules : List (ColumnFilterRule S))
        (ps : List (Predicate S))
        → predicates_for_table x ref.scoped (rule ∷ rules) ≡ ok ps
        → (qs : List (Predicate S)) × (predicates_for_table x ref.scoped rules ≡ ok qs)
    unfolding predicates_for_table
    predicates-tail ref rule rules ps h = elim (has_cases (x.has_column ref.scoped rule.column)) [
      | inl (inl e) ↦ absurd (ground arith)
      | inl (inr e) ↦ (ps, ground arith)
      | inr e ↦
          let (qs, f, g) =
            bind-ok (predicates_for_table x ref.scoped rules) (λ qs. ok (build_predicate rule ∷ qs))
              (rw (e, predicates_for_table) at h) in
          (qs, f)
    ]

    -- a rule that blocks was confirmed on every table that the column rules scope
    block-confirmed :
        (ref : TableRef) (rules : List (ColumnFilterRule S)) (ps : List (Predicate S))
        {rule : ColumnFilterRule S}
        → predicates_for_table x ref.scoped rules ≡ ok ps
        → Memᴰ rule rules
        → rule.on_unapplicable ≡ block
        → x.has_column ref.scoped rule.column ≡ some true
    block-confirmed ref [] ps h m b = elim m [ ]
    block-confirmed ref (r ∷ rules) ps h (Memᴰ.head e) b = rw e (
        predicates-head ref r rules ps h
          (ap (λ (q : ColumnFilterRule S). q.on_unapplicable) (sym e) ∙ b))
    block-confirmed ref (r ∷ rules) ps h (Memᴰ.tail m) b =
        let (qs, f) = predicates-tail ref r rules ps h in block-confirmed ref rules qs f m b

    -- Through a physical table that no join rule targets, a statement that is let through shows
    -- only rows that have the value of every rule that blocks, and the table was confirmed to have
    -- the column of that rule.
    pub block_rule_isolates :
        (ref : TableRef) (source : Source S) (row : Row S) (rule : ColumnFilterRule S)
        → scope_ref x columns joins ref ≡ ok source
        → ref.is_scope ≡ false
        → targeting x joins ref.scoped ≡ []
        → Memᴰ rule columns
        → rule.on_unapplicable ≡ block
        → visible same db source row ≡ true
        → (x.has_column ref.scoped rule.column ≡ some true)
          × (value_holds same rule.value (row rule.column) ≡ true)
    unfolding column_permits
    block_rule_isolates ref source row rule h physical untargeted m b seen =
        let (ps, e, f) = scope_untargeted ref source row physical untargeted h in
        let confirmed = block-confirmed ref columns ps e m b in
        (
          confirmed,
          rw (confirmed, column_permits) at
              (all_rules-hold (column_permits same db x ref.scoped row) columns m (sym f ∙ seen)),
        )

  permits-bare :
      (refs : List TableRef) (row : Row S)
      → map (λ s. visible same db s row) (map bare refs)
        ≡ map (λ ref. permits same db x [] [] ref row) refs
  unfolding visible permits targeting
  permits-bare [] row = refl
  permits-bare (ref ∷ refs) row = ap₂ ◌∷◌ (ground arith) (permits-bare refs row)

  -- Whatever the root, the references and the rules: if the rewrite succeeds, then what stands in
  -- the place of each reference lets a row through exactly if the policy grants it there.
  pub apply_session_policy_refines :
      (root : Root) (refs : List TableRef) (filters : List (DataFilterRule S)) (out : Rewritten S)
      (row : Row S)
      → apply_session_policy x root refs filters ≡ ok out
      → map (λ s. visible same db s row) out.sources
        ≡ map (λ ref. permits same db x (column_rules filters) (join_rules filters) ref row) refs
  unfolding apply_session_policy
  apply_session_policy_refines root refs [] out row h =
      let e : out.sources ≡ map bare refs = ground arith in rw e (permits-bare refs row)
  apply_session_policy_refines other refs (f ∷ fs) out row h = cc
  apply_session_policy_refines _ refs (f ∷ fs) out row h =
      let (sources, e, g) =
        bind-ok (scope_refs x (column_rules (f ∷ fs)) (join_rules (f ∷ fs)) refs)
          (λ sources.
            ok (record { sources = sources; emitted_correlated = any is_semi_joined sources }))
          h in
      let same_sources : out.sources ≡ sources = ground arith in
      rw same_sources
        (scope_refs_refine (column_rules (f ∷ fs)) (join_rules (f ∷ fs)) refs sources row e)
