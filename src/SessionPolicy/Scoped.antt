-- ===== src/SessionPolicy/Scoped.antt =====
-- The rows that a session policy grants, and what the predicates and the `EXISTS` bodies that
-- slayer/sql/session_policy.py emits for one table let through.
use slayer.Prelude.{
  ◌≡◌, refl, ◌∙◌, ap, ap₂, Bool, true, false, ◌&&◌, Option, none, some, List, [], ◌∷◌, all, arith,
  inl, inr, ◌⊎◌,
}
use slayer.Prelude.Text.{Text}
use slayer.Policy.{Checked, ColumnFilterRule, JoinHop, JoinFilterRule, parsed_hops}
use slayer.SessionPolicy.{
  ScopedTable, valid, Predicate, Exists, TableRef, build_predicate, build_exists, Externals,
  exists_of, build_all_exists, targeting, predicates_for_table,
}
use slayer.SessionPolicy.Rows.{
  Row, only, value_holds, predicate_holds, exists_holds, reaches_tenant,
}
use slayer.Prelude.Result.{ok, err, bind-ok}
use slayer.SessionPolicy.SemiJoin.{build_exists_refines}

pub has_cases : (o : Option Bool) → ((o ≡ none) ⊎ (o ≡ some false)) ⊎ (o ≡ some true)
has_cases none = inl (inl refl)
has_cases (some false) = inl (inr refl)
has_cases (some true) = inr refl

module _ {S : Type 0} (same : S → S → Bool) (db : Text → List (Row S)) (x : Externals) where
  -- what a column rule asks of a row, where its table has the column
  unfoldable pub column_permits : ScopedTable → Row S → ColumnFilterRule S → Bool
  column_permits scoped row rule = elim (x.has_column scoped rule.column) [
    | some true ↦ value_holds same rule.value (row rule.column)
    | _ ↦ true
  ]

  -- what a join rule asks of a row
  unfoldable pub join_permits : Row S → JoinFilterRule S → Bool
  join_permits row rule = elim (parsed_hops x.casefold rule) [
    | ok hops ↦ reaches_tenant same db rule hops row
    | err e ↦ false
  ]

  -- The rows that a policy grants through a reference: all through a CTE, those that every
  -- targeting join rule permits, or, with none, those that every column rule permits.
  unfoldable pub permits :
      List (ColumnFilterRule S) → List (JoinFilterRule S) → TableRef → Row S → Bool
  unfolding column_permits join_permits
  permits columns joins ref row = elim ref.is_scope [
    | true ↦ true
    | false ↦ elim (targeting x joins ref.scoped) [
      | rule ∷ rules ↦ all (join_permits row) (rule ∷ rules)
      | [] ↦ all (column_permits ref.scoped row) columns
    ]
  ]

  predicates_cons :
      (scoped : ScopedTable) (row : Row S) (rule : ColumnFilterRule S) (qs ps : List (Predicate S))
      → x.has_column scoped rule.column ≡ some true
      → ps ≡ build_predicate rule ∷ qs
      → all (predicate_holds same (only row)) ps
        ≡ (column_permits scoped row rule && all (predicate_holds same (only row)) qs)
  unfolding build_predicate column_permits
  predicates_cons scoped row rule qs ps e f = rw (f, e, column_permits)

  pub predicates_refine :
      (scoped : ScopedTable) (row : Row S) (rules : List (ColumnFilterRule S))
      (ps : List (Predicate S))
      → predicates_for_table x scoped rules ≡ ok ps
      → all (predicate_holds same (only row)) ps ≡ all (column_permits scoped row) rules
  unfolding predicates_for_table column_permits
  predicates_refine scoped row [] ps h = ground arith
  predicates_refine scoped row (rule ∷ rules) ps h =
      elim (has_cases (x.has_column scoped rule.column)) [
        | inl (inl e) ↦ ground arith
        | inl (inr e) ↦ ground (arith, predicates_refine scoped row rules ps)
        | inr e ↦
            let (qs, f, g) =
              bind-ok (predicates_for_table x scoped rules) (λ qs. ok (build_predicate rule ∷ qs))
                (rw (e, predicates_for_table) at h) in
            predicates_cons scoped row rule qs ps e (ground arith)
            ∙ ap (λ (b : Bool). column_permits scoped row rule && b)
                (predicates_refine scoped row rules qs f)
      ]

  parsed_of : {hops : List JoinHop} (m : Checked (List JoinHop)) → valid m ≡ ok hops → m ≡ ok hops
  parsed_of (ok hops) h = ground arith
  parsed_of (err e) h = cc

  exists_one :
      (row : Row S) (rule : JoinFilterRule S) (hops : List JoinHop) (e : Exists S)
      → parsed_hops x.casefold rule ≡ ok hops
      → exists_of rule hops ≡ ok e
      → exists_holds same db (only row) e ≡ join_permits row rule
  unfolding exists_of join_permits
  exists_one row rule [] e p h = cc
  exists_one row rule (hop ∷ hops) e p h =
      let same_exists : e ≡ build_exists rule hop hops = ground arith in
      rw (same_exists, p, join_permits) (build_exists_refines same db rule hop hops row)

  pub exists_refine :
      (row : Row S) (rules : List (JoinFilterRule S)) (es : List (Exists S))
      → build_all_exists x rules ≡ ok es
      → all (exists_holds same db (only row)) es ≡ all (join_permits row) rules
  unfolding build_all_exists
  exists_refine row [] es h = ground arith
  exists_refine row (rule ∷ rules) es h =
      let (hops, parsed, h1) = bind-ok (valid (parsed_hops x.casefold rule)) _ h in
      let (e, built, h2) = bind-ok (exists_of rule hops) _ h1 in
      let (rest, f, h3) = bind-ok (build_all_exists x rules) _ h2 in
      let same_list : es ≡ e ∷ rest = ground arith in
      rw same_list (
        ap₂ ◌&&◌ (exists_one row rule hops e (parsed_of _ parsed) built)
          (exists_refine row rules rest f))
