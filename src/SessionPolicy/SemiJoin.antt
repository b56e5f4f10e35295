-- ===== src/SessionPolicy/SemiJoin.antt =====
-- `_build_exists` of slayer/sql/session_policy.py against the join path of its rule.
use slayer.Prelude.{
  ℕ, ◌+◌, ◌-◌, ◌≡◌, refl, ap, ap₂, ◌∙◌, Bool, ◌&&◌, Option, none, some, List, [], ◌∷◌, length,
  any-cong, any-and, arith, eqb, false,
}
use slayer.Prelude.Text.{Text}
use slayer.Policy.{JoinHop, JoinFilterRule}
use slayer.SessionPolicy.{Alias, rls_src, hop_alias, join_clauses, terminal_predicate, build_exists}
use slayer.SessionPolicy.Rows.{
  Row, Env, extend, only, cell, sql_eq, predicate_holds, join_holds, exists_holds, reaches_tenant,
}

module _ {S : Type 0} (same : S → S → Bool) (db : Text → List (Row S))
    (rule : JoinFilterRule S) where
  -- the conditions of the emitted WHERE: the correlation of the first hop, and the tenant's value
  abbrev where_clause : Text → Text → Alias → Env S → Bool
  where_clause to_column from_column last env =
      sql_eq same (cell env (record { table = hop_alias 0; column = to_column }))
        (cell env (record { table = rls_src; column = from_column }))
      && predicate_holds same env (terminal_predicate rule last)

  -- one more alias, for a later hop, hides no earlier one
  module _ (i : ℕ) (env : Env S) (r : Row S) where
    abbrev further : Env S
    further = extend env (hop_alias (i + 1)) r

    further-first : further (hop_alias 0) ≡ env (hop_alias 0)
    further-first = ground arith

    further-new : further (hop_alias (i + 1)) ≡ some r
    further-new = ground arith

    further-previous : further (hop_alias (i + 1 - 1)) ≡ env (hop_alias i)
    further-previous =
        let e : i + 1 - 1 ≡ i = omega arith in
        let f : eqb (i + 1) i ≡ false = ground arith in rw (e, f)

  join_condition :
      (i : ℕ) (env : Env S) (current r : Row S) (to from : Text)
      → env (hop_alias i) ≡ some current
      → sql_eq same
          (cell (further i env r) (record { table = hop_alias (i + 1); column = to }))
          (cell (further i env r) (record { table = hop_alias (i + 1 - 1); column = from }))
        ≡ sql_eq same (r to) (current from)
  join_condition i env current r to from c =
      ap₂ (sql_eq same)
        (ap (λ (o : Option (Row S)). elim o [ none ↦ none | some x ↦ x to ]) (further-new i env r))
        (ap (λ (o : Option (Row S)). elim o [ none ↦ none | some x ↦ x from ])
          (further-previous i env r ∙ c))

  joins_refine :
      (hops : List JoinHop) (i j : ℕ) (env : Env S) (first row current : Row S) (to from : Text)
      → env (hop_alias 0) ≡ some first
      → env rls_src ≡ some row
      → env (hop_alias i) ≡ some current
      → j ≡ i + length hops
      → join_holds same db env (join_clauses (i + 1) hops) (where_clause to from (hop_alias j))
        ≡ (sql_eq same (first to) (row from) && reaches_tenant same db rule hops current)
  unfolding join_holds join_clauses reaches_tenant terminal_predicate
  joins_refine [] i j env first row current to from a b c e =
      let e' : j ≡ i = omega arith in rw e' (ground arith)
  joins_refine (hop ∷ hops) i j env first row current to from a b c e =
      any-cong _ _ (db hop.to_table) (λ r.
        ap₂ ◌&&◌ (join_condition i env current r hop.to_column hop.from_column c) (
          joins_refine hops (i + 1) j (further i env r) first row r to from
            (further-first i env r ∙ a) b (further-new i env r) (omega arith)))
      ∙ any-and (sql_eq same (first to) (row from))
          (λ r. sql_eq same (r hop.to_column) (current hop.from_column))
          (reaches_tenant same db rule hops) (db hop.to_table)

  -- A row passes the `EXISTS` that `_build_exists` emits exactly if a chain of rows leads from it
  -- along the hops, equal columns at each hop and never NULL, to a row whose column has the
  -- tenant's value.
  pub build_exists_refines :
      (hop : JoinHop) (hops : List JoinHop) (row : Row S)
      → exists_holds same db (only row) (build_exists rule hop hops)
        ≡ reaches_tenant same db rule (hop ∷ hops) row
  unfolding exists_holds build_exists reaches_tenant
  build_exists_refines hop hops row = any-cong _ _ (db hop.to_table) (λ r.
      joins_refine hops 0 (length hops) (extend (only row) (hop_alias 0) r) r row r hop.to_column
        hop.from_column refl refl refl (omega arith))
