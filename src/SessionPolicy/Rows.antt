-- ===== src/SessionPolicy/Rows.antt =====
-- What the wrappers of slayer/sql/session_policy.py let through: SQL's meaning of the emitted
-- predicates and of the correlated `EXISTS`, over the rows of a database.
use slayer.Prelude.{
  Bool, true, false, ◌&&◌, Option, none, some, List, [], ◌∷◌, any, all, eqb, if◌then◌else◌,
}
use slayer.Prelude.Text.{Text}
use slayer.Policy.{PolicyValue, scalar, many, JoinHop, JoinFilterRule}
use slayer.SessionPolicy.{
  Alias, rls_src, hop_alias, ColumnRef, Predicate, JoinClause, Exists, Source, bare, wrapped,
  semi_joined,
}

-- A row gives the value of each column, `none` for NULL.
abbrev pub Row : Type 0 → Type 0
Row S = Text → Option S

abbrev alias_eq : Alias → Alias → Bool
alias_eq rls_src rls_src = true
alias_eq (hop_alias i) (hop_alias j) = eqb i j
alias_eq _ _ = false

-- the rows that the aliases of a query stand for
abbrev pub Env : Type 0 → Type 0
Env S = Alias → Option (Row S)

module _ {S : Type 0} where
  abbrev pub extend : Env S → Alias → Row S → Env S
  extend env a r b = if alias_eq a b then some r else env b

  abbrev pub only : Row S → Env S
  only row = extend (λ _. none) rls_src row

  abbrev pub cell : Env S → ColumnRef → Option S
  cell env ref = elim (env ref.table) [ none ↦ none | some r ↦ r ref.column ]

module _ {S : Type 0} (same : S → S → Bool) where
  -- `=` in SQL: a comparison with NULL does not hold
  abbrev pub sql_eq : Option S → Option S → Bool
  sql_eq none b = false
  sql_eq (some a) none = false
  sql_eq (some a) (some b) = same a b

  abbrev pub value_holds : PolicyValue S → Option S → Bool
  value_holds v none = false
  value_holds (scalar s) (some a) = same a s
  value_holds (many ss) (some a) = any (same a) ss

  abbrev pub predicate_holds : Env S → Predicate S → Bool
  predicate_holds env p = value_holds p.value (cell env p.this)

  module _ (db : Text → List (Row S)) where
    unfoldable pub join_holds : Env S → List JoinClause → (Env S → Bool) → Bool
    join_holds env [] where_clause = where_clause env
    join_holds env (j ∷ js) where_clause =
        any
          (λ r.
            let env' = extend env j.alias r in
            sql_eq (cell env' j.on_left) (cell env' j.on_right) && join_holds env' js where_clause)
          (db j.to_table)

    unfoldable pub exists_holds : Env S → Exists S → Bool
    unfolding join_holds
    exists_holds env e =
        any
          (λ r. join_holds (extend env e.from_alias r) e.joins (λ env'.
            sql_eq (cell env' e.left) (cell env' e.right) && predicate_holds env' e.terminal))
          (db e.from_table)

    -- whether a row of the referenced table comes out of what stands in its place
    unfoldable pub visible : Source S → Row S → Bool
    unfolding exists_holds
    visible (bare ref) row = true
    visible (wrapped ref ps) row = all (predicate_holds (only row)) ps
    visible (semi_joined ref es) row = all (exists_holds (only row)) es

    -- The tenant condition of a join rule, by the path alone: some chain of rows leads from the row
    -- to one with the tenant's value.
    unfoldable pub reaches_tenant : JoinFilterRule S → List JoinHop → Row S → Bool
    reaches_tenant rule [] row = value_holds rule.value (row rule.column)
    reaches_tenant rule (hop ∷ hops) row =
        any (λ r. sql_eq (r hop.to_column) (row hop.from_column) && reaches_tenant rule hops r)
          (db hop.to_table)
