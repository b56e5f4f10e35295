-- ===== src/SessionPolicy.antt =====
-- slayer/sql/session_policy.py: the rewrite that scopes every physical table of a statement.
-- sqlglot parses and prints: a parsed statement is given as its root and its table references, and
-- the rewritten one is the list of what stands in the place of each reference. `to_table` is
-- sqlglot's `exp.to_table`, and `has_column` the caller's probe.
pub mod Rows
pub mod SemiJoin
pub mod Scoped
pub mod Isolation
pub mod Backstop
mod Examples
use slayer.Prelude.{
  ℕ, ◌+◌, ◌-◌, length, Bool, true, false, not, ◌&&◌, Option, none, some, List, [], ◌∷◌, keep_if,
  any, map,
}
use slayer.Prelude.Result.{Result, ok, err, ◌>>=◌}
use slayer.Prelude.Text.{Text, text_eq}
use slayer.Policy.{
  Checked, PolicyValue, OnUnapplicable, block, pass, ColumnFilterRule, JoinHop, JoinFilterRule,
  DataFilterRule, column_rule, join_rule, parsed_hops, same_name, Invalid,
}

pub record ScopedTable : Type 0 where
  pub catalog : Option Text
  pub schema_name : Option Text
  pub name : Text

-- why the rewrite fails closed
pub data ForcedFilterError : Type 0 where
  unconfirmed : Text → Text → ForcedFilterError
  blocked : Text → Text → ForcedFilterError
  not_a_select : ForcedFilterError
  bad_rule : Invalid → ForcedFilterError

abbrev Outcome {ℓ} : Type ℓ → Type ℓ
Outcome A = Result ForcedFilterError A

abbrev pub valid {ℓ} : {A : Type ℓ} → Checked A → Outcome A
valid (ok a) = ok a
valid (err e) = err (bad_rule e)

-- the aliases inside a wrapper: `_RLS_SRC` and `_hop_alias(i)`
pub data Alias : Type 0 where
  rls_src : Alias
  hop_alias : ℕ → Alias

pub record ColumnRef : Type 0 where
  pub table : Alias
  pub column : Text

-- `exp.EQ` for a scalar and `exp.In` for a tuple: the shape is that of the value
pub record Predicate (S : Type 0) : Type 0 where
  pub this : ColumnRef
  pub value : PolicyValue S

pub record JoinClause : Type 0 where
  pub to_table : Text
  pub alias : Alias
  pub on_left : ColumnRef
  pub on_right : ColumnRef

-- `SELECT 1 FROM … AS _rls_j0 JOIN … WHERE correlation AND terminal`
pub record Exists (S : Type 0) : Type 0 where
  pub from_table : Text
  pub from_alias : Alias
  pub joins : List JoinClause
  pub left : ColumnRef
  pub right : ColumnRef
  pub terminal : Predicate S

pub data Root : Type 0 where
  select set_operation other : Root

-- A table reference of a parsed statement: its identity, its `alias_or_name`, and whether its scope
-- resolves that name to a CTE or a derived table.
pub record TableRef : Type 0 where
  pub scoped : ScopedTable
  pub alias : Text
  pub is_scope : Bool

-- what stands in the place of a reference afterwards
pub data Source (S : Type 0) : Type 0 where
  bare : TableRef → Source S
  wrapped : TableRef → List (Predicate S) → Source S
  semi_joined : TableRef → List (Exists S) → Source S

pub record Rewritten (S : Type 0) : Type 0 where
  pub sources : List (Source S)
  pub emitted_correlated : Bool

-- the loop of `_build_exists` over the hops from the `i`-th on
unfoldable pub join_clauses : ℕ → List JoinHop → List JoinClause
join_clauses i [] = []
join_clauses i (hop ∷ hops) =
    record {
      to_table = hop.to_table;
      alias = hop_alias i;
      on_left = record { table = hop_alias i; column = hop.to_column };
      on_right = record { table = hop_alias (i - 1); column = hop.from_column };
    }
    ∷ join_clauses (i + 1) hops

module _ {S : Type 0} where
  -- `_build_predicate`: the column of the only table in the wrapper
  unfoldable pub build_predicate : ColumnFilterRule S → Predicate S
  build_predicate rule = record {
    this = record { table = rls_src; column = rule.column };
    value = rule.value;
  }

  -- `_terminal_predicate`
  unfoldable pub terminal_predicate : JoinFilterRule S → Alias → Predicate S
  terminal_predicate rule alias = record {
    this = record { table = alias; column = rule.column };
    value = rule.value;
  }

  -- `_build_exists` over the parsed hops, of which there is a first
  unfoldable pub build_exists : JoinFilterRule S → JoinHop → List JoinHop → Exists S
  unfolding join_clauses terminal_predicate
  build_exists rule hop hops = record {
    from_table = hop.to_table;
    from_alias = hop_alias 0;
    joins = join_clauses 1 hops;
    left = record { table = hop_alias 0; column = hop.to_column };
    right = record { table = rls_src; column = hop.from_column };
    terminal = terminal_predicate rule (hop_alias (length hops));
  }

-- What the rewrite is given: `str.casefold`, sqlglot's `exp.to_table`, and the probe for a column,
-- which says yes, no, or that it cannot tell.
pub record Externals : Type 0 where
  pub casefold : Text → Text
  pub to_table : Text → ScopedTable
  pub has_column : ScopedTable → Text → Option Bool

module _ (x : Externals) where
  -- `(part or "").casefold() != wanted.casefold()` where the target names that part
  abbrev part_matches : Option Text → Option Text → Bool
  part_matches none part = true
  part_matches (some wanted) none = same_name x.casefold [] wanted
  part_matches (some wanted) (some part) = same_name x.casefold part wanted

  -- `_target_matches`
  unfoldable target_matches : ScopedTable → Text → Bool
  unfolding same_name
  target_matches scoped target =
      let parsed = x.to_table target in
      same_name x.casefold scoped.name parsed.name
      && (part_matches parsed.schema_name scoped.schema_name
          && part_matches parsed.catalog scoped.catalog)

module _ {S : Type 0} where
  unfoldable pub exists_of : JoinFilterRule S → List JoinHop → Outcome (Exists S)
  unfolding build_exists
  exists_of rule [] = err (bad_rule Invalid.empty_path)
  exists_of rule (hop ∷ hops) = ok (build_exists rule hop hops)

  -- a table that no predicate applies to is left as it is
  abbrev pub wrap_table : TableRef → List (Predicate S) → Source S
  wrap_table ref [] = bare ref
  wrap_table ref (p ∷ ps) = wrapped ref (p ∷ ps)

  -- `[r for r in policy.data_filters if isinstance(r, ColumnFilterRule)]`, and the join rules
  unfoldable pub column_rules : List (DataFilterRule S) → List (ColumnFilterRule S)
  column_rules [] = []
  column_rules (column_rule r ∷ rs) = r ∷ column_rules rs
  column_rules (join_rule r ∷ rs) = column_rules rs

  unfoldable pub join_rules : List (DataFilterRule S) → List (JoinFilterRule S)
  join_rules [] = []
  join_rules (column_rule r ∷ rs) = join_rules rs
  join_rules (join_rule r ∷ rs) = r ∷ join_rules rs

  abbrev pub is_semi_joined : Source S → Bool
  is_semi_joined (semi_joined ref exists) = true
  is_semi_joined _ = false

module _ (x : Externals) {S : Type 0} where
  -- `_wrap_table_exists`: the path of each rule is parsed and checked again
  unfoldable pub build_all_exists : List (JoinFilterRule S) → Outcome (List (Exists S))
  unfolding parsed_hops exists_of
  build_all_exists [] = ok []
  build_all_exists (rule ∷ rules) = do
    hops ← valid (parsed_hops x.casefold rule)
    first ← exists_of rule hops
    rest ← build_all_exists rules
    ok (first ∷ rest)

  -- the join rules that target a table
  unfoldable pub targeting : List (JoinFilterRule S) → ScopedTable → List (JoinFilterRule S)
  unfolding target_matches
  targeting rules scoped = keep_if (λ r. target_matches x scoped r.target_table) rules

  -- `_predicates_for_table`
  unfoldable pub predicates_for_table :
      ScopedTable → List (ColumnFilterRule S) → Outcome (List (Predicate S))
  unfolding build_predicate
  predicates_for_table scoped [] = ok []
  predicates_for_table scoped (rule ∷ rules) =
      let rest = predicates_for_table scoped rules in
      elim (x.has_column scoped rule.column) [
        | none ↦ err (unconfirmed scoped.name rule.column)
        | some false ↦ elim rule.on_unapplicable [
          | block ↦ err (blocked scoped.name rule.column)
          | pass ↦ rest
        ]
        | some true ↦ rest >>= λ predicates. ok (build_predicate rule ∷ predicates)
      ]

  -- the body of the loop over the physical tables
  unfoldable pub scope_ref :
      List (ColumnFilterRule S) → List (JoinFilterRule S) → TableRef → Outcome (Source S)
  unfolding targeting predicates_for_table build_all_exists
  scope_ref columns joins ref = elim ref.is_scope [
    | true ↦ ok (bare ref)
    | false ↦ elim (targeting joins ref.scoped) [
      | rule ∷ rules ↦ build_all_exists (rule ∷ rules) >>= λ exists. ok (semi_joined ref exists)
      | [] ↦ predicates_for_table ref.scoped columns >>= λ ps. ok (wrap_table ref ps)
    ]
  ]

  unfoldable pub scope_refs :
      List (ColumnFilterRule S)
      → List (JoinFilterRule S)
      → List TableRef
      → Outcome (List (Source S))
  unfolding scope_ref
  scope_refs columns joins [] = ok []
  scope_refs columns joins (ref ∷ refs) = do
    source ← scope_ref columns joins ref
    sources ← scope_refs columns joins refs
    ok (source ∷ sources)

  -- `apply_session_policy`; the callback is called once if `emitted_correlated`
  unfoldable pub apply_session_policy :
      Root → List TableRef → List (DataFilterRule S) → Outcome (Rewritten S)
  unfolding scope_refs column_rules join_rules
  apply_session_policy root refs [] =
      ok (record { sources = map bare refs; emitted_correlated = false })
  apply_session_policy other refs (f ∷ fs) = err not_a_select
  apply_session_policy _ refs (f ∷ fs) = do
    sources ← scope_refs (column_rules (f ∷ fs)) (join_rules (f ∷ fs)) refs
    ok (record { sources = sources; emitted_correlated = any is_semi_joined sources })
