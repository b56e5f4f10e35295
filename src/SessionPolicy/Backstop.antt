-- ===== src/SessionPolicy/Backstop.antt =====
-- slayer/sql/session_policy.py and slayer/core/policy.py: the block rule behind join rules.
use mathlib.Core.List.{Memᴰ}
use slayer.Prelude.{◌≡◌, refl, ◌⊎◌, inl, inr, Bool, true, false, some, List, [], ◌∷◌, any, arith}
use slayer.Prelude.Text.{Text}
use slayer.Policy.{
  OnUnapplicable, pass, block, ColumnFilterRule, DataFilterRule, column_rule, join_rule, is_join,
  is_block_rule, require_block_backstop,
}
use slayer.Policy.Chain.{require_block_backstop_iff}
use slayer.SessionPolicy.{
  TableRef, Source, Externals, column_rules, join_rules, targeting, scope_ref,
}
use slayer.SessionPolicy.Rows.{Row, value_holds, visible}
use slayer.Prelude.Result.{ok}
use slayer.SessionPolicy.Isolation.{block_rule_isolates}

unapplicable_cases : (o : OnUnapplicable) → (o ≡ block) ⊎ (o ≡ pass)
unapplicable_cases block = inl refl
unapplicable_cases pass = inr refl

any_block_rule :
    {S : Type 0} (filters : List (DataFilterRule S))
    → any is_block_rule filters ≡ true
    → (rule : ColumnFilterRule S) × Memᴰ rule (column_rules filters)
      × (rule.on_unapplicable ≡ block)
unfolding column_rules
any_block_rule [] h = absurd (cc)
any_block_rule (join_rule r ∷ fs) h = any_block_rule fs h
any_block_rule (column_rule r ∷ fs) h = elim (unapplicable_cases r.on_unapplicable) [
  | inl e ↦ (r, Memᴰ.head refl, e)
  | inr e ↦ let (rule, m, b) = any_block_rule fs (rw e at h) in (rule, Memᴰ.tail m, b)
]

-- Under an accepted policy that has a join rule, a physical table that none targets is let through
-- only if it was confirmed to have the column of some rule that blocks, and then shows only rows
-- with that rule's value.
pub backstop_covers :
    {S : Type 0} (same : S → S → Bool) (db : Text → List (Row S)) (x : Externals)
    (filters : List (DataFilterRule S)) (ref : TableRef) (source : Source S) (row : Row S)
    → require_block_backstop filters ≡ ok filters
    → any is_join filters ≡ true
    → scope_ref x (column_rules filters) (join_rules filters) ref ≡ ok source
    → ref.is_scope ≡ false
    → targeting x (join_rules filters) ref.scoped ≡ []
    → visible same db source row ≡ true
    → (rule : ColumnFilterRule S) × Memᴰ rule (column_rules filters)
      × (rule.on_unapplicable ≡ block)
      × (x.has_column ref.scoped rule.column ≡ some true)
      × (value_holds same rule.value (row rule.column) ≡ true)
backstop_covers same db x filters ref source row accepted joined h physical untargeted seen =
    let blocks : any is_block_rule filters ≡ true =
      ground (arith, (require_block_backstop_iff filters).0 accepted) in
    let (rule, m, b) = any_block_rule filters blocks in
    let (confirmed, holds) =
      block_rule_isolates same db x (column_rules filters) (join_rules filters) ref source row rule
        h physical untargeted m b seen in
    (rule, m, b, confirmed, holds)
