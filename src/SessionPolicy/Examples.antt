-- ===== src/SessionPolicy/Examples.antt =====
-- Tests of slayer/sql/session_policy.py and the witnesses of its theorems.
use mathlib.Core.List.{Memᴰ}
use slayer.Prelude.{ℕ, ◌≡◌, refl, true, false, none, some, List, [], ◌∷◌, map, eqb, if◌then◌else◌}
use slayer.Prelude.Text.{Text, text, text_eq}
use slayer.Policy.{
  scalar, block, ColumnFilterRule, JoinHop, JoinFilterRule, DataFilterRule, column_rule, join_rule,
  require_block_backstop,
}
use slayer.SessionPolicy.{
  ScopedTable, rls_src, hop_alias, select, TableRef, Source, wrapped, semi_joined, Rewritten,
  build_exists, Externals, column_rules, join_rules, targeting, scope_ref, apply_session_policy,
}
use slayer.SessionPolicy.Rows.{Row, only, value_holds, exists_holds, visible, reaches_tenant}
use slayer.SessionPolicy.Scoped.{permits}
use slayer.SessionPolicy.SemiJoin.{build_exists_refines}
use slayer.Prelude.Result.{ok}
use slayer.SessionPolicy.Backstop.{backstop_covers}
use slayer.SessionPolicy.Isolation.{apply_session_policy_refines, block_rule_isolates}

abbrev plain_table : Text → ScopedTable
plain_table name = record { catalog = none; schema_name = none; name = name }

-- every table has the tenant's column
abbrev externals : Externals
externals = record {
  casefold = λ s. s;
  to_table = plain_table;
  has_column = λ scoped column. some true;
}

abbrev tenant_rule : ColumnFilterRule ℕ
tenant_rule = record { name = none; column = text "org"; value = scalar 7; on_unapplicable = block }

abbrev hop : JoinHop
hop = record {
  from_table = text "orders";
  from_column = text "customer";
  to_table = text "customers";
  to_column = text "id";
}

abbrev orders_rule : JoinFilterRule ℕ
orders_rule = record {
  name = none;
  target_table = text "orders";
  join_path = text "orders.customer = customers.id" ∷ [];
  column = text "org";
  value = scalar 7;
}

abbrev filters : List (DataFilterRule ℕ)
filters = column_rule tenant_rule ∷ join_rule orders_rule ∷ []

abbrev ref_to : Text → TableRef
ref_to name = record { scoped = plain_table name; alias = name; is_scope = false }

abbrev items : TableRef
items = ref_to (text "items")

abbrev refs : List TableRef
refs = ref_to (text "orders") ∷ items ∷ []

abbrev items_source : Source ℕ
items_source =
    wrapped items
      (record { this = record { table = rls_src; column = text "org" }; value = scalar 7 } ∷ [])

abbrev result : Rewritten ℕ
result = record {
  sources =
      semi_joined (ref_to (text "orders")) (
        record {
          from_table = text "customers";
          from_alias = hop_alias 0;
          joins = [];
          left = record { table = hop_alias 0; column = text "id" };
          right = record { table = rls_src; column = text "customer" };
          terminal = record {
            this = record { table = hop_alias 0; column = text "org" };
            value = scalar 7;
          };
        }
        ∷ [])
      ∷ items_source
      ∷ [];
  emitted_correlated = true;
}

test_apply : apply_session_policy externals select refs filters ≡ ok result
unfolding apply_session_policy
test_apply = refl

-- customer 1 belongs to tenant 7, customer 2 to tenant 8
abbrev customer : ℕ → ℕ → Row ℕ
customer id org column = if text_eq column (text "id") then some id else some org

abbrev db : Text → List (Row ℕ)
db table = if text_eq table (text "customers") then customer 1 7 ∷ customer 2 8 ∷ [] else []

abbrev order : ℕ → Row ℕ
order c column = some c

abbrev item : Row ℕ
item column = some 7

build_exists_refines_example :
    exists_holds eqb db (only (order 1)) (build_exists orders_rule hop [])
    ≡ reaches_tenant eqb db orders_rule (hop ∷ []) (order 1)
build_exists_refines_example = build_exists_refines eqb db orders_rule hop [] (order 1)

apply_session_policy_refines_example :
    map (λ s. visible eqb db s (order 2)) result.sources
    ≡ map
        (λ ref. permits eqb db externals (column_rules filters) (join_rules filters) ref (order 2))
        refs
apply_session_policy_refines_example =
    apply_session_policy_refines eqb db externals select refs filters result (order 2) test_apply

test_item : scope_ref externals (column_rules filters) (join_rules filters) items ≡ ok items_source
unfolding scope_ref column_rules join_rules
test_item = refl

test_untargeted : targeting externals (join_rules filters) items.scoped ≡ []
unfolding targeting join_rules
test_untargeted = refl

test_seen : visible eqb db items_source item ≡ true
unfolding visible
test_seen = refl

test_member : Memᴰ tenant_rule (column_rules filters)
unfolding column_rules
test_member = Memᴰ.head refl

block_rule_isolates_example :
    (externals.has_column items.scoped (text "org") ≡ some true)
    × (value_holds eqb (scalar 7) (item (text "org")) ≡ true)
block_rule_isolates_example =
    block_rule_isolates eqb db externals (column_rules filters) (join_rules filters) items
      items_source item tenant_rule test_item refl test_untargeted test_member refl test_seen

test_accepted : require_block_backstop filters ≡ ok filters
unfolding require_block_backstop
test_accepted = refl

backstop_covers_example :
    (rule : ColumnFilterRule ℕ) × Memᴰ rule (column_rules filters)
    × (rule.on_unapplicable ≡ block)
    × (externals.has_column items.scoped rule.column ≡ some true)
    × (value_holds eqb rule.value (item rule.column) ≡ true)
backstop_covers_example =
    backstop_covers eqb db externals filters items items_source item test_accepted refl test_item
      refl test_untargeted test_seen
