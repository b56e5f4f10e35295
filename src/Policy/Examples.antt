-- ===== src/Policy/Examples.antt =====
-- Tests of slayer/core/policy.py and the witnesses of its theorems.
use slayer.Prelude.{ℕ, ◌≡◌, ◌≢◌, ◌↔◌, refl, none, List, [], ◌∷◌}
use slayer.Prelude.Text.{Text, text}
use slayer.Policy.{
  bad_hop, scalar, JoinHop, JoinFilterRule, parse_hop, validate_hop_chain, make_join_rule,
}
use slayer.Prelude.Result.{ok, err}
use slayer.Policy.Chain.{Links, validate_hop_chain_iff, IsJoinRule, make_join_rule-valid}

abbrev hop : JoinHop
hop = record {
  from_table = text "public.orders";
  from_column = text "customer_id";
  to_table = text "customers";
  to_column = text "id";
}

test_parse : parse_hop (text " public.orders.customer_id= customers.id") ≡ ok hop
unfolding parse_hop
test_parse = refl

test_no_column : parse_hop (text "orders = customers.id") ≡ err bad_hop
unfolding parse_hop
test_no_column = refl

abbrev keep_case : Text → Text
keep_case s = s

abbrev orders_rule : JoinFilterRule ℕ
orders_rule = record {
  name = none;
  target_table = text "public.orders";
  join_path = text "public.orders.customer_id = customers.id" ∷ [];
  column = text "organization_uuid";
  value = scalar 7;
}

test_rule : make_join_rule keep_case orders_rule ≡ ok orders_rule
unfolding make_join_rule parse_hop validate_hop_chain
test_rule = refl

make_join_rule-valid_example : (orders_rule ≡ orders_rule) × IsJoinRule keep_case orders_rule
make_join_rule-valid_example = make_join_rule-valid keep_case orders_rule orders_rule test_rule

validate_hop_chain_iff_example :
    (validate_hop_chain keep_case (text "public.orders") (hop ∷ []) ≡ ok tt)
    ↔ ((◌≢◌ {A = List JoinHop} (hop ∷ []) []) × Links keep_case (text "public.orders") (hop ∷ []))
validate_hop_chain_iff_example = validate_hop_chain_iff keep_case (text "public.orders") (hop ∷ [])
