-- ===== src/Policy.antt =====
-- slayer/core/policy.py: the rules of a session policy and their validation.
-- `str.casefold` is a parameter: its Unicode table is not part of the program. A scalar of a rule
-- (`str`, `int`, `float` or `bool`) is an abstract type.
pub mod Chain
mod Examples
use slayer.Prelude.{Bool, true, false, not, Option, none, some, List, [], ◌∷◌, any, if◌then◌else◌}
use slayer.Prelude.Result.{Result, ok, err, ◌>>=◌, ◌>>◌, unless_raise}
use slayer.Prelude.Text.{Text, text, text_eq, strip, split_on, rpartition}

-- the `ValueError`s of the validators
pub data Invalid : Type 0 where
  empty_value blank_field bad_hop empty_path wrong_start broken_chain no_backstop : Invalid

abbrev pub Checked {ℓ} : Type ℓ → Type ℓ
Checked A = Result Invalid A

-- the value of a rule: a scalar for `=`, a tuple for `IN`
pub data PolicyValue (S : Type 0) : Type 0 where
  scalar : S → PolicyValue S
  many : List S → PolicyValue S

pub data OnUnapplicable : Type 0 where
  block pass : OnUnapplicable

pub record ColumnFilterRule (S : Type 0) : Type 0 where
  pub name : Option Text
  pub column : Text
  pub value : PolicyValue S
  pub on_unapplicable : OnUnapplicable

pub record JoinHop : Type 0 where
  pub from_table : Text
  pub from_column : Text
  pub to_table : Text
  pub to_column : Text

pub record JoinFilterRule (S : Type 0) : Type 0 where
  pub name : Option Text
  pub target_table : Text
  pub join_path : List Text
  pub column : Text
  pub value : PolicyValue S

pub data DataFilterRule (S : Type 0) : Type 0 where
  column_rule : ColumnFilterRule S → DataFilterRule S
  join_rule : JoinFilterRule S → DataFilterRule S

-- `_coerce_policy_value`
unfoldable pub coerce_policy_value : {S : Type 0} → PolicyValue S → Checked (PolicyValue S)
coerce_policy_value (many []) = err empty_value
coerce_policy_value v = ok v

-- `not v.strip()`
unfoldable pub is_blank : Text → Bool
unfolding strip text_eq
is_blank v = text_eq (strip v) []

-- `_require_non_blank`
unfoldable pub require_non_blank : Text → Checked Text
unfolding is_blank
require_non_blank v = if is_blank v then err blank_field else ok v

-- `_split` inside `_parse_hop`
unfoldable pub split_side : Text → Checked (Text × Text)
unfolding strip rpartition
split_side side = elim (rpartition b'.' (strip side)) [
  | none ↦ err bad_hop
  | some (table, column) ↦ ok (strip table, strip column)
]

-- the validators of `JoinHop`
unfoldable pub make_hop : Text → Text → Text → Text → Checked JoinHop
unfolding require_non_blank
make_hop from_table from_column to_table to_column = do
  a ← require_non_blank from_table
  b ← require_non_blank from_column
  c ← require_non_blank to_table
  d ← require_non_blank to_column
  ok (record { from_table = a; from_column = b; to_table = c; to_column = d })

abbrev two_sides : List Text → Checked (Text × Text)
two_sides (a ∷ b ∷ []) = ok (a, b)
two_sides _ = err bad_hop

-- `_parse_hop`
unfoldable pub parse_hop : Text → Checked JoinHop
unfolding split_on split_side make_hop
parse_hop spec = do
  sides ← two_sides (split_on b'=' spec)
  left ← split_side sides.0
  right ← split_side sides.1
  make_hop left.0 left.1 right.0 right.1

unfoldable pub parse_hops : List Text → Checked (List JoinHop)
unfolding parse_hop
parse_hops [] = ok []
parse_hops (spec ∷ specs) = do hop ← parse_hop spec; hops ← parse_hops specs; ok (hop ∷ hops)

module _ (casefold : Text → Text) where
  unfoldable pub same_name : Text → Text → Bool
  unfolding text_eq
  same_name a b = text_eq (casefold a) (casefold b)

  -- the loop of `_validate_hop_chain` over `zip(hops, hops[1:])`
  unfoldable pub chain_from : JoinHop → List JoinHop → Checked (Unit {0})
  unfolding same_name
  chain_from prev [] = ok tt
  chain_from prev (cur ∷ hops) = do
    unless_raise (same_name cur.from_table prev.to_table) broken_chain
    chain_from cur hops

  -- `_validate_hop_chain`
  unfoldable pub validate_hop_chain : Text → List JoinHop → Checked (Unit {0})
  unfolding chain_from
  validate_hop_chain target [] = err empty_path
  validate_hop_chain target (hop ∷ hops) = do
    unless_raise (same_name hop.from_table target) wrong_start
    chain_from hop hops

  -- `JoinFilterRule.parsed_hops`
  unfoldable pub parsed_hops : {S : Type 0} → JoinFilterRule S → Checked (List JoinHop)
  unfolding parse_hops validate_hop_chain
  parsed_hops rule = do
    hops ← parse_hops rule.join_path
    validate_hop_chain rule.target_table hops
    ok hops

  -- the construction of a `JoinFilterRule`, its validators included
  unfoldable pub make_join_rule : {S : Type 0} → JoinFilterRule S → Checked (JoinFilterRule S)
  unfolding coerce_policy_value require_non_blank parsed_hops
  make_join_rule rule = do
    target ← require_non_blank rule.target_table
    column ← require_non_blank rule.column
    value ← coerce_policy_value rule.value
    let built = record rule { target_table = target; column = column; value = value }
    hops ← parsed_hops built
    ok built

-- the construction of a `ColumnFilterRule`
unfoldable make_column_rule : {S : Type 0} → ColumnFilterRule S → Checked (ColumnFilterRule S)
unfolding coerce_policy_value require_non_blank
make_column_rule rule = do
  column ← require_non_blank rule.column
  value ← coerce_policy_value rule.value
  ok (record rule { column = column; value = value })

abbrev is_block : OnUnapplicable → Bool
is_block block = true
is_block pass = false

module _ {S : Type 0} where
  abbrev pub is_join : DataFilterRule S → Bool
  is_join (join_rule r) = true
  is_join (column_rule r) = false

  abbrev pub is_block_rule : DataFilterRule S → Bool
  is_block_rule (column_rule r) = is_block r.on_unapplicable
  is_block_rule (join_rule r) = false

  -- `SessionPolicy._require_block_backstop`
  unfoldable pub require_block_backstop :
      List (DataFilterRule S) → Checked (List (DataFilterRule S))
  require_block_backstop filters =
      if not (any is_join filters)
      then ok filters
      else if not (any is_block_rule filters)
      then err no_backstop
      else ok filters
