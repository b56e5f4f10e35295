-- ===== src/Policy/Chain.antt =====
-- slayer/core/policy.py: what the construction of a join rule checks.
use slayer.Prelude.{
  ◌≡◌, refl, ◌≢◌, ◌↔◌, Bool-cases, inl, inr, ◌⊎◌, true, false, List, [], ◌∷◌, arith, any, All,
}
use slayer.Prelude.Text.{Text, text_eq_iff, split_on}
use slayer.Prelude.Result.{ok, ◌>>=◌, bind-ok}
use slayer.Policy.{
  Checked, PolicyValue, scalar, many, JoinHop, JoinFilterRule, is_blank, two_sides, split_side,
  coerce_policy_value, require_non_blank, make_hop, parse_hop, parse_hops, chain_from,
  validate_hop_chain, parsed_hops, make_join_rule, DataFilterRule, is_join, is_block_rule,
  require_block_backstop,
}

module _ (casefold : Text → Text) where
  -- each hop starts at the table where the one before it ended, up to case
  abbrev pub Links : Text → List JoinHop → Type 0
  Links table [] = Unit
  Links table (hop ∷ hops) = (casefold hop.from_table ≡ casefold table) × Links hop.to_table hops

  chain_from_iff :
      (prev : JoinHop) (hops : List JoinHop)
      → (chain_from casefold prev hops ≡ ok tt) ↔ Links prev.to_table hops
  unfolding chain_from
  chain_from_iff prev [] = (λ _. tt, λ _. refl)
  chain_from_iff prev (cur ∷ hops) = ground (
    arith,
    text_eq_iff (casefold cur.from_table) (casefold prev.to_table),
    chain_from_iff cur hops,
  )

  -- `_validate_hop_chain` accepts exactly the non-empty paths that start at the target table and in
  -- which every hop starts where the one before it ended, table names compared by their case folds.
  pub validate_hop_chain_iff :
      (target : Text) (hops : List JoinHop)
      → (validate_hop_chain casefold target hops ≡ ok tt) ↔ ((hops ≢ []) × Links target hops)
  unfolding validate_hop_chain
  validate_hop_chain_iff target [] = (λ h. cc, λ h. absurd (h.0 refl))
  validate_hop_chain_iff target (hop ∷ hops) =
      ground
        (arith, text_eq_iff (casefold hop.from_table) (casefold target), chain_from_iff hop hops)

require-bind {ℓ} :
    {B : Type ℓ} (v : Text) (f : Text → Checked B) {b : B}
    → (require_non_blank v >>= f) ≡ ok b
    → (is_blank v ≡ false) × (f v ≡ ok b)
unfolding require_non_blank
require-bind v f h = elim (Bool-cases (is_blank v)) [
  | inl e ↦ absurd (cc (rw e at h))
  | inr e ↦ (e, rw e at h)
]

coerce-bind {ℓ} :
    {S : Type 0} {B : Type ℓ} (v : PolicyValue S) (f : PolicyValue S → Checked B) {b : B}
    → (coerce_policy_value v >>= f) ≡ ok b
    → (v ≢ many []) × (f v ≡ ok b)
unfolding coerce_policy_value
coerce-bind (scalar s) f h = (λ e. cc, h)
coerce-bind (many []) f h = cc
coerce-bind (many (s ∷ l)) f h = (λ e. cc, h)

-- no part of a hop is blank
pub record IsHop (hop : JoinHop) : Type 0 where
  pub from_table : is_blank hop.from_table ≡ false
  pub from_column : is_blank hop.from_column ≡ false
  pub to_table : is_blank hop.to_table ≡ false
  pub to_column : is_blank hop.to_column ≡ false

make_hop-IsHop : (a b c d : Text) {hop : JoinHop} → make_hop a b c d ≡ ok hop → IsHop hop
unfolding make_hop
make_hop-IsHop a b c d h =
    let (ha, h1) = require-bind a _ h in
    let (hb, h2) = require-bind b _ h1 in
    let (hc, h3) = require-bind c _ h2 in let (hd, h4) = require-bind d _ h3 in ground arith

parse_hop-IsHop : (spec : Text) {hop : JoinHop} → parse_hop spec ≡ ok hop → IsHop hop
unfolding parse_hop
parse_hop-IsHop spec h =
    let (sides, _, h1) = bind-ok (two_sides (split_on b'=' spec)) _ h in
    let (l, _, h2) = bind-ok (split_side sides.0) _ h1 in
    let (r, _, h3) = bind-ok (split_side sides.1) _ h2 in make_hop-IsHop l.0 l.1 r.0 r.1 h3

parse_hops-IsHop :
    (specs : List Text) {hops : List JoinHop} → parse_hops specs ≡ ok hops → All IsHop hops
unfolding parse_hops
parse_hops-IsHop [] {hops} h = ground arith
parse_hops-IsHop (spec ∷ specs) h =
    let (hop, e, h1) = bind-ok (parse_hop spec) _ h in
    let (rest, f, h2) = bind-ok (parse_hops specs) _ h1 in
    ground (arith, parse_hop-IsHop spec e, parse_hops-IsHop specs f)

module _ (casefold : Text → Text) {S : Type 0} where
  -- what every join rule that was built holds to
  pub record IsJoinRule (rule : JoinFilterRule S) : Type 0 where
    pub hops : List JoinHop
    pub parsed : parse_hops rule.join_path ≡ ok hops
    pub whole : All IsHop hops
    pub some_hop : hops ≢ []
    pub links : Links casefold rule.target_table hops
    pub target : is_blank rule.target_table ≡ false
    pub tenant : is_blank rule.column ≡ false
    pub values : rule.value ≢ many []

  parsed_hops-ok :
      (rule : JoinFilterRule S) (hops : List JoinHop)
      → parsed_hops casefold rule ≡ ok hops
      → (parse_hops rule.join_path ≡ ok hops)
        × (validate_hop_chain casefold rule.target_table hops ≡ ok tt)
  unfolding parsed_hops
  parsed_hops-ok rule hops h =
      let (hops', e, h1) = bind-ok (parse_hops rule.join_path) _ h in
      let (u, f, h2) = bind-ok (validate_hop_chain casefold rule.target_table hops') _ h1 in
      ground arith

  -- A join rule that is built is the rule as it was written, and its target, its column and every
  -- part of every hop are not blank, its tuple of values is not empty, and its hops parse to a
  -- non-empty chain from the target table.
  pub make_join_rule-valid :
      (raw rule : JoinFilterRule S)
      → make_join_rule casefold raw ≡ ok rule
      → (rule ≡ raw) × IsJoinRule rule
  unfolding make_join_rule
  make_join_rule-valid raw rule h =
      let (target, h1) = require-bind raw.target_table _ h in
      let (tenant, h2) = require-bind raw.column _ h1 in
      let (values, h3) = coerce-bind raw.value _ h2 in
      let (hops, e, h4) = bind-ok (parsed_hops casefold raw) _ h3 in
      let (parsed, chain) = parsed_hops-ok raw hops e in
      let (some_hop, links) = (validate_hop_chain_iff casefold raw.target_table hops).0 chain in
      let same : rule ≡ raw = ground arith in
      (
        same,
        rw same (record {
          hops = hops;
          parsed = parsed;
          whole = parse_hops-IsHop raw.join_path parsed;
          some_hop = some_hop;
          links = links;
          target = target;
          tenant = tenant;
          values = values;
        }),
      )

-- A policy is accepted as it is, exactly if it has no join rule or has a column rule that blocks.
pub require_block_backstop_iff :
    {S : Type 0} (filters : List (DataFilterRule S))
    → (require_block_backstop filters ≡ ok filters)
      ↔ ((any is_join filters ≡ false) ⊎ (any is_block_rule filters ≡ true))
unfolding require_block_backstop
require_block_backstop_iff filters = ground arith
