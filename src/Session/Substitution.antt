-- ===== src/Session/Substitution.antt =====
-- slayer/pg_facade/connection.py: the substitution of the `$N` placeholders, and what Bind stores.
use slayer.Prelude.{
  ℕ, zero, suc, ◌≤◌, ◌≡◌, refl, sym, ap, ◌∙◌, Bool, true, false, some, List, [], ◌∷◌, ◌++◌, length,
  eqb, eqb_iff, if◌then◌else◌, All, arith,
}
use slayer.Prelude.Result.{Result, err, ok}
use slayer.Prelude.Text.{Text, text_eq, text_eq_iff}
use slayer.Prelude.TextDict.{lookup, lookup-assign}
use slayer.Wire.{ℤ}
use slayer.Wire.Decode.{ParseMessage, BindMessage}
use slayer.Session.{
  Raised, malformed, Backend, PgConnection, PreparedStatement, parse_complete, bind_complete,
}
use slayer.Session.Act.{◌>>◌, write}
use slayer.Session.Params.{
  outside, max, pad_oids, placeholders, max_index, resolve_param_oids, substitute_params,
}
use slayer.Session.Handlers.{handle_parse, bind_sql, store_portal, bound, bind_to, handle_bind}

length-pad_oids : (n : ℕ) (declared : List ℤ) → length (pad_oids n declared) ≡ n
unfolding pad_oids
length-pad_oids zero declared = refl
length-pad_oids (suc n) [] = omega (arith, length-pad_oids n [])
length-pad_oids (suc n) (oid ∷ declared) = omega (arith, length-pad_oids n declared)

if-ok {ℓ} :
    {A : Type ℓ} (t : Bool) (x : Result Raised A) {v : A}
    → (if t then x else err malformed) ≡ ok v
    → t ≡ true
if-ok true x h = refl
if-ok false x h = ground (arith, h)

max_le : (m n k : ℕ) → k ≡ max m n → n ≤ k
max_le m n k h = ground (arith, h)

module _ (b : Backend) where
  max_index-All : (ns : List ℕ) (k : ℕ) → max_index b ns ≤ k → All (λ n. n ≤ k) ns
  unfolding max_index
  max_index-All [] k h = tt
  max_index-All (n ∷ ns) k h = (ground (arith, h), max_index-All ns k (ground (arith, h)))

  -- A statement is only bound to values for all of its placeholders: where the substitution
  -- succeeds, no placeholder has a number that is greater than the number of values.
  pub substitute_params-covers :
      (c : PgConnection b) (stmt : PreparedStatement) (bind : BindMessage) (sql : Text)
      → substitute_params b c stmt bind ≡ ok sql
      → All (λ n. n ≤ length bind.parameter_values) (placeholders b outside stmt.sql)
  unfolding substitute_params resolve_param_oids
  substitute_params-covers c stmt bind sql h =
      let ns = placeholders b outside stmt.sql in
      let count = max (length stmt.parameter_oids) (max_index b ns) in
      let values = length bind.parameter_values in
      let same = if-ok (eqb values (length (pad_oids count stmt.parameter_oids))) _ h in
      let counted =
        (eqb_iff values (length (pad_oids count stmt.parameter_oids))).0 same
        ∙ length-pad_oids count stmt.parameter_oids in
      max_index-All ns values (max_le (length stmt.parameter_oids) (max_index b ns) values counted)

  -- A statement is parsed under a name and then bound: where its values can be substituted, the
  -- portal holds the substituted text and the result formats of Bind, the other portals are as
  -- before, and the replies are ParseComplete and BindComplete.
  pub parse_bind-portal :
      (parse : ParseMessage) (bind : BindMessage) (sql asked : Text) (c : PgConnection b)
      → bind.statement ≡ parse.name
      → bind_sql b
          (handle_parse b parse c).1
          (record { sql = parse.query; parameter_oids = parse.parameter_oids })
          bind
        ≡ ok sql
      → ((handle_parse b parse >> handle_bind b bind) c).0 ≡ ok tt
        × (lookup ((handle_parse b parse >> handle_bind b bind) c).1.portals asked ≡ (
            if text_eq bind.portal asked
            then some (record { sql = sql; result_format_codes = bind.result_format_codes })
            else lookup c.portals asked))
        × (((handle_parse b parse >> handle_bind b bind) c).1.written
            ≡ (c.written ++ parse_complete ∷ []) ++ bind_complete ∷ [])
  unfolding handle_parse handle_bind bind_to bound store_portal write
  parse_bind-portal parse bind sql asked c same substituted =
      let stmt : PreparedStatement = record {
        sql = parse.query;
        parameter_oids = parse.parameter_oids;
      } in
      let stored = (handle_parse b parse c).1 in
      let found =
        lookup-assign stmt parse.name bind.statement c.statements
        ∙ ap (λ t. if t then some stmt else lookup c.statements bind.statement)
            ((text_eq_iff parse.name bind.statement).1 (sym same)) in
      let bound_to =
        ap (λ o. bind_to b bind o stored) found ∙ ap (λ r. bound b bind r stored) substituted in
      (
        ap (λ done. done.0) bound_to,
        ap (λ done. lookup done.1.portals asked) bound_to
            ∙ lookup-assign (record { sql = sql; result_format_codes = bind.result_format_codes })
                bind.portal asked c.portals,
        ap (λ done. done.1.written) bound_to,
      )
