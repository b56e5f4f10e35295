-- ===== src/Session/Params.antt =====
-- slayer/pg_facade/connection.py: the `$N` placeholders of a prepared statement.
use slayer.Prelude.{
  ℕ, zero, suc, ◌+◌, ◌*◌, any, Option, none, some, List, [], ◌∷◌, ◌++◌, length, eqb, ltb,
  if◌then◌else◌,
}
use slayer.Prelude.Result.{Result, err, ok, ◌>>=◌}
use slayer.Prelude.Text.{Text, text}
use slayer.Wire.{ℤ, pos, negsuc, Wire, Bytes}
use slayer.Wire.Codes.{parse_result_format_codes}
use slayer.Wire.Decode.{BindMessage}
use slayer.Session.{Backend, PgConnection, PreparedStatement, Raised, malformed}

-- How far a match of `\$(\d+)` has come: outside, after the dollar sign, or inside of the number,
-- with its value and its text so far.
pub data Scan : Type 0 where
  outside after_dollar : Scan
  number : ℕ → Text → Scan

-- one character more: the next state, and what is passed on
unfoldable pub scan_plain : ℕ → Scan × Text
scan_plain c = if eqb c b'$' then (after_dollar, []) else (outside, c ∷ [])

-- `l[i]`, where it is
unfoldable nth {ℓ} : {A : Type ℓ} → List A → ℕ → Option A
nth [] i = none
nth (x ∷ l) zero = some x
nth (x ∷ l) (suc i) = nth l i

-- the oid, or 25 (text) for an undeclared one
abbrev oid_or_text : ℤ → ℤ
oid_or_text (pos zero) = pos 25
oid_or_text oid = oid

-- `declared[i] if i < len(declared) and declared[i] else OID_TEXT`, for `count` positions
unfoldable pub pad_oids : ℕ → List ℤ → List ℤ
pad_oids zero declared = []
pad_oids (suc n) [] = pos 25 ∷ pad_oids n []
pad_oids (suc n) (oid ∷ declared) = oid_or_text oid ∷ pad_oids n declared

abbrev pub max : ℕ → ℕ → ℕ
max m n = if ltb m n then n else m

-- `_TYPED_SENTINEL_BY_OID.get(oid, "NULL")`
unfoldable typed_sentinel : ℤ → Text
typed_sentinel (negsuc n) = text "NULL"
typed_sentinel (pos oid) =
    if eqb oid 25
    then text "CAST(NULL AS VARCHAR)"
    else if eqb oid 20
    then text "CAST(NULL AS BIGINT)"
    else if eqb oid 701
    then text "CAST(NULL AS DOUBLE)"
    else if eqb oid 16
    then text "CAST(NULL AS BOOLEAN)"
    else if eqb oid 1082
    then text "CAST(NULL AS DATE)"
    else if eqb oid 1114
    then text "CAST(NULL AS TIMESTAMP)"
    else text "NULL"

module _ (b : Backend) where
  -- `_PARAM_PLACEHOLDER.sub(repl, sql)`; `repl` takes the number and the text of the match
  unfoldable pub sub_placeholders : (ℕ → Text → Text) → Scan → Text → Text
  unfolding scan_plain
  sub_placeholders repl outside [] = []
  sub_placeholders repl after_dollar [] = b'$' ∷ []
  sub_placeholders repl (number n raw) [] = repl n raw
  sub_placeholders repl outside (c ∷ sql) =
      let plain = scan_plain c in plain.1 ++ sub_placeholders repl plain.0 sql
  sub_placeholders repl after_dollar (c ∷ sql) = elim (b.digit c) [
    | some d ↦ sub_placeholders repl (number d (b'$' ∷ c ∷ [])) sql
    | none ↦ let plain = scan_plain c in b'$' ∷ plain.1 ++ sub_placeholders repl plain.0 sql
  ]
  sub_placeholders repl (number n raw) (c ∷ sql) = elim (b.digit c) [
    | some d ↦ sub_placeholders repl (number (n * 10 + d) (raw ++ c ∷ [])) sql
    | none ↦
        let plain = scan_plain c in repl n raw ++ (plain.1 ++ sub_placeholders repl plain.0 sql)
  ]

  -- `[int(m.group(1)) for m in _PARAM_PLACEHOLDER.finditer(sql)]`
  unfoldable pub placeholders : Scan → Text → List ℕ
  unfolding scan_plain
  placeholders outside [] = []
  placeholders after_dollar [] = []
  placeholders (number n raw) [] = n ∷ []
  placeholders outside (c ∷ sql) = let plain = scan_plain c in placeholders plain.0 sql
  placeholders after_dollar (c ∷ sql) = elim (b.digit c) [
    | some d ↦ placeholders (number d (b'$' ∷ c ∷ [])) sql
    | none ↦ let plain = scan_plain c in placeholders plain.0 sql
  ]
  placeholders (number n raw) (c ∷ sql) = elim (b.digit c) [
    | some d ↦ placeholders (number (n * 10 + d) (raw ++ c ∷ [])) sql
    | none ↦ let plain = scan_plain c in n ∷ placeholders plain.0 sql
  ]

  unfoldable pub max_index : List ℕ → ℕ
  max_index [] = 0
  max_index (n ∷ ns) = max n (max_index ns)

  unfoldable pub resolve_param_oids : PreparedStatement → List ℤ
  unfolding placeholders max_index pad_oids
  resolve_param_oids stmt =
      let declared = stmt.parameter_oids in
      pad_oids (max (length declared) (max_index (placeholders outside stmt.sql))) declared

  -- the indices, from `i` on, of the empty values of texts
  unfoldable empty_text_params : ℕ → List (Option Bytes) → List ℤ → List ℕ
  empty_text_params i (some [] ∷ values) (pos oid ∷ oids) =
      let later = empty_text_params (suc i) values oids in if eqb oid 25 then i ∷ later else later
  empty_text_params i (value ∷ values) (oid ∷ oids) = empty_text_params (suc i) values oids
  empty_text_params i _ _ = []

  -- `_empty_string_null_params_for_bind`
  unfoldable empty_string_null_params :
      PgConnection b → Text → List (Option Bytes) → List ℤ → List ℕ
  unfolding empty_text_params
  empty_string_null_params c sql values oids = elim (empty_text_params 1 values oids) [
    | [] ↦ []
    | i ∷ candidates ↦ b.classify_empty_strings c.catalog c.database sql (i ∷ candidates)
  ]

  unfoldable literal_of : Bytes → ℤ → ℤ → Result Raised Text
  literal_of raw (pos zero) oid = b.literal_from_text raw oid
  literal_of raw fmt oid = b.literal_from_binary raw oid

  -- the loop over the values, their formats and their oids
  unfoldable bind_literals :
      ℕ → List ℕ → List (Option Bytes) → List ℤ → List ℤ → Result Raised (List Text)
  unfolding literal_of
  bind_literals i nulls (none ∷ values) (fmt ∷ formats) (oid ∷ oids) = do
    literals ← bind_literals (suc i) nulls values formats oids
    ok (text "NULL" ∷ literals)
  bind_literals i nulls (some raw ∷ values) (fmt ∷ formats) (oid ∷ oids) = do
    literal ← (if any (eqb i) nulls then ok (text "NULL") else literal_of raw fmt oid)
    literals ← bind_literals (suc i) nulls values formats oids
    ok (literal ∷ literals)
  bind_literals i nulls _ _ _ = ok []

  -- `repl` of `_substitute_params`
  unfoldable literal_repl : List Text → ℕ → Text → Text
  unfolding nth
  literal_repl literals zero raw = raw
  literal_repl literals (suc i) raw = elim (nth literals i) [ none ↦ raw | some literal ↦ literal ]

  abbrev as_raised {ℓ} : {A : Type ℓ} → Wire A → Result Raised A
  as_raised (err e) = err malformed
  as_raised (ok value) = ok value

  unfoldable pub substitute_params :
      PgConnection b → PreparedStatement → BindMessage → Result Raised Text
  unfolding resolve_param_oids parse_result_format_codes empty_string_null_params bind_literals
      literal_repl sub_placeholders
  substitute_params c stmt bind =
      let resolved = resolve_param_oids stmt in
      let n = length bind.parameter_values in
      if eqb n (length resolved)
      then elim bind.parameter_values [
        | [] ↦ ok stmt.sql
        | _ ↦ do
          formats ← as_raised (parse_result_format_codes bind.parameter_format_codes n)
          literals ←
              bind_literals 1 (empty_string_null_params c stmt.sql bind.parameter_values resolved)
                bind.parameter_values formats resolved
          ok (sub_placeholders (literal_repl literals) outside stmt.sql)
      ]
      else err malformed

  -- `_substitute_typed_sentinels`
  unfoldable sentinel_repl : List ℤ → ℕ → Text → Text
  unfolding nth typed_sentinel
  sentinel_repl param_oids zero raw = text "NULL"
  sentinel_repl param_oids (suc i) raw = elim (nth param_oids i) [
    | none ↦ text "NULL"
    | some oid ↦ typed_sentinel oid
  ]

  unfoldable pub substitute_typed_sentinels : Text → List ℤ → Text
  unfolding sentinel_repl sub_placeholders
  substitute_typed_sentinels sql param_oids =
      sub_placeholders (sentinel_repl param_oids) outside sql
