-- ===== src/Session/Statements.antt =====
-- slayer/pg_facade/connection.py: a statement is translated and answered.
use slayer.Prelude.{
  ℕ, zero, suc, Bool, true, false, ◌||◌, ◌&&◌, Option, none, some, List, [], ◌∷◌, map, length,
  if◌then◌else◌,
}
use slayer.Prelude.Result.{Result, err, ok}
use slayer.Prelude.Text.{Text, text, text_eq}
use slayer.Prelude.TextDict.{TextDict, lookup}
use slayer.Wire.{ℤ, pos, negsuc, Bytes}
use slayer.Wire.Codes.{parse_result_format_codes}
use slayer.Wire.Encode.{FieldDescription}
use slayer.Session.{
  DataType, datatype_to_oid, RowBatch, QueryResult, SetSettingOp, ResetSettingOp, TranslatorResult,
  probe_result, info_schema_result, pg_catalog_result, no_op_result, query_result, other_result,
  Raised, malformed, finished, crash, translation_error, Backend, Act, row_description, data_row,
  selected, command_complete, unexpected_result, told,
}
use slayer.Session.Act.{
  pure, raise, reads, lift, lift_wire, ◌>>=◌, ◌>>◌, write, send_error, fail_tx,
}
use slayer.Session.Refresh.{maybe_refresh_catalog}
use slayer.Session.Settings.{apply_set_setting, apply_reset_setting, apply_tx_command}

-- `part in s`
unfoldable pub starts : Text → Text → Bool
starts [] s = true
starts (p ∷ part) [] = false
starts (p ∷ part) (c ∷ s) = text_eq (p ∷ []) (c ∷ []) && starts part s

unfoldable occurs : Text → Text → Bool
unfolding starts
occurs part [] = starts part []
occurs part (c ∷ s) = starts part (c ∷ s) || occurs part s

-- the values that `proto.FieldDescription` has by default
abbrev field_of : Text → Option DataType → ℤ → FieldDescription
field_of name type format_code = record {
  name = name;
  type_oid = datatype_to_oid type;
  type_size = negsuc 0;
  type_modifier = negsuc 0;
  format_code = format_code;
  table_oid = pos 0;
  column_attr = pos 0;
}

-- `_command_tag`
unfoldable pub command_tag_of : Option Text → Text
unfolding text_eq
command_tag_of none = text "SELECT 0"
command_tag_of (some tag) =
    if text_eq tag (text "BEGIN") || text_eq tag (text "START TRANSACTION")
    then text "BEGIN"
    else tag

-- `[FieldDescription(...) for i, ... in enumerate(...)]`; the types are read by position
unfoldable pub fields_of :
    List Text → List (Option DataType) → List ℤ → Result Raised (List FieldDescription)
fields_of (name ∷ names) (type ∷ types) (fmt ∷ formats) = elim (fields_of names types formats) [
  | err raised ↦ err raised
  | ok fields ↦ ok (field_of name type fmt ∷ fields)
]
fields_of [] types formats = ok []
fields_of (name ∷ names) _ _ = err malformed

module _ (b : Backend) where
  -- `_sqlstate_for`
  unfoldable pub sqlstate_for : Text → Text
  unfolding occurs
  sqlstate_for message =
      if occurs (text "SLayer wire facade is read-only") message
      then text "25006"
      else if occurs (text "parse error") (b.lower message)
      then text "42601"
      else if occurs (text "Unknown table") message
          || (occurs (text "Unknown schema") message || occurs (text "Unknown catalog") message)
      then text "42P01"
      else text "0A000"

  -- `_encode_value`
  unfoldable encode_value : Option b.Value → ℤ → ℤ → Result Raised (Option Bytes)
  encode_value value oid (pos (suc zero)) = b.value_to_binary value oid
  encode_value value oid fmt = b.value_to_text value oid

  -- the values of one row: at each of the positions its key, type and format code
  unfoldable pub encode_cells :
      ℕ
      → TextDict b.Value
      → List Text
      → List (Option DataType)
      → List ℤ
      → Result Raised (List (Option Bytes))
  unfolding encode_value lookup
  encode_cells (suc n) row (key ∷ keys) (type ∷ types) (fmt ∷ formats) =
      elim (encode_value (lookup row key) (datatype_to_oid type) fmt) [
        | err raised ↦ err raised
        | ok value ↦ elim (encode_cells n row keys types formats) [
          | err raised ↦ err raised
          | ok values ↦ ok (value ∷ values)
        ]
      ]
  encode_cells zero row keys types formats = ok []
  encode_cells (suc n) row _ _ _ = err malformed

  -- the loop over the rows
  unfoldable pub write_rows :
      List (TextDict b.Value) → ℕ → List Text → List (Option DataType) → List ℤ → Act b (Unit {0})
  unfolding encode_cells write
  write_rows [] n keys types formats = pure tt
  write_rows (row ∷ rows) n keys types formats = do
    values ← lift (encode_cells n row keys types formats)
    write (data_row values)
    write_rows rows n keys types formats

  -- `getattr(batch, "_row_keys", None) or [c.name for c in batch.columns]`
  abbrev pub keys_of : RowBatch b.Value → List Text
  keys_of batch = elim batch.row_keys [
    | none ↦ map (λ col. col.name) batch.columns
    | some keys ↦ elim keys [ [] ↦ map (λ col. col.name) batch.columns | key ∷ rest ↦ key ∷ rest ]
  ]

  unfoldable pub write_description : Bool → Result Raised (List FieldDescription) → Act b (Unit {0})
  unfolding write
  write_description false fields = pure tt
  write_description true fields = do described ← lift fields; write (row_description described)

  -- what `_emit_row_batch` and `_run_query` have in common: the description, the rows, the count
  unfoldable pub write_result :
      List ℤ
      → Bool
      → ℕ
      → List Text
      → List Text
      → List (Option DataType)
      → List (TextDict b.Value)
      → Act b (Unit {0})
  unfolding parse_result_format_codes fields_of write_description write_rows write
  write_result result_formats send_row_description n names keys types rows = do
    formats ← lift_wire (parse_result_format_codes result_formats n)
    write_description send_row_description (fields_of names types formats)
    write_rows rows n keys types formats
    write (selected (length rows))

  unfoldable pub emit_row_batch : RowBatch b.Value → List ℤ → Bool → Act b (Unit {0})
  unfolding write_result
  emit_row_batch batch result_formats send_row_description =
      write_result result_formats send_row_description (length batch.columns)
        (map (λ col. col.name) batch.columns) (keys_of batch) (map (λ col. col.type) batch.columns)
        batch.rows

  -- the engine's answer; a query without a datasource is refused before the engine is called
  unfoldable pub ask_engine :
      b.Query → Option Text → Act b (Result (Text × Text) (List (TextDict b.Value)))
  ask_engine query none c =
      (ok (err (text "XX000", text "could not resolve a datasource for the query")), c)
  ask_engine query (some data_source) c =
      let answer = b.execute query data_source c.world in
      (ok answer.0, record c { world = answer.1 })

  -- `_run_query` on the engine's answer
  unfoldable pub run_answer :
      QueryResult b.Query
      → List ℤ
      → Bool
      → Result (Text × Text) (List (TextDict b.Value))
      → Act b Bool
  unfolding write_result send_error fail_tx
  run_answer result formats send (err (code, message)) =
      send_error code (told message) >> (fail_tx >> pure false)
  run_answer result formats send (ok rows) =
      let mapping = result.column_name_mapping in
      write_result formats send (length mapping) (map (λ m. m.1) mapping) (map (λ m. m.0) mapping)
        result.projection_types rows
      >> pure true

  unfoldable pub run_query : QueryResult b.Query → List ℤ → Bool → Act b Bool
  unfolding ask_engine run_answer
  run_query result result_formats send_row_description =
      ask_engine result.query result.data_source
      >>= run_answer result result_formats send_row_description

  -- the mutation hint of a probe, and the captures of SET and RESET
  unfoldable pub apply_set_option : Option SetSettingOp → Act b (Unit {0})
  unfolding apply_set_setting
  apply_set_option none = pure tt
  apply_set_option (some op) = apply_set_setting op

  unfoldable pub apply_reset_option : Option ResetSettingOp → Act b (Unit {0})
  unfolding apply_reset_setting
  apply_reset_option none = pure tt
  apply_reset_option (some op) = apply_reset_setting op

  -- the branches of `_run_statement` on what the translator returned
  unfoldable pub answer_statement : TranslatorResult b.Query b.Value → List ℤ → Bool → Act b Bool
  unfolding emit_row_batch run_query apply_set_option apply_reset_option apply_tx_command
      command_tag_of write send_error fail_tx
  answer_statement (probe_result batch settings_mutation) formats send =
      emit_row_batch batch formats send >> (apply_set_option settings_mutation >> pure true)
  answer_statement (info_schema_result batch) formats send =
      emit_row_batch batch formats send >> pure true
  answer_statement (pg_catalog_result batch) formats send =
      emit_row_batch batch formats send >> pure true
  answer_statement (no_op_result tag set_setting reset_setting) formats send =
      apply_tx_command tag
      >> (write (command_complete (command_tag_of tag))
          >> (apply_set_option set_setting >> (apply_reset_option reset_setting >> pure true)))
  answer_statement (query_result result) formats send = run_query result formats send
  answer_statement other_result formats send =
      send_error (text "XX000") unexpected_result >> (fail_tx >> pure false)

  -- the `except TranslationError` of `_run_statement`; the rest goes up
  unfoldable pub answer_translated :
      List ℤ → Bool → Result Raised (TranslatorResult b.Query b.Value) → Act b Bool
  unfolding answer_statement sqlstate_for send_error fail_tx
  answer_translated formats send (ok result) = answer_statement result formats send
  answer_translated formats send (err (translation_error message)) =
      send_error (sqlstate_for message) (told message) >> (fail_tx >> pure false)
  answer_translated formats send (err malformed) = raise malformed
  answer_translated formats send (err finished) = raise finished
  answer_translated formats send (err crash) = raise crash

  -- `_run_statement`; `false` where an error was sent
  unfoldable pub run_statement : Text → List ℤ → Bool → Act b Bool
  unfolding maybe_refresh_catalog answer_translated
  run_statement sql formats send =
      maybe_refresh_catalog b
      >> (reads (λ c. b.translate c.catalog c.database c.session_settings sql)
          >>= answer_translated formats send)
