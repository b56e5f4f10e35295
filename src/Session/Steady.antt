-- ===== src/Session/Steady.antt =====
-- slayer/pg_facade/connection.py: statements as sequences of moves.
use slayer.Prelude.{
  ℕ, ◌≡◌, refl, sym, subst, ◌⊎◌, inl, inr, Bool, true, false, Option, none, some, List, [], ◌∷◌,
  map, length, arith,
}
use slayer.Prelude.Result.{Result, err, ok}
use slayer.Prelude.Text.{Text, text}
use slayer.Prelude.TextDict.{TextDict}
use slayer.Wire.{ℤ}
use slayer.Wire.Codes.{parse_result_format_codes}
use slayer.Wire.Encode.{FieldDescription}
use slayer.Session.{
  idle, DataType, RowBatch, QueryResult, SetSettingOp, ResetSettingOp, TranslatorResult,
  probe_result, info_schema_result, pg_catalog_result, no_op_result, query_result, other_result,
  Raised, malformed, finished, crash, translation_error, Backend, PgConnection, row_description,
  data_row, selected, command_complete, unexpected_result, told,
}
use slayer.Session.Act.{pure, reads, lift, lift_wire, ◌>>=◌, ◌>>◌, write}
use slayer.Session.Settings.{apply_tx_command}
use slayer.Session.Statements.{
  command_tag_of, fields_of, sqlstate_for, encode_cells, write_rows, keys_of, write_description,
  write_result, emit_row_batch, ask_engine, run_answer, run_query, apply_set_option,
  apply_reset_option, answer_statement, answer_translated, run_statement,
}
use slayer.Session.Moves.{
  Scope, catalog_checked, engine_called, Moves, stay, one, Steady, Steady-bind, Steady-then,
  Steady-pure, Steady-done, Steady-reads, Steady-raise, Steady-lift, Steady-lift_wire, Steady-write,
  Steady-refuse,
}
use slayer.Session.Refresh.{rebuild_catalog, maybe_refresh_catalog}
use slayer.Session.SteadySettings.{
  Steady-apply_set_setting, Steady-apply_reset_setting, Steady-apply_tx_command,
}

module _ {b : Backend} where
  maybe_refresh_catalog-cases :
      (c : PgConnection b)
      → ((maybe_refresh_catalog b c).1 ≡ c)
        ⊎ ((c.tx_state ≡ idle)
            × ((maybe_refresh_catalog b c).1 ≡ record c {
              catalog = (maybe_refresh_catalog b c).1.catalog;
              catalog_checked_at = (maybe_refresh_catalog b c).1.catalog_checked_at;
              catalog_fingerprint = (maybe_refresh_catalog b c).1.catalog_fingerprint;
            }))
  unfolding maybe_refresh_catalog rebuild_catalog
  maybe_refresh_catalog-cases c = ground arith

module _ {b : Backend} {s : Scope} where
  pub Steady-maybe_refresh_catalog : Steady s (maybe_refresh_catalog b)
  Steady-maybe_refresh_catalog c = elim (maybe_refresh_catalog-cases c) [
    | inl same ↦ subst (Moves s c) (sym same) stay
    | inr (h, new) ↦
        let d = (maybe_refresh_catalog b c).1 in
        subst (Moves s c) (sym new)
          (one (catalog_checked c d.catalog d.catalog_checked_at d.catalog_fingerprint h))
  ]

  Steady-write_rows :
      (rows : List (TextDict b.Value)) (n : ℕ) (keys : List Text) (types : List (Option DataType))
      (formats : List ℤ)
      → Steady s (write_rows b rows n keys types formats)
  unfolding write_rows
  Steady-write_rows [] n keys types formats = Steady-done
  Steady-write_rows (row ∷ rows) n keys types formats =
      Steady-bind (lift (encode_cells b n row keys types formats))
        (λ values. write (data_row values) >> write_rows b rows n keys types formats)
        (Steady-lift (encode_cells b n row keys types formats))
        (λ values.
          Steady-then (write (data_row values)) (write_rows b rows n keys types formats)
            (Steady-write (data_row values) refl) (Steady-write_rows rows n keys types formats))

  Steady-write_description :
      (send : Bool) (fields : Result Raised (List FieldDescription))
      → Steady s (write_description b send fields)
  unfolding write_description
  Steady-write_description false fields = Steady-done
  Steady-write_description true fields =
      Steady-bind (lift fields) (λ described. write (row_description described))
        (Steady-lift fields) (λ described. Steady-write (row_description described) refl)

  Steady-write_result :
      (result_formats : List ℤ) (send : Bool) (n : ℕ) (names keys : List Text)
      (types : List (Option DataType)) (rows : List (TextDict b.Value))
      → Steady s (write_result b result_formats send n names keys types rows)
  unfolding write_result
  Steady-write_result result_formats send n names keys types rows =
      Steady-bind (lift_wire (parse_result_format_codes result_formats n))
        (λ formats.
          write_description b send (fields_of names types formats)
          >> (write_rows b rows n keys types formats >> write (selected (length rows))))
        (Steady-lift_wire (parse_result_format_codes result_formats n))
        (λ formats.
          Steady-then (write_description b send (fields_of names types formats))
            (write_rows b rows n keys types formats >> write (selected (length rows)))
            (Steady-write_description send (fields_of names types formats))
            (Steady-then (write_rows b rows n keys types formats) (write (selected (length rows)))
              (Steady-write_rows rows n keys types formats)
              (Steady-write (selected (length rows)) refl)))

  Steady-emit_row_batch :
      (batch : RowBatch b.Value) (formats : List ℤ) (send : Bool)
      → Steady s (emit_row_batch b batch formats send)
  unfolding emit_row_batch
  Steady-emit_row_batch batch formats send =
      Steady-write_result formats send (length batch.columns) (map (λ col. col.name) batch.columns)
        (keys_of b batch) (map (λ col. col.type) batch.columns) batch.rows

  Steady-run_answer :
      (result : QueryResult b.Query) (formats : List ℤ) (send : Bool)
      (answer : Result (Text × Text) (List (TextDict b.Value)))
      → Steady s (run_answer b result formats send answer)
  unfolding run_answer
  Steady-run_answer result formats send (err (code, message)) = Steady-refuse code (told message)
  Steady-run_answer result formats send (ok rows) =
      let mapping = result.column_name_mapping in
      Steady-then
        (write_result b formats send (length mapping) (map (λ m. m.1) mapping)
          (map (λ m. m.0) mapping) result.projection_types rows)
        (pure true)
        (Steady-write_result formats send (length mapping) (map (λ m. m.1) mapping)
          (map (λ m. m.0) mapping) result.projection_types rows)
        (Steady-pure true)

  Steady-ask_engine :
      (query : b.Query) (data_source : Option Text) → Steady s (ask_engine b query data_source)
  unfolding ask_engine
  Steady-ask_engine query none c = stay
  Steady-ask_engine query (some data_source) c =
      one (engine_called c (b.execute query data_source c.world).1)

  Steady-run_query :
      (result : QueryResult b.Query) (formats : List ℤ) (send : Bool)
      → Steady s (run_query b result formats send)
  unfolding run_query
  Steady-run_query result formats send =
      Steady-bind (ask_engine b result.query result.data_source) (run_answer b result formats send)
        (Steady-ask_engine result.query result.data_source) (Steady-run_answer result formats send)

  Steady-apply_set_option : (op : Option SetSettingOp) → Steady s (apply_set_option b op)
  unfolding apply_set_option
  Steady-apply_set_option none = Steady-done
  Steady-apply_set_option (some op) = Steady-apply_set_setting op

  Steady-apply_reset_option : (op : Option ResetSettingOp) → Steady s (apply_reset_option b op)
  unfolding apply_reset_option
  Steady-apply_reset_option none = Steady-done
  Steady-apply_reset_option (some op) = Steady-apply_reset_setting op

  Steady-answer_statement :
      (result : TranslatorResult b.Query b.Value) (formats : List ℤ) (send : Bool)
      → Steady s (answer_statement b result formats send)
  unfolding answer_statement
  Steady-answer_statement (probe_result batch op) formats send =
      Steady-then (emit_row_batch b batch formats send) (apply_set_option b op >> pure true)
        (Steady-emit_row_batch batch formats send)
        (Steady-then (apply_set_option b op) (pure true) (Steady-apply_set_option op)
          (Steady-pure true))
  Steady-answer_statement (info_schema_result batch) formats send =
      Steady-then (emit_row_batch b batch formats send) (pure true)
        (Steady-emit_row_batch batch formats send) (Steady-pure true)
  Steady-answer_statement (pg_catalog_result batch) formats send =
      Steady-then (emit_row_batch b batch formats send) (pure true)
        (Steady-emit_row_batch batch formats send) (Steady-pure true)
  Steady-answer_statement (no_op_result tag op reset) formats send =
      let last = apply_reset_option b reset >> pure true in
      let settings = apply_set_option b op >> last in
      Steady-then (apply_tx_command tag) (write (command_complete (command_tag_of tag)) >> settings)
        (Steady-apply_tx_command tag)
        (Steady-then (write (command_complete (command_tag_of tag))) settings
          (Steady-write (command_complete (command_tag_of tag)) refl)
          (Steady-then (apply_set_option b op) last (Steady-apply_set_option op) (
            Steady-then (apply_reset_option b reset) (pure true) (Steady-apply_reset_option reset)
              (Steady-pure true))))
  Steady-answer_statement (query_result result) formats send = Steady-run_query result formats send
  Steady-answer_statement other_result formats send = Steady-refuse (text "XX000") unexpected_result

  Steady-answer_translated :
      (formats : List ℤ) (send : Bool)
      (translated : Result Raised (TranslatorResult b.Query b.Value))
      → Steady s (answer_translated b formats send translated)
  unfolding answer_translated
  Steady-answer_translated formats send (ok result) = Steady-answer_statement result formats send
  Steady-answer_translated formats send (err (translation_error message)) =
      Steady-refuse (sqlstate_for b message) (told message)
  Steady-answer_translated formats send (err malformed) = Steady-raise Bool malformed
  Steady-answer_translated formats send (err finished) = Steady-raise Bool finished
  Steady-answer_translated formats send (err crash) = Steady-raise Bool crash

  pub Steady-run_statement :
      (sql : Text) (formats : List ℤ) (send : Bool) → Steady s (run_statement b sql formats send)
  unfolding run_statement
  Steady-run_statement sql formats send =
      Steady-then (maybe_refresh_catalog b)
        (reads (λ c. b.translate c.catalog c.database c.session_settings sql)
          >>= answer_translated b formats send)
        Steady-maybe_refresh_catalog
        (Steady-reads (λ c. b.translate c.catalog c.database c.session_settings sql)
          (answer_translated b formats send) (Steady-answer_translated formats send))
