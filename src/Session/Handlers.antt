-- ===== src/Session/Handlers.antt =====
-- slayer/pg_facade/connection.py: the handlers of the messages, simple and extended.
use slayer.Prelude.{
  Bool, true, false, ◌&&◌, not, Option, none, some, List, [], ◌∷◌, map, length, if◌then◌else◌,
}
use slayer.Prelude.Result.{Result, err, ok}
use slayer.Prelude.Text.{Text, text, text_eq}
use slayer.Prelude.TextDict.{lookup, assign, discard}
use slayer.Wire.{ℤ}
use slayer.Wire.Codes.{validate_format_codes, parse_result_format_codes}
use slayer.Wire.Encode.{FieldDescription}
use slayer.Wire.Decode.{ParseMessage, BindMessage, NamedMessage, ExecuteMessage}
use slayer.Session.{
  TxState, idle, in_transaction, failed, Statement, SqlglotError, parse_error, token_error, commit,
  rollback, other, command, TranslatorResult, probe_result, info_schema_result, pg_catalog_result,
  no_op_result, query_result, other_result, RowBatch, Raised, malformed, finished, crash,
  translation_error, Backend, PgConnection, PreparedStatement, Portal, Act, row_description,
  empty_query_response, parse_complete, bind_complete, close_complete, no_data,
  parameter_description, sql_parse_error, aborted, cannot_bind, no_statement, no_portal,
}
use slayer.Session.Act.{
  pure, raise, reads, change, lift, ◌>>=◌, ◌>>◌, write, send_ready, send_error, fail_tx,
  extended_error,
}
use slayer.Session.Params.{resolve_param_oids, substitute_params, substitute_typed_sentinels}
use slayer.Session.Refresh.{maybe_refresh_catalog}
use slayer.Session.Statements.{fields_of, run_statement}

abbrev pub is_failed : TxState → Bool
is_failed failed = true
is_failed idle = false
is_failed in_transaction = false

module _ (b : Backend) where
  -- `_is_tx_end`
  unfoldable pub is_tx_end : Statement → Bool
  unfolding text_eq
  is_tx_end stmt = elim stmt.kind [
    | commit ↦ true
    | rollback ↦ true
    | other ↦ false
    | command this ↦ text_eq (b.upper this) (text "END")
  ]

  -- `_portal_is_tx_end`
  unfoldable pub is_end_parsed : Result SqlglotError Statement → Result Raised Bool
  unfolding is_tx_end
  is_end_parsed (ok stmt) = ok (is_tx_end stmt)
  is_end_parsed (err parse_error) = ok false
  is_end_parsed (err token_error) = err crash

  unfoldable pub portal_is_tx_end : Text → Result Raised Bool
  unfolding is_end_parsed
  portal_is_tx_end sql = is_end_parsed (b.parse_one sql)

  -- the statements of a simple query: a second try without the characteristics of transactions
  unfoldable pub second_parse :
      Result SqlglotError (List Statement) → Result Raised (Option (List Statement))
  second_parse (ok statements) = ok (some statements)
  second_parse (err parse_error) = ok none
  second_parse (err token_error) = err crash

  unfoldable pub first_parse :
      Text → Result SqlglotError (List Statement) → Result Raised (Option (List Statement))
  unfolding text_eq second_parse
  first_parse sql (ok statements) = ok (some statements)
  first_parse sql (err parse_error) =
      let stripped = b.strip_tx_open_characteristics sql in
      if text_eq stripped sql then ok none else second_parse (b.parse stripped)
  first_parse sql (err token_error) = err crash

  unfoldable pub parse_statements : Text → Result Raised (Option (List Statement))
  unfolding first_parse
  parse_statements sql = first_parse sql (b.parse sql)

  -- `if not ok: break`
  unfoldable pub go_on : Bool → Act b (Unit {0}) → Act b (Unit {0})
  go_on true rest = rest
  go_on false rest = pure tt

  -- the loop of `_handle_simple_query`
  unfoldable pub run_statements : List Statement → Act b (Unit {0})
  unfolding is_tx_end go_on run_statement send_error
  run_statements [] = pure tt
  run_statements (stmt ∷ statements) =
      reads (λ c. is_failed c.tx_state && not (is_tx_end stmt)) >>= λ refused.
      if refused
      then send_error (text "25P02") aborted
      else run_statement b stmt.sql [] true >>= λ good. go_on good (run_statements statements)

  unfoldable pub run_parsed : Option (List Statement) → Act b (Unit {0})
  unfolding run_statements send_error fail_tx write
  run_parsed none = send_error (text "42601") sql_parse_error >> fail_tx
  run_parsed (some []) = write empty_query_response
  run_parsed (some (stmt ∷ statements)) = run_statements (stmt ∷ statements)

  -- every branch that returns ends with ReadyForQuery
  unfoldable pub handle_simple_query : Text → Act b (Unit {0})
  unfolding parse_statements run_parsed send_ready
  handle_simple_query sql = lift (parse_statements sql) >>= run_parsed >> send_ready

  unfoldable pub handle_parse : ParseMessage → Act b (Unit {0})
  unfolding assign write
  handle_parse msg =
      change (λ c. record c {
        statements =
            assign c.statements msg.name
              (record { sql = msg.query; parameter_oids = msg.parameter_oids });
      })
      >> write parse_complete

  -- what a bind is to store; both lists of format codes are checked first
  unfoldable pub bind_sql : PgConnection b → PreparedStatement → BindMessage → Result Raised Text
  unfolding validate_format_codes substitute_params
  bind_sql c stmt msg = elim (validate_format_codes msg.parameter_format_codes) [
    | err e ↦ err malformed
    | ok _ ↦ elim (validate_format_codes msg.result_format_codes) [
      | err e ↦ err malformed
      | ok _ ↦ substitute_params b c stmt msg
    ]
  ]

  unfoldable pub store_portal : BindMessage → Text → Act b (Unit {0})
  unfolding assign write
  store_portal msg substituted =
      change (λ c. record c {
        portals =
            assign c.portals msg.portal
              (record { sql = substituted; result_format_codes = msg.result_format_codes });
      })
      >> write bind_complete

  -- the `except` of `_handle_bind`
  unfoldable pub bound : BindMessage → Result Raised Text → Act b (Unit {0})
  unfolding store_portal extended_error
  bound msg (ok substituted) = store_portal msg substituted
  bound msg (err malformed) = extended_error (text "0A000") cannot_bind
  bound msg (err finished) = raise finished
  bound msg (err crash) = raise crash
  bound msg (err (translation_error message)) = raise (translation_error message)

  unfoldable pub bind_to : BindMessage → Option PreparedStatement → Act b (Unit {0})
  unfolding bind_sql bound extended_error
  bind_to msg none = extended_error (text "XX000") (no_statement msg.statement)
  bind_to msg (some stmt) = reads (λ c. bind_sql c stmt msg) >>= bound msg

  unfoldable pub handle_bind : BindMessage → Act b (Unit {0})
  unfolding lookup bind_to
  handle_bind msg = reads (λ c. lookup c.statements msg.statement) >>= bind_to msg

  -- `_fields_for_result`; `none` where there is no data
  unfoldable fields_for_batch :
      RowBatch b.Value → List ℤ → Result Raised (Option (List FieldDescription))
  unfolding parse_result_format_codes fields_of
  fields_for_batch batch result_formats =
      elim (parse_result_format_codes result_formats (length batch.columns)) [
        | err e ↦ err malformed
        | ok formats ↦
            elim (fields_of (map (λ col. col.name) batch.columns)
              (map (λ col. col.type) batch.columns) formats) [
                | err raised ↦ err raised
                | ok fields ↦ ok (some fields)
              ]
      ]

  unfoldable pub fields_for_result :
      TranslatorResult b.Query b.Value → List ℤ → Result Raised (Option (List FieldDescription))
  unfolding parse_result_format_codes fields_of fields_for_batch
  fields_for_result (probe_result batch op) formats = fields_for_batch batch formats
  fields_for_result (info_schema_result batch) formats = fields_for_batch batch formats
  fields_for_result (pg_catalog_result batch) formats = fields_for_batch batch formats
  fields_for_result (query_result result) result_formats =
      elim (parse_result_format_codes result_formats (length result.column_name_mapping)) [
        | err e ↦ err malformed
        | ok formats ↦
            elim (fields_of (map (λ m. m.1) result.column_name_mapping) result.projection_types
              formats) [ err raised ↦ err raised | ok fields ↦ ok (some fields) ]
      ]
  fields_for_result (no_op_result tag op reset) formats = ok none
  fields_for_result other_result formats = ok none

  unfoldable pub write_fields : Option (List FieldDescription) → Act b (Unit {0})
  unfolding write
  write_fields none = write no_data
  write_fields (some fields) = write (row_description fields)

  unfoldable pub describe_translated :
      List ℤ → Result Raised (TranslatorResult b.Query b.Value) → Act b (Unit {0})
  unfolding fields_for_result write_fields write
  describe_translated formats (ok result) = lift (fields_for_result result formats) >>= write_fields
  describe_translated formats (err (translation_error message)) = write no_data
  describe_translated formats (err malformed) = raise malformed
  describe_translated formats (err finished) = raise finished
  describe_translated formats (err crash) = raise crash

  abbrev pub set_in_describe : Bool → Act b (Unit {0})
  set_in_describe in_describe = change (λ c. record c { in_describe = in_describe })

  -- `_describe_sql`
  unfoldable pub describe_sql : Text → List ℤ → List ℤ → Act b (Unit {0})
  unfolding substitute_typed_sentinels describe_translated
  describe_sql sql result_formats param_oids =
      set_in_describe true
      >> (reads (λ c.
            b.translate c.catalog c.database c.session_settings
              (substitute_typed_sentinels b sql param_oids))
          >>= λ translated. set_in_describe false >> describe_translated result_formats translated)

  unfoldable pub describe_statement : Text → Option PreparedStatement → Act b (Unit {0})
  unfolding resolve_param_oids describe_sql extended_error write
  describe_statement name none = extended_error (text "XX000") (no_statement name)
  describe_statement name (some stmt) =
      let param_oids = resolve_param_oids b stmt in
      write (parameter_description param_oids) >> describe_sql stmt.sql [] param_oids

  unfoldable pub describe_portal : Text → Option Portal → Act b (Unit {0})
  unfolding describe_sql extended_error
  describe_portal name none = extended_error (text "XX000") (no_portal name)
  describe_portal name (some portal) = describe_sql portal.sql portal.result_format_codes []

  unfoldable pub handle_describe : NamedMessage → Act b (Unit {0})
  unfolding text_eq lookup maybe_refresh_catalog describe_statement describe_portal
  handle_describe msg =
      maybe_refresh_catalog b
      >> (if text_eq msg.kind (b'S' ∷ [])
          then reads (λ c. lookup c.statements msg.name) >>= describe_statement msg.name
          else reads (λ c. lookup c.portals msg.name) >>= describe_portal msg.name)

  -- `if not ok: self._skip_until_sync = True`
  unfoldable pub resync : Bool → Act b (Unit {0})
  resync true = pure tt
  resync false = change (λ c. record c { skip_until_sync = true })

  -- `self._tx_state == TX_FAILED and not self._portal_is_tx_end(portal.sql)`
  unfoldable pub refuses : Text → PgConnection b → Result Raised Bool
  unfolding portal_is_tx_end
  refuses sql c =
      let parsed = portal_is_tx_end sql in
      if is_failed c.tx_state
      then elim parsed [ err raised ↦ err raised | ok ended ↦ ok (not ended) ]
      else ok false

  unfoldable pub run_portal : Portal → Act b (Unit {0})
  unfolding refuses run_statement resync extended_error
  run_portal portal = reads (refuses portal.sql) >>= lift >>= λ refused.
      if refused
      then extended_error (text "25P02") aborted
      else run_statement b portal.sql portal.result_format_codes false >>= resync

  unfoldable pub execute_portal : Text → Option Portal → Act b (Unit {0})
  unfolding run_portal extended_error
  execute_portal name none = extended_error (text "XX000") (no_portal name)
  execute_portal name (some portal) = run_portal portal

  unfoldable pub handle_execute : ExecuteMessage → Act b (Unit {0})
  unfolding lookup execute_portal
  handle_execute msg = reads (λ c. lookup c.portals msg.portal) >>= execute_portal msg.portal

  unfoldable pub handle_sync : Act b (Unit {0})
  unfolding send_ready
  handle_sync = change (λ c. record c { skip_until_sync = false }) >> send_ready

  unfoldable pub handle_close : NamedMessage → Act b (Unit {0})
  unfolding text_eq discard write
  handle_close msg =
      (if text_eq msg.kind (b'S' ∷ [])
        then change (λ c. record c { statements = discard c.statements msg.name })
        else change (λ c. record c { portals = discard c.portals msg.name }))
      >> write close_complete
