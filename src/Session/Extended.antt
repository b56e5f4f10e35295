-- ===== src/Session/Extended.antt =====
-- slayer/pg_facade/connection.py: the handlers as sequences of moves, but for the ReadyForQuery that
-- Query and Sync end with.
use slayer.Prelude.{
  refl, Bool, true, false, ◌&&◌, not, Option, none, some, List, [], ◌∷◌, if◌then◌else◌,
}
use slayer.Prelude.Result.{Result, err, ok}
use slayer.Prelude.Text.{Text, text, text_eq}
use slayer.Prelude.TextDict.{lookup, assign, discard}
use slayer.Wire.{ℤ}
use slayer.Wire.Encode.{FieldDescription}
use slayer.Wire.Decode.{ParseMessage, BindMessage, NamedMessage, ExecuteMessage}
use slayer.Session.{
  Statement, TranslatorResult, Raised, malformed, finished, crash, translation_error, Backend,
  PgConnection, PreparedStatement, Portal, Act, row_description, empty_query_response,
  parse_complete, bind_complete, close_complete, no_data, parameter_description, sql_parse_error,
  aborted, cannot_bind, no_statement, no_portal, Notice,
}
use slayer.Session.Act.{
  reads, change, lift, ◌>>=◌, ◌>>◌, write, send_error, fail_tx, extended_error,
}
use slayer.Session.Params.{resolve_param_oids, substitute_typed_sentinels}
use slayer.Session.Statements.{run_statement}
use slayer.Session.Handlers.{
  is_failed, is_tx_end, refuses, go_on, run_statements, run_parsed, handle_parse, bind_sql,
  store_portal, bound, bind_to, handle_bind, fields_for_result, write_fields, describe_translated,
  set_in_describe, describe_sql, describe_statement, describe_portal, handle_describe, resync,
  run_portal, execute_portal, handle_execute, handle_close,
}
use slayer.Session.Moves.{
  Scope, session, statements_changed, portals_changed, skip_changed, describe_changed, one, Steady,
  Steady-bind, Steady-then, Steady-done, Steady-if, Steady-reads, Steady-raise, Steady-lift,
  Steady-write, Steady-send_error, Steady-fail_tx,
}
use slayer.Session.Refresh.{maybe_refresh_catalog}
use slayer.Session.Steady.{Steady-maybe_refresh_catalog, Steady-run_statement}

module _ {b : Backend} {s : Scope} where
  Steady-go_on :
      (good : Bool) (rest : Act b (Unit {0})) → Steady s rest → Steady s (go_on b good rest)
  unfolding go_on
  Steady-go_on true rest h = h
  Steady-go_on false rest h = Steady-done

  Steady-run_statements : (statements : List Statement) → Steady s (run_statements b statements)
  unfolding run_statements
  Steady-run_statements [] = Steady-done
  Steady-run_statements (stmt ∷ statements) =
      let refuse = send_error {b = b} (text "25P02") aborted in
      let proceed =
        run_statement b stmt.sql [] true >>= λ good. go_on b good (run_statements b statements) in
      Steady-reads (λ c. is_failed c.tx_state && not (is_tx_end b stmt))
        (λ refused. if refused then refuse else proceed)
        (λ refused. Steady-if refused refuse proceed (Steady-send_error (text "25P02") aborted) (
          Steady-bind (run_statement b stmt.sql [] true)
            (λ good. go_on b good (run_statements b statements))
            (Steady-run_statement stmt.sql [] true)
            (λ good.
              Steady-go_on good (run_statements b statements) (Steady-run_statements statements))))

  pub Steady-run_parsed :
      (statements : Option (List Statement)) → Steady s (run_parsed b statements)
  unfolding run_parsed
  Steady-run_parsed none =
      Steady-then (send_error (text "42601") sql_parse_error) fail_tx
        (Steady-send_error (text "42601") sql_parse_error) Steady-fail_tx
  Steady-run_parsed (some []) = Steady-write empty_query_response refl
  Steady-run_parsed (some (stmt ∷ statements)) = Steady-run_statements (stmt ∷ statements)

module _ {b : Backend} where
  Steady-skip :
      (skip : Bool) → Steady session (change {b = b} (λ c. record c { skip_until_sync = skip }))
  Steady-skip skip c = one (skip_changed c skip refl)

  pub Steady-extended_error :
      (code : Text) (notice : Notice) → Steady session (extended_error {b = b} code notice)
  unfolding extended_error
  Steady-extended_error code notice =
      Steady-then (send_error code notice >> fail_tx)
        (change (λ c. record c { skip_until_sync = true }))
        (Steady-then (send_error code notice) fail_tx (Steady-send_error code notice)
          Steady-fail_tx)
        (Steady-skip true)

  pub Steady-handle_parse : (msg : ParseMessage) → Steady session (handle_parse b msg)
  unfolding handle_parse
  Steady-handle_parse msg =
      let statements = λ (c : PgConnection b).
        assign c.statements msg.name
          (record { sql = msg.query; parameter_oids = msg.parameter_oids }) in
      Steady-then (change (λ c. record c { statements = statements c })) (write parse_complete)
        (λ c. one (statements_changed c (statements c) refl)) (Steady-write parse_complete refl)

  Steady-bound : (msg : BindMessage) (r : Result Raised Text) → Steady session (bound b msg r)
  unfolding bound store_portal
  Steady-bound msg (ok substituted) =
      let portals = λ (c : PgConnection b).
        assign c.portals msg.portal
          (record { sql = substituted; result_format_codes = msg.result_format_codes }) in
      Steady-then (change (λ c. record c { portals = portals c })) (write bind_complete)
        (λ c. one (portals_changed c (portals c) refl)) (Steady-write bind_complete refl)
  Steady-bound msg (err malformed) = Steady-extended_error (text "0A000") cannot_bind
  Steady-bound msg (err finished) = Steady-raise (Unit {0}) finished
  Steady-bound msg (err crash) = Steady-raise (Unit {0}) crash
  Steady-bound msg (err (translation_error message)) =
      Steady-raise (Unit {0}) (translation_error message)

  Steady-bind_to :
      (msg : BindMessage) (stmt : Option PreparedStatement) → Steady session (bind_to b msg stmt)
  unfolding bind_to
  Steady-bind_to msg none = Steady-extended_error (text "XX000") (no_statement msg.statement)
  Steady-bind_to msg (some stmt) =
      Steady-reads (λ c. bind_sql b c stmt msg) (bound b msg) (Steady-bound msg)

  pub Steady-handle_bind : (msg : BindMessage) → Steady session (handle_bind b msg)
  unfolding handle_bind
  Steady-handle_bind msg =
      Steady-reads (λ c. lookup c.statements msg.statement) (bind_to b msg) (Steady-bind_to msg)

  Steady-write_fields :
      (fields : Option (List FieldDescription)) → Steady session (write_fields b fields)
  unfolding write_fields
  Steady-write_fields none = Steady-write no_data refl
  Steady-write_fields (some fields) = Steady-write (row_description fields) refl

  Steady-describe_translated :
      (formats : List ℤ) (r : Result Raised (TranslatorResult b.Query b.Value))
      → Steady session (describe_translated b formats r)
  unfolding describe_translated
  Steady-describe_translated formats (ok result) =
      Steady-bind (lift (fields_for_result b result formats)) (write_fields b)
        (Steady-lift (fields_for_result b result formats)) Steady-write_fields
  Steady-describe_translated formats (err (translation_error message)) = Steady-write no_data refl
  Steady-describe_translated formats (err malformed) = Steady-raise (Unit {0}) malformed
  Steady-describe_translated formats (err finished) = Steady-raise (Unit {0}) finished
  Steady-describe_translated formats (err crash) = Steady-raise (Unit {0}) crash

  Steady-set_in_describe : (in_describe : Bool) → Steady session (set_in_describe b in_describe)
  Steady-set_in_describe in_describe c = one (describe_changed c in_describe refl)

  Steady-describe_sql :
      (sql : Text) (formats oids : List ℤ) → Steady session (describe_sql b sql formats oids)
  unfolding describe_sql
  Steady-describe_sql sql formats oids =
      let translated = λ (c : PgConnection b).
        b.translate c.catalog c.database c.session_settings
          (substitute_typed_sentinels b sql oids) in
      let answer = λ (r : Result Raised (TranslatorResult b.Query b.Value)).
        set_in_describe b false >> describe_translated b formats r in
      Steady-then (set_in_describe b true) (reads translated >>= answer)
        (Steady-set_in_describe true)
        (Steady-reads translated answer (λ r.
          Steady-then (set_in_describe b false) (describe_translated b formats r)
            (Steady-set_in_describe false) (Steady-describe_translated formats r)))

  Steady-describe_statement :
      (name : Text) (stmt : Option PreparedStatement)
      → Steady session (describe_statement b name stmt)
  unfolding describe_statement
  Steady-describe_statement name none = Steady-extended_error (text "XX000") (no_statement name)
  Steady-describe_statement name (some stmt) =
      let oids = resolve_param_oids b stmt in
      Steady-then (write (parameter_description oids)) (describe_sql b stmt.sql [] oids)
        (Steady-write (parameter_description oids) refl) (Steady-describe_sql stmt.sql [] oids)

  Steady-describe_portal :
      (name : Text) (portal : Option Portal) → Steady session (describe_portal b name portal)
  unfolding describe_portal
  Steady-describe_portal name none = Steady-extended_error (text "XX000") (no_portal name)
  Steady-describe_portal name (some portal) =
      Steady-describe_sql portal.sql portal.result_format_codes []

  pub Steady-handle_describe : (msg : NamedMessage) → Steady session (handle_describe b msg)
  unfolding handle_describe
  Steady-handle_describe msg =
      let on_statement =
        reads (λ (c : PgConnection b). lookup c.statements msg.name)
        >>= describe_statement b msg.name in
      let on_portal =
        reads (λ (c : PgConnection b). lookup c.portals msg.name) >>= describe_portal b msg.name in
      let named = text_eq msg.kind (b'S' ∷ []) in
      Steady-then (maybe_refresh_catalog b) (if named then on_statement else on_portal)
        Steady-maybe_refresh_catalog
        (Steady-if named on_statement on_portal
          (Steady-reads (λ c. lookup c.statements msg.name) (describe_statement b msg.name)
            (Steady-describe_statement msg.name))
          (Steady-reads (λ c. lookup c.portals msg.name) (describe_portal b msg.name)
            (Steady-describe_portal msg.name)))

  Steady-resync : (good : Bool) → Steady session (resync b good)
  unfolding resync
  Steady-resync true = Steady-done
  Steady-resync false = Steady-skip true

  Steady-run_portal : (portal : Portal) → Steady session (run_portal b portal)
  unfolding run_portal
  Steady-run_portal portal =
      let refuse = extended_error {b = b} (text "25P02") aborted in
      let proceed = run_statement b portal.sql portal.result_format_codes false >>= resync b in
      Steady-bind (reads (refuses b portal.sql) >>= lift)
        (λ refused. if refused then refuse else proceed)
        (Steady-reads (refuses b portal.sql) lift (λ r. Steady-lift r))
        (λ refused.
          Steady-if refused refuse proceed (Steady-extended_error (text "25P02") aborted) (
            Steady-bind (run_statement b portal.sql portal.result_format_codes false) (resync b)
              (Steady-run_statement portal.sql portal.result_format_codes false) Steady-resync))

  Steady-execute_portal :
      (name : Text) (portal : Option Portal) → Steady session (execute_portal b name portal)
  unfolding execute_portal
  Steady-execute_portal name none = Steady-extended_error (text "XX000") (no_portal name)
  Steady-execute_portal name (some portal) = Steady-run_portal portal

  pub Steady-handle_execute : (msg : ExecuteMessage) → Steady session (handle_execute b msg)
  unfolding handle_execute
  Steady-handle_execute msg =
      Steady-reads (λ c. lookup c.portals msg.portal) (execute_portal b msg.portal)
        (Steady-execute_portal msg.portal)

  pub Steady-handle_close : (msg : NamedMessage) → Steady session (handle_close b msg)
  unfolding handle_close
  Steady-handle_close msg =
      let drop_statement =
        change {b = b} (λ c. record c { statements = discard c.statements msg.name }) in
      let drop_portal = change {b = b} (λ c. record c { portals = discard c.portals msg.name }) in
      let named = text_eq msg.kind (b'S' ∷ []) in
      Steady-then (if named then drop_statement else drop_portal) (write close_complete)
        (Steady-if named drop_statement drop_portal
          (λ c. one (statements_changed c (discard c.statements msg.name) refl))
          (λ c. one (portals_changed c (discard c.portals msg.name) refl)))
        (Steady-write close_complete refl)
