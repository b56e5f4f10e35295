-- ===== src/Session/Describe.antt =====
-- slayer/pg_facade/connection.py: what Describe leaves as it was.
use slayer.Prelude.{
  ◌≡◌, sym, ◌∙◌, Bool, true, false, Option, none, some, List, [], ◌∷◌, ◌++◌, if◌then◌else◌, arith,
}
use slayer.Prelude.Result.{Result, err, ok}
use slayer.Prelude.Text.{Text, text, text_eq}
use slayer.Prelude.TextDict.{lookup}
use slayer.Wire.{ℤ}
use slayer.Wire.Decode.{NamedMessage}
use slayer.Session.{
  TranslatorResult, Raised, malformed, finished, crash, translation_error, Backend, PgConnection,
  PreparedStatement, Portal, Act, Notice, parameter_description, no_statement, no_portal,
}
use slayer.Session.Act.{reads, ◌>>=◌, ◌>>◌, write, send_error, fail_tx, extended_error}
use slayer.Session.Params.{resolve_param_oids, substitute_typed_sentinels}
use slayer.Session.Refresh.{maybe_refresh_catalog, rebuild_catalog}
use slayer.Session.Handlers.{
  write_fields, describe_translated, describe_sql, describe_statement, describe_portal,
  handle_describe,
}

module _ (b : Backend) where
  -- what Describe is not to change
  unfoldable pub Undisturbed : PgConnection b → PgConnection b → Type 0
  Undisturbed c d =
      (d.session_settings ≡ c.session_settings)
      × (d.statements ≡ c.statements)
      × (d.portals ≡ c.portals)
      × (d.world ≡ c.world)
      × (d.in_describe ≡ c.in_describe)

  fail_tx-Undisturbed : (c : PgConnection b) → Undisturbed c (fail_tx c).1
  unfolding Undisturbed fail_tx
  fail_tx-Undisturbed c = ground arith

  extended_error-Undisturbed :
      (code : Text) (notice : Notice) (c : PgConnection b)
      → Undisturbed c (extended_error code notice c).1
  unfolding Undisturbed extended_error send_error write fail_tx
  extended_error-Undisturbed code notice c = ground arith

  refresh-Undisturbed : (c : PgConnection b) → Undisturbed c (maybe_refresh_catalog b c).1
  unfolding Undisturbed maybe_refresh_catalog rebuild_catalog
  refresh-Undisturbed c = ground arith

  translated-Undisturbed :
      (formats : List ℤ) (r : Result Raised (TranslatorResult b.Query b.Value)) (c : PgConnection b)
      → Undisturbed c (describe_translated b formats r c).1
  unfolding Undisturbed describe_translated write write_fields
  translated-Undisturbed formats (ok result) c = ground arith
  translated-Undisturbed formats (err (translation_error message)) c = ground arith
  translated-Undisturbed formats (err malformed) c = ground arith
  translated-Undisturbed formats (err finished) c = ground arith
  translated-Undisturbed formats (err crash) c = ground arith

  Undisturbed-trans : (c d e : PgConnection b) → Undisturbed c d → Undisturbed d e → Undisturbed c e
  unfolding Undisturbed
  Undisturbed-trans c d e h k = (k.0 ∙ h.0, k.1 ∙ h.1, k.2 ∙ h.2, k.3 ∙ h.3, k.4 ∙ h.4)

  describe_sql-Undisturbed :
      (sql : Text) (formats oids : List ℤ) (c : PgConnection b)
      → c.in_describe ≡ false
      → Undisturbed c (describe_sql b sql formats oids c).1
  unfolding Undisturbed describe_sql
  describe_sql-Undisturbed sql formats oids c h =
      let (settings, statements, portals, world, flag) =
        translated-Undisturbed formats
          (b.translate c.catalog c.database c.session_settings
            (substitute_typed_sentinels b sql oids))
          (record c { in_describe = false }) in
      (settings, statements, portals, world, flag ∙ sym h)

  statement-Undisturbed :
      (name : Text) (stmt : Option PreparedStatement) (c : PgConnection b)
      → c.in_describe ≡ false
      → Undisturbed c (describe_statement b name stmt c).1
  unfolding describe_statement write Undisturbed
  statement-Undisturbed name none c h =
      extended_error-Undisturbed (text "XX000") (no_statement name) c
  statement-Undisturbed name (some stmt) c h =
      let oids = resolve_param_oids b stmt in
      let (settings, statements, portals, world, flag) =
        describe_sql-Undisturbed stmt.sql [] oids
          (record c { written = c.written ++ parameter_description oids ∷ [] }) h in
      (settings, statements, portals, world, flag)

  portal-Undisturbed :
      (name : Text) (portal : Option Portal) (c : PgConnection b)
      → c.in_describe ≡ false
      → Undisturbed c (describe_portal b name portal c).1
  unfolding describe_portal
  portal-Undisturbed name none c h = extended_error-Undisturbed (text "XX000") (no_portal name) c
  portal-Undisturbed name (some portal) c h =
      describe_sql-Undisturbed portal.sql portal.result_format_codes [] c h

  -- what Describe does after the refresh of the catalog
  abbrev pub named : NamedMessage → Act b (Unit {0})
  named msg =
      if text_eq msg.kind (b'S' ∷ [])
      then reads (λ c. lookup c.statements msg.name) >>= describe_statement b msg.name
      else reads (λ c. lookup c.portals msg.name) >>= describe_portal b msg.name

  chosen-Undisturbed :
      (t : Bool) (x y : Act b (Unit {0})) (c : PgConnection b)
      → Undisturbed c (x c).1
      → Undisturbed c (y c).1
      → Undisturbed c ((if t then x else y) c).1
  chosen-Undisturbed true x y c hx hy = hx
  chosen-Undisturbed false x y c hx hy = hy

  named-Undisturbed :
      (msg : NamedMessage) (c : PgConnection b)
      → c.in_describe ≡ false
      → Undisturbed c (named msg c).1
  named-Undisturbed msg c h =
      chosen-Undisturbed (text_eq msg.kind (b'S' ∷ []))
        (reads (λ d. lookup d.statements msg.name) >>= describe_statement b msg.name)
        (reads (λ d. lookup d.portals msg.name) >>= describe_portal b msg.name) c
        (statement-Undisturbed msg.name (lookup c.statements msg.name) c h)
        (portal-Undisturbed msg.name (lookup c.portals msg.name) c h)

  after-Undisturbed :
      (c : PgConnection b) (done : Result Raised (Unit {0}) × PgConnection b)
      (next : Act b (Unit {0}))
      → Undisturbed c done.1
      → Undisturbed done.1 (next done.1).1
      → Undisturbed c (((λ _. done) >> next) c).1
  after-Undisturbed c (err raised, d) next h k = h
  after-Undisturbed c (ok _, d) next h k = Undisturbed-trans c d (next d).1 h k

  -- In a session that is not describing already, Describe of a statement or a portal, there or not,
  -- translated or not, changes no setting, no prepared statement and no portal, runs nothing in the
  -- engine, and leaves the flag that suppresses the effects of its translation down again.
  pub handle_describe-Undisturbed :
      (msg : NamedMessage) (c : PgConnection b)
      → c.in_describe ≡ false
      → Undisturbed c (handle_describe b msg c).1
  unfolding handle_describe Undisturbed
  handle_describe-Undisturbed msg c h =
      let refreshed = maybe_refresh_catalog b c in
      let quiet = refresh-Undisturbed c in
      after-Undisturbed c refreshed (named msg) quiet
        (named-Undisturbed msg refreshed.1 (quiet.4 ∙ h))
