-- ===== src/Session/Examples.antt =====
-- A session on a small backend: tests, and the witnesses of the theorems.
use slayer.Prelude.{
  ℕ, suc, ◌-◌, ◌≤◌, ◌≡◌, refl, true, false, Option, none, some, List, [], ◌∷◌, ◌++◌, leb, ◌&&◌,
  if◌then◌else◌, All, arith,
}
use slayer.Prelude.Result.{Result, ok, err}
use slayer.Prelude.Text.{Text, text, text_eq}
use slayer.Prelude.TextDict.{lookup}
use slayer.Wire.{pos, Bytes}
use slayer.Wire.Decode.{ParseMessage, BindMessage}
use slayer.Session.{
  idle, failed, Statement, other, token_error, crash, TranslatorResult, no_op_result, Raised,
  malformed, translation_error, Backend, PgConnection, PreparedStatement, Portal, error_response,
  aborted, parse_complete, bind_complete, ready_for_query, malformed_message,
}
use slayer.Session.Settings.{session_setting_seed}
use slayer.Session.Act.{◌>>◌}
use slayer.Session.Params.{placeholders, substitute_params}
use slayer.Session.Handlers.{
  run_statements, handle_parse, handle_bind, handle_execute, bind_sql, handle_describe,
  is_end_parsed,
}
use slayer.Session.Loop.{handle_message, main_loop}
use slayer.Session.Dispatch.{readies}
use slayer.Session.Ready.{Counts, handle_message-Counts}
use slayer.Session.Stream.{handle_all, main_loop-frames, main_loop-fuel, frames}
use slayer.Session.Describe.{Undisturbed, handle_describe-Undisturbed}
use slayer.Session.Substitution.{substitute_params-covers, parse_bind-portal}
use slayer.Wire.Examples.{plain}

-- BEGIN is understood, nothing else; a parameter is written as it is
abbrev translate_begin : Text → Result Raised (TranslatorResult Text Text)
translate_begin sql =
    if text_eq sql (text "BEGIN")
    then ok (no_op_result (some sql) none none)
    else err (translation_error (text "parse error"))

abbrev small : Backend
small = record {
  World = ℕ;
  Catalog = Unit;
  Query = Text;
  Value = Text;
  utf8 = plain;
  wait = λ n. suc n;
  parse = λ sql. ok (record { kind = other; sql = sql } ∷ []);
  parse_one = λ sql. ok (record { kind = other; sql = sql });
  upper = λ s. s;
  lower = λ s. s;
  digit = λ c. if leb b'0' c && leb c b'9' then some (c - b'0') else none;
  strip_tx_open_characteristics = λ s. s;
  translate = λ catalog database settings sql. translate_begin sql;
  execute = λ query data_source world. (ok [], world);
  value_to_text = λ value oid. ok value;
  value_to_binary = λ value oid. ok value;
  literal_from_text = λ raw oid. ok raw;
  literal_from_binary = λ raw oid. err malformed;
  classify_empty_strings = λ catalog database sql candidates. [];
  monotonic = λ world. world;
  graph_fingerprint = λ world. ok none;
  build_catalog = λ world. none;
}

abbrev fresh : PgConnection small
fresh = record {
  tx_state = idle;
  database = text "slayer";
  catalog = tt;
  catalog_ttl_seconds = none;
  catalog_checked_at = 0;
  catalog_fingerprint = none;
  statements = [];
  portals = [];
  skip_until_sync = false;
  session_settings = session_setting_seed;
  in_describe = false;
  world = 0;
  written = [];
}

-- a transaction is opened and a statement fails; then every statement is refused
abbrev broken : PgConnection small
broken =
    ((handle_message small b'Q' (text "BEGIN" ++ 0 ∷ [])
        >> handle_message small b'Q' (text "x" ++ 0 ∷ []))
      fresh).1

test_broken : (broken.tx_state ≡ failed) × (readies broken.written ≡ 2)
unfolding handle_message readies
test_broken = (refl, refl)

-- a Query whose text does not end is an error, and followed by ReadyForQuery
test_malformed :
    (handle_message small b'Q' (text "x") fresh).1.written
    ≡ error_response (text "08P01") (malformed_message b'Q') ∷ ready_for_query idle ∷ []
unfolding handle_message
test_malformed = refl

handle_message-Counts_example : Counts small 1 broken (handle_message small b'S' [] broken)
unfolding handle_message
handle_message-Counts_example = handle_message-Counts small b'S' [] broken

abbrev two_messages : List (ℕ × Bytes)
two_messages = (b'Q', text "BEGIN" ++ 0 ∷ []) ∷ (b'S', []) ∷ []

abbrev two_frames : Bytes
two_frames = b'Q' ∷ 0 ∷ 0 ∷ 0 ∷ 10 ∷ text "BEGIN" ++ (0 ∷ b'S' ∷ 0 ∷ 0 ∷ 0 ∷ 4 ∷ [])

main_loop-frames_example : main_loop small 3 two_frames fresh ≡ handle_all small two_messages fresh
unfolding frames
main_loop-frames_example =
    main_loop-frames small two_messages two_frames 3 fresh (omega arith, (omega arith, tt)) refl
      (omega arith)

main_loop-fuel_example : main_loop small 17 two_frames fresh ≡ main_loop small 40 two_frames fresh
main_loop-fuel_example = main_loop-fuel small two_frames 17 40 fresh (omega arith) (omega arith)

abbrev select : Statement
select = record { kind = other; sql = text "SELECT 1" }

-- in a failed transaction a statement is refused, and so is a portal
test_refused : run_statements small (select ∷ []) (record fresh { tx_state = failed }) ≡ (
  ok tt,
  record fresh { tx_state = failed; written = error_response (text "25P02") aborted ∷ [] },
)
unfolding run_statements
test_refused = refl

abbrev portal : Portal
portal = record { sql = text "SELECT 1"; result_format_codes = [] }

abbrev in_failed : PgConnection small
in_failed = record fresh { tx_state = failed; portals = (text "p", portal) ∷ [] }

test_refused_portal :
    handle_execute small (record { portal = text "p"; max_rows = pos 0 }) in_failed ≡ (
      ok tt,
      record in_failed {
        written = error_response (text "25P02") aborted ∷ [];
        skip_until_sync = true;
      },
    )
unfolding handle_execute
test_refused_portal = refl

-- a statement whose text cannot be cut into tokens ends the session
test_token_error : is_end_parsed small (err token_error) ≡ err crash
unfolding is_end_parsed
test_token_error = refl

abbrev parse_of : ParseMessage
parse_of = record { name = text "s"; query = text "SELECT $1, '$12'"; parameter_oids = [] }

abbrev twelve : List (Option Bytes)
twelve =
    some (text "7")
    ∷ some []
    ∷ none
    ∷ none
    ∷ none
    ∷ none
    ∷ none
    ∷ none
    ∷ none
    ∷ none
    ∷ none
    ∷ some (text "8")
    ∷ []

abbrev bind_of : BindMessage
bind_of = record {
  portal = text "p";
  statement = text "s";
  parameter_format_codes = [];
  parameter_values = twelve;
  result_format_codes = [];
}

abbrev stmt_of : PreparedStatement
stmt_of = record { sql = text "SELECT $1, '$12'"; parameter_oids = [] }

-- the `$12` inside of a literal is taken for a placeholder
test_substitute : substitute_params small fresh stmt_of bind_of ≡ ok (text "SELECT 7, '8'")
unfolding substitute_params
test_substitute = refl

substitute_params-covers_example : All (λ n. n ≤ 12) (1 ∷ 12 ∷ [])
unfolding substitute_params placeholders
substitute_params-covers_example =
    substitute_params-covers small fresh stmt_of bind_of (text "SELECT 7, '8'") refl

parse_bind-portal_example :
    ((handle_parse small parse_of >> handle_bind small bind_of) fresh).0 ≡ ok tt
    × (lookup
          ((handle_parse small parse_of >> handle_bind small bind_of) fresh).1.portals
          (text "p")
        ≡ some (record { sql = text "SELECT 7, '8'"; result_format_codes = [] }))
    × (((handle_parse small parse_of >> handle_bind small bind_of) fresh).1.written
        ≡ parse_complete ∷ bind_complete ∷ [])
unfolding bind_sql handle_parse
parse_bind-portal_example =
    parse_bind-portal small parse_of bind_of (text "SELECT 7, '8'") (text "p") fresh refl refl

-- a portal whose statement is not understood
handle_describe-Undisturbed_example :
    Undisturbed small in_failed
      (handle_describe small (record { kind = b'P' ∷ []; name = text "p" }) in_failed).1
handle_describe-Undisturbed_example =
    handle_describe-Undisturbed small (record { kind = b'P' ∷ []; name = text "p" }) in_failed refl
