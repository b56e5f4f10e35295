-- ===== src/Session.antt =====
-- slayer/pg_facade/connection.py: one connection of a Postgres client. This file has its state and
-- what the connection calls; the children have its handlers and what they guarantee. A handler is a
-- state transformer that may raise: what it did before it raised stays done. The replies that were
-- written are kept in the state, the first one first.
pub mod Act
pub mod Settings
pub mod Params
pub mod Refresh
pub mod Statements
pub mod Handlers
pub mod Loop
pub mod Moves
pub mod SteadySettings
pub mod Steady
pub mod Extended
pub mod Dispatch
pub mod Ready
pub mod Stream
pub mod Describe
pub mod Substitution
mod Examples
use slayer.Prelude.{
  ℕ, ◌≡◌, Bool, true, false, Option, none, some, List, [], ◌∷◌, ◌++◌, map, if◌then◌else◌,
}
use slayer.Prelude.Result.{Result, err, ok}
use slayer.Prelude.Text.{Text, text}
use slayer.Prelude.TextDict.{TextDict}
use slayer.Wire.{ℤ, pos, negsuc, Bytes, Utf8, WireError}
use slayer.Wire.Encode.{FieldDescription}

-- `TX_IDLE`, `TX_IN_TRANSACTION` and `TX_FAILED`
pub data TxState : Type 0 where
  idle in_transaction failed : TxState

-- slayer/core/enums.py
pub data DataType : Type 0 where
  text_type int_type double_type boolean_type date_type timestamp_type : DataType

-- `datatype_to_oid` of slayer/pg_facade/types.py
unfoldable pub datatype_to_oid : Option DataType → ℤ
datatype_to_oid none = pos 25
datatype_to_oid (some text_type) = pos 25
datatype_to_oid (some int_type) = pos 20
datatype_to_oid (some double_type) = pos 701
datatype_to_oid (some boolean_type) = pos 16
datatype_to_oid (some date_type) = pos 1082
datatype_to_oid (some timestamp_type) = pos 1114

-- a statement as sqlglot parses it, and its text in the dialect of Postgres
pub data StatementKind : Type 0 where
  commit rollback other : StatementKind
  command : Text → StatementKind

pub record Statement : Type 0 where
  pub kind : StatementKind
  pub sql : Text

-- slayer/facade/translator.py and rows.py: what a statement is translated to
pub record Column : Type 0 where
  pub name : Text
  pub type : Option DataType

pub record SetSettingOp : Type 0 where
  pub name : Text
  pub value : Text

pub record ResetSettingOp : Type 0 where
  pub name : Option Text
  pub reset_all : Bool

pub record RowBatch (Value : Type 0) : Type 0 where
  pub columns : List Column
  pub row_keys : Option (List Text)
  pub rows : List (TextDict Value)

pub record QueryResult (Query : Type 0) : Type 0 where
  pub query : Query
  pub data_source : Option Text
  pub column_name_mapping : List (Text × Text)
  pub projection_types : List (Option DataType)

pub data TranslatorResult (Query : Type 0) (Value : Type 0) : Type 0 where
  probe_result : RowBatch Value → Option SetSettingOp → TranslatorResult Query Value
  info_schema_result : RowBatch Value → TranslatorResult Query Value
  pg_catalog_result : RowBatch Value → TranslatorResult Query Value
  no_op_result :
      Option Text → Option SetSettingOp → Option ResetSettingOp → TranslatorResult Query Value
  query_result : QueryResult Query → TranslatorResult Query Value
  other_result : TranslatorResult Query Value

-- What a handler may raise. `malformed` stands for `struct.error`, `ValueError` and `IndexError`,
-- which the main loop catches, `crash` for what it does not.
pub data Raised : Type 0 where
  malformed finished crash : Raised
  translation_error : Text → Raised

-- the errors of sqlglot's parser: `ParseError`, and `TokenError`, which is not one of these
pub data SqlglotError : Type 0 where
  parse_error token_error : SqlglotError

-- The parts that the connection calls: sqlglot, the translator, the engine, the storage and the
-- clock. What they see and change of the world outside is a `World`; `wait` is what happens there
-- before the next message comes.
pub record Backend : Type 1 where
  pub World : Type 0
  pub Catalog : Type 0
  pub Query : Type 0
  pub Value : Type 0
  pub utf8 : Utf8
  pub wait : World → World
  pub parse : Text → Result SqlglotError (List Statement)
  pub parse_one : Text → Result SqlglotError Statement
  pub upper : Text → Text
  pub lower : Text → Text
  pub digit : ℕ → Option ℕ
  pub strip_tx_open_characteristics : Text → Text
  pub translate :
      Catalog → Text → TextDict Text → Text → Result Raised (TranslatorResult Query Value)
  pub execute : Query → Text → World → Result (Text × Text) (List (TextDict Value)) × World
  pub value_to_text : Option Value → ℤ → Result Raised (Option Bytes)
  pub value_to_binary : Option Value → ℤ → Result Raised (Option Bytes)
  pub literal_from_text : Bytes → ℤ → Result Raised Text
  pub literal_from_binary : Bytes → ℤ → Result Raised Text
  pub classify_empty_strings : Catalog → Text → Text → List ℕ → List ℕ
  pub monotonic : World → ℕ
  pub graph_fingerprint : World → Result Raised (Option Text)
  pub build_catalog : World → Option Catalog

-- the texts of the errors, by what they report
pub data Notice : Type 0 where
  malformed_message : ℕ → Notice
  unsupported unknown_type : ℕ → Notice
  sql_parse_error aborted cannot_bind no_datasource unexpected_result : Notice
  no_statement no_portal : Text → Notice
  told : Text → Notice

-- the messages that a session writes after the startup
pub data Reply : Type 0 where
  ready_for_query : TxState → Reply
  error_response : Text → Notice → Reply
  empty_query_response parse_complete bind_complete close_complete no_data : Reply
  parameter_description : List ℤ → Reply
  row_description : List FieldDescription → Reply
  data_row : List (Option Bytes) → Reply
  selected : ℕ → Reply
  command_complete : Text → Reply
  parameter_status : Text → Text → Reply

pub record PreparedStatement : Type 0 where
  pub sql : Text
  pub parameter_oids : List ℤ

pub record Portal : Type 0 where
  pub sql : Text
  pub result_format_codes : List ℤ

pub record PgConnection (b : Backend) : Type 0 where
  pub tx_state : TxState
  pub database : Text
  pub catalog : b.Catalog
  pub catalog_ttl_seconds : Option ℕ
  pub catalog_checked_at : ℕ
  pub catalog_fingerprint : Option Text
  pub statements : TextDict PreparedStatement
  pub portals : TextDict Portal
  pub skip_until_sync : Bool
  pub session_settings : TextDict Text
  pub in_describe : Bool
  pub world : b.World
  pub written : List Reply

abbrev pub Act {ℓ} : Backend → Type ℓ → Type ℓ
Act b A = PgConnection b → Result Raised A × PgConnection b
