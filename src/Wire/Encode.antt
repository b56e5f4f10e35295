-- ===== src/Wire/Encode.antt =====
-- slayer/pg_facade/protocol.py: the messages that the server sends.
use slayer.Prelude.{
  ℕ, Bool, not, ◌||◌, Option, none, some, List, [], ◌∷◌, ◌++◌, length, eqb, if◌then◌else◌,
}
use slayer.Prelude.Result.{ok, err, ◌>>=◌}
use slayer.Prelude.Text.{Text}
use slayer.Wire.{ℤ, pos, negsuc, Wire, bad_status, Bytes, Utf8, pack16, pack32, cstr, msg}

unfoldable encode_authentication_ok : Wire Bytes
unfolding pack32 msg
encode_authentication_ok = do code ← pack32 (pos 0); msg b'R' code

unfoldable encode_authentication_cleartext_password : Wire Bytes
unfolding pack32 msg
encode_authentication_cleartext_password = do code ← pack32 (pos 3); msg b'R' code

unfoldable encode_backend_key_data : ℤ → ℤ → Wire Bytes
unfolding pack32 msg
encode_backend_key_data pid secret_key = do a ← pack32 pid; b ← pack32 secret_key; msg b'K' (a ++ b)

unfoldable encode_parameter_status : Utf8 → Text → Text → Wire Bytes
unfolding cstr msg
encode_parameter_status utf8 name value = msg b'S' (cstr utf8 name ++ cstr utf8 value)

-- `TX_IDLE`, `TX_IN_TRANSACTION` and `TX_FAILED`
abbrev is_tx_status : ℕ → Bool
is_tx_status c = eqb c b'I' || (eqb c b'T' || eqb c b'E')

unfoldable encode_ready_for_query : ℕ → Wire Bytes
unfolding msg
encode_ready_for_query tx_status =
    if not (is_tx_status tx_status) then err bad_status else msg b'Z' (tx_status ∷ [])

pub record FieldDescription : Type 0 where
  pub name : Text
  pub type_oid : ℤ
  pub type_size : ℤ
  pub type_modifier : ℤ
  pub format_code : ℤ
  pub table_oid : ℤ
  pub column_attr : ℤ

-- the body of the loop in `encode_row_description`
unfoldable encode_field : Utf8 → FieldDescription → Wire Bytes
unfolding cstr pack16 pack32
encode_field utf8 f = do
  a ← pack32 f.table_oid
  b ← pack16 f.column_attr
  c ← pack32 f.type_oid
  d ← pack16 f.type_size
  e ← pack32 f.type_modifier
  g ← pack16 f.format_code
  ok (cstr utf8 f.name ++ a ++ b ++ c ++ d ++ e ++ g)

unfoldable encode_fields : Utf8 → List FieldDescription → Wire Bytes
unfolding encode_field
encode_fields utf8 [] = ok []
encode_fields utf8 (f ∷ fields) = do
  first ← encode_field utf8 f
  rest ← encode_fields utf8 fields
  ok (first ++ rest)

unfoldable encode_row_description : Utf8 → List FieldDescription → Wire Bytes
unfolding encode_fields pack16 msg
encode_row_description utf8 fields = do
  count ← pack16 (pos (length fields))
  body ← encode_fields utf8 fields
  msg b'T' (count ++ body)

-- the loop of `encode_data_row`
unfoldable pub encode_values : List (Option Bytes) → Wire Bytes
unfolding pack32
encode_values [] = ok []
encode_values (none ∷ values) = do
  size ← pack32 (negsuc 0)
  rest ← encode_values values
  ok (size ++ rest)
encode_values (some v ∷ values) = do
  size ← pack32 (pos (length v))
  rest ← encode_values values
  ok (size ++ (v ++ rest))

unfoldable pub encode_data_row : List (Option Bytes) → Wire Bytes
unfolding encode_values pack16 msg
encode_data_row values = do
  count ← pack16 (pos (length values))
  body ← encode_values values
  msg b'D' (count ++ body)

unfoldable encode_command_complete : Utf8 → Text → Wire Bytes
unfolding cstr msg
encode_command_complete utf8 tag = msg b'C' (cstr utf8 tag)

-- the messages without a payload
unfoldable encode_empty_query_response : Wire Bytes
unfolding msg
encode_empty_query_response = msg b'I' []

unfoldable encode_no_data : Wire Bytes
unfolding msg
encode_no_data = msg b'n' []

unfoldable encode_parse_complete : Wire Bytes
unfolding msg
encode_parse_complete = msg b'1' []

unfoldable encode_bind_complete : Wire Bytes
unfolding msg
encode_bind_complete = msg b'2' []

unfoldable encode_close_complete : Wire Bytes
unfolding msg
encode_close_complete = msg b'3' []

unfoldable encode_portal_suspended : Wire Bytes
unfolding msg
encode_portal_suspended = msg b's' []

unfoldable pub pack_all : List ℤ → Wire Bytes
unfolding pack32
pack_all [] = ok []
pack_all (oid ∷ oids) = do first ← pack32 oid; rest ← pack_all oids; ok (first ++ rest)

unfoldable encode_parameter_description : List ℤ → Wire Bytes
unfolding pack_all pack16 msg
encode_parameter_description oids = do
  count ← pack16 (pos (length oids))
  body ← pack_all oids
  msg b't' (count ++ body)

-- `_error_fields`
unfoldable error_fields : Utf8 → Text → Text → Text → Bytes
unfolding cstr
error_fields utf8 severity code message =
    b'S' ∷ cstr utf8 severity
    ++ (b'V' ∷ cstr utf8 severity
        ++ (b'C' ∷ cstr utf8 code ++ (b'M' ∷ cstr utf8 message ++ 0 ∷ [])))

unfoldable encode_error_response : Utf8 → Text → Text → Text → Wire Bytes
unfolding error_fields msg
encode_error_response utf8 code message severity =
    msg b'E' (error_fields utf8 severity code message)

unfoldable encode_notice_response : Utf8 → Text → Text → Text → Wire Bytes
unfolding error_fields msg
encode_notice_response utf8 code message severity =
    msg b'N' (error_fields utf8 severity code message)
