-- ===== src/Wire/Examples.antt =====
-- The wire protocol on concrete messages.
use slayer.Prelude.{◌≡◌, refl, true, all, none, some, [], ◌∷◌, ◌++◌, length, arith}
use slayer.Prelude.Result.{ok, err}
use slayer.Prelude.Text.{text}
use slayer.Wire.{pos, bad_text, bad_length, Utf8, Bytes, msg}
use slayer.Wire.Encode.{encode_data_row}
use slayer.Wire.Decode.{ParseMessage, BindMessage, decode_parse, decode_bind}
use slayer.Wire.Frames.{read_message}
use slayer.Wire.Codes.{is_format_code, parse_result_format_codes, parse_result_format_codes_fit}
use slayer.Wire.Layout.{parse_body, bind_body}
use slayer.Wire.Bodies.{decode_parse-parse_body, read_message-msg}
use slayer.Wire.Bind.{decode_bind-bind_body}
use slayer.Wire.DataRow.{data_row_values, encode_data_row-read}

-- the texts of one byte for each character
abbrev pub plain : Utf8
plain = record {
  encode = λ s. s;
  decode = λ s. some s;
  decode-encode = λ s. refl;
  encode_nul = λ s h. h;
}

abbrev query : ParseMessage
query = record { name = text "s"; query = text "SELECT $1"; parameter_oids = pos 25 ∷ [] }

abbrev query_bytes : Bytes
query_bytes = text "s" ++ (0 ∷ text "SELECT $1") ++ (0 ∷ 0 ∷ 1 ∷ 0 ∷ 0 ∷ 0 ∷ 25 ∷ [])

test_decode_parse : decode_parse plain (query_bytes ++ 7 ∷ []) ≡ ok query
unfolding decode_parse
test_decode_parse = refl

abbrev bind : BindMessage
bind = record {
  portal = [];
  statement = text "s";
  parameter_format_codes = pos 0 ∷ [];
  parameter_values = none ∷ some [] ∷ some (1 ∷ 2 ∷ []) ∷ [];
  result_format_codes = [];
}

abbrev bind_bytes : Bytes
bind_bytes =
    0 ∷ text "s"
    ++ (0 ∷ 0 ∷ 1 ∷ 0 ∷ 0 ∷ 0 ∷ 3 ∷ 255 ∷ 255 ∷ 255 ∷ 255 ∷ 0 ∷ 0 ∷ 0 ∷ 0 ∷ 0 ∷ 0 ∷ 0 ∷ 2 ∷ 1 ∷ 2
        ∷ 0 ∷ 0 ∷ [])

decode_bind-bind_body_example : decode_bind plain (bind_bytes ++ []) ≡ ok bind
unfolding bind_body
decode_bind-bind_body_example = decode_bind-bind_body plain bind bind_bytes [] refl refl refl

-- an OID of -2 where a parameter's length is to be
bind_bad_length :
    decode_bind plain (0 ∷ 0 ∷ 0 ∷ 0 ∷ 0 ∷ 1 ∷ 255 ∷ 255 ∷ 255 ∷ 254 ∷ []) ≡ err bad_length
unfolding decode_bind
bind_bad_length = refl

read_message-msg_example :
    read_message ((b'X' ∷ 0 ∷ 0 ∷ 0 ∷ 6 ∷ 1 ∷ 2 ∷ []) ++ 9 ∷ [])
    ≡ ok (some ((b'X', 1 ∷ 2 ∷ []), 9 ∷ []))
unfolding msg
read_message-msg_example =
    read_message-msg b'X' (1 ∷ 2 ∷ []) (b'X' ∷ 0 ∷ 0 ∷ 0 ∷ 6 ∷ 1 ∷ 2 ∷ []) (9 ∷ []) (omega arith)
      refl

-- a type byte that is not ASCII raises, outside of what the main loop catches
non_ascii_type : read_message (200 ∷ 0 ∷ 0 ∷ 0 ∷ 4 ∷ []) ≡ err bad_text
unfolding read_message
non_ascii_type = refl

abbrev row_bytes : Bytes
row_bytes = b'D' ∷ 0 ∷ 0 ∷ 0 ∷ 15 ∷ 0 ∷ 2 ∷ 255 ∷ 255 ∷ 255 ∷ 255 ∷ 0 ∷ 0 ∷ 0 ∷ 1 ∷ 7 ∷ []

encode_data_row-read_example :
    (body : Bytes) × (read_message (row_bytes ++ []) ≡ ok (some ((b'D', body), [])))
    × (data_row_values body ≡ ok (none ∷ some (7 ∷ []) ∷ []))
unfolding encode_data_row
encode_data_row-read_example = encode_data_row-read (none ∷ some (7 ∷ []) ∷ []) row_bytes [] refl

parse_result_format_codes_fit_example :
    (length (pos 1 ∷ pos 1 ∷ []) ≡ 2) × (all is_format_code (pos 1 ∷ pos 1 ∷ []) ≡ true)
unfolding parse_result_format_codes
parse_result_format_codes_fit_example =
    parse_result_format_codes_fit (pos 1 ∷ []) (pos 1 ∷ pos 1 ∷ []) 2 refl

decode_parse-parse_body_example : decode_parse plain (query_bytes ++ 7 ∷ []) ≡ ok query
unfolding parse_body
decode_parse-parse_body_example =
    decode_parse-parse_body plain query query_bytes (7 ∷ []) refl refl refl
