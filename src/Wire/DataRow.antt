-- ===== src/Wire/DataRow.antt =====
-- slayer/pg_facade/protocol.py: a data row, read by a client as the protocol says.
use slayer.Prelude.{◌≡◌, Option, some, List, [], ◌++◌, length, arith}
use slayer.Prelude.Result.{ok, ◌>>=◌, bind-ok}
use slayer.Wire.{pos, Wire, Bytes, pack16, unpack16, msg}
use slayer.Wire.Encode.{encode_values, encode_data_row}
use slayer.Wire.Decode.{nonneg_count, read_values}
use slayer.Wire.Frames.{read_message}
use slayer.Wire.Layout.{values_section}
use slayer.Wire.Bind.{SplitsValues, values_section-SplitsValues}
use slayer.Wire.RoundTrip.{append-nil}
use slayer.Wire.Bodies.{read_message-msg}

-- the values of a data row's body
unfoldable pub data_row_values : Bytes → Wire (List (Option Bytes))
unfolding unpack16 nonneg_count read_values
data_row_values body = do
  (count, rest) ← unpack16 body
  n ← nonneg_count count
  (values, left) ← read_values n rest
  ok values

data_row-values_section :
    (values : List (Option Bytes)) (body : Bytes)
    → values_section values ≡ ok body
    → data_row_values body ≡ ok values
unfolding data_row_values nonneg_count SplitsValues
data_row-values_section values body h =
    let (tail, count, read) = values_section-SplitsValues values body [] h in
    ground (arith, append-nil body, count, read)

encode_data_row-sections :
    (values : List (Option Bytes)) (frame : Bytes)
    → encode_data_row values ≡ ok frame
    → (body : Bytes) × (values_section values ≡ ok body) × (msg b'D' body ≡ ok frame)
unfolding encode_data_row values_section
encode_data_row-sections values frame h =
    let (count, packed, more) =
      bind-ok (pack16 (pos (length values)))
        (λ count. do body ← encode_values values; msg b'D' (count ++ body)) h in
    let (body, all, framed) =
      bind-ok (encode_values values) (λ body. msg b'D' (count ++ body)) more in
    (count ++ body, ground (arith, packed, all), framed)

-- A data row that was encoded is one frame of type D in the stream, and a client reads from it the
-- values that were encoded: as many as there were, in order, nulls as nulls.
pub encode_data_row-read :
    (values : List (Option Bytes)) (frame rest : Bytes)
    → encode_data_row values ≡ ok frame
    → (body : Bytes) × (read_message (frame ++ rest) ≡ ok (some ((b'D', body), rest)))
      × (data_row_values body ≡ ok values)
encode_data_row-read values frame rest h =
    let (body, laid, framed) = encode_data_row-sections values frame h in
    (
      body,
      read_message-msg b'D' body frame rest (omega arith) framed,
      data_row-values_section values body laid,
    )
