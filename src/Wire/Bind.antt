-- ===== src/Wire/Bind.antt =====
-- slayer/pg_facade/protocol.py: `decode_bind` on the layout of a message.
use slayer.Prelude.{◌≡◌, Option, List, ◌++◌, length, arith}
use slayer.Prelude.Result.{ok, ◌>>=◌, bind-ok, bind-bind-ok}
use slayer.Wire.{ℤ, pos, Bytes, Utf8, pack16, unpack16, cstr}
use slayer.Wire.Encode.{encode_values}
use slayer.Wire.Decode.{BindMessage, nonneg_count, read_int16s, read_values, decode_bind}
use slayer.Wire.Layout.{pack_shorts, shorts_section, values_section, bind_body, NulFree}
use slayer.Wire.Numbers.{unpack16-pack16}
use slayer.Wire.RoundTrip.{
  append_assoc, read_cstr-cstr, read_int16s-pack_shorts, read_values-encode_values,
}

-- what the decoder reads of a section
SplitsShorts : List ℤ → Bytes → Bytes → Type 0
SplitsShorts codes bytes rest =
    (tail : Bytes) × (unpack16 (bytes ++ rest) ≡ ok (pos (length codes), tail))
    × (read_int16s (length codes) tail ≡ ok (codes, rest))

unfoldable pub SplitsValues : List (Option Bytes) → Bytes → Bytes → Type 0
SplitsValues values bytes rest =
    (tail : Bytes) × (unpack16 (bytes ++ rest) ≡ ok (pos (length values), tail))
    × (read_values (length values) tail ≡ ok (values, rest))

shorts_section-SplitsShorts :
    (codes : List ℤ) (bytes rest : Bytes)
    → shorts_section codes ≡ ok bytes
    → SplitsShorts codes bytes rest
unfolding shorts_section SplitsShorts
shorts_section-SplitsShorts codes bytes rest h =
    let (count, body, packed, all, made) =
      bind-bind-ok (pack16 (pos (length codes))) (pack_shorts codes) (λ count body. count ++ body)
        h in
    (
      body ++ rest,
      ground (
        arith,
        append_assoc count body rest,
        unpack16-pack16 (pos (length codes)) count (body ++ rest) packed,
        made,
      ),
      read_int16s-pack_shorts codes body rest all,
    )

pub values_section-SplitsValues :
    (values : List (Option Bytes)) (bytes rest : Bytes)
    → values_section values ≡ ok bytes
    → SplitsValues values bytes rest
unfolding values_section SplitsValues
values_section-SplitsValues values bytes rest h =
    let (count, body, packed, all, made) =
      bind-bind-ok (pack16 (pos (length values))) (encode_values values)
        (λ count body. count ++ body) h in
    (
      body ++ rest,
      ground (
        arith,
        append_assoc count body rest,
        unpack16-pack16 (pos (length values)) count (body ++ rest) packed,
        made,
      ),
      read_values-encode_values values body rest all,
    )

-- A Bind message whose portal and statement have no zero character is decoded from its layout; what
-- stands after it in the body is ignored.
pub decode_bind-bind_body :
    (utf8 : Utf8) (m : BindMessage) (body rest : Bytes)
    → NulFree m.portal
    → NulFree m.statement
    → bind_body utf8 m ≡ ok body
    → decode_bind utf8 (body ++ rest) ≡ ok m
unfolding bind_body decode_bind nonneg_count SplitsShorts SplitsValues
decode_bind-bind_body utf8 m body rest free_portal free_statement h =
    let (formats, laid1, more) =
      bind-ok (shorts_section m.parameter_format_codes)
        (λ a. do
          b ← values_section m.parameter_values
          c ← shorts_section m.result_format_codes
          ok (cstr utf8 m.portal ++ (cstr utf8 m.statement ++ (a ++ (b ++ c)))))
        h in
    let (values, results, laid2, laid3, made) =
      bind-bind-ok (values_section m.parameter_values) (shorts_section m.result_format_codes)
        (λ b c. cstr utf8 m.portal ++ (cstr utf8 m.statement ++ (formats ++ (b ++ c)))) more in
    let (tail1, count1, read1) =
      shorts_section-SplitsShorts m.parameter_format_codes formats (values ++ (results ++ rest))
        laid1 in
    let (tail2, count2, read2) =
      values_section-SplitsValues m.parameter_values values (results ++ rest) laid2 in
    let (tail3, count3, read3) =
      shorts_section-SplitsShorts m.result_format_codes results rest laid3 in
    ground (
      arith,
      made,
      append_assoc (cstr utf8 m.portal) (cstr utf8 m.statement ++ (formats ++ (values ++ results)))
          rest,
      append_assoc (cstr utf8 m.statement) (formats ++ (values ++ results)) rest,
      append_assoc formats (values ++ results) rest,
      append_assoc values results rest,
      read_cstr-cstr utf8 m.portal
          (cstr utf8 m.statement ++ (formats ++ (values ++ (results ++ rest)))) free_portal,
      read_cstr-cstr utf8 m.statement (formats ++ (values ++ (results ++ rest))) free_statement,
      count1,
      read1,
      count2,
      read2,
      count3,
      read3,
    )
