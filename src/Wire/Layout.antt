-- ===== src/Wire/Layout.antt =====
-- The bodies of the messages that a client sends, as the protocol lays them out: what the decoders
-- of slayer/pg_facade/protocol.py are to read back. The program has no encoder for them.
use slayer.Prelude.{ℕ, ◌≡◌, Option, false, List, [], ◌∷◌, ◌++◌, length, any, eqb}
use slayer.Prelude.Result.{ok, ◌>>=◌}
use slayer.Prelude.Text.{Text}
use slayer.Wire.{ℤ, pos, Wire, Bytes, Utf8, pack16, pack32, cstr}
use slayer.Wire.Encode.{pack_all, encode_values}
use slayer.Wire.Decode.{ParseMessage, BindMessage, ExecuteMessage}

unfoldable pub pack_shorts : List ℤ → Wire Bytes
unfolding pack16
pack_shorts [] = ok []
pack_shorts (code ∷ codes) = do first ← pack16 code; rest ← pack_shorts codes; ok (first ++ rest)

-- a list after its count
unfoldable pub shorts_section : List ℤ → Wire Bytes
unfolding pack16 pack_shorts
shorts_section codes = do
  count ← pack16 (pos (length codes))
  body ← pack_shorts codes
  ok (count ++ body)

unfoldable pub values_section : List (Option Bytes) → Wire Bytes
unfolding pack16 encode_values
values_section values = do
  count ← pack16 (pos (length values))
  body ← encode_values values
  ok (count ++ body)

module _ (utf8 : Utf8) where
  unfoldable pub parse_body : ParseMessage → Wire Bytes
  unfolding cstr pack16 pack_all
  parse_body m = do
    count ← pack16 (pos (length m.parameter_oids))
    oids ← pack_all m.parameter_oids
    ok (cstr utf8 m.name ++ (cstr utf8 m.query ++ (count ++ oids)))

  unfoldable pub bind_body : BindMessage → Wire Bytes
  unfolding cstr shorts_section values_section
  bind_body m = do
    formats ← shorts_section m.parameter_format_codes
    values ← values_section m.parameter_values
    results ← shorts_section m.result_format_codes
    ok (cstr utf8 m.portal ++ (cstr utf8 m.statement ++ (formats ++ (values ++ results))))

  -- Describe and Close
  unfoldable pub named_body : ℕ → Text → Bytes
  unfolding cstr
  named_body kind name = kind ∷ cstr utf8 name

  unfoldable pub execute_body : ExecuteMessage → Wire Bytes
  unfolding cstr pack32
  execute_body m = do max_rows ← pack32 m.max_rows; ok (cstr utf8 m.portal ++ max_rows)

-- a text that the protocol can carry
abbrev pub NulFree : Text → Type 0
NulFree s = any (eqb 0) s ≡ false
