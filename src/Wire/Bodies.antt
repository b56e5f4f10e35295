-- ===== src/Wire/Bodies.antt =====
-- slayer/pg_facade/protocol.py and connection.py: the decoders on the layouts of messages, and a
-- framed message in the stream.
use slayer.Prelude.{ℕ, ◌+◌, ◌<◌, ◌≡◌, refl, some, [], ◌∷◌, ◌++◌, length, length-append, arith}
use slayer.Prelude.Result.{ok, bind-ok, bind-bind-ok}
use slayer.Prelude.Text.{Text}
use slayer.Wire.{pos, Bytes, Utf8, pack16, pack32, cstr, msg}
use slayer.Wire.Encode.{pack_all}
use slayer.Wire.Decode.{
  ParseMessage, ExecuteMessage, nonneg_count, read_kind, decode_parse, decode_describe,
  decode_close, decode_execute,
}
use slayer.Wire.Frames.{readexactly, read_message}
use slayer.Wire.Layout.{parse_body, named_body, execute_body, NulFree}
use slayer.Wire.Numbers.{unpack16-pack16, unpack32-pack32, length-pack32}
use slayer.Wire.RoundTrip.{
  append_assoc, append-nil, take-append, drop-append, read_cstr-cstr, read_int32s-pack_all,
}

module _ (utf8 : Utf8) where
  -- A Parse message whose name and query have no zero character is decoded from its layout; what
  -- stands after it in the body is ignored.
  pub decode_parse-parse_body :
      (m : ParseMessage) (body rest : Bytes)
      → NulFree m.name
      → NulFree m.query
      → parse_body utf8 m ≡ ok body
      → decode_parse utf8 (body ++ rest) ≡ ok m
  unfolding parse_body decode_parse nonneg_count
  decode_parse-parse_body m body rest free_name free_query h =
      let (count, oids, packed, all, made) =
        bind-bind-ok (pack16 (pos (length m.parameter_oids))) (pack_all m.parameter_oids)
          (λ count oids. cstr utf8 m.name ++ (cstr utf8 m.query ++ (count ++ oids))) h in
      ground (
        arith,
        append_assoc (cstr utf8 m.name) (cstr utf8 m.query ++ (count ++ oids)) rest,
        append_assoc (cstr utf8 m.query) (count ++ oids) rest,
        append_assoc count oids rest,
        read_cstr-cstr utf8 m.name (cstr utf8 m.query ++ (count ++ (oids ++ rest))) free_name,
        read_cstr-cstr utf8 m.query (count ++ (oids ++ rest)) free_query,
        unpack16-pack16 (pos (length m.parameter_oids)) count (oids ++ rest) packed,
        read_int32s-pack_all m.parameter_oids oids rest all,
      )

  -- Describe and Close.
  decode_describe-named_body :
      (kind : ℕ) (name : Text) (rest : Bytes)
      → kind < 128
      → NulFree name
      → decode_describe utf8 (named_body utf8 kind name ++ rest)
        ≡ ok (record { kind = kind ∷ []; name = name })
  unfolding named_body decode_describe read_kind
  decode_describe-named_body kind name rest small free =
      ground (arith, read_cstr-cstr utf8 name rest free)

  decode_close-named_body :
      (kind : ℕ) (name : Text) (rest : Bytes)
      → kind < 128
      → NulFree name
      → decode_close utf8 (named_body utf8 kind name ++ rest)
        ≡ ok (record { kind = kind ∷ []; name = name })
  unfolding named_body decode_close read_kind
  decode_close-named_body kind name rest small free =
      ground (arith, read_cstr-cstr utf8 name rest free)

  decode_execute-execute_body :
      (m : ExecuteMessage) (body rest : Bytes)
      → NulFree m.portal
      → execute_body utf8 m ≡ ok body
      → decode_execute utf8 (body ++ rest) ≡ ok m
  unfolding execute_body decode_execute
  decode_execute-execute_body m body rest free h =
      let (count, packed, made) =
        bind-ok (pack32 m.max_rows) (λ max_rows. ok (cstr utf8 m.portal ++ max_rows)) h in
      ground (
        arith,
        append_assoc (cstr utf8 m.portal) count rest,
        read_cstr-cstr utf8 m.portal (count ++ rest) free,
        unpack32-pack32 m.max_rows count rest packed,
      )

-- as many bytes as a part has are that part
readexactly-append :
    (n : ℕ) (part rest : Bytes) → length part ≡ n → readexactly n (part ++ rest) ≡ some (part, rest)
unfolding readexactly
readexactly-append n part rest h =
    ground (arith, length-append part rest, take-append part rest, drop-append part rest)

-- A message that `_msg` framed under an ASCII type is read from the stream as that type and that
-- payload, and the stream goes on right after it.
pub read_message-msg :
    (type_char : ℕ) (payload frame rest : Bytes)
    → type_char < 128
    → msg type_char payload ≡ ok frame
    → read_message (frame ++ rest) ≡ ok (some ((type_char, payload), rest))
unfolding msg read_message
read_message-msg t payload frame rest small h =
    let (size, packed, made) =
      bind-ok (pack32 (pos (length payload + 4))) (λ size. ok (t ∷ size ++ payload)) h in
    ground (
      arith,
      append_assoc size payload rest,
      append-nil size,
      unpack32-pack32 (pos (length payload + 4)) size [] packed,
      readexactly-append 4 size (payload ++ rest)
          (length-pack32 (pos (length payload + 4)) size packed),
      readexactly-append (length payload) payload rest refl,
    )
