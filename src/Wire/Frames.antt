-- ===== src/Wire/Frames.antt =====
-- slayer/pg_facade/connection.py: how the messages are cut out of the stream of a connection. The
-- stream is the bytes that come until it ends; what follows a message is left for the next read.
use slayer.Prelude.{
  ℕ, ◌-◌, Option, none, some, [], ◌∷◌, take, drop, length, leb, ltb, if◌then◌else◌,
}
use slayer.Prelude.Result.{err, ok}
use slayer.Wire.{pos, negsuc, Wire, bad_text, Bytes, unpack32}

-- `StreamReader.readexactly`; `none` for its `IncompleteReadError`
unfoldable pub readexactly : ℕ → Bytes → Option (Bytes × Bytes)
readexactly n stream = if leb n (length stream) then some (take n stream, drop n stream) else none

-- `_read_startup_frame`
unfoldable pub read_startup_frame : Bytes → Wire (Option (Bytes × Bytes))
unfolding readexactly unpack32
read_startup_frame stream = elim (readexactly 4 stream) [
  | none ↦ ok none
  | some (header, rest) ↦ elim (unpack32 header) [
    | err e ↦ err e
    | ok (negsuc n, _) ↦ ok none
    | ok (pos size, _) ↦ if ltb size 8 then ok none else ok (readexactly (size - 4) rest)
  ]
]

-- `_read_message`; a type byte that is not ASCII raises
unfoldable pub read_message : Bytes → Wire (Option ((ℕ × Bytes) × Bytes))
unfolding readexactly unpack32
read_message [] = ok none
read_message (type_byte ∷ stream) = elim (readexactly 4 stream) [
  | none ↦ ok none
  | some (header, rest) ↦ elim (unpack32 header) [
    | err e ↦ err e
    | ok (negsuc n, _) ↦ ok none
    | ok (pos size, _) ↦ if ltb size 4 then ok none else elim (readexactly (size - 4) rest) [
      | none ↦ ok none
      | some (body, left) ↦
          if ltb type_byte 128 then ok (some ((type_byte, body), left)) else err bad_text
    ]
  ]
]
