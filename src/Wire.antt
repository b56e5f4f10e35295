-- ===== src/Wire.antt =====
-- slayer/pg_facade/protocol.py: the messages of the Postgres wire protocol. Bytes are numbers below
-- 256. This file has the integers and strings of the protocol; its children have the messages.
-- UTF-8 belongs to Python: an encoding with the laws that the decoders rely on is a parameter.
pub mod Encode
pub mod Decode
pub mod Frames
pub mod Codes
pub mod Layout
pub mod Numbers
pub mod RoundTrip
pub mod Bodies
pub mod Bind
pub mod DataRow
pub mod Examples
use slayer.Prelude.{
  ℕ, zero, suc, ◌+◌, ◌-◌, ◌*◌, ◌/◌, ◌%◌, ◌≡◌, Bool, true, false, Option, none, some, List, [], ◌∷◌,
  ◌++◌, length, any, eqb, ltb, if◌then◌else◌, take, drop,
}
use slayer.Prelude.Result.{Result, ok, err, ◌>>=◌, ◌>>◌}
use slayer.Prelude.Text.{Text, partition}

-- a Python integer; `negsuc n` is -(n + 1)
pub data ℤ : Type 0 where
  pos : ℕ → ℤ
  negsuc : ℕ → ℤ

-- `struct.error`, and the `ValueError`s of the decoders
pub data WireError : Type 0 where
  struct_error no_terminator bad_text negative_count bad_length bad_status : WireError
  bad_format_code code_count : WireError

abbrev pub Wire {ℓ} : Type ℓ → Type ℓ
Wire A = Result WireError A

abbrev pub Bytes : Type 0
Bytes = List ℕ

-- `str.encode("utf-8")` and `bytes.decode("utf-8")`
pub record Utf8 : Type 0 where
  pub encode : Text → Bytes
  pub decode : Bytes → Option Text
  pub decode-encode : (s : Text) → decode (encode s) ≡ some s
  pub encode_nul : (s : Text) → any (eqb 0) s ≡ false → any (eqb 0) (encode s) ≡ false

-- the two's complement of `v` in 16 and in 32 bits, where it is in range
unfoldable pub word16 : ℤ → Wire ℕ
word16 (pos n) = if ltb n 32768 then ok n else err struct_error
word16 (negsuc n) = if ltb n 32768 then ok (65535 - n) else err struct_error

unfoldable pub word32 : ℤ → Wire ℕ
word32 (pos n) = if ltb n 2147483648 then ok n else err struct_error
word32 (negsuc n) = if ltb n 2147483648 then ok (4294967295 - n) else err struct_error

unfoldable pub signed16 : ℕ → ℤ
signed16 w = if ltb w 32768 then pos w else negsuc (65535 - w)

unfoldable pub signed32 : ℕ → ℤ
signed32 w = if ltb w 2147483648 then pos w else negsuc (4294967295 - w)

-- `struct.pack(">h", v)` and `struct.pack(">i", v)`
unfoldable pub pack16 : ℤ → Wire Bytes
unfolding word16
pack16 v = do w ← word16 v; ok (w / 256 % 256 ∷ w % 256 ∷ [])

unfoldable pub pack32 : ℤ → Wire Bytes
unfolding word32
pack32 v = do w ← word32 v; ok (w / 16777216 % 256 ∷ w / 65536 % 256 ∷ w / 256 % 256 ∷ w % 256 ∷ [])

-- `struct.unpack_from` of the bytes that are left, and what is left then
unfoldable pub unpack16 : Bytes → Wire (ℤ × Bytes)
unfolding signed16
unpack16 (a ∷ b ∷ rest) = ok (signed16 (a * 256 + b), rest)
unpack16 _ = err struct_error

unfoldable pub unpack32 : Bytes → Wire (ℤ × Bytes)
unfolding signed32
unpack32 (a ∷ b ∷ c ∷ d ∷ rest) = ok (signed32 (((a * 256 + b) * 256 + c) * 256 + d), rest)
unpack32 _ = err struct_error

-- `_cstr`
unfoldable pub cstr : Utf8 → Text → Bytes
cstr utf8 s = utf8.encode s ++ 0 ∷ []

-- `_Reader.cstr`
unfoldable pub read_cstr : Utf8 → Bytes → Wire (Text × Bytes)
unfolding partition
read_cstr utf8 bytes = elim (partition 0 bytes) [
  | none ↦ err no_terminator
  | some (s, rest) ↦ elim (utf8.decode s) [ none ↦ err bad_text | some t ↦ ok (t, rest) ]
]

-- `_msg`
unfoldable pub msg : ℕ → Bytes → Wire Bytes
unfolding pack32
msg type_char payload = do
  size ← pack32 (pos (length payload + 4))
  ok (type_char ∷ size ++ payload)
