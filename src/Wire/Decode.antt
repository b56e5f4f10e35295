-- ===== src/Wire/Decode.antt =====
-- slayer/pg_facade/protocol.py: the bodies of the messages that a client sends. A `_Reader` is the
-- bytes from its position on: every read moves past what it reads.
use slayer.Prelude.{
  ℕ, zero, suc, true, false, Option, none, some, List, [], ◌∷◌, take, drop, length, eqb, ltb,
  if◌then◌else◌,
}
use slayer.Prelude.Result.{ok, err, ◌>>=◌}
use slayer.Prelude.Text.{Text, text_eq}
use slayer.Wire.{
  ℤ, pos, negsuc, Wire, bad_text, negative_count, bad_length, Bytes, Utf8, unpack16, unpack32,
  read_cstr,
}

pub record StartupMessage : Type 0 where
  pub protocol_version : ℤ
  pub parameters : List (Text × Text)

pub record ParseMessage : Type 0 where
  pub name : Text
  pub query : Text
  pub parameter_oids : List ℤ

pub record BindMessage : Type 0 where
  pub portal : Text
  pub statement : Text
  pub parameter_format_codes : List ℤ
  pub parameter_values : List (Option Bytes)
  pub result_format_codes : List ℤ

-- the messages Describe and Close
pub record NamedMessage : Type 0 where
  pub kind : Bytes
  pub name : Text

pub record ExecuteMessage : Type 0 where
  pub portal : Text
  pub max_rows : ℤ

-- `_nonneg_count`
unfoldable pub nonneg_count : ℤ → Wire ℕ
nonneg_count (pos n) = ok n
nonneg_count (negsuc n) = err negative_count

-- `[r.int16() for _ in range(n)]` and `[r.int32() for _ in range(n)]`
unfoldable pub read_int16s : ℕ → Bytes → Wire (List ℤ × Bytes)
unfolding unpack16
read_int16s zero bytes = ok ([], bytes)
read_int16s (suc n) bytes = do
  (v, rest) ← unpack16 bytes
  (vs, left) ← read_int16s n rest
  ok (v ∷ vs, left)

unfoldable pub read_int32s : ℕ → Bytes → Wire (List ℤ × Bytes)
unfolding unpack32
read_int32s zero bytes = ok ([], bytes)
read_int32s (suc n) bytes = do
  (v, rest) ← unpack32 bytes
  (vs, left) ← read_int32s n rest
  ok (v ∷ vs, left)

-- a parameter after its length; a slice past the end is shorter than asked for
unfoldable pub read_value : ℤ → Bytes → Wire (Option Bytes × Bytes)
read_value (pos n) bytes = ok (some (take n bytes), drop n bytes)
read_value (negsuc zero) bytes = ok (none, bytes)
read_value (negsuc (suc n)) bytes = err bad_length

-- the loop over the parameters in `decode_bind`
unfoldable pub read_values : ℕ → Bytes → Wire (List (Option Bytes) × Bytes)
unfolding unpack32 read_value
read_values zero bytes = ok ([], bytes)
read_values (suc n) bytes = do
  (size, rest) ← unpack32 bytes
  (v, after) ← read_value size rest
  (vs, left) ← read_values n after
  ok (v ∷ vs, left)

-- `params[key] = value`
unfoldable set_param : List (Text × Text) → Text → Text → List (Text × Text)
unfolding text_eq
set_param [] key value = (key, value) ∷ []
set_param ((k, v) ∷ params) key value =
    if text_eq k key then (k, value) ∷ params else (k, v) ∷ set_param params key value

module _ (utf8 : Utf8) where
  -- the loop of `decode_startup`; every round reads two bytes at least
  unfoldable read_params : ℕ → Bytes → List (Text × Text) → Wire (List (Text × Text))
  unfolding read_cstr set_param
  read_params zero bytes params = ok params
  read_params (suc fuel) [] params = ok params
  read_params (suc fuel) (b ∷ bytes) params = elim (eqb b 0) [
    | true ↦ ok params
    | false ↦ read_cstr utf8 (b ∷ bytes) >>= λ key.
        read_cstr utf8 key.1 >>= λ value. read_params fuel value.1 (set_param params key.0 value.0)
  ]

  unfoldable pub decode_startup : Bytes → Wire StartupMessage
  unfolding unpack32 read_params
  decode_startup body = do
    (version, rest) ← unpack32 body
    params ← read_params (length rest) rest []
    ok (record { protocol_version = version; parameters = params })

  unfoldable pub decode_query : Bytes → Wire Text
  unfolding read_cstr
  decode_query body = do (s, rest) ← read_cstr utf8 body; ok s

  unfoldable pub decode_password : Bytes → Wire Text
  unfolding read_cstr
  decode_password body = do (s, rest) ← read_cstr utf8 body; ok s

  unfoldable pub decode_parse : Bytes → Wire ParseMessage
  unfolding read_cstr unpack16 nonneg_count read_int32s
  decode_parse body = do
    (name, r1) ← read_cstr utf8 body
    (query, r2) ← read_cstr utf8 r1
    (count, r3) ← unpack16 r2
    n ← nonneg_count count
    (oids, r4) ← read_int32s n r3
    ok (record { name = name; query = query; parameter_oids = oids })

  unfoldable pub decode_bind : Bytes → Wire BindMessage
  unfolding read_cstr unpack16 nonneg_count read_int16s read_values
  decode_bind body = do
    (portal, r1) ← read_cstr utf8 body
    (statement, r2) ← read_cstr utf8 r1
    (fmt_count, r3) ← unpack16 r2
    n_fmt ← nonneg_count fmt_count
    (fmt_codes, r4) ← read_int16s n_fmt r3
    (param_count, r5) ← unpack16 r4
    n_params ← nonneg_count param_count
    (values, r6) ← read_values n_params r5
    (res_count, r7) ← unpack16 r6
    n_res ← nonneg_count res_count
    (res_codes, r8) ← read_int16s n_res r7
    ok (record {
      portal = portal;
      statement = statement;
      parameter_format_codes = fmt_codes;
      parameter_values = values;
      result_format_codes = res_codes;
    })

  -- `r.byte().decode("ascii")`: at the end of the body the byte is missing, and the kind empty
  unfoldable pub read_kind : Bytes → Wire (Bytes × Bytes)
  read_kind [] = ok ([], [])
  read_kind (b ∷ bytes) = if ltb b 128 then ok (b ∷ [], bytes) else err bad_text

  unfoldable pub decode_describe : Bytes → Wire NamedMessage
  unfolding read_kind read_cstr
  decode_describe body = do
    (kind, r1) ← read_kind body
    (name, r2) ← read_cstr utf8 r1
    ok (record { kind = kind; name = name })

  unfoldable pub decode_close : Bytes → Wire NamedMessage
  unfolding read_kind read_cstr
  decode_close body = do
    (kind, r1) ← read_kind body
    (name, r2) ← read_cstr utf8 r1
    ok (record { kind = kind; name = name })

  unfoldable pub decode_execute : Bytes → Wire ExecuteMessage
  unfolding read_cstr unpack32
  decode_execute body = do
    (portal, r1) ← read_cstr utf8 body
    (max_rows, r2) ← unpack32 r1
    ok (record { portal = portal; max_rows = max_rows })
