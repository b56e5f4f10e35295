-- ===== src/Wire/RoundTrip.antt =====
-- slayer/pg_facade/protocol.py: strings, lists of integers and values, written and read.
use slayer.Prelude.{
  ◌≡◌, refl, ap, false, Option, none, some, List, [], ◌∷◌, ◌++◌, take, drop, length, any, eqb,
  arith,
}
use slayer.Prelude.Result.{ok, bind-bind-ok}
use slayer.Prelude.Text.{Text, partition}
use slayer.Wire.{ℤ, pos, negsuc, Bytes, Utf8, pack16, pack32, cstr, read_cstr}
use slayer.Wire.Encode.{pack_all, encode_values}
use slayer.Wire.Decode.{read_int16s, read_int32s, read_value, read_values}
use slayer.Wire.Layout.{pack_shorts, NulFree}
use slayer.Wire.Numbers.{unpack16-pack16, unpack32-pack32}

pub append_assoc {ℓ} : {A : Type ℓ} (xs ys zs : List A) → (xs ++ ys) ++ zs ≡ xs ++ (ys ++ zs)
append_assoc [] ys zs = refl
append_assoc (x ∷ xs) ys zs = ap (λ l. x ∷ l) (append_assoc xs ys zs)

pub append-nil {ℓ} : {A : Type ℓ} (xs : List A) → xs ++ [] ≡ xs
append-nil [] = refl
append-nil (x ∷ xs) = ap (λ l. x ∷ l) (append-nil xs)

pub take-append {ℓ} : {A : Type ℓ} (xs ys : List A) → take (length xs) (xs ++ ys) ≡ xs
take-append [] ys = refl
take-append (x ∷ xs) ys = ap (λ l. x ∷ l) (take-append xs ys)

pub drop-append {ℓ} : {A : Type ℓ} (xs ys : List A) → drop (length xs) (xs ++ ys) ≡ ys
drop-append [] ys = refl
drop-append (x ∷ xs) ys = drop-append xs ys

partition-first :
    (s rest : Bytes) → any (eqb 0) s ≡ false → partition 0 (s ++ 0 ∷ rest) ≡ some (s, rest)
unfolding partition
partition-first [] rest h = refl
partition-first (c ∷ s) rest h = ground (arith, partition-first s rest)

pub read_cstr-cstr :
    (utf8 : Utf8) (s : Text) (rest : Bytes)
    → NulFree s
    → read_cstr utf8 (cstr utf8 s ++ rest) ≡ ok (s, rest)
unfolding read_cstr cstr
read_cstr-cstr utf8 s rest free = ground (
  arith,
  append_assoc (utf8.encode s) (0 ∷ []) rest,
  partition-first (utf8.encode s) rest (utf8.encode_nul s free),
  utf8.decode-encode s,
)

pub read_int32s-pack_all :
    (vs : List ℤ) (bytes rest : Bytes)
    → pack_all vs ≡ ok bytes
    → read_int32s (length vs) (bytes ++ rest) ≡ ok (vs, rest)
unfolding pack_all read_int32s
read_int32s-pack_all [] bytes rest h = ground arith
read_int32s-pack_all (v ∷ vs) bytes rest h =
    let (first, tail, packed, all, made) =
      bind-bind-ok (pack32 v) (pack_all vs) (λ first tail. (first ++ tail)) h in
    ground (
      arith,
      append_assoc first tail rest,
      unpack32-pack32 v first (tail ++ rest) packed,
      read_int32s-pack_all vs tail rest all,
    )

pub read_int16s-pack_shorts :
    (vs : List ℤ) (bytes rest : Bytes)
    → pack_shorts vs ≡ ok bytes
    → read_int16s (length vs) (bytes ++ rest) ≡ ok (vs, rest)
unfolding pack_shorts read_int16s
read_int16s-pack_shorts [] bytes rest h = ground arith
read_int16s-pack_shorts (v ∷ vs) bytes rest h =
    let (first, tail, packed, all, made) =
      bind-bind-ok (pack16 v) (pack_shorts vs) (λ first tail. (first ++ tail)) h in
    ground (
      arith,
      append_assoc first tail rest,
      unpack16-pack16 v first (tail ++ rest) packed,
      read_int16s-pack_shorts vs tail rest all,
    )

-- The values of a data row, as the server writes them, are what the loop over the parameters of
-- Bind reads: nulls, empty values and all, and nothing after them.
pub read_values-encode_values :
    (values : List (Option Bytes)) (bytes rest : Bytes)
    → encode_values values ≡ ok bytes
    → read_values (length values) (bytes ++ rest) ≡ ok (values, rest)
unfolding encode_values read_values read_value
read_values-encode_values [] bytes rest h = ground arith
read_values-encode_values (none ∷ values) bytes rest h =
    let (size, tail, packed, all, made) =
      bind-bind-ok (pack32 (negsuc 0)) (encode_values values) (λ size tail. (size ++ tail)) h in
    ground (
      arith,
      append_assoc size tail rest,
      unpack32-pack32 (negsuc 0) size (tail ++ rest) packed,
      read_values-encode_values values tail rest all,
    )
read_values-encode_values (some v ∷ values) bytes rest h =
    let (size, tail, packed, all, made) =
      bind-bind-ok (pack32 (pos (length v))) (encode_values values)
        (λ size tail. (size ++ (v ++ tail))) h in
    ground (
      arith,
      append_assoc size (v ++ tail) rest,
      append_assoc v tail rest,
      unpack32-pack32 (pos (length v)) size (v ++ (tail ++ rest)) packed,
      take-append v (tail ++ rest),
      drop-append v (tail ++ rest),
      read_values-encode_values values tail rest all,
    )
