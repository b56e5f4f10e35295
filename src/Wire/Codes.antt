-- ===== src/Wire/Codes.antt =====
-- slayer/pg_facade/protocol.py: the format codes of Bind, resolved to one for each column.
use slayer.Prelude.{
  ℕ, zero, suc, ◌≡◌, refl, Bool, true, false, ◌||◌, List, [], ◌∷◌, length, replicate, all, eqb,
  if◌then◌else◌, arith,
}
use slayer.Prelude.Result.{err, ok, ◌>>◌, unless_raise}
use slayer.Wire.{ℤ, pos, negsuc, Wire, bad_format_code, code_count}

-- `c in (FORMAT_TEXT, FORMAT_BINARY)`
abbrev pub is_format_code : ℤ → Bool
is_format_code (pos n) = eqb n 0 || eqb n 1
is_format_code (negsuc n) = false

unfoldable pub validate_format_codes : List ℤ → Wire (Unit {0})
validate_format_codes codes = unless_raise (all is_format_code codes) bad_format_code

-- the result after the check
unfoldable resolve_codes : List ℤ → ℕ → Wire (List ℤ)
resolve_codes [] column_count = ok (replicate column_count (pos 0))
resolve_codes (c ∷ []) column_count = ok (replicate column_count c)
resolve_codes codes column_count =
    if eqb (length codes) column_count then ok codes else err code_count

unfoldable pub parse_result_format_codes : List ℤ → ℕ → Wire (List ℤ)
unfolding validate_format_codes resolve_codes
parse_result_format_codes codes column_count =
    validate_format_codes codes >> resolve_codes codes column_count

length-replicate {ℓ} : {A : Type ℓ} (n : ℕ) (a : A) → length (replicate n a) ≡ n
length-replicate zero a = refl
length-replicate (suc n) a = omega (arith, length-replicate n a)

all-replicate {ℓ} :
    {A : Type ℓ} (test : A → Bool) (n : ℕ) (a : A) → test a ≡ true → all test (replicate n a) ≡ true
all-replicate test zero a h = refl
all-replicate test (suc n) a h = ground (arith, h, all-replicate test n a h)

-- Resolved format codes are one for each column, and each is text or binary.
pub parse_result_format_codes_fit :
    (codes resolved : List ℤ) (column_count : ℕ)
    → parse_result_format_codes codes column_count ≡ ok resolved
    → (length resolved ≡ column_count) × (all is_format_code resolved ≡ true)
unfolding parse_result_format_codes validate_format_codes resolve_codes
parse_result_format_codes_fit [] resolved n h =
    ground (arith, length-replicate n (pos 0), all-replicate is_format_code n (pos 0))
parse_result_format_codes_fit (c ∷ []) resolved n h =
    ground (arith, length-replicate n c, all-replicate is_format_code n c)
parse_result_format_codes_fit (c ∷ d ∷ codes) resolved n h = ground arith
