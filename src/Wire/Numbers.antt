-- ===== src/Wire/Numbers.antt =====
-- slayer/pg_facade/protocol.py: integers that are packed and unpacked.
use slayer.Prelude.{ℕ, ◌+◌, ◌*◌, ◌/◌, ◌%◌, ◌<◌, ◌≡◌, [], ◌∷◌, ◌++◌, length, arith}
use slayer.Prelude.Result.{ok, bind-ok}
use slayer.Wire.{
  ℤ, pos, negsuc, word16, word32, signed16, signed32, pack16, pack32, unpack16, unpack32, Bytes,
}

word16-signed : (v : ℤ) (w : ℕ) → word16 v ≡ ok w → (w < 65536) × (signed16 w ≡ v)
unfolding word16 signed16
word16-signed (pos n) w h = ground arith
word16-signed (negsuc n) w h = ground arith

word32-signed : (v : ℤ) (w : ℕ) → word32 v ≡ ok w → (w < 4294967296) × (signed32 w ≡ v)
unfolding word32 signed32
word32-signed (pos n) w h = ground arith
word32-signed (negsuc n) w h = ground arith

bytes16 : (w : ℕ) → w < 65536 → (w / 256 % 256) * 256 + w % 256 ≡ w
bytes16 w h = omega arith

bytes32 :
    (w : ℕ)
    → w < 4294967296
    → (((w / 16777216 % 256) * 256 + w / 65536 % 256) * 256 + w / 256 % 256) * 256 + w % 256 ≡ w
bytes32 w h = omega arith

pub unpack16-pack16 :
    (v : ℤ) (bytes rest : Bytes) → pack16 v ≡ ok bytes → unpack16 (bytes ++ rest) ≡ ok (v, rest)
unfolding pack16 unpack16
unpack16-pack16 v bytes rest h =
    let (w, step, made) = bind-ok (word16 v) (λ w. ok (w / 256 % 256 ∷ w % 256 ∷ [])) h in
    ground (arith, word16-signed v w step, bytes16 w, made)

pub unpack32-pack32 :
    (v : ℤ) (bytes rest : Bytes) → pack32 v ≡ ok bytes → unpack32 (bytes ++ rest) ≡ ok (v, rest)
unfolding pack32 unpack32
unpack32-pack32 v bytes rest h =
    let (w, step, made) =
      bind-ok (word32 v)
        (λ w. ok (w / 16777216 % 256 ∷ w / 65536 % 256 ∷ w / 256 % 256 ∷ w % 256 ∷ [])) h in
    ground (arith, word32-signed v w step, bytes32 w, made)

pub length-pack32 : (v : ℤ) (bytes : Bytes) → pack32 v ≡ ok bytes → length bytes ≡ 4
unfolding pack32
length-pack32 v bytes h =
    let (w, step, made) =
      bind-ok (word32 v)
        (λ w. ok (w / 16777216 % 256 ∷ w / 65536 % 256 ∷ w / 256 % 256 ∷ w % 256 ∷ [])) h in
    ground (arith, made)
