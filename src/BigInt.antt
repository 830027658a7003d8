-- ===== src/BigInt.antt =====
-- What the code uses of `math/big`: a number and its bytes, the most significant first.
use brosettlement_mpc_core.Base.{
  ℕ, zero, suc, ◌+◌, ◌*◌, ◌/◌, ◌%◌, ◌^◌, ◌<◌, ◌≡◌, refl, ◌∙◌, [], ◌∷◌, ◌++◌, Bytes, length,
  length-append, arith,
}

-- `SetBytes`
abbrev pub set_bytes_from : ℕ → Bytes → ℕ
set_bytes_from n [] = n
set_bytes_from n (b ∷ s) = set_bytes_from (n * 256 + b) s

abbrev pub set_bytes : Bytes → ℕ
set_bytes s = set_bytes_from 0 s

-- The last `n` bytes of a number: `FillBytes` of a buffer of n bytes, or `Bytes` copied to its end,
-- for a number that fits.
unfoldable pub fill_bytes : ℕ → ℕ → Bytes
fill_bytes zero x = []
fill_bytes (suc n) x = fill_bytes n (x / 256) ++ (x % 256) ∷ []

set_bytes_from-append :
    (n : ℕ) (s : Bytes) (b : ℕ) → set_bytes_from n (s ++ b ∷ []) ≡ set_bytes_from n s * 256 + b
set_bytes_from-append n [] b = refl
set_bytes_from-append n (c ∷ s) b = set_bytes_from-append (n * 256 + c) s b

-- The limit of `n` bytes.
unfoldable pub byte_limit : ℕ → ℕ
byte_limit zero = 1
byte_limit (suc n) = byte_limit n * 256

pub set_bytes-fill_bytes : (n x : ℕ) → x < byte_limit n → set_bytes (fill_bytes n x) ≡ x
unfolding fill_bytes byte_limit
set_bytes-fill_bytes zero x h = omega (arith, h)
set_bytes-fill_bytes (suc n) x h =
    let below : x / 256 < byte_limit n = omega (arith, h) in
    set_bytes_from-append 0 (fill_bytes n (x / 256)) (x % 256)
    ∙ rw (set_bytes-fill_bytes n (x / 256) below) (omega arith)

pub length-fill_bytes : (n x : ℕ) → length (fill_bytes n x) ≡ n
unfolding fill_bytes
length-fill_bytes zero x = refl
length-fill_bytes (suc n) x =
    length-append (fill_bytes n (x / 256)) (x % 256 ∷ [])
    ∙ omega (arith, length-fill_bytes n (x / 256))

pub limit_32 : byte_limit 32 ≡ 2 ^ 256
unfolding byte_limit
limit_32 = refl
