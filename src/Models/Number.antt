-- ===== src/Models/Number.antt =====
-- Go's numbers: the order of `float64` values by their bit patterns, and the conversion to `int`.
pub mod Bounds
use operion.Base.{ℕ, zero, suc, ◌+◌, ◌-◌, ◌*◌, ◌/◌, ◌%◌, ◌^◌, Bool, not, ◌&&◌, ltb, if◌then◌else◌}

-- A signed number: `negsuc n` is -(n + 1).
pub data ℤ : Type 0 where
  pos : ℕ → ℤ
  negsuc : ℕ → ℤ

is_nan : ℕ → Bool
is_nan bits = ltb 0x7ff0000000000000 (bits % 0x8000000000000000)

-- The values in their order; both zeros have one place.
place : ℕ → ℕ
place bits =
    if ltb bits 0x8000000000000000 then 0x8000000000000000 + bits else 0x10000000000000000 - bits

-- `a < b` of two `float64` values; no order holds of a NaN.
unfoldable pub float_ltb : ℕ → ℕ → Bool
unfolding is_nan place
float_ltb a b = not (is_nan a) && not (is_nan b) && ltb (place a) (place b)

-- The value without its fraction and its sign, if it is less than 2 ^ 63.
unfoldable pub magnitude : ℕ → ℕ
magnitude bits =
    let e = (bits / 0x10000000000000) % 0x800 in
    let m = bits % 0x10000000000000 + 0x10000000000000 in
    if ltb e 1023 then 0 else if ltb e 1075 then m / 2 ^ (1075 - e) else m * 2 ^ (e - 1075)

negated : ℕ → ℤ
negated zero = pos 0
negated (suc n) = negsuc n

-- `int(f)`. Of a value that an `int` does not hold, Go leaves the result open; it is the least
-- `int`, as on amd64.
unfoldable pub to_int : ℕ → ℤ
unfolding magnitude negated
to_int bits =
    let e = (bits / 0x10000000000000) % 0x800 in
    if ltb 1085 e
    then negsuc 0x7fffffffffffffff
    else if ltb bits 0x8000000000000000
    then pos (magnitude bits)
    else negated (magnitude bits)
