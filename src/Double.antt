-- ===== src/Double.antt =====
-- The arithmetic of `double` that the program uses: an integer as a `double`, its quotient by a
-- constant, and the six digits that `std::to_string` prints. A non-negative `double` is counted
-- in units of 2 ^ -62; results are rounded to 53 bits, ties to even.
pub mod Exact
use traceroute.Base.{
  ℕ, zero, suc, ◌+◌, ◌*◌, ◌/◌, ◌%◌, ◌^◌, ◌==◌, ltb, if◌then◌else◌, true, false, [], ◌∷◌, Bytes,
  to_digits,
}

-- The integer nearest to a quotient, of two the even one.
unfoldable pub round_half_even : ℕ → ℕ → ℕ
round_half_even n d =
    if ltb (2 * (n % d)) d
    then n / d
    else if ltb d (2 * (n % d))
    then n / d + 1
    else n / d + n / d % 2

-- The distance between neighbouring values of 53 bits around a quotient, a power of two.
unfoldable pub spacing : ℕ → ℕ → ℕ → ℕ → ℕ
spacing zero n d unit = unit
spacing (suc fuel) n d unit = elim (ltb n (d * unit * 2 ^ 53)) [
  | true ↦ unit
  | false ↦ spacing fuel n d (2 * unit)
]

-- A quotient rounded to 53 bits; 80 doublings are enough for numbers below 2 ^ 133.
unfoldable pub nearest : ℕ → ℕ → ℕ
unfolding round_half_even spacing
nearest n d = round_half_even n (d * spacing 80 n d 1) * spacing 80 n d 1

-- `count / 1000.0` for a count of 64 bits, in units of 2 ^ -62.
unfoldable pub quotient_1000 : ℕ → ℕ
unfolding nearest
quotient_1000 count = nearest (nearest count 1 * 2 ^ 62) 1000

-- `%f`: the nearest number of millionths.
unfoldable pub millionths : ℕ → ℕ
unfolding round_half_even
millionths value = round_half_even (value * 1000000) (2 ^ 62)

-- A number of millionths as a decimal number with six digits behind the point.
unfoldable pub six_digits : ℕ → Bytes
unfolding to_digits
six_digits n = to_digits (n / 1000000) (
    b'.'
    ∷ (b'0' + n / 100000 % 10)
    ∷ (b'0' + n / 10000 % 10)
    ∷ (b'0' + n / 1000 % 10)
    ∷ (b'0' + n / 100 % 10)
    ∷ (b'0' + n / 10 % 10)
    ∷ (b'0' + n % 10)
    ∷ [])
