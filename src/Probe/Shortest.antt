-- ===== src/Probe/Shortest.antt =====
-- How a time of a probe is printed.
use traceroute.Base.{
  ℕ, ◌/◌, ◌%◌, ◌^◌, ◌*◌, ◌<◌, ◌≤◌, ◌≡◌, ◌↔◌, Bool, false, ◌==◌, [], ◌∷◌, Bytes, length, to_digits,
  arith,
}
use traceroute.Probe.{remove_trailing_zeros, keep_front, thousandths}
use traceroute.Probe.Times.{decimals, remove_trailing_zeros-thousandths}

abbrev pub ends_in : ℕ → Bytes → Bool
ends_in c [] = false
ends_in c (d ∷ []) = d == c
ends_in c (d ∷ e ∷ text) = ends_in c (e ∷ text)

-- A time in microseconds as a text: the milliseconds, the point, and the digits of the rest.
pub record IsPrinted (count : ℕ) (text : Bytes) : Type 0 where
  pub fraction : Bytes
  pub in_front : text ≡ to_digits (count / 1000) (b'.' ∷ fraction)
  pub short : length fraction ≤ 3
  pub no_zero : ends_in b'0' fraction ≡ false
  pub bare : (fraction ≡ []) ↔ (count % 1000 ≡ 0)

fraction_short : (count : ℕ) → length (remove_trailing_zeros (decimals count)) ≤ 3
unfolding remove_trailing_zeros keep_front
fraction_short count = ground arith

fraction-no_zero : (count : ℕ) → ends_in b'0' (remove_trailing_zeros (decimals count)) ≡ false
unfolding remove_trailing_zeros keep_front
fraction-no_zero count = ground arith

fraction_bare : (count : ℕ) → (remove_trailing_zeros (decimals count) ≡ []) ↔ (count % 1000 ≡ 0)
unfolding remove_trailing_zeros keep_front
fraction_bare count = ground arith

-- The time of a probe of less than 8 * 10 ^ 12 microseconds is printed as its whole milliseconds,
-- the point, and at most three digits of the rest, the last of which is not 0. For exactly the
-- whole numbers of milliseconds nothing stands behind the point, which is printed all the same.
pub remove_trailing_zeros-IsPrinted :
    (count : ℕ) → count < 8 * 10 ^ 12 → IsPrinted count (remove_trailing_zeros (thousandths count))
remove_trailing_zeros-IsPrinted count h = record {
  fraction = remove_trailing_zeros (decimals count);
  in_front = remove_trailing_zeros-thousandths count h;
  short = fraction_short count;
  no_zero = fraction-no_zero count;
  bare = fraction_bare count;
}
