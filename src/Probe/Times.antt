-- ===== src/Probe/Times.antt =====
-- The printed time of a probe.
use mathlib.Core.List.{cons-ne-nil}
use traceroute.Base.{
  ℕ, ◌+◌, ◌*◌, ◌/◌, ◌%◌, ◌^◌, ◌<◌, ◌≡◌, ◌≢◌, refl, ap, sym, ◌∙◌, some, [], ◌∷◌, ◌++◌, Bytes,
  to_digits, to_digits-rel, take_number, take_number-to_digits, arith,
}
use traceroute.Double.{six_digits}
use traceroute.Double.Exact.{millionths-quotient_1000}
use traceroute.Probe.{remove_trailing_zeros, keep_front, thousandths}
use traceroute.Probe.Reading.{take_fraction, take_time}

-- The six digits behind the point.
abbrev pub decimals : ℕ → Bytes
decimals count =
    (b'0' + count / 100 % 10)
    ∷ (b'0' + count / 10 % 10)
    ∷ (b'0' + count % 10)
    ∷ b'0'
    ∷ b'0'
    ∷ b'0'
    ∷ []

keep_front-kept : (c : ℕ) (text : Bytes) → text ≢ [] → keep_front c text ≡ c ∷ text
unfolding keep_front
keep_front-kept c [] h = absurd (h refl)
keep_front-kept c (d ∷ text) h = refl

-- Zeros are removed behind the digits, if something stays there.
remove_trailing_zeros-to_digits :
    (n : ℕ) (text : Bytes)
    → remove_trailing_zeros text ≢ []
    → remove_trailing_zeros (to_digits n text) ≡ to_digits n (remove_trailing_zeros text)
unfolding remove_trailing_zeros
remove_trailing_zeros-to_digits n text h =
    (to_digits-rel (λ t u. (remove_trailing_zeros t ≡ u) × (u ≢ []))
      (λ d t u _ (e, k).
        (ap (keep_front (b'0' + d)) e ∙ keep_front-kept (b'0' + d) u k, cons-ne-nil _ u))
      n text (remove_trailing_zeros text) (refl, h)).0

append-to_digits :
    (n : ℕ) (text rest : Bytes) → to_digits n text ++ rest ≡ to_digits n (text ++ rest)
append-to_digits n text rest =
    to_digits-rel (λ t u. t ++ rest ≡ u) (λ d t u _ e. ap (λ v. (b'0' + d) ∷ v) e) n text
      (text ++ rest) refl

take_fraction-printed :
    (count total : ℕ) (rest : Bytes)
    → take_fraction 100 total (remove_trailing_zeros (decimals count) ++ (b' ' ∷ rest))
      ≡ (total + count % 1000, b' ' ∷ rest)
unfolding remove_trailing_zeros keep_front
take_fraction-printed count total rest = ground arith

keep_front-point : (text : Bytes) → keep_front b'.' text ≡ b'.' ∷ text
unfolding keep_front
keep_front-point [] = refl
keep_front-point (c ∷ text) = refl

remove_trailing_zeros-point :
    (text : Bytes) → remove_trailing_zeros (b'.' ∷ text) ≡ b'.' ∷ remove_trailing_zeros text
unfolding remove_trailing_zeros
remove_trailing_zeros-point text = keep_front-point (remove_trailing_zeros text)

six_digits-thousand :
    (count : ℕ) → six_digits (count * 1000) ≡ to_digits (count / 1000) (b'.' ∷ decimals count)
unfolding six_digits
six_digits-thousand count =
    let whole : count * 1000 / 1000000 ≡ count / 1000 = omega arith in
    let d5 : count * 1000 / 100000 % 10 ≡ count / 100 % 10 = omega arith in
    let d4 : count * 1000 / 10000 % 10 ≡ count / 10 % 10 = omega arith in
    let d3 : count * 1000 / 1000 % 10 ≡ count % 10 = omega arith in
    let d2 : count * 1000 / 100 % 10 ≡ 0 = omega arith in
    let d1 : count * 1000 / 10 % 10 ≡ 0 = omega arith in
    let d0 : count * 1000 % 10 ≡ 0 = omega arith in
    λ i. to_digits (whole i) (
      b'.'
      ∷ (b'0' + d5 i)
      ∷ (b'0' + d4 i)
      ∷ (b'0' + d3 i)
      ∷ (b'0' + d2 i)
      ∷ (b'0' + d1 i)
      ∷ (b'0' + d0 i)
      ∷ [])

-- Below 8 * 10 ^ 12 microseconds the six digits are those of the number itself.
thousandths_exact :
    (count : ℕ)
    → count < 8 * 10 ^ 12
    → thousandths count ≡ to_digits (count / 1000) (b'.' ∷ decimals count)
unfolding thousandths
thousandths_exact count h =
    ap six_digits (millionths-quotient_1000 count h) ∙ six_digits-thousand count

pub remove_trailing_zeros-thousandths :
    (count : ℕ)
    → count < 8 * 10 ^ 12
    → remove_trailing_zeros (thousandths count)
      ≡ to_digits (count / 1000) (b'.' ∷ remove_trailing_zeros (decimals count))
remove_trailing_zeros-thousandths count h =
    ap remove_trailing_zeros (thousandths_exact count h)
    ∙ remove_trailing_zeros-to_digits (count / 1000) (b'.' ∷ decimals count)
        (λ e. cons-ne-nil _ _ (sym (remove_trailing_zeros-point (decimals count)) ∙ e))
    ∙ ap (to_digits (count / 1000)) (remove_trailing_zeros-point (decimals count))

-- A printed time in front of a space is read back as the time that was printed.
pub take_time-printed :
    (count : ℕ) (rest : Bytes)
    → count < 8 * 10 ^ 12
    → take_time (remove_trailing_zeros (thousandths count) ++ (b' ' ∷ rest))
      ≡ some (count, b' ' ∷ rest)
unfolding take_number
take_time-printed count rest h =
    let whole : count / 1000 * 1000 + count % 1000 ≡ count = omega arith in
    rw
      (
        remove_trailing_zeros-thousandths count h,
        append-to_digits (count / 1000) (b'.' ∷ remove_trailing_zeros (decimals count))
            (b' ' ∷ rest),
        take_number-to_digits,
        take_fraction-printed,
        whole,
      )
      refl
