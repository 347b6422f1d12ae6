-- ===== src/Double/Exact.antt =====
-- Where the six digits of a quotient by 1000 are exact.
use native.Mathlib.Nat.{div-add-mod', mod-lt, one-le-mul}
use traceroute.Base.{
  ℕ, zero, suc, ◌+◌, ◌*◌, ◌/◌, ◌%◌, ◌^◌, ◌≤◌, ◌<◌, ◌≡◌, ◌⊎◌, refl, ◌∙◌, ap, ltb, if◌then◌else◌,
  Bool-cases, inl, inr, true, arith,
}
use traceroute.Double.{round_half_even, spacing, nearest, quotient_1000, millionths}

doubled : ℕ → ℕ → ℕ
doubled zero unit = unit
doubled (suc n) unit = doubled n (2 * unit)

unit-le-doubled : (n unit : ℕ) → unit ≤ doubled n unit
unfolding doubled
unit-le-doubled zero unit = omega arith
unit-le-doubled (suc n) unit = omega (arith, unit-le-doubled n (2 * unit))

-- As many doublings as lead to a bound that is wide enough are not exceeded.
spacing-le :
    (fuel n d unit j : ℕ)
    → j ≤ fuel
    → ltb n (d * doubled j unit * 2 ^ 53) ≡ true
    → spacing fuel n d unit ≤ doubled j unit
unfolding spacing doubled
spacing-le zero n d unit zero l h = omega arith
spacing-le zero n d unit (suc j) l h = absurd (omega arith)
spacing-le (suc fuel) n d unit zero l h = rw (h, spacing) (omega arith)
spacing-le (suc fuel) n d unit (suc j) l h = elim (Bool-cases (ltb n (d * unit * 2 ^ 53))) [
  | inl y ↦ rw (y, spacing) (unit-le-doubled (suc j) unit)
  | inr m ↦ rw (m, spacing) (spacing-le fuel n d (2 * unit) j (omega arith) h)
]

spacing-pos : (fuel n d unit : ℕ) → 1 ≤ unit → 1 ≤ spacing fuel n d unit
unfolding spacing
spacing-pos zero n d unit h = h
spacing-pos (suc fuel) n d unit h = elim (Bool-cases (ltb n (d * unit * 2 ^ 53))) [
  | inl y ↦ rw (y, spacing) h
  | inr m ↦ rw (m, spacing) (spacing-pos fuel n d (2 * unit) (omega arith))
]

-- Rounding goes down, for a remainder of at most half the divisor, or up, for at least half.
directions :
    (d q r m : ℕ)
    → m ≡ (if ltb (2 * r) d then q else if ltb d (2 * r) then q + 1 else q + q % 2)
    → ((m ≡ q) × (2 * r ≤ d)) ⊎ ((m ≡ q + 1) × (d ≤ 2 * r))
directions d q r m z = elim (Bool-cases (ltb (2 * r) d)) [
  | inl y ↦ inl (rw y at z, ground arith)
  | inr n ↦ elim (Bool-cases (ltb d (2 * r))) [
    | inl y ↦ inr (rw (n, y) at z, ground arith)
    | inr k ↦ let same : m ≡ q + q % 2 = rw (n, k) at z in ground arith
  ]
]

-- The rounded quotient is at most half a divisor away.
halves :
    (n d q r m : ℕ)
    → q * d + r ≡ n
    → r < d
    → ((m ≡ q) × (2 * r ≤ d)) ⊎ ((m ≡ q + 1) × (d ≤ 2 * r))
    → (2 * (m * d) ≤ 2 * n + d) × (2 * n ≤ 2 * (m * d) + d)
halves n d q r m e l (inl (z, h)) =
    let same : m * d ≡ q * d = ap (λ k. k * d) z in (omega arith, omega arith)
halves n d q r m e l (inr (z, h)) =
    let same : m * d ≡ q * d + d = ap (λ k. k * d) z ∙ omega arith in (omega arith, omega arith)

round_half_even_bounds :
    (n d : ℕ)
    → 1 ≤ d
    → (2 * (round_half_even n d * d) ≤ 2 * n + d) × (2 * n ≤ 2 * (round_half_even n d * d) + d)
unfolding round_half_even
round_half_even_bounds n d h =
    halves n d (n / d) (n % d) _ (div-add-mod' n d) (mod-lt n h)
      (directions d (n / d) (n % d) _ refl)

-- A value near a quotient by 1000, counted in units, has the six digits of the quotient.
near :
    (c n v u m : ℕ)
    → n ≡ c * 4611686018427387904
    → u ≤ 4398046511104
    → 2 * (v * 1000) ≤ 2 * n + 1000 * u
    → 2 * n ≤ 2 * (v * 1000) + 1000 * u
    → 2 * (m * 4611686018427387904) ≤ 2 * (v * 1000000) + 4611686018427387904
    → 2 * (v * 1000000) ≤ 2 * (m * 4611686018427387904) + 4611686018427387904
    → m ≡ c * 1000
near c n v u m e l a b x y = omega arith

mul-swap : (m u d : ℕ) → m * u * d ≡ m * (d * u)
mul-swap m u d = grind arith

-- The rounded value is at most half a unit away.
nearest_bounds :
    (n d j : ℕ)
    → 1 ≤ d
    → j ≤ 80
    → ltb n (d * doubled j 1 * 2 ^ 53) ≡ true
    → (u : ℕ) × (u ≤ doubled j 1)
      × (1 ≤ u)
      × (2 * (nearest n d * d) ≤ 2 * n + d * u)
      × (2 * n ≤ 2 * (nearest n d * d) + d * u)
unfolding nearest
nearest_bounds n d j h l b =
    let u = spacing 80 n d 1 in
    let small = spacing-le 80 n d 1 j l b in
    let pos = spacing-pos 80 n d 1 (omega arith) in
    let (up, down) = round_half_even_bounds n (d * u) (one-le-mul h pos) in
    let same : round_half_even n (d * u) * u * d ≡ round_half_even n (d * u) * (d * u) =
      mul-swap (round_half_even n (d * u)) u d in
    (u, small, pos, rw same up, rw same down)

nearest-whole : (n : ℕ) → n < 2 ^ 53 → nearest n 1 ≡ n
unfolding doubled
nearest-whole n h =
    let (u, small, pos, up, down) =
      nearest_bounds n 1 0 (omega arith) (omega arith) (ground arith) in
    omega arith

doubled_42 : doubled 42 1 ≡ 4398046511104
unfolding doubled
doubled_42 = refl

-- Below 8 * 10 ^ 12 the six digits of a quotient by 1000 are exact.
pub millionths-quotient_1000 :
    (count : ℕ) → count < 8 * 10 ^ 12 → millionths (quotient_1000 count) ≡ count * 1000
unfolding millionths quotient_1000
millionths-quotient_1000 count h =
    let n = count * 2 ^ 62 in
    let whole = nearest-whole count (omega arith) in
    let (u, small, pos, up, down) =
      nearest_bounds n 1000 42 (omega arith) (omega arith) (rw doubled_42 (ground (arith, h))) in
    let (high, low) = round_half_even_bounds (nearest n 1000 * 1000000) (2 ^ 62) (omega arith) in
    rw whole (
      near count n (nearest n 1000) u _ (omega arith) (rw doubled_42 at small) (omega (arith, up))
        (omega (arith, down)) high low)
