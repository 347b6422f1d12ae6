-- ===== src/Sockets/Filter.antt =====
-- The filter of the ICMPv6 socket.
use traceroute.Base.{
  ℕ, zero, suc, ◌-◌, ◌/◌, ◌%◌, ◌^◌, ◌<◌, ◌≡◌, ◌⊎◌, inl, inr, refl, Bool, true, false, Bool-cases,
  ◌||◌, ◌&&◌, ◌==◌, if◌then◌else◌, List, [], ◌∷◌, arith,
}
use traceroute.Sockets.{icmp6_filter, set_pass, clear_in_word, clear_bit}

-- `ICMP6_FILTER_WILLPASS`: the bit of a type is clear.
abbrev pub will_pass : ℕ → List ℕ → Bool
will_pass type [] = false
will_pass type (word ∷ words) =
    if type / 32 == 0 then word / 2 ^ (type % 32) % 2 == 0 else will_pass (type - 32) words

abbrev agree : Bool → Bool → Bool
agree true b = b
agree false true = false
agree false false = true

agree-eq : (a b : Bool) → agree a b ≡ true → a ≡ b
agree-eq true true e = refl
agree-eq true false e = cc
agree-eq false true e = cc
agree-eq false false e = refl

abbrev all_below : ℕ → (ℕ → Bool) → Bool
all_below zero test = true
all_below (suc n) test = test n && all_below n test

last_or_before : (i n : ℕ) → i < suc n → (i ≡ n) ⊎ (i < n)
last_or_before i n h = ground arith

all_below-true : (n : ℕ) (test : ℕ → Bool) (i : ℕ) → all_below n test ≡ true → i < n → test i ≡ true
all_below-true zero test i e h = absurd (omega arith)
all_below-true (suc n) test i e h = elim (Bool-cases (test n)) [
  | inl y ↦ elim (last_or_before i n h) [
    | inl same ↦ rw same y
    | inr before ↦ all_below-true n test i (rw y at e) before
  ]
  | inr m ↦ let e' : false ≡ true = rw m at e in cc
]

-- The filter hands on destination unreachable (1), time exceeded (3) and echo reply (129), and no
-- other of the 256 types.
pub icmp6_filter_lem :
    (type : ℕ) → type < 256 → will_pass type icmp6_filter ≡ (type == 1 || type == 3 || type == 129)
unfolding icmp6_filter set_pass clear_in_word clear_bit
icmp6_filter_lem type h = agree-eq _ _ (
    all_below-true 256 (λ t. agree (will_pass t icmp6_filter) (t == 1 || t == 3 || t == 129)) type
      refl h)
