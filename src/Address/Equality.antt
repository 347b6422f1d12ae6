-- ===== src/Address/Equality.antt =====
-- Laws of the comparison of addresses.
use traceroute.Base.{◌≡◌, ◌≢◌, ◌↔◌, true, false, arith}
use traceroute.Address.{SocketAddress, af_inet, af_inet6, s_addr, is_v4, address_eq}

-- The part of the storage that names the host.
abbrev pub SameHost : SocketAddress → SocketAddress → Type 0
SameHost a b =
    (a.ss_family ≡ af_inet → s_addr a ≡ s_addr b)
    × (a.ss_family ≢ af_inet → a.sin6_addr ≡ b.sin6_addr)

pub is_v4_iff : (a : SocketAddress) → (is_v4 a ≡ true) ↔ (a.ss_family ≡ af_inet)
unfolding is_v4
is_v4_iff a = ground arith

pub address_eq_refl : (a : SocketAddress) → address_eq a a ≡ true
unfolding address_eq
address_eq_refl a = ground arith

-- `operator==` looks at the words that the family of the left operand selects.
pub address_eq_iff : (a b : SocketAddress) → (address_eq a b ≡ true) ↔ SameHost a b
unfolding address_eq
address_eq_iff a b = ground arith

-- Across the families `operator==` depends on the order of its operands: an IPv4 address `a`
-- equals an IPv6 address `b` when the flow label of `b` has the value of the IPv4 address,
-- whatever the host of `b`, and the reverse comparison is false if the words behind `a` differ
-- from the host of `b`.
pub address_eq_mixed :
    (a b : SocketAddress)
    → a.ss_family ≡ af_inet
    → b.ss_family ≡ af_inet6
    → a.word4 ≡ b.word4
    → b.sin6_addr ≢ a.sin6_addr
    → (address_eq a b ≡ true) × (address_eq b a ≡ false)
unfolding address_eq
address_eq_mixed a b ha hb e d = ground arith
