-- ===== src/Address/Text.antt =====
-- Addresses to texts and back.
use traceroute.Base.{ℕ, ◌≡◌, ◌⊎◌, inl, inr, true, refl, Bytes, ok, some, arith}
use traceroute.Address.{
  SocketAddress, In6Addr, af_inet, af_inet6, address_eq, Resolver, Printer, parse_address,
  to_string,
}

-- `getaddrinfo` with AI_NUMERICHOST and `inet_pton` understand what `inet_ntop` writes.
pub record IsInverse (printer : Printer) (r : Resolver Bytes) : Type 0 where
  pub family4 : (n : ℕ) → r.getaddrinfo (printer.inet_ntop4 n) ≡ some af_inet
  pub family6 : (a : In6Addr) → r.getaddrinfo (printer.inet_ntop6 a) ≡ some af_inet6
  pub pton4 : (n : ℕ) → r.inet_pton4 (printer.inet_ntop4 n) ≡ some n
  pub pton6 : (a : In6Addr) → r.inet_pton6 (printer.inet_ntop6 a) ≡ some a

-- What the constructor makes of a printed address.
abbrev pub IsCopy : SocketAddress → SocketAddress → Type 0
IsCopy a b =
    (address_eq a b ≡ true) × (address_eq b a ≡ true) × (b.ss_family ≡ a.ss_family) × (b.port ≡ 0)

to_string4 :
    (printer : Printer) (a : SocketAddress)
    → a.ss_family ≡ af_inet
    → to_string printer a ≡ printer.inet_ntop4 a.word4
unfolding to_string
to_string4 printer a v4 = ground arith

to_string6 :
    (printer : Printer) (a : SocketAddress)
    → a.ss_family ≡ af_inet6
    → to_string printer a ≡ printer.inet_ntop6 a.sin6_addr
unfolding to_string
to_string6 printer a v6 = ground arith

-- An IPv4 or IPv6 address that is printed and parsed again comes back as an equal address of its
-- family with port 0, whatever the new storage held before.
pub parse_address-to_string :
    (printer : Printer) (r : Resolver Bytes) (raw a : SocketAddress)
    → IsInverse printer r
    → (a.ss_family ≡ af_inet) ⊎ (a.ss_family ≡ af_inet6)
    → (b : SocketAddress) × (parse_address r raw (to_string printer a) ≡ ok b) × IsCopy a b
unfolding parse_address address_eq
parse_address-to_string printer r raw a laws (inl v4) = (
  record raw { ss_family = af_inet; word4 = a.word4; port = 0 },
  rw (to_string4 printer a v4, laws.family4 a.word4, laws.pton4 a.word4) refl,
  ground arith,
)
parse_address-to_string printer r raw a laws (inr v6) = (
  record raw { ss_family = af_inet6; sin6_addr = a.sin6_addr; port = 0 },
  rw (to_string6 printer a v6, laws.family6 a.sin6_addr, laws.pton6 a.sin6_addr) refl,
  ground arith,
)
