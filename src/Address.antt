-- ===== src/Address.antt =====
-- src/SocketAddress.cpp: the address class over `sockaddr_storage`, and its comparison.
pub mod Equality
pub mod Text
pub mod Host
use traceroute.Base.{
  ℕ, suc, ◌≡◌, Bool, false, not, ◌==◌, if◌then◌else◌, Outcome, Bytes, ok, throw, ◌>>=◌,
  invalid_address, conversion_failed, Option, none, some,
}

abbrev pub af_inet : ℕ
af_inet = 2

abbrev pub af_inet6 : ℕ
af_inet6 = 10

-- Four 32-bit words, `__u6_addr32` of an `in6_addr`.
pub record In6Addr : Type 0 where
  pub w0 : ℕ
  pub w1 : ℕ
  pub w2 : ℕ
  pub w3 : ℕ

-- `mAddress`. The word at offset 4 is `sin_addr.s_addr` of a `sockaddr_in` and `sin6_flowinfo` of
-- a `sockaddr_in6`; `sin6_addr` stands at offset 8, where a `sockaddr_in` has padding.
pub record SocketAddress : Type 0 where
  pub ss_family : ℕ
  pub port : ℕ
  pub word4 : ℕ
  pub sin6_addr : In6Addr

abbrev pub s_addr : SocketAddress → ℕ
s_addr a = a.word4

unfoldable pub family : SocketAddress → ℕ
family a = a.ss_family

unfoldable pub is_v4 : SocketAddress → Bool
unfolding family
is_v4 a = family a == af_inet

unfoldable pub is_v6 : SocketAddress → Bool
unfolding is_v4
is_v6 a = not (is_v4 a)

-- `sizeof(sockaddr_in)` and `sizeof(sockaddr_in6)`.
unfoldable pub size : SocketAddress → ℕ
unfolding is_v4
size a = if is_v4 a then 16 else 28

-- The loop over the four words, which breaks at the first difference.
unfoldable pub same_words : In6Addr → In6Addr → Bool
same_words a b =
    if a.w0 == b.w0
    then if a.w1 == b.w1 then if a.w2 == b.w2 then a.w3 == b.w3 else false else false
    else false

-- `operator==`: the family of the left operand alone says which words are compared.
unfoldable pub address_eq : SocketAddress → SocketAddress → Bool
unfolding is_v4 same_words
address_eq a b = if is_v4 a then s_addr a == s_addr b else same_words a.sin6_addr b.sin6_addr

unfoldable pub address_ne : SocketAddress → SocketAddress → Bool
unfolding address_eq
address_ne a b = not (address_eq a b)

-- The resolver of the C library: the family of the first entry, or none on an error; and the
-- conversions of a numeric text, or none where they do not return 1.
pub record Resolver (Text : Type 0) : Type 0 where
  pub getaddrinfo : Text → Option ℕ
  pub inet_pton4 : Text → Option ℕ
  pub inet_pton6 : Text → Option In6Addr

module _ {Text : Type 0} (r : Resolver Text) where
  parse_v4 : SocketAddress → Option ℕ → Outcome SocketAddress
  parse_v4 raw none = throw conversion_failed
  parse_v4 raw (some temp) = ok (record raw { ss_family = af_inet; word4 = temp; port = 0 })

  parse_v6 : SocketAddress → Option In6Addr → Outcome SocketAddress
  parse_v6 raw none = throw conversion_failed
  parse_v6 raw (some temp) = ok (record raw { ss_family = af_inet6; sin6_addr = temp; port = 0 })

  by_family : SocketAddress → Text → Option ℕ → Outcome SocketAddress
  unfolding parse_v4 parse_v6
  by_family raw text none = throw invalid_address
  by_family raw text (some ai_family) =
      if ai_family == af_inet
      then parse_v4 raw (r.inet_pton4 text)
      else if ai_family == af_inet6
      then parse_v6 raw (r.inet_pton6 text)
      else throw invalid_address

  -- `SocketAddress(const std::string &)`; `raw` is what the storage held before.
  unfoldable pub parse_address : SocketAddress → Text → Outcome SocketAddress
  unfolding by_family
  parse_address raw text = by_family raw text (r.getaddrinfo text)

-- `inet_ntop`, which writes the text of an address into a buffer that is long enough.
pub record Printer : Type 0 where
  pub inet_ntop4 : ℕ → Bytes
  pub inet_ntop6 : In6Addr → Bytes

unfoldable pub to_string : Printer → SocketAddress → Bytes
unfolding is_v4
to_string printer a =
    if is_v4 a then printer.inet_ntop4 (s_addr a) else printer.inet_ntop6 a.sin6_addr
