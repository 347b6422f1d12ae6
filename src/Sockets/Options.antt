-- ===== src/Sockets/Options.antt =====
-- The options that the set-up gives the sockets of an IPv6 address.
use traceroute.Base.{
  ℕ, ◌<◌, ◌≡◌, ◌⊎◌, inl, inr, ◌∙◌, true, false, ◌||◌, ◌==◌, if◌then◌else◌, List, [], Bytes, store32,
  arith,
}
use traceroute.Address.{SocketAddress, is_v4, is_v6}
use traceroute.Kernel.{Kernel, is_negative}
use traceroute.Sender.{Socket}
use traceroute.Sockets.{icmp6_filter, words_bytes}
use traceroute.Sockets.Filter.{will_pass, icmp6_filter_lem}

-- The kernel was given an option for a descriptor and took it.
abbrev pub HasOption : (k : Kernel) → ℕ → ℕ → ℕ → Bytes → Type 0
HasOption k fd level option value =
    (w : k.World) × (is_negative (k.setsockopt fd level option value w).0 ≡ false)

-- A filter that hands on destination unreachable (1), time exceeded (3) and echo reply (129), and
-- no other of the 256 types.
abbrev pub Selects : List ℕ → Type 0
Selects words =
    (type : ℕ) → type < 256 → will_pass type words ≡ (type == 1 || type == 3 || type == 129)

-- An ICMPv6 socket has such a filter (`ICMP6_FILTER`). On a TCP or UDP socket the kernel writes
-- the checksum (`IPV6_CHECKSUM`), to byte 16 of the header or to byte 6.
abbrev pub IsConfigured : (k : Kernel) → SocketAddress → Socket → Type 0
IsConfigured k address s =
    is_v6 address ≡ true
    → ((s.protocol ≡ 58)
        × (words : List ℕ) × Selects words
        × HasOption k s.fd 58 1 (words_bytes words))
      ⊎ ((s.protocol ≡ 6) × HasOption k s.fd 41 7 (store32 16 []))
      ⊎ ((s.protocol ≡ 17) × HasOption k s.fd 41 7 (store32 6 []))

abbrev pub icmp_protocol : SocketAddress → ℕ
icmp_protocol address = if is_v4 address then 1 else 58

v6_protocol : (address : SocketAddress) → is_v6 address ≡ true → icmp_protocol address ≡ 58
unfolding is_v6
v6_protocol address h = ground arith

module _ (k : Kernel) (address : SocketAddress) (s : Socket) where
  pub icmp-IsConfigured :
      s.protocol ≡ icmp_protocol address
      → (is_v6 address ≡ true → HasOption k s.fd 58 1 (words_bytes icmp6_filter))
      → IsConfigured k address s
  icmp-IsConfigured e o v = inl (e ∙ v6_protocol address v, icmp6_filter, icmp6_filter_lem, o v)

  pub tcp-IsConfigured :
      s.protocol ≡ 6
      → (is_v6 address ≡ true → HasOption k s.fd 41 7 (store32 16 []))
      → IsConfigured k address s
  tcp-IsConfigured e o v = inr (inl (e, o v))

  pub udp-IsConfigured :
      s.protocol ≡ 17
      → (is_v6 address ≡ true → HasOption k s.fd 41 7 (store32 6 []))
      → IsConfigured k address s
  udp-IsConfigured e o v = inr (inr (e, o v))
