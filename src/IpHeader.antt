-- ===== src/IpHeader.antt =====
-- src/ResponseInfo.cpp and src/ResponseValidators/common.cpp: a message, the IP header before it
-- and what the validators read of its fields.
use traceroute.Base.{
  ℕ, ◌+◌, ◌-◌, ◌*◌, ◌/◌, ◌%◌, ◌^◌, Bool, ◌||◌, ◌==◌, ltb, if◌then◌else◌, Bytes, load8, drop,
  Outcome, ok, throw, ◌>>=◌, no_ip_header, invalid_ip_header,
}
use traceroute.Address.{SocketAddress}
use traceroute.Header.{IcmpHeader, TcpHeader, icmp_type, icmp_id, tcp_seq, sizeof_icmp, sizeof_ipv6}

pub record ResponseInfo : Type 0 where
  pub client : SocketAddress
  pub protocol : ℕ
  pub size : ℕ

-- The bit-fields of `IpHeaderFirstByte` and `Ipv4Header`.
abbrev pub version : ℕ → ℕ
version b = b / 16

abbrev pub ihl : ℕ → ℕ
ihl b = b % 16

-- `iphdr_size = ihl << 2`, for the first byte of the header.
unfoldable pub header_size : ℕ → Outcome ℕ
header_size b =
    if version b == 4
    then ok (ihl b * 4)
    else if version b == 6
    then ok sizeof_ipv6
    else throw invalid_ip_header

unfoldable pub get_ip_header_size : Bytes → Outcome ℕ
get_ip_header_size p = do b ← load8 p 0; header_size b

unfoldable pub is_ip_header_present : ResponseInfo → Bytes → Outcome Bool
is_ip_header_present info response =
    if ltb info.size 1
    then throw no_ip_header
    else do b ← load8 response 0; ok (version b == 4 || version b == 6)

-- The difference of two `size_t` wraps.
unfoldable pub skip_size : ℕ → ℕ → ℕ
skip_size size headerSize = (size + 2 ^ 64 - headerSize) % 2 ^ 64

unfoldable pub skip_ip_header : ResponseInfo → Bytes → Outcome (ResponseInfo × Bytes)
skip_ip_header info response = do
  headerSize ← get_ip_header_size response
  ok (record info { size = skip_size info.size headerSize }, drop headerSize response)

unfoldable pub validate_same_sequence : Bytes → TcpHeader → Outcome Bool
validate_same_sequence tcp_reply tcp_echo = do seq ← tcp_seq tcp_reply; ok (seq == tcp_echo.seq)

unfoldable pub validate_session : Bytes → IcmpHeader → Outcome Bool
validate_session icmp_reply icmp_echo = do id ← icmp_id icmp_reply; ok (id == icmp_echo.id)

unfoldable pub get_icmp_type : Bytes → Outcome ℕ
get_icmp_type icmp_header = icmp_type icmp_header

-- The bytes behind an ICMP header and the IP header that it quotes.
unfoldable pub advance_to_quoted : Bytes → Outcome Bytes
advance_to_quoted icmp_header = do
  let ip_header = drop sizeof_icmp icmp_header
  header_size ← get_ip_header_size ip_header
  ok (drop header_size ip_header)
