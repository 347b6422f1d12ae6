-- ===== src/Checksum.antt =====
-- src/utils/ChecksumCalculator.cpp: the Internet checksum. `unsigned long` has 64 bits.
pub mod Fold
pub mod Verify
use Prim.Native.Nat.{bit_and}
use mathlib.Core.Logic.{dite}
use mathlib.Core.WellFounded.{Acc}
use native.Mathlib.Decide.{dec_lt}
use traceroute.Base.{
  ℕ, zero, suc, ◌+◌, ◌-◌, ◌*◌, ◌/◌, ◌%◌, ◌^◌, ◌<◌, ◌≡◌, List, [], ◌∷◌, Bool, if◌then◌else◌, Bytes,
  htons, lt_wf, arith,
}
use traceroute.Address.{SocketAddress, In6Addr, s_addr, is_v4}
use traceroute.Header.{
  IcmpHeader, TcpHeader, UdpHeader, serialize_icmp, serialize_tcp, serialize_udp, sizeof_tcp,
  sizeof_udp,
}

abbrev pub ipproto_icmp : ℕ
ipproto_icmp = 1

abbrev pub ipproto_tcp : ℕ
ipproto_tcp = 6

abbrev pub ipproto_udp : ℕ
ipproto_udp = 17

abbrev pub ipproto_icmpv6 : ℕ
ipproto_icmpv6 = 58

-- The first loop of `computeChecksum` and the branch for an odd byte, which is masked with
-- `htons(0xFF00)` to the low byte. The sum wraps at 64 bits.
unfoldable pub add_words : Bytes → ℕ → ℕ
add_words [] sum = sum
add_words (lo ∷ []) sum = (sum + lo) % 2 ^ 64
add_words (lo ∷ hi ∷ rest) sum = add_words rest ((sum + (lo + 256 * hi)) % 2 ^ 64)

-- `while (sum >> 16) sum = (sum & 0xffff) + (sum >> 16);`
unfoldable pub fold_loop : (sum : ℕ) → Acc ◌<◌ sum → ℕ
fold_loop sum (Acc.intro _ smaller) =
    dite (dec_lt 0 (sum / 65536))
      (λ h.
        fold_loop (sum % 65536 + sum / 65536) (smaller (sum % 65536 + sum / 65536) (omega arith)))
      (λ _. sum)

unfoldable pub fold : ℕ → ℕ
unfolding fold_loop lt_wf dec_lt
fold sum = fold_loop sum (lt_wf.apply sum)

-- `return ~sum;` of an `unsigned long`.
unfoldable pub compute_checksum : Bytes → ℕ → ℕ
compute_checksum addr prev_sum = 2 ^ 64 - 1 - fold (add_words addr prev_sum)

-- `(x >> 16) & 0xFFFF` and `x & 0xFFFF` of a 32-bit word, added to the sum.
unfoldable pub add_halves : ℕ → ℕ → ℕ
add_halves x sum = sum + x / 65536 % 65536 + x % 65536

unfoldable pub add_in6 : In6Addr → ℕ → ℕ
unfolding add_halves
add_in6 a sum = add_halves a.w3 (add_halves a.w2 (add_halves a.w1 (add_halves a.w0 sum)))

-- On the IPv6 branch both addresses are read from `source`, as in the code.
unfoldable pub pseudoheader_checksum : ℕ → ℕ → SocketAddress → SocketAddress → ℕ
unfolding is_v4 add_in6 htons
pseudoheader_checksum protocol headerlen source destination =
    (if is_v4 source
      then add_halves (s_addr destination) (add_halves (s_addr source) 0)
      else add_in6 source.sin6_addr (add_in6 source.sin6_addr 0))
    + htons protocol
    + htons headerlen

-- The results are cut to `unsigned short`.
unfoldable pub icmp_header_checksum : IcmpHeader → ℕ
icmp_header_checksum header =
    compute_checksum (serialize_icmp (record header { checksum = 0 })) 0 % 65536

unfoldable pub tcp_header_checksum : TcpHeader → SocketAddress → SocketAddress → ℕ
tcp_header_checksum tcpheader source destination =
    compute_checksum (serialize_tcp (record tcpheader { check = 0 }))
      (pseudoheader_checksum ipproto_tcp sizeof_tcp source destination)
    % 65536

unfoldable pub udp_header_checksum : UdpHeader → SocketAddress → SocketAddress → ℕ
udp_header_checksum udpheader source destination =
    compute_checksum (serialize_udp (record udpheader { check = 0 }))
      (pseudoheader_checksum ipproto_udp sizeof_udp source destination)
    % 65536
