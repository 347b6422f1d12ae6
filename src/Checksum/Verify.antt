-- ===== src/Checksum/Verify.antt =====
-- The checksums that the calculator writes, seen by a receiver that adds up the bytes on the
-- wire.
use traceroute.Base.{
  ℕ, ◌+◌, ◌-◌, ◌*◌, ◌%◌, ◌^◌, ◌<◌, ◌≤◌, ◌≡◌, refl, ◌∙◌, ◌∷◌, Bytes, arith, store32, All, IsByte,
  length, htons, true, false,
}
use traceroute.Address.{SocketAddress, s_addr, is_v4}
use traceroute.Header.{
  IcmpHeader, TcpHeader, UdpHeader, IsIcmpHeader, IsTcpHeader, IsUdpHeader, serialize_icmp,
  serialize_tcp, serialize_udp, sizeof_tcp, sizeof_udp,
}
use traceroute.Checksum.{
  add_in6, compute_checksum, pseudoheader_checksum, icmp_header_checksum, tcp_header_checksum,
  udp_header_checksum, ipproto_tcp, ipproto_udp,
}
use traceroute.Checksum.Fold.{residue, word_sum, compute_checksum_lem}

-- The IPv4 pseudo-header on the wire: both addresses, a zero byte, the protocol and the length.
unfoldable pub pseudo_header_v4 : SocketAddress → SocketAddress → ℕ → ℕ → Bytes → Bytes
unfolding store32
pseudo_header_v4 source destination protocol headerlen rest =
    store32 (s_addr source) (store32 (s_addr destination) (0 ∷ protocol ∷ 0 ∷ headerlen ∷ rest))

-- A receiver accepts bytes whose words add up to all ones in one's complement arithmetic.
abbrev pub Verifies : Bytes → Type 0
Verifies p = residue (word_sum p) ≡ 65535

residue_complement : (t s c : ℕ) → c ≡ 65535 - residue t → s ≡ t + c → residue s ≡ 65535
unfolding residue
residue_complement t s c e k = ground arith

-- Bytes verify if their words are those that a checksum was computed over, and the checksum.
Verifies-of_checksum :
    (cleared wire : Bytes) (prev_sum c : ℕ)
    → All IsByte cleared
    → prev_sum + 65536 * length cleared < 2 ^ 64
    → c ≡ compute_checksum cleared prev_sum % 65536
    → word_sum wire ≡ prev_sum + word_sum cleared + c
    → Verifies wire
Verifies-of_checksum cleared wire prev_sum c h k e s =
    residue_complement (prev_sum + word_sum cleared) (word_sum wire) c
      (e ∙ compute_checksum_lem cleared prev_sum h k) s

pub icmp_header_checksum-lt : (h : IcmpHeader) → icmp_header_checksum h < 65536
unfolding icmp_header_checksum
icmp_header_checksum-lt h = omega arith

pub tcp_header_checksum-lt :
    (h : TcpHeader) (source destination : SocketAddress)
    → tcp_header_checksum h source destination < 65536
unfolding tcp_header_checksum
tcp_header_checksum-lt h source destination = omega arith

pub udp_header_checksum-lt :
    (h : UdpHeader) (source destination : SocketAddress)
    → udp_header_checksum h source destination < 65536
unfolding udp_header_checksum
udp_header_checksum-lt h source destination = omega arith

-- The pseudo-header's words add up to what `computePseudoheaderChecksum` returns.
word_sum-pseudo_header_v4 :
    (source destination : SocketAddress) (protocol headerlen : ℕ) (rest : Bytes)
    → is_v4 source ≡ true
    → s_addr source < 2 ^ 32
    → s_addr destination < 2 ^ 32
    → protocol < 256
    → headerlen < 256
    → word_sum (pseudo_header_v4 source destination protocol headerlen rest)
      ≡ pseudoheader_checksum protocol headerlen source destination + word_sum rest
unfolding pseudoheader_checksum pseudo_header_v4
word_sum-pseudo_header_v4 source destination protocol headerlen rest v hs hd hp hl =
    rw (v, pseudoheader_checksum) (omega arith)

pseudoheader_checksum-le :
    (protocol headerlen : ℕ) (source destination : SocketAddress)
    → pseudoheader_checksum protocol headerlen source destination ≤ 2 ^ 20 + 2 ^ 18
unfolding pseudoheader_checksum
pseudoheader_checksum-le protocol headerlen source destination = ground arith

-- The checksum that the calculator computes for an ICMP header makes the header verify: whatever
-- stood in the field, the bytes with the checksum in it add up to all ones.
pub icmp_header_checksum-Verifies :
    (h : IcmpHeader)
    → IsIcmpHeader h
    → Verifies (serialize_icmp (record h { checksum = icmp_header_checksum h }))
unfolding serialize_icmp
icmp_header_checksum-Verifies h v =
    Verifies-of_checksum (serialize_icmp (record h { checksum = 0 }))
      (serialize_icmp (record h { checksum = icmp_header_checksum h })) 0 (icmp_header_checksum h)
      (omega arith) (omega arith) (unfold icmp_header_checksum in refl)
      (omega (arith, icmp_header_checksum-lt h))

-- A TCP header with the checksum that the calculator computes verifies at an IPv4 receiver, who
-- adds up the words of the pseudo-header and of the header.
pub tcp_header_checksum-Verifies :
    (h : TcpHeader) (source destination : SocketAddress)
    → IsTcpHeader h
    → is_v4 source ≡ true
    → s_addr source < 2 ^ 32
    → s_addr destination < 2 ^ 32
    → Verifies (
        pseudo_header_v4 source destination ipproto_tcp sizeof_tcp
          (serialize_tcp (record h { check = tcp_header_checksum h source destination })))
unfolding serialize_tcp
tcp_header_checksum-Verifies h source destination v v4 hs hd =
    Verifies-of_checksum (serialize_tcp (record h { check = 0 }))
      (pseudo_header_v4 source destination ipproto_tcp sizeof_tcp
        (serialize_tcp (record h { check = tcp_header_checksum h source destination })))
      (pseudoheader_checksum ipproto_tcp sizeof_tcp source destination)
      (tcp_header_checksum h source destination) (omega arith)
      (omega (arith, pseudoheader_checksum-le ipproto_tcp sizeof_tcp source destination))
      (unfold tcp_header_checksum in refl)
      (word_sum-pseudo_header_v4 source destination ipproto_tcp sizeof_tcp
          (serialize_tcp (record h { check = tcp_header_checksum h source destination })) v4 hs hd
          (omega arith) (omega arith)
        ∙ omega (arith, tcp_header_checksum-lt h source destination))

-- So does a UDP header.
pub udp_header_checksum-Verifies :
    (h : UdpHeader) (source destination : SocketAddress)
    → IsUdpHeader h
    → is_v4 source ≡ true
    → s_addr source < 2 ^ 32
    → s_addr destination < 2 ^ 32
    → Verifies (
        pseudo_header_v4 source destination ipproto_udp sizeof_udp
          (serialize_udp (record h { check = udp_header_checksum h source destination })))
unfolding serialize_udp
udp_header_checksum-Verifies h source destination v v4 hs hd =
    Verifies-of_checksum (serialize_udp (record h { check = 0 }))
      (pseudo_header_v4 source destination ipproto_udp sizeof_udp
        (serialize_udp (record h { check = udp_header_checksum h source destination })))
      (pseudoheader_checksum ipproto_udp sizeof_udp source destination)
      (udp_header_checksum h source destination) (omega arith)
      (omega (arith, pseudoheader_checksum-le ipproto_udp sizeof_udp source destination))
      (unfold udp_header_checksum in refl)
      (word_sum-pseudo_header_v4 source destination ipproto_udp sizeof_udp
          (serialize_udp (record h { check = udp_header_checksum h source destination })) v4 hs hd
          (omega arith) (omega arith)
        ∙ omega (arith, udp_header_checksum-lt h source destination))

-- Between IPv6 hosts the sum of the pseudo-header does not read the destination: it is twice the
-- sum of the source's words, with the protocol and the length, for every destination.
pub pseudoheader_checksum_v6 :
    (protocol headerlen : ℕ) (source destination : SocketAddress)
    → is_v4 source ≡ false
    → pseudoheader_checksum protocol headerlen source destination
      ≡ 2 * add_in6 source.sin6_addr 0 + htons protocol + htons headerlen
unfolding pseudoheader_checksum
pseudoheader_checksum_v6 protocol headerlen source destination v =
    rw (v, pseudoheader_checksum) (omega arith)
