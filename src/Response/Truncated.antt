-- ===== src/Response/Truncated.antt =====
-- Messages that end inside the IP header that the code reads at their front.
use traceroute.Base.{
  ℕ, suc, ◌+◌, ◌-◌, ◌%◌, ◌^◌, ◌≤◌, ◌<◌, ◌≡◌, sym, ◌∙◌, refl, Bool, true, false, ◌==◌, leb, le→leb,
  ltb_of_le, if◌then◌else◌, Bytes, ◌∷◌, ◌++◌, drop, drop-append, length, ok, arith, load8,
}
use traceroute.Checksum.{ipproto_tcp}
use traceroute.Header.{TcpHeader, serialize_tcp, sizeof_ipv6}
use traceroute.Packet.{Packet, IcmpPacket, TcpPacket, UdpPacket, icmp, tcp, udp}
use traceroute.Response.{
  ResponseInfo, version, header_size, get_ip_header_size, is_ip_header_present, skip_size,
  skip_ip_header, Validator, validate_all, validator_is_valid, icmp_fields, icmp_validator,
  icmp_to_tcp_fields, icmp_to_tcp_validator, tcp_to_tcp_fields, tcp_to_tcp_validator, udp_fields,
  udp_validator, tcp_is_valid, is_valid, is_icmp_protocol,
}
use traceroute.Response.Accept.Wrap.{IsIpHeader, present_of_header}

-- A validator that looks at the size in its lower bound `least` alone.
abbrev IgnoresSize : Validator → ℕ → Type 0
IgnoresSize v least =
    (least ≤ 28)
    × ((size : ℕ) → v.validate_size size ≡ leb least size)
    × ((info : ResponseInfo) (size : ℕ) (p : Bytes)
        → v.validate_fields (record info { size = size }) p ≡ v.validate_fields info p)

-- Behind an IP header of `n` bytes a validator sees the size that `skipIpHeader` computes.
validator_behind_header :
    (v : Validator) (info : ResponseInfo) (b : ℕ) (others payload : Bytes)
    → IsIpHeader b others
    → 1 ≤ info.size
    → validator_is_valid v info (b ∷ (others ++ payload))
      ≡ validate_all v (record info { size = skip_size info.size (suc (length others)) }) payload
unfolding validator_is_valid is_ip_header_present skip_ip_header get_ip_header_size load8
validator_behind_header v info b others payload h s =
    rw (ltb_of_le info.size 1 s, present_of_header b _ h) (rw (h, drop-append others payload))

wrapped : (least size n : ℕ) → least ≤ 28 → size < n → n ≤ 60 → leb least (skip_size size n) ≡ true
unfolding skip_size
wrapped least size n h k m = le→leb least ((size + 2 ^ 64 - n) % 2 ^ 64) (omega arith)

long_enough : (least n : ℕ) → least ≤ 28 → n ≤ 60 → leb least (skip_size (n + 28) n) ≡ true
unfolding skip_size
long_enough least n h m = le→leb least ((n + 28 + 2 ^ 64 - n) % 2 ^ 64) (omega arith)

-- Both sizes pass the check.
size_is_vacuous :
    (v : Validator) (least : ℕ) (info : ResponseInfo) (b : ℕ) (others payload : Bytes)
    → IgnoresSize v least
    → IsIpHeader b others
    → 1 ≤ info.size
    → info.size < suc (length others)
    → suc (length others) ≤ 60
    → validator_is_valid v info (b ∷ (others ++ payload))
      ≡ validator_is_valid v
          (record info { size = suc (length others) + 28 })
          (b ∷ (others ++ payload))
unfolding validate_all
size_is_vacuous v least info b others payload (l, z, f) h s t m =
    validator_behind_header v info b others payload h s
    ∙ passes
    ∙ sym (
        validator_behind_header v (record info { size = suc (length others) + 28 }) b others payload
          h (omega arith))
  where
    passes :
        validate_all v (record info { size = skip_size info.size (suc (length others)) }) payload
        ≡ validate_all v
            (record info { size = skip_size (suc (length others) + 28) (suc (length others)) })
            payload
    passes = rw (
      z (skip_size info.size (suc (length others))),
      z (skip_size (suc (length others) + 28) (suc (length others))),
      wrapped least info.size (suc (length others)) l t m,
      long_enough least (suc (length others)) l m,
      f info (skip_size info.size (suc (length others))) payload,
      f info (skip_size (suc (length others) + 28) (suc (length others))) payload,
    )

header_size-le : (b n : ℕ) → header_size b ≡ ok n → n ≤ 60
unfolding header_size
header_size-le b n h = ground arith

icmp-IgnoresSize :
    (packet : IcmpPacket) → IgnoresSize (icmp_validator (record { packet = packet })) 8
unfolding icmp_fields
icmp-IgnoresSize packet = (omega arith, λ size. refl, λ info size p. refl)

icmp_to_tcp-IgnoresSize :
    (packet : TcpPacket) → IgnoresSize (icmp_to_tcp_validator (record { packet = packet })) 28
unfolding icmp_to_tcp_fields
icmp_to_tcp-IgnoresSize packet = (omega arith, λ size. refl, λ info size p. refl)

tcp_to_tcp-IgnoresSize :
    (packet : TcpPacket) → IgnoresSize (tcp_to_tcp_validator (record { packet = packet })) 20
unfolding tcp_to_tcp_fields
tcp_to_tcp-IgnoresSize packet = (omega arith, λ size. refl, λ info size p. refl)

udp-IgnoresSize : (packet : UdpPacket) → IgnoresSize (udp_validator (record { packet = packet })) 16
unfolding udp_fields
udp-IgnoresSize packet = (omega arith, λ size. refl, λ info size p. refl)

if_cong {ℓ} :
    {A : Type ℓ} (b : Bool) {x y z w : A}
    → x ≡ y
    → z ≡ w
    → (if b then x else z) ≡ (if b then y else w)
if_cong true h k = h
if_cong false h k = k

-- The difference of sizes wraps: a message that is shorter than the IP header at its front passes
-- the size check of every validator. `isValid` then answers as for a message with 28 bytes behind
-- the header, and so from bytes that were never received.
pub is_valid_truncated :
    (packet : Packet) (info : ResponseInfo) (b : ℕ) (others payload : Bytes)
    → IsIpHeader b others
    → 1 ≤ info.size
    → info.size < suc (length others)
    → is_valid packet info (b ∷ (others ++ payload))
      ≡ is_valid packet (record info { size = suc (length others) + 28 }) (b ∷ (others ++ payload))
unfolding is_valid tcp_is_valid
is_valid_truncated (icmp packet) info b others payload h s t =
    size_is_vacuous _ 8 info b others payload (icmp-IgnoresSize packet) h s t (header_size-le b _ h)
is_valid_truncated (tcp packet) info b others payload h s t =
    if_cong (is_icmp_protocol info.protocol)
      (size_is_vacuous _ 28 info b others payload (icmp_to_tcp-IgnoresSize packet) h s t
        (header_size-le b _ h))
      (if_cong (info.protocol == ipproto_tcp)
        (size_is_vacuous _ 20 info b others payload (tcp_to_tcp-IgnoresSize packet) h s t
          (header_size-le b _ h))
        refl)
is_valid_truncated (udp packet) info b others payload h s t =
    size_is_vacuous _ 16 info b others payload (udp-IgnoresSize packet) h s t (header_size-le b _ h)

misread :
    (v : Validator) (info : ResponseInfo) (reply : TcpHeader) (stale : Bytes)
    → version (reply.source % 256) ≡ 6
    → 1 ≤ info.size
    → validator_is_valid v info (serialize_tcp reply ++ stale)
      ≡ validate_all v (record info { size = skip_size info.size sizeof_ipv6 }) (drop 20 stale)
unfolding validator_is_valid is_ip_header_present skip_ip_header get_ip_header_size header_size
    load8 serialize_tcp
misread v info reply stale h s = rw (ltb_of_le info.size 1 s) (ground arith)

-- A bare TCP segment, as an IPv6 socket delivers it, that comes from one of the ports 24576 to
-- 28671 is taken for an IPv6 header. Its answer is then the same whatever the segment says: two
-- segments, with any acknowledgement numbers, are both accepted or both refused, by the stale
-- bytes behind them.
pub is_valid_misread :
    (packet : TcpPacket) (info : ResponseInfo) (reply other : TcpHeader) (stale : Bytes)
    → version (reply.source % 256) ≡ 6
    → version (other.source % 256) ≡ 6
    → 1 ≤ info.size
    → is_valid (tcp packet) info (serialize_tcp reply ++ stale)
      ≡ is_valid (tcp packet) info (serialize_tcp other ++ stale)
unfolding is_valid tcp_is_valid
is_valid_misread packet info reply other stale h k s =
    if_cong (is_icmp_protocol info.protocol)
      (same (icmp_to_tcp_validator (record { packet = packet })))
      (if_cong (info.protocol == ipproto_tcp)
        (same (tcp_to_tcp_validator (record { packet = packet }))) refl)
  where
    same :
        (v : Validator)
        → validator_is_valid v info (serialize_tcp reply ++ stale)
          ≡ validator_is_valid v info (serialize_tcp other ++ stale)
    same v = misread v info reply stale h s ∙ sym (misread v info other stale k s)
