-- ===== src/Response/Accept/Udp.antt =====
-- The answers that a UDP packet accepts.
use traceroute.Base.{ℕ, ◌+◌, ◌≡◌, ◌∙◌, true, ◌==◌, if◌then◌else◌, Bytes, ◌++◌, ok, arith}
use traceroute.Address.{address_eq, is_v4}
use traceroute.Header.{IcmpHeader, IsIcmpHeader, serialize_icmp, sizeof_icmp, sizeof_udp}
use traceroute.Header.Layout.{read_icmp}
use traceroute.Packet.{UdpPacket, udp}
use traceroute.Response.{ResponseInfo, is_icmp_protocol, udp_fields, udp_validator, is_valid}
use traceroute.Response.Accept.Wrap.{
  Outer, wrap, IsOuter, IsReceived, validator_is_valid_fields, inner, fits_in,
}
use traceroute.Response.Accept.Tcp.{exceeded_type, unreachable_type}

-- The type that is expected of a host: the destination tells that the port is unreachable, and a
-- router on the way that the time to live expired.
abbrev pub expected_type : UdpPacket → ResponseInfo → ℕ
expected_type packet info =
    if address_eq packet.destination_address info.client
    then unreachable_type (is_v4 info.client)
    else exceeded_type (is_v4 info.client)

fields_lem :
    (packet : UdpPacket) (info : ResponseInfo) (h : IcmpHeader) (rest : Bytes)
    → IsIcmpHeader h
    → udp_fields packet info (serialize_icmp h ++ rest) ≡ ok (h.type == expected_type packet info)
unfolding udp_fields
fields_lem packet info h rest v = rw (read_icmp h rest v).0 (ground arith)

-- For a UDP packet an ICMP message that is long enough is accepted exactly when its type is the
-- one expected of its sender, whatever it quotes: answers to other packets are accepted too.
pub is_valid_udp :
    (packet : UdpPacket) (info : ResponseInfo) (o : Outer) (h : IcmpHeader) (rest : Bytes)
    → IsIcmpHeader h
    → IsOuter o h.type
    → IsReceived o (sizeof_icmp + sizeof_udp) info
    → is_icmp_protocol info.protocol ≡ true
    → is_valid (udp packet) info (wrap o (serialize_icmp h ++ rest))
      ≡ ok (h.type == expected_type packet info)
unfolding is_valid serialize_icmp
is_valid_udp packet info o h rest v w r p =
    validator_is_valid_fields (udp_validator (record { packet = packet })) o info h.type
      (sizeof_icmp + sizeof_udp) _ w r p (fits_in (sizeof_icmp + sizeof_udp) o info r)
    ∙ fields_lem packet (inner o info) h rest v
