-- ===== src/Header/Layout.antt =====
-- The bytes of a header give its fields back.
use traceroute.Base.{◌≡◌, refl, ap, ◌++◌, Bytes, ok, All, IsByte, length, arith}
use traceroute.Header.{
  IcmpHeader, TcpHeader, UdpHeader, IsIcmpHeader, IsTcpHeader, IsUdpHeader, serialize_icmp,
  serialize_tcp, serialize_udp, icmp_type, icmp_id, tcp_seq, tcp_ack_seq, sizeof_icmp, sizeof_tcp,
  sizeof_udp,
}

-- What a reader of the bytes of an ICMP header followed by `rest` finds.
pub read_icmp :
    (h : IcmpHeader) (rest : Bytes)
    → IsIcmpHeader h
    → (icmp_type (serialize_icmp h ++ rest) ≡ ok h.type)
      × (icmp_id (serialize_icmp h ++ rest) ≡ ok h.id)
unfolding icmp_type icmp_id serialize_icmp
read_icmp h rest v = (refl, ap ok (omega arith))

pub read_tcp :
    (h : TcpHeader) (rest : Bytes)
    → IsTcpHeader h
    → (tcp_seq (serialize_tcp h ++ rest) ≡ ok h.seq)
      × (tcp_ack_seq (serialize_tcp h ++ rest) ≡ ok h.ack_seq)
unfolding tcp_seq tcp_ack_seq serialize_tcp
read_tcp h rest v = (ap ok (omega arith), ap ok (omega arith))

-- A serialized header has the size of its structure and consists of bytes.
pub serialize_icmp_lem :
    (h : IcmpHeader)
    → IsIcmpHeader h
    → (length (serialize_icmp h) ≡ sizeof_icmp) × All IsByte (serialize_icmp h)
unfolding serialize_icmp
serialize_icmp_lem h v = omega arith

pub serialize_tcp_lem :
    (h : TcpHeader)
    → IsTcpHeader h
    → (length (serialize_tcp h) ≡ sizeof_tcp) × All IsByte (serialize_tcp h)
unfolding serialize_tcp
serialize_tcp_lem h v = omega arith

pub serialize_udp_lem :
    (h : UdpHeader)
    → IsUdpHeader h
    → (length (serialize_udp h) ≡ sizeof_udp) × All IsByte (serialize_udp h)
unfolding serialize_udp
serialize_udp_lem h v = omega arith
