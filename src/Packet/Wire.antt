-- ===== src/Packet/Wire.antt =====
-- The packets on the wire: the checksums that their constructors write.
use traceroute.Base.{
  ℕ, ◌<◌, ◌^◌, ◌≡◌, subst, true, Bytes, ok, first_call, ok-injective, arith, htons-lt, htonl-lt,
}
use traceroute.Address.{SocketAddress, s_addr, is_v4}
use traceroute.Header.{
  TcpHeader, UdpHeader, IsTcpHeader, IsUdpHeader, sizeof_tcp, sizeof_udp, serialize_tcp,
  serialize_udp,
}
use traceroute.Checksum.{tcp_header_checksum, udp_header_checksum, ipproto_tcp, ipproto_udp}
use traceroute.Checksum.Verify.{
  Verifies, pseudo_header_v4, icmp_header_checksum-Verifies, tcp_header_checksum-Verifies,
  udp_header_checksum-Verifies,
}
use traceroute.Packet.{
  Packet, icmp, tcp, udp, Draw, Endpoints, PacketFactory, icmp_factory, tcp_factory, udp_factory,
  create_packet, factory_endpoints, serialize, icmp_header_of, tcp_header_of, udp_header_of,
  make_endpoints, icmp_echo,
}
use traceroute.Packet.Build.{make_endpoints-eq-ok, IsIcmpHeader-icmp_header_of}

-- The bytes that the checksum of an IPv4 packet covers: the pseudo-header comes first for TCP and
-- UDP.
abbrev pub covered : Packet → Bytes
covered (icmp p) = serialize (icmp p)
covered (tcp p) =
    pseudo_header_v4 p.source_address p.destination_address ipproto_tcp sizeof_tcp
      (serialize (tcp p))
covered (udp p) =
    pseudo_header_v4 p.source_address p.destination_address ipproto_udp sizeof_udp
      (serialize (udp p))

-- The addresses of a factory are 32-bit words.
abbrev pub AddressesFit : PacketFactory → Type 0
AddressesFit f =
    (s_addr (factory_endpoints f).source_address < 2 ^ 32)
    × (s_addr (factory_endpoints f).destination_address < 2 ^ 32)

IsTcpHeader-tcp_header_of :
    (dport : ℕ) (draw : Draw) → draw.garbage < 65536 → IsTcpHeader (tcp_header_of dport draw)
unfolding tcp_header_of
IsTcpHeader-tcp_header_of dport draw g = omega (arith, htons-lt, htonl-lt)

IsUdpHeader-udp_header_of : (dport : ℕ) (draw : Draw) → IsUdpHeader (udp_header_of dport draw)
unfolding udp_header_of
IsUdpHeader-udp_header_of dport draw = omega (arith, htons-lt)

with_endpoints_tcp :
    (h : TcpHeader) (e : Endpoints) (s d : SocketAddress)
    → e ≡ record { source_address = s; destination_address = d }
    → Verifies (pseudo_header_v4 s d ipproto_tcp sizeof_tcp (serialize_tcp h))
    → Verifies (covered (tcp (record { endpoints = e; tcp_header = h })))
unfolding serialize
with_endpoints_tcp h e s d k v = rw k v

with_endpoints_udp :
    (h : UdpHeader) (e : Endpoints) (s d : SocketAddress)
    → e ≡ record { source_address = s; destination_address = d }
    → Verifies (pseudo_header_v4 s d ipproto_udp sizeof_udp (serialize_udp h))
    → Verifies (covered (udp (record { endpoints = e; udp_header = h })))
unfolding serialize
with_endpoints_udp h e s d k v = rw k v

-- A packet that a factory with an IPv4 source returns carries a checksum that verifies at the
-- receiver, for each protocol; the stale value in an uninitialised `urg_ptr` does not matter.
pub create_packet-Verifies :
    (f : PacketFactory) (draw : Draw) (p : Packet)
    → draw.garbage < 65536
    → AddressesFit f
    → is_v4 (factory_endpoints f).source_address ≡ true
    → create_packet f draw ≡ ok p
    → Verifies (covered p)
unfolding create_packet serialize
create_packet-Verifies (icmp_factory factory) draw p g a v h =
    let (e, m, q) =
      first_call (make_endpoints factory.source factory.destination) (rw (v, create_packet) at h) in
    subst (λ p'. Verifies (covered p')) (ok-injective _ p q)
      (icmp_header_checksum-Verifies (icmp_header_of icmp_echo draw.rand0)
        (IsIcmpHeader-icmp_header_of icmp_echo draw.rand0 0 (omega arith) (omega arith)))
create_packet-Verifies (tcp_factory factory) draw p g a v h =
    let (e, m, q) =
      first_call (make_endpoints factory.source factory.destination) (rw (v, create_packet) at h) in
    subst (λ p'. Verifies (covered p')) (ok-injective _ p q)
      (with_endpoints_tcp
        (record (tcp_header_of factory.dport draw) {
          check =
              tcp_header_checksum (tcp_header_of factory.dport draw) factory.source
                factory.destination;
        })
        e factory.source factory.destination
        (make_endpoints-eq-ok factory.source factory.destination e m)
        (tcp_header_checksum-Verifies (tcp_header_of factory.dport draw) factory.source
          factory.destination (IsTcpHeader-tcp_header_of factory.dport draw g) v a.0 a.1))
create_packet-Verifies (udp_factory factory) draw p g a v h =
    let (e, m, q) =
      first_call (make_endpoints factory.source factory.destination) (rw (v, create_packet) at h) in
    subst (λ p'. Verifies (covered p')) (ok-injective _ p q)
      (with_endpoints_udp
        (record (udp_header_of factory.dport draw) {
          check =
              udp_header_checksum (udp_header_of factory.dport draw) factory.source
                factory.destination;
        })
        e factory.source factory.destination
        (make_endpoints-eq-ok factory.source factory.destination e m)
        (udp_header_checksum-Verifies (udp_header_of factory.dport draw) factory.source
          factory.destination (IsUdpHeader-udp_header_of factory.dport draw) v a.0 a.1))
