-- ===== src/Packet.antt =====
-- src/Packet.cpp, src/Packet and src/PacketFactory: the packets, their constructors and
-- factories. A packet of the class hierarchy is a value of one data type, with a constructor for
-- each class.
pub mod Build
pub mod Made
pub mod Wire
use traceroute.Base.{
  ℕ, suc, ◌+◌, ◌%◌, Bool, ◌==◌, if◌then◌else◌, Bytes, htons, htonl, Outcome, ok, throw, ◌>>=◌,
  family_mismatch,
}
use traceroute.Address.{SocketAddress, family, is_v4}
use traceroute.Header.{
  IcmpHeader, TcpHeader, UdpHeader, serialize_icmp, serialize_tcp, serialize_udp, sizeof_udp,
}
use traceroute.Checksum.{icmp_header_checksum, tcp_header_checksum, udp_header_checksum}

abbrev pub icmp_echo : ℕ
icmp_echo = 8

abbrev pub icmp6_echo_request : ℕ
icmp6_echo_request = 128

-- What the base class `Packet` keeps.
pub record Endpoints : Type 0 where
  pub source_address : SocketAddress
  pub destination_address : SocketAddress

pub record IcmpPacket : Type 0 where
  pub endpoints : Endpoints
  pub open endpoints use *
  pub icmp_header : IcmpHeader

pub record TcpPacket : Type 0 where
  pub endpoints : Endpoints
  pub open endpoints use *
  pub tcp_header : TcpHeader

pub record UdpPacket : Type 0 where
  pub endpoints : Endpoints
  pub open endpoints use *
  pub udp_header : UdpHeader

pub data Packet : Type 0 where
  icmp : IcmpPacket → Packet
  tcp : TcpPacket → Packet
  udp : UdpPacket → Packet

-- What a constructor draws: two values of `rand()`, and the value that an uninitialised `urg_ptr`
-- happens to have.
pub record Draw : Type 0 where
  pub rand0 : ℕ
  pub rand1 : ℕ
  pub garbage : ℕ

-- `Packet::Packet`.
unfoldable pub make_endpoints : SocketAddress → SocketAddress → Outcome Endpoints
unfolding family
make_endpoints source destination =
    if family destination == family source
    then ok (record { source_address = source; destination_address = destination })
    else throw family_mismatch

unfoldable pub icmp_header_of : ℕ → ℕ → IcmpHeader
icmp_header_of type rand = record {
  type = type;
  code = 0;
  checksum = 0;
  id = htons (rand % 65536);
  sequence = 0;
}

unfoldable pub create_icmp4_packet : SocketAddress → SocketAddress → ℕ → Outcome Packet
unfolding icmp_header_of
create_icmp4_packet source destination rand = do
  endpoints ← make_endpoints source destination
  let header = icmp_header_of icmp_echo rand
  ok (
      icmp (record {
        endpoints = endpoints;
        icmp_header = record header { checksum = icmp_header_checksum header };
      }))

-- The checksum is left to the kernel.
unfoldable pub create_icmp6_packet : SocketAddress → SocketAddress → ℕ → Outcome Packet
unfolding icmp_header_of
create_icmp6_packet source destination rand = do
  endpoints ← make_endpoints source destination
  ok (icmp (record { endpoints = endpoints; icmp_header = icmp_header_of icmp6_echo_request rand }))

unfoldable pub tcp_header_of : ℕ → Draw → TcpHeader
tcp_header_of dport draw = record {
  source = htons (50000 + draw.rand0 % 15001);
  dest = htons dport;
  seq = htonl (draw.rand1 % 65001);
  ack_seq = 0;
  th_x2 = 0;
  th_off = 5;
  th_flags = 2;
  window = htons 5760;
  check = 0;
  urg_ptr = draw.garbage;
}

unfoldable pub create_tcp_packet : SocketAddress → SocketAddress → ℕ → Draw → Outcome Packet
unfolding tcp_header_of
create_tcp_packet source destination dport draw = do
  endpoints ← make_endpoints source destination
  let header = tcp_header_of dport draw
  let check = if is_v4 source then tcp_header_checksum header source destination else 0
  ok (tcp (record { endpoints = endpoints; tcp_header = record header { check = check } }))

unfoldable pub udp_header_of : ℕ → Draw → UdpHeader
udp_header_of dport draw = record {
  source = htons (50000 + draw.rand0 % 15001);
  dest = htons dport;
  len = htons sizeof_udp;
  check = 0;
}

unfoldable pub create_udp_packet : SocketAddress → SocketAddress → ℕ → Draw → Outcome Packet
unfolding udp_header_of
create_udp_packet source destination dport draw = do
  endpoints ← make_endpoints source destination
  let header = udp_header_of dport draw
  let check = if is_v4 source then udp_header_checksum header source destination else 0
  ok (udp (record { endpoints = endpoints; udp_header = record header { check = check } }))

pub record IcmpPacketFactory : Type 0 where
  pub source : SocketAddress
  pub destination : SocketAddress

pub record TcpPacketFactory : Type 0 where
  pub source : SocketAddress
  pub destination : SocketAddress
  pub dport : ℕ

pub record UdpPacketFactory : Type 0 where
  pub source : SocketAddress
  pub destination : SocketAddress
  pub dport : ℕ

-- `IPacketFactory`, with a constructor for each class.
pub data PacketFactory : Type 0 where
  icmp_factory : IcmpPacketFactory → PacketFactory
  tcp_factory : TcpPacketFactory → PacketFactory
  udp_factory : UdpPacketFactory → PacketFactory

-- `createPacket` of each factory.
abbrev pub icmp_factory_create_packet : IcmpPacketFactory → Draw → Outcome Packet
icmp_factory_create_packet f draw =
    if is_v4 f.source
    then create_icmp4_packet f.source f.destination draw.rand0
    else create_icmp6_packet f.source f.destination draw.rand0

abbrev pub tcp_factory_create_packet : TcpPacketFactory → Draw → Outcome Packet
tcp_factory_create_packet f draw = create_tcp_packet f.source f.destination f.dport draw

abbrev pub udp_factory_create_packet : UdpPacketFactory → Draw → Outcome Packet
udp_factory_create_packet f draw = create_udp_packet f.source f.destination f.dport draw

unfoldable pub create_packet : PacketFactory → Draw → Outcome Packet
unfolding create_icmp4_packet create_icmp6_packet create_tcp_packet create_udp_packet
create_packet (icmp_factory f) draw = icmp_factory_create_packet f draw
create_packet (tcp_factory f) draw = tcp_factory_create_packet f draw
create_packet (udp_factory f) draw = udp_factory_create_packet f draw

abbrev pub factory_endpoints : PacketFactory → Endpoints
factory_endpoints (icmp_factory f) = record {
  source_address = f.source;
  destination_address = f.destination;
}
factory_endpoints (tcp_factory f) = record {
  source_address = f.source;
  destination_address = f.destination;
}
factory_endpoints (udp_factory f) = record {
  source_address = f.source;
  destination_address = f.destination;
}

abbrev pub packet_endpoints : Packet → Endpoints
packet_endpoints (icmp p) = p.endpoints
packet_endpoints (tcp p) = p.endpoints
packet_endpoints (udp p) = p.endpoints

unfoldable pub get_source_address : Packet → SocketAddress
get_source_address p = (packet_endpoints p).source_address

unfoldable pub get_destination_address : Packet → SocketAddress
get_destination_address p = (packet_endpoints p).destination_address

unfoldable pub get_family : Packet → ℕ
unfolding get_source_address family
get_family p = family (get_source_address p)

-- `serialize` of each class.
abbrev pub icmp_packet_serialize : IcmpPacket → Bytes
icmp_packet_serialize p = serialize_icmp p.icmp_header

abbrev pub tcp_packet_serialize : TcpPacket → Bytes
tcp_packet_serialize p = serialize_tcp p.tcp_header

abbrev pub udp_packet_serialize : UdpPacket → Bytes
udp_packet_serialize p = serialize_udp p.udp_header

unfoldable pub serialize : Packet → Bytes
unfolding serialize_icmp serialize_tcp serialize_udp
serialize (icmp p) = icmp_packet_serialize p
serialize (tcp p) = tcp_packet_serialize p
serialize (udp p) = udp_packet_serialize p
