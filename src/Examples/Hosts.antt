-- ===== src/Examples/Hosts.antt =====
-- Two IPv4 hosts, two IPv6 hosts, packets between them and a receive buffer.
use traceroute.Base.{replicate, ℕ, Bytes}
use traceroute.Address.{SocketAddress, In6Addr, af_inet, af_inet6}
use traceroute.Header.{IcmpHeader, TcpHeader, UdpHeader}
use traceroute.Packet.{Draw, Endpoints, IcmpPacket, TcpPacket, UdpPacket}
use traceroute.Response.{ResponseInfo}

abbrev pub no_words : In6Addr
no_words = record { w0 = 0; w1 = 0; w2 = 0; w3 = 0 }

abbrev pub six_words : In6Addr
six_words = record { w0 = 0xb80d0120; w1 = 0; w2 = 0; w3 = 0x01000000 }

-- 192.168.0.1 and 10.0.0.7
abbrev pub home : SocketAddress
home = record { ss_family = af_inet; port = 0; word4 = 0x0100a8c0; sin6_addr = no_words }

abbrev pub server : SocketAddress
server = record { ss_family = af_inet; port = 0; word4 = 0x0700000a; sin6_addr = no_words }

-- 2001:db8::1 with a flow label that has the value of 192.168.0.1
abbrev pub server6 : SocketAddress
server6 = record { ss_family = af_inet6; port = 0; word4 = 0x0100a8c0; sin6_addr = six_words }

abbrev pub draw : Draw
draw = record { rand0 = 123456; rand1 = 70000; garbage = 0xbeef }

abbrev pub ends : Endpoints
ends = record { source_address = home; destination_address = server }

abbrev pub echo : IcmpHeader
echo = record { type = 8; code = 0; checksum = 0; id = 0x3412; sequence = 0 }

abbrev pub syn : TcpHeader
syn = record {
  source = 0x61c3;
  dest = 0x5000;
  seq = 0x78563412;
  ack_seq = 0;
  th_x2 = 0;
  th_off = 5;
  th_flags = 2;
  window = 0x8016;
  check = 0;
  urg_ptr = 0;
}

abbrev pub datagram : UdpHeader
datagram = record { source = 0x61c3; dest = 0x9a82; len = 0x0800; check = 0 }

abbrev pub echo_packet : IcmpPacket
echo_packet = record { endpoints = ends; icmp_header = echo }

abbrev pub syn_packet : TcpPacket
syn_packet = record { endpoints = ends; tcp_header = syn }

abbrev pub datagram_packet : UdpPacket
datagram_packet = record { endpoints = ends; udp_header = datagram }

abbrev pub zeros : ℕ → Bytes
zeros n = replicate n 0

-- The bytes of an IPv4 header behind the first one, 0x45.
abbrev pub others4 : Bytes
others4 = zeros 19

abbrev pub from_server : ℕ → ℕ → ResponseInfo
from_server protocol size = record { client = server; protocol = protocol; size = size }
