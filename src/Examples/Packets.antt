-- ===== src/Examples/Packets.antt =====
-- Packets built.
use traceroute.Base.{◌≡◌, refl, true, ok, arith}
use traceroute.Address.{is_v4, family}
use traceroute.Checksum.Verify.{Verifies}
use traceroute.Checksum.{udp_header_checksum}
use traceroute.Packet.{
  Packet, udp, PacketFactory, icmp_factory, udp_factory, create_packet, make_endpoints,
  create_udp_packet, udp_header_of,
}
use traceroute.Packet.Wire.{covered, create_packet-Verifies}
use traceroute.Examples.Hosts.{home, server, server6, draw, ends}

abbrev factory : PacketFactory
factory = udp_factory (record { source = home; destination = server; dport = 33434 })

built : Packet
unfolding udp_header_of
built = udp (record {
  endpoints = ends;
  udp_header = record (udp_header_of 33434 draw) {
    check = udp_header_checksum (udp_header_of 33434 draw) home server;
  };
})

create_run : create_packet factory draw ≡ ok built
unfolding create_packet create_udp_packet make_endpoints family is_v4 built
create_run = refl

home_v4 : is_v4 home ≡ true
unfolding is_v4
home_v4 = refl

create_packet-Verifies_example : Verifies (covered built)
create_packet-Verifies_example =
    create_packet-Verifies factory draw built (omega arith) (omega arith) home_v4 create_run

-- The families of the addresses differ.
abbrev mixed : PacketFactory
mixed = icmp_factory (record { source = home; destination = server6 })
