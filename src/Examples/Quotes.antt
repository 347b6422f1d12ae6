-- ===== src/Examples/Quotes.antt =====
-- A router answers the SYN packet of a factory.
use traceroute.Base.{◌≡◌, refl, true, false, [], some, ok, arith}
use traceroute.Address.{SocketAddress, address_eq, is_v4, family, same_words, af_inet}
use traceroute.Checksum.{tcp_header_checksum}
use traceroute.Packet.{
  Packet, PacketFactory, tcp, tcp_factory, create_packet, create_tcp_packet, make_endpoints,
  tcp_header_of, get_destination_address,
}
use traceroute.Response.{ResponseInfo, is_valid}
use traceroute.Response.Accept.Own.{exceeded_message, is_valid_own}
use traceroute.Examples.Hosts.{home, server, draw, ends, others4, no_words}
use traceroute.Examples.Answers.{exceeded, header4}

abbrev factory : PacketFactory
factory = tcp_factory (record { source = home; destination = server; dport = 80 })

built : Packet
unfolding tcp_header_of
built = tcp (record {
  endpoints = ends;
  tcp_header = record (tcp_header_of 80 draw) {
    check = tcp_header_checksum (tcp_header_of 80 draw) home server;
  };
})

built-create_packet : create_packet factory draw ≡ ok built
unfolding create_packet create_tcp_packet make_endpoints family is_v4 built
built-create_packet = refl

-- 192.168.0.254
abbrev router : SocketAddress
router = record { ss_family = af_inet; port = 0; word4 = 0xfe00a8c0; sin6_addr = no_words }

abbrev from_router : ResponseInfo
from_router = record { client = router; protocol = 1; size = 68 }

router-is_v4 : is_v4 from_router.client ≡ true
unfolding is_v4
router-is_v4 = refl

elsewhere : address_eq (get_destination_address built) router ≡ false
unfolding address_eq family is_v4 same_words get_destination_address built
elsewhere = refl

is_valid_own_example :
    is_valid built from_router
      (exceeded_message (some (0x45, others4)) exceeded 0x45 others4 built 7 [])
    ≡ ok true
is_valid_own_example =
    is_valid_own from_router (some (0x45, others4)) exceeded 0x45 others4 [] 7 (omega arith)
      (omega arith) (rw router-is_v4) header4 header4 (omega arith) refl factory draw built
      (omega arith) built-create_packet elsewhere
