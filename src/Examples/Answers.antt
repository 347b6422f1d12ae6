-- ===== src/Examples/Answers.antt =====
-- Messages judged.
use traceroute.Base.{
  true, ap, ◌∙◌, Bytes, ◌+◌, ◌%◌, ◌^◌, ◌≡◌, inl, refl, ◌&&◌, ◌==◌, [], ◌∷◌, ◌++◌, some, ok, throw,
  invalid_ip_header, IsDefined, arith, ntohl,
}
use traceroute.Address.{address_eq}
use traceroute.Header.{IcmpHeader, TcpHeader, serialize_icmp, serialize_tcp}
use traceroute.Response.Session.{is_valid-SameSession}
use traceroute.Packet.{IcmpPacket, icmp, tcp, udp}
use traceroute.Response.{header_size, is_valid}
use traceroute.Response.Safety.{is_valid-IsDefined}
use traceroute.Response.Accept.Wrap.{wrap}
use traceroute.Response.Accept.Icmp.{
  is_valid_echo_reply, is_valid_icmp_exceeded, is_valid_icmp_garbage,
}
use traceroute.Response.Accept.Tcp.{quoted_answer, is_valid_tcp_quoted, is_valid_tcp_reply}
use traceroute.Response.Accept.Udp.{expected_type, is_valid_udp}
use traceroute.Response.Truncated.{is_valid_truncated, is_valid_misread}
use traceroute.Examples.Hosts.{
  ends, home, server, echo, syn, echo_packet, syn_packet, datagram_packet, zeros, others4,
  from_server,
}

abbrev reply : IcmpHeader
reply = record echo { type = 0 }

abbrev pub exceeded : IcmpHeader
exceeded = record { type = 11; code = 0; checksum = 0; id = 0; sequence = 0 }

abbrev unreachable : IcmpHeader
unreachable = record { type = 3; code = 3; checksum = 0; id = 0; sequence = 0 }

pub header4 : header_size 0x45 ≡ ok 20
unfolding header_size
header4 = refl

is_valid-IsDefined_example : IsDefined (is_valid (icmp echo_packet) (from_server 1 84) (zeros 200))
is_valid-IsDefined_example =
    is_valid-IsDefined (icmp echo_packet) (from_server 1 84) (zeros 200) (omega arith)

is_valid_echo_reply_example :
    is_valid
      (icmp echo_packet)
      (from_server 1 28)
      (wrap (some (0x45, others4)) (serialize_icmp reply ++ zeros 100))
    ≡ ok (address_eq server server && 0x3412 == 0x3412)
is_valid_echo_reply_example =
    is_valid_echo_reply echo_packet (from_server 1 28) (some (0x45, others4)) reply (zeros 100)
      (omega arith) (inl refl) header4 (omega arith) refl

is_valid_icmp_exceeded_example :
    is_valid (icmp echo_packet) (from_server 1 56) (
      wrap
        (some (0x45, others4))
        (serialize_icmp exceeded ++ (0x45 ∷ (others4 ++ (serialize_icmp echo ++ [])))))
    ≡ ok (0x3412 == 0x3412)
is_valid_icmp_exceeded_example =
    is_valid_icmp_exceeded echo_packet (from_server 1 56) (some (0x45, others4)) exceeded echo 0x45
      others4 [] (omega arith) (inl refl) header4 (omega arith) header4 (omega arith) refl

-- The same echo request to another host.
abbrev other_packet : IcmpPacket
other_packet = record echo_packet { endpoints = record ends { destination_address = home } }

abbrev quoting_echo : Bytes
quoting_echo =
    wrap (some (0x45, others4))
      (serialize_icmp exceeded ++ (0x45 ∷ (others4 ++ (serialize_icmp echo ++ []))))

accepts_quoted :
    (packet : IcmpPacket)
    → packet.icmp_header ≡ echo
    → is_valid (icmp packet) (from_server 1 56) quoting_echo ≡ ok true
accepts_quoted packet e =
    is_valid_icmp_exceeded packet (from_server 1 56) (some (0x45, others4)) exceeded echo 0x45
      others4 [] (omega arith) (inl refl) header4 (omega arith) header4 (omega arith) refl
    ∙ ap (λ (h : IcmpHeader). ok (0x3412 == h.id)) e

is_valid-SameSession_example : echo_packet.icmp_header.id ≡ other_packet.icmp_header.id
is_valid-SameSession_example =
    is_valid-SameSession (icmp echo_packet) (icmp other_packet) (from_server 1 56) quoting_echo
      (accepts_quoted echo_packet refl) (accepts_quoted other_packet refl)

is_valid_icmp_garbage_example :
    is_valid
      (icmp echo_packet)
      (from_server 1 28)
      (wrap (some (0x45, others4)) (serialize_icmp exceeded ++ (0 ∷ zeros 100)))
    ≡ throw invalid_ip_header
is_valid_icmp_garbage_example =
    is_valid_icmp_garbage echo_packet (from_server 1 28) (some (0x45, others4)) exceeded 0
      (zeros 100) (omega arith) (inl refl) (omega arith) (omega arith) header4 (omega arith) refl

is_valid_tcp_quoted_example :
    is_valid (tcp syn_packet) (from_server 1 68) (
      wrap
        (some (0x45, others4))
        (serialize_icmp unreachable ++ (0x45 ∷ (others4 ++ (serialize_tcp syn ++ [])))))
    ≡ ok (quoted_answer syn_packet (from_server 1 68) 3 0x78563412)
is_valid_tcp_quoted_example =
    is_valid_tcp_quoted syn_packet (from_server 1 68) (some (0x45, others4)) unreachable syn 0x45
      others4 [] (omega arith) header4 (omega arith) header4 (omega arith) refl

-- A SYN-ACK: the ports are swapped, and the acknowledgement is one more.
abbrev syn_ack : TcpHeader
syn_ack = record syn { source = 0x5000; dest = 0x61c3; ack_seq = 0x79563412 }

is_valid_tcp_reply_example :
    is_valid
      (tcp syn_packet)
      (from_server 6 40)
      (wrap (some (0x45, others4)) (serialize_tcp syn_ack ++ zeros 100))
    ≡ ok (address_eq server server && ntohl 0x79563412 == (ntohl 0x78563412 + 1) % 2 ^ 32)
is_valid_tcp_reply_example =
    is_valid_tcp_reply syn_packet (from_server 6 40) (some (0x45, others4)) syn_ack (zeros 100)
      (omega arith) header4 (omega arith) refl

is_valid_udp_example :
    is_valid
      (udp datagram_packet)
      (from_server 1 56)
      (wrap (some (0x45, others4)) (serialize_icmp unreachable ++ zeros 100))
    ≡ ok (3 == expected_type datagram_packet (from_server 1 56))
is_valid_udp_example =
    is_valid_udp datagram_packet (from_server 1 56) (some (0x45, others4)) unreachable (zeros 100)
      (omega arith) header4 (omega arith) refl

-- One byte was received; the others are stale.
is_valid_truncated_example :
    is_valid (icmp echo_packet) (from_server 1 1) (0x45 ∷ (others4 ++ (serialize_icmp reply ++ [])))
    ≡ is_valid
        (icmp echo_packet)
        (from_server 1 48)
        (0x45 ∷ (others4 ++ (serialize_icmp reply ++ [])))
is_valid_truncated_example =
    is_valid_truncated (icmp echo_packet) (from_server 1 1) 0x45 others4
      (serialize_icmp reply ++ []) header4 (omega arith) (omega arith)

-- Port 25000, 0x61a8.
abbrev from_25000 : TcpHeader
from_25000 = record syn_ack { source = 0xa861 }

is_valid_misread_example :
    is_valid (tcp syn_packet) (from_server 6 20) (serialize_tcp from_25000 ++ zeros 100)
    ≡ is_valid
        (tcp syn_packet)
        (from_server 6 20)
        (serialize_tcp (record from_25000 { ack_seq = 0 }) ++ zeros 100)
is_valid_misread_example =
    is_valid_misread syn_packet (from_server 6 20) from_25000 (record from_25000 { ack_seq = 0 })
      (zeros 100) (omega arith) (omega arith) (omega arith)
