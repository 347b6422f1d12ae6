-- ===== src/Response.antt =====
-- src/ResponseInfo.cpp and src/ResponseValidators: is a received message the answer to a packet?
-- A `const char *` is the list of the bytes from it to the end of the receive buffer, which may
-- hold more than the message; `size` is a `size_t` of 64 bits.
pub mod Safety
pub mod Accept
pub mod Truncated
pub mod Fields
pub mod Session
pub use traceroute.IpHeader.{ResponseInfo, version, ihl}
unfoldable pub use traceroute.IpHeader.{
  header_size, get_ip_header_size, is_ip_header_present, skip_size, skip_ip_header,
  validate_same_sequence, validate_session, get_icmp_type, advance_to_quoted,
}
pub use traceroute.Validator.{
  Validator, icmp_echoreply, icmp_dest_unreach, icmp_time_exceeded, icmp6_dst_unreach,
  icmp6_time_exceeded, icmp6_echo_reply, is_icmp_protocol,
}
unfoldable pub use traceroute.Validator.{validate_all, validator_is_valid}
use traceroute.Base.{
  ℕ, suc, ◌+◌, ◌-◌, ◌*◌, ◌/◌, ◌%◌, ◌^◌, ◌≡◌, Bool, true, false, ◌||◌, ◌==◌, ltb, leb, if◌then◌else◌,
  Bytes, load8, ntohl, drop, Outcome, ok, throw, ◌>>=◌, no_ip_header, invalid_ip_header,
}
use traceroute.Address.{SocketAddress, is_v4, address_eq}
use traceroute.Header.{
  IcmpHeader, TcpHeader, icmp_type, icmp_id, tcp_seq, tcp_ack_seq, sizeof_icmp, sizeof_tcp,
  sizeof_udp, sizeof_ipv6,
}
use traceroute.Checksum.{ipproto_icmp, ipproto_icmpv6, ipproto_tcp}
use traceroute.Packet.{Packet, IcmpPacket, TcpPacket, UdpPacket, icmp, tcp, udp}

unfoldable pub validate_echo_reply : Bytes → IcmpPacket → SocketAddress → Outcome Bool
validate_echo_reply icmp_header packet client =
    if address_eq client packet.destination_address
    then validate_session icmp_header packet.icmp_header
    else ok false

unfoldable pub validate_icmp_time_exceeded : Bytes → IcmpPacket → Outcome Bool
validate_icmp_time_exceeded icmp_header packet = do
  inner_icmp_header ← advance_to_quoted icmp_header
  validate_session inner_icmp_header packet.icmp_header

unfoldable pub icmp_fields : IcmpPacket → ResponseInfo → Bytes → Outcome Bool
icmp_fields packet info response = do
  type ← get_icmp_type response
  if type == icmp_echoreply || type == icmp6_echo_reply
      then validate_echo_reply response packet info.client
      else if type == icmp_time_exceeded || type == icmp6_time_exceeded
      then validate_icmp_time_exceeded response packet
      else ok false

-- The packet that the validator refers to.
pub record IcmpResponseValidator : Type 0 where
  pub packet : IcmpPacket

abbrev pub icmp_validator : IcmpResponseValidator → Validator
icmp_validator v = record {
  validate_protocol = is_icmp_protocol;
  validate_size = leb sizeof_icmp;
  validate_fields = icmp_fields v.packet;
}

unfoldable pub validate_tcp_time_exceeded : Bytes → TcpPacket → Outcome Bool
validate_tcp_time_exceeded icmp_header packet = do
  tcp_header ← advance_to_quoted icmp_header
  validate_same_sequence tcp_header packet.tcp_header

-- The branch for the destination does what `validateTimeExceeded` does.
unfoldable pub validate_dest_unreach : Bytes → TcpPacket → SocketAddress → Outcome Bool
validate_dest_unreach icmp_header packet client =
    if address_eq client packet.destination_address
    then validate_tcp_time_exceeded icmp_header packet
    else ok false

unfoldable pub icmp_to_tcp_fields : TcpPacket → ResponseInfo → Bytes → Outcome Bool
icmp_to_tcp_fields packet info response = do
  type ← get_icmp_type response
  if is_v4 info.client
      then if type == icmp_dest_unreach
        then validate_dest_unreach response packet info.client
        else if type == icmp_time_exceeded
        then validate_tcp_time_exceeded response packet
        else ok false
      else if type == icmp6_dst_unreach
      then validate_dest_unreach response packet info.client
      else if type == icmp6_time_exceeded
      then validate_tcp_time_exceeded response packet
      else ok false

-- For messages of ICMP.
pub record IcmpToTcpResponseValidator : Type 0 where
  pub packet : TcpPacket

abbrev pub icmp_to_tcp_validator : IcmpToTcpResponseValidator → Validator
icmp_to_tcp_validator v = record {
  validate_protocol = is_icmp_protocol;
  validate_size = leb (sizeof_icmp + sizeof_tcp);
  validate_fields = icmp_to_tcp_fields v.packet;
}

-- `ack_seq - 1` is a difference of 32-bit words.
unfoldable pub tcp_to_tcp_fields : TcpPacket → ResponseInfo → Bytes → Outcome Bool
tcp_to_tcp_fields packet info response =
    if address_eq packet.destination_address info.client
    then (do
      ack ← tcp_ack_seq response
      ok ((ntohl ack + 2 ^ 32 - 1) % 2 ^ 32 == ntohl packet.tcp_header.seq))
    else ok false

-- For segments of TCP.
pub record TcpToTcpResponseValidator : Type 0 where
  pub packet : TcpPacket

abbrev pub tcp_to_tcp_validator : TcpToTcpResponseValidator → Validator
tcp_to_tcp_validator v = record {
  validate_protocol = λ protocol. protocol == ipproto_tcp;
  validate_size = leb sizeof_tcp;
  validate_fields = tcp_to_tcp_fields v.packet;
}

unfoldable pub udp_fields : UdpPacket → ResponseInfo → Bytes → Outcome Bool
udp_fields packet info response = do
  type ← icmp_type response
  ok (
      if is_v4 info.client
      then if address_eq packet.destination_address info.client
        then type == icmp_dest_unreach
        else type == icmp_time_exceeded
      else if address_eq packet.destination_address info.client
      then type == icmp6_dst_unreach
      else type == icmp6_time_exceeded)

-- The packet that the validator refers to.
pub record UdpResponseValidator : Type 0 where
  pub packet : UdpPacket

abbrev pub udp_validator : UdpResponseValidator → Validator
udp_validator v = record {
  validate_protocol = is_icmp_protocol;
  validate_size = leb (sizeof_icmp + sizeof_udp);
  validate_fields = udp_fields v.packet;
}

-- It has a validator for each protocol.
pub record TcpResponseValidator : Type 0 where
  pub tcp_to_tcp : TcpToTcpResponseValidator
  pub icmp_to_tcp : IcmpToTcpResponseValidator

abbrev pub make_tcp_validator : TcpPacket → TcpResponseValidator
make_tcp_validator packet = record {
  tcp_to_tcp = record { packet = packet };
  icmp_to_tcp = record { packet = packet };
}

-- `TcpResponseValidator::isValid`.
unfoldable pub tcp_is_valid : TcpResponseValidator → ResponseInfo → Bytes → Outcome Bool
tcp_is_valid v info response =
    if is_icmp_protocol info.protocol
    then validator_is_valid (icmp_to_tcp_validator v.icmp_to_tcp) info response
    else if info.protocol == ipproto_tcp
    then validator_is_valid (tcp_to_tcp_validator v.tcp_to_tcp) info response
    else ok false

-- `isValid` of each class of packets.
abbrev pub icmp_packet_is_valid : IcmpPacket → ResponseInfo → Bytes → Outcome Bool
icmp_packet_is_valid packet info response =
    validator_is_valid (icmp_validator (record { packet = packet })) info response

abbrev pub tcp_packet_is_valid : TcpPacket → ResponseInfo → Bytes → Outcome Bool
tcp_packet_is_valid packet info response = tcp_is_valid (make_tcp_validator packet) info response

abbrev pub udp_packet_is_valid : UdpPacket → ResponseInfo → Bytes → Outcome Bool
udp_packet_is_valid packet info response =
    validator_is_valid (udp_validator (record { packet = packet })) info response

unfoldable pub is_valid : Packet → ResponseInfo → Bytes → Outcome Bool
unfolding tcp_is_valid
is_valid (icmp packet) info response = icmp_packet_is_valid packet info response
is_valid (tcp packet) info response = tcp_packet_is_valid packet info response
is_valid (udp packet) info response = udp_packet_is_valid packet info response
