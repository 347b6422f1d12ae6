-- ===== src/Response/Accept/Tcp.antt =====
-- The answers that a TCP SYN packet accepts.
use traceroute.Base.{
  ℕ, ◌+◌, ◌%◌, ◌^◌, ◌≡◌, ◌∙◌, Bool, true, false, ◌&&◌, ◌==◌, if◌then◌else◌, Bytes, ◌∷◌, ◌++◌, ok,
  arith, ntohl, ntohl-lt,
}
use traceroute.Address.{address_eq, is_v4}
use traceroute.Header.{
  IcmpHeader, IsIcmpHeader, TcpHeader, IsTcpHeader, serialize_icmp, serialize_tcp, sizeof_icmp,
  sizeof_tcp,
}
use traceroute.Header.Layout.{read_icmp, read_tcp}
use traceroute.Checksum.{ipproto_tcp}
use traceroute.Packet.{TcpPacket, tcp}
use traceroute.Response.{
  ResponseInfo, is_icmp_protocol, icmp_to_tcp_fields, icmp_to_tcp_validator, tcp_to_tcp_fields,
  tcp_to_tcp_validator, validate_tcp_time_exceeded, validate_dest_unreach, validate_same_sequence,
  get_icmp_type, is_valid, tcp_is_valid, validator_is_valid, icmp_time_exceeded,
  icmp6_time_exceeded, icmp_dest_unreach, icmp6_dst_unreach,
}
use traceroute.Response.Accept.Wrap.{
  IsIpHeader, Outer, wrap, IsOuter, IsReceived, validator_is_valid_fields, inner, fits_in,
  advance_to_quoted_lem,
}

-- The ICMP types that tell of an expired time to live and of an unreachable destination, for the
-- protocol version of the host that sent the message.
abbrev pub exceeded_type : Bool → ℕ
exceeded_type v4 = if v4 then icmp_time_exceeded else icmp6_time_exceeded

abbrev pub unreachable_type : Bool → ℕ
unreachable_type v4 = if v4 then icmp_dest_unreach else icmp6_dst_unreach

-- What such a message that quotes a packet with the sequence number `seq` is worth.
abbrev pub quoted_answer : TcpPacket → ResponseInfo → ℕ → ℕ → Bool
quoted_answer packet info type seq =
    if type == exceeded_type (is_v4 info.client)
    then seq == packet.tcp_header.seq
    else if type == unreachable_type (is_v4 info.client)
    then address_eq info.client packet.destination_address && seq == packet.tcp_header.seq
    else false

quoted_seq :
    (packet : TcpPacket) (h : IcmpHeader) (quoted : TcpHeader) (b : ℕ) (others rest : Bytes)
    → IsIpHeader b others
    → IsTcpHeader quoted
    → validate_tcp_time_exceeded
        (serialize_icmp h ++ (b ∷ (others ++ (serialize_tcp quoted ++ rest))))
        packet
      ≡ ok (quoted.seq == packet.tcp_header.seq)
unfolding validate_tcp_time_exceeded validate_same_sequence
quoted_seq packet h quoted b others rest i q =
    rw (
      advance_to_quoted_lem h b others (serialize_tcp quoted ++ rest) i,
      (read_tcp quoted rest q).0,
    )

quoted_fields :
    (packet : TcpPacket) (info : ResponseInfo) (h : IcmpHeader) (quoted : TcpHeader) (b : ℕ)
    (others rest : Bytes)
    → IsIcmpHeader h
    → IsIpHeader b others
    → IsTcpHeader quoted
    → icmp_to_tcp_fields packet info
        (serialize_icmp h ++ (b ∷ (others ++ (serialize_tcp quoted ++ rest))))
      ≡ ok (quoted_answer packet info h.type quoted.seq)
unfolding icmp_to_tcp_fields get_icmp_type validate_dest_unreach
quoted_fields packet info h quoted b others rest v i q =
    rw
      (
        (read_icmp h (b ∷ (others ++ (serialize_tcp quoted ++ rest))) v).0,
        quoted_seq packet h quoted b others rest i q,
      )
      (ground arith)

icmp_by_fields :
    (packet : TcpPacket) (info : ResponseInfo) (o : Outer) (h : IcmpHeader) (rest : Bytes)
    → IsOuter o h.type
    → IsReceived o (sizeof_icmp + sizeof_tcp) info
    → is_icmp_protocol info.protocol ≡ true
    → validator_is_valid
        (icmp_to_tcp_validator (record { packet = packet }))
        info
        (wrap o (serialize_icmp h ++ rest))
      ≡ icmp_to_tcp_fields packet (inner o info) (serialize_icmp h ++ rest)
unfolding serialize_icmp
icmp_by_fields packet info o h rest w r p =
    validator_is_valid_fields (icmp_to_tcp_validator (record { packet = packet })) o info h.type
      (sizeof_icmp + sizeof_tcp) _ w r p (fits_in (sizeof_icmp + sizeof_tcp) o info r)

not_icmp : (protocol : ℕ) → protocol ≡ ipproto_tcp → is_icmp_protocol protocol ≡ false
not_icmp protocol h = ground arith

is_tcp : (protocol : ℕ) → protocol ≡ ipproto_tcp → (protocol == ipproto_tcp) ≡ true
is_tcp protocol h = ground arith

-- An ICMP message that quotes a TCP packet is accepted exactly when the quoted sequence number is
-- the packet's and the message is a time-exceeded from any host or a destination-unreachable from
-- the packet's destination; the types are those of the protocol version of the sender.
pub is_valid_tcp_quoted :
    (packet : TcpPacket) (info : ResponseInfo) (o : Outer) (h : IcmpHeader) (quoted : TcpHeader)
    (b : ℕ) (others rest : Bytes)
    → IsIcmpHeader h
    → IsIpHeader b others
    → IsTcpHeader quoted
    → IsOuter o h.type
    → IsReceived o (sizeof_icmp + sizeof_tcp) info
    → is_icmp_protocol info.protocol ≡ true
    → is_valid
        (tcp packet)
        info
        (wrap o (serialize_icmp h ++ (b ∷ (others ++ (serialize_tcp quoted ++ rest)))))
      ≡ ok (quoted_answer packet info h.type quoted.seq)
unfolding is_valid tcp_is_valid
is_valid_tcp_quoted packet info o h quoted b others rest v i q w r p = rw p (
    icmp_by_fields packet info o h _ w r p
    ∙ quoted_fields packet (inner o info) h quoted b others rest v i q)

reply_fields :
    (packet : TcpPacket) (info : ResponseInfo) (reply : TcpHeader) (rest : Bytes)
    → IsTcpHeader reply
    → tcp_to_tcp_fields packet info (serialize_tcp reply ++ rest)
      ≡ ok (
          address_eq packet.destination_address info.client
          && ntohl reply.ack_seq == (ntohl packet.tcp_header.seq + 1) % 2 ^ 32)
unfolding tcp_to_tcp_fields
reply_fields packet info reply rest v =
    rw (read_tcp reply rest v).1
      (ground (arith, ntohl-lt reply.ack_seq, ntohl-lt packet.tcp_header.seq))

-- A TCP segment is accepted exactly when it comes from the packet's destination and acknowledges
-- the packet's sequence number: its acknowledgement number, in host order, is one more modulo 2 ^
-- 32. A segment without an IP header before it must not look like one that begins with one.
pub is_valid_tcp_reply :
    (packet : TcpPacket) (info : ResponseInfo) (o : Outer) (reply : TcpHeader) (rest : Bytes)
    → IsTcpHeader reply
    → IsOuter o (reply.source % 256)
    → IsReceived o sizeof_tcp info
    → info.protocol ≡ ipproto_tcp
    → is_valid (tcp packet) info (wrap o (serialize_tcp reply ++ rest))
      ≡ ok (
          address_eq packet.destination_address info.client
          && ntohl reply.ack_seq == (ntohl packet.tcp_header.seq + 1) % 2 ^ 32)
unfolding is_valid tcp_is_valid serialize_tcp
is_valid_tcp_reply packet info o reply rest v w r p =
    rw (not_icmp info.protocol p, is_tcp info.protocol p)
      (validator_is_valid_fields (tcp_to_tcp_validator (record { packet = packet })) o info
          (reply.source % 256) sizeof_tcp _ w r (is_tcp info.protocol p)
          (fits_in sizeof_tcp o info r)
        ∙ reply_fields packet (inner o info) reply rest v)
